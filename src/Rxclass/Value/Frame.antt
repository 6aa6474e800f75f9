-- ===== src/Rxclass/Value/Frame.antt =====
-- What rxclass_get_val leaves in the rule.
use ethtool.Base.{
  ℕ, ◌+◌, ◌≤◌, ◌<◌, ◌≡◌, ◌⊎◌, inl, inr, refl, sym, ap, ◌∙◌, subst, bit_and, bit_or, Bool, true,
  false, Option, none, some, List, ◌==◌, arith, ==_iff, length, replicate, length-replicate, get_or,
  Bool-cases,
}
use ethtool.Base.Bytes.{
  le_bytes, le_value, load, store, length-store, load-store, load-store_disjoint,
  get_or-store_outside,
}
use ethtool.Base.Maybe.{◌>>=◌, >>=-some, some_eq, none_absurd}
use ethtool.FlowSpec.{FlowSpec}
use ethtool.FlowSpec.Offsets.{spec_size}
use ethtool.Rxclass.{
  RuleOpts, OptType, opt_none, opt_s32, opt_u8, opt_u16, opt_u32, opt_u64, opt_ring_vf,
  opt_ring_queue, opt_be16, opt_be32, opt_be64, opt_ip4, opt_ip6, opt_mac,
}
use ethtool.Rxclass.Value.{
  Inet, Filling, field_bytes, put_val, put_value, put_ones, put_cookie, put_vf, put_queue,
  rxclass_get_val, rxclass_get_ulong,
}
use ethtool.Rxclass.Value.Width.{
  width, IsInet, Fits, MaskFits, Outside, OutsideMask, length-field_bytes,
}

-- The two options that write a part of the ring cookie.
abbrev pub is_ring : OptType → Bool
is_ring opt_ring_vf = true
is_ring opt_ring_queue = true
is_ring _ = false

abbrev pub Ones : FlowSpec → Option ℕ → ℕ → Type 0
Ones p none n = Unit
Ones p (some moffset) n = load p moffset n ≡ replicate n 255

module _ (opt : RuleOpts) (p : FlowSpec) (bytes : List ℕ) (whole : length p ≡ spec_size)
    (wide : length bytes ≡ width opt.type) where
  put_ones-Ones :
      (m : Option ℕ)
      → MaskFits opt m
      → Ones (put_ones (store p opt.offset bytes) m (length bytes)) m (length bytes)
  put_ones-Ones none f = tt
  put_ones-Ones (some m) f =
      ap (load _ m) (sym (length-replicate (length bytes) 255))
      ∙ load-store _ m (replicate (length bytes) 255) (
          omega (
            arith,
            f.0,
            length-store p opt.offset bytes,
            length-replicate {0} {A = ℕ} (length bytes) 255,
          ))

  load-put_ones :
      (m : Option ℕ)
      → opt.offset + width opt.type ≤ spec_size
      → MaskFits opt m
      → load (put_ones (store p opt.offset bytes) m (length bytes)) opt.offset (length bytes)
        ≡ bytes
  load-put_ones none o f = load-store p opt.offset bytes (omega arith)
  load-put_ones (some m) o f =
      load-store_disjoint (store p opt.offset bytes) m (replicate (length bytes) 255) opt.offset
        (length bytes) (omega (arith, f.1, length-replicate {0} {A = ℕ} (length bytes) 255))
      ∙ load-store p opt.offset bytes (omega arith)

  get_or-put_ones :
      (m : Option ℕ) (i : ℕ)
      → (i < opt.offset) ⊎ (opt.offset + width opt.type ≤ i)
      → OutsideMask opt i m
      → get_or (put_ones (store p opt.offset bytes) m (length bytes)) i 0 ≡ get_or p i 0
  get_or-put_ones none i o f = get_or-store_outside p opt.offset bytes i (omega arith)
  get_or-put_ones (some m) i o f =
      get_or-store_outside (store p opt.offset bytes) m (replicate (length bytes) 255) i
        (omega (arith, length-replicate {0} {A = ℕ} (length bytes) 255))
      ∙ get_or-store_outside p opt.offset bytes i (omega arith)

  length-put_ones :
      (m : Option ℕ) → length (put_ones (store p opt.offset bytes) m (length bytes)) ≡ length p
  length-put_ones none = length-store p opt.offset bytes
  length-put_ones (some m) =
      length-store (store p opt.offset bytes) m (replicate (length bytes) 255)
      ∙ length-store p opt.offset bytes

-- The option's field holds the bytes, its mask, if it takes one, all ones, and no other byte changed.
pub record Written (opt : RuleOpts) (p p' : FlowSpec) (bytes : List ℕ) : Type 0 where
  pub same_length : length p' ≡ length p
  pub wide : length bytes ≡ width opt.type
  pub value : load p' opt.offset (length bytes) ≡ bytes
  pub ones : is_ring opt.type ≡ false → Ones p' opt.moffset (length bytes)
  pub frame : (i : ℕ) → Outside opt i → get_or p' i 0 ≡ get_or p i 0

-- The bytes that an option's text gives its field, where a ring cookie held `old`.
abbrev pub Gives : Inet → OptType → List ℕ → ℕ → List ℕ → Type 0
Gives inet opt_ring_vf str old bytes =
    (v : ℕ) × (rxclass_get_ulong str 8 ≡ some v) × (bytes ≡ le_bytes 8 (put_vf old v))
Gives inet opt_ring_queue str old bytes =
    (v : ℕ) × (rxclass_get_ulong str 32 ≡ some v) × (bytes ≡ le_bytes 8 (put_queue old v))
Gives inet type str old bytes = field_bytes inet type str ≡ some bytes

plain-Gives :
    (inet : Inet) (type : OptType) (str : List ℕ) (old : ℕ) (bytes : List ℕ)
    → is_ring type ≡ false
    → field_bytes inet type str ≡ some bytes
    → Gives inet type str old bytes
plain-Gives inet opt_ring_vf str old bytes h e = cc
plain-Gives inet opt_ring_queue str old bytes h e = cc
plain-Gives inet _ str old bytes h e = e

put_value-Written :
    (opt : RuleOpts) (p : FlowSpec) (bytes : List ℕ)
    → length p ≡ spec_size
    → Fits opt
    → length bytes ≡ width opt.type
    → Written opt p (put_value p opt bytes) bytes
put_value-Written opt p bytes whole fits wide = record {
  same_length = length-put_ones opt p bytes whole wide opt.moffset;
  wide = wide;
  value = load-put_ones opt p bytes whole wide opt.moffset fits.0 fits.1;
  ones = λ _. put_ones-Ones opt p bytes whole wide opt.moffset fits.1;
  frame = λ i out. get_or-put_ones opt p bytes whole wide opt.moffset i out.0 out.1;
}

put_cookie-Written :
    (opt : RuleOpts) (p : FlowSpec) (f : ℕ → ℕ)
    → length p ≡ spec_size
    → Fits opt
    → width opt.type ≡ 8
    → is_ring opt.type ≡ true
    → Written opt p (put_cookie p opt f) (le_bytes 8 (f (le_value (load p opt.offset 8))))
put_cookie-Written opt p f whole fits wide ring =
    let bytes : List ℕ = le_bytes 8 (f (le_value (load p opt.offset 8))) in
    record {
      same_length = length-store p opt.offset bytes;
      wide = sym wide;
      value = load-store p opt.offset bytes (omega (arith, fits.0, wide));
      ones = λ plain. let off : false ≡ true = sym plain ∙ ring in cc;
      frame = λ i out. get_or-store_outside p opt.offset bytes i (omega (arith, out.0, wide));
    }

module _ (inet : Inet) (ok : IsInet inet) (str : List ℕ) (opt : RuleOpts) (p : FlowSpec)
    (whole : length p ≡ spec_size) (fits : Fits opt) where
  -- What is known of the rule that put_val returns.
  abbrev Puts : FlowSpec → Type 0
  Puts p' =
      (bytes : List ℕ) × Written opt p p' bytes
      × Gives inet opt.type str (le_value (load p opt.offset 8)) bytes

  field-Puts :
      (type : OptType) {p' : FlowSpec}
      → is_ring type ≡ false
      → opt.type ≡ type
      → (field_bytes inet type str >>= λ bytes. some (put_value p opt bytes)) ≡ some p'
      → Puts p'
  field-Puts type plain e h =
      let (bytes, read, e') = >>=-some (field_bytes inet type str) _ h in
      let read' : field_bytes inet opt.type str ≡ some bytes =
        ap (λ t. field_bytes inet t str) e ∙ read in
      let put =
        put_value-Written opt p bytes whole fits
          (length-field_bytes inet ok opt.type str bytes read') in
      (
        bytes,
        subst (λ q. Written opt p q bytes) (some_eq e') put,
        plain-Gives inet opt.type str _ bytes (ap is_ring e ∙ plain) read',
      )

  cookie-Puts :
      (f : ℕ → ℕ → ℕ) (size : ℕ) {p' : FlowSpec}
      → width opt.type ≡ 8
      → is_ring opt.type ≡ true
      → ((v : ℕ)
          → rxclass_get_ulong str size ≡ some v
          → Gives inet opt.type str
              (le_value (load p opt.offset 8))
              (le_bytes 8 (f (le_value (load p opt.offset 8)) v)))
      → (rxclass_get_ulong str size >>= λ v. some (put_cookie p opt (λ c. f c v))) ≡ some p'
      → Puts p'
  cookie-Puts f size wide ring gives h =
      let (v, read, e') = >>=-some (rxclass_get_ulong str size) _ h in
      let bytes : List ℕ = le_bytes 8 (f (le_value (load p opt.offset 8)) v) in
      let put = put_cookie-Written opt p (λ c. f c v) whole fits wide ring in
      (bytes, subst (λ q. Written opt p q bytes) (some_eq e') put, gives v read)

  put_val-Puts :
      (type : OptType) {p' : FlowSpec}
      → opt.type ≡ type
      → put_val inet str p opt type ≡ some p'
      → Puts p'
  unfolding put_val
  put_val-Puts opt_ring_vf e h =
      cookie-Puts put_vf 8 (ap width e) (ap is_ring e)
        (λ v read.
          subst
            (λ t.
              Gives inet t str (le_value (load p opt.offset 8))
                (le_bytes 8 (put_vf (le_value (load p opt.offset 8)) v)))
            (sym e) (v, read, refl))
        h
  put_val-Puts opt_ring_queue e h =
      cookie-Puts put_queue 32 (ap width e) (ap is_ring e)
        (λ v read.
          subst
            (λ t.
              Gives inet t str (le_value (load p opt.offset 8))
                (le_bytes 8 (put_queue (le_value (load p opt.offset 8)) v)))
            (sym e) (v, read, refl))
        h
  put_val-Puts opt_none e h = field-Puts opt_none refl e h
  put_val-Puts opt_s32 e h = field-Puts opt_s32 refl e h
  put_val-Puts opt_u8 e h = field-Puts opt_u8 refl e h
  put_val-Puts opt_u16 e h = field-Puts opt_u16 refl e h
  put_val-Puts opt_u32 e h = field-Puts opt_u32 refl e h
  put_val-Puts opt_u64 e h = field-Puts opt_u64 refl e h
  put_val-Puts opt_be16 e h = field-Puts opt_be16 refl e h
  put_val-Puts opt_be32 e h = field-Puts opt_be32 refl e h
  put_val-Puts opt_be64 e h = field-Puts opt_be64 refl e h
  put_val-Puts opt_ip4 e h = field-Puts opt_ip4 refl e h
  put_val-Puts opt_ip6 e h = field-Puts opt_ip6 refl e h
  put_val-Puts opt_mac e h = field-Puts opt_mac refl e h

  -- In a rule of 168 bytes, for an option whose field and mask fit it, and with inet_pton giving
  -- 4 or 16 bytes: if the option is accepted, its flag was not set before and is set now, its
  -- field holds bytes of its width, which are those that the text stands for, and of `vf` and `queue`
  -- the cookie with the number put into it; its mask, if it takes one and is neither of these, is all ones; and no other byte of
  -- the rule changes.
  pub rxclass_get_val-Written :
      (flags : ℕ) {f' : Filling}
      → rxclass_get_val inet str (record { p = p; flags = flags }) opt ≡ some f'
      → (bit_and flags opt.flag ≡ 0) × (f'.flags ≡ bit_or flags opt.flag) × Puts f'.p
  unfolding rxclass_get_val
  rxclass_get_val-Written flags h = elim (Bool-cases (bit_and flags opt.flag == 0)) [
    | inr seen ↦ none_absurd (rw seen at h)
    | inl fresh ↦
        let h' : (put_val inet str p opt opt.type >>= λ p'.
        some (record { p = p'; flags = bit_or flags opt.flag }))
            ≡ some _ =
          (rw fresh at h) in
        let (q, put, e) = >>=-some (put_val inet str p opt opt.type) _ h' in
        let e' = some_eq e in
        (
          (==_iff _ _).0 fresh,
          sym (ap (λ f. f.flags) e'),
          subst (λ f. Puts f.p) e' (put_val-Puts opt.type refl put),
        )
  ]
