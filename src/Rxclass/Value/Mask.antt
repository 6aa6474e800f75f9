-- ===== src/Rxclass/Value/Mask.antt =====
-- rxclass_get_val on an option that was seen, and rxclass_get_mask.
use ethtool.Base.{
  ℕ, ◌+◌, ◌^◌, ◌≤◌, ◌<◌, ◌≡◌, ◌≢◌, ◌⊎◌, inl, inr, refl, sym, ap, ◌∙◌, subst, bit_and, bit_or,
  Option, none, some, List, ◌==◌, arith, ==_false, length, get_or, Bool-cases,
}
use ethtool.Base.Bits.{bit_and-bit_or}
use ethtool.Base.Bytes.{load, store, load-store, get_or-store_outside}
use ethtool.Base.Maybe.{◌>>=◌, >>=-some, some_eq, none_absurd}
use ethtool.FlowSpec.{FlowSpec}
use ethtool.FlowSpec.Offsets.{spec_size}
use ethtool.Rxclass.{RuleOpts}
use ethtool.Rxclass.Value.{
  Inet, Filling, field_bytes, put_val, put_mask, rxclass_get_val, rxclass_get_mask, map_bytes,
}
use ethtool.Rxclass.Value.Width.{
  width, IsInet, Fits, MaskFits, length-field_bytes, length-map_bytes,
}

pub val-flags :
    (inet : Inet) (str : List ℕ) (f : Filling) (opt : RuleOpts) {f' : Filling}
    → rxclass_get_val inet str f opt ≡ some f'
    → f'.flags ≡ bit_or f.flags opt.flag
unfolding rxclass_get_val
val-flags inet str f opt h = elim (Bool-cases (bit_and f.flags opt.flag == 0)) [
  | inr seen ↦ none_absurd (rw seen at h)
  | inl fresh ↦
      let h' : (put_val inet str f.p opt opt.type >>= λ p'.
      some (record { p = p'; flags = bit_or f.flags opt.flag }))
          ≡ some _ =
        (rw fresh at h) in
      let (q, put, e) = >>=-some (put_val inet str f.p opt opt.type) _ h' in
      sym (ap (λ g. g.flags) (some_eq e))
]

refuses :
    (inet : Inet) (str : List ℕ) (f : Filling) (opt : RuleOpts)
    → bit_and f.flags opt.flag ≢ 0
    → rxclass_get_val inet str f opt ≡ none
unfolding rxclass_get_val
refuses inet str f opt seen = rw (==_false _ 0 seen)

-- Once an option was accepted whose flag is not 0, where all flags are below 2 ^ 32, a use of an
-- option with the same flag right after it is refused, whatever its text is.
pub rxclass_get_val_once :
    (inet : Inet) (str str' : List ℕ) (f : Filling) (opt opt' : RuleOpts) {f' : Filling}
    → f.flags < 2 ^ 32
    → opt.flag < 2 ^ 32
    → opt.flag ≢ 0
    → opt'.flag ≡ opt.flag
    → rxclass_get_val inet str f opt ≡ some f'
    → rxclass_get_val inet str' f' opt' ≡ none
rxclass_get_val_once inet str str' f opt opt' {f'} small small' used same h =
    let seen : bit_and f'.flags opt.flag ≡ opt.flag =
      ap (λ g. bit_and g opt.flag) (val-flags inet str f opt h)
      ∙ bit_and-bit_or 32 f.flags opt.flag small small' in
    refuses inet str' f' opt' (λ e. used (sym seen ∙ sym (ap (bit_and f'.flags) same) ∙ e))

module _ (inet : Inet) (str : List ℕ) (p : FlowSpec) (opt : RuleOpts) (ok : IsInet inet)
    (whole : length p ≡ spec_size) where
  -- What an accepted mask leaves.
  abbrev Masks : FlowSpec → Type 0
  Masks p' =
      (m : ℕ) × (bytes : List ℕ) × (opt.moffset ≡ some m)
      × (field_bytes inet opt.type str ≡ some bytes)
      × (load p' m (width opt.type) ≡ map_bytes bytes)
      × ((i : ℕ) → (i < m) ⊎ (m + width opt.type ≤ i) → get_or p' i 0 ≡ get_or p i 0)

  get_mask-Masks :
      (o : Option ℕ) {p' : FlowSpec}
      → opt.moffset ≡ o
      → MaskFits opt o
      → put_mask inet str p opt o ≡ some p'
      → Masks p'
  unfolding put_mask
  get_mask-Masks none e fit h = none_absurd h
  get_mask-Masks (some m) e fit h =
      let (bytes, read, e') = >>=-some (field_bytes inet opt.type str) _ h in
      let wide : length (map_bytes bytes) ≡ width opt.type =
        length-map_bytes bytes ∙ length-field_bytes inet ok opt.type str bytes read in
      let stored = some_eq e' in
      (
        m,
        bytes,
        e,
        read,
        subst (λ q. load q m (width opt.type) ≡ map_bytes bytes) stored
            (ap (load (store p m (map_bytes bytes)) m) (sym wide)
              ∙ load-store p m (map_bytes bytes) (omega (arith, wide, fit.0))),
        subst (λ q. (i : ℕ) → (i < m) ⊎ (m + width opt.type ≤ i) → get_or q i 0 ≡ get_or p i 0)
            stored (λ i out. get_or-store_outside p m (map_bytes bytes) i (omega (arith, wide))),
      )

-- In a rule of 168 bytes, for an option whose field and mask fit it, and with inet_pton giving 4
-- or 16 bytes: if a mask is accepted, the option takes one, the mask's bytes are the complement
-- of the bytes that the text stands for, and no other byte of the rule changes.
pub get_mask-Masks_lem :
    (inet : Inet) (str : List ℕ) (p : FlowSpec) (opt : RuleOpts) {p' : FlowSpec}
    → IsInet inet
    → length p ≡ spec_size
    → Fits opt
    → rxclass_get_mask inet str p opt ≡ some p'
    → (m : ℕ) × (bytes : List ℕ) × (opt.moffset ≡ some m)
      × (field_bytes inet opt.type str ≡ some bytes)
      × (load p' m (width opt.type) ≡ map_bytes bytes)
      × ((i : ℕ) → (i < m) ⊎ (m + width opt.type ≤ i) → get_or p' i 0 ≡ get_or p i 0)
unfolding rxclass_get_mask
get_mask-Masks_lem inet str p opt ok whole fits h =
    get_mask-Masks inet str p opt ok whole opt.moffset refl fits.1 h
