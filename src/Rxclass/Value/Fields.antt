-- ===== src/Rxclass/Value/Fields.antt =====
-- rxclass_get_val: what stands in the rule for every option, as a driver reads it.
use ethtool.Base.{
  ℕ, ◌+◌, ◌^◌, ◌<◌, ◌≡◌, ◌⊎◌, inl, inr, sym, ap, ◌∙◌, subst, bit_and, bit_or, Bool, not, ◌||◌, some,
  List, ◌==◌, leb, arith, length, get_or, if_none, Bool-cases, false,
}
use ethtool.Base.Bits.{bit}
use ethtool.Base.Bytes.{le_value, load, le_value-le_bytes, le_value-load_lt}
use ethtool.Base.Maybe.{some_eq}
use ethtool.Clib.Strto.{strtoull}
use ethtool.FlowSpec.{FlowSpec}
use ethtool.FlowSpec.Offsets.{spec_size}
use ethtool.Rxclass.{RuleOpts, OptType, opt_ring_vf, opt_ring_queue}
use ethtool.Rxclass.Value.{
  Inet, Filling, field_bytes, is_empty, put_vf, put_queue, rxclass_get_ulong, rxclass_get_val,
}
use ethtool.Rxclass.Value.Cookie.{
  ethtool_get_flow_spec_ring, ethtool_get_flow_spec_ring_vf, vf_cookie-lt, queue_cookie-lt,
  ring_vf-put_vf, ring_vf-put_vf_255, ring-put_queue,
}
use ethtool.Rxclass.Value.Frame.{Written, Gives, rxclass_get_val-Written}
use ethtool.Rxclass.Value.Width.{IsInet, Fits}

-- What a driver reads of the cookie after `vf v`: the number plus one and the queue that was there,
-- but after `vf 255` no virtual function, and bit 40 is set.
abbrev pub ReadsVf : ℕ → ℕ → ℕ → Type 0
ReadsVf v old new =
    ((v < 255)
      × (ethtool_get_flow_spec_ring_vf new ≡ v + 1)
      × (ethtool_get_flow_spec_ring new ≡ ethtool_get_flow_spec_ring old))
    ⊎ ((v ≡ 255) × (ethtool_get_flow_spec_ring_vf new ≡ 0) × (bit new 40 ≡ 1))

-- What the bytes of an option's field mean, where a ring cookie held `old`.
abbrev pub Means : Inet → OptType → List ℕ → ℕ → List ℕ → Type 0
Means inet opt_ring_vf str old bytes =
    (v : ℕ) × (rxclass_get_ulong str 8 ≡ some v) × ReadsVf v old (le_value bytes)
Means inet opt_ring_queue str old bytes =
    (v : ℕ) × (rxclass_get_ulong str 32 ≡ some v)
    × (ethtool_get_flow_spec_ring (le_value bytes) ≡ v)
    × (ethtool_get_flow_spec_ring_vf (le_value bytes) ≡ ethtool_get_flow_spec_ring_vf old)
Means inet type str old bytes = field_bytes inet type str ≡ some bytes

last_of : (a b c : Bool) → (a || b || c) ≡ false → c ≡ false
last_of a b c h = ground arith

below : (m n : ℕ) → leb m n ≡ false → n < m
below m n h = ground arith

pub get_ulong-lt :
    (str : List ℕ) (size : ℕ) {v : ℕ} → rxclass_get_ulong str size ≡ some v → v < 2 ^ size
unfolding rxclass_get_ulong
get_ulong-lt str size h =
    let r = strtoull str in
    let (ok, e) = if_none (not (is_empty r.rest) || r.erange || leb (2 ^ size) r.value) _ h in
    subst (λ (k : ℕ). k < 2 ^ size) (some_eq e)
      (below (2 ^ size) r.value
        (last_of (not (is_empty r.rest)) r.erange (leb (2 ^ size) r.value) ok))

vf-Reads : (v old : ℕ) → old < 2 ^ 64 → v < 2 ^ 8 → ReadsVf v old (put_vf old v)
vf-Reads v old small h = elim (Bool-cases (v == 255)) [
  | inl last ↦
      let e : v ≡ 255 = ground arith in
      let (none_read, high) =
        subst
          (λ k. (ethtool_get_flow_spec_ring_vf (put_vf old k) ≡ 0) × (bit (put_vf old k) 40 ≡ 1))
          (sym e) (ring_vf-put_vf_255 old small) in
      inr (e, none_read, high)
  | inr other ↦
      let l : v < 255 = ground arith in
      let (vf, queue) = ring_vf-put_vf old v small l in inl (l, vf, queue)
]

Gives-Means :
    (inet : Inet) (type : OptType) (str : List ℕ) (old : ℕ) (bytes : List ℕ)
    → old < 2 ^ 64
    → Gives inet type str old bytes
    → Means inet type str old bytes
Gives-Means inet opt_ring_vf str old bytes small (v, read, e) =
    let l = get_ulong-lt str 8 read in
    let same : put_vf old v ≡ le_value bytes = sym (
      ap le_value e
      ∙ le_value-le_bytes 8 (put_vf old v) (vf_cookie-lt old v small (omega (arith, l)))) in
    (v, read, subst (ReadsVf v old) same (vf-Reads v old small l))
Gives-Means inet opt_ring_queue str old bytes small (v, read, e) =
    let l = get_ulong-lt str 32 read in
    let same : put_queue old v ≡ le_value bytes =
      sym (ap le_value e ∙ le_value-le_bytes 8 (put_queue old v) (queue_cookie-lt old v small l)) in
    let (queue, vf) =
      subst
        (λ new.
          (ethtool_get_flow_spec_ring new ≡ v)
          × (ethtool_get_flow_spec_ring_vf new ≡ ethtool_get_flow_spec_ring_vf old))
        same (ring-put_queue old v small l) in
    (v, read, queue, vf)
Gives-Means inet _ str old bytes small h = h

-- In a rule of 168 bytes, for an option whose field and mask fit it, and with inet_pton giving 4 or
-- 16 bytes: if the option is accepted, its flag was not set before and is set now. Its field holds
-- bytes of its width; but for `vf` and `queue` they are those that the text stands for, and its mask,
-- if it takes one, is all ones. After `queue` a driver reads its number and the virtual function that
-- was there before; after `vf` the number plus one and the queue that was there before, except that
-- after `vf 255` it reads virtual function 0, and bit 40 is set. No other byte of the rule changes.
pub rxclass_get_val-Means :
    (inet : Inet) (ok : IsInet inet) (str : List ℕ) (opt : RuleOpts) (p : FlowSpec)
    (whole : length p ≡ spec_size) (byte : (i : ℕ) → get_or p i 0 < 256) (fits : Fits opt)
    (flags : ℕ) {f' : Filling}
    → rxclass_get_val inet str (record { p = p; flags = flags }) opt ≡ some f'
    → (bit_and flags opt.flag ≡ 0)
      × (f'.flags ≡ bit_or flags opt.flag)
      × (bytes : List ℕ) × Written opt p f'.p bytes
      × Means inet opt.type str (le_value (load p opt.offset 8)) bytes
rxclass_get_val-Means inet ok str opt p whole byte fits flags h =
    let (fresh, marked, (bytes, put, gives)) =
      rxclass_get_val-Written inet ok str opt p whole fits flags h in
    (
      fresh,
      marked,
      bytes,
      put,
      Gives-Means inet opt.type str (le_value (load p opt.offset 8)) bytes
          (le_value-load_lt p opt.offset 8 byte) gives,
    )
