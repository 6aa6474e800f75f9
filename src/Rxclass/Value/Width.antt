-- ===== src/Rxclass/Value/Width.antt =====
-- The width of each kind of field, and where an option's field and mask lie in the rule.
use ethtool.Base.{
  ℕ, suc, ◌+◌, ◌≤◌, ◌<◌, ◌≡◌, ◌⊎◌, inl, inr, refl, sym, ap, ◌∙◌, Bool, true, ◌&&◌, ◌||◌, Option,
  none, some, List, [], ◌∷◌, ◌==◌, leb, arith, length, Bool-cases,
}
use ethtool.Base.Bytes.{length-le_bytes, length-be_bytes}
use ethtool.Base.Maybe.{◌>>=◌}
use ethtool.Clib.Scan.{scan_colons}
use ethtool.FlowSpec.Offsets.{spec_size}
use ethtool.Rxclass.{
  RuleOpts, OptType, opt_none, opt_s32, opt_u8, opt_u16, opt_u32, opt_u64, opt_ring_vf,
  opt_ring_queue, opt_be16, opt_be32, opt_be64, opt_ip4, opt_ip6, opt_mac,
}
use ethtool.Rxclass.Value.{
  Inet, field_bytes, low_bytes, map_bytes, rxclass_get_ether, rxclass_get_ulong, rxclass_get_long,
  pattern32, has_colon,
}

-- The bytes of an option's field.
abbrev pub width : OptType → ℕ
width opt_none = 0
width opt_s32 = 4
width opt_u8 = 1
width opt_u16 = 2
width opt_u32 = 4
width opt_u64 = 8
width opt_ring_vf = 8
width opt_ring_queue = 8
width opt_be16 = 2
width opt_be32 = 4
width opt_be64 = 8
width opt_ip4 = 4
width opt_ip6 = 16
width opt_mac = 6

-- inet_pton fills the address that it is given: 4 bytes, or 16.
pub record IsInet (inet : Inet) : Type 0 where
  pub fills4 : (s bytes : List ℕ) → inet.pton4 s ≡ some bytes → length bytes ≡ 4
  pub fills6 : (s bytes : List ℕ) → inet.pton6 s ≡ some bytes → length bytes ≡ 16

length-low_bytes : (ns : List ℕ) → length (low_bytes ns) ≡ length ns
length-low_bytes [] = refl
length-low_bytes (n ∷ ns) = ap suc (length-low_bytes ns)

pub length-map_bytes : (ns : List ℕ) → length (map_bytes ns) ≡ length ns
length-map_bytes [] = refl
length-map_bytes (n ∷ ns) = ap suc (length-map_bytes ns)

length-get_ether : (s bytes : List ℕ) → rxclass_get_ether s ≡ some bytes → length bytes ≡ 6
unfolding rxclass_get_ether
length-get_ether s bytes h =
    let buf : List ℕ = scan_colons 6 s in
    elim (Bool-cases (has_colon s && (length buf == 6))) [
      | inr no_address ↦ let off : none ≡ some bytes = rw no_address at h in cc
      | inl address ↦
          let e : some (low_bytes buf) ≡ some bytes = rw address at h in
          let n : length buf ≡ 6 = ground arith in
          let m : length (low_bytes buf) ≡ length bytes = cc in sym m ∙ length-low_bytes buf ∙ n
    ]

length_of_do :
    {A : Type 0} (m : Option A) (f : A → List ℕ) (n : ℕ) {bytes : List ℕ}
    → ((a : A) → length (f a) ≡ n)
    → (m >>= λ a. some (f a)) ≡ some bytes
    → length bytes ≡ n
length_of_do none f n len h = cc
length_of_do (some a) f n len h = let e : length (f a) ≡ _ = len a in cc

module _ (inet : Inet) (ok : IsInet inet) where
  -- A field's value has the field's width.
  pub length-field_bytes :
      (type : OptType) (s bytes : List ℕ)
      → field_bytes inet type s ≡ some bytes
      → length bytes ≡ width type
  unfolding field_bytes
  length-field_bytes opt_s32 s bytes h =
      length_of_do (rxclass_get_long s 32) _ 4 (λ v. length-le_bytes 4 (pattern32 v)) h
  length-field_bytes opt_u8 s bytes h =
      length_of_do (rxclass_get_ulong s 8) _ 1 (length-le_bytes 1) h
  length-field_bytes opt_u16 s bytes h =
      length_of_do (rxclass_get_ulong s 16) _ 2 (length-le_bytes 2) h
  length-field_bytes opt_u32 s bytes h =
      length_of_do (rxclass_get_ulong s 32) _ 4 (length-le_bytes 4) h
  length-field_bytes opt_u64 s bytes h =
      length_of_do (rxclass_get_ulong s 64) _ 8 (length-le_bytes 8) h
  length-field_bytes opt_be16 s bytes h =
      length_of_do (rxclass_get_ulong s 16) _ 2 (length-be_bytes 2) h
  length-field_bytes opt_be32 s bytes h =
      length_of_do (rxclass_get_ulong s 32) _ 4 (length-be_bytes 4) h
  length-field_bytes opt_be64 s bytes h =
      length_of_do (rxclass_get_ulong s 64) _ 8 (length-be_bytes 8) h
  length-field_bytes opt_ip4 s bytes h = ok.fills4 s bytes h
  length-field_bytes opt_ip6 s bytes h = ok.fills6 s bytes h
  length-field_bytes opt_mac s bytes h = length-get_ether s bytes h
  length-field_bytes opt_ring_vf s bytes h = cc
  length-field_bytes opt_ring_queue s bytes h = cc
  length-field_bytes opt_none s bytes h = cc

-- The option's field and its mask, if it takes one, lie inside the rule and apart.
abbrev pub MaskFits : RuleOpts → Option ℕ → Type 0
MaskFits opt none = Unit
MaskFits opt (some moffset) =
    (moffset + width opt.type ≤ spec_size)
    × ((opt.offset + width opt.type ≤ moffset) ⊎ (moffset + width opt.type ≤ opt.offset))

abbrev pub Fits : RuleOpts → Type 0
Fits opt = (opt.offset + width opt.type ≤ spec_size) × MaskFits opt opt.moffset

-- A byte outside the option's field and outside its mask.
abbrev pub OutsideMask : RuleOpts → ℕ → Option ℕ → Type 0
OutsideMask opt i none = Unit
OutsideMask opt i (some moffset) = (i < moffset) ⊎ (moffset + width opt.type ≤ i)

abbrev pub Outside : RuleOpts → ℕ → Type 0
Outside opt i =
    ((i < opt.offset) ⊎ (opt.offset + width opt.type ≤ i)) × OutsideMask opt i opt.moffset

abbrev pub fits_mask? : RuleOpts → Option ℕ → Bool
fits_mask? opt none = true
fits_mask? opt (some moffset) =
    leb (moffset + width opt.type) spec_size
    && (leb (opt.offset + width opt.type) moffset || leb (moffset + width opt.type) opt.offset)
