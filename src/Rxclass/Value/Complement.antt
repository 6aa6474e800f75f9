-- ===== src/Rxclass/Value/Complement.antt =====
-- rxclass_get_mask: the mask that a text leaves, as a number.
use ethtool.Base.{
  ℕ, zero, suc, ◌+◌, ◌-◌, ◌*◌, ◌/◌, ◌%◌, ◌^◌, ◌≤◌, ◌<◌, ◌≡◌, ◌⊎◌, refl, sym, ap, ◌∙◌, subst, some,
  List, [], ◌∷◌, arith, length, get_or,
}
use native.Mathlib.Nat.{pow-suc}
use ethtool.Base.Bytes.{le_bytes, be_bytes, le_value, load}
use ethtool.Base.Int.{ℤ, pos, negsuc}
use ethtool.Base.Maybe.{>>=-some, some_eq, none_absurd}
use ethtool.FlowSpec.{FlowSpec}
use ethtool.FlowSpec.Offsets.{spec_size}
use ethtool.Rxclass.{
  RuleOpts, OptType, opt_none, opt_s32, opt_u8, opt_u16, opt_u32, opt_u64, opt_ring_vf,
  opt_ring_queue, opt_be16, opt_be32, opt_be64, opt_ip4, opt_ip6, opt_mac,
}
use ethtool.Rxclass.Value.{
  Inet, field_bytes, map_bytes, pattern32, rxclass_get_ulong, rxclass_get_long, rxclass_get_ether,
  rxclass_get_mask,
}
use ethtool.Rxclass.Value.Fields.{get_ulong-lt}
use ethtool.Rxclass.Value.Mask.{get_mask-Masks_lem}
use ethtool.Rxclass.Value.Width.{width, IsInet, Fits}

-- The number of bytes in network order.
abbrev pub be_number : List ℕ → ℕ
be_number [] = 0
be_number (b ∷ bs) = b * 256 ^ length bs + be_number bs

-- Each byte is the complement of that of the address.
abbrev pub AreInverted : List ℕ → List ℕ → Type 0
AreInverted [] [] = Unit
AreInverted (b ∷ bs) (m ∷ ms) = (m ≡ 255 - b) × AreInverted bs ms
AreInverted _ _ = ⊥

-- A mask of so many bits is the complement of the number of the text, in the order of bytes of the
-- option's kind, or of each byte of the address.
abbrev pub Complements : Inet → OptType → List ℕ → List ℕ → Type 0
Complements inet opt_s32 str ms =
    (v : ℤ) × (rxclass_get_long str 32 ≡ some v) × (le_value ms + pattern32 v ≡ 2 ^ 32 - 1)
Complements inet opt_u8 str ms =
    (v : ℕ) × (rxclass_get_ulong str 8 ≡ some v) × (le_value ms + v ≡ 2 ^ 8 - 1)
Complements inet opt_u16 str ms =
    (v : ℕ) × (rxclass_get_ulong str 16 ≡ some v) × (le_value ms + v ≡ 2 ^ 16 - 1)
Complements inet opt_u32 str ms =
    (v : ℕ) × (rxclass_get_ulong str 32 ≡ some v) × (le_value ms + v ≡ 2 ^ 32 - 1)
Complements inet opt_u64 str ms =
    (v : ℕ) × (rxclass_get_ulong str 64 ≡ some v) × (le_value ms + v ≡ 2 ^ 64 - 1)
Complements inet opt_be16 str ms =
    (v : ℕ) × (rxclass_get_ulong str 16 ≡ some v) × (be_number ms + v ≡ 2 ^ 16 - 1)
Complements inet opt_be32 str ms =
    (v : ℕ) × (rxclass_get_ulong str 32 ≡ some v) × (be_number ms + v ≡ 2 ^ 32 - 1)
Complements inet opt_be64 str ms =
    (v : ℕ) × (rxclass_get_ulong str 64 ≡ some v) × (be_number ms + v ≡ 2 ^ 64 - 1)
Complements inet opt_ip4 str ms = (bs : List ℕ) × (inet.pton4 str ≡ some bs) × AreInverted bs ms
Complements inet opt_ip6 str ms = (bs : List ℕ) × (inet.pton6 str ≡ some bs) × AreInverted bs ms
Complements inet opt_mac str ms =
    (bs : List ℕ) × (rxclass_get_ether str ≡ some bs) × AreInverted bs ms
Complements inet _ str ms = ⊥

inverted_le : (n v : ℕ) → v < 256 ^ n → le_value (map_bytes (le_bytes n v)) + v ≡ 256 ^ n - 1
inverted_le zero v h = omega arith
inverted_le (suc n) v h =
    let less : v / 256 < 256 ^ n = omega (arith, pow-suc 256 n) in
    omega (arith, pow-suc 256 n, less, inverted_le n (v / 256) less)

inverted_be2 : (v : ℕ) → v < 2 ^ 16 → be_number (map_bytes (be_bytes 2 v)) + v ≡ 2 ^ 16 - 1
inverted_be2 v h = omega arith

inverted_be4 : (v : ℕ) → v < 2 ^ 32 → be_number (map_bytes (be_bytes 4 v)) + v ≡ 2 ^ 32 - 1
inverted_be4 v h =
    let d1 : v / 256 / 256 ≡ v / 256 ^ 2 = omega arith in
    let d2 : v / 256 ^ 2 / 256 ≡ v / 256 ^ 3 = omega arith in omega (arith, d1, d2)

-- Eight digits and their complements.
eight :
    (x7 x6 x5 x4 x3 x2 x1 x0 : ℕ) (y7 y6 y5 y4 y3 y2 y1 y0 : ℕ)
    → x7 + y7 ≡ 255
    → x6 + y6 ≡ 255
    → x5 + y5 ≡ 255
    → x4 + y4 ≡ 255
    → x3 + y3 ≡ 255
    → x2 + y2 ≡ 255
    → x1 + y1 ≡ 255
    → x0 + y0 ≡ 255
    → x7 * 256 ^ 7
        + (x6 * 256 ^ 6
            + (x5 * 256 ^ 5
                + (x4 * 256 ^ 4
                    + (x3 * 256 ^ 3 + (x2 * 256 ^ 2 + (x1 * 256 ^ 1 + (x0 * 256 ^ 0 + 0)))))))
        + (y7 * 256 ^ 7
            + (y6 * 256 ^ 6
                + (y5 * 256 ^ 5
                    + (y4 * 256 ^ 4
                        + (y3 * 256 ^ 3 + (y2 * 256 ^ 2 + (y1 * 256 ^ 1 + (y0 * 256 ^ 0 + 0))))))))
      ≡ 2 ^ 64 - 1
eight x7 x6 x5 x4 x3 x2 x1 x0 y7 y6 y5 y4 y3 y2 y1 y0 h7 h6 h5 h4 h3 h2 h1 h0 =
    omega (arith, h7, h6, h5, h4, h3, h2, h1, h0)

digits_lem :
    (v : ℕ)
    → v < 2 ^ 64
    → v
      ≡ v / 256 ^ 7 % 256 * 256 ^ 7
        + (v / 256 ^ 6 % 256 * 256 ^ 6
            + (v / 256 ^ 5 % 256 * 256 ^ 5
                + (v / 256 ^ 4 % 256 * 256 ^ 4
                    + (v / 256 ^ 3 % 256 * 256 ^ 3
                        + (v / 256 ^ 2 % 256 * 256 ^ 2
                            + (v / 256 ^ 1 % 256 * 256 ^ 1 + (v / 256 ^ 0 % 256 * 256 ^ 0 + 0)))))))
digits_lem v h =
    let d0 : v / 256 ^ 0 / 256 ≡ v / 256 ^ 1 = omega arith in
    let d1 : v / 256 ^ 1 / 256 ≡ v / 256 ^ 2 = omega arith in
    let d2 : v / 256 ^ 2 / 256 ≡ v / 256 ^ 3 = omega arith in
    let d3 : v / 256 ^ 3 / 256 ≡ v / 256 ^ 4 = omega arith in
    let d4 : v / 256 ^ 4 / 256 ≡ v / 256 ^ 5 = omega arith in
    let d5 : v / 256 ^ 5 / 256 ≡ v / 256 ^ 6 = omega arith in
    let d6 : v / 256 ^ 6 / 256 ≡ v / 256 ^ 7 = omega arith in
    omega (arith, d0, d1, d2, d3, d4, d5, d6)

inverse : (v : ℕ) → 2 ^ 8 - 1 - v % 256 + v % 256 ≡ 255
inverse v = omega arith

inverted_be8 : (v : ℕ) → v < 2 ^ 64 → be_number (map_bytes (be_bytes 8 v)) + v ≡ 2 ^ 64 - 1
inverted_be8 v h =
    ap (λ (w : ℕ). be_number (map_bytes (be_bytes 8 v)) + w) (digits_lem v h)
    ∙ eight _ _ _ _ _ _ _ _ _ _ _ _ _ _ _ _ (inverse (v / 256 ^ 7)) (inverse (v / 256 ^ 6))
        (inverse (v / 256 ^ 5)) (inverse (v / 256 ^ 4)) (inverse (v / 256 ^ 3))
        (inverse (v / 256 ^ 2)) (inverse (v / 256 ^ 1)) (inverse (v / 256 ^ 0))

AreInverted-map_bytes : (bs : List ℕ) → AreInverted bs (map_bytes bs)
AreInverted-map_bytes [] = tt
AreInverted-map_bytes (b ∷ bs) = (refl, AreInverted-map_bytes bs)

pattern32-lt : (v : ℤ) → pattern32 v < 2 ^ 32
pattern32-lt (pos n) = omega arith
pattern32-lt (negsuc n) = omega arith

Complements-field_bytes :
    (inet : Inet) (type : OptType) (str : List ℕ) {bytes : List ℕ}
    → field_bytes inet type str ≡ some bytes
    → Complements inet type str (map_bytes bytes)
unfolding field_bytes
Complements-field_bytes inet opt_none str h = none_absurd h
Complements-field_bytes inet opt_ring_vf str h = none_absurd h
Complements-field_bytes inet opt_ring_queue str h = none_absurd h
Complements-field_bytes inet opt_ip4 str {bytes} h = (bytes, h, AreInverted-map_bytes bytes)
Complements-field_bytes inet opt_ip6 str {bytes} h = (bytes, h, AreInverted-map_bytes bytes)
Complements-field_bytes inet opt_mac str {bytes} h = (bytes, h, AreInverted-map_bytes bytes)
Complements-field_bytes inet opt_s32 str h =
    let (v, read, e) = >>=-some (rxclass_get_long str 32) _ h in
    (
      v,
      read,
      subst (λ bs. le_value (map_bytes bs) + pattern32 v ≡ 2 ^ 32 - 1) (some_eq e)
          (inverted_le 4 (pattern32 v) (pattern32-lt v)),
    )
Complements-field_bytes inet opt_u8 str h =
    let (v, read, e) = >>=-some (rxclass_get_ulong str 8) _ h in
    (
      v,
      read,
      subst (λ bs. le_value (map_bytes bs) + v ≡ 2 ^ 8 - 1) (some_eq e)
          (inverted_le 1 v (get_ulong-lt str 8 read)),
    )
Complements-field_bytes inet opt_u16 str h =
    let (v, read, e) = >>=-some (rxclass_get_ulong str 16) _ h in
    (
      v,
      read,
      subst (λ bs. le_value (map_bytes bs) + v ≡ 2 ^ 16 - 1) (some_eq e)
          (inverted_le 2 v (get_ulong-lt str 16 read)),
    )
Complements-field_bytes inet opt_u32 str h =
    let (v, read, e) = >>=-some (rxclass_get_ulong str 32) _ h in
    (
      v,
      read,
      subst (λ bs. le_value (map_bytes bs) + v ≡ 2 ^ 32 - 1) (some_eq e)
          (inverted_le 4 v (get_ulong-lt str 32 read)),
    )
Complements-field_bytes inet opt_u64 str h =
    let (v, read, e) = >>=-some (rxclass_get_ulong str 64) _ h in
    (
      v,
      read,
      subst (λ bs. le_value (map_bytes bs) + v ≡ 2 ^ 64 - 1) (some_eq e)
          (inverted_le 8 v (get_ulong-lt str 64 read)),
    )
Complements-field_bytes inet opt_be16 str h =
    let (v, read, e) = >>=-some (rxclass_get_ulong str 16) _ h in
    (
      v,
      read,
      subst (λ bs. be_number (map_bytes bs) + v ≡ 2 ^ 16 - 1) (some_eq e)
          (inverted_be2 v (get_ulong-lt str 16 read)),
    )
Complements-field_bytes inet opt_be32 str h =
    let (v, read, e) = >>=-some (rxclass_get_ulong str 32) _ h in
    (
      v,
      read,
      subst (λ bs. be_number (map_bytes bs) + v ≡ 2 ^ 32 - 1) (some_eq e)
          (inverted_be4 v (get_ulong-lt str 32 read)),
    )
Complements-field_bytes inet opt_be64 str h =
    let (v, read, e) = >>=-some (rxclass_get_ulong str 64) _ h in
    (
      v,
      read,
      subst (λ bs. be_number (map_bytes bs) + v ≡ 2 ^ 64 - 1) (some_eq e)
          (inverted_be8 v (get_ulong-lt str 64 read)),
    )

-- In a rule of 168 bytes, for an option whose field and mask fit it, and with inet_pton giving 4
-- or 16 bytes: if a mask is accepted, the option takes one. Of a number, the mask and the number of
-- the text have the sum of all ones in the width of the field, both in the order of bytes of the
-- option; of an address, each byte is the complement of its own. No other byte of the rule changes.
pub rxclass_get_mask-Complements :
    (inet : Inet) (str : List ℕ) (p : FlowSpec) (opt : RuleOpts) {p' : FlowSpec}
    → IsInet inet
    → length p ≡ spec_size
    → Fits opt
    → rxclass_get_mask inet str p opt ≡ some p'
    → (m : ℕ) × (opt.moffset ≡ some m)
      × Complements inet opt.type str (load p' m (width opt.type))
      × ((i : ℕ) → (i < m) ⊎ (m + width opt.type ≤ i) → get_or p' i 0 ≡ get_or p i 0)
rxclass_get_mask-Complements inet str p opt ok whole fits h =
    let (m, bytes, at, read, ones, frame) = get_mask-Masks_lem inet str p opt ok whole fits h in
    (
      m,
      at,
      subst (Complements inet opt.type str) (sym ones)
          (Complements-field_bytes inet opt.type str read),
      frame,
    )
