-- ===== src/Feature/Change/Words.antt =====
-- The bits of the features: what setting one does to every other.
use ethtool.Base.{
  ℕ, ◌/◌, ◌%◌, ◌≡◌, ◌≢◌, inl, inr, refl, bit_or, true, ◌==◌, arith, Bool-cases, ==_iff,
}
use ethtool.Base.Bits.{bit, bit-le, bit-bit_or, bit_and-pow, bit-pow_self, bit-pow_ne}
use ethtool.Feature.Change.{Words, feature_bit_set, feature_bit_is_set, feature_field_flag}
use native.Mathlib.Nat.{one-le-pow}

is_set-bit :
    (words : Words) (j : ℕ) → feature_bit_is_set words j ≡ (bit (words (j / 32)) (j % 32) == 1)
unfolding feature_bit_is_set
is_set-bit words j = ground (
  arith,
  bit_and-pow (j % 32) (words (j / 32)),
  bit-le (words (j / 32)) (j % 32),
  one-le-pow (j % 32) 2,
)

pub is_set-set_self :
    (words : Words) (j : ℕ) → feature_bit_is_set (feature_bit_set words j) j ≡ true
unfolding feature_bit_set
is_set-set_self words j =
    let here : (j / 32 == j / 32) ≡ true = ground arith in
    let digit : bit (bit_or (words (j / 32)) (feature_field_flag j)) (j % 32) ≡ 1 = omega (
      arith,
      bit-bit_or (words (j / 32)) (feature_field_flag j) (j % 32),
      bit-pow_self (j % 32),
      bit-le (words (j / 32)) (j % 32),
    ) in
    rw (is_set-bit (feature_bit_set words j) j, here, digit) refl

pub is_set-set_ne :
    (words : Words) (i j : ℕ)
    → i ≢ j
    → feature_bit_is_set (feature_bit_set words i) j ≡ feature_bit_is_set words j
unfolding feature_bit_set
is_set-set_ne words i j ne = elim (Bool-cases (j / 32 == i / 32)) [
  | inl same ↦
      let block : j / 32 ≡ i / 32 = (==_iff _ _).0 same in
      let apart : i % 32 ≢ j % 32 = λ e. ne (omega arith) in
      let digit : bit (bit_or (words (j / 32)) (feature_field_flag i)) (j % 32)
          ≡ bit (words (j / 32)) (j % 32) =
        omega (
          arith,
          bit-bit_or (words (j / 32)) (feature_field_flag i) (j % 32),
          bit-pow_ne (i % 32) (j % 32) apart,
        ) in
      rw (is_set-bit (feature_bit_set words i) j, is_set-bit words j, same, digit) refl
  | inr other ↦ rw (is_set-bit (feature_bit_set words i) j, is_set-bit words j, other) refl
]
