-- ===== src/Bitmap/Laws.antt =====
-- What a set, a clear and a test of one bit do to every bit of a bitmap.
use ethtool.Base.{
  ℕ, ◌/◌, ◌%◌, ◌<◌, bit_and, bit_or, ◌≡◌, ap, ◌≢◌, true, false, List, length, get_or, set, ◌==◌,
  if◌then◌else◌, arith, get_or-set_self, get_or-set_ne, length-set, ==_iff, ==_false, lt→ltb,
}
use native.Mathlib.Nat.{one-le-pow}
use native.Mathlib.Decide.{ℕ_discrete}
use ethtool.Base.Bits.{
  bit, bit-le, bit_not, bit_and-pow, bit-bit_or, bit-bit_and, bit-pow_self, bit-pow_ne, bit-bit_not,
  bit_or-lt, pow-lt-pow,
}
use ethtool.Bitmap.{set_bit, clear_bit, test_long, test_bit, IsLongs, flag_of}

-- A test reads the digit.
pub test_long-bit : (nr w : ℕ) → test_long nr w ≡ (bit w (nr % 64) == 1)
unfolding test_long
test_long-bit nr w =
    ground (arith, bit_and-pow (nr % 64) w, bit-le w (nr % 64), one-le-pow (nr % 64) 2)

module _ (addr : List ℕ) (i j : ℕ) where
  -- The long that holds bit `j`, after a write to the long that holds bit `i`.
  long_set :
      (v : ℕ)
      → i / 64 < length addr
      → get_or (set addr (i / 64) v) (j / 64) 0
        ≡ (if i / 64 == j / 64 then v else get_or addr (j / 64) 0)
  long_set v h = elim (ℕ_discrete (i / 64) (j / 64)) [
    | yes e ↦ ground (
      arith,
      e,
      get_or-set_self addr (i / 64) v 0 h,
      ap (λ t. get_or (set addr (i / 64) v) t 0) e,
    )
    | no n ↦ ground (arith, get_or-set_ne addr (i / 64) (j / 64) v 0 n)
  ]

  bit-flag_of : i / 64 ≡ j / 64 → bit (flag_of i) (j % 64) ≡ (if i == j then 1 else 0)
  bit-flag_of e = elim (ℕ_discrete (i % 64) (j % 64)) [
    | yes e' ↦ let ij : i ≡ j = omega arith in rw ((==_iff i j).1 ij, ← e') (bit-pow_self (i % 64))
    | no n ↦
        let ij : i ≢ j = λ p. n (ap (λ (t : ℕ). t % 64) p) in
        rw (==_false i j ij) (bit-pow_ne (i % 64) (j % 64) n)
  ]

  -- Setting a bit inside the array sets it and leaves every other bit.
  pub test_bit-set_bit :
      i / 64 < length addr
      → test_bit j (set_bit i addr) ≡ (if i == j then true else test_bit j addr)
  unfolding test_bit set_bit
  test_bit-set_bit h =
      let w = get_or addr (i / 64) 0 in
      rw (lt→ltb _ _ h, test_long-bit, test_long-bit, long_set (bit_or w (flag_of i)) h)
        (elim (ℕ_discrete (i / 64) (j / 64)) [
          | yes e ↦ ground (
            arith,
            e,
            ap (λ (t : ℕ). get_or addr t 0) e,
            bit-flag_of e,
            bit-bit_or w (flag_of i) (j % 64),
            bit-le w (j % 64),
          )
          | no n ↦
              let ij : i ≢ j = λ p. n (ap (λ (t : ℕ). t / 64) p) in
              rw (==_false i j ij, ==_false _ _ n)
        ])

  -- Clearing a bit inside an array of longs clears it and leaves every other bit.
  pub test_bit-clear_bit :
      i / 64 < length addr
      → IsLongs addr
      → test_bit j (clear_bit i addr) ≡ (if i == j then false else test_bit j addr)
  unfolding test_bit clear_bit
  test_bit-clear_bit h longs =
      let w = get_or addr (i / 64) 0 in
      rw
        (
          lt→ltb _ _ h,
          test_long-bit,
          test_long-bit,
          long_set (bit_and w (bit_not 64 (flag_of i))) h,
        )
        (elim (ℕ_discrete (i / 64) (j / 64)) [
          | yes e ↦ ground (
            arith,
            e,
            ap (λ (t : ℕ). get_or addr t 0) e,
            bit-flag_of e,
            bit-bit_and w (bit_not 64 (flag_of i)) (j % 64),
            bit-le w (j % 64),
            bit-bit_not 64 (flag_of i) (j % 64) (pow-lt-pow (i % 64) 64 (omega arith))
                (omega arith),
          )
          | no n ↦
              let ij : i ≢ j = λ p. n (ap (λ (t : ℕ). t / 64) p) in
              rw (==_false i j ij, ==_false _ _ n)
        ])

pub length-set_bit :
    (i : ℕ) (addr : List ℕ) → i / 64 < length addr → length (set_bit i addr) ≡ length addr
unfolding set_bit
length-set_bit i addr h = rw (lt→ltb _ _ h) (length-set addr _ _)

pub set_bit-IsLongs :
    (i : ℕ) (addr : List ℕ) → i / 64 < length addr → IsLongs addr → IsLongs (set_bit i addr)
unfolding set_bit
set_bit-IsLongs i addr h longs k = rw (lt→ltb _ _ h) (elim (ℕ_discrete (i / 64) k) [
  | yes e ↦
      rw (← e, get_or-set_self addr (i / 64) (bit_or (get_or addr (i / 64) 0) (flag_of i)) 0 h)
        (bit_or-lt 64 _ _ (longs _) (pow-lt-pow (i % 64) 64 (omega arith)))
  | no n ↦ rw (get_or-set_ne addr (i / 64) k _ 0 n) (longs k)
])
