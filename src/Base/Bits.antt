-- ===== src/Base/Bits.antt =====
-- The binary digits of a word, and what `|`, `&`, `^` and `~` do to each of them, at every width.
use Prim.Native.Nat.{
  ℕ, zero, suc, ◌+◌, ◌-◌, ◌*◌, ◌/◌, ◌%◌, ◌^◌, ◌≤◌, ◌<◌, min, max, digits, bitwise, bit_and, bit_or,
  bit_and-bitwise, bit_or-bitwise,
}
use mathlib.Core.Path.{◌≡◌, refl, ap}
use mathlib.Core.Logic.{◌≢◌}
use mathlib.Core.Bool.{Bool, true, ◌&&◌}
use native.Mathlib.Omega.{arith}
use native.Mathlib.Nat.{pow-suc, one-le-pow, le_refl, pow-le-pow_right}

-- Digit `i` of `w`, 0 or 1.
abbrev pub bit : ℕ → ℕ → ℕ
bit w zero = w % 2
bit w (suc i) = bit (w / 2) i

module _ (z : ℕ → ℕ) (f : ℕ → ℕ → ℕ) where
  digits_fuel_eq : (n m a b : ℕ) → a ≤ n → a ≤ m → digits z f n a b ≡ digits z f m a b
  digits_fuel_eq zero zero a b p q = refl
  digits_fuel_eq zero (suc m) zero b p q = refl
  digits_fuel_eq zero (suc m) (suc a) b p q = absurd (omega arith)
  digits_fuel_eq (suc n) zero zero b p q = refl
  digits_fuel_eq (suc n) zero (suc a) b p q = absurd (omega arith)
  digits_fuel_eq (suc n) (suc m) zero b p q = refl
  digits_fuel_eq (suc n) (suc m) (suc a) b p q =
      rw (digits_fuel_eq n m (suc a / 2) (b / 2) (omega arith) (omega arith))

  bitwise_low :
      (a b : ℕ)
      → bitwise z f (suc a) b ≡ bitwise z f (suc a / 2) (b / 2) * 2 + f (suc a % 2) (b % 2)
  bitwise_low a b =
      omega (arith, digits_fuel_eq a (suc a / 2) (suc a / 2) (b / 2) (omega arith) (le_refl _))

-- The lowest digit of each operation.
pub bit_or_low : (a b : ℕ) → bit_or a b ≡ bit_or (a / 2) (b / 2) * 2 + max (a % 2) (b % 2)
bit_or_low zero b = simp bit_or-bitwise (omega arith)
bit_or_low (suc a) b = simp bit_or-bitwise (bitwise_low (λ y. y) max a b)

pub bit_and_low : (a b : ℕ) → bit_and a b ≡ bit_and (a / 2) (b / 2) * 2 + min (a % 2) (b % 2)
bit_and_low zero b = simp bit_and-bitwise (omega arith)
bit_and_low (suc a) b = simp bit_and-bitwise (bitwise_low (λ y. 0) min a b)

pub bit-le : (w i : ℕ) → bit w i ≤ 1
bit-le w zero = omega arith
bit-le w (suc i) = bit-le (w / 2) i

pub bit-bit_or : (a b i : ℕ) → bit (bit_or a b) i ≡ max (bit a i) (bit b i)
bit-bit_or a b zero = omega (arith, bit_or_low a b)
bit-bit_or a b (suc i) =
    let half : bit_or a b / 2 ≡ bit_or (a / 2) (b / 2) = omega (arith, bit_or_low a b) in
    rw half (bit-bit_or (a / 2) (b / 2) i)

pub bit-bit_and : (a b i : ℕ) → bit (bit_and a b) i ≡ min (bit a i) (bit b i)
bit-bit_and a b zero = omega (arith, bit_and_low a b)
bit-bit_and a b (suc i) =
    let half : bit_and a b / 2 ≡ bit_and (a / 2) (b / 2) = omega (arith, bit_and_low a b) in
    rw half (bit-bit_and (a / 2) (b / 2) i)

pub zero-bit : (i : ℕ) → bit 0 i ≡ 0
zero-bit zero = refl
zero-bit (suc i) = zero-bit i

pub bit-pow_self : (i : ℕ) → bit (2 ^ i) i ≡ 1
bit-pow_self zero = refl
bit-pow_self (suc i) =
    let half : 2 ^ suc i / 2 ≡ 2 ^ i = omega (arith, pow-suc 2 i) in rw half (bit-pow_self i)

pub bit-pow_ne : (i j : ℕ) → i ≢ j → bit (2 ^ i) j ≡ 0
bit-pow_ne zero zero ne = absurd (ne refl)
bit-pow_ne zero (suc j) ne = zero-bit j
bit-pow_ne (suc i) zero ne = omega (arith, pow-suc 2 i)
bit-pow_ne (suc i) (suc j) ne =
    let half : 2 ^ suc i / 2 ≡ 2 ^ i = omega (arith, pow-suc 2 i) in
    rw half (bit-pow_ne i j (omega arith))

-- The digits at or above the width are 0.
pub bit_high : (k a i : ℕ) → a < 2 ^ k → k ≤ i → bit a i ≡ 0
bit_high zero a i h le = let e : a ≡ 0 = omega arith in rw e (zero-bit i)
bit_high (suc k) a zero h le = absurd (omega arith)
bit_high (suc k) a (suc i) h le = bit_high k (a / 2) i (omega (arith, pow-suc 2 k)) (omega arith)

-- A word is its digits.
pub bit_ext : (k a b : ℕ) → a < 2 ^ k → b < 2 ^ k → ((i : ℕ) → i < k → bit a i ≡ bit b i) → a ≡ b
bit_ext zero a b p q h = omega arith
bit_ext (suc k) a b p q h =
    let rest =
      bit_ext k (a / 2) (b / 2) (omega (arith, pow-suc 2 k)) (omega (arith, pow-suc 2 k))
        (λ i l. h (suc i) (omega arith)) in
    omega (arith, rest, h 0 (omega arith))

pub bit_or-lt : (k a b : ℕ) → a < 2 ^ k → b < 2 ^ k → bit_or a b < 2 ^ k
bit_or-lt zero a b p q =
    let e : a ≡ 0 = omega arith in let e' : b ≡ 0 = omega arith in rw (e, e') (omega arith)
bit_or-lt (suc k) a b p q = omega (
  arith,
  bit_or_low a b,
  pow-suc 2 k,
  bit_or-lt k (a / 2) (b / 2) (omega (arith, pow-suc 2 k)) (omega (arith, pow-suc 2 k)),
)

pub bit_and-le : (k a b : ℕ) → a < 2 ^ k → bit_and a b ≤ a
bit_and-le zero a b p = let e : a ≡ 0 = omega arith in rw (e, bit_and-bitwise) (omega arith)
bit_and-le (suc k) a b p =
    omega (arith, bit_and_low a b, bit_and-le k (a / 2) (b / 2) (omega (arith, pow-suc 2 k)))

-- `~w` at width `k`.
abbrev pub bit_not : ℕ → ℕ → ℕ
bit_not k w = 2 ^ k - 1 - w

pub bit-bit_not : (k w i : ℕ) → w < 2 ^ k → i < k → bit (bit_not k w) i ≡ 1 - bit w i
bit-bit_not zero w i h l = absurd (omega arith)
bit-bit_not (suc k) w zero h l = omega (arith, pow-suc 2 k)
bit-bit_not (suc k) w (suc i) h l =
    let half : (2 ^ suc k - 1 - w) / 2 ≡ 2 ^ k - 1 - w / 2 = omega (arith, pow-suc 2 k) in
    rw half (bit-bit_not k (w / 2) i (omega (arith, pow-suc 2 k)) (omega arith))

-- All digits of the greatest word are 1.
pub bit-ones : (k i : ℕ) → i < k → bit (2 ^ k - 1) i ≡ 1
bit-ones zero i l = absurd (omega arith)
bit-ones (suc k) zero l = omega (arith, pow-suc 2 k, one-le-pow k 2)
bit-ones (suc k) (suc i) l =
    let half : (2 ^ suc k - 1) / 2 ≡ 2 ^ k - 1 = omega (arith, pow-suc 2 k, one-le-pow k 2) in
    rw half (bit-ones k i (omega arith))

-- A word that is not the greatest has a digit 0, and a nonzero one a digit 1; stated at the digit.
pub eq_ones_of_bits : (k w : ℕ) → w < 2 ^ k → ((i : ℕ) → i < k → bit w i ≡ 1) → w ≡ 2 ^ k - 1
eq_ones_of_bits k w h all =
    bit_ext k w (2 ^ k - 1) h (omega (arith, one-le-pow k 2))
      (λ i l. omega (arith, all i l, bit-ones k i l))

pub eq_zero_of_bits : (k w : ℕ) → w < 2 ^ k → ((i : ℕ) → i < k → bit w i ≡ 0) → w ≡ 0
eq_zero_of_bits k w h all =
    bit_ext k w 0 h (omega (arith, one-le-pow k 2)) (λ i l. omega (arith, all i l, zero-bit i))

-- Masking with one flag keeps exactly that digit.
pub bit_and-pow : (i w : ℕ) → bit_and (2 ^ i) w ≡ bit w i * 2 ^ i
bit_and-pow zero w = omega (arith, bit_and_low 1 w, bit_and-bitwise 0 (w / 2))
bit_and-pow (suc i) w =
    let half : 2 ^ suc i / 2 ≡ 2 ^ i = omega (arith, pow-suc 2 i) in
    let low : bit_and (2 ^ suc i) w ≡ bit_and (2 ^ i) (w / 2) * 2 + min (2 ^ suc i % 2) (w % 2) =
      rw half at (bit_and_low (2 ^ suc i) w) in
    omega (
      arith,
      low,
      bit_and-pow i (w / 2),
      pow-suc 2 i,
      ap (λ (t : ℕ). bit (w / 2) i * t) (pow-suc 2 i),
    )

pub pow-lt-pow : (i k : ℕ) → i < k → 2 ^ i < 2 ^ k
pow-lt-pow i k h =
    let two : 0 < 2 = omega arith in
    omega (arith, pow-le-pow_right two h, pow-suc 2 i, one-le-pow i 2)

-- A test on every number below a bound, by evaluation.
unfoldable pub all_below : ℕ → (ℕ → Bool) → Bool
all_below zero p = true
all_below (suc n) p = p n && all_below n p

pub all_below-true : (n : ℕ) (p : ℕ → Bool) (x : ℕ) → all_below n p ≡ true → x < n → p x ≡ true
unfolding all_below
all_below-true zero p x h lt = absurd (omega arith)
all_below-true (suc n) p x h lt = ground (arith, all_below-true n p x)

-- A shift to the left leaves zeros.
pub bit-shift_low : (k x i : ℕ) → i < k → bit (x * 2 ^ k) i ≡ 0
bit-shift_low zero x i h = absurd (omega arith)
bit-shift_low (suc k) x zero h = omega (arith, ap (λ (t : ℕ). x * t) (pow-suc 2 k))
bit-shift_low (suc k) x (suc i) h =
    let half : x * 2 ^ suc k / 2 ≡ x * 2 ^ k = omega (arith, ap (λ (t : ℕ). x * t) (pow-suc 2 k)) in
    rw half (bit-shift_low k x i (omega arith))

-- What was put in by `|` is there: `(a | b) & b` is `b`.
pub bit_and-bit_or : (k a b : ℕ) → a < 2 ^ k → b < 2 ^ k → bit_and (bit_or a b) b ≡ b
bit_and-bit_or k a b p q =
    let or = bit_or-lt k a b p q in
    bit_ext k _ b (omega (arith, bit_and-le k (bit_or a b) b or, or)) q
      (λ i l. omega (arith, bit-bit_and (bit_or a b) b i, bit-bit_or a b i))

pub bit_or_zero : (n a : ℕ) → a ≤ n → bit_or a 0 ≡ a
bit_or_zero zero a h = let e : a ≡ 0 = omega arith in rw e refl
bit_or_zero (suc n) zero h = refl
bit_or_zero (suc n) (suc a) h =
    let low : bit_or (suc a) 0 ≡ bit_or (suc a / 2) 0 * 2 + max (suc a % 2) 0 =
      bit_or_low (suc a) 0 in
    let ih : bit_or (suc a / 2) 0 ≡ suc a / 2 = bit_or_zero n (suc a / 2) (omega arith) in
    omega (arith, low, ih)
