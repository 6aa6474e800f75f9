-- ===== src/LinkMode/Hex.antt =====
-- parse_hex_u32_bitmap: which bits a text sets.
use ethtool.Base.{
  ℕ, zero, suc, ◌+◌, ◌-◌, ◌*◌, ◌/◌, ◌%◌, ◌^◌, ◌≤◌, ◌<◌, ◌≡◌, ◌≢◌, ◌⊎◌, inl, inr, refl, sym, ap, ◌∙◌,
  subst, max, Bool, true, false, ◌&&◌, Option, none, some, List, [], ◌∷◌, ◌==◌, leb, ltb,
  if◌then◌else◌, length, arith, Bool-cases, ==_iff, ==_false, if_none,
}
use ethtool.Base.Bits.{bit, bit-bit_or, bit-shift_low, bit_high, zero-bit}
use ethtool.Base.Maybe.{>>=-some, some_eq, none_absurd}
use ethtool.LinkMode.{
  Mask, link_mode_zero, nibble_of, or_nibble, parse_digits, skip_prefix, parse_hex_u32_bitmap,
}
use native.Mathlib.Nat.{pow-suc}

abbrev pub or_zero : Option ℕ → ℕ
or_zero none = 0
or_zero (some v) = v

-- Digit q of a text, counted from its end, or 0 before its start.
abbrev pub digit_at : List ℕ → ℕ → ℕ
digit_at [] q = 0
digit_at (c ∷ s) q = if q == length s then or_zero (nibble_of c) else digit_at s q

bit-shift_high : (k x i : ℕ) → bit (x * 2 ^ k) (k + i) ≡ bit x i
bit-shift_high zero x i =
    let e : x * 2 ^ 0 ≡ x = omega arith in let e' : 0 + i ≡ i = omega arith in rw (e, e') refl
bit-shift_high (suc k) x i =
    let half : x * 2 ^ suc k / 2 ≡ x * 2 ^ k = omega (arith, ap (λ (t : ℕ). x * t) (pow-suc 2 k)) in
    let next : suc k + i ≡ suc (k + i) = omega arith in
    ap (bit (x * 2 ^ suc k)) next ∙ ap (λ w. bit w (k + i)) half ∙ bit-shift_high k x i

in_range :
    (b : Bool) (v : ℕ) (o : Option ℕ) {w : ℕ}
    → (b ≡ true → v < 16)
    → (o ≡ some w → w < 16)
    → (if b then some v else o) ≡ some w
    → w < 16
in_range true v o p q h = subst (λ n. n < 16) (some_eq h) (p refl)
in_range false v o p q h = q h

nibble-lt : (c : ℕ) {v : ℕ} → nibble_of c ≡ some v → v < 16
unfolding nibble_of
nibble-lt c h =
    in_range (leb b'a' c && leb c b'f') _ _ (λ e. ground arith)
      (in_range (leb b'A' c && leb c b'F') _ _ (λ e. ground arith)
        (in_range (leb b'0' c && leb c b'9') _ none (λ e. ground arith) (λ e. none_absurd e)))
      h

trichotomy : (a b : ℕ) → (a < b) ⊎ ((a ≡ b) ⊎ (b < a))
trichotomy a b = ground arith

not_here : (b n : ℕ) → (b / 32 == 4 * n / 32) ≡ false → b / 4 ≢ n
not_here b n h e = let same : b / 32 ≡ 4 * n / 32 = omega arith in ground arith

-- The bits of a nibble in its word.
shifted :
    (v n b : ℕ)
    → v < 16
    → b / 32 ≡ 4 * n / 32
    → bit (v * 2 ^ (4 * n % 32)) (b % 32) ≡ (if b / 4 == n then bit v (b % 4) else 0)
shifted v n b small same = elim (trichotomy (b / 4) n) [
  | inl lower ↦
      let apart : (b / 4 == n) ≡ false = ==_false (b / 4) n (λ z. omega arith) in
      rw apart (bit-shift_low (4 * n % 32) v (b % 32) (omega arith))
  | inr (inl here) ↦
      let equal : (b / 4 == n) ≡ true = (==_iff (b / 4) n).1 here in
      let place : b % 32 ≡ 4 * n % 32 + b % 4 = omega arith in
      rw equal (ap (bit (v * 2 ^ (4 * n % 32))) place ∙ bit-shift_high (4 * n % 32) v (b % 4))
  | inr (inr higher) ↦
      let apart : (b / 4 == n) ≡ false = ==_false (b / 4) n (λ z. omega arith) in
      let place : b % 32 ≡ 4 * n % 32 + (b % 32 - 4 * n % 32) = omega arith in
      rw apart (
        ap (bit (v * 2 ^ (4 * n % 32))) place
        ∙ bit-shift_high (4 * n % 32) v (b % 32 - 4 * n % 32)
        ∙ bit_high 4 v (b % 32 - 4 * n % 32) small (omega arith))
]

-- A bit of a bitmap.
abbrev pub bit_of : Mask → ℕ → ℕ
bit_of mask b = bit (mask (b / 32)) (b % 32)

or_nibble-bit :
    (result : Mask) (n v b : ℕ)
    → v < 16
    → bit_of (or_nibble result n v) b
      ≡ max (bit_of result b) (if b / 4 == n then bit v (b % 4) else 0)
unfolding or_nibble
or_nibble-bit result n v b small = elim (Bool-cases (b / 32 == 4 * n / 32)) [
  | inl same ↦
      rw
        (
          same,
          bit-bit_or (result (b / 32)) (v * 2 ^ (4 * n % 32)) (b % 32),
          shifted v n b small ((==_iff _ _).0 same),
        )
        refl
  | inr other ↦
      let apart : (b / 4 == n) ≡ false = ==_false (b / 4) n (λ e. not_here b n other e) in
      rw (other, apart) (omega arith)
]

digit_at_past : (s : List ℕ) (q : ℕ) → length s ≤ q → digit_at s q ≡ 0
digit_at_past [] q h = refl
digit_at_past (c ∷ s) q h =
    let apart : (q == length s) ≡ false = ==_false q (length s) (λ e. omega arith) in
    rw apart (digit_at_past s q (omega arith))

not_longer : (m n : ℕ) → ltb m n ≡ false → n ≤ m
not_longer m n h = ground arith

parse_digits-bit :
    (s : List ℕ) (result mask : Mask) (b : ℕ)
    → parse_digits s result ≡ some mask
    → bit_of mask b ≡ max (bit_of result b) (bit (digit_at s (b / 4)) (b % 4))
unfolding parse_digits
parse_digits-bit [] result mask b h =
    let same : mask ≡ result = sym (some_eq h) in
    ap (λ (m : Mask). bit_of m b) same ∙ omega (arith, zero-bit (b % 4))
parse_digits-bit (c ∷ s) result mask b h =
    let (v, read, rest) =
      >>=-some (nibble_of c) (λ v. parse_digits s (or_nibble result (length s) v)) h in
    let ih = parse_digits-bit s (or_nibble result (length s) v) mask b rest in
    let one = or_nibble-bit result (length s) v b (nibble-lt c read) in
    elim (Bool-cases (b / 4 == length s)) [
      | inl here ↦
          let at : b / 4 ≡ length s = (==_iff _ _).0 here in
          let before : digit_at s (b / 4) ≡ 0 = digit_at_past s (b / 4) (omega arith) in
          let one' : bit_of (or_nibble result (length s) v) b
              ≡ max (bit_of result b) (bit v (b % 4)) =
            (rw here at one) in
          let ih' : bit_of mask b ≡ max (bit_of (or_nibble result (length s) v) b) (bit 0 (b % 4)) =
            (rw before at ih) in
          rw (here, read) (omega (arith, ih', one', zero-bit (b % 4)))
      | inr other ↦
          let one' : bit_of (or_nibble result (length s) v) b ≡ max (bit_of result b) 0 =
            (rw other at one) in
          rw other (omega (arith, ih, one'))
    ]

-- A text that is accepted, without its prefix 0x, has at most as many digits as the bitmap has
-- room for, and each bit of the bitmap is that of its digit, the last digit of the text being the
-- lowest; a bit for which there is no digit is 0.
pub parse_hex_u32_bitmap-bit :
    (s : List ℕ) (nbits : ℕ) (mask : Mask) (b : ℕ)
    → parse_hex_u32_bitmap s nbits ≡ some mask
    → (length (skip_prefix s) ≤ 8 * ((nbits + 31) / 32))
      × (bit_of mask b ≡ bit (digit_at (skip_prefix s) (b / 4)) (b % 4))
unfolding parse_hex_u32_bitmap
parse_hex_u32_bitmap-bit s nbits mask b h =
    let (short, parsed) = if_none (ltb (8 * ((nbits + 31) / 32)) (length (skip_prefix s))) _ h in
    (
      not_longer _ _ short,
      omega
          (arith, parse_digits-bit (skip_prefix s) link_mode_zero mask b parsed, zero-bit (b % 32)),
    )
