-- ===== src/Link/Sset/Above.antt =====
-- Modes above 31: ethtool_link_mode_is_backward_compatible, and when do_sset advertises one.
use ethtool.Base.{
  ℕ, zero, suc, ◌+◌, ◌-◌, ◌/◌, ◌<◌, ◌≡◌, ◌≢◌, ◌⊎◌, inl, inr, refl, ap, ap₂, ◌∙◌, bit_and, bit_or,
  Bool, true, false, Option, none, some, ◌==◌, leb, arith, Bool-cases, ==_iff, ==_false,
}
use ethtool.Base.Bits.{bit_not, bit_and-le, all_below}
use ethtool.Link.{one_word, link_mode_is_backward_compatible}
use ethtool.LinkMode.{
  Mask, max_kernel_nbits, max_kernel_nu32, set_advertising, replace_modes, supported_modes,
  all_advertised_modes, link_mode_set_bit, link_mode_zero,
}
use ethtool.LinkMode.Advertise.{leb_lt, IsMode}

all_below-of : (n : ℕ) (p : ℕ → Bool) → ((i : ℕ) → i < n → p i ≡ true) → all_below n p ≡ true
unfolding all_below
all_below-of zero p h = refl
all_below-of (suc n) p h = rw (h n (omega arith)) (all_below-of n p (λ i l. h i (omega arith)))

all_below_fails : (n : ℕ) (p : ℕ → Bool) → all_below n p ≡ false → (i : ℕ) × (i < n) × (p i ≡ false)
unfolding all_below
all_below_fails zero p h = absurd (cc)
all_below_fails (suc n) p h = elim (Bool-cases (p n)) [
  | inr here ↦ (n, omega arith, here)
  | inl fine ↦ let (i, l, e) = all_below_fails n p (rw fine at h) in (i, omega arith, e)
]

not_zero : (n : ℕ) → (n == 0) ≡ false → n ≢ 0
not_zero n h e = ground arith

-- A mask with a word above the first, or one without.
pub compatible_cases :
    (mask : Mask)
    → (link_mode_is_backward_compatible mask ≡ true)
      ⊎ ((link_mode_is_backward_compatible mask ≡ false)
          × (i : ℕ) × (i < max_kernel_nu32 - 1)
          × (mask (i + 1) ≢ 0))
unfolding link_mode_is_backward_compatible
compatible_cases mask =
    elim (Bool-cases (all_below (max_kernel_nu32 - 1) (λ i. mask (i + 1) == 0))) [
      | inl fine ↦ inl fine
      | inr bad ↦
          let (i, l, e) = all_below_fails (max_kernel_nu32 - 1) (λ i. mask (i + 1) == 0) bad in
          inr (bad, i, l, not_zero _ e)
    ]

pub Compatible-of :
    (mask : Mask)
    → ((i : ℕ) → i < max_kernel_nu32 - 1 → mask (i + 1) ≡ 0)
    → link_mode_is_backward_compatible mask ≡ true
unfolding link_mode_is_backward_compatible
Compatible-of mask h =
    all_below-of (max_kernel_nu32 - 1) (λ i. mask (i + 1) == 0) (λ i l. (==_iff _ 0).1 (h i l))

pub one_word_above : (x i : ℕ) → one_word x (i + 1) ≡ 0
one_word_above x i =
    let e : (i + 1 == 0) ≡ false = ==_false (i + 1) 0 (λ e. omega arith) in rw e refl

zero_and : (k : ℕ) → bit_and 0 k ≡ 0
zero_and k = let le = bit_and-le 32 0 k (omega arith) in omega arith

low_mode_only : (m i : ℕ) → m < 32 → link_mode_set_bit m link_mode_zero (i + 1) ≡ 0
unfolding link_mode_set_bit
low_mode_only m i small =
    let low : leb max_kernel_nbits m ≡ false = leb_lt _ _ (omega arith) in
    let apart : (i + 1 == m / 32) ≡ false = ==_false (i + 1) (m / 32) (λ e. omega arith) in
    rw (low, apart) refl

-- Only a mask that was given can advertise a mode above 31.
pub advertised_above :
    (mode : Option ℕ) (enable : Bool) (sup adv i : ℕ)
    → IsMode mode
    → set_advertising none mode enable (one_word sup) (one_word adv) (i + 1) ≡ 0
unfolding set_advertising replace_modes supported_modes
advertised_above (some m) enable sup adv i ok =
    ap₂ bit_or
      (ap (λ (w : ℕ). bit_and w (bit_not 32 (all_advertised_modes (i + 1)))) (one_word_above adv i)
        ∙ zero_and _)
      (low_mode_only m i ok.0)
advertised_above none true sup adv i ok =
    ap₂ bit_or
      (ap (λ (w : ℕ). bit_and w (bit_not 32 (all_advertised_modes (i + 1)))) (one_word_above adv i)
        ∙ zero_and _)
      (ap (λ (w : ℕ). bit_and w (all_advertised_modes (i + 1))) (one_word_above sup i) ∙ zero_and _)
advertised_above none false sup adv i ok = one_word_above adv i
