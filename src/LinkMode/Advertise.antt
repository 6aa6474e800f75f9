-- ===== src/LinkMode/Advertise.antt =====
-- do_sset: which modes are advertised, and the masks of all modes.
use ethtool.Base.{
  ℕ, ◌-◌, ◌/◌, ◌%◌, ◌^◌, ◌≤◌, ◌<◌, ◌≡◌, ◌≢◌, inl, inr, refl, ap, ◌∙◌, min, max, bit_and, Bool, true,
  false, ◌&&◌, Option, none, some, List, [], ◌∷◌, ◌==◌, leb, if◌then◌else◌, arith, Bool-cases,
  ==_iff, ==_false, if_elim,
}
use ethtool.Base.Bits.{
  bit, bit-le, bit_not, bit-bit_or, bit-bit_and, bit-bit_not, bit-pow_self, bit-pow_ne, zero-bit,
  bit_or-lt, pow-lt-pow,
}
use ethtool.Base.Int.{ℤ, pos, negsuc}
use ethtool.LinkMode.{
  Mask, max_kernel_nbits, link_mode_zero, link_mode_set_bit, set_bits, all_advertised_modes_bits,
  all_advertised_modes, mode_for, replace_modes, supported_modes, set_advertising,
}
use ethtool.LinkMode.Hex.{bit_of}

pub leb_lt : (m n : ℕ) → n < m → leb m n ≡ false
leb_lt m n h = ground arith

not_same : (a b : ℕ) → (a == b) ≡ false → a ≢ b
not_same a b h e = ground arith

-- Every word has 32 bits.
abbrev IsMask : Mask → Type 0
IsMask mask = (block : ℕ) → mask block < 2 ^ 32

set_bit-IsMask : (nr : ℕ) (mask : Mask) → IsMask mask → IsMask (link_mode_set_bit nr mask)
unfolding link_mode_set_bit
set_bit-IsMask nr mask ok block =
    if_elim (λ w. w < 2 ^ 32) (leb max_kernel_nbits nr) (λ e. ok block)
      (λ e.
        if_elim (λ w. w < 2 ^ 32) (block == nr / 32)
          (λ e'.
            bit_or-lt 32 (mask block) (2 ^ (nr % 32)) (ok block)
              (pow-lt-pow (nr % 32) 32 (omega arith)))
          (λ e'. ok block))

set_bits-IsMask : (nrs : List ℕ) (mask : Mask) → IsMask mask → IsMask (set_bits nrs mask)
unfolding set_bits
set_bits-IsMask [] mask ok = ok
set_bits-IsMask (nr ∷ nrs) mask ok =
    set_bits-IsMask nrs (link_mode_set_bit nr mask) (set_bit-IsMask nr mask ok)

modes-IsMask : IsMask all_advertised_modes
unfolding all_advertised_modes
modes-IsMask = set_bits-IsMask all_advertised_modes_bits link_mode_zero (λ block. omega arith)

replace_modes-bit :
    (all adv value : Mask) (j : ℕ)
    → IsMask all
    → bit_of (replace_modes all adv value) j
      ≡ max (min (bit_of adv j) (1 - bit_of all j)) (bit_of value j)
unfolding replace_modes
replace_modes-bit all adv value j ok =
    let block : ℕ = j / 32 in
    let i : ℕ = j % 32 in
    omega (
      arith,
      bit-bit_or (bit_and (adv block) (bit_not 32 (all block))) (value block) i,
      bit-bit_and (adv block) (bit_not 32 (all block)) i,
      bit-bit_not 32 (all block) i (ok block) (omega arith),
    )

supported-bit :
    (all sup : Mask) (j : ℕ)
    → bit_of (supported_modes all sup) j ≡ min (bit_of sup j) (bit_of all j)
unfolding supported_modes
supported-bit all sup j = bit-bit_and (sup (j / 32)) (all (j / 32)) (j % 32)

-- One mode alone.
one_mode :
    (m j : ℕ) → m < 32 → bit_of (link_mode_set_bit m link_mode_zero) j ≡ (if j == m then 1 else 0)
unfolding link_mode_set_bit
one_mode m j small =
    let low : leb max_kernel_nbits m ≡ false = leb_lt _ _ (omega arith) in
    rw low (elim (Bool-cases (j == m)) [
      | inl same ↦
          let at : j ≡ m = (==_iff j m).0 same in
          let block : (j / 32 == m / 32) ≡ true = (==_iff _ _).1 (omega arith) in
          let place : j % 32 ≡ m % 32 = omega arith in
          rw (same, block, place)
            (omega (
              arith,
              bit-bit_or 0 (2 ^ (m % 32)) (m % 32),
              bit-pow_self (m % 32),
              bit-le 0 (m % 32),
              zero-bit (m % 32),
            ))
      | inr other ↦ rw other (elim (Bool-cases (j / 32 == m / 32)) [
        | inl block ↦
            let same_block : j / 32 ≡ m / 32 = (==_iff _ _).0 block in
            let ne : j ≢ m = not_same j m other in
            let apart : m % 32 ≢ j % 32 = λ e. ne (omega arith) in
            rw block (
              omega (
                arith,
                bit-bit_or 0 (2 ^ (m % 32)) (j % 32),
                bit-pow_ne (m % 32) (j % 32) apart,
                zero-bit (j % 32),
              ))
        | inr elsewhere ↦ rw elsewhere (zero-bit (j % 32))
      ])
    ])

low_modes : all_advertised_modes 0 ≡ 0xfffe903f
unfolding all_advertised_modes set_bits link_mode_set_bit
low_modes = refl

abbrev pub IsMode : Option ℕ → Type 0
IsMode none = Unit
IsMode (some m) = (m < 32) × (bit_of all_advertised_modes m ≡ 1)

known : (m : ℕ) → m < 32 → bit 0xfffe903f m ≡ 1 → IsMode (some m)
known m small h =
    let block : m / 32 ≡ 0 = omega arith in
    let place : m % 32 ≡ m = omega arith in
    (
      small,
      ap (λ b. bit (all_advertised_modes b) (m % 32)) block
          ∙ ap (λ w. bit w (m % 32)) low_modes
          ∙ ap (bit 0xfffe903f) place
          ∙ h,
    )

-- The mode for a speed and a duplex is one of all.
pub mode_for-IsMode : (speed duplex : ℤ) → IsMode (mode_for speed duplex)
unfolding mode_for
mode_for-IsMode (pos speed) (pos duplex) =
    if_elim IsMode (speed == 10 && duplex == 0) (λ _. known 0 (omega arith) refl)
      (λ _.
        if_elim IsMode (speed == 10 && duplex == 1) (λ _. known 1 (omega arith) refl)
          (λ _.
            if_elim IsMode (speed == 100 && duplex == 0) (λ _. known 2 (omega arith) refl)
              (λ _.
                if_elim IsMode (speed == 100 && duplex == 1) (λ _. known 3 (omega arith) refl)
                  (λ _.
                    if_elim IsMode (speed == 1000 && duplex == 0) (λ _. known 4 (omega arith) refl)
                      (λ _.
                        if_elim IsMode (speed == 1000 && duplex == 1)
                          (λ _. known 5 (omega arith) refl)
                          (λ _.
                            if_elim IsMode (speed == 2500 && duplex == 1)
                              (λ _. known 15 (omega arith) refl)
                              (λ _.
                                if_elim IsMode (speed == 10000 && duplex == 1)
                                  (λ _. known 12 (omega arith) refl) (λ _. tt))))))))
mode_for-IsMode (pos speed) (negsuc duplex) = tt
mode_for-IsMode (negsuc speed) duplex = tt

-- Mode j as it should be advertised: as the mask that was given; else a mode that the program knows
-- as the one that the speed and the duplex stand for, or, with autoneg on, as it is supported; and
-- any other mode as before.
abbrev pub advertised : Option Mask → Option ℕ → Bool → Mask → Mask → ℕ → ℕ
advertised (some full) mode autoneg sup adv j = bit_of full j
advertised none (some m) autoneg sup adv j =
    if bit_of all_advertised_modes j == 1 then (if j == m then 1 else 0) else bit_of adv j
advertised none none true sup adv j =
    if bit_of all_advertised_modes j == 1 then bit_of sup j else bit_of adv j
advertised none none false sup adv j = bit_of adv j

is_zero_bit : (n : ℕ) → n ≤ 1 → (n == 1) ≡ false → n ≡ 0
is_zero_bit n le h = ground arith

other_mode :
    (j m : ℕ) → bit_of all_advertised_modes j ≡ 0 → bit_of all_advertised_modes m ≡ 1 → j ≢ m
other_mode j m h h' e =
    let same : bit_of all_advertised_modes j ≡ bit_of all_advertised_modes m =
      ap (bit_of all_advertised_modes) e in
    omega (arith, same, h, h')

by_mode :
    (mode : Option ℕ) (full : Option Mask) (autoneg : Bool) (sup adv : Mask) (j : ℕ)
    → IsMode mode
    → bit_of (set_advertising full mode autoneg sup adv) j ≡ advertised full mode autoneg sup adv j
unfolding set_advertising
by_mode mode (some full) autoneg sup adv j ok = refl
by_mode (some m) none autoneg sup adv j ok =
    let new : Mask = link_mode_set_bit m link_mode_zero in
    let r = replace_modes-bit all_advertised_modes adv new j modes-IsMask in
    elim (Bool-cases (bit_of all_advertised_modes j == 1)) [
      | inl known_mode ↦
          let one : bit_of all_advertised_modes j ≡ 1 = (==_iff _ 1).0 known_mode in
          let replaced : bit_of (replace_modes all_advertised_modes adv new) j ≡ bit_of new j =
            omega (arith, r, one) in
          rw known_mode (replaced ∙ one_mode m j ok.0)
      | inr unknown ↦
          let none_here : bit_of all_advertised_modes j ≡ 0 =
            is_zero_bit _ (bit-le (all_advertised_modes (j / 32)) (j % 32)) unknown in
          let apart : (j == m) ≡ false = ==_false j m (λ e. other_mode j m none_here ok.1 e) in
          let new_zero : bit_of new j ≡ 0 =
            one_mode m j ok.0 ∙ ap (λ b. if b then 1 else 0) apart in
          rw unknown (omega (arith, r, none_here, new_zero, bit-le (adv (j / 32)) (j % 32)))
    ]
by_mode none none true sup adv j ok =
    let new : Mask = supported_modes all_advertised_modes sup in
    let r = replace_modes-bit all_advertised_modes adv new j modes-IsMask in
    let from_sup = supported-bit all_advertised_modes sup j in
    let small = bit-le (sup (j / 32)) (j % 32) in
    elim (Bool-cases (bit_of all_advertised_modes j == 1)) [
      | inl known_mode ↦
          let one : bit_of all_advertised_modes j ≡ 1 = (==_iff _ 1).0 known_mode in
          rw known_mode (omega (arith, r, one, from_sup, small))
      | inr unknown ↦
          let none_here : bit_of all_advertised_modes j ≡ 0 =
            is_zero_bit _ (bit-le (all_advertised_modes (j / 32)) (j % 32)) unknown in
          rw unknown (omega (arith, r, none_here, from_sup, bit-le (adv (j / 32)) (j % 32)))
    ]
by_mode none none false sup adv j ok = refl

-- Mode by mode, what is advertised: with a mask that was given, its bit. Without one, for a mode that
-- the program knows: whether it is the one for the speed and the duplex, if there is one for them,
-- else, with autoneg on, whether it is supported. Every other mode is as before.
pub set_advertising-advertised :
    (full : Option Mask) (speed duplex : ℤ) (autoneg : Bool) (sup adv : Mask) (j : ℕ)
    → bit_of (set_advertising full (mode_for speed duplex) autoneg sup adv) j
      ≡ advertised full (mode_for speed duplex) autoneg sup adv j
set_advertising-advertised full speed duplex autoneg sup adv j =
    by_mode (mode_for speed duplex) full autoneg sup adv j (mode_for-IsMode speed duplex)
