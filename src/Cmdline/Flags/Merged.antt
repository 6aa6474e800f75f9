-- ===== src/Cmdline/Flags/Merged.antt =====
-- Flags that are merged with those of a device, bit by bit.
use ethtool.Base.{
  ℕ, ◌^◌, ◌≤◌, ◌<◌, ◌≡◌, inl, inr, ap, max, bit_and, bit_or, Bool, true, false, List, [], ◌∷◌, ◌==◌,
  if◌then◌else◌, arith, Bool-cases, codes, ==_iff,
}
use ethtool.Base.Bits.{bit, bit-le, bit-bit_or, bit-bit_and, bit-bit_not, bit_not, zero-bit}
use ethtool.Base.Bytes.{le_bytes, le_value}
use ethtool.Clib.{str_eq}
use ethtool.Cmdline.{CmdlineInfo}
use ethtool.Cmdline.Flags.{flag_of, turned_on, named}

on_bit : (b : Bool) (flag j : ℕ) → bit (if b then flag else 0) j ≤ bit flag j
on_bit true flag j = omega arith
on_bit false flag j = omega (arith, zero-bit j)

pub on-le-named :
    (info : List CmdlineInfo) (args : List (List ℕ)) (j : ℕ)
    → bit (turned_on info args) j ≤ bit (named info args) j
unfolding turned_on named
on-le-named info [] j = omega arith
on-le-named info (name ∷ []) j = omega arith
on-le-named info (name ∷ arg ∷ rest) j =
    let on : ℕ = if str_eq arg (codes "on") then flag_of info name else 0 in
    omega (
      arith,
      bit-bit_or on (turned_on info rest) j,
      bit-bit_or (flag_of info name) (named info rest) j,
      on_bit (str_eq arg (codes "on")) (flag_of info name) j,
      on-le-named info rest j,
    )

not_one : (n : ℕ) → n ≤ 1 → (n == 1) ≡ false → n ≡ 0
not_one n h e = ground arith

pub merged :
    (level wanted mask on seen j : ℕ)
    → j < 32
    → mask < 2 ^ 32
    → bit wanted j ≡ max 0 (bit on j)
    → bit mask j ≡ max 0 (bit seen j)
    → bit on j ≤ bit seen j
    → bit (bit_or (bit_and level (bit_not 32 mask)) wanted) j
      ≡ (if bit seen j == 1 then bit on j else bit level j)
merged level wanted mask on seen j small m w k le =
    let v = bit-bit_or (bit_and level (bit_not 32 mask)) wanted j in
    let a = bit-bit_and level (bit_not 32 mask) j in
    let n = bit-bit_not 32 mask j m small in
    let lev = bit-le level j in
    let see = bit-le seen j in
    elim (Bool-cases (bit seen j == 1)) [
      | inl named_here ↦
          let one : bit seen j ≡ 1 = (==_iff _ 1).0 named_here in
          rw named_here (omega (arith, v, a, n, w, k, one, le, lev))
      | inr other ↦
          let zero_here : bit seen j ≡ 0 = not_one _ see other in
          rw other (omega (arith, v, a, n, w, k, zero_here, le, lev))
    ]

pub none_before : (j n : ℕ) → max (bit (le_value (le_bytes 4 0)) j) (bit n j) ≡ max 0 (bit n j)
none_before j n = ap (λ (b : ℕ). max b (bit n j)) (zero-bit j)
