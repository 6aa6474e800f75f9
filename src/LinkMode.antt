-- ===== src/LinkMode.antt =====
-- internal.h and ethtool.c, bitmaps of link modes: the functions ethtool_link_mode_*, the masks of
-- all modes, parse_hex_u32_bitmap and what do_sset puts into the advertised modes. A bitmap is a
-- function of the number of its 32-bit word, of which the first 127 are there.
pub mod Hex
pub mod Advertise
use ethtool.Base.{
  ℕ, zero, suc, ◌+◌, ◌-◌, ◌*◌, ◌/◌, ◌%◌, ◌^◌, bit_and, bit_or, Bool, true, false, ◌&&◌, ◌||◌, not,
  Option, none, some, List, [], ◌∷◌, ◌==◌, ltb, leb, if◌then◌else◌, length,
}
use ethtool.Base.Bits.{bit_not}
use ethtool.Base.Int.{ℤ, pos, negsuc}
use ethtool.Base.Maybe.{◌>>=◌}

abbrev pub Mask : Type 0
Mask = ℕ → ℕ

abbrev pub max_kernel_nu32 : ℕ
max_kernel_nu32 = 127

abbrev pub max_kernel_nbits : ℕ
max_kernel_nbits = 32 * max_kernel_nu32

abbrev pub link_mode_zero : Mask
link_mode_zero block = 0

abbrev pub link_mode_copy : Mask → Mask
link_mode_copy src = src

unfoldable pub link_mode_test_bit : ℕ → Mask → Bool
link_mode_test_bit nr mask =
    if leb max_kernel_nbits nr then false else not (bit_and (2 ^ (nr % 32)) (mask (nr / 32)) == 0)

-- Out of range it returns -1 and changes nothing.
unfoldable pub link_mode_set_bit : ℕ → Mask → Mask
link_mode_set_bit nr mask block =
    if leb max_kernel_nbits nr
    then mask block
    else if block == nr / 32
    then bit_or (mask block) (2 ^ (nr % 32))
    else mask block

pub set_bits : List ℕ → Mask → Mask
set_bits [] mask = mask
set_bits (nr ∷ nrs) mask = set_bits nrs (link_mode_set_bit nr mask)

-- The numbers of the modes, in the order of the code.
abbrev pub all_advertised_modes_bits : List ℕ
all_advertised_modes_bits =
    0 ∷ 1 ∷ 2 ∷ 3 ∷ 4 ∷ 5 ∷ 17 ∷ 15 ∷ 12 ∷ 18 ∷ 19 ∷ 20 ∷ 21 ∷ 22 ∷ 23 ∷ 24 ∷ 25 ∷ 26 ∷ 27 ∷ 28 ∷ 29
    ∷ 30 ∷ 31 ∷ 32 ∷ 33 ∷ 34 ∷ 35 ∷ 36 ∷ 37 ∷ 38 ∷ 39 ∷ 40 ∷ 41 ∷ 42 ∷ 43 ∷ 44 ∷ 45 ∷ 46 ∷ 47 ∷ 48
    ∷ 52 ∷ 53 ∷ 54 ∷ 55 ∷ 56 ∷ 57 ∷ 58 ∷ 59 ∷ 60 ∷ 61 ∷ 62 ∷ 63 ∷ 64 ∷ 65 ∷ 66 ∷ 67 ∷ 68 ∷ []

abbrev pub additional_advertised_flags_bits : List ℕ
additional_advertised_flags_bits = 6 ∷ 7 ∷ 8 ∷ 9 ∷ 10 ∷ 11 ∷ 13 ∷ 14 ∷ 16 ∷ 49 ∷ 50 ∷ 51 ∷ []

unfoldable pub all_advertised_modes : Mask
all_advertised_modes = set_bits all_advertised_modes_bits link_mode_zero

unfoldable pub all_advertised_flags : Mask
all_advertised_flags =
    set_bits additional_advertised_flags_bits (set_bits all_advertised_modes_bits link_mode_zero)

-- One digit.
unfoldable pub nibble_of : ℕ → Option ℕ
nibble_of c =
    if leb b'a' c && leb c b'f'
    then some (10 + (c - b'a'))
    else if leb b'A' c && leb c b'F'
    then some (10 + (c - b'A'))
    else if leb b'0' c && leb c b'9'
    then some (c - b'0')
    else none

-- `*dest |= nibble << (shift % 32)`, with the shift of a digit that n digits follow.
unfoldable pub or_nibble : Mask → ℕ → ℕ → Mask
or_nibble result n nibble block =
    if block == 4 * n / 32 then bit_or (result block) (nibble * 2 ^ (4 * n % 32)) else result block

unfoldable pub parse_digits : List ℕ → Mask → Option Mask
parse_digits [] result = some result
parse_digits (c ∷ s) result =
    nibble_of c >>= λ nibble. parse_digits s (or_nibble result (length s) nibble)

-- The prefix 0x, before at least one more character.
unfoldable pub skip_prefix : List ℕ → List ℕ
skip_prefix (a ∷ b ∷ c ∷ s) = if a == b'0' && (b == b'x' || b == b'X') then c ∷ s else a ∷ b ∷ c ∷ s
skip_prefix s = s

-- `none` is the return of -1.
unfoldable pub parse_hex_u32_bitmap : List ℕ → ℕ → Option Mask
parse_hex_u32_bitmap s nbits =
    if ltb (8 * ((nbits + 31) / 32)) (length (skip_prefix s))
    then none
    else parse_digits (skip_prefix s) link_mode_zero

-- do_sset: the mode for a speed and a duplex, half being 0 and full 1.
unfoldable pub mode_for : ℤ → ℤ → Option ℕ
mode_for (pos speed) (pos duplex) =
    if speed == 10 && duplex == 0
    then some 0
    else if speed == 10 && duplex == 1
    then some 1
    else if speed == 100 && duplex == 0
    then some 2
    else if speed == 100 && duplex == 1
    then some 3
    else if speed == 1000 && duplex == 0
    then some 4
    else if speed == 1000 && duplex == 1
    then some 5
    else if speed == 2500 && duplex == 1
    then some 15
    else if speed == 10000 && duplex == 1
    then some 12
    else none
mode_for _ _ = none

-- Every word of `adv`: the modes of `all` from `value`, and the rest as it was.
unfoldable pub replace_modes : Mask → Mask → Mask → Mask
replace_modes all adv value block =
    bit_or (bit_and (adv block) (bit_not 32 (all block))) (value block)

unfoldable pub supported_modes : Mask → Mask → Mask
supported_modes all sup block = bit_and (sup block) (all block)

-- `full` is full_advertising_wanted, `autoneg` whether autoneg_wanted is AUTONEG_ENABLE.
unfoldable pub set_advertising : Option Mask → Option ℕ → Bool → Mask → Mask → Mask
set_advertising (some full) mode autoneg sup adv = link_mode_copy full
set_advertising none (some mode) autoneg sup adv =
    replace_modes all_advertised_modes adv (link_mode_set_bit mode link_mode_zero)
set_advertising none none true sup adv =
    replace_modes all_advertised_modes adv (supported_modes all_advertised_modes sup)
set_advertising none none false sup adv = adv
