-- ===== src/Tests/Link.antt =====
-- Bitmaps of link modes.
use ethtool.Base.{◌+◌, ◌*◌, ◌/◌, ◌%◌, ◌≤◌, ◌≡◌, refl, false, none, some, codes, length}
use ethtool.Base.Bits.{bit}
use ethtool.Base.Int.{pos}
use ethtool.LinkMode.{
  Mask, link_mode_zero, nibble_of, or_nibble, parse_digits, skip_prefix, parse_hex_u32_bitmap,
  mode_for, set_advertising,
}
use ethtool.LinkMode.Hex.{bit_of, digit_at, parse_hex_u32_bitmap-bit}
use ethtool.LinkMode.Advertise.{advertised, set_advertising-advertised}

-- `0x28`
abbrev mask_28 : Mask
mask_28 = or_nibble (or_nibble link_mode_zero 1 2) 0 8

parsed_28 : parse_hex_u32_bitmap (codes "0x28") 4064 ≡ some mask_28
unfolding parse_hex_u32_bitmap skip_prefix parse_digits nibble_of
parsed_28 = refl

parse_hex_u32_bitmap-bit_example :
    (length (skip_prefix (codes "0x28")) ≤ 8 * ((4064 + 31) / 32))
    × (bit_of mask_28 5 ≡ bit (digit_at (skip_prefix (codes "0x28")) (5 / 4)) (5 % 4))
parse_hex_u32_bitmap-bit_example = parse_hex_u32_bitmap-bit (codes "0x28") 4064 mask_28 5 parsed_28

-- `speed 100 duplex full` on a device that advertises everything.
abbrev everything : Mask
everything block = 0xffffffff

set_advertising-advertised_example :
    bit_of (set_advertising none (mode_for (pos 100) (pos 1)) false everything everything) 3
    ≡ advertised none (mode_for (pos 100) (pos 1)) false everything everything 3
set_advertising-advertised_example =
    set_advertising-advertised none (pos 100) (pos 1) false everything everything 3
