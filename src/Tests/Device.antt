-- ===== src/Tests/Device.antt =====
-- Tunables, the reset and the EEPROM.
use ethtool.Base.{
  ℕ, ◌-◌, ◌^◌, ◌≡◌, refl, Bool, true, Option, none, some, List, [], ◌∷◌, codes, arith,
}
use ethtool.Base.Bytes.{le_bytes}
use ethtool.Base.Int.{ℤ, pos}
use ethtool.Base.Maybe.{◌>>=◌}
use ethtool.Base.Run.{Run}
use ethtool.Clib.{str_eq}
use ethtool.Clib.Strto.{strtoull, skip_space, magnitude, is_minus, skip_sign, read_digits}
use ethtool.Cmdline.{
  Line, write, get_uint_range, parse_generic_cmdline, take_pair, find_info, set_wanted, number, see,
}
use ethtool.Eeprom.{
  Read, cmdline_geeprom, geeprom_start, Write, Put, do_seeprom, cmdline_seeprom, seeprom_start,
  seeprom_write,
}
use ethtool.Eeprom.Writes.{WritesAll, do_seeprom-WritesAll}
use ethtool.Reset.{reset_data}
use ethtool.Reset.Names.{masks, union, reset_data-masks}
use ethtool.Tunable.{
  not_named, tunable, phy_downshift, phy_tunable, parse_named_bool, parse_named_uint,
  parse_named_u16, on_off, set_downshift,
}
use ethtool.Tunable.Turns.{Turns, phy_tunable-Turns, phy_tunable_edpd_default_refused}

abbrev no_aton : List ℕ → Option ℕ
no_aton s = none

downshift_3 :
    phy_tunable (codes "downshift" ∷ codes "on" ∷ codes "count" ∷ codes "3" ∷ [])
    ≡ some (tunable phy_downshift 1 3)
unfolding phy_tunable parse_named_bool parse_named_uint on_off set_downshift str_eq get_uint_range
    strtoull skip_space magnitude is_minus skip_sign read_digits
downshift_3 = refl

phy_tunable-Turns_example :
    Turns
      (codes "downshift" ∷ codes "on" ∷ codes "count" ∷ codes "3" ∷ [])
      (tunable phy_downshift 1 3)
phy_tunable-Turns_example =
    phy_tunable-Turns (codes "downshift" ∷ codes "on" ∷ codes "count" ∷ codes "3" ∷ [])
      (tunable phy_downshift 1 3) downshift_3

no_msecs : parse_named_u16 (codes "msecs") [] ≡ some not_named
unfolding parse_named_uint
no_msecs = refl

phy_tunable_edpd_default_refused_example :
    phy_tunable (codes "energy-detect-power-down" ∷ codes "on" ∷ []) ≡ none
phy_tunable_edpd_default_refused_example = phy_tunable_edpd_default_refused [] no_msecs

reset_data-masks_example :
    reset_data (codes "mac" ∷ codes "phy-shared" ∷ []) 0
    ≡ (masks (codes "mac" ∷ codes "phy-shared" ∷ []) >>= λ ms. some (union 0 ms))
reset_data-masks_example = reset_data-masks (codes "mac" ∷ codes "phy-shared" ∷ []) 0

-- An EEPROM of 512 bytes, read from offset 500 and from offset 600.
abbrev from_offset : ℕ → Line
from_offset n = record { store = write geeprom_start 1 (le_bytes 4 n); changed = 1 }

offset_500 :
    parse_generic_cmdline no_aton cmdline_geeprom
      (codes "offset" ∷ codes "500" ∷ [])
      (record { store = geeprom_start; changed = 0 })
    ≡ some (from_offset 500)
unfolding parse_generic_cmdline take_pair find_info set_wanted number see str_eq get_uint_range
    strtoull skip_space magnitude is_minus skip_sign read_digits
offset_500 = refl

offset_600 :
    parse_generic_cmdline no_aton cmdline_geeprom
      (codes "offset" ∷ codes "600" ∷ [])
      (record { store = geeprom_start; changed = 0 })
    ≡ some (from_offset 600)
unfolding parse_generic_cmdline take_pair find_info set_wanted number see str_eq get_uint_range
    strtoull skip_space magnitude is_minus skip_sign read_digits
offset_600 = refl

abbrev enough : ℕ → Bool
enough n = true

abbrev no_read : Read → Option (List ℕ)
no_read r = none

-- One byte at offset 16, and at the last offset of all.
abbrev value_at : ℕ → Line
value_at n = record {
  store = write (write (write seeprom_start 2 (le_bytes 4 n)) 4 (le_bytes 4 1)) 3 (7 ∷ []);
  changed = 1;
}

value_16 :
    parse_generic_cmdline no_aton cmdline_seeprom
      (codes "offset" ∷ codes "16" ∷ codes "value" ∷ codes "7" ∷ [])
      (record { store = seeprom_start; changed = 0 })
    ≡ some (value_at 16)
unfolding parse_generic_cmdline take_pair find_info set_wanted number see str_eq get_uint_range
    strtoull skip_space magnitude is_minus skip_sign read_digits
value_16 = refl

value_last :
    parse_generic_cmdline no_aton cmdline_seeprom
      (codes "offset" ∷ codes "0xffffffff" ∷ codes "value" ∷ codes "7" ∷ [])
      (record { store = seeprom_start; changed = 0 })
    ≡ some (value_at (2 ^ 32 - 1))
unfolding parse_generic_cmdline take_pair find_info set_wanted number see str_eq get_uint_range
    strtoull skip_space magnitude is_minus skip_sign read_digits
value_last = refl

abbrev takes : Write → ℤ
takes w = pos 0

do_seeprom-WritesAll_example :
    (run : Run Put) × (do_seeprom enough takes [] no_aton
        (some 512)
        (codes "offset" ∷ codes "16" ∷ codes "value" ∷ codes "7" ∷ [])
      ≡ some run)
    × WritesAll enough takes [] (value_at 16).store 512 run
unfolding seeprom_write
do_seeprom-WritesAll_example =
    do_seeprom-WritesAll no_aton enough takes [] 512
      (codes "offset" ∷ codes "16" ∷ codes "value" ∷ codes "7" ∷ []) (value_at 16) value_16
      (omega arith)

abbrev last_write : Write
last_write = record { magic = 0; offset = 2 ^ 32 - 1; len = 1; bytes = 7 ∷ [] }
