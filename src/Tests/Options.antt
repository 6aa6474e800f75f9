-- ===== src/Tests/Options.antt =====
-- Options of the command line, Wake-on-LAN letters and the hash key.
use ethtool.Base.{
  ℕ, Bool, true, ◌≤◌, ◌≡◌, refl, ap, Option, none, some, List, [], ◌∷◌, codes, arith, length,
}
use ethtool.Base.Bytes.{le_bytes}
use ethtool.Clib.{str_eq}
use ethtool.Cmdline.{
  get_u32, get_uint_range, CmdlineInfo, cmdl_flag, Store, Line, write, or_into,
  parse_generic_cmdline, find_info, set_flag, set_wanted, take_pair, see, do_generic_set,
  do_generic_set1, get_int_range, number,
}
use ethtool.Cmdline.Merge.{AreWanted}
use ethtool.Hashkey.{parse_hkey, key_text}
use ethtool.Hashkey.Text.{parse_hkey-key_text}
use ethtool.Letters.{parse_wolopts, unparse_wolopts}
use ethtool.Letters.Laws.{parse_wolopts-unparse_wolopts}
use ethtool.Settings.{
  cmdline_pause, unset_below, filled_from, ring, ring_kind, do_sring, do_spause, set_settings,
  merge_with, write_back, do_seee,
}
use ethtool.Settings.Eee.{do_seee_ignores}
use ethtool.Settings.Sent.{Ends, wanted_by, run-Ends}
use ethtool.Clib.Strto.{strtoull, strtoll, skip_space, magnitude, is_minus, skip_sign, read_digits}

parse_wolopts-unparse_wolopts_example :
    (parse_wolopts (unparse_wolopts 0x23) ≡ some 0x23) × (length (unparse_wolopts 0x23) ≤ 15)
parse_wolopts-unparse_wolopts_example = parse_wolopts-unparse_wolopts 0x23 (omega arith)

parse_hkey-key_text_example :
    parse_hkey 3 (key_text (0xbe ∷ 0xac ∷ 0x01 ∷ []))
    ≡ record { status = 0; key = some (0xbe ∷ 0xac ∷ 0x01 ∷ []) }
parse_hkey-key_text_example =
    parse_hkey-key_text 0xbe (0xac ∷ 0x01 ∷ []) (omega arith, (omega arith, (omega arith, tt)))

short_key : (parse_hkey 1 (key_text (0xbe ∷ []))).key ≡ some (0xbe ∷ [])
short_key = ap (λ h. h.key) (parse_hkey-key_text 0xbe [] (omega arith, tt))

-- The flag `drv`: what is wanted is variable 0, and what was seen variable 1.
abbrev no_aton : List ℕ → Option ℕ
no_aton s = none

abbrev drv : CmdlineInfo
drv = record {
  name = codes "drv";
  type = cmdl_flag;
  wanted_val = 0;
  ioctl_val = 2;
  flag_val = 1;
  seen_val = some 1;
}

abbrev zeros : Store
zeros v = le_bytes 4 0

abbrev fresh : Line
fresh = record { store = zeros; changed = 0 }

abbrev after_on : Line
after_on = record { store = or_into (or_into zeros 1 1) 0 1; changed = 1 }

abbrev after_off : Line
after_off = record { store = or_into after_on.store 1 1; changed = 1 }

drv_on :
    parse_generic_cmdline no_aton (drv ∷ []) (codes "drv" ∷ codes "on" ∷ []) fresh ≡ some after_on
unfolding parse_generic_cmdline take_pair find_info set_wanted set_flag see str_eq
drv_on = refl

drv_off :
    parse_generic_cmdline no_aton (drv ∷ []) (codes "drv" ∷ codes "off" ∷ []) after_on
    ≡ some after_off
unfolding parse_generic_cmdline take_pair find_info set_wanted set_flag see str_eq
drv_off = refl

find_drv : find_info (drv ∷ []) (codes "drv") ≡ some drv
unfolding find_info str_eq
find_drv = refl

-- Pause settings: only `rx` is wanted, and the device has all three off.
abbrev pause_line : Line
pause_line = record {
  store = filled_from 3 zeros (write (unset_below 3 zeros) 1 (le_bytes 4 1));
  changed = 0;
}

pause_apart : (v : ℕ) → 3 ≤ v → AreWanted pause_line.store v cmdline_pause
pause_apart v h =
    (omega arith, omega arith, (omega arith, omega arith, (omega arith, omega arith, tt)))

abbrev still_line : Line
still_line = record { store = filled_from 3 zeros (unset_below 3 zeros); changed = 0 }

still : (do_generic_set cmdline_pause still_line).changed ≡ 0
unfolding do_generic_set do_generic_set1
still = refl

-- `rx 64` on a device whose rings are all of size 1; `rx on` on one without pause.
abbrev ones : Store
ones v = le_bytes 4 1

abbrev accept_all : Store → Bool
accept_all st = true

abbrev ring_sent : Store
ring_sent =
    write (filled_from 4 ones (write (unset_below 4 zeros) 0 (le_bytes 4 64))) 4 (le_bytes 4 64)

ring_rx :
    do_sring no_aton accept_all zeros (some ones) (codes "rx" ∷ codes "64" ∷ [])
    ≡ some (record { status = 0; sent = some ring_sent })
unfolding do_sring set_settings merge_with write_back parse_generic_cmdline take_pair find_info
    set_wanted number see str_eq do_generic_set do_generic_set1 get_int_range strtoll skip_space
    magnitude is_minus skip_sign read_digits
ring_rx = refl

run-Ends_example :
    Ends ring accept_all
      (wanted_by ring (codes "rx" ∷ codes "64" ∷ []))
      (some ones)
      (record { status = 0; sent = some ring_sent })
run-Ends_example =
    run-Ends no_aton accept_all zeros (some ones) (codes "rx" ∷ codes "64" ∷ []) ring_kind ring_rx

abbrev pause_sent : Store
pause_sent =
    write (filled_from 3 zeros (write (unset_below 3 zeros) 1 (le_bytes 4 1))) 4 (le_bytes 4 1)

pause_rx :
    do_spause no_aton accept_all zeros (some zeros) (codes "rx" ∷ codes "on" ∷ [])
    ≡ some (record { status = 0; sent = some pause_sent })
unfolding do_spause set_settings merge_with write_back parse_generic_cmdline take_pair find_info
    set_wanted number see str_eq do_generic_set do_generic_set1
pause_rx = refl

-- The largest mask of modes.
eee_all : get_u32 (codes "4294967295") ≡ some 4294967295
unfolding get_u32 get_uint_range strtoull skip_space magnitude is_minus skip_sign read_digits
eee_all = refl

do_seee_ignores_example :
    do_seee no_aton accept_all zeros (some ones) (codes "advertise" ∷ codes "4294967295" ∷ [])
    ≡ some (record { status = 0; sent = none })
do_seee_ignores_example =
    do_seee_ignores no_aton accept_all zeros ones (codes "4294967295") 4294967295 eee_all
      (omega arith)
