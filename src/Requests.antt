-- ===== src/Requests.antt =====
-- ethtool.c, commands that send one request from their arguments: do_sfec, do_flash, do_phys_id,
-- the flags of do_test, do_setfwdump and do_sprivflags. `none` is exit_bad_args.
pub mod Fec
pub mod Private
use ethtool.Base.{
  ℕ, suc, ◌+◌, ◌-◌, ◌*◌, ◌^◌, bit_and, bit_or, Bool, true, false, ◌&&◌, ◌||◌, not, Option, none,
  some, List, [], ◌∷◌, ◌==◌, ltb, leb, if◌then◌else◌, codes, length, take,
}
use ethtool.Base.Bits.{bit_not}
use ethtool.Base.Bytes.{le_bytes, le_value}
use ethtool.Base.Int.{ℤ, pos, negsuc}
use ethtool.Base.Maybe.{◌>>=◌}
use ethtool.Clib.{str_eq}
use ethtool.Clib.Strto.{strtoll}
use ethtool.Cmdline.{CmdlineInfo, cmdl_flag, Store, Line, parse_generic_cmdline, get_int, get_u32}
use ethtool.Rxclass.Value.{pattern32}
use ethtool.Strings.{StringDevice, get_stringset, name_text}

-- `tolower` in the C locale.
abbrev pub lower : ℕ → ℕ
lower c = if leb b'A' c && leb c b'Z' then c + 32 else c

-- `!strcasecmp(a, b)`
unfoldable pub str_case_eq : List ℕ → List ℕ → Bool
str_case_eq [] [] = true
str_case_eq [] (d ∷ t) = false
str_case_eq (c ∷ s) [] = false
str_case_eq (c ∷ s) (d ∷ t) = lower c == lower d && str_case_eq s t

-- ETHTOOL_FEC_AUTO, OFF, RS and BASER are bits 1 to 4.
unfoldable pub fecmode_str_to_type : List ℕ → ℕ
fecmode_str_to_type str =
    if str_case_eq str (codes "auto")
    then 2 ^ 1
    else if str_case_eq str (codes "off")
    then 2 ^ 2
    else if str_case_eq str (codes "rs")
    then 2 ^ 3
    else if str_case_eq str (codes "baser")
    then 2 ^ 4
    else 0

-- The loop of do_sfec; `state` is whether it is ARG_ENCODING.
unfoldable pub fec_words : Bool → ℕ → List (List ℕ) → Option ℕ
fec_words state fecmode [] = if fecmode == 0 then none else some fecmode
fec_words state fecmode (arg ∷ argp) =
    if str_eq arg (codes "encoding")
    then fec_words true fecmode argp
    else if state
    then if fecmode_str_to_type arg == 0
      then none
      else fec_words state (bit_or fecmode (fecmode_str_to_type arg)) argp
    else none

-- What is sent with ETHTOOL_SFECPARAM.
unfoldable pub do_sfec : List (List ℕ) → Option ℕ
do_sfec argp = fec_words false 0 argp

abbrev pub flash_max_filename : ℕ
flash_max_filename = 128

-- The status 99, or a request for a file and a region; ETHTOOL_FLASH_ALL_REGIONS is 0.
pub data Flashed : Type 0 where
  too_long : Flashed
  flash : List ℕ → ℕ → Flashed

abbrev pub flash_file : List ℕ → ℕ → Flashed
flash_file file region =
    if ltb (flash_max_filename - 1) (length file) then too_long else flash file region

-- The region is an int, of which strtol's result keeps the low bits.
unfoldable pub do_flash : List (List ℕ) → Option Flashed
unfolding strtoll
do_flash (file ∷ []) = some (flash_file file 0)
do_flash (file ∷ text ∷ []) =
    let region : ℕ = pattern32 (strtoll text).value in
    if leb (2 ^ 31) region then none else some (flash_file file region)
do_flash argp = none

-- What is sent with ETHTOOL_PHYS_ID, as a u32.
unfoldable pub do_phys_id : List (List ℕ) → Option ℕ
do_phys_id [] = some 0
do_phys_id (time ∷ []) = get_int time >>= λ v. some (pattern32 v)
do_phys_id argp = none

-- ETH_TEST_FL_OFFLINE is bit 0, ETH_TEST_FL_EXTERNAL_LB bit 2.
unfoldable pub test_flags : List (List ℕ) → Option ℕ
test_flags [] = some 1
test_flags (arg ∷ []) =
    if str_eq arg (codes "online")
    then some 0
    else if str_eq arg (codes "offline")
    then some 1
    else if str_eq arg (codes "external_lb")
    then some 5
    else none
test_flags argp = none

-- What is sent with ETHTOOL_SET_DUMP.
unfoldable pub do_setfwdump : List (List ℕ) → Option ℕ
do_setfwdump (flag ∷ []) = get_u32 flag
do_setfwdump argp = none

-- The table of the private flags from number i on: variable 0 is wanted_flags, variable 1
-- seen_flags.
abbrev pub flag_infos : ℕ → List (List ℕ) → List CmdlineInfo
flag_infos i [] = []
flag_infos i (name ∷ names) =
    record {
      name = name_text name;
      type = cmdl_flag;
      wanted_val = 0;
      ioctl_val = 2;
      flag_val = 2 ^ i;
      seen_val = some 1;
    }
    ∷ flag_infos (i + 1) names

-- ETH_SS_PRIV_FLAGS, and the offset of n_priv_flags in struct ethtool_drvinfo.
abbrev pub eth_ss_priv_flags : ℕ
eth_ss_priv_flags = 2

abbrev pub n_priv_flags_offset : ℕ
n_priv_flags_offset = 176

-- The names, the flags that the device has, and whether it takes those that are sent.
pub record FlagsDevice : Type 0 where
  pub names : StringDevice
  pub gpflags : Option ℕ
  pub takes : ℕ → Bool

-- The status, and what was sent with ETHTOOL_SPFLAGS.
pub record FlagsEnd : Type 0 where
  pub status : ℕ
  pub sent : Option ℕ

abbrev pub not_sent : FlagsEnd
not_sent = record { status = 1; sent = none }

abbrev pub flags_line : Line
flags_line = record { store = λ v. le_bytes 4 0; changed = 0 }

abbrev pub merged_flags : ℕ → Store → ℕ
merged_flags flags st = bit_or (bit_and flags (bit_not 32 (le_value (st 1)))) (le_value (st 0))

module _ (aton : List ℕ → Option ℕ) (d : FlagsDevice) where
  unfoldable pub send_flags : Store → Option ℕ → FlagsEnd
  send_flags st none = not_sent
  send_flags st (some flags) = record {
    status = if d.takes (merged_flags flags st) then 0 else 1;
    sent = some (merged_flags flags st);
  }

  -- Only the first 32 flags are there.
  unfoldable pub set_flags : List (List ℕ) → List (List ℕ) → Option FlagsEnd
  set_flags [] argp = some not_sent
  set_flags (name ∷ names) argp =
      parse_generic_cmdline aton (flag_infos 0 (take 32 (name ∷ names))) argp flags_line >>= λ line.
      some (send_flags line.store d.gpflags)

  unfoldable pub or_no_names : Option (List (List ℕ)) → List (List ℕ) → Option FlagsEnd
  or_no_names none argp = some not_sent
  or_no_names (some names) argp = set_flags names argp

  unfoldable pub do_sprivflags : List (List ℕ) → Option FlagsEnd
  do_sprivflags argp =
      or_no_names (get_stringset d.names eth_ss_priv_flags n_priv_flags_offset true) argp
