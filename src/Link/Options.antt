-- ===== src/Link/Options.antt =====
-- ethtool.c, the options of do_sset.
pub mod Values
pub mod Typed
use ethtool.Base.{
  ℕ, suc, ◌+◌, ◌-◌, ◌*◌, ◌%◌, ◌^◌, bit_and, bit_or, Bool, true, false, ◌&&◌, ◌||◌, not, Option,
  none, some, List, [], ◌∷◌, ◌==◌, ltb, leb, if◌then◌else◌, codes,
}
use ethtool.Base.Bits.{bit_not}
use ethtool.Base.Bytes.{le_bytes, le_value}
use ethtool.Base.Int.{ℤ, pos, negsuc}
use ethtool.Base.Maybe.{◌>>=◌}
use ethtool.Clib.{str_eq}
use ethtool.Cmdline.{
  CmdlineInfo, Store, Line, flag_to_cmdline_info, parse_generic_cmdline, get_int, get_int10,
  get_u32, get_mac_addr, write,
}
use ethtool.Letters.{parse_wolopts}
use ethtool.Link.{
  LinkSettings, Usettings, Ecmd, OldCmd, do_ioctl_glinksettings, do_ioctl_slinksettings,
  do_ioctl_gset, do_ioctl_sset, ethtool_glinksettings,
}
use ethtool.LinkMode.{Mask, max_kernel_nbits, parse_hex_u32_bitmap, mode_for, set_advertising}
use ethtool.Rxclass.Value.{pattern32}

abbrev pub msg_flag : List ℕ → ℕ → CmdlineInfo
unfolding flag_to_cmdline_info
msg_flag name value = flag_to_cmdline_info name value 0 1 2

-- flags_msglvl; variable 0 is msglvl_wanted and variable 1 msglvl_mask.
abbrev pub cmdline_msglvl : List CmdlineInfo
cmdline_msglvl =
    msg_flag (codes "drv") 0x0001
    ∷ msg_flag (codes "probe") 0x0002
    ∷ msg_flag (codes "link") 0x0004
    ∷ msg_flag (codes "timer") 0x0008
    ∷ msg_flag (codes "ifdown") 0x0010
    ∷ msg_flag (codes "ifup") 0x0020
    ∷ msg_flag (codes "rx_err") 0x0040
    ∷ msg_flag (codes "tx_err") 0x0080
    ∷ msg_flag (codes "tx_queued") 0x0100
    ∷ msg_flag (codes "intr") 0x0200
    ∷ msg_flag (codes "tx_done") 0x0400
    ∷ msg_flag (codes "rx_status") 0x0800
    ∷ msg_flag (codes "pktdata") 0x1000
    ∷ msg_flag (codes "hw") 0x2000
    ∷ msg_flag (codes "wol") 0x4000
    ∷ []

-- The variables of the options; `full` is full_advertising_wanted, `sopass` sopass_wanted once
-- sopass_change is set, and `msglvl` holds msglvl_wanted, msglvl_mask and msglvl_changed.
pub record Wanted : Type 0 where
  pub speed : ℤ
  pub duplex : ℤ
  pub port : ℤ
  pub mdix : ℤ
  pub autoneg : ℤ
  pub phyad : ℤ
  pub xcvr : ℤ
  pub full : Option Mask
  pub gset_changed : Bool
  pub wol_wanted : ℕ
  pub wol_change : Bool
  pub sopass : Option (List ℕ)
  pub gwol_changed : Bool
  pub msglvl : Line

-- -1
abbrev pub unset : ℤ
unset = negsuc 0

abbrev pub nothing_wanted : Wanted
nothing_wanted = record {
  speed = unset;
  duplex = unset;
  port = unset;
  mdix = unset;
  autoneg = unset;
  phyad = unset;
  xcvr = unset;
  full = none;
  gset_changed = false;
  wol_wanted = 0;
  wol_change = false;
  sopass = none;
  gwol_changed = false;
  msglvl = record { store = λ v. le_bytes 4 0; changed = 0 };
}

pub data Key : Type 0 where
  speed_key duplex_key port_key mdix_key autoneg_key advertise_key : Key
  phyad_key xcvr_key wol_key sopass_key msglvl_key : Key

unfoldable pub key_of : List ℕ → Option Key
key_of name =
    if str_eq name (codes "speed")
    then some speed_key
    else if str_eq name (codes "duplex")
    then some duplex_key
    else if str_eq name (codes "port")
    then some port_key
    else if str_eq name (codes "mdix")
    then some mdix_key
    else if str_eq name (codes "autoneg")
    then some autoneg_key
    else if str_eq name (codes "advertise")
    then some advertise_key
    else if str_eq name (codes "phyad")
    then some phyad_key
    else if str_eq name (codes "xcvr")
    then some xcvr_key
    else if str_eq name (codes "wol")
    then some wol_key
    else if str_eq name (codes "sopass")
    then some sopass_key
    else if str_eq name (codes "msglvl")
    then some msglvl_key
    else none

unfoldable pub duplex_of : List ℕ → Option ℤ
duplex_of arg =
    if str_eq arg (codes "half")
    then some (pos 0)
    else if str_eq arg (codes "full")
    then some (pos 1)
    else none

unfoldable pub port_of : List ℕ → Option ℤ
port_of arg =
    if str_eq arg (codes "tp")
    then some (pos 0)
    else if str_eq arg (codes "aui")
    then some (pos 1)
    else if str_eq arg (codes "bnc")
    then some (pos 4)
    else if str_eq arg (codes "mii")
    then some (pos 2)
    else if str_eq arg (codes "fibre")
    then some (pos 3)
    else none

unfoldable pub mdix_of : List ℕ → Option ℤ
mdix_of arg =
    if str_eq arg (codes "auto")
    then some (pos 3)
    else if str_eq arg (codes "on")
    then some (pos 2)
    else if str_eq arg (codes "off")
    then some (pos 1)
    else none

unfoldable pub autoneg_of : List ℕ → Option ℤ
autoneg_of arg =
    if str_eq arg (codes "on")
    then some (pos 1)
    else if str_eq arg (codes "off")
    then some (pos 0)
    else none

unfoldable pub xcvr_of : List ℕ → Option ℤ
xcvr_of arg =
    if str_eq arg (codes "internal")
    then some (pos 0)
    else if str_eq arg (codes "external")
    then some (pos 1)
    else none

-- `msglvl` with a number.
unfoldable pub msglvl_number : ℕ → Store → Store
msglvl_number v st = write (write st 1 (le_bytes 4 (2 ^ 32 - 1))) 0 (le_bytes 4 v)

-- One option with its argument; `none` is exit_bad_args.
unfoldable pub set_option : Key → List ℕ → Wanted → Option Wanted
set_option speed_key arg w =
    get_int10 arg >>= λ v. some (record w { speed = v; gset_changed = true })
set_option duplex_key arg w =
    duplex_of arg >>= λ v. some (record w { duplex = v; gset_changed = true })
set_option port_key arg w = port_of arg >>= λ v. some (record w { port = v; gset_changed = true })
set_option mdix_key arg w = mdix_of arg >>= λ v. some (record w { mdix = v; gset_changed = true })
set_option autoneg_key arg w =
    autoneg_of arg >>= λ v. some (record w { autoneg = v; gset_changed = true })
set_option advertise_key arg w = parse_hex_u32_bitmap arg max_kernel_nbits >>= λ m.
    some (record w { full = some m; gset_changed = true })
set_option phyad_key arg w = get_int arg >>= λ v. some (record w { phyad = v; gset_changed = true })
set_option xcvr_key arg w = xcvr_of arg >>= λ v. some (record w { xcvr = v; gset_changed = true })
set_option wol_key arg w = parse_wolopts arg >>= λ opts.
    some (record w { wol_wanted = opts; wol_change = true; gwol_changed = true })
set_option sopass_key arg w =
    get_mac_addr arg >>= λ mac. some (record w { sopass = some mac; gwol_changed = true })
set_option msglvl_key arg w = get_u32 arg >>= λ v.
    some (record w { msglvl = record { store = msglvl_number v w.msglvl.store; changed = 1 } })

abbrev pub is_digit : ℕ → Bool
is_digit c = leb b'0' c && leb c b'9'

abbrev pub starts_with_digit : List ℕ → Bool
starts_with_digit [] = false
starts_with_digit (c ∷ s) = is_digit c

-- `msglvl` with a word: the rest of the arguments are flags.
abbrev pub takes_flags : Key → List ℕ → Bool
takes_flags msglvl_key arg = not (starts_with_digit arg)
takes_flags key arg = false

module _ (aton : List ℕ → Option ℕ) where
  unfoldable pub read_flags : List (List ℕ) → Wanted → Option Wanted
  read_flags args w = parse_generic_cmdline aton cmdline_msglvl args w.msglvl >>= λ l.
      some (record w { msglvl = l })

  unfoldable pub read_options : List (List ℕ) → Wanted → Option Wanted
  read_options [] w = some w
  read_options (name ∷ []) w = none
  read_options (name ∷ arg ∷ rest) w = key_of name >>= λ key.
      if takes_flags key arg
      then read_flags (arg ∷ rest) w
      else set_option key arg w >>= λ w'. read_options rest w'
