-- ===== src/Link/Sset.antt =====
-- ethtool.c, do_sset: the change of the settings, and the requests that it sends for
-- the link, Wake-on-LAN and the message level. It returns 0 whatever became of them.
pub mod Sends
pub mod Above
pub mod Old
pub mod Progress
pub mod Levels
use ethtool.Base.{
  ℕ, suc, ◌+◌, ◌-◌, ◌*◌, ◌%◌, ◌^◌, bit_and, bit_or, Bool, true, false, ◌&&◌, ◌||◌, not, Option,
  none, some, List, [], ◌∷◌, ◌==◌, ltb, leb, if◌then◌else◌, codes,
}
use ethtool.Base.Bits.{bit_not}
use ethtool.Base.Bytes.{le_bytes, le_value}
use ethtool.Base.Int.{ℤ, pos, negsuc}
use ethtool.Base.Maybe.{◌>>=◌}
use ethtool.Clib.{str_eq}
use ethtool.Cmdline.{
  CmdlineInfo, Store, Line, flag_to_cmdline_info, parse_generic_cmdline, get_int, get_int10,
  get_u32, get_mac_addr, write,
}
use ethtool.Letters.{parse_wolopts}
use ethtool.Link.{
  LinkSettings, Usettings, Ecmd, OldCmd, do_ioctl_glinksettings, do_ioctl_slinksettings,
  do_ioctl_gset, do_ioctl_sset, ethtool_glinksettings,
}
use ethtool.LinkMode.{Mask, max_kernel_nbits, parse_hex_u32_bitmap, mode_for, set_advertising}
use ethtool.Rxclass.Value.{pattern32}
use ethtool.Link.Options.{
  Key, Wanted, advertise_key, autoneg_key, autoneg_of, cmdline_msglvl, duplex_key, duplex_of,
  is_digit, key_of, mdix_key, mdix_of, msg_flag, msglvl_key, msglvl_number, nothing_wanted,
  phyad_key, port_key, port_of, read_flags, read_options, set_option, sopass_key, speed_key,
  starts_with_digit, takes_flags, unset, wol_key, xcvr_key, xcvr_of,
}

-- `!= -1`
abbrev pub is_given : ℤ → Bool
is_given (pos n) = true
is_given (negsuc n) = not (n == 0)

-- An int that was given, stored in a field of so many bits.
abbrev pub or_old : ℕ → ℤ → ℕ → ℕ
or_old width wanted old = if is_given wanted then pattern32 wanted % 2 ^ width else old

-- MDI-X, where the driver supports it.
abbrev pub mdix_or_old : ℤ → ℕ → ℕ
mdix_or_old wanted old = if old == 0 then old else or_old 8 wanted old

abbrev pub is_enable : ℤ → Bool
is_enable (pos n) = n == 1
is_enable (negsuc n) = false

unfoldable pub change_settings : Wanted → Usettings → Usettings
change_settings w u = record u {
  base = record u.base {
    speed = or_old 32 w.speed u.base.speed;
    duplex = or_old 8 w.duplex u.base.duplex;
    port = or_old 8 w.port u.base.port;
    eth_tp_mdix_ctrl = mdix_or_old w.mdix u.base.eth_tp_mdix_ctrl;
    autoneg = or_old 8 w.autoneg u.base.autoneg;
    phy_address = or_old 8 w.phyad u.base.phy_address;
  };
  transceiver = or_old 8 w.xcvr u.transceiver;
  advertising =
      set_advertising w.full (mode_for w.speed w.duplex) (is_enable w.autoneg) u.supported
        u.advertising;
}

-- What became of a part of the command.
pub data Part (A : Type 0) : Type 0 where
  not_asked : Part A
  unread : Part A
  refused : Part A
  sent : A → Part A

pub data LinkRequest : Type 0 where
  slinksettings : Ecmd → LinkRequest
  sset : OldCmd → LinkRequest

-- struct ethtool_wolinfo
pub record WolInfo : Type 0 where
  pub supported : ℕ
  pub wolopts : ℕ
  pub sopass : List ℕ

-- The answers of the kernel to the requests that read.
pub record Device : Type 0 where
  pub glinksettings : Ecmd → Option Ecmd
  pub gset : Option OldCmd
  pub gwol : Option WolInfo
  pub gmsglvl : Option ℕ

pub record Outcome : Type 0 where
  pub link : Part LinkRequest
  pub wol : Part WolInfo
  pub msglvl : Part ℕ
  pub status : ℕ

abbrev pub or_gset : Device → Option Usettings → Option Usettings
or_gset d none = do_ioctl_gset d.gset
or_gset d (some u) = some u

unfoldable pub current_settings : Device → Option Usettings
current_settings d = or_gset d (do_ioctl_glinksettings d.glinksettings)

abbrev pub or_refused : {A : Type 0} → Option A → Part A
or_refused none = refused
or_refused (some a) = sent a

unfoldable pub send_settings : (ℕ → ℕ) → Usettings → Part LinkRequest
send_settings stack u =
    if u.base.cmd == ethtool_glinksettings
    then or_refused (do_ioctl_slinksettings stack u >>= λ e. some (slinksettings e))
    else or_refused (do_ioctl_sset u >>= λ e. some (sset e))

unfoldable pub change_or_unread : (ℕ → ℕ) → Wanted → Option Usettings → Part LinkRequest
change_or_unread stack w none = unread
change_or_unread stack w (some u) = send_settings stack (change_settings w u)

unfoldable pub set_link : (ℕ → ℕ) → Device → Wanted → Part LinkRequest
set_link stack d w =
    if w.gset_changed then change_or_unread stack w (current_settings d) else not_asked

abbrev pub sopass_or : Option (List ℕ) → List ℕ → List ℕ
sopass_or none old = old
sopass_or (some new) old = new

unfoldable pub change_wol : Wanted → Option WolInfo → Part WolInfo
change_wol w none = unread
change_wol w (some wol) = sent (record {
  supported = wol.supported;
  wolopts = if w.wol_change then w.wol_wanted else wol.wolopts;
  sopass = sopass_or w.sopass wol.sopass;
})

unfoldable pub set_wol : Device → Wanted → Part WolInfo
set_wol d w = if w.gwol_changed then change_wol w d.gwol else not_asked

unfoldable pub change_msglvl : Store → Option ℕ → Part ℕ
change_msglvl st none = unread
change_msglvl st (some level) =
    sent (bit_or (bit_and level (bit_not 32 (le_value (st 1)))) (le_value (st 0)))

unfoldable pub set_msglvl : Device → Wanted → Part ℕ
set_msglvl d w = if w.msglvl.changed == 0 then not_asked else change_msglvl w.msglvl.store d.gmsglvl

unfoldable pub do_sset : (List ℕ → Option ℕ) → (ℕ → ℕ) → Device → List (List ℕ) → Option Outcome
do_sset aton stack d argp = read_options aton argp nothing_wanted >>= λ w.
    some
      (record { link = set_link stack d w; wol = set_wol d w; msglvl = set_msglvl d w; status = 0 })
