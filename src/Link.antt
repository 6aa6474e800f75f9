-- ===== src/Link.antt =====
-- ethtool.c, the requests for link settings: do_ioctl_glinksettings, do_ioctl_slinksettings,
-- do_ioctl_gset and do_ioctl_sset. send_ioctl is the kernel's: for a request that reads it is a
-- function of what is sent, with no result where the ioctl fails. A request that the program
-- refuses to send, or to read, is `none`.
pub mod Words
pub mod Trips
pub mod Options
pub mod Sset
use ethtool.Base.{
  ℕ, suc, ◌+◌, ◌-◌, ◌*◌, ◌/◌, ◌%◌, ◌^◌, bit_or, Bool, true, false, ◌&&◌, ◌||◌, not, Option, none,
  some, List, [], ◌∷◌, ◌==◌, ltb, leb, if◌then◌else◌, replicate,
}
use ethtool.Base.Bits.{all_below}
use ethtool.Base.Int.{ℤ, pos, negsuc, is_neg}
use ethtool.Base.Maybe.{◌>>=◌}
use ethtool.LinkMode.{Mask, max_kernel_nu32, link_mode_zero}

abbrev pub ethtool_gset : ℕ
ethtool_gset = 0x01

abbrev pub ethtool_sset : ℕ
ethtool_sset = 0x02

abbrev pub ethtool_glinksettings : ℕ
ethtool_glinksettings = 0x4c

abbrev pub ethtool_slinksettings : ℕ
ethtool_slinksettings = 0x4d

-- struct ethtool_link_settings
pub record LinkSettings : Type 0 where
  pub cmd : ℕ
  pub speed : ℕ
  pub duplex : ℕ
  pub port : ℕ
  pub phy_address : ℕ
  pub autoneg : ℕ
  pub mdio_support : ℕ
  pub eth_tp_mdix : ℕ
  pub eth_tp_mdix_ctrl : ℕ
  pub link_mode_masks_nwords : ℤ
  pub transceiver : ℕ
  pub reserved : List ℕ

-- struct ethtool_link_usettings; `transceiver` is deprecated.transceiver.
pub record Usettings : Type 0 where
  pub transceiver : ℕ
  pub base : LinkSettings
  pub supported : Mask
  pub advertising : Mask
  pub lp_advertising : Mask

-- The request with the words of the three bitmaps behind it.
pub record Ecmd : Type 0 where
  pub req : LinkSettings
  pub link_mode_data : ℕ → ℕ

-- struct ethtool_cmd, less the padding.
pub record OldCmd : Type 0 where
  pub cmd : ℕ
  pub supported : ℕ
  pub advertising : ℕ
  pub speed : ℕ
  pub duplex : ℕ
  pub port : ℕ
  pub phy_address : ℕ
  pub transceiver : ℕ
  pub autoneg : ℕ
  pub mdio_support : ℕ
  pub maxtxpkt : ℕ
  pub maxrxpkt : ℕ
  pub speed_hi : ℕ
  pub eth_tp_mdix : ℕ
  pub eth_tp_mdix_ctrl : ℕ
  pub lp_advertising : ℕ

abbrev pub zero_settings : LinkSettings
zero_settings = record {
  cmd = 0;
  speed = 0;
  duplex = 0;
  port = 0;
  phy_address = 0;
  autoneg = 0;
  mdio_support = 0;
  eth_tp_mdix = 0;
  eth_tp_mdix_ctrl = 0;
  link_mode_masks_nwords = pos 0;
  transceiver = 0;
  reserved = replicate 31 0;
}

-- `-n` in a signed byte.
abbrev pub negate8 : ℤ → ℤ
negate8 (pos n) = if n == 0 then pos 0 else negsuc (n - 1)
negate8 (negsuc n) = if n == 127 then negsuc 127 else pos (n + 1)

-- The number of words, where it is positive.
abbrev pub words_of : ℤ → Option ℕ
words_of (pos n) = if n == 0 then none else some n
words_of (negsuc n) = none

-- memcpy of n words to the word at `offs`.
abbrev pub copy_words : (ℕ → ℕ) → ℕ → (ℕ → ℕ) → ℕ → ℕ → ℕ
copy_words dst offs src n i = if leb offs i && ltb i (offs + n) then src (i - offs) else dst i

abbrev pub skip_words : ℕ → (ℕ → ℕ) → ℕ → ℕ
skip_words offs src i = src (offs + i)

-- The first request asks for bitmaps of 0 words.
abbrev pub first_ecmd : Ecmd
first_ecmd = record {
  req = record zero_settings { cmd = ethtool_glinksettings };
  link_mode_data = λ i. 0;
}

-- The second one asks for as many as the kernel answered with, negated.
abbrev pub second_ecmd : Ecmd → Ecmd
second_ecmd ecmd = record ecmd {
  req = record ecmd.req {
    cmd = ethtool_glinksettings;
    link_mode_masks_nwords = negate8 ecmd.req.link_mode_masks_nwords;
  };
}

abbrev pub is_handshake : LinkSettings → Bool
is_handshake req = is_neg req.link_mode_masks_nwords && req.cmd == ethtool_glinksettings

abbrev pub usettings_of : Ecmd → ℕ → Usettings
usettings_of ecmd n = record {
  transceiver = 0;
  base = ecmd.req;
  supported = copy_words link_mode_zero 0 ecmd.link_mode_data n;
  advertising = copy_words link_mode_zero 0 (skip_words n ecmd.link_mode_data) n;
  lp_advertising = copy_words link_mode_zero 0 (skip_words (n + n) ecmd.link_mode_data) n;
}

module _ (send : Ecmd → Option Ecmd) where
  unfoldable pub answered : Ecmd → Option Usettings
  answered ecmd =
      if ecmd.req.cmd == ethtool_glinksettings
      then (words_of ecmd.req.link_mode_masks_nwords >>= λ n. some (usettings_of ecmd n))
      else none

  unfoldable pub ask_again : Ecmd → Option Usettings
  ask_again ecmd =
      if is_handshake ecmd.req then (send (second_ecmd ecmd) >>= λ e. answered e) else none

  unfoldable pub do_ioctl_glinksettings : Option Usettings
  do_ioctl_glinksettings = send first_ecmd >>= λ ecmd. ask_again ecmd

-- `stack` is what the words of the request hold before they are written.
abbrev pub ecmd_of : (ℕ → ℕ) → Usettings → ℕ → Ecmd
ecmd_of stack u n = record {
  req = record u.base { cmd = ethtool_slinksettings };
  link_mode_data =
      copy_words (copy_words (copy_words stack 0 u.supported n) n u.advertising n) (n + n)
        u.lp_advertising n;
}

unfoldable pub do_ioctl_slinksettings : (ℕ → ℕ) → Usettings → Option Ecmd
do_ioctl_slinksettings stack u =
    if not (u.base.cmd == ethtool_glinksettings)
    then none
    else if not (u.transceiver == 0)
    then none
    else (words_of u.base.link_mode_masks_nwords >>= λ n. some (ecmd_of stack u n))

-- `(speed_hi << 16) | speed`
abbrev pub cmd_speed : OldCmd → ℕ
cmd_speed ecmd = bit_or (ecmd.speed_hi * 2 ^ 16) ecmd.speed

abbrev pub one_word : ℕ → Mask
one_word w i = if i == 0 then w else 0

unfoldable pub usettings_of_gset : OldCmd → Usettings
usettings_of_gset ecmd = record {
  transceiver = ecmd.transceiver;
  base = record {
    cmd = ethtool_gset;
    speed = cmd_speed ecmd;
    duplex = ecmd.duplex;
    port = ecmd.port;
    phy_address = ecmd.phy_address;
    autoneg = ecmd.autoneg;
    mdio_support = ecmd.mdio_support;
    eth_tp_mdix = ecmd.eth_tp_mdix;
    eth_tp_mdix_ctrl = ecmd.eth_tp_mdix_ctrl;
    link_mode_masks_nwords = pos 1;
    transceiver = 0;
    reserved = replicate 31 0;
  };
  supported = one_word ecmd.supported;
  advertising = one_word ecmd.advertising;
  lp_advertising = one_word ecmd.lp_advertising;
}

-- `get` is the answer to ETHTOOL_GSET.
unfoldable pub do_ioctl_gset : Option OldCmd → Option Usettings
do_ioctl_gset get = get >>= λ ecmd. some (usettings_of_gset ecmd)

-- Words 1 to 126 are 0.
unfoldable pub link_mode_is_backward_compatible : Mask → Bool
link_mode_is_backward_compatible mask = all_below (max_kernel_nu32 - 1) (λ i. mask (i + 1) == 0)

abbrev pub old_cmd_of : Usettings → OldCmd
old_cmd_of u = record {
  cmd = ethtool_sset;
  supported = u.supported 0;
  advertising = u.advertising 0;
  speed = u.base.speed % 2 ^ 16;
  duplex = u.base.duplex;
  port = u.base.port;
  phy_address = u.base.phy_address;
  transceiver = u.transceiver;
  autoneg = u.base.autoneg;
  mdio_support = u.base.mdio_support;
  maxtxpkt = 0;
  maxrxpkt = 0;
  speed_hi = u.base.speed / 2 ^ 16 % 2 ^ 16;
  eth_tp_mdix = u.base.eth_tp_mdix;
  eth_tp_mdix_ctrl = u.base.eth_tp_mdix_ctrl;
  lp_advertising = u.lp_advertising 0;
}

unfoldable pub do_ioctl_sset : Usettings → Option OldCmd
do_ioctl_sset u =
    if not (u.base.cmd == ethtool_gset)
    then none
    else (words_of u.base.link_mode_masks_nwords >>= λ n.
        if not (link_mode_is_backward_compatible u.supported)
        then none
        else if not (link_mode_is_backward_compatible u.advertising)
        then none
        else if not (link_mode_is_backward_compatible u.lp_advertising)
        then none
        else some (old_cmd_of u))
