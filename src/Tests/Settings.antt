-- ===== src/Tests/Settings.antt =====
-- The commands on link settings.
use ethtool.Base.{
  ℕ, ◌+◌, ◌<◌, ◌≡◌, ◌≢◌, refl, ap, Bool, true, false, Option, none, some, List, [], ◌∷◌, ◌==◌,
  if◌then◌else◌, codes, arith, ==_false,
}
use ethtool.Base.Bits.{bit}
use ethtool.Base.Int.{ℤ, pos, negsuc}
use ethtool.Base.Maybe.{◌>>=◌}
use ethtool.Clib.{str_eq}
use ethtool.Clib.Strto.{strtoll10, skip_space, magnitude10, is_minus, skip_sign, read_digits}
use ethtool.Cmdline.{
  get_int10, parse_generic_cmdline, take_pair, find_info, set_wanted, set_flag, see, number,
  flag_to_cmdline_info,
}
use ethtool.Link.{
  Ecmd, LinkSettings, Usettings, OldCmd, zero_settings, first_ecmd, second_ecmd, usettings_of,
  ethtool_glinksettings, ethtool_slinksettings, ethtool_sset, do_ioctl_glinksettings, ask_again,
  answered, do_ioctl_slinksettings, do_ioctl_sset, do_ioctl_gset,
}
use ethtool.Link.Options.{
  Wanted, nothing_wanted, read_options, key_of, set_option, duplex_of, read_flags,
}
use ethtool.Link.Sset.{
  Device, Outcome, Part, not_asked, sent, slinksettings, set_link, set_wol, set_msglvl, do_sset,
}
use ethtool.Link.Sset.Levels.{level_bit, do_sset-level_bit}
use ethtool.Link.Sset.Old.{OldEnds, do_sset-SaysOld}
use ethtool.Link.Sset.Progress.{Keeps, do_sset_sends}
use ethtool.Link.Sset.Sends.{LinkEnds, do_sset-Says}
use ethtool.Link.Trips.{do_ioctl_slinksettings-do_ioctl_glinksettings, do_ioctl_sset-do_ioctl_gset}

-- A kernel that keeps two words.
abbrev is_two : ℤ → Bool
is_two (pos n) = n == 2
is_two (negsuc n) = false

abbrev with_words : ℤ → Ecmd
with_words z = record {
  req = record zero_settings {
    cmd = ethtool_glinksettings;
    speed = 10;
    link_mode_masks_nwords = z;
  };
  link_mode_data = λ i. i + 7;
}

abbrev kernel : Ecmd → Option Ecmd
kernel e =
    some (if is_two e.req.link_mode_masks_nwords then with_words (pos 2) else with_words (negsuc 1))

is_two_pos : (z : ℤ) → z ≡ pos 2 → is_two z ≡ true
is_two_pos z h = ap is_two h

is_two_other : (z : ℤ) → z ≢ pos 2 → is_two z ≡ false
is_two_other (pos n) h = ==_false n 2 (λ e. h (ap pos e))
is_two_other (negsuc n) h = refl

kernel-Keeps : Keeps kernel 2
kernel-Keeps = record {
  positive = omega arith;
  bounded = omega arith;
  hello = λ e h. (with_words (negsuc 1), rw (is_two_other _ h) refl, refl, refl);
  grants = λ e h. (with_words (pos 2), rw (is_two_pos _ h) refl, refl, refl);
}

abbrev modern : Device
modern = record { glinksettings = kernel; gset = none; gwol = none; gmsglvl = some 7 }

abbrev zeros : ℕ → ℕ
zeros i = 0

-- `speed 100 duplex full`
abbrev speed_100 : List (List ℕ)
speed_100 = codes "speed" ∷ codes "100" ∷ codes "duplex" ∷ codes "full" ∷ []

abbrev wanted_100 : Wanted
wanted_100 = record nothing_wanted { speed = pos 100; duplex = pos 1; gset_changed = true }

read_100 : read_options (λ s. none) speed_100 nothing_wanted ≡ some wanted_100
unfolding read_options key_of str_eq set_option get_int10 strtoll10 skip_space magnitude10 is_minus
    skip_sign read_digits duplex_of
read_100 = refl

abbrev ends_100 : Device → Outcome
ends_100 d = record {
  link = set_link zeros d wanted_100;
  wol = set_wol d wanted_100;
  msglvl = set_msglvl d wanted_100;
  status = 0;
}

sset_100 : (d : Device) → do_sset (λ s. none) zeros d speed_100 ≡ some (ends_100 d)
unfolding do_sset
sset_100 d =
    ap
      (λ (o : Option Wanted). o >>= λ w. some (record {
        link = set_link zeros d w;
        wol = set_wol d w;
        msglvl = set_msglvl d w;
        status = 0;
      }))
      read_100

kernel_settings : do_ioctl_glinksettings kernel ≡ some (usettings_of (with_words (pos 2)) 2)
unfolding do_ioctl_glinksettings ask_again answered
kernel_settings = refl

do_sset-Says_example :
    (w : Wanted) × (read_options (λ s. none) speed_100 nothing_wanted ≡ some w)
    × LinkEnds w (usettings_of (with_words (pos 2)) 2) (ends_100 modern).link
do_sset-Says_example =
    do_sset-Says (λ s. none) zeros modern speed_100 (sset_100 modern) kernel_settings

not_external : negsuc 0 ≢ pos 1
not_external e = cc

do_sset_sends_example :
    (r : Outcome) × (e : Ecmd) × (do_sset (λ s. none) zeros modern speed_100 ≡ some r)
    × (r.link ≡ sent (slinksettings e))
do_sset_sends_example =
    do_sset_sends (λ s. none) zeros modern speed_100 2 wanted_100 kernel-Keeps read_100 refl
      not_external

do_ioctl_slinksettings-do_ioctl_glinksettings_example :
    (hello : Ecmd) × (reply : Ecmd) × (n : ℕ) × (e : Ecmd) × (kernel first_ecmd ≡ some hello)
    × (kernel (second_ecmd hello) ≡ some reply)
    × (reply.req.link_mode_masks_nwords ≡ pos n)
    × (do_ioctl_slinksettings zeros (usettings_of (with_words (pos 2)) 2) ≡ some e)
    × (e.req ≡ record reply.req { cmd = ethtool_slinksettings })
    × ((i : ℕ) → i < n + n + n → e.link_mode_data i ≡ reply.link_mode_data i)
do_ioctl_slinksettings-do_ioctl_glinksettings_example =
    do_ioctl_slinksettings-do_ioctl_glinksettings kernel zeros kernel_settings

-- A device of the older interface, at 10 Gbit/s.
abbrev old_settings : OldCmd
old_settings = record {
  cmd = 1;
  supported = 0x2f;
  advertising = 0x2f;
  speed = 10000;
  duplex = 1;
  port = 0;
  phy_address = 1;
  transceiver = 0;
  autoneg = 1;
  mdio_support = 0;
  maxtxpkt = 5;
  maxrxpkt = 6;
  speed_hi = 0;
  eth_tp_mdix = 1;
  eth_tp_mdix_ctrl = 0;
  lp_advertising = 0x2c;
}

do_ioctl_sset-do_ioctl_gset_example :
    (do_ioctl_gset (some old_settings) >>= λ u. do_ioctl_sset u)
    ≡ some (record old_settings { cmd = ethtool_sset; maxtxpkt = 0; maxrxpkt = 0 })
do_ioctl_sset-do_ioctl_gset_example =
    do_ioctl_sset-do_ioctl_gset old_settings (omega arith) (omega arith)

abbrev aged : Device
aged = record { glinksettings = λ e. none; gset = some old_settings; gwol = none; gmsglvl = none }

no_new_settings : do_ioctl_glinksettings aged.glinksettings ≡ none
unfolding do_ioctl_glinksettings
no_new_settings = refl

do_sset-SaysOld_example :
    (w : Wanted) × (read_options (λ s. none) speed_100 nothing_wanted ≡ some w)
    × OldEnds w old_settings (ends_100 aged).link
do_sset-SaysOld_example =
    do_sset-SaysOld (λ s. none) zeros aged speed_100 old_settings (omega arith) (omega arith)
      no_new_settings refl (sset_100 aged)

-- `msglvl drv off hw on`
abbrev drv_hw : List (List ℕ)
drv_hw = codes "off" ∷ codes "hw" ∷ codes "on" ∷ []

abbrev levels : Outcome
levels = record { link = not_asked; wol = not_asked; msglvl = sent 0x2006; status = 0 }

levels_set : do_sset (λ s. none) zeros modern (codes "msglvl" ∷ codes "drv" ∷ drv_hw) ≡ some levels
unfolding do_sset read_options key_of str_eq read_flags parse_generic_cmdline take_pair find_info
    set_wanted set_flag see number set_link set_wol set_msglvl flag_to_cmdline_info
    ethtool.Link.Sset.change_msglvl
levels_set = refl

do_sset-level_bit_example :
    (levels.link ≡ not_asked)
    × (levels.wol ≡ not_asked)
    × (v : ℕ) × (levels.msglvl ≡ sent v)
    × ((j : ℕ) → j < 32 → bit v j ≡ level_bit (codes "drv" ∷ drv_hw) 7 j)
do_sset-level_bit_example =
    do_sset-level_bit (λ s. none) zeros modern (codes "drv") drv_hw 7 refl refl levels_set
