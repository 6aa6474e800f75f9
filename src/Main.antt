-- ===== src/Main.antt =====
-- ethtool.c, main: the table of options, find_option, and how a command is chosen and started. The
-- texts of the table that show_usage prints are left out.
pub mod Options
use ethtool.Base.{
  ℕ, suc, ◌+◌, ◌-◌, Bool, true, false, ◌||◌, not, Option, none, some, List, [], ◌∷◌, ◌==◌, ltb, leb,
  if◌then◌else◌, codes, length,
}
use ethtool.Clib.{str_eq}

-- The functions of the table, without their prefix do_, and do_gset.
pub data Func : Type 0 where
  gset sset gpause spause gcoalesce scoalesce gring sring gfeatures sfeatures gdrv gregs : Func
  geeprom seeprom nway_rst phys_id test gnicstats gphystats grxclass srxclass tsinfo grxfh : Func
  srxfh flash permaddr getfwdump setfwdump gchannels schannels gprivflags sprivflags : Func
  getmodule geee seee set_phy_tunable get_phy_tunable reset gfec sfec perqueue show_usage : Func
  version : Func

-- struct option
pub record OptionEntry : Type 0 where
  pub opts : List ℕ
  pub want_device : Bool
  pub func : Func

abbrev pub entry : List ℕ → Bool → Func → OptionEntry
entry opts want_device func = record { opts = opts; want_device = want_device; func = func }

abbrev pub args : List OptionEntry
args =
    entry (codes "-s|--change") true sset
    ∷ entry (codes "-a|--show-pause") true gpause
    ∷ entry (codes "-A|--pause") true spause
    ∷ entry (codes "-c|--show-coalesce") true gcoalesce
    ∷ entry (codes "-C|--coalesce") true scoalesce
    ∷ entry (codes "-g|--show-ring") true gring
    ∷ entry (codes "-G|--set-ring") true sring
    ∷ entry (codes "-k|--show-features|--show-offload") true gfeatures
    ∷ entry (codes "-K|--features|--offload") true sfeatures
    ∷ entry (codes "-i|--driver") true gdrv
    ∷ entry (codes "-d|--register-dump") true gregs
    ∷ entry (codes "-e|--eeprom-dump") true geeprom
    ∷ entry (codes "-E|--change-eeprom") true seeprom
    ∷ entry (codes "-r|--negotiate") true nway_rst
    ∷ entry (codes "-p|--identify") true phys_id
    ∷ entry (codes "-t|--test") true test
    ∷ entry (codes "-S|--statistics") true gnicstats
    ∷ entry (codes "--phy-statistics") true gphystats
    ∷ entry (codes "-n|-u|--show-nfc|--show-ntuple") true grxclass
    ∷ entry (codes "-N|-U|--config-nfc|--config-ntuple") true srxclass
    ∷ entry (codes "-T|--show-time-stamping") true tsinfo
    ∷ entry (codes "-x|--show-rxfh-indir|--show-rxfh") true grxfh
    ∷ entry (codes "-X|--set-rxfh-indir|--rxfh") true srxfh
    ∷ entry (codes "-f|--flash") true flash
    ∷ entry (codes "-P|--show-permaddr") true permaddr
    ∷ entry (codes "-w|--get-dump") true getfwdump
    ∷ entry (codes "-W|--set-dump") true setfwdump
    ∷ entry (codes "-l|--show-channels") true gchannels
    ∷ entry (codes "-L|--set-channels") true schannels
    ∷ entry (codes "--show-priv-flags") true gprivflags
    ∷ entry (codes "--set-priv-flags") true sprivflags
    ∷ entry (codes "-m|--dump-module-eeprom|--module-info") true getmodule
    ∷ entry (codes "--show-eee") true geee
    ∷ entry (codes "--set-eee") true seee
    ∷ entry (codes "--set-phy-tunable") true set_phy_tunable
    ∷ entry (codes "--get-phy-tunable") true get_phy_tunable
    ∷ entry (codes "--reset") true reset
    ∷ entry (codes "--show-fec") true gfec
    ∷ entry (codes "--set-fec") true sfec
    ∷ entry (codes "-Q|--per-queue") true perqueue
    ∷ entry (codes "-h|--help") false show_usage
    ∷ entry (codes "--version") false version
    ∷ []

-- A character in front of the first name.
abbrev pub longer : ℕ → List (List ℕ) → List (List ℕ)
longer c [] = (c ∷ []) ∷ []
longer c (name ∷ names) = (c ∷ name) ∷ names

-- The names of an entry: what strcspn finds between the bars.
unfoldable pub names_of : List ℕ → List (List ℕ)
names_of [] = [] ∷ []
names_of (c ∷ opt) = if c == b'|' then [] ∷ names_of opt else longer c (names_of opt)

unfoldable pub has_name : List ℕ → List (List ℕ) → Bool
has_name arg [] = false
has_name arg (name ∷ names) = str_eq arg name || has_name arg names

-- The loop from entry k on; `none` is the return of -1.
unfoldable pub find_from : List OptionEntry → ℕ → List ℕ → Option ℕ
find_from [] k arg = none
find_from (o ∷ os) k arg =
    if has_name arg (names_of o.opts) then some k else find_from os (k + 1) arg

unfoldable pub find_option : List ℕ → Option ℕ
find_option arg = find_from args 0 arg

-- `args[k]`
unfoldable pub entry_at : List OptionEntry → ℕ → Option OptionEntry
entry_at [] k = none
entry_at (o ∷ os) k = if k == 0 then some o else entry_at os (k - 1)

-- exit_bad_args; the status 70 without a control socket; or the call of a function, with the name of
-- the device where there is one.
pub data Started : Type 0 where
  bad_args : Started
  no_socket : Started
  call : Func → Option (List ℕ) → List (List ℕ) → Started

abbrev pub ifnamsiz : ℕ
ifnamsiz = 16

abbrev pub is_dash : List ℕ → Bool
is_dash [] = false
is_dash (c ∷ s) = c == b'-'

module _ (opens : Bool) where
  -- From the label opt_found on, with a device.
  unfoldable pub with_device : Func → List (List ℕ) → Started
  with_device func [] = bad_args
  with_device func (devname ∷ argp) =
      if leb ifnamsiz (length devname)
      then bad_args
      else if opens
      then call func (some devname) argp
      else no_socket

  unfoldable pub opt_found : Option OptionEntry → List (List ℕ) → Started
  opt_found none argp = bad_args
  opt_found (some o) argp = if o.want_device then with_device o.func argp else call o.func none argp

  unfoldable pub main_with : Option ℕ → List ℕ → List (List ℕ) → Started
  main_with (some k) arg argp = opt_found (entry_at args k) argp
  main_with none arg argp = if is_dash arg then bad_args else with_device gset (arg ∷ argp)

  -- The arguments without the name of the command; `opens` is whether a control socket opens.
  unfoldable pub main : List (List ℕ) → Started
  main [] = bad_args
  main (arg ∷ argp) = main_with (find_option arg) arg argp
