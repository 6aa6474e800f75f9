-- ===== src/Settings.antt =====
-- ethtool.c, the commands on top of Cmdline that read the settings of the device, merge those that
-- the command line asks for, and write them back if any changed: do_spause, do_sring, do_schannels,
-- do_scoalesce and do_seee. The variables of each function are numbered, the wanted values first.
-- send_ioctl is the kernel's: `get` is what it stores in the structure, or failure, and `accepts`
-- whether it takes the structure that is written.
pub mod Tables
pub mod Sent
pub mod Eee
use ethtool.Base.{
  ℕ, ◌-◌, ◌^◌, Bool, Option, none, some, List, [], ◌∷◌, ◌==◌, ltb, if◌then◌else◌, codes,
}
use ethtool.Base.Bytes.{le_bytes}
use ethtool.Base.Maybe.{◌>>=◌}
use ethtool.Cmdline.{
  CmdlineType, cmdl_bool, cmdl_s32, cmdl_u32, CmdlineInfo, Store, Line, parse_generic_cmdline,
  do_generic_set,
}

-- The status that is returned, and the variables when the settings were written.
pub record Outcome : Type 0 where
  pub status : ℕ
  pub sent : Option Store

abbrev pub plain : List ℕ → CmdlineType → ℕ → ℕ → CmdlineInfo
plain name type wanted ioctl = record {
  name = name;
  type = type;
  wanted_val = wanted;
  ioctl_val = ioctl;
  flag_val = 0;
  seen_val = none;
}

-- The variables below `n` are the wanted ones and hold -1.
abbrev pub unset_below : ℕ → Store → Store
unset_below n st v = if ltb v n then le_bytes 4 (2 ^ 32 - 1) else st v

-- After the ioctl that reads: the variables from `n` on hold the structure.
abbrev pub filled_from : ℕ → Store → Store → Store
filled_from n device st v = if ltb v n then st v else device v

-- cmdline_pause: autoneg, rx and tx.
abbrev pub cmdline_pause : List CmdlineInfo
cmdline_pause =
    plain (codes "autoneg") cmdl_bool 0 3
    ∷ plain (codes "rx") cmdl_bool 1 4
    ∷ plain (codes "tx") cmdl_bool 2 5
    ∷ []

-- cmdline_ring: rx, rx-mini, rx-jumbo and tx.
abbrev pub cmdline_ring : List CmdlineInfo
cmdline_ring =
    plain (codes "rx") cmdl_s32 0 4
    ∷ plain (codes "rx-mini") cmdl_s32 1 5
    ∷ plain (codes "rx-jumbo") cmdl_s32 2 6
    ∷ plain (codes "tx") cmdl_s32 3 7
    ∷ []

-- cmdline_channels: rx, tx, other and combined.
abbrev pub cmdline_channels : List CmdlineInfo
cmdline_channels =
    plain (codes "rx") cmdl_s32 0 4
    ∷ plain (codes "tx") cmdl_s32 1 5
    ∷ plain (codes "other") cmdl_s32 2 6
    ∷ plain (codes "combined") cmdl_s32 3 7
    ∷ []

-- COALESCE_CMDLINE_INFO
abbrev pub cmdline_coalesce : List CmdlineInfo
cmdline_coalesce =
    plain (codes "adaptive-rx") cmdl_bool 0 22
    ∷ plain (codes "adaptive-tx") cmdl_bool 1 23
    ∷ plain (codes "sample-interval") cmdl_s32 2 24
    ∷ plain (codes "stats-block-usecs") cmdl_s32 3 25
    ∷ plain (codes "pkt-rate-low") cmdl_s32 4 26
    ∷ plain (codes "pkt-rate-high") cmdl_s32 5 27
    ∷ plain (codes "rx-usecs") cmdl_s32 6 28
    ∷ plain (codes "rx-frames") cmdl_s32 7 29
    ∷ plain (codes "rx-usecs-irq") cmdl_s32 8 30
    ∷ plain (codes "rx-frames-irq") cmdl_s32 9 31
    ∷ plain (codes "tx-usecs") cmdl_s32 10 32
    ∷ plain (codes "tx-frames") cmdl_s32 11 33
    ∷ plain (codes "tx-usecs-irq") cmdl_s32 12 34
    ∷ plain (codes "tx-frames-irq") cmdl_s32 13 35
    ∷ plain (codes "rx-usecs-low") cmdl_s32 14 36
    ∷ plain (codes "rx-frames-low") cmdl_s32 15 37
    ∷ plain (codes "tx-usecs-low") cmdl_s32 16 38
    ∷ plain (codes "tx-frames-low") cmdl_s32 17 39
    ∷ plain (codes "rx-usecs-high") cmdl_s32 18 40
    ∷ plain (codes "rx-frames-high") cmdl_s32 19 41
    ∷ plain (codes "tx-usecs-high") cmdl_s32 20 42
    ∷ plain (codes "tx-frames-high") cmdl_s32 21 43
    ∷ []

-- cmdline_eee: advertise, tx-lpi, tx-timer and eee.
abbrev pub cmdline_eee : List CmdlineInfo
cmdline_eee =
    plain (codes "advertise") cmdl_u32 0 4
    ∷ plain (codes "tx-lpi") cmdl_bool 1 5
    ∷ plain (codes "tx-timer") cmdl_u32 2 6
    ∷ plain (codes "eee") cmdl_bool 3 7
    ∷ []

-- A table, the number of its wanted values, and the statuses when the settings cannot be read, are
-- not changed and cannot be written.
pub record Command : Type 0 where
  pub table : List CmdlineInfo
  pub wanted : ℕ
  pub cannot_get : ℕ
  pub unchanged : ℕ
  pub cannot_set : ℕ

abbrev pub pause : Command
pause = record {
  table = cmdline_pause;
  wanted = 3;
  cannot_get = 77;
  unchanged = 78;
  cannot_set = 79;
}

abbrev pub ring : Command
ring = record { table = cmdline_ring; wanted = 4; cannot_get = 76; unchanged = 80; cannot_set = 81 }

abbrev pub channels : Command
channels = record {
  table = cmdline_channels;
  wanted = 4;
  cannot_get = 1;
  unchanged = 0;
  cannot_set = 1;
}

abbrev pub coalesce : Command
coalesce = record {
  table = cmdline_coalesce;
  wanted = 22;
  cannot_get = 76;
  unchanged = 80;
  cannot_set = 81;
}

abbrev pub eee : Command
eee = record { table = cmdline_eee; wanted = 4; cannot_get = 1; unchanged = 0; cannot_set = 1 }

-- Before the options: `stack` is what the variables held.
abbrev pub start : Command → Store → Line
start c stack = record { store = unset_below c.wanted stack; changed = 0 }

-- Before do_generic_set.
abbrev pub current : Command → Store → Store → Line
current c st device = record { store = filled_from c.wanted device st; changed = 0 }

-- The commands by name.
pub data Kind : Type 0 where
  pause_kind ring_kind channels_kind coalesce_kind eee_kind : Kind

abbrev pub command_of : Kind → Command
command_of pause_kind = pause
command_of ring_kind = ring
command_of channels_kind = channels
command_of coalesce_kind = coalesce
command_of eee_kind = eee

module _ (aton : List ℕ → Option ℕ) (accepts : Store → Bool) where
  unfoldable pub write_back : Command → Line → Outcome
  write_back c line =
      if line.changed == 0
      then record { status = c.unchanged; sent = none }
      else if accepts line.store
      then record { status = 0; sent = some line.store }
      else record { status = c.cannot_set; sent = some line.store }

  unfoldable pub merge_with : Command → Store → Option Store → Outcome
  merge_with c st none = record { status = c.cannot_get; sent = none }
  merge_with c st (some device) = write_back c (do_generic_set c.table (current c st device))

  unfoldable pub set_settings : Command → Store → Option Store → List (List ℕ) → Option Outcome
  set_settings c stack get argp =
      parse_generic_cmdline aton c.table argp (start c stack) >>= λ line.
      some (merge_with c line.store get)

  unfoldable pub do_spause : Store → Option Store → List (List ℕ) → Option Outcome
  do_spause stack get argp = set_settings pause stack get argp

  unfoldable pub do_sring : Store → Option Store → List (List ℕ) → Option Outcome
  do_sring stack get argp = set_settings ring stack get argp

  unfoldable pub do_schannels : Store → Option Store → List (List ℕ) → Option Outcome
  do_schannels stack get argp = set_settings channels stack get argp

  unfoldable pub do_scoalesce : Store → Option Store → List (List ℕ) → Option Outcome
  do_scoalesce stack get argp = set_settings coalesce stack get argp

  -- Without an argument: exit_bad_args.
  unfoldable pub do_seee : Store → Option Store → List (List ℕ) → Option Outcome
  do_seee stack get [] = none
  do_seee stack get (arg ∷ argp) = set_settings eee stack get (arg ∷ argp)

  abbrev pub run : Kind → Store → Option Store → List (List ℕ) → Option Outcome
  run pause_kind = do_spause
  run ring_kind = do_sring
  run channels_kind = do_schannels
  run coalesce_kind = do_scoalesce
  run eee_kind = do_seee
