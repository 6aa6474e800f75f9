-- ===== src/Eeprom.antt =====
-- ethtool.c, do_geeprom and do_seeprom. The variables of each function are numbered in the order of
-- their declaration. `drvinfo` is the size of the EEPROM in the driver's answer, or its failure,
-- and `memory` whether calloc succeeds for so many bytes of data. `none` is exit_bad_args.
pub mod Reads
pub mod Writes
use ethtool.Base.{
  ℕ, zero, suc, ◌+◌, ◌-◌, ◌*◌, ◌%◌, ◌^◌, Bool, true, false, not, Option, none, some, List, [], ◌∷◌,
  ◌==◌, ltb, if◌then◌else◌, codes, length, take, drop,
}
use ethtool.Base.Bytes.{le_bytes, le_value}
use ethtool.Base.Int.{ℤ, pos, negsuc, is_neg}
use ethtool.Base.Maybe.{◌>>=◌}
use ethtool.Base.Run.{Run, done, fault}
use ethtool.Cmdline.{
  CmdlineType, cmdl_u32, cmdl_u8, cmdl_bool, CmdlineInfo, Store, Line, parse_generic_cmdline,
}

abbrev pub option : List ℕ → CmdlineType → ℕ → Option ℕ → CmdlineInfo
option name type wanted seen = record {
  name = name;
  type = type;
  wanted_val = wanted;
  ioctl_val = 5;
  flag_val = 0;
  seen_val = seen;
}

-- geeprom_dump_raw, geeprom_offset and geeprom_length.
abbrev pub cmdline_geeprom : List CmdlineInfo
cmdline_geeprom =
    option (codes "offset") cmdl_u32 1 none
    ∷ option (codes "length") cmdl_u32 2 none
    ∷ option (codes "raw") cmdl_bool 0 none
    ∷ []

abbrev pub geeprom_start : Store
geeprom_start v = le_bytes 4 (if v == 2 then 2 ^ 32 - 1 else 0)

-- ETHTOOL_GEEPROM
pub record Read : Type 0 where
  pub len : ℕ
  pub offset : ℕ

-- The status that is returned, or the bytes that are handed to dump_eeprom, raw or not.
pub data Got : Type 0 where
  returns : ℕ → Got
  dumps : Bool → Read → List ℕ → Got

abbrev pub or_all : ℕ → ℕ → ℕ
or_all all length = if length == 2 ^ 32 - 1 then all else length

-- `eeprom->len`
unfoldable pub geeprom_len : ℕ → ℕ → ℕ → ℕ
geeprom_len eedump_len offset length =
    if ltb eedump_len ((offset + or_all eedump_len length) % 2 ^ 32)
    then (eedump_len + (2 ^ 32 - offset)) % 2 ^ 32
    else or_all eedump_len length

unfoldable pub got : Bool → Read → Option (List ℕ) → Got
got raw r none = returns 74
got raw r (some bytes) = dumps raw r bytes

unfoldable pub geeprom_with : (ℕ → Bool) → (Read → Option (List ℕ)) → Store → Option ℕ → Got
geeprom_with memory read st none = returns 74
geeprom_with memory read st (some eedump_len) =
    let offset : ℕ = le_value (st 1) in
    let len : ℕ = geeprom_len eedump_len offset (le_value (st 2)) in
    let r : Read = record { len = len; offset = offset } in
    if not (memory len) then returns 75 else got (not (le_value (st 0) == 0)) r (read r)

unfoldable pub do_geeprom :
    (List ℕ → Option ℕ)
    → (ℕ → Bool)
    → (Read → Option (List ℕ))
    → Option ℕ
    → List (List ℕ)
    → Option Got
do_geeprom aton memory read drvinfo argp =
    parse_generic_cmdline aton cmdline_geeprom argp (record { store = geeprom_start; changed = 0 })
    >>= λ line. some (geeprom_with memory read line.store drvinfo)

-- seeprom_magic, seeprom_length, seeprom_offset, seeprom_value and seeprom_value_seen.
abbrev pub cmdline_seeprom : List CmdlineInfo
cmdline_seeprom =
    option (codes "magic") cmdl_u32 0 none
    ∷ option (codes "offset") cmdl_u32 2 none
    ∷ option (codes "length") cmdl_u32 1 none
    ∷ option (codes "value") cmdl_u8 3 (some 4)
    ∷ []

abbrev pub seeprom_start : Store
seeprom_start v = if v == 3 then le_bytes 1 0 else le_bytes 4 (if v == 1 then 2 ^ 32 - 1 else 0)

-- ETHTOOL_SEEPROM
pub record Write : Type 0 where
  pub magic : ℕ
  pub offset : ℕ
  pub len : ℕ
  pub bytes : List ℕ

-- The status, and what was sent.
pub record Put : Type 0 where
  pub status : ℕ
  pub sent : Option Write

abbrev pub put : ℕ → Put
put status = record { status = status; sent = none }

-- fread of one item of `n` bytes, and the end of the file behind it: the bytes, or 75. An item of 0
-- bytes is never read.
abbrev pub input : ℕ → List ℕ → Option (List ℕ)
input n stdin =
    if n == 0
    then none
    else if ltb (length stdin) n
    then none
    else if ltb n (length stdin)
    then none
    else some stdin

module _ (memory : ℕ → Bool) (send : Write → ℤ) (stdin : List ℕ) where
  unfoldable pub send_write : Write → ℤ → Put
  send_write w (pos n) = record { status = n; sent = some w }
  send_write w (negsuc n) = record { status = 87; sent = some w }

  unfoldable pub write_bytes : Write → Option (List ℕ) → Put
  write_bytes w none = put 75
  write_bytes w (some bytes) =
      let w' : Write = record w { bytes = bytes } in send_write w' (send w')

  -- `len` bytes of zeros were allocated; the store in data[0] is outside them if there are none.
  unfoldable pub put_value : Store → Bool → Write → Run Put
  put_value st value_seen w =
      if w.len == 0
      then fault
      else done
          (write_bytes w (if value_seen then some (le_value (st 3) ∷ []) else input w.len stdin))

  unfoldable pub seeprom_write : Store → ℕ → Write
  seeprom_write st eedump_len = record {
    magic = le_value (st 0);
    offset = le_value (st 2);
    len = or_all eedump_len (if not (le_value (st 4) == 0) then 1 else le_value (st 1));
    bytes = [];
  }

  unfoldable pub seeprom_with : Store → Option ℕ → Run Put
  seeprom_with st none = done (put 74)
  seeprom_with st (some eedump_len) =
      let w : Write = seeprom_write st eedump_len in
      if ltb eedump_len ((w.offset + w.len) % 2 ^ 32)
      then done (put 1)
      else if not (memory w.len)
      then done (put 75)
      else put_value st (not (le_value (st 4) == 0)) w

  unfoldable pub do_seeprom : (List ℕ → Option ℕ) → Option ℕ → List (List ℕ) → Option (Run Put)
  do_seeprom aton drvinfo argp =
      parse_generic_cmdline aton cmdline_seeprom argp
        (record { store = seeprom_start; changed = 0 })
      >>= λ line. some (seeprom_with line.store drvinfo)
