-- ===== src/Eeprom/Reads.antt =====
-- do_geeprom: which bytes are asked for.
use ethtool.Base.{
  ℕ, ◌+◌, ◌-◌, ◌%◌, ◌^◌, ◌≤◌, ◌<◌, ◌≡◌, refl, Bool, true, false, not, Option, some, List, ◌==◌, ltb,
  if◌then◌else◌, arith, min, lt→ltb, ltb→lt, inl, inr, Bool-cases,
}
use ethtool.Base.Bytes.{le_value}
use ethtool.Cmdline.{Store, Line, parse_generic_cmdline}
use ethtool.Eeprom.{
  cmdline_geeprom, geeprom_start, Read, Got, returns, or_all, geeprom_len, got, geeprom_with,
  do_geeprom,
}

-- The end of do_geeprom, once the length is known.
abbrev pub reads : (ℕ → Bool) → (Read → Option (List ℕ)) → Store → ℕ → Got
reads memory read st len =
    let r : Read = record { len = len; offset = le_value (st 1) } in
    if not (memory len) then returns 75 else got (not (le_value (st 0) == 0)) r (read r)

ltb_le : (m n : ℕ) → ltb m n ≡ false → n ≤ m
ltb_le m n h = ground arith

geeprom_len-min :
    (eedump_len offset length : ℕ)
    → eedump_len < 2 ^ 32
    → offset ≤ eedump_len
    → offset + or_all eedump_len length < 2 ^ 32
    → geeprom_len eedump_len offset length ≡ min (or_all eedump_len length) (eedump_len - offset)
unfolding geeprom_len
geeprom_len-min eedump_len offset length n le fits =
    elim (Bool-cases (ltb eedump_len ((offset + or_all eedump_len length) % 2 ^ 32))) [
      | inl over ↦
          let lt : eedump_len < (offset + or_all eedump_len length) % 2 ^ 32 =
            ltb→lt eedump_len _ over in
          rw over (omega arith)
      | inr inside ↦
          let le : (offset + or_all eedump_len length) % 2 ^ 32 ≤ eedump_len =
            ltb_le eedump_len _ inside in
          rw inside (omega arith)
    ]

geeprom_len-past :
    (eedump_len offset length : ℕ)
    → eedump_len < offset
    → offset + or_all eedump_len length < 2 ^ 32
    → geeprom_len eedump_len offset length ≡ 2 ^ 32 - (offset - eedump_len)
unfolding geeprom_len
geeprom_len-past eedump_len offset length past fits =
    let over : ltb eedump_len ((offset + or_all eedump_len length) % 2 ^ 32) ≡ true =
      lt→ltb eedump_len _ (omega arith) in
    rw over (omega arith)

module _ (aton : List ℕ → Option ℕ) (memory : ℕ → Bool) (read : Read → Option (List ℕ))
    (eedump_len : ℕ) (argp : List (List ℕ)) (line : Line)
    (parsed : parse_generic_cmdline aton cmdline_geeprom argp
        (record { store = geeprom_start; changed = 0 })
      ≡ some line) where
  with_len :
      (len : ℕ)
      → geeprom_len eedump_len (le_value (line.store 1)) (le_value (line.store 2)) ≡ len
      → do_geeprom aton memory read (some eedump_len) argp ≡ some (reads memory read line.store len)
  unfolding do_geeprom geeprom_with
  with_len len e = rw (parsed, e) refl

  -- An offset inside an EEPROM, and a length that does not leave the 32 bits with it, or no length:
  -- what is read is so long as asked for, but at most what is left of the EEPROM.
  pub do_geeprom-min :
      eedump_len < 2 ^ 32
      → le_value (line.store 1) ≤ eedump_len
      → le_value (line.store 1) + or_all eedump_len (le_value (line.store 2)) < 2 ^ 32
      → do_geeprom aton memory read (some eedump_len) argp
        ≡ some (
            reads memory read line.store (
              min
                (or_all eedump_len (le_value (line.store 2)))
                (eedump_len - le_value (line.store 1))))
  do_geeprom-min n le fits =
      with_len _
        (geeprom_len-min eedump_len (le_value (line.store 1)) (le_value (line.store 2)) n le fits)

  -- An offset beyond the end of the EEPROM, and a length as above: what is left is negative, and the
  -- length that is asked for is 2 ^ 32 less the bytes by which the offset is beyond the end.
  pub do_geeprom_past_end :
      eedump_len < le_value (line.store 1)
      → le_value (line.store 1) + or_all eedump_len (le_value (line.store 2)) < 2 ^ 32
      → do_geeprom aton memory read (some eedump_len) argp
        ≡ some (reads memory read line.store (2 ^ 32 - (le_value (line.store 1) - eedump_len)))
  do_geeprom_past_end past fits =
      with_len _
        (geeprom_len-past eedump_len (le_value (line.store 1)) (le_value (line.store 2)) past fits)
