-- ===== src/Eeprom/Writes.antt =====
-- do_seeprom: which bytes are written.
use ethtool.Base.{
  ℕ, ◌+◌, ◌-◌, ◌%◌, ◌^◌, ◌≤◌, ◌<◌, ◌≡◌, ◌≢◌, ◌⊎◌, inl, inr, refl, sym, Bool, true, false, not,
  Option, none, some, List, [], ◌∷◌, ◌==◌, ltb, if◌then◌else◌, arith, length, if_elim, Bool-cases,
  ==_false,
}
use ethtool.Base.Bytes.{le_value}
use ethtool.Base.Int.{ℤ}
use ethtool.Base.Run.{Run, done, fault}
use ethtool.Cmdline.{Store, Line, parse_generic_cmdline}
use ethtool.Eeprom.{
  cmdline_seeprom, seeprom_start, Write, Put, put, input, send_write, write_bytes, put_value,
  seeprom_write, seeprom_with, do_seeprom,
}

==→≡ : (a b : ℕ) → (a == b) ≡ true → a ≡ b
==→≡ a b h = ground arith

==_ne : (a b : ℕ) → (a == b) ≡ false → a ≢ b
==_ne a b h e = ground arith

never_below : (n : ℕ) → ltb n 0 ≡ false
never_below n = ground arith

within : (m n : ℕ) → m < 2 ^ 32 → ltb n (m % 2 ^ 32) ≡ false → m ≤ n
within m n fits h =
    let plain : m % 2 ^ 32 ≡ m = omega arith in
    let h' : ltb n m ≡ false = (rw plain at h) in ground arith

module _ (memory : ℕ → Bool) (send : Write → ℤ) (stdin : List ℕ) where
  abbrev pub request : Store → ℕ → Write
  request st eedump_len = seeprom_write memory send stdin st eedump_len

  -- Nothing is sent, and the status is not 0; or the bytes are sent, the value of the option or all
  -- of the input; or a byte is stored behind an allocation of none.
  abbrev pub WritesAll : Store → ℕ → Run Put → Type 0
  WritesAll st eedump_len run =
      let w : Write = request st eedump_len in
      ((status : ℕ) × (status ≢ 0) × (run ≡ done (put status)))
      ⊎ ((bytes : List ℕ) × (length bytes ≡ w.len)
          × (0 < w.len)
          × ((bytes ≡ le_value (st 3) ∷ []) ⊎ (bytes ≡ stdin))
          × (w.offset + w.len ≤ eedump_len)
          × (run ≡ (
              let w' : Write = record w { bytes = bytes } in
              done (send_write memory send stdin w' (send w')))))
      ⊎ ((w.len ≡ 0) × (run ≡ fault))

  refuses : (st : Store) (n status : ℕ) → status ≢ 0 → WritesAll st n (done (put status))
  refuses st n status h = inl (status, h, refl)

  input-cases :
      (n : ℕ) → n ≢ 0 → (input n stdin ≡ none) ⊎ ((input n stdin ≡ some stdin) × (length stdin ≡ n))
  input-cases n h = rw (==_false n 0 h) (elim (Bool-cases (ltb (length stdin) n)) [
    | inl few ↦ rw few (inl refl)
    | inr enough ↦ rw enough (elim (Bool-cases (ltb n (length stdin))) [
      | inl many ↦ rw many (inl refl)
      | inr exact ↦ rw exact (inr (refl, ground arith))
    ])
  ])

  write_bytes-WritesAll :
      (st : Store) (n : ℕ)
      → (request st n).len ≢ 0
      → (request st n).offset + (request st n).len ≤ n
      → (o : Option (List ℕ))
      → (o ≡ none)
        ⊎ ((bytes : List ℕ) × (o ≡ some bytes)
            × (length bytes ≡ (request st n).len)
            × ((bytes ≡ le_value (st 3) ∷ []) ⊎ (bytes ≡ stdin)))
      → WritesAll st n (done (write_bytes memory send stdin (request st n) o))
  unfolding write_bytes
  write_bytes-WritesAll st n some_bytes inside o (inl e) = rw e (refuses st n 75 (λ z. omega arith))
  write_bytes-WritesAll st n some_bytes inside o (inr (bytes, e, l, what)) =
      rw e (inr (inl (bytes, l, omega (arith, some_bytes), what, inside, refl)))

  len_seen : (st : Store) (n : ℕ) → not (le_value (st 4) == 0) ≡ true → (request st n).len ≡ 1
  unfolding seeprom_write
  len_seen st n h = rw h refl

  value_or_input :
      (st : Store) (n : ℕ)
      → (request st n).len ≢ 0
      → let o =
          (if not (le_value (st 4) == 0)
            then some (le_value (st 3) ∷ [])
            else input (request st n).len stdin) in
        (o ≡ none)
        ⊎ ((bytes : List ℕ) × (o ≡ some bytes)
            × (length bytes ≡ (request st n).len)
            × ((bytes ≡ le_value (st 3) ∷ []) ⊎ (bytes ≡ stdin)))
  value_or_input st n some_bytes = elim (Bool-cases (not (le_value (st 4) == 0))) [
    | inl seen ↦ rw seen (inr (le_value (st 3) ∷ [], refl, sym (len_seen st n seen), inl refl))
    | inr unseen ↦ rw unseen (elim (input-cases (request st n).len some_bytes) [
      | inl e ↦ inl e
      | inr (e, l) ↦ inr (stdin, e, l, inr refl)
    ])
  ]

  put_value-WritesAll :
      (st : Store) (n : ℕ)
      → (request st n).offset + (request st n).len ≤ n
      → WritesAll st n (put_value memory send stdin st (not (le_value (st 4) == 0)) (request st n))
  unfolding put_value
  put_value-WritesAll st n inside =
      if_elim (WritesAll st n) ((request st n).len == 0)
        (λ e. inr (inr (==→≡ (request st n).len 0 e, refl)))
        (λ e.
          let some_bytes : (request st n).len ≢ 0 = ==_ne (request st n).len 0 e in
          write_bytes-WritesAll st n some_bytes inside
            (if not (le_value (st 4) == 0)
              then some (le_value (st 3) ∷ [])
              else input (request st n).len stdin)
            (value_or_input st n some_bytes))

  seeprom_with-WritesAll :
      (st : Store) (n : ℕ)
      → (request st n).offset + (request st n).len < 2 ^ 32
      → WritesAll st n (seeprom_with memory send stdin st (some n))
  unfolding seeprom_with
  seeprom_with-WritesAll st n fits =
      if_elim (WritesAll st n) (ltb n (((request st n).offset + (request st n).len) % 2 ^ 32))
        (λ e. refuses st n 1 (λ z. omega arith))
        (λ e.
          if_elim (WritesAll st n) (not (memory (request st n).len))
            (λ e'. refuses st n 75 (λ z. omega arith))
            (λ e'. put_value-WritesAll st n (within _ n fits e)))

module _ (aton : List ℕ → Option ℕ) (memory : ℕ → Bool) (send : Write → ℤ) (stdin : List ℕ)
    (eedump_len : ℕ) (argp : List (List ℕ)) (line : Line)
    (parsed : parse_generic_cmdline aton cmdline_seeprom argp
        (record { store = seeprom_start; changed = 0 })
      ≡ some line) where
  runs :
      do_seeprom memory send stdin aton (some eedump_len) argp
      ≡ some (seeprom_with memory send stdin line.store (some eedump_len))
  unfolding do_seeprom
  runs = rw parsed refl

  -- If the offset and the length, which is 1 for a value and the size of the EEPROM where none is
  -- given, are together below 2 ^ 32: either nothing is sent and the status is not 0, or the value
  -- or the whole input is sent, at least one byte, so many as the length and all inside the EEPROM,
  -- or the length is 0 and a byte is stored outside of what was allocated.
  pub do_seeprom-WritesAll :
      (request memory send stdin line.store eedump_len).offset
          + (request memory send stdin line.store eedump_len).len
        < 2 ^ 32
      → (run : Run Put) × (do_seeprom memory send stdin aton (some eedump_len) argp ≡ some run)
        × WritesAll memory send stdin line.store eedump_len run
  do_seeprom-WritesAll fits =
      (_, runs, seeprom_with-WritesAll memory send stdin line.store eedump_len fits)

  -- A value at offset 2 ^ 32 - 1 passes the test of the bounds whatever the size of the EEPROM is:
  -- one byte is sent for an offset outside of it.
  pub do_seeprom_wraps :
      le_value (line.store 2) ≡ 2 ^ 32 - 1
      → le_value (line.store 4) ≢ 0
      → memory 1 ≡ true
      → let w : Write = record {
        magic = le_value (line.store 0);
        offset = 2 ^ 32 - 1;
        len = 1;
        bytes = le_value (line.store 3) ∷ [];
      } in
        do_seeprom memory send stdin aton (some eedump_len) argp
        ≡ some (done (send_write memory send stdin w (send w)))
  unfolding do_seeprom seeprom_with seeprom_write put_value write_bytes
  do_seeprom_wraps offset seen room =
      let value : le_value (line.store 4) == 0 ≡ false =
        ==_false (le_value (line.store 4)) 0 seen in
      rw (parsed, value, offset, room, never_below eedump_len) refl
