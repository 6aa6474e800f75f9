-- ===== src/Hashkey/Text.antt =====
-- The text of the hash key: lemmas on the bytes that are read and printed.
use ethtool.Base.{
  ℕ, suc, ◌+◌, ◌-◌, ◌*◌, ◌/◌, ◌%◌, ◌<◌, ◌≡◌, inl, inr, refl, sym, ap, ap₂, ◌∙◌, true, false, Option,
  none, some, List, [], ◌∷◌, ◌==◌, ==_iff, ltb, if◌then◌else◌, arith, length, Bool-cases, lt→ltb,
}
use ethtool.Base.Maybe.{◌>>=◌, >>=-some, some_eq, none_absurd}
use ethtool.Clib.Scan.{scan_hex, scan_two}
use ethtool.Clib.Strto.{digit_value, skip_space, is_space}
use ethtool.Hashkey.{
  take_byte, key_byte, key_end, key_bytes, convert_string_to_hashkey, parse_hkey, hkey_of,
  hex_digit, hex_byte, key_text,
}

end-length :
    (key_size i v : ℕ) {key : List ℕ}
    → key_end key_size i v ≡ some key
    → length key + i ≡ key_size + 1
end-length key_size i v h = elim (Bool-cases (i == key_size)) [
  | inr short ↦ none_absurd (rw short at h)
  | inl full ↦
      let e : (v ∷ []) ≡ _ = some_eq (rw full at h) in
      ap (λ k. length k + i) (sym e) ∙ omega (arith, (==_iff i key_size).0 full)
]

key_bytes-length :
    (key_size i : ℕ) (s : List ℕ) {key : List ℕ}
    → key_bytes key_size i s ≡ some key
    → length key + i ≡ key_size
unfolding key_bytes
key_bytes-length key_size i [] h = none_absurd h
key_bytes-length key_size i (a ∷ []) h = none_absurd h
key_bytes-length key_size i (a ∷ b ∷ []) h =
    let (v, read, e) = >>=-some (key_byte key_size i (a ∷ b ∷ [])) _ h in
    omega (arith, end-length key_size (suc i) v e)
key_bytes-length key_size i (a ∷ b ∷ c ∷ []) h =
    let (v, read, e) = >>=-some (key_byte key_size i (a ∷ b ∷ c ∷ [])) _ h in
    elim (Bool-cases (c == b':')) [
      | inr other ↦ none_absurd (rw other at e)
      | inl colon ↦ omega (arith, end-length key_size (suc i) v (rw colon at e))
    ]
key_bytes-length key_size i (a ∷ b ∷ c ∷ d ∷ t) h =
    let (v, read, e) = >>=-some (key_byte key_size i (a ∷ b ∷ c ∷ d ∷ t)) _ h in
    elim (Bool-cases (c == b':')) [
      | inr other ↦ none_absurd (rw other at e)
      | inl colon ↦
          let e1 : (key_bytes key_size (suc i) (d ∷ t) >>= λ vs. some (v ∷ vs)) ≡ some _ =
            (rw colon at e) in
          let (vs, more, e2) = >>=-some (key_bytes key_size (suc i) (d ∷ t)) _ e1 in
          ap (λ k. length k + i) (sym (some_eq e2))
          ∙ omega (arith, key_bytes-length key_size (suc i) (d ∷ t) more)
    ]

hkey_of-some :
    (o : Option (List ℕ)) (key : List ℕ)
    → (hkey_of o).key ≡ some key
    → (o ≡ some key) × ((hkey_of o).status ≡ 0)
hkey_of-some none key h = none_absurd h
hkey_of-some (some k) key h = (h, refl)

convert-length :
    (key_size : ℕ) (s key : List ℕ)
    → convert_string_to_hashkey key_size s ≡ some key
    → length key ≡ key_size
unfolding convert_string_to_hashkey
convert-length key_size s key h = omega (arith, key_bytes-length key_size 0 s h)

-- A key that is accepted has the size that the device asks for, which is not 0, and the status is
-- 0.
pub parse_hkey-length :
    (key_size : ℕ) (s key : List ℕ)
    → (parse_hkey key_size s).key ≡ some key
    → (length key ≡ key_size) × (0 < key_size) × ((parse_hkey key_size s).status ≡ 0)
unfolding parse_hkey
parse_hkey-length key_size s key h = elim (Bool-cases (key_size == 0)) [
  | inl none_wanted ↦ none_absurd (rw none_wanted at h)
  | inr wanted ↦
      let h' : (hkey_of (convert_string_to_hashkey key_size s)).key ≡ some key = (rw wanted at h) in
      let (read, ok) = hkey_of-some (convert_string_to_hashkey key_size s) key h' in
      let size = convert-length key_size s key read in (size, ground arith, rw wanted ok)
]

-- One byte of the text.
digit_value-hex_digit : (n : ℕ) → n < 16 → digit_value (hex_digit n) ≡ n
digit_value-hex_digit n h = ground arith

scan_hex-digits :
    (a b : ℕ) (s : List ℕ)
    → is_space a ≡ false
    → ltb (digit_value a) 16 ≡ true
    → ltb (digit_value b) 16 ≡ true
    → scan_hex (a ∷ b ∷ s) ≡ some (record { value = digit_value a * 16 + digit_value b; rest = s })
unfolding scan_hex scan_two skip_space
scan_hex-digits a b s space la lb = rw (space, la, lb)

take_byte-digits :
    (a b : ℕ) (s : List ℕ)
    → is_space a ≡ false
    → ltb (digit_value a) 16 ≡ true
    → ltb (digit_value b) 16 ≡ true
    → take_byte (a ∷ b ∷ s) ≡ some ((digit_value a * 16 + digit_value b) % 256)
unfolding take_byte
take_byte-digits a b s space la lb =
    let two : (length (a ∷ b ∷ s) == length s + 2) ≡ true =
      (==_iff (length (a ∷ b ∷ s)) (length s + 2)).1 (omega arith) in
    ap
      (λ o.
        o >>= λ r. if length (a ∷ b ∷ s) == length r.rest + 2 then some (r.value % 256) else none)
      (scan_hex-digits a b s space la lb)
    ∙ ap (λ t. if t then some ((digit_value a * 16 + digit_value b) % 256) else none) two

hex_digit_plain : (n : ℕ) → n < 16 → is_space (hex_digit n) ≡ false
hex_digit_plain n h = ground arith

take_byte-hex_byte : (v : ℕ) (s : List ℕ) → v < 256 → take_byte (hex_byte v s) ≡ some v
take_byte-hex_byte v s h =
    let hi = digit_value-hex_digit (v / 16) (omega arith) in
    let lo = digit_value-hex_digit (v % 16) (omega arith) in
    take_byte-digits (hex_digit (v / 16)) (hex_digit (v % 16)) s
      (hex_digit_plain (v / 16) (omega arith)) (rw hi (lt→ltb (v / 16) 16 (omega arith)))
      (rw lo (lt→ltb (v % 16) 16 (omega arith)))
    ∙ ap some (omega (arith, hi, lo))

abbrev pub AllBytes : List ℕ → Type 0
AllBytes [] = Unit
AllBytes (v ∷ vs) = (v < 256) × AllBytes vs

key_byte-hex_byte :
    (key_size i v : ℕ) (s : List ℕ)
    → i < key_size
    → v < 256
    → key_byte key_size i (hex_byte v s) ≡ some v
unfolding key_byte
key_byte-hex_byte key_size i v s l h =
    let fits : ltb (key_size - 1) i ≡ false = ground arith in rw fits (take_byte-hex_byte v s h)

last_byte :
    (key_size i v : ℕ)
    → i + 1 ≡ key_size
    → v < 256
    → key_bytes key_size i (hex_byte v []) ≡ some (v ∷ [])
unfolding key_bytes
last_byte key_size i v size small =
    let full : (suc i == key_size) ≡ true = (==_iff (suc i) key_size).1 (omega arith) in
    ap (λ o. o >>= key_end key_size (suc i)) (key_byte-hex_byte key_size i v [] (omega arith) small)
    ∙ ap (λ t. if t then some (v ∷ []) else none) full

key_bytes-colon :
    (key_size i a b d v : ℕ) (t vs : List ℕ)
    → key_byte key_size i (a ∷ b ∷ b':' ∷ d ∷ t) ≡ some v
    → key_bytes key_size (suc i) (d ∷ t) ≡ some vs
    → key_bytes key_size i (a ∷ b ∷ b':' ∷ d ∷ t) ≡ some (v ∷ vs)
unfolding key_bytes
key_bytes-colon key_size i a b d v t vs first more =
    ap₂ (λ o m. o >>= λ u. if b':' == b':' then (m >>= λ us. some (u ∷ us)) else none) first more

key_bytes-key_text :
    (key_size i v : ℕ) (vs : List ℕ)
    → AllBytes (v ∷ vs)
    → i + length (v ∷ vs) ≡ key_size
    → key_bytes key_size i (key_text (v ∷ vs)) ≡ some (v ∷ vs)
unfolding key_text
key_bytes-key_text key_size i v [] small size = last_byte key_size i v (omega arith) small.0
key_bytes-key_text key_size i v (w ∷ []) small size =
    key_bytes-colon key_size i _ _ _ v _ (w ∷ [])
      (key_byte-hex_byte key_size i v _ (omega arith) small.0)
      (key_bytes-key_text key_size (suc i) w [] small.1 (omega arith))
key_bytes-key_text key_size i v (w ∷ x ∷ vs) small size =
    key_bytes-colon key_size i _ _ _ v _ (w ∷ x ∷ vs)
      (key_byte-hex_byte key_size i v _ (omega arith) small.0)
      (key_bytes-key_text key_size (suc i) w (x ∷ vs) small.1 (omega arith))

-- A key of at least one byte that is printed is read back, where the device asks for a key of its
-- size.
pub parse_hkey-key_text :
    (v : ℕ) (vs : List ℕ)
    → AllBytes (v ∷ vs)
    → parse_hkey (length (v ∷ vs)) (key_text (v ∷ vs)) ≡ record { status = 0; key = some (v ∷ vs) }
unfolding parse_hkey convert_string_to_hashkey
parse_hkey-key_text v vs small =
    let some_size : (length (v ∷ vs) == 0) ≡ false = ground arith in
    rw some_size (ap hkey_of (key_bytes-key_text (length (v ∷ vs)) 0 v vs small (omega arith)))
