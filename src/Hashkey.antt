-- ===== src/Hashkey.antt =====
-- ethtool.c, the key of the receive hash: convert_string_to_hashkey and parse_hkey, and the text in
-- which do_grxfh prints it.
pub mod Text
use ethtool.Base.{
  ℕ, zero, suc, ◌+◌, ◌-◌, ◌*◌, ◌/◌, ◌%◌, Bool, true, false, Option, none, some, List, [], ◌∷◌, ◌++◌,
  ◌==◌, ltb, if◌then◌else◌, length,
}
use ethtool.Base.Maybe.{◌>>=◌}
use ethtool.Clib.Scan.{scan_hex}

-- `sscanf(s, "%2x%n", ...)`: a number that took exactly two characters, kept as a char.
pub take_byte : List ℕ → Option ℕ
unfolding scan_hex
take_byte s =
    scan_hex s >>= λ r. if length s == length r.rest + 2 then some (r.value % 256) else none

-- The body of the loop up to the byte: `i > key_size - 1` is too long a key.
pub key_byte : ℕ → ℕ → List ℕ → Option ℕ
key_byte key_size i s = if ltb (key_size - 1) i then none else take_byte s

-- The end of the text, after byte i - 1.
abbrev pub key_end : ℕ → ℕ → ℕ → Option (List ℕ)
key_end key_size i v = if i == key_size then some (v ∷ []) else none

-- The loop from byte i on; `none` is the return of 2. A colon may end the text.
pub key_bytes : ℕ → ℕ → List ℕ → Option (List ℕ)
key_bytes key_size i [] = none
key_bytes key_size i (a ∷ []) = none
key_bytes key_size i (a ∷ b ∷ []) = key_byte key_size i (a ∷ b ∷ []) >>= key_end key_size (suc i)
key_bytes key_size i (a ∷ b ∷ c ∷ []) = key_byte key_size i (a ∷ b ∷ c ∷ []) >>= λ v.
    if c == b':' then key_end key_size (suc i) v else none
key_bytes key_size i (a ∷ b ∷ c ∷ d ∷ t) =
    let more = key_bytes key_size (suc i) (d ∷ t) in
    key_byte key_size i (a ∷ b ∷ c ∷ d ∷ t) >>= λ v.
    if c == b':' then (more >>= λ vs. some (v ∷ vs)) else none

pub convert_string_to_hashkey : ℕ → List ℕ → Option (List ℕ)
convert_string_to_hashkey key_size s = key_bytes key_size 0 s

-- The status and the key; malloc is taken to succeed.
pub record Hkey : Type 0 where
  pub status : ℕ
  pub key : Option (List ℕ)

abbrev pub hkey_of : Option (List ℕ) → Hkey
hkey_of none = record { status = 2; key = none }
hkey_of (some key) = record { status = 0; key = some key }

pub parse_hkey : ℕ → List ℕ → Hkey
parse_hkey key_size s =
    if key_size == 0
    then record { status = 1; key = none }
    else hkey_of (convert_string_to_hashkey key_size s)

-- "%02x"
abbrev pub hex_digit : ℕ → ℕ
hex_digit n = if ltb n 10 then b'0' + n else b'a' + (n - 10)

abbrev pub hex_byte : ℕ → List ℕ → List ℕ
hex_byte n s = hex_digit (n / 16) ∷ hex_digit (n % 16) ∷ s

-- The loop that prints the key, without the newline.
pub key_text : List ℕ → List ℕ
key_text [] = []
key_text (v ∷ []) = hex_byte v []
key_text (v ∷ w ∷ vs) = hex_byte v (b':' ∷ key_text (w ∷ vs))
