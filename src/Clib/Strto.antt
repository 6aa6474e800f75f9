-- ===== src/Clib/Strto.antt =====
-- strtoull and strtoll with base 0, and strtoll with base 10, over a 64-bit `long long`.
use ethtool.Base.{
  ℕ, ◌+◌, ◌-◌, ◌*◌, ◌^◌, ◌%◌, Bool, true, false, ◌&&◌, ◌||◌, List, [], ◌∷◌, ◌==◌, ltb, leb,
  if◌then◌else◌,
}
use ethtool.Base.Int.{ℤ, pos, negsuc}

-- `isspace` in the C locale.
abbrev pub is_space : ℕ → Bool
is_space c = c == b' ' || leb 9 c && leb c 13

unfoldable pub skip_space : List ℕ → List ℕ
skip_space [] = []
skip_space (c ∷ s) = if is_space c then skip_space s else c ∷ s

-- The value of a digit in any base up to 16, or 16 if the character is none.
abbrev pub digit_value : ℕ → ℕ
digit_value c =
    if leb b'0' c && leb c b'9'
    then c - b'0'
    else if leb b'a' c && leb c b'f'
    then c - b'a' + 10
    else if leb b'A' c && leb c b'F'
    then c - b'A' + 10
    else 16

-- The number that the digits at the front spell, and what follows them.
pub record Digits : Type 0 where
  pub value : ℕ
  pub rest : List ℕ

unfoldable pub read_digits : ℕ → ℕ → List ℕ → Digits
read_digits base acc [] = record { value = acc; rest = [] }
read_digits base acc (c ∷ s) =
    let more = read_digits base (acc * base + digit_value c) s in
    if ltb (digit_value c) base then more else record { value = acc; rest = c ∷ s }

-- The magnitude, where the parse ended, and whether there was a digit at all.
pub record Magnitude : Type 0 where
  pub found : Bool
  pub value : ℕ
  pub rest : List ℕ

abbrev from_digits : Digits → Magnitude
from_digits d = record { found = true; value = d.value; rest = d.rest }

-- Base 0: a prefix `0x` before a hexadecimal digit is base 16, a leading `0` base 8, else base 10.
unfoldable pub magnitude : List ℕ → Magnitude
unfolding read_digits
magnitude [] = record { found = false; value = 0; rest = [] }
magnitude (c ∷ []) =
    if ltb (digit_value c) 10
    then record { found = true; value = digit_value c; rest = [] }
    else record { found = false; value = 0; rest = c ∷ [] }
magnitude (c ∷ d ∷ []) =
    if ltb (digit_value c) 10
    then from_digits (read_digits (if c == b'0' then 8 else 10) 0 (c ∷ d ∷ []))
    else record { found = false; value = 0; rest = c ∷ d ∷ [] }
magnitude (c ∷ d ∷ e ∷ s) =
    if c == b'0' && (d == b'x' || d == b'X') && ltb (digit_value e) 16
    then from_digits (read_digits 16 0 (e ∷ s))
    else if ltb (digit_value c) 10
    then from_digits (read_digits (if c == b'0' then 8 else 10) 0 (c ∷ d ∷ e ∷ s))
    else record { found = false; value = 0; rest = c ∷ d ∷ e ∷ s }

-- A sign, and what follows it.
unfoldable pub is_minus : List ℕ → Bool
is_minus [] = false
is_minus (c ∷ s) = c == b'-'

unfoldable pub skip_sign : List ℕ → List ℕ
skip_sign [] = []
skip_sign (c ∷ s) = if c == b'-' || c == b'+' then s else c ∷ s

-- The result, the characters from `endp` on, and whether `errno` was set to ERANGE. With no digit
-- the result is 0 and `endp` is the start of the text.
pub record Unsigned : Type 0 where
  pub value : ℕ
  pub rest : List ℕ
  pub erange : Bool

unfoldable pub strtoull : List ℕ → Unsigned
unfolding skip_space magnitude is_minus skip_sign
strtoull str =
    let s = skip_space str in
    let m = magnitude (skip_sign s) in
    if m.found
    then if leb (2 ^ 64) m.value
      then record { value = 2 ^ 64 - 1; rest = m.rest; erange = true }
      else record {
        value = if is_minus s then (2 ^ 64 - m.value) % 2 ^ 64 else m.value;
        rest = m.rest;
        erange = false;
      }
    else record { value = 0; rest = str; erange = false }

pub record Signed : Type 0 where
  pub value : ℤ
  pub rest : List ℕ
  pub erange : Bool

-- `-n` for a magnitude n.
abbrev pub negated : ℕ → ℤ
negated n = if n == 0 then pos 0 else negsuc (n - 1)

-- Base 10: no prefix.
unfoldable pub magnitude10 : List ℕ → Magnitude
unfolding read_digits
magnitude10 [] = record { found = false; value = 0; rest = [] }
magnitude10 (c ∷ s) =
    if ltb (digit_value c) 10
    then from_digits (read_digits 10 0 (c ∷ s))
    else record { found = false; value = 0; rest = c ∷ s }

abbrev signed_of : List ℕ → List ℕ → Magnitude → Signed
signed_of str s m =
    if m.found
    then if is_minus s
      then if ltb (2 ^ 63) m.value
        then record { value = negsuc (2 ^ 63 - 1); rest = m.rest; erange = true }
        else record { value = negated m.value; rest = m.rest; erange = false }
      else if leb (2 ^ 63) m.value
      then record { value = pos (2 ^ 63 - 1); rest = m.rest; erange = true }
      else record { value = pos m.value; rest = m.rest; erange = false }
    else record { value = pos 0; rest = str; erange = false }

unfoldable pub strtoll : List ℕ → Signed
unfolding skip_space magnitude skip_sign
strtoll str = let s = skip_space str in signed_of str s (magnitude (skip_sign s))

unfoldable pub strtoll10 : List ℕ → Signed
unfolding skip_space magnitude10 skip_sign
strtoll10 str = let s = skip_space str in signed_of str s (magnitude10 (skip_sign s))
