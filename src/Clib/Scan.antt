-- ===== src/Clib/Scan.antt =====
-- sscanf's conversion `%2x`, and the format "%2x:%2x:%2x:%2x:%2x:%2x" of both MAC address parsers.
use ethtool.Base.{
  ℕ, zero, suc, ◌+◌, ◌-◌, ◌*◌, ◌^◌, ◌%◌, ◌&&◌, ◌||◌, Option, none, some, List, [], ◌∷◌, ◌==◌, ltb,
  if◌then◌else◌,
}
use ethtool.Clib.Strto.{skip_space, digit_value}

-- The `unsigned int` that was read, and the input behind it.
pub record Scanned : Type 0 where
  pub value : ℕ
  pub rest : List ℕ

-- At most two characters: a sign and a digit, or one or two digits. A lone sign and the prefix
-- `0x` match no number.
unfoldable pub scan_two : List ℕ → Option Scanned
scan_two [] = none
scan_two (c ∷ []) =
    if ltb (digit_value c) 16 then some (record { value = digit_value c; rest = [] }) else none
scan_two (c ∷ d ∷ s) =
    if ltb (digit_value c) 16
    then if ltb (digit_value d) 16
      then some (record { value = digit_value c * 16 + digit_value d; rest = s })
      else if c == b'0' && (d == b'x' || d == b'X')
      then none
      else some (record { value = digit_value c; rest = d ∷ s })
    else if (c == b'+' || c == b'-') && ltb (digit_value d) 16
    then some (record {
      value = if c == b'-' then (2 ^ 32 - digit_value d) % 2 ^ 32 else digit_value d;
      rest = s;
    })
    else none

-- `%2x`
unfoldable pub scan_hex : List ℕ → Option Scanned
unfolding scan_two skip_space
scan_hex s = scan_two (skip_space s)

-- `n` conversions with a colon between them: the values, up to the first mismatch.
unfoldable pub scan_colons : ℕ → List ℕ → List ℕ
unfolding scan_hex
scan_colons zero s = []
scan_colons (suc n) s = elim (scan_hex s) [
  | none ↦ []
  | some r ↦ r.value ∷ elim r.rest [
    | [] ↦ []
    | c ∷ t ↦ let more = scan_colons n t in if c == b':' then more else []
  ]
]
