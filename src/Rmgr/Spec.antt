-- ===== src/Rmgr/Spec.antt =====
-- What the search for a location is to find, and the invariant of the rule manager.
use ethtool.Base.{
  ℕ, zero, suc, ◌+◌, ◌-◌, ◌/◌, ◌%◌, ◌^◌, ◌≤◌, ◌<◌, ◌≡◌, false, List, length, Option, none, some,
  if◌then◌else◌, ◌==◌, ◌&&◌,
}
use ethtool.Bitmap.{bits_per_long, test_bit, IsLongs}

-- `BITS_TO_LONGS(nr)`
abbrev pub bits_to_longs : ℕ → ℕ
bits_to_longs nr = (nr + bits_per_long - 1) / bits_per_long

-- The greatest location below a bound whose bit is clear.
unfoldable pub last_free : ℕ → List ℕ → Option ℕ
last_free zero slot = none
last_free (suc n) slot = if test_bit n slot then last_free n slot else some n

-- The bitmap fits the table: its length, its longs, and no bit beyond the table's end.
pub record IsBitmap (slot : List ℕ) (size : ℕ) : Type 0 where
  pub fits : length slot ≡ bits_to_longs size
  pub longs : IsLongs slot
  pub clear : (loc : ℕ) → size ≤ loc → test_bit loc slot ≡ false
  pub positive : 0 < size
  pub bounded : size < 2 ^ 32

-- Where the search starts: the table's end, but a long lower if the table ends at a long's end
-- and the lowest bit of its last long is set.
abbrev pub search_top : ℕ → List ℕ → ℕ
search_top size slot =
    if size % bits_per_long == 0 && test_bit (size - bits_per_long) slot
    then size - bits_per_long
    else size
