-- ===== src/Bitmap.antt =====
-- internal.h, set_bit, clear_bit and test_bit: bitmaps in an array of 64-bit longs.
pub mod Laws
use ethtool.Base.{
  ℕ, ◌/◌, ◌%◌, ◌^◌, ◌<◌, bit_and, bit_or, Bool, not, List, [], length, get_or, set, ◌==◌, ltb,
  if◌then◌else◌,
}
use ethtool.Base.Bits.{bit_not}

-- `sizeof(long)` is 8.
abbrev pub bits_per_long : ℕ
bits_per_long = 64

-- `1UL << (nr % BITS_PER_LONG)`
abbrev pub flag_of : ℕ → ℕ
flag_of nr = 2 ^ (nr % bits_per_long)

-- A write outside the array is undefined in C: here the array is lost by it, and has no element that
-- could be read any more.
unfoldable pub set_bit : ℕ → List ℕ → List ℕ
set_bit nr addr =
    if ltb (nr / bits_per_long) (length addr)
    then set addr (nr / bits_per_long) (bit_or (get_or addr (nr / bits_per_long) 0) (flag_of nr))
    else []

unfoldable pub clear_bit : ℕ → List ℕ → List ℕ
clear_bit nr addr =
    if ltb (nr / bits_per_long) (length addr)
    then set addr (nr / bits_per_long)
        (bit_and (get_or addr (nr / bits_per_long) 0) (bit_not 64 (flag_of nr)))
    else []

-- The test on the long that holds the bit.
unfoldable pub test_long : ℕ → ℕ → Bool
test_long nr long = not (bit_and (flag_of nr) long == 0)

unfoldable pub test_bit : ℕ → List ℕ → Bool
test_bit nr addr = test_long nr (get_or addr (nr / bits_per_long) 0)

-- Every element of the array fits its long.
abbrev pub IsLongs : List ℕ → Type 0
IsLongs addr = (i : ℕ) → get_or addr i 0 < 2 ^ 64
