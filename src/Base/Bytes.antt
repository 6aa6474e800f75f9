-- ===== src/Base/Bytes.antt =====
-- Memory as a list of bytes: little-endian numbers, loads and stores of a run of bytes.
use ethtool.Base.Lists.{length, get_or, set, length-set, get_or-set_self, get_or-set_ne}
use Prim.Native.Nat.{ℕ, zero, suc, ◌+◌, ◌*◌, ◌/◌, ◌%◌, ◌^◌, ◌≤◌, ◌<◌}
use mathlib.Core.Path.{◌≡◌, refl, ap, ap₂, ◌∙◌}
use mathlib.Core.Logic.{◌⊎◌}
use mathlib.Core.List.{List, [], ◌∷◌}
use native.Mathlib.Omega.{arith}
use native.Mathlib.Nat.{pow-suc}

-- The `n` low bytes of a number, the lowest first.
abbrev pub le_bytes : ℕ → ℕ → List ℕ
le_bytes zero v = []
le_bytes (suc n) v = (v % 256) ∷ le_bytes n (v / 256)

-- The same bytes, the highest first: `htons`, `htonl` and `htonll` on a little-endian host.
abbrev pub be_bytes : ℕ → ℕ → List ℕ
be_bytes zero v = []
be_bytes (suc n) v = (v / 256 ^ n % 256) ∷ be_bytes n v

abbrev pub le_value : List ℕ → ℕ
le_value [] = 0
le_value (b ∷ bs) = b + 256 * le_value bs

-- `n` bytes from `off`; a byte out of range reads as 0.
abbrev pub load : List ℕ → ℕ → ℕ → List ℕ
load buf off zero = []
load buf off (suc n) = get_or buf off 0 ∷ load buf (off + 1) n

abbrev pub store : List ℕ → ℕ → List ℕ → List ℕ
store buf off [] = buf
store buf off (b ∷ bs) = store (set buf off b) (off + 1) bs

pub length-le_bytes : (n v : ℕ) → length (le_bytes n v) ≡ n
length-le_bytes zero v = refl
length-le_bytes (suc n) v = ap suc (length-le_bytes n (v / 256))

pub length-be_bytes : (n v : ℕ) → length (be_bytes n v) ≡ n
length-be_bytes zero v = refl
length-be_bytes (suc n) v = ap suc (length-be_bytes n v)

pub le_value-le_bytes : (n v : ℕ) → v < 256 ^ n → le_value (le_bytes n v) ≡ v
le_value-le_bytes zero v h = omega arith
le_value-le_bytes (suc n) v h =
    omega (arith, le_value-le_bytes n (v / 256) (omega (arith, pow-suc 256 n)))

pub length-store : (buf : List ℕ) (off : ℕ) (bs : List ℕ) → length (store buf off bs) ≡ length buf
length-store buf off [] = refl
length-store buf off (b ∷ bs) = length-store (set buf off b) (off + 1) bs ∙ length-set buf off b

-- A store leaves the bytes outside its range.
pub get_or-store_outside :
    (buf : List ℕ) (off : ℕ) (bs : List ℕ) (i : ℕ)
    → (i < off) ⊎ (off + length bs ≤ i)
    → get_or (store buf off bs) i 0 ≡ get_or buf i 0
get_or-store_outside buf off [] i h = refl
get_or-store_outside buf off (b ∷ bs) i h =
    get_or-store_outside (set buf off b) (off + 1) bs i (omega arith)
    ∙ get_or-set_ne buf off i b 0 (omega arith)

pub load-store_disjoint :
    (buf : List ℕ) (off : ℕ) (bs : List ℕ) (o n : ℕ)
    → (o + n ≤ off) ⊎ (off + length bs ≤ o)
    → load (store buf off bs) o n ≡ load buf o n
load-store_disjoint buf off bs o zero h = refl
load-store_disjoint buf off bs o (suc n) h =
    ap₂ ◌∷◌ (get_or-store_outside buf off bs o (omega arith))
      (load-store_disjoint buf off bs (o + 1) n (omega arith))

-- A load gives back what was stored.
pub load-store :
    (buf : List ℕ) (off : ℕ) (bs : List ℕ)
    → off + length bs ≤ length buf
    → load (store buf off bs) off (length bs) ≡ bs
load-store buf off [] h = refl
load-store buf off (b ∷ bs) h =
    ap₂ ◌∷◌
      (get_or-store_outside (set buf off b) (off + 1) bs off (omega arith)
        ∙ get_or-set_self buf off b 0 (omega arith))
      (load-store (set buf off b) (off + 1) bs (omega (arith, length-set buf off b)))

-- A number that is loaded from bytes fits as many.
pub le_value-load_lt :
    (buf : List ℕ) (off n : ℕ)
    → ((i : ℕ) → get_or buf i 0 < 256)
    → le_value (load buf off n) < 256 ^ n
le_value-load_lt buf off zero h = omega arith
le_value-load_lt buf off (suc n) h =
    omega (arith, le_value-load_lt buf (off + 1) n h, h off, pow-suc 256 n)
