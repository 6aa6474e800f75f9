-- ===== src/Indir/Equal.antt =====
-- fill_indir_table with `equal`.
use ethtool.Base.{
  ℕ, zero, suc, ◌+◌, ◌%◌, ◌^◌, ◌≤◌, ◌<◌, ◌≡◌, ◌≢◌, refl, ap, ◌∙◌, Bool, Option, List, ==_false,
  arith, length, get_or,
}
use ethtool.Indir.{fills, fill_equal, fill_indir_table, add_u32}

pub length-fill_equal : (start equal n i : ℕ) → length (fill_equal start equal n i) ≡ n
unfolding fill_equal
length-fill_equal start equal zero i = refl
length-fill_equal start equal (suc n) i = omega (arith, length-fill_equal start equal n (i + 1))

get_or-fill_equal :
    (start equal n i k : ℕ)
    → k < n
    → get_or (fill_equal start equal n i) k 0 ≡ add_u32 start ((i + k) % equal)
unfolding fill_equal
get_or-fill_equal start equal zero i k h = elim h [ ]
get_or-fill_equal start equal (suc n) i zero h =
    let e : i ≡ i + 0 = omega arith in ap (λ m. add_u32 start (m % equal)) e
get_or-fill_equal start equal (suc n) i (suc k) h =
    let e : i + 1 + k ≡ i + suc k = omega arith in
    get_or-fill_equal start equal n (i + 1) k (omega arith) ∙ ap (λ m. add_u32 start (m % equal)) e

wraps :
    (start equal i : ℕ)
    → equal ≢ 0
    → start + equal ≤ 2 ^ 32
    → add_u32 start ((0 + i) % equal) ≡ start + i % equal
wraps start equal i some_rings few =
    let e : 0 + i ≡ i = omega arith in
    let below : i % equal < equal = grind arith in rw e (omega arith)

-- With `equal` n, n not 0, the whole table is written, whatever the other options say, and its
-- entries go round the n rings from `start` on; a ring number below 2 ^ 32 is the sum itself.
pub fill_indir_table_equal :
    (size : ℕ) (default : Bool) (start equal : ℕ) (weights : Option (List (List ℕ)))
    (num_weights : ℕ)
    → equal ≢ 0
    → start + equal ≤ 2 ^ 32
    → (table : List ℕ) × (fill_indir_table size default start equal weights num_weights
        ≡ fills size table)
      × (length table ≡ size)
      × ((i : ℕ) → i < size → get_or table i 0 ≡ start + i % equal)
unfolding fill_indir_table
fill_indir_table_equal size default start equal weights num_weights some_rings few = (
  fill_equal start equal size 0,
  rw (==_false equal 0 some_rings),
  length-fill_equal start equal size 0,
  λ i l. get_or-fill_equal start equal size 0 i l ∙ wraps start equal i some_rings few,
)
