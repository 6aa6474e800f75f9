-- ===== src/Indir.antt =====
-- ethtool.c, fill_indir_table: the indirection table of the receive hash. `weights` is what
-- rxfhindir_weight points to, the arguments from the first weight to the end; behind them stands a
-- null pointer, at which get_u32 leaves the program.
pub mod Equal
pub mod Weights
pub mod Shape
use ethtool.Base.{
  ℕ, zero, suc, ◌+◌, ◌-◌, ◌*◌, ◌/◌, ◌%◌, ◌^◌, Bool, true, false, not, Option, none, some, List, [],
  ◌∷◌, ◌==◌, ltb, if◌then◌else◌,
}
use ethtool.Base.Maybe.{◌>>=◌}
use ethtool.Cmdline.{get_u32}

-- The program left by exit_bad_args, 2 was returned, or `*indir_size` and the entries that were
-- written.
pub data FillResult : Type 0 where
  exits : FillResult
  refuses : FillResult
  fills : ℕ → List ℕ → FillResult

abbrev pub add_u32 : ℕ → ℕ → ℕ
add_u32 a b = (a + b) % 2 ^ 32

abbrev pub indir_no_change : ℕ
indir_no_change = 0xffffffff

-- The loop for `equal`, with the rounds left.
unfoldable pub fill_equal : ℕ → ℕ → ℕ → ℕ → List ℕ
fill_equal start equal zero i = []
fill_equal start equal (suc n) i = add_u32 start (i % equal) ∷ fill_equal start equal n (i + 1)

-- The loop that adds the weights.
pub sum_weights : ℕ → List (List ℕ) → ℕ → Option ℕ
sum_weights zero weights sum = some sum
sum_weights (suc n) [] sum = none
sum_weights (suc n) (w ∷ weights) sum = do
  weight ← get_u32 w
  sum_weights n weights (add_u32 sum weight)

-- `j`, `partial` and the weights from `j + 1` on.
pub record Turn : Type 0 where
  pub j : ℕ
  pub partial : ℕ
  pub rest : List (List ℕ)

-- `(*indir_size) * partial / sum`
abbrev pub threshold : ℕ → ℕ → ℕ → ℕ
threshold size sum partial = size * partial % 2 ^ 32 / sum

module _ (size sum start : ℕ) where
  -- `while (i >= threshold) { j += 1; partial += weights[j]; }`
  pub advance : ℕ → ℕ → ℕ → List (List ℕ) → Option Turn
  advance i j partial [] =
      if ltb i (threshold size sum partial)
      then some (record { j = j; partial = partial; rest = [] })
      else none
  advance i j partial (w ∷ rest) =
      let more = get_u32 w >>= λ weight. advance i (add_u32 j 1) (add_u32 partial weight) rest in
      if ltb i (threshold size sum partial)
      then some (record { j = j; partial = partial; rest = w ∷ rest })
      else more

  pub fill_weights : ℕ → ℕ → Turn → Option (List ℕ)
  fill_weights zero i t = some []
  fill_weights (suc n) i t = do
    t' ← advance i t.j t.partial t.rest
    table ← fill_weights n (i + 1) t'
    some (add_u32 start t'.j ∷ table)

abbrev pub filled : ℕ → Option (List ℕ) → FillResult
filled size none = exits
filled size (some table) = fills size table

pub fill_by_sum : ℕ → ℕ → List (List ℕ) → Option ℕ → FillResult
fill_by_sum size start weights none = exits
fill_by_sum size start weights (some sum) =
    if sum == 0
    then refuses
    else if ltb size sum
    then refuses
    else filled size (
        fill_weights size sum start size 0 (record { j = 2 ^ 32 - 1; partial = 0; rest = weights }))

pub fill_without_equal : ℕ → Bool → ℕ → Option (List (List ℕ)) → ℕ → FillResult
fill_without_equal size default start (some weights) num_weights =
    fill_by_sum size start weights (sum_weights num_weights weights 0)
fill_without_equal size default start none num_weights =
    if default then fills 0 [] else fills indir_no_change []

unfoldable pub fill_indir_table : ℕ → Bool → ℕ → ℕ → Option (List (List ℕ)) → ℕ → FillResult
unfolding fill_without_equal
fill_indir_table size default start equal weights num_weights =
    if not (equal == 0)
    then fills size (fill_equal start equal size 0)
    else fill_without_equal size default start weights num_weights
