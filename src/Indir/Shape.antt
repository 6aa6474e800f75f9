-- ===== src/Indir/Shape.antt =====
-- fill_indir_table: what size and how many entries it leaves.
use ethtool.Base.{
  ℕ, zero, suc, ◌+◌, ◌≡◌, ◌≢◌, ◌⊎◌, inl, inr, refl, sym, ap, ◌∙◌, Bool, true, false, not, Option,
  none, some, List, [], ◌∷◌, ◌==◌, ltb, arith, length, if_elim,
}
use ethtool.Base.Maybe.{◌>>=◌, >>=-some, some_eq}
use ethtool.Indir.{
  FillResult, exits, refuses, fills, add_u32, indir_no_change, Turn, advance, fill_weights, filled,
  fill_by_sum, fill_without_equal, fill_indir_table, sum_weights,
}
use ethtool.Indir.Equal.{length-fill_equal}

length-fill_weights :
    (size sum start n i : ℕ) (t : Turn) (table : List ℕ)
    → fill_weights size sum start n i t ≡ some table
    → length table ≡ n
unfolding fill_weights
length-fill_weights size sum start zero i t table e = ap length (sym (some_eq e))
length-fill_weights size sum start (suc n) i t table e =
    let (t', _, rest) =
      >>=-some (advance size sum start i t.j t.partial t.rest)
        (λ t'.
          fill_weights size sum start n (i + 1) t' >>= λ tail. some (add_u32 start t'.j ∷ tail))
        e in
    let (tail, filled_eq, same) =
      >>=-some (fill_weights size sum start n (i + 1) t') (λ tail. some (add_u32 start t'.j ∷ tail))
        rest in
    ap length (sym (some_eq same))
    ∙ ap suc (length-fill_weights size sum start n (i + 1) t' tail filled_eq)

-- What was asked for with `equal` or `weight` is a whole table, else there is none.
abbrev pub Shaped : ℕ → Bool → ℕ → Option (List (List ℕ)) → FillResult → Type 0
Shaped size default equal weights exits = Unit
Shaped size default equal weights refuses = Unit
Shaped size default equal weights (fills size' table) =
    ((size' ≡ size)
      × (length table ≡ size)
      × ((equal ≢ 0) ⊎ ((ws : List (List ℕ)) × (weights ≡ some ws))))
    ⊎ ((table ≡ [])
        × (equal ≡ 0)
        × (weights ≡ none)
        × (((size' ≡ 0) × (default ≡ true)) ⊎ ((size' ≡ indir_no_change) × (default ≡ false))))

filled-Shaped :
    (size : ℕ) (default : Bool) (equal : ℕ) (ws : List (List ℕ)) (o : Option (List ℕ))
    → ((table : List ℕ) → o ≡ some table → length table ≡ size)
    → Shaped size default equal (some ws) (filled size o)
filled-Shaped size default equal ws none l = tt
filled-Shaped size default equal ws (some table) l = inl (refl, l table refl, inr (ws, refl))

by_sum-Shaped :
    (size start : ℕ) (default : Bool) (equal : ℕ) (ws : List (List ℕ)) (o : Option ℕ)
    → Shaped size default equal (some ws) (fill_by_sum size start ws o)
unfolding fill_by_sum
by_sum-Shaped size start default equal ws none = tt
by_sum-Shaped size start default equal ws (some sum) =
    if_elim (Shaped size default equal (some ws)) (sum == 0) (λ e. tt)
      (λ e.
        if_elim (Shaped size default equal (some ws)) (ltb size sum) (λ e'. tt)
          (λ e'.
            filled-Shaped size default equal ws _
              (λ table f. length-fill_weights size sum start size 0 _ table f)))

without_equal-Shaped :
    (size : ℕ) (default : Bool) (start equal : ℕ) (weights : Option (List (List ℕ)))
    (num_weights : ℕ)
    → equal ≡ 0
    → Shaped size default equal weights (fill_without_equal size default start weights num_weights)
unfolding fill_without_equal
without_equal-Shaped size default start equal (some ws) num_weights e =
    by_sum-Shaped size start default equal ws (sum_weights num_weights ws 0)
without_equal-Shaped size true start equal none num_weights e =
    inr (refl, e, refl, inl (refl, refl))
without_equal-Shaped size false start equal none num_weights e =
    inr (refl, e, refl, inr (refl, refl))

pub fill_indir_table-Shaped :
    (size : ℕ) (default : Bool) (start equal : ℕ) (weights : Option (List (List ℕ)))
    (num_weights : ℕ)
    → Shaped size default equal weights
        (fill_indir_table size default start equal weights num_weights)
unfolding fill_indir_table
fill_indir_table-Shaped size default start equal weights num_weights =
    if_elim (Shaped size default equal weights) (not (equal == 0))
      (λ e. inl (refl, length-fill_equal start equal size 0, inl (λ z. ground arith)))
      (λ e. without_equal-Shaped size default start equal weights num_weights (ground arith))
