-- ===== src/Indir/Weights.antt =====
-- fill_indir_table with `weight`.
pub mod Loop
pub mod Sums
use ethtool.Base.{
  ℕ, zero, suc, ◌+◌, ◌-◌, ◌*◌, ◌/◌, ◌%◌, ◌^◌, ◌≤◌, ◌<◌, ◌≡◌, ◌≢◌, ◌⊎◌, inl, inr, refl, sym, ap, ◌∙◌,
  subst, Bool, true, false, not, Option, none, some, List, [], ◌∷◌, ◌++◌, ◌==◌, ==_false, ltb,
  if◌then◌else◌, arith, length, get_or, take, drop, Bool-cases, lt→ltb, ltb→lt,
}
use ethtool.Base.Maybe.{◌>>=◌}
use ethtool.Indir.{
  FillResult, fills, add_u32, threshold, Turn, sum_weights, advance, fill_weights, filled,
  fill_by_sum, fill_without_equal, fill_indir_table,
}
use native.Mathlib.Nat.{mul-le-mul_left, mul-le-mul_right, mul-div_cancel, zero-add}
use Loop.{sum, Reads, prefix, Stops, advance-Stops, sum_weights-sum}
use Sums.{
  prefix-nil, drop-nil, prefix-drop, length-drop, prefix-add, Reads-drop, drop-drop, number_cases,
  threshold_zero, prefix_le, threshold_plain, threshold_all,
}

-- The ring of entry i: the entries before it are for the weights before its weight, and it is in the
-- part of the table that its own weight adds.
pub record IsProportional (size total start : ℕ) (ws : List ℕ) (i entry : ℕ) : Type 0 where
  pub ring : ℕ
  pub in_range : ring < length ws
  pub entry_eq : entry ≡ start + ring
  pub above : size * prefix ring ws / total ≤ i
  pub below : i < size * prefix (suc ring) ws / total

-- The same by the thresholds of the loop.
record IsShare (size total start : ℕ) (ws : List ℕ) (i entry : ℕ) : Type 0 where
  ring : ℕ
  in_range : ring < length ws
  entry_eq : entry ≡ start + ring
  above : threshold size total (prefix ring ws) ≤ i
  below : i < threshold size total (prefix (suc ring) ws)

module _ (size total start : ℕ) (texts : List (List ℕ)) (ws : List ℕ) (reads : Reads texts ws)
    (adds : sum ws ≡ total) (some_weight : 0 < total) (small : total < 2 ^ 32)
    (rings : start + length ws ≤ 2 ^ 32) where
  -- The turn behind k weights, before entry i.
  record IsTurn (i k : ℕ) (t : Turn) : Type 0 where
    left : k ≤ length ws
    ring : t.j ≡ (2 ^ 32 - 1 + k) % 2 ^ 32
    partial : t.partial ≡ prefix k ws
    rest : t.rest ≡ drop k texts
    lower : (k ≡ 0) ⊎ ((r : ℕ) × (k ≡ suc r) × (threshold size total (prefix r ws) ≤ i))

  -- One entry: the turn behind it, its ring and its bounds.
  record Entered (i k : ℕ) (t : Turn) : Type 0 where
    r : ℕ
    turn : Turn
    stops : advance size total start i t.j t.partial t.rest ≡ some turn
    next : IsTurn (i + 1) (suc r) turn
    share : IsShare size total start ws i (add_u32 start turn.j)

  above_one :
      (i k m r : ℕ) (t : Turn)
      → IsTurn i k t
      → k + m ≡ suc r
      → (m ≡ 0)
        ⊎ ((n : ℕ) × (m ≡ suc n) × (threshold size total (t.partial + prefix n (drop k ws)) ≤ i))
      → threshold size total (prefix r ws) ≤ i
  above_one i k m r t ok e (inl none_added) = elim ok.lower [
    | inl first ↦ absurd (omega arith)
    | inr (q, k_eq, le) ↦
        let same : q ≡ r = omega arith in
        subst (λ n. threshold size total (prefix n ws) ≤ i) same le
  ]
  above_one i k m r t ok e (inr (n, m_eq, le)) =
      let same : k + n ≡ r = omega arith in
      let weights : t.partial + prefix n (drop k ws) ≡ prefix r ws =
        ap (λ p. p + prefix n (drop k ws)) ok.partial
        ∙ sym (prefix-add k n ws)
        ∙ ap (λ q. prefix q ws) same in
      subst (λ p. threshold size total p ≤ i) weights le

  enter_at :
      (i k r : ℕ) (t : Turn) (st : Stops size total start i t.j t.partial t.rest (drop k ws))
      → IsTurn i k t
      → k + st.m ≡ suc r
      → Entered i k t
  enter_at i k r t st ok e =
      let weights : t.partial + prefix st.m (drop k ws) ≡ prefix (suc r) ws =
        ap (λ p. p + prefix st.m (drop k ws)) ok.partial
        ∙ sym (prefix-add k st.m ws)
        ∙ ap (λ q. prefix q ws) e in
      let behind : suc r ≤ length ws = omega (arith, st.some_left, length-drop k ws ok.left) in
      let ring : st.turn.j ≡ (2 ^ 32 - 1 + suc r) % 2 ^ 32 = omega (arith, st.ring, ok.ring) in
      let above : threshold size total (prefix r ws) ≤ i = above_one i k st.m r t ok e st.above in
      record {
        r = r;
        turn = st.turn;
        stops = st.stops;
        next = record {
          left = behind;
          ring = ring;
          partial = st.adds ∙ weights;
          rest =
              st.behind
              ∙ ap (drop st.m) ok.rest
              ∙ drop-drop k st.m texts
              ∙ ap (λ q. drop q texts) e;
          lower = inr (r, refl, omega arith);
        };
        share = record {
          ring = r;
          in_range = behind;
          entry_eq = omega arith;
          above = above;
          below = subst (λ p. i < threshold size total p) weights st.below;
        };
      }

  first_weight :
      (i k m : ℕ) (t : Turn)
      → IsTurn i k t
      → k + m ≡ 0
      → i < threshold size total (t.partial + prefix m (drop k ws))
      → ⊥
  first_weight i k m t ok e below =
      let none_taken : k ≡ 0 = omega arith in
      let none_before : t.partial ≡ 0 = ok.partial ∙ ap (λ q. prefix q ws) none_taken in
      let none_added : m ≡ 0 = omega arith in
      let none_now : t.partial + prefix m (drop k ws) ≡ 0 =
        omega (arith, none_before, ap (λ q. prefix q (drop k ws)) none_added) in
      let le : i < threshold size total 0 =
        subst (λ p. i < threshold size total p) none_now below in
      omega (arith, threshold_zero size total some_weight)

  enter : (i k : ℕ) (t : Turn) → IsTurn i k t → i < threshold size total total → Entered i k t
  enter i k t ok below =
      let st : Stops size total start i t.j t.partial t.rest (drop k ws) =
        advance-Stops size total start i t.j t.partial t.rest (drop k ws)
          (subst (λ (l : List (List ℕ)). Reads l (drop k ws)) (sym ok.rest)
            (Reads-drop k texts ws reads))
          (omega (arith, ok.ring)) (omega (arith, ok.partial, prefix-drop k ws)) small below in
      elim (number_cases (k + st.m)) [
        | inl none_added ↦ absurd (first_weight i k st.m t ok none_added st.below)
        | inr (r, e) ↦ enter_at i k r t st ok e
      ]

  -- What the loop writes for n entries from entry i on.
  record Fills (n i : ℕ) (t : Turn) : Type 0 where
    table : List ℕ
    runs : fill_weights size total start n i t ≡ some table
    entries : length table ≡ n
    shares : (q : ℕ) → q < n → IsShare size total start ws (i + q) (get_or table q 0)

  shares_next :
      (n i entry : ℕ) (table : List ℕ)
      → IsShare size total start ws i entry
      → ((q : ℕ) → q < n → IsShare size total start ws (i + 1 + q) (get_or table q 0))
      → (q : ℕ) → q < suc n
      → IsShare size total start ws (i + q) (get_or (entry ∷ table) q 0)
  shares_next n i entry table one others zero h =
      let e : i ≡ i + 0 = omega arith in subst (λ a. IsShare size total start ws a entry) e one
  shares_next n i entry table one others (suc q) h =
      let e : i + 1 + q ≡ i + suc q = omega arith in
      subst (λ a. IsShare size total start ws a (get_or table q 0)) e (others q (omega arith))

  fill_weights-Fills :
      (n i k : ℕ) (t : Turn) → IsTurn i k t → i + n ≤ threshold size total total → Fills n i t
  unfolding fill_weights
  fill_weights-Fills zero i k t ok h = record {
    table = [];
    runs = refl;
    entries = refl;
    shares = λ q below. absurd (omega arith);
  }
  fill_weights-Fills (suc n) i k t ok h =
      let one = enter i k t ok (omega arith) in
      let others = fill_weights-Fills n (i + 1) (suc one.r) one.turn one.next (omega arith) in
      record {
        table = add_u32 start one.turn.j ∷ others.table;
        runs =
            rw one.stops
              (ap (λ o. o >>= λ table. some (add_u32 start one.turn.j ∷ table)) others.runs);
        entries = ap suc others.entries;
        shares = shares_next n i (add_u32 start one.turn.j) others.table one.share others.shares;
      }

proportional :
    (size total start : ℕ) (ws : List ℕ) (i entry : ℕ)
    → sum ws ≡ total
    → size * total < 2 ^ 32
    → IsShare size total start ws i entry
    → IsProportional size total start ws i entry
proportional size total start ws i entry adds small s =
    let first =
      threshold_plain size total (prefix s.ring ws) (omega (arith, prefix_le s.ring ws)) small in
    let second =
      threshold_plain size total (prefix (suc s.ring) ws) (omega (arith, prefix_le (suc s.ring) ws))
        small in
    record {
      ring = s.ring;
      in_range = s.in_range;
      entry_eq = s.entry_eq;
      above = subst (λ n. n ≤ i) first s.above;
      below = subst (λ n. i < n) second s.below;
    }

fills_by_sum :
    (size total start : ℕ) (texts : List (List ℕ)) (table : List ℕ)
    → 0 < total
    → total ≤ size
    → fill_weights size total start size 0 (record { j = 2 ^ 32 - 1; partial = 0; rest = texts })
      ≡ some table
    → fill_by_sum size start texts (some (0 + total)) ≡ fills size table
unfolding fill_by_sum
fills_by_sum size total start texts table some_weight few runs =
    let plain : 0 + total ≡ total = omega arith in
    let not_zero : total ≢ 0 = λ e. omega arith in
    let enough : ltb size total ≡ false = ground arith in
    rw (plain, ==_false total 0 not_zero, enough, runs) refl

-- With `weight` and without `equal`, the arguments being the texts of the weights: if some weight is
-- not 0, their sum is at most the size of the table, size times sum is below 2 ^ 32 and so are the
-- rings, the whole table is written. Each entry i has the ring whose weight covers it: with p the
-- sum of the weights before the ring and p' the sum with its own, size * p / sum ≤ i and
-- i < size * p' / sum.
pub fill_indir_table_weight :
    (size : ℕ) (default : Bool) (start : ℕ) (texts : List (List ℕ)) (ws : List ℕ)
    → Reads texts ws
    → 0 < sum ws
    → sum ws ≤ size
    → size * sum ws < 2 ^ 32
    → start + length ws ≤ 2 ^ 32
    → (table : List ℕ) × (fill_indir_table size default start 0 (some texts) (length ws)
        ≡ fills size table)
      × (length table ≡ size)
      × ((i : ℕ) → i < size → IsProportional size (sum ws) start ws i (get_or table i 0))
unfolding fill_indir_table fill_without_equal fill_by_sum
fill_indir_table_weight size default start texts ws reads some_weight few small rings =
    let one_size : 1 ≤ size = omega arith in
    let total_small : sum ws < 2 ^ 32 = omega (arith, mul-le-mul_right (sum ws) one_size) in
    let all = threshold_all size (sum ws) some_weight small in
    let first : IsTurn size (sum ws) start texts ws reads refl some_weight total_small rings 0 0
        (record { j = 2 ^ 32 - 1; partial = 0; rest = texts }) =
      record { left = omega arith; ring = refl; partial = refl; rest = refl; lower = inl refl } in
    let f =
      fill_weights-Fills size (sum ws) start texts ws reads refl some_weight total_small rings size
        0 0 (record { j = 2 ^ 32 - 1; partial = 0; rest = texts }) first (omega (arith, all)) in
    (
      f.table,
      ap (λ o. fill_by_sum size start texts o) (sum_weights-sum texts ws 0 reads (omega arith))
          ∙ fills_by_sum size (sum ws) start texts f.table some_weight few f.runs,
      f.entries,
      λ i l. proportional size (sum ws) start ws i (get_or f.table i 0) refl small (
          subst (λ a. IsShare size (sum ws) start ws a (get_or f.table i 0)) (zero-add i)
            (f.shares i l)),
    )
