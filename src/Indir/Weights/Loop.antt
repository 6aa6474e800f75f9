-- ===== src/Indir/Weights/Loop.antt =====
-- The loop over the weights: where it stops for an entry.
use ethtool.Base.{
  ℕ, suc, ◌+◌, ◌%◌, ◌^◌, ◌≤◌, ◌<◌, ◌≡◌, ◌⊎◌, inl, inr, refl, ap, ◌∙◌, subst, false, some, List, [],
  ◌∷◌, ltb, arith, length, take, drop, Bool-cases, lt→ltb, ltb→lt,
}
use ethtool.Base.Maybe.{◌>>=◌}
use ethtool.Cmdline.{get_u32}
use ethtool.Indir.{add_u32, threshold, Turn, sum_weights, advance}

abbrev pub sum : List ℕ → ℕ
sum [] = 0
sum (w ∷ ws) = w + sum ws

-- The arguments begin with the texts of these weights.
abbrev pub Reads : List (List ℕ) → List ℕ → Type 0
Reads texts [] = Unit
Reads [] (w ∷ ws) = ⊥
Reads (text ∷ texts) (w ∷ ws) = (get_u32 text ≡ some w) × Reads texts ws

pub sum_weights-sum :
    (texts : List (List ℕ)) (ws : List ℕ) (acc : ℕ)
    → Reads texts ws
    → acc + sum ws < 2 ^ 32
    → sum_weights (length ws) texts acc ≡ some (acc + sum ws)
unfolding sum_weights
sum_weights-sum texts [] acc r h = ap some (omega arith)
sum_weights-sum [] (w ∷ ws) acc r h = elim r [ ]
sum_weights-sum (text ∷ texts) (w ∷ ws) acc r h =
    let e : add_u32 acc w ≡ acc + w = omega arith in
    rw (r.0, e) (sum_weights-sum texts ws (acc + w) r.1 (omega arith) ∙ ap some (omega arith))

-- The first weights that are added up, for a turn behind k of them.
abbrev pub prefix : ℕ → List ℕ → ℕ
prefix k ws = sum (take k ws)

module _ (size total start : ℕ) where
  -- Where the loop over the weights stops, for an entry i: m more weights are added.
  pub record Stops (i j partial : ℕ) (texts : List (List ℕ)) (ws : List ℕ) : Type 0 where
    pub m : ℕ
    pub turn : Turn
    pub some_left : m ≤ length ws
    pub stops : advance size total start i j partial texts ≡ some turn
    pub ring : turn.j ≡ (j + m) % 2 ^ 32
    pub adds : turn.partial ≡ partial + prefix m ws
    pub behind : turn.rest ≡ drop m texts
    pub below : i < threshold size total (partial + prefix m ws)
    pub above :
        (m ≡ 0) ⊎ ((k : ℕ) × (m ≡ suc k) × (threshold size total (partial + prefix k ws) ≤ i))

  stop_now :
      (i j partial : ℕ) (texts : List (List ℕ))
      → i < threshold size total partial
      → advance size total start i j partial texts
        ≡ some (record { j = j; partial = partial; rest = texts })
  unfolding advance
  stop_now i j partial [] h = rw (lt→ltb i _ h)
  stop_now i j partial (text ∷ texts) h = rw (lt→ltb i _ h)

  Stops-now :
      (i j partial : ℕ) (texts : List (List ℕ)) (ws : List ℕ)
      → j < 2 ^ 32
      → i < threshold size total partial
      → Stops i j partial texts ws
  Stops-now i j partial texts ws jl h =
      let e : partial ≡ partial + 0 = omega arith in
      record {
        m = 0;
        turn = record { j = j; partial = partial; rest = texts };
        some_left = omega arith;
        stops = stop_now i j partial texts h;
        ring = omega arith;
        adds = e;
        behind = refl;
        below = subst (λ p. i < threshold size total p) e h;
        above = inl refl;
      }

  advance_more :
      (i j partial w : ℕ) (text : List ℕ) (texts : List (List ℕ))
      → get_u32 text ≡ some w
      → ltb i (threshold size total partial) ≡ false
      → advance size total start i j partial (text ∷ texts)
        ≡ advance size total start i (add_u32 j 1) (add_u32 partial w) texts
  unfolding advance
  advance_more i j partial w text texts read more = rw more (
      ap
        (λ o.
          o >>= λ weight. advance size total start i (add_u32 j 1) (add_u32 partial weight) texts)
        read)

  last :
      (i partial w m : ℕ) (ws : List ℕ)
      → ltb i (threshold size total partial) ≡ false
      → (m ≡ 0) ⊎ ((k : ℕ) × (m ≡ suc k) × (threshold size total (partial + w + prefix k ws) ≤ i))
      → threshold size total (partial + prefix m (w ∷ ws)) ≤ i
  last i partial w m ws more (inl none_left) =
      let le : threshold size total partial ≤ i = ground arith in
      let e : partial ≡ partial + prefix m (w ∷ ws) =
        omega (arith, ap (λ n. prefix n (w ∷ ws)) none_left) in
      subst (λ p. threshold size total p ≤ i) e le
  last i partial w m ws more (inr (k, e, le)) =
      let regroup : partial + w + prefix k ws ≡ partial + prefix m (w ∷ ws) =
        omega (arith, ap (λ n. prefix n (w ∷ ws)) e) in
      subst (λ p. threshold size total p ≤ i) regroup le

  pub advance-Stops :
      (i j partial : ℕ) (texts : List (List ℕ)) (ws : List ℕ)
      → Reads texts ws
      → j < 2 ^ 32
      → partial + sum ws ≡ total
      → total < 2 ^ 32
      → i < threshold size total total
      → Stops i j partial texts ws
  advance-Stops i j partial texts [] r jl e t h =
      let all : total ≡ partial = omega arith in
      Stops-now i j partial texts [] jl (subst (λ p. i < threshold size total p) all h)
  advance-Stops i j partial [] (w ∷ ws) r jl e t h = elim r [ ]
  advance-Stops i j partial (text ∷ texts) (w ∷ ws) r jl e t h =
      elim (Bool-cases (ltb i (threshold size total partial))) [
        | inl stop ↦ Stops-now i j partial (text ∷ texts) (w ∷ ws) jl (ltb→lt i _ stop)
        | inr more ↦
            let next : add_u32 j 1 < 2 ^ 32 = omega arith in
            let adds : add_u32 partial w ≡ partial + w = omega arith in
            let ih =
              advance-Stops i (add_u32 j 1) (partial + w) texts ws r.1 next (omega arith) t h in
            let step : advance size total start i j partial (text ∷ texts)
                ≡ advance size total start i (add_u32 j 1) (partial + w) texts =
              advance_more i j partial w text texts r.0 more
              ∙ ap (λ p. advance size total start i (add_u32 j 1) p texts) adds in
            let regroup : partial + w + prefix ih.m ws ≡ partial + (w + prefix ih.m ws) =
              omega arith in
            record {
              m = suc ih.m;
              turn = ih.turn;
              some_left = omega (arith, ih.some_left);
              stops = step ∙ ih.stops;
              ring = omega (arith, ih.ring);
              adds = ih.adds ∙ regroup;
              behind = ih.behind;
              below = subst (λ p. i < threshold size total p) regroup ih.below;
              above = inr (ih.m, refl, last i partial w ih.m ws more ih.above);
            }
      ]
