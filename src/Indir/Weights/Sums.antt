-- ===== src/Indir/Weights/Sums.antt =====
-- Sums of the first weights, and the thresholds of the loop.
use ethtool.Base.{
  ℕ, zero, suc, ◌+◌, ◌*◌, ◌/◌, ◌%◌, ◌^◌, ◌≤◌, ◌<◌, ◌≡◌, ◌⊎◌, inl, inr, refl, sym, ap, ◌∙◌, List, [],
  ◌∷◌, arith, length, drop,
}
use ethtool.Indir.{threshold}
use native.Mathlib.Nat.{mul-le-mul_left, mul-div_cancel}
use ethtool.Indir.Weights.Loop.{sum, Reads, prefix}

pub prefix-nil : (k : ℕ) → prefix k [] ≡ 0
prefix-nil zero = refl
prefix-nil (suc k) = refl

pub drop-nil {ℓ} : {A : Type ℓ} (k : ℕ) → drop {A = A} k [] ≡ []
drop-nil zero = refl
drop-nil (suc k) = refl

pub prefix-drop : (k : ℕ) (ws : List ℕ) → prefix k ws + sum (drop k ws) ≡ sum ws
prefix-drop zero ws = omega arith
prefix-drop (suc k) [] = refl
prefix-drop (suc k) (w ∷ ws) = omega (arith, prefix-drop k ws)

pub length-drop : (k : ℕ) (ws : List ℕ) → k ≤ length ws → k + length (drop k ws) ≡ length ws
length-drop zero ws h = omega arith
length-drop (suc k) [] h = absurd (omega arith)
length-drop (suc k) (w ∷ ws) h = omega (arith, length-drop k ws (omega arith))

pub prefix-add : (k m : ℕ) (ws : List ℕ) → prefix (k + m) ws ≡ prefix k ws + prefix m (drop k ws)
prefix-add zero m ws = let e : 0 + m ≡ m = omega arith in ap (λ n. prefix n ws) e ∙ omega arith
prefix-add (suc k) m [] = omega (arith, prefix-nil (suc k + m), prefix-nil m)
prefix-add (suc k) m (w ∷ ws) =
    let e : suc k + m ≡ suc (k + m) = omega arith in
    ap (λ n. prefix n (w ∷ ws)) e ∙ omega (arith, prefix-add k m ws)

pub Reads-drop :
    (k : ℕ) (texts : List (List ℕ)) (ws : List ℕ)
    → Reads texts ws
    → Reads (drop k texts) (drop k ws)
Reads-drop zero texts ws r = r
Reads-drop (suc k) texts [] r = tt
Reads-drop (suc k) [] (w ∷ ws) r = elim r [ ]
Reads-drop (suc k) (text ∷ texts) (w ∷ ws) r = Reads-drop k texts ws r.1

pub drop-drop {ℓ} : {A : Type ℓ} (k m : ℕ) (xs : List A) → drop m (drop k xs) ≡ drop (k + m) xs
drop-drop zero m xs = let e : m ≡ 0 + m = omega arith in ap (λ n. drop n xs) e
drop-drop (suc k) m [] = drop-nil m ∙ sym (drop-nil (suc k + m))
drop-drop (suc k) m (x ∷ xs) =
    let e : suc (k + m) ≡ suc k + m = omega arith in drop-drop k m xs ∙ ap (λ n. drop n (x ∷ xs)) e

pub number_cases : (n : ℕ) → (n ≡ 0) ⊎ ((r : ℕ) × (n ≡ suc r))
number_cases zero = inl refl
number_cases (suc r) = inr (r, refl)

pub threshold_zero : (size total : ℕ) → 0 < total → threshold size total 0 ≡ 0
threshold_zero size total h = grind arith

pub prefix_le : (k : ℕ) (ws : List ℕ) → prefix k ws ≤ sum ws
prefix_le k ws = omega (arith, prefix-drop k ws)

pub threshold_plain :
    (size total p : ℕ)
    → p ≤ total
    → size * total < 2 ^ 32
    → threshold size total p ≡ size * p / total
threshold_plain size total p le small =
    let below : size * p ≤ size * total = mul-le-mul_left size le in
    let fits : size * p % 2 ^ 32 ≡ size * p = omega arith in ap (λ n. n / total) fits

pub threshold_all :
    (size total : ℕ) → 0 < total → size * total < 2 ^ 32 → threshold size total total ≡ size
threshold_all size total h small =
    threshold_plain size total total (omega arith) small ∙ mul-div_cancel size h
