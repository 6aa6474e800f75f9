-- ===== src/Feature/Pattern.antt =====
-- get_feature_defs: which names a pattern matches.
use ethtool.Base.{
  ℕ, zero, suc, ◌+◌, ◌-◌, ◌≤◌, ◌≡◌, ◌↔◌, inl, inr, refl, sym, ap, ap₂, ◌∙◌, Bool, true, false, List,
  [], ◌∷◌, ◌++◌, ◌==◌, ltb, if◌then◌else◌, arith, length, take, drop, Bool-cases,
}
use ethtool.Clib.{str_eq, str_eq-eq, str_eq_refl}
use ethtool.Feature.{matches}

-- No star in the text.
abbrev pub IsPlain : List ℕ → Type 0
IsPlain [] = Unit
IsPlain (c ∷ s) = ((c == b'*') ≡ false) × IsPlain s

matches-plain :
    (pattern name : List ℕ) → IsPlain pattern → matches pattern name ≡ str_eq pattern name
unfolding matches str_eq
matches-plain [] [] p = refl
matches-plain [] (d ∷ name) p = refl
matches-plain (c ∷ pattern) [] p = rw p.0 refl
matches-plain (c ∷ pattern) (d ∷ name) p = rw p.0 (elim (Bool-cases (c == d)) [
  | inl same ↦ rw same (matches-plain pattern name p.1)
  | inr other ↦ rw other refl
])

ltb_ge : (m n : ℕ) → n ≤ m → ltb m n ≡ false
ltb_ge m n h = ground arith

the_same : (c d : ℕ) → (c == d) ≡ true → d ≡ c
the_same c d h = ground arith

take-drop : (k : ℕ) (name : List ℕ) → name ≡ take k name ++ drop k name
take-drop zero name = refl
take-drop (suc k) [] = refl
take-drop (suc k) (c ∷ name) = ap (λ s. c ∷ s) (take-drop k name)

length-append : (s t : List ℕ) → length (s ++ t) ≡ length s + length t
length-append [] t = omega arith
length-append (c ∷ s) t = omega (arith, length-append s t)

drop-append : (k : ℕ) (s t : List ℕ) → k ≡ length s → drop k (s ++ t) ≡ t
drop-append zero [] t h = refl
drop-append zero (c ∷ s) t h = absurd (omega arith)
drop-append (suc k) [] t h = absurd (omega arith)
drop-append (suc k) (c ∷ s) t h = drop-append k s t (omega arith)

-- At the star.
abbrev ends_with : List ℕ → List ℕ → Bool
ends_with suffix name =
    if ltb (length name) (length suffix)
    then false
    else str_eq suffix (drop (length name - length suffix) name)

drop-nil : (k : ℕ) → drop {A = ℕ} k [] ≡ []
drop-nil zero = refl
drop-nil (suc k) = refl

matches-star :
    (suffix name : List ℕ) → IsPlain suffix → matches (b'*' ∷ suffix) name ≡ ends_with suffix name
unfolding matches
matches-star suffix [] p = rw (drop-nil (0 - length suffix), matches-plain suffix [] p) refl
matches-star suffix (d ∷ name) p =
    rw (matches-plain suffix (drop (suc (length name) - length suffix) (d ∷ name)) p) refl

ends_with-append : (suffix middle : List ℕ) → ends_with suffix (middle ++ suffix) ≡ true
ends_with-append suffix middle =
    let l = length-append middle suffix in
    let enough : ltb (length (middle ++ suffix)) (length suffix) ≡ false =
      ltb_ge _ _ (omega (arith, l)) in
    let rest : drop (length (middle ++ suffix) - length suffix) (middle ++ suffix) ≡ suffix =
      drop-append _ middle suffix (omega (arith, l)) in
    rw (enough, rest) (str_eq_refl suffix)

ends_with-middle :
    (suffix name : List ℕ)
    → ends_with suffix name ≡ true
    → (middle : List ℕ) × (name ≡ middle ++ suffix)
ends_with-middle suffix name h = elim (Bool-cases (ltb (length name) (length suffix))) [
  | inl short ↦ let no : false ≡ true = (rw short at h) in absurd (cc)
  | inr enough ↦
      let k : ℕ = length name - length suffix in
      let same : str_eq suffix (drop k name) ≡ true = (rw enough at h) in
      (
        take k name,
        take-drop k name ∙ ap (λ s. take k name ++ s) (sym (str_eq-eq suffix (drop k name) same)),
      )
]

sound :
    (prefix suffix name : List ℕ)
    → IsPlain prefix
    → IsPlain suffix
    → matches (prefix ++ b'*' ∷ suffix) name ≡ true
    → (middle : List ℕ) × (name ≡ prefix ++ middle ++ suffix)
unfolding matches
sound [] suffix name p q h = ends_with-middle suffix name (sym (matches-star suffix name q) ∙ h)
sound (c ∷ prefix) suffix [] p q h = let no : false ≡ true = (rw p.0 at h) in absurd (cc)
sound (c ∷ prefix) suffix (d ∷ name) p q h = elim (Bool-cases (c == d)) [
  | inl same ↦
      let (middle, e) = sound prefix suffix name p.1 q (rw (p.0, same) at h) in
      (middle, ap₂ (λ a s. a ∷ s) (the_same c d same) e)
  | inr other ↦ let no : false ≡ true = (rw (p.0, other) at h) in absurd (cc)
]

complete :
    (prefix suffix middle : List ℕ)
    → IsPlain prefix
    → IsPlain suffix
    → matches (prefix ++ b'*' ∷ suffix) (prefix ++ middle ++ suffix) ≡ true
unfolding matches
complete [] suffix middle p q =
    matches-star suffix (middle ++ suffix) q ∙ ends_with-append suffix middle
complete (c ∷ prefix) suffix middle p q =
    let same : (c == c) ≡ true = ground arith in
    rw (p.0, same) (complete prefix suffix middle p.1 q)

-- A pattern with one star matches a name if and only if the name begins with what stands before the
-- star and, behind it, ends with what stands after it.
pub matches-star_iff :
    (prefix suffix name : List ℕ)
    → IsPlain prefix
    → IsPlain suffix
    → (matches (prefix ++ b'*' ∷ suffix) name ≡ true)
      ↔ ((middle : List ℕ) × (name ≡ prefix ++ middle ++ suffix))
matches-star_iff prefix suffix name p q = (
  sound prefix suffix name p q,
  λ (middle, e). ap (matches (prefix ++ b'*' ∷ suffix)) e ∙ complete prefix suffix middle p q,
)
