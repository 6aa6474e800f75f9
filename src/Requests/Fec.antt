-- ===== src/Requests/Fec.antt =====
-- do_sfec: the encodings that it sends.
use ethtool.Base.{
  ℕ, ◌^◌, ◌≡◌, ◌≢◌, ◌⊎◌, inl, inr, refl, sym, ap, ◌∙◌, subst, max, bit_or, true, false, some, List,
  [], ◌∷◌, ◌==◌, ◌&&◌, arith, codes, Bool-cases, if_none, if◌then◌else◌, ==_iff, ==_false,
}
use native.Mathlib.Decide.{ℕ_discrete}
use ethtool.Base.Bits.{bit, bit-bit_or, zero-bit, bit-pow_self, bit-pow_ne}
use ethtool.Base.Maybe.{some_eq, none_absurd}
use ethtool.Clib.{str_eq, str_eq-eq}
use ethtool.Requests.{fecmode_str_to_type, fec_words, do_sfec, str_case_eq, lower}

-- The word in small letters.
abbrev pub lowered : List ℕ → List ℕ
lowered [] = []
lowered (c ∷ s) = lower c ∷ lowered s

-- ethtool.8 names the encodings; the numbers of their bits are those of enum
-- ethtool_fec_config_bits.
abbrev pub fec_names : List (List ℕ × ℕ)
fec_names = (codes "auto", 1) ∷ (codes "off", 2) ∷ (codes "rs", 3) ∷ (codes "baser", 4) ∷ []

-- Whether the word is the name of bit j.
abbrev pub named : List (List ℕ × ℕ) → List ℕ → ℕ → ℕ
named [] word j = 0
named ((name, k) ∷ names) word j =
    if str_eq word name then (if k == j then 1 else 0) else named names word j

-- Whether one of the words names bit j.
abbrev pub encoded : List (List ℕ) → ℕ → ℕ
encoded [] j = 0
encoded (arg ∷ argp) j = max (named fec_names (lowered arg) j) (encoded argp j)

-- Whether a word is some name of the table.
abbrev pub IsName : List (List ℕ × ℕ) → List ℕ → Type 0
IsName [] word = ⊥
IsName ((name, k) ∷ names) word = (word ≡ name) ⊎ IsName names word

-- Every word is `encoding` or names an encoding.
abbrev pub AllKnown : List (List ℕ) → Type 0
AllKnown [] = Unit
AllKnown (arg ∷ argp) = ((arg ≡ codes "encoding") ⊎ IsName fec_names (lowered arg)) × AllKnown argp

-- The words behind a first `encoding`.
abbrev pub AfterKeyword : List (List ℕ) → Type 0
AfterKeyword argp = (rest : List (List ℕ)) × (argp ≡ codes "encoding" ∷ rest) × AllKnown rest

pow_bit : (k j : ℕ) → bit (2 ^ k) j ≡ (if k == j then 1 else 0)
pow_bit k j = elim (ℕ_discrete k j) [
  | yes e ↦ rw ((==_iff k j).1 e, ← e) (bit-pow_self k)
  | no n ↦ rw (==_false k j n) (bit-pow_ne k j n)
]

case_eq : (s t : List ℕ) → str_case_eq s t ≡ str_eq (lowered s) (lowered t)
unfolding str_case_eq str_eq
case_eq [] [] = refl
case_eq [] (d ∷ t) = refl
case_eq (c ∷ s) [] = refl
case_eq (c ∷ s) (d ∷ t) = ap (λ b. lower c == lower d && b) (case_eq s t)

-- The bits of a word, and its name if it has one.
type_lem :
    (arg : List ℕ)
    → ((j : ℕ) → bit (fecmode_str_to_type arg) j ≡ named fec_names (lowered arg) j)
      × ((fecmode_str_to_type arg == 0) ≡ false → IsName fec_names (lowered arg))
unfolding fecmode_str_to_type
type_lem arg =
    rw
      (
        case_eq arg (codes "auto"),
        case_eq arg (codes "off"),
        case_eq arg (codes "rs"),
        case_eq arg (codes "baser"),
      )
      (elim (Bool-cases (str_eq (lowered arg) (codes "auto"))) [
        | inl a ↦ rw a (pow_bit 1, λ _. inl (str_eq-eq _ _ a))
        | inr a ↦ rw a (elim (Bool-cases (str_eq (lowered arg) (codes "off"))) [
          | inl b ↦ rw b (pow_bit 2, λ _. inr (inl (str_eq-eq _ _ b)))
          | inr b ↦ rw b (elim (Bool-cases (str_eq (lowered arg) (codes "rs"))) [
            | inl c ↦ rw c (pow_bit 3, λ _. inr (inr (inl (str_eq-eq _ _ c))))
            | inr c ↦ rw c (elim (Bool-cases (str_eq (lowered arg) (codes "baser"))) [
              | inl d ↦ rw d (pow_bit 4, λ _. inr (inr (inr (inl (str_eq-eq _ _ d)))))
              | inr d ↦ rw d (zero-bit, λ h. cc)
            ])
          ])
        ])
      ])

no_mode : (j : ℕ) → named fec_names (lowered (codes "encoding")) j ≡ 0
unfolding str_eq
no_mode j = refl

not_zero : (n : ℕ) → (n == 0) ≡ false → n ≢ 0
not_zero n h e = ground arith

-- Behind a keyword.
words_of :
    (fecmode : ℕ) (argp : List (List ℕ)) {m : ℕ}
    → fec_words true fecmode argp ≡ some m
    → AllKnown argp × (m ≢ 0) × ((j : ℕ) → bit m j ≡ max (bit fecmode j) (encoded argp j))
unfolding fec_words
words_of fecmode [] {m} h =
    let (some_mode, e) = if_none (fecmode == 0) _ h in
    let same : fecmode ≡ m = some_eq e in
    (
      tt,
      subst (λ (n : ℕ). n ≢ 0) same (not_zero _ some_mode),
      λ j. ap (λ n. bit n j) (sym same) ∙ omega arith,
    )
words_of fecmode (arg ∷ argp) {m} h = elim (Bool-cases (str_eq arg (codes "encoding"))) [
  | inl keyword ↦
      let (known, some_mode, bits) = words_of fecmode argp (rw keyword at h) in
      let is_keyword = str_eq-eq arg (codes "encoding") keyword in
      let nothing : (j : ℕ) → named fec_names (lowered arg) j ≡ 0 =
        λ j. ap (λ a. named fec_names (lowered a) j) is_keyword ∙ no_mode j in
      ((inl is_keyword, known), some_mode, λ j. bits j ∙ omega (arith, nothing j))
  | inr other ↦
      let (some_type, rest) = if_none (fecmode_str_to_type arg == 0) _ (rw other at h) in
      let (known, some_mode, bits) =
        words_of (bit_or fecmode (fecmode_str_to_type arg)) argp rest in
      let (type_bits, is_name) = type_lem arg in
      (
        (inr (is_name some_type), known),
        some_mode,
        λ j. omega (arith, bits j, bit-bit_or fecmode (fecmode_str_to_type arg) j, type_bits j),
      )
]

-- If the arguments of do_sfec are accepted, the first one is `encoding`, every other one is
-- `encoding` or names an encoding, in letters of any case, at least one is named, and what is sent
-- has the bit of exactly those that are.
pub do_sfec-encoded :
    (argp : List (List ℕ)) {m : ℕ}
    → do_sfec argp ≡ some m
    → AfterKeyword argp × (m ≢ 0) × ((j : ℕ) → bit m j ≡ encoded argp j)
unfolding do_sfec fec_words
do_sfec-encoded [] h = none_absurd h
do_sfec-encoded (arg ∷ argp) {m} h = elim (Bool-cases (str_eq arg (codes "encoding"))) [
  | inr other ↦ none_absurd (rw other at h)
  | inl keyword ↦
      let is_keyword = str_eq-eq arg (codes "encoding") keyword in
      let (known, some_mode, bits) = words_of 0 argp (rw keyword at h) in
      let nothing : (j : ℕ) → named fec_names (lowered arg) j ≡ 0 =
        λ j. ap (λ a. named fec_names (lowered a) j) is_keyword ∙ no_mode j in
      (
        (argp, ap (λ a. a ∷ argp) is_keyword, known),
        some_mode,
        λ j. omega (arith, bits j, zero-bit j, nothing j),
      )
]
