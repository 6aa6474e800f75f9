-- ===== src/Tunable/Turns.antt =====
-- do_set_phy_tunable: what is sent turns the tunable on or off as the word says.
use ethtool.Base.{
  ℕ, ◌*◌, ◌^◌, ◌≤◌, ◌<◌, ◌≡◌, ◌≢◌, inl, inr, refl, ap, ap₂, ◌∙◌, subst, Bool, true, false, ◌||◌,
  not, Option, none, some, List, [], ◌∷◌, ◌==◌, ltb, codes, arith, Bool-cases, if_none,
}
use ethtool.Base.Maybe.{>>=-some, some_eq}
use ethtool.Clib.{str_eq, str_eq-eq}
use ethtool.Clib.Strto.{strtoull}
use ethtool.Cmdline.{get_uint_range}
use ethtool.Rxclass.Value.{is_empty}
use ethtool.Tunable.{
  Named, named, not_named, on_off, parse_named_bool, parse_named_uint, parse_named_u8,
  parse_named_u16, TunableId, phy_downshift, phy_fast_link_down, phy_edpd, Tunable, set_downshift,
  named_or, set_fast_link_down, set_edpd, edpd_or_exit, fast_link_down_or, downshift_or,
  phy_tunable, fast_link_down_off, fast_link_down_on, edpd_dflt_tx_msecs, edpd_no_tx,
}

-- As the kernel reads the values, and the bytes of each.
abbrev pub IsOn : TunableId → ℕ → Type 0
IsOn phy_downshift value = value ≢ 0
IsOn phy_fast_link_down value = value ≢ 0xff
IsOn phy_edpd value = value ≢ 0

abbrev pub IsOff : TunableId → ℕ → Type 0
IsOff phy_downshift value = value ≡ 0
IsOff phy_fast_link_down value = value ≡ 0xff
IsOff phy_edpd value = value ≡ 0

abbrev pub width : TunableId → ℕ
width phy_edpd = 2
width _ = 1

abbrev pub word_of : TunableId → List ℕ
word_of phy_downshift = codes "downshift"
word_of phy_fast_link_down = codes "fast-link-down"
word_of phy_edpd = codes "energy-detect-power-down"

-- What a tunable is set to, by on or off.
abbrev pub IsTurned : TunableId → Bool → ℕ → Type 0
IsTurned id true value = IsOn id value
IsTurned id false value = IsOff id value

abbrev pub Fits : TunableId → Bool → Tunable → Type 0
Fits id on t =
    (t.id ≡ id) × (t.len ≡ width id) × (t.value < 2 ^ (8 * width id)) × IsTurned id on t.value

ltb_above : (b : Bool) (m n : ℕ) → (b || ltb m n) ≡ false → n ≤ m
ltb_above b m n h = ground arith

get_uint_range-le : (arg : List ℕ) (high : ℕ) {v : ℕ} → get_uint_range arg high ≡ some v → v ≤ high
unfolding get_uint_range
get_uint_range-le arg high e =
    let (g, same) = if_none _ _ e in
    let le =
      ltb_above ((strtoull arg).erange || not (is_empty (strtoull arg).rest)) high
        (strtoull arg).value g in
    subst (λ n. n ≤ high) (some_eq same) le

parse_named_uint-le :
    (name : List ℕ) (high : ℕ) (args : List (List ℕ)) {v : ℕ} {rest : List (List ℕ)}
    → parse_named_uint name high args ≡ some (named v rest)
    → v ≤ high
unfolding parse_named_uint
parse_named_uint-le name high [] e = absurd (cc)
parse_named_uint-le name high (word ∷ []) e = absurd (cc)
parse_named_uint-le name high (word ∷ arg ∷ more) e = elim (Bool-cases (str_eq word name)) [
  | inl same ↦
      let (v, read, e') =
        >>=-some (get_uint_range arg high) (λ v. some (named v more)) (rw same at e) in
      let le : v ≤ high = get_uint_range-le arg high read in ground arith
  | inr other ↦ let no : some not_named ≡ some (named _ _) = (rw other at e) in absurd (cc)
]

-- A result is what the function made of it.
Fits-of :
    (id : TunableId) (on : Bool) {t t' : Tunable} → some t ≡ some t' → Fits id on t → Fits id on t'
Fits-of id on e f = subst (Fits id on) (some_eq e) f

set_downshift-Fits :
    (on : Bool) (rest : List (List ℕ)) (m : Named ℕ) {t : Tunable}
    → parse_named_u8 (codes "count") rest ≡ some m
    → set_downshift on m ≡ some t
    → Fits phy_downshift on t
unfolding set_downshift
set_downshift-Fits true rest (named v more) p e =
    let (g, same) = if_none (v == 0) _ e in
    let le : v ≤ 0xff = parse_named_uint-le (codes "count") 0xff rest p in
    Fits-of phy_downshift true same (refl, refl, omega arith, λ z. ground arith)
set_downshift-Fits false rest (named v more) p e = absurd (cc)
set_downshift-Fits true rest not_named p e =
    Fits-of phy_downshift true e (refl, refl, omega arith, λ z. omega arith)
set_downshift-Fits false rest not_named p e =
    Fits-of phy_downshift false e (refl, refl, omega arith, refl)

named_or-le :
    (name : List ℕ) (high d : ℕ) (rest : List (List ℕ)) (m : Named ℕ)
    → d ≤ high
    → parse_named_uint name high rest ≡ some m
    → named_or d m ≤ high
named_or-le name high d rest (named v more) h p = parse_named_uint-le name high rest p
named_or-le name high d rest not_named h p = h

set_fast_link_down-Fits :
    (on : Bool) (rest : List (List ℕ)) {t : Tunable}
    → set_fast_link_down on rest ≡ some t
    → Fits phy_fast_link_down on t
unfolding set_fast_link_down
set_fast_link_down-Fits false rest e =
    Fits-of phy_fast_link_down false e (refl, refl, omega arith, refl)
set_fast_link_down-Fits true rest e =
    let (m, p, e') = >>=-some (parse_named_u8 (codes "msecs") rest) _ e in
    let (g, same) = if_none (named_or fast_link_down_on m == fast_link_down_off) _ e' in
    let le : named_or fast_link_down_on m ≤ 0xff =
      named_or-le (codes "msecs") 0xff 0 rest m (omega arith) p in
    Fits-of phy_fast_link_down true same (refl, refl, omega arith, λ z. ground arith)

set_edpd-Fits :
    (on : Bool) (rest : List (List ℕ)) {t : Tunable}
    → set_edpd on rest ≡ some t
    → Fits phy_edpd on t
unfolding set_edpd
set_edpd-Fits false rest e = Fits-of phy_edpd false e (refl, refl, omega arith, refl)
set_edpd-Fits true rest e =
    let (m, p, e') = >>=-some (parse_named_u16 (codes "msecs") rest) _ e in
    elim (Bool-cases (named_or edpd_dflt_tx_msecs m == 0)) [
      | inl zero_msecs ↦
          Fits-of phy_edpd true (rw zero_msecs at e') (refl, refl, omega arith, λ z. omega arith)
      | inr msecs ↦
          let (g, same) =
            if_none (ltb edpd_no_tx (named_or edpd_dflt_tx_msecs m)) _ (rw msecs at e') in
          Fits-of phy_edpd true same (refl, refl, ground arith, λ z. ground arith)
    ]

abbrev pub on_text : Bool → List ℕ
on_text true = codes "on"
on_text false = codes "off"

on_off-text : (arg : List ℕ) {on : Bool} → on_off arg ≡ some on → arg ≡ on_text on
unfolding on_off
on_off-text arg e = elim (Bool-cases (str_eq arg (codes "on"))) [
  | inl yes_ ↦
      let t : some true ≡ some _ = (rw yes_ at e) in
      str_eq-eq arg (codes "on") yes_ ∙ ap on_text (some_eq t)
  | inr no_ ↦ elim (Bool-cases (str_eq arg (codes "off"))) [
    | inl yes_ ↦
        let t : some false ≡ some _ = (rw (no_, yes_) at e) in
        str_eq-eq arg (codes "off") yes_ ∙ ap on_text (some_eq t)
    | inr neither ↦ let t : none ≡ some _ = (rw (no_, neither) at e) in absurd (cc)
  ]
]

on_of : Option (Named Bool) → Bool
on_of (some (named on rest)) = on
on_of _ = true

rest_of : Option (Named Bool) → List (List ℕ)
rest_of (some (named on rest)) = rest
rest_of _ = []

-- The words of a tunable, and what stands behind them.
parse_named_bool-words :
    (name : List ℕ) (args : List (List ℕ)) {on : Bool} {rest : List (List ℕ)}
    → parse_named_bool name args ≡ some (named on rest)
    → args ≡ name ∷ on_text on ∷ rest
unfolding parse_named_bool on_of rest_of
parse_named_bool-words name [] e = absurd (cc)
parse_named_bool-words name (word ∷ []) e = absurd (cc)
parse_named_bool-words name (word ∷ arg ∷ more) e = elim (Bool-cases (str_eq word name)) [
  | inl same ↦
      let (b, read, e') = >>=-some (on_off arg) (λ on. some (named on more)) (rw same at e) in
      let word_eq : word ≡ name = str_eq-eq word name same in
      let arg_eq : arg ≡ on_text b = on_off-text arg read in
      let on_eq : b ≡ _ = ap on_of e' in
      let rest_eq : more ≡ _ = ap rest_of e' in
      ap₂ (λ w ws. w ∷ ws) word_eq (ap₂ (λ w ws. w ∷ ws) (arg_eq ∙ ap on_text on_eq) rest_eq)
  | inr other ↦ let no : some not_named ≡ some (named _ _) = (rw other at e) in absurd (cc)
]

abbrev pub Turns : List (List ℕ) → Tunable → Type 0
Turns args t =
    (id : TunableId) × (on : Bool) × (rest : List (List ℕ)) × (args
      ≡ word_of id ∷ on_text on ∷ rest)
    × Fits id on t

edpd-Turns :
    (args : List (List ℕ)) (m : Named Bool) {t : Tunable}
    → parse_named_bool (codes "energy-detect-power-down") args ≡ some m
    → edpd_or_exit m ≡ some t
    → Turns args t
edpd-Turns args (named on rest) p e =
    (phy_edpd, on, rest, parse_named_bool-words (word_of phy_edpd) args p, set_edpd-Fits on rest e)
edpd-Turns args not_named p e = absurd (cc)

fast_link_down-Turns :
    (args : List (List ℕ)) (m : Named Bool) {t : Tunable}
    → parse_named_bool (codes "fast-link-down") args ≡ some m
    → fast_link_down_or args m ≡ some t
    → Turns args t
fast_link_down-Turns args (named on rest) p e = (
  phy_fast_link_down,
  on,
  rest,
  parse_named_bool-words (word_of phy_fast_link_down) args p,
  set_fast_link_down-Fits on rest e,
)
fast_link_down-Turns args not_named p e =
    let (m, p', e') = >>=-some (parse_named_bool (codes "energy-detect-power-down") args) _ e in
    edpd-Turns args m p' e'

downshift-Turns :
    (args : List (List ℕ)) (m : Named Bool) {t : Tunable}
    → parse_named_bool (codes "downshift") args ≡ some m
    → downshift_or args m ≡ some t
    → Turns args t
downshift-Turns args (named on rest) p e =
    let (c, p', e') = >>=-some (parse_named_u8 (codes "count") rest) _ e in
    (
      phy_downshift,
      on,
      rest,
      parse_named_bool-words (word_of phy_downshift) args p,
      set_downshift-Fits on rest c p' e',
    )
downshift-Turns args not_named p e =
    let (m, p', e') = >>=-some (parse_named_bool (codes "fast-link-down") args) _ e in
    fast_link_down-Turns args m p' e'

-- A tunable that is sent was named by the first two arguments, its word and on or off. The number
-- that is sent has the width of the tunable, and the kernel reads it as on if the second argument
-- is on, and as off if it is off.
pub phy_tunable-Turns :
    (args : List (List ℕ)) (t : Tunable) → phy_tunable args ≡ some t → Turns args t
unfolding phy_tunable
phy_tunable-Turns args t h =
    let (m, p, e) = >>=-some (parse_named_bool (codes "downshift") args) _ h in
    downshift-Turns args m p e

-- `energy-detect-power-down on` is refused when no `msecs` with a number follows: the number for the
-- default interval is above the limit.
pub phy_tunable_edpd_default_refused :
    (rest : List (List ℕ))
    → parse_named_u16 (codes "msecs") rest ≡ some not_named
    → phy_tunable (codes "energy-detect-power-down" ∷ codes "on" ∷ rest) ≡ none
unfolding phy_tunable parse_named_bool on_off str_eq set_edpd
phy_tunable_edpd_default_refused rest h = rw h refl
