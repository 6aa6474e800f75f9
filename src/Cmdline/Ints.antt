-- ===== src/Cmdline/Ints.antt =====
-- Tables of int options: what a command line leaves in their variables is an int again.
use ethtool.Base.{
  ℕ, zero, suc, ◌/◌, ◌^◌, ◌<◌, ◌≡◌, ◌⊎◌, inl, inr, ap, ◌∙◌, subst, Option, none, some, List, [],
  ◌∷◌, ◌==◌, arith, codes, Bool-cases,
}
use native.Mathlib.Nat.{pow-suc}
use ethtool.Base.Bytes.{le_bytes, le_value}
use ethtool.Base.Maybe.{>>=-some, some_eq, none_absurd}
use ethtool.Clib.{str_eq}
use ethtool.Cmdline.{
  CmdlineType, cmdl_bool, cmdl_s32, cmdl_u32, CmdlineInfo, Store, write, number, set_wanted, see,
  take_pair, find_info, Line, parse_generic_cmdline,
}

le_value-le_bytes_lt : (n v : ℕ) → le_value (le_bytes n v) < 256 ^ n
le_value-le_bytes_lt zero v = omega arith
le_value-le_bytes_lt (suc n) v = omega (arith, le_value-le_bytes_lt n (v / 256), pow-suc 256 n)

-- The number of a variable fits 32 bits.
abbrev pub IsInt : Store → ℕ → Type 0
IsInt st w = le_value (st w) < 2 ^ 32

-- A table of options that are `on` or `off`, an s32 or a u32, and do not record that they were seen.
abbrev pub IntInfo : CmdlineInfo → Type 0
IntInfo i =
    ((i.type ≡ cmdl_bool) ⊎ ((i.type ≡ cmdl_s32) ⊎ (i.type ≡ cmdl_u32))) × (i.seen_val ≡ none)

abbrev pub AllInt : List CmdlineInfo → Type 0
AllInt [] = Unit
AllInt (i ∷ info) = IntInfo i × AllInt info

pub find-IntInfo :
    (info : List CmdlineInfo) (name : List ℕ) {i : CmdlineInfo}
    → AllInt info
    → find_info info name ≡ some i
    → IntInfo i
unfolding find_info
find-IntInfo [] name a h = none_absurd h
find-IntInfo (j ∷ info) name a h = elim (Bool-cases (str_eq j.name name)) [
  | inl same ↦ subst IntInfo (some_eq (rw same at h)) a.0
  | inr other ↦ find-IntInfo info name a.1 (rw other at h)
]

write-IsInt : (st : Store) (v n w : ℕ) → IsInt st w → IsInt (write st v (le_bytes 4 n)) w
write-IsInt st v n w h = elim (Bool-cases (w == v)) [
  | inl at ↦ rw at (le_value-le_bytes_lt 4 n)
  | inr off ↦ rw off h
]

number-IsInt :
    (i : CmdlineInfo) (st : Store) (n : Option ℕ) (w : ℕ) {st' : Store}
    → number i st 4 n ≡ some st'
    → IsInt st w
    → IsInt st' w
unfolding number
number-IsInt i st none w h int = none_absurd h
number-IsInt i st (some v) w h int =
    subst (λ s. IsInt s w) (some_eq h) (write-IsInt st i.wanted_val v w int)

module _ (aton : List ℕ → Option ℕ) where
  bool-IsInt :
      (i : CmdlineInfo) (arg : List ℕ) (st : Store) (w : ℕ) {st' : Store}
      → set_wanted aton i cmdl_bool arg st ≡ some st'
      → IsInt st w
      → IsInt st' w
  unfolding set_wanted
  bool-IsInt i arg st w h int = elim (Bool-cases (str_eq arg (codes "on"))) [
    | inl on ↦ number-IsInt i st (some 1) w (rw on at h) int
    | inr other ↦ elim (Bool-cases (str_eq arg (codes "off"))) [
      | inl off ↦ number-IsInt i st (some 0) w (rw (other, off) at h) int
      | inr neither ↦ none_absurd (rw (other, neither) at h)
    ]
  ]

  s32-IsInt :
      (i : CmdlineInfo) (arg : List ℕ) (st : Store) (w : ℕ) {st' : Store}
      → set_wanted aton i cmdl_s32 arg st ≡ some st'
      → IsInt st w
      → IsInt st' w
  unfolding set_wanted
  s32-IsInt i arg st w h int = number-IsInt i st _ w h int

  u32-IsInt :
      (i : CmdlineInfo) (arg : List ℕ) (st : Store) (w : ℕ) {st' : Store}
      → set_wanted aton i cmdl_u32 arg st ≡ some st'
      → IsInt st w
      → IsInt st' w
  unfolding set_wanted
  u32-IsInt i arg st w h int = number-IsInt i st _ w h int

  pub see-none :
      (i : CmdlineInfo) (type : CmdlineType) (st : Store)
      → (type ≡ cmdl_bool) ⊎ ((type ≡ cmdl_s32) ⊎ (type ≡ cmdl_u32))
      → see i type none st ≡ st
  unfolding see
  see-none i type st (inl e) = ap (λ t. see i t none st) e
  see-none i type st (inr (inl e)) = ap (λ t. see i t none st) e
  see-none i type st (inr (inr e)) = ap (λ t. see i t none st) e

  wanted-IsInt :
      (i : CmdlineInfo) (arg : List ℕ) (st : Store) (w : ℕ) {st' : Store}
      → IntInfo i
      → set_wanted aton i i.type arg (see i i.type i.seen_val st) ≡ some st'
      → IsInt st w
      → IsInt st' w
  wanted-IsInt i arg st w {st'} (inl bool, unseen) h int =
      let same : see i i.type i.seen_val st ≡ st =
        ap (λ v. see i i.type v st) unseen ∙ see-none i i.type st (inl bool) in
      bool-IsInt i arg st w
        (subst (λ t. set_wanted aton i t arg st ≡ some st') bool
          (subst (λ s. set_wanted aton i i.type arg s ≡ some st') same h))
        int
  wanted-IsInt i arg st w {st'} (inr (inl s32), unseen) h int =
      let same : see i i.type i.seen_val st ≡ st =
        ap (λ v. see i i.type v st) unseen ∙ see-none i i.type st (inr (inl s32)) in
      s32-IsInt i arg st w
        (subst (λ t. set_wanted aton i t arg st ≡ some st') s32
          (subst (λ s. set_wanted aton i i.type arg s ≡ some st') same h))
        int
  wanted-IsInt i arg st w {st'} (inr (inr u32), unseen) h int =
      let same : see i i.type i.seen_val st ≡ st =
        ap (λ v. see i i.type v st) unseen ∙ see-none i i.type st (inr (inr u32)) in
      u32-IsInt i arg st w
        (subst (λ t. set_wanted aton i t arg st ≡ some st') u32
          (subst (λ s. set_wanted aton i i.type arg s ≡ some st') same h))
        int

  -- A variable that holds an int holds one after the command line.
  pub parse-IsInt :
      (info : List CmdlineInfo) (argp : List (List ℕ)) (line : Line) (w : ℕ) {line' : Line}
      → AllInt info
      → parse_generic_cmdline aton info argp line ≡ some line'
      → IsInt line.store w
      → IsInt line'.store w
  unfolding parse_generic_cmdline take_pair
  parse-IsInt info [] line w a h int = subst (λ l. IsInt l.store w) (some_eq h) int
  parse-IsInt info (name ∷ []) line w a h int = none_absurd h
  parse-IsInt info (name ∷ arg ∷ rest) line w a h int =
      let (l, took, h') = >>=-some (take_pair aton info name arg line) _ h in
      let (i, found, h1) = >>=-some (find_info info name) _ took in
      let (st, wrote, h2) =
        >>=-some (set_wanted aton i i.type arg (see i i.type i.seen_val line.store)) _ h1 in
      parse-IsInt info rest l w a h' (
        subst (λ m. IsInt m.store w) (some_eq h2)
          (wanted-IsInt i arg line.store w (find-IntInfo info name a found) wrote int))
