-- ===== src/Cmdline/Writes.antt =====
-- The variables that one option of parse_generic_cmdline writes.
use ethtool.Base.{
  ℕ, ◌≡◌, ◌≢◌, inl, inr, refl, sym, ap, ◌∙◌, subst, Option, none, some, List, [], ◌∷◌, ==_false,
  if◌then◌else◌, codes, Bool-cases,
}
use ethtool.Base.Bytes.{le_bytes}
use ethtool.Base.Maybe.{◌>>=◌, >>=-some, some_eq, none_absurd}
use ethtool.Clib.{str_eq}
use ethtool.Cmdline.{
  CmdlineType, cmdl_none, cmdl_bool, cmdl_s32, cmdl_u8, cmdl_u16, cmdl_u32, cmdl_u64, cmdl_be16,
  cmdl_ip4, cmdl_str, cmdl_flag, cmdl_mac, CmdlineInfo, Store, write, or_into, see_flag, set_flag,
  number, set_wanted, see, find_info, get_mac_addr,
}

-- Not a variable that the option writes.
abbrev pub IsSeen : ℕ → Option ℕ → Type 0
IsSeen w none = Unit
IsSeen w (some v) = w ≢ v

abbrev pub IsApart : ℕ → CmdlineInfo → Type 0
IsApart w i = (w ≢ i.wanted_val) × IsSeen w i.seen_val

abbrev pub AllApart : ℕ → List CmdlineInfo → Type 0
AllApart w [] = Unit
AllApart w (i ∷ info) = IsApart w i × AllApart w info

pub find-IsApart :
    (w : ℕ) (info : List CmdlineInfo) (name : List ℕ) {i : CmdlineInfo}
    → AllApart w info
    → find_info info name ≡ some i
    → IsApart w i
unfolding find_info
find-IsApart w [] name a h = none_absurd h
find-IsApart w (j ∷ info) name a h = elim (Bool-cases (str_eq j.name name)) [
  | inl same ↦ subst (IsApart w) (some_eq (rw same at h)) a.0
  | inr other ↦ find-IsApart w info name a.1 (rw other at h)
]

pub write_apart : (st : Store) (v w : ℕ) (bytes : List ℕ) → w ≢ v → write st v bytes w ≡ st w
write_apart st v w bytes ne = rw (==_false w v ne)

number_apart :
    (i : CmdlineInfo) (st : Store) (size w : ℕ) (n : Option ℕ) {st' : Store}
    → w ≢ i.wanted_val
    → number i st size n ≡ some st'
    → st' w ≡ st w
unfolding number
number_apart i st size w none ne h = none_absurd h
number_apart i st size w (some v) ne h =
    ap (λ s. s w) (sym (some_eq h)) ∙ write_apart st i.wanted_val w (le_bytes size v) ne

pub see_apart :
    (i : CmdlineInfo) (type : CmdlineType) (v : Option ℕ) (st : Store) (w : ℕ)
    → IsSeen w v
    → see i type v st w ≡ st w
unfolding see
see_apart i cmdl_flag v st w ne = refl
see_apart i cmdl_none none st w ne = refl
see_apart i cmdl_none (some v) st w ne = write_apart st v w _ ne
see_apart i cmdl_bool none st w ne = refl
see_apart i cmdl_bool (some v) st w ne = write_apart st v w _ ne
see_apart i cmdl_s32 none st w ne = refl
see_apart i cmdl_s32 (some v) st w ne = write_apart st v w _ ne
see_apart i cmdl_u8 none st w ne = refl
see_apart i cmdl_u8 (some v) st w ne = write_apart st v w _ ne
see_apart i cmdl_u16 none st w ne = refl
see_apart i cmdl_u16 (some v) st w ne = write_apart st v w _ ne
see_apart i cmdl_u32 none st w ne = refl
see_apart i cmdl_u32 (some v) st w ne = write_apart st v w _ ne
see_apart i cmdl_u64 none st w ne = refl
see_apart i cmdl_u64 (some v) st w ne = write_apart st v w _ ne
see_apart i cmdl_be16 none st w ne = refl
see_apart i cmdl_be16 (some v) st w ne = write_apart st v w _ ne
see_apart i cmdl_ip4 none st w ne = refl
see_apart i cmdl_ip4 (some v) st w ne = write_apart st v w _ ne
see_apart i cmdl_str none st w ne = refl
see_apart i cmdl_str (some v) st w ne = write_apart st v w _ ne
see_apart i cmdl_mac none st w ne = refl
see_apart i cmdl_mac (some v) st w ne = write_apart st v w _ ne

flag_apart :
    (i : CmdlineInfo) (arg : List ℕ) (st : Store) (w : ℕ) {st' : Store}
    → w ≢ i.wanted_val
    → set_flag i arg st ≡ some st'
    → st' w ≡ st w
unfolding set_flag
flag_apart i arg st w ne h = elim (Bool-cases (str_eq arg (codes "on"))) [
  | inl on ↦ ap (λ s. s w) (sym (some_eq (rw on at h))) ∙ write_apart st i.wanted_val w _ ne
  | inr other ↦ elim (Bool-cases (str_eq arg (codes "off"))) [
    | inl off ↦ ap (λ s. s w) (sym (some_eq (rw (other, off) at h)))
    | inr neither ↦ none_absurd (rw (other, neither) at h)
  ]
]

bool_apart :
    (i : CmdlineInfo) (arg : List ℕ) (st : Store) (w : ℕ) {st' : Store}
    → w ≢ i.wanted_val
    → (if str_eq arg (codes "on")
        then number i st 4 (some 1)
        else if str_eq arg (codes "off")
        then number i st 4 (some 0)
        else none)
      ≡ some st'
    → st' w ≡ st w
bool_apart i arg st w ne h = elim (Bool-cases (str_eq arg (codes "on"))) [
  | inl on ↦ number_apart i st 4 w (some 1) ne (rw on at h)
  | inr other ↦ elim (Bool-cases (str_eq arg (codes "off"))) [
    | inl off ↦ number_apart i st 4 w (some 0) ne (rw (other, off) at h)
    | inr neither ↦ none_absurd (rw (other, neither) at h)
  ]
]

seen_flag_apart :
    (i : CmdlineInfo) (arg : List ℕ) (st : Store) (w : ℕ) (v : Option ℕ) {st' : Store}
    → w ≢ i.wanted_val
    → IsSeen w v
    → (see_flag st i v >>= set_flag i arg) ≡ some st'
    → st' w ≡ st w
seen_flag_apart i arg st w none ne seen h = none_absurd h
seen_flag_apart i arg st w (some v) ne seen h =
    flag_apart i arg (or_into st v i.flag_val) w ne h ∙ write_apart st v w _ seen

module _ (aton : List ℕ → Option ℕ) where
  pub set_wanted_apart :
      (i : CmdlineInfo) (type : CmdlineType) (arg : List ℕ) (st : Store) (w : ℕ) {st' : Store}
      → IsApart w i
      → set_wanted aton i type arg st ≡ some st'
      → st' w ≡ st w
  unfolding set_wanted
  set_wanted_apart i cmdl_none arg st w ne h = none_absurd h
  set_wanted_apart i cmdl_bool arg st w ne h = bool_apart i arg st w ne.0 h
  set_wanted_apart i cmdl_s32 arg st w ne h = number_apart i st _ w _ ne.0 h
  set_wanted_apart i cmdl_u8 arg st w ne h = number_apart i st _ w _ ne.0 h
  set_wanted_apart i cmdl_u16 arg st w ne h = number_apart i st _ w _ ne.0 h
  set_wanted_apart i cmdl_u32 arg st w ne h = number_apart i st _ w _ ne.0 h
  set_wanted_apart i cmdl_u64 arg st w ne h = number_apart i st _ w _ ne.0 h
  set_wanted_apart i cmdl_be16 arg st w ne h = number_apart i st _ w _ ne.0 h
  set_wanted_apart i cmdl_ip4 arg st w ne h = number_apart i st _ w _ ne.0 h
  set_wanted_apart i cmdl_mac arg st w ne h =
      let (bytes, read, e) = >>=-some (get_mac_addr arg) _ h in
      ap (λ s. s w) (sym (some_eq e)) ∙ write_apart st i.wanted_val w bytes ne.0
  set_wanted_apart i cmdl_flag arg st w ne h = seen_flag_apart i arg st w i.seen_val ne.0 ne.1 h
  set_wanted_apart i cmdl_str arg st w ne h =
      ap (λ s. s w) (sym (some_eq h)) ∙ write_apart st i.wanted_val w arg ne.0
