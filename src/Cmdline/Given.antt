-- ===== src/Cmdline/Given.antt =====
-- The numbers that a command line gives to the variables of a table of int options.
use ethtool.Base.{
  ℕ, ◌^◌, ◌<◌, ◌≡◌, ◌⊎◌, inl, inr, refl, sym, ap, ◌∙◌, subst, Bool, false, not, ◌||◌, Option, none,
  some, List, [], ◌∷◌, ◌==◌, ltb, if◌then◌else◌, arith, codes, Bool-cases, if_none,
}
use ethtool.Base.Bytes.{le_bytes, le_value, le_value-le_bytes}
use ethtool.Base.Int.{ℤ, pos, negsuc}
use ethtool.Base.Maybe.{◌>>=◌, >>=-some, some_eq, none_absurd}
use ethtool.Clib.{str_eq}
use ethtool.Clib.Strto.{strtoull}
use ethtool.Cmdline.{
  CmdlineType, cmdl_bool, cmdl_s32, cmdl_u32, CmdlineInfo, Store, write, number, set_wanted, see,
  take_pair, find_info, Line, parse_generic_cmdline, get_int, get_u32, get_uint_range,
}
use ethtool.Cmdline.Ints.{AllInt, find-IntInfo, see-none}
use ethtool.Rxclass.Value.{pattern32, is_empty}

abbrev pub or_zero : Option ℕ → ℕ
or_zero none = 0
or_zero (some n) = n

-- The number that a text stands for: `on` is 1 and `off` 0; an int is its pattern.
abbrev pub text_value : CmdlineType → List ℕ → ℕ
text_value cmdl_bool arg = if str_eq arg (codes "on") then 1 else 0
text_value cmdl_s32 arg = or_zero (get_int arg >>= λ v. some (pattern32 v))
text_value cmdl_u32 arg = or_zero (get_u32 arg)
text_value _ arg = 0

-- Variable v after one name and its text, where it held `old`: the first option of that name decides.
abbrev pub given_at : List CmdlineInfo → List ℕ → List ℕ → ℕ → ℕ → ℕ
given_at [] name arg v old = old
given_at (i ∷ info) name arg v old =
    if str_eq i.name name
    then (if v == i.wanted_val then text_value i.type arg else old)
    else given_at info name arg v old

-- Variable v after all names and texts.
unfoldable pub given : List CmdlineInfo → List (List ℕ) → ℕ → ℕ → ℕ
given info (name ∷ arg ∷ rest) v old = given info rest v (given_at info name arg v old)
given info argp v old = old

given_at_found :
    (info : List CmdlineInfo) (name arg : List ℕ) (v old : ℕ) {i : CmdlineInfo}
    → find_info info name ≡ some i
    → given_at info name arg v old ≡ (if v == i.wanted_val then text_value i.type arg else old)
unfolding find_info
given_at_found [] name arg v old h = none_absurd h
given_at_found (j ∷ info) name arg v old {i} h = elim (Bool-cases (str_eq j.name name)) [
  | inl here ↦
      let same : j ≡ i = some_eq (rw here at h) in
      rw here
        (ap (λ (k : CmdlineInfo). if v == k.wanted_val then text_value k.type arg else old) same)
  | inr further ↦ rw further (given_at_found info name arg v old (rw further at h))
]

pattern32-lt : (v : ℤ) → pattern32 v < 2 ^ 32
pattern32-lt (pos n) = omega arith
pattern32-lt (negsuc n) = omega arith

last_of : (a b c : Bool) → (a || b || c) ≡ false → c ≡ false
last_of a b c h = ground arith

not_above : (n : ℕ) → ltb 0xffffffff n ≡ false → n < 2 ^ 32
not_above n h = ground arith

get_u32-lt : (arg : List ℕ) {n : ℕ} → get_u32 arg ≡ some n → n < 2 ^ 32
unfolding get_u32 get_uint_range
get_u32-lt arg h =
    let r = strtoull arg in
    let (ok, e) = if_none (r.erange || not (is_empty r.rest) || ltb 0xffffffff r.value) _ h in
    subst (λ (k : ℕ). k < 2 ^ 32) (some_eq e)
      (not_above r.value (last_of r.erange (not (is_empty r.rest)) (ltb 0xffffffff r.value) ok))

get_s32-lt :
    (arg : List ℕ) {n : ℕ} → (get_int arg >>= λ v. some (pattern32 v)) ≡ some n → n < 2 ^ 32
get_s32-lt arg h =
    let (v, read, e) = >>=-some (get_int arg) _ h in
    subst (λ (k : ℕ). k < 2 ^ 32) (some_eq e) (pattern32-lt v)

-- A variable after a number was written to that of an option.
written :
    (i : CmdlineInfo) (st : Store) (n v : ℕ)
    → n < 2 ^ 32
    → le_value (write st i.wanted_val (le_bytes 4 n) v)
      ≡ (if v == i.wanted_val then n else le_value (st v))
written i st n v small = elim (Bool-cases (v == i.wanted_val)) [
  | inl here ↦ rw here (le_value-le_bytes 4 n small)
  | inr other ↦ rw other
]

number_value :
    (i : CmdlineInfo) (st : Store) (o : Option ℕ) (v : ℕ) {st' : Store}
    → ((n : ℕ) → o ≡ some n → n < 2 ^ 32)
    → number i st 4 o ≡ some st'
    → le_value (st' v) ≡ (if v == i.wanted_val then or_zero o else le_value (st v))
unfolding number
number_value i st none v small h = none_absurd h
number_value i st (some n) v small h =
    ap (λ s. le_value (s v)) (sym (some_eq h)) ∙ written i st n v (small n refl)

module _ (aton : List ℕ → Option ℕ) where
  bool_value :
      (i : CmdlineInfo) (arg : List ℕ) (st : Store) (v : ℕ) {st' : Store}
      → set_wanted aton i cmdl_bool arg st ≡ some st'
      → le_value (st' v) ≡ (if v == i.wanted_val then text_value cmdl_bool arg else le_value (st v))
  unfolding set_wanted
  bool_value i arg st v h = elim (Bool-cases (str_eq arg (codes "on"))) [
    | inl on ↦ rw on (
        number_value i st (some 1) v
          (λ n e. subst (λ (k : ℕ). k < 2 ^ 32) (some_eq e) (omega arith)) (rw on at h))
    | inr other ↦ elim (Bool-cases (str_eq arg (codes "off"))) [
      | inl off ↦ rw other (
          number_value i st (some 0) v
            (λ n e. subst (λ (k : ℕ). k < 2 ^ 32) (some_eq e) (omega arith)) (rw (other, off) at h))
      | inr neither ↦ none_absurd (rw (other, neither) at h)
    ]
  ]

  type_value :
      (i : CmdlineInfo) (type : CmdlineType) (arg : List ℕ) (st : Store) (v : ℕ) {st' : Store}
      → (type ≡ cmdl_bool) ⊎ ((type ≡ cmdl_s32) ⊎ (type ≡ cmdl_u32))
      → set_wanted aton i type arg st ≡ some st'
      → le_value (st' v) ≡ (if v == i.wanted_val then text_value type arg else le_value (st v))
  unfolding set_wanted get_int get_u32
  type_value i type arg st v {st'} (inl bool) h =
      subst
        (λ t. le_value (st' v) ≡ (if v == i.wanted_val then text_value t arg else le_value (st v)))
        (sym bool)
        (bool_value i arg st v (subst (λ t. set_wanted aton i t arg st ≡ some st') bool h))
  type_value i type arg st v {st'} (inr (inl s32)) h =
      subst
        (λ t. le_value (st' v) ≡ (if v == i.wanted_val then text_value t arg else le_value (st v)))
        (sym s32)
        (number_value i st (get_int arg >>= λ n. some (pattern32 n)) v (λ n. get_s32-lt arg)
          (subst (λ t. set_wanted aton i t arg st ≡ some st') s32 h))
  type_value i type arg st v {st'} (inr (inr u32)) h =
      subst
        (λ t. le_value (st' v) ≡ (if v == i.wanted_val then text_value t arg else le_value (st v)))
        (sym u32)
        (number_value i st (get_u32 arg) v (λ n. get_u32-lt arg)
          (subst (λ t. set_wanted aton i t arg st ≡ some st') u32 h))

  pair_value :
      (info : List CmdlineInfo) (name arg : List ℕ) (line : Line) (v : ℕ) {line' : Line}
      → AllInt info
      → take_pair aton info name arg line ≡ some line'
      → le_value (line'.store v) ≡ given_at info name arg v (le_value (line.store v))
  unfolding take_pair
  pair_value info name arg line v ints h =
      let (i, found, h1) = >>=-some (find_info info name) _ h in
      let (st, wrote, e) =
        >>=-some (set_wanted aton i i.type arg (see i i.type i.seen_val line.store)) _ h1 in
      let (type, unseen) = find-IntInfo info name ints found in
      let same : see i i.type i.seen_val line.store ≡ line.store =
        ap (λ s. see i i.type s line.store) unseen ∙ see-none aton i i.type line.store type in
      ap (λ l. le_value (l.store v)) (sym (some_eq e))
      ∙ type_value i i.type arg line.store v type
          (subst (λ s. set_wanted aton i i.type arg s ≡ some st) same wrote)
      ∙ sym (given_at_found info name arg v (le_value (line.store v)) found)

  -- A command line on a table of ints that is accepted leaves in each variable the number that it
  -- gives it, or what it held.
  pub parse-given :
      (info : List CmdlineInfo) (argp : List (List ℕ)) (line : Line) (v : ℕ) {line' : Line}
      → AllInt info
      → parse_generic_cmdline aton info argp line ≡ some line'
      → le_value (line'.store v) ≡ given info argp v (le_value (line.store v))
  unfolding parse_generic_cmdline given
  parse-given info [] line v ints h = ap (λ l. le_value (l.store v)) (sym (some_eq h))
  parse-given info (name ∷ []) line v ints h = none_absurd h
  parse-given info (name ∷ arg ∷ rest) line v ints h =
      let (l, took, h') = >>=-some (take_pair aton info name arg line) _ h in
      parse-given info rest l v ints h'
      ∙ ap (given info rest v) (pair_value info name arg line v ints took)
