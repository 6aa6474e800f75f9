-- ===== src/Main/Options.antt =====
-- find_option and main.
use ethtool.Base.{
  ℕ, suc, ◌+◌, ◌-◌, ◌≤◌, ◌≡◌, ◌≢◌, ◌↔◌, ◌⊎◌, inl, inr, refl, sym, ap, ◌∙◌, subst, Bool, true, false,
  ◌&&◌, ◌||◌, not, Option, none, some, List, [], ◌∷◌, ◌==◌, leb, arith, Bool-cases, if_elim,
  Option-cases, ==_iff, ==_false, length,
}
use ethtool.Base.Maybe.{some_eq, none_absurd}
use ethtool.Clib.{str_eq, str_eq-eq}
use ethtool.Main.{
  OptionEntry, args, names_of, has_name, find_from, find_option, entry_at, Started, bad_args,
  no_socket, call, ifnamsiz, is_dash, with_device, opt_found, main_with, main, Func, gset,
}

-- The names of entry k, none beyond the table.
abbrev pub names_at : Option OptionEntry → List (List ℕ)
names_at none = []
names_at (some o) = names_of o.opts

unfoldable pub any_has : List OptionEntry → List ℕ → Bool
any_has [] name = false
any_has (o ∷ os) name = has_name name (names_of o.opts) || any_has os name

unfoldable pub none_in : List (List ℕ) → List OptionEntry → Bool
none_in [] os = true
none_in (name ∷ names) os = not (any_has os name) && none_in names os

unfoldable pub all_apart : List OptionEntry → Bool
all_apart [] = true
all_apart (o ∷ os) = none_in (names_of o.opts) os && all_apart os

args_apart : all_apart args ≡ true
unfolding all_apart none_in any_has has_name names_of str_eq
args_apart = refl

both : (a b : Bool) → (a && b) ≡ true → (a ≡ true) × (b ≡ true)
both a b h = ground arith

either : (a b : Bool) → (a || b) ≡ true → (a ≡ true) ⊎ (b ≡ true)
either a b h = ground arith

neither : (a b : Bool) → (a || b) ≡ false → (a ≡ false) × (b ≡ false)
neither a b h = ground arith

clash : true ≢ false
clash e = cc

too_long : (n : ℕ) → leb ifnamsiz n ≡ true → ifnamsiz ≤ n
too_long n h = ground arith

fits : (n : ℕ) → leb ifnamsiz n ≡ false → suc n ≤ ifnamsiz
fits n h = ground arith

not-true : (b : Bool) → not b ≡ true → b ≡ false
not-true b h = ground arith

-- A name of the first entry is in no later one.
not_later :
    (names : List (List ℕ)) (os : List OptionEntry) (arg : List ℕ)
    → none_in names os ≡ true
    → has_name arg names ≡ true
    → any_has os arg ≡ false
unfolding none_in has_name
not_later [] os arg h k = absurd (cc)
not_later (name ∷ names) os arg h k =
    let (here, rest) = both (not (any_has os name)) (none_in names os) h in
    elim (either (str_eq arg name) (has_name arg names) k) [
      | inl same ↦ ap (any_has os) (str_eq-eq arg name same) ∙ not-true (any_has os name) here
      | inr other ↦ not_later names os arg rest other
    ]

none_at :
    (os : List OptionEntry) (k : ℕ) (arg : List ℕ)
    → any_has os arg ≡ false
    → has_name arg (names_at (entry_at os k)) ≡ false
unfolding any_has entry_at has_name
none_at [] k arg h = refl
none_at (o ∷ os) k arg h =
    let (first, rest) = neither (has_name arg (names_of o.opts)) (any_has os arg) h in
    elim (Bool-cases (k == 0)) [
      | inl here ↦ rw here first
      | inr later ↦ rw later (none_at os (k - 1) arg rest)
    ]

at_least : (os : List OptionEntry) (j m : ℕ) (arg : List ℕ) → find_from os j arg ≡ some m → j ≤ m
unfolding find_from
at_least [] j m arg h = none_absurd h
at_least (o ∷ os) j m arg h = elim (Bool-cases (has_name arg (names_of o.opts))) [
  | inl yes_ ↦ let e : j ≡ m = some_eq (rw yes_ at h) in omega arith
  | inr no_ ↦ let le = at_least os (j + 1) m arg (rw no_ at h) in omega arith
]

found_named :
    (os : List OptionEntry) (j k : ℕ) (arg : List ℕ)
    → find_from os j arg ≡ some (j + k)
    → has_name arg (names_at (entry_at os k)) ≡ true
unfolding find_from entry_at
found_named [] j k arg h = none_absurd h
found_named (o ∷ os) j k arg h = elim (Bool-cases (has_name arg (names_of o.opts))) [
  | inl yes_ ↦
      let e : j ≡ j + k = some_eq (rw yes_ at h) in
      let first : (k == 0) ≡ true = (==_iff k 0).1 (omega arith) in rw first yes_
  | inr no_ ↦
      let rest : find_from os (j + 1) arg ≡ some (j + k) = (rw no_ at h) in
      let le = at_least os (j + 1) (j + k) arg rest in
      let later : (k == 0) ≡ false = ==_false k 0 (λ e. omega arith) in
      let at : j + k ≡ j + 1 + (k - 1) = omega arith in
      rw later (found_named os (j + 1) (k - 1) arg (rest ∙ ap some at))
]

named_found :
    (os : List OptionEntry) (j k : ℕ) (arg : List ℕ)
    → all_apart os ≡ true
    → has_name arg (names_at (entry_at os k)) ≡ true
    → find_from os j arg ≡ some (j + k)
unfolding find_from entry_at all_apart has_name
named_found [] j k arg a h = absurd (cc)
named_found (o ∷ os) j k arg a h =
    let (apart, rest) = both (none_in (names_of o.opts) os) (all_apart os) a in
    elim (Bool-cases (k == 0)) [
      | inl here ↦
          let yes_ : has_name arg (names_of o.opts) ≡ true = (rw here at h) in
          let zero_k : k ≡ 0 = (==_iff k 0).0 here in
          let at : j ≡ j + k = omega arith in rw yes_ (ap some at)
      | inr later ↦
          let k_pos : k ≢ 0 = λ e. let t = (==_iff k 0).1 e in absurd (cc) in
          let in_rest : has_name arg (names_at (entry_at os (k - 1))) ≡ true = (rw later at h) in
          let at : j + 1 + (k - 1) ≡ j + k = omega arith in
          elim (Bool-cases (has_name arg (names_of o.opts))) [
            | inl yes_ ↦
                let none_there =
                  none_at os (k - 1) arg (not_later (names_of o.opts) os arg apart yes_) in
                absurd (clash (sym in_rest ∙ none_there))
            | inr no_ ↦ rw no_ (named_found os (j + 1) (k - 1) arg rest in_rest ∙ ap some at)
          ]
    ]

-- The first argument is found at an entry of the table exactly if it is one of the names of that
-- entry: no name stands twice in the table.
pub find_option-names_at :
    (arg : List ℕ) (k : ℕ)
    → (find_option arg ≡ some k) ↔ (has_name arg (names_at (entry_at args k)) ≡ true)
unfolding find_option
find_option-names_at arg k = (
  λ h. found_named args 0 k arg (h ∙ ap some (omega arith)),
  λ h. named_found args 0 k arg args_apart h ∙ ap some (omega arith),
)

-- No name of a device, or one that does not fit the buffer with its NUL.
abbrev pub BadDevice : List (List ℕ) → Type 0
BadDevice argp =
    (argp ≡ [])
    ⊎ ((devname : List ℕ) × (rest : List (List ℕ)) × (argp ≡ devname ∷ rest)
        × (ifnamsiz ≤ length devname))

-- The entry that an argument names.
abbrev pub Names : List ℕ → OptionEntry → Type 0
Names arg o =
    (k : ℕ) × (has_name arg (names_at (entry_at args k)) ≡ true) × (entry_at args k ≡ some o)

-- The first argument names no entry and does not begin with a dash: it is a device.
abbrev pub IsPlain : List ℕ → Type 0
IsPlain arg = (find_option arg ≡ none) × (is_dash arg ≡ false)

-- How main ends: with the usage if there is no argument, an unknown one that begins with a dash, or
-- a bad device where one is wanted; without a socket; or with the function of the entry that the
-- first argument names, or do_gset where it is a device. A function that wants a device gets its
-- name, which fits the 16 bytes of its buffer with the NUL.
unfoldable pub Runs : Bool → List (List ℕ) → Started → Type 0
Runs opens argp bad_args =
    (argp ≡ [])
    ⊎ (((arg : List ℕ) × (rest : List (List ℕ)) × (argp ≡ arg ∷ rest)
          × (find_option arg ≡ none)
          × (is_dash arg ≡ true))
        ⊎ (((arg : List ℕ) × (rest : List (List ℕ)) × (o : OptionEntry) × (argp ≡ arg ∷ rest)
              × Names arg o
              × (o.want_device ≡ true)
              × BadDevice rest)
            ⊎ ((arg : List ℕ) × (rest : List (List ℕ)) × (argp ≡ arg ∷ rest)
                × IsPlain arg
                × BadDevice argp)))
Runs opens argp no_socket = opens ≡ false
Runs opens argp (call func (some devname) rest) =
    (suc (length devname) ≤ ifnamsiz)
    × (opens ≡ true)
    × (((arg : List ℕ) × (o : OptionEntry) × (argp ≡ arg ∷ devname ∷ rest)
          × Names arg o
          × (o.want_device ≡ true)
          × (func ≡ o.func))
        ⊎ ((argp ≡ devname ∷ rest) × (func ≡ gset) × IsPlain devname))
Runs opens argp (call func none rest) =
    (arg : List ℕ) × (o : OptionEntry) × (argp ≡ arg ∷ rest)
    × Names arg o
    × (o.want_device ≡ false)
    × (func ≡ o.func)

-- What with_device starts, for any property of the calls.
device_call :
    (opens : Bool) (P : Started → Type 0) (func : Func) (argp : List (List ℕ))
    → (BadDevice argp → P bad_args)
    → (opens ≡ false → P no_socket)
    → ((devname : List ℕ) (rest : List (List ℕ))
        → argp ≡ devname ∷ rest
        → suc (length devname) ≤ ifnamsiz
        → opens ≡ true
        → P (call func (some devname) rest))
    → P (with_device opens func argp)
unfolding with_device
device_call opens P func [] b n c = b (inl refl)
device_call opens P func (devname ∷ rest) b n c =
    if_elim P (leb ifnamsiz (length devname))
      (λ e. b (inr (devname, rest, refl, too_long (length devname) e)))
      (λ e. if_elim P opens (λ e'. c devname rest refl (fits (length devname) e) e') n)

entry-Runs :
    (opens : Bool) (arg : List ℕ) (argp : List (List ℕ)) (o : OptionEntry)
    → Names arg o
    → Runs opens (arg ∷ argp) (opt_found opens (some o) argp)
unfolding opt_found Runs
entry-Runs opens arg argp o n = elim (Bool-cases o.want_device) [
  | inl wants ↦ rw wants (
      device_call opens (Runs opens (arg ∷ argp)) o.func argp
        (λ b. inr (inr (inl (arg, argp, o, refl, n, wants, b)))) (λ e. e)
        (λ devname rest e l s. (l, s, inl (arg, o, ap (λ t. arg ∷ t) e, n, wants, refl))))
  | inr alone ↦ rw alone (arg, o, refl, n, alone, refl)
]

plain-Runs :
    (opens : Bool) (arg : List ℕ) (argp : List (List ℕ))
    → find_option arg ≡ none
    → Runs opens (arg ∷ argp) (main_with opens none arg argp)
unfolding main_with Runs
plain-Runs opens arg argp h =
    if_elim (Runs opens (arg ∷ argp)) (is_dash arg) (λ e. inr (inl (arg, argp, refl, h, e)))
      (λ e.
        device_call opens (Runs opens (arg ∷ argp)) gset (arg ∷ argp)
          (λ b. inr (inr (inr (arg, argp, refl, (h, e), b)))) (λ s. s)
          (λ devname rest same l s.
            let at : arg ≡ devname = cc in (l, s, inr (same, refl, subst IsPlain at (h, e)))))

option-Runs :
    (opens : Bool) (arg : List ℕ) (argp : List (List ℕ)) (k : ℕ)
    → find_option arg ≡ some k
    → Runs opens (arg ∷ argp) (main_with opens (some k) arg argp)
unfolding main_with has_name
option-Runs opens arg argp k h =
    let named = (find_option-names_at arg k).0 h in
    elim (Option-cases (entry_at args k)) [
      | inl nothing ↦ absurd (clash (sym named ∙ ap (λ o. has_name arg (names_at o)) nothing))
      | inr (o, found) ↦ rw found (entry-Runs opens arg argp o (k, named, found))
    ]

-- Whatever the arguments are, main ends in one of these ways.
pub main-Runs : (opens : Bool) (argp : List (List ℕ)) → Runs opens argp (main opens argp)
unfolding main Runs
main-Runs opens [] = inl refl
main-Runs opens (arg ∷ argp) = elim (Option-cases (find_option arg)) [
  | inl unknown ↦ rw unknown (plain-Runs opens arg argp unknown)
  | inr (k, known) ↦ rw known (option-Runs opens arg argp k known)
]
