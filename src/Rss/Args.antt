-- ===== src/Rss/Args.antt =====
-- do_srxfh, the arguments. The loop over them is a state machine: `Expects` is what the code reads next.
use ethtool.Base.{
  ℕ, ◌+◌, ◌-◌, ◌%◌, ◌^◌, Bool, true, false, ◌&&◌, ◌||◌, not, Option, none, some, List, [], ◌∷◌,
  ◌==◌, leb, if◌then◌else◌, codes,
}
use ethtool.Base.Int.{ℤ, pos, negsuc}
use ethtool.Base.Maybe.{◌>>=◌}
use ethtool.Base.Run.{Run, done, fault}
use ethtool.Clib.{str_eq}
use ethtool.Cmdline.{get_int_range}

-- The variables that the arguments set.
pub record RssArgs : Type 0 where
  pub equal : ℕ
  pub default : Bool
  pub start : ℕ
  pub weights : Option (List (List ℕ))
  pub num_weights : ℕ
  pub key : Option (List ℕ)
  pub hfunc : Option (List ℕ)
  pub context : ℕ
  pub delete : Bool

abbrev pub no_args : RssArgs
no_args = record {
  equal = 0;
  default = false;
  start = 0;
  weights = none;
  num_weights = 0;
  key = none;
  hfunc = none;
  context = 0;
  delete = false;
}

pub data Expects : Type 0 where
  a_word : Expects
  an_equal : Expects
  a_start : Expects
  more_weights : Expects
  a_key : Expects
  an_hfunc : Expects
  a_context : Expects

abbrev pub int_max : ℕ
int_max = 0x7fffffff

abbrev pub eth_rxfh_context_alloc : ℕ
eth_rxfh_context_alloc = 0xffffffff

abbrev pub natural : ℤ → ℕ
natural (pos n) = n
natural (negsuc n) = 0

-- get_int_range with bounds that are not negative.
abbrev pub ranged : List ℕ → ℕ → ℕ → Option ℕ
ranged str low high = get_int_range str (pos low) (pos high) >>= λ v. some (natural v)

-- `isdigit(arg[0])`
abbrev pub starts_with_digit : List ℕ → Bool
starts_with_digit [] = false
starts_with_digit (c ∷ s) = leb b'0' c && leb c b'9'

-- `none` is exit_bad_args.
unfoldable pub read_word : List ℕ → List (List ℕ) → RssArgs → Option (Expects × RssArgs)
read_word word rest a =
    if str_eq word (codes "equal")
    then some (an_equal, a)
    else if str_eq word (codes "start")
    then some (a_start, a)
    else if str_eq word (codes "weight")
    then some (more_weights, record a { weights = some rest })
    else if str_eq word (codes "hkey")
    then some (a_key, a)
    else if str_eq word (codes "default")
    then some (a_word, record a { default = true })
    else if str_eq word (codes "hfunc")
    then some (an_hfunc, a)
    else if str_eq word (codes "context")
    then some (a_context, a)
    else if str_eq word (codes "delete")
    then some (a_word, record a { delete = true })
    else none

unfoldable pub read_context : List ℕ → Option ℕ
read_context arg =
    if str_eq arg (codes "new")
    then some eth_rxfh_context_alloc
    else ranged arg 1 (eth_rxfh_context_alloc - 1)

-- One argument, with those behind it.
unfoldable pub read_arg : Expects → List ℕ → List (List ℕ) → RssArgs → Option (Expects × RssArgs)
read_arg a_word arg rest a = read_word arg rest a
read_arg an_equal arg rest a = ranged arg 1 int_max >>= λ v. some (a_word, record a { equal = v })
read_arg a_start arg rest a = ranged arg 0 int_max >>= λ v. some (a_word, record a { start = v })
read_arg more_weights arg rest a =
    if starts_with_digit arg
    then some (more_weights, record a { num_weights = (a.num_weights + 1) % 2 ^ 32 })
    else if a.num_weights == 0
    then none
    else read_word arg rest a
read_arg a_key arg rest a = some (a_word, record a { key = some arg })
read_arg an_hfunc arg rest a = some (a_word, record a { hfunc = some arg })
read_arg a_context arg rest a = read_context arg >>= λ v. some (a_word, record a { context = v })

-- Behind the last argument stands a null pointer, which strcmp of `context` reads.
unfoldable pub read_end : Expects → RssArgs → Run (Option RssArgs)
read_end a_word a = done (some a)
read_end more_weights a = done (if a.num_weights == 0 then none else some a)
read_end a_context a = fault
read_end _ a = done none

unfoldable pub read_args : List (List ℕ) → Expects → RssArgs → Run (Option RssArgs)
read_args [] e a = read_end e a
read_args (arg ∷ rest) e a = elim (read_arg e arg rest a) [
  | none ↦ done none
  | some (e', a') ↦ read_args rest e' a'
]

abbrev pub is_given {ℓ} : {A : Type ℓ} → Option A → Bool
is_given none = false
is_given (some a) = true

-- The tests behind the loop, in their order: none of them returned 1.
unfoldable pub are_compatible : RssArgs → Bool
are_compatible a =
    let equal = not (a.equal == 0) in
    let weight = is_given a.weights in
    let start = not (a.start == 0) in
    let context = not (a.context == 0) in
    not (equal && weight)
    && not (equal && a.default)
    && not (weight && a.default)
    && not (start && a.default)
    && not (start && not (equal || weight))
    && not (a.default && context)
    && not (a.delete && not context)
    && not (a.delete && weight)
    && not (a.delete && equal)
    && not (a.delete && a.default)
    && not (a.delete && is_given a.key)
