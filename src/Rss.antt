-- ===== src/Rss.antt =====
-- ethtool.c, do_srxfh and do_srxfhindir: the indirection table, key and function of the receive
-- hash.

pub mod Args
pub mod Consistent
use ethtool.Base.{
  ℕ, zero, suc, ◌+◌, ◌-◌, ◌*◌, ◌%◌, ◌^◌, Bool, true, false, ◌&&◌, ◌||◌, not, Option, none, some,
  List, [], ◌∷◌, ◌==◌, ltb, leb, if◌then◌else◌, codes, take,
}
use ethtool.Base.Int.{ℤ, pos, negsuc, is_neg}
use ethtool.Base.Maybe.{◌>>=◌}
use ethtool.Base.Run.{Run, done, fault, and_then}
use ethtool.Clib.{str_eq}
use ethtool.Cmdline.{get_int_range}
use ethtool.Hashkey.{Hkey, parse_hkey}
use ethtool.Indir.{FillResult, exits, refuses, fills, fill_indir_table}
use ethtool.Strings.{StringDevice, get_stringset, name_text, eth_gstring_len}
use Args.{
  RssArgs, no_args, Expects, a_word, an_equal, a_start, more_weights, a_key, an_hfunc, a_context,
  int_max, eth_rxfh_context_alloc, natural, ranged, starts_with_digit, read_word, read_context,
  read_arg, read_end, read_args, is_given, are_compatible,
}

-- The answer to ETHTOOL_GRSSH.
pub record RssHead : Type 0 where
  pub indir_size : ℕ
  pub key_size : ℕ
  pub hfunc : ℕ

pub data HeadReply : Type 0 where
  answers : RssHead → HeadReply
  unsupported : HeadReply
  fails : HeadReply

-- ETHTOOL_SRSSH: `rss_config` holds the table at its start and the key at byte `key_at`.
pub record RssRequest : Type 0 where
  pub context : ℕ
  pub hfunc : ℕ
  pub indir_size : ℕ
  pub key_size : ℕ
  pub table : List ℕ
  pub key_at : ℕ
  pub key : Option (List ℕ)

-- ETHTOOL_SRXFHINDIR
pub record IndirRequest : Type 0 where
  pub size : ℕ
  pub table : List ℕ

pub record SetReply (S : Type 0) : Type 0 where
  pub err : ℤ
  pub state : S

-- The kernel's side, and whether an allocation of so many bytes succeeds.
pub record RssDevice (S : Type 0) : Type 0 where
  pub rings : S → ℤ
  pub head : S → HeadReply
  pub names : S → StringDevice
  pub indir_head : S → Option ℕ
  pub memory : ℕ → Bool
  pub set_rss : S → RssRequest → SetReply S
  pub set_indir : S → IndirRequest → SetReply S

pub record Ended (S : Type 0) : Type 0 where
  pub status : ℕ
  pub state : S

abbrev pub eth_ss_rss_hash_funcs : ℕ
eth_ss_rss_hash_funcs = 5

-- The bit of the first name that is asked for, from name i on. A set has at most 32 names: the
-- shift by more is undefined in C.
pub find_hfunc : ℕ → List (List ℕ) → List ℕ → ℕ
find_hfunc i [] req = 0
find_hfunc i (name ∷ names) req =
    let rest = find_hfunc (i + 1) names req in
    if str_eq (take eth_gstring_len (name_text name)) (take eth_gstring_len req) && ltb i 32
    then 2 ^ i
    else rest

-- The bit of the function, or the return of 1.
unfoldable pub choose_hfunc : StringDevice → RssHead → Option (List ℕ) → Option ℕ
choose_hfunc names head none = some 0
choose_hfunc names head (some req) =
    let bit_of : List (List ℕ) → Option ℕ =
      λ list. if find_hfunc 0 list req == 0 then none else some (find_hfunc 0 list req) in
    if head.hfunc == 0
    then some 0
    else (get_stringset names eth_ss_rss_hash_funcs 0 true >>= bit_of)

unfoldable pub choose_key : RssHead → Option (List ℕ) → Hkey
choose_key head none = record { status = 0; key = none }
choose_key head (some text) = parse_hkey head.key_size text

-- The request that is sent, the status that is returned before, or exit_bad_args.
pub data Built : Type 0 where
  sends : RssRequest → Built
  returns : ℕ → Built
  leaves : Built

abbrev pub indir_bytes : RssArgs → RssHead → ℕ
indir_bytes a head =
    if not (a.equal == 0) || is_given a.weights then head.indir_size * 4 % 2 ^ 32 else 0

abbrev pub with_key : RssArgs → RssHead → Option (List ℕ) → ℕ → ℕ → ℕ → List ℕ → RssRequest
with_key a head none req_hfunc indir_size key_size table = record {
  context = a.context;
  hfunc = req_hfunc;
  indir_size = indir_size;
  key_size = 0;
  table = table;
  key_at = indir_bytes a head;
  key = none;
}
with_key a head (some key) req_hfunc indir_size key_size table = record {
  context = a.context;
  hfunc = req_hfunc;
  indir_size = indir_size;
  key_size = key_size;
  table = table;
  key_at = indir_bytes a head;
  key = some (take key_size key);
}

unfoldable pub with_table : RssArgs → RssHead → Option (List ℕ) → ℕ → FillResult → Built
with_table a head key req_hfunc exits = leaves
with_table a head key req_hfunc refuses = returns 1
with_table a head key req_hfunc (fills size table) =
    sends (with_key a head key req_hfunc size head.key_size table)

abbrev pub fill_for : RssArgs → ℕ → FillResult
fill_for a size = fill_indir_table size a.default a.start a.equal a.weights a.num_weights

unfoldable pub with_hfunc : (ℕ → Bool) → RssArgs → RssHead → Option (List ℕ) → Option ℕ → Built
with_hfunc memory a head key none = returns 1
with_hfunc memory a head key (some req_hfunc) =
    if not (memory (indir_bytes a head + head.key_size))
    then returns 1
    else if a.delete
    then sends (with_key a head key req_hfunc 0 0 [])
    else with_table a head key req_hfunc (fill_for a head.indir_size)

unfoldable pub build : StringDevice → (ℕ → Bool) → RssArgs → RssHead → Built
build names memory a head =
    let hkey = choose_key head a.key in
    if not (hkey.status == 0)
    then returns hkey.status
    else with_hfunc memory a head hkey.key (choose_hfunc names head a.hfunc)

module _ {S : Type 0} (dev : RssDevice S) where
  abbrev pub after_set : SetReply S → Ended S
  after_set r = record { status = if is_neg r.err then 1 else 0; state = r.state }

  unfoldable pub send_indir : S → FillResult → Option (Ended S)
  send_indir s exits = none
  send_indir s refuses = some (record { status = 1; state = s })
  send_indir s (fills size table) =
      some (after_set (dev.set_indir s (record { size = size; table = table })))

  unfoldable pub do_srxfhindir : S → RssArgs → Option ℕ → Option (Ended S)
  do_srxfhindir s a none = some (record { status = 1; state = s })
  do_srxfhindir s a (some size) =
      if dev.memory (size * 4)
      then send_indir s (fill_for a size)
      else some (record { status = 1; state = s })

  unfoldable pub send_built : S → Built → Option (Ended S)
  send_built s (sends r) = some (after_set (dev.set_rss s r))
  send_built s (returns status) = some (record { status = status; state = s })
  send_built s leaves = none

  unfoldable pub with_head : S → RssArgs → HeadReply → Option (Ended S)
  with_head s a (answers head) = send_built s (build (dev.names s) dev.memory a head)
  with_head s a unsupported =
      if not (is_given a.key) && not (is_given a.hfunc) && a.context == 0
      then do_srxfhindir s a (dev.indir_head s)
      else some (record { status = 1; state = s })
  with_head s a fails = some (record { status = 1; state = s })

  unfoldable pub with_args : S → Option RssArgs → Option (Ended S)
  with_args s none = none
  with_args s (some a) =
      if not (are_compatible a)
      then some (record { status = 1; state = s })
      else if is_neg (dev.rings s)
      then some (record { status = 1; state = s })
      else with_head s a (dev.head s)

  unfoldable pub do_srxfh : S → List (List ℕ) → Run (Option (Ended S))
  do_srxfh s [] = done none
  do_srxfh s (arg ∷ rest) =
      and_then (read_args (arg ∷ rest) a_word no_args) (λ a. done (with_args s a))
