-- ===== src/Feature.antt =====
-- ethtool.c, off_flag_def and get_feature_defs: the names of the features that a driver has, and the
-- legacy offload to which each belongs.
pub mod Pattern
pub mod Change
pub mod Command
use ethtool.Base.{
  ℕ, zero, suc, ◌+◌, ◌-◌, ◌*◌, ◌^◌, Bool, true, false, not, Option, none, some, List, [], ◌∷◌, ◌==◌,
  ltb, if◌then◌else◌, codes, length, take, drop,
}
use ethtool.Rxclass.Value.{is_empty}
use ethtool.Strings.{StringDevice, get_stringset, name_text, eth_gstring_len}

-- struct off_flag_def, without the long name, which is printed: whether there are requests to get
-- and to set it alone, and its flag.
pub record OffFlagDef : Type 0 where
  pub short_name : List ℕ
  pub kernel_name : List ℕ
  pub has_cmd : Bool
  pub value : ℕ

abbrev pub off_flag : List ℕ → List ℕ → Bool → ℕ → OffFlagDef
off_flag short kernel has_cmd value = record {
  short_name = short;
  kernel_name = kernel;
  has_cmd = has_cmd;
  value = value;
}

abbrev pub off_flag_def : List OffFlagDef
off_flag_def =
    off_flag (codes "rx") (codes "rx-checksum") true (2 ^ 0)
    ∷ off_flag (codes "tx") (codes "tx-checksum-*") true (2 ^ 1)
    ∷ off_flag (codes "sg") (codes "tx-scatter-gather*") true (2 ^ 2)
    ∷ off_flag (codes "tso") (codes "tx-tcp*-segmentation") true (2 ^ 3)
    ∷ off_flag (codes "ufo") (codes "tx-udp-fragmentation") true (2 ^ 4)
    ∷ off_flag (codes "gso") (codes "tx-generic-segmentation") true (2 ^ 5)
    ∷ off_flag (codes "gro") (codes "rx-gro") true (2 ^ 6)
    ∷ off_flag (codes "lro") (codes "rx-lro") false (2 ^ 15)
    ∷ off_flag (codes "rxvlan") (codes "rx-vlan-hw-parse") false (2 ^ 8)
    ∷ off_flag (codes "txvlan") (codes "tx-vlan-hw-insert") false (2 ^ 7)
    ∷ off_flag (codes "ntuple") (codes "rx-ntuple-filter") false (2 ^ 27)
    ∷ off_flag (codes "rxhash") (codes "rx-hashing") false (2 ^ 28)
    ∷ []

-- The comparison of a name with a pattern, character by character; at a star it goes to the end of
-- the name, by as many characters as stand behind the star.
unfoldable pub matches : List ℕ → List ℕ → Bool
matches [] name = is_empty name
matches (c ∷ pattern) [] =
    let skipped = matches pattern [] in
    if c == b'*' then (if ltb 0 (length pattern) then false else skipped) else false
matches (c ∷ pattern) (d ∷ name) =
    let skipped = matches pattern (drop (suc (length name) - length pattern) (d ∷ name)) in
    let next = matches pattern name in
    if c == b'*'
    then if ltb (suc (length name)) (length pattern) then false else skipped
    else if not (c == d)
    then false
    else next

-- The first of the offloads whose pattern the name matches, from number j on.
unfoldable pub find_off_flag : List OffFlagDef → ℕ → List ℕ → Option ℕ
find_off_flag [] j name = none
find_off_flag (f ∷ flags) j name =
    if matches f.kernel_name name then some j else find_off_flag flags (j + 1) name

-- struct feature_def; an index of -1 is `none`.
pub record FeatureDef : Type 0 where
  pub name : List ℕ
  pub off_flag_index : Option ℕ

unfoldable pub feature_def : List ℕ → FeatureDef
feature_def bytes =
    let name = name_text (take eth_gstring_len bytes) in
    record { name = name; off_flag_index = find_off_flag off_flag_def 0 name }

unfoldable pub feature_defs : List (List ℕ) → List FeatureDef
feature_defs [] = []
feature_defs (bytes ∷ names) = feature_def bytes ∷ feature_defs names

-- Without names: whether errno is one of EOPNOTSUPP, EINVAL and EPERM.
unfoldable pub names_or_none : Bool → Option (List (List ℕ)) → Option (List (List ℕ))
names_or_none tolerated none = if tolerated then some [] else none
names_or_none tolerated (some names) = some names

abbrev pub eth_ss_features : ℕ
eth_ss_features = 4

-- The last parameter is the success of malloc for so many features.
unfoldable pub defs_of : (ℕ → Bool) → Option (List (List ℕ)) → Option (List FeatureDef)
defs_of memory none = none
defs_of memory (some names) = if memory (length names) then some (feature_defs names) else none

unfoldable pub get_feature_defs : StringDevice → Bool → (ℕ → Bool) → Option (List FeatureDef)
get_feature_defs dev tolerated memory =
    defs_of memory (names_or_none tolerated (get_stringset dev eth_ss_features 0 true))
