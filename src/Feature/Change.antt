-- ===== src/Feature/Change.antt =====
-- ethtool.c, get_features and do_sfeatures: the features that are changed. The words of a field of
-- the blocks are a function of the number of the block. What is only printed is left out: the names
-- of offloads that are fixed, and the actual changes.
pub mod Words
pub mod Merges
use ethtool.Base.{
  ℕ, zero, suc, ◌+◌, ◌-◌, ◌*◌, ◌/◌, ◌%◌, ◌^◌, bit_and, bit_or, Bool, true, false, ◌&&◌, ◌||◌, not,
  Option, none, some, List, [], ◌∷◌, ◌++◌, ◌==◌, if◌then◌else◌, length,
}
use ethtool.Base.Bits.{bit_not}
use ethtool.Base.Bytes.{le_bytes, le_value}
use ethtool.Base.Int.{ℤ, is_neg}
use ethtool.Base.Maybe.{◌>>=◌}
use ethtool.Cmdline.{CmdlineInfo, Store, Line, flag_to_cmdline_info, parse_generic_cmdline}
use ethtool.Feature.{OffFlagDef, off_flag_def, FeatureDef}

abbrev pub Words : Type 0
Words = ℕ → ℕ

-- FEATURE_BITS_TO_BLOCKS, FEATURE_FIELD_FLAG, FEATURE_BIT_SET and FEATURE_BIT_IS_SET.
abbrev pub feature_bits_to_blocks : ℕ → ℕ
feature_bits_to_blocks n_bits = (n_bits + 31) / 32

abbrev pub feature_field_flag : ℕ → ℕ
feature_field_flag index = 2 ^ (index % 32)

unfoldable pub feature_bit_set : Words → ℕ → Words
feature_bit_set words index block =
    if block == index / 32 then bit_or (words block) (feature_field_flag index) else words block

unfoldable pub feature_bit_is_set : Words → ℕ → Bool
feature_bit_is_set words index = not (bit_and (feature_field_flag index) (words (index / 32)) == 0)

-- struct feature_state, of whose fields `requested` is only printed.
pub record FeatureState : Type 0 where
  pub off_flags : ℕ
  pub available : Words
  pub active : Words
  pub never_changed : Words

-- struct ethtool_sfeatures
pub record Sfeatures : Type 0 where
  pub valid : Words
  pub requested : Words

-- The kernel's side: a legacy offload of a number, the flags, the features. `fresh` is what malloc
-- leaves in a state, which stays there when the features cannot be read.
pub record FeatureDevice (S : Type 0) : Type 0 where
  pub get_offload : S → ℕ → Option ℕ
  pub get_flags : S → Option ℕ
  pub get_features : S → ℕ → Option FeatureState
  pub fresh : S → FeatureState
  pub set_features : S → Sfeatures → ℤ × S
  pub set_offload : S → ℕ → ℕ → Bool × S
  pub set_flags : S → ℕ → Bool × S

abbrev pub eth_flag_ext_mask : ℕ
eth_flag_ext_mask = 2 ^ 15 + 2 ^ 8 + 2 ^ 7 + 2 ^ 27 + 2 ^ 28

-- The flags that were collected, and whether anything was read.
pub record Collected : Type 0 where
  pub off_flags : ℕ
  pub any : Bool

abbrev pub collect : Collected → ℕ → Option ℕ → Collected
collect c value none = c
collect c value (some on) = record {
  off_flags = if on == 0 then c.off_flags else bit_or c.off_flags value;
  any = true;
}

abbrev pub collect_flags : Collected → Option ℕ → Collected
collect_flags c none = c
collect_flags c (some flags) = record {
  off_flags = bit_or c.off_flags (bit_and flags eth_flag_ext_mask);
  any = true;
}

abbrev pub with_features : Collected → FeatureState → Option FeatureState → Option FeatureState
with_features c fresh none = if c.any then some (record fresh { off_flags = c.off_flags }) else none
with_features c fresh (some state) = some (record state { off_flags = c.off_flags })

module _ {S : Type 0} (dev : FeatureDevice S) where
  unfoldable pub get_offloads : S → List OffFlagDef → ℕ → Collected → Collected
  get_offloads s [] i c = c
  get_offloads s (f ∷ flags) i c =
      get_offloads s flags (i + 1)
        (if f.has_cmd then collect c f.value (dev.get_offload s i) else c)

  -- `none`: nothing could be read.
  unfoldable pub get_features : S → ℕ → Option FeatureState
  get_features s n_features =
      let offloads = get_offloads s off_flag_def 0 (record { off_flags = 0; any = false }) in
      with_features (collect_flags offloads (dev.get_flags s)) (dev.fresh s)
        (if n_features == 0 then none else dev.get_features s (feature_bits_to_blocks n_features))

-- The variables of the command line: off_flags_wanted, off_flags_mask, and for each block the words
-- `requested` and `valid`.
abbrev pub requested_var : ℕ → ℕ
requested_var block = 3 + 2 * block

abbrev pub valid_var : ℕ → ℕ
valid_var block = 4 + 2 * block

unfoldable pub offload_infos : List OffFlagDef → List CmdlineInfo
offload_infos [] = []
offload_infos (f ∷ flags) = flag_to_cmdline_info f.short_name f.value 0 1 2 ∷ offload_infos flags

unfoldable pub feature_infos : ℕ → List FeatureDef → List CmdlineInfo
feature_infos i [] = []
feature_infos i (d ∷ defs) =
    flag_to_cmdline_info d.name (feature_field_flag i) (requested_var (i / 32)) (valid_var (i / 32))
      2
    ∷ feature_infos (i + 1) defs

abbrev pub all_clear : Store
all_clear v = le_bytes 4 0

abbrev pub words_of : Store → (ℕ → ℕ) → Words
words_of st var block = le_value (st (var block))

abbrev pub is_flag : Option ℕ → ℕ → Bool
is_flag none i = false
is_flag (some j) i = j == i

-- The feature j of an offload i that the user gave.
unfoldable pub change_feature : FeatureState → ℕ → Bool → FeatureDef → ℕ → Sfeatures → Sfeatures
change_feature old i wanted d j e =
    if not (is_flag d.off_flag_index i)
      || not (feature_bit_is_set old.available j)
      || feature_bit_is_set old.never_changed j
    then e
    else if feature_bit_is_set e.valid j
    then e
    else record {
      valid = feature_bit_set e.valid j;
      requested = if wanted then feature_bit_set e.requested j else e.requested;
    }

unfoldable pub change_features :
    FeatureState → ℕ → Bool → List FeatureDef → ℕ → Sfeatures → Sfeatures
change_features old i wanted [] j e = e
change_features old i wanted (d ∷ defs) j e =
    change_features old i wanted defs (j + 1) (change_feature old i wanted d j e)

abbrev pub has_flag : ℕ → ℕ → Bool
has_flag flags value = not (bit_and flags value == 0)

unfoldable pub change_offloads :
    FeatureState → ℕ → ℕ → List FeatureDef → List OffFlagDef → ℕ → Sfeatures → Sfeatures
change_offloads old wanted mask defs [] i e = e
change_offloads old wanted mask defs (f ∷ flags) i e =
    change_offloads old wanted mask defs flags (i + 1) (
      if has_flag mask f.value then change_features old i (has_flag wanted f.value) defs 0 e else e)
