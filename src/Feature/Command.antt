-- ===== src/Feature/Command.antt =====
-- ethtool.c, do_sfeatures: the command that changes features. `none` is exit_bad_args.
pub mod Request
pub mod Sent
use ethtool.Base.{
  ℕ, zero, suc, ◌+◌, ◌*◌, bit_and, bit_or, Bool, true, false, ◌&&◌, ◌||◌, not, Option, none, some,
  List, [], ◌∷◌, ◌++◌, ◌==◌, if◌then◌else◌, length,
}
use ethtool.Base.Bits.{bit_not}
use ethtool.Base.Bytes.{le_value}
use ethtool.Base.Int.{is_neg}
use ethtool.Base.Maybe.{◌>>=◌}
use ethtool.Cmdline.{CmdlineInfo, Store, Line, parse_generic_cmdline}
use ethtool.Feature.{OffFlagDef, off_flag_def, FeatureDef, get_feature_defs}
use ethtool.Feature.Change.{
  Words, FeatureState, Sfeatures, FeatureDevice, get_features, feature_bits_to_blocks,
  requested_var, valid_var, offload_infos, feature_infos, all_clear, words_of, has_flag,
  change_offloads, eth_flag_ext_mask,
}
use ethtool.Strings.{StringDevice}

pub record Ended (S : Type 0) : Type 0 where
  pub status : ℕ
  pub state : S

abbrev pub features_table : List FeatureDef → List CmdlineInfo
features_table defs = offload_infos off_flag_def ++ feature_infos 0 defs

-- What the user asked for by the names of the features.
abbrev pub parsed_features : Store → Sfeatures
parsed_features st = record { valid = words_of st valid_var; requested = words_of st requested_var }

-- What is asked for where the kernel has no names of features.
abbrev pub no_features : Sfeatures
no_features = record { valid = λ b. 0; requested = λ b. 0 }

-- `(old & ~mask) | wanted`
abbrev pub merged : ℕ → ℕ → ℕ → ℕ
merged old mask wanted = bit_or (bit_and old (bit_not 32 mask)) wanted

-- The two loops that compare the blocks.
unfoldable pub blocks_changed : Words → Words → ℕ → Bool
blocks_changed old new zero = false
blocks_changed old new (suc n) = not (new n == old n) || blocks_changed old new n

unfoldable pub blocks_mismatch : Words → Words → Sfeatures → ℕ → Bool
blocks_mismatch old new e zero = false
blocks_mismatch old new e (suc n) =
    not (new n == merged (old n) (e.valid n) (e.requested n)) || blocks_mismatch old new e n

unfoldable pub compare_states : FeatureState → FeatureState → ℕ → ℕ → Sfeatures → ℕ → ℕ
compare_states old new wanted mask e blocks =
    let any_changed =
      not (new.off_flags == old.off_flags) || blocks_changed old.active new.active blocks in
    let any_mismatch =
      not (new.off_flags == merged old.off_flags mask wanted)
      || blocks_mismatch old.active new.active e blocks in
    if any_mismatch && not any_changed then 1 else 0

-- Whether the three allocations succeed, and errno after get_stringset failed.
pub record Surroundings : Type 0 where
  pub tolerated : Bool
  pub defs_memory : ℕ → Bool
  pub request_memory : Bool
  pub table_memory : Bool

module _ {S : Type 0} (dev : FeatureDevice S) where
  unfoldable pub compare_with :
      S → FeatureState → ℕ → ℕ → Sfeatures → ℕ → Option FeatureState → Ended S
  compare_with s old wanted mask e n none = record { status = 1; state = s }
  compare_with s old wanted mask e n (some new) = record {
    status = compare_states old new wanted mask e (feature_bits_to_blocks n);
    state = s;
  }

  abbrev pub compared : S → FeatureState → ℕ → ℕ → Sfeatures → ℕ → Ended S
  compared s old wanted mask e n = compare_with s old wanted mask e n (get_features dev s n)

  -- The request for named features.
  unfoldable pub send_features : S → FeatureState → ℕ → ℕ → Sfeatures → ℕ → Ended S
  send_features s old wanted mask e n =
      let (err, s') = dev.set_features s e in
      if is_neg err then record { status = 1; state = s' } else compared s' old wanted mask e n

  -- The requests for each legacy offload: whether all succeeded.
  unfoldable pub send_offloads : S → ℕ → ℕ → List OffFlagDef → ℕ → Bool × S
  send_offloads s wanted mask [] i = (true, s)
  send_offloads s wanted mask (f ∷ flags) i =
      let (ok, s') = dev.set_offload s i (if has_flag wanted f.value then 1 else 0) in
      let sent = send_offloads s' wanted mask flags (i + 1) in
      let skipped = send_offloads s wanted mask flags (i + 1) in
      if f.has_cmd && has_flag mask f.value then (if ok then sent else (false, s')) else skipped

  unfoldable pub send_flags : S → FeatureState → ℕ → ℕ → Ended S
  send_flags s old wanted mask =
      let (ok, s') = dev.set_flags s (
        merged (bit_and old.off_flags eth_flag_ext_mask) mask (bit_and wanted eth_flag_ext_mask)) in
      if has_flag mask eth_flag_ext_mask
      then (if ok
          then compared s' old wanted mask no_features 0
          else record { status = 92; state = s' })
      else compared s old wanted mask no_features 0

  unfoldable pub send_legacy : S → FeatureState → ℕ → ℕ → Ended S
  send_legacy s old wanted mask =
      let (ok, s') = send_offloads s wanted mask off_flag_def 0 in
      if ok then send_flags s' old wanted mask else record { status = 1; state = s' }

  unfoldable pub with_old : S → List FeatureDef → Store → Option FeatureState → Ended S
  with_old s defs st none = record { status = 1; state = s }
  with_old s defs st (some old) =
      let wanted : ℕ = le_value (st 0) in
      let mask : ℕ = le_value (st 1) in
      if length defs == 0
      then send_legacy s old wanted mask
      else send_features s old wanted mask
          (change_offloads old wanted mask defs off_flag_def 0 (parsed_features st)) (length defs)

  unfoldable pub with_line : S → List FeatureDef → Line → Ended S
  with_line s defs line =
      if line.changed == 0
      then record { status = 0; state = s }
      else with_old s defs line.store (get_features dev s (length defs))

  unfoldable pub with_defs :
      (List ℕ → Option ℕ)
      → Surroundings
      → S
      → List (List ℕ)
      → Option (List FeatureDef)
      → Option (Ended S)
  with_defs aton env s argp none = some (record { status = 1; state = s })
  with_defs aton env s argp (some defs) =
      if not (length defs == 0) && not env.request_memory
      then some (record { status = 1; state = s })
      else if not env.table_memory
      then some (record { status = 1; state = s })
      else (parse_generic_cmdline aton (features_table defs) argp
            (record { store = all_clear; changed = 0 })
          >>= λ line. some (with_line s defs line))

  unfoldable pub do_sfeatures :
      (List ℕ → Option ℕ) → StringDevice → Surroundings → S → List (List ℕ) → Option (Ended S)
  do_sfeatures aton names env s argp =
      with_defs aton env s argp (get_feature_defs names env.tolerated env.defs_memory)
