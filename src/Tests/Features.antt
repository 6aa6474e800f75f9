-- ===== src/Tests/Features.antt =====
-- Features: a driver with two of them, and patterns of names.
use ethtool.Base.{ℕ, ◌≡◌, ◌↔◌, refl, true, none, some, List, [], ◌∷◌, ◌++◌, codes, replicate}
use ethtool.Base.Int.{pos}
use ethtool.Cmdline.{Line, or_into}
use ethtool.Feature.{FeatureDef, matches}
use ethtool.Feature.Change.{FeatureState, Sfeatures, FeatureDevice, get_features, all_clear}
use ethtool.Feature.Command.{Surroundings}
use ethtool.Feature.Pattern.{matches-star_iff}
use ethtool.Strings.{StringDevice, sset}

matches-star_iff_example :
    (matches (codes "tx-tcp*-segmentation") (codes "tx-tcp6-segmentation") ≡ true) ↔ (
      (middle : List ℕ) × (codes "tx-tcp6-segmentation"
        ≡ codes "tx-tcp" ++ middle ++ codes "-segmentation"))
matches-star_iff_example =
    matches-star_iff (codes "tx-tcp") (codes "-segmentation") (codes "tx-tcp6-segmentation")
      (refl, (refl, (refl, (refl, (refl, (refl, tt))))))
      (
        refl,
        (
          refl,
          (
            refl,
            (refl, (refl, (refl, (refl, (refl, (refl, (refl, (refl, (refl, (refl, tt)))))))))),
          ),
        ),
      )

-- The features rx-gro and loopback, of which the first is on.
abbrev name_bytes : List (List ℕ)
name_bytes = (codes "rx-gro" ++ replicate 26 0) ∷ (codes "loopback" ++ replicate 24 0) ∷ []

abbrev two_names : StringDevice
two_names = record {
  sset_info = λ id. sset 16 2;
  drvinfo = λ off. none;
  strings = λ id len. some name_bytes;
  memory = λ n. true;
}

abbrev two_defs : List FeatureDef
two_defs =
    record { name = codes "rx-gro"; off_flag_index = some 6 }
    ∷ record { name = codes "loopback"; off_flag_index = none }
    ∷ []

abbrev calm : Surroundings
calm = record {
  tolerated = true;
  defs_memory = λ n. true;
  request_memory = true;
  table_memory = true;
}

abbrev gro_is_on : FeatureState
gro_is_on = record { off_flags = 64; available = λ b. 3; active = λ b. 1; never_changed = λ b. 0 }

abbrev gro_device : FeatureDevice Sfeatures
gro_device = record {
  get_offload = λ s i. none;
  get_flags = λ s. some 0;
  get_features = λ s n. some gro_is_on;
  fresh = λ s. gro_is_on;
  set_features = λ s e. (pos 0, e);
  set_offload = λ s i v. (true, s);
  set_flags = λ s v. (true, s);
}

-- `gro off`
abbrev gro_off : Line
gro_off = record { store = or_into all_clear 1 64; changed = 1 }

abbrev old_state : FeatureState
old_state = record gro_is_on { off_flags = 0 }
