-- ===== src/Feature/Change/Merges.antt =====
-- change_offloads: what becomes of each feature.
use ethtool.Base.{
  ℕ, zero, suc, ◌+◌, ◌≤◌, ◌<◌, ◌≡◌, ◌≢◌, inl, inr, refl, sym, ap, ◌∙◌, Bool, true, false, ◌&&◌,
  ◌||◌, not, Option, none, some, List, [], ◌∷◌, ◌==◌, if◌then◌else◌, arith, Bool-cases, if_elim,
  ==_false,
}
use ethtool.Feature.{OffFlagDef, FeatureDef}
use ethtool.Feature.Change.{
  feature_bit_set, feature_bit_is_set, FeatureState, Sfeatures, is_flag, change_feature,
  change_features, has_flag, change_offloads,
}
use ethtool.Feature.Change.Words.{is_set-set_self, is_set-set_ne}

-- What is asked of feature j: whether its bits in `valid` and `requested` are set.
abbrev pub asked_of : Sfeatures → ℕ → Bool × Bool
asked_of e j = (feature_bit_is_set e.valid j, feature_bit_is_set e.requested j)

-- Whether the feature can be changed at all.
abbrev pub can_change : FeatureState → ℕ → Bool
can_change old j =
    feature_bit_is_set old.available j && not (feature_bit_is_set old.never_changed j)

-- What an offload that was given asks of a feature of its own for which nothing was asked.
abbrev pub follow : Bool → Bool → Bool × Bool → Bool × Bool
follow change wanted (true, r) = (true, r)
follow change wanted (false, r) = if change then (true, wanted || r) else (false, r)

-- The feature is asked for.
abbrev ask : Bool → ℕ → Sfeatures → Sfeatures
ask wanted j e = record {
  valid = feature_bit_set e.valid j;
  requested = if wanted then feature_bit_set e.requested j else e.requested;
}

ask_self :
    (wanted : Bool) (j : ℕ) (e : Sfeatures)
    → asked_of (ask wanted j e) j ≡ (true, wanted || feature_bit_is_set e.requested j)
ask_self true j e = rw (is_set-set_self e.valid j, is_set-set_self e.requested j) refl
ask_self false j e = rw (is_set-set_self e.valid j) refl

ask_other :
    (wanted : Bool) (j k : ℕ) (e : Sfeatures) → j ≢ k → asked_of (ask wanted j e) k ≡ asked_of e k
ask_other true j k e ne = rw (is_set-set_ne e.valid j k ne, is_set-set_ne e.requested j k ne) refl
ask_other false j k e ne = rw (is_set-set_ne e.valid j k ne) refl

guards : (a b c : Bool) → (not a || not b || c) ≡ not (a && (b && not c))
guards true true true = refl
guards true true false = refl
guards true false c = refl
guards false b c = refl

ask_unless :
    (change v wanted : Bool) (j : ℕ) (e : Sfeatures)
    → feature_bit_is_set e.valid j ≡ v
    → asked_of (if not change then e else if v then e else ask wanted j e) j
      ≡ follow change wanted (v, feature_bit_is_set e.requested j)
ask_unless false true wanted j e h = ap (λ v. (v, feature_bit_is_set e.requested j)) h
ask_unless false false wanted j e h = ap (λ v. (v, feature_bit_is_set e.requested j)) h
ask_unless true true wanted j e h = ap (λ v. (v, feature_bit_is_set e.requested j)) h
ask_unless true false wanted j e h = ask_self wanted j e

change_feature_self :
    (old : FeatureState) (i : ℕ) (wanted : Bool) (d : FeatureDef) (j : ℕ) (e : Sfeatures)
    → asked_of (change_feature old i wanted d j e) j
      ≡ follow (is_flag d.off_flag_index i && can_change old j) wanted (asked_of e j)
unfolding change_feature
change_feature_self old i wanted d j e =
    rw
      (guards (is_flag d.off_flag_index i) (feature_bit_is_set old.available j)
        (feature_bit_is_set old.never_changed j))
      (ask_unless (is_flag d.off_flag_index i && can_change old j) (feature_bit_is_set e.valid j)
        wanted j e refl)

change_feature_other :
    (old : FeatureState) (i : ℕ) (wanted : Bool) (d : FeatureDef) (j k : ℕ) (e : Sfeatures)
    → j ≢ k
    → asked_of (change_feature old i wanted d j e) k ≡ asked_of e k
unfolding change_feature
change_feature_other old i wanted d j k e ne =
    if_elim (λ e'. asked_of e' k ≡ asked_of e k)
      (not (is_flag d.off_flag_index i)
        || not (feature_bit_is_set old.available j)
        || feature_bit_is_set old.never_changed j)
      (λ g. refl)
      (λ g.
        if_elim (λ e'. asked_of e' k ≡ asked_of e k) (feature_bit_is_set e.valid j) (λ v. refl)
          (λ v. ask_other wanted j k e ne))

-- The feature at a place of the list.
abbrev pub nth {ℓ} : {A : Type ℓ} → List A → ℕ → Option A
nth [] k = none
nth (a ∷ as_) zero = some a
nth (a ∷ as_) (suc k) = nth as_ k

abbrev follow_def : FeatureState → ℕ → Bool → ℕ → Option FeatureDef → Bool × Bool → Bool × Bool
follow_def old i wanted j none p = p
follow_def old i wanted j (some d) p =
    follow (is_flag d.off_flag_index i && can_change old j) wanted p

change_features_before :
    (old : FeatureState) (i : ℕ) (wanted : Bool) (defs : List FeatureDef) (j k : ℕ) (e : Sfeatures)
    → k < j
    → asked_of (change_features old i wanted defs j e) k ≡ asked_of e k
unfolding change_features
change_features_before old i wanted [] j k e h = refl
change_features_before old i wanted (d ∷ defs) j k e h =
    change_features_before old i wanted defs (j + 1) k (change_feature old i wanted d j e)
      (omega arith)
    ∙ change_feature_other old i wanted d j k e (λ z. omega arith)

change_features-at :
    (old : FeatureState) (i : ℕ) (wanted : Bool) (defs : List FeatureDef) (j k : ℕ) (e : Sfeatures)
    → asked_of (change_features old i wanted defs j e) (j + k)
      ≡ follow_def old i wanted (j + k) (nth defs k) (asked_of e (j + k))
unfolding change_features
change_features-at old i wanted [] j k e = refl
change_features-at old i wanted (d ∷ defs) j zero e =
    let here : j + 0 ≡ j = omega arith in
    rw here (
      change_features_before old i wanted defs (j + 1) j (change_feature old i wanted d j e)
        (omega arith)
      ∙ change_feature_self old i wanted d j e)
change_features-at old i wanted (d ∷ defs) j (suc k) e =
    let there : j + suc k ≡ j + 1 + k = omega arith in
    rw there (
      change_features-at old i wanted defs (j + 1) k (change_feature old i wanted d j e)
      ∙ ap (follow_def old i wanted (j + 1 + k) (nth defs k))
          (change_feature_other old i wanted d j (j + 1 + k) e (λ z. omega arith)))

same_number : (a b : ℕ) → a ≡ b → (a == b) ≡ true
same_number a b h = ground arith

follow_no : (wanted : Bool) (p : Bool × Bool) → follow false wanted p ≡ p
follow_no wanted (true, r) = refl
follow_no wanted (false, r) = refl

no_flag : (a b c : Bool) → b ≡ false → (a && (b && c)) ≡ false
no_flag true b c h = rw h refl
no_flag false b c h = refl

own_flag : (a b c : Bool) → b ≡ true → (a && (b && c)) ≡ (a && c)
own_flag a b c h = rw h refl

-- What becomes of a feature, by the offload to which it belongs.
abbrev pub follow_flag : FeatureState → ℕ → ℕ → ℕ → Option OffFlagDef → Bool × Bool → Bool × Bool
follow_flag old wanted mask j none p = p
follow_flag old wanted mask j (some f) p =
    follow (has_flag mask f.value && can_change old j) (has_flag wanted f.value) p

abbrev pub follow_index :
    FeatureState → ℕ → ℕ → List OffFlagDef → ℕ → Option ℕ → Bool × Bool → Bool × Bool
follow_index old wanted mask flags j none p = p
follow_index old wanted mask flags j (some i) p = follow_flag old wanted mask j (nth flags i) p

module _ (old : FeatureState) (wanted mask : ℕ) (defs : List FeatureDef) (j : ℕ) (d : FeatureDef)
    (def : nth defs j ≡ some d) where
  one_offload :
      (f : OffFlagDef) (i : ℕ) (e : Sfeatures)
      → asked_of
          (if has_flag mask f.value
            then change_features old i (has_flag wanted f.value) defs 0 e
            else e)
          j
        ≡ follow
            (has_flag mask f.value && (is_flag d.off_flag_index i && can_change old j))
            (has_flag wanted f.value)
            (asked_of e j)
  one_offload f i e = elim (Bool-cases (has_flag mask f.value)) [
    | inl given ↦
        let at = change_features-at old i (has_flag wanted f.value) defs 0 j e in
        let here : 0 + j ≡ j = omega arith in rw given ((rw (here, def) at at))
    | inr absent ↦ rw absent (sym (follow_no (has_flag wanted f.value) (asked_of e j)))
  ]

  other_offload :
      (f : OffFlagDef) (i : ℕ) (e : Sfeatures)
      → is_flag d.off_flag_index i ≡ false
      → asked_of
          (if has_flag mask f.value
            then change_features old i (has_flag wanted f.value) defs 0 e
            else e)
          j
        ≡ asked_of e j
  other_offload f i e h =
      one_offload f i e
      ∙ ap (λ b. follow b (has_flag wanted f.value) (asked_of e j))
          (no_flag (has_flag mask f.value) (is_flag d.off_flag_index i) (can_change old j) h)
      ∙ follow_no (has_flag wanted f.value) (asked_of e j)

  none_behind :
      (flags : List OffFlagDef) (i : ℕ) (e : Sfeatures)
      → ((k : ℕ) → i ≤ k → is_flag d.off_flag_index k ≡ false)
      → asked_of (change_offloads old wanted mask defs flags i e) j ≡ asked_of e j
  unfolding change_offloads
  none_behind [] i e h = refl
  none_behind (f ∷ flags) i e h =
      none_behind flags (i + 1) _ (λ k l. h k (omega arith))
      ∙ other_offload f i e (h i (omega arith))

  its_offload :
      (flags : List OffFlagDef) (i q : ℕ) (e : Sfeatures)
      → d.off_flag_index ≡ some (i + q)
      → asked_of (change_offloads old wanted mask defs flags i e) j
        ≡ follow_flag old wanted mask j (nth flags q) (asked_of e j)
  unfolding change_offloads
  its_offload [] i q e h = refl
  its_offload (f ∷ flags) i zero e h =
      let own : is_flag d.off_flag_index i ≡ true =
        ap (λ o. is_flag o i) h ∙ same_number (i + 0) i (omega arith) in
      none_behind flags (i + 1) _
        (λ k l. ap (λ o. is_flag o k) h ∙ ==_false (i + 0) k (λ z. omega arith))
      ∙ one_offload f i e
      ∙ ap (λ b. follow b (has_flag wanted f.value) (asked_of e j))
          (own_flag (has_flag mask f.value) (is_flag d.off_flag_index i) (can_change old j) own)
  its_offload (f ∷ flags) i (suc q) e h =
      let there : i + suc q ≡ i + 1 + q = omega arith in
      its_offload flags (i + 1) q _ (h ∙ ap some there)
      ∙ ap (follow_flag old wanted mask j (nth flags q)) (
          other_offload f i e (ap (λ o. is_flag o i) h ∙ ==_false (i + suc q) i (λ z. omega arith)))

  by_index :
      (flags : List OffFlagDef) (e : Sfeatures) (o : Option ℕ)
      → d.off_flag_index ≡ o
      → asked_of (change_offloads old wanted mask defs flags 0 e) j
        ≡ follow_index old wanted mask flags j o (asked_of e j)
  by_index flags e none h = none_behind flags 0 e (λ k l. ap (λ o. is_flag o k) h)
  by_index flags e (some q) h = its_offload flags 0 q e (h ∙ ap some (omega arith))

  -- A feature of the list for which nothing was asked by its own name follows the legacy offload to
  -- which it belongs, if that one was given and the feature is available and not fixed: it is asked
  -- to be on if it was, or the offload is, wanted on. For every other feature of the list the two
  -- bits stay as they are.
  pub change_offloads-follow :
      (flags : List OffFlagDef) (e : Sfeatures)
      → asked_of (change_offloads old wanted mask defs flags 0 e) j
        ≡ follow_index old wanted mask flags j d.off_flag_index (asked_of e j)
  change_offloads-follow flags e = by_index flags e d.off_flag_index refl
