-- ===== src/Feature/Command/Request.antt =====
-- send_features: what one request for named features does, and its status.
use ethtool.Base.{
  ℕ, zero, suc, ◌<◌, ◌≡◌, ◌⊎◌, inl, inr, refl, sym, subst, bit_and, bit_or, Bool, true, false, ◌||◌,
  not, Option, none, some, ◌==◌, arith, ==_iff, Bool-cases, if_elim,
}
use native.Mathlib.Decide.{ℕ_discrete}
use ethtool.Base.Bits.{bit_not}
use ethtool.Base.Int.{is_neg}
use ethtool.Feature.Change.{
  Words, FeatureState, Sfeatures, FeatureDevice, get_features, feature_bits_to_blocks,
}
use ethtool.Feature.Command.{
  send_features, Ended, merged, blocks_changed, blocks_mismatch, compare_states, compare_with,
}

-- Every block, and the legacy flags, are as they were asked to be: the bits of the mask as wanted,
-- the others as they were.
abbrev pub AsAsked : FeatureState → FeatureState → ℕ → ℕ → Sfeatures → ℕ → Type 0
AsAsked old new wanted mask e blocks =
    (new.off_flags ≡ bit_or (bit_and old.off_flags (bit_not 32 mask)) wanted)
    × ((b : ℕ)
        → b < blocks
        → new.active b ≡ bit_or (bit_and (old.active b) (bit_not 32 (e.valid b))) (e.requested b))

-- No feature and no legacy flag changed.
abbrev pub Unchanged : FeatureState → FeatureState → ℕ → Type 0
Unchanged old new blocks =
    (new.off_flags ≡ old.off_flags) × ((b : ℕ) → b < blocks → new.active b ≡ old.active b)

-- What one request for n features has done, and the status: 1 if the device refuses it, or the state
-- cannot be read after it, or nothing changed and something was not as asked; and otherwise 0.
abbrev pub OneRequest :
    {S : Type 0} → FeatureDevice S → S → FeatureState → ℕ → ℕ → Sfeatures → ℕ → Ended S → Type 0
OneRequest dev s old wanted mask e n r =
    (r.state ≡ (dev.set_features s e).1)
    × (((is_neg (dev.set_features s e).0 ≡ true) × (r.status ≡ 1))
        ⊎ (((is_neg (dev.set_features s e).0 ≡ false)
              × (get_features dev (dev.set_features s e).1 n ≡ none)
              × (r.status ≡ 1))
            ⊎ ((new : FeatureState) × (is_neg (dev.set_features s e).0 ≡ false)
                × (get_features dev (dev.set_features s e).1 n ≡ some new)
                × (((r.status ≡ 0)
                      × (AsAsked old new wanted mask e (feature_bits_to_blocks n)
                          ⊎ ¬ Unchanged old new (feature_bits_to_blocks n)))
                    ⊎ ((r.status ≡ 1)
                        × Unchanged old new (feature_bits_to_blocks n)
                        × (¬ AsAsked old new wanted mask e (feature_bits_to_blocks n)))))))

blocks_same :
    (old new : Words) (n : ℕ)
    → ((blocks_changed old new n ≡ false) × ((b : ℕ) → b < n → new b ≡ old b))
      ⊎ ((blocks_changed old new n ≡ true) × (¬ ((b : ℕ) → b < n → new b ≡ old b)))
unfolding blocks_changed
blocks_same old new zero = inl (refl, λ b h. omega arith)
blocks_same old new (suc n) = elim (Bool-cases (new n == old n)) [
  | inr other ↦ inr (
    rw other refl,
    λ all. let t = (==_iff (new n) (old n)).1 (all n (omega arith)) in absurd (cc),
  )
  | inl same ↦ elim (blocks_same old new n) [
    | inr (e, ne) ↦ inr (rw (same, e) refl, λ all. ne (λ b h. all b (omega arith)))
    | inl (e, all) ↦ inl (
      rw (same, e) refl,
      λ b h. elim (ℕ_discrete b n) [
        | yes p ↦ subst (λ k. new k ≡ old k) (sym p) ((==_iff (new n) (old n)).0 same)
        | no np ↦ all b (omega arith)
      ],
    )
  ]
]

blocks_asked :
    (old new : Words) (e : Sfeatures) (n : ℕ)
    → ((blocks_mismatch old new e n ≡ false)
        × ((b : ℕ) → b < n → new b ≡ merged (old b) (e.valid b) (e.requested b)))
      ⊎ ((blocks_mismatch old new e n ≡ true)
          × (¬ ((b : ℕ) → b < n → new b ≡ merged (old b) (e.valid b) (e.requested b))))
unfolding blocks_mismatch
blocks_asked old new e zero = inl (refl, λ b h. omega arith)
blocks_asked old new e (suc n) =
    elim (Bool-cases (new n == merged (old n) (e.valid n) (e.requested n))) [
      | inr other ↦ inr (
        rw other refl,
        λ all.
            let t =
              (==_iff (new n) (merged (old n) (e.valid n) (e.requested n))).1
                (all n (omega arith)) in
            absurd (cc),
      )
      | inl same ↦ elim (blocks_asked old new e n) [
        | inr (f, ne) ↦ inr (rw (same, f) refl, λ all. ne (λ b h. all b (omega arith)))
        | inl (f, all) ↦ inl (
          rw (same, f) refl,
          λ b h. elim (ℕ_discrete b n) [
            | yes p ↦
                subst (λ k. new k ≡ merged (old k) (e.valid k) (e.requested k)) (sym p)
                  ((==_iff (new n) (merged (old n) (e.valid n) (e.requested n))).0 same)
            | no np ↦ all b (omega arith)
          ],
        )
      ]
    ]

module _ (old new : FeatureState) (wanted mask : ℕ) (e : Sfeatures) (n : ℕ) where
  abbrev changed_any : Bool
  changed_any = not (new.off_flags == old.off_flags) || blocks_changed old.active new.active n

  abbrev mismatch_any : Bool
  mismatch_any =
      not (new.off_flags == merged old.off_flags mask wanted)
      || blocks_mismatch old.active new.active e n

  unchanged_lem :
      ((changed_any ≡ false) × Unchanged old new n)
      ⊎ ((changed_any ≡ true) × (¬ Unchanged old new n))
  unchanged_lem = elim (Bool-cases (new.off_flags == old.off_flags)) [
    | inr other ↦
        inr (
          rw other refl,
          λ all. let t = (==_iff new.off_flags old.off_flags).1 all.0 in absurd (cc),
        )
    | inl same ↦ elim (blocks_same old.active new.active n) [
      | inl (f, all) ↦ inl (rw (same, f) refl, ((==_iff _ _).0 same, all))
      | inr (f, ne) ↦ inr (rw (same, f) refl, λ all. ne all.1)
    ]
  ]

  asked_lem :
      ((mismatch_any ≡ false) × AsAsked old new wanted mask e n)
      ⊎ ((mismatch_any ≡ true) × (¬ AsAsked old new wanted mask e n))
  asked_lem = elim (Bool-cases (new.off_flags == merged old.off_flags mask wanted)) [
    | inr other ↦ inr (
      rw other refl,
      λ all.
          let t = (==_iff new.off_flags (merged old.off_flags mask wanted)).1 all.0 in absurd (cc),
    )
    | inl same ↦ elim (blocks_asked old.active new.active e n) [
      | inl (f, all) ↦ inl (rw (same, f) refl, ((==_iff _ _).0 same, all))
      | inr (f, ne) ↦ inr (rw (same, f) refl, λ all. ne all.1)
    ]
  ]

  status_lem :
      ((compare_states old new wanted mask e n ≡ 0)
        × (AsAsked old new wanted mask e n ⊎ ¬ Unchanged old new n))
      ⊎ ((compare_states old new wanted mask e n ≡ 1)
          × Unchanged old new n
          × (¬ AsAsked old new wanted mask e n))
  unfolding compare_states
  status_lem = elim asked_lem [
    | inl (f, asked) ↦ inl (rw f refl, inl asked)
    | inr (f, not_asked) ↦ elim unchanged_lem [
      | inl (g, same) ↦ inr (rw (f, g) refl, same, not_asked)
      | inr (g, differs) ↦ inl (rw (f, g) refl, inr differs)
    ]
  ]

module _ {S : Type 0} (dev : FeatureDevice S) (s : S) (old : FeatureState) (wanted mask : ℕ)
    (e : Sfeatures) (n : ℕ) where
  compared_lem :
      (o : Option FeatureState)
      → is_neg (dev.set_features s e).0 ≡ false
      → get_features dev (dev.set_features s e).1 n ≡ o
      → OneRequest dev s old wanted mask e n
          (compare_with dev (dev.set_features s e).1 old wanted mask e n o)
  unfolding compare_with
  compared_lem none ok read = (refl, inr (inl (ok, read, refl)))
  compared_lem (some new) ok read =
      (refl, inr (inr (new, ok, read, status_lem old new wanted mask e (feature_bits_to_blocks n))))

  pub send_features-OneRequest :
      OneRequest dev s old wanted mask e n (send_features dev s old wanted mask e n)
  unfolding send_features
  send_features-OneRequest =
      if_elim (OneRequest dev s old wanted mask e n) (is_neg (dev.set_features s e).0)
        (λ refused. (refl, inl (refused, refl)))
        (λ ok. compared_lem (get_features dev (dev.set_features s e).1 n) ok refl)
