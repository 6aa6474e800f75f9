-- ===== src/Rules/Fill.antt =====
-- The loop of rmgr_init that writes the device's locations to an empty bitmap.
use ethtool.Base.{
  ℕ, zero, suc, ◌+◌, ◌/◌, ◌%◌, ◌^◌, ◌<◌, ◌≡◌, inl, inr, refl, ◌∙◌, subst, Bool, true, false, List,
  get_or, replicate, arith, length-replicate, get_or-replicate, ==_false, ==_iff,
}
use ethtool.Base.Bits.{zero-bit}
use native.Mathlib.Decide.{ℕ_discrete}
use ethtool.Base.Int.{ℤ, pos, is_neg}
use ethtool.Bitmap.{test_bit}
use ethtool.Rmgr.{RmgrCtrl}
use ethtool.Rmgr.Spec.{IsBitmap, bits_to_longs}
use ethtool.Rmgr.Slots.{Inserted, rmgr_ins-Inserted}
use ethtool.Rmgr.Search.Loops.{test_bit-bit}
use ethtool.Rules.{Init, ins_all}

pub zero-test_bit : (n j : ℕ) → test_bit j (replicate n 0) ≡ false
zero-test_bit n j = rw (test_bit-bit, get_or-replicate {A = ℕ} n (j / 64) 0, zero-bit (j % 64))

-- The bitmap that `calloc` gives.
pub zero-IsBitmap :
    (size : ℕ) → 0 < size → size < 2 ^ 32 → IsBitmap (replicate (bits_to_longs size) 0) size
zero-IsBitmap size p b = record {
  fits = length-replicate (bits_to_longs size) 0;
  longs = λ i. rw (get_or-replicate {A = ℕ} (bits_to_longs size) i 0) (omega arith);
  clear = λ j _. zero-test_bit (bits_to_longs size) j;
  positive = p;
  bounded = b;
}

module _ (locs : List ℕ) (size : ℕ) (used : ℕ → Bool) where
  -- What is known of the manager after the locations below `i` are written.
  pub record Fills (i : ℕ) (rmgr : RmgrCtrl) : Type 0 where
    pub bitmap : IsBitmap rmgr.slot size
    pub sized : rmgr.size ≡ size
    pub sound : (j : ℕ) → test_bit j rmgr.slot ≡ true → used j ≡ true
    pub complete : (k : ℕ) → k < i → test_bit (get_or locs k 0) rmgr.slot ≡ true

  Fills-step :
      (i : ℕ) (rmgr rmgr' : RmgrCtrl)
      → Fills i rmgr
      → used (get_or locs i 0) ≡ true
      → Inserted rmgr (get_or locs i 0) rmgr'
      → Fills (i + 1) rmgr'
  Fills-step i rmgr rmgr' f u (b, s, _, t) = record {
    bitmap = rw (← f.sized) b;
    sized = s ∙ f.sized;
    sound = λ j h. elim (ℕ_discrete (get_or locs i 0) j) [
      | yes e ↦ rw (← e) u
      | no n ↦ f.sound j (rw (t j, ==_false _ j n) at h)
    ];
    complete = λ k l. t (get_or locs k 0) ∙ (elim (ℕ_discrete k i) [
      | yes e ↦ rw e (rw ((==_iff (get_or locs i 0) (get_or locs i 0)).1 refl))
      | no n ↦ ground (arith, f.complete k (omega arith))
    ]);
  }

  -- How the loop over the locations ends.
  abbrev pub Filled : ℕ → RmgrCtrl → Init → Type 0
  Filled i rmgr init =
      (is_neg init.err ≡ false) × Fills i init.rmgr × (init.rmgr.driver_select ≡ rmgr.driver_select)

  pub ins_all-Filled :
      (n i : ℕ) (err : ℤ) (rmgr : RmgrCtrl)
      → is_neg err ≡ false
      → ((k : ℕ) → k < i + n → (get_or locs k 0 < size) × (used (get_or locs k 0) ≡ true))
      → Fills i rmgr
      → Filled (i + n) rmgr (ins_all locs n i err rmgr)
  unfolding ins_all
  ins_all-Filled zero i err rmgr e h f = let at : i + 0 ≡ i = omega arith in rw at (e, f, refl)
  ins_all-Filled (suc n) i err rmgr e h f =
      elim (rmgr_ins-Inserted rmgr (get_or locs i 0) (rw f.sized f.bitmap)) [
        | inl (out, _) ↦ absurd (omega (arith, (h i (omega arith)).0, f.sized))
        | inr (rmgr', _, r, ins) ↦
            let rest =
              ins_all-Filled n (i + 1) (pos 0) rmgr' refl (λ k l. h k (omega arith))
                (Fills-step i rmgr rmgr' f (h i (omega arith)).1 ins) in
            let at : i + 1 + n ≡ i + suc n = omega arith in
            rw (r, ins_all)
              (
                rest.0,
                subst (λ t. Fills t (ins_all locs n (i + 1) (pos 0) rmgr').rmgr) at rest.1,
                rest.2 ∙ ins.2,
              )
      ]
