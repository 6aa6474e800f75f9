-- ===== src/Rmgr/Slots.antt =====
-- rmgr_find_empty_slot and rmgr_ins: which location a rule gets, and what becomes of the bitmap.
use ethtool.Base.{
  ℕ, zero, suc, ◌-◌, ◌/◌, ◌%◌, ◌≤◌, ◌<◌, ◌≡◌, ◌≢◌, refl, ap, ◌∙◌, sym, subst, ◌⊎◌, inl, inr, true,
  false, List, length, Option, none, some, ◌==◌, if◌then◌else◌, arith, Bool-cases, Option-cases,
  ==_false, ==_iff,
}
use native.Mathlib.Decide.{ℕ_discrete, dec_lt}
use ethtool.Base.Int.{pos, negsuc}
use ethtool.Base.Run.{Run, done, ◌>>=◌}
use ethtool.Bitmap.{set_bit, test_bit}
use ethtool.Bitmap.Laws.{test_bit-set_bit, length-set_bit, set_bit-IsLongs}
use ethtool.FlowSpec.{FlowSpec, set_location}
use ethtool.Rmgr.{RmgrCtrl, Found, rmgr_ins, place, rmgr_find_empty_slot}
use ethtool.Rmgr.Spec.{last_free, IsBitmap, search_top}
use ethtool.Rmgr.Search.{locate_lem}
use ethtool.Rmgr.Search.Loops.{found}

-- What the search gives back when it is to use a location, or has none.
abbrev pub placed : RmgrCtrl → FlowSpec → Option ℕ → Found
placed rmgr fsp none = record { ret = negsuc 0; rmgr = rmgr; fsp = fsp }
placed rmgr fsp (some loc) = record {
  ret = pos 0;
  rmgr = record rmgr { slot = set_bit loc rmgr.slot };
  fsp = set_location fsp loc;
}

place-found :
    (rmgr : RmgrCtrl) (fsp : FlowSpec) (loc : ℕ)
    → place rmgr fsp loc ≡ placed rmgr fsp (found rmgr.size loc)
unfolding place rmgr_ins
place-found rmgr fsp loc = ground arith

-- On a well-formed manager whose driver does not select locations, the word-wise search is the
-- plain one: the rule gets the last free location below the search's top, or the call fails if
-- there is none.
pub rmgr_find_empty_slot-last_free :
    (rmgr : RmgrCtrl) (fsp : FlowSpec)
    → IsBitmap rmgr.slot rmgr.size
    → rmgr.driver_select ≡ false
    → rmgr_find_empty_slot rmgr fsp
      ≡ done (placed rmgr fsp (last_free (search_top rmgr.size rmgr.slot) rmgr.slot))
unfolding rmgr_find_empty_slot
rmgr_find_empty_slot-last_free rmgr fsp ok d =
    let f = locate_lem rmgr ok in
    simp d (
      ap (λ m. m >>= λ loc. done (place rmgr fsp loc)) f.1
      ∙ ap done (place-found rmgr fsp f.0 ∙ ap (placed rmgr fsp) f.2))

-- What makes a location the last free one below a bound.
pub record IsLastFree (slot : List ℕ) (top loc : ℕ) : Type 0 where
  pub below : loc < top
  pub free : test_bit loc slot ≡ false
  pub used_above : (j : ℕ) → loc < j → j < top → test_bit j slot ≡ true

pub last_free-some :
    (n : ℕ) (slot : List ℕ) (loc : ℕ) → last_free n slot ≡ some loc → IsLastFree slot n loc
unfolding last_free
last_free-some zero slot loc h = cc
last_free-some (suc n) slot loc h = elim (Bool-cases (test_bit n slot)) [
  | inl used ↦
      let r = last_free-some n slot loc (rw used at h) in
      record {
        below = omega (arith, r.below);
        free = r.free;
        used_above = λ j p q. elim (ℕ_discrete j n) [
          | yes e ↦ rw e used
          | no ne ↦ r.used_above j p (omega arith)
        ];
      }
  | inr free ↦
      let e : n ≡ loc = ground arith in
      record {
        below = omega arith;
        free = rw (← e) free;
        used_above = λ j p q. absurd (omega arith);
      }
]

pub last_free-none :
    (n : ℕ) (slot : List ℕ) → last_free n slot ≡ none → (j : ℕ) → j < n → test_bit j slot ≡ true
unfolding last_free
last_free-none zero slot h j lt = elim lt [ ]
last_free-none (suc n) slot h j lt = elim (Bool-cases (test_bit n slot)) [
  | inl used ↦ elim (ℕ_discrete j n) [
    | yes e ↦ rw e used
    | no ne ↦ last_free-none n slot (rw used at h) j (omega arith)
  ]
  | inr free ↦ cc (rw free at h)
]

-- The outcomes of a search up to a bound: the last free location is taken, or none is free.
abbrev pub Places : RmgrCtrl → FlowSpec → ℕ → Run Found → Type 0
Places rmgr fsp top run =
    ((loc : ℕ) × IsLastFree rmgr.slot top loc × (run ≡ done (placed rmgr fsp (some loc))))
    ⊎ (((j : ℕ) → j < top → test_bit j rmgr.slot ≡ true) × (run ≡ done (placed rmgr fsp none)))

module _ (rmgr : RmgrCtrl) (fsp : FlowSpec) (ok : IsBitmap rmgr.slot rmgr.size)
    (d : rmgr.driver_select ≡ false) where
  Places-top : Places rmgr fsp (search_top rmgr.size rmgr.slot) (rmgr_find_empty_slot rmgr fsp)
  Places-top =
      let top : ℕ = search_top rmgr.size rmgr.slot in
      let e = rmgr_find_empty_slot-last_free rmgr fsp ok d in
      elim (Option-cases (last_free top rmgr.slot)) [
        | inl n ↦ inr (last_free-none top rmgr.slot n, e ∙ ap (λ o. done (placed rmgr fsp o)) n)
        | inr (loc, q) ↦
            inl (loc, last_free-some top rmgr.slot loc q, e ∙ ap (λ o. done (placed rmgr fsp o)) q)
      ]

  -- On a well-formed manager whose driver does not select locations, in a table whose size is no
  -- multiple of 64: the rule gets the last free location, whose bit alone is set, or every
  -- location is used and the call returns -1 and changes nothing.
  pub rmgr_find_empty_slot_complete :
      rmgr.size % 64 ≢ 0 → Places rmgr fsp rmgr.size (rmgr_find_empty_slot rmgr fsp)
  rmgr_find_empty_slot_complete h =
      let e : search_top rmgr.size rmgr.slot ≡ rmgr.size = rw (==_false (rmgr.size % 64) 0 h) in
      subst (λ t. Places rmgr fsp t (rmgr_find_empty_slot rmgr fsp)) e Places-top

  -- On a well-formed manager whose driver does not select locations, in a table whose size is a
  -- multiple of 64, with its location `size - 64` and all below it used: the call returns -1 and
  -- changes nothing, although a location above is free and rmgr_ins would take it.
  pub rmgr_find_empty_slot_misses_free :
      (loc : ℕ)
      → rmgr.size % 64 ≡ 0
      → ((j : ℕ) → j ≤ rmgr.size - 64 → test_bit j rmgr.slot ≡ true)
      → loc < rmgr.size
      → test_bit loc rmgr.slot ≡ false
      → (rmgr_find_empty_slot rmgr fsp ≡ done (placed rmgr fsp none))
        × ((rmgr_ins rmgr loc) ≡ some (record rmgr { slot = set_bit loc rmgr.slot }))
  unfolding rmgr_ins
  rmgr_find_empty_slot_misses_free loc m used l free =
      let e : search_top rmgr.size rmgr.slot ≡ rmgr.size - 64 =
        rw ((==_iff (rmgr.size % 64) 0).1 m, used (rmgr.size - 64) (omega arith)) in
      (
        elim (subst (λ t. Places rmgr fsp t (rmgr_find_empty_slot rmgr fsp)) e Places-top) [
          | inr (_, r) ↦ r
          | inl (j, last, r) ↦
              let clear : false ≡ true = sym last.free ∙ used j (omega (arith, last.below)) in cc
        ],
        ground arith,
      )

pub set_bit-IsBitmap :
    (slot : List ℕ) (size loc : ℕ)
    → IsBitmap slot size
    → loc < size
    → IsBitmap (set_bit loc slot) size
set_bit-IsBitmap slot size loc ok l =
    let n_in : loc / 64 < length slot = omega (arith, ok.fits) in
    record {
      fits = length-set_bit loc slot n_in ∙ ok.fits;
      longs = set_bit-IsLongs loc slot n_in ok.longs;
      clear = λ j p.
          let ne : loc ≢ j = λ e. absurd (omega arith) in
          test_bit-set_bit slot loc j n_in ∙ rw (==_false loc j ne) (ok.clear j p);
      positive = ok.positive;
      bounded = ok.bounded;
    }

-- What rmgr_ins promises of the manager that it returns.
abbrev pub Inserted : RmgrCtrl → ℕ → RmgrCtrl → Type 0
Inserted rmgr loc rmgr' =
    IsBitmap rmgr'.slot rmgr.size
    × (rmgr'.size ≡ rmgr.size)
    × (rmgr'.driver_select ≡ rmgr.driver_select)
    × ((j : ℕ) → test_bit j rmgr'.slot ≡ (if loc == j then true else test_bit j rmgr.slot))

-- On a well-formed manager rmgr_ins refuses exactly the locations outside the table; otherwise it
-- keeps the bitmap well formed and the size, and sets the bit of its location alone.
pub rmgr_ins-Inserted :
    (rmgr : RmgrCtrl) (loc : ℕ)
    → IsBitmap rmgr.slot rmgr.size
    → ((rmgr.size ≤ loc) × (rmgr_ins rmgr loc ≡ none))
      ⊎ ((rmgr' : RmgrCtrl) × (loc < rmgr.size)
          × (rmgr_ins rmgr loc ≡ some rmgr')
          × Inserted rmgr loc rmgr')
unfolding rmgr_ins
rmgr_ins-Inserted rmgr loc ok = elim (dec_lt loc rmgr.size) [
  | no out ↦ inl (omega arith, ground arith)
  | yes l ↦ inr (
    record rmgr { slot = set_bit loc rmgr.slot },
    l,
    ground arith,
    (
      set_bit-IsBitmap rmgr.slot rmgr.size loc ok l,
      refl,
      refl,
      λ j. test_bit-set_bit rmgr.slot loc j (omega (arith, ok.fits)),
    ),
  )
]

-- The search ends, with no access outside the bitmap, on every well-formed manager and where the
-- driver selects locations.
pub rmgr_find_empty_slot_ends :
    (rmgr : RmgrCtrl) (fsp : FlowSpec)
    → (rmgr.driver_select ≡ true) ⊎ IsBitmap rmgr.slot rmgr.size
    → (f : Found) × (rmgr_find_empty_slot rmgr fsp ≡ done f)
unfolding rmgr_find_empty_slot
rmgr_find_empty_slot_ends rmgr fsp (inl d) =
    (record { ret = pos 0; rmgr = rmgr; fsp = fsp }, simp d)
rmgr_find_empty_slot_ends rmgr fsp (inr ok) = elim (Bool-cases rmgr.driver_select) [
  | inl d ↦ (record { ret = pos 0; rmgr = rmgr; fsp = fsp }, simp d)
  | inr d ↦ (_, rmgr_find_empty_slot-last_free rmgr fsp ok d)
]
