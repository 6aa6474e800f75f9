-- ===== src/Rmgr/Search/Loops.antt =====
-- The two loops of rmgr_find_empty_slot: full longs are passed whole, and then used locations.
use ethtool.Base.{
  ℕ, zero, suc, ◌+◌, ◌-◌, ◌*◌, ◌/◌, ◌%◌, ◌^◌, ◌≤◌, ◌<◌, ◌≡◌, refl, ap, ap₂, ◌∙◌, sym, ◌⊎◌, inl, inr,
  true, false, List, length, get_or, Option, none, some, ◌==◌, ltb, if◌then◌else◌, arith,
  Bool-cases, lt→ltb,
}
use ethtool.Base.Bits.{bit, bit_not, bit-ones}
use ethtool.Base.Run.{done, load_elem-eq-get_or}
use ethtool.Bitmap.{test_bit, IsLongs}
use ethtool.Bitmap.Laws.{test_long-bit}
use ethtool.Rmgr.{sub_u32, skip_full, test_down}
use ethtool.Rmgr.Spec.{last_free}

-- The location that the search stopped at, if it is inside the table.
abbrev pub found : ℕ → ℕ → Option ℕ
found size loc = if ltb loc size then some loc else none

module _ (slot : List ℕ) where
  -- Occupied locations at the end of a range do not count.
  last_free_skip :
      (k a n : ℕ)
      → a + k ≡ n
      → ((j : ℕ) → a ≤ j → j < n → test_bit j slot ≡ true)
      → last_free n slot ≡ last_free a slot
  unfolding last_free
  last_free_skip zero a n e h = let e' : n ≡ a = omega arith in rw e'
  last_free_skip (suc k) a zero e h = absurd (omega arith)
  last_free_skip (suc k) a (suc n) e h =
      rw (h n (omega arith) (omega arith))
        (last_free_skip k a n (omega arith) (λ j p q. h j p (omega arith)))

  pub last_free_zero : last_free 0 slot ≡ none
  unfolding last_free
  last_free_zero = refl

  last_free_used : (n : ℕ) → test_bit n slot ≡ true → last_free (suc n) slot ≡ last_free n slot
  unfolding last_free
  last_free_used n h = rw h

  last_free_clear : (n : ℕ) → test_bit n slot ≡ false → last_free (suc n) slot ≡ some n
  unfolding last_free
  last_free_clear n h = rw h

  pub test_bit-bit : (j : ℕ) → test_bit j slot ≡ (bit (get_or slot (j / 64) 0) (j % 64) == 1)
  unfolding test_bit
  test_bit-bit j = test_long-bit j _

  -- Every location of a full long is occupied.
  full_long :
      (n : ℕ)
      → get_or slot n 0 < 2 ^ 64
      → (bit_not 64 (get_or slot n 0) == 0) ≡ true
      → (j : ℕ) → n * 64 ≤ j
      → j < n * 64 + 64
      → test_bit j slot ≡ true
  full_long n lt full j p q =
      let at : j / 64 ≡ n = omega arith in
      let ones : get_or slot n 0 ≡ 2 ^ 64 - 1 = ground arith in
      rw (test_bit-bit, at, ones, bit-ones 64 (j % 64) (omega arith))

module _ (slot : List ℕ) (size : ℕ) (bounded : size < 2 ^ 32) (longs : IsLongs slot) where
  -- What is left to find below the location at which a loop stopped.
  abbrev pub left : ℕ → Option ℕ
  left loc = if ltb loc size then last_free (suc loc) slot else none

  pub skip_full_end :
      (fuel loc n : ℕ) → ltb loc size ≡ false → skip_full (suc fuel) size slot loc n ≡ done loc
  unfolding skip_full
  skip_full_end fuel loc n h = rw h

  skip_full_stop :
      (fuel loc n : ℕ)
      → n < length slot
      → (bit_not 64 (get_or slot n 0) == 0) ≡ false
      → skip_full (suc fuel) size slot loc n ≡ done loc
  unfolding skip_full
  skip_full_stop fuel loc n lt h = rw (load_elem-eq-get_or slot n 0 lt, h) (ground arith)

  skip_full_step :
      (fuel loc n : ℕ)
      → loc < size
      → n < length slot
      → (bit_not 64 (get_or slot n 0) == 0) ≡ true
      → skip_full (suc fuel) size slot loc n
        ≡ skip_full fuel size slot (sub_u32 loc 64) (sub_u32 n 1)
  unfolding skip_full
  skip_full_step fuel loc n in_table lt h =
      rw (lt→ltb loc size in_table, load_elem-eq-get_or slot n 0 lt, h)

  -- From the last location of a long, or at a long that is not full, the loop passes full longs only.
  pub skip_full_lem :
      (fuel n loc : ℕ)
      → loc < size
      → loc / 64 ≡ n
      → n < length slot
      → n + 1 < fuel
      → (loc % 64 ≡ 63) ⊎ ((bit_not 64 (get_or slot n 0) == 0) ≡ false)
      → (loc' : ℕ) × (skip_full fuel size slot loc n ≡ done loc')
        × (left loc' ≡ last_free (suc loc) slot)
  skip_full_lem zero n loc i a l f h = absurd (omega arith)
  skip_full_lem (suc zero) n loc i a l f h = absurd (omega arith)
  skip_full_lem (suc (suc fuel)) n loc i a l f (inr h) =
      (loc, skip_full_stop (suc fuel) loc n l h, rw (lt→ltb loc size i))
  skip_full_lem (suc (suc fuel)) zero loc i a l f (inl h) =
      elim (Bool-cases (bit_not 64 (get_or slot 0 0) == 0)) [
        | inr stop ↦ (loc, skip_full_stop (suc fuel) loc 0 l stop, rw (lt→ltb loc size i))
        | inl full ↦
            let out : ltb (sub_u32 loc 64) size ≡ false = ground arith in
            (
              sub_u32 loc 64,
              skip_full_step (suc fuel) loc 0 i l full ∙ skip_full_end fuel (sub_u32 loc 64) _ out,
              rw out (
                  sym (
                    last_free_skip slot 64 0 (suc loc) (omega arith)
                      (λ j p q. full_long slot 0 (longs 0) full j (omega arith) (omega arith))
                    ∙ last_free_zero slot)),
            )
      ]
  skip_full_lem (suc (suc fuel)) (suc n) loc i a l f (inl h) =
      elim (Bool-cases (bit_not 64 (get_or slot (suc n) 0) == 0)) [
        | inr stop ↦ (loc, skip_full_stop (suc fuel) loc (suc n) l stop, rw (lt→ltb loc size i))
        | inl full ↦
            let down : sub_u32 loc 64 ≡ loc - 64 = omega arith in
            let rest =
              skip_full_lem (suc fuel) n (loc - 64) (omega arith) (omega arith) (omega arith)
                (omega arith) (inl (omega arith)) in
            (
              rest.0,
              skip_full_step (suc fuel) loc (suc n) i l full
                  ∙ ap₂ (λ x y. skip_full (suc fuel) size slot x y) down (omega arith)
                  ∙ rest.1,
              rest.2
                  ∙ sym (
                      last_free_skip slot 64 (suc (loc - 64)) (suc loc) (omega arith) (λ j p q.
                        full_long slot (suc n) (longs (suc n)) full j (omega arith) (omega arith))),
            )
      ]

  pub test_down_end :
      (fuel loc : ℕ) → ltb loc size ≡ false → test_down (suc fuel) size slot loc ≡ done loc
  unfolding test_down
  test_down_end fuel loc h = rw h

  test_down_step :
      (fuel loc : ℕ)
      → loc < size
      → loc / 64 < length slot
      → test_down (suc fuel) size slot loc
        ≡ (if test_bit loc slot then test_down fuel size slot (sub_u32 loc 1) else done loc)
  unfolding test_down test_bit
  test_down_step fuel loc i l = rw (lt→ltb loc size i, load_elem-eq-get_or slot (loc / 64) 0 l)

  test_down_used :
      (fuel loc : ℕ)
      → loc < size
      → loc / 64 < length slot
      → test_bit loc slot ≡ true
      → test_down (suc fuel) size slot loc ≡ test_down fuel size slot (sub_u32 loc 1)
  test_down_used fuel loc i l used = rw (test_down_step fuel loc i l, used)

  -- The last loop finds the last free location.
  pub test_down_lem :
      (fuel loc : ℕ)
      → loc < size
      → loc / 64 < length slot
      → loc + 1 < fuel
      → (loc' : ℕ) × (test_down fuel size slot loc ≡ done loc')
        × (found size loc' ≡ last_free (suc loc) slot)
  test_down_lem zero loc i l f = absurd (omega arith)
  test_down_lem (suc zero) loc i l f = absurd (omega arith)
  test_down_lem (suc (suc fuel)) zero i l f = elim (Bool-cases (test_bit 0 slot)) [
    | inr free ↦ (
      0,
      rw (test_down_step (suc fuel) 0 i l, free),
      rw (lt→ltb 0 size i, last_free_clear slot 0 free),
    )
    | inl used ↦
        let out : ltb (sub_u32 0 1) size ≡ false = ground arith in
        (
          sub_u32 0 1,
          rw (test_down_step (suc fuel) 0 i l, used) (test_down_end fuel (sub_u32 0 1) out),
          rw (out, last_free_used slot 0 used, last_free_zero slot),
        )
  ]
  test_down_lem (suc (suc fuel)) (suc loc) i l f = elim (Bool-cases (test_bit (suc loc) slot)) [
    | inr free ↦ (
      suc loc,
      rw (test_down_step (suc fuel) (suc loc) i l, free),
      rw (lt→ltb (suc loc) size i, last_free_clear slot (suc loc) free),
    )
    | inl used ↦
        let down : sub_u32 (suc loc) 1 ≡ loc = omega arith in
        let rest = test_down_lem (suc fuel) loc (omega arith) (omega arith) (omega arith) in
        (
          rest.0,
          test_down_used (suc fuel) (suc loc) i l used
              ∙ ap (λ x. test_down (suc fuel) size slot x) down
              ∙ rest.1,
          rest.2 ∙ sym (last_free_used slot (suc loc) used),
        )
  ]
