-- ===== src/Rmgr/Search.antt =====
-- The search of rmgr_find_empty_slot as a whole.
pub mod Loops
use ethtool.Base.{
  ℕ, zero, suc, ◌+◌, ◌-◌, ◌*◌, ◌/◌, ◌%◌, ◌^◌, ◌≤◌, ◌<◌, bit_or, ◌≡◌, ◌≢◌, refl, ap, ap₂, ◌∙◌, sym,
  ◌⊎◌, inl, inr, Bool, true, false, List, length, get_or, Option, none, some, ◌==◌, ltb,
  if◌then◌else◌, arith, Bool-cases, ==_iff, lt→ltb, ==_false, max,
}
use ethtool.Base.Bits.{
  bit_or_low, all_below, all_below-true, bit, bit_not, bit-ones, bit-bit_or, bit-le, bit_or-lt,
  bit-bit_not, eq_ones_of_bits,
}
use ethtool.Base.Run.{Run, done, ◌>>=◌, load_elem, load_elem-eq-get_or}
use ethtool.Bitmap.{test_long, test_bit, IsLongs}
use ethtool.Bitmap.Laws.{test_long-bit}
use native.Mathlib.Decide.{dec_lt, ℕ_discrete}
use ethtool.Rmgr.{RmgrCtrl, sub_u32, tail_full, skip_full, test_down, locate}
use ethtool.Rmgr.Spec.{last_free, IsBitmap, search_top, bits_to_longs}
use Loops.{
  found, last_free_zero, test_bit-bit, skip_full_end, skip_full_lem, test_down_end, test_down_lem,
}

-- The mask of the tail test has digit 0 at `size % 64`, for each of the 64 cases.
mask_table : all_below 64 (λ m. bit (bit_not 64 1 * 2 ^ m % 2 ^ 64) m == 0) ≡ true
unfolding all_below
mask_table = refl

tail_mask_zero : (m : ℕ) → m < 64 → bit (bit_not 64 1 * 2 ^ m % 2 ^ 64) m ≡ 0
tail_mask_zero m h =
    (==_iff _ 0).0
      (all_below-true 64 (λ m. bit (bit_not 64 1 * 2 ^ m % 2 ^ 64) m == 0) m mask_table h)

-- With a mask of all digits but the lowest, a long is full exactly if its lowest digit is set.
or_tail : (w : ℕ) → w < 2 ^ 64 → (bit_not 64 (bit_or w (2 ^ 64 - 2)) == 0) ≡ (bit w 0 == 1)
or_tail w h =
    let high : bit_or (w / 2) (2 ^ 63 - 1) ≡ 2 ^ 63 - 1 =
      eq_ones_of_bits 63 _ (bit_or-lt 63 (w / 2) (2 ^ 63 - 1) (omega arith) (omega arith)) (λ i l.
        omega (arith, bit-bit_or (w / 2) (2 ^ 63 - 1) i, bit-ones 63 i l, bit-le (w / 2) i)) in
    ground (arith, bit_or_low w (2 ^ 64 - 2), high)

module _ (slot : List ℕ) (size : ℕ) (ok : IsBitmap slot size) where
  -- In a table that ends inside a long, the digit after the last location is clear.
  tail_bit : size % 64 ≢ 0 → bit (get_or slot ((size - 1) / 64) 0) (size % 64) ≡ 0
  tail_bit ne =
      let at : size / 64 ≡ (size - 1) / 64 = omega (arith, ok.positive) in
      ground (
        arith,
        test_bit-bit slot size,
        ok.clear size (omega arith),
        ap (λ (t : ℕ). get_or slot t 0) at,
        bit-le (get_or slot ((size - 1) / 64) 0) (size % 64),
      )

  last_not_full : size % 64 ≢ 0 → (bit_not 64 (get_or slot ((size - 1) / 64) 0) == 0) ≡ false
  last_not_full ne = ==_false _ 0 λ e.
      let full : get_or slot ((size - 1) / 64) 0 ≡ 2 ^ 64 - 1 =
        omega (arith, ok.longs ((size - 1) / 64)) in
      let one : bit (get_or slot ((size - 1) / 64) 0) (size % 64) ≡ 1 =
        rw full (bit-ones 64 (size % 64) (omega arith)) in
      omega (arith, one, tail_bit ne)

  -- A table that ends inside a long never takes the short cut.
  tail_full_inside : size % 64 ≢ 0 → tail_full (get_or slot ((size - 1) / 64) 0) size ≡ false
  unfolding tail_full
  tail_full_inside ne =
      let w : ℕ = get_or slot ((size - 1) / 64) 0 in
      let mask : ℕ = bit_not 64 1 * 2 ^ (size % 64) % 2 ^ 64 in
      ==_false _ 0 λ e.
        let full : bit_or w mask ≡ 2 ^ 64 - 1 =
          omega (arith, bit_or-lt 64 w mask (ok.longs _) (omega arith)) in
        let one : bit (bit_or w mask) (size % 64) ≡ 1 =
          rw full (bit-ones 64 (size % 64) (omega arith)) in
        omega (
          arith,
          one,
          bit-bit_or w mask (size % 64),
          tail_bit ne,
          tail_mask_zero (size % 64) (omega arith),
        )

  -- A table that ends at a long's end takes it exactly if the lowest bit of its last long is set.
  tail_full_end :
      size % 64 ≡ 0 → tail_full (get_or slot ((size - 1) / 64) 0) size ≡ test_bit (size - 64) slot
  unfolding tail_full
  tail_full_end e =
      let w : ℕ = get_or slot ((size - 1) / 64) 0 in
      let at : (size - 64) / 64 ≡ (size - 1) / 64 = omega (arith, ok.positive) in
      let low : (size - 64) % 64 ≡ 0 = omega arith in
      rw (e, test_bit-bit slot (size - 64), at, low) (or_tail w (ok.longs _))

  -- The two loops one after the other, from a location inside the table.
  abbrev pub loops : ℕ → ℕ → Run ℕ
  loops loc n =
      skip_full (suc (length slot)) size slot loc n >>= λ l. test_down (suc size) size slot l

  abbrev pub Finds : Run ℕ → ℕ → Type 0
  Finds run top = (loc : ℕ) × (run ≡ done loc) × (found size loc ≡ last_free top slot)

  loops_inside :
      (loc n : ℕ)
      → loc < size
      → loc / 64 ≡ n
      → (loc % 64 ≡ 63) ⊎ ((bit_not 64 (get_or slot n 0) == 0) ≡ false)
      → Finds (loops loc n) (suc loc)
  loops_inside loc n i a h =
      let n_in : n < length slot = omega (arith, ok.fits) in
      let r =
        skip_full_lem slot size ok.bounded ok.longs (suc (length slot)) n loc i a n_in (omega arith)
          h in
      elim (Bool-cases (ltb r.0 size)) [
        | inl inside ↦
            let lt : r.0 < size = ground arith in
            let t =
              test_down_lem slot size ok.bounded ok.longs (suc size) r.0 lt (omega (arith, ok.fits))
                (omega arith) in
            (
              t.0,
              ap (λ m. m >>= λ l. test_down (suc size) size slot l) r.1 ∙ t.1,
              t.2 ∙ (rw inside at r.2),
            )
        | inr outside ↦ (
          r.0,
          ap (λ m. m >>= λ l. test_down (suc size) size slot l) r.1
              ∙ test_down_end slot size ok.bounded ok.longs size r.0 outside,
          rw outside (rw outside at r.2),
        )
      ]

  loops_outside : (loc n : ℕ) → ltb loc size ≡ false → Finds (loops loc n) 0
  loops_outside loc n out = (
    loc,
    ap (λ m. m >>= λ l. test_down (suc size) size slot l)
          (skip_full_end slot size ok.bounded ok.longs (length slot) loc n out)
        ∙ test_down_end slot size ok.bounded ok.longs size loc out,
    rw (out, last_free_zero slot),
  )

-- Where the search starts: the long of the last location, or the long below it.
module _ (rmgr : RmgrCtrl) (ok : IsBitmap rmgr.slot rmgr.size) where
  abbrev pub size : ℕ
  size = rmgr.size

  abbrev pub slot : List ℕ
  slot = rmgr.slot

  locate_start :
      (full : Bool)
      → tail_full (get_or slot ((size - 1) / 64) 0) size ≡ full
      → locate rmgr
        ≡ loops slot size ok
            (if full then sub_u32 (size - 1) (1 + (size - 1) % 64) else size - 1)
            (if full then sub_u32 ((size - 1) / 64) 1 else (size - 1) / 64)
  unfolding locate
  locate_start full e =
      let down : sub_u32 size 1 ≡ size - 1 = omega (arith, ok.positive, ok.bounded) in
      let n_in : (size - 1) / 64 < length slot = omega (arith, ok.fits, ok.positive) in
      rw (down, load_elem-eq-get_or slot ((size - 1) / 64) 0 n_in, e)

  locate_inside :
      tail_full (get_or slot ((size - 1) / 64) 0) size ≡ false
      → ((size - 1) % 64 ≡ 63) ⊎ ((bit_not 64 (get_or slot ((size - 1) / 64) 0) == 0) ≡ false)
      → Finds slot size ok (locate rmgr) size
  locate_inside e h =
      let f =
        loops_inside slot size ok (size - 1) ((size - 1) / 64) (omega (arith, ok.positive)) refl
          h in
      let at : suc (size - 1) ≡ size = omega (arith, ok.positive) in
      (f.0, locate_start false e ∙ f.1, f.2 ∙ ap (λ t. last_free t slot) at)

  locate_full :
      tail_full (get_or slot ((size - 1) / 64) 0) size ≡ true
      → size % 64 ≡ 0
      → Finds slot size ok (locate rmgr) (size - 64)
  locate_full e h = elim (dec_lt 64 size) [
    | yes more ↦
        let loc : sub_u32 (size - 1) (1 + (size - 1) % 64) ≡ size - 65 =
          omega (arith, ok.bounded) in
        let n : sub_u32 ((size - 1) / 64) 1 ≡ (size - 65) / 64 = omega (arith, ok.bounded) in
        let f =
          loops_inside slot size ok (size - 65) ((size - 65) / 64) (omega arith) refl
            (inl (omega arith)) in
        let at : suc (size - 65) ≡ size - 64 = omega arith in
        (
          f.0,
          locate_start true e ∙ ap₂ (λ x y. loops slot size ok x y) loc n ∙ f.1,
          f.2 ∙ ap (λ t. last_free t slot) at,
        )
    | no only ↦
        let out : ltb (sub_u32 (size - 1) (1 + (size - 1) % 64)) size ≡ false =
          ground (arith, ok.positive, ok.bounded) in
        let f = loops_outside slot size ok _ (sub_u32 ((size - 1) / 64) 1) out in
        let at : 0 ≡ size - 64 = omega arith in
        (f.0, locate_start true e ∙ f.1, f.2 ∙ ap (λ t. last_free t slot) at)
  ]

  -- The search ends inside the bitmap, at the last free location below its top.
  pub locate_lem : Finds slot size ok (locate rmgr) (search_top size slot)
  locate_lem = elim (ℕ_discrete (size % 64) 0) [
    | no inside ↦ rw (==_false (size % 64) 0 inside) (
        locate_inside (tail_full_inside slot size ok inside)
          (inr (last_not_full slot size ok inside)))
    | yes end ↦ rw ((==_iff (size % 64) 0).1 end) (elim (Bool-cases (test_bit (size - 64) slot)) [
      | inl set ↦ rw set (locate_full (tail_full_end slot size ok end ∙ set) end)
      | inr clear ↦ rw clear (
          locate_inside (tail_full_end slot size ok end ∙ clear) (inl (omega (arith, ok.positive))))
    ])
  ]
