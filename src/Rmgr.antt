-- ===== src/Rmgr.antt =====
-- rxclass.c, the rule manager: `struct rmgr_ctrl`, rmgr_ins and rmgr_find_empty_slot.
-- A location is a `__u32`, so its arithmetic wraps at 2 ^ 32; the bitmap is an array of longs, and
-- a read outside it is a fault.
pub mod Spec
pub mod Search
pub mod Slots
use ethtool.Base.{
  ℕ, zero, suc, ◌+◌, ◌-◌, ◌*◌, ◌/◌, ◌%◌, ◌^◌, bit_or, Bool, List, length, Option, none, some, ◌==◌,
  ltb, leb, if◌then◌else◌, true, false, ◌&&◌,
}
use ethtool.Base.Bits.{bit_not}
use ethtool.Base.Int.{ℤ, pos, negsuc}
use ethtool.Base.Run.{Run, done, fault, out_of_fuel, ◌>>=◌, load_elem}
use ethtool.Bitmap.{bits_per_long, set_bit, test_long}
use ethtool.FlowSpec.{FlowSpec, set_location}

pub record RmgrCtrl : Type 0 where
  pub driver_select : Bool
  pub slot : List ℕ
  pub n_rules : ℕ
  pub size : ℕ

-- `(__u32)(a - b)` for `a` below 2 ^ 32 and `b` at most 2 ^ 32.
abbrev pub sub_u32 : ℕ → ℕ → ℕ
sub_u32 a b = (a + 2 ^ 32 - b) % 2 ^ 32

-- `none` is the return of -1: the location is out of range.
pub rmgr_ins : RmgrCtrl → ℕ → Option RmgrCtrl
rmgr_ins rmgr loc =
    if leb rmgr.size loc then none else some (record rmgr { slot = set_bit loc rmgr.slot })

-- `!~(slot[slot_num] | (~1UL << size % BITS_PER_LONG))`
pub tail_full : ℕ → ℕ → Bool
tail_full word size =
    bit_not 64 (bit_or word (bit_not 64 1 * 2 ^ (size % bits_per_long) % 2 ^ 64)) == 0

-- `while (loc < size && !~slot[slot_num]) { loc -= BITS_PER_LONG; slot_num--; }`
pub skip_full : ℕ → ℕ → List ℕ → ℕ → ℕ → Run ℕ
skip_full zero size slot loc slot_num = out_of_fuel
skip_full (suc fuel) size slot loc slot_num =
    let next = skip_full fuel size slot (sub_u32 loc bits_per_long) (sub_u32 slot_num 1) in
    let body =
      load_elem slot slot_num >>= λ word. if bit_not 64 word == 0 then next else done loc in
    if ltb loc size then body else done loc

-- `while (loc < size && test_bit(loc, slot)) loc--;`
pub test_down : ℕ → ℕ → List ℕ → ℕ → Run ℕ
test_down zero size slot loc = out_of_fuel
test_down (suc fuel) size slot loc =
    let next = test_down fuel size slot (sub_u32 loc 1) in
    let body = load_elem slot (loc / bits_per_long) >>= λ word.
    if test_long loc word then next else done loc in
    if ltb loc size then body else done loc

-- The search of rmgr_find_empty_slot, up to the test `loc < rmgr->size`.
pub locate : RmgrCtrl → Run ℕ
locate rmgr =
    let loc = sub_u32 rmgr.size 1 in
    let slot_num = loc / bits_per_long in
    load_elem rmgr.slot slot_num
    >>= (λ word.
        let full = tail_full word rmgr.size in
        let loc' = if full then sub_u32 loc (1 + loc % bits_per_long) else loc in
        let slot_num' = if full then sub_u32 slot_num 1 else slot_num in
        skip_full (suc (length rmgr.slot)) rmgr.size rmgr.slot loc' slot_num')
    >>= λ loc''. test_down (suc rmgr.size) rmgr.size rmgr.slot loc''

-- The new manager, the rule with its location, and the return code.
pub record Found : Type 0 where
  pub ret : ℤ
  pub rmgr : RmgrCtrl
  pub fsp : FlowSpec

-- The end of rmgr_find_empty_slot.
pub place : RmgrCtrl → FlowSpec → ℕ → Found
place rmgr fsp loc =
    if ltb loc rmgr.size
    then elim (rmgr_ins rmgr loc) [
      | none ↦ record { ret = negsuc 0; rmgr = rmgr; fsp = set_location fsp loc }
      | some rmgr' ↦ record { ret = pos 0; rmgr = rmgr'; fsp = set_location fsp loc }
    ]
    else record { ret = negsuc 0; rmgr = rmgr; fsp = fsp }

pub rmgr_find_empty_slot : RmgrCtrl → FlowSpec → Run Found
rmgr_find_empty_slot rmgr fsp =
    if rmgr.driver_select
    then done (record { ret = pos 0; rmgr = rmgr; fsp = fsp })
    else locate rmgr >>= λ loc. done (place rmgr fsp loc)
