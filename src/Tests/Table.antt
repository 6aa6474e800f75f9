-- ===== src/Tests/Table.antt =====
-- Bitmaps, the rule manager and insertion on small tables.
use ethtool.Base.{
  ℕ, zero, suc, ◌-◌, ◌^◌, ◌≤◌, ◌<◌, ◌≡◌, ◌⊎◌, refl, subst, Bool, true, false, none, some, List, [],
  ◌∷◌, ◌==◌, arith, replicate, get_or,
}
use ethtool.Base.Int.{pos, is_neg}
use ethtool.Base.Run.{done}
use ethtool.Bitmap.{set_bit, test_bit, test_long, IsLongs}
use ethtool.FlowSpec.{FlowSpec, zero_spec, get_location, set_location}
use ethtool.Rmgr.{RmgrCtrl, rmgr_ins, rmgr_find_empty_slot}
use ethtool.Rmgr.Spec.{IsBitmap, last_free, search_top}
use ethtool.Rmgr.Slots.{
  placed, Places, Inserted, set_bit-IsBitmap, rmgr_find_empty_slot-last_free,
  rmgr_find_empty_slot_complete, rmgr_find_empty_slot_misses_free, rmgr_ins-Inserted,
}
use ethtool.Rules.{Device, Inserting, rxclass_rule_ins}
use ethtool.Rules.Fill.{zero-IsBitmap}
use ethtool.Rules.Insert.{IsTable, Chooses, rxclass_rule_ins-Chooses}
use ethtool.Rules.Total.{rxclass_rule_ins_total}

-- A table of 100 locations whose last one is used, and one of 64 whose first one is used.
abbrev last_used : List ℕ
last_used = set_bit 99 (replicate 2 0)

abbrev first_used : List ℕ
first_used = set_bit 0 (replicate 1 0)

abbrev manager : List ℕ → ℕ → RmgrCtrl
manager slot size = record { driver_select = false; slot = slot; n_rules = 1; size = size }

last_used-IsBitmap : IsBitmap last_used 100
last_used-IsBitmap =
    set_bit-IsBitmap (replicate 2 0) 100 99 (zero-IsBitmap 100 (omega arith) (omega arith))
      (omega arith)

first_used-IsBitmap : IsBitmap first_used 64
first_used-IsBitmap =
    set_bit-IsBitmap (replicate 1 0) 64 0 (zero-IsBitmap 64 (omega arith) (omega arith))
      (omega arith)

first_used_bit : (j : ℕ) → j ≤ 0 → test_bit j first_used ≡ true
unfolding test_bit set_bit test_long
first_used_bit j h = let e : 0 ≡ j = omega arith in subst (λ i. test_bit i first_used ≡ true) e refl

one_long-IsLongs : IsLongs (1 ∷ [])
one_long-IsLongs zero = omega arith
one_long-IsLongs (suc i) = omega arith

rmgr_find_empty_slot-last_free_example :
    rmgr_find_empty_slot (manager last_used 100) zero_spec
    ≡ done
        (placed (manager last_used 100) zero_spec (last_free (search_top 100 last_used) last_used))
rmgr_find_empty_slot-last_free_example =
    rmgr_find_empty_slot-last_free (manager last_used 100) zero_spec last_used-IsBitmap refl

rmgr_find_empty_slot_complete_example :
    Places
      (manager last_used 100)
      zero_spec
      100
      (rmgr_find_empty_slot (manager last_used 100) zero_spec)
rmgr_find_empty_slot_complete_example =
    rmgr_find_empty_slot_complete (manager last_used 100) zero_spec last_used-IsBitmap refl
      (omega arith)

rmgr_find_empty_slot_misses_free_example :
    (rmgr_find_empty_slot (manager first_used 64) zero_spec
      ≡ done (placed (manager first_used 64) zero_spec none))
    × (rmgr_ins (manager first_used 64) 5
        ≡ some (record (manager first_used 64) { slot = set_bit 5 first_used }))
unfolding test_bit set_bit test_long
rmgr_find_empty_slot_misses_free_example =
    rmgr_find_empty_slot_misses_free (manager first_used 64) zero_spec first_used-IsBitmap refl 5
      refl first_used_bit (omega arith) refl

rmgr_ins-Inserted_example :
    ((100 ≤ 7) × (rmgr_ins (manager last_used 100) 7 ≡ none))
    ⊎ ((rmgr' : RmgrCtrl) × (7 < 100)
        × (rmgr_ins (manager last_used 100) 7 ≡ some rmgr')
        × Inserted (manager last_used 100) 7 rmgr')
rmgr_ins-Inserted_example = rmgr_ins-Inserted (manager last_used 100) 7 last_used-IsBitmap

-- A device with 100 locations, of which location 99 holds a rule; its state is the last rule sent.
abbrev card : Device FlowSpec
card = record {
  count = λ s. record { err = pos 0; rule_cnt = 1; info = 0 };
  all = λ s n. record { err = pos 0; info = 100; rule_locs = 99 ∷ [] };
  rule = λ s loc. record { err = pos 0; fs = s; rss_context = 0 };
  insert = λ s fsp rss. record { err = pos 0; location = get_location fsp; state = fsp };
  delete = λ s loc. record { err = pos 0; location = loc; state = s };
  calloc_rules = λ n. true;
  calloc_slots = λ n. true;
}

abbrev card_used : ℕ → Bool
card_used j = j == 99

card-IsTable : IsTable card zero_spec 100 card_used
card-IsTable = record {
  n = 1;
  count_ok = refl;
  counts = refl;
  manual = refl;
  all_ok = refl;
  table_size = refl;
  positive = omega arith;
  bounded = omega arith;
  few = omega arith;
  listed = λ k l.
      let e : 0 ≡ k = omega arith in
      subst (λ i. (get_or (99 ∷ []) i 0 < 100) × (card_used (get_or (99 ∷ []) i 0) ≡ true)) e
        (omega arith, refl);
  every = λ j u. (0, omega arith, ground arith);
  memory_rules = refl;
  memory_slots = refl;
}

abbrev unplaced : FlowSpec
unplaced = set_location zero_spec (2 ^ 32 - 1)

rxclass_rule_ins-Chooses_example :
    Chooses card zero_spec 100 card_used card-IsTable unplaced 0
      (rxclass_rule_ins card zero_spec unplaced 0)
unfolding get_location set_location
rxclass_rule_ins-Chooses_example =
    rxclass_rule_ins-Chooses card zero_spec 100 card_used card-IsTable unplaced 0 refl refl
      (omega arith)

rxclass_rule_ins_total_example :
    (r : Inserting FlowSpec) × (rxclass_rule_ins card zero_spec unplaced 0 ≡ done r)
    × (((is_neg r.ret ≡ true) × (r.state ≡ zero_spec) × (r.added ≡ none))
        ⊎ ((r.ret ≡ pos 0) × (r.state ≡ (card.insert zero_spec r.fsp 0).state)))
rxclass_rule_ins_total_example = rxclass_rule_ins_total card zero_spec unplaced 0
