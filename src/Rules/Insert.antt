-- ===== src/Rules/Insert.antt =====
-- rxclass_rule_ins on a device that keeps a table of rules: where a rule without a location goes.
use ethtool.Base.{
  ℕ, ◌%◌, ◌^◌, ◌≤◌, ◌<◌, ◌≡◌, ◌≢◌, ◌⊎◌, inl, inr, refl, ap, ◌∙◌, sym, subst, Bool, true, false,
  List, length, get_or, replicate, Option, none, some, ◌==◌, ltb, if◌then◌else◌, arith, Bool-cases,
}
use native.Mathlib.Nat.{zero-add}
use ethtool.Base.Int.{negsuc, is_neg}
use ethtool.Base.Run.{Run, done, ◌>>=◌, >>=_assoc}
use ethtool.FlowSpec.Laws.{get_location-set_location}
use ethtool.Bitmap.{test_bit}
use ethtool.FlowSpec.{FlowSpec, get_location, set_location}
use ethtool.FlowSpec.Offsets.{spec_size}
use ethtool.Rmgr.{RmgrCtrl, Found, rmgr_find_empty_slot}
use ethtool.Rmgr.Spec.{IsBitmap, bits_to_longs}
use ethtool.Rmgr.Slots.{placed, rmgr_find_empty_slot_complete}
use ethtool.Rules.{
  Device, Inserting, is_special, ins_all, rxclass_get_dev_info, rmgr_fill, rmgr_init,
  rmgr_set_location, send_rule, rxclass_rule_ins,
}
use ethtool.Rules.Fill.{Fills, Filled, ins_all-Filled, zero-IsBitmap, zero-test_bit}

-- The device in state `s` keeps a table of `size` locations, `used` says which hold a rule, and it
-- answers as the kernel documents: ETHTOOL_GRXCLSRLCNT gives the number of rules, with no flag that
-- the driver selects locations, and ETHTOOL_GRXCLSRLALL gives the table's size and the locations of
-- all rules. The two allocations succeed.
pub record IsTable {S : Type 0} (dev : Device S) (s : S) (size : ℕ) (used : ℕ → Bool) : Type 0 where
  pub n : ℕ
  pub count_ok : is_neg (dev.count s).err ≡ false
  pub counts : (dev.count s).rule_cnt ≡ n
  pub manual : is_special (dev.count s).info ≡ false
  pub all_ok : is_neg (dev.all s n).err ≡ false
  pub table_size : (dev.all s n).info ≡ size
  pub positive : 0 < size
  pub bounded : size < 2 ^ 32
  pub few : n ≤ size
  pub listed :
      (k : ℕ)
      → k < n
      → (get_or (dev.all s n).rule_locs k 0 < size)
        × (used (get_or (dev.all s n).rule_locs k 0) ≡ true)
  pub every : (j : ℕ) → used j ≡ true → (k : ℕ) × (k < n) × (get_or (dev.all s n).rule_locs k 0 ≡ j)
  pub memory_rules : dev.calloc_rules n ≡ true
  pub memory_slots : dev.calloc_slots (bits_to_longs size) ≡ true

module _ {S : Type 0} (dev : Device S) (s : S) (size : ℕ) (used : ℕ → Bool)
    (t : IsTable dev s size used) where
  abbrev locs : List ℕ
  locs = (dev.all s t.n).rule_locs

  abbrev empty : RmgrCtrl
  empty = record {
    driver_select = false;
    slot = replicate (bits_to_longs size) 0;
    n_rules = t.n;
    size = size;
  }

  Fills-empty : Fills locs size used 0 empty
  Fills-empty = record {
    bitmap = zero-IsBitmap size t.positive t.bounded;
    sized = refl;
    sound = λ j h. let off : false ≡ true = sym (zero-test_bit (bits_to_longs size) j) ∙ h in cc;
    complete = λ k l. elim l [ ];
  }

  rmgr_init-ins_all : rmgr_init dev s ≡ ins_all locs t.n 0 (dev.all s t.n).err empty
  unfolding rmgr_init rmgr_fill rxclass_get_dev_info
  rmgr_init-ins_all =
      let nonzero : (size == 0) ≡ false = ground (arith, t.positive) in
      let few : ltb size t.n ≡ false = ground (arith, t.few) in
      let narrow : size % 2 ^ 32 ≡ size = omega (arith, t.bounded) in
      simp (
        t.count_ok, t.counts, t.manual, t.memory_rules, t.all_ok, t.table_size, narrow, nonzero,
        few, t.memory_slots,
      )

  init-Filled : Filled locs size used t.n empty (rmgr_init dev s)
  init-Filled = rw rmgr_init-ins_all (
      subst (λ k. Filled locs size used k empty (ins_all locs t.n 0 (dev.all s t.n).err empty))
        (zero-add t.n)
        (ins_all-Filled locs size used t.n 0 (dev.all s t.n).err empty t.all_ok
          (λ k l. t.listed k (omega arith)) Fills-empty))

  -- After rmgr_init the bitmap is the device's table.
  test_bit-rmgr_init : (j : ℕ) → test_bit j (rmgr_init dev s).rmgr.slot ≡ used j
  test_bit-rmgr_init j =
      let f = init-Filled.1 in
      elim (Bool-cases (used j)) [
        | inl u ↦ let (k, l, e) = t.every j u in (rw e at (f.complete k l)) ∙ sym u
        | inr free ↦ elim (Bool-cases (test_bit j (rmgr_init dev s).rmgr.slot)) [
          | inr clear ↦ clear ∙ sym free
          | inl set ↦ let off : false ≡ true = sym free ∙ f.sound j set in cc
        ]
      ]

  -- The outcomes for a rule whose location is to be chosen.
  abbrev pub Chooses : FlowSpec → ℕ → Run (Inserting S) → Type 0
  Chooses fsp rss run =
      ((loc : ℕ) × (loc < size)
        × (used loc ≡ false)
        × ((j : ℕ) → loc < j → j < size → used j ≡ true)
        × (get_location (set_location fsp loc) ≡ loc)
        × (run ≡ done (send_rule dev s (set_location fsp loc) rss true)))
      ⊎ (((j : ℕ) → j < size → used j ≡ true)
          × (run ≡ done (record { ret = negsuc 0; state = s; fsp = fsp; added = none })))

  -- What follows the search.
  abbrev send_found : FlowSpec → ℕ → Found → Run (Inserting S)
  send_found fsp rss f =
      if is_neg f.ret
      then done (record { ret = f.ret; state = s; fsp = f.fsp; added = none })
      else done (send_rule dev s f.fsp rss true)

  rule_ins_search :
      (fsp : FlowSpec) (rss : ℕ)
      → is_special (get_location fsp) ≡ true
      → rxclass_rule_ins dev s fsp rss
        ≡ (rmgr_find_empty_slot (rmgr_init dev s).rmgr fsp >>= send_found fsp rss)
  unfolding rxclass_rule_ins rmgr_set_location
  rule_ins_search fsp rss special =
      rw (special, init-Filled.0) (>>=_assoc (rmgr_find_empty_slot (rmgr_init dev s).rmgr fsp) _ _)

  -- On a device that keeps a table, whose driver does not select locations and whose size is no
  -- multiple of 64, a rule of 168 bytes without a location is sent with the last location that
  -- holds no rule, so that no rule is overwritten, or every location holds a rule, the call
  -- returns -1, and nothing is sent.
  pub rxclass_rule_ins-Chooses :
      (fsp : FlowSpec) (rss : ℕ)
      → length fsp ≡ spec_size
      → is_special (get_location fsp) ≡ true
      → size % 64 ≢ 0
      → Chooses fsp rss (rxclass_rule_ins dev s fsp rss)
  rxclass_rule_ins-Chooses fsp rss len special odd =
      let f = init-Filled.1 in
      let rmgr : RmgrCtrl = (rmgr_init dev s).rmgr in
      let ok = subst (λ z. IsBitmap rmgr.slot z) (sym f.sized) f.bitmap in
      let sent = λ (o : Option ℕ) (e : rmgr_find_empty_slot rmgr fsp ≡ done (placed rmgr fsp o)).
        rule_ins_search fsp rss special ∙ ap (λ m. m >>= send_found fsp rss) e in
      let odd' : rmgr.size % 64 ≢ 0 = λ e. odd (rw (sym f.sized) e) in
      elim (rmgr_find_empty_slot_complete rmgr fsp ok init-Filled.2 odd') [
        | inl (loc, last, e) ↦ inl (
          loc,
          omega (arith, last.below, f.sized),
          sym (test_bit-rmgr_init loc) ∙ last.free,
          λ j p q. sym (test_bit-rmgr_init j) ∙ last.used_above j p (omega (arith, f.sized)),
          get_location-set_location fsp loc len (omega (arith, last.below, f.sized, t.bounded)),
          sent (some loc) e,
        )
        | inr (full, e) ↦
            inr (λ j q. sym (test_bit-rmgr_init j) ∙ full j (omega (arith, f.sized)), sent none e)
      ]
