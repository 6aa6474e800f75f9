-- ===== src/Rules/Total.antt =====
-- rxclass_rule_ins on any device, whatever it answers.
use ethtool.Base.{
  ℕ, zero, suc, ◌+◌, ◌%◌, ◌^◌, ◌≡◌, ◌⊎◌, inl, inr, refl, ap, ◌∙◌, sym, subst, true, false, List,
  get_or, replicate, none, ◌==◌, ltb, if◌then◌else◌, ◌||◌, arith, Bool-cases,
}
use ethtool.Base.Int.{ℤ, pos, is_neg}
use ethtool.Base.Run.{Run, done, ◌>>=◌}
use ethtool.FlowSpec.{FlowSpec, get_location}
use ethtool.Rmgr.{RmgrCtrl, Found}
use ethtool.Rmgr.Spec.{IsBitmap, bits_to_longs}
use ethtool.Rmgr.Slots.{rmgr_ins-Inserted, rmgr_find_empty_slot_ends}
use ethtool.Rules.{
  Device, AllReply, Init, Inserting, is_special, ins_all, rmgr_fill, rmgr_init, rmgr_set_location,
  send_rule, rxclass_rule_ins,
}
use ethtool.Rules.Fill.{zero-IsBitmap}

-- rmgr_init fails, leaves the choice to the driver, or gives a well-formed bitmap.
abbrev Ready : Init → Type 0
Ready init =
    (is_neg init.err ≡ true)
    ⊎ ((init.rmgr.driver_select ≡ true) ⊎ IsBitmap init.rmgr.slot init.rmgr.size)

ins_all-Ready :
    (locs : List ℕ) (n i : ℕ) (err : ℤ) (rmgr : RmgrCtrl)
    → IsBitmap rmgr.slot rmgr.size
    → Ready (ins_all locs n i err rmgr)
unfolding ins_all
ins_all-Ready locs zero i err rmgr ok = inr (inr ok)
ins_all-Ready locs (suc n) i err rmgr ok = elim (rmgr_ins-Inserted rmgr (get_or locs i 0) ok) [
  | inl (_, e) ↦ rw (e, ins_all) (inl refl)
  | inr (rmgr', _, e, ins) ↦
      rw (e, ins_all)
        (ins_all-Ready locs n (i + 1) (pos 0) rmgr'
          (subst (λ z. IsBitmap rmgr'.slot z) (sym ins.1) ins.0))
]

module _ {S : Type 0} (dev : Device S) where
  rmgr_fill-Ready : (rmgr : RmgrCtrl) (reply : AllReply) → Ready (rmgr_fill dev rmgr reply)
  unfolding rmgr_fill
  rmgr_fill-Ready rmgr reply =
      let size : ℕ = reply.info % 2 ^ 32 in
      let slots : ℕ = bits_to_longs size in
      elim (Bool-cases (is_neg reply.err)) [
        | inl e ↦ rw e (inl e)
        | inr e ↦ rw e (elim (Bool-cases (size == 0 || ltb size rmgr.n_rules)) [
          | inl f ↦ rw f (inl refl)
          | inr f ↦ rw f (elim (Bool-cases (dev.calloc_slots slots)) [
            | inr g ↦ rw g (inl refl)
            | inl g ↦ rw g (
                ins_all-Ready reply.rule_locs rmgr.n_rules 0 reply.err
                  (record {
                    driver_select = rmgr.driver_select;
                    slot = replicate slots 0;
                    n_rules = rmgr.n_rules;
                    size = size;
                  })
                  (zero-IsBitmap size (ground arith) (omega arith)))
          ])
        ])
      ]

  rmgr_init-Ready : (s : S) → Ready (rmgr_init dev s)
  unfolding rmgr_init
  rmgr_init-Ready s = elim (Bool-cases (is_neg (dev.count s).err)) [
    | inl e ↦ rw e (inl e)
    | inr e ↦ rw e (elim (Bool-cases (is_special (dev.count s).info)) [
      | inl d ↦ rw d (inr (inl refl))
      | inr d ↦ rw d (elim (Bool-cases (dev.calloc_rules (dev.count s).rule_cnt)) [
        | inr m ↦ rw m (inl refl)
        | inl m ↦ rw m (rmgr_fill-Ready _ _)
      ])
    ])
  ]

  -- rmgr_set_location ends with a return value and a rule.
  set_location_ends :
      (s : S) (fsp : FlowSpec)
      → (r : record { err : ℤ; rule : FlowSpec }) × (rmgr_set_location dev s fsp
          ≡ done (r.err, r.rule))
  unfolding rmgr_set_location
  set_location_ends s fsp = elim (Bool-cases (is_neg (rmgr_init dev s).err)) [
    | inl e ↦ (record { err = (rmgr_init dev s).err; rule = fsp }, rw e)
    | inr e ↦
        let ready : ((rmgr_init dev s).rmgr.driver_select ≡ true)
            ⊎ IsBitmap (rmgr_init dev s).rmgr.slot (rmgr_init dev s).rmgr.size =
          elim (rmgr_init-Ready s) [
            | inl neg ↦ let off : false ≡ true = sym e ∙ neg in cc
            | inr ready ↦ ready
          ] in
        let f = rmgr_find_empty_slot_ends (rmgr_init dev s).rmgr fsp ready in
        (
          record { err = f.0.ret; rule = f.0.fsp },
          rw e (ap (λ m. m >>= λ (g : Found). done (g.ret, g.fsp)) f.1),
        )
  ]

  sending : S → ℕ → ℤ × FlowSpec → Run (Inserting S)
  sending s rss (err, fsp) =
      if is_neg err
      then done (record { ret = err; state = s; fsp = fsp; added = none })
      else done (send_rule dev s fsp rss true)

  -- Whatever the device answers, rxclass_rule_ins ends without an access outside the bitmap. If it
  -- returns an error, nothing was sent to the device and no ID was printed. If it returns 0, the
  -- device is as one insertion left it.
  pub rxclass_rule_ins_total :
      (s : S) (fsp : FlowSpec) (rss : ℕ)
      → (r : Inserting S) × (rxclass_rule_ins dev s fsp rss ≡ done r)
        × (((is_neg r.ret ≡ true) × (r.state ≡ s) × (r.added ≡ none))
            ⊎ ((r.ret ≡ pos 0) × (r.state ≡ (dev.insert s r.fsp rss).state)))
  unfolding rxclass_rule_ins send_rule sending
  rxclass_rule_ins_total s fsp rss = elim (Bool-cases (is_special (get_location fsp))) [
    | inr plain ↦ (send_rule dev s fsp rss false, rw plain, inr (refl, refl))
    | inl special ↦
        let r = set_location_ends s fsp in
        elim (Bool-cases (is_neg r.0.err)) [
          | inl neg ↦ (
            record { ret = r.0.err; state = s; fsp = r.0.rule; added = none },
            rw special (ap (λ m. m >>= sending s rss) r.1 ∙ rw neg),
            inl (neg, refl, refl),
          )
          | inr ok ↦ (
            send_rule dev s r.0.rule rss true,
            rw special (ap (λ m. m >>= sending s rss) r.1 ∙ rw ok),
            inr (refl, refl),
          )
        ]
  ]
