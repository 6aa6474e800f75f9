-- ===== src/Rules.antt =====
-- rxclass.c, rules on a device: rmgr_init and rmgr_set_location, and the four commands
-- rxclass_rule_get, rxclass_rule_getall, rxclass_rule_ins and rxclass_rule_del.
-- The kernel's side of `send_ioctl` and the success of `calloc` are the record `Device`.
pub mod Fill
pub mod Insert
pub mod Total
use ethtool.Base.{
  ℕ, zero, suc, ◌+◌, ◌%◌, ◌^◌, bit_and, Bool, List, [], ◌∷◌, ◌++◌, Option, none, some, ◌==◌, ltb,
  get_or, replicate, if◌then◌else◌, not, ◌||◌, true, false,
}
use ethtool.Base.Int.{ℤ, pos, negsuc, is_neg}
use ethtool.Base.Run.{Run, done, ◌>>=◌}
use ethtool.FlowSpec.{FlowSpec, get_location, set_location, zero_spec}
use ethtool.Rmgr.{RmgrCtrl, Found, rmgr_ins, rmgr_find_empty_slot}
use ethtool.Rmgr.Spec.{bits_to_longs}

-- `struct ethtool_rxnfc` after ETHTOOL_GRXCLSRLCNT: the return value, `rule_cnt` and `data`.
pub record CountReply : Type 0 where
  pub err : ℤ
  pub rule_cnt : ℕ
  pub info : ℕ

-- After ETHTOOL_GRXCLSRLALL: `data` and the array `rule_locs`, zeroed where the kernel wrote nothing.
pub record AllReply : Type 0 where
  pub err : ℤ
  pub info : ℕ
  pub rule_locs : List ℕ

-- After ETHTOOL_GRXCLSRULE.
pub record RuleReply : Type 0 where
  pub err : ℤ
  pub fs : FlowSpec
  pub rss_context : ℕ

-- After ETHTOOL_SRXCLSRLINS and ETHTOOL_SRXCLSRLDEL, which change the device.
pub record ChangeReply (S : Type 0) : Type 0 where
  pub err : ℤ
  pub location : ℕ
  pub state : S

pub record Device (S : Type 0) : Type 0 where
  pub count : S → CountReply
  pub all : S → ℕ → AllReply
  pub rule : S → ℕ → RuleReply
  pub insert : S → FlowSpec → ℕ → ChangeReply S
  pub delete : S → ℕ → ChangeReply S
  pub calloc_rules : ℕ → Bool
  pub calloc_slots : ℕ → Bool

-- `loc & RX_CLS_LOC_SPECIAL`
abbrev pub is_special : ℕ → Bool
is_special loc = not (bit_and loc (2 ^ 31) == 0)

pub record DevInfo : Type 0 where
  pub err : ℤ
  pub count : ℕ
  pub driver_select : Bool

pub record Init : Type 0 where
  pub err : ℤ
  pub rmgr : RmgrCtrl

-- The return value, the device, the caller's rule and the ID that "Added rule with ID" prints.
pub record Inserting (S : Type 0) : Type 0 where
  pub ret : ℤ
  pub state : S
  pub fsp : FlowSpec
  pub added : Option ℕ

-- The return value and what was printed: the rule count, and the rules with their contexts.
pub record Shown : Type 0 where
  pub ret : ℤ
  pub total : Option ℕ
  pub rules : List (FlowSpec × ℕ)

-- `for (i = 0; i < n_rules; i++) { err = rmgr_ins(rmgr, rule_locs[i]); if (err < 0) break; }`,
-- with the rounds left.
pub ins_all : List ℕ → ℕ → ℕ → ℤ → RmgrCtrl → Init
ins_all locs zero i err rmgr = record { err = err; rmgr = rmgr }
ins_all locs (suc n) i err rmgr = elim (rmgr_ins rmgr (get_or locs i 0)) [
  | none ↦ record { err = negsuc 0; rmgr = rmgr }
  | some rmgr' ↦ ins_all locs n (i + 1) (pos 0) rmgr'
]

module _ {S : Type 0} (dev : Device S) where
  pub rxclass_get_dev_info : S → DevInfo
  rxclass_get_dev_info s =
      let reply = dev.count s in
      record { err = reply.err; count = reply.rule_cnt; driver_select = is_special reply.info }

  -- The part of rmgr_init behind the request for the locations.
  pub rmgr_fill : RmgrCtrl → AllReply → Init
  rmgr_fill rmgr reply =
      let size : ℕ = reply.info % 2 ^ 32 in
      let sized : RmgrCtrl = record rmgr { size = size } in
      let slots : ℕ = bits_to_longs size in
      let rest =
        ins_all reply.rule_locs rmgr.n_rules 0 reply.err
          (record sized { slot = replicate slots 0 }) in
      if is_neg reply.err
      then record { err = reply.err; rmgr = rmgr }
      else if size == 0 || ltb size rmgr.n_rules
      then record { err = negsuc 0; rmgr = sized }
      else if not (dev.calloc_slots slots)
      then record { err = negsuc 0; rmgr = sized }
      else rest

  pub rmgr_init : S → Init
  unfolding rxclass_get_dev_info
  rmgr_init s =
      let info = rxclass_get_dev_info s in
      let rmgr : RmgrCtrl = record {
        driver_select = info.driver_select;
        slot = [];
        n_rules = info.count;
        size = 0;
      } in
      if is_neg info.err
      then record { err = info.err; rmgr = rmgr }
      else if rmgr.driver_select
      then record { err = pos 0; rmgr = rmgr }
      else if not (dev.calloc_rules rmgr.n_rules)
      then record { err = negsuc 0; rmgr = rmgr }
      else rmgr_fill rmgr (dev.all s rmgr.n_rules)

  -- The return value and the caller's rule.
  pub rmgr_set_location : S → FlowSpec → Run (ℤ × FlowSpec)
  rmgr_set_location s fsp =
      let init = rmgr_init s in
      if is_neg init.err
      then done (init.err, fsp)
      else rmgr_find_empty_slot init.rmgr fsp >>= λ f. done (f.ret, f.fsp)

  -- The request of rxclass_rule_ins.
  pub send_rule : S → FlowSpec → ℕ → Bool → Inserting S
  send_rule s fsp rss_context special =
      let reply = dev.insert s fsp rss_context in
      record {
        ret = pos 0;
        state = reply.state;
        fsp = fsp;
        added = if is_neg reply.err then none else if special then some reply.location else none;
      }

  pub rxclass_rule_ins : S → FlowSpec → ℕ → Run (Inserting S)
  rxclass_rule_ins s fsp rss_context =
      if is_special (get_location fsp)
      then (rmgr_set_location s fsp >>= λ (err, fsp').
          if is_neg err
          then done (record { ret = err; state = s; fsp = fsp'; added = none })
          else done (send_rule s fsp' rss_context true))
      else done (send_rule s fsp rss_context false)

  pub rxclass_rule_del : S → ℕ → ℤ × S
  rxclass_rule_del s loc = let reply = dev.delete s loc in (reply.err, reply.state)

  pub rxclass_rule_get : S → ℕ → Shown
  rxclass_rule_get s loc =
      let reply = dev.rule s loc in
      record {
        ret = reply.err;
        total = none;
        rules = if is_neg reply.err then [] else (reply.fs, reply.rss_context) ∷ [];
      }

  -- The loop of rxclass_rule_getall, with the rounds left and the last return value.
  pub show_all : List ℕ → ℕ → ℕ → ℤ → S → ℤ × List (FlowSpec × ℕ)
  unfolding rxclass_rule_get
  show_all locs zero i err s = (err, [])
  show_all locs (suc n) i err s =
      let shown = rxclass_rule_get s (get_or locs i 0) in
      let rest = show_all locs n (i + 1) shown.ret s in
      if is_neg shown.ret then (shown.ret, []) else (rest.0, shown.rules ++ rest.1)

  pub rxclass_rule_getall : S → Shown
  rxclass_rule_getall s =
      let info = rxclass_get_dev_info s in
      let reply = dev.all s info.count in
      let shown = show_all reply.rule_locs info.count 0 reply.err s in
      if is_neg info.err
      then record { ret = info.err; total = none; rules = [] }
      else if not (dev.calloc_rules info.count)
      then record { ret = negsuc 11; total = some info.count; rules = [] }
      else if is_neg reply.err
      then record { ret = reply.err; total = some info.count; rules = [] }
      else record { ret = shown.0; total = some info.count; rules = shown.1 }
