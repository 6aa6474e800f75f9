-- ===== src/Classify/Adds.antt =====
-- do_srxclass with a rule: which of the two interfaces gets it.
use ethtool.Base.{
  ℕ, ◌≡◌, ◌⊎◌, inl, inr, refl, ap, bit_and, Bool, true, false, ◌&&◌, ◌||◌, not, Option, none, some,
  List, ◌∷◌, ◌==◌, if◌then◌else◌, codes, Bool-cases,
}
use ethtool.Base.Int.{is_neg}
use ethtool.Base.Maybe.{◌>>=◌}
use ethtool.Base.Run.{Run, done, and_then}
use ethtool.Clib.{str_eq}
use ethtool.Classify.{Card, Ended, add_rule, after_ntuple, after_insert, context_or_0, do_srxclass}
use ethtool.FlowSpec.{FlowSpec}
use ethtool.Ntuple.{
  Ntuple, Tried, flow_spec_to_ntuple, send_ntuple, do_srxntuple, is_zero, eth_flag_ntuple,
}
use ethtool.Rules.{Inserting, rxclass_rule_ins}
use ethtool.Rules.Total.{rxclass_rule_ins_total}
use ethtool.Rxclass.Parse.{Parsed, rxclass_parse_ruleopts}
use ethtool.Rxclass.Value.{Inet}

taken : (a b : Bool) → (not a || b) ≡ false → (a && not b) ≡ true
taken true false h = refl
taken true true h = cc
taken false b h = cc

not_taken : (a b : Bool) → (not a || b) ≡ true → (a && not b) ≡ false
not_taken true true h = refl
not_taken true false h = cc
not_taken false b h = refl

module _ {S : Type 0} (inet : Inet) (card : Card S) (s : S) where
  -- The device has flags that are read and have the flag for ntuples.
  abbrev pub takes_ntuples : Bool
  takes_ntuples =
      is_zero (card.ntuples.get_flags s).err
      && not (bit_and (card.ntuples.get_flags s).flags eth_flag_ntuple == 0)

  -- The device before the classifier is asked: as it was, where the rule has no ntuple or the device
  -- does not take them, or as the kernel's refusal of the ntuple left it.
  abbrev pub Refused : FlowSpec → S → Type 0
  Refused fsp s' =
      ((s' ≡ s) × ((flow_spec_to_ntuple fsp ≡ none) ⊎ (takes_ntuples ≡ false)))
      ⊎ ((n : Ntuple) × (flow_spec_to_ntuple fsp ≡ some n)
          × (takes_ntuples ≡ true)
          × (is_neg (card.ntuples.send s n).err ≡ true)
          × (s' ≡ (card.ntuples.send s n).state))

  -- The rule was sent as an ntuple, or inserted by the classifier.
  abbrev pub AddsRule : Parsed → Run (Ended S) → Type 0
  AddsRule r run =
      ((n : Ntuple) × (flow_spec_to_ntuple r.fsp ≡ some n)
        × (takes_ntuples ≡ true)
        × (is_neg (card.ntuples.send s n).err ≡ false)
        × (run ≡ done (record { status = 0; state = (card.ntuples.send s n).state })))
      ⊎ ((s' : S) × (i : Inserting S) × Refused r.fsp s'
          × (rxclass_rule_ins card.rules s' r.fsp (context_or_0 r.rss_context) ≡ done i)
          × (run ≡ done (record { status = if is_neg i.ret then 1 else 0; state = i.state })))

  -- How do_srxntuple ended.
  abbrev Tries : FlowSpec → Tried S → Type 0
  Tries fsp t =
      ((n : Ntuple) × (flow_spec_to_ntuple fsp ≡ some n)
        × (takes_ntuples ≡ true)
        × (is_neg (card.ntuples.send s n).err ≡ false)
        × (t ≡ record { sent = true; state = (card.ntuples.send s n).state }))
      ⊎ ((t.sent ≡ false) × Refused fsp t.state)

  send-Tries :
      (fsp : FlowSpec) (o : Option Ntuple)
      → flow_spec_to_ntuple fsp ≡ o
      → Tries fsp (send_ntuple card.ntuples s o)
  unfolding send_ntuple
  send-Tries fsp none e = inr (refl, inl (refl, inl e))
  send-Tries fsp (some n) e =
      elim (Bool-cases (
        not (is_zero (card.ntuples.get_flags s).err)
        || bit_and (card.ntuples.get_flags s).flags eth_flag_ntuple == 0)) [
          | inl off ↦ rw off (inr (refl, inl (refl, inr (not_taken _ _ off))))
          | inr on ↦ rw on (elim (Bool-cases (is_neg (card.ntuples.send s n).err)) [
            | inl refused ↦ rw refused (inr (refl, inr (n, e, taken _ _ on, refused, refl)))
            | inr sent ↦ rw sent (inl (n, e, taken _ _ on, sent, refl))
          ])
        ]

  after-AddsRule :
      (r : Parsed) (t : Tried S) → Tries r.fsp t → AddsRule r (after_ntuple inet card r t)
  unfolding after_ntuple
  after-AddsRule r t (inl (n, conv, takes, ok, e)) =
      inl (n, conv, takes, ok, ap (after_ntuple inet card r) e)
  after-AddsRule r t (inr (unsent, refused)) =
      let ins = rxclass_rule_ins_total card.rules t.state r.fsp (context_or_0 r.rss_context) in
      inr (
        t.state,
        ins.0,
        refused,
        ins.1,
        simp unsent (ap (λ m. and_then m (after_insert inet card)) ins.1),
      )

  -- If the options of a rule are accepted, the command ends in one of three ways. The rule has an
  -- ntuple, the device takes ntuples and took this one: the status is 0, and the classifier was not
  -- asked. The device takes ntuples and refused that of the rule: the classifier is asked once, on
  -- the device as the refusal left it. The rule has no ntuple, or the device does not take any: the
  -- classifier is asked once, on the device as it was. In the last two the status is 1 if the
  -- insertion failed and 0 if not.
  pub do_srxclass-AddsRule :
      (arg : List ℕ) (rest : List (List ℕ)) (r : Parsed)
      → rxclass_parse_ruleopts inet (arg ∷ rest) ≡ some r
      → (run : Run (Ended S)) × (do_srxclass inet card s (codes "flow-type" ∷ arg ∷ rest)
          ≡ some run)
        × AddsRule r run
  unfolding do_srxclass str_eq add_rule do_srxntuple
  do_srxclass-AddsRule arg rest r parsed = (
    add_rule inet card s r,
    ap (λ o. o >>= λ p. some (add_rule inet card s p)) parsed,
    after-AddsRule r (do_srxntuple card.ntuples s r.fsp)
        (send-Tries r.fsp (flow_spec_to_ntuple r.fsp) refl),
  )
