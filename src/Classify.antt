-- ===== src/Classify.antt =====
-- ethtool.c, rxflow_str_to_type and do_srxclass: the command that sets the hashed fields of a flow
-- type, adds a classification rule or deletes one.
pub mod Flows
pub mod Adds
use ethtool.Base.{
  ℕ, ◌+◌, ◌-◌, ◌^◌, bit_or, Bool, true, false, ◌||◌, Option, none, some, List, [], ◌∷◌, ◌==◌,
  if◌then◌else◌, codes,
}
use ethtool.Base.Int.{ℤ, pos, negsuc, is_neg}
use ethtool.Base.Maybe.{◌>>=◌}
use ethtool.Base.Run.{Run, done, and_then}
use ethtool.Clib.{str_eq}
use ethtool.Cmdline.{get_uint_range, get_u32}
use ethtool.FlowSpec.{FlowSpec}
use ethtool.Letters.{parse_rxfhashopts}
use ethtool.Ntuple.{NtupleDevice, Tried, do_srxntuple, int_max}
use ethtool.Rules.{Device, Inserting, rxclass_rule_ins, rxclass_rule_del}
use ethtool.Rxclass.Parse.{Parsed, rxclass_parse_ruleopts, flow_rss}
use ethtool.Rxclass.Value.{Inet}

-- The flow types whose hash can be set; 0 is no flow type.
unfoldable pub rxflow_str_to_type : List ℕ → ℕ
rxflow_str_to_type s =
    if str_eq s (codes "tcp4")
    then 0x01
    else if str_eq s (codes "udp4")
    then 0x02
    else if str_eq s (codes "ah4") || str_eq s (codes "esp4")
    then 0x04
    else if str_eq s (codes "sctp4")
    then 0x03
    else if str_eq s (codes "tcp6")
    then 0x05
    else if str_eq s (codes "udp6")
    then 0x06
    else if str_eq s (codes "ah6") || str_eq s (codes "esp6")
    then 0x08
    else if str_eq s (codes "sctp6")
    then 0x07
    else if str_eq s (codes "ether")
    then 0x12
    else 0

-- ETHTOOL_SRXFH: the flow type, the fields and the RSS context, which is set if the type has
-- FLOW_RSS.
pub record HashRequest : Type 0 where
  pub flow_type : ℕ
  pub fields : ℕ
  pub rss_context : Option ℕ

pub record HashReply (S : Type 0) : Type 0 where
  pub err : ℤ
  pub state : S

-- The kernel's side of every request of the command.
pub record Card (S : Type 0) : Type 0 where
  pub rules : Device S
  pub ntuples : NtupleDevice S
  pub set_hash : S → HashRequest → HashReply S

-- The exit status and the device.
pub record Ended (S : Type 0) : Type 0 where
  pub status : ℕ
  pub state : S

pub hash_request : List (List ℕ) → Option HashRequest
hash_request (t ∷ opts ∷ []) =
    if rxflow_str_to_type t == 0
    then none
    else (parse_rxfhashopts opts >>= λ v.
        some (record { flow_type = rxflow_str_to_type t; fields = v; rss_context = none }))
hash_request (t ∷ opts ∷ word ∷ context ∷ []) =
    if str_eq word (codes "context")
    then (get_u32 context >>= λ c.
        if rxflow_str_to_type t == 0
        then none
        else (parse_rxfhashopts opts >>= λ v. some (record {
          flow_type = bit_or (rxflow_str_to_type t) flow_rss;
          fields = v;
          rss_context = some c;
        })))
    else none
hash_request _ = none

abbrev pub context_or_0 : Option ℕ → ℕ
context_or_0 none = 0
context_or_0 (some c) = c

-- `none` is exit_bad_args.
module _ {S : Type 0} (inet : Inet) (card : Card S) where
  -- The error of the hash request is printed, and the status stays 0.
  pub set_hash : S → HashRequest → Ended S
  set_hash s r = record { status = 0; state = (card.set_hash s r).state }

  abbrev pub after_insert : Inserting S → Run (Ended S)
  after_insert i = done (record { status = if is_neg i.ret then 1 else 0; state = i.state })

  pub after_ntuple : Parsed → Tried S → Run (Ended S)
  after_ntuple r t =
      if t.sent
      then done (record { status = 0; state = t.state })
      else and_then (rxclass_rule_ins card.rules t.state r.fsp (context_or_0 r.rss_context))
          after_insert

  pub add_rule : S → Parsed → Run (Ended S)
  add_rule s r = after_ntuple r (do_srxntuple card.ntuples s r.fsp)

  pub delete_rule : S → ℕ → Ended S
  delete_rule s loc =
      let (err, s') = rxclass_rule_del card.rules s loc in
      record { status = if is_neg err then 1 else 0; state = s' }

  pub do_srxclass : S → List (List ℕ) → Option (Run (Ended S))
  do_srxclass s [] = none
  do_srxclass s (verb ∷ []) = none
  do_srxclass s (verb ∷ arg ∷ rest) =
      if str_eq verb (codes "rx-flow-hash")
      then (hash_request (arg ∷ rest) >>= λ r. some (done (set_hash s r)))
      else if str_eq verb (codes "flow-type")
      then (rxclass_parse_ruleopts inet (arg ∷ rest) >>= λ r. some (add_rule s r))
      else if str_eq verb (codes "delete")
      then (get_uint_range arg int_max >>= λ loc. some (done (delete_rule s loc)))
      else none
