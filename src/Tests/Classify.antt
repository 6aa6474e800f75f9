-- ===== src/Tests/Classify.antt =====
-- The classification command with the rule of the tests of the parser, and its ntuple.
use ethtool.Base.{ℕ, suc, ◌≡◌, refl, true, none, some, [], ◌∷◌, codes}
use ethtool.Base.Int.{pos}
use ethtool.Base.Run.{Run}
use ethtool.Classify.{Card, Ended, do_srxclass}
use ethtool.Classify.Adds.{AddsRule, do_srxclass-AddsRule}
use ethtool.FlowSpec.{get_location, get_flow_type, get_ring_cookie, get_u32}
use ethtool.Ntuple.{flow_spec_to_ntuple, flow_type_is_ntuple_supported, plain}
use ethtool.Ntuple.Extends.{IsBytes}
use ethtool.Ntuple.Convert.{Converts, flow_spec_to_ntuple-Converts}
use ethtool.Rxclass.{nfc_flag_dport}
use ethtool.Tests.Rule.{all_bytes, all_bytes-IsBytes, no_address, port_rule, port_parsed}

port-IsBytes : IsBytes port_rule
unfolding all_bytes
port-IsBytes = all_bytes-IsBytes port_rule refl

port_ntuple : flow_spec_to_ntuple port_rule ≡ some (plain port_rule 1)
unfolding flow_spec_to_ntuple get_location get_flow_type get_ring_cookie get_u32
    flow_type_is_ntuple_supported
port_ntuple = refl

flow_spec_to_ntuple-Converts_example : Converts port_rule (plain port_rule 1)
flow_spec_to_ntuple-Converts_example =
    flow_spec_to_ntuple-Converts port_rule port-IsBytes port_ntuple

-- A device that keeps the number of what it was sent, without the older interface.
abbrev counter : Card ℕ
counter = record {
  rules = record {
    count = λ s. record { err = pos 0; rule_cnt = 0; info = 0x80000000 };
    all = λ s n. record { err = pos 0; info = 100; rule_locs = [] };
    rule = λ s loc. record { err = pos 0; fs = []; rss_context = 0 };
    insert = λ s fsp rss. record { err = pos 0; location = 7; state = suc s };
    delete = λ s loc. record { err = pos 0; location = loc; state = s };
    calloc_rules = λ n. true;
    calloc_slots = λ n. true;
  };
  ntuples = record {
    get_flags = λ s. record { err = pos 0; flags = 0 };
    send = λ s n. record { err = pos 0; state = s };
  };
  set_hash = λ s r. record { err = pos 0; state = s };
}

do_srxclass-AddsRule_example :
    (run : Run (Ended ℕ)) × (do_srxclass no_address counter 0
        (codes "flow-type" ∷ codes "tcp4" ∷ codes "dst-port" ∷ codes "80" ∷ [])
      ≡ some run)
    × AddsRule no_address counter 0
        (record { fsp = port_rule; flags = nfc_flag_dport; rss_context = none })
        run
do_srxclass-AddsRule_example =
    do_srxclass-AddsRule no_address counter 0 (codes "tcp4") (codes "dst-port" ∷ codes "80" ∷ [])
      (record { fsp = port_rule; flags = nfc_flag_dport; rss_context = none }) port_parsed
