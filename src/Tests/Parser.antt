-- ===== src/Tests/Parser.antt =====
-- The parser of rules on options that exclude one another.
use ethtool.Base.{ℕ, ◌≡◌, refl, inl, none, List, [], ◌∷◌, codes}
use ethtool.Base.Bytes.{store, le_bytes}
use ethtool.Clib.{str_eq}
use ethtool.Clib.Strto.{strtoull, skip_space, magnitude, is_minus, skip_sign, read_digits}
use ethtool.FlowSpec.{zero_spec, set_u32, set_flow_type, set_location}
use ethtool.FlowSpec.Offsets.{ring_cookie}
use ethtool.Rxclass.{RuleOpts, opt_u64, opt_ring_queue, nfc_flag_ring, nfc_flag_ring_queue}
use ethtool.Rxclass.Tables.{rule_nfc_tcp_ip4}
use ethtool.Rxclass.Value.{put_val, rxclass_get_ulong, field_bytes, rxclass_get_val}
use ethtool.Rxclass.Parse.{
  Next, option, after, is_mask_word, step, at_option, find_opt, start, rxclass_parse_ruleopts,
}
use ethtool.Rxclass.Parse.Ends.{run}
use ethtool.Rxclass.Parse.Exclusive.{HasOption, rxclass_parse_ruleopts_exclusive}
use ethtool.Tests.Rule.{no_address, tcp4, flow_of-tcp4}

abbrev action : RuleOpts
action = record {
  name = codes "action";
  type = opt_u64;
  flag = nfc_flag_ring;
  offset = ring_cookie;
  moffset = none;
}

abbrev queue : RuleOpts
queue = record {
  name = codes "queue";
  type = opt_ring_queue;
  flag = nfc_flag_ring_queue;
  offset = ring_cookie;
  moffset = none;
}

abbrev action_and_queue : List (List ℕ)
action_and_queue = codes "action" ∷ codes "1" ∷ codes "queue" ∷ codes "2" ∷ []

abbrev behind_action : Next
behind_action = record {
  mode = after action;
  local = record {
    filling = record {
      p = store (set_location (set_flow_type zero_spec 1) 0xffffffff) ring_cookie (le_bytes 8 1);
      flags = nfc_flag_ring;
    };
    rss_context = none;
  };
}

has_action : HasOption no_address tcp4 action_and_queue action
unfolding run find_opt str_eq rule_nfc_tcp_ip4
has_action = record {
  before = [];
  name = codes "action";
  text = codes "1";
  behind = codes "queue" ∷ codes "2" ∷ [];
  place = record { mode = option; local = start 1 };
  split = refl;
  reached = refl;
  complete = tt;
  no_context = refl;
  found = refl;
}

has_queue : HasOption no_address tcp4 action_and_queue queue
unfolding run start step at_option find_opt str_eq is_mask_word rule_nfc_tcp_ip4 rxclass_get_val
    put_val field_bytes rxclass_get_ulong strtoull skip_space magnitude is_minus skip_sign
    read_digits set_u32 set_flow_type set_location
has_queue = record {
  before = codes "action" ∷ codes "1" ∷ [];
  name = codes "queue";
  text = codes "2";
  behind = [];
  place = behind_action;
  split = refl;
  reached = refl;
  complete = refl;
  no_context = refl;
  found = refl;
}

rxclass_parse_ruleopts_exclusive_example :
    rxclass_parse_ruleopts no_address (codes "tcp4" ∷ action_and_queue) ≡ none
rxclass_parse_ruleopts_exclusive_example =
    rxclass_parse_ruleopts_exclusive no_address (codes "tcp4") action_and_queue tcp4 action queue
      flow_of-tcp4 has_action has_queue refl (inl refl)
