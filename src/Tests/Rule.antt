-- ===== src/Tests/Rule.antt =====
-- Options of a classification rule.
use ethtool.Base.{
  ℕ, ◌⊎◌, ◌≤◌, ◌+◌, zero, suc, Bool, true, ◌&&◌, ltb, ◌<◌, ◌≡◌, inl, refl, bit_and, bit_or, none,
  some, List, [], ◌∷◌, codes, arith, get_or,
}
use ethtool.Base.Maybe.{none_absurd}
use ethtool.Clib.{str_eq}
use ethtool.FlowSpec.{FlowSpec, zero_spec, set_u32, set_flow_type, set_location}
use ethtool.Rxclass.{RuleOpts, opt_be16, nfc_flag_dport, nfc_flag_sport}
use ethtool.Base.Bytes.{le_value, load, store, le_bytes}
use ethtool.Clib.Strto.{strtoull, skip_space, magnitude, is_minus, skip_sign, read_digits}
use ethtool.Rxclass.Tables.{rule_nfc_tcp_ip4}
use ethtool.Rxclass.Tables.Fit.{IsUsable, flow_of-find_opt-IsUsable}
use ethtool.Rxclass.Tables.Apart.{rxclass_get_val_keeps}
use ethtool.Rxclass.Value.{
  Inet, put_val, put_mask, rxclass_get_ulong, Filling, field_bytes, rxclass_get_val,
  rxclass_get_mask,
}
use ethtool.Rxclass.Value.Frame.{Written}
use ethtool.Rxclass.Value.Complement.{Complements, rxclass_get_mask-Complements}
use ethtool.Rxclass.Value.Fields.{Means, rxclass_get_val-Means}
use ethtool.Rxclass.Value.Width.{IsInet}
use ethtool.Rxclass.Parse.{
  Flow, Local, option, after, is_mask_word, step, at_option, parse_opts, finish, check_flags,
  set_flows, flow_of, find_opt, start, rxclass_parse_ruleopts,
}
use ethtool.Rxclass.Parse.Ends.{run, rxclass_parse_ruleopts_dangling}

-- No text is an address.
abbrev pub no_address : Inet
no_address = record { pton4 = λ s. none; pton6 = λ s. none }

no_address-IsInet : IsInet no_address
no_address-IsInet = record {
  fills4 = λ s bytes h. none_absurd h;
  fills6 = λ s bytes h. none_absurd h;
}

-- The option `dst-port` of TCP over IPv4.
abbrev dst_port : RuleOpts
dst_port = record {
  name = codes "dst-port";
  type = opt_be16;
  flag = nfc_flag_dport;
  offset = 14;
  moffset = some 86;
}

abbrev ported : Filling
ported = record {
  p = store (store zero_spec 14 (0 ∷ 80 ∷ [])) 86 (255 ∷ 255 ∷ []);
  flags = nfc_flag_dport;
}

dst_port_80 :
    rxclass_get_val no_address (codes "80") (record { p = zero_spec; flags = 0 }) dst_port
    ≡ some ported
unfolding rxclass_get_val put_val field_bytes rxclass_get_ulong strtoull skip_space magnitude
    is_minus skip_sign read_digits
dst_port_80 = refl

abbrev pub tcp4 : Flow
tcp4 = record { type = 1; options = rule_nfc_tcp_ip4 }

pub flow_of-tcp4 : flow_of (codes "tcp4") ≡ some tcp4
unfolding flow_of str_eq
flow_of-tcp4 = refl

find_dst_port : find_opt rule_nfc_tcp_ip4 (codes "dst-port") ≡ some dst_port
unfolding find_opt str_eq rule_nfc_tcp_ip4
find_dst_port = refl

flow_of-find_opt-IsUsable_example : IsUsable dst_port
flow_of-find_opt-IsUsable_example =
    flow_of-find_opt-IsUsable (codes "tcp4") (codes "dst-port") flow_of-tcp4 find_dst_port

dst_port_fits : IsUsable dst_port
dst_port_fits =
    flow_of-find_opt-IsUsable (codes "tcp4") (codes "dst-port") flow_of-tcp4 find_dst_port

unfoldable pub all_bytes : List ℕ → Bool
all_bytes [] = true
all_bytes (b ∷ bs) = ltb b 256 && all_bytes bs

pub all_bytes-IsBytes : (bs : List ℕ) → all_bytes bs ≡ true → ((i : ℕ) → get_or bs i 0 < 256)
unfolding all_bytes
all_bytes-IsBytes [] h i = omega arith
all_bytes-IsBytes (b ∷ bs) h zero = ground arith
all_bytes-IsBytes (b ∷ bs) h (suc i) =
    let rest : all_bytes bs ≡ true = ground arith in all_bytes-IsBytes bs rest i

zero_bytes : all_bytes zero_spec ≡ true
unfolding all_bytes
zero_bytes = refl

rxclass_get_val-Means_example :
    (bit_and 0 nfc_flag_dport ≡ 0)
    × (ported.flags ≡ bit_or 0 nfc_flag_dport)
    × (bytes : List ℕ) × Written dst_port zero_spec ported.p bytes
    × Means no_address opt_be16 (codes "80") (le_value (load zero_spec 14 8)) bytes
rxclass_get_val-Means_example =
    rxclass_get_val-Means no_address no_address-IsInet (codes "80") dst_port zero_spec refl
      (all_bytes-IsBytes zero_spec zero_bytes) dst_port_fits.fits 0 dst_port_80

abbrev masked : FlowSpec
masked = store zero_spec 86 (255 ∷ 240 ∷ [])

dst_port_mask : rxclass_get_mask no_address (codes "15") zero_spec dst_port ≡ some masked
unfolding rxclass_get_mask put_mask field_bytes rxclass_get_ulong strtoull skip_space magnitude
    is_minus skip_sign read_digits
dst_port_mask = refl

rxclass_get_mask-Complements_example :
    (m : ℕ) × (dst_port.moffset ≡ some m)
    × Complements no_address opt_be16 (codes "15") (load masked m 2)
    × ((i : ℕ) → (i < m) ⊎ (m + 2 ≤ i) → get_or masked i 0 ≡ get_or zero_spec i 0)
rxclass_get_mask-Complements_example =
    rxclass_get_mask-Complements no_address (codes "15") zero_spec dst_port no_address-IsInet refl
      dst_port_fits.fits dst_port_mask

abbrev src_port : RuleOpts
src_port = record {
  name = codes "src-port";
  type = opt_be16;
  flag = nfc_flag_sport;
  offset = 12;
  moffset = some 84;
}

find_src_port : find_opt rule_nfc_tcp_ip4 (codes "src-port") ≡ some src_port
unfolding find_opt str_eq rule_nfc_tcp_ip4
find_src_port = refl

-- The rule `tcp4 dst-port 80`.
abbrev pub port_rule : FlowSpec
port_rule =
    store
      (store (store (store zero_spec 0 (le_bytes 4 1)) 160 (le_bytes 4 0xffffffff)) 14
        (0 ∷ 80 ∷ []))
      86 (255 ∷ 255 ∷ [])

abbrev port_local : Local
port_local = record {
  filling = record { p = port_rule; flags = nfc_flag_dport };
  rss_context = none;
}

port_run :
    run no_address rule_nfc_tcp_ip4 (codes "dst-port" ∷ codes "80" ∷ []) option (start 1)
    ≡ some (record { mode = after dst_port; local = port_local })
unfolding run start step at_option find_opt str_eq rule_nfc_tcp_ip4 rxclass_get_val put_val
    field_bytes rxclass_get_ulong strtoull skip_space magnitude is_minus skip_sign read_digits
    set_u32 set_flow_type set_location
port_run = refl

-- `tcp4 dst-port 80 src-port`: the last name has no value.
rxclass_parse_ruleopts_dangling_example :
    rxclass_parse_ruleopts no_address
      (codes "tcp4" ∷ codes "dst-port" ∷ codes "80" ∷ codes "src-port" ∷ [])
    ≡ rxclass_parse_ruleopts no_address (codes "tcp4" ∷ codes "dst-port" ∷ codes "80" ∷ [])
unfolding str_eq is_mask_word
rxclass_parse_ruleopts_dangling_example =
    rxclass_parse_ruleopts_dangling no_address (codes "tcp4") (codes "dst-port" ∷ codes "80" ∷ [])
      (codes "src-port") tcp4 src_port (record { mode = after dst_port; local = port_local })
      flow_of-tcp4 find_src_port refl port_run refl

pub port_parsed :
    rxclass_parse_ruleopts no_address (codes "tcp4" ∷ codes "dst-port" ∷ codes "80" ∷ [])
    ≡ some (record { fsp = port_rule; flags = nfc_flag_dport; rss_context = none })
unfolding rxclass_parse_ruleopts flow_of parse_opts finish check_flags set_flows start step
    at_option find_opt str_eq rule_nfc_tcp_ip4 rxclass_get_val put_val field_bytes rxclass_get_ulong
    strtoull skip_space magnitude is_minus skip_sign read_digits set_u32 set_flow_type set_location
port_parsed = refl

-- After `dst-port 80`, `src-port 53` leaves the destination port.
abbrev both_ports : Filling
both_ports = record {
  p = store (store ported.p 12 (0 ∷ 53 ∷ [])) 84 (255 ∷ 255 ∷ []);
  flags = bit_or nfc_flag_dport nfc_flag_sport;
}

src_port_53 : rxclass_get_val no_address (codes "53") ported src_port ≡ some both_ports
unfolding rxclass_get_val put_val field_bytes rxclass_get_ulong strtoull skip_space magnitude
    is_minus skip_sign read_digits
src_port_53 = refl

rxclass_get_val_keeps_example : get_or both_ports.p 15 0 ≡ get_or ported.p 15 0
rxclass_get_val_keeps_example =
    rxclass_get_val_keeps no_address (codes "tcp4") (codes "dst-port") (codes "src-port")
      (codes "53") ported no_address-IsInet flow_of-tcp4 find_dst_port find_src_port refl refl
      (inl (omega arith)) src_port_53 15 (inl (omega arith, omega arith))
