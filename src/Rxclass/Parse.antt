-- ===== src/Rxclass/Parse.antt =====
-- rxclass.c, rxclass_parse_ruleopts. The loop's index becomes the list of arguments that are left,
-- taken one at a time, and the place inside the loop's body becomes a mode.
pub mod Ends
pub mod Exclusive
use ethtool.Base.{
  ℕ, ◌+◌, ◌^◌, bit_and, bit_or, Bool, true, false, ◌&&◌, ◌||◌, not, Option, none, some, List, [],
  ◌∷◌, ◌++◌, ◌==◌, if◌then◌else◌, codes, set,
}
use ethtool.Base.Maybe.{◌>>=◌}
use ethtool.Clib.{str_eq}
use ethtool.FlowSpec.{FlowSpec, zero_spec, get_flow_type, set_flow_type, set_location}
use ethtool.FlowSpec.Offsets.{h_u, usr_ip4_ip_ver}
use ethtool.Rxclass.{
  RuleOpts, nfc_flag_ring, nfc_flag_ring_vf, nfc_flag_ring_queue, ntuple_flag_vlan,
  ntuple_flag_udef, ntuple_flag_veth, nfc_flag_mac_addr,
}
use ethtool.Rxclass.Tables.{
  rule_nfc_tcp_ip4, rule_nfc_esp_ip4, rule_nfc_usr_ip4, rule_nfc_tcp_ip6, rule_nfc_esp_ip6,
  rule_nfc_usr_ip6, rule_nfc_ether,
}
use ethtool.Rxclass.Value.{Inet, Filling, rxclass_get_ulong, rxclass_get_val, rxclass_get_mask}

-- The flow types of ethtool-copy.h that a rule can have, with the flags beside them.
abbrev pub ipv4_user_flow : ℕ
ipv4_user_flow = 0x0d

abbrev pub flow_ext : ℕ
flow_ext = 0x80000000

abbrev pub flow_mac_ext : ℕ
flow_mac_ext = 0x40000000

abbrev pub flow_rss : ℕ
flow_rss = 0x20000000

abbrev pub rx_cls_loc_any : ℕ
rx_cls_loc_any = 0xffffffff

abbrev pub eth_rxfh_context_alloc : ℕ
eth_rxfh_context_alloc = 0xffffffff

-- The flow type of `argp[0]`, and its option table.
pub record Flow : Type 0 where
  pub type : ℕ
  pub options : List RuleOpts

unfoldable pub flow_of : List ℕ → Option Flow
flow_of s =
    if str_eq s (codes "tcp4")
    then some (record { type = 0x01; options = rule_nfc_tcp_ip4 })
    else if str_eq s (codes "udp4")
    then some (record { type = 0x02; options = rule_nfc_tcp_ip4 })
    else if str_eq s (codes "sctp4")
    then some (record { type = 0x03; options = rule_nfc_tcp_ip4 })
    else if str_eq s (codes "ah4")
    then some (record { type = 0x09; options = rule_nfc_esp_ip4 })
    else if str_eq s (codes "esp4")
    then some (record { type = 0x0a; options = rule_nfc_esp_ip4 })
    else if str_eq s (codes "ip4")
    then some (record { type = ipv4_user_flow; options = rule_nfc_usr_ip4 })
    else if str_eq s (codes "tcp6")
    then some (record { type = 0x05; options = rule_nfc_tcp_ip6 })
    else if str_eq s (codes "udp6")
    then some (record { type = 0x06; options = rule_nfc_tcp_ip6 })
    else if str_eq s (codes "sctp6")
    then some (record { type = 0x07; options = rule_nfc_tcp_ip6 })
    else if str_eq s (codes "ah6")
    then some (record { type = 0x0b; options = rule_nfc_esp_ip6 })
    else if str_eq s (codes "esp6")
    then some (record { type = 0x0c; options = rule_nfc_esp_ip6 })
    else if str_eq s (codes "ip6")
    then some (record { type = 0x0e; options = rule_nfc_usr_ip6 })
    else if str_eq s (codes "ether")
    then some (record { type = 0x12; options = rule_nfc_ether })
    else none

-- The first option of that name.
unfoldable pub find_opt : List RuleOpts → List ℕ → Option RuleOpts
find_opt [] name = none
find_opt (opt ∷ opts) name = if str_eq name opt.name then some opt else find_opt opts name

-- The local variables: the rule with the flags, and the RSS context if one was written.
pub record Local : Type 0 where
  pub filling : Filling
  pub rss_context : Option ℕ

-- What the next argument is: an option's name, the value of an option, a mask's keyword or the
-- next option, the mask of an option, or the value of `context`.
pub data Mode : Type 0 where
  option : Mode
  value : RuleOpts → Mode
  after : RuleOpts → Mode
  mask : RuleOpts → Mode
  context : Mode

-- The mode and the variables for the next argument.
pub record Next : Type 0 where
  pub mode : Mode
  pub local : Local

abbrev pub go : Mode → Local → Option Next
go mode local = some (record { mode = mode; local = local })

unfoldable pub set_context : Local → ℕ → Local
set_context local val =
    let p : FlowSpec = local.filling.p in
    record {
      filling = record {
        p = set_flow_type p (bit_or (get_flow_type p) flow_rss);
        flags = local.filling.flags;
      };
      rss_context = some val;
    }

unfoldable pub is_mask_word : RuleOpts → List ℕ → Bool
is_mask_word opt s = str_eq s (codes "m") || str_eq s (opt.name ++ codes "-mask")

module _ (inet : Inet) (options : List RuleOpts) where
  unfoldable pub at_option : Local → List ℕ → Option Next
  at_option local s =
      if str_eq s (codes "context")
      then go context local
      else (find_opt options s >>= λ opt. go (value opt) local)

  unfoldable pub take_mask : RuleOpts → Local → List ℕ → Option Next
  take_mask opt local s = do
    p' ← rxclass_get_mask inet s local.filling.p opt
    go option (record local { filling = record { p = p'; flags = local.filling.flags } })

  unfoldable pub take_context : Local → List ℕ → Option Next
  take_context local s = do
    val ← rxclass_get_ulong s 32
    if val == eth_rxfh_context_alloc then none else go option (set_context local val)

  unfoldable pub step : Mode → Local → List ℕ → Option Next
  step option local s = at_option local s
  step (value opt) local s = do
    f ← rxclass_get_val inet s local.filling opt
    go (after opt) (record local { filling = f })
  step (after opt) local s = if is_mask_word opt s then go (mask opt) local else at_option local s
  step (mask opt) local s = take_mask opt local s
  step context local s = take_context local s

  -- The end of the arguments: only a mask and a context must not be missing.
  unfoldable pub finish : Mode → Local → Option Local
  finish option local = some local
  finish (value opt) local = some local
  finish (after opt) local = some local
  finish (mask opt) local = none
  finish context local = none

  unfoldable pub parse_opts : List (List ℕ) → Mode → Local → Option Local
  parse_opts [] mode local = finish mode local
  parse_opts (s ∷ rest) mode local = step mode local s >>= λ n. parse_opts rest n.mode n.local

-- The end of the function: options that exclude one another, and the flags of the flow type.
abbrev pub has : ℕ → ℕ → Bool
has flags flag = not (bit_and flags flag == 0)

unfoldable pub set_flows : FlowSpec → ℕ → ℕ → FlowSpec
set_flows p flow_type flags =
    let p' = if flow_type == ipv4_user_flow then set p (h_u + usr_ip4_ip_ver) 1 else p in
    let p'' =
      if has flags (bit_or ntuple_flag_vlan (bit_or ntuple_flag_udef ntuple_flag_veth))
      then set_flow_type p' (bit_or (get_flow_type p') flow_ext)
      else p' in
    if has flags nfc_flag_mac_addr
    then set_flow_type p'' (bit_or (get_flow_type p'') flow_mac_ext)
    else p''

pub record Parsed : Type 0 where
  pub fsp : FlowSpec
  pub flags : ℕ
  pub rss_context : Option ℕ

unfoldable pub check_flags : ℕ → Local → Option Parsed
check_flags flow_type local =
    let flags : ℕ = local.filling.flags in
    if has flags nfc_flag_ring && has flags nfc_flag_ring_queue
    then none
    else if has flags nfc_flag_ring && has flags nfc_flag_ring_vf
    then none
    else some (record {
      fsp = set_flows local.filling.p flow_type flags;
      flags = flags;
      rss_context = local.rss_context;
    })

-- `memset`, `fsp->flow_type = flow_type` and `fsp->location = RX_CLS_LOC_ANY`.
unfoldable pub start : ℕ → Local
start flow_type = record {
  filling = record {
    p = set_location (set_flow_type zero_spec flow_type) rx_cls_loc_any;
    flags = 0;
  };
  rss_context = none;
}

-- `none` is the return of -1.
unfoldable pub rxclass_parse_ruleopts : Inet → List (List ℕ) → Option Parsed
rxclass_parse_ruleopts inet [] = none
rxclass_parse_ruleopts inet (s ∷ rest) = do
  flow ← flow_of s
  local ← parse_opts inet flow.options rest option (start flow.type)
  check_flags flow.type local
