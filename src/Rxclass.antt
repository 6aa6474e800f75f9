-- ===== src/Rxclass.antt =====
-- rxclass.c, the options of a classification rule: `rule_opt_type_t`, the flags and
-- `struct rule_opts`, whose offsets are offsets in struct ethtool_rx_flow_spec.
pub mod Tables
pub mod Value
pub mod Parse
use ethtool.Base.{ℕ, List, Option}

pub data OptType : Type 0 where
  opt_none opt_s32 opt_u8 opt_u16 opt_u32 opt_u64 opt_ring_vf opt_ring_queue : OptType
  opt_be16 opt_be32 opt_be64 opt_ip4 opt_ip6 opt_mac : OptType

-- `moffset` is `none` where the source has -1: the option takes no mask.
pub record RuleOpts : Type 0 where
  pub name : List ℕ
  pub type : OptType
  pub flag : ℕ
  pub offset : ℕ
  pub moffset : Option ℕ

abbrev pub nfc_flag_ring : ℕ
nfc_flag_ring = 0x0001

abbrev pub nfc_flag_loc : ℕ
nfc_flag_loc = 0x0002

abbrev pub nfc_flag_saddr : ℕ
nfc_flag_saddr = 0x0004

abbrev pub nfc_flag_daddr : ℕ
nfc_flag_daddr = 0x0008

abbrev pub nfc_flag_sport : ℕ
nfc_flag_sport = 0x0010

abbrev pub nfc_flag_dport : ℕ
nfc_flag_dport = 0x0020

abbrev pub nfc_flag_spi : ℕ
nfc_flag_spi = 0x0030

abbrev pub nfc_flag_tos : ℕ
nfc_flag_tos = 0x0040

abbrev pub nfc_flag_proto : ℕ
nfc_flag_proto = 0x0080

abbrev pub ntuple_flag_vlan : ℕ
ntuple_flag_vlan = 0x0100

abbrev pub ntuple_flag_udef : ℕ
ntuple_flag_udef = 0x0200

abbrev pub ntuple_flag_veth : ℕ
ntuple_flag_veth = 0x0400

abbrev pub nfc_flag_mac_addr : ℕ
nfc_flag_mac_addr = 0x0800

abbrev pub nfc_flag_ring_vf : ℕ
nfc_flag_ring_vf = 0x1000

abbrev pub nfc_flag_ring_queue : ℕ
nfc_flag_ring_queue = 0x2000
