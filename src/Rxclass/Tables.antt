-- ===== src/Rxclass/Tables.antt =====
-- rxclass.c, the seven option tables. Numbers after `h_u` and `m_u` are offsets in the union's member.
pub mod Every
pub mod Fit
pub mod Apart
use ethtool.Base.{ℕ, ◌+◌, List, [], ◌∷◌, Option, none, some, codes}
use Prim.Native.String.{String}
use ethtool.FlowSpec.Offsets.{
  h_u, h_ext, m_u, m_ext, ring_cookie, location, ext_h_dest, ext_vlan_etype, ext_vlan_tci, ext_data,
}
use ethtool.Rxclass.{
  RuleOpts, OptType, opt_u8, opt_u32, opt_u64, opt_ring_vf, opt_ring_queue, opt_be16, opt_be32,
  opt_be64, opt_ip4, opt_ip6, opt_mac, nfc_flag_ring, nfc_flag_loc, nfc_flag_saddr, nfc_flag_daddr,
  nfc_flag_sport, nfc_flag_dport, nfc_flag_spi, nfc_flag_tos, nfc_flag_proto, ntuple_flag_vlan,
  ntuple_flag_udef, ntuple_flag_veth, nfc_flag_mac_addr, nfc_flag_ring_vf, nfc_flag_ring_queue,
}

abbrev opt : String → OptType → ℕ → ℕ → Option ℕ → RuleOpts
opt name type flag offset moffset = record {
  name = codes name;
  type = type;
  flag = flag;
  offset = offset;
  moffset = moffset;
}

unfoldable pub rule_nfc_tcp_ip4 : List RuleOpts
rule_nfc_tcp_ip4 =
    opt "src-ip" opt_ip4 nfc_flag_saddr h_u (some m_u)
    ∷ opt "dst-ip" opt_ip4 nfc_flag_daddr (h_u + 4) (some (m_u + 4))
    ∷ opt "tos" opt_u8 nfc_flag_tos (h_u + 12) (some (m_u + 12))
    ∷ opt "src-port" opt_be16 nfc_flag_sport (h_u + 8) (some (m_u + 8))
    ∷ opt "dst-port" opt_be16 nfc_flag_dport (h_u + 10) (some (m_u + 10))
    ∷ opt "action" opt_u64 nfc_flag_ring ring_cookie none
    ∷ opt "vf" opt_ring_vf nfc_flag_ring_vf ring_cookie none
    ∷ opt "queue" opt_ring_queue nfc_flag_ring_queue ring_cookie none
    ∷ opt "loc" opt_u32 nfc_flag_loc location none
    ∷ opt "vlan-etype" opt_be16 ntuple_flag_veth (h_ext + ext_vlan_etype)
        (some (m_ext + ext_vlan_etype))
    ∷ opt "vlan" opt_be16 ntuple_flag_vlan (h_ext + ext_vlan_tci) (some (m_ext + ext_vlan_tci))
    ∷ opt "user-def" opt_be64 ntuple_flag_udef (h_ext + ext_data) (some (m_ext + ext_data))
    ∷ opt "dst-mac" opt_mac nfc_flag_mac_addr (h_ext + ext_h_dest) (some (m_ext + ext_h_dest))
    ∷ []

unfoldable pub rule_nfc_esp_ip4 : List RuleOpts
rule_nfc_esp_ip4 =
    opt "src-ip" opt_ip4 nfc_flag_saddr h_u (some m_u)
    ∷ opt "dst-ip" opt_ip4 nfc_flag_daddr (h_u + 4) (some (m_u + 4))
    ∷ opt "tos" opt_u8 nfc_flag_tos (h_u + 12) (some (m_u + 12))
    ∷ opt "spi" opt_be32 nfc_flag_spi (h_u + 8) (some (m_u + 8))
    ∷ opt "action" opt_u64 nfc_flag_ring ring_cookie none
    ∷ opt "vf" opt_ring_vf nfc_flag_ring_vf ring_cookie none
    ∷ opt "queue" opt_ring_queue nfc_flag_ring_queue ring_cookie none
    ∷ opt "loc" opt_u32 nfc_flag_loc location none
    ∷ opt "vlan-etype" opt_be16 ntuple_flag_veth (h_ext + ext_vlan_etype)
        (some (m_ext + ext_vlan_etype))
    ∷ opt "vlan" opt_be16 ntuple_flag_vlan (h_ext + ext_vlan_tci) (some (m_ext + ext_vlan_tci))
    ∷ opt "user-def" opt_be64 ntuple_flag_udef (h_ext + ext_data) (some (m_ext + ext_data))
    ∷ opt "dst-mac" opt_mac nfc_flag_mac_addr (h_ext + ext_h_dest) (some (m_ext + ext_h_dest))
    ∷ []

unfoldable pub rule_nfc_usr_ip4 : List RuleOpts
rule_nfc_usr_ip4 =
    opt "src-ip" opt_ip4 nfc_flag_saddr h_u (some m_u)
    ∷ opt "dst-ip" opt_ip4 nfc_flag_daddr (h_u + 4) (some (m_u + 4))
    ∷ opt "tos" opt_u8 nfc_flag_tos (h_u + 12) (some (m_u + 12))
    ∷ opt "l4proto" opt_u8 nfc_flag_proto (h_u + 14) (some (m_u + 14))
    ∷ opt "l4data" opt_be32 nfc_flag_spi (h_u + 8) (some (m_u + 8))
    ∷ opt "spi" opt_be32 nfc_flag_spi (h_u + 8) (some (m_u + 8))
    ∷ opt "src-port" opt_be16 nfc_flag_sport (h_u + 8) (some (m_u + 8))
    ∷ opt "dst-port" opt_be16 nfc_flag_dport (h_u + 10) (some (m_u + 10))
    ∷ opt "action" opt_u64 nfc_flag_ring ring_cookie none
    ∷ opt "vf" opt_ring_vf nfc_flag_ring_vf ring_cookie none
    ∷ opt "queue" opt_ring_queue nfc_flag_ring_queue ring_cookie none
    ∷ opt "loc" opt_u32 nfc_flag_loc location none
    ∷ opt "vlan-etype" opt_be16 ntuple_flag_veth (h_ext + ext_vlan_etype)
        (some (m_ext + ext_vlan_etype))
    ∷ opt "vlan" opt_be16 ntuple_flag_vlan (h_ext + ext_vlan_tci) (some (m_ext + ext_vlan_tci))
    ∷ opt "user-def" opt_be64 ntuple_flag_udef (h_ext + ext_data) (some (m_ext + ext_data))
    ∷ opt "dst-mac" opt_mac nfc_flag_mac_addr (h_ext + ext_h_dest) (some (m_ext + ext_h_dest))
    ∷ []

unfoldable pub rule_nfc_tcp_ip6 : List RuleOpts
rule_nfc_tcp_ip6 =
    opt "src-ip" opt_ip6 nfc_flag_saddr h_u (some m_u)
    ∷ opt "dst-ip" opt_ip6 nfc_flag_daddr (h_u + 16) (some (m_u + 16))
    ∷ opt "tclass" opt_u8 nfc_flag_tos (h_u + 36) (some (m_u + 36))
    ∷ opt "src-port" opt_be16 nfc_flag_sport (h_u + 32) (some (m_u + 32))
    ∷ opt "dst-port" opt_be16 nfc_flag_dport (h_u + 34) (some (m_u + 34))
    ∷ opt "action" opt_u64 nfc_flag_ring ring_cookie none
    ∷ opt "vf" opt_ring_vf nfc_flag_ring_vf ring_cookie none
    ∷ opt "queue" opt_ring_queue nfc_flag_ring_queue ring_cookie none
    ∷ opt "loc" opt_u32 nfc_flag_loc location none
    ∷ opt "vlan-etype" opt_be16 ntuple_flag_veth (h_ext + ext_vlan_etype)
        (some (m_ext + ext_vlan_etype))
    ∷ opt "vlan" opt_be16 ntuple_flag_vlan (h_ext + ext_vlan_tci) (some (m_ext + ext_vlan_tci))
    ∷ opt "user-def" opt_be64 ntuple_flag_udef (h_ext + ext_data) (some (m_ext + ext_data))
    ∷ opt "dst-mac" opt_mac nfc_flag_mac_addr (h_ext + ext_h_dest) (some (m_ext + ext_h_dest))
    ∷ []

unfoldable pub rule_nfc_esp_ip6 : List RuleOpts
rule_nfc_esp_ip6 =
    opt "src-ip" opt_ip6 nfc_flag_saddr h_u (some m_u)
    ∷ opt "dst-ip" opt_ip6 nfc_flag_daddr (h_u + 16) (some (m_u + 16))
    ∷ opt "tclass" opt_u8 nfc_flag_tos (h_u + 36) (some (m_u + 36))
    ∷ opt "spi" opt_be32 nfc_flag_spi (h_u + 32) (some (m_u + 32))
    ∷ opt "action" opt_u64 nfc_flag_ring ring_cookie none
    ∷ opt "vf" opt_ring_vf nfc_flag_ring_vf ring_cookie none
    ∷ opt "queue" opt_ring_queue nfc_flag_ring_queue ring_cookie none
    ∷ opt "loc" opt_u32 nfc_flag_loc location none
    ∷ opt "vlan-etype" opt_be16 ntuple_flag_veth (h_ext + ext_vlan_etype)
        (some (m_ext + ext_vlan_etype))
    ∷ opt "vlan" opt_be16 ntuple_flag_vlan (h_ext + ext_vlan_tci) (some (m_ext + ext_vlan_tci))
    ∷ opt "user-def" opt_be64 ntuple_flag_udef (h_ext + ext_data) (some (m_ext + ext_data))
    ∷ opt "dst-mac" opt_mac nfc_flag_mac_addr (h_ext + ext_h_dest) (some (m_ext + ext_h_dest))
    ∷ []

unfoldable pub rule_nfc_usr_ip6 : List RuleOpts
rule_nfc_usr_ip6 =
    opt "src-ip" opt_ip6 nfc_flag_saddr h_u (some m_u)
    ∷ opt "dst-ip" opt_ip6 nfc_flag_daddr (h_u + 16) (some (m_u + 16))
    ∷ opt "tclass" opt_u8 nfc_flag_tos (h_u + 36) (some (m_u + 36))
    ∷ opt "l4proto" opt_u8 nfc_flag_proto (h_u + 37) (some (m_u + 37))
    ∷ opt "l4data" opt_be32 nfc_flag_spi (h_u + 32) (some (m_u + 32))
    ∷ opt "spi" opt_be32 nfc_flag_spi (h_u + 32) (some (m_u + 32))
    ∷ opt "src-port" opt_be16 nfc_flag_sport (h_u + 32) (some (m_u + 32))
    ∷ opt "dst-port" opt_be16 nfc_flag_dport (h_u + 34) (some (m_u + 34))
    ∷ opt "action" opt_u64 nfc_flag_ring ring_cookie none
    ∷ opt "vf" opt_ring_vf nfc_flag_ring_vf ring_cookie none
    ∷ opt "queue" opt_ring_queue nfc_flag_ring_queue ring_cookie none
    ∷ opt "loc" opt_u32 nfc_flag_loc location none
    ∷ opt "vlan-etype" opt_be16 ntuple_flag_veth (h_ext + ext_vlan_etype)
        (some (m_ext + ext_vlan_etype))
    ∷ opt "vlan" opt_be16 ntuple_flag_vlan (h_ext + ext_vlan_tci) (some (m_ext + ext_vlan_tci))
    ∷ opt "user-def" opt_be64 ntuple_flag_udef (h_ext + ext_data) (some (m_ext + ext_data))
    ∷ opt "dst-mac" opt_mac nfc_flag_mac_addr (h_ext + ext_h_dest) (some (m_ext + ext_h_dest))
    ∷ []

unfoldable pub rule_nfc_ether : List RuleOpts
rule_nfc_ether =
    opt "src" opt_mac nfc_flag_saddr (h_u + 6) (some (m_u + 6))
    ∷ opt "dst" opt_mac nfc_flag_daddr h_u (some m_u)
    ∷ opt "proto" opt_be16 nfc_flag_proto (h_u + 12) (some (m_u + 12))
    ∷ opt "action" opt_u64 nfc_flag_ring ring_cookie none
    ∷ opt "vf" opt_ring_vf nfc_flag_ring_vf ring_cookie none
    ∷ opt "queue" opt_ring_queue nfc_flag_ring_queue ring_cookie none
    ∷ opt "loc" opt_u32 nfc_flag_loc location none
    ∷ opt "vlan-etype" opt_be16 ntuple_flag_veth (h_ext + ext_vlan_etype)
        (some (m_ext + ext_vlan_etype))
    ∷ opt "vlan" opt_be16 ntuple_flag_vlan (h_ext + ext_vlan_tci) (some (m_ext + ext_vlan_tci))
    ∷ opt "user-def" opt_be64 ntuple_flag_udef (h_ext + ext_data) (some (m_ext + ext_data))
    ∷ []
