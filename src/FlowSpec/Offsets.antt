-- ===== src/FlowSpec/Offsets.antt =====
-- Byte offsets in struct ethtool_rx_flow_spec.
use ethtool.Base.{ℕ}

-- struct ethtool_rx_flow_spec
abbrev pub flow_type : ℕ
flow_type = 0

abbrev pub h_u : ℕ
h_u = 4

abbrev pub h_ext : ℕ
h_ext = 56

abbrev pub m_u : ℕ
m_u = 76

abbrev pub m_ext : ℕ
m_ext = 128

abbrev pub ring_cookie : ℕ
ring_cookie = 152

abbrev pub location : ℕ
location = 160

abbrev pub spec_size : ℕ
spec_size = 168

-- `sizeof(union ethtool_flow_union)`
abbrev pub union_size : ℕ
union_size = 52

-- struct ethtool_flow_ext
abbrev pub ext_h_dest : ℕ
ext_h_dest = 2

abbrev pub ext_vlan_etype : ℕ
ext_vlan_etype = 8

abbrev pub ext_vlan_tci : ℕ
ext_vlan_tci = 10

abbrev pub ext_data : ℕ
ext_data = 12

-- struct ethtool_usrip4_spec, `ip_ver`
abbrev pub usr_ip4_ip_ver : ℕ
usr_ip4_ip_ver = 13
