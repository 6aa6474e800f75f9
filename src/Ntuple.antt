-- ===== src/Ntuple.antt =====
-- ethtool.c, the older way to send a rule: flow_type_is_ntuple_supported, flow_spec_to_ntuple and
-- do_srxntuple. The kernel's side of the two ioctls is the record `NtupleDevice`.
pub mod Extends
pub mod Convert
use ethtool.Base.{
  ℕ, ◌+◌, ◌-◌, ◌*◌, ◌/◌, ◌%◌, ◌^◌, bit_and, bit_or, bit_xor, Bool, true, false, ◌&&◌, ◌||◌, not,
  Option, none, some, List, [], ◌∷◌, ◌++◌, ◌==◌, ltb, if◌then◌else◌, length, replicate,
}
use ethtool.Base.Bits.{bit_not}
use ethtool.Base.Bytes.{le_value, load}
use ethtool.Base.Int.{ℤ, pos, is_neg}
use ethtool.FlowSpec.{FlowSpec, get_location, get_flow_type, get_ring_cookie}
use ethtool.FlowSpec.Offsets.{
  h_u, m_u, h_ext, m_ext, union_size, ext_vlan_etype, ext_vlan_tci, ext_data,
}
use ethtool.Rxclass.Parse.{ipv4_user_flow, flow_ext, flow_mac_ext, rx_cls_loc_any, has}

-- `sizeof(ntuple->h_u)`
abbrev pub ntuple_union_size : ℕ
ntuple_union_size = 72

-- struct ethtool_rx_ntuple_flow_spec; `action` is the pattern of the s32.
pub record Ntuple : Type 0 where
  pub flow_type : ℕ
  pub h_u : List ℕ
  pub m_u : List ℕ
  pub vlan_tag : ℕ
  pub vlan_tag_mask : ℕ
  pub user : ℕ
  pub user_mask : ℕ
  pub action : ℕ

unfoldable pub flow_type_is_ntuple_supported : ℕ → Bool
flow_type_is_ntuple_supported t =
    t == 0x01
    || t == 0x02
    || t == 0x03
    || t == 0x09
    || t == 0x0a
    || t == ipv4_user_flow
    || t == 0x12

-- A number in network order: ntohs and ntohl of the bytes that stand in the rule.
abbrev pub be_value : List ℕ → ℕ
be_value [] = 0
be_value (b ∷ bs) = b * 256 ^ length bs + be_value bs

abbrev pub int_max : ℕ
int_max = 2 ^ 31 - 1

-- `hdata[i] ^= 0xFF` for each byte.
abbrev pub inverted : List ℕ → List ℕ
inverted [] = []
inverted (b ∷ bs) = bit_xor b 0xff ∷ inverted bs

-- A union of the rule in one of the ntuple: the rest keeps the ones of the memset.
abbrev pub padded : List ℕ → List ℕ
padded bytes = bytes ++ replicate (ntuple_union_size - union_size) 0xff

abbrev pub plain : FlowSpec → ℕ → Ntuple
plain fsp ft = record {
  flow_type = bit_and ft (bit_not 32 flow_ext);
  h_u = padded (load fsp h_u union_size);
  m_u = padded (inverted (load fsp m_u union_size));
  vlan_tag = 0xffff;
  vlan_tag_mask = 0xffff;
  user = 2 ^ 64 - 1;
  user_mask = 2 ^ 64 - 1;
  action = get_ring_cookie fsp % 2 ^ 32;
}

-- The fields that the extension sets. A 16-bit number in network order that ntohl reads is moved
-- to the two high bytes.
abbrev pub extended : FlowSpec → Ntuple → Ntuple
extended fsp n =
    let tagged = record n {
      vlan_tag = be_value (load fsp (h_ext + ext_vlan_tci) 2);
      vlan_tag_mask = bit_not 16 (be_value (load fsp (m_ext + ext_vlan_tci) 2));
    } in
    if be_value (load fsp (m_ext + ext_vlan_etype) 2) == 0
    then record tagged {
      user =
          be_value (load fsp (h_ext + ext_data) 4) * 2 ^ 32
          + be_value (load fsp (h_ext + ext_data + 4) 4);
      user_mask =
          bit_not 32 (be_value (load fsp (m_ext + ext_data) 4)) * 2 ^ 32
          + bit_not 32 (be_value (load fsp (m_ext + ext_data + 4) 4));
    }
    else record tagged {
      user = be_value (load fsp (h_ext + ext_vlan_etype) 2) * 2 ^ 16;
      user_mask = bit_not 64 (be_value (load fsp (m_ext + ext_vlan_etype) 2) * 2 ^ 16);
    }

-- The user data has a mask, and the VLAN type too.
abbrev pub two_users : FlowSpec → Bool
two_users fsp =
    (not (le_value (load fsp (m_ext + ext_data) 4) == 0)
      || not (le_value (load fsp (m_ext + ext_data + 4) 4) == 0))
    && not (le_value (load fsp (m_ext + ext_vlan_etype) 2) == 0)

-- `none` is the return of -1. The second test of the user data cannot fail behind the first.
unfoldable pub flow_spec_to_ntuple : FlowSpec → Option Ntuple
unfolding get_location get_flow_type get_ring_cookie
flow_spec_to_ntuple fsp =
    let ft : ℕ = get_flow_type fsp in
    let cookie : ℕ = get_ring_cookie fsp in
    if not (get_location fsp == rx_cls_loc_any)
    then none
    else if has ft flow_mac_ext
    then none
    else if ltb int_max cookie && ltb cookie (2 ^ 64 - 2)
    then none
    else if has ft flow_ext && two_users fsp
    then none
    else if not (flow_type_is_ntuple_supported (bit_and ft (bit_not 32 flow_ext)))
    then none
    else some (if has ft flow_ext then extended fsp (plain fsp ft) else plain fsp ft)

-- After ETHTOOL_GFLAGS, and after ETHTOOL_SRXNTUPLE, which changes the device.
pub record FlagsReply : Type 0 where
  pub err : ℤ
  pub flags : ℕ

pub record SendReply (S : Type 0) : Type 0 where
  pub err : ℤ
  pub state : S

pub record NtupleDevice (S : Type 0) : Type 0 where
  pub get_flags : S → FlagsReply
  pub send : S → Ntuple → SendReply S

abbrev pub eth_flag_ntuple : ℕ
eth_flag_ntuple = 2 ^ 27

abbrev pub is_zero : ℤ → Bool
is_zero (pos n) = n == 0
is_zero _ = false

-- Whether it returned 0, and the device.
pub record Tried (S : Type 0) : Type 0 where
  pub sent : Bool
  pub state : S

module _ {S : Type 0} (dev : NtupleDevice S) where
  unfoldable pub send_ntuple : S → Option Ntuple → Tried S
  send_ntuple s none = record { sent = false; state = s }
  send_ntuple s (some n) =
      let eval = dev.get_flags s in
      let reply = dev.send s n in
      if not (is_zero eval.err) || bit_and eval.flags eth_flag_ntuple == 0
      then record { sent = false; state = s }
      else record { sent = not (is_neg reply.err); state = reply.state }

  unfoldable pub do_srxntuple : S → FlowSpec → Tried S
  do_srxntuple s fsp = send_ntuple s (flow_spec_to_ntuple fsp)
