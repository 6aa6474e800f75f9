-- ===== src/Ntuple/Convert.antt =====
-- flow_spec_to_ntuple: which rules it takes, and what becomes of them.
use ethtool.Base.{
  ℕ, ◌+◌, ◌-◌, ◌%◌, ◌^◌, ◌≤◌, ◌<◌, ◌≡◌, ◌⊎◌, inl, inr, refl, sym, subst, bit_and, Bool, true, false,
  ◌&&◌, not, some, ◌==◌, ltb, if◌then◌else◌, arith, ==_iff, Bool-cases, if_none,
}
use ethtool.Base.Bits.{bit, bit_not, bit-bit_and, bit_and-pow, bit_high, bit-le}
use ethtool.Base.Bytes.{load, le_value-load_lt}
use ethtool.Base.Maybe.{some_eq}
use ethtool.FlowSpec.{FlowSpec, get_location, get_flow_type, get_ring_cookie}
use ethtool.FlowSpec.Offsets.{h_u, m_u, m_ext, ext_vlan_etype, ring_cookie, union_size}
use ethtool.Rxclass.Parse.{flow_ext, flow_mac_ext, flow_rss, rx_cls_loc_any, has}
use ethtool.Ntuple.Extends.{IsBytes, Extends, extends_lem}
use ethtool.Ntuple.{
  Ntuple, be_value, flow_spec_to_ntuple, flow_type_is_ntuple_supported, int_max, inverted, padded,
  plain, extended, two_users,
}

-- The ntuple says the same as the rule.
pub record Converts (fsp : FlowSpec) (n : Ntuple) : Type 0 where
  pub unplaced : get_location fsp ≡ rx_cls_loc_any
  pub supported : flow_type_is_ntuple_supported n.flow_type ≡ true
  pub no_rss : bit_and flow_rss (get_flow_type fsp) ≡ 0
  pub no_mac : bit_and (get_flow_type fsp) flow_mac_ext ≡ 0
  pub type : n.flow_type ≡ bit_and (get_flow_type fsp) (bit_not 32 flow_ext)
  pub header : n.h_u ≡ padded (load fsp h_u union_size)
  pub mask : n.m_u ≡ padded (inverted (load fsp m_u union_size))
  pub action :
      ((get_ring_cookie fsp ≤ int_max) × (n.action ≡ get_ring_cookie fsp))
      ⊎ ((2 ^ 64 - 2 ≤ get_ring_cookie fsp) × (n.action + (2 ^ 64 - 2 ^ 32) ≡ get_ring_cookie fsp))
  pub extension : Extends fsp n

-- What is known where every guard is passed.
record Passes (fsp : FlowSpec) (n : Ntuple) : Type 0 where
  unplaced : get_location fsp ≡ rx_cls_loc_any
  no_mac : bit_and (get_flow_type fsp) flow_mac_ext ≡ 0
  cookie : (ltb int_max (get_ring_cookie fsp) && ltb (get_ring_cookie fsp) (2 ^ 64 - 2)) ≡ false
  users : (has (get_flow_type fsp) flow_ext && two_users fsp) ≡ false
  supported :
      flow_type_is_ntuple_supported (bit_and (get_flow_type fsp) (bit_not 32 flow_ext)) ≡ true
  result :
      (if has (get_flow_type fsp) flow_ext
        then extended fsp (plain fsp (get_flow_type fsp))
        else plain fsp (get_flow_type fsp))
      ≡ n

not-false : (b : Bool) → not b ≡ false → b ≡ true
not-false true h = refl
not-false false h = cc

passes : (fsp : FlowSpec) {n : Ntuple} → flow_spec_to_ntuple fsp ≡ some n → Passes fsp n
unfolding flow_spec_to_ntuple
passes fsp h =
    let (a, h1) = if_none (not (get_location fsp == rx_cls_loc_any)) _ h in
    let (b, h2) = if_none (has (get_flow_type fsp) flow_mac_ext) _ h1 in
    let (c, h3) =
      if_none (ltb int_max (get_ring_cookie fsp) && ltb (get_ring_cookie fsp) (2 ^ 64 - 2)) _ h2 in
    let (d, h4) = if_none (has (get_flow_type fsp) flow_ext && two_users fsp) _ h3 in
    let (e, h5) =
      if_none
        (not (flow_type_is_ntuple_supported (bit_and (get_flow_type fsp) (bit_not 32 flow_ext)))) _
        h4 in
    record {
      unplaced = (==_iff _ _).0 (not-false _ a);
      no_mac = (==_iff _ _).0 (not-false _ b);
      cookie = c;
      users = d;
      supported = not-false _ e;
      result = some_eq h5;
    }

-- The extension changes none of these fields.
record Same (n m : Ntuple) : Type 0 where
  type : n.flow_type ≡ m.flow_type
  header : n.h_u ≡ m.h_u
  mask : n.m_u ≡ m.m_u
  action : n.action ≡ m.action

Same-refl : (n : Ntuple) → Same n n
Same-refl n = record { type = refl; header = refl; mask = refl; action = refl }

extended-Same : (fsp : FlowSpec) (n : Ntuple) → Same (extended fsp n) n
extended-Same fsp n = elim (Bool-cases (be_value (load fsp (m_ext + ext_vlan_etype) 2) == 0)) [
  | inl user ↦ rw user (record { type = refl; header = refl; mask = refl; action = refl })
  | inr vlan ↦ rw vlan (record { type = refl; header = refl; mask = refl; action = refl })
]

action_lem :
    (cookie : ℕ)
    → cookie < 2 ^ 64
    → (ltb int_max cookie && ltb cookie (2 ^ 64 - 2)) ≡ false
    → ((cookie ≤ int_max) × (cookie % 2 ^ 32 ≡ cookie))
      ⊎ ((2 ^ 64 - 2 ≤ cookie) × (cookie % 2 ^ 32 + (2 ^ 64 - 2 ^ 32) ≡ cookie))
action_lem cookie small h = elim (Bool-cases (ltb int_max cookie)) [
  | inr low ↦ let l : cookie ≤ int_max = ground arith in inl (l, omega arith)
  | inl above ↦ let high : 2 ^ 64 - 2 ≤ cookie = ground arith in inr (high, omega arith)
]

supported-lt : (t : ℕ) → flow_type_is_ntuple_supported t ≡ true → t < 2 ^ 29
unfolding flow_type_is_ntuple_supported
supported-lt t h = ground arith

no_rss_lem : (ft : ℕ) → bit_and ft (bit_not 32 flow_ext) < 2 ^ 29 → bit_and flow_rss ft ≡ 0
no_rss_lem ft h =
    let low = bit_high 29 (bit_and ft (bit_not 32 flow_ext)) 29 in
    let both = bit-bit_and ft (bit_not 32 flow_ext) 29 in
    let digit : bit (bit_not 32 flow_ext) 29 ≡ 1 = refl in
    omega (arith, bit_and-pow 29 ft, bit-le ft 29, low, both, digit)

-- A rule of bytes that is converted has no location, no destination MAC beside it, no RSS context
-- and a flow type that the older interface supports; the ntuple has that flow type, the same
-- header, the inverted mask, both unions filled up with ones, and the ring cookie as its action, as
-- the same signed number. Without the extension its other fields are all ones. With the extension it
-- has the VLAN tag and the inverted mask of it; and the user data, if the mask of the VLAN type is 0,
-- or else the VLAN type in the place of the user data, of which the mask is 0.
pub flow_spec_to_ntuple-Converts :
    (fsp : FlowSpec) {n : Ntuple} → IsBytes fsp → flow_spec_to_ntuple fsp ≡ some n → Converts fsp n
unfolding get_ring_cookie
flow_spec_to_ntuple-Converts fsp {n} bytes h =
    let p = passes fsp h in
    let ft : ℕ = get_flow_type fsp in
    let same : Same n (plain fsp ft) = elim (Bool-cases (has ft flow_ext)) [
      | inl ext ↦
          subst (λ m. Same m (plain fsp ft)) (rw ext at p.result) (extended-Same fsp (plain fsp ft))
      | inr flat ↦
          subst (λ m. Same m (plain fsp ft)) (rw flat at p.result) (Same-refl (plain fsp ft))
    ] in
    record {
      unplaced = p.unplaced;
      supported = subst (λ t. flow_type_is_ntuple_supported t ≡ true) (sym same.type) p.supported;
      no_rss = no_rss_lem ft (supported-lt _ p.supported);
      no_mac = p.no_mac;
      type = same.type;
      header = same.header;
      mask = same.mask;
      action =
          subst
            (λ a.
              ((get_ring_cookie fsp ≤ int_max) × (a ≡ get_ring_cookie fsp))
              ⊎ ((2 ^ 64 - 2 ≤ get_ring_cookie fsp)
                  × (a + (2 ^ 64 - 2 ^ 32) ≡ get_ring_cookie fsp)))
            (sym same.action)
            (action_lem (get_ring_cookie fsp) (le_value-load_lt fsp ring_cookie 8 bytes) p.cookie);
      extension = extends_lem fsp bytes p.users p.result;
    }
