-- ===== src/Ntuple/Extends.antt =====
-- flow_spec_to_ntuple: the VLAN tag and the user data of a rule with the extension.
use ethtool.Base.{
  ℕ, ◌+◌, ◌-◌, ◌^◌, ◌*◌, ◌<◌, ◌≡◌, ◌≢◌, ◌⊎◌, inl, inr, refl, subst, bit_and, false, ◌&&◌, ◌||◌, not,
  List, ◌==◌, if◌then◌else◌, arith, ==_iff, get_or, Bool-cases,
}
use ethtool.Base.Bytes.{le_value, load}
use ethtool.FlowSpec.{FlowSpec, get_flow_type}
use ethtool.FlowSpec.Offsets.{h_ext, m_ext, ext_vlan_etype, ext_vlan_tci, ext_data}
use ethtool.Rxclass.Parse.{flow_ext, has}
use ethtool.Ntuple.{Ntuple, be_value, plain, extended, two_users}

abbrev pub IsBytes : List ℕ → Type 0
IsBytes bytes = (i : ℕ) → get_or bytes i 0 < 256

-- Of the rule: the VLAN tag, the VLAN type and the two words of user data, and their masks.
abbrev pub field : FlowSpec → ℕ → ℕ → ℕ
field fsp off n = be_value (load fsp off n)

-- The ntuple has no extension: all ones.
abbrev pub Flat : Ntuple → Type 0
Flat n =
    (n.vlan_tag ≡ 2 ^ 16 - 1)
    × (n.vlan_tag_mask ≡ 2 ^ 16 - 1)
    × (n.user ≡ 2 ^ 64 - 1)
    × (n.user_mask ≡ 2 ^ 64 - 1)

-- Two words of 32 bits, the high one first.
abbrev pub wide : ℕ → ℕ → ℕ
wide high low = high * 2 ^ 32 + low

-- The user data is that of the rule, of which the VLAN type has no mask; or it is the VLAN type in
-- bits 16 to 31, and the user data of the rule has no mask. A mask is inverted.
abbrev pub UserData : FlowSpec → Ntuple → Type 0
UserData fsp n =
    ((field fsp (m_ext + ext_vlan_etype) 2 ≡ 0)
      × (n.user ≡ wide (field fsp (h_ext + ext_data) 4) (field fsp (h_ext + ext_data + 4) 4))
      × (n.user_mask + wide (field fsp (m_ext + ext_data) 4) (field fsp (m_ext + ext_data + 4) 4)
          ≡ 2 ^ 64 - 1))
    ⊎ ((field fsp (m_ext + ext_data) 4 ≡ 0)
        × (field fsp (m_ext + ext_data + 4) 4 ≡ 0)
        × (n.user ≡ field fsp (h_ext + ext_vlan_etype) 2 * 2 ^ 16)
        × (n.user_mask + field fsp (m_ext + ext_vlan_etype) 2 * 2 ^ 16 ≡ 2 ^ 64 - 1))

abbrev pub Extends : FlowSpec → Ntuple → Type 0
Extends fsp n =
    ((bit_and (get_flow_type fsp) flow_ext ≡ 0) × Flat n)
    ⊎ ((bit_and (get_flow_type fsp) flow_ext ≢ 0)
        × (n.vlan_tag ≡ field fsp (h_ext + ext_vlan_tci) 2)
        × (n.vlan_tag_mask + field fsp (m_ext + ext_vlan_tci) 2 ≡ 2 ^ 16 - 1)
        × UserData fsp n)

be_lt2 : (fsp : List ℕ) (off : ℕ) → IsBytes fsp → field fsp off 2 < 2 ^ 16
be_lt2 fsp off h = omega (arith, h off, h (off + 1))

be_lt4 : (fsp : List ℕ) (off : ℕ) → IsBytes fsp → field fsp off 4 < 2 ^ 32
be_lt4 fsp off h = omega (arith, h off, h (off + 1), h (off + 1 + 1), h (off + 1 + 1 + 1))

-- No number in one order of its bytes is none in the other.
le_zero2 : (fsp : List ℕ) (off : ℕ) → le_value (load fsp off 2) ≡ 0 → field fsp off 2 ≡ 0
le_zero2 fsp off h = omega (arith, h)

le_zero4 : (fsp : List ℕ) (off : ℕ) → le_value (load fsp off 4) ≡ 0 → field fsp off 4 ≡ 0
le_zero4 fsp off h = omega (arith, h)

-- Which of the two users has no mask.
one_user :
    (a b c : ℕ)
    → ((not (a == 0) || not (b == 0)) && not (c == 0)) ≡ false
    → (c ≡ 0) ⊎ ((a ≡ 0) × (b ≡ 0))
one_user a b c h = elim (Bool-cases (c == 0)) [
  | inl e ↦ inl ((==_iff _ _).0 e)
  | inr n ↦ inr (ground arith, ground arith)
]

extended-Extends :
    (fsp : FlowSpec) (n : Ntuple)
    → IsBytes fsp
    → two_users fsp ≡ false
    → ((extended fsp n).vlan_tag ≡ field fsp (h_ext + ext_vlan_tci) 2)
      × ((extended fsp n).vlan_tag_mask + field fsp (m_ext + ext_vlan_tci) 2 ≡ 2 ^ 16 - 1)
      × UserData fsp (extended fsp n)
extended-Extends fsp n bytes users =
    let tci = be_lt2 fsp (m_ext + ext_vlan_tci) bytes in
    let etype = be_lt2 fsp (m_ext + ext_vlan_etype) bytes in
    let high = be_lt4 fsp (m_ext + ext_data) bytes in
    let low = be_lt4 fsp (m_ext + ext_data + 4) bytes in
    elim (Bool-cases (field fsp (m_ext + ext_vlan_etype) 2 == 0)) [
      | inl user ↦
          rw user
            (refl, omega (arith, tci), inl ((==_iff _ _).0 user, refl, omega (arith, high, low)))
      | inr vlan ↦
          let some_type : field fsp (m_ext + ext_vlan_etype) 2 ≢ 0 = λ e. absurd (ground arith) in
          let (a, b) : (le_value (load fsp (m_ext + ext_data) 4) ≡ 0)
              × (le_value (load fsp (m_ext + ext_data + 4) 4) ≡ 0) =
            elim (one_user (le_value (load fsp (m_ext + ext_data) 4))
              (le_value (load fsp (m_ext + ext_data + 4) 4))
              (le_value (load fsp (m_ext + ext_vlan_etype) 2)) users) [
                | inl none_type ↦
                    absurd (some_type (le_zero2 fsp (m_ext + ext_vlan_etype) none_type))
                | inr ab ↦ ab
              ] in
          rw vlan (
            refl,
            omega (arith, tci),
            inr (
              le_zero4 fsp (m_ext + ext_data) a,
              le_zero4 fsp (m_ext + ext_data + 4) b,
              refl,
              omega (arith, etype),
            ),
          )
    ]

pub extends_lem :
    (fsp : FlowSpec) {n : Ntuple}
    → IsBytes fsp
    → (has (get_flow_type fsp) flow_ext && two_users fsp) ≡ false
    → (if has (get_flow_type fsp) flow_ext
        then extended fsp (plain fsp (get_flow_type fsp))
        else plain fsp (get_flow_type fsp))
      ≡ n
    → Extends fsp n
extends_lem fsp {n} bytes users result =
    elim (Bool-cases (bit_and (get_flow_type fsp) flow_ext == 0)) [
      | inl flat ↦
          subst (Extends fsp) (rw flat at result)
            (inl ((==_iff _ _).0 flat, (refl, refl, refl, refl)))
      | inr ext ↦
          let none_twice : two_users fsp ≡ false = (rw ext at users) in
          let (tag, tag_mask, user) =
            extended-Extends fsp (plain fsp (get_flow_type fsp)) bytes none_twice in
          subst (Extends fsp) (rw ext at result)
            (inr (λ e. absurd (ground arith), tag, tag_mask, user))
    ]
