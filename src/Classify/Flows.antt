-- ===== src/Classify/Flows.antt =====
-- The names of flow types in the two commands that read them.
use ethtool.Base.{
  ℕ, ◌≡◌, ◌⊎◌, inl, inr, refl, sym, subst, true, ◌||◌, some, List, codes, if_elim, Bool-cases,
}
use ethtool.Clib.{str_eq, str_eq-eq}
use ethtool.Classify.{rxflow_str_to_type}
use ethtool.Rxclass.Parse.{Flow, flow_of}
use ethtool.Rxclass.Tables.{
  rule_nfc_tcp_ip4, rule_nfc_esp_ip4, rule_nfc_tcp_ip6, rule_nfc_esp_ip6, rule_nfc_ether,
}

-- The number is 0, or that of the rule's flow type with this name, or one of the two that AH and
-- ESP share.
abbrev pub Agrees : List ℕ → ℕ → Type 0
Agrees s t =
    (t ≡ 0)
    ⊎ ((flow : Flow) × (flow_of s ≡ some flow) × ((flow.type ≡ t) ⊎ ((t ≡ 0x04) ⊎ (t ≡ 0x08))))

at_name : (s name : List ℕ) (t : ℕ) → Agrees name t → str_eq s name ≡ true → Agrees s t
at_name s name t a e = subst (λ n. Agrees n t) (sym (str_eq-eq s name e)) a

either_name :
    (s name name' : List ℕ) (t : ℕ)
    → Agrees name t
    → Agrees name' t
    → (str_eq s name || str_eq s name') ≡ true
    → Agrees s t
either_name s name name' t a a' e = elim (Bool-cases (str_eq s name)) [
  | inl this ↦ at_name s name t a this
  | inr other ↦ at_name s name' t a' (rw other at e)
]

tcp4-Agrees : Agrees (codes "tcp4") 1
unfolding flow_of str_eq
tcp4-Agrees = inr (record { type = 1; options = rule_nfc_tcp_ip4 }, refl, inl refl)

udp4-Agrees : Agrees (codes "udp4") 2
unfolding flow_of str_eq
udp4-Agrees = inr (record { type = 2; options = rule_nfc_tcp_ip4 }, refl, inl refl)

ah4-Agrees : Agrees (codes "ah4") 4
unfolding flow_of str_eq
ah4-Agrees = inr (record { type = 9; options = rule_nfc_esp_ip4 }, refl, inr (inl refl))

esp4-Agrees : Agrees (codes "esp4") 4
unfolding flow_of str_eq
esp4-Agrees = inr (record { type = 10; options = rule_nfc_esp_ip4 }, refl, inr (inl refl))

sctp4-Agrees : Agrees (codes "sctp4") 3
unfolding flow_of str_eq
sctp4-Agrees = inr (record { type = 3; options = rule_nfc_tcp_ip4 }, refl, inl refl)

tcp6-Agrees : Agrees (codes "tcp6") 5
unfolding flow_of str_eq
tcp6-Agrees = inr (record { type = 5; options = rule_nfc_tcp_ip6 }, refl, inl refl)

udp6-Agrees : Agrees (codes "udp6") 6
unfolding flow_of str_eq
udp6-Agrees = inr (record { type = 6; options = rule_nfc_tcp_ip6 }, refl, inl refl)

ah6-Agrees : Agrees (codes "ah6") 8
unfolding flow_of str_eq
ah6-Agrees = inr (record { type = 11; options = rule_nfc_esp_ip6 }, refl, inr (inr refl))

esp6-Agrees : Agrees (codes "esp6") 8
unfolding flow_of str_eq
esp6-Agrees = inr (record { type = 12; options = rule_nfc_esp_ip6 }, refl, inr (inr refl))

sctp6-Agrees : Agrees (codes "sctp6") 7
unfolding flow_of str_eq
sctp6-Agrees = inr (record { type = 7; options = rule_nfc_tcp_ip6 }, refl, inl refl)

ether-Agrees : Agrees (codes "ether") 18
unfolding flow_of str_eq
ether-Agrees = inr (record { type = 18; options = rule_nfc_ether }, refl, inl refl)

-- Every name whose hash can be set is a name of a rule's flow type, with the same number, but that
-- AH and ESP share one number for each version of IP.
pub rxflow_str_to_type-Agrees : (s : List ℕ) → Agrees s (rxflow_str_to_type s)
unfolding rxflow_str_to_type
rxflow_str_to_type-Agrees s =
    if_elim (Agrees s) (str_eq s (codes "tcp4")) (at_name s (codes "tcp4") 1 tcp4-Agrees) (λ _.
      if_elim (Agrees s) (str_eq s (codes "udp4")) (at_name s (codes "udp4") 2 udp4-Agrees) (λ _.
        if_elim (Agrees s) (str_eq s (codes "ah4") || str_eq s (codes "esp4"))
          (either_name s (codes "ah4") (codes "esp4") 4 ah4-Agrees esp4-Agrees)
          (λ _.
            if_elim (Agrees s) (str_eq s (codes "sctp4")) (at_name s (codes "sctp4") 3 sctp4-Agrees)
              (λ _.
                if_elim (Agrees s) (str_eq s (codes "tcp6"))
                  (at_name s (codes "tcp6") 5 tcp6-Agrees)
                  (λ _.
                    if_elim (Agrees s) (str_eq s (codes "udp6"))
                      (at_name s (codes "udp6") 6 udp6-Agrees)
                      (λ _.
                        if_elim (Agrees s) (str_eq s (codes "ah6") || str_eq s (codes "esp6"))
                          (either_name s (codes "ah6") (codes "esp6") 8 ah6-Agrees esp6-Agrees)
                          (λ _.
                            if_elim (Agrees s) (str_eq s (codes "sctp6"))
                              (at_name s (codes "sctp6") 7 sctp6-Agrees)
                              (λ _.
                                if_elim (Agrees s) (str_eq s (codes "ether"))
                                  (at_name s (codes "ether") 18 ether-Agrees)
                                  (λ _. inl refl)))))))))
