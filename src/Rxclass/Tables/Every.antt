-- ===== src/Rxclass/Tables/Every.antt =====
-- A test that the seven option tables pass is passed by the table of every flow type.
use ethtool.Base.{ℕ, ◌≡◌, subst, Bool, true, false, Option, some, List, if◌then◌else◌, codes}
use ethtool.Base.Maybe.{some_eq, none_absurd}
use ethtool.Clib.{str_eq}
use ethtool.Rxclass.{RuleOpts}
use ethtool.Rxclass.Tables.{
  rule_nfc_tcp_ip4, rule_nfc_esp_ip4, rule_nfc_usr_ip4, rule_nfc_tcp_ip6, rule_nfc_esp_ip6,
  rule_nfc_usr_ip6, rule_nfc_ether,
}
use ethtool.Rxclass.Parse.{Flow, flow_of}

module _ (test : List RuleOpts → Bool) where
  -- One step down a chain of tests.
  step_if :
      (b : Bool) (type : ℕ) (options : List RuleOpts) (rest : Option Flow) {flow : Flow}
      → test options ≡ true
      → (rest ≡ some flow → test flow.options ≡ true)
      → (if b then some (record { type = type; options = options }) else rest) ≡ some flow
      → test flow.options ≡ true
  step_if true type options rest pass down e =
      subst (λ (f : Flow). test f.options ≡ true) (some_eq e) pass
  step_if false type options rest pass down e = down e

  pub every_table :
      test rule_nfc_tcp_ip4 ≡ true
      → test rule_nfc_esp_ip4 ≡ true
      → test rule_nfc_usr_ip4 ≡ true
      → test rule_nfc_tcp_ip6 ≡ true
      → test rule_nfc_esp_ip6 ≡ true
      → test rule_nfc_usr_ip6 ≡ true
      → test rule_nfc_ether ≡ true
      → (s : List ℕ) {flow : Flow} → flow_of s ≡ some flow
      → test flow.options ≡ true
  unfolding flow_of
  every_table tcp_ip4 esp_ip4 usr_ip4 tcp_ip6 esp_ip6 usr_ip6 ether s =
      step_if (str_eq s (codes "tcp4")) 0x01 rule_nfc_tcp_ip4 _ tcp_ip4 (
        step_if (str_eq s (codes "udp4")) 0x02 rule_nfc_tcp_ip4 _ tcp_ip4 (
          step_if (str_eq s (codes "sctp4")) 0x03 rule_nfc_tcp_ip4 _ tcp_ip4 (
            step_if (str_eq s (codes "ah4")) 0x09 rule_nfc_esp_ip4 _ esp_ip4 (
              step_if (str_eq s (codes "esp4")) 0x0a rule_nfc_esp_ip4 _ esp_ip4 (
                step_if (str_eq s (codes "ip4")) 0x0d rule_nfc_usr_ip4 _ usr_ip4 (
                  step_if (str_eq s (codes "tcp6")) 0x05 rule_nfc_tcp_ip6 _ tcp_ip6 (
                    step_if (str_eq s (codes "udp6")) 0x06 rule_nfc_tcp_ip6 _ tcp_ip6 (
                      step_if (str_eq s (codes "sctp6")) 0x07 rule_nfc_tcp_ip6 _ tcp_ip6 (
                        step_if (str_eq s (codes "ah6")) 0x0b rule_nfc_esp_ip6 _ esp_ip6 (
                          step_if (str_eq s (codes "esp6")) 0x0c rule_nfc_esp_ip6 _ esp_ip6 (
                            step_if (str_eq s (codes "ip6")) 0x0e rule_nfc_usr_ip6 _ usr_ip6 (
                              step_if (str_eq s (codes "ether")) 0x12 rule_nfc_ether _ ether
                                none_absurd))))))))))))
