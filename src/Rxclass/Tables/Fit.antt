-- ===== src/Rxclass/Tables/Fit.antt =====
-- Where the options of the seven tables lie, and the buffer of the name of a mask.
use ethtool.Base.{
  ℕ, ◌+◌, ◌^◌, ◌<◌, ◌≡◌, ◌≢◌, inl, inr, refl, subst, Bool, true, ◌&&◌, not, Option, none, some,
  List, [], ◌∷◌, ◌==◌, ltb, leb, arith, length, Bool-cases,
}
use ethtool.Base.Maybe.{some_eq}
use ethtool.FlowSpec.Offsets.{spec_size}
use ethtool.Rxclass.{RuleOpts}
use ethtool.Rxclass.Value.Width.{width, Fits, MaskFits, fits_mask?}
use ethtool.Rxclass.Tables.{
  rule_nfc_tcp_ip4, rule_nfc_esp_ip4, rule_nfc_usr_ip4, rule_nfc_tcp_ip6, rule_nfc_esp_ip6,
  rule_nfc_usr_ip6, rule_nfc_ether,
}
use ethtool.Rxclass.Tables.Every.{every_table}
use ethtool.Rxclass.Parse.{Flow, flow_of, find_opt}
use ethtool.Clib.{str_eq}

-- `char mask_name[16]` holds "<name>-mask" with its NUL.
abbrev pub fits? : RuleOpts → Bool
fits? opt =
    leb (opt.offset + width opt.type) spec_size
    && fits_mask? opt opt.moffset
    && ltb (length opt.name + 5) 16
    && not (opt.flag == 0)
    && ltb opt.flag (2 ^ 32)

abbrev pub all_fit : List RuleOpts → Bool
all_fit [] = true
all_fit (opt ∷ opts) = fits? opt && all_fit opts

tcp_ip4_fits : all_fit rule_nfc_tcp_ip4 ≡ true
unfolding rule_nfc_tcp_ip4
tcp_ip4_fits = refl

esp_ip4_fits : all_fit rule_nfc_esp_ip4 ≡ true
unfolding rule_nfc_esp_ip4
esp_ip4_fits = refl

usr_ip4_fits : all_fit rule_nfc_usr_ip4 ≡ true
unfolding rule_nfc_usr_ip4
usr_ip4_fits = refl

tcp_ip6_fits : all_fit rule_nfc_tcp_ip6 ≡ true
unfolding rule_nfc_tcp_ip6
tcp_ip6_fits = refl

esp_ip6_fits : all_fit rule_nfc_esp_ip6 ≡ true
unfolding rule_nfc_esp_ip6
esp_ip6_fits = refl

usr_ip6_fits : all_fit rule_nfc_usr_ip6 ≡ true
unfolding rule_nfc_usr_ip6
usr_ip6_fits = refl

ether_fits : all_fit rule_nfc_ether ≡ true
unfolding rule_nfc_ether
ether_fits = refl

flow_of_fits : (s : List ℕ) {flow : Flow} → flow_of s ≡ some flow → all_fit flow.options ≡ true
flow_of_fits s =
    every_table all_fit tcp_ip4_fits esp_ip4_fits usr_ip4_fits tcp_ip6_fits esp_ip6_fits
      usr_ip6_fits ether_fits s

-- What a table's entry must meet, so that no write leaves the rule and no mask's name its buffer.
pub record IsUsable (opt : RuleOpts) : Type 0 where
  pub fits : Fits opt
  pub mask_name : length opt.name + 5 < 16
  pub flagged : opt.flag ≢ 0
  pub flag_u32 : opt.flag < 2 ^ 32

MaskFits-of_test : (opt : RuleOpts) (m : Option ℕ) → fits_mask? opt m ≡ true → MaskFits opt m
MaskFits-of_test opt none h = tt
MaskFits-of_test opt (some m) h = ground arith

fits-IsUsable : (opt : RuleOpts) → fits? opt ≡ true → IsUsable opt
fits-IsUsable opt h = record {
  fits = (ground arith, MaskFits-of_test opt opt.moffset (ground arith));
  mask_name = ground arith;
  flagged = ground arith;
  flag_u32 = ground arith;
}

find_opt-IsUsable :
    (opts : List RuleOpts) (name : List ℕ) {opt : RuleOpts}
    → all_fit opts ≡ true
    → find_opt opts name ≡ some opt
    → IsUsable opt
unfolding find_opt
find_opt-IsUsable [] name fit h = cc
find_opt-IsUsable (o ∷ opts) name fit h = elim (Bool-cases (str_eq name o.name)) [
  | inl same ↦ subst IsUsable (some_eq (rw same at h)) (fits-IsUsable o (ground arith))
  | inr other ↦ find_opt-IsUsable opts name (ground arith) (rw other at h)
]

-- Whatever flow type is given and whatever option of its table is named: the option's field, and
-- its mask if it takes one, lie inside the rule and do not overlap, "<name>-mask" fits the 16
-- characters of its buffer, and its flag is not 0.
pub flow_of-find_opt-IsUsable :
    (s name : List ℕ) {flow : Flow} {opt : RuleOpts}
    → flow_of s ≡ some flow
    → find_opt flow.options name ≡ some opt
    → IsUsable opt
flow_of-find_opt-IsUsable s name {flow} f h =
    find_opt-IsUsable flow.options name (flow_of_fits s f) h
