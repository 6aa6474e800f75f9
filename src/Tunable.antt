-- ===== src/Tunable.antt =====
-- ethtool.c, do_set_phy_tunable and the functions parse_named_*: one tunable of the PHY is set.
-- `none` is exit_bad_args; the arguments are what is left of `argp`.
pub mod Turns
use ethtool.Base.{
  ℕ, ◌-◌, Bool, true, false, ◌&&◌, not, Option, none, some, List, [], ◌∷◌, ◌==◌, ltb, if◌then◌else◌,
  codes,
}
use ethtool.Base.Int.{ℤ, is_neg}
use ethtool.Base.Maybe.{◌>>=◌}
use ethtool.Clib.{str_eq}
use ethtool.Cmdline.{get_uint_range}

-- What a named option gave, if it was there, and the arguments behind.
pub data Named (A : Type 0) : Type 0 where
  named : A → List (List ℕ) → Named A
  not_named : Named A

unfoldable pub on_off : List ℕ → Option Bool
on_off arg =
    if str_eq arg (codes "on")
    then some true
    else if str_eq arg (codes "off")
    then some false
    else none

unfoldable pub parse_named_bool : List ℕ → List (List ℕ) → Option (Named Bool)
parse_named_bool name [] = some not_named
parse_named_bool name (word ∷ []) = some not_named
parse_named_bool name (word ∷ arg ∷ rest) =
    if not (str_eq word name) then some not_named else (on_off arg >>= λ on. some (named on rest))

unfoldable pub parse_named_uint : List ℕ → ℕ → List (List ℕ) → Option (Named ℕ)
parse_named_uint name high [] = some not_named
parse_named_uint name high (word ∷ []) = some not_named
parse_named_uint name high (word ∷ arg ∷ rest) =
    if not (str_eq word name)
    then some not_named
    else (get_uint_range arg high >>= λ val. some (named val rest))

abbrev pub parse_named_u8 : List ℕ → List (List ℕ) → Option (Named ℕ)
parse_named_u8 name args = parse_named_uint name 0xff args

abbrev pub parse_named_u16 : List ℕ → List (List ℕ) → Option (Named ℕ)
parse_named_u16 name args = parse_named_uint name 0xffff args

abbrev pub downshift_dev_default_count : ℕ
downshift_dev_default_count = 0xff

abbrev pub downshift_dev_disable : ℕ
downshift_dev_disable = 0

abbrev pub fast_link_down_on : ℕ
fast_link_down_on = 0

abbrev pub fast_link_down_off : ℕ
fast_link_down_off = 0xff

abbrev pub edpd_dflt_tx_msecs : ℕ
edpd_dflt_tx_msecs = 0xffff

abbrev pub edpd_no_tx : ℕ
edpd_no_tx = 0xfffe

abbrev pub edpd_disable : ℕ
edpd_disable = 0

pub data TunableId : Type 0 where
  phy_downshift : TunableId
  phy_fast_link_down : TunableId
  phy_edpd : TunableId

-- ETHTOOL_PHY_STUNABLE: `len` is 1 for ETHTOOL_TUNABLE_U8 and 2 for ETHTOOL_TUNABLE_U16.
pub record Tunable : Type 0 where
  pub id : TunableId
  pub len : ℕ
  pub value : ℕ

abbrev pub tunable : TunableId → ℕ → ℕ → Tunable
tunable id len value = record { id = id; len = len; value = value }

unfoldable pub set_downshift : Bool → Named ℕ → Option Tunable
set_downshift on (named count rest) =
    if not on then none else if count == 0 then none else some (tunable phy_downshift 1 count)
set_downshift on not_named = some (
    tunable phy_downshift 1 (if not on then downshift_dev_disable else downshift_dev_default_count))

abbrev pub named_or : ℕ → Named ℕ → ℕ
named_or d (named v rest) = v
named_or d not_named = d

unfoldable pub set_fast_link_down : Bool → List (List ℕ) → Option Tunable
set_fast_link_down false rest = some (tunable phy_fast_link_down 1 fast_link_down_off)
set_fast_link_down true rest = parse_named_u8 (codes "msecs") rest >>= λ m.
    if named_or fast_link_down_on m == fast_link_down_off
    then none
    else some (tunable phy_fast_link_down 1 (named_or fast_link_down_on m))

unfoldable pub set_edpd : Bool → List (List ℕ) → Option Tunable
set_edpd false rest = some (tunable phy_edpd 2 edpd_disable)
set_edpd true rest = parse_named_u16 (codes "msecs") rest >>= λ m.
    if named_or edpd_dflt_tx_msecs m == 0
    then some (tunable phy_edpd 2 edpd_no_tx)
    else if ltb edpd_no_tx (named_or edpd_dflt_tx_msecs m)
    then none
    else some (tunable phy_edpd 2 (named_or edpd_dflt_tx_msecs m))

abbrev pub edpd_or_exit : Named Bool → Option Tunable
edpd_or_exit (named on rest) = set_edpd on rest
edpd_or_exit not_named = none

abbrev pub fast_link_down_or : List (List ℕ) → Named Bool → Option Tunable
fast_link_down_or args (named on rest) = set_fast_link_down on rest
fast_link_down_or args not_named =
    parse_named_bool (codes "energy-detect-power-down") args >>= edpd_or_exit

abbrev pub downshift_or : List (List ℕ) → Named Bool → Option Tunable
downshift_or args (named on rest) = parse_named_u8 (codes "count") rest >>= set_downshift on
downshift_or args not_named =
    parse_named_bool (codes "fast-link-down") args >>= fast_link_down_or args

-- The tunable that is sent.
unfoldable pub phy_tunable : List (List ℕ) → Option Tunable
phy_tunable args = parse_named_bool (codes "downshift") args >>= downshift_or args

unfoldable pub do_set_phy_tunable : (Tunable → ℤ) → List (List ℕ) → Option ℕ
do_set_phy_tunable send args = phy_tunable args >>= λ t. some (if is_neg (send t) then 87 else 0)
