-- ===== src/Settings/Tables.antt =====
-- The tables of the commands of Settings, as lists of int options.
use ethtool.Base.{
  ℕ, suc, ◌≤◌, ◌<◌, ◌≡◌, ◌⊎◌, inl, inr, refl, Bool, true, false, ◌&&◌, Option, none, some, List, [],
  ◌∷◌, ltb, leb, arith,
}
use native.Mathlib.Nat.{le_refl}
use ethtool.Cmdline.{CmdlineType, cmdl_bool, cmdl_s32, cmdl_u32, CmdlineInfo}
use ethtool.Cmdline.Ints.{AllInt}
use ethtool.Cmdline.Merge.{InOrder, EachOnce, NoneSets}
use ethtool.Settings.{Command}

-- The variables of a table of int options: those of the wanted values are below n, the settings go
-- up from `low` on, and no option records that it was seen.
abbrev is_int : CmdlineType → Bool
is_int cmdl_bool = true
is_int cmdl_s32 = true
is_int cmdl_u32 = true
is_int _ = false

abbrev is_unseen : Option ℕ → Bool
is_unseen none = true
is_unseen (some v) = false

abbrev pub in_order : ℕ → ℕ → List CmdlineInfo → Bool
in_order n low [] = true
in_order n low (i ∷ info) =
    (is_int i.type && is_unseen i.seen_val)
    && ((ltb i.wanted_val n && leb low i.ioctl_val) && in_order n (suc i.ioctl_val) info)

and_both : (a b : Bool) → (a && b) ≡ true → (a ≡ true) × (b ≡ true)
and_both true true h = (refl, refl)
and_both true false h = cc
and_both false b h = cc

int_types :
    (t : CmdlineType) → is_int t ≡ true → (t ≡ cmdl_bool) ⊎ ((t ≡ cmdl_s32) ⊎ (t ≡ cmdl_u32))
int_types cmdl_bool h = inl refl
int_types cmdl_s32 h = inr (inl refl)
int_types cmdl_u32 h = inr (inr refl)
int_types _ h = cc

unseen : (o : Option ℕ) → is_unseen o ≡ true → o ≡ none
unseen none h = refl
unseen (some v) h = cc

numbers : (a b c d : ℕ) → (ltb a b && leb c d) ≡ true → (a < b) × (c ≤ d)
numbers a b c d h = (ground arith, ground arith)

none_above :
    (n low w : ℕ) (info : List CmdlineInfo) → in_order n low info ≡ true → w < low → NoneSets w info
none_above n low w [] h l = tt
none_above n low w (i ∷ info) h l =
    let (_, h1) = and_both (is_int i.type && is_unseen i.seen_val) _ h in
    let (h2, h3) = and_both (ltb i.wanted_val n && leb low i.ioctl_val) _ h1 in
    let (a, b) = numbers i.wanted_val n low i.ioctl_val h2 in
    (λ e. omega arith, none_above n (suc i.ioctl_val) w info h3 (omega arith))

tables :
    (n low : ℕ) (info : List CmdlineInfo)
    → n ≤ low
    → in_order n low info ≡ true
    → AllInt info × InOrder n info × EachOnce info
tables n low [] l h = (tt, tt, tt)
tables n low (i ∷ info) l h =
    let (h0, h1) = and_both (is_int i.type && is_unseen i.seen_val) _ h in
    let (t, s) = and_both (is_int i.type) (is_unseen i.seen_val) h0 in
    let (h2, h3) = and_both (ltb i.wanted_val n && leb low i.ioctl_val) _ h1 in
    let (a, b) = numbers i.wanted_val n low i.ioctl_val h2 in
    let (ints, order, once) = tables n (suc i.ioctl_val) info (omega arith) h3 in
    (
      ((int_types i.type t, unseen i.seen_val s), ints),
      (a, omega arith, order),
      (none_above n (suc i.ioctl_val) i.ioctl_val info h3 (omega arith), once),
    )

abbrev pub IsTable : Command → Type 0
IsTable c = AllInt c.table × InOrder c.wanted c.table × EachOnce c.table

pub table_of : (c : Command) → in_order c.wanted c.wanted c.table ≡ true → IsTable c
table_of c h = tables c.wanted c.wanted c.table (le_refl _) h
