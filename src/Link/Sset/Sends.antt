-- ===== src/Link/Sset/Sends.antt =====
-- do_sset: the settings that it sends for the link, where the kernel answers to
-- ETHTOOL_GLINKSETTINGS.
use ethtool.Base.{
  ℕ, zero, suc, ◌+◌, ◌-◌, ◌*◌, ◌/◌, ◌%◌, ◌^◌, ◌≤◌, ◌<◌, ◌≡◌, ◌≢◌, ◌⊎◌, inl, inr, refl, subst, ap,
  ◌∙◌, true, false, Option, some, List, ◌==◌, if◌then◌else◌, arith, Bool-cases, ==_iff, ==_false,
}
use ethtool.Base.Bits.{bit}
use ethtool.Base.Int.{ℤ, pos, negsuc}
use ethtool.Base.Maybe.{>>=-some, some_eq}
use ethtool.Link.{
  LinkSettings, Usettings, Ecmd, ethtool_glinksettings, ethtool_slinksettings, ecmd_of, words_of,
  do_ioctl_glinksettings, do_ioctl_slinksettings, skip_words,
}
use ethtool.Link.Options.{Wanted, nothing_wanted, read_options}
use ethtool.Link.Sset.{
  or_old, mdix_or_old, is_enable, change_settings, Part, not_asked, refused, sent, LinkRequest,
  slinksettings, Device, Outcome, current_settings, or_gset, send_settings, change_or_unread,
  set_link, do_sset,
}
use ethtool.Link.Options.Values.{UpTo, InInt}
use ethtool.Link.Options.Typed.{IsTyped, read_options-IsTyped}
use ethtool.Link.Trips.{Reply, glinksettings-Reply}
use ethtool.Link.Words.{sent_supported, sent_advertising, sent_lp_advertising, words_of-pos}
use ethtool.LinkMode.{mode_for}
use ethtool.LinkMode.Hex.{bit_of}
use ethtool.LinkMode.Advertise.{advertised, set_advertising-advertised}

-- A field of so many bits after an option: the number that was asked for, cut to the field, or the
-- old one where none was.
abbrev pub Follows : ℕ → ℤ → ℕ → ℕ → Type 0
Follows width (pos n) old new = new ≡ n % 2 ^ width
Follows width (negsuc zero) old new = new ≡ old
Follows width (negsuc (suc n)) old new = new ≡ (2 ^ 32 - 2 - n) % 2 ^ width

-- The same for a number that the field has room for.
abbrev pub Holds : ℤ → ℕ → ℕ → Type 0
Holds (pos n) old new = new ≡ n
Holds (negsuc n) old new = new ≡ old

-- A driver without MDI-X keeps its 0.
abbrev pub HoldsMdix : ℤ → ℕ → ℕ → Type 0
HoldsMdix z old new = if old == 0 then new ≡ 0 else Holds z old new

-- The new settings are the old ones with what the options ask for.
pub record IsAsked (w : Wanted) (old new : LinkSettings) : Type 0 where
  pub speed : Follows 32 w.speed old.speed new.speed
  pub duplex : Holds w.duplex old.duplex new.duplex
  pub port : Holds w.port old.port new.port
  pub mdix : HoldsMdix w.mdix old.eth_tp_mdix_ctrl new.eth_tp_mdix_ctrl
  pub autoneg : Holds w.autoneg old.autoneg new.autoneg
  pub phyad : Follows 8 w.phyad old.phy_address new.phy_address
  pub mdio_support : new.mdio_support ≡ old.mdio_support
  pub eth_tp_mdix : new.eth_tp_mdix ≡ old.eth_tp_mdix

follows :
    (width : ℕ) (z : ℤ) (old : ℕ) → InInt z → width ≤ 32 → Follows width z old (or_old width z old)
follows width (pos n) old h l =
    let small : n % 2 ^ 32 ≡ n = omega arith in ap (λ (t : ℕ). t % 2 ^ width) small
follows width (negsuc zero) old h l = refl
follows width (negsuc (suc n)) old h l =
    let small : (2 ^ 32 - 1 - suc n % 2 ^ 32) % 2 ^ 32 ≡ 2 ^ 32 - 2 - n = omega arith in
    let given : (suc n == 0) ≡ false = ==_false (suc n) 0 (λ e. omega arith) in
    rw given (ap (λ (t : ℕ). t % 2 ^ width) small)

pub holds : (k : ℕ) (z : ℤ) (old : ℕ) → UpTo k z → k < 256 → Holds z old (or_old 8 z old)
holds k (pos n) old h l = omega arith
holds k (negsuc zero) old h l = refl
holds k (negsuc (suc n)) old h l = absurd (omega arith)

holds_mdix : (z : ℤ) (old : ℕ) → UpTo 3 z → HoldsMdix z old (mdix_or_old z old)
holds_mdix z old h = elim (Bool-cases (old == 0)) [
  | inl off ↦ rw off ((==_iff old 0).0 off)
  | inr on ↦ rw on (holds 3 z old h (omega arith))
]

pub changed-IsAsked :
    (w : Wanted) (u : Usettings) → IsTyped w → IsAsked w u.base (change_settings w u).base
unfolding change_settings
changed-IsAsked w u t = record {
  speed = follows 32 w.speed u.base.speed t.speed (omega arith);
  duplex = holds 1 w.duplex u.base.duplex t.duplex (omega arith);
  port = holds 4 w.port u.base.port t.port (omega arith);
  mdix = holds_mdix w.mdix u.base.eth_tp_mdix_ctrl t.mdix;
  autoneg = holds 1 w.autoneg u.base.autoneg t.autoneg (omega arith);
  phyad = follows 8 w.phyad u.base.phy_address t.phyad (omega arith);
  mdio_support = refl;
  eth_tp_mdix = refl;
}

-- The request: the fields, and the three bitmaps of n words behind them.
unfoldable pub Says : Wanted → Usettings → ℕ → Ecmd → Type 0
Says w u n e =
    (e.req.cmd ≡ ethtool_slinksettings)
    × (e.req.link_mode_masks_nwords ≡ pos n)
    × IsAsked w u.base e.req
    × ((i : ℕ) → i < n → e.link_mode_data i ≡ u.supported i)
    × ((j : ℕ)
        → j < 32 * n
        → bit_of (skip_words n e.link_mode_data) j
          ≡ advertised w.full (mode_for w.speed w.duplex) (is_enable w.autoneg) u.supported
              u.advertising j)
    × ((i : ℕ) → i < n → e.link_mode_data (n + n + i) ≡ u.lp_advertising i)

-- What becomes of the part of the command for the link.
unfoldable pub LinkEnds : Wanted → Usettings → Part LinkRequest → Type 0
LinkEnds w u link =
    ((w.gset_changed ≡ false) × (link ≡ not_asked))
    ⊎ (((w.gset_changed ≡ true) × (w.xcvr ≡ pos 1) × (link ≡ refused))
        ⊎ ((w.gset_changed ≡ true)
            × (w.xcvr ≢ pos 1)
            × (n : ℕ) × (e : Ecmd) × (link ≡ sent (slinksettings e))
            × Says w u n e))

changed-Says :
    (stack : ℕ → ℕ) (w : Wanted) (u : Usettings) (n : ℕ)
    → IsTyped w
    → u.base.link_mode_masks_nwords ≡ pos n
    → Says w u n (ecmd_of stack (change_settings w u) n)
unfolding Says change_settings
changed-Says stack w u n t words =
    let asked = changed-IsAsked w u t in
    let new : Usettings = change_settings w u in
    (
      refl,
      words,
      record {
        speed = asked.speed;
        duplex = asked.duplex;
        port = asked.port;
        mdix = asked.mdix;
        autoneg = asked.autoneg;
        phyad = asked.phyad;
        mdio_support = refl;
        eth_tp_mdix = refl;
      },
      λ i l. sent_supported stack new n i l,
      λ j l.
          ap (λ (x : ℕ). bit x (j % 32)) (sent_advertising stack new n (j / 32) (omega arith))
          ∙ set_advertising-advertised w.full w.speed w.duplex (is_enable w.autoneg) u.supported
              u.advertising j,
      λ i l. sent_lp_advertising stack new n i l,
    )

-- The transceiver, which is 0 before.
external :
    (z : ℤ) → UpTo 1 z → ((z ≡ pos 1) × (or_old 8 z 0 ≡ 1)) ⊎ ((z ≢ pos 1) × (or_old 8 z 0 ≡ 0))
external (pos zero) h = inr (λ e. cc, refl)
external (pos (suc zero)) h = inl (refl, refl)
external (pos (suc (suc n))) h = absurd (omega arith)
external (negsuc zero) h = inr (λ e. cc, refl)
external (negsuc (suc n)) h = absurd (omega arith)

module _ (stack : ℕ → ℕ) (w : Wanted) (u : Usettings) (n : ℕ) where
  sends :
      u.base.cmd ≡ ethtool_glinksettings
      → u.transceiver ≡ 0
      → words_of u.base.link_mode_masks_nwords ≡ some n
      → or_old 8 w.xcvr 0 ≡ 0
      → send_settings stack (change_settings w u)
        ≡ sent (slinksettings (ecmd_of stack (change_settings w u) n))
  unfolding send_settings do_ioctl_slinksettings change_settings
  sends cmd old words new =
      let is_cmd : (u.base.cmd == ethtool_glinksettings) ≡ true = (==_iff _ _).1 cmd in
      rw (is_cmd, words, old, new) refl

  refuses :
      u.base.cmd ≡ ethtool_glinksettings
      → u.transceiver ≡ 0
      → or_old 8 w.xcvr 0 ≡ 1
      → send_settings stack (change_settings w u) ≡ refused
  unfolding send_settings do_ioctl_slinksettings change_settings
  refuses cmd old new =
      let is_cmd : (u.base.cmd == ethtool_glinksettings) ≡ true = (==_iff _ _).1 cmd in
      rw (is_cmd, old, new) refl

pub unasked :
    (stack : ℕ → ℕ) (d : Device) (w : Wanted)
    → w.gset_changed ≡ false
    → set_link stack d w ≡ not_asked
unfolding set_link
unasked stack d w h = rw h refl

pub asked_of :
    (stack : ℕ → ℕ) (d : Device) (w : Wanted) {u : Usettings}
    → w.gset_changed ≡ true
    → current_settings d ≡ some u
    → set_link stack d w ≡ send_settings stack (change_settings w u)
unfolding set_link change_or_unread
asked_of stack d w {u} h e =
    ap (λ b. if b then change_or_unread stack w (current_settings d) else not_asked) h
    ∙ ap (change_or_unread stack w) e

current_new :
    (d : Device) {u : Usettings}
    → do_ioctl_glinksettings d.glinksettings ≡ some u
    → current_settings d ≡ some u
unfolding current_settings
current_new d h = ap (or_gset d) h

pub new_ends :
    (stack : ℕ → ℕ) (d : Device) (w : Wanted) {u : Usettings}
    → IsTyped w
    → do_ioctl_glinksettings d.glinksettings ≡ some u
    → LinkEnds w u (set_link stack d w)
unfolding Reply LinkEnds
new_ends stack d w {u} t h =
    let (hello, reply, n, _, _, _, cmd, words, same) = glinksettings-Reply d.glinksettings h in
    let is_cmd : u.base.cmd ≡ ethtool_glinksettings =
      ap (λ (v : Usettings). v.base.cmd) same ∙ cmd in
    let old : u.transceiver ≡ 0 = ap (λ (v : Usettings). v.transceiver) same in
    let nwords : words_of u.base.link_mode_masks_nwords ≡ some n =
      ap (λ (v : Usettings). words_of v.base.link_mode_masks_nwords) same ∙ words in
    elim (Bool-cases w.gset_changed) [
      | inr no_link ↦ inl (no_link, unasked stack d w no_link)
      | inl asked ↦
          let known = asked_of stack d w asked (current_new d h) in
          elim (external w.xcvr t.xcvr) [
            | inl (is_external, one) ↦
                inr (inl (asked, is_external, known ∙ refuses stack w u n is_cmd old one))
            | inr (other, none_set) ↦ inr (
                inr (
                  asked,
                  other,
                  n,
                  ecmd_of stack (change_settings w u) n,
                  known ∙ sends stack w u n is_cmd old nwords none_set,
                  changed-Says stack w u n t (words_of-pos _ nwords),
                ))
          ]
    ]

-- If the options of do_sset are accepted and the kernel answers to ETHTOOL_GLINKSETTINGS: without
-- an option for the link nothing is sent for it. With `xcvr external` the request is refused, and
-- nothing is sent either. Otherwise one ETHTOOL_SLINKSETTINGS is sent, whose fields are the
-- device's own or, where an option asks for one, as asked; the bitmaps of supported modes and of the
-- partner's modes are the device's own, and each advertised mode is as set_advertising describes.
pub do_sset-Says :
    (aton : List ℕ → Option ℕ) (stack : ℕ → ℕ) (d : Device) (argp : List (List ℕ)) {u : Usettings}
    {r : Outcome}
    → do_sset aton stack d argp ≡ some r
    → do_ioctl_glinksettings d.glinksettings ≡ some u
    → (w : Wanted) × (read_options aton argp nothing_wanted ≡ some w) × LinkEnds w u r.link
unfolding do_sset
do_sset-Says aton stack d argp {u} h got =
    let (w, read, e) = >>=-some (read_options aton argp nothing_wanted) _ h in
    (
      w,
      read,
      subst (LinkEnds w u) (ap (λ (o : Outcome). o.link) (some_eq e))
          (new_ends stack d w (read_options-IsTyped aton argp read) got),
    )
