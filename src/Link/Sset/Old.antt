-- ===== src/Link/Sset/Old.antt =====
-- do_sset: the settings that it sends for the link, where the kernel only answers to ETHTOOL_GSET.
use ethtool.Base.{
  ℕ, ◌+◌, ◌-◌, ◌*◌, ◌/◌, ◌%◌, ◌^◌, ◌<◌, ◌≡◌, ◌≢◌, ◌⊎◌, inl, inr, refl, sym, subst, ap, ap₂, ◌∙◌,
  bit_or, Bool, true, false, not, Option, none, some, List, if◌then◌else◌, arith, Bool-cases,
  if_elim,
}
use ethtool.Base.Bits.{bit}
use ethtool.Base.Int.{ℤ}
use ethtool.Base.Maybe.{◌>>=◌, >>=-some, some_eq}
use ethtool.Link.{
  Usettings, OldCmd, ethtool_sset, cmd_speed, one_word, usettings_of_gset, do_ioctl_glinksettings,
  do_ioctl_gset, do_ioctl_sset, old_cmd_of, link_mode_is_backward_compatible,
}
use ethtool.Link.Options.{Wanted, nothing_wanted, read_options}
use ethtool.Link.Sset.{
  is_enable, or_old, change_settings, Part, not_asked, refused, sent, is_given, LinkRequest, sset,
  Device, Outcome, or_gset, current_settings, send_settings, set_link, or_refused, do_sset,
}
use ethtool.Link.Sset.Above.{Compatible-of, compatible_cases, one_word_above, advertised_above}
use ethtool.Link.Sset.Sends.{Follows, IsAsked, changed-IsAsked, Holds, holds, unasked, asked_of}
use ethtool.Link.Options.Typed.{IsTyped, read_options-IsTyped}
use ethtool.Link.Trips.{bit_or-shifted}
use ethtool.LinkMode.{Mask, max_kernel_nu32, mode_for, set_advertising}
use ethtool.LinkMode.Advertise.{mode_for-IsMode, advertised, set_advertising-advertised}

-- The request says the settings of the answer with what the options ask for.
unfoldable pub SaysOld : Wanted → OldCmd → OldCmd → Type 0
SaysOld w c e =
    (e.cmd ≡ ethtool_sset)
    × IsAsked w (usettings_of_gset c).base (usettings_of_gset e).base
    × Holds w.xcvr c.transceiver e.transceiver
    × (e.supported ≡ c.supported)
    × ((j : ℕ)
        → j < 32
        → bit e.advertising j
          ≡ advertised w.full (mode_for w.speed w.duplex) (is_enable w.autoneg)
              (one_word c.supported) (one_word c.advertising) j)
    × (e.lp_advertising ≡ c.lp_advertising)

-- What becomes of the part of the command for the link.
unfoldable pub OldEnds : Wanted → OldCmd → Part LinkRequest → Type 0
OldEnds w c link =
    ((w.gset_changed ≡ false) × (link ≡ not_asked))
    ⊎ (((w.gset_changed ≡ true)
          × (link ≡ refused)
          × (mask : Mask) × (i : ℕ) × (w.full ≡ some mask)
          × (i < max_kernel_nu32 - 1)
          × (mask (i + 1) ≢ 0))
        ⊎ ((w.gset_changed ≡ true) × (e : OldCmd) × (link ≡ sent (sset e)) × SaysOld w c e))

speed_of : (n : ℕ) → n < 2 ^ 32 → bit_or (n / 2 ^ 16 % 2 ^ 16 * 2 ^ 16) (n % 2 ^ 16) ≡ n
speed_of n h = bit_or-shifted 16 (n / 2 ^ 16 % 2 ^ 16) (n % 2 ^ 16) (omega arith) ∙ omega arith

or_old-lt : (z : ℤ) (old : ℕ) → old < 2 ^ 32 → or_old 32 z old < 2 ^ 32
or_old-lt z old h = if_elim (λ n. n < 2 ^ 32) (is_given z) (λ _. omega arith) (λ _. h)

three_tests :
    (a b c : Bool) (x : OldCmd)
    → a ≡ true
    → c ≡ true
    → or_refused (
        (if not a then none else if not b then none else if not c then none else some x) >>= λ e.
        some (sset e))
      ≡ (if b then sent (sset x) else refused)
three_tests true true true x h k = refl
three_tests true false true x h k = refl
three_tests true b false x h k = absurd (cc)
three_tests false b c x h k = absurd (cc)

module _ (w : Wanted) (c : OldCmd) (t : IsTyped w) (lo : c.speed < 2 ^ 16)
    (hi : c.speed_hi < 2 ^ 16) where
  new_says : SaysOld w c (old_cmd_of (change_settings w (usettings_of_gset c)))
  unfolding SaysOld change_settings usettings_of_gset
  new_says =
      let new_adv : Mask =
        set_advertising w.full (mode_for w.speed w.duplex) (is_enable w.autoneg)
          (one_word c.supported) (one_word c.advertising) in
      let u : Usettings = usettings_of_gset c in
      let asked = changed-IsAsked w u t in
      let whole : cmd_speed c ≡ c.speed_hi * 2 ^ 16 + c.speed =
        bit_or-shifted 16 c.speed_hi c.speed lo in
      let small : or_old 32 w.speed (cmd_speed c) < 2 ^ 32 =
        or_old-lt w.speed (cmd_speed c) (omega (arith, whole)) in
      (
        refl,
        record {
          speed = subst (Follows 32 w.speed (cmd_speed c)) (sym (speed_of _ small)) asked.speed;
          duplex = asked.duplex;
          port = asked.port;
          mdix = asked.mdix;
          autoneg = asked.autoneg;
          phyad = asked.phyad;
          mdio_support = refl;
          eth_tp_mdix = refl;
        },
        holds 1 w.xcvr c.transceiver t.xcvr (omega arith),
        refl,
        λ j l.
            let block : 0 ≡ j / 32 = omega arith in
            let place : j ≡ j % 32 = omega arith in
            ap₂ (λ (b k : ℕ). bit (new_adv b) k) block place
            ∙ set_advertising-advertised w.full w.speed w.duplex (is_enable w.autoneg)
                (one_word c.supported) (one_word c.advertising) j,
        refl,
      )

  one_word-Compatible : (x : ℕ) → link_mode_is_backward_compatible (one_word x) ≡ true
  one_word-Compatible x = Compatible-of (one_word x) (λ i l. one_word_above x i)

  -- The advertised modes decide.
  by_modes :
      (stack : ℕ → ℕ)
      → send_settings stack (change_settings w (usettings_of_gset c)) ≡ (
          if link_mode_is_backward_compatible (
            set_advertising w.full
              (mode_for w.speed w.duplex)
              (is_enable w.autoneg)
              (one_word c.supported)
              (one_word c.advertising))
          then sent (sset (old_cmd_of (change_settings w (usettings_of_gset c))))
          else refused)
  unfolding send_settings do_ioctl_sset change_settings usettings_of_gset
  by_modes stack =
      let m : Mask =
        set_advertising w.full (mode_for w.speed w.duplex) (is_enable w.autoneg)
          (one_word c.supported) (one_word c.advertising) in
      three_tests (link_mode_is_backward_compatible (one_word c.supported))
        (link_mode_is_backward_compatible m)
        (link_mode_is_backward_compatible (one_word c.lp_advertising))
        (old_cmd_of (change_settings w (usettings_of_gset c))) (one_word-Compatible c.supported)
        (one_word-Compatible c.lp_advertising)

  old_ends :
      (stack : ℕ → ℕ) (d : Device) (full : Option Mask)
      → w.full ≡ full
      → current_settings d ≡ some (usettings_of_gset c)
      → OldEnds w c (set_link stack d w)
  unfolding OldEnds set_advertising
  old_ends stack d none given known = elim (Bool-cases w.gset_changed) [
    | inr no_link ↦ inl (no_link, unasked stack d w no_link)
    | inl asked ↦
        let fine : link_mode_is_backward_compatible (
              set_advertising w.full (mode_for w.speed w.duplex) (is_enable w.autoneg)
                (one_word c.supported) (one_word c.advertising))
            ≡ true =
          ap
            (λ (f : Option Mask). link_mode_is_backward_compatible (
              set_advertising f (mode_for w.speed w.duplex) (is_enable w.autoneg)
                (one_word c.supported) (one_word c.advertising)))
            given
          ∙ Compatible-of _ (λ i l.
            advertised_above (mode_for w.speed w.duplex) (is_enable w.autoneg) c.supported
              c.advertising i (mode_for-IsMode w.speed w.duplex)) in
        inr (
          inr (
            asked,
            old_cmd_of (change_settings w (usettings_of_gset c)),
            asked_of stack d w asked known
                ∙ by_modes stack
                ∙ ap
                    (λ b.
                      if b
                      then sent (sset (old_cmd_of (change_settings w (usettings_of_gset c))))
                      else refused)
                    fine,
            new_says,
          ))
  ]
  old_ends stack d (some mask) given known = elim (Bool-cases w.gset_changed) [
    | inr no_link ↦ inl (no_link, unasked stack d w no_link)
    | inl asked ↦
        let same : link_mode_is_backward_compatible (
              set_advertising w.full (mode_for w.speed w.duplex) (is_enable w.autoneg)
                (one_word c.supported) (one_word c.advertising))
            ≡ link_mode_is_backward_compatible mask =
          ap
            (λ (f : Option Mask). link_mode_is_backward_compatible (
              set_advertising f (mode_for w.speed w.duplex) (is_enable w.autoneg)
                (one_word c.supported) (one_word c.advertising)))
            given in
        let ends : (b : Bool)
            → link_mode_is_backward_compatible mask ≡ b
            → set_link stack d w ≡ (
                if b
                then sent (sset (old_cmd_of (change_settings w (usettings_of_gset c))))
                else refused) =
          λ b e.
            asked_of stack d w asked known
            ∙ by_modes stack
            ∙ ap
                (λ b.
                  if b
                  then sent (sset (old_cmd_of (change_settings w (usettings_of_gset c))))
                  else refused)
                (same ∙ e) in
        elim (compatible_cases mask) [
          | inl fine ↦ inr (
              inr (
                asked,
                old_cmd_of (change_settings w (usettings_of_gset c)),
                ends true fine,
                new_says,
              ))
          | inr (bad, i, l, word) ↦ inr (inl (asked, ends false bad, mask, i, given, l, word))
        ]
  ]

-- If the options of do_sset are accepted and the kernel answers to ETHTOOL_GSET, but not to
-- ETHTOOL_GLINKSETTINGS: without an option for the link nothing is sent for it. If the request is
-- refused, a mask was given with `advertise` that has a mode above 31. Otherwise one ETHTOOL_SSET is
-- sent: its speed, port and so on are the device's own or, where an option asks for one, as asked,
-- the transceiver too, and each advertised mode is as set_advertising describes.
pub do_sset-SaysOld :
    (aton : List ℕ → Option ℕ) (stack : ℕ → ℕ) (d : Device) (argp : List (List ℕ)) (c : OldCmd)
    {r : Outcome}
    → c.speed < 2 ^ 16
    → c.speed_hi < 2 ^ 16
    → do_ioctl_glinksettings d.glinksettings ≡ none
    → d.gset ≡ some c
    → do_sset aton stack d argp ≡ some r
    → (w : Wanted) × (read_options aton argp nothing_wanted ≡ some w) × OldEnds w c r.link
unfolding do_sset current_settings do_ioctl_gset
do_sset-SaysOld aton stack d argp c {r} lo hi no_new old h =
    let (w, read, e) = >>=-some (read_options aton argp nothing_wanted) _ h in
    let known : current_settings d ≡ some (usettings_of_gset c) =
      ap (or_gset d) no_new ∙ ap do_ioctl_gset old in
    (
      w,
      read,
      subst (OldEnds w c) (ap (λ (o : Outcome). o.link) (some_eq e))
          (old_ends w c (read_options-IsTyped aton argp read) lo hi stack d w.full refl known),
    )
