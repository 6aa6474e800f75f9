-- ===== src/Link/Sset/Progress.antt =====
-- do_sset and a kernel that keeps the handshake of ETHTOOL_GLINKSETTINGS.
use ethtool.Base.{
  ℕ, zero, suc, ◌+◌, ◌-◌, ◌≤◌, ◌≡◌, ◌≢◌, inl, inr, refl, sym, ap, ◌∙◌, true, false, ◌&&◌, Option,
  none, some, List, ◌==◌, if◌then◌else◌, arith, ==_iff, ==_false,
}
use ethtool.Base.Int.{pos, negsuc, is_neg}
use ethtool.Base.Maybe.{◌>>=◌}
use ethtool.Link.{
  Ecmd, Usettings, ethtool_glinksettings, first_ecmd, second_ecmd, negate8, words_of, usettings_of,
  answered, ask_again, is_handshake, do_ioctl_glinksettings,
}
use ethtool.Link.Options.{Wanted, nothing_wanted, read_options}
use ethtool.Link.Sset.{Device, Outcome, sent, slinksettings, do_sset, set_link, set_wol, set_msglvl}
use ethtool.Link.Sset.Sends.{LinkEnds, new_ends}
use ethtool.Link.Options.Typed.{read_options-IsTyped}

-- The kernel keeps n words: to any other number it answers with -n, to n with the settings.
pub record Keeps (send : Ecmd → Option Ecmd) (n : ℕ) : Type 0 where
  pub positive : suc zero ≤ n
  pub bounded : n ≤ 127
  pub hello :
      (e : Ecmd)
      → e.req.link_mode_masks_nwords ≢ pos n
      → (r : Ecmd) × (send e ≡ some r)
        × (r.req.cmd ≡ ethtool_glinksettings)
        × (r.req.link_mode_masks_nwords ≡ negsuc (n - 1))
  pub grants :
      (e : Ecmd)
      → e.req.link_mode_masks_nwords ≡ pos n
      → (r : Ecmd) × (send e ≡ some r)
        × (r.req.cmd ≡ ethtool_glinksettings)
        × (r.req.link_mode_masks_nwords ≡ pos n)

pos_apart : (n : ℕ) → suc zero ≤ n → pos 0 ≢ pos n
pos_apart zero h e = omega arith
pos_apart (suc n) h e = cc

negated : (n : ℕ) → suc zero ≤ n → n ≤ 127 → negate8 (negsuc (n - 1)) ≡ pos n
negated n h h' =
    let small : (n - 1 == 127) ≡ false = ==_false (n - 1) 127 (λ e. omega arith) in
    let back : n - 1 + 1 ≡ n = omega arith in rw small (ap pos back)

module _ (send : Ecmd → Option Ecmd) (n : ℕ) (many : suc zero ≤ n) where
  granted :
      (r : Ecmd)
      → r.req.cmd ≡ ethtool_glinksettings
      → r.req.link_mode_masks_nwords ≡ pos n
      → answered send r ≡ some (usettings_of r n)
  unfolding answered
  granted r cmd words =
      let is_cmd : (r.req.cmd == ethtool_glinksettings) ≡ true = (==_iff _ _).1 cmd in
      let some_words : (n == 0) ≡ false = ==_false n 0 (λ e. omega arith) in
      let found : words_of r.req.link_mode_masks_nwords ≡ some n =
        ap words_of words ∙ ap (λ b. if b then none else some n) some_words in
      rw (is_cmd, found) refl

  greeted :
      (h : Ecmd)
      → h.req.cmd ≡ ethtool_glinksettings
      → h.req.link_mode_masks_nwords ≡ negsuc (n - 1)
      → ask_again send h ≡ (send (second_ecmd h) >>= λ e. answered send e)
  unfolding ask_again
  greeted h cmd words =
      let is_cmd : (h.req.cmd == ethtool_glinksettings) ≡ true = (==_iff _ _).1 cmd in
      let shakes : is_handshake h.req ≡ true =
        ap (λ z. is_neg z && h.req.cmd == ethtool_glinksettings) words ∙ is_cmd in
      ap (λ b. if b then (send (second_ecmd h) >>= λ e. answered send e) else none) shakes

reads_settings :
    (send : Ecmd → Option Ecmd) (n : ℕ)
    → Keeps send n
    → (u : Usettings) × (do_ioctl_glinksettings send ≡ some u)
unfolding do_ioctl_glinksettings
reads_settings send n k =
    let (h, sent_first, cmd, words) = k.hello first_ecmd (pos_apart n k.positive) in
    let (r, sent_second, cmd', words') =
      k.grants (second_ecmd h) (ap negate8 words ∙ negated n k.positive k.bounded) in
    (
      usettings_of r n,
      ap (λ o. o >>= λ e. ask_again send e) sent_first
          ∙ greeted send n k.positive h cmd words
          ∙ ap (λ o. o >>= λ e. answered send e) sent_second
          ∙ granted send n k.positive r cmd' words',
    )

-- With a kernel that keeps the handshake for n words, 1 to 127, every command whose options are
-- accepted, that asks for a change of the link settings and not for the external transceiver, ends
-- with one ETHTOOL_SLINKSETTINGS sent.
pub do_sset_sends :
    (aton : List ℕ → Option ℕ) (stack : ℕ → ℕ) (d : Device) (argp : List (List ℕ)) (n : ℕ)
    (w : Wanted)
    → Keeps d.glinksettings n
    → read_options aton argp nothing_wanted ≡ some w
    → w.gset_changed ≡ true
    → w.xcvr ≢ pos 1
    → (r : Outcome) × (e : Ecmd) × (do_sset aton stack d argp ≡ some r)
      × (r.link ≡ sent (slinksettings e))
unfolding do_sset LinkEnds
do_sset_sends aton stack d argp n w k read asked internal =
    let (u, got) = reads_settings d.glinksettings n k in
    let r : Outcome = record {
      link = set_link stack d w;
      wol = set_wol d w;
      msglvl = set_msglvl d w;
      status = 0;
    } in
    let ends : do_sset aton stack d argp ≡ some r = rw read refl in
    elim (new_ends stack d w (read_options-IsTyped aton argp read) got) [
      | inl (none_asked, _) ↦ let t = sym asked ∙ none_asked in absurd (cc)
      | inr (inl (_, is_external, _)) ↦ absurd (internal is_external)
      | inr (inr (_, _, m, e, link, _)) ↦ (r, e, ends, link)
    ]
