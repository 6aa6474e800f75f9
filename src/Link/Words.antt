-- ===== src/Link/Words.antt =====
-- The words of the three bitmaps in a request.
use ethtool.Base.{
  ℕ, ◌+◌, ◌-◌, ◌≤◌, ◌<◌, ◌≡◌, ◌⊎◌, inl, refl, ap, ◌∙◌, true, false, ◌&&◌, Option, some, ◌==◌, leb,
  ltb, arith, if_elim,
}
use ethtool.Base.Int.{ℤ, pos, negsuc}
use ethtool.Base.Maybe.{some_eq, none_absurd}
use ethtool.Link.{Ecmd, Usettings, copy_words, skip_words, ecmd_of, usettings_of, words_of}
use ethtool.LinkMode.{link_mode_zero}

inside : (offs n i : ℕ) → offs ≤ i → i < offs + n → (leb offs i && ltb i (offs + n)) ≡ true
inside offs n i h h' = ground arith

outside : (offs n i : ℕ) → (i < offs) ⊎ (offs + n ≤ i) → (leb offs i && ltb i (offs + n)) ≡ false
outside offs n i h = ground arith

pub copied :
    (dst src : ℕ → ℕ) (offs n i j : ℕ) → i ≡ offs + j → j < n → copy_words dst offs src n i ≡ src j
copied dst src offs n i j e h =
    let at : i - offs ≡ j = omega arith in
    rw (inside offs n i (omega arith) (omega arith)) (ap src at)

pub kept :
    (dst src : ℕ → ℕ) (offs n i : ℕ)
    → (i < offs) ⊎ (offs + n ≤ i)
    → copy_words dst offs src n i ≡ dst i
kept dst src offs n i h = rw (outside offs n i h)

module _ (stack : ℕ → ℕ) (u : Usettings) (n i : ℕ) (h : i < n) where
  pub sent_supported : (ecmd_of stack u n).link_mode_data i ≡ u.supported i
  sent_supported =
      kept (copy_words (copy_words stack 0 u.supported n) n u.advertising n) u.lp_advertising
        (n + n) n i (inl (omega arith))
      ∙ kept (copy_words stack 0 u.supported n) u.advertising n n i (inl h)
      ∙ copied stack u.supported 0 n i i (omega arith) h

  pub sent_advertising : (ecmd_of stack u n).link_mode_data (n + i) ≡ u.advertising i
  sent_advertising =
      kept (copy_words (copy_words stack 0 u.supported n) n u.advertising n) u.lp_advertising
        (n + n) n (n + i) (inl (omega arith))
      ∙ copied (copy_words stack 0 u.supported n) u.advertising n n (n + i) i refl h

  pub sent_lp_advertising : (ecmd_of stack u n).link_mode_data (n + n + i) ≡ u.lp_advertising i
  sent_lp_advertising =
      copied (copy_words (copy_words stack 0 u.supported n) n u.advertising n) u.lp_advertising
        (n + n) n (n + n + i) i refl h

module _ (e : Ecmd) (n i : ℕ) (h : i < n) where
  pub read_supported : (usettings_of e n).supported i ≡ e.link_mode_data i
  read_supported = copied link_mode_zero e.link_mode_data 0 n i i (omega arith) h

  pub read_advertising : (usettings_of e n).advertising i ≡ e.link_mode_data (n + i)
  read_advertising = copied link_mode_zero (skip_words n e.link_mode_data) 0 n i i (omega arith) h

  pub read_lp_advertising : (usettings_of e n).lp_advertising i ≡ e.link_mode_data (n + n + i)
  read_lp_advertising =
      copied link_mode_zero (skip_words (n + n) e.link_mode_data) 0 n i i (omega arith) h

pub words_of-pos : (z : ℤ) {n : ℕ} → words_of z ≡ some n → z ≡ pos n
words_of-pos (pos m) {n} h =
    if_elim (λ (o : Option ℕ). o ≡ some n → pos m ≡ pos n) (m == 0) (λ e h'. none_absurd h')
      (λ e h'. ap pos (some_eq h')) h
words_of-pos (negsuc m) h = none_absurd h
