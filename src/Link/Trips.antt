-- ===== src/Link/Trips.antt =====
-- Settings that are read and written back.
use ethtool.Base.{
  ℕ, zero, suc, ◌+◌, ◌-◌, ◌*◌, ◌/◌, ◌%◌, ◌^◌, ◌<◌, ◌≡◌, inl, inr, refl, sym, subst, ap, ap₂, ◌∙◌,
  bit_or, max, Bool, true, false, Option, none, some, ◌==◌, ltb, if◌then◌else◌, arith, Bool-cases,
  ==_iff,
}
use ethtool.Base.Bits.{bit_or_zero, bit_or_low, all_below}
use ethtool.Base.Int.{pos}
use ethtool.Base.Maybe.{◌>>=◌, >>=-some, some_eq, none_absurd}
use ethtool.Link.{
  Usettings, Ecmd, OldCmd, ethtool_glinksettings, ethtool_slinksettings, ethtool_sset, first_ecmd,
  second_ecmd, is_handshake, usettings_of, ecmd_of, words_of, answered, ask_again,
  do_ioctl_glinksettings, do_ioctl_slinksettings, cmd_speed, usettings_of_gset, do_ioctl_gset,
  link_mode_is_backward_compatible, do_ioctl_sset,
}
use ethtool.Link.Words.{
  sent_supported, sent_advertising, sent_lp_advertising, read_supported, read_advertising,
  read_lp_advertising, words_of-pos,
}
use native.Mathlib.Nat.{pow-suc}

-- A condition that let a result through.
pub held {ℓ} :
    {A : Type ℓ} (b : Bool) (o : Option A) {a : A}
    → (if b then o else none) ≡ some a
    → (b ≡ true) × (o ≡ some a)
held true o h = (refl, h)
held false o h = none_absurd h

-- What the kernel answered to the second request, and the number of the words.
unfoldable pub Reply : (Ecmd → Option Ecmd) → Usettings → Type 0
Reply send u =
    (hello : Ecmd) × (reply : Ecmd) × (n : ℕ) × (send first_ecmd ≡ some hello)
    × (is_handshake hello.req ≡ true)
    × (send (second_ecmd hello) ≡ some reply)
    × (reply.req.cmd ≡ ethtool_glinksettings)
    × (words_of reply.req.link_mode_masks_nwords ≡ some n)
    × (u ≡ usettings_of reply n)

pub glinksettings-Reply :
    (send : Ecmd → Option Ecmd) {u : Usettings}
    → do_ioctl_glinksettings send ≡ some u
    → Reply send u
unfolding do_ioctl_glinksettings ask_again answered Reply
glinksettings-Reply send h =
    let (hello, first, again) = >>=-some (send first_ecmd) (λ e. ask_again send e) h in
    let (hand, second) = held (is_handshake hello.req) _ again in
    let (reply, got, read) = >>=-some (send (second_ecmd hello)) (λ e. answered send e) second in
    let (cmd, rest) = held (reply.req.cmd == ethtool_glinksettings) _ read in
    let (n, words, e) =
      >>=-some (words_of reply.req.link_mode_masks_nwords) (λ n. some (usettings_of reply n))
        rest in
    (hello, reply, n, first, hand, got, (==_iff _ _).0 cmd, words, sym (some_eq e))

-- The three ranges of a request's words.
three :
    (a b : ℕ → ℕ) (n i : ℕ)
    → ((j : ℕ) → j < n → a j ≡ b j)
    → ((j : ℕ) → j < n → a (n + j) ≡ b (n + j))
    → ((j : ℕ) → j < n → a (n + n + j) ≡ b (n + n + j))
    → i < n + n + n
    → a i ≡ b i
three a b n i p q r h = elim (Bool-cases (ltb i n)) [
  | inl low ↦ p i (ground arith)
  | inr above ↦ elim (Bool-cases (ltb i (n + n))) [
    | inl middle ↦
        let at : n + (i - n) ≡ i = ground arith in
        subst (λ k. a k ≡ b k) at (q (i - n) (ground arith))
    | inr high ↦
        let at : n + n + (i - (n + n)) ≡ i = ground arith in
        subst (λ k. a k ≡ b k) at (r (i - (n + n)) (ground arith))
  ]
]

-- Settings that do_ioctl_glinksettings reads, and that are not changed, are what
-- do_ioctl_slinksettings writes: it does not refuse, and its request is the kernel's answer but for
-- the number of the command, in each field and in each word of the three bitmaps.
pub do_ioctl_slinksettings-do_ioctl_glinksettings :
    (send : Ecmd → Option Ecmd) (stack : ℕ → ℕ) {u : Usettings}
    → do_ioctl_glinksettings send ≡ some u
    → (hello : Ecmd) × (reply : Ecmd) × (n : ℕ) × (e : Ecmd) × (send first_ecmd ≡ some hello)
      × (send (second_ecmd hello) ≡ some reply)
      × (reply.req.link_mode_masks_nwords ≡ pos n)
      × (do_ioctl_slinksettings stack u ≡ some e)
      × (e.req ≡ record reply.req { cmd = ethtool_slinksettings })
      × ((i : ℕ) → i < n + n + n → e.link_mode_data i ≡ reply.link_mode_data i)
unfolding do_ioctl_slinksettings Reply
do_ioctl_slinksettings-do_ioctl_glinksettings send stack h =
    let (hello, reply, n, first, hand, got, cmd, words, same) = glinksettings-Reply send h in
    let r : Usettings = usettings_of reply n in
    let is_cmd : (reply.req.cmd == ethtool_glinksettings) ≡ true = (==_iff _ _).1 cmd in
    let written : do_ioctl_slinksettings stack r ≡ some (ecmd_of stack r n) = rw (is_cmd, words) in
    (
      hello,
      reply,
      n,
      ecmd_of stack r n,
      first,
      got,
      words_of-pos _ words,
      ap (do_ioctl_slinksettings stack) same ∙ written,
      refl,
      λ i l.
          three (ecmd_of stack r n).link_mode_data reply.link_mode_data n i
            (λ j k. sent_supported stack r n j k ∙ read_supported reply n j k)
            (λ j k. sent_advertising stack r n j k ∙ read_advertising reply n j k)
            (λ j k. sent_lp_advertising stack r n j k ∙ read_lp_advertising reply n j k) l,
    )

-- `(hi << k) | lo`
pub bit_or-shifted : (k hi lo : ℕ) → lo < 2 ^ k → bit_or (hi * 2 ^ k) lo ≡ hi * 2 ^ k + lo
bit_or-shifted zero hi lo h =
    let none_low : lo ≡ 0 = omega arith in
    rw none_low (bit_or_zero (hi * 2 ^ 0) (hi * 2 ^ 0) (omega arith) ∙ omega arith)
bit_or-shifted (suc k) hi lo h =
    let p : 2 ^ suc k ≡ 2 ^ k * 2 = pow-suc 2 k in
    let double : hi * 2 ^ suc k ≡ 2 * (hi * 2 ^ k) = ap (λ (t : ℕ). hi * t) p ∙ omega arith in
    let half : hi * 2 ^ suc k / 2 ≡ hi * 2 ^ k = omega arith in
    let ih : bit_or (hi * 2 ^ k) (lo / 2) ≡ hi * 2 ^ k + lo / 2 =
      bit_or-shifted k hi (lo / 2) (omega arith) in
    let low = bit_or_low (hi * 2 ^ suc k) lo in
    let low' : bit_or (hi * 2 ^ suc k) lo
        ≡ bit_or (hi * 2 ^ k) (lo / 2) * 2 + max (hi * 2 ^ suc k % 2) (lo % 2) =
      low ∙ ap (λ (t : ℕ). bit_or t (lo / 2) * 2 + max (hi * 2 ^ suc k % 2) (lo % 2)) half in
    omega (arith, low', ih, double)

pub split_speed : (n : ℕ) → n < 2 ^ 32 → n / 2 ^ 16 % 2 ^ 16 ≡ n / 2 ^ 16
split_speed n h = omega arith

-- The answer to ETHTOOL_GSET that is not changed is what do_ioctl_sset writes: it does not refuse,
-- and its request is the answer but for the number of the command and the two counts of packets,
-- which are 0. The two halves of the speed have 16 bits each.
pub do_ioctl_sset-do_ioctl_gset :
    (ecmd : OldCmd)
    → ecmd.speed < 2 ^ 16
    → ecmd.speed_hi < 2 ^ 16
    → (do_ioctl_gset (some ecmd) >>= λ u. do_ioctl_sset u)
      ≡ some (record ecmd { cmd = ethtool_sset; maxtxpkt = 0; maxrxpkt = 0 })
unfolding do_ioctl_sset do_ioctl_gset usettings_of_gset link_mode_is_backward_compatible all_below
do_ioctl_sset-do_ioctl_gset ecmd lo hi =
    let whole : cmd_speed ecmd ≡ ecmd.speed_hi * 2 ^ 16 + ecmd.speed =
      bit_or-shifted 16 ecmd.speed_hi ecmd.speed lo in
    let low : cmd_speed ecmd % 2 ^ 16 ≡ ecmd.speed = omega (arith, whole) in
    let high : cmd_speed ecmd / 2 ^ 16 % 2 ^ 16 ≡ ecmd.speed_hi = omega (arith, whole) in
    ap₂
      (λ (a b : ℕ).
        some
          (record ecmd { cmd = ethtool_sset; maxtxpkt = 0; maxrxpkt = 0; speed = a; speed_hi = b }))
      low high
