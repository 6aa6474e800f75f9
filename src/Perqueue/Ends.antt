-- ===== src/Perqueue/Ends.antt =====
-- do_perqueue: how it ends.
use ethtool.Base.{
  ℕ, ◌+◌, ◌%◌, ◌^◌, ◌≤◌, min, max, ◌≡◌, ◌⊎◌, inl, inr, refl, sym, ap, ◌∙◌, subst, Option, none,
  some, List, [], ◌∷◌, leb, arith, if_elim, if_none, Option-cases, length, codes,
}
use ethtool.Base.Maybe.{>>=-some, some_eq, none_absurd}
use ethtool.Cmdline.{Store, Line, parse_generic_cmdline}
use ethtool.Clib.{str_eq, str_eq-eq}
use ethtool.LinkMode.{Mask, parse_hex_u32_bitmap}
use ethtool.Main.{find_option, entry_at, args}
use ethtool.Settings.{coalesce, start}
use ethtool.Perqueue.Count.{count_queues-mask_of_first}
use ethtool.Perqueue.{
  Queues, count_queues, queue_words, max_num_queue, Ended, sends, fault, QueueDevice,
  set_per_queue_coalesce, set_or_unread, show_or_unread, sub_command, run_sub_command,
  with_channels, with_all, with_mask, after_queue_mask, do_perqueue, strstr, all_queues, capped,
  find_max_num_queues, mask_of_first,
}
use ethtool.Perqueue.Merge.{map_queues, set_per_queue_all}

-- The queues and the options that the arguments give: the mask that stands behind queue_mask, with
-- the options behind the next word, or the first queues of as many as the device has, at most 4096,
-- with the options behind the first word.
abbrev pub Chosen : QueueDevice → List (List ℕ) → Queues → List (List ℕ) → Type 0
Chosen d argp q options =
    ((mask sub : List ℕ) × (argp ≡ codes "queue_mask" ∷ mask ∷ sub ∷ options)
      × (parse_hex_u32_bitmap mask max_num_queue ≡ some q.queue_mask))
    ⊎ ((sub : List ℕ) × (rx tx combined : ℕ) × (argp ≡ sub ∷ options)
        × (d.channels ≡ some (rx, tx, combined))
        × (q.n_queues ≡ min 4096 ((max rx tx + combined) % 2 ^ 32))
        × (q.queue_mask ≡ mask_of_first q.n_queues))

-- What a command on queues has done with its arguments: the settings that it sends are those that
-- were read for the mask of its queues and for as many, each merged with what the options ask for;
-- and it reads a pointer behind the last argument only after queue_mask with at most one argument
-- more.
unfoldable pub QueuesEnd :
    (List ℕ → Option ℕ) → Store → QueueDevice → List (List ℕ) → Ended → Type 0
QueuesEnd aton stack d argp (sends ecoal_q) =
    (q : Queues) × (es : List Store) × (options : List (List ℕ)) × (line : Line) × Chosen d argp q
      options
    × (count_queues queue_words 0 q.queue_mask ≡ q.n_queues)
    × (d.coalescing q.queue_mask q.n_queues ≡ some es)
    × (parse_generic_cmdline aton coalesce.table options (start coalesce stack) ≡ some line)
    × (ecoal_q ≡ map_queues line.store es)
QueuesEnd aton stack d argp fault =
    (rest : List (List ℕ)) × (argp ≡ codes "queue_mask" ∷ rest) × (length rest ≤ 1)
QueuesEnd aton stack d argp ended = Unit

module _ (aton : List ℕ → Option ℕ) (stack : Store) (d : QueueDevice) (argp : List (List ℕ))
    (all_read : (m : Mask) (n : ℕ) (es : List Store)
      → d.coalescing m n ≡ some es
      → length es ≡ n) where
  ends_set :
      (q : Queues) (options : List (List ℕ)) (es : List Store) {r : Ended}
      → Chosen d argp q options
      → count_queues queue_words 0 q.queue_mask ≡ q.n_queues
      → d.coalescing q.queue_mask q.n_queues ≡ some es
      → set_per_queue_coalesce aton stack d q options es ≡ some r
      → QueuesEnd aton stack d argp r
  unfolding set_per_queue_coalesce QueuesEnd
  ends_set q options es chosen counted read h =
      let (line, parsed, e) =
        >>=-some (parse_generic_cmdline aton coalesce.table options (start coalesce stack)) _ h in
      subst (QueuesEnd aton stack d argp)
        (sym (set_per_queue_all line.store es q counted (all_read q.queue_mask q.n_queues es read))
          ∙ some_eq e)
        (q, es, options, line, chosen, counted, read, parsed, refl)

  ends_read :
      (q : Queues) (options : List (List ℕ)) (o : Option (List Store)) {r : Ended}
      → Chosen d argp q options
      → count_queues queue_words 0 q.queue_mask ≡ q.n_queues
      → d.coalescing q.queue_mask q.n_queues ≡ o
      → set_or_unread aton stack d q options o ≡ some r
      → QueuesEnd aton stack d argp r
  unfolding set_or_unread QueuesEnd
  ends_read q options none chosen counted read h =
      subst (QueuesEnd aton stack d argp) (some_eq h) tt
  ends_read q options (some es) chosen counted read h = ends_set q options es chosen counted read h

  shows_end :
      (o : Option (List Store)) → QueuesEnd aton stack d argp (show_or_unread aton stack d o)
  unfolding QueuesEnd
  shows_end none = tt
  shows_end (some es) = tt

  ends_sub :
      (q : Queues) (options : List (List ℕ)) (opts : List ℕ) {r : Ended}
      → Chosen d argp q options
      → count_queues queue_words 0 q.queue_mask ≡ q.n_queues
      → sub_command aton stack d q options opts ≡ some r
      → QueuesEnd aton stack d argp r
  unfolding sub_command QueuesEnd
  ends_sub q options opts {r} chosen counted h =
      let P : Option Ended → Type 0 = λ o. o ≡ some r → QueuesEnd aton stack d argp r in
      if_elim P (strstr opts (codes "--show-coalesce"))
        (λ _ k.
          subst (QueuesEnd aton stack d argp) (some_eq k)
            (shows_end (d.coalescing q.queue_mask q.n_queues)))
        (λ _.
          if_elim P (strstr opts (codes "--coalesce"))
            (λ _ k.
              ends_read q options (d.coalescing q.queue_mask q.n_queues) chosen counted refl k)
            (λ _ k. subst (QueuesEnd aton stack d argp) (some_eq k) tt))
        h

  ends_run :
      (q : Queues) (arg : List ℕ) (options : List (List ℕ)) {r : Ended}
      → Chosen d argp q options
      → count_queues queue_words 0 q.queue_mask ≡ q.n_queues
      → run_sub_command aton stack d q (arg ∷ options) ≡ some r
      → QueuesEnd aton stack d argp r
  unfolding run_sub_command
  ends_run q arg options chosen counted h =
      let (k, found, h1) = >>=-some (find_option arg) _ h in
      let (o, there, h2) = >>=-some (entry_at args k) _ h1 in
      ends_sub q options o.opts chosen counted h2

capped-le : (n : ℕ) → capped n ≤ 4096
capped-le n = ground arith

all_counted :
    (counts : ℕ × ℕ × ℕ) {q : Queues}
    → all_queues counts ≡ some q
    → (count_queues queue_words 0 q.queue_mask ≡ q.n_queues)
      × (q.n_queues ≡ min 4096 ((max counts.0 counts.1 + counts.2) % 2 ^ 32))
      × (q.queue_mask ≡ mask_of_first q.n_queues)
unfolding all_queues find_max_num_queues
all_counted (rx, tx, combined) h =
    let n : ℕ = find_max_num_queues rx tx combined in
    let (_, e) = if_none (leb (2 ^ 31) n) _ h in
    subst
      (λ (q : Queues).
        (count_queues queue_words 0 q.queue_mask ≡ q.n_queues)
        × (q.n_queues ≡ min 4096 n)
        × (q.queue_mask ≡ mask_of_first q.n_queues))
      (some_eq e) (count_queues-mask_of_first (capped n) (capped-le n), ground arith, refl)

masked :
    (aton : List ℕ → Option ℕ) (stack : Store) (d : QueueDevice) (arg mask : List ℕ)
    (argp : List (List ℕ)) (m : Mask) {r : Ended}
    → ((m : Mask) (n : ℕ) (es : List Store) → d.coalescing m n ≡ some es → length es ≡ n)
    → arg ≡ codes "queue_mask"
    → parse_hex_u32_bitmap mask max_num_queue ≡ some m
    → with_mask aton stack d argp (some m) ≡ some r
    → QueuesEnd aton stack d (arg ∷ mask ∷ argp) r
unfolding with_mask run_sub_command QueuesEnd
masked aton stack d arg mask [] m all_read e good h =
    subst (QueuesEnd aton stack d (arg ∷ mask ∷ [])) (some_eq h)
      (mask ∷ [], ap (λ a. a ∷ mask ∷ []) e, omega arith)
masked aton stack d arg mask (sub ∷ options) m all_read e good h =
    ends_run aton stack d (arg ∷ mask ∷ sub ∷ options) all_read
      (record { queue_mask = m; n_queues = count_queues queue_words 0 m }) sub options
      (inl (mask, sub, ap (λ a. a ∷ mask ∷ sub ∷ options) e, good)) refl h

mask_ends :
    (aton : List ℕ → Option ℕ) (stack : Store) (d : QueueDevice) (arg : List ℕ)
    (argp : List (List ℕ)) {r : Ended}
    → ((m : Mask) (n : ℕ) (es : List Store) → d.coalescing m n ≡ some es → length es ≡ n)
    → arg ≡ codes "queue_mask"
    → after_queue_mask aton stack d argp ≡ some r
    → QueuesEnd aton stack d (arg ∷ argp) r
unfolding after_queue_mask with_mask QueuesEnd
mask_ends aton stack d arg [] all_read e h =
    subst (QueuesEnd aton stack d (arg ∷ [])) (some_eq h) ([], ap (λ a. a ∷ []) e, omega arith)
mask_ends aton stack d arg (mask ∷ argp) {r} all_read e h =
    elim (Option-cases (parse_hex_u32_bitmap mask max_num_queue)) [
      | inl bad ↦
          subst (QueuesEnd aton stack d (arg ∷ mask ∷ argp))
            (some_eq (ap (with_mask aton stack d argp) (sym bad) ∙ h)) tt
      | inr (m, good) ↦
          masked aton stack d arg mask argp m all_read e good
            (ap (with_mask aton stack d argp) (sym good) ∙ h)
    ]

channels_end :
    (aton : List ℕ → Option ℕ) (stack : Store) (d : QueueDevice) (arg : List ℕ)
    (argp : List (List ℕ)) {r : Ended}
    → ((m : Mask) (n : ℕ) (es : List Store) → d.coalescing m n ≡ some es → length es ≡ n)
    → (o : Option (ℕ × ℕ × ℕ)) → d.channels ≡ o
    → with_channels aton stack d (arg ∷ argp) o ≡ some r
    → QueuesEnd aton stack d (arg ∷ argp) r
unfolding with_channels with_all QueuesEnd
channels_end aton stack d arg argp all_read none read h =
    subst (QueuesEnd aton stack d (arg ∷ argp)) (some_eq h) tt
channels_end aton stack d arg argp {r} all_read (some (rx, tx, combined)) read h =
    elim (Option-cases (all_queues (rx, tx, combined))) [
      | inl bad ↦
          subst (QueuesEnd aton stack d (arg ∷ argp))
            (some_eq (ap (with_all aton stack d (arg ∷ argp)) (sym bad) ∙ h)) tt
      | inr (q, good) ↦
          let (counted, number, first) = all_counted (rx, tx, combined) good in
          ends_run aton stack d (arg ∷ argp) all_read q arg argp
            (inr (arg, rx, tx, combined, refl, read, number, first)) counted
            (ap (with_all aton stack d (arg ∷ argp)) (sym good) ∙ h)
    ]

-- Where the kernel reads as many settings as it is asked for, do_perqueue, if its arguments are
-- accepted, ends so: what it sends is the settings that were read for the queues of the mask behind
-- queue_mask, or without it for the first queues of as many as the device's channels need, at most
-- 4096, each merged with what the options behind the name of the command ask for, with no access
-- outside of them; and a pointer behind the last argument is read only if queue_mask is followed by
-- at most one argument.
pub do_perqueue-QueuesEnd :
    (aton : List ℕ → Option ℕ) (stack : Store) (d : QueueDevice) (argp : List (List ℕ)) {r : Ended}
    → ((m : Mask) (n : ℕ) (es : List Store) → d.coalescing m n ≡ some es → length es ≡ n)
    → do_perqueue aton stack d argp ≡ some r
    → QueuesEnd aton stack d argp r
unfolding do_perqueue after_queue_mask with_mask with_channels with_all run_sub_command QueuesEnd
do_perqueue-QueuesEnd aton stack d [] all_read h = none_absurd h
do_perqueue-QueuesEnd aton stack d (arg ∷ argp) {r} all_read h =
    if_elim (λ o. o ≡ some r → QueuesEnd aton stack d (arg ∷ argp) r)
      (str_eq arg (codes "queue_mask"))
      (λ e k. mask_ends aton stack d arg argp all_read (str_eq-eq arg (codes "queue_mask") e) k)
      (λ e k. channels_end aton stack d arg argp all_read d.channels refl k) h
