-- ===== src/Perqueue/Merge.antt =====
-- do_perqueue: what becomes of the settings of the queues.
use ethtool.Base.{
  ℕ, zero, suc, ◌+◌, ◌/◌, ◌%◌, ◌≤◌, ◌<◌, ◌≡◌, inl, inr, refl, sym, ap, ◌∙◌, false, some, List, [],
  ◌∷◌, ◌==◌, leb, arith, Bool-cases, ==_iff, length, set, get_or,
}
use ethtool.Cmdline.{Store}
use ethtool.Perqueue.{
  Queues, count_word, count_queues, queue_words, Cursor, merged_queue, no_settings, set_queue,
  set_word, sent_of, set_words, sends, set_per_queue,
}

unfoldable pub map_queues : Store → List Store → List Store
map_queues wanted [] = []
map_queues wanted (e ∷ es) = merged_queue wanted e ∷ map_queues wanted es

-- The first k queues are merged.
partly : Store → ℕ → List Store → List Store
partly wanted zero es = es
partly wanted (suc k) [] = []
partly wanted (suc k) (e ∷ es) = merged_queue wanted e ∷ partly wanted k es

length-partly : (wanted : Store) (k : ℕ) (es : List Store) → length (partly wanted k es) ≡ length es
unfolding partly
length-partly wanted zero es = refl
length-partly wanted (suc k) [] = refl
length-partly wanted (suc k) (e ∷ es) = ap suc (length-partly wanted k es)

partly_all :
    (wanted : Store) (es : List Store) → partly wanted (length es) es ≡ map_queues wanted es
unfolding partly map_queues
partly_all wanted [] = refl
partly_all wanted (e ∷ es) = ap (λ t. merged_queue wanted e ∷ t) (partly_all wanted es)

partly_next :
    (wanted : Store) (k : ℕ) (es : List Store)
    → k < length es
    → set (partly wanted k es) k (merged_queue wanted (get_or (partly wanted k es) k no_settings))
      ≡ partly wanted (suc k) es
unfolding partly
partly_next wanted k [] h = absurd (omega arith)
partly_next wanted zero (e ∷ es) h = refl
partly_next wanted (suc k) (e ∷ es) h =
    ap (λ t. merged_queue wanted e ∷ t) (partly_next wanted k es (omega arith))

beyond_false : (m k : ℕ) → k < m → leb m k ≡ false
beyond_false m k h = ground arith

not_odd : (m : ℕ) → m < 2 → (m == 1) ≡ false → m ≡ 0
not_odd m l h = ground arith

odd_or_even : (n : ℕ) → ((n % 2 == 1) ≡ false) → n % 2 ≡ 0
odd_or_even n h = not_odd (n % 2) (omega arith) h

module _ (wanted : Store) (es : List Store) where
  at : ℕ → Cursor
  at k = record { idx = k; ecoal_q = partly wanted k es }

  set_queue_next : (k : ℕ) → k < length es → set_queue wanted (at k) ≡ some (at (k + 1))
  unfolding set_queue at
  set_queue_next k h =
      let len = length-partly wanted k es in
      let inside : leb (length (partly wanted k es)) k ≡ false =
        beyond_false _ _ (omega (arith, len)) in
      let next : suc k ≡ k + 1 = omega arith in
      rw inside (
        ap (λ l. some (record { idx = k + 1; ecoal_q = l }))
          (partly_next wanted k es h ∙ ap (λ m. partly wanted m es) next))

  set_word_all :
      (rounds mask k : ℕ)
      → k + count_word rounds mask ≤ length es
      → set_word wanted rounds mask (at k) ≡ some (at (k + count_word rounds mask))
  unfolding set_word count_word
  set_word_all zero mask k h = ap (λ m. some (at m)) (omega arith)
  set_word_all (suc rounds) mask k h = elim (Bool-cases (mask == 0)) [
    | inl empty ↦ rw empty (let e : k ≡ k + 0 = omega arith in ap (λ m. some (at m)) e)
    | inr more ↦
        let h' : k + (mask % 2 + count_word rounds (mask / 2)) ≤ length es = (rw more at h) in
        elim (Bool-cases (mask % 2 == 1)) [
          | inl odd ↦
              let one : mask % 2 ≡ 1 = (==_iff _ 1).0 odd in
              let sum : k + 1 + count_word rounds (mask / 2)
                  ≡ k + (mask % 2 + count_word rounds (mask / 2)) =
                omega (arith, one) in
              rw (more, odd, set_queue_next k (omega (arith, h', one)))
                (set_word_all rounds (mask / 2) (k + 1) (omega (arith, h', one))
                  ∙ ap (λ m. some (at m)) sum)
          | inr even ↦
              let zero_bit : mask % 2 ≡ 0 = odd_or_even mask even in
              let sum : k + count_word rounds (mask / 2)
                  ≡ k + (mask % 2 + count_word rounds (mask / 2)) =
                omega (arith, zero_bit) in
              rw (more, even)
                (set_word_all rounds (mask / 2) k (omega (arith, h', zero_bit))
                  ∙ ap (λ m. some (at m)) sum)
        ]
  ]

  set_words_all :
      (left i k : ℕ) (q : Queues)
      → k + count_queues left i q.queue_mask ≡ q.n_queues
      → q.n_queues ≤ length es
      → set_words wanted left i q (at k) ≡ some (at q.n_queues)
  unfolding set_words count_queues at
  set_words_all zero i k q h le = ap (λ m. some (at m)) (omega arith ∙ h)
  set_words_all (suc left) i k q h le =
      let here : ℕ = count_word 32 (q.queue_mask i) in
      let word = set_word_all 32 (q.queue_mask i) k (omega (arith, h, le)) in
      elim (Bool-cases (k + here == q.n_queues)) [
        | inl done ↦ rw (word, done) (ap (λ m. some (at m)) ((==_iff _ _).0 done))
        | inr more ↦ rw (word, more) (set_words_all left (i + 1) (k + here) q (omega (arith, h)) le)
      ]

  -- Where the mask has as many queues as were read, set_per_queue merges each of them, once, and
  -- stays inside the buffer.
  pub set_per_queue_all :
      (q : Queues)
      → count_queues queue_words 0 q.queue_mask ≡ q.n_queues
      → length es ≡ q.n_queues
      → set_per_queue wanted q es ≡ sends (map_queues wanted es)
  unfolding set_per_queue at partly
  set_per_queue_all q counted len =
      let ends : set_words wanted queue_words 0 q (at 0) ≡ some (at q.n_queues) =
        set_words_all queue_words 0 0 q (omega (arith, counted)) (omega (arith, len)) in
      let whole : partly wanted q.n_queues es ≡ map_queues wanted es =
        ap (λ m. partly wanted m es) (sym len) ∙ partly_all wanted es in
      ap sent_of ends ∙ ap sends whole
