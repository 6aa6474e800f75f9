-- ===== src/Perqueue/Count.antt =====
-- The number of the queues in a mask.
use ethtool.Base.{
  ℕ, zero, suc, ◌+◌, ◌-◌, ◌*◌, ◌/◌, ◌%◌, ◌^◌, ◌≤◌, ◌<◌, ◌≡◌, inl, inr, refl, ◌∙◌, min, true, false,
  ◌==◌, ltb, arith, Bool-cases, ==_iff, ltb→lt,
}
use ethtool.Base.Bits.{all_below, all_below-true}
use ethtool.Perqueue.{mask_of_first, count_word, count_queues, queue_words}

ones_counted : all_below 32 (λ k. count_word 32 (2 ^ k - 1) == k) ≡ true
unfolding all_below count_word
ones_counted = refl

full_word : count_word 32 (2 ^ 32 - 1) ≡ 32
unfolding count_word
full_word = refl

no_word : count_word 32 0 ≡ 0
unfolding count_word
no_word = refl

not_same : (i m : ℕ) → ltb i m ≡ false → (i == m) ≡ false → m < i
not_same i m h k = ground arith

-- Word i of the mask of the first n queues has as many bits as there are queues left from it on.
word_counted : (n i : ℕ) → count_word 32 (mask_of_first n i) ≡ min (32 * (i + 1)) n - min (32 * i) n
unfolding mask_of_first
word_counted n i = elim (Bool-cases (ltb i (n / 32))) [
  | inl full ↦ rw full (let lt : i < n / 32 = ltb→lt _ _ full in full_word ∙ omega arith)
  | inr above ↦ elim (Bool-cases (i == n / 32)) [
    | inl last ↦
        let part : count_word 32 (2 ^ (n % 32) - 1) ≡ n % 32 = (==_iff _ _).0 (
          all_below-true 32 (λ k. count_word 32 (2 ^ k - 1) == k) (n % 32) ones_counted
            (omega arith)) in
        let at : i ≡ n / 32 = (==_iff _ _).0 last in rw (above, last) (part ∙ omega arith)
    | inr beyond ↦
        rw (above, beyond)
          (let lt : n / 32 < i = not_same _ _ above beyond in no_word ∙ omega arith)
  ]
]

counted_from :
    (left i n : ℕ)
    → count_queues left i (mask_of_first n) ≡ min (32 * (i + left)) n - min (32 * i) n
unfolding count_queues
counted_from zero i n = (let e : i + 0 ≡ i = omega arith in omega arith)
counted_from (suc left) i n =
    let one = word_counted n i in let rest = counted_from left (i + 1) n in omega (arith, one, rest)

-- The mask of the first n queues has n of them.
pub count_queues-mask_of_first :
    (n : ℕ) → n ≤ 4096 → count_queues queue_words 0 (mask_of_first n) ≡ n
count_queues-mask_of_first n h = counted_from queue_words 0 n ∙ omega arith
