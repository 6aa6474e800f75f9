-- ===== src/Rxclass/Parse/Exclusive.antt =====
-- rxclass_parse_ruleopts: the options that exclude one another.
use ethtool.Base.{
  ℕ, ◌≡◌, ◌≢◌, ◌⊎◌, inl, inr, refl, sym, ap, ◌∙◌, subst, bit_and, false, none, some, List, [], ◌∷◌,
  ◌++◌, ◌==◌, codes, arith, Bool-cases, Option-cases, if_elim,
}
use ethtool.Base.Bits.{bit, bit-le, bit-bit_or, bit-bit_and, zero-bit}
use ethtool.Base.Maybe.{◌>>=◌, >>=-some, some_eq, none_absurd}
use ethtool.Clib.{str_eq}
use ethtool.Rxclass.{RuleOpts, nfc_flag_ring, nfc_flag_ring_vf, nfc_flag_ring_queue}
use ethtool.Rxclass.Value.{Inet, rxclass_get_val, rxclass_get_mask, rxclass_get_ulong}
use ethtool.Rxclass.Value.Mask.{val-flags}
use ethtool.Rxclass.Parse.{
  Flow, flow_of, find_opt, Local, Mode, option, value, after, mask, context, Next, at_option, step,
  finish, parse_opts, is_mask_word, Parsed, check_flags, start, rxclass_parse_ruleopts, take_mask,
  take_context, set_context, eth_rxfh_context_alloc, go,
}
use ethtool.Rxclass.Parse.Ends.{IsComplete, run, parse_opts-run, two_guards, exclusive_flags}

-- Among the arguments stands the name of an option, with a value, where the arguments before it do
-- not wait for a value or a mask.
pub record HasOption (inet : Inet) (flow : Flow) (args : List (List ℕ)) (opt : RuleOpts)
    : Type 0 where
  pub before : List (List ℕ)
  pub name : List ℕ
  pub text : List ℕ
  pub behind : List (List ℕ)
  pub place : Next
  pub split : args ≡ before ++ (name ∷ text ∷ behind)
  pub reached : run inet flow.options before option (start flow.type) ≡ some place
  pub complete : IsComplete name place.mode
  pub no_context : str_eq name (codes "context") ≡ false
  pub found : find_opt flow.options name ≡ some opt

-- The flag of bit k is set.
abbrev IsMarked : ℕ → Local → Type 0
IsMarked k local = bit local.filling.flags k ≡ 1

module _ (inet : Inet) (options : List RuleOpts) (k : ℕ) where
  at_option_keeps :
      (local : Local) (s : List ℕ) {n : Next}
      → at_option inet options local s ≡ some n
      → IsMarked k local
      → IsMarked k n.local
  unfolding at_option
  at_option_keeps local s {n} h set_ = elim (Bool-cases (str_eq s (codes "context"))) [
    | inl is_context ↦ subst (λ (m : Next). IsMarked k m.local) (some_eq (rw is_context at h)) set_
    | inr other ↦
        let (opt, found, e) = >>=-some (find_opt options s) _ (rw other at h) in
        subst (λ (m : Next). IsMarked k m.local) (some_eq e) set_
  ]

  val_keeps :
      (opt : RuleOpts) (local : Local) (s : List ℕ) {n : Next}
      → step inet options (value opt) local s ≡ some n
      → (IsMarked k local → IsMarked k n.local) × (bit opt.flag k ≡ 1 → IsMarked k n.local)
  unfolding step
  val_keeps opt local s {n} h =
      let (f, read, e) = >>=-some (rxclass_get_val inet s local.filling opt) _ h in
      let both = val-flags inet s local.filling opt read in
      let bits = bit-bit_or local.filling.flags opt.flag k in
      let old = bit-le local.filling.flags k in
      let new = bit-le opt.flag k in
      let same : bit f.flags k ≡ bit n.local.filling.flags k =
        ap (λ (m : Next). bit m.local.filling.flags k) (some_eq e) in
      let all : bit n.local.filling.flags k ≡ _ = sym same ∙ ap (λ g. bit g k) both ∙ bits in
      (λ set_. omega (arith, all, old, new, set_), λ set_. omega (arith, all, old, new, set_))

  mask_keeps :
      (opt : RuleOpts) (local : Local) (s : List ℕ) {n : Next}
      → take_mask inet options opt local s ≡ some n
      → IsMarked k local
      → IsMarked k n.local
  unfolding take_mask
  mask_keeps opt local s h set_ =
      let (p', read, e) = >>=-some (rxclass_get_mask inet s local.filling.p opt) _ h in
      subst (λ (m : Next). IsMarked k m.local) (some_eq e) set_

  context_keeps :
      (local : Local) (s : List ℕ) {n : Next}
      → take_context inet options local s ≡ some n
      → IsMarked k local
      → IsMarked k n.local
  unfolding take_context set_context
  context_keeps local s {n} h set_ =
      let (val, read, e) = >>=-some (rxclass_get_ulong s 32) _ h in
      if_elim (λ o. o ≡ some n → IsMarked k n.local) (val == eth_rxfh_context_alloc)
        (λ _ bad. none_absurd bad)
        (λ _ good. subst (λ (m : Next). IsMarked k m.local) (some_eq good) set_) e

  step_keeps :
      (mode : Mode) (local : Local) (s : List ℕ) {n : Next}
      → step inet options mode local s ≡ some n
      → IsMarked k local
      → IsMarked k n.local
  unfolding step
  step_keeps option local s h set_ = at_option_keeps local s h set_
  step_keeps (value opt) local s h set_ = (val_keeps opt local s h).0 set_
  step_keeps (after opt) local s {n} h set_ =
      if_elim (λ o. o ≡ some n → IsMarked k n.local) (is_mask_word opt s)
        (λ _ e. subst (λ (m : Next). IsMarked k m.local) (some_eq e) set_)
        (λ _ e. at_option_keeps local s e set_) h
  step_keeps (mask opt) local s h set_ = mask_keeps opt local s h set_
  step_keeps context local s h set_ = context_keeps local s h set_

  finish_keeps :
      (mode : Mode) (local : Local) {l : Local}
      → finish inet options mode local ≡ some l
      → IsMarked k local
      → IsMarked k l
  unfolding finish
  finish_keeps option local h set_ = subst (IsMarked k) (some_eq h) set_
  finish_keeps (value opt) local h set_ = subst (IsMarked k) (some_eq h) set_
  finish_keeps (after opt) local h set_ = subst (IsMarked k) (some_eq h) set_
  finish_keeps (mask opt) local h set_ = none_absurd h
  finish_keeps context local h set_ = none_absurd h

  parse_keeps :
      (args : List (List ℕ)) (mode : Mode) (local : Local) {l : Local}
      → parse_opts inet options args mode local ≡ some l
      → IsMarked k local
      → IsMarked k l
  unfolding parse_opts
  parse_keeps [] mode local h set_ = finish_keeps mode local h set_
  parse_keeps (s ∷ rest) mode local h set_ =
      let (n, stepped, e) = >>=-some (step inet options mode local s) _ h in
      parse_keeps rest n.mode n.local e (step_keeps mode local s stepped set_)

  -- A name where an option may stand waits for its value.
  at_name :
      (name : List ℕ) (opt : RuleOpts) (mode : Mode) (local : Local)
      → find_opt options name ≡ some opt
      → str_eq name (codes "context") ≡ false
      → IsComplete name mode
      → step inet options mode local name ≡ go (value opt) local
  unfolding step at_option
  at_name name opt option local found other ok = rw (other, found)
  at_name name opt (after opt') local found other ok = rw (ok, other, found)
  at_name name opt (value opt') local found other ok = elim ok [ ]
  at_name name opt (mask opt') local found other ok = elim ok [ ]
  at_name name opt context local found other ok = elim ok [ ]

  parse_marks :
      (name text : List ℕ) (rest : List (List ℕ)) (opt : RuleOpts) (mode : Mode) (local : Local)
      {l : Local}
      → step inet options mode local name ≡ go (value opt) local
      → bit opt.flag k ≡ 1
      → parse_opts inet options (name ∷ text ∷ rest) mode local ≡ some l
      → IsMarked k l
  unfolding parse_opts
  parse_marks name text rest opt mode local named flag h =
      let (n, stepped, e) = >>=-some (step inet options (value opt) local text) _ (rw named at h) in
      parse_keeps rest n.mode n.local e ((val_keeps opt local text stepped).1 flag)

HasOption-IsMarked :
    (inet : Inet) (flow : Flow) (args : List (List ℕ)) (opt : RuleOpts) (k : ℕ) {l : Local}
    → HasOption inet flow args opt
    → bit opt.flag k ≡ 1
    → parse_opts inet flow.options args option (start flow.type) ≡ some l
    → IsMarked k l
HasOption-IsMarked inet flow args opt k {l} has flag h =
    let there : parse_opts inet flow.options (has.name ∷ has.text ∷ has.behind) has.place.mode
          has.place.local
        ≡ some l =
      sym (
        ap
          (λ o. o >>= λ n.
            parse_opts inet flow.options (has.name ∷ has.text ∷ has.behind) n.mode n.local)
          has.reached)
      ∙ sym (
          parse_opts-run inet flow.options has.before (has.name ∷ has.text ∷ has.behind) option
            (start flow.type))
      ∙ sym (ap (λ a. parse_opts inet flow.options a option (start flow.type)) has.split)
      ∙ h in
    parse_marks inet flow.options k has.name has.text has.behind opt has.place.mode has.place.local
      (at_name inet flow.options k has.name opt has.place.mode has.place.local has.found
        has.no_context has.complete)
      flag there

bit_and-ne : (f k flag : ℕ) → bit f k ≡ 1 → bit flag k ≡ 1 → bit_and f flag ≢ 0
bit_and-ne f k flag set_ one e =
    let both = bit-bit_and f flag k in
    let none_set : bit (bit_and f flag) k ≡ 0 = ap (λ n. bit n k) e ∙ zero-bit k in
    absurd (omega (arith, both, none_set, set_, one))

accepted-flags :
    (type : ℕ) (local : Local) {r : Parsed}
    → check_flags type local ≡ some r
    → local.filling.flags ≡ r.flags
unfolding check_flags
accepted-flags type local {r} h =
    let flags : ℕ = local.filling.flags in
    let (same, _) =
      two_guards (bit_and flags nfc_flag_ring == 0) (bit_and flags nfc_flag_ring_queue == 0)
        (bit_and flags nfc_flag_ring_vf == 0) h in
    ap (λ q. q.flags) same

-- A rule is refused if among its arguments, in any order, stand an option with the flag of `action`
-- and one with the flag of `queue` or `vf`, each with a value and each where the arguments before it
-- are taken and do not wait for a value or a mask.
pub rxclass_parse_ruleopts_exclusive :
    (inet : Inet) (type : List ℕ) (args : List (List ℕ)) (flow : Flow) (opt opt' : RuleOpts)
    → flow_of type ≡ some flow
    → HasOption inet flow args opt
    → HasOption inet flow args opt'
    → opt.flag ≡ nfc_flag_ring
    → (opt'.flag ≡ nfc_flag_ring_queue) ⊎ (opt'.flag ≡ nfc_flag_ring_vf)
    → rxclass_parse_ruleopts inet (type ∷ args) ≡ none
unfolding rxclass_parse_ruleopts
rxclass_parse_ruleopts_exclusive inet type args flow opt opt' known first second ring other =
    elim (Option-cases (rxclass_parse_ruleopts inet (type ∷ args))) [
      | inl refused ↦ refused
      | inr (r, h) ↦
          let (local, parsed, checked) =
            >>=-some (parse_opts inet flow.options args option (start flow.type)) _
              (rw known at h) in
          let same = accepted-flags flow.type local checked in
          let marked : (o : RuleOpts) (k : ℕ)
              → HasOption inet flow args o
              → bit o.flag k ≡ 1
              → bit r.flags k ≡ 1 =
            λ o k has flag.
              ap (λ f. bit f k) (sym same)
              ∙ HasOption-IsMarked inet flow args o k has flag parsed in
          let one : bit_and r.flags nfc_flag_ring ≢ 0 =
            bit_and-ne r.flags 0 nfc_flag_ring (marked opt 0 first (ap (λ f. bit f 0) ring ∙ refl))
              refl in
          elim (exclusive_flags inet (type ∷ args) h) [
            | inl none_ring ↦ absurd (one none_ring)
            | inr (no_queue, no_vf) ↦ elim other [
              | inl queue ↦ absurd (
                  bit_and-ne r.flags 13 nfc_flag_ring_queue
                    (marked opt' 13 second (ap (λ f. bit f 13) queue ∙ refl)) refl no_queue)
              | inr vf ↦ absurd (
                  bit_and-ne r.flags 12 nfc_flag_ring_vf
                    (marked opt' 12 second (ap (λ f. bit f 12) vf ∙ refl)) refl no_vf)
            ]
          ]
    ]
