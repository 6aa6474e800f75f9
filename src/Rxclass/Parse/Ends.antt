-- ===== src/Rxclass/Parse/Ends.antt =====
-- The ends of rxclass_parse_ruleopts: the arguments may stop after an option's name, and the options
-- that exclude one another.
use ethtool.Base.{
  ℕ, ◌≡◌, ◌⊎◌, inl, inr, refl, sym, ap, ◌∙◌, subst, bit_and, Bool, true, false, ◌&&◌, not, Option,
  none, some, List, [], ◌∷◌, ◌++◌, ◌==◌, ==_iff, if◌then◌else◌, codes, append_nil,
}
use ethtool.Base.Maybe.{◌>>=◌, >>=-some, some_eq, none_absurd}
use ethtool.Clib.{str_eq}
use ethtool.Rxclass.{RuleOpts, nfc_flag_ring, nfc_flag_ring_vf, nfc_flag_ring_queue}
use ethtool.Rxclass.Value.{Inet}
use ethtool.Rxclass.Parse.{
  Flow, flow_of, find_opt, Local, Mode, option, value, after, mask, context, Next, at_option, step,
  finish, parse_opts, is_mask_word, Parsed, check_flags, start, rxclass_parse_ruleopts,
}

-- Where the arguments may stop without a name that waits for its value.
abbrev pub IsComplete : List ℕ → Mode → Type 0
IsComplete name option = Unit
IsComplete name (after opt) = is_mask_word opt name ≡ false
IsComplete name _ = ⊥

module _ (inet : Inet) (options : List RuleOpts) where
  -- The place and the variables after some arguments.
  unfoldable pub run : List (List ℕ) → Mode → Local → Option Next
  run [] mode local = some (record { mode = mode; local = local })
  run (s ∷ rest) mode local = step inet options mode local s >>= λ n. run rest n.mode n.local

  append_after :
      (args rest : List (List ℕ)) (o : Option Next)
      → ((n : Next)
          → parse_opts inet options (args ++ rest) n.mode n.local
            ≡ (run args n.mode n.local >>= λ n'. parse_opts inet options rest n'.mode n'.local))
      → (o >>= λ n. parse_opts inet options (args ++ rest) n.mode n.local) ≡ (
          (o >>= λ n. run args n.mode n.local) >>= λ n. parse_opts inet options rest n.mode n.local)
  append_after args rest none h = refl
  append_after args rest (some n) h = h n

  pub parse_opts-run :
      (args rest : List (List ℕ)) (mode : Mode) (local : Local)
      → parse_opts inet options (args ++ rest) mode local
        ≡ (run args mode local >>= λ n. parse_opts inet options rest n.mode n.local)
  unfolding parse_opts run
  parse_opts-run [] rest mode local = refl
  parse_opts-run (s ∷ args) rest mode local =
      append_after args rest (step inet options mode local s)
        (λ n. parse_opts-run args rest n.mode n.local)

  dangling :
      (name : List ℕ) (opt : RuleOpts) (mode : Mode) (local : Local)
      → find_opt options name ≡ some opt
      → str_eq name (codes "context") ≡ false
      → IsComplete name mode
      → parse_opts inet options (name ∷ []) mode local ≡ parse_opts inet options [] mode local
  unfolding parse_opts step at_option finish
  dangling name opt option local found other ok = rw (other, found)
  dangling name opt (after opt') local found other ok = rw (ok, other, found)
  dangling name opt (value opt') local found other ok = elim ok [ ]
  dangling name opt (mask opt') local found other ok = elim ok [ ]
  dangling name opt context local found other ok = elim ok [ ]

-- A rule whose arguments end with the name of an option of its flow type and no value is not
-- refused: the result is that of the arguments before the name. The arguments before it must be
-- taken one by one up to a place that does not wait for a value, and the name must not be
-- `context` or a keyword for a mask there.
pub rxclass_parse_ruleopts_dangling :
    (inet : Inet) (type : List ℕ) (args : List (List ℕ)) (name : List ℕ) (flow : Flow)
    (opt : RuleOpts) (n : Next)
    → flow_of type ≡ some flow
    → find_opt flow.options name ≡ some opt
    → str_eq name (codes "context") ≡ false
    → run inet flow.options args option (start flow.type) ≡ some n
    → IsComplete name n.mode
    → rxclass_parse_ruleopts inet (type ∷ (args ++ (name ∷ [])))
      ≡ rxclass_parse_ruleopts inet (type ∷ args)
unfolding rxclass_parse_ruleopts
rxclass_parse_ruleopts_dangling inet type args name flow opt n known found other ran ok =
    let ends = parse_opts-run inet flow.options args in
    let same : parse_opts inet flow.options (args ++ (name ∷ [])) option (start flow.type)
        ≡ parse_opts inet flow.options args option (start flow.type) =
      ends (name ∷ []) option (start flow.type)
      ∙ ap (λ o. o >>= λ m. parse_opts inet flow.options (name ∷ []) m.mode m.local) ran
      ∙ dangling inet flow.options name opt n.mode n.local found other ok
      ∙ sym (ap (λ o. o >>= λ m. parse_opts inet flow.options [] m.mode m.local) ran)
      ∙ sym (ends [] option (start flow.type))
      ∙ ap (λ a. parse_opts inet flow.options a option (start flow.type)) (append_nil args) in
    rw (known, same)

pub two_guards :
    (a b c : Bool) {q r : Parsed}
    → (if not a && not b then none else if not a && not c then none else some q) ≡ some r
    → (q ≡ r) × ((a ≡ true) ⊎ ((b ≡ true) × (c ≡ true)))
two_guards true b c h = (some_eq h, inl refl)
two_guards false true true h = (some_eq h, inr (refl, refl))
two_guards false false c h = none_absurd h
two_guards false true false h = none_absurd h

exclusive :
    (type : ℕ) (local : Local) {r : Parsed}
    → check_flags type local ≡ some r
    → (bit_and r.flags nfc_flag_ring ≡ 0)
      ⊎ ((bit_and r.flags nfc_flag_ring_queue ≡ 0) × (bit_and r.flags nfc_flag_ring_vf ≡ 0))
unfolding check_flags
exclusive type local {r} h =
    let flags : ℕ = local.filling.flags in
    let (same, ok) =
      two_guards (bit_and flags nfc_flag_ring == 0) (bit_and flags nfc_flag_ring_queue == 0)
        (bit_and flags nfc_flag_ring_vf == 0) h in
    let e : flags ≡ r.flags = ap (λ q. q.flags) same in
    subst
      (λ f.
        (bit_and f nfc_flag_ring ≡ 0)
        ⊎ ((bit_and f nfc_flag_ring_queue ≡ 0) × (bit_and f nfc_flag_ring_vf ≡ 0)))
      e
      (elim ok [
        | inl none_ring ↦ inl ((==_iff _ _).0 none_ring)
        | inr none_else ↦ inr ((==_iff _ _).0 none_else.0, (==_iff _ _).0 none_else.1)
      ])

-- The flags of a rule that is accepted.
pub exclusive_flags :
    (inet : Inet) (args : List (List ℕ)) {r : Parsed}
    → rxclass_parse_ruleopts inet args ≡ some r
    → (bit_and r.flags nfc_flag_ring ≡ 0)
      ⊎ ((bit_and r.flags nfc_flag_ring_queue ≡ 0) × (bit_and r.flags nfc_flag_ring_vf ≡ 0))
unfolding rxclass_parse_ruleopts
exclusive_flags inet [] h = none_absurd h
exclusive_flags inet (s ∷ rest) {r} h =
    let (flow, known, h1) = >>=-some (flow_of s) _ h in
    let (local, parsed, h2) =
      >>=-some (parse_opts inet flow.options rest option (start flow.type)) _ h1 in
    exclusive flow.type local h2
