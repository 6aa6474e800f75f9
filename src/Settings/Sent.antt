-- ===== src/Settings/Sent.antt =====
-- What the commands of Settings write to the device.
use ethtool.Base.{
  ℕ, ◌-◌, ◌^◌, ◌≤◌, ◌<◌, ◌≡◌, ◌≢◌, ◌⊎◌, inl, inr, refl, sym, ap, ◌∙◌, subst, Bool, true, false,
  Option, none, some, List, [], ◌∷◌, ◌==◌, ltb, arith, Bool-cases, if◌then◌else◌, ==_iff,
}
use ethtool.Base.Bytes.{le_value}
use ethtool.Base.Maybe.{>>=-some, some_eq, none_absurd}
use ethtool.Cmdline.{CmdlineInfo, Store, Line, parse_generic_cmdline, do_generic_set}
use ethtool.Cmdline.Given.{given, parse-given}
use ethtool.Cmdline.Ints.{IsInt, AllInt, parse-IsInt}
use ethtool.Cmdline.Merge.{
  AreWanted, IsMergeable, InOrder, EachOnce, AllSmall, asked_for, asked-asked_for,
  do_generic_set-asked, do_generic_set_unchanged, do_generic_set_sets,
}
use ethtool.Settings.Tables.{IsTable, table_of}
use ethtool.Settings.{
  Command, pause, ring, channels, coalesce, eee, Kind, pause_kind, ring_kind, channels_kind,
  coalesce_kind, eee_kind, command_of, run, Outcome, start, current, unset_below, filled_from,
  set_settings, merge_with, write_back, do_spause, do_sring, do_schannels, do_scoalesce, do_seee,
}

-- Every variable of the structure holds the number that is wanted for it, where that is not negative
-- as an int, and otherwise what the device held.
abbrev pub Merges : Command → (ℕ → ℕ) → Store → Store → Type 0
Merges c wanted device sent =
    (w : ℕ) → c.wanted ≤ w → le_value (sent w) ≡ asked_for c.table wanted w (le_value (device w))

-- Some setting is not the device's.
abbrev pub Differs : Command → Store → Store → Type 0
Differs c device sent = (w : ℕ) × (c.wanted ≤ w) × (le_value (sent w) ≢ le_value (device w))

-- How a command ends, with the numbers that are wanted: the settings cannot be read; or what is
-- asked for is what the device has, and nothing is written; or the merged settings, of which one is
-- not the device's, are written, and the status says whether the device took them.
unfoldable pub Ends : Command → (Store → Bool) → (ℕ → ℕ) → Option Store → Outcome → Type 0
Ends c accepts wanted none r = (r.status ≡ c.cannot_get) × (r.sent ≡ none)
Ends c accepts wanted (some device) r =
    ((r.status ≡ c.unchanged) × (r.sent ≡ none) × Merges c wanted device device)
    ⊎ ((sent : Store) × (r.sent ≡ some sent)
        × Merges c wanted device sent
        × Differs c device sent
        × (r.status ≡ (if accepts sent then 0 else c.cannot_set)))

unset_value :
    (n : ℕ) (stack : Store) (v : ℕ) → v < n → le_value (unset_below n stack v) ≡ 2 ^ 32 - 1
unset_value n stack v h = let below : ltb v n ≡ true = ground arith in rw below refl

unset-IsInt : (n : ℕ) (stack : Store) (v : ℕ) → v < n → IsInt (unset_below n stack) v
unset-IsInt n stack v h = let below : ltb v n ≡ true = ground arith in rw below (omega arith)

filled_at : (n : ℕ) (device st : Store) (w : ℕ) → n ≤ w → filled_from n device st w ≡ device w
filled_at n device st w h = let above : ltb w n ≡ false = ground arith in rw above

filled_below : (n : ℕ) (device st : Store) (w : ℕ) → w < n → filled_from n device st w ≡ st w
filled_below n device st w h = let below : ltb w n ≡ true = ground arith in rw below

module _ (n : ℕ) (device st : Store) (int : (v : ℕ) → v < n → IsInt st v) where
  AreWanted-filled :
      (info : List CmdlineInfo) (v : ℕ)
      → n ≤ v
      → InOrder n info
      → AreWanted (filled_from n device st) v info
  AreWanted-filled [] v h o = tt
  AreWanted-filled (i ∷ info) v h (low, high, o) = (
    λ e. omega arith,
    subst (λ b. le_value b < 2 ^ 32) (sym (filled_below n device st i.wanted_val low))
        (int i.wanted_val low),
    AreWanted-filled info v h o,
  )

  IsMergeable-filled :
      (all info : List CmdlineInfo)
      → InOrder n all
      → InOrder n info
      → IsMergeable (filled_from n device st) all info
  IsMergeable-filled all [] o o' = tt
  IsMergeable-filled all (i ∷ info) o (low, high, o') =
      (AreWanted-filled all i.ioctl_val high o, IsMergeable-filled all info o o')

module _ (c : Command) (device st : Store) (wanted : ℕ → ℕ)
    (int : (v : ℕ) → v < c.wanted → IsInt st v)
    (left : (v : ℕ) → v < c.wanted → le_value (st v) ≡ wanted v)
    (order : InOrder c.wanted c.table) where
  merged : Merges c wanted device (do_generic_set c.table (current c st device)).store
  merged w h =
      do_generic_set-asked c.table (current c st device) w
        (IsMergeable-filled c.wanted device st int c.table c.table order order)
      ∙ asked-asked_for c.table c.wanted (filled_from c.wanted device st) wanted w _ order
          (λ v l. ap le_value (filled_below c.wanted device st v l) ∙ left v l)
      ∙ ap (λ b. asked_for c.table wanted w (le_value b)) (filled_at c.wanted device st w h)

  -- Nothing that is asked for differs.
  same_settings :
      (do_generic_set c.table (current c st device)).changed ≡ 0 → Merges c wanted device device
  same_settings h w l =
      let still : do_generic_set c.table (current c st device) ≡ current c st device =
        do_generic_set_unchanged c.table (current c st device) refl
          (λ e. let t = sym h ∙ e in omega arith) in
      ap le_value (sym (filled_at c.wanted device st w l))
      ∙ sym (ap (λ (k : Line). le_value (k.store w)) still)
      ∙ merged w l

  filled_small :
      (info : List CmdlineInfo)
      → InOrder c.wanted info
      → AllSmall (filled_from c.wanted device st) info
  filled_small [] o = tt
  filled_small (i ∷ info) (low, high, o) = (
    subst (λ b. le_value b < 2 ^ 32) (sym (filled_below c.wanted device st i.wanted_val low))
        (int i.wanted_val low),
    filled_small info o,
  )

  -- Something that is asked for differs.
  other_settings :
      EachOnce c.table
      → (do_generic_set c.table (current c st device)).changed ≢ 0
      → Differs c device (do_generic_set c.table (current c st device)).store
  other_settings once changed =
      elim (do_generic_set_sets c.table c.wanted (current c st device) once order
        (filled_small c.table order)) [
          | inl (w, l, ne) ↦
              (w, l, λ e. ne (e ∙ ap le_value (sym (filled_at c.wanted device st w l))))
          | inr still ↦ absurd (changed (ap (λ (k : Line). k.changed) still))
        ]

module _ (aton : List ℕ → Option ℕ) (accepts : Store → Bool) (c : Command) where
  write_back-Ends :
      (wanted : ℕ → ℕ) (device : Store) (line : Line)
      → Merges c wanted device line.store
      → (line.changed ≡ 0 → Merges c wanted device device)
      → (line.changed ≢ 0 → Differs c device line.store)
      → Ends c accepts wanted (some device) (write_back aton accepts c line)
  unfolding write_back Ends
  write_back-Ends wanted device line m same other = elim (Bool-cases (line.changed == 0)) [
    | inl still ↦ rw still (inl (refl, refl, same ((==_iff _ 0).0 still)))
    | inr changed ↦
        let differs = other (λ e. let t = (==_iff line.changed 0).1 e in absurd (cc)) in
        rw changed (elim (Bool-cases (accepts line.store)) [
          | inl yes_ ↦ rw yes_ (
              inr
                (line.store, refl, m, differs, ap (λ b. if b then 0 else c.cannot_set) (sym yes_)))
          | inr no_ ↦ rw no_ (
              inr (line.store, refl, m, differs, ap (λ b. if b then 0 else c.cannot_set) (sym no_)))
        ])
  ]

  merge_with-Ends :
      (wanted : ℕ → ℕ) (st : Store) (get : Option Store)
      → ((v : ℕ) → v < c.wanted → IsInt st v)
      → ((v : ℕ) → v < c.wanted → le_value (st v) ≡ wanted v)
      → InOrder c.wanted c.table
      → EachOnce c.table
      → Ends c accepts wanted get (merge_with aton accepts c st get)
  unfolding merge_with Ends
  merge_with-Ends wanted st none int left order once = (refl, refl)
  merge_with-Ends wanted st (some device) int left order once =
      write_back-Ends wanted device (do_generic_set c.table (current c st device))
        (merged c device st wanted int left order) (same_settings c device st wanted int left order)
        (other_settings c device st wanted int left order once)

-- The numbers that the command line gives; -1 stands for none.
abbrev pub wanted_by : Command → List (List ℕ) → ℕ → ℕ
wanted_by c argp v = given c.table argp v (2 ^ 32 - 1)

module _ (aton : List ℕ → Option ℕ) (accepts : Store → Bool) (stack : Store) (get : Option Store)
    (argp : List (List ℕ)) where
  set_settings-Ends :
      (c : Command) {r : Outcome}
      → AllInt c.table
      → InOrder c.wanted c.table
      → EachOnce c.table
      → set_settings aton accepts c stack get argp ≡ some r
      → Ends c accepts (wanted_by c argp) get r
  unfolding set_settings
  set_settings-Ends c {r} ints order once h =
      let (line, parsed, e) =
        >>=-some (parse_generic_cmdline aton c.table argp (start c stack)) _ h in
      let int : (v : ℕ) → v < c.wanted → IsInt line.store v = λ v l.
        parse-IsInt aton c.table argp (start c stack) v ints parsed
          (unset-IsInt c.wanted stack v l) in
      let left : (v : ℕ) → v < c.wanted → le_value (line.store v) ≡ wanted_by c argp v = λ v l.
        parse-given aton c.table argp (start c stack) v ints parsed
        ∙ ap (given c.table argp v) (unset_value c.wanted stack v l) in
      subst (Ends c accepts (wanted_by c argp) get) (some_eq e)
        (merge_with-Ends aton accepts c (wanted_by c argp) line.store get int left order once)

  eee_options :
      (argp : List (List ℕ)) {r : Outcome}
      → do_seee aton accepts stack get argp ≡ some r
      → set_settings aton accepts eee stack get argp ≡ some r
  unfolding do_seee
  eee_options [] h = none_absurd h
  eee_options (arg ∷ argp) h = h

  -- Each of do_spause, do_sring, do_schannels, do_scoalesce and do_seee, if its options are accepted:
  -- where the settings cannot be read, nothing is written and the status is that of the failure.
  -- Otherwise let the merged settings hold, in each setting, the number that the last option for it
  -- gives, 1 for `on` and 0 for `off`, if it is not negative as an int, and else the device's own.
  -- Either they are the device's and nothing is written, or one of them is not the device's, they are
  -- written, and the status says whether the device took them.
  pub run-Ends :
      (k : Kind) {r : Outcome}
      → run aton accepts k stack get argp ≡ some r
      → Ends (command_of k) accepts (wanted_by (command_of k) argp) get r
  unfolding do_spause do_sring do_schannels do_scoalesce
  run-Ends pause_kind h =
      let ok : IsTable pause = table_of pause refl in set_settings-Ends pause ok.0 ok.1 ok.2 h
  run-Ends ring_kind h =
      let ok : IsTable ring = table_of ring refl in set_settings-Ends ring ok.0 ok.1 ok.2 h
  run-Ends channels_kind h =
      let ok : IsTable channels = table_of channels refl in
      set_settings-Ends channels ok.0 ok.1 ok.2 h
  run-Ends coalesce_kind h =
      let ok : IsTable coalesce = table_of coalesce refl in
      set_settings-Ends coalesce ok.0 ok.1 ok.2 h
  run-Ends eee_kind h =
      let ok : IsTable eee = table_of eee refl in
      set_settings-Ends eee ok.0 ok.1 ok.2 (eee_options argp h)
