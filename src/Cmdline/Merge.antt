-- ===== src/Cmdline/Merge.antt =====
-- do_generic_set, and what the options of a table ask for.
use ethtool.Base.{
  ℕ, ◌^◌, ◌≤◌, ◌<◌, ◌≡◌, ◌≢◌, ◌⊎◌, inl, inr, refl, sym, ap, ◌∙◌, subst, List, [], ◌∷◌, ◌==◌, ==_iff,
  ==_false, if◌then◌else◌, Bool-cases,
}
use ethtool.Base.Bytes.{le_value, le_value-le_bytes}
use ethtool.Cmdline.{CmdlineInfo, Store, Line, do_generic_set1, do_generic_set, negative}

-- What the table's options ask the variable w to hold, where it held `old`: the last one that
-- names w and is not negative decides.
unfoldable pub asked : List CmdlineInfo → Store → ℕ → ℕ → ℕ
asked [] st w old = old
asked (i ∷ info) st w old =
    let wanted : ℕ = le_value (st i.wanted_val) in
    asked info st w (if w == i.ioctl_val then if negative wanted then old else wanted else old)

-- The option's variable of the wanted value is an int, and no option's setting.
abbrev pub AreWanted : Store → ℕ → List CmdlineInfo → Type 0
AreWanted st v [] = Unit
AreWanted st v (i ∷ info) =
    (i.wanted_val ≢ v) × (le_value (st i.wanted_val) < 2 ^ 32) × AreWanted st v info

abbrev pub IsMergeable : Store → List CmdlineInfo → List CmdlineInfo → Type 0
IsMergeable st all [] = Unit
IsMergeable st all (i ∷ info) = AreWanted st i.ioctl_val all × IsMergeable st all info

set1_store :
    (i : CmdlineInfo) (line : Line) (w : ℕ)
    → w ≢ i.ioctl_val
    → (do_generic_set1 i line).store w ≡ line.store w
unfolding do_generic_set1
set1_store i line w ne = elim (Bool-cases (negative (le_value (line.store i.wanted_val)))) [
  | inl unset ↦ rw unset
  | inr wanted ↦
      elim (Bool-cases (le_value (line.store i.wanted_val) == le_value (line.store i.ioctl_val))) [
        | inl same ↦ rw (wanted, same)
        | inr other ↦ rw (wanted, other, ==_false w i.ioctl_val ne)
      ]
]

set1_value :
    (i : CmdlineInfo) (line : Line)
    → le_value (line.store i.wanted_val) < 2 ^ 32
    → le_value ((do_generic_set1 i line).store i.ioctl_val) ≡ (
        if negative (le_value (line.store i.wanted_val))
        then le_value (line.store i.ioctl_val)
        else le_value (line.store i.wanted_val))
unfolding do_generic_set1
set1_value i line small = elim (Bool-cases (negative (le_value (line.store i.wanted_val)))) [
  | inl unset ↦ rw unset
  | inr wanted ↦
      elim (Bool-cases (le_value (line.store i.wanted_val) == le_value (line.store i.ioctl_val))) [
        | inl same ↦ rw (wanted, same) (sym ((==_iff _ _).0 same))
        | inr other ↦
            rw (wanted, other, (==_iff i.ioctl_val i.ioctl_val).1 refl)
              (le_value-le_bytes 4 _ small)
      ]
]

-- One step leaves the wanted values of a table in place.
asked_step :
    (info : List CmdlineInfo) (i : CmdlineInfo) (line : Line) (w old : ℕ)
    → AreWanted line.store i.ioctl_val info
    → asked info (do_generic_set1 i line).store w old ≡ asked info line.store w old
unfolding asked
asked_step [] i line w old h = refl
asked_step (j ∷ info) i line w old h =
    let e : (do_generic_set1 i line).store j.wanted_val ≡ line.store j.wanted_val =
      set1_store i line j.wanted_val h.0 in
    ap
      (λ c.
        asked info (do_generic_set1 i line).store w
          (if w == j.ioctl_val then if negative (le_value c) then old else le_value c else old))
      e
    ∙ asked_step info i line w _ h.2

wanted_step :
    (info : List CmdlineInfo) (i : CmdlineInfo) (line : Line) (v : ℕ)
    → AreWanted line.store i.ioctl_val info
    → AreWanted line.store v info
    → AreWanted (do_generic_set1 i line).store v info
wanted_step [] i line v a h = tt
wanted_step (j ∷ info) i line v a h =
    let e : line.store j.wanted_val ≡ (do_generic_set1 i line).store j.wanted_val =
      sym (set1_store i line j.wanted_val a.0) in
    (h.0, subst (λ c. le_value c < 2 ^ 32) e h.1, wanted_step info i line v a.2 h.2)

IsMergeable-step :
    (all info : List CmdlineInfo) (i : CmdlineInfo) (line : Line)
    → AreWanted line.store i.ioctl_val all
    → IsMergeable line.store (i ∷ all) info
    → IsMergeable (do_generic_set1 i line).store all info
IsMergeable-step all [] i line a h = tt
IsMergeable-step all (j ∷ info) i line a h =
    (wanted_step all i line j.ioctl_val a h.0.2, IsMergeable-step all info i line a h.1)

set1-asked :
    (i : CmdlineInfo) (line : Line) (w : ℕ)
    → le_value (line.store i.wanted_val) < 2 ^ 32
    → le_value ((do_generic_set1 i line).store w) ≡ (
        if w == i.ioctl_val
        then if negative (le_value (line.store i.wanted_val))
          then le_value (line.store w)
          else le_value (line.store i.wanted_val)
        else le_value (line.store w))
set1-asked i line w small = elim (Bool-cases (w == i.ioctl_val)) [
  | inl at ↦
      subst
        (λ v. le_value ((do_generic_set1 i line).store v) ≡ (
          if v == i.ioctl_val
          then if negative (le_value (line.store i.wanted_val))
            then le_value (line.store v)
            else le_value (line.store i.wanted_val)
          else le_value (line.store v)))
        (sym ((==_iff w i.ioctl_val).0 at))
        (rw ((==_iff i.ioctl_val i.ioctl_val).1 refl) (set1_value i line small))
  | inr off ↦
      rw off
        (ap le_value (set1_store i line w (λ e. let t = (==_iff w i.ioctl_val).1 e in absurd (cc))))
]

-- Where no variable of a wanted value is a setting of the table, and each wanted value is an int:
-- after do_generic_set every variable holds the number that the last option asks for that names
-- it and was given, and where there is none the number that it held before.
pub do_generic_set-asked :
    (info : List CmdlineInfo) (line : Line) (w : ℕ)
    → IsMergeable line.store info info
    → le_value ((do_generic_set info line).store w)
      ≡ asked info line.store w (le_value (line.store w))
unfolding do_generic_set asked
do_generic_set-asked [] line w h = refl
do_generic_set-asked (i ∷ info) line w h =
    do_generic_set-asked info (do_generic_set1 i line) w
      (IsMergeable-step info info i line h.0.2 h.1)
    ∙ asked_step info i line w _ h.0.2
    ∙ ap (asked info line.store w) (set1-asked i line w h.0.1)

-- Either `*changed` was set, or no variable changed at all.
set1_changed :
    (i : CmdlineInfo) (line : Line)
    → ((do_generic_set1 i line).changed ≡ 1) ⊎ (do_generic_set1 i line ≡ line)
unfolding do_generic_set1
set1_changed i line = elim (Bool-cases (negative (le_value (line.store i.wanted_val)))) [
  | inl unset ↦ inr (rw unset)
  | inr wanted ↦
      elim (Bool-cases (le_value (line.store i.wanted_val) == le_value (line.store i.ioctl_val))) [
        | inl same ↦ inr (rw (wanted, same))
        | inr other ↦ inl (rw (wanted, other))
      ]
]

stays_changed :
    (info : List CmdlineInfo) (line : Line)
    → line.changed ≡ 1
    → (do_generic_set info line).changed ≡ 1
unfolding do_generic_set
stays_changed [] line h = h
stays_changed (i ∷ info) line h =
    stays_changed info (do_generic_set1 i line)
      (elim (set1_changed i line) [ inl now ↦ now | inr same ↦ ap (λ l. l.changed) same ∙ h ])

-- If do_generic_set starts with `*changed` at 0 and does not set it to 1, it changes no variable.
pub do_generic_set_unchanged :
    (info : List CmdlineInfo) (line : Line)
    → line.changed ≡ 0
    → (do_generic_set info line).changed ≢ 1
    → do_generic_set info line ≡ line
unfolding do_generic_set
do_generic_set_unchanged [] line h ne = refl
do_generic_set_unchanged (i ∷ info) line h ne = elim (set1_changed i line) [
  | inl now ↦ absurd (ne (stays_changed info (do_generic_set1 i line) now))
  | inr same ↦
      let none_set : (do_generic_set info line).changed ≢ 1 =
        λ e. ne (ap (λ l. (do_generic_set info l).changed) same ∙ e) in
      ap (do_generic_set info) same ∙ do_generic_set_unchanged info line h none_set
]

-- What the table's options ask the variable w to hold, where it held `old` and `wanted` are the
-- numbers of the variables.
abbrev pub asked_for : List CmdlineInfo → (ℕ → ℕ) → ℕ → ℕ → ℕ
asked_for [] wanted w old = old
asked_for (i ∷ info) wanted w old = asked_for info wanted w (
    if w == i.ioctl_val
    then if negative (wanted i.wanted_val) then old else wanted i.wanted_val
    else old)

-- The variables of the wanted values of a table are below n, its settings are not.
abbrev pub InOrder : ℕ → List CmdlineInfo → Type 0
InOrder n [] = Unit
InOrder n (i ∷ info) = (i.wanted_val < n) × (n ≤ i.ioctl_val) × InOrder n info

pub asked-asked_for :
    (info : List CmdlineInfo) (n : ℕ) (st : Store) (wanted : ℕ → ℕ) (w old : ℕ)
    → InOrder n info
    → ((v : ℕ) → v < n → le_value (st v) ≡ wanted v)
    → asked info st w old ≡ asked_for info wanted w old
unfolding asked
asked-asked_for [] n st wanted w old o same = refl
asked-asked_for (i ∷ info) n st wanted w old (low, high, o) same =
    asked-asked_for info n st wanted w _ o same
    ∙ ap
        (λ (b : ℕ).
          asked_for info wanted w (if w == i.ioctl_val then if negative b then old else b else old))
        (same i.wanted_val low)

-- No option of the table is for the setting w, and no two are for the same.
abbrev pub NoneSets : ℕ → List CmdlineInfo → Type 0
NoneSets w [] = Unit
NoneSets w (i ∷ info) = (w ≢ i.ioctl_val) × NoneSets w info

abbrev pub EachOnce : List CmdlineInfo → Type 0
EachOnce [] = Unit
EachOnce (i ∷ info) = NoneSets i.ioctl_val info × EachOnce info

abbrev pub AllSmall : Store → List CmdlineInfo → Type 0
AllSmall st [] = Unit
AllSmall st (i ∷ info) = (le_value (st i.wanted_val) < 2 ^ 32) × AllSmall st info

do_generic_set_apart :
    (info : List CmdlineInfo) (line : Line) (w : ℕ)
    → NoneSets w info
    → (do_generic_set info line).store w ≡ line.store w
unfolding do_generic_set
do_generic_set_apart [] line w h = refl
do_generic_set_apart (i ∷ info) line w (ne, h) =
    do_generic_set_apart info (do_generic_set1 i line) w h ∙ set1_store i line w ne

-- An option changes its setting, or nothing.
set1_sets :
    (i : CmdlineInfo) (line : Line)
    → le_value (line.store i.wanted_val) < 2 ^ 32
    → (le_value ((do_generic_set1 i line).store i.ioctl_val) ≢ le_value (line.store i.ioctl_val))
      ⊎ (do_generic_set1 i line ≡ line)
unfolding do_generic_set1
set1_sets i line small = elim (Bool-cases (negative (le_value (line.store i.wanted_val)))) [
  | inl unset ↦ inr (rw unset)
  | inr wanted ↦
      elim (Bool-cases (le_value (line.store i.wanted_val) == le_value (line.store i.ioctl_val))) [
        | inl same ↦ inr (rw (wanted, same))
        | inr other ↦ inl (
            rw (wanted, other, (==_iff i.ioctl_val i.ioctl_val).1 refl)
              (λ e. let t = (==_iff _ _).1 (sym (le_value-le_bytes 4 _ small) ∙ e) in absurd (cc)))
      ]
]

-- Where no two options are for the same setting, do_generic_set changes a setting, or nothing.
pub do_generic_set_sets :
    (info : List CmdlineInfo) (n : ℕ) (line : Line)
    → EachOnce info
    → InOrder n info
    → AllSmall line.store info
    → ((w : ℕ) × (n ≤ w)
        × (le_value ((do_generic_set info line).store w) ≢ le_value (line.store w)))
      ⊎ (do_generic_set info line ≡ line)
unfolding do_generic_set
do_generic_set_sets [] n line once o small = inr refl
do_generic_set_sets (i ∷ info) n line (apart, once) (low, high, o) (small, smalls) =
    elim (set1_sets i line small) [
      | inl sets ↦
          let kept : (do_generic_set info (do_generic_set1 i line)).store i.ioctl_val
              ≡ (do_generic_set1 i line).store i.ioctl_val =
            do_generic_set_apart info (do_generic_set1 i line) i.ioctl_val apart in
          inl (i.ioctl_val, high, λ e. sets (sym (ap le_value kept) ∙ e))
      | inr same ↦
          subst
            (λ l.
              ((w : ℕ) × (n ≤ w)
                × (le_value ((do_generic_set info l).store w) ≢ le_value (line.store w)))
              ⊎ (do_generic_set info l ≡ line))
            (sym same) (do_generic_set_sets info n line once o smalls)
    ]
