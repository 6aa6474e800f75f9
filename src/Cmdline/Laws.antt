-- ===== src/Cmdline/Laws.antt =====
-- The variables that parse_generic_cmdline writes, and how the options of a line combine.
use ethtool.Base.{ℕ, ◌≡◌, sym, ap, ◌∙◌, subst, Option, none, some, List, [], ◌∷◌, ◌++◌, codes}
use ethtool.Base.Maybe.{◌>>=◌, >>=-some, some_eq, none_absurd}
use ethtool.Clib.{str_eq}
use ethtool.Cmdline.{
  cmdl_flag, CmdlineInfo, Store, see_flag, set_flag, set_wanted, see, take_pair, find_info, Line,
  parse_generic_cmdline,
}
use ethtool.Cmdline.Writes.{
  IsSeen, AllApart, find-IsApart, see_apart, write_apart, set_wanted_apart,
}

off_apart :
    (i : CmdlineInfo) (st : Store) (v : Option ℕ) {st' : Store}
    → IsSeen i.wanted_val v
    → (see_flag st i v >>= set_flag i (codes "off")) ≡ some st'
    → st' i.wanted_val ≡ st i.wanted_val
unfolding set_flag str_eq
off_apart i st none ne h = none_absurd h
off_apart i st (some v) ne h =
    ap (λ s. s i.wanted_val) (sym (some_eq h)) ∙ write_apart st v i.wanted_val _ ne

module _ (aton : List ℕ → Option ℕ) where
  take_pair_apart :
      (info : List CmdlineInfo) (name arg : List ℕ) (line : Line) (w : ℕ) {line' : Line}
      → AllApart w info
      → take_pair aton info name arg line ≡ some line'
      → line'.store w ≡ line.store w
  unfolding take_pair
  take_pair_apart info name arg line w ne h =
      let (i, found, h1) = >>=-some (find_info info name) _ h in
      let (st, wrote, h2) =
        >>=-some (set_wanted aton i i.type arg (see i i.type i.seen_val line.store)) _ h1 in
      let apart = find-IsApart w info name ne found in
      ap (λ l. l.store w) (sym (some_eq h2))
      ∙ set_wanted_apart aton i i.type arg (see i i.type i.seen_val line.store) w apart wrote
      ∙ see_apart i i.type i.seen_val line.store w apart.1

  -- A command line that is accepted changes no variable but those that the table's options write.
  pub parse_generic_cmdline_frame :
      (info : List CmdlineInfo) (argp : List (List ℕ)) (line : Line) (w : ℕ) {line' : Line}
      → AllApart w info
      → parse_generic_cmdline aton info argp line ≡ some line'
      → line'.store w ≡ line.store w
  unfolding parse_generic_cmdline
  parse_generic_cmdline_frame info [] line w ne h = ap (λ l. l.store w) (sym (some_eq h))
  parse_generic_cmdline_frame info (name ∷ []) line w ne h = none_absurd h
  parse_generic_cmdline_frame info (name ∷ arg ∷ rest) line w ne h =
      let (l, took, h') = >>=-some (take_pair aton info name arg line) _ h in
      parse_generic_cmdline_frame info rest l w ne h' ∙ take_pair_apart info name arg line w ne took

  -- Two command lines, the first one accepted, do together what they do one after the other.
  pub parse_generic_cmdline-append :
      (info : List CmdlineInfo) (argp argp' : List (List ℕ)) (line : Line) {line' : Line}
      → parse_generic_cmdline aton info argp line ≡ some line'
      → parse_generic_cmdline aton info (argp ++ argp') line
        ≡ parse_generic_cmdline aton info argp' line'
  unfolding parse_generic_cmdline
  parse_generic_cmdline-append info [] argp' line h =
      ap (parse_generic_cmdline aton info argp') (some_eq h)
  parse_generic_cmdline-append info (name ∷ []) argp' line h = none_absurd h
  parse_generic_cmdline-append info (name ∷ arg ∷ rest) argp' line h =
      let (l, took, h') = >>=-some (take_pair aton info name arg line) _ h in
      ap (λ o. o >>= λ m. parse_generic_cmdline aton info (rest ++ argp') m) took
      ∙ parse_generic_cmdline-append info rest argp' l h'

  off_keeps :
      (i : CmdlineInfo) (st : Store) {st' : Store}
      → IsSeen i.wanted_val i.seen_val
      → set_wanted aton i cmdl_flag (codes "off") (see i cmdl_flag i.seen_val st) ≡ some st'
      → st' i.wanted_val ≡ st i.wanted_val
  unfolding set_wanted see
  off_keeps i st ne h = off_apart i st i.seen_val ne h

  -- The value `off` of a flag does not take back an `on` before it: if it is accepted, the
  -- variable of what is wanted does not change, where it is not that of the flags seen.
  pub parse_generic_cmdline_flag_off :
      (info : List CmdlineInfo) (name : List ℕ) (i : CmdlineInfo) (line : Line) {line' : Line}
      → find_info info name ≡ some i
      → i.type ≡ cmdl_flag
      → IsSeen i.wanted_val i.seen_val
      → parse_generic_cmdline aton info (name ∷ codes "off" ∷ []) line ≡ some line'
      → line'.store i.wanted_val ≡ line.store i.wanted_val
  unfolding parse_generic_cmdline take_pair
  parse_generic_cmdline_flag_off info name i line found flag ne h =
      let (l, took, h') = >>=-some (take_pair aton info name (codes "off") line) _ h in
      let (j, found', h1) = >>=-some (find_info info name) _ took in
      let same : i ≡ j = some_eq (sym found ∙ found') in
      let h2 : (set_wanted aton i i.type (codes "off") (see i i.type i.seen_val line.store)
            >>= λ st. some (record { store = st; changed = 1 }))
          ≡ some l =
        subst
          (λ k.
            (set_wanted aton k k.type (codes "off") (see k k.type k.seen_val line.store) >>= λ st.
            some (record { store = st; changed = 1 }))
            ≡ some l)
          (sym same) h1 in
      let (st, wrote, e) =
        >>=-some (set_wanted aton i i.type (codes "off") (see i i.type i.seen_val line.store)) _
          h2 in
      ap (λ m. m.store i.wanted_val) (sym (some_eq h'))
      ∙ ap (λ m. m.store i.wanted_val) (sym (some_eq e))
      ∙ off_keeps i line.store ne (
          subst (λ t. set_wanted aton i t (codes "off") (see i t i.seen_val line.store) ≡ some st)
            flag wrote)
