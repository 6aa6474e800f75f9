-- ===== src/Link/Sset/Levels.antt =====
-- do_sset: the message level that it sends.
use ethtool.Base.{
  ℕ, ◌^◌, ◌<◌, ◌≡◌, refl, sym, ap, ◌∙◌, bit_and, bit_or, false, Option, some, List, [], ◌∷◌, ◌==◌,
  if◌then◌else◌, arith, codes,
}
use ethtool.Base.Bits.{bit, bit_not}
use ethtool.Base.Bytes.{le_bytes, le_value}
use ethtool.Base.Maybe.{>>=-some, some_eq, none_absurd}
use ethtool.Cmdline.Flags.Merged.{on-le-named, merged, none_before}
use ethtool.Clib.{str_eq}
use ethtool.Cmdline.{Line, parse_generic_cmdline, take_pair, flag_to_cmdline_info}
use ethtool.Link.Options.{
  cmdline_msglvl, msg_flag, nothing_wanted, key_of, starts_with_digit, read_flags, read_options,
}
use ethtool.Link.Sset.{
  not_asked, sent, Device, Outcome, set_link, set_wol, set_msglvl, change_msglvl, do_sset,
}
use ethtool.Cmdline.Flags.{
  Small-turned, on_small, pair_of, IsFlag, flag_of, turned_on, named, AreFlags, flags-Flagged,
}

msg_flag-IsFlag : (name : List ℕ) (v : ℕ) → v < 2 ^ 32 → IsFlag (msg_flag name v)
unfolding flag_to_cmdline_info
msg_flag-IsFlag name v h = (refl, refl, refl, h)

msglvl-AreFlags : AreFlags cmdline_msglvl
msglvl-AreFlags = (
  msg_flag-IsFlag _ 0x0001 (omega arith),
  (
    msg_flag-IsFlag _ 0x0002 (omega arith),
    (
      msg_flag-IsFlag _ 0x0004 (omega arith),
      (
        msg_flag-IsFlag _ 0x0008 (omega arith),
        (
          msg_flag-IsFlag _ 0x0010 (omega arith),
          (
            msg_flag-IsFlag _ 0x0020 (omega arith),
            (
              msg_flag-IsFlag _ 0x0040 (omega arith),
              (
                msg_flag-IsFlag _ 0x0080 (omega arith),
                (
                  msg_flag-IsFlag _ 0x0100 (omega arith),
                  (
                    msg_flag-IsFlag _ 0x0200 (omega arith),
                    (
                      msg_flag-IsFlag _ 0x0400 (omega arith),
                      (
                        msg_flag-IsFlag _ 0x0800 (omega arith),
                        (
                          msg_flag-IsFlag _ 0x1000 (omega arith),
                          (
                            msg_flag-IsFlag _ 0x2000 (omega arith),
                            (msg_flag-IsFlag _ 0x4000 (omega arith), tt),
                          ),
                        ),
                      ),
                    ),
                  ),
                ),
              ),
            ),
          ),
        ),
      ),
    ),
  ),
)

-- The level after the flags: a flag that is named follows its values, any other the device.
abbrev pub level_bit : List (List ℕ) → ℕ → ℕ → ℕ
level_bit args level j =
    if bit (named cmdline_msglvl args) j == 1
    then bit (turned_on cmdline_msglvl args) j
    else bit level j

Flagged-changed :
    (aton : List ℕ → Option ℕ) (name : List ℕ) (rest : List (List ℕ)) (l : Line) {l' : Line}
    → (le_value (l.store 0) < 2 ^ 32) × (le_value (l.store 1) < 2 ^ 32)
    → parse_generic_cmdline aton cmdline_msglvl (name ∷ rest) l ≡ some l'
    → l'.changed ≡ 1
unfolding parse_generic_cmdline
Flagged-changed aton name [] l ok h = none_absurd h
Flagged-changed aton name (arg ∷ rest) l ok h =
    let (l1, one, more) =
      >>=-some (take_pair aton cmdline_msglvl name arg l)
        (λ l1. parse_generic_cmdline aton cmdline_msglvl rest l1) h in
    let (small, turned, now) = pair_of aton cmdline_msglvl name arg l msglvl-AreFlags ok one in
    let ok' =
      Small-turned l.store l1.store _ (flag_of cmdline_msglvl name)
        (on_small (str_eq arg (codes "on")) (flag_of cmdline_msglvl name) small) small ok turned in
    (flags-Flagged aton cmdline_msglvl rest l1 msglvl-AreFlags ok' more).changed now

flags_only :
    (aton : List ℕ → Option ℕ) (name : List ℕ) (rest : List (List ℕ))
    → starts_with_digit name ≡ false
    → read_options aton (codes "msglvl" ∷ name ∷ rest) nothing_wanted
      ≡ read_flags aton (name ∷ rest) nothing_wanted
unfolding read_options key_of str_eq
flags_only aton name rest h = rw h refl

level_sent :
    (d : Device) (l : Line) (level : ℕ)
    → l.changed ≡ 1
    → d.gmsglvl ≡ some level
    → set_msglvl d (record nothing_wanted { msglvl = l })
      ≡ sent (bit_or (bit_and level (bit_not 32 (le_value (l.store 1)))) (le_value (l.store 0)))
unfolding set_msglvl change_msglvl
level_sent d l level now known =
    ap (λ (n : ℕ). if n == 0 then not_asked else change_msglvl l.store d.gmsglvl) now
    ∙ ap (change_msglvl l.store) known

-- `msglvl` with a first word that does not start with a digit, if it is accepted and the device's
-- level can be read: the level that is sent has, bit by bit, each flag that the words name on if
-- one of its values is `on`, else off, and every other bit as the device had it. Nothing else is
-- sent.
pub do_sset-level_bit :
    (aton : List ℕ → Option ℕ) (stack : ℕ → ℕ) (d : Device) (name : List ℕ) (rest : List (List ℕ))
    (level : ℕ) {r : Outcome}
    → starts_with_digit name ≡ false
    → d.gmsglvl ≡ some level
    → do_sset aton stack d (codes "msglvl" ∷ name ∷ rest) ≡ some r
    → (r.link ≡ not_asked)
      × (r.wol ≡ not_asked)
      × (v : ℕ) × (r.msglvl ≡ sent v)
      × ((j : ℕ) → j < 32 → bit v j ≡ level_bit (name ∷ rest) level j)
unfolding do_sset read_flags set_link set_wol
do_sset-level_bit aton stack d name rest level {r} word known h =
    let (w, read, e) =
      >>=-some (read_options aton (codes "msglvl" ∷ name ∷ rest) nothing_wanted) _ h in
    let flags : read_flags aton (name ∷ rest) nothing_wanted ≡ some w =
      sym (flags_only aton name rest word) ∙ read in
    let (l, parsed, same) =
      >>=-some (parse_generic_cmdline aton cmdline_msglvl (name ∷ rest) nothing_wanted.msglvl) _
        flags in
    let ok : (le_value (le_bytes 4 0) < 2 ^ 32) × (le_value (le_bytes 4 0) < 2 ^ 32) =
      (omega arith, omega arith) in
    let f =
      flags-Flagged aton cmdline_msglvl (name ∷ rest) nothing_wanted.msglvl msglvl-AreFlags ok
        parsed in
    let now = Flagged-changed aton name rest nothing_wanted.msglvl ok parsed in
    let w_is : record nothing_wanted { msglvl = l } ≡ w = some_eq same in
    let ends = some_eq e in
    (
      sym (ap (λ (o : Outcome). o.link) ends) ∙ ap (set_link stack d) (sym w_is),
      sym (ap (λ (o : Outcome). o.wol) ends) ∙ ap (set_wol d) (sym w_is),
      bit_or (bit_and level (bit_not 32 (le_value (l.store 1)))) (le_value (l.store 0)),
      sym (ap (λ (o : Outcome). o.msglvl) ends)
          ∙ ap (set_msglvl d) (sym w_is)
          ∙ level_sent d l level now known,
      λ j small.
          merged level (le_value (l.store 0)) (le_value (l.store 1))
            (turned_on cmdline_msglvl (name ∷ rest)) (named cmdline_msglvl (name ∷ rest)) j small
            f.small.1 (f.wanted j ∙ none_before j (turned_on cmdline_msglvl (name ∷ rest)))
            (f.mask j ∙ none_before j (named cmdline_msglvl (name ∷ rest)))
            (on-le-named cmdline_msglvl (name ∷ rest) j),
    )
