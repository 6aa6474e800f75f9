-- ===== src/Cmdline/Flags.antt =====
-- Tables of flags: what a line of names and values leaves in the two variables of the table.
pub mod Merged
use ethtool.Base.{
  ℕ, ◌^◌, ◌<◌, ◌≡◌, inl, inr, refl, sym, subst, ap, ◌∙◌, max, bit_or, Bool, true, false, Option,
  none, some, List, [], ◌∷◌, if◌then◌else◌, arith, Bool-cases, codes, ==_iff,
}
use ethtool.Base.Bits.{bit_or_zero, bit, bit-bit_or, bit_or-lt, zero-bit}
use ethtool.Base.Bytes.{le_bytes, le_value, le_value-le_bytes}
use ethtool.Base.Maybe.{>>=-some, some_eq, none_absurd}
use ethtool.Clib.{str_eq}
use native.Mathlib.Nat.{le_refl}
use ethtool.Cmdline.{
  CmdlineInfo, cmdl_flag, Store, Line, find_info, take_pair, parse_generic_cmdline, or_into, see,
  set_wanted, set_flag,
}

-- The flag that a name stands for, or 0.
unfoldable pub flag_of : List CmdlineInfo → List ℕ → ℕ
flag_of [] name = 0
flag_of (i ∷ info) name = if str_eq i.name name then i.flag_val else flag_of info name

-- The flags that a list of names and values turns on, and those that it names.
unfoldable pub turned_on : List CmdlineInfo → List (List ℕ) → ℕ
turned_on info (name ∷ arg ∷ rest) =
    bit_or (if str_eq arg (codes "on") then flag_of info name else 0) (turned_on info rest)
turned_on info args = 0

unfoldable pub named : List CmdlineInfo → List (List ℕ) → ℕ
named info (name ∷ arg ∷ rest) = bit_or (flag_of info name) (named info rest)
named info args = 0

-- A table of flags over variable 0 and, for those that are seen, variable 1.
abbrev pub IsFlag : CmdlineInfo → Type 0
IsFlag i = (i.type ≡ cmdl_flag) × (i.wanted_val ≡ 0) × (i.seen_val ≡ some 1) × (i.flag_val < 2 ^ 32)

abbrev pub AreFlags : List CmdlineInfo → Type 0
AreFlags [] = Unit
AreFlags (i ∷ info) = IsFlag i × AreFlags info

found-IsFlag :
    (info : List CmdlineInfo) (name : List ℕ) {i : CmdlineInfo}
    → AreFlags info
    → find_info info name ≡ some i
    → IsFlag i × (flag_of info name ≡ i.flag_val)
unfolding find_info flag_of
found-IsFlag [] name f h = none_absurd h
found-IsFlag (j ∷ info) name {i} f h = elim (Bool-cases (str_eq j.name name)) [
  | inl here ↦
      let same : j ≡ i = some_eq (rw here at h) in
      rw here (subst IsFlag same f.0, ap (λ (k : CmdlineInfo). k.flag_val) same)
  | inr further ↦ rw further (found-IsFlag info name f.1 (rw further at h))
]

abbrev pub Small : Store → Type 0
Small st = (le_value (st 0) < 2 ^ 32) × (le_value (st 1) < 2 ^ 32)

or_small :
    (st : Store) (v flag : ℕ)
    → le_value (st v) < 2 ^ 32
    → flag < 2 ^ 32
    → (or_into st v flag v ≡ le_bytes 4 (bit_or (le_value (st v)) flag))
      × (le_value (le_bytes 4 (bit_or (le_value (st v)) flag)) ≡ bit_or (le_value (st v)) flag)
or_small st v flag h small = (
  rw ((==_iff v v).1 refl) refl,
  le_value-le_bytes 4 _ (bit_or-lt 32 (le_value (st v)) flag h small),
)

-- The two variables after a flag.
abbrev pub Turned : Store → ℕ → ℕ → Store → Type 0
Turned st on seen st' =
    (le_value (st' 0) ≡ bit_or (le_value (st 0)) on)
    × (le_value (st' 1) ≡ bit_or (le_value (st 1)) seen)

turn :
    (flag : ℕ) (arg : List ℕ) (st : Store) {st' : Store}
    → flag < 2 ^ 32
    → Small st
    → (if str_eq arg (codes "on")
        then some (or_into (or_into st 1 flag) 0 flag)
        else if str_eq arg (codes "off")
        then some (or_into st 1 flag)
        else none)
      ≡ some st'
    → Turned st (if str_eq arg (codes "on") then flag else 0) flag st'
turn flag arg st {st'} small ok h =
    let seen = (or_small st 1 flag ok.1 small).1 in
    elim (Bool-cases (str_eq arg (codes "on"))) [
      | inl on ↦
          let same : or_into (or_into st 1 flag) 0 flag ≡ st' = some_eq (rw on at h) in
          rw on (subst (Turned st flag flag) same ((or_small st 0 flag ok.0 small).1, seen))
      | inr off ↦
          let rest : (if str_eq arg (codes "off") then some (or_into st 1 flag) else none)
              ≡ some st' =
            (rw off at h) in
          elim (Bool-cases (str_eq arg (codes "off"))) [
            | inl yes_off ↦
                let same : or_into st 1 flag ≡ st' = some_eq (rw yes_off at rest) in
                rw off (
                  subst (Turned st 0 flag) same
                    (sym (bit_or_zero (le_value (st 0)) (le_value (st 0)) (le_refl _)), seen))
            | inr bad ↦ none_absurd (rw bad at rest)
          ]
    ]

flag_pair :
    (aton : List ℕ → Option ℕ) (i : CmdlineInfo) (arg : List ℕ) (st : Store) {st' : Store}
    → IsFlag i
    → Small st
    → set_wanted aton i i.type arg (see i i.type i.seen_val st) ≡ some st'
    → Turned st (if str_eq arg (codes "on") then i.flag_val else 0) i.flag_val st'
unfolding set_wanted see set_flag
flag_pair aton i arg st {st'} (type, wanted, seen, small) ok h =
    let by_type : set_wanted aton i cmdl_flag arg (see i cmdl_flag i.seen_val st) ≡ some st' =
      (rw type at h) in
    let by_seen : set_flag i arg (or_into st 1 i.flag_val) ≡ some st' = (rw seen at by_type) in
    turn i.flag_val arg st small ok (rw wanted at by_seen)

pub Small-turned :
    (st st' : Store) (on seen : ℕ)
    → on < 2 ^ 32
    → seen < 2 ^ 32
    → Small st
    → Turned st on seen st'
    → Small st'
Small-turned st st' on seen a b ok t = (
  subst (λ n. n < 2 ^ 32) (sym t.0) (bit_or-lt 32 _ on ok.0 a),
  subst (λ n. n < 2 ^ 32) (sym t.1) (bit_or-lt 32 _ seen ok.1 b),
)

pub on_small : (b : Bool) (flag : ℕ) → flag < 2 ^ 32 → (if b then flag else 0) < 2 ^ 32
on_small true flag h = h
on_small false flag h = omega arith

bits_of :
    (st st' : Store) (on seen : ℕ)
    → Turned st on seen st'
    → (j : ℕ)
    → (bit (le_value (st' 0)) j ≡ max (bit (le_value (st 0)) j) (bit on j))
      × (bit (le_value (st' 1)) j ≡ max (bit (le_value (st 1)) j) (bit seen j))
bits_of st st' on seen t j = (
  ap (λ n. bit n j) t.0 ∙ bit-bit_or (le_value (st 0)) on j,
  ap (λ n. bit n j) t.1 ∙ bit-bit_or (le_value (st 1)) seen j,
)

-- The two variables after a whole line of flags.
pub record Flagged (info : List CmdlineInfo) (args : List (List ℕ)) (l l' : Line) : Type 0 where
  pub small : (le_value (l'.store 0) < 2 ^ 32) × (le_value (l'.store 1) < 2 ^ 32)
  pub wanted :
      (j : ℕ)
      → bit (le_value (l'.store 0)) j
        ≡ max (bit (le_value (l.store 0)) j) (bit (turned_on info args) j)
  pub mask :
      (j : ℕ)
      → bit (le_value (l'.store 1)) j ≡ max (bit (le_value (l.store 1)) j) (bit (named info args) j)
  pub changed : (l.changed ≡ 1) → l'.changed ≡ 1

pub pair_of :
    (aton : List ℕ → Option ℕ) (info : List CmdlineInfo) (name arg : List ℕ) (l : Line) {l' : Line}
    → AreFlags info
    → Small l.store
    → take_pair aton info name arg l ≡ some l'
    → (flag_of info name < 2 ^ 32)
      × Turned l.store
          (if str_eq arg (codes "on") then flag_of info name else 0)
          (flag_of info name)
          l'.store
      × (l'.changed ≡ 1)
unfolding take_pair
pair_of aton info name arg l {l'} f ok h =
    let (i, found, next) = >>=-some (find_info info name) _ h in
    let (st, set_to, e) =
      >>=-some (set_wanted aton i i.type arg (see i i.type i.seen_val l.store)) _ next in
    let (is_flag, value) = found-IsFlag info name f found in
    let (type, wanted, seen, small) = is_flag in
    let turned = flag_pair aton i arg l.store is_flag ok set_to in
    let same : record { store = st; changed = 1 } ≡ l' = some_eq e in
    (
      subst (λ n. n < 2 ^ 32) (sym value) small,
      subst
          (λ (k : Line).
            Turned l.store (if str_eq arg (codes "on") then flag_of info name else 0)
              (flag_of info name) k.store)
          same
          (subst (λ n. Turned l.store (if str_eq arg (codes "on") then n else 0) n st) (sym value)
            turned),
      sym (ap (λ (k : Line). k.changed) same),
    )

pub flags-Flagged :
    (aton : List ℕ → Option ℕ) (info : List CmdlineInfo) (args : List (List ℕ)) (l : Line)
    {l' : Line}
    → AreFlags info
    → Small l.store
    → parse_generic_cmdline aton info args l ≡ some l'
    → Flagged info args l l'
unfolding parse_generic_cmdline turned_on named
flags-Flagged aton info [] l f ok h = subst (Flagged info [] l) (some_eq h) (record {
  small = ok;
  wanted = λ j. omega (arith, zero-bit j);
  mask = λ j. omega (arith, zero-bit j);
  changed = λ e. e;
})
flags-Flagged aton info (name ∷ []) l f ok h = none_absurd h
flags-Flagged aton info (name ∷ arg ∷ rest) l {l'} f ok h =
    let (l1, one, more) =
      >>=-some (take_pair aton info name arg l) (λ l1. parse_generic_cmdline aton info rest l1) h in
    let (small, turned, now) = pair_of aton info name arg l f ok one in
    let on : ℕ = if str_eq arg (codes "on") then flag_of info name else 0 in
    let ok' =
      Small-turned l.store l1.store on (flag_of info name)
        (on_small (str_eq arg (codes "on")) (flag_of info name) small) small ok turned in
    let ih = flags-Flagged aton info rest l1 f ok' more in
    record {
      small = ih.small;
      wanted = λ j. omega (
        arith,
        ih.wanted j,
        (bits_of l.store l1.store on (flag_of info name) turned j).0,
        bit-bit_or on (turned_on info rest) j,
      );
      mask = λ j. omega (
        arith,
        ih.mask j,
        (bits_of l.store l1.store on (flag_of info name) turned j).1,
        bit-bit_or (flag_of info name) (named info rest) j,
      );
      changed = λ e. ih.changed now;
    }
