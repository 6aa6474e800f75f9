-- ===== src/Settings/Eee.antt =====
-- do_seee and a mask of modes that is negative as an int.
use ethtool.Base.{
  ℕ, ◌^◌, ◌≤◌, ◌<◌, ◌≡◌, refl, ap, ◌∙◌, subst, Bool, true, false, Option, none, some, List, [], ◌∷◌,
  ltb, arith, codes, if_none, not, ◌||◌,
}
use ethtool.Base.Bytes.{le_bytes, le_value, le_value-le_bytes}
use ethtool.Base.Maybe.{some_eq}
use ethtool.Clib.{str_eq}
use ethtool.Clib.Strto.{strtoull}
use ethtool.Cmdline.{
  CmdlineInfo, Store, Line, negative, do_generic_set1, do_generic_set, parse_generic_cmdline,
  take_pair, find_info, set_wanted, see, number, get_u32, get_uint_range, write,
}
use ethtool.Rxclass.Value.{is_empty}
use ethtool.Settings.{
  eee, cmdline_eee, current, unset_below, write_back, merge_with, set_settings, do_seee,
}

skipped :
    (i : CmdlineInfo) (line : Line)
    → negative (le_value (line.store i.wanted_val)) ≡ true
    → do_generic_set1 i line ≡ line
unfolding do_generic_set1
skipped i line h = rw h refl

-- The wanted values of the table are all negative.
abbrev AllNegative : Line → List CmdlineInfo → Type 0
AllNegative line [] = Unit
AllNegative line (i ∷ info) =
    (negative (le_value (line.store i.wanted_val)) ≡ true) × AllNegative line info

all_skipped :
    (info : List CmdlineInfo) (line : Line)
    → AllNegative line info
    → do_generic_set info line ≡ line
unfolding do_generic_set
all_skipped [] line h = refl
all_skipped (i ∷ info) line (h, hs) =
    ap (do_generic_set info) (skipped i line h) ∙ all_skipped info line hs

-- Only `advertise` was given.
abbrev advertised : Store → ℕ → Store
advertised stack v = write (unset_below 4 stack) 0 (le_bytes 4 v)

nothing_set :
    (stack device : Store) (v : ℕ)
    → v < 2 ^ 32
    → 2 ^ 31 ≤ v
    → do_generic_set cmdline_eee (current eee (advertised stack v) device)
      ≡ current eee (advertised stack v) device
nothing_set stack device v small high =
    let line : Line = current eee (advertised stack v) device in
    let big : negative (le_value (le_bytes 4 v)) ≡ true =
      ap negative (le_value-le_bytes 4 v small) ∙ ground arith in
    all_skipped cmdline_eee line (big, (refl, (refl, (refl, tt))))

last_of : (a b c : Bool) → (a || b || c) ≡ false → c ≡ false
last_of a b c h = ground arith

not_above : (n : ℕ) → ltb 0xffffffff n ≡ false → n < 2 ^ 32
not_above n h = ground arith

u32-lt : (arg : List ℕ) {v : ℕ} → get_u32 arg ≡ some v → v < 2 ^ 32
unfolding get_u32 get_uint_range
u32-lt arg h =
    let r = strtoull arg in
    let (guard, e) = if_none (r.erange || not (is_empty r.rest) || ltb 0xffffffff r.value) _ h in
    subst (λ n. n < 2 ^ 32) (some_eq e)
      (not_above r.value (last_of r.erange (not (is_empty r.rest)) _ guard))

-- `advertise` with a mask whose bit 31 is set, alone and read as a number, is not a change: the
-- program writes nothing, whatever the device advertises, and the status is 0.
pub do_seee_ignores :
    (aton : List ℕ → Option ℕ) (accepts : Store → Bool) (stack device : Store) (arg : List ℕ)
    (v : ℕ)
    → get_u32 arg ≡ some v
    → 2 ^ 31 ≤ v
    → do_seee aton accepts stack (some device) (codes "advertise" ∷ arg ∷ [])
      ≡ some (record { status = 0; sent = none })
unfolding do_seee set_settings merge_with write_back parse_generic_cmdline take_pair find_info
    str_eq set_wanted see number get_u32
do_seee_ignores aton accepts stack device arg v read high =
    rw (read, nothing_set stack device v (u32-lt arg read) high) refl
