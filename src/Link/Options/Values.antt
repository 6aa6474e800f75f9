-- ===== src/Link/Options/Values.antt =====
-- The values that the parsers of single options can give.
use ethtool.Base.{
  ℕ, ◌-◌, ◌^◌, ◌≤◌, ◌<◌, ◌≡◌, subst, bit_or, Bool, true, false, ◌||◌, not, Option, none, some, List,
  [], ◌∷◌, ◌==◌, if◌then◌else◌, arith, codes, if_none,
}
use ethtool.Base.Bits.{bit_or-lt}
use ethtool.Base.Int.{ℤ, pos, negsuc}
use ethtool.Base.Maybe.{>>=-some, some_eq, none_absurd}
use ethtool.Clib.{str_eq}
use ethtool.Clib.Strto.{Signed}
use ethtool.Cmdline.{in_range, lt_int}
use ethtool.Letters.{wol_letters, wol_letter}
use ethtool.Link.Options.{duplex_of, port_of, mdix_of, autoneg_of, xcvr_of}
use ethtool.Rxclass.Value.{is_empty}

-- -1, or a number up to k.
abbrev pub UpTo : ℕ → ℤ → Type 0
UpTo k (pos n) = n ≤ k
UpTo k (negsuc n) = n ≡ 0

-- An int.
abbrev pub InInt : ℤ → Type 0
InInt (pos n) = n < 2 ^ 31
InInt (negsuc n) = n < 2 ^ 31

pub choice {ℓ κ} :
    {A : Type ℓ} (P : A → Type κ) (b : Bool) (v : A) (o : Option A) {w : A}
    → P v
    → (o ≡ some w → P w)
    → (if b then some v else o) ≡ some w
    → P w
choice P true v o p q h = subst P (some_eq h) p
choice P false v o p q h = q h

pub duplex_of-UpTo : (arg : List ℕ) {v : ℤ} → duplex_of arg ≡ some v → UpTo 1 v
unfolding duplex_of
duplex_of-UpTo arg h =
    choice (UpTo 1) (str_eq arg (codes "half")) (pos 0) _ (omega arith)
      (choice (UpTo 1) (str_eq arg (codes "full")) (pos 1) none (omega arith) (λ e. none_absurd e))
      h

pub xcvr_of-UpTo : (arg : List ℕ) {v : ℤ} → xcvr_of arg ≡ some v → UpTo 1 v
unfolding xcvr_of
xcvr_of-UpTo arg h =
    choice (UpTo 1) (str_eq arg (codes "internal")) (pos 0) _ (omega arith)
      (choice (UpTo 1) (str_eq arg (codes "external")) (pos 1) none (omega arith)
        (λ e. none_absurd e))
      h

pub autoneg_of-UpTo : (arg : List ℕ) {v : ℤ} → autoneg_of arg ≡ some v → UpTo 1 v
unfolding autoneg_of
autoneg_of-UpTo arg h =
    choice (UpTo 1) (str_eq arg (codes "on")) (pos 1) _ (omega arith)
      (choice (UpTo 1) (str_eq arg (codes "off")) (pos 0) none (omega arith) (λ e. none_absurd e)) h

pub mdix_of-UpTo : (arg : List ℕ) {v : ℤ} → mdix_of arg ≡ some v → UpTo 3 v
unfolding mdix_of
mdix_of-UpTo arg h =
    choice (UpTo 3) (str_eq arg (codes "auto")) (pos 3) _ (omega arith)
      (choice (UpTo 3) (str_eq arg (codes "on")) (pos 2) _ (omega arith) (
        choice (UpTo 3) (str_eq arg (codes "off")) (pos 1) none (omega arith) (λ e. none_absurd e)))
      h

pub port_of-UpTo : (arg : List ℕ) {v : ℤ} → port_of arg ≡ some v → UpTo 4 v
unfolding port_of
port_of-UpTo arg h =
    choice (UpTo 4) (str_eq arg (codes "tp")) (pos 0) _ (omega arith)
      (choice (UpTo 4) (str_eq arg (codes "aui")) (pos 1) _ (omega arith) (
        choice (UpTo 4) (str_eq arg (codes "bnc")) (pos 4) _ (omega arith) (
          choice (UpTo 4) (str_eq arg (codes "mii")) (pos 2) _ (omega arith) (
            choice (UpTo 4) (str_eq arg (codes "fibre")) (pos 3) none (omega arith)
              (λ e. none_absurd e)))))
      h

last_two : (a b c d : Bool) → (a || b || c || d) ≡ false → (c ≡ false) × (d ≡ false)
last_two a b c d h = ground arith

bounded :
    (z : ℤ) → lt_int z (negsuc (2 ^ 31 - 1)) ≡ false → lt_int (pos (2 ^ 31 - 1)) z ≡ false → InInt z
bounded (pos n) h h' = ground arith
bounded (negsuc n) h h' = ground arith

pub in_int :
    (r : Signed) {v : ℤ} → in_range r (negsuc (2 ^ 31 - 1)) (pos (2 ^ 31 - 1)) ≡ some v → InInt v
in_int r h =
    let (guard, e) =
      if_none
        (r.erange
          || not (is_empty r.rest)
          || lt_int r.value (negsuc (2 ^ 31 - 1))
          || lt_int (pos (2 ^ 31 - 1)) r.value)
        _ h in
    let (low, high) = last_two r.erange (not (is_empty r.rest)) _ _ guard in
    subst InInt (some_eq e) (bounded r.value low high)

wol-lt : (c opts : ℕ) {v : ℕ} → opts < 256 → wol_letter c opts ≡ some v → v < 256
unfolding wol_letter
wol-lt c opts small h =
    let P : ℕ → Type 0 = λ v. v < 256 in
    let or : (k : ℕ) → k < 256 → bit_or opts k < 256 = λ k l. bit_or-lt 8 opts k small l in
    choice P (c == b'p') _ _ (or 1 (omega arith))
      (choice P (c == b'u') _ _ (or 2 (omega arith)) (
        choice P (c == b'm') _ _ (or 4 (omega arith)) (
          choice P (c == b'b') _ _ (or 8 (omega arith)) (
            choice P (c == b'a') _ _ (or 16 (omega arith)) (
              choice P (c == b'g') _ _ (or 32 (omega arith)) (
                choice P (c == b's') _ _ (or 64 (omega arith)) (
                  choice P (c == b'f') _ _ (or 128 (omega arith))
                    (choice P (c == b'd') 0 none (omega arith) (λ e. none_absurd e)))))))))
      h

pub wols-lt : (s : List ℕ) (opts : ℕ) {v : ℕ} → opts < 256 → wol_letters s opts ≡ some v → v < 256
unfolding wol_letters
wols-lt [] opts small h = subst (λ n. n < 256) (some_eq h) small
wols-lt (c ∷ s) opts small h =
    let (n, read, rest) = >>=-some (wol_letter c opts) (wol_letters s) h in
    wols-lt s n (wol-lt c opts small read) rest
