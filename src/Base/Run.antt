-- ===== src/Base/Run.antt =====
-- Loops of C: a normal end with its value, a memory access out of range, or fuel that ran out.
use Prim.Native.Nat.{ℕ, zero, suc, ◌<◌}
use mathlib.Core.Path.{◌≡◌, refl}
use mathlib.Core.List.{List, [], ◌∷◌}
use native.Mathlib.Omega.{arith}
use ethtool.Base.Lists.{length, get_or}

pub data Run {ℓ} (A : Type ℓ) : Type ℓ where
  done : A → Run A
  fault : Run A
  out_of_fuel : Run A

infixl 5 ◌>>=◌
abbrev pub ◌>>=◌ {ℓ κ} : {A : Type ℓ} {B : Type κ} → Run A → (A → Run B) → Run B
done a >>= f = f a
fault >>= f = fault
out_of_fuel >>= f = out_of_fuel

pub >>=_assoc {ℓ κ μ} :
    {A : Type ℓ} {B : Type κ} {C : Type μ} (m : Run A) (f : A → Run B) (g : B → Run C)
    → (m >>= f >>= g) ≡ (m >>= λ a. f a >>= g)
>>=_assoc (done a) f g = refl
>>=_assoc fault f g = refl
>>=_assoc out_of_fuel f g = refl

-- `array[i]`
pub load_elem {ℓ} : {A : Type ℓ} → List A → ℕ → Run A
load_elem [] i = fault
load_elem (x ∷ xs) zero = done x
load_elem (x ∷ xs) (suc i) = load_elem xs i

pub load_elem-eq-get_or {ℓ} :
    {A : Type ℓ} (xs : List A) (i : ℕ) (d : A)
    → i < length xs
    → load_elem xs i ≡ done (get_or xs i d)
unfolding load_elem
load_elem-eq-get_or [] i d h = elim h [ ]
load_elem-eq-get_or (x ∷ xs) zero d h = refl
load_elem-eq-get_or (x ∷ xs) (suc i) d h = load_elem-eq-get_or xs i d (omega arith)

-- `>>=` under a name, where `>>=` is that of another monad.
abbrev pub and_then {ℓ κ} : {A : Type ℓ} {B : Type κ} → Run A → (A → Run B) → Run B
and_then m f = m >>= f
