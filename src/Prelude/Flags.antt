-- ===== src/Prelude/Flags.antt =====
-- Arrays of flags (`uint8_t` cells that hold 0 or 1), and how many are set.
use Prim.Native.Nat.{ℕ, zero, suc, ◌+◌, ◌≤◌, ◌<◌}
use mathlib.Core.Path.{◌≡◌, refl}
use mathlib.Core.Bool.{Bool, true, false}
use mathlib.Core.List.{List, [], ◌∷◌}
use native.Mathlib.Omega.{arith}
use lib_ena.Prelude.Lists.{length, get_or, set, replicate}

abbrev pub bit : Bool → ℕ
bit true = 1
bit false = 0

unfoldable pub flags : List Bool → ℕ
flags [] = 0
flags (b ∷ bs) = bit b + flags bs

pub flags-set :
    (xs : List Bool) (i : ℕ) (v d : Bool)
    → i < length xs
    → flags (set xs i v) + bit (get_or xs i d) ≡ flags xs + bit v
unfolding flags
flags-set [] i v d h = absurd (omega arith)
flags-set (x ∷ xs) zero v d h = omega arith
flags-set (x ∷ xs) (suc i) v d h = omega (arith, flags-set xs i v d (omega arith))

pub flags-replicate : (n : ℕ) → flags (replicate n false) ≡ 0
unfolding flags
flags-replicate zero = refl
flags-replicate (suc n) = omega (arith, flags-replicate n)

pub bit-le-flags : (xs : List Bool) (i : ℕ) → bit (get_or xs i false) ≤ flags xs
unfolding flags
bit-le-flags [] i = omega arith
bit-le-flags (x ∷ xs) zero = omega arith
bit-le-flags (x ∷ xs) (suc i) = omega (arith, bit-le-flags xs i)
