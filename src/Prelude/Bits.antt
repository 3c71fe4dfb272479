-- ===== src/Prelude/Bits.antt =====
-- Masks, shifts and bit fields of machine words, from the digit recursion that a native bit
-- operation stands for.
use Prim.Native.Nat.{
  ℕ, zero, suc, ◌+◌, ◌-◌, ◌*◌, ◌/◌, ◌%◌, ◌^◌, ◌≤◌, ◌<◌, min, max, bit_and, bit_or, digits,
  bit_and-bitwise, bit_or-bitwise,
}
use mathlib.Core.Path.{◌≡◌, refl, ap, ap₂, ◌∙◌, sym}
use mathlib.Core.Logic.{◌⊎◌, inl, inr}
use native.Mathlib.Nat.{
  pow-suc, one-le-pow, div-div-eq-div-mul, mul_comm, div-one, mod-one, mod-lt, mod-eq_of_lt,
  div-add-mod', mul-add-mod_self_right,
}
use native.Mathlib.Omega.{arith}

-- A digit recursion does not depend on its fuel, as long as the fuel bounds the first number.
module _ (rest : ℕ → ℕ) (digit : ℕ → ℕ → ℕ) where
  same_digits :
      (x y fuel more : ℕ)
      → x ≤ fuel
      → x ≤ more
      → digits rest digit more x y ≡ digits rest digit fuel x y
  same_digits zero y zero zero h k = refl
  same_digits zero y zero (suc more) h k = refl
  same_digits zero y (suc fuel) zero h k = refl
  same_digits zero y (suc fuel) (suc more) h k = refl
  same_digits (suc x) y zero more h k = absurd (omega (arith, h))
  same_digits (suc x) y (suc fuel) zero h k = absurd (omega (arith, k))
  same_digits (suc x) y (suc fuel) (suc more) h k =
      ap (λ high. high * 2 + digit (suc x % 2) (y % 2))
        (same_digits (suc x / 2) (y / 2) fuel more (omega (arith, h)) (omega (arith, k)))

  first_digit :
      (x y : ℕ)
      → digits rest digit (suc x) (suc x) y
        ≡ digits rest digit (suc x / 2) (suc x / 2) (y / 2) * 2 + digit (suc x % 2) (y % 2)
  first_digit x y =
      ap (λ high. high * 2 + digit (suc x % 2) (y % 2))
        (same_digits (suc x / 2) (y / 2) (suc x / 2) x (omega arith) (omega arith))

-- The two operations one binary digit at a time.
pub bit_and_step : (x y : ℕ) → bit_and x y ≡ bit_and (x / 2) (y / 2) * 2 + min (x % 2) (y % 2)
bit_and_step zero y = omega (arith, bit_and-bitwise 0 (y / 2), bit_and-bitwise 0 y)
bit_and_step (suc x) y =
    bit_and-bitwise (suc x) y
    ∙ first_digit (λ _. 0) min x y
    ∙ ap (λ high. high * 2 + min (suc x % 2) (y % 2)) (sym (bit_and-bitwise (suc x / 2) (y / 2)))

bit_or_step : (x y : ℕ) → bit_or x y ≡ bit_or (x / 2) (y / 2) * 2 + max (x % 2) (y % 2)
bit_or_step zero y = omega (arith, bit_or-bitwise 0 (y / 2), bit_or-bitwise 0 y)
bit_or_step (suc x) y =
    bit_or-bitwise (suc x) y
    ∙ first_digit (λ high. high) max x y
    ∙ ap (λ high. high * 2 + max (suc x % 2) (y % 2)) (sym (bit_or-bitwise (suc x / 2) (y / 2)))

bit_or-zero_upto : (bound x : ℕ) → x ≤ bound → bit_or x 0 ≡ x
bit_or-zero_upto bound zero le = refl
bit_or-zero_upto zero (suc x) le = absurd (omega (arith, le))
bit_or-zero_upto (suc bound) (suc x) le =
    let high = bit_or-zero_upto bound (suc x / 2) (omega (arith, le)) in
    omega (arith, high, bit_or_step (suc x) 0)

pub bit_or-zero : (a : ℕ) → bit_or a 0 ≡ a
bit_or-zero a = bit_or-zero_upto a a (omega arith)

bit_and-zero_upto : (bound x : ℕ) → x ≤ bound → bit_and x 0 ≡ 0
bit_and-zero_upto bound zero le = refl
bit_and-zero_upto zero (suc x) le = absurd (omega (arith, le))
bit_and-zero_upto (suc bound) (suc x) le =
    let high = bit_and-zero_upto bound (suc x / 2) (omega (arith, le)) in
    omega (arith, high, bit_and_step (suc x) 0)

pub bit_and-zero : (a : ℕ) → bit_and a 0 ≡ 0
bit_and-zero a = bit_and-zero_upto a a (omega arith)

pub bit_and_self_below : (n a : ℕ) → a ≤ n → bit_and a a ≡ a
bit_and_self_below n zero h = refl
bit_and_self_below zero (suc a) h = absurd (omega arith)
bit_and_self_below (suc n) (suc a) h =
    omega (arith, bit_and_step (suc a) (suc a), bit_and_self_below n (suc a / 2) (omega arith))

div-pow_suc : (a k : ℕ) → a / 2 ^ suc k ≡ a / 2 / 2 ^ k
div-pow_suc a k =
    ap (λ t. a / t) (pow-suc 2 k ∙ mul_comm (2 ^ k) 2) ∙ sym (div-div-eq-div-mul a 2 (2 ^ k))

mod-pow_suc : (a k : ℕ) → a % 2 ^ suc k ≡ a / 2 % 2 ^ k * 2 + a % 2
mod-pow_suc a k =
    ap (λ t. t % 2 ^ suc k) split
    ∙ mul-add-mod_self_right (a / 2 / 2 ^ k) (2 ^ suc k) (a / 2 % 2 ^ k * 2 + a % 2)
    ∙ mod-eq_of_lt small
  where
    split : a ≡ a / 2 / 2 ^ k * 2 ^ suc k + (a / 2 % 2 ^ k * 2 + a % 2)
    split = omega (arith, ap (λ t. a / 2 / 2 ^ k * t) (pow-suc 2 k), div-add-mod' (a / 2) (2 ^ k))

    small : a / 2 % 2 ^ k * 2 + a % 2 < 2 ^ suc k
    small = omega (arith, pow-suc 2 k, mod-lt (a / 2) (one-le-pow k 2 (omega arith)))

-- A shift to the right goes through `|`.
pub bit_or-div : (k a b : ℕ) → bit_or a b / 2 ^ k ≡ bit_or (a / 2 ^ k) (b / 2 ^ k)
bit_or-div zero a b = rw (div-one, div-one, div-one)
bit_or-div (suc k) a b =
    rw
      (div-pow_suc (bit_or a b) k, div-pow_suc a k, div-pow_suc b k, ← bit_or-div k (a / 2) (b / 2))
      (ap (λ t. t / 2 ^ k) (omega (arith, bit_or_step a b)))

-- So does a cut to the low bits.
pub bit_or-mod : (k a b : ℕ) → bit_or a b % 2 ^ k ≡ bit_or (a % 2 ^ k) (b % 2 ^ k)
bit_or-mod zero a b = rw (mod-one, mod-one, mod-one)
bit_or-mod (suc k) a b = omega (
  arith,
  mod-pow_suc (bit_or a b) k,
  mod-pow_suc a k,
  mod-pow_suc b k,
  bit_or_step a b,
  ap (λ t. t % 2 ^ k) halves,
  bit_or-mod k (a / 2) (b / 2),
  bit_or_step (a % 2 ^ suc k) (b % 2 ^ suc k),
  ap₂ bit_or (half a) (half b),
)
  where
    halves : bit_or a b / 2 ≡ bit_or (a / 2) (b / 2)
    halves = omega (arith, bit_or_step a b)

    half : (c : ℕ) → c % 2 ^ suc k / 2 ≡ c / 2 % 2 ^ k
    half c = omega (arith, mod-pow_suc c k)

-- A mask of `k` ones is the remainder by `2 ^ k`.
pub bit_and_mask : (k a : ℕ) → bit_and a (2 ^ k - 1) ≡ a % 2 ^ k
bit_and_mask zero a = rw (mod-one) (bit_and-zero a)
bit_and_mask (suc k) a = omega (
  arith,
  bit_and_step a (2 ^ suc k - 1),
  ap (bit_and (a / 2)) half,
  bit_and_mask k (a / 2),
  mod-pow_suc a k,
  pow-suc 2 k,
  one-le-pow k 2 (omega arith),
)
  where
    half : (2 ^ suc k - 1) / 2 ≡ 2 ^ k - 1
    half = omega (arith, pow-suc 2 k, one-le-pow k 2 (omega arith))

-- A number that shares no bit with its predecessor is a power of two.
pub pow_of_bit_and : (n v : ℕ) → v ≤ n → 0 < v → bit_and v (v - 1) ≡ 0 → (k : ℕ) × (v ≡ 2 ^ k)
pow_of_bit_and zero v b h e = absurd (omega arith)
pow_of_bit_and (suc n) v b h e = elim (parity v) [
  | inl odd ↦ (0, odd_case odd)
  | inr even ↦
      let half = pow_of_bit_and n (v / 2) (omega arith) (omega arith) (even_case even) in
      (suc half.0, omega (arith, half.1, pow-suc 2 half.0))
]
  where
    parity : (m : ℕ) → (m % 2 ≡ 1) ⊎ (m % 2 ≡ 0)
    parity m = ground arith

    odd_case : v % 2 ≡ 1 → v ≡ 2 ^ 0
    odd_case odd =
        let same : (v - 1) / 2 ≡ v / 2 = omega arith in
        omega (
          arith,
          bit_and_step v (v - 1),
          ap (bit_and (v / 2)) same,
          bit_and_self_below v (v / 2) (omega arith),
        )

    even_case : v % 2 ≡ 0 → bit_and (v / 2) (v / 2 - 1) ≡ 0
    even_case even =
        let low : (v - 1) / 2 ≡ v / 2 - 1 = omega arith in
        omega (arith, bit_and_step v (v - 1), ap (bit_and (v / 2)) low)
