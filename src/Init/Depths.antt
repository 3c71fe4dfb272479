-- ===== src/Init/Depths.antt =====
-- The queue limits that the driver accepts: src/ena_init.c, `clamp_queue_depth` and
-- `ena_init_get_queue_limits`, with `ena_is_power_of_two` of src/ena_datapath.c.
use lib_ena.Prelude.{
  ℕ, zero, suc, ◌-◌, ◌*◌, ◌/◌, ◌%◌, ◌^◌, ◌≤◌, ◌<◌, bit_and, ◌==◌, ltb, ◌≡◌, ◌≢◌, refl, sym, ap, inl,
  ◌⊎◌, inr, true, if◌then◌else◌, Bool-cases, arith,
}
use mathlib.Core.Path.{subst}
use native.Mathlib.Nat.{pow-suc, one-le-pow}
use lib_ena.Prelude.Bits.{bit_and_step, bit_and_self_below}
use lib_ena.Ring.{u16}
use lib_ena.Ring.Depth.{is_power_of_two}
use lib_ena.Init.{round_down, clamp_queue_depth}

-- `d & (d - 1)`, the lowest bit cleared.
abbrev cleared : ℕ → ℕ
cleared d = bit_and d (d - 1)

cleared-odd : (d : ℕ) → d % 2 ≡ 1 → cleared d ≡ d - 1
cleared-odd d odd =
    let same : (d - 1) / 2 ≡ d / 2 = omega arith in
    omega (
      arith,
      bit_and_step d (d - 1),
      ap (bit_and (d / 2)) same,
      bit_and_self_below d (d / 2) (omega arith),
    )

cleared-even : (d : ℕ) → d % 2 ≡ 0 → cleared d ≡ cleared (d / 2) * 2
cleared-even zero even = refl
cleared-even (suc d) even =
    let low : (suc d - 1) / 2 ≡ suc d / 2 - 1 = omega arith in
    omega (arith, bit_and_step (suc d) (suc d - 1), ap (bit_and (suc d / 2)) low)

parity : (d : ℕ) → (d % 2 ≡ 1) ⊎ (d % 2 ≡ 0)
parity d = ground arith

cleared-lt : (n d : ℕ) → d ≤ n → 0 < d → cleared d < d
cleared-lt zero d b h = absurd (omega arith)
cleared-lt (suc n) d b h = elim (parity d) [
  | inl odd ↦ omega (arith, cleared-odd d odd)
  | inr even ↦
      let half = cleared-lt n (d / 2) (omega arith) (omega arith) in
      omega (arith, cleared-even d even, half)
]

-- A power of two up to a number is still up to it without its lowest bit, where that is not 0.
cleared-ge : (n d k : ℕ) → d ≤ n → cleared d ≢ 0 → 2 ^ k ≤ d → 2 ^ k ≤ cleared d
cleared-ge zero d k b z h =
    let none_left : d ≡ 0 = omega (arith, b) in absurd (z (ap cleared none_left))
cleared-ge (suc n) d zero b z h = omega (arith, z)
cleared-ge (suc n) d (suc k) b z h = elim (parity d) [
  | inl odd ↦ omega (arith, cleared-odd d odd, pow-suc 2 k)
  | inr even ↦
      let e = cleared-even d even in
      let half =
        cleared-ge n (d / 2) k (omega (arith, b, one-le-pow (suc k) 2 (omega arith)))
          (λ y. z (omega (arith, e, y))) (omega (arith, h, even, pow-suc 2 k)) in
      omega (arith, e, half, pow-suc 2 k)
]

-- What the rounding of `d` gives.
record Rounded (d r : ℕ) : Type 0 where
  alone : cleared r ≡ 0
  below : r ≤ d
  largest : (k : ℕ) → 2 ^ k ≤ d → 2 ^ k ≤ r

round_down-Rounded : (fuel d : ℕ) → d ≤ fuel → 0 < d → Rounded d (round_down fuel d)
unfolding round_down
round_down-Rounded zero d b h = absurd (omega arith)
round_down-Rounded (suc fuel) d b h = elim (Bool-cases (cleared d == 0)) [
  | inl e ↦ rw e (record { alone = ground arith; below = omega arith; largest = λ k l. l })
  | inr e ↦
      let more : cleared d ≢ 0 = ground arith in
      let less = cleared-lt d d (omega arith) h in
      let r = round_down-Rounded fuel (cleared d) (omega (arith, less, b)) (omega (arith, more)) in
      rw e (record {
        alone = r.alone;
        below = omega (arith, r.below, less);
        largest = λ k l. r.largest k (cleared-ge d d k (omega arith) more l);
      })
]

-- A depth that the driver offers for a raw limit of the device.
pub record Offered (raw r : ℕ) : Type 0 where
  pub accepted : is_power_of_two r ≡ true
  pub upper : r ≤ 4096
  pub below : 4 ≤ raw → r ≤ raw
  pub largest : (k : ℕ) → 2 ^ k ≤ raw → 2 ^ k ≤ 4096 → 2 ^ k ≤ r

Rounded-Offered :
    (raw d r : ℕ)
    → 4 ≤ d
    → d ≤ 4096
    → (4 ≤ raw → d ≤ raw)
    → ((k : ℕ) → 2 ^ k ≤ raw → 2 ^ k ≤ 4096 → 2 ^ k ≤ d)
    → Rounded d r
    → Offered raw (u16 r)
unfolding is_power_of_two
Rounded-Offered raw d r lo hi le big v =
    let same : u16 r ≡ r = omega (arith, v.below, hi) in
    let low : 4 ≤ r = v.largest 2 lo in
    subst (Offered raw) (sym same) (record {
      accepted = ground (arith, low, v.alone);
      upper = omega (arith, v.below, hi);
      below = λ h. omega (arith, v.below, le h);
      largest = λ k h q. v.largest k (big k h q);
    })

-- `clamp_queue_depth` of any raw depth: the result is a depth that `ena_ring_alloc` accepts, at most
-- 4096, at most the raw depth if that is 4 or more, and no power of two up to 4096 and the raw depth
-- is larger.
pub clamp_queue_depth-Offered : (raw : ℕ) → Offered raw (clamp_queue_depth raw)
unfolding clamp_queue_depth
clamp_queue_depth-Offered raw =
    let upper : ℕ = if ltb 4096 raw then 4096 else raw in
    let d : ℕ = if ltb upper 4 then 4 else upper in
    Rounded-Offered raw d (round_down d d) (ground arith) (ground arith) (λ h. ground arith)
      (λ k h q. ground arith) (round_down-Rounded d d (omega arith) (ground arith))
