-- ===== src/Netdev/Depth.antt =====
-- The number of descriptors of a queue: `ena_netdev_clamp_desc_count` (src/ena_netdev.c).
use lib_ena.Prelude.{
  ℕ, zero, suc, ◌+◌, ◌-◌, ◌^◌, ◌≤◌, ◌<◌, ◌≡◌, ◌≢◌, sym, ◌∙◌, bit_and, ◌==◌, ltb, leb, not, ◌&&◌,
  if◌then◌else◌, true, false, Bool-cases, inl, inr, arith,
}
use mathlib.Core.Path.{subst}
use native.Mathlib.Nat.{mod_self, pow-le-pow_right}
use lib_ena.Prelude.Bits.{bit_and_mask}
use lib_ena.Ring.{u16}
use lib_ena.Ring.Depth.{is_power_of_two}

-- `__builtin_clz`: the zeros above the highest bit, in a word of so many bits.
unfoldable pub clz : ℕ → ℕ → ℕ
clz zero v = 0
clz (suc bits) v = let rest = clz bits v in if leb (2 ^ bits) v then 0 else rest + 1

-- `ena_netdev_round_down_pow2`
unfoldable pub round_down_pow2 : ℕ → ℕ
round_down_pow2 v = if v == 0 then 0 else 2 ^ (31 - clz 32 v)

-- `ena_netdev_clamp_desc_count`
unfoldable pub clamp_desc_count : ℕ → ℕ → ℕ
clamp_desc_count nb_desc max_ring_size =
    let asked =
      if nb_desc == 0 then if not (max_ring_size == 0) then max_ring_size else 256 else nb_desc in
    let within =
      if not (max_ring_size == 0) && ltb max_ring_size asked then max_ring_size else asked in
    let upper = if ltb 4096 within then 4096 else within in
    let lower = if ltb upper 4 then 4 else upper in u16 (round_down_pow2 lower)

-- The highest bit of a number below `2 ^ bits`.
clz-bounds :
    (bits v : ℕ)
    → 0 < v
    → v < 2 ^ bits
    → (k : ℕ) × (suc k + clz bits v ≡ bits) × (2 ^ k ≤ v) × (v < 2 ^ suc k)
unfolding clz
clz-bounds zero v h l = absurd (omega (arith, l))
clz-bounds (suc bits) v h l = elim (Bool-cases (leb (2 ^ bits) v)) [
  | inl e ↦ (bits, rw e (omega arith), ground (arith, e), l)
  | inr e ↦
      let (k, same, lo, hi) = clz-bounds bits v h (ground (arith, e)) in
      (k, rw e (omega (arith, same)), lo, hi)
]

power_alone : (k : ℕ) → bit_and (2 ^ k) (2 ^ k - 1) ≡ 0
power_alone k = bit_and_mask k (2 ^ k) ∙ mod_self (2 ^ k)

-- What a rounded number is.
record Rounded (d r : ℕ) : Type 0 where
  alone : bit_and r (r - 1) ≡ 0
  below : r ≤ d
  largest : (j : ℕ) → 2 ^ j ≤ d → 2 ^ j ≤ r

round_down_pow2-Rounded : (d : ℕ) → 0 < d → d < 2 ^ 32 → Rounded d (round_down_pow2 d)
unfolding round_down_pow2
round_down_pow2-Rounded d h l =
    let (k, same, lo, hi) = clz-bounds 32 d h l in
    let some_bit : (d == 0) ≡ false = ground arith in
    let at : 31 - clz 32 d ≡ k = omega (arith, same) in
    rw some_bit (
      rw at (record {
        alone = power_alone k;
        below = lo;
        largest = λ j b. elim (Bool-cases (leb j k)) [
          | inl e ↦ pow-le-pow_right (omega arith) (ground (arith, e))
          | inr e ↦
              let over : 2 ^ suc k ≤ 2 ^ j =
                pow-le-pow_right {n = 2} (omega arith) (ground (arith, e)) in
              absurd (omega (arith, over, b, hi))
        ];
      }))

-- The number that a queue asks for; 0 asks for the most that the device offers.
abbrev pub wanted : ℕ → ℕ → ℕ
wanted nb_desc max_ring_size =
    if nb_desc == 0 then if not (max_ring_size == 0) then max_ring_size else 256 else nb_desc

-- A number of descriptors for a request.
pub record Clamped (nb_desc max_ring_size r : ℕ) : Type 0 where
  pub accepted : is_power_of_two r ≡ true
  pub upper : r ≤ 4096
  pub offered : 4 ≤ max_ring_size → r ≤ max_ring_size
  pub below : 4 ≤ nb_desc → r ≤ nb_desc
  pub largest :
      (k : ℕ)
      → 2 ^ k ≤ wanted nb_desc max_ring_size
      → (max_ring_size ≢ 0 → 2 ^ k ≤ max_ring_size)
      → 2 ^ k ≤ 4096
      → 2 ^ k ≤ r

Rounded-Clamped :
    (nb max d r : ℕ)
    → 4 ≤ d
    → d ≤ 4096
    → (4 ≤ max → d ≤ max)
    → (4 ≤ nb → d ≤ nb)
    → ((k : ℕ) → 2 ^ k ≤ wanted nb max → (max ≢ 0 → 2 ^ k ≤ max) → 2 ^ k ≤ 4096 → 2 ^ k ≤ d)
    → Rounded d r
    → Clamped nb max (u16 r)
unfolding is_power_of_two
Rounded-Clamped nb max d r lo hi le le_nb big v =
    let same : u16 r ≡ r = omega (arith, v.below, hi) in
    let low : 4 ≤ r = v.largest 2 lo in
    subst (Clamped nb max) (sym same) (record {
      accepted = ground (arith, low, v.alone);
      upper = omega (arith, v.below, hi);
      offered = λ h. omega (arith, v.below, le h);
      below = λ h. omega (arith, v.below, le_nb h);
      largest = λ k h m q. v.largest k (big k h m q);
    })

-- A number that passes each of the three cuts.
limited_ge :
    (max a x : ℕ)
    → x ≤ a
    → (max ≢ 0 → x ≤ max)
    → x ≤ (if not (max == 0) && ltb max a then max else a)
limited_ge max a x h m = elim (Bool-cases (not (max == 0) && ltb max a)) [
  | inl e ↦ rw e (m (ground (arith, e)))
  | inr e ↦ rw e h
]

cut_ge : (lim a x : ℕ) → x ≤ a → x ≤ lim → x ≤ (if ltb lim a then lim else a)
cut_ge lim a x h m = ground arith

raised_ge : (a x : ℕ) → x ≤ a → x ≤ (if ltb a 4 then 4 else a)
raised_ge a x h = ground arith

-- `ena_netdev_clamp_desc_count` of any request and any limit of the device, 0 for none: the result is a
-- depth that `ena_ring_alloc` accepts, at most 4096, at most the limit and the request where these are 4
-- or more, and no power of two within 4096, the limit and what was asked for is larger.
pub clamp_desc_count-Clamped : (nb max : ℕ) → Clamped nb max (clamp_desc_count nb max)
unfolding clamp_desc_count
clamp_desc_count-Clamped nb max =
    let asked = wanted nb max in
    let within : ℕ = if not (max == 0) && ltb max asked then max else asked in
    let upper : ℕ = if ltb 4096 within then 4096 else within in
    let d : ℕ = if ltb upper 4 then 4 else upper in
    let lo : 4 ≤ d = ground arith in
    let hi : d ≤ 4096 = ground arith in
    Rounded-Clamped nb max d (round_down_pow2 d) lo hi (λ h. ground arith) (λ h. ground arith)
      (λ k h m q. raised_ge upper _ (cut_ge 4096 within _ (limited_ge max asked _ h m) q))
      (round_down_pow2-Rounded d (omega (arith, lo)) (omega (arith, hi)))
