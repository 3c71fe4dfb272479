-- ===== src/Ring/Phase.antt =====
-- The phase bit of a queue tells the laps of its counter apart.
use lib_ena.Prelude.{ℕ, zero, suc, ◌+◌, ◌/◌, ◌%◌, ◌^◌, ◌≤◌, ◌<◌, ◌≡◌, ◌≢◌, sym, ◌∙◌, arith}
use Prim.Native.Nat.{bit_xor}
use mathlib.Core.Path.{subst}
use native.Mathlib.Nat.{pow-le-pow_right}
use lib_ena.Ring.{u16}
use lib_ena.Ring.Depth.{IsDepth, ring_index, ring_index-mod}
use lib_ena.Ring.Advance.{next_phase}

-- The phase that stands for a counter: 1 on the first lap, then 0, and so on.
abbrev pub phase_at : ℕ → ℕ → ℕ
phase_at d count = (1 + count / d) % 2

-- A statement about an exponent below 16 holds if it holds of each.
below_16 :
    (P : ℕ → Type 0)
    → P 0
    → P 1
    → P 2
    → P 3
    → P 4
    → P 5
    → P 6
    → P 7
    → P 8
    → P 9
    → P 10
    → P 11
    → P 12
    → P 13
    → P 14
    → P 15
    → (k : ℕ) → k < 16
    → P k
below_16 P p0 p1 p2 p3 p4 p5 p6 p7 p8 p9 p10 p11 p12 p13 p14 p15 zero h = p0
below_16 P p0 p1 p2 p3 p4 p5 p6 p7 p8 p9 p10 p11 p12 p13 p14 p15 (suc zero) h = p1
below_16 P p0 p1 p2 p3 p4 p5 p6 p7 p8 p9 p10 p11 p12 p13 p14 p15 (suc (suc zero)) h = p2
below_16 P p0 p1 p2 p3 p4 p5 p6 p7 p8 p9 p10 p11 p12 p13 p14 p15 (suc (suc (suc zero))) h = p3
below_16 P p0 p1 p2 p3 p4 p5 p6 p7 p8 p9 p10 p11 p12 p13 p14 p15 (suc (suc (suc (suc zero)))) h = p4
below_16 P p0 p1 p2 p3 p4 p5 p6 p7 p8 p9 p10 p11 p12 p13 p14 p15 (suc (suc (suc (suc (suc zero)))))
      h =
    p5
below_16 P p0 p1 p2 p3 p4 p5 p6 p7 p8 p9 p10 p11 p12 p13 p14 p15
      (suc (suc (suc (suc (suc (suc zero)))))) h =
    p6
below_16 P p0 p1 p2 p3 p4 p5 p6 p7 p8 p9 p10 p11 p12 p13 p14 p15
      (suc (suc (suc (suc (suc (suc (suc zero))))))) h =
    p7
below_16 P p0 p1 p2 p3 p4 p5 p6 p7 p8 p9 p10 p11 p12 p13 p14 p15
      (suc (suc (suc (suc (suc (suc (suc (suc zero)))))))) h =
    p8
below_16 P p0 p1 p2 p3 p4 p5 p6 p7 p8 p9 p10 p11 p12 p13 p14 p15
      (suc (suc (suc (suc (suc (suc (suc (suc (suc zero))))))))) h =
    p9
below_16 P p0 p1 p2 p3 p4 p5 p6 p7 p8 p9 p10 p11 p12 p13 p14 p15
      (suc (suc (suc (suc (suc (suc (suc (suc (suc (suc zero)))))))))) h =
    p10
below_16 P p0 p1 p2 p3 p4 p5 p6 p7 p8 p9 p10 p11 p12 p13 p14 p15
      (suc (suc (suc (suc (suc (suc (suc (suc (suc (suc (suc zero))))))))))) h =
    p11
below_16 P p0 p1 p2 p3 p4 p5 p6 p7 p8 p9 p10 p11 p12 p13 p14 p15
      (suc (suc (suc (suc (suc (suc (suc (suc (suc (suc (suc (suc zero)))))))))))) h =
    p12
below_16 P p0 p1 p2 p3 p4 p5 p6 p7 p8 p9 p10 p11 p12 p13 p14 p15
      (suc (suc (suc (suc (suc (suc (suc (suc (suc (suc (suc (suc (suc zero))))))))))))) h =
    p13
below_16 P p0 p1 p2 p3 p4 p5 p6 p7 p8 p9 p10 p11 p12 p13 p14 p15
      (suc (suc (suc (suc (suc (suc (suc (suc (suc (suc (suc (suc (suc (suc zero)))))))))))))) h =
    p14
below_16 P p0 p1 p2 p3 p4 p5 p6 p7 p8 p9 p10 p11 p12 p13 p14 p15
      (suc (suc (suc (suc (suc (suc (suc (suc (suc (suc (suc (suc (suc (suc (suc zero)))))))))))))))
      h =
    p15
below_16 P p0 p1 p2 p3 p4 p5 p6 p7 p8 p9 p10 p11 p12 p13 p14 p15
      (suc
        (suc (suc (suc (suc (suc (suc (suc (suc (suc (suc (suc (suc (suc (suc (suc k))))))))))))))))
      h =
    absurd (omega arith)

exponent_small : {d : ℕ} (w : IsDepth d) → w.exponent < 16
exponent_small w =
    let big : ¬ (16 ≤ w.exponent) =
      λ h. omega (arith, w.upper, w.power, pow-le-pow_right {n = 2} (omega arith) h) in
    omega arith

-- How the phase moves when a counter is incremented, and over a whole lap.
abbrev Moves : ℕ → Type 0
Moves d =
    (h : ℕ)
    → h < 65536
    → (((h + 1) % 65536 % d ≡ 0) → phase_at d ((h + 1) % 65536) + phase_at d h ≡ 1)
      × (((h + 1) % 65536 % d ≢ 0) → phase_at d ((h + 1) % 65536) ≡ phase_at d h)
      × ((h + d) % 65536 % d ≡ h % d)
      × (phase_at d ((h + d) % 65536) ≢ phase_at d h)

pow-Moves : (k : ℕ) → k < 16 → Moves (2 ^ k)
pow-Moves =
    below_16 (λ k. Moves (2 ^ k)) (λ h l. omega arith) (λ h l. omega arith) (λ h l. omega arith)
      (λ h l. omega arith) (λ h l. omega arith) (λ h l. omega arith) (λ h l. omega arith)
      (λ h l. omega arith) (λ h l. omega arith) (λ h l. omega arith) (λ h l. omega arith)
      (λ h l. omega arith) (λ h l. omega arith) (λ h l. omega arith) (λ h l. omega arith)
      (λ h l. omega arith)

depth-Moves : {d : ℕ} → IsDepth d → Moves d
depth-Moves w = subst Moves (sym w.power) (pow-Moves w.exponent (exponent_small w))

bit_xor-flip : (p q : ℕ) → p < 2 → q + p ≡ 1 → bit_xor p 1 ≡ q
bit_xor-flip zero q h e = omega arith
bit_xor-flip (suc zero) q h e = omega arith
bit_xor-flip (suc (suc p)) q h e = absurd (omega arith)

-- For a depth that `ena_ring_alloc` accepts and a 16-bit counter, moving the phase along with the
-- counter keeps the phase that stands for the counter, its wrap at 2^16 included.
pub next_phase-phase_at :
    {d : ℕ} (h : ℕ)
    → IsDepth d
    → h < 65536
    → next_phase d (u16 (h + 1)) (phase_at d h) ≡ phase_at d (u16 (h + 1))
unfolding next_phase
next_phase-phase_at {d} h w l =
    let m = depth-Moves w h l in
    ground (
      arith,
      m.0,
      m.1,
      ring_index-mod (u16 (h + 1)) w,
      bit_xor-flip (phase_at d h) (phase_at d (u16 (h + 1))),
    )

-- For a depth that `ena_ring_alloc` accepts and a 16-bit counter: a lap on, the counter selects
-- the same slot and has the other phase.
pub lap_turns :
    {d : ℕ} (h : ℕ)
    → IsDepth d
    → h < 65536
    → (ring_index d (u16 (h + d)) ≡ ring_index d h) × (phase_at d (u16 (h + d)) ≢ phase_at d h)
lap_turns {d} h w l =
    let m = depth-Moves w h l in
    (ring_index-mod (u16 (h + d)) w ∙ m.2 ∙ sym (ring_index-mod h w), m.3)
