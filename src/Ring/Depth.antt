-- ===== src/Ring/Depth.antt =====
-- Queue depths: `ena_is_power_of_two`, and indices cut by `& (depth - 1)`.
use lib_ena.Prelude.{
  ℕ, ◌+◌, ◌-◌, ◌%◌, ◌^◌, ◌≤◌, ◌<◌, bit_and, ◌≡◌, ap, ◌∙◌, Bool, true, ◌&&◌, leb, ◌==◌, arith,
}
use lib_ena.Prelude.Bits.{bit_and_mask, pow_of_bit_and}

-- `ena_is_power_of_two`
unfoldable pub is_power_of_two : ℕ → Bool
is_power_of_two val = leb 4 val && (bit_and val (val - 1) == 0)

-- `i & (depth - 1)` for a `uint16_t` depth; at depth 0 the mask is all ones.
unfoldable pub ring_index : ℕ → ℕ → ℕ
ring_index depth i = bit_and i ((depth + 65535) % 65536)

-- A depth that `ena_ring_alloc` accepts.
pub record IsDepth (d : ℕ) : Type 0 where
  pub lower : 4 ≤ d
  pub upper : d < 65536
  pub exponent : ℕ
  pub power : d ≡ 2 ^ exponent

pub is_power_of_two-IsDepth : (d : ℕ) → d < 65536 → is_power_of_two d ≡ true → IsDepth d
unfolding is_power_of_two
is_power_of_two-IsDepth d h e =
    let lower : 4 ≤ d = ground arith in
    let zero_and : bit_and d (d - 1) ≡ 0 = ground arith in
    let (k, p) = pow_of_bit_and d d (omega arith) (omega arith) zero_and in
    record { lower = lower; upper = h; exponent = k; power = p }

pub ring_index-mod : {d : ℕ} (i : ℕ) → IsDepth d → ring_index d i ≡ i % d
unfolding ring_index
ring_index-mod {d} i w =
    let mask : (d + 65535) % 65536 ≡ 2 ^ w.exponent - 1 =
      omega (arith, w.lower, w.upper, w.power) in
    ap (bit_and i) mask ∙ bit_and_mask w.exponent i ∙ ap (λ m. i % m) (omega (arith, w.power))

pub ring_index-lt : {d : ℕ} (i : ℕ) → IsDepth d → ring_index d i < d
ring_index-lt i w = omega (arith, ring_index-mod i w, w.lower)
