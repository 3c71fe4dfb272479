-- ===== src/Init/Limits.antt =====
-- What `ena_init_get_queue_limits` (src/ena_init.c) leaves in the adapter.
use lib_ena.Prelude.{ℕ, ◌≤◌, ◌≡◌, inl, inr, true, ltb, Bool-cases, List, get_or, arith}
use lib_ena.Status.{success}
use lib_ena.Ring.Depth.{is_power_of_two}
use lib_ena.Admin.{Attributes, Master}
use lib_ena.Admin.Client.{Exec}
use lib_ena.Admin.Ensures.{Ensures, at_once, answered-Ensures}
use lib_ena.Init.{clamp_queue_depth, clamp_queue_num, limited, read_limits, get_queue_limits, ask}
use lib_ena.Init.Depths.{clamp_queue_depth-Offered}

-- Limits that the rest of the driver can use.
pub record Limits (a : Attributes) : Type 0 where
  pub tx_depth : (is_power_of_two a.max_tx_ring_size ≡ true) × (a.max_tx_ring_size ≤ 4096)
  pub rx_depth : (is_power_of_two a.max_rx_ring_size ≡ true) × (a.max_rx_ring_size ≤ 4096)
  pub tx_queues : (1 ≤ a.max_tx_queues) × (a.max_tx_queues ≤ 256)
  pub rx_queues : (1 ≤ a.max_rx_queues) × (a.max_rx_queues ≤ 256)

clamp_queue_num-range : (raw : ℕ) → (1 ≤ clamp_queue_num raw) × (clamp_queue_num raw ≤ 256)
unfolding clamp_queue_num
clamp_queue_num-range raw = (ground arith, ground arith)

-- The smaller limit is one of the two.
limited-either : (P : ℕ → Type 0) (a b : ℕ) → P a → P b → P (limited a b)
limited-either P a b p q = elim (Bool-cases (ltb b a)) [ inl e ↦ rw e q | inr e ↦ rw e p ]

abbrev FitsDepth : ℕ → Type 0
FitsDepth d = (is_power_of_two d ≡ true) × (d ≤ 4096)

abbrev FitsCount : ℕ → Type 0
FitsCount n = (1 ≤ n) × (n ≤ 256)

clamped-FitsDepth : (raw : ℕ) → FitsDepth (clamp_queue_depth raw)
clamped-FitsDepth raw = let o = clamp_queue_depth-Offered raw in (o.accepted, o.upper)

read_limits-Limits : (resp : List ℕ) (a : Attributes) → Limits (read_limits resp a)
unfolding read_limits
read_limits-Limits resp a =
    let d =
      limited-either FitsDepth (clamp_queue_depth (get_or resp 1 0))
        (clamp_queue_depth (get_or resp 3 0)) (clamped-FitsDepth (get_or resp 1 0))
        (clamped-FitsDepth (get_or resp 3 0)) in
    let n =
      limited-either FitsCount (clamp_queue_num (get_or resp 0 0))
        (clamp_queue_num (get_or resp 2 0)) (clamp_queue_num-range (get_or resp 0 0))
        (clamp_queue_num-range (get_or resp 2 0)) in
    record { tx_depth = d; rx_depth = d; tx_queues = n; rx_queues = n }

pub get_queue_limits-Ensures :
    (exec : Exec) (m : Master) → Ensures (λ out. Limits out.attributes) (get_queue_limits exec m)
unfolding get_queue_limits
get_queue_limits-Ensures exec m =
    answered-Ensures (λ _. Unit {0}) (λ out. Limits out.attributes) (ask exec _ 14 m) _ (λ _. tt)
      (λ resp s _. at_once (λ out. Limits out.attributes) _ (read_limits-Limits resp s.attributes))

-- Whatever the device answers, after a success of `ena_init_get_queue_limits` the ring sizes of the
-- adapter are depths that `ena_ring_alloc` accepts, at most 4096, and the numbers of queues are
-- between 1 and 256, in both directions.
pub get_queue_limits-Limits :
    (exec : Exec) (m : Master)
    → (get_queue_limits exec m).0 ≡ success
    → Limits (get_queue_limits exec m).1.attributes
get_queue_limits-Limits exec m = (get_queue_limits-Ensures exec m).after
