-- ===== src/Rx/Fresh.antt =====
-- A receive ring that `ena_ring_alloc` returns meets the invariant.
use lib_ena.Prelude.{
  ℕ, ◌<◌, ◌≡◌, refl, sym, ◌∙◌, Bool, true, false, true-ne-false, length-replicate, get_or-replicate,
}
use lib_ena.Status.{ok}
use lib_ena.Ring.{Ring, rx, no_rx_buffer}
use lib_ena.Ring.Depth.{IsDepth, is_power_of_two-IsDepth}
use lib_ena.Ring.Lifecycle.{Heap, Blocks, new_ring, ring_alloc}
use lib_ena.Ring.Born.{born, depths_ok, new_ring-HasPool, new_ring-CqInv}
use lib_ena.Rx.Serve.{RxRing}

pub new_ring-RxRing :
    {sqd cqd : ℕ} (qid : ℕ) → IsDepth sqd → IsDepth cqd → RxRing (new_ring qid rx sqd cqd)
unfolding new_ring
new_ring-RxRing {sqd} {cqd} qid ws wc = record {
  inv = record {
    direction = refl;
    pool = new_ring-HasPool qid rx ws wc;
    flight_length = length-replicate sqd false;
    bufs_length = length-replicate sqd no_rx_buffer;
    flying = λ id h a. absurd (true-ne-false (sym a ∙ get_or-replicate sqd id false true h));
  };
  cq = new_ring-CqInv qid rx ws wc;
  entries = length-replicate cqd _;
}

-- A receive ring that `ena_ring_alloc` returns, for depths that are 16-bit numbers, meets the
-- invariant of the receive path, and its completion queue is at the start of a lap.
pub ring_alloc-RxRing :
    (grants : ℕ → Bool) (qid sqd cqd : ℕ) (h h' : Heap) (r : Ring) (b : Blocks)
    → sqd < 65536
    → cqd < 65536
    → ring_alloc grants qid rx sqd cqd h ≡ (ok (r, b), h')
    → RxRing r
ring_alloc-RxRing grants qid sqd cqd h h' r b ls lc e =
    let (s, c) = depths_ok grants qid sqd cqd rx h h' r b e in
    rw (born grants qid sqd cqd rx h h' r b e)
      (new_ring-RxRing qid (is_power_of_two-IsDepth sqd ls s) (is_power_of_two-IsDepth cqd lc c))
