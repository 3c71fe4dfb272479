-- ===== src/Tx/Fresh.antt =====
-- A transmit ring that `ena_ring_alloc` returns meets the invariant.
use lib_ena.Prelude.{
  ℕ, ◌<◌, ◌≡◌, refl, Bool, true, false, List, [], ◌∷◌, length-replicate, get_or-replicate,
  replicate, arith,
}
use lib_ena.Prelude.Flags.{flags-replicate}
use lib_ena.Status.{ok}
use lib_ena.Ring.{Ring, tx, ForeignFree, no_tx_buffer}
use lib_ena.Ring.Depth.{IsDepth, is_power_of_two-IsDepth}
use lib_ena.Ring.Lifecycle.{Heap, Blocks, new_ring, ring_alloc}
use lib_ena.Ring.Born.{born, depths_ok, new_ring-HasPool, new_ring-CqInv}
use lib_ena.Tx.Deferred.{deferred}
use lib_ena.Tx.Serve.{TxRing}

deferred-none : (id : ℕ) (fs : List ForeignFree) → deferred id fs 0 ≡ 0
deferred-none id [] = refl
deferred-none id (f ∷ fs) = refl

pub new_ring-TxRing :
    {sqd cqd : ℕ} (qid : ℕ) → IsDepth sqd → IsDepth cqd → TxRing (new_ring qid tx sqd cqd)
unfolding new_ring
new_ring-TxRing {sqd} {cqd} qid ws wc =
    let no_entry : ForeignFree = record { req_id = 0; owner_cpu = 0 } in
    record {
      inv = record {
        direction = refl;
        bufs_length = length-replicate sqd no_tx_buffer;
        held = record {
          pool = new_ring-HasPool qid tx ws wc;
          flight_length = length-replicate sqd false;
          foreign_length = length-replicate sqd no_entry;
          holders = λ id h. ground (
            arith,
            get_or-replicate sqd id false true h,
            get_or-replicate sqd id false false h,
            deferred-none id (replicate sqd no_entry),
          );
          ranged = λ i h. absurd (omega arith);
          whole = omega (arith, flags-replicate sqd);
        };
      };
      cq = new_ring-CqInv qid tx ws wc;
      entries = length-replicate cqd _;
    }

-- A transmit ring that `ena_ring_alloc` returns, for depths that are 16-bit numbers, meets the
-- invariant of the transmit path, and its completion queue is at the start of a lap.
pub ring_alloc-TxRing :
    (grants : ℕ → Bool) (qid sqd cqd : ℕ) (h h' : Heap) (r : Ring) (b : Blocks)
    → sqd < 65536
    → cqd < 65536
    → ring_alloc grants qid tx sqd cqd h ≡ (ok (r, b), h')
    → TxRing r
ring_alloc-TxRing grants qid sqd cqd h h' r b ls lc e =
    let (s, c) = depths_ok grants qid sqd cqd tx h h' r b e in
    rw (born grants qid sqd cqd tx h h' r b e)
      (new_ring-TxRing qid (is_power_of_two-IsDepth sqd ls s) (is_power_of_two-IsDepth cqd lc c))
