-- ===== src/Tests/Pool.antt =====
-- The pool, the reset, the allocation and the phase of a ring.
use lib_ena.Prelude.{ℕ, zero, suc, ◌<◌, ◌≡◌, refl, Bool, true, false, List, [], ◌∷◌, arith}
use lib_ena.Status.{Result, ok, err}
use lib_ena.Ring.{Ring, tx, rx}
use lib_ena.Ring.Depth.{is_power_of_two}
use lib_ena.Ring.Advance.{sq_advance}
use lib_ena.Ring.Window.{occ}
use lib_ena.Ring.Ids.{req_id_alloc}
use lib_ena.Ring.FreeList.{Op, acquire, release, run, queue_run, free_of, run-queue_run}
use lib_ena.Ring.Reset.{fill_ids, reset_sw_state}
use lib_ena.Ring.Renewed.{Renewed, reset-Renewed}
use lib_ena.Ring.Lifecycle.{Heap, Blocks, or_undo, grab, new_ring, ring_alloc, ring_free}
use lib_ena.Ring.Leaks.{Outcome, ring_alloc-Outcome, ring_free-ring_alloc}
use lib_ena.Tx.Submit.{tx_submit, tx_fill}
use lib_ena.Tx.Serve.{TxRing}
use lib_ena.Tx.Fresh.{ring_alloc-TxRing}
use lib_ena.Rx.Serve.{RxRing}
use lib_ena.Rx.Fresh.{ring_alloc-RxRing}
use lib_ena.Tests.Rings.{
  tx_ring, tx_ring-HasPool, rx_ring, busy_ring, busy-TxInv, always, empty_heap, io,
}

abbrev ops : List Op
ops = acquire ∷ release 0 ∷ release 0 ∷ release 9 ∷ acquire ∷ []

run-queue_run_example : run tx_ring ops ≡ queue_run 4 (free_of tx_ring) ops
unfolding new_ring
run-queue_run_example = run-queue_run ops tx_ring tx_ring-HasPool

busy_has_0 : 0 < busy_ring.sq.depth
unfolding tx_submit new_ring req_id_alloc fill_ids tx_fill sq_advance
busy_has_0 = omega arith

reset-Renewed_example : Renewed (io busy_ring) (reset_sw_state (io busy_ring))
reset-Renewed_example =
    reset-Renewed (io busy_ring) busy-TxInv.held.pool busy-TxInv.held.flight_length

-- The fourth allocation fails.
abbrev three_only : ℕ → Bool
three_only zero = true
three_only (suc zero) = true
three_only (suc (suc zero)) = true
three_only (suc (suc (suc n))) = false

ring_alloc-Outcome_example : Outcome empty_heap (ring_alloc three_only 0 tx 4 4 empty_heap)
ring_alloc-Outcome_example = ring_alloc-Outcome three_only 0 4 4 tx empty_heap

abbrev no_blocks : Blocks
no_blocks = record {
  ring = 0;
  sq = 0;
  cq = 0;
  ids = 0;
  bufs = 0;
  in_flight = 0;
  allocated = 0;
  sq_head_wb = 0;
  foreign = 0;
}

abbrev blocks_of : Result (Ring × Blocks) × Heap → Blocks
blocks_of (ok (r, b), h) = b
blocks_of (err e, h) = no_blocks

abbrev tx_alloc : Result (Ring × Blocks) × Heap
tx_alloc = ring_alloc always 0 tx 4 4 empty_heap

abbrev rx_alloc : Result (Ring × Blocks) × Heap
rx_alloc = ring_alloc always 1 rx 4 4 empty_heap

tx_allocated : tx_alloc ≡ (ok (tx_ring, blocks_of tx_alloc), tx_alloc.1)
unfolding ring_alloc is_power_of_two or_undo grab
tx_allocated = refl

rx_allocated : rx_alloc ≡ (ok (rx_ring, blocks_of rx_alloc), rx_alloc.1)
unfolding ring_alloc is_power_of_two or_undo grab
rx_allocated = refl

ring_free-ring_alloc_example : occ 3 (ring_free (blocks_of tx_alloc) tx_alloc.1).live ≡ 0
ring_free-ring_alloc_example =
    ring_free-ring_alloc always 0 4 4 tx empty_heap tx_alloc.1 tx_ring (blocks_of tx_alloc)
      tx_allocated 3

ring_alloc-TxRing_example : TxRing tx_ring
ring_alloc-TxRing_example =
    ring_alloc-TxRing always 0 4 4 empty_heap tx_alloc.1 tx_ring (blocks_of tx_alloc) (omega arith)
      (omega arith) tx_allocated

ring_alloc-RxRing_example : RxRing rx_ring
ring_alloc-RxRing_example =
    ring_alloc-RxRing always 1 4 4 empty_heap rx_alloc.1 rx_ring (blocks_of rx_alloc) (omega arith)
      (omega arith) rx_allocated
