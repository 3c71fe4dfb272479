-- ===== src/Tests/Transmit.antt =====
-- The transmit path.
use lib_ena.Prelude.{ℕ, ◌<◌, ◌≡◌, ◌≢◌, ◌↔◌, refl, true, false, some, get_or, arith}
use lib_ena.Status.{ok}
use lib_ena.Ring.{Ring, Io}
use lib_ena.Ring.Ids.{req_id_alloc}
use lib_ena.Ring.Reset.{fill_ids}
use lib_ena.Ring.Advance.{sq_advance}
use lib_ena.Ring.Lifecycle.{new_ring}
use lib_ena.Tx.Submit.{tx_submit, tx_fill}
use lib_ena.Tx.Poll.{netbuf_of, tx_complete_one, drain_foreign_frees, Polled, tx_poll_completions}
use lib_ena.Tx.Inv.{TxInv, deferring}
use lib_ena.Tx.Accept.{IsAccepted, Submitted, tx_submit-Submitted, tx_submit_ok_iff}
use lib_ena.Tx.Complete.{Completed, told, warned, complete_foreign, complete-Completed}
use lib_ena.Tx.Drain.{Drained, drain-Drained}
use lib_ena.Tx.Serve.{Served, tx_poll-Served}
use lib_ena.Tests.Rings.{
  tx_ring, tx_ring-TxRing, busy_ring, submit_busy, done_ring, done-TxRing, completion, packet, io,
}

tx_poll-Served_example :
    (p : Polled) × (tx_poll_completions 3 8 (io done_ring) ≡ some p) × Served 8 (io done_ring) p
tx_poll-Served_example = tx_poll-Served 3 8 (io done_ring) done-TxRing

tx_submit-Submitted_example : Submitted 3 packet tx_ring 0 busy_ring
tx_submit-Submitted_example =
    tx_submit-Submitted 3 packet tx_ring tx_ring-TxRing.inv 0 busy_ring submit_busy

tx_submit_ok_iff_example :
    ((id : ℕ) × (r' : Ring) × (tx_submit 3 packet tx_ring ≡ ok (id, r')))
    ↔ IsAccepted packet tx_ring
tx_submit_ok_iff_example = tx_submit_ok_iff 3 packet tx_ring tx_ring-TxRing.inv

done_has_0 : 0 < done_ring.sq.depth
unfolding tx_submit new_ring req_id_alloc fill_ids tx_fill sq_advance
done_has_0 = omega arith

flying_0 : get_or done_ring.in_flight 0 false ≡ true
unfolding tx_submit new_ring req_id_alloc fill_ids tx_fill
flying_0 = refl

core_3 : 3 ≡ done_ring.tx_owner_cpu
unfolding tx_submit new_ring req_id_alloc fill_ids tx_fill
core_3 = refl

core_1 : 1 ≢ done_ring.tx_owner_cpu
unfolding tx_submit new_ring req_id_alloc fill_ids tx_fill
core_1 = omega arith

buffer_0 : netbuf_of done_ring 0 ≢ 0
unfolding tx_submit new_ring req_id_alloc fill_ids tx_fill
buffer_0 = omega arith

complete_foreign_example : tx_complete_one 1 completion (io done_ring) ≡ record {
  ring = deferring done_ring completion (warned completion (io done_ring)) done_ring.tx_owner_cpu;
  log = told completion (io done_ring);
}
complete_foreign_example =
    complete_foreign 1 completion (io done_ring) done-TxRing.inv done_has_0 flying_0 core_1 buffer_0

complete-Completed_example :
    Completed (io done_ring) completion (tx_complete_one 1 completion (io done_ring))
complete-Completed_example =
    complete-Completed 1 completion (io done_ring) done-TxRing.inv done_has_0 flying_0

-- A ring with one deferred release, of core 3.
abbrev deferred_io : Io
deferred_io = tx_complete_one 1 completion (io done_ring)

deferred-TxInv : TxInv deferred_io.ring
deferred-TxInv =
    (complete-Completed 1 completion (io done_ring) done-TxRing.inv done_has_0 flying_0).inv

drain-Drained_example : Drained 3 deferred_io (drain_foreign_frees 3 deferred_io)
drain-Drained_example = drain-Drained 3 deferred_io deferred-TxInv
