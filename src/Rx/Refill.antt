-- ===== src/Rx/Refill.antt =====
-- `ena_rx_refill`.
use lib_ena.Prelude.{
  ℕ, zero, suc, ◌+◌, ◌==◌, ltb, not, ◌&&◌, if◌then◌else◌, Option, none, some, ◌∷◌, set, is_null,
}
use lib_ena.Status.{Result, ok, err, einval}
use lib_ena.Ring.{is_tx, drop_netbuf, free_netbuf}
use lib_ena.Rx.Queue.{RxQueue, RxIo, push_slot}
use lib_ena.Rx.Submit.{RxOffer, rx_submit_one, rx_doorbell}

-- The allocator that the caller passes: what it offers (a netbuf of 0 for none), and what it makes
-- of the queue.
abbrev pub Allocator : Type 0
Allocator = Option RxQueue → RxOffer × Option RxQueue

-- After a refused submit: the pending slot goes back to the pool, and nothing is pending.
abbrev pub unpend : RxQueue → RxQueue
unpend q =
    let back : RxQueue = elim q.pending_slot [ some slot ↦ push_slot q slot | none ↦ q ] in
    record back { pending_slot = none }

-- After an accepted one: the pending slot is noted under the request.
abbrev pub note_slot : ℕ → RxQueue → RxQueue
note_slot req_id q =
    if not (is_null q.bounce_map) && ltb req_id q.nb_desc
    then record q { bounce_map = set q.bounce_map req_id q.pending_slot; pending_slot = none }
    else q

abbrev pub on_queue : (RxQueue → RxQueue) → Option RxQueue → Option RxQueue
on_queue f none = none
on_queue f (some q) = some (f q)

-- One round of the refill loop: it ends, maybe having given a buffer up, or has posted one.
pub data Posting : Type 0 where
  stop : RxIo → Posting
  posted : RxIo → Posting

unfoldable pub refill_round : Allocator → ℕ → ℕ → RxIo → Posting
refill_round alloc count refilled s =
    if not (ltb refilled count && ltb 0 s.ring.pool.count)
    then stop s
    else let (offer, q) = alloc s.queue in
      if offer.netbuf == 0
      then stop (record s { queue = q })
      else elim (rx_submit_one offer s.ring) [
        | ok (req_id, r) ↦ posted (record s { ring = r; queue = on_queue (note_slot req_id) q })
        | err e ↦
            let given =
              if s.ring.drop_netbuf_cb
              then drop_netbuf offer.netbuf
              else free_netbuf offer.netbuf in
            stop (record s { queue = on_queue unpend q; log = given ∷ s.log })
      ]

-- The refill loop on fuel; `none` means that the fuel ran out.
unfoldable pub refill_loop : ℕ → Allocator → ℕ → ℕ → RxIo → Option (ℕ × RxIo)
refill_loop zero alloc count refilled s = none
refill_loop (suc fuel) alloc count refilled s = elim (refill_round alloc count refilled s) [
  | stop s' ↦ some (refilled, s')
  | posted s' ↦ refill_loop fuel alloc count (refilled + 1) s'
]

-- `ena_rx_refill`: how many buffers were posted. Each takes a request id, so one round more than
-- there are free ids is enough.
unfoldable pub rx_refill : Allocator → ℕ → RxIo → Option (Result ℕ × RxIo)
rx_refill alloc count s =
    if is_tx s.ring.ring_type
    then some (err einval, s)
    else let limit = if count == 0 then s.ring.pool.count else count in
      elim (refill_loop (suc s.ring.pool.count) alloc limit 0 s) [
        | none ↦ none
        | some (n, s') ↦ some (ok n, rx_doorbell s')
      ]
