-- ===== src/Netdev/Bounce.antt =====
-- The bounce slots of a transmit queue: `ena_netdev_txq_reclaim_slot`, and how `ena_netdev_tx_one` takes a
-- slot and gives it back (src/ena_netdev.c).
use lib_ena.Prelude.{
  ℕ, ◌+◌, ◌-◌, ◌==◌, ltb, leb, not, ◌&&◌, ◌||◌, if◌then◌else◌, none, some, List, [], ◌∷◌, is_null,
  get_or, set,
}
use lib_ena.Ring.{u16, Effect, tx_complete}
use lib_ena.Ring.Depth.{ring_index}
use lib_ena.Netdev.{TxQueue}

-- A slot back to the tail of its pool.
unfoldable pub push_slot : ℕ → TxQueue → TxQueue
push_slot slot q = record q {
  bounce_free_ids = set q.bounce_free_ids q.bounce_free_tail slot;
  bounce_free_tail = u16 (ring_index q.nb_desc (q.bounce_free_tail + 1));
  bounce_free_count = u16 (q.bounce_free_count + 1);
}

-- `queue->bounce_in_use = (queue->bounce_free_count < queue->nb_desc)`
unfoldable pub note_use : TxQueue → TxQueue
note_use q = record q { bounce_in_use = ltb q.bounce_free_count q.nb_desc }

-- `ena_netdev_txq_reclaim_slot` of a request below `nb_desc` that holds a slot.
unfoldable pub give_slot : ℕ → ℕ → TxQueue → TxQueue
give_slot req_id slot q =
    let unmapped : TxQueue = record q { bounce_map = set q.bounce_map req_id none } in
    let pushed =
      if not (is_null q.bounce_free_ids) && ltb 0 q.nb_desc
      then push_slot slot unmapped
      else unmapped in
    note_use (record pushed { bounce_wait_polls = 0 })

-- `ena_netdev_txq_reclaim_slot`
unfoldable pub reclaim_slot : ℕ → TxQueue → TxQueue
reclaim_slot req_id q =
    if is_null q.bounce_map || leb q.nb_desc req_id
    then q
    else elim (get_or q.bounce_map req_id none) [ none ↦ q | some slot ↦ give_slot req_id slot q ]

-- The calls that the completions of a poll make, the latest effect first. They work on the queue, and
-- the poll on the ring, so they can stand after the poll.
unfoldable pub called : List Effect → TxQueue → TxQueue
called [] q = q
called (tx_complete req_id ∷ log) q = reclaim_slot req_id (called log q)
called (_ ∷ log) q = called log q

-- The slot at the head of the pool.
abbrev pub front_slot : TxQueue → ℕ
front_slot q = get_or q.bounce_free_ids q.bounce_free_head 0

-- `count--` runs only at a count that is not 0.
unfoldable pub take_slot : TxQueue → TxQueue
take_slot q = note_use (record q {
  bounce_free_head = u16 (ring_index q.nb_desc (q.bounce_free_head + 1));
  bounce_free_count = q.bounce_free_count - 1;
})

-- `memcpy` to the start of a slot.
unfoldable pub memcpy : List ℕ → List ℕ → List ℕ
memcpy to [] = to
memcpy [] (b ∷ bytes) = []
memcpy (_ ∷ to) (b ∷ bytes) = b ∷ memcpy to bytes

unfoldable pub fill_slot : ℕ → List ℕ → TxQueue → TxQueue
fill_slot slot bytes q = record q {
  slots = set q.slots slot (memcpy (get_or q.slots slot []) bytes);
}

-- After a submit that has been accepted, the slot is noted under the request.
unfoldable pub map_slot : ℕ → ℕ → TxQueue → TxQueue
map_slot req_id slot q = note_use (record q {
  bounce_map = set q.bounce_map req_id (some slot);
  bounce_req_id = req_id;
  bounce_wait_polls = 0;
})

-- After one that has been refused, the slot goes back.
unfoldable pub return_slot : ℕ → TxQueue → TxQueue
return_slot slot q = note_use (push_slot slot q)

-- The count of the sends that found the pool empty: up to `ENA_TX_BOUNCE_STALL_LIMIT`.
unfoldable pub waited : TxQueue → TxQueue
waited q =
    if q.bounce_free_count == 0 && ltb 0 q.nb_desc
    then if leb 256 q.bounce_wait_polls
      then q
      else record q { bounce_wait_polls = q.bounce_wait_polls + 1 }
    else q
