-- ===== src/Netdev/Configure.antt =====
-- `ena_netdev_txq_configure` and `ena_netdev_free_txq_bounce` (src/ena_netdev.c).
use lib_ena.Prelude.{
  ℕ, ◌==◌, leb, Bool, true, false, not, ◌&&◌, ◌||◌, if◌then◌else◌, Option, none, some, [],
  replicate, set,
}
use lib_ena.Status.{Result, ok, err}
use lib_ena.Ring.{Ring, tx}
use lib_ena.Ring.Reset.{fill_ids}
use lib_ena.Ring.Lifecycle.{Heap, Blocks, grab, free_if, ring_alloc, ring_free}
use lib_ena.Admin.{Master}
use lib_ena.Netdev.{TxQueue}
use lib_ena.Netdev.Depth.{clamp_desc_count}

-- The adapter with one transmit queue. `ring` is the pointer of the queue, as the block that it names.
-- `blocks` are those of the ring that the adapter has at the place of the queue, `none` where its pointer
-- is NULL; `ids_block` and `map_block` are the blocks of the two arrays of the queue, 0 for NULL.
pub record TxPlace : Type 0 where
  pub adapter : Master
  pub blocks : Option Blocks
  pub queue : TxQueue
  pub ring : ℕ
  pub ids_block : ℕ
  pub map_block : ℕ

abbrev pub with_heap : Heap → TxPlace → TxPlace
with_heap h s = record s { adapter = record s.adapter { heap = h } }

-- `adapter->tx_rings[queue_id] = …`
abbrev pub put_ring : ℕ → Option Ring → Option Blocks → TxPlace → TxPlace
put_ring queue_id r b s = record s {
  adapter = record s.adapter { tx_rings = set s.adapter.tx_rings queue_id r };
  blocks = b;
}

-- `ena_netdev_free_txq_bounce`
unfoldable pub free_txq_bounce : TxPlace → TxPlace
free_txq_bounce s =
    let h1 = free_if s.queue.bounce_buf s.adapter.heap in
    let h2 = free_if s.map_block (free_if s.ids_block h1) in
    record s {
      adapter = record s.adapter { heap = h2 };
      ids_block = 0;
      map_block = 0;
      queue = record {
        bounce_buf = 0;
        bounce_phys = if s.queue.bounce_buf == 0 then s.queue.bounce_phys else 0;
        bounce_in_use = false;
        bounce_req_id = 0;
        bounce_wait_polls = 0;
        nb_desc = 0;
        bounce_free_head = 0;
        bounce_free_tail = 0;
        bounce_free_count = 0;
        bounce_free_ids = [];
        bounce_map = [];
        slots = [];
      };
    }

-- The ring at the place is freed, and the pointer set to NULL.
abbrev pub without_ring : ℕ → TxPlace → Option Blocks → TxPlace
without_ring queue_id s none = s
without_ring queue_id s (some b) =
    put_ring queue_id none none (with_heap (ring_free b s.adapter.heap) s)

unfoldable pub drop_ring : ℕ → TxPlace → TxPlace
drop_ring queue_id s = without_ring queue_id s s.blocks

-- The queue of a new ring.
abbrev pub attach : ℕ → ℕ → Ring → Blocks → TxPlace → TxPlace
attach queue_id depth r b s =
    let stored = put_ring queue_id (some (record r { tx_complete_cb = true })) (some b) s in
    record stored {
      ring = b.ring;
      queue = record s.queue {
        bounce_in_use = false;
        bounce_req_id = 0;
        bounce_wait_polls = 0;
        nb_desc = depth;
      };
    }

-- The arrays at the end.
abbrev pub fill_queue : ℕ → TxPlace → TxPlace
fill_queue depth s = record s {
  queue = record s.queue {
    bounce_free_ids = fill_ids depth 0 (replicate depth 0);
    bounce_map = replicate depth none;
    bounce_free_head = 0;
    bounce_free_tail = 0;
    bounce_free_count = depth;
  };
}

-- `grants` says which allocations succeed, and `phys` gives the bus address of a block.
module _ (grants : ℕ → Bool) (phys : ℕ → ℕ) where
  -- From the allocation of the map on.
  unfoldable pub alloc_map : ℕ → ℕ → TxPlace → Bool × TxPlace
  alloc_map queue_id depth s =
      let (p, h) = grab grants s.adapter.heap in
      if p == 0
      then (false, drop_ring queue_id (free_txq_bounce (with_heap h s)))
      else (true, fill_queue depth (record (with_heap h s) { map_block = p }))

  -- From the allocation of the free slots on.
  unfoldable pub alloc_slot_ids : ℕ → ℕ → TxPlace → Bool × TxPlace
  alloc_slot_ids queue_id depth s =
      let (p, h) = grab grants s.adapter.heap in
      if p == 0
      then (false, drop_ring queue_id (free_txq_bounce (with_heap h s)))
      else alloc_map queue_id depth (record (with_heap h s) { ids_block = p })

  -- From the allocation of the slots on, whose memory is zeroed.
  unfoldable pub alloc_slots : ℕ → ℕ → TxPlace → Bool × TxPlace
  alloc_slots queue_id depth s =
      let (p, h) = grab grants s.adapter.heap in
      if p == 0
      then (false, drop_ring queue_id (with_heap h s))
      else let backed : TxPlace = record (with_heap h s) {
        queue = record s.queue {
          bounce_buf = p;
          bounce_phys = phys p;
          slots = replicate depth (replicate 4096 0);
        };
      } in
        alloc_slot_ids queue_id depth backed

  -- From the answer of `ena_ring_alloc` on.
  unfoldable pub use_ring : ℕ → ℕ → TxPlace → Result (Ring × Blocks) × Heap → Bool × TxPlace
  use_ring queue_id depth s (err e, h) = (false, with_heap h s)
  use_ring queue_id depth s (ok (r, b), h) =
      alloc_slots queue_id depth (attach queue_id depth r b (with_heap h s))

  unfoldable pub alloc_ring : ℕ → ℕ → TxPlace → Bool × TxPlace
  alloc_ring queue_id depth s =
      use_ring queue_id depth s (ring_alloc grants queue_id tx depth depth s.adapter.heap)

  -- `ena_netdev_txq_configure` of a device that runs or not, with its array of rings: whether a queue is
  -- returned, and what is left. `max_queues` is `ENA_NETDEV_MAX_QUEUES`.
  unfoldable pub txq_configure : ℕ → Bool → ℕ → ℕ → TxPlace → Bool × TxPlace
  txq_configure max_queues running queue_id nb_desc s =
      let num = s.adapter.num_tx_rings in
      if leb max_queues queue_id || (not (num == 0) && leb num queue_id)
      then (false, s)
      else if running
      then (false, s)
      else alloc_ring queue_id (clamp_desc_count nb_desc s.adapter.attributes.max_tx_ring_size)
          (free_txq_bounce (drop_ring queue_id s))
