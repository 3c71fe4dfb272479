-- ===== src/Ring/Reset.antt =====
-- `ena_ring_reset_sw_state` (src/ena_admin.c): the software state of a ring after a device reset.
use lib_ena.Prelude.{
  ◌≡◌, ap, ℕ, zero, suc, ◌+◌, ◌==◌, false, if◌then◌else◌, Bool, List, ◌∷◌, is_null, replicate,
  get_or, set,
}
use lib_ena.Ring.{
  Ring, IdPool, RingType, tx, rx, Io, Effect, drop_netbuf, free_netbuf, u16, no_tx_buffer,
  no_rx_buffer,
}
use lib_ena.Ring.Ids.{slot_clear}

netbuf_in : RingType → Ring → ℕ → ℕ
netbuf_in tx r i = (get_or r.tx_bufs i no_tx_buffer).netbuf
netbuf_in rx r i = (get_or r.rx_bufs i no_rx_buffer).netbuf

-- The netbuf that a slot holds, in the array of the ring's direction.
unfoldable pub slot_netbuf : Ring → ℕ → ℕ
unfolding netbuf_in
slot_netbuf r i = netbuf_in r.ring_type r i

-- How a reset gives a netbuf up: to the callback of the netdev layer if there is one.
abbrev pub give_up : Ring → ℕ → Effect
give_up r nb = if r.drop_netbuf_cb then drop_netbuf nb else free_netbuf nb

-- One slot: nothing for one that holds no buffer.
unfoldable pub release_slot : Io → ℕ → Io
release_slot s i =
    let nb = slot_netbuf s.ring i in
    if nb == 0 then s else record { ring = slot_clear s.ring i; log = give_up s.ring nb ∷ s.log }

-- The loop over the slots from `i` on.
unfoldable pub release_slots : ℕ → ℕ → Io → Io
release_slots zero i s = s
release_slots (suc n) i s = release_slots n (i + 1) (release_slot s i)

-- `for (...) ring->free_req_ids[i] = i;` from `i` on.
unfoldable pub fill_ids : ℕ → ℕ → List ℕ → List ℕ
fill_ids zero i ids = ids
fill_ids (suc n) i ids = fill_ids n (i + 1) (set ids i (u16 i))

-- The ring with its indices, phases, queue ids and doorbells as at the start.
abbrev pub rewound : Ring → Ring
rewound r = record r {
  hw_valid = false;
  sq = record r.sq { tail = 0; head = 0; phase = 1; idx = 0; db = 0 };
  cq = record r.cq { head = 0; phase = 1; idx = 0; db = 0 };
}

-- `memset(marks, 0, ring->sq_depth)` on an array that is not NULL.
abbrev pub clear_marks : ℕ → List Bool → List Bool
clear_marks depth marks = if is_null marks then marks else replicate depth false

-- The pool refilled if its array is there, and its marks cleared.
abbrev pub rearmed_pool : ℕ → IdPool → IdPool
rearmed_pool depth p =
    let marked = record p { allocated = clear_marks depth p.allocated } in
    if is_null p.ids
    then marked
    else record marked { ids = fill_ids depth 0 p.ids; head = 0; tail = 0; count = depth }

abbrev pub rearmed : Ring → Ring
rearmed r = record r {
  pool = rearmed_pool r.sq.depth r.pool;
  in_flight = clear_marks r.sq.depth r.in_flight;
  tx_foreign_count = 0;
}

-- `ena_ring_reset_sw_state`
unfoldable pub reset_sw_state : Io → Io
reset_sw_state s =
    let s' = release_slots s.ring.sq.depth 0 (record s { ring = rewound s.ring }) in
    record s' { ring = rearmed s'.ring }

pub slot_netbuf-tx :
    (r : Ring) (i : ℕ)
    → r.ring_type ≡ tx
    → slot_netbuf r i ≡ (get_or r.tx_bufs i no_tx_buffer).netbuf
unfolding slot_netbuf
slot_netbuf-tx r i e = ap (λ t. netbuf_in t r i) e

pub slot_netbuf-rx :
    (r : Ring) (i : ℕ)
    → r.ring_type ≡ rx
    → slot_netbuf r i ≡ (get_or r.rx_bufs i no_rx_buffer).netbuf
unfolding slot_netbuf
slot_netbuf-rx r i e = ap (λ t. netbuf_in t r i) e
