-- ===== src/Ring/Ids.antt =====
-- The request id pool: `ena_ring_req_id_alloc`, `ena_ring_req_id_free` and `ena_ring_slot_clear`.
use lib_ena.Prelude.{ℕ, ◌+◌, ◌-◌, ◌==◌, leb, ◌≡◌, ap, true, false, not, if◌then◌else◌, get_or, set}
use lib_ena.Status.{Result, ok, err, einval, ebusy, Code, success}
use lib_ena.Ring.{Ring, IdPool, RingType, tx, rx, u16, no_tx_buffer, no_rx_buffer}
use lib_ena.Ring.Depth.{ring_index}

-- `count--` runs only at `count ≢ 0`.
unfoldable pub pop_id : ℕ → IdPool → IdPool
pop_id depth p = record p {
  head = u16 (ring_index depth (p.head + 1));
  count = p.count - 1;
  allocated = set p.allocated (get_or p.ids p.head 0) true;
}

unfoldable pub push_id : ℕ → IdPool → ℕ → IdPool
push_id depth p id = record p {
  ids = set p.ids p.tail id;
  tail = u16 (ring_index depth (p.tail + 1));
  count = u16 (p.count + 1);
  allocated = set p.allocated id false;
}

-- `ena_ring_req_id_alloc`: the id and the ring without it.
unfoldable pub req_id_alloc : Ring → Result (ℕ × Ring)
req_id_alloc r =
    if r.pool.count == 0
    then err ebusy
    else ok (get_or r.pool.ids r.pool.head 0, record r { pool = pop_id r.sq.depth r.pool })

clear_slot_of : RingType → Ring → ℕ → Ring
clear_slot_of tx r id = record r { tx_bufs = set r.tx_bufs id no_tx_buffer }
clear_slot_of rx r id = record r { rx_bufs = set r.rx_bufs id no_rx_buffer }

-- `ena_ring_slot_clear`
unfoldable pub slot_clear : Ring → ℕ → Ring
unfolding clear_slot_of
slot_clear r id = clear_slot_of r.ring_type r id

-- `ena_ring_req_id_free`
unfoldable pub req_id_free : Ring → ℕ → Code × Ring
req_id_free r id =
    if leb r.sq.depth id
    then (err einval, r)
    else if not (get_or r.pool.allocated id true)
    then (success, r)
    else if leb r.sq.depth r.pool.count
    then (err einval, r)
    else (success, slot_clear (record r { pool = push_id r.sq.depth r.pool id }) id)

pub slot_clear-tx :
    (r : Ring) (i : ℕ)
    → r.ring_type ≡ tx
    → slot_clear r i ≡ record r { tx_bufs = set r.tx_bufs i no_tx_buffer }
unfolding slot_clear
slot_clear-tx r i e = ap (λ t. clear_slot_of t r i) e

pub slot_clear-rx :
    (r : Ring) (i : ℕ)
    → r.ring_type ≡ rx
    → slot_clear r i ≡ record r { rx_bufs = set r.rx_bufs i no_rx_buffer }
unfolding slot_clear
slot_clear-rx r i e = ap (λ t. clear_slot_of t r i) e
