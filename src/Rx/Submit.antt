-- ===== src/Rx/Submit.antt =====
-- `ena_rx_submit_one`, `ena_rx_doorbell` and `ena_rx_free_space`.
use lib_ena.Prelude.{
  ℕ, ◌/◌, ◌^◌, bit_and, bit_or, ◌==◌, ltb, true, not, ◌||◌, if◌then◌else◌, ◌∷◌, set,
}
use lib_ena.Status.{Result, ok, err, einval, enodev, ebusy}
use lib_ena.Ring.{Ring, RxDesc, write_sq_db, is_tx, u16, u32}
use lib_ena.Ring.Depth.{ring_index}
use lib_ena.Ring.Advance.{sq_advance}
use lib_ena.Ring.Ids.{req_id_alloc}
use lib_ena.Rx.Queue.{RxIo}

-- A buffer that the caller offers to the device.
pub record RxOffer : Type 0 where
  pub netbuf : ℕ
  pub phys_addr : ℕ
  pub len : ℕ

-- The descriptor that `ena_rx_submit_one` writes: first, last and comp_req with the phase.
unfoldable pub rx_desc : ℕ → ℕ → RxOffer → RxDesc
rx_desc phase req_id o = record {
  length = u16 o.len;
  ctrl = bit_or (bit_and phase 0x01) (bit_or (bit_or 0x04 0x08) 0x10);
  req_id = req_id;
  buff_addr_lo = u32 o.phys_addr;
  buff_addr_hi = u16 (o.phys_addr / 2 ^ 32);
}

-- `ena_rx_submit_one` once it has a request id.
unfoldable pub rx_fill : RxOffer → ℕ → Ring → Ring
rx_fill o req_id r = record r {
  in_flight = set r.in_flight req_id true;
  rx_bufs =
      set r.rx_bufs req_id
        (record { netbuf = o.netbuf; phys_addr = o.phys_addr; data_len = o.len; req_id = req_id });
  rx_sq = set r.rx_sq (ring_index r.sq.depth r.sq.tail) (rx_desc r.sq.phase req_id o);
  sq = sq_advance r.sq;
}

-- `ena_rx_submit_one`: the request id and the ring. A refused call changes nothing.
unfoldable pub rx_submit_one : RxOffer → Ring → Result (ℕ × Ring)
rx_submit_one o r =
    if o.netbuf == 0 || is_tx r.ring_type
    then err einval
    else if not r.hw_valid
    then err enodev
    else if o.len == 0 || ltb 0xffff o.len
    then err einval
    else if r.pool.count == 0
    then err ebusy
    else elim (req_id_alloc r) [
      | ok (req_id, r') ↦ ok (req_id, rx_fill o req_id r')
      | err e ↦ err e
    ]

-- `ena_rx_free_space`
unfoldable pub rx_free_space : Ring → ℕ
rx_free_space r = if is_tx r.ring_type then 0 else r.pool.count

-- `ena_rx_doorbell`
unfoldable pub rx_doorbell : RxIo → RxIo
rx_doorbell s =
    if not s.ring.hw_valid || s.ring.sq.db == 0
    then s
    else record s { log = write_sq_db s.ring.sq.tail ∷ s.log }
