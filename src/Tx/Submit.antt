-- ===== src/Tx/Submit.antt =====
-- `ena_tx_submit`, `ena_tx_doorbell` and `ena_tx_free_space`.
use lib_ena.Prelude.{
  ℕ, ◌+◌, ◌*◌, ◌/◌, ◌^◌, bit_and, bit_or, ◌==◌, ltb, Bool, true, not, ◌||◌, if◌then◌else◌, ◌∷◌, set,
}
use lib_ena.Status.{Result, ok, err, einval, enodev, ebusy}
use lib_ena.Ring.{Ring, TxDesc, Io, write_sq_db, is_tx, u32, u64}
use lib_ena.Ring.Depth.{ring_index}
use lib_ena.Ring.Advance.{sq_advance}
use lib_ena.Ring.Ids.{req_id_alloc}

-- `struct ena_tx_pkt`
pub record TxPkt : Type 0 where
  pub netbuf : ℕ
  pub phys_addr : ℕ
  pub len : ℕ
  pub l3_proto : ℕ
  pub l4_proto : ℕ
  pub l3_csum_en : Bool
  pub l4_csum_en : Bool
  pub df : Bool
  pub tso_en : Bool

-- The masks and shifts of include/ena_datapath.h.
abbrev pub tx_desc_phase_mask : ℕ
tx_desc_phase_mask = 0x0100_0000

abbrev pub tx_desc_first_mask : ℕ
tx_desc_first_mask = 0x0400_0000

abbrev pub tx_desc_last_mask : ℕ
tx_desc_last_mask = 0x0800_0000

abbrev pub tx_desc_comp_req_mask : ℕ
tx_desc_comp_req_mask = 0x1000_0000

-- `if (b) word |= mask;`
abbrev pub or_if : Bool → ℕ → ℕ → ℕ
or_if b mask word = if b then bit_or word mask else word

-- Word 0. No shift leaves 32 bits.
unfoldable pub len_ctrl : ℕ → ℕ → ℕ → ℕ
len_ctrl phase req_id len =
    let base = bit_or (bit_and len 0xffff) (bit_and (req_id / 2 ^ 10) 0x3f * 2 ^ 16) in
    bit_or (or_if (not (phase == 0)) tx_desc_phase_mask base)
      (bit_or (bit_or tx_desc_first_mask tx_desc_last_mask) tx_desc_comp_req_mask)

-- Word 1.
unfoldable pub meta_ctrl : ℕ → TxPkt → ℕ
meta_ctrl req_id pkt =
    let id = bit_and req_id 0x3ff * 2 ^ 22 in
    let l3 = bit_or id (bit_and pkt.l3_proto 0xf) in
    let l4 = bit_or l3 (bit_and pkt.l4_proto 0x1f * 2 ^ 8) in
    or_if pkt.tso_en 0x80
      (or_if pkt.df 0x10 (or_if pkt.l4_csum_en 0x4000 (or_if pkt.l3_csum_en 0x2000 l4)))

-- The descriptor that `ena_tx_submit` writes.
unfoldable pub tx_desc : ℕ → ℕ → TxPkt → TxDesc
tx_desc phase req_id pkt = record {
  len_ctrl = len_ctrl phase req_id pkt.len;
  meta_ctrl = meta_ctrl req_id pkt;
  buff_addr_lo = u32 pkt.phys_addr;
  buff_addr_hi_hdr_sz = u32 (bit_and (pkt.phys_addr / 2 ^ 32) 0xffff);
}

-- `ena_tx_submit` once it has a request id.
unfoldable pub tx_fill : ℕ → TxPkt → ℕ → Ring → Ring
tx_fill cpu pkt req_id r = record r {
  in_flight = set r.in_flight req_id true;
  tx_bufs = set r.tx_bufs req_id (record {
    netbuf = pkt.netbuf;
    phys_addr = pkt.phys_addr;
    data_len = pkt.len;
    num_descs = 1;
    req_id = req_id;
  });
  tx_sq = set r.tx_sq (ring_index r.sq.depth r.sq.tail) (tx_desc r.sq.phase req_id pkt);
  sq = sq_advance r.sq;
  stats = record r.stats {
    tx_packets = u64 (r.stats.tx_packets + 1);
    tx_bytes = u64 (r.stats.tx_bytes + pkt.len);
  };
  tx_owner_cpu = cpu;
}

-- `ena_tx_submit` on core `cpu`: the request id and the ring. A refused call changes nothing.
unfoldable pub tx_submit : ℕ → TxPkt → Ring → Result (ℕ × Ring)
tx_submit cpu pkt r =
    if not (is_tx r.ring_type)
    then err einval
    else if not r.hw_valid
    then err enodev
    else if pkt.len == 0 || ltb 0xffff pkt.len
    then err einval
    else if r.pool.count == 0
    then err ebusy
    else elim (req_id_alloc r) [
      | ok (req_id, r') ↦ ok (req_id, tx_fill cpu pkt req_id r')
      | err e ↦ err e
    ]

-- `ena_tx_free_space`
unfoldable pub tx_free_space : Ring → ℕ
tx_free_space r = if is_tx r.ring_type then r.pool.count else 0

-- `ena_tx_doorbell`
unfoldable pub tx_doorbell : Io → Io
tx_doorbell s =
    if not s.ring.hw_valid || s.ring.sq.db == 0
    then s
    else record s { log = write_sq_db s.ring.sq.tail ∷ s.log }
