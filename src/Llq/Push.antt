-- ===== src/Llq/Push.antt =====
-- `ena_llq_tx_push`.
use lib_ena.Prelude.{
  ℕ, zero, suc, ◌+◌, ◌-◌, ◌*◌, ◌/◌, ◌%◌, ◌^◌, bit_or, bit_and, ◌==◌, ltb, Bool, true, false, not,
  ◌||◌, ◌&&◌, if◌then◌else◌, Option, none, some, List, [], ◌∷◌, get_or, set,
}
use lib_ena.Status.{Result, ok, err, einval, ebusy}
use lib_ena.Ring.{Ring, TxDesc, Io, Effect, fill_netbuf, push_entry, is_tx, u32, u64}
use lib_ena.Ring.Depth.{ring_index}
use lib_ena.Ring.Advance.{sq_advance}
use lib_ena.Ring.Ids.{req_id_alloc}
use lib_ena.Tx.Submit.{TxPkt, len_ctrl, meta_ctrl, tx_submit, tx_doorbell}

-- The descriptor: that of `ena_tx_submit` without the segmentation bit, and with the header length.
unfoldable pub llq_desc : ℕ → ℕ → TxPkt → ℕ → TxDesc
llq_desc phase req_id pkt hdr_len = record {
  len_ctrl = len_ctrl phase req_id pkt.len;
  meta_ctrl = meta_ctrl req_id (record pkt { tso_en = false });
  buff_addr_lo = u32 pkt.phys_addr;
  buff_addr_hi_hdr_sz = bit_or (bit_and (pkt.phys_addr / 2 ^ 32) 0xffff) (u32 (hdr_len * 2 ^ 24));
}

-- Byte `i` of a descriptor in memory: four little-endian words.
unfoldable pub desc_byte : TxDesc → ℕ → ℕ
desc_byte d i =
    let word =
      if i / 4 == 0
      then d.len_ctrl
      else if i / 4 == 1
      then d.meta_ctrl
      else if i / 4 == 2
      then d.buff_addr_lo
      else d.buff_addr_hi_hdr_sz in
    word / 2 ^ (8 * (i % 4)) % 256

-- `n` bytes of a header from byte `i` on.
unfoldable pub header_bytes : List ℕ → ℕ → ℕ → List ℕ
header_bytes hdr i zero = []
header_bytes hdr i (suc n) = get_or hdr i 0 ∷ header_bytes hdr (i + 1) n

-- Byte `i` of `entry_buf`: the descriptor, the inline header, zeroes.
unfoldable pub entry_byte : TxDesc → Option (List ℕ) → ℕ → ℕ → ℕ
entry_byte d hdr hdr_len i = if ltb i 16 then desc_byte d i else elim hdr [
  | none ↦ 0
  | some bytes ↦ if ltb (i - 16) hdr_len then get_or bytes (i - 16) 0 else 0
]

unfoldable pub entry_bytes : TxDesc → Option (List ℕ) → ℕ → ℕ → ℕ → List ℕ
entry_bytes d hdr hdr_len i zero = []
entry_bytes d hdr hdr_len i (suc n) =
    entry_byte d hdr hdr_len i ∷ entry_bytes d hdr hdr_len (i + 1) n

abbrev pub entry_size_of : Ring → ℕ
entry_size_of r = if r.push.entry_size == 0 then 128 else r.push.entry_size

-- Whether the push buffer cannot be used.
abbrev pub falls_back : Ring → Bool
falls_back r =
    not r.push.is_llq
    || r.push.virt == 0
    || (ltb 0 r.push.size && ltb r.push.size (r.sq.depth * entry_size_of r))

-- The standard submission, with the header copied into the netbuf first. `has_data` says whether the
-- data pointer of a netbuf is set.
unfoldable pub llq_fallback : (ℕ → Bool) → ℕ → TxPkt → Option (List ℕ) → ℕ → Io → Result ℕ × Io
llq_fallback has_data cpu pkt hdr hdr_len s =
    let copied : Io = elim hdr [
      | none ↦ s
      | some bytes ↦
          if ltb 0 hdr_len && not (pkt.netbuf == 0) && has_data pkt.netbuf
          then record s { log = fill_netbuf pkt.netbuf (header_bytes bytes 0 hdr_len) ∷ s.log }
          else s
    ] in
    elim (tx_submit cpu pkt copied.ring) [
      | ok (req_id, r) ↦ (ok req_id, tx_doorbell (record copied { ring = r }))
      | err e ↦ (err e, copied)
    ]

-- The ring once a request id has been taken.
unfoldable pub llq_fill : TxPkt → ℕ → Ring → Ring
llq_fill pkt req_id r = record r {
  in_flight = set r.in_flight req_id true;
  tx_bufs = set r.tx_bufs req_id (record {
    netbuf = pkt.netbuf;
    phys_addr = pkt.phys_addr;
    data_len = pkt.len;
    num_descs = 1;
    req_id = req_id;
  });
  sq = sq_advance r.sq;
  stats = record r.stats {
    tx_packets = u64 (r.stats.tx_packets + 1);
    tx_bytes = u64 (r.stats.tx_bytes + pkt.len);
  };
}

-- The entry goes out in 64-bit words. `entry_buf` has 256 bytes: an entry size above that is read past
-- its end, where the model reads zeroes.
unfoldable pub llq_write : TxPkt → Option (List ℕ) → ℕ → ℕ → Ring → Effect
llq_write pkt hdr hdr_len req_id r =
    let size = entry_size_of r in
    push_entry (ring_index r.sq.depth r.sq.tail * size)
      (entry_bytes (llq_desc r.sq.phase req_id pkt hdr_len) hdr hdr_len 0 (size / 8 * 8))

-- `ena_llq_tx_push` on core `cpu`; `hdr` is `none` for a NULL `hdr_data`.
unfoldable pub llq_tx_push : (ℕ → Bool) → ℕ → TxPkt → Option (List ℕ) → ℕ → Io → Result ℕ × Io
llq_tx_push has_data cpu pkt hdr hdr_len s =
    let r = s.ring in
    let slot = ring_index r.sq.depth r.sq.tail in
    if not (is_tx r.ring_type)
    then (err einval, s)
    else if ltb (u32 (entry_size_of r + (2 ^ 32 - 32))) hdr_len
    then (err einval, s)
    else if falls_back r
    then llq_fallback has_data cpu pkt hdr hdr_len s
    else if r.pool.count == 0
    then (err ebusy, s)
    else if ltb 0 r.push.size && ltb r.push.size ((slot + 1) * entry_size_of r)
    then (err einval, s)
    else elim (req_id_alloc r) [
      | ok (req_id, r') ↦ (
        ok req_id,
        tx_doorbell (record {
          ring = llq_fill pkt req_id r';
          log = llq_write pkt hdr hdr_len req_id r' ∷ s.log;
        }),
      )
      | err e ↦ (err e, s)
    ]
