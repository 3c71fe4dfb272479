-- ===== src/Rx/Poll.antt =====
-- `ena_rx_poll`.
use lib_ena.Prelude.{
  ℕ, zero, suc, ◌+◌, ◌/◌, ◌^◌, bit_and, ◌==◌, ltb, leb, Bool, false, not, ◌||◌, ◌&&◌, if◌then◌else◌,
  Option, none, some, List, [], ◌∷◌, is_null, get_or, set,
}
use lib_ena.Status.{Result, ok, err, einval}
use lib_ena.Ring.{
  Ring, RxCdesc, RxBuffer, drop_netbuf, free_netbuf, write_cq_db, is_tx, u64, no_rx_buffer,
}
use lib_ena.Ring.Depth.{ring_index}
use lib_ena.Ring.Advance.{cq_advance}
use lib_ena.Ring.Ids.{req_id_free}
use lib_ena.Rx.Queue.{RxQueue, RxIo, push_slot}
use lib_ena.Rx.Refill.{on_queue}

-- `struct ena_rx_pkt`
pub record RxPkt : Type 0 where
  pub netbuf : ℕ
  pub len : ℕ
  pub offset : ℕ
  pub hash : ℕ
  pub l3_csum_err : Bool
  pub l4_csum_err : Bool
  pub l4_csum_checked : Bool
  pub frag : Bool
  pub first : Bool
  pub last : Bool
  pub req_id : ℕ

abbrev pub no_rx_cdesc : RxCdesc
no_rx_cdesc = record { status = 0; length = 0; req_id = 0; hash = 0; sub_qid = 0; offset = 0 }

-- The completion that the poll looks at.
abbrev pub rx_entry : Ring → RxCdesc
rx_entry r = get_or r.rx_cq (ring_index r.cq.depth r.cq.head) no_rx_cdesc

abbrev pub rx_phase : RxCdesc → ℕ
rx_phase c = bit_and c.status 0x0100_0000 / 2 ^ 24

-- `!!(status & mask)`
abbrev pub has_bit : ℕ → ℕ → Bool
has_bit mask status = not (bit_and status mask == 0)

abbrev pub buffer_of : Ring → ℕ → RxBuffer
buffer_of r req_id = get_or r.rx_bufs req_id no_rx_buffer

-- The slot of a dropped request goes back to the pool.
abbrev pub unmap_slot : ℕ → RxQueue → RxQueue
unmap_slot req_id q =
    if not (is_null q.bounce_map) && ltb req_id q.nb_desc
    then elim (get_or q.bounce_map req_id none) [
      | some slot ↦ push_slot (record q { bounce_map = set q.bounce_map req_id none }) slot
      | none ↦ q
    ]
    else q

-- A completion that is longer than its buffer, up to the advance of the queue.
unfoldable pub rx_drop : ℕ → RxIo → RxIo
rx_drop req_id s =
    let nb = (buffer_of s.ring req_id).netbuf in
    let given = if s.ring.drop_netbuf_cb then drop_netbuf nb else free_netbuf nb in
    let counted = record s.ring {
      stats = record s.ring.stats { rx_dropped = u64 (s.ring.stats.rx_dropped + 1) };
    } in
    let emptied = record counted {
      rx_bufs = set s.ring.rx_bufs req_id (record (buffer_of s.ring req_id) { netbuf = 0 });
    } in
    record {
      ring = (req_id_free (if nb == 0 then counted else emptied) req_id).1;
      queue = on_queue (unmap_slot req_id) s.queue;
      log = if nb == 0 then s.log else given ∷ s.log;
    }

-- What a completion hands to the caller.
unfoldable pub rx_pkt : Ring → RxCdesc → RxPkt
rx_pkt r c = record {
  netbuf = (buffer_of r c.req_id).netbuf;
  len = c.length;
  offset = c.offset;
  hash = c.hash;
  l3_csum_err = has_bit 0x0000_2000 c.status;
  l4_csum_err = has_bit 0x0000_4000 c.status;
  l4_csum_checked = has_bit 0x0001_0000 c.status;
  frag = has_bit 0x0000_8000 c.status;
  first = has_bit 0x0400_0000 c.status;
  last = has_bit 0x0800_0000 c.status;
  req_id = c.req_id;
}

-- A completion that is delivered, up to the advance of the queue.
unfoldable pub rx_deliver : RxCdesc → RxIo → RxIo
rx_deliver c s =
    let r = record s.ring {
      in_flight = set s.ring.in_flight c.req_id false;
      stats = record s.ring.stats {
        rx_packets = u64 (s.ring.stats.rx_packets + 1);
        rx_bytes = u64 (s.ring.stats.rx_bytes + c.length);
      };
    } in
    record s { ring = (req_id_free r c.req_id).1 }

abbrev pub rx_advance : RxIo → RxIo
rx_advance s = record s { ring = record s.ring { cq = cq_advance s.ring.cq } }

-- The variables of the loop: the packets, the latest first, their number, and the drops.
pub record RxAcc : Type 0 where
  pub pkts : List RxPkt
  pub rcvd : ℕ
  pub dropped : ℕ
  pub io : RxIo

-- One round of the poll loop: it ends, or goes on.
pub data Round : Type 0 where
  stop : Round
  next : RxAcc → Round

unfoldable pub rx_poll_round : ℕ → RxAcc → Round
rx_poll_round max_pkts a =
    let s = a.io in
    let c = rx_entry s.ring in
    if not (ltb a.rcvd max_pkts)
    then stop
    else if not (rx_phase c == s.ring.cq.phase)
    then stop
    else if leb s.ring.sq.depth c.req_id
    then stop
    else if not (get_or s.ring.in_flight c.req_id false)
    then next (record a { io = rx_advance s })
    else if ltb (buffer_of s.ring c.req_id).data_len c.length
    then next (record a { dropped = a.dropped + 1; io = rx_advance (rx_drop c.req_id s) })
    else next (record a {
      pkts = rx_pkt s.ring c ∷ a.pkts;
      rcvd = a.rcvd + 1;
      io = rx_advance (rx_deliver c s);
    })

-- The poll loop on fuel; `none` means that the fuel ran out.
unfoldable pub rx_poll_loop : ℕ → ℕ → RxAcc → Option RxAcc
rx_poll_loop zero max_pkts a = none
rx_poll_loop (suc fuel) max_pkts a = elim (rx_poll_round max_pkts a) [
  | stop ↦ some a
  | next a' ↦ rx_poll_loop fuel max_pkts a'
]

-- What `ena_rx_poll` returns, the packets that it stores, the latest first, what it stores through
-- `dropped_count` (`none`: nothing), and what it leaves.
pub record RxPolled : Type 0 where
  pub ret : Result ℕ
  pub pkts : List RxPkt
  pub dropped_count : Option ℕ
  pub after : RxIo

-- `if (rcvd > 0 && ring->cq_db) ena_reg_write32(ring->cq_db, ring->cq_head);`
abbrev pub rx_ack : RxAcc → RxIo
rx_ack a =
    if ltb 0 a.rcvd && not (a.io.ring.cq.db == 0)
    then record a.io { log = write_cq_db a.io.ring.cq.head ∷ a.io.log }
    else a.io

-- `ena_rx_poll`. A round looks at one slot of the completion ring, and no slot is looked at twice.
unfoldable pub rx_poll : ℕ → RxIo → Option RxPolled
rx_poll max_pkts s =
    if is_tx s.ring.ring_type || is_null s.ring.rx_cq || max_pkts == 0
    then some (record { ret = err einval; pkts = []; dropped_count = none; after = s })
    else if not s.ring.hw_valid
    then some (record { ret = ok 0; pkts = []; dropped_count = some 0; after = s })
    else elim (rx_poll_loop (suc s.ring.cq.depth) max_pkts
        (record { pkts = []; rcvd = 0; dropped = 0; io = s })) [
          | none ↦ none
          | some a ↦ some (record {
            ret = ok a.rcvd;
            pkts = a.pkts;
            dropped_count = some a.dropped;
            after = rx_ack a;
          })
        ]
