-- ===== src/Netdev/Transmit.antt =====
-- `ena_netdev_tx_one` and `ena_netdev_tx_xmit_one` (src/ena_netdev.c).
use lib_ena.Prelude.{
  ℕ, ◌+◌, ◌*◌, ◌==◌, ltb, Bool, false, if◌then◌else◌, Option, none, some, List, [],
}
use lib_ena.Status.{Result, ok, err, einval, ebusy}
use lib_ena.Ring.{Ring, Effect, Io, u16, u32, u64}
use lib_ena.Tx.Submit.{TxPkt, tx_submit, tx_doorbell}
use lib_ena.Tx.Poll.{Polled, tx_poll_completions}
use lib_ena.Llq.Push.{llq_tx_push}
use lib_ena.Admin.{fit}
use lib_ena.Netdev.{Netbuf, TxQueue}
use lib_ena.Netdev.Classify.{classify_tx_pkt}
use lib_ena.Netdev.Bounce.{called, front_slot, take_slot, fill_slot, map_slot, return_slot, waited}

-- A transmit queue with its ring, and what has been done outside them, the latest first.
pub record TxIo : Type 0 where
  pub ring : Ring
  pub queue : TxQueue
  pub log : List Effect

-- `ring->tx_dropped++`
unfoldable pub count_drop : Ring → Ring
count_drop r = record r { stats = record r.stats { tx_dropped = u64 (r.stats.tx_dropped + 1) } }

-- The packet before it is classified.
abbrev pub raw_pkt : Netbuf → ℕ → TxPkt
raw_pkt pkt phys_addr = record {
  netbuf = pkt.addr;
  phys_addr = phys_addr;
  len = u32 pkt.len;
  l3_proto = 0;
  l4_proto = 0;
  l3_csum_en = false;
  l4_csum_en = false;
  df = false;
  tso_en = false;
}

-- The length of the header that goes inline into a push buffer.
abbrev pub inline_len : Ring → TxPkt → ℕ
inline_len r t =
    let max_hdr = if r.push.header_len == 0 then 96 else r.push.header_len in
    u16 (if ltb t.len max_hdr then t.len else max_hdr)

-- What a poll makes of the queue.
abbrev pub reaped : Polled → TxQueue → TxIo
reaped p q = record {
  ring = p.after.ring;
  queue = waited (called p.after.log q);
  log = p.after.log;
}

-- `has_data` says whether the data pointer of a netbuf is set, and `cpu` is the core.
module _ (has_data : ℕ → Bool) (cpu : ℕ) where
  -- `ena_netdev_tx_xmit_one`
  unfoldable pub xmit_one : TxPkt → List ℕ → Io → Result ℕ × Io
  xmit_one t hdr s =
      if s.ring.push.is_llq
      then llq_tx_push has_data cpu t (some hdr) (inline_len s.ring t) s
      else elim (tx_submit cpu t s.ring) [
        | ok (req_id, r) ↦ (ok req_id, tx_doorbell (record s { ring = r }))
        | err e ↦ (err e, s)
      ]

-- The end of a send from the data itself, and from a slot.
unfoldable pub direct_end : TxQueue → Result ℕ × Io → Result ℕ × TxIo
direct_end q (ok req_id, s) = (ok 1, record { ring = s.ring; queue = q; log = s.log })
direct_end q (err e, s) = (err e, record { ring = count_drop s.ring; queue = q; log = s.log })

unfoldable pub bounce_end : ℕ → TxQueue → Result ℕ × Io → Result ℕ × TxIo
bounce_end slot q (ok req_id, s) =
    (ok 1, record { ring = s.ring; queue = map_slot req_id slot q; log = s.log })
bounce_end slot q (err e, s) =
    (err e, record { ring = count_drop s.ring; queue = return_slot slot q; log = s.log })

-- `phys` is `ena_netbuf_phys_addr`.
module _ (phys : ℕ → ℕ) (has_data : ℕ → Bool) (cpu : ℕ) where
  -- A send from the data of the packet.
  unfoldable pub send_direct : Netbuf → TxIo → Option (Result ℕ × TxIo)
  send_direct pkt s = elim (classify_tx_pkt pkt (raw_pkt pkt (phys pkt.data_addr))) [
    | none ↦ none
    | some t ↦ some (
        direct_end s.queue
          (xmit_one has_data cpu t pkt.bytes (record { ring = s.ring; log = s.log })))
  ]

  -- A send from a bounce slot, which the bytes are copied to first.
  unfoldable pub send_bounced : Netbuf → TxIo → Option (Result ℕ × TxIo)
  send_bounced pkt s =
      let slot = front_slot s.queue in
      let bytes = fit pkt.len pkt.bytes in
      let filled = fill_slot slot bytes (take_slot s.queue) in
      elim (classify_tx_pkt pkt (raw_pkt pkt (u64 (s.queue.bounce_phys + slot * 4096)))) [
        | none ↦ none
        | some t ↦ some (
            bounce_end slot filled
              (xmit_one has_data cpu t bytes (record { ring = s.ring; log = s.log })))
      ]

  -- What follows the poll.
  unfoldable pub send : Netbuf → TxIo → Option (Result ℕ × TxIo)
  send pkt s =
      let dropped : TxIo = record s { ring = count_drop s.ring } in
      if ltb (phys pkt.data_addr) 0x100000
      then if s.queue.bounce_free_count == 0
        then some (err ebusy, dropped)
        else if ltb 4096 pkt.len
        then some (err einval, dropped)
        else send_bounced pkt s
      else send_direct pkt s

  -- `ena_netdev_tx_one` with pointers that are not NULL; `none` means that the poll ran out of fuel,
  -- or that the bytes of the packet are fewer than its length.
  unfoldable pub tx_one : Netbuf → Ring → TxQueue → Option (Result ℕ × TxIo)
  tx_one pkt r q = elim (tx_poll_completions cpu 32 (record { ring = r; log = [] })) [
    | none ↦ none
    | some p ↦ send pkt (reaped p q)
  ]
