-- ===== src/Tests/Sending.antt =====
-- A packet and a transmit queue with four bounce slots.
use lib_ena.Prelude.{
  ◌≤◌, ◌<◌, ◌≡◌, ◌≢◌, ◌⊎◌, true, false, none, some, [], ◌∷◌, ◌++◌, replicate, arith,
}
use lib_ena.Prelude.Flags.{flags}
use lib_ena.Ring.{Ring}
use lib_ena.Tx.Submit.{TxPkt}
use lib_ena.Netdev.{Netbuf, TxQueue}
use lib_ena.Netdev.Classify.{classify_tx_pkt}
use lib_ena.Netdev.Classified.{Untouched, Framed, Unframed, classify-Classified}
use lib_ena.Netdev.Linked.{Linked}
use lib_ena.Netdev.Transmit.{raw_pkt}
use lib_ena.Tests.Rings.{tx_ring}

-- A frame with a VLAN tag around an IPv4 header that carries TCP, with a checksum asked for.
abbrev frame : Netbuf
frame = record {
  addr = 7;
  data_addr = 4096;
  len = 38;
  bytes =
      replicate 12 0
      ++ (0x81 ∷ 0 ∷ 0 ∷ 5 ∷ 8 ∷ 0 ∷ [])
      ++ replicate 9 0
      ++ (6 ∷ [])
      ++ replicate 10 0;
  flags = 2;
}

classify-Classified_example :
    (out : TxPkt) × (classify_tx_pkt frame (raw_pkt frame 4096) ≡ some out)
    × Untouched (raw_pkt frame 4096) out
    × ((((frame.data_addr ≡ 0) ⊎ (frame.len < 14)) × Unframed out)
        ⊎ ((frame.data_addr ≢ 0) × (14 ≤ frame.len) × Framed frame (raw_pkt frame 4096) out))
classify-Classified_example = classify-Classified frame (raw_pkt frame 4096) (omega arith)

-- A ring that calls the netdev layer, and its queue.
abbrev calling : Ring
calling = record tx_ring { tx_complete_cb = true }

abbrev pub queue : TxQueue
queue = record {
  bounce_buf = 65536;
  bounce_phys = 65536;
  bounce_in_use = false;
  bounce_req_id = 0;
  bounce_wait_polls = 0;
  nb_desc = 4;
  bounce_free_head = 0;
  bounce_free_tail = 0;
  bounce_free_count = 4;
  bounce_free_ids = tx_ring.pool.ids;
  bounce_map = replicate 4 none;
  slots = replicate 4 (replicate 4096 0);
}
