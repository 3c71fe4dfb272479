-- ===== src/Tests/Rings.antt =====
-- Test data.
use lib_ena.Prelude.{ℕ, ◌≡◌, refl, Bool, true, false, [], none, set, arith}
use lib_ena.Status.{Result, ok, err}
use lib_ena.Ring.{Ring, tx, rx, TxCdesc, RxCdesc, Io}
use lib_ena.Ring.Depth.{IsDepth}
use lib_ena.Ring.Ids.{req_id_alloc}
use lib_ena.Ring.Reset.{fill_ids}
use lib_ena.Ring.FreeList.{HasPool}
use lib_ena.Ring.Lifecycle.{Heap, new_ring}
use lib_ena.Tx.Submit.{TxPkt, tx_fill, tx_submit}
use lib_ena.Tx.Serve.{TxRing}
use lib_ena.Tx.Inv.{TxInv}
use lib_ena.Tx.Accept.{tx_submit-Submitted}
use lib_ena.Tx.Fresh.{new_ring-TxRing}
use lib_ena.Rx.Queue.{RxIo}
use lib_ena.Rx.Submit.{RxOffer, rx_fill, rx_submit_one}
use lib_ena.Rx.Inv.{RxInv}
use lib_ena.Rx.Serve.{RxRing}
use lib_ena.Rx.Accept.{rx_submit-Offered}
use lib_ena.Rx.Fresh.{new_ring-RxRing}

pub four : IsDepth 4
four = record { lower = omega arith; upper = omega arith; exponent = 2; power = refl }

abbrev pub tx_ring : Ring
tx_ring = new_ring 0 tx 4 4

pub tx_ring-TxRing : TxRing tx_ring
tx_ring-TxRing = new_ring-TxRing 0 four four

pub tx_ring-HasPool : HasPool tx_ring
tx_ring-HasPool = tx_ring-TxRing.inv.held.pool

abbrev pub rx_ring : Ring
rx_ring = new_ring 1 rx 4 4

pub rx_ring-RxRing : RxRing rx_ring
rx_ring-RxRing = new_ring-RxRing 1 four four

-- A packet of 60 bytes in netbuf 7.
abbrev pub packet : TxPkt
packet = record {
  netbuf = 7;
  phys_addr = 4096;
  len = 60;
  l3_proto = 8;
  l4_proto = 12;
  l3_csum_en = false;
  l4_csum_en = false;
  df = true;
  tso_en = false;
}

-- The ring of a submit that succeeds.
abbrev pub ring_of : Ring → Result (ℕ × Ring) → Ring
ring_of r (ok (id, r')) = r'
ring_of r (err e) = r

abbrev pub busy_ring : Ring
busy_ring = ring_of tx_ring (tx_submit 3 packet tx_ring)

pub submit_busy : tx_submit 3 packet tx_ring ≡ ok (0, busy_ring)
unfolding tx_submit new_ring req_id_alloc fill_ids
submit_busy = refl

pub busy-TxInv : TxInv busy_ring
busy-TxInv = (tx_submit-Submitted 3 packet tx_ring tx_ring-TxRing.inv 0 busy_ring submit_busy).inv

-- The device has completed request 0.
abbrev pub completion : TxCdesc
completion = record { req_id = 0; status = 0; flags = 1; sub_qid = 0; sq_head_idx = 1 }

abbrev pub done_ring : Ring
done_ring = record busy_ring { tx_cq = set tx_ring.tx_cq 0 completion }

pub done-TxRing : TxRing done_ring
unfolding tx_submit new_ring req_id_alloc fill_ids tx_fill
done-TxRing = record {
  inv = record {
    direction = busy-TxInv.direction;
    bufs_length = busy-TxInv.bufs_length;
    held = busy-TxInv.held;
  };
  cq = tx_ring-TxRing.cq;
  entries = refl;
}

-- Every allocation succeeds.
abbrev pub always : ℕ → Bool
always n = true

abbrev pub empty_heap : Heap
empty_heap = record { calls = 0; live = [] }

-- A buffer of 2048 bytes in netbuf 9.
abbrev pub offer : RxOffer
offer = record { netbuf = 9; phys_addr = 8192; len = 2048 }

abbrev pub posted_ring : Ring
posted_ring = ring_of rx_ring (rx_submit_one offer rx_ring)

pub submit_posted : rx_submit_one offer rx_ring ≡ ok (0, posted_ring)
unfolding rx_submit_one new_ring req_id_alloc fill_ids
submit_posted = refl

pub posted-RxInv : RxInv posted_ring
posted-RxInv = (rx_submit-Offered offer rx_ring rx_ring-RxRing.inv 0 posted_ring submit_posted).inv

-- The device has written a packet of 60 bytes to it.
abbrev pub received : RxCdesc
received = record {
  status = 0x0d00_0000;
  length = 60;
  req_id = 0;
  hash = 5;
  sub_qid = 0;
  offset = 0;
}

abbrev pub filled_ring : Ring
filled_ring = record posted_ring { rx_cq = set rx_ring.rx_cq 0 received }

pub filled-RxRing : RxRing filled_ring
unfolding rx_submit_one new_ring req_id_alloc fill_ids rx_fill
filled-RxRing = record {
  inv = record {
    direction = posted-RxInv.direction;
    pool = posted-RxInv.pool;
    flight_length = posted-RxInv.flight_length;
    bufs_length = posted-RxInv.bufs_length;
    flying = posted-RxInv.flying;
  };
  cq = rx_ring-RxRing.cq;
  entries = refl;
}

abbrev pub io : Ring → Io
io r = record { ring = r; log = [] }

abbrev pub rx_io : Ring → RxIo
rx_io r = record { ring = r; queue = none; log = [] }
