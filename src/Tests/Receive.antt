-- ===== src/Tests/Receive.antt =====
-- The receive path.
use lib_ena.Prelude.{false, none, ◌∷◌, Option, List, [], true, ℕ, ◌≤◌, ◌≡◌, some, arith}
use lib_ena.Status.{ok}
use lib_ena.Rx.Queue.{RxIo}
use lib_ena.Rx.Refill.{Allocator, rx_refill}
use lib_ena.Rx.Poll.{RxPkt, RxPolled, rx_poll}
use lib_ena.Rx.Serve.{RxServed, rx_poll-RxServed}
use lib_ena.Rx.Accept.{Offered, rx_submit-Offered}
use lib_ena.Rx.Refilled.{Refilled, goal_of, rx_refill-Refilled}
use lib_ena.Netdev.Receive.{
  rx_refill_helper, Fragment, RxNet, Step, fragment, take_packet, rx_frames,
}
use lib_ena.Netdev.Landed.{Fitting, Landing, take_packet-Landing}
use lib_ena.Netdev.Gathered.{FrameOf}
use lib_ena.Netdev.Received.{Received, rx_frames-Received}
use lib_ena.Tests.Rings.{
  rx_ring, rx_ring-RxRing, offer, posted_ring, submit_posted, filled_ring, filled-RxRing, rx_io,
}

rx_poll-RxServed_example :
    (p : RxPolled) × (rx_poll 2 (rx_io filled_ring) ≡ some p) × RxServed 2 (rx_io filled_ring) p
rx_poll-RxServed_example = rx_poll-RxServed 2 (rx_io filled_ring) filled-RxRing (omega arith)

rx_submit-Offered_example : Offered offer rx_ring 0 posted_ring
rx_submit-Offered_example =
    rx_submit-Offered offer rx_ring rx_ring-RxRing.inv 0 posted_ring submit_posted

-- An allocator that always hands out the same buffer.
abbrev same_buffer : Allocator
same_buffer q = (offer, q)

rx_refill-Refilled_example :
    (n : ℕ) × (s' : RxIo) × (rx_refill same_buffer 3 (rx_io rx_ring) ≡ some (ok n, s'))
    × (n ≤ goal_of 3 rx_ring)
    × Refilled (rx_io rx_ring) n s'
rx_refill-Refilled_example = rx_refill-Refilled same_buffer 3 (rx_io rx_ring) rx_ring-RxRing.inv

-- A queue with its ring and no chain.
abbrev net : RxNet
net = record { io = rx_io filled_ring; chain = []; rx_refill_err = 0 }

rx_frames-Received_example :
    (s' : RxNet) × (out : Option (List Fragment) × RxNet) × (rx_refill_helper same_buffer net
      ≡ some s')
    × (s'.chain ≡ net.chain)
    × (rx_frames same_buffer (λ _. true) (λ _. 2048) net ≡ some out)
    × Received filled_ring out
    × FrameOf same_buffer (λ _. true) (λ _. 2048) s' out.0
rx_frames-Received_example =
    rx_frames-Received same_buffer (λ _. true) (λ _. 2048) net filled-RxRing

-- The second part of a frame whose first part is there, at an offset of two bytes.
abbrev second : RxPkt
second = record {
  netbuf = 5;
  len = 100;
  offset = 2;
  hash = 0;
  l3_csum_err = false;
  l4_csum_err = false;
  l4_csum_checked = true;
  frag = false;
  first = false;
  last = true;
  req_id = 0;
}

abbrev begun : RxNet
begun = record net {
  chain = record { netbuf = 4; len = 1500; moved = 0; copied = none; data_valid = true } ∷ [];
}

take_packet-Landing_example :
    (x : Step) × (t : RxNet) × (take_packet same_buffer (λ _. true) (λ _. 2048) second begun
      ≡ some x)
    × Landing second (fragment same_buffer (λ _. true) (λ _. 2048) second begun.io.queue) begun x t
    × Fitting
        (λ _. true)
        (λ _. 2048)
        second
        begun.io.queue
        (fragment same_buffer (λ _. true) (λ _. 2048) second begun.io.queue)
take_packet-Landing_example =
    take_packet-Landing same_buffer (λ _. true) (λ _. 2048) second begun (omega arith)
      filled-RxRing.inv
