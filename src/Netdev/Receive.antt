-- ===== src/Netdev/Receive.antt =====
-- The receive side of the netdev layer: `ena_netdev_rx_one` from its first refill on, with
-- `ena_netdev_rx_refill_helper`, `ena_netdev_rx_status` and `ena_netdev_rxq_drop_chain`
-- (src/ena_netdev.c). The allocator is `ena_netbuf_alloc_helper`, an argument here.
use lib_ena.Prelude.{
  ℕ, zero, suc, ◌+◌, ◌-◌, ◌==◌, ltb, leb, Bool, true, false, not, ◌&&◌, if◌then◌else◌, Option, none,
  some, List, [], ◌∷◌, ◌++◌, is_null, get_or, set,
}
use lib_ena.Status.{Result, ok, err}
use lib_ena.Ring.{Ring, Effect, free_netbuf, u64}
use lib_ena.Rx.Queue.{RxQueue, RxIo, push_slot}
use lib_ena.Rx.Refill.{Allocator, on_queue, rx_refill}
use lib_ena.Rx.Poll.{RxPkt, RxPolled, rx_entry, rx_phase, rx_poll}

-- A netbuf with a part of a frame: how many bytes, how far its data pointer has been moved, the bounce
-- slot with the offset that its bytes were copied from, and whether its checksums are known as valid.
pub record Fragment : Type 0 where
  pub netbuf : ℕ
  pub len : ℕ
  pub moved : ℕ
  pub copied : Option (ℕ × ℕ)
  pub data_valid : Bool

-- A receive queue with its ring. `chain` are the netbufs from `chain_head` to `chain_tail`: a netbuf is
-- taken to be in it once, as an allocator hands out none that is in use.
pub record RxNet : Type 0 where
  pub io : RxIo
  pub chain : List Fragment
  pub rx_refill_err : ℕ

-- Netbufs free_chain, in order.
unfoldable pub free_chain : List Fragment → List Effect → List Effect
free_chain [] log = log
free_chain (f ∷ fs) log = free_chain fs (free_netbuf f.netbuf ∷ log)

-- `ena_netdev_rxq_drop_chain`
unfoldable pub drop_chain : RxNet → RxNet
drop_chain s = record s { io = record s.io { log = free_chain s.chain s.io.log }; chain = [] }

-- How many buffers a refill aims at.
abbrev pub to_refill : Ring → ℕ
to_refill r = if leb r.sq.depth r.pool.count then r.sq.depth - 1 else r.pool.count

-- `ring->rx_refill_err++`, where a refill has failed.
abbrev pub count_refill : Result ℕ × RxIo → RxNet → RxNet
count_refill (ret, io) s =
    let failed : Bool = elim ret [ ok n ↦ ltb 1 io.ring.pool.count && n == 0 | err e ↦ true ] in
    record s {
      io = io;
      rx_refill_err = if failed then u64 (s.rx_refill_err + 1) else s.rx_refill_err;
    }

-- `ena_netdev_rx_refill_helper`; `none` means that the refill ran out of fuel.
unfoldable pub rx_refill_helper : Allocator → RxNet → Option RxNet
rx_refill_helper alloc s = elim (rx_refill alloc (to_refill s.io.ring) s.io) [
  | none ↦ none
  | some x ↦ some (count_refill x s)
]

-- `ena_netdev_rx_status`: whether the next completion is there, which is told with a frame.
unfoldable pub rx_more : Ring → Bool
rx_more r = not (is_null r.rx_cq) && rx_phase (rx_entry r) == r.cq.phase

-- The bounce slot of a request.
abbrev pub slot_of : ℕ → Option RxQueue → Option ℕ
slot_of req_id none = none
slot_of req_id (some q) =
    if not (is_null q.bounce_map) && ltb req_id q.nb_desc
    then get_or q.bounce_map req_id none
    else none

-- The slot leaves its request and goes back to the pool.
abbrev pub unmap : ℕ → ℕ → RxQueue → RxQueue
unmap req_id slot q = push_slot (record q { bounce_map = set q.bounce_map req_id none }) slot

-- `queue->bounce_buf && (uint16_t)slot < queue->nb_desc`
abbrev pub has_slot : ℕ → Option RxQueue → Bool
has_slot slot none = false
has_slot slot (some q) = not (q.bounce_buf == 0) && ltb slot q.nb_desc

-- What a call of the loop gives: a frame or none, or the loop goes on.
pub data Step : Type 0 where
  done : Option (List Fragment) → RxNet → Step
  more : RxNet → Step

-- The queue after a packet.
unfoldable pub queue_after : RxPkt → Option RxQueue → Option RxQueue
queue_after p q = elim (slot_of p.req_id q) [
  | some slot ↦ on_queue (unmap p.req_id slot) q
  | none ↦ q
]

-- A packet that does not fit: the netbuf and the chain are freed.
unfoldable pub drop_packet : RxPkt → RxNet → RxNet
drop_packet p s =
    let r = s.io.ring in
    drop_chain (record s {
      io = record s.io {
        ring = record r { stats = record r.stats { rx_dropped = u64 (r.stats.rx_dropped + 1) } };
        log = free_netbuf p.netbuf ∷ s.io.log;
      };
    })

-- Reassembly: a fragment after the chain.
unfoldable pub assemble : Bool → Bool → Fragment → RxNet → Step
assemble first last f s =
    if is_null s.chain
    then if first && not last then more (record s { chain = f ∷ [] }) else done (some (f ∷ [])) s
    else if last
    then done (some (s.chain ++ (f ∷ []))) (record s { chain = [] })
    else more (record s { chain = s.chain ++ (f ∷ []) })

-- What a poll leaves: a completion that the ring has dropped ends the chain.
unfoldable pub polled : RxPolled → RxNet → RxNet
polled p s =
    let dropped : Bool = elim p.dropped_count [ none ↦ false | some n ↦ ltb 0 n ] in
    let after : RxNet = record s { io = p.after } in if dropped then drop_chain after else after

-- What the netbuf library says of a netbuf: whether its data pointer is set, and its capacity.
module _ (alloc : Allocator) (has_data : ℕ → Bool) (buflen : ℕ → ℕ) where
  -- The bytes of a packet: copied from the slot of the request, or in the netbuf. `none` is a packet
  -- that does not fit.
  unfoldable pub fragment : RxPkt → Option RxQueue → Option Fragment
  fragment p q =
      let nb = p.netbuf in
      let valid = not p.l3_csum_err && not p.l4_csum_err && p.l4_csum_checked in
      let plain : Fragment = record {
        netbuf = nb;
        len = p.len;
        moved = 0;
        copied = none;
        data_valid = valid;
      } in
      elim (slot_of p.req_id q) [
        | some slot ↦
            if not (has_slot slot q && has_data nb)
            then some plain
            else if leb p.len (buflen nb) && leb (p.offset + p.len) 2048
            then some (record plain { copied = some (slot, p.offset) })
            else none
        | none ↦
            if not (p.offset == 0) && has_data nb
            then if leb (p.offset + p.len) (buflen nb)
              then some (record plain { moved = p.offset })
              else none
            else some plain
      ]

  -- A refill, and an end without a frame.
  unfoldable pub end_pass : RxNet → Option Step
  end_pass s = elim (rx_refill_helper alloc s) [ none ↦ none | some s' ↦ some (done none s') ]

  -- A packet that the ring has given.
  unfoldable pub take_packet : RxPkt → RxNet → Option Step
  take_packet p s =
      let after : RxNet = record s { io = record s.io { queue = queue_after p s.io.queue } } in
      if p.netbuf == 0 then end_pass s else elim (fragment p s.io.queue) [
        | none ↦ end_pass (drop_packet p after)
        | some f ↦ elim (rx_refill_helper alloc after) [
          | none ↦ none
          | some s' ↦ some (assemble p.first p.last f s')
        ]
      ]

  -- The packet of a poll, if there is one.
  unfoldable pub use_pkts : List RxPkt → RxNet → Option Step
  use_pkts [] s = end_pass s
  use_pkts (p ∷ _) s = take_packet p s

  -- One pass of the loop.
  unfoldable pub rx_step : RxNet → Option Step
  rx_step s = elim (rx_poll 1 s.io) [ none ↦ none | some p ↦ use_pkts p.pkts (polled p s) ]

  -- The loop on fuel; `none` means that fuel ran out.
  unfoldable pub rx_loop : ℕ → RxNet → Option (Option (List Fragment) × RxNet)
  rx_loop zero s = none
  rx_loop (suc fuel) s = elim (rx_step s) [
    | none ↦ none
    | some (done frame s') ↦ some (frame, s')
    | some (more s') ↦ rx_loop fuel s'
  ]

  -- `ena_netdev_rx_one` after its polls of the event queue and of the transmit queue. A pass that goes
  -- on has taken a completion, and no completion is taken twice.
  unfoldable pub rx_frames : RxNet → Option (Option (List Fragment) × RxNet)
  rx_frames s = elim (rx_refill_helper alloc s) [
    | none ↦ none
    | some s' ↦ rx_loop (suc s'.io.ring.cq.depth) s'
  ]
