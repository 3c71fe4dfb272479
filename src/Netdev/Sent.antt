-- ===== src/Netdev/Sent.antt =====
-- What `ena_netdev_tx_one` does to a queue and its ring.
use lib_ena.Prelude.{ℕ, suc, ◌+◌, ◌*◌, ◌≤◌, ◌<◌, ◌≡◌, Bool, some, List, [], length, get_or}
use lib_ena.Status.{Result, Errno, ok, err}
use lib_ena.Ring.{Ring, u32, u64}
use lib_ena.Tx.Submit.{TxPkt}
use lib_ena.Tx.Inv.{TxInv}
use lib_ena.Admin.{fit}
use lib_ena.Netdev.{Netbuf, TxQueue}
use lib_ena.Netdev.Classify.{classify_tx_pkt}
use lib_ena.Netdev.Bounce.{front_slot, take_slot, fill_slot}
use lib_ena.Netdev.Slots.{Maps}
use lib_ena.Netdev.Linked.{Linked}
use lib_ena.Netdev.Memory.{Backed}
use lib_ena.Netdev.Transmit.{TxIo, count_drop, raw_pkt}
use lib_ena.Netdev.Xmitted.{Accepted, Told}

-- A queue and its ring that fit each other, with the invariant of the ring.
pub record Fits (s : TxIo) : Type 0 where
  pub ring : TxInv s.ring
  pub link : Linked s.queue s.ring
  pub memory : Backed s.queue

-- A request that carries a packet: its netbuf, its length, and a header for the device to take its
-- start from, which has the packet's bytes. The request has the protocols that the packet was classified
-- with.
pub record Carries (pkt : Netbuf) (t : TxPkt) (hdr : List ℕ) : Type 0 where
  pub netbuf : t.netbuf ≡ pkt.addr
  pub len : t.len ≡ u32 pkt.len
  pub classified : classify_tx_pkt pkt (raw_pkt pkt t.phys_addr) ≡ some t
  pub header : (i : ℕ) → i < pkt.len → get_or hdr i 0 ≡ get_or pkt.bytes i 0

-- Where the device finds the bytes of a packet that has been sent under request `id`: at the address in
-- `t`, which is that of the data itself, or of a slot that the request holds and that has the bytes.
pub data Placed (phys : ℕ → ℕ) (pkt : Netbuf) (s : TxIo) (t : TxPkt) (id : ℕ) (out : TxIo)
    : Type 0 where
  direct :
      0x100000 ≤ phys pkt.data_addr
      → t.phys_addr ≡ phys pkt.data_addr
      → out.queue ≡ s.queue
      → Placed phys pkt s t id out
  bounced :
      (slot : ℕ)
      → phys pkt.data_addr < 0x100000
      → t.phys_addr ≡ u64 (out.queue.bounce_phys + slot * 4096)
      → Maps out.queue id slot
      → ((i : ℕ) → i < pkt.len → get_or (get_or out.queue.slots slot []) i 0 ≡ get_or pkt.bytes i 0)
      → suc out.queue.bounce_free_count ≡ s.queue.bounce_free_count
      → Placed phys pkt s t id out

-- The ends of a send: a request taken for the packet, with the device told of it, or the packet dropped.
pub data Ending (phys : ℕ → ℕ) (pkt : Netbuf) (s : TxIo) : Result ℕ × TxIo → Type 0 where
  sent :
      (t : TxPkt) (hdr : List ℕ) (id : ℕ) (out : TxIo)
      → Carries pkt t hdr
      → Accepted t s.ring id out.ring
      → Told t hdr s.ring s.log id out.ring out.log
      → Placed phys pkt s t id out
      → Ending phys pkt s (ok 1, out)
  dropped :
      (e : Errno) (out : TxIo)
      → out.ring ≡ count_drop s.ring
      → out.queue.bounce_map ≡ s.queue.bounce_map
      → out.queue.bounce_free_count ≡ s.queue.bounce_free_count
      → Ending phys pkt s (err e, out)

module _ (phys : ℕ → ℕ) (has_data : ℕ → Bool) (cpu : ℕ) (pkt : Netbuf)
    (long : pkt.len ≤ length pkt.bytes) (s : TxIo) (v : Fits s) where
  abbrev Ended : Result ℕ × TxIo → Type 0
  Ended x = Fits x.1 × Ending phys pkt s x

  -- The queue with the packet in the slot at the head of its pool.
  abbrev copied : TxQueue
  copied = fill_slot (front_slot s.queue) (fit pkt.len pkt.bytes) (take_slot s.queue)
