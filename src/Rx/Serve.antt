-- ===== src/Rx/Serve.antt =====
-- What `ena_rx_poll` promises.
use lib_ena.Prelude.{
  ℕ, ◌+◌, ◌≤◌, ◌≡◌, ◌≢◌, ◌⊎◌, refl, sym, ap, ◌∙◌, false, inl, inr, if◌then◌else◌, ◌==◌, ltb, not,
  ◌&&◌, Bool-cases, some, [], ◌∷◌, length, is_null-length, arith,
}
use lib_ena.Status.{ok}
use lib_ena.Ring.{Ring, is_tx, write_cq_db}
use lib_ena.Ring.Lap.{CqInv}
use lib_ena.Rx.Queue.{RxIo}
use lib_ena.Rx.Poll.{RxAcc, RxPolled, rx_ack, rx_poll}
use lib_ena.Rx.Inv.{RxInv}
use lib_ena.Rx.Round.{Turns, ended, Stopped, Looped, loop_total}
use mathlib.Core.Path.{subst}

-- A receive ring with its completion ring.
pub record RxRing (r : Ring) : Type 0 where
  pub inv : RxInv r
  pub cq : CqInv r.cq
  pub entries : length r.rx_cq ≡ r.cq.depth

-- What a poll returns and leaves. It has taken the turns from `s` to `last`, and then written a register.
pub record RxServed (max_pkts : ℕ) (s : RxIo) (p : RxPolled) : Type 0 where
  pub rcvd : ℕ
  pub dropped : ℕ
  pub answer : p.ret ≡ ok rcvd
  pub drops : p.dropped_count ≡ some dropped
  pub stored : length p.pkts ≡ rcvd
  pub within : rcvd ≤ max_pkts
  pub inv : RxInv p.after.ring
  pub depth_same : p.after.ring.sq.depth ≡ s.ring.sq.depth
  pub kept : s.ring.pool.count ≤ p.after.ring.pool.count
  pub grown : p.after.ring.pool.count ≤ s.ring.pool.count + (rcvd + dropped)
  pub last : RxIo
  pub turns : Turns last s rcvd dropped
  pub ring_same : p.after.ring ≡ last.ring
  pub acked : p.after.log ≡ (
      if ltb 0 rcvd && not (last.ring.cq.db == 0)
      then write_cq_db last.ring.cq.head ∷ last.log
      else last.log)
  pub stopped : (s.ring.hw_valid ≡ false) ⊎ Stopped max_pkts rcvd p.after.ring

abbrev pub start_of : RxIo → RxAcc
start_of s = record { pkts = []; rcvd = 0; dropped = 0; io = s }

-- The acknowledgement writes a register only.
ack-RxServed :
    (max_pkts : ℕ) (s : RxIo) (a : RxAcc) (s' : RxIo)
    → Looped max_pkts (start_of s) a
    → s'.ring ≡ a.io.ring
    → s'.log ≡ (
        if ltb 0 a.rcvd && not (a.io.ring.cq.db == 0)
        then write_cq_db a.io.ring.cq.head ∷ a.io.log
        else a.io.log)
    → RxServed max_pkts s
        (record { ret = ok a.rcvd; pkts = a.pkts; dropped_count = some a.dropped; after = s' })
ack-RxServed max_pkts s a s' y same log =
    let b = y.between in
    record {
      rcvd = a.rcvd;
      dropped = a.dropped;
      answer = refl;
      drops = refl;
      stored = b.stored;
      within = b.within;
      inv = rw same b.inv;
      depth_same = ap (λ (r : Ring). r.sq.depth) same ∙ b.depth_same;
      kept = omega (arith, b.kept, ap (λ (r : Ring). r.pool.count) same);
      grown = omega (arith, b.grown, ap (λ (r : Ring). r.pool.count) same);
      last = a.io;
      turns =
          let rcvd : y.n ≡ a.rcvd = omega (arith, y.rcvd_by) in
          let dropped : y.d ≡ a.dropped = omega (arith, y.dropped_by) in
          subst (λ n. Turns a.io s n a.dropped) rcvd
            (subst (λ d. Turns a.io s y.n d) dropped y.turns);
      ring_same = same;
      acked = log;
      stopped = inr (subst (Stopped max_pkts a.rcvd) (sym same) y.stopped);
    }

pub loop-RxServed :
    (max_pkts : ℕ) (s : RxIo) (a : RxAcc)
    → Looped max_pkts (start_of s) a
    → RxServed max_pkts s (record {
      ret = ok a.rcvd;
      pkts = a.pkts;
      dropped_count = some a.dropped;
      after = rx_ack a;
    })
loop-RxServed max_pkts s a b = elim (Bool-cases (ltb 0 a.rcvd && not (a.io.ring.cq.db == 0))) [
  | inl e ↦ rw e (
      ack-RxServed max_pkts s a (record a.io { log = write_cq_db a.io.ring.cq.head ∷ a.io.log }) b
        refl (rw e refl))
  | inr e ↦ rw e (ack-RxServed max_pkts s a a.io b refl (rw e refl))
]

pub idle-RxServed :
    (max_pkts : ℕ) (s : RxIo)
    → RxInv s.ring
    → s.ring.hw_valid ≡ false
    → RxServed max_pkts s (record { ret = ok 0; pkts = []; dropped_count = some 0; after = s })
idle-RxServed max_pkts s v e = record {
  rcvd = 0;
  dropped = 0;
  answer = refl;
  drops = refl;
  stored = refl;
  within = omega arith;
  inv = v;
  depth_same = refl;
  kept = omega arith;
  grown = omega arith;
  last = s;
  turns = ended s 0 0 refl refl refl;
  ring_same = refl;
  acked = refl;
  stopped = inl e;
}

-- On a receive ring that meets the invariant, with a completion ring of any content, `ena_rx_poll`
-- with room for a packet returns. It takes turns, each for the entry at the head of the completion ring,
-- which the device has posted for a request in range: it passes over an entry whose request is not in
-- flight, drops one that is longer than its buffer, and else delivers it. It returns and stores as many
-- packets as it delivered, at most the room, and counts as many drops as it dropped. It ends, on a ring
-- that the device knows, when the room is used up, or at an entry that is not posted or names no
-- request. If it has stored a packet, it writes the head to the completion doorbell, if there is one.
-- Every request that is allocated is still in flight, and each packet and each drop gives
-- back at most one id.
pub rx_poll-RxServed :
    (max_pkts : ℕ) (s : RxIo)
    → RxRing s.ring
    → max_pkts ≢ 0
    → (p : RxPolled) × (rx_poll max_pkts s ≡ some p) × RxServed max_pkts s p
unfolding rx_poll
rx_poll-RxServed max_pkts s v some_room =
    let direction : is_tx s.ring.ring_type ≡ false = ap is_tx v.inv.direction in
    let has_cq = is_null-length s.ring.rx_cq (omega (arith, v.entries, v.cq.depth_ok.lower)) in
    let room : (max_pkts == 0) ≡ false = ground arith in
    elim (Bool-cases s.ring.hw_valid) [
      | inr e ↦ (_, simp (direction, has_cq, room, e), idle-RxServed max_pkts s v.inv e)
      | inl valid ↦
          let (a, r, b) =
            loop_total max_pkts (start_of s)
              (record { inv = v.inv; within = omega arith; stored = refl }) v.cq in
          (_, simp (direction, has_cq, room, valid, r), loop-RxServed max_pkts s a b)
    ]
