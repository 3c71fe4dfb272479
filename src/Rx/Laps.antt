-- ===== src/Rx/Laps.antt =====
-- How far a receive poll goes through the completion ring: polls in a row look at no slot twice.
use mathlib.Core.Path.{subst}
use lib_ena.Prelude.{
  ℕ, zero, suc, ◌+◌, ◌≤◌, ◌<◌, ◌≡◌, ◌≢◌, refl, sym, ap, ◌∙◌, inl, inr, some, some_injective, false,
  ◌&&◌, ◌==◌, ltb, not, Bool-cases, length, is_null-length, arith,
}
use lib_ena.Ring.{Ring, is_tx}
use lib_ena.Ring.Lap.{Lap, lap_over, Lap-next}
use lib_ena.Rx.Queue.{RxIo}
use lib_ena.Rx.Inv.{RxInv}
use lib_ena.Rx.Poll.{rx_poll, RxPolled, rx_ack, RxAcc, rx_poll_round, rx_poll_loop}
use lib_ena.Rx.Serve.{RxServed, start_of, loop-RxServed, idle-RxServed}
use lib_ena.Rx.Round.{
  loop_total, Between, AccInv, After, round-After, Round-cases, loop-stop, loop-next, slot_phase,
}

-- Where a loop that began at `a`, `m` entries after the start of a lap, has come to.
pub record Onward (d h m : ℕ) (a b : RxAcc) : Type 0 where
  pub now : ℕ
  pub lap : Lap (slot_phase b.io.ring.rx_cq) d h now b.io.ring.cq
  pub entries_same : b.io.ring.rx_cq ≡ a.io.ring.rx_cq
  pub in_lap : now ≤ d
  pub moved : m + b.rcvd ≤ now + a.rcvd

loop-Onward :
    (fuel d h m max_pkts : ℕ) (a b : RxAcc)
    → h < 65536
    → m ≤ d
    → AccInv max_pkts a
    → Lap (slot_phase a.io.ring.rx_cq) d h m a.io.ring.cq
    → rx_poll_loop fuel max_pkts a ≡ some b
    → Onward d h m a b
unfolding rx_poll_loop
loop-Onward zero d h m max_pkts a b hin le v l e = absurd (cc)
loop-Onward (suc fuel) d h m max_pkts a b hin le v l e =
    elim (Round-cases (rx_poll_round max_pkts a)) [
      | inl p ↦
          let same : a ≡ b = some_injective (sym (loop-stop fuel max_pkts a p) ∙ e) in
          subst (Onward d h m a) same
            (record { now = m; lap = l; entries_same = refl; in_lap = le; moved = omega arith })
      | inr (c, p) ↦
          let step = subst (After max_pkts a) p (round-After max_pkts a v) in
          let w = step.between in
          let over = lap_over hin l step.matched in
          let l' =
            subst (λ es. Lap (slot_phase es) d h (m + 1) c.io.ring.cq) (sym step.entries_same)
              (Lap-next hin l step.matched step.cq_next) in
          let x =
            loop-Onward fuel d h (m + 1) max_pkts c b hin (omega (arith, over, le))
              (record { inv = w.inv; within = w.within; stored = w.stored }) l'
              (sym (loop-next fuel max_pkts a c p) ∙ e) in
          record {
            now = x.now;
            lap = x.lap;
            entries_same = x.entries_same ∙ step.entries_same;
            in_lap = x.in_lap;
            moved = omega (arith, x.moved, step.one_more);
          }
    ]

-- A poll that has taken as many packets as it returns.
pub record Passed (d h m : ℕ) (s s' : RxIo) (rcvd : ℕ) : Type 0 where
  pub now : ℕ
  pub lap : Lap (slot_phase s'.ring.rx_cq) d h now s'.ring.cq
  pub entries_same : s'.ring.rx_cq ≡ s.ring.rx_cq
  pub in_lap : now ≤ d
  pub moved : m + rcvd ≤ now

ack-ring : (a : RxAcc) → (rx_ack a).ring ≡ a.io.ring
ack-ring a = elim (Bool-cases (ltb 0 a.rcvd && not (a.io.ring.cq.db == 0))) [
  | inl e ↦ rw e refl
  | inr e ↦ rw e refl
]

ack-Passed :
    (d h m max_pkts : ℕ) (s : RxIo) (a : RxAcc)
    → Between max_pkts (start_of s) a
    → Onward d h m (start_of s) a
    → Passed d h m s (rx_ack a) (length a.pkts)
ack-Passed d h m max_pkts s a b o =
    let same = sym (ack-ring a) in
    record {
      now = o.now;
      lap = subst (λ (r : Ring). Lap (slot_phase r.rx_cq) d h o.now r.cq) same o.lap;
      entries_same = ap (λ (r : Ring). r.rx_cq) (ack-ring a) ∙ o.entries_same;
      in_lap = o.in_lap;
      moved = omega (arith, o.moved, b.stored);
    }

-- `ena_rx_poll` on a receive ring that is `m` entries into a lap returns, and ends at most a whole lap
-- after its start, as many entries on as it stores packets, or more.
pub rx_poll-Passed :
    (d h m max_pkts : ℕ) (s : RxIo)
    → h < 65536
    → m ≤ d
    → RxInv s.ring
    → 0 < length s.ring.rx_cq
    → max_pkts ≢ 0
    → Lap (slot_phase s.ring.rx_cq) d h m s.ring.cq
    → (p : RxPolled) × (rx_poll max_pkts s ≡ some p)
      × RxServed max_pkts s p
      × Passed d h m s p.after (length p.pkts)
unfolding rx_poll
rx_poll-Passed d h m max_pkts s hin le v some_cq some_room l =
    let direction : is_tx s.ring.ring_type ≡ false = ap is_tx v.direction in
    let has_cq = is_null-length s.ring.rx_cq some_cq in
    let room : (max_pkts == 0) ≡ false = ground arith in
    elim (Bool-cases s.ring.hw_valid) [
      | inr i ↦ (
        _,
        simp (direction, has_cq, room, i),
        idle-RxServed max_pkts s v i,
        record { now = m; lap = l; entries_same = refl; in_lap = le; moved = omega arith },
      )
      | inl i ↦
          let start : AccInv max_pkts (start_of s) = record {
            inv = v;
            within = omega arith;
            stored = refl;
          } in
          let (a, k, b) = loop_total max_pkts (start_of s) start l.cq in
          let o =
            loop-Onward (suc s.ring.cq.depth) d h m max_pkts (start_of s) a hin le start l k in
          (
            _,
            simp (direction, has_cq, room, i, k),
            loop-RxServed max_pkts s a b,
            ack-Passed d h m max_pkts s a b.between o,
          )
    ]
