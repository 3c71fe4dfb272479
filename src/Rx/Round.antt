-- ===== src/Rx/Round.antt =====
-- One round of the receive loop, and the loop.
use mathlib.Core.Path.{subst}
use lib_ena.Prelude.{
  ℕ, zero, suc, ◌+◌, ◌≤◌, ◌<◌, ◌≡◌, ◌≢◌, refl, sym, ap, ◌∙◌, true, false, ◌⊎◌, inl, inr, ◌==◌, ltb,
  leb, Bool-cases, some, List, ◌∷◌, length, get_or, arith,
}
use lib_ena.Ring.{Ring, CompQueue, RxCdesc}
use lib_ena.Ring.Advance.{cq_advance}
use lib_ena.Ring.Lap.{CqInv, Lap, Lap-start, lap_over, Lap-next}
use lib_ena.Rx.Queue.{RxIo}
use lib_ena.Rx.Poll.{
  Round, stop, next, RxAcc, no_rx_cdesc, rx_entry, rx_phase, rx_pkt, buffer_of, rx_drop, rx_deliver,
  rx_advance, rx_poll_round, rx_poll_loop,
}
use lib_ena.Rx.Inv.{RxInv, drop-Consumed, deliver-Consumed}

-- A loop that has come from `a` to `b`: it took the pool from the one to the other by at most one
-- id for each packet and each drop.
pub record Between (max_pkts : ℕ) (a b : RxAcc) : Type 0 where
  pub inv : RxInv b.io.ring
  pub depth_same : b.io.ring.sq.depth ≡ a.io.ring.sq.depth
  pub within : b.rcvd ≤ max_pkts
  pub stored : length b.pkts ≡ b.rcvd
  pub kept : a.io.ring.pool.count ≤ b.io.ring.pool.count
  pub grown :
      b.io.ring.pool.count + (a.rcvd + a.dropped) ≤ a.io.ring.pool.count + (b.rcvd + b.dropped)

-- The entry at the head of the completion ring is one that the device has posted, for a request in range.
pub record Posted (s : RxIo) : Type 0 where
  pub matched : rx_phase (rx_entry s.ring) ≡ s.ring.cq.phase
  pub in_range : (rx_entry s.ring).req_id < s.ring.sq.depth

-- What becomes of that entry, with `n` packets stored and `d` dropped: it is passed over if its request
-- is not in flight, dropped if it is longer than its buffer, and else delivered.
pub data Turn (s s' : RxIo) (n d : ℕ) : Type 0 where
  skipped :
      get_or s.ring.in_flight (rx_entry s.ring).req_id false ≡ false
      → s' ≡ rx_advance s
      → n ≡ 0
      → d ≡ 0
      → Turn s s' n d
  oversize :
      get_or s.ring.in_flight (rx_entry s.ring).req_id false ≡ true
      → (buffer_of s.ring (rx_entry s.ring).req_id).data_len < (rx_entry s.ring).length
      → s' ≡ rx_advance (rx_drop (rx_entry s.ring).req_id s)
      → n ≡ 0
      → d ≡ 1
      → Turn s s' n d
  delivered :
      get_or s.ring.in_flight (rx_entry s.ring).req_id false ≡ true
      → (rx_entry s.ring).length ≤ (buffer_of s.ring (rx_entry s.ring).req_id).data_len
      → s' ≡ rx_advance (rx_deliver (rx_entry s.ring) s)
      → n ≡ 1
      → d ≡ 0
      → Turn s s' n d

-- Turns from `s` to `z`, with `n` packets stored and `d` dropped in all.
pub data Turns (z : RxIo) : RxIo → ℕ → ℕ → Type 0 where
  ended : (s : RxIo) (n d : ℕ) → s ≡ z → n ≡ 0 → d ≡ 0 → Turns z s n d
  turn :
      (s s' : RxIo) (n d m e k l : ℕ)
      → Posted s
      → Turn s s' n d
      → Turns z s' m e
      → k ≡ n + m
      → l ≡ d + e
      → Turns z s k l

-- Why a loop ends: the room is used up, or the entry at the head is not posted or names no request.
abbrev pub Stopped : ℕ → ℕ → Ring → Type 0
Stopped max_pkts rcvd r =
    (max_pkts ≤ rcvd) ⊎ ((rx_phase (rx_entry r) ≢ r.cq.phase) ⊎ (r.sq.depth ≤ (rx_entry r).req_id))

-- A round that goes on has matched the phase of its entry.
pub record Advanced (max_pkts : ℕ) (a b : RxAcc) : Type 0 where
  pub matched : rx_phase (rx_entry a.io.ring) ≡ a.io.ring.cq.phase
  pub cq_next : b.io.ring.cq ≡ cq_advance a.io.ring.cq
  pub entries_same : b.io.ring.rx_cq ≡ a.io.ring.rx_cq
  pub one_more : b.rcvd ≤ a.rcvd + 1
  pub between : Between max_pkts a b
  pub n : ℕ
  pub d : ℕ
  pub posted : Posted a.io
  pub turned : Turn a.io b.io n d
  pub rcvd_by : b.rcvd ≡ a.rcvd + n
  pub dropped_by : b.dropped ≡ a.dropped + d

-- A loop that has ended, and the turns that it took.
pub record Looped (max_pkts : ℕ) (a b : RxAcc) : Type 0 where
  pub between : Between max_pkts a b
  pub n : ℕ
  pub d : ℕ
  pub turns : Turns b.io a.io n d
  pub rcvd_by : b.rcvd ≡ a.rcvd + n
  pub dropped_by : b.dropped ≡ a.dropped + d
  pub stopped : Stopped max_pkts b.rcvd b.io.ring

-- What the loop holds at each round.
pub record AccInv (max_pkts : ℕ) (a : RxAcc) : Type 0 where
  pub inv : RxInv a.io.ring
  pub within : a.rcvd ≤ max_pkts
  pub stored : length a.pkts ≡ a.rcvd

-- The invariant does not read the completion queue.
cq-RxInv : (r : Ring) (q : CompQueue) → RxInv r → RxInv (record r { cq = q })
cq-RxInv r q v = record {
  direction = v.direction;
  pool = v.pool;
  flight_length = v.flight_length;
  bufs_length = v.bufs_length;
  flying = v.flying;
}

module _ (max_pkts : ℕ) (a : RxAcc) (v : AccInv max_pkts a)
    (ph : rx_phase (rx_entry a.io.ring) ≡ a.io.ring.cq.phase)
    (h : (rx_entry a.io.ring).req_id < a.io.ring.sq.depth) where
  skip-Advanced :
      get_or a.io.ring.in_flight (rx_entry a.io.ring).req_id false ≡ false
      → Advanced max_pkts a (record a { io = rx_advance a.io })
  skip-Advanced down = record {
    n = 0;
    d = 0;
    posted = record { matched = ph; in_range = h };
    turned = skipped down refl refl refl;
    rcvd_by = omega arith;
    dropped_by = omega arith;
    matched = ph;
    cq_next = refl;
    entries_same = refl;
    one_more = omega arith;
    between = record {
      inv = cq-RxInv a.io.ring (cq_advance a.io.ring.cq) v.inv;
      depth_same = refl;
      within = v.within;
      stored = v.stored;
      kept = omega arith;
      grown = omega arith;
    };
  }

  drop-Advanced :
      get_or a.io.ring.in_flight (rx_entry a.io.ring).req_id false ≡ true
      → (buffer_of a.io.ring (rx_entry a.io.ring).req_id).data_len < (rx_entry a.io.ring).length
      → Advanced max_pkts a (record a {
        dropped = a.dropped + 1;
        io = rx_advance (rx_drop (rx_entry a.io.ring).req_id a.io);
      })
  drop-Advanced up long =
      let s' : RxIo = rx_drop (rx_entry a.io.ring).req_id a.io in
      let done = drop-Consumed (rx_entry a.io.ring).req_id a.io v.inv h in
      record {
        n = 0;
        d = 1;
        posted = record { matched = ph; in_range = h };
        turned = oversize up long refl refl refl;
        rcvd_by = omega arith;
        dropped_by = refl;
        matched = ph;
        cq_next = ap cq_advance done.cq_same;
        entries_same = done.entries_same;
        one_more = omega arith;
        between = record {
          inv = cq-RxInv s'.ring (cq_advance s'.ring.cq) done.inv;
          depth_same = ap (λ q. q.depth) done.sq_same;
          within = v.within;
          stored = v.stored;
          kept = done.kept;
          grown = omega (arith, done.grown);
        };
      }

  deliver-Advanced :
      a.rcvd < max_pkts
      → get_or a.io.ring.in_flight (rx_entry a.io.ring).req_id false ≡ true
      → (rx_entry a.io.ring).length ≤ (buffer_of a.io.ring (rx_entry a.io.ring).req_id).data_len
      → Advanced max_pkts a (record a {
        pkts = rx_pkt a.io.ring (rx_entry a.io.ring) ∷ a.pkts;
        rcvd = a.rcvd + 1;
        io = rx_advance (rx_deliver (rx_entry a.io.ring) a.io);
      })
  deliver-Advanced more up fits =
      let s' : RxIo = rx_deliver (rx_entry a.io.ring) a.io in
      let done = deliver-Consumed (rx_entry a.io.ring) a.io v.inv h in
      record {
        n = 1;
        d = 0;
        posted = record { matched = ph; in_range = h };
        turned = delivered up fits refl refl refl;
        rcvd_by = refl;
        dropped_by = omega arith;
        matched = ph;
        cq_next = ap cq_advance done.cq_same;
        entries_same = done.entries_same;
        one_more = omega arith;
        between = record {
          inv = cq-RxInv s'.ring (cq_advance s'.ring.cq) done.inv;
          depth_same = ap (λ q. q.depth) done.sq_same;
          within = omega arith;
          stored = ap suc v.stored ∙ omega arith;
          kept = done.kept;
          grown = omega (arith, done.grown);
        };
      }

abbrev pub After : ℕ → RxAcc → Round → Type 0
After max_pkts a stop = Stopped max_pkts a.rcvd a.io.ring
After max_pkts a (next b) = Advanced max_pkts a b

pub round-After :
    (max_pkts : ℕ) (a : RxAcc) → AccInv max_pkts a → After max_pkts a (rx_poll_round max_pkts a)
unfolding rx_poll_round
round-After max_pkts a v =
    let r : Ring = a.io.ring in
    let c : RxCdesc = rx_entry r in
    elim (Bool-cases (ltb a.rcvd max_pkts)) [
      | inr e ↦ rw e (inl (ground arith))
      | inl more ↦ elim (Bool-cases (rx_phase c == r.cq.phase)) [
        | inr e ↦ rw (more, e) (inr (inl (ground arith)))
        | inl ph ↦ elim (Bool-cases (leb r.sq.depth c.req_id)) [
          | inl e ↦ rw (more, ph, e) (inr (inr (ground arith)))
          | inr ok ↦ elim (Bool-cases (get_or r.in_flight c.req_id false)) [
            | inr e ↦
                rw (more, ph, ok, e) (skip-Advanced max_pkts a v (ground arith) (ground arith) e)
            | inl fl ↦ elim (Bool-cases (ltb (buffer_of r c.req_id).data_len c.length)) [
              | inl e ↦
                  rw (more, ph, ok, fl, e)
                    (drop-Advanced max_pkts a v (ground arith) (ground arith) fl (ground arith))
              | inr e ↦
                  rw (more, ph, ok, fl, e)
                    (deliver-Advanced max_pkts a v (ground arith) (ground arith) (ground arith) fl
                      (ground arith))
            ]
          ]
        ]
      ]
    ]

pub Round-cases : (r : Round) → (r ≡ stop) ⊎ ((b : RxAcc) × (r ≡ next b))
Round-cases stop = inl refl
Round-cases (next b) = inr (b, refl)

pub loop-stop :
    (fuel max_pkts : ℕ) (a : RxAcc)
    → rx_poll_round max_pkts a ≡ stop
    → rx_poll_loop (suc fuel) max_pkts a ≡ some a
unfolding rx_poll_loop
loop-stop fuel max_pkts a e = rw (e, rx_poll_loop)

pub loop-next :
    (fuel max_pkts : ℕ) (a b : RxAcc)
    → rx_poll_round max_pkts a ≡ next b
    → rx_poll_loop (suc fuel) max_pkts a ≡ rx_poll_loop fuel max_pkts b
unfolding rx_poll_loop
loop-next fuel max_pkts a b e = rw (e, rx_poll_loop)

-- The phase bit of the entry in a slot.
abbrev pub slot_phase : List RxCdesc → ℕ → ℕ
slot_phase es i = rx_phase (get_or es i no_rx_cdesc)

-- With a round for every slot that is left, the loop ends by its own test.
loop_ends :
    (fuel d h m max_pkts : ℕ) (a : RxAcc)
    → h < 65536
    → m ≤ d
    → fuel + m ≡ suc d
    → AccInv max_pkts a
    → Lap (slot_phase a.io.ring.rx_cq) d h m a.io.ring.cq
    → (b : RxAcc) × (rx_poll_loop fuel max_pkts a ≡ some b) × Looped max_pkts a b
loop_ends zero d h m max_pkts a hin le f v l = absurd (omega arith)
loop_ends (suc fuel) d h m max_pkts a hin le f v l = elim (Round-cases (rx_poll_round max_pkts a)) [
  | inl p ↦ (
    a,
    loop-stop fuel max_pkts a p,
    record {
      between = record {
        inv = v.inv;
        depth_same = refl;
        within = v.within;
        stored = v.stored;
        kept = omega arith;
        grown = omega arith;
      };
      n = 0;
      d = 0;
      turns = ended a.io 0 0 refl refl refl;
      rcvd_by = omega arith;
      dropped_by = omega arith;
      stopped = subst (After max_pkts a) p (round-After max_pkts a v);
    },
  )
  | inr (b, p) ↦
      let step = subst (After max_pkts a) p (round-After max_pkts a v) in
      let w = step.between in
      let over = lap_over hin l step.matched in
      let l' =
        subst (λ es. Lap (slot_phase es) d h (m + 1) b.io.ring.cq) (sym step.entries_same)
          (Lap-next hin l step.matched step.cq_next) in
      let (z, r, y) =
        loop_ends fuel d h (m + 1) max_pkts b hin (omega (arith, over)) (omega arith)
          (record { inv = w.inv; within = w.within; stored = w.stored }) l' in
      let x = y.between in
      (
        z,
        loop-next fuel max_pkts a b p ∙ r,
        record {
          between = record {
            inv = x.inv;
            depth_same = x.depth_same ∙ w.depth_same;
            within = x.within;
            stored = x.stored;
            kept = omega (arith, x.kept, w.kept);
            grown = omega (arith, x.grown, w.grown);
          };
          n = step.n + y.n;
          d = step.d + y.d;
          turns =
              turn a.io b.io step.n step.d y.n y.d _ _ step.posted step.turned y.turns refl refl;
          rcvd_by = omega (arith, y.rcvd_by, step.rcvd_by);
          dropped_by = omega (arith, y.dropped_by, step.dropped_by);
          stopped = y.stopped;
        },
      )
]

pub loop_total :
    (max_pkts : ℕ) (a : RxAcc)
    → AccInv max_pkts a
    → CqInv a.io.ring.cq
    → (b : RxAcc) × (rx_poll_loop (suc a.io.ring.cq.depth) max_pkts a ≡ some b)
      × Looped max_pkts a b
loop_total max_pkts a v q =
    loop_ends (suc a.io.ring.cq.depth) a.io.ring.cq.depth a.io.ring.cq.head 0 max_pkts a q.head_in
      (omega arith) (omega arith) v (Lap-start (slot_phase a.io.ring.rx_cq) a.io.ring.cq q)
