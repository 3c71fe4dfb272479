-- ===== src/Netdev/Received.antt =====
-- What `ena_netdev_rx_one` does to a receive queue and its ring, from its first refill on.
use mathlib.Core.Path.{subst}
use lib_ena.Prelude.{
  ℕ, zero, suc, ◌+◌, ◌≤◌, ◌<◌, ◌≡◌, refl, sym, ap, ◌∙◌, Bool, false, ◌==◌, ltb, not, ◌&&◌,
  Bool-cases, ◌⊎◌, inl, inr, Option, Option-cases, none, some, some_injective, List, [], ◌∷◌, ◌++◌,
  length, is_null, length-append, arith,
}
use lib_ena.Status.{ok}
use lib_ena.Ring.{Ring}
use lib_ena.Ring.Lap.{CqInv, Lap, Lap-start}
use lib_ena.Rx.Refill.{Allocator}
use lib_ena.Rx.Poll.{RxPkt, RxPolled, rx_poll}
use lib_ena.Rx.Inv.{RxInv}
use lib_ena.Rx.Serve.{RxRing, RxServed}
use lib_ena.Rx.Refilled.{rx_refill-Refilled}
use lib_ena.Rx.Round.{slot_phase}
use lib_ena.Rx.Laps.{rx_poll-Passed}
use lib_ena.Netdev.Follows.{Follows, dropped-Follows, Follows-trans, is_null-nil}
use lib_ena.Netdev.Landed.{take_packet-Landing}
use lib_ena.Netdev.Gathered.{Keeps, Shape, FrameOf, Longer-FrameOf, Gave, Landing-Gave}
use lib_ena.Netdev.Receive.{
  Fragment, RxNet, drop_chain, to_refill, count_refill, rx_refill_helper, Step, done, more,
  fragment, queue_after, end_pass, drop_packet, assemble, take_packet, polled, use_pkts, rx_step,
  rx_loop, rx_frames,
}

-- A refill leaves the chain and the completion queue.
refill-Follows :
    (alloc : Allocator) (s : RxNet)
    → RxInv s.io.ring
    → (s' : RxNet) × (rx_refill_helper alloc s ≡ some s')
      × Follows s.io.ring s'.io.ring
      × (s'.chain ≡ s.chain)
unfolding rx_refill_helper
refill-Follows alloc s v =
    let (n, io, e, bound, x) = rx_refill-Refilled alloc (to_refill s.io.ring) s.io v in
    (
      count_refill (ok n, io) s,
      rw (e, rx_refill_helper) refl,
      record { inv = x.inv; cq_same = x.cq_same; entries_same = x.entries_same },
      refl,
    )

-- Only a step that has taken a packet goes on.
abbrev pub Took : ℕ → Step → Type 0
Took n (done frame s') = Unit
Took n (more s') = 0 < n

assemble-Keeps :
    (first last : Bool) (f : Fragment) (r : Ring) (s : RxNet)
    → Follows r s.io.ring
    → Keeps r (assemble first last f s)
unfolding assemble
assemble-Keeps first last f r s v =
    let longer : 0 < length (s.chain ++ (f ∷ [])) = omega (arith, length-append s.chain (f ∷ [])) in
    elim (Bool-cases (is_null s.chain)) [
      | inl e ↦ elim (Bool-cases (first && not last)) [
        | inl g ↦ rw (e, g) (v, omega arith)
        | inr g ↦ rw (e, g) (v, (is_null-nil s.chain e, omega arith))
      ]
      | inr e ↦ elim (Bool-cases last) [
        | inl g ↦ rw (e, g) (v, (refl, longer))
        | inr g ↦ rw (e, g) (v, longer)
      ]
    ]

-- What a call leaves of the ring, and what it returns.
pub record Received (r : Ring) (out : Option (List Fragment) × RxNet) : Type 0 where
  pub inv : RxInv out.1.io.ring
  pub cq : CqInv out.1.io.ring.cq
  pub entries_same : out.1.io.ring.rx_cq ≡ r.rx_cq
  pub shape : Shape out.0 out.1

Step-cases :
    (x : Step)
    → ((frame : Option (List Fragment)) × (s : RxNet) × (x ≡ done frame s))
      ⊎ ((s : RxNet) × (x ≡ more s))
Step-cases (done frame s) = inl (frame, s, refl)
Step-cases (more s) = inr (s, refl)

polled-ring : (p : RxPolled) (s : RxNet) → (polled p s).io.ring ≡ p.after.ring
unfolding polled drop_chain
polled-ring p s =
    let dropped : Bool = elim p.dropped_count [ none ↦ false | some n ↦ ltb 0 n ] in
    elim (Bool-cases dropped) [ inl e ↦ rw e refl | inr e ↦ rw e refl ]

Took-suc : (n : ℕ) (x : Step) → Took (suc n) x
Took-suc n (done frame s') = tt
Took-suc n (more s') = omega arith

module _ (alloc : Allocator) (has_data : ℕ → Bool) (buflen : ℕ → ℕ) where
  end_pass-Keeps :
      (r : Ring) (s : RxNet)
      → Follows r s.io.ring
      → (s' : RxNet) × (end_pass alloc has_data buflen s ≡ some (done none s'))
        × Follows r s'.io.ring
  unfolding end_pass
  end_pass-Keeps r s v =
      let (s', e, f, c) = refill-Follows alloc s v.inv in
      (s', rw (e, end_pass) refl, Follows-trans v f)

  take_packet-Keeps :
      (r : Ring) (p : RxPkt) (s : RxNet)
      → Follows r s.io.ring
      → (x : Step) × (take_packet alloc has_data buflen p s ≡ some x) × Keeps r x
  unfolding take_packet drop_packet drop_chain
  take_packet-Keeps r p s v =
      let after : RxNet = record s { io = record s.io { queue = queue_after p s.io.queue } } in
      elim (Bool-cases (p.netbuf == 0)) [
        | inl z ↦ let (s', e, k) = end_pass-Keeps r s v in (done none s', rw z e, (k, tt))
        | inr z ↦ elim (Option-cases (fragment alloc has_data buflen p s.io.queue)) [
          | inl n ↦
              let (s', e, k) = end_pass-Keeps r (drop_packet p after) (dropped-Follows v) in
              (done none s', rw z (rw (n, take_packet) e), (k, tt))
          | inr (f, g) ↦
              let (s', e, w, c) = refill-Follows alloc after v.inv in
              (
                assemble p.first p.last f s',
                rw z (rw (g, take_packet) (rw (e, take_packet) refl)),
                assemble-Keeps p.first p.last f r s' (Follows-trans v w),
              )
        ]
      ]

  use_pkts-Keeps :
      (r : Ring) (ps : List RxPkt) (s : RxNet)
      → Follows r s.io.ring
      → (x : Step) × (use_pkts alloc has_data buflen ps s ≡ some x) × Keeps r x × Took (length ps) x
  unfolding use_pkts
  use_pkts-Keeps r [] s v = let (s', e, k) = end_pass-Keeps r s v in (done none s', e, (k, tt), tt)
  use_pkts-Keeps r (p ∷ ps) s v =
      let (x, e, k) = take_packet-Keeps r p s v in (x, e, k, Took-suc (length ps) x)

  -- What the packets of a poll come to.
  use_pkts-Gave :
      (s : RxNet) (poll : RxPolled)
      → rx_poll 1 s.io ≡ some poll
      → RxServed 1 s.io poll
      → Follows poll.after.ring (polled poll s).io.ring
      → (x : Step) (ps : List RxPkt) → poll.pkts ≡ ps
      → use_pkts alloc has_data buflen ps (polled poll s) ≡ some x
      → Keeps poll.after.ring x
      → Gave alloc has_data buflen s x
  unfolding use_pkts take_packet
  use_pkts-Gave s poll runs served v x [] same e k =
      let (s', f, w) = end_pass-Keeps poll.after.ring (polled poll s) v in
      subst (Gave alloc has_data buflen s) (some_injective (sym f ∙ e)) tt
  use_pkts-Gave s poll runs served v x (p ∷ q ∷ ps) same e k =
      absurd (omega (arith, ap (length {A = RxPkt}) same, served.stored, served.within))
  use_pkts-Gave s poll runs served v x (p ∷ []) same e k = elim (Bool-cases (p.netbuf == 0)) [
    | inl z ↦
        let (s', f, w) = end_pass-Keeps poll.after.ring (polled poll s) v in
        subst (Gave alloc has_data buflen s) (some_injective (sym f ∙ (rw (z, take_packet) at e)))
          tt
    | inr z ↦
        let (x', t, f, landing, fits) =
          take_packet-Landing alloc has_data buflen p (polled poll s) (ground (arith, z)) v.inv in
        let step : x' ≡ x = some_injective (sym f ∙ e) in
        subst (Gave alloc has_data buflen s) step (
          Landing-Gave alloc has_data buflen s poll runs served p same x' t landing
            (subst (Keeps poll.after.ring) (sym step) k))
  ]

  -- One pass from `m` entries into a lap, which polls `n` packets.
  record Stepped (d h m : ℕ) (s : RxNet) : Type 0 where
    x : Step
    runs : rx_step alloc has_data buflen s ≡ some x
    polled_ring : Ring
    n : ℕ
    keeps : Keeps polled_ring x
    gave : Gave alloc has_data buflen s x
    took : Took n x
    now : ℕ
    lap : Lap (slot_phase polled_ring.rx_cq) d h now polled_ring.cq
    entries_same : polled_ring.rx_cq ≡ s.io.ring.rx_cq
    in_lap : now ≤ d
    moved : m + n ≤ now

  rx_step-Stepped :
      (d h m : ℕ) (s : RxNet)
      → h < 65536
      → m ≤ d
      → RxInv s.io.ring
      → 0 < length s.io.ring.rx_cq
      → Lap (slot_phase s.io.ring.rx_cq) d h m s.io.ring.cq
      → Stepped d h m s
  unfolding rx_step
  rx_step-Stepped d h m s hin le v some_cq l =
      let (p, e, served, passed) = rx_poll-Passed d h m 1 s.io hin le v some_cq (omega arith) l in
      let same = polled-ring p s in
      let (x, f, k, t) = use_pkts-Keeps p.after.ring p.pkts (polled p s) (record {
        inv = subst RxInv (sym same) served.inv;
        cq_same = ap (λ (r : Ring). r.cq) same;
        entries_same = ap (λ (r : Ring). r.rx_cq) same;
      }) in
      record {
        x = x;
        runs = rw (e, rx_step) f;
        polled_ring = p.after.ring;
        n = length p.pkts;
        keeps = k;
        gave =
            use_pkts-Gave s p e served
              (record {
                inv = subst RxInv (sym same) served.inv;
                cq_same = ap (λ (r : Ring). r.cq) same;
                entries_same = ap (λ (r : Ring). r.rx_cq) same;
              })
              x p.pkts refl f k;
        took = t;
        now = passed.now;
        lap = passed.lap;
        entries_same = passed.entries_same;
        in_lap = passed.in_lap;
        moved = passed.moved;
      }

  -- The loop ends: a pass that goes on has moved on in the lap.
  loop-Received :
      (fuel d h m : ℕ) (s : RxNet)
      → h < 65536
      → m ≤ d
      → d < fuel + m
      → RxInv s.io.ring
      → 0 < length s.io.ring.rx_cq
      → Lap (slot_phase s.io.ring.rx_cq) d h m s.io.ring.cq
      → (out : Option (List Fragment) × RxNet) × (rx_loop alloc has_data buflen fuel s ≡ some out)
        × Received s.io.ring out
        × FrameOf alloc has_data buflen s out.0
  unfolding rx_loop
  loop-Received zero d h m s hin le f v some_cq l = absurd (omega (arith, f, le))
  loop-Received (suc fuel) d h m s hin le f v some_cq l =
      let t = rx_step-Stepped d h m s hin le v some_cq l in
      elim (Step-cases t.x) [
        | inl (frame, s', e) ↦
            let k = subst (Keeps t.polled_ring) e t.keeps in
            (
              (frame, s'),
              rw (t.runs, rx_loop) (rw (e, rx_loop) refl),
              record {
                inv = k.0.inv;
                cq = subst CqInv (sym k.0.cq_same) t.lap.cq;
                entries_same = k.0.entries_same ∙ t.entries_same;
                shape = k.1;
              },
              subst (Gave alloc has_data buflen s) e t.gave,
            )
        | inr (s', e) ↦
            let k = subst (Keeps t.polled_ring) e t.keeps in
            let one : 0 < t.n = subst (Took t.n) e t.took in
            let same = k.0.entries_same ∙ t.entries_same in
            let lap =
              subst (λ q. Lap (slot_phase s'.io.ring.rx_cq) d h t.now q) (sym k.0.cq_same)
                (subst (λ es. Lap (slot_phase es) d h t.now t.polled_ring.cq) (sym k.0.entries_same)
                  t.lap) in
            let (out, r, x, made) =
              loop-Received fuel d h t.now s' hin t.in_lap (omega (arith, f, one, t.moved)) k.0.inv
                (subst (λ es. 0 < length es) (sym same) some_cq) lap in
            (
              out,
              rw (t.runs, rx_loop) (rw (e, rx_loop) r),
              record {
                inv = x.inv;
                cq = x.cq;
                entries_same = x.entries_same ∙ same;
                shape = x.shape;
              },
              Longer-FrameOf alloc has_data buflen s s' out.0
                  (subst (Gave alloc has_data buflen s) e t.gave) made,
            )
      ]

-- On a receive ring that meets its invariant, with a completion ring of any content and any allocator:
-- `ena_netdev_rx_one` returns, from its first refill on. The ring and its completion queue keep their
-- invariants. A frame that it returns is what consecutive passes have gathered: each has polled one
-- packet and put its fragment after the chain, which is that of the pass before, the first beginning
-- with the chain that the call has found, or none where the poll has dropped a packet. Each but the last
-- is not the last of its frame, and is the first of one or comes after a chain. The last is the last of
-- its frame, or no first one with no chain, as the rest of a frame that has been dropped. No chain is left.
pub rx_frames-Received :
    (alloc : Allocator) (has_data : ℕ → Bool) (buflen : ℕ → ℕ) (s : RxNet)
    → RxRing s.io.ring
    → (s' : RxNet) × (out : Option (List Fragment) × RxNet) × (rx_refill_helper alloc s ≡ some s')
      × (s'.chain ≡ s.chain)
      × (rx_frames alloc has_data buflen s ≡ some out)
      × Received s.io.ring out
      × FrameOf alloc has_data buflen s' out.0
unfolding rx_frames
rx_frames-Received alloc has_data buflen s v =
    let (s', e, f, c) = refill-Follows alloc s v.inv in
    let q = subst CqInv (sym f.cq_same) v.cq in
    let some_cq : 0 < length s'.io.ring.rx_cq =
      subst (λ es. 0 < length es) (sym f.entries_same)
        (omega (arith, v.entries, v.cq.depth_ok.lower)) in
    let (out, r, x, made) =
      loop-Received alloc has_data buflen (suc s'.io.ring.cq.depth) s'.io.ring.cq.depth
        s'.io.ring.cq.head 0 s' q.head_in (omega arith) (omega arith) f.inv some_cq
        (Lap-start (slot_phase s'.io.ring.rx_cq) s'.io.ring.cq q) in
    (
      s',
      out,
      e,
      c,
      rw (e, rx_frames) r,
      record {
        inv = x.inv;
        cq = x.cq;
        entries_same = x.entries_same ∙ f.entries_same;
        shape = x.shape;
      },
      made,
    )
