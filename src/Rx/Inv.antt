-- ===== src/Rx/Inv.antt =====
-- The invariant of a receive ring, and what each operation does to it.
use mathlib.Core.Path.{subst}
use lib_ena.Prelude.{
  ℕ, ◌+◌, ◌≤◌, ◌<◌, ◌≡◌, ◌≢◌, refl, sym, ap, ◌∙◌, Bool, true, false, inl, inr, ◌==◌, Bool-cases,
  true-ne-false, length, length-set, get_or, set, get_or-set_self, get_or-set_ne, arith,
}
use lib_ena.Ring.{Ring, SubQueue, IdPool, rx, RxCdesc, no_rx_buffer, u64}
use lib_ena.Ring.Ids.{push_id, req_id_free, slot_clear-rx}
use lib_ena.Ring.Inv.{push_id-Inv, push_count}
use lib_ena.Ring.FreeList.{HasPool, req_id_free-allocated, req_id_free-free}
use lib_ena.Rx.Queue.{RxIo}
use lib_ena.Rx.Poll.{buffer_of, rx_drop, rx_deliver}

-- A receive ring: every allocated request is in flight.
pub record RxInv (r : Ring) : Type 0 where
  pub direction : r.ring_type ≡ rx
  pub pool : HasPool r
  pub flight_length : length r.in_flight ≡ r.sq.depth
  pub bufs_length : length r.rx_bufs ≡ r.sq.depth
  pub flying :
      (id : ℕ)
      → id < r.sq.depth
      → get_or r.pool.allocated id true ≡ true
      → get_or r.in_flight id false ≡ true

-- What a release leaves of a ring whose request `id` may be allocated or not.
pub record LetGo (r : Ring) (id : ℕ) (r' : Ring) : Type 0 where
  pub direction : r'.ring_type ≡ rx
  pub sq_same : r'.sq ≡ r.sq
  pub cq_same : r'.cq ≡ r.cq
  pub entries_same : r'.rx_cq ≡ r.rx_cq
  pub flight_same : r'.in_flight ≡ r.in_flight
  pub pool : HasPool r'
  pub bufs_length : length r'.rx_bufs ≡ length r.rx_bufs
  pub now_free : get_or r'.pool.allocated id true ≡ false
  pub kept : r.pool.count ≤ r'.pool.count
  pub grown : r'.pool.count ≤ r.pool.count + 1
  pub others : (j : ℕ) → j ≢ id → get_or r'.pool.allocated j true ≡ get_or r.pool.allocated j true

free-LetGo :
    (r : Ring) (id : ℕ)
    → r.ring_type ≡ rx
    → HasPool r
    → id < r.sq.depth
    → LetGo r id (req_id_free r id).1
unfolding push_id
free-LetGo r id t v h = elim (Bool-cases (get_or r.pool.allocated id true)) [
  | inr e ↦ rw (req_id_free-free r v id h e) (record {
    direction = t;
    sq_same = refl;
    cq_same = refl;
    entries_same = refl;
    flight_same = refl;
    pool = v;
    bufs_length = refl;
    now_free = e;
    kept = omega arith;
    grown = omega arith;
    others = λ j n. refl;
  })
  | inl e ↦
      let pushed : Ring = record r { pool = push_id r.sq.depth r.pool id } in
      rw (req_id_free-allocated r v id h e, slot_clear-rx pushed id t)
        (record {
          direction = t;
          sq_same = refl;
          cq_same = refl;
          entries_same = refl;
          flight_same = refl;
          pool = push_id-Inv v id h e;
          bufs_length = length-set r.rx_bufs id no_rx_buffer;
          now_free = get_or-set_self r.pool.allocated id false true (omega (arith, v.marks_length));
          kept = omega (arith, push_count v id h e);
          grown = omega (arith, push_count v id h e);
          others = λ j n. get_or-set_ne r.pool.allocated id j false true (λ p. n (sym p));
        })
]

-- What a consumed completion leaves, whether it was delivered or dropped.
pub record Consumed (r : Ring) (id : ℕ) (r' : Ring) : Type 0 where
  pub inv : RxInv r'
  pub sq_same : r'.sq ≡ r.sq
  pub cq_same : r'.cq ≡ r.cq
  pub entries_same : r'.rx_cq ≡ r.rx_cq
  pub now_free : get_or r'.pool.allocated id true ≡ false
  pub kept : r.pool.count ≤ r'.pool.count
  pub grown : r'.pool.count ≤ r.pool.count + 1

-- A release after which the other requests still fly.
module _ (r : Ring) (id : ℕ) (v : RxInv r) (h : id < r.sq.depth) where
  consume :
      (r0 r' : Ring)
      → LetGo r0 id r'
      → r0.sq ≡ r.sq
      → r0.cq ≡ r.cq
      → r0.rx_cq ≡ r.rx_cq
      → r0.pool ≡ r.pool
      → length r0.rx_bufs ≡ length r.rx_bufs
      → length r0.in_flight ≡ length r.in_flight
      → ((j : ℕ) → j ≢ id → get_or r0.in_flight j false ≡ get_or r.in_flight j false)
      → Consumed r id r'
  consume r0 r' g sq cq es pool bufs fl fly =
      let depth = ap (λ (q : SubQueue). q.depth) (g.sq_same ∙ sq) in
      let count = ap (λ (p : IdPool). p.count) pool in
      record {
        inv = record {
          direction = g.direction;
          pool = g.pool;
          flight_length = ap (length {A = Bool}) g.flight_same ∙ fl ∙ v.flight_length ∙ sym depth;
          bufs_length = g.bufs_length ∙ bufs ∙ v.bufs_length ∙ sym depth;
          flying = λ j hj a. elim (Bool-cases (j == id)) [
            | inl e ↦
                let same : j ≡ id = ground arith in
                absurd (
                  true-ne-false
                    (sym a ∙ ap (λ k. get_or r'.pool.allocated k true) same ∙ g.now_free))
            | inr e ↦
                let other : j ≢ id = ground arith in
                ap (λ f. get_or f j false) g.flight_same
                ∙ fly j other
                ∙ v.flying j (subst (λ k. j < k) depth hj) (
                    sym (ap (λ (p : IdPool). get_or p.allocated j true) pool)
                    ∙ sym (g.others j other)
                    ∙ a)
          ];
        };
        sq_same = g.sq_same ∙ sq;
        cq_same = g.cq_same ∙ cq;
        entries_same = g.entries_same ∙ es;
        now_free = g.now_free;
        kept = omega (arith, g.kept, count);
        grown = omega (arith, g.grown, count);
      }

pub drop-Consumed :
    (id : ℕ) (s : RxIo)
    → RxInv s.ring
    → id < s.ring.sq.depth
    → Consumed s.ring id (rx_drop id s).ring
unfolding rx_drop
drop-Consumed id s v h =
    let r : Ring = s.ring in
    let counted : Ring = record r {
      stats = record r.stats { rx_dropped = u64 (r.stats.rx_dropped + 1) };
    } in
    let emptied : Ring = record counted {
      rx_bufs = set r.rx_bufs id (record (buffer_of r id) { netbuf = 0 });
    } in
    elim (Bool-cases ((buffer_of r id).netbuf == 0)) [
      | inl e ↦ rw e (
          consume r id v h counted (req_id_free counted id).1
            (free-LetGo counted id v.direction v.pool h) refl refl refl refl refl refl
            (λ j n. refl))
      | inr e ↦ rw e (
          consume r id v h emptied (req_id_free emptied id).1
            (free-LetGo emptied id v.direction v.pool h) refl refl refl refl
            (length-set r.rx_bufs id (record (buffer_of r id) { netbuf = 0 })) refl (λ j n. refl))
    ]

pub deliver-Consumed :
    (c : RxCdesc) (s : RxIo)
    → RxInv s.ring
    → c.req_id < s.ring.sq.depth
    → Consumed s.ring c.req_id (rx_deliver c s).ring
unfolding rx_deliver
deliver-Consumed c s v h =
    let r : Ring = s.ring in
    let landed : Ring = record r {
      in_flight = set r.in_flight c.req_id false;
      stats = record r.stats {
        rx_packets = u64 (r.stats.rx_packets + 1);
        rx_bytes = u64 (r.stats.rx_bytes + c.length);
      };
    } in
    consume r c.req_id v h landed (req_id_free landed c.req_id).1
      (free-LetGo landed c.req_id v.direction v.pool h) refl refl refl refl refl
      (length-set r.in_flight c.req_id false)
      (λ j n. get_or-set_ne r.in_flight c.req_id j false false (λ p. n (sym p)))

rx_drop-in_flight :
    (id : ℕ) (s : RxIo)
    → RxInv s.ring
    → id < s.ring.sq.depth
    → (rx_drop id s).ring.in_flight ≡ s.ring.in_flight
unfolding rx_drop
rx_drop-in_flight id s v h =
    let r : Ring = s.ring in
    let counted : Ring = record r {
      stats = record r.stats { rx_dropped = u64 (r.stats.rx_dropped + 1) };
    } in
    let emptied : Ring = record counted {
      rx_bufs = set r.rx_bufs id (record (buffer_of r id) { netbuf = 0 });
    } in
    elim (Bool-cases ((buffer_of r id).netbuf == 0)) [
      | inl e ↦ rw e (free-LetGo counted id v.direction v.pool h).flight_same
      | inr e ↦ rw e (free-LetGo emptied id v.direction v.pool h).flight_same
    ]

-- On a receive ring that meets the invariant, an oversize completion of a request in range puts the
-- id back into the pool and leaves the in-flight flags as they were.
pub rx_drop_keeps_flight :
    (id : ℕ) (s : RxIo)
    → RxInv s.ring
    → id < s.ring.sq.depth
    → (get_or (rx_drop id s).ring.pool.allocated id true ≡ false)
      × ((rx_drop id s).ring.in_flight ≡ s.ring.in_flight)
rx_drop_keeps_flight id s v h = ((drop-Consumed id s v h).now_free, rx_drop-in_flight id s v h)
