-- ===== src/Rx/Accept.antt =====
-- What `ena_rx_submit_one` does to the ring, and that `ena_rx_refill` ends.
use mathlib.Core.Path.{subst}
use lib_ena.Prelude.{
  ℕ, suc, ◌<◌, ◌≡◌, ◌≢◌, refl, sym, ◌∙◌, true, false, inl, inr, ◌==◌, ltb, ◌||◌, Bool-cases,
  length-set, get_or, set, get_or-set_self, get_or-set_ne, arith,
}
use lib_ena.Status.{ok, ok_injective}
use lib_ena.Ring.{Ring, is_tx}
use lib_ena.Ring.Advance.{sq_advance}
use lib_ena.Ring.Depth.{ring_index}
use lib_ena.Ring.Ids.{pop_id}
use lib_ena.Ring.Inv.{front_in, front_free, pop_id-Inv}
use lib_ena.Ring.FreeList.{req_id_alloc-front}
use lib_ena.Rx.Submit.{RxOffer, rx_desc, rx_fill, rx_submit_one}
use lib_ena.Rx.Inv.{RxInv}

-- What an accepted offer does.
pub record Offered (o : RxOffer) (r : Ring) (id : ℕ) (r' : Ring) : Type 0 where
  pub inv : RxInv r'
  pub in_range : id < r.sq.depth
  pub was_free : get_or r.pool.allocated id true ≡ false
  pub now_in_flight : get_or r'.in_flight id false ≡ true
  pub one_less : suc r'.pool.count ≡ r.pool.count
  pub descriptor :
      r'.rx_sq ≡ set r.rx_sq (ring_index r.sq.depth r.sq.tail) (rx_desc r.sq.phase id o)
  pub tail_moved : r'.sq ≡ sq_advance r.sq
  pub cq_same : r'.cq ≡ r.cq
  pub entries_same : r'.rx_cq ≡ r.rx_cq

abbrev front : Ring → ℕ
front r = get_or r.pool.ids r.pool.head 0

abbrev filled : RxOffer → Ring → Ring
filled o r = rx_fill o (front r) (record r { pool = pop_id r.sq.depth r.pool })

module _ (o : RxOffer) (r : Ring) (v : RxInv r) where
  -- What an accepted call has passed.
  submit_passed :
      (id : ℕ) (r' : Ring)
      → rx_submit_one o r ≡ ok (id, r')
      → (r.pool.count ≢ 0) × (rx_submit_one o r ≡ ok (front r, filled o r))
  unfolding rx_submit_one
  submit_passed id r' e = elim (Bool-cases (o.netbuf == 0 || is_tx r.ring_type)) [
    | inl p ↦ absurd (ground arith)
    | inr p ↦ elim (Bool-cases r.hw_valid) [
      | inr q ↦ absurd (ground arith)
      | inl q ↦ elim (Bool-cases (o.len == 0 || ltb 0xffff o.len)) [
        | inl l ↦ absurd (ground arith)
        | inr l ↦ elim (Bool-cases (r.pool.count == 0)) [
          | inl z ↦ absurd (ground arith)
          | inr z ↦
              let left : r.pool.count ≢ 0 = ground arith in
              (left, simp (p, q, l, z, req_id_alloc-front r v.pool left))
        ]
      ]
    ]
  ]

  fresh_flying :
      r.pool.count ≢ 0
      → (j : ℕ) → j < r.sq.depth
      → get_or (set r.pool.allocated (front r) true) j true ≡ true
      → get_or (set r.in_flight (front r) true) j false ≡ true
  fresh_flying left j h a = elim (Bool-cases (j == front r)) [
    | inl e ↦
        let same : front r ≡ j = ground arith in
        subst (λ k. get_or (set r.in_flight (front r) true) k false ≡ true) same
          (get_or-set_self r.in_flight (front r) true false
            (omega (arith, front_in v.pool left, v.flight_length)))
    | inr e ↦
        let other : front r ≢ j = ground arith in
        get_or-set_ne r.in_flight (front r) j true false other
        ∙ v.flying j h (sym (get_or-set_ne r.pool.allocated (front r) j true true other) ∙ a)
  ]

  filled-Offered : r.pool.count ≢ 0 → Offered o r (front r) (filled o r)
  unfolding rx_fill pop_id sq_advance
  filled-Offered left =
      let x : ℕ = front r in
      let inside = front_in v.pool left in
      record {
        inv = record {
          direction = v.direction;
          pool = pop_id-Inv v.pool left;
          flight_length = length-set r.in_flight x true ∙ v.flight_length;
          bufs_length = length-set r.rx_bufs x _ ∙ v.bufs_length;
          flying = fresh_flying left;
        };
        in_range = inside;
        was_free = (front_free v.pool left).0;
        now_in_flight = get_or-set_self r.in_flight x true false (omega (arith, v.flight_length));
        one_less = omega arith;
        descriptor = refl;
        tail_moved = refl;
        cq_same = refl;
        entries_same = refl;
      }

  -- An `ena_rx_submit_one` that succeeds on a receive ring that meets the invariant takes a
  -- request id in range that was free, marks it in flight, leaves one free id less, writes the
  -- descriptor of the buffer at the masked tail with the phase of the queue, moves the tail,
  -- leaves the completion queue and its entries as they were, and keeps the invariant.
  pub rx_submit-Offered : (id : ℕ) (r' : Ring) → rx_submit_one o r ≡ ok (id, r') → Offered o r id r'
  rx_submit-Offered id r' e =
      let (left, passed) = submit_passed id r' e in
      subst (λ t. Offered o r t.0 t.1) (ok_injective (sym passed ∙ e)) (filled-Offered left)
