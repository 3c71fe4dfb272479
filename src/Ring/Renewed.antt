-- ===== src/Ring/Renewed.antt =====
-- What a device reset leaves of a ring's software state.
use mathlib.Core.Path.{subst, subst₂}
use lib_ena.Prelude.{
  ℕ, zero, suc, ◌+◌, ◌≤◌, ◌<◌, ◌≡◌, refl, sym, ap, ap₂, ◌∙◌, List, [], ◌∷◌, Bool, true, false, ◌⊎◌,
  inl, inr, ◌==◌, if◌then◌else◌, Bool-cases, length, is_null-length, get_or, set, replicate, arith,
}
use lib_ena.Ring.{
  Ring, SubQueue, IdPool, RingType, tx, rx, Effect, drop_netbuf, free_netbuf, Io, no_tx_buffer,
  no_rx_buffer,
}
use lib_ena.Ring.Ids.{slot_clear, slot_clear-tx, slot_clear-rx}
use lib_ena.Ring.Inv.{PoolInv, free_ids}
use lib_ena.Ring.FreeList.{HasPool, free_of}
use lib_ena.Ring.Fresh.{ids_from, fresh_pool, fresh_window, fresh-PoolInv}
use lib_ena.Ring.Reset.{
  slot_netbuf, slot_netbuf-tx, slot_netbuf-rx, give_up, release_slot, release_slots, rewound,
  clear_marks, rearmed_pool, rearmed, reset_sw_state,
}

-- The netbufs that `n` slots from `i` on hold.
pub held_netbufs : Ring → ℕ → ℕ → List ℕ
held_netbufs r zero i = []
held_netbufs r (suc n) i =
    let rest = held_netbufs r n (i + 1) in
    if slot_netbuf r i == 0 then rest else slot_netbuf r i ∷ rest

-- A log after these netbufs have been given up, one after the other.
pub gave_up : Ring → List ℕ → List Effect → List Effect
gave_up r [] l = l
gave_up r (nb ∷ nbs) l = gave_up r nbs (give_up r nb ∷ l)

get_or-clear {ℓ} :
    {A : Type ℓ} (xs : List A) (i j : ℕ) (d : A)
    → get_or (set xs i d) j d ≡ (if i == j then d else get_or xs j d)
get_or-clear [] i j d = ground arith
get_or-clear (x ∷ xs) zero zero d = refl
get_or-clear (x ∷ xs) zero (suc j) d = ground arith
get_or-clear (x ∷ xs) (suc i) zero d = ground arith
get_or-clear (x ∷ xs) (suc i) (suc j) d = ground (arith, get_or-clear xs i j d)

-- What clearing a slot changes: the buffer of that slot, and nothing that the reset reads later.
record Cleared (r : Ring) (i : ℕ) (r' : Ring) : Type 0 where
  type_same : r'.ring_type ≡ r.ring_type
  sq_same : r'.sq ≡ r.sq
  pool_same : r'.pool ≡ r.pool
  valid_same : r'.hw_valid ≡ r.hw_valid
  flight_same : r'.in_flight ≡ r.in_flight
  callback_same : r'.drop_netbuf_cb ≡ r.drop_netbuf_cb
  slots : (j : ℕ) → slot_netbuf r' j ≡ (if i == j then 0 else slot_netbuf r j)

RingType-cases : (t : RingType) → (t ≡ tx) ⊎ (t ≡ rx)
RingType-cases tx = inl refl
RingType-cases rx = inr refl

clear-Cleared : (r : Ring) (i : ℕ) → Cleared r i (slot_clear r i)
clear-Cleared r i = elim (RingType-cases r.ring_type) [
  | inl t ↦
      let r' : Ring = record r { tx_bufs = set r.tx_bufs i no_tx_buffer } in
      subst (Cleared r i) (sym (slot_clear-tx r i t)) (record {
        type_same = refl;
        sq_same = refl;
        pool_same = refl;
        valid_same = refl;
        flight_same = refl;
        callback_same = refl;
        slots = λ j. ground (
          arith,
          slot_netbuf-tx r' j t,
          slot_netbuf-tx r j t,
          get_or-clear r.tx_bufs i j no_tx_buffer,
        );
      })
  | inr t ↦
      let r' : Ring = record r { rx_bufs = set r.rx_bufs i no_rx_buffer } in
      subst (Cleared r i) (sym (slot_clear-rx r i t)) (record {
        type_same = refl;
        sq_same = refl;
        pool_same = refl;
        valid_same = refl;
        flight_same = refl;
        callback_same = refl;
        slots = λ j. ground (
          arith,
          slot_netbuf-rx r' j t,
          slot_netbuf-rx r j t,
          get_or-clear r.rx_bufs i j no_rx_buffer,
        );
      })
]

-- What the loop over `n` slots from `i` on has done.
record Released (n i : ℕ) (s s' : Io) : Type 0 where
  type_same : s'.ring.ring_type ≡ s.ring.ring_type
  sq_same : s'.ring.sq ≡ s.ring.sq
  pool_same : s'.ring.pool ≡ s.ring.pool
  valid_same : s'.ring.hw_valid ≡ s.ring.hw_valid
  flight_same : s'.ring.in_flight ≡ s.ring.in_flight
  emptied : (j : ℕ) → i ≤ j → j < i + n → slot_netbuf s'.ring j ≡ 0
  before : (j : ℕ) → j < i → slot_netbuf s'.ring j ≡ slot_netbuf s.ring j
  logged : s'.log ≡ gave_up s.ring (held_netbufs s.ring n i) s.log

-- The slots of another ring hold the same buffers.
held_netbufs-same :
    (r r' : Ring) (n i : ℕ)
    → ((j : ℕ) → i ≤ j → slot_netbuf r' j ≡ slot_netbuf r j)
    → held_netbufs r' n i ≡ held_netbufs r n i
unfolding held_netbufs
held_netbufs-same r r' zero i h = refl
held_netbufs-same r r' (suc n) i h =
    ap₂ (λ nb l. if nb == 0 then l else nb ∷ l) (h i (omega arith))
      (held_netbufs-same r r' n (i + 1) (λ j l. h j (omega arith)))

gave_up-same :
    (r r' : Ring) (nbs : List ℕ) (l : List Effect)
    → r'.drop_netbuf_cb ≡ r.drop_netbuf_cb
    → gave_up r' nbs l ≡ gave_up r nbs l
unfolding gave_up
gave_up-same r r' [] l e = refl
gave_up-same r r' (nb ∷ nbs) l e =
    gave_up-same r r' nbs (give_up r' nb ∷ l) e
    ∙ ap (λ b. gave_up r nbs ((if b then drop_netbuf nb else free_netbuf nb) ∷ l)) e

gave_up_if :
    (r : Ring) (nb : ℕ) (b : Bool) (nbs : List ℕ) (l : List Effect)
    → gave_up r nbs (if b then l else give_up r nb ∷ l) ≡ gave_up r (if b then nbs else nb ∷ nbs) l
unfolding gave_up
gave_up_if r nb true nbs l = refl
gave_up_if r nb false nbs l = refl

-- One round of the loop.
record OneReleased (i : ℕ) (s s' : Io) : Type 0 where
  cleared : Cleared s.ring i s'.ring
  logged :
      s'.log
      ≡ (if slot_netbuf s.ring i == 0 then s.log else give_up s.ring (slot_netbuf s.ring i) ∷ s.log)

release_slot-OneReleased : (i : ℕ) (s : Io) → OneReleased i s (release_slot s i)
unfolding release_slot
release_slot-OneReleased i s = elim (Bool-cases (slot_netbuf s.ring i == 0)) [
  | inl e ↦ rw e (record {
    cleared = record {
      type_same = refl;
      sq_same = refl;
      pool_same = refl;
      valid_same = refl;
      flight_same = refl;
      callback_same = refl;
      slots = λ j. same_slot s.ring i j (ground arith);
    };
    logged = rw e;
  })
  | inr e ↦ rw e (record { cleared = clear-Cleared s.ring i; logged = rw e })
]
  where
    same_slot :
        (r : Ring) (k j : ℕ)
        → slot_netbuf r k ≡ 0
        → slot_netbuf r j ≡ (if k == j then 0 else slot_netbuf r j)
    same_slot r k j z = elim (Bool-cases (k == j)) [
      | inl q ↦ let p : k ≡ j = ground arith in rw q (sym (ap (slot_netbuf r) p) ∙ z)
      | inr q ↦ rw q
    ]

release_slots-Released : (n i : ℕ) (s : Io) → Released n i s (release_slots n i s)
unfolding release_slots held_netbufs gave_up
release_slots-Released zero i s = record {
  type_same = refl;
  sq_same = refl;
  pool_same = refl;
  valid_same = refl;
  flight_same = refl;
  emptied = λ j l h. absurd (omega arith);
  before = λ j h. refl;
  logged = refl;
}
release_slots-Released (suc n) i s =
    let one = release_slot-OneReleased i s in
    let s' : Io = release_slot s i in
    let rest = release_slots-Released n (i + 1) s' in
    let c = one.cleared in
    record {
      type_same = rest.type_same ∙ c.type_same;
      sq_same = rest.sq_same ∙ c.sq_same;
      pool_same = rest.pool_same ∙ c.pool_same;
      valid_same = rest.valid_same ∙ c.valid_same;
      flight_same = rest.flight_same ∙ c.flight_same;
      emptied = λ j l h. ground (arith, rest.emptied j, rest.before j, c.slots j);
      before = λ j h. ground (arith, rest.before j, c.slots j);
      logged =
          rest.logged
          ∙ gave_up-same s.ring s'.ring (held_netbufs s'.ring n (i + 1)) s'.log c.callback_same
          ∙ ap₂ (gave_up s.ring)
              (held_netbufs-same s.ring s'.ring n (i + 1) (λ j l. ground (arith, c.slots j)))
              one.logged
          ∙ gave_up_if s.ring (slot_netbuf s.ring i) (slot_netbuf s.ring i == 0)
              (held_netbufs s.ring n (i + 1)) s.log;
    }

-- What a reset leaves.
pub record Renewed (s s' : Io) : Type 0 where
  pub invalid : s'.ring.hw_valid ≡ false
  pub pool : HasPool s'.ring
  pub all_free : free_of s'.ring ≡ ids_from 0 s.ring.sq.depth
  pub none_in_flight : s'.ring.in_flight ≡ replicate s.ring.sq.depth false
  pub none_deferred : s'.ring.tx_foreign_count ≡ 0
  pub slots_empty : (j : ℕ) → j < s.ring.sq.depth → slot_netbuf s'.ring j ≡ 0
  pub logged : s'.log ≡ gave_up s.ring (held_netbufs s.ring s.ring.sq.depth 0) s.log

rearmed_pool-fresh : {d : ℕ} {p : IdPool} → PoolInv d p → rearmed_pool d p ≡ fresh_pool d p.ids
rearmed_pool-fresh {d} {p} v = rw (
  is_null-length p.ids (omega (arith, v.ids_length, v.depth_ok.lower)),
  is_null-length p.allocated (omega (arith, v.marks_length, v.depth_ok.lower)),
)

-- Refilling the pool and rewinding the queues leave the slots.
rearmed_slot : (r : Ring) (j : ℕ) → slot_netbuf (rearmed r) j ≡ slot_netbuf r j
rearmed_slot r j = elim (RingType-cases r.ring_type) [
  | inl t ↦ slot_netbuf-tx (rearmed r) j t ∙ sym (slot_netbuf-tx r j t)
  | inr t ↦ slot_netbuf-rx (rearmed r) j t ∙ sym (slot_netbuf-rx r j t)
]

rewound_slot : (r : Ring) (j : ℕ) → slot_netbuf (rewound r) j ≡ slot_netbuf r j
rewound_slot r j = elim (RingType-cases r.ring_type) [
  | inl t ↦ slot_netbuf-tx (rewound r) j t ∙ sym (slot_netbuf-tx r j t)
  | inr t ↦ slot_netbuf-rx (rewound r) j t ∙ sym (slot_netbuf-rx r j t)
]

rewound_log :
    (r : Ring) (d : ℕ) (l : List Effect)
    → gave_up (rewound r) (held_netbufs (rewound r) d 0) l ≡ gave_up r (held_netbufs r d 0) l
rewound_log r d l =
    gave_up-same r (rewound r) (held_netbufs (rewound r) d 0) l refl
    ∙ ap (λ h. gave_up r h l) (held_netbufs-same r (rewound r) d 0 (λ j h. rewound_slot r j))

-- On a ring of either direction whose arrays have the queue's depth, a reset leaves the hardware
-- invalid, every id free, in order, none in flight and none deferred, every slot empty, and has
-- given up each netbuf that a slot held, once, in the order of the slots, and nothing else.
pub reset-Renewed :
    (s : Io)
    → HasPool s.ring
    → length s.ring.in_flight ≡ s.ring.sq.depth
    → Renewed s (reset_sw_state s)
unfolding reset_sw_state
reset-Renewed s v len =
    let d : ℕ = s.ring.sq.depth in
    let start : Io = record s { ring = rewound s.ring } in
    let x : Io = release_slots d 0 start in
    let done = release_slots-Released d 0 start in
    let fresh = rearmed_pool-fresh v in
    record {
      invalid = done.valid_same;
      pool =
          subst₂ (λ q p. PoolInv q.depth (rearmed_pool q.depth p)) (sym done.sq_same)
            (sym done.pool_same)
            (subst (PoolInv d) (sym fresh)
              (fresh-PoolInv d s.ring.pool.ids v.depth_ok v.ids_length));
      all_free =
          ap₂ (λ (q : SubQueue) p. free_ids q.depth (rearmed_pool q.depth p)) done.sq_same
            done.pool_same
          ∙ ap (free_ids d) fresh
          ∙ fresh_window d s.ring.pool.ids v.depth_ok v.ids_length;
      none_in_flight =
          ap₂ (λ (q : SubQueue) fl. clear_marks q.depth fl) done.sq_same done.flight_same
          ∙ rw (is_null-length s.ring.in_flight (omega (arith, len, v.depth_ok.lower)));
      none_deferred = refl;
      slots_empty = λ j h. rearmed_slot x.ring j ∙ done.emptied j (omega arith) (omega arith);
      logged = done.logged ∙ rewound_log s.ring d s.log;
    }
