-- ===== src/Tx/Held.antt =====
-- Where the request ids of a transmit ring are: each is free, in flight, or deferred, exactly once.
use lib_ena.Prelude.{
  ℕ, suc, ◌+◌, ◌-◌, ◌≤◌, ◌<◌, ◌≡◌, ◌≢◌, ap, ◌∙◌, List, Bool, true, false, length, length-set,
  get_or, set, get_or-set_self, get_or-set_ne, arith,
}
use lib_ena.Prelude.Flags.{bit, flags, flags-set, bit-le-flags}
use lib_ena.Ring.{IdPool, ForeignFree}
use lib_ena.Ring.Ids.{pop_id, push_id}
use lib_ena.Ring.Inv.{PoolInv, front_in, front_free, pop_id-Inv, push_id-Inv, push_count}
use lib_ena.Tx.Poll.{no_foreign}
use lib_ena.Tx.Deferred.{deferred, deferred-stage, deferred-drop, deferred-pos}

pub record Held (d : ℕ) (p : IdPool) (fl : List Bool) (fs : List ForeignFree) (n : ℕ) : Type 0 where
  pub pool : PoolInv d p
  pub flight_length : length fl ≡ d
  pub foreign_length : length fs ≡ d
  pub holders :
      (id : ℕ)
      → id < d
      → bit (get_or p.allocated id true) ≡ bit (get_or fl id false) + deferred id fs n
  pub ranged : (i : ℕ) → i < n → (get_or fs i no_foreign).req_id < d
  pub whole : p.count + flags fl + n ≡ d

module _ {d : ℕ} {p : IdPool} {fl : List Bool} {fs : List ForeignFree} {n : ℕ}
    (v : Held d p fl fs n) where
  -- A submit takes the id at the front.
  pub submit-Held : p.count ≢ 0 → Held d (pop_id d p) (set fl (get_or p.ids p.head 0) true) fs n
  unfolding pop_id
  submit-Held ne =
      let x : ℕ = get_or p.ids p.head 0 in
      let inside = front_in v.pool ne in
      let free = (front_free v.pool ne).0 in
      record {
        pool = pop_id-Inv v.pool ne;
        flight_length = length-set fl x true ∙ v.flight_length;
        foreign_length = v.foreign_length;
        holders = λ id h. ground (
          arith,
          v.holders id h,
          v.holders x inside,
          free,
          v.flight_length,
          v.pool.marks_length,
          get_or-set_self p.allocated x true true,
          get_or-set_ne p.allocated x id true true,
          get_or-set_self fl x true false,
          get_or-set_ne fl x id true false,
        );
        ranged = v.ranged;
        whole =
            ground (
              arith,
              v.whole,
              v.holders x inside,
              free,
              v.flight_length,
              flags-set fl x true false,
            );
      }

  -- A request that is in flight is allocated, and not deferred.
  pub flight_allocated :
      (id : ℕ) → id < d → get_or fl id false ≡ true → get_or p.allocated id true ≡ true
  flight_allocated id h e = ground (arith, v.holders id h)

  -- A completion gives its id back to the pool.
  pub release-Held :
      (id : ℕ) → id < d → get_or fl id false ≡ true → Held d (push_id d p id) (set fl id false) fs n
  unfolding push_id
  release-Held id h e =
      let marked = flight_allocated id h e in
      record {
        pool = push_id-Inv v.pool id h marked;
        flight_length = length-set fl id false ∙ v.flight_length;
        foreign_length = v.foreign_length;
        holders = λ j hj. ground (
          arith,
          v.holders j hj,
          v.flight_length,
          v.pool.marks_length,
          get_or-set_self p.allocated id false true,
          get_or-set_ne p.allocated id j false true,
          get_or-set_self fl id false false,
          get_or-set_ne fl id j false false,
        );
        ranged = v.ranged;
        whole = ground (
          arith,
          v.whole,
          push_count v.pool id h marked,
          v.flight_length,
          flags-set fl id false false,
        );
      }

  -- A request in flight leaves room among the deferred releases.
  pub stage_room : (id : ℕ) → get_or fl id false ≡ true → n < d
  stage_room id e = ground (arith, v.whole, bit-le-flags fl id)

  -- A completion on a foreign core defers its release.
  pub stage-Held :
      (id owner : ℕ)
      → id < d
      → get_or fl id false ≡ true
      → Held d p (set fl id false) (set fs n (record { req_id = id; owner_cpu = owner })) (suc n)
  stage-Held id owner h e =
      let entry : ForeignFree = record { req_id = id; owner_cpu = owner } in
      let lt = stage_room id e in
      record {
        pool = v.pool;
        flight_length = length-set fl id false ∙ v.flight_length;
        foreign_length = length-set fs n entry ∙ v.foreign_length;
        holders = λ j hj. ground (
          arith,
          v.holders j hj,
          v.flight_length,
          v.foreign_length,
          deferred-stage j fs n entry,
          get_or-set_self fl id false false,
          get_or-set_ne fl id j false false,
        );
        ranged = λ j hj. ground (
          arith,
          v.ranged j,
          v.foreign_length,
          get_or-set_self fs n entry no_foreign,
          get_or-set_ne fs n j entry no_foreign,
        );
        whole = ground (arith, v.whole, v.flight_length, flags-set fl id false false);
      }

  -- A deferred request is allocated, and not in flight.
  pub deferred_allocated :
      (i : ℕ) → i < n → get_or p.allocated (get_or fs i no_foreign).req_id true ≡ true
  deferred_allocated i h =
      let id : ℕ = (get_or fs i no_foreign).req_id in
      let one = deferred-pos fs i n h (omega (arith, v.whole, v.foreign_length)) in
      ground (arith, v.holders id (v.ranged i h), one)

  -- The owner's poll gives the id of entry `i` back, and the last entry takes its place.
  pub drain-Held :
      (i : ℕ)
      → i < n
      → Held d
          (push_id d p (get_or fs i no_foreign).req_id)
          fl
          (set fs i (get_or fs (n - 1) no_foreign))
          (n - 1)
  unfolding push_id
  drain-Held i h =
      let id : ℕ = (get_or fs i no_foreign).req_id in
      let last : ForeignFree = get_or fs (n - 1) no_foreign in
      let inside : id < d = v.ranged i h in
      let marked = deferred_allocated i h in
      let fits : n ≤ length fs = omega (arith, v.whole, v.foreign_length) in
      let n_suc : suc (n - 1) ≡ n = omega arith in
      record {
        pool = push_id-Inv v.pool id inside marked;
        flight_length = v.flight_length;
        foreign_length = length-set fs i last ∙ v.foreign_length;
        holders = λ j hj. ground (
          arith,
          v.holders j hj,
          v.pool.marks_length,
          deferred-drop j fs i (n - 1) (omega arith) (omega arith),
          ap (deferred j fs) n_suc,
          get_or-set_self p.allocated id false true,
          get_or-set_ne p.allocated id j false true,
          v.holders id inside,
        );
        ranged = λ j hj. ground (
          arith,
          v.ranged j,
          v.ranged (n - 1),
          get_or-set_self fs i last no_foreign,
          get_or-set_ne fs i j last no_foreign,
        );
        whole = ground (arith, v.whole, push_count v.pool id inside marked);
      }
