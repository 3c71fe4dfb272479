-- ===== src/Netdev/Slots.antt =====
-- The invariant of the bounce slots of a transmit queue: each slot is free, or held by one request.
use mathlib.Core.Path.{subst}
use lib_ena.Prelude.{
  ℕ, zero, suc, ◌+◌, ◌<◌, ◌≡◌, ◌≢◌, sym, ap, ◌∙◌, Bool, true, false, ◌==◌, ltb, Bool-cases, inl,
  inr, Option, none, some, some_injective, List, [], ◌∷◌, length, length-set, is_null-length,
  is_null, get_or, set, get_or-set_self, get_or-set_ne, arith,
}
use lib_ena.Prelude.Flags.{flags, flags-set}
use lib_ena.Ring.{IdPool}
use lib_ena.Ring.Ids.{pop_id, push_id}
use lib_ena.Ring.Inv.{PoolInv, front_in, front_free, pop_id-Inv, push_id-Inv}
use lib_ena.Netdev.{TxQueue}
use lib_ena.Netdev.Bounce.{
  push_slot, note_use, give_slot, front_slot, take_slot, fill_slot, map_slot, return_slot,
}

-- How many requests hold a slot.
abbrev one : Option ℕ → ℕ
one none = 0
one (some _) = 1

unfoldable pub mapped : List (Option ℕ) → ℕ
mapped [] = 0
mapped (o ∷ os) = one o + mapped os

mapped-set :
    (xs : List (Option ℕ)) (i : ℕ) (v : Option ℕ)
    → i < length xs
    → mapped (set xs i v) + one (get_or xs i none) ≡ mapped xs + one v
unfolding mapped
mapped-set [] i v h = absurd (omega arith)
mapped-set (x ∷ xs) zero v h = omega arith
mapped-set (x ∷ xs) (suc i) v h = omega (arith, mapped-set xs i v (omega arith))

-- A read past the end finds no slot.
mapped_in : (xs : List (Option ℕ)) (i slot : ℕ) → get_or xs i none ≡ some slot → i < length xs
mapped_in [] i slot e = cc
mapped_in (x ∷ xs) zero slot e = omega arith
mapped_in (x ∷ xs) (suc i) slot e = omega (arith, mapped_in xs i slot e)

-- The pool of the free slots, with marks on those that are not free.
abbrev pub slot_pool : TxQueue → List Bool → IdPool
slot_pool q marks = record {
  ids = q.bounce_free_ids;
  head = q.bounce_free_head;
  tail = q.bounce_free_tail;
  count = q.bounce_free_count;
  allocated = marks;
}

-- The slot of a request.
abbrev pub Maps : TxQueue → ℕ → ℕ → Type 0
Maps q id slot = get_or q.bounce_map id none ≡ some slot

-- Each slot is free once, or marked; the marked slots are those that a request holds, each by one
-- request.
pub record Slots (q : TxQueue) : Type 0 where
  pub marks : List Bool
  pub pool : PoolInv q.nb_desc (slot_pool q marks)
  pub map_length : length q.bounce_map ≡ q.nb_desc
  pub marked : (id slot : ℕ) → Maps q id slot → (slot < q.nb_desc) × (get_or marks slot true ≡ true)
  pub one_request : (i j slot : ℕ) → Maps q i slot → Maps q j slot → i ≡ j
  pub no_leak : flags marks ≡ mapped q.bounce_map

-- The same with one marked slot that no request holds yet.
pub record Taken (loose : ℕ) (q : TxQueue) : Type 0 where
  pub marks : List Bool
  pub pool : PoolInv q.nb_desc (slot_pool q marks)
  pub map_length : length q.bounce_map ≡ q.nb_desc
  pub marked : (id slot : ℕ) → Maps q id slot → (slot < q.nb_desc) × (get_or marks slot true ≡ true)
  pub one_request : (i j slot : ℕ) → Maps q i slot → Maps q j slot → i ≡ j
  pub loose_in : loose < q.nb_desc
  pub loose_marked : get_or marks loose true ≡ true
  pub loose_free : (id : ℕ) → ¬ Maps q id loose
  pub no_leak : flags marks ≡ suc (mapped q.bounce_map)

-- Every slot is free or held.
pub Slots-whole : (q : TxQueue) → Slots q → q.bounce_free_count + mapped q.bounce_map ≡ q.nb_desc
Slots-whole q v = omega (arith, v.pool.total, v.no_leak)

pub none-ne-some : {slot : ℕ} → ¬ (none ≡ some slot)
none-ne-some h = cc

true-ne-false' : (b : Bool) → b ≡ true → ¬ (b ≡ false)
true-ne-false' b e f = cc

marked_read :
    (marks : List Bool) (d i : ℕ) (b : Bool)
    → length marks ≡ d
    → i < d
    → get_or (set marks i b) i true ≡ b
marked_read marks d i b l h = get_or-set_self marks i b true (omega arith)

-- A slot taken from the head of the pool.
pub take-Taken :
    (q : TxQueue) → Slots q → q.bounce_free_count ≢ 0 → Taken (front_slot q) (take_slot q)
unfolding take_slot note_use
take-Taken q v ne =
    let x : ℕ = front_slot q in
    let free = (front_free v.pool ne).0 in
    let marks' = set v.marks x true in
    record {
      marks = marks';
      pool = unfold pop_id in pop_id-Inv v.pool ne;
      map_length = v.map_length;
      marked = λ id slot e. (
        (v.marked id slot e).0,
        elim (Bool-cases (x == slot)) [
          | inl s ↦
              let same : x ≡ slot = ground (arith, s) in
              subst (λ t. get_or marks' t true ≡ true) same
                (marked_read v.marks q.nb_desc x true v.pool.marks_length (front_in v.pool ne))
          | inr s ↦
              get_or-set_ne v.marks x slot true true (ground (arith, s)) ∙ (v.marked id slot e).1
        ],
      );
      one_request = v.one_request;
      loose_in = front_in v.pool ne;
      loose_marked = marked_read v.marks q.nb_desc x true v.pool.marks_length (front_in v.pool ne);
      loose_free = λ id e. true-ne-false' _ (v.marked id x e).1 free;
      no_leak = ground (
        arith,
        v.no_leak,
        free,
        flags-set v.marks x true true,
        v.pool.marks_length,
        front_in v.pool ne,
      );
    }

-- Its bytes are no part of the invariant.
pub fill-Taken :
    (q : TxQueue) (slot loose : ℕ) (bytes : List ℕ)
    → Taken loose q
    → Taken loose (fill_slot slot bytes q)
unfolding fill_slot
fill-Taken q slot loose bytes v = record {
  marks = v.marks;
  pool = v.pool;
  map_length = v.map_length;
  marked = v.marked;
  one_request = v.one_request;
  loose_in = v.loose_in;
  loose_marked = v.loose_marked;
  loose_free = v.loose_free;
  no_leak = v.no_leak;
}

-- A marked slot without a request goes back to the pool.
pub return-Slots : (q : TxQueue) (slot : ℕ) → Taken slot q → Slots (return_slot slot q)
unfolding return_slot note_use push_slot
return-Slots q slot v =
    let marks' = set v.marks slot false in
    record {
      marks = marks';
      pool = unfold push_id in push_id-Inv v.pool slot v.loose_in v.loose_marked;
      map_length = v.map_length;
      marked = λ id k e. (
        (v.marked id k e).0,
        elim (Bool-cases (slot == k)) [
          | inl s ↦
              let same : slot ≡ k = ground (arith, s) in
              absurd (v.loose_free id (subst (λ t. Maps q id t) (sym same) e))
          | inr s ↦
              get_or-set_ne v.marks slot k false true (ground (arith, s)) ∙ (v.marked id k e).1
        ],
      );
      one_request = v.one_request;
      no_leak = ground (
        arith,
        v.no_leak,
        v.loose_marked,
        flags-set v.marks slot false true,
        v.pool.marks_length,
        v.loose_in,
      );
    }

-- A marked slot goes to a request that holds none.
pub map-Slots :
    (q : TxQueue) (id slot : ℕ)
    → Taken slot q
    → id < q.nb_desc
    → get_or q.bounce_map id none ≡ none
    → Slots (map_slot id slot q)
unfolding map_slot note_use
map-Slots q id slot v h empty =
    let map' = set q.bounce_map id (some slot) in
    let here : get_or map' id none ≡ some slot =
      get_or-set_self q.bounce_map id (some slot) none (omega (arith, v.map_length)) in
    let there : (j : ℕ) → id ≢ j → get_or map' j none ≡ get_or q.bounce_map j none =
      λ j ne. get_or-set_ne q.bounce_map id j (some slot) none ne in
    let at_id : (j k : ℕ) → id ≡ j → get_or map' j none ≡ some k → slot ≡ k =
      λ j k s e. some_injective (sym (subst (λ t. get_or map' t none ≡ some slot) s here) ∙ e) in
    let other : (j k : ℕ) → id ≢ j → get_or map' j none ≡ some k → slot ≢ k =
      λ j k ne e s. v.loose_free j (subst (λ t. Maps q j t) (sym s) (sym (there j ne) ∙ e)) in
    record {
      marks = v.marks;
      pool = v.pool;
      map_length = length-set q.bounce_map id (some slot) ∙ v.map_length;
      marked = λ j k e. elim (Bool-cases (id == j)) [
        | inl s ↦
            subst (λ t. (t < q.nb_desc) × (get_or v.marks t true ≡ true))
              (at_id j k (ground (arith, s)) e) (v.loose_in, v.loose_marked)
        | inr s ↦ v.marked j k (sym (there j (ground (arith, s))) ∙ e)
      ];
      one_request = λ i j k e f. elim (Bool-cases (id == i)) [
        | inl s ↦ elim (Bool-cases (id == j)) [
          | inl t ↦ ground (arith, s, t)
          | inr t ↦ absurd (other j k (ground (arith, t)) f (at_id i k (ground (arith, s)) e))
        ]
        | inr s ↦ elim (Bool-cases (id == j)) [
          | inl t ↦ absurd (other i k (ground (arith, s)) e (at_id j k (ground (arith, t)) f))
          | inr t ↦
              v.one_request i j k (sym (there i (ground (arith, s))) ∙ e)
                (sym (there j (ground (arith, t))) ∙ f)
        ]
      ];
      no_leak = omega (
        arith,
        v.no_leak,
        mapped-set q.bounce_map id (some slot) (omega (arith, v.map_length)),
        ap one empty,
      );
    }

-- A request that holds a slot loses it: the slot is marked and no request holds it.
unmapped-Taken :
    (q : TxQueue) (id slot : ℕ)
    → Slots q
    → Maps q id slot
    → Taken slot (record q { bounce_map = set q.bounce_map id none })
unmapped-Taken q id slot v m =
    let map' = set q.bounce_map id none in
    let inside : id < length q.bounce_map = mapped_in q.bounce_map id slot m in
    let here : get_or map' id none ≡ none = get_or-set_self q.bounce_map id none none inside in
    let back : (j k : ℕ) → get_or map' j none ≡ some k → (id ≢ j) × Maps q j k = λ j k e.
      let ne : id ≢ j =
        λ s. none-ne-some (sym (subst (λ t. get_or map' t none ≡ none) s here) ∙ e) in
      (ne, sym (get_or-set_ne q.bounce_map id j none none ne) ∙ e) in
    record {
      marks = v.marks;
      pool = v.pool;
      map_length = length-set q.bounce_map id none ∙ v.map_length;
      marked = λ j k e. v.marked j k (back j k e).1;
      one_request = λ i j k e f. v.one_request i j k (back i k e).1 (back j k f).1;
      loose_in = (v.marked id slot m).0;
      loose_marked = (v.marked id slot m).1;
      loose_free = λ j e. (back j slot e).0 (v.one_request id j slot m (back j slot e).1);
      no_leak = omega (arith, v.no_leak, mapped-set q.bounce_map id none inside, ap one m);
    }

-- The counters that the pool does not read.
pub polls-Slots :
    (q : TxQueue) (polls : ℕ) → Slots q → Slots (record q { bounce_wait_polls = polls })
polls-Slots q polls v = record {
  marks = v.marks;
  pool = v.pool;
  map_length = v.map_length;
  marked = v.marked;
  one_request = v.one_request;
  no_leak = v.no_leak;
}

-- The release of the slot of a request.
pub give-Slots :
    (q : TxQueue) (id slot : ℕ) → Slots q → Maps q id slot → Slots (give_slot id slot q)
unfolding give_slot return_slot note_use
give-Slots q id slot v m =
    let unmapped : TxQueue = record q { bounce_map = set q.bounce_map id none } in
    let has_ids : is_null q.bounce_free_ids ≡ false =
      is_null-length q.bounce_free_ids (omega (arith, v.pool.ids_length, v.pool.depth_ok.lower)) in
    let has_slots : ltb 0 q.nb_desc ≡ true = ground (arith, v.pool.depth_ok.lower) in
    rw (has_ids, has_slots)
      (polls-Slots (return_slot slot unmapped) 0
        (return-Slots unmapped slot (unmapped-Taken q id slot v m)))
