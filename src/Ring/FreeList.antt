-- ===== src/Ring/FreeList.antt =====
-- The request id pool against a plain queue of free ids.
use mathlib.Core.Path.{subst, subst₂}
use lib_ena.Prelude.{
  ℕ, ◌≤◌, ◌<◌, ◌≡◌, ◌≢◌, refl, sym, ap, ap₂, ◌∙◌, List, [], ◌∷◌, ◌++◌, true, false, inl, inr, ◌==◌,
  Bool-cases, if◌then◌else◌, leb, get_or, get_or-set_self, arith,
}
use lib_ena.Status.{ok, err, einval, ebusy, Code, success, ok_injective, err-ne-ok}
use lib_ena.Ring.{Ring}
use lib_ena.Ring.Ids.{pop_id, push_id, req_id_alloc, req_id_free, slot_clear}
use lib_ena.Ring.Window.{occ, window, window-front}
use lib_ena.Ring.Inv.{
  PoolInv, free_ids, front_in, front_free, room, next_index, push_count, push-window, pop_id-Inv,
  push_id-Inv,
}

-- What a client of the pool does.
pub data Op : Type 0 where
  acquire : Op
  release : ℕ → Op

-- What a call returns: the id handed out, or the code.
pub data Reply : Type 0 where
  handed : ℕ → Reply
  code : Code → Reply

-- The queue: ids go out at the front, and come back at the end unless they are free already.
abbrev pub give : ℕ → List ℕ → List ℕ
give i q = if occ i q == 0 then q ++ (i ∷ []) else q

unfoldable pub queue_run : ℕ → List ℕ → List Op → List Reply
queue_run d q [] = []
queue_run d [] (acquire ∷ ops) = code (err ebusy) ∷ queue_run d [] ops
queue_run d (x ∷ q) (acquire ∷ ops) = handed x ∷ queue_run d q ops
queue_run d q (release i ∷ ops) =
    code (if leb d i then err einval else success)
    ∷ queue_run d (if leb d i then q else give i q) ops

-- The calls on a ring, in order.
unfoldable pub run : Ring → List Op → List Reply
run r [] = []
run r (acquire ∷ ops) = elim (req_id_alloc r) [
  | ok (i, r') ↦ handed i ∷ run r' ops
  | err e ↦ code (err e) ∷ run r ops
]
run r (release i ∷ ops) = let (c, r') = req_id_free r i in code c ∷ run r' ops

-- The invariant of a ring's pool.
abbrev pub HasPool : Ring → Type 0
HasPool r = PoolInv r.sq.depth r.pool

abbrev pub free_of : Ring → List ℕ
free_of r = free_ids r.sq.depth r.pool

module _ (r : Ring) (v : HasPool r) where
  -- `ena_ring_req_id_alloc` where ids are left.
  pub req_id_alloc-front :
      r.pool.count ≢ 0
      → req_id_alloc r
        ≡ ok (get_or r.pool.ids r.pool.head 0, record r { pool = pop_id r.sq.depth r.pool })
  unfolding req_id_alloc
  req_id_alloc-front ne = ground arith

  -- `ena_ring_req_id_free` of an allocated id.
  pub req_id_free-allocated :
      (i : ℕ)
      → i < r.sq.depth
      → get_or r.pool.allocated i true ≡ true
      → req_id_free r i ≡ (success, slot_clear (record r { pool = push_id r.sq.depth r.pool i }) i)
  unfolding req_id_free
  req_id_free-allocated i h e = ground (arith, room v i h e)

  -- Of a free one.
  pub req_id_free-free :
      (i : ℕ)
      → i < r.sq.depth
      → get_or r.pool.allocated i true ≡ false
      → req_id_free r i ≡ (success, r)
  unfolding req_id_free
  req_id_free-free i h e = ground arith

  -- The free ids after a pop and after a push.
  pub pop_id-free_ids :
      r.pool.count ≢ 0
      → free_of r ≡ get_or r.pool.ids r.pool.head 0 ∷ free_ids r.sq.depth (pop_id r.sq.depth r.pool)
  unfolding pop_id
  pop_id-free_ids ne = rw (next_index v r.pool.head) (window-front _ _ _ _ ne)

  pub push_id-free_ids :
      (i : ℕ)
      → i < r.sq.depth
      → get_or r.pool.allocated i true ≡ true
      → free_ids r.sq.depth (push_id r.sq.depth r.pool i) ≡ free_of r ++ (i ∷ [])
  unfolding push_id
  push_id-free_ids i h e = rw (push_count v i h e) (push-window v i (room v i h e))

  -- The mark of the id after a push.
  pub push_id-freed :
      (i : ℕ) → i < r.sq.depth → get_or (push_id r.sq.depth r.pool i).allocated i true ≡ false
  unfolding push_id
  push_id-freed i h = get_or-set_self r.pool.allocated i false true (omega (arith, v.marks_length))

pub slot_clear-pool : (r : Ring) (i : ℕ) → (slot_clear r i).pool ≡ r.pool
unfolding slot_clear
slot_clear-pool r i = ground arith

pub slot_clear-sq : (r : Ring) (i : ℕ) → (slot_clear r i).sq ≡ r.sq
unfolding slot_clear
slot_clear-sq r i = ground arith

-- Clearing a slot leaves the pool.
slot_clear-HasPool : (r : Ring) (i : ℕ) → HasPool r → HasPool (slot_clear r i)
slot_clear-HasPool r i v =
    subst₂ (λ s p. PoolInv s.depth p) (sym (slot_clear-sq r i)) (sym (slot_clear-pool r i)) v

-- A ring after a release: the code is 0, the depth stays, and the id is free.
record Gave (r : Ring) (i : ℕ) (out : Code × Ring) : Type 0 where
  answer : out.0 ≡ success
  same_sq : out.1.sq ≡ r.sq
  still : HasPool out.1
  freed : get_or out.1.pool.allocated i true ≡ false
  queue : free_of out.1 ≡ give i (free_of r)

req_id_free-Gave : (r : Ring) (i : ℕ) → HasPool r → i < r.sq.depth → Gave r i (req_id_free r i)
req_id_free-Gave r i v h = elim (Bool-cases (get_or r.pool.allocated i true)) [
  | inl e ↦
      let pushed : Ring = record r { pool = push_id r.sq.depth r.pool i } in
      rw (req_id_free-allocated r v i h e) (record {
        answer = refl;
        same_sq = slot_clear-sq pushed i;
        still = slot_clear-HasPool pushed i (push_id-Inv v i h e);
        freed =
            ap (λ p. get_or p.allocated i true) (slot_clear-pool pushed i) ∙ push_id-freed r v i h;
        queue =
            ap₂ (λ s p. free_ids s.depth p) (slot_clear-sq pushed i) (slot_clear-pool pushed i)
            ∙ push_id-free_ids r v i h e
            ∙ ground (arith, v.once i h);
      })
  | inr e ↦ rw (req_id_free-free r v i h e) (record {
    answer = refl;
    same_sq = refl;
    still = v;
    freed = e;
    queue = ground (arith, v.once i h);
  })
]

req_id_free-invalid : (r : Ring) (i : ℕ) → r.sq.depth ≤ i → req_id_free r i ≡ (err einval, r)
unfolding req_id_free
req_id_free-invalid r i h = ground arith

-- A pop at the front of the queue.
run-acquire :
    (r : Ring) (ops : List Op)
    → HasPool r
    → r.pool.count ≢ 0
    → run r (acquire ∷ ops)
      ≡ handed (get_or r.pool.ids r.pool.head 0)
        ∷ run (record r { pool = pop_id r.sq.depth r.pool }) ops
unfolding run
run-acquire r ops v ne = rw (req_id_alloc-front r v ne, run)

req_id_alloc-empty : (r : Ring) → r.pool.count ≡ 0 → req_id_alloc r ≡ err ebusy
unfolding req_id_alloc
req_id_alloc-empty r e = ground arith

run-empty :
    (r : Ring) (ops : List Op)
    → r.pool.count ≡ 0
    → run r (acquire ∷ ops) ≡ code (err ebusy) ∷ run r ops
unfolding run
run-empty r ops e = rw (req_id_alloc-empty r e, run)

-- No sequence of `ena_ring_req_id_alloc` and `ena_ring_req_id_free` calls, on any ids, tells a
-- ring whose pool meets the invariant from the queue of its free ids: ids go out in the order in
-- which they came back, an empty pool answers EBUSY, an id that is out of range answers EINVAL,
-- and a second release of an id answers 0 and puts nothing in the pool.
pub run-queue_run :
    (ops : List Op) (r : Ring) → HasPool r → run r ops ≡ queue_run r.sq.depth (free_of r) ops
unfolding run queue_run
run-queue_run [] r v = refl
run-queue_run (acquire ∷ ops) r v = elim (Bool-cases (r.pool.count == 0)) [
  | inl e ↦
      let none_left : r.pool.count ≡ 0 = ground arith in
      let no_ids : free_of r ≡ [] = ap (window r.sq.depth r.pool.ids r.pool.head) none_left in
      let rest = run-queue_run ops r v in
      run-empty r ops none_left
      ∙ ap (λ l. code (err ebusy) ∷ l) (rest ∙ ap (λ q. queue_run r.sq.depth q ops) no_ids)
      ∙ ap (λ q. queue_run r.sq.depth q (acquire ∷ ops)) (sym no_ids)
  | inr e ↦
      let ne : r.pool.count ≢ 0 = ground arith in
      let popped : Ring = record r { pool = pop_id r.sq.depth r.pool } in
      let rest = run-queue_run ops popped (pop_id-Inv v ne) in
      rw (pop_id-free_ids r v ne)
        (run-acquire r ops v ne ∙ ap (λ l. handed (get_or r.pool.ids r.pool.head 0) ∷ l) rest)
]
run-queue_run (release i ∷ ops) r v = elim (Bool-cases (leb r.sq.depth i)) [
  | inl e ↦
      rw (e, req_id_free-invalid r i (ground arith))
        (ap (λ l. code (err einval) ∷ l) (run-queue_run ops r v))
  | inr e ↦
      let gave = req_id_free-Gave r i v (ground arith) in
      let rest = run-queue_run ops (req_id_free r i).1 gave.still in
      rw e (
        ap₂ (λ c l. code c ∷ l) gave.answer
          (rest ∙ ap₂ (λ s q. queue_run s.depth q ops) gave.same_sq gave.queue))
]

-- On a ring whose pool meets the invariant, a second release of an id in range is answered with 0
-- and leaves the ring as the first one left it.
req_id_free_twice :
    (r : Ring) (i : ℕ)
    → HasPool r
    → i < r.sq.depth
    → req_id_free (req_id_free r i).1 i ≡ (success, (req_id_free r i).1)
req_id_free_twice r i v h =
    let gave = req_id_free-Gave r i v h in
    let h' : i < (req_id_free r i).1.sq.depth = subst (λ s. i < s.depth) (sym gave.same_sq) h in
    req_id_free-free (req_id_free r i).1 gave.still i h' gave.freed

-- What a freshly handed out id is.
abbrev IsFresh : Ring → ℕ → Ring → Type 0
IsFresh r i r' =
    (i < r.sq.depth)
    × (get_or r.pool.allocated i true ≡ false)
    × (get_or r'.pool.allocated i true ≡ true)
    × (occ i (free_of r') ≡ 0)
    × HasPool r'

front-IsFresh :
    (r : Ring)
    → HasPool r
    → r.pool.count ≢ 0
    → IsFresh r (get_or r.pool.ids r.pool.head 0) (record r { pool = pop_id r.sq.depth r.pool })
unfolding pop_id
front-IsFresh r v ne =
    let x : ℕ = get_or r.pool.ids r.pool.head 0 in
    let inside : x < r.sq.depth = front_in v ne in
    (
      inside,
      (front_free v ne).0,
      get_or-set_self r.pool.allocated x true true (omega (arith, v.marks_length)),
      rw (next_index v r.pool.head) ((front_free v ne).1),
      pop_id-Inv v ne,
    )

-- On a ring whose pool meets the invariant, an id that `ena_ring_req_id_alloc` hands out is below
-- the depth, was not allocated, is allocated afterwards, is no longer among the free ids, and the
-- pool still meets the invariant.
pub req_id_alloc_fresh :
    (r r' : Ring) (i : ℕ)
    → HasPool r
    → req_id_alloc r ≡ ok (i, r')
    → (i < r.sq.depth)
      × (get_or r.pool.allocated i true ≡ false)
      × (get_or r'.pool.allocated i true ≡ true)
      × (occ i (free_of r') ≡ 0)
      × HasPool r'
req_id_alloc_fresh r r' i v e = elim (Bool-cases (r.pool.count == 0)) [
  | inl z ↦ absurd (err-ne-ok (sym (req_id_alloc-empty r (ground arith)) ∙ e))
  | inr nz ↦
      let ne : r.pool.count ≢ 0 = ground arith in
      let same = ok_injective (sym (req_id_alloc-front r v ne) ∙ e) in
      subst₂ (IsFresh r) (ap (λ t. t.0) same) (ap (λ t. t.1) same) (front-IsFresh r v ne)
]
