-- ===== src/Rx/Refilled.antt =====
-- What `ena_rx_refill` promises.
use mathlib.Core.List.{append_assoc}
use mathlib.Core.Path.{subst}
use lib_ena.Prelude.{
  List, [], ◌∷◌, ◌++◌, sym, ℕ, zero, suc, ◌+◌, ◌≤◌, ◌<◌, ◌≡◌, refl, ap, ◌∙◌, false, ◌⊎◌, inl, inr,
  ◌==◌, ltb, not, ◌&&◌, ◌||◌, if◌then◌else◌, Bool-cases, some, arith,
}
use lib_ena.Status.{Result, ok, err, Errno}
use lib_ena.Ring.{Effect, Ring, SubQueue, is_tx}
use lib_ena.Ring.Advance.{sq_advance}
use lib_ena.Rx.Queue.{RxIo}
use lib_ena.Rx.Submit.{rx_submit_one, rx_doorbell}
use lib_ena.Rx.Refill.{Allocator, Posting, stop, posted, refill_round, refill_loop, rx_refill}
use lib_ena.Rx.Inv.{RxInv}
use lib_ena.Rx.Accept.{rx_submit-Offered}

-- Effects only come on top of those before.
abbrev pub Grown : List Effect → List Effect → Type 0
Grown log log' = (new : List Effect) × (log' ≡ new ++ log)

Grown-trans : {a b c : List Effect} → Grown a b → Grown b c → Grown a c
Grown-trans {a} {b} {c} (x, e) (y, f) = (y ++ x, f ∙ ap (λ l. y ++ l) e ∙ sym (append_assoc y x a))

-- A refill that has posted `n` buffers.
pub record Refilled (s : RxIo) (n : ℕ) (s' : RxIo) : Type 0 where
  pub inv : RxInv s'.ring
  pub depth_same : s'.ring.sq.depth ≡ s.ring.sq.depth
  pub taken : n + s'.ring.pool.count ≡ s.ring.pool.count
  pub cq_same : s'.ring.cq ≡ s.ring.cq
  pub entries_same : s'.ring.rx_cq ≡ s.ring.rx_cq
  pub log_grown : Grown s.log s'.log

record Posted (count refilled : ℕ) (s s' : RxIo) : Type 0 where
  more : refilled < count
  one : Refilled s 1 s'

abbrev After : ℕ → ℕ → RxIo → Posting → Type 0
After count refilled s (stop s') = (s'.ring ≡ s.ring) × Grown s.log s'.log
After count refilled s (posted s') = Posted count refilled s s'

Result-cases : {A : Type 0} (x : Result A) → ((a : A) × (x ≡ ok a)) ⊎ ((e : Errno) × (x ≡ err e))
Result-cases (ok a) = inl (a, refl)
Result-cases (err e) = inr (e, refl)

sq_advance-depth : (q : SubQueue) → (sq_advance q).depth ≡ q.depth
unfolding sq_advance
sq_advance-depth q = refl

round-After :
    (alloc : Allocator) (count refilled : ℕ) (s : RxIo)
    → RxInv s.ring
    → After count refilled s (refill_round alloc count refilled s)
unfolding refill_round
round-After alloc count refilled s v =
    elim (Bool-cases (ltb refilled count && ltb 0 s.ring.pool.count)) [
      | inr e ↦ rw e (refl, ([], refl))
      | inl e ↦ elim (Bool-cases ((alloc s.queue).0.netbuf == 0)) [
        | inl z ↦ rw (e, z) (refl, ([], refl))
        | inr nz ↦ elim (Result-cases (rx_submit_one (alloc s.queue).0 s.ring)) [
          | inr (x, p) ↦ rw (e, nz, p) (refl, (_ ∷ [], refl))
          | inl (a, p) ↦
              let o = rx_submit-Offered (alloc s.queue).0 s.ring v a.0 a.1 p in
              rw (e, nz, p)
                (record {
                  more = ground arith;
                  one = record {
                    inv = o.inv;
                    depth_same =
                        ap (λ (q : SubQueue). q.depth) o.tail_moved ∙ sq_advance-depth s.ring.sq;
                    taken = omega (arith, o.one_less);
                    cq_same = o.cq_same;
                    entries_same = o.entries_same;
                    log_grown = ([], refl);
                  };
                })
        ]
      ]
    ]

Posting-cases : (r : Posting) → ((s : RxIo) × (r ≡ stop s)) ⊎ ((s : RxIo) × (r ≡ posted s))
Posting-cases (stop s) = inl (s, refl)
Posting-cases (posted s) = inr (s, refl)

loop-stop :
    (fuel : ℕ) (alloc : Allocator) (count n : ℕ) (s s' : RxIo)
    → refill_round alloc count n s ≡ stop s'
    → refill_loop (suc fuel) alloc count n s ≡ some (n, s')
unfolding refill_loop
loop-stop fuel alloc count n s s' e = rw (e, refill_loop)

loop-posted :
    (fuel : ℕ) (alloc : Allocator) (count n : ℕ) (s s' : RxIo)
    → refill_round alloc count n s ≡ posted s'
    → refill_loop (suc fuel) alloc count n s ≡ refill_loop fuel alloc count (n + 1) s'
unfolding refill_loop
loop-posted fuel alloc count n s s' e = rw (e, refill_loop)

-- The loop ends: each buffer that it posts takes a request id.
loop_ends :
    (fuel : ℕ) (alloc : Allocator) (count n : ℕ) (s : RxIo)
    → RxInv s.ring
    → n ≤ count
    → s.ring.pool.count < fuel
    → (k : ℕ) × (s' : RxIo) × (refill_loop fuel alloc count n s ≡ some (n + k, s'))
      × (n + k ≤ count)
      × Refilled s k s'
loop_ends zero alloc count n s v le h = absurd (omega arith)
loop_ends (suc fuel) alloc count n s v le h = elim (Posting-cases (refill_round alloc count n s)) [
  | inl (s', p) ↦
      let (same, grown) = subst (After count n s) p (round-After alloc count n s v) in
      let none_posted : n ≡ n + 0 = omega arith in
      (
        0,
        s',
        loop-stop fuel alloc count n s s' p ∙ ap (λ m. some (m, s')) none_posted,
        omega arith,
        record {
          inv = rw same v;
          depth_same = ap (λ (r : Ring). r.sq.depth) same;
          taken = omega (arith, ap (λ (r : Ring). r.pool.count) same);
          cq_same = ap (λ (r : Ring). r.cq) same;
          entries_same = ap (λ (r : Ring). r.rx_cq) same;
          log_grown = grown;
        },
      )
  | inr (t, p) ↦
      let a = subst (After count n s) p (round-After alloc count n s v) in
      let (k, s', r, bound, x) =
        loop_ends fuel alloc count (n + 1) t a.one.inv (omega (arith, a.more))
          (omega (arith, a.one.taken)) in
      let shifted : (n + 1) + k ≡ n + (1 + k) = omega arith in
      (
        1 + k,
        s',
        loop-posted fuel alloc count n s t p ∙ r ∙ ap (λ m. some (m, s')) shifted,
        omega (arith, bound),
        record {
          inv = x.inv;
          depth_same = x.depth_same ∙ a.one.depth_same;
          taken = omega (arith, x.taken, a.one.taken);
          cq_same = x.cq_same ∙ a.one.cq_same;
          entries_same = x.entries_same ∙ a.one.entries_same;
          log_grown = Grown-trans a.one.log_grown x.log_grown;
        },
      )
]

-- A doorbell writes a register only.
doorbell-ring : (s : RxIo) → (rx_doorbell s).ring ≡ s.ring
unfolding rx_doorbell
doorbell-ring s = elim (Bool-cases (not s.ring.hw_valid || s.ring.sq.db == 0)) [
  | inl e ↦ rw e refl
  | inr e ↦ rw e refl
]

doorbell-log : (s : RxIo) → Grown s.log (rx_doorbell s).log
unfolding rx_doorbell
doorbell-log s = elim (Bool-cases (not s.ring.hw_valid || s.ring.sq.db == 0)) [
  | inl e ↦ rw e ([], refl)
  | inr e ↦ rw e (_ ∷ [], refl)
]

-- The number that a refill aims at.
abbrev pub goal_of : ℕ → Ring → ℕ
goal_of count r = if count == 0 then r.pool.count else count

-- On a receive ring that meets the invariant, `ena_rx_refill` returns, whatever the allocator
-- hands out: the number of buffers that it posted, at most `count`, or the free ids for a count of
-- 0. As many ids leave the pool, the invariant and the completion queue with its entries stay, and
-- effects only come on top of those before.
pub rx_refill-Refilled :
    (alloc : Allocator) (count : ℕ) (s : RxIo)
    → RxInv s.ring
    → (n : ℕ) × (s' : RxIo) × (rx_refill alloc count s ≡ some (ok n, s'))
      × (n ≤ goal_of count s.ring)
      × Refilled s n s'
unfolding rx_refill
rx_refill-Refilled alloc count s v =
    let direction : is_tx s.ring.ring_type ≡ false = ap is_tx v.direction in
    let (n, s', r, bound, x) =
      loop_ends (suc s.ring.pool.count) alloc (goal_of count s.ring) 0 s v (omega arith)
        (omega arith) in
    let same = doorbell-ring s' in
    let zero_on : 0 + n ≡ n = omega arith in
    (
      n,
      rx_doorbell s',
      simp (direction, r, zero_on),
      omega (arith, bound),
      record {
        inv = rw same x.inv;
        depth_same = ap (λ (q : Ring). q.sq.depth) same ∙ x.depth_same;
        taken = omega (arith, x.taken, ap (λ (q : Ring). q.pool.count) same);
        cq_same = ap (λ (q : Ring). q.cq) same ∙ x.cq_same;
        entries_same = ap (λ (q : Ring). q.rx_cq) same ∙ x.entries_same;
        log_grown = Grown-trans x.log_grown (doorbell-log s');
      },
    )
