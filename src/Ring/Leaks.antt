-- ===== src/Ring/Leaks.antt =====
-- `ena_ring_alloc` leaks nothing on any failure, and `ena_ring_free` undoes a success.
use mathlib.Core.Path.{subst}
use lib_ena.Prelude.{
  ℕ, ◌+◌, ◌≤◌, ◌≡◌, ◌≢◌, refl, ap, ◌∙◌, List, [], ◌∷◌, Bool, true, false, not, ◌||◌, ◌⊎◌, inl, inr,
  ◌==◌, if◌then◌else◌, Bool-cases, arith,
}
use lib_ena.Prelude.Flags.{bit}
use lib_ena.Status.{Result, ok, err}
use lib_ena.Ring.{Ring, RingType, is_tx}
use lib_ena.Ring.Depth.{is_power_of_two}
use lib_ena.Ring.Window.{occ}
use lib_ena.Ring.Lifecycle.{
  Heap, Blocks, erase, free_block, free_all, free_if, grab, or_undo, ring_alloc, ring_free,
}

-- The live blocks of `h` are those of `h0` and the blocks of a list.
abbrev Balanced : Heap → List ℕ → Heap → Type 0
Balanced h0 owned h = (x : ℕ) → occ x h.live ≡ occ x owned + occ x h0.live

-- How often a block stands among the blocks of a ring.
abbrev one_of : ℕ → ℕ → ℕ
one_of x p = if p == 0 then 0 else bit (x == p)

abbrev pub of_blocks : Blocks → List ℕ
of_blocks b =
    b.sq_head_wb ∷ b.in_flight ∷ b.allocated ∷ b.foreign ∷ b.bufs ∷ b.ids ∷ b.cq ∷ b.sq ∷ b.ring
    ∷ []

abbrev pub blocks_occ : ℕ → List ℕ → ℕ
blocks_occ x [] = 0
blocks_occ x (p ∷ ps) = one_of x p + blocks_occ x ps

-- What an allocation leaves: after a failure the live blocks of before, after a success those and
-- the blocks of the ring.
abbrev pub Outcome : Heap → Result (Ring × Blocks) × Heap → Type 0
Outcome h0 (err e, h) = (x : ℕ) → occ x h.live ≡ occ x h0.live
Outcome h0 (ok (r, b), h) =
    (b.ring ≢ 0) × ((x : ℕ) → occ x h.live ≡ blocks_occ x (of_blocks b) + occ x h0.live)

pub occ-erase : (p x : ℕ) (l : List ℕ) → 1 ≤ occ p l → occ x (erase p l) + bit (x == p) ≡ occ x l
unfolding erase
occ-erase p x [] h = absurd (omega arith)
occ-erase p x (y ∷ l) h = elim (Bool-cases (p == y)) [
  | inl e ↦ rw e (ground arith)
  | inr e ↦ rw e (ground (arith, occ-erase p x l))
]

free_all-occ :
    (ps : List ℕ) (h : Heap) (rest : ℕ → ℕ)
    → ((x : ℕ) → occ x h.live ≡ occ x ps + rest x)
    → (x : ℕ) → occ x (free_all ps h).live ≡ rest x
unfolding free_all free_block
free_all-occ [] h rest b x = omega (arith, b x)
free_all-occ (p ∷ ps) h rest b x =
    free_all-occ ps (free_block h p) rest (λ y. ground (arith, b y, b p, occ-erase p y h.live)) x

pub grab_cases :
    (grants : ℕ → Bool) (h : Heap)
    → ((grab grants h).0 ≡ 0) × ((grab grants h).1.live ≡ h.live)
      ⊎ ((grab grants h).0 ≢ 0) × ((grab grants h).1.live ≡ (grab grants h).0 ∷ h.live)
unfolding grab
grab_cases grants h = ground arith

pub one_of_block : (x : ℕ) {p : ℕ} → p ≢ 0 → one_of x p ≡ bit (x == p)
one_of_block x {p} n = ground arith

module _ (grants : ℕ → Bool) (h0 : Heap) where
  stage :
      (h : Heap) (owned blocks : List ℕ) (k : ℕ → Heap → Result (Ring × Blocks) × Heap)
      → Balanced h0 owned h
      → ((x : ℕ) → occ x blocks ≡ occ x owned)
      → ((p : ℕ) (h' : Heap) → p ≢ 0 → Balanced h0 (p ∷ owned) h' → Outcome h0 (k p h'))
      → Outcome h0 (or_undo (grab grants h) blocks k)
  unfolding or_undo
  stage h owned blocks k b same next = elim (grab_cases grants h) [
    | inl null ↦
        let e : ((grab grants h).0 == 0) ≡ true = ground (arith, null.0) in
        rw e (
          free_all-occ blocks (grab grants h).1 (λ x. occ x h0.live)
            (λ x. omega (arith, b x, same x, ap (occ x) null.1)))
    | inr got ↦
        let e : ((grab grants h).0 == 0) ≡ false = ground (arith, got.0) in
        rw e (
          next (grab grants h).0 (grab grants h).1 got.0
            (λ x. omega (arith, b x, ap (occ x) got.1)))
  ]

-- A failed `ena_ring_alloc` leaves exactly the live blocks of before, whichever allocation failed;
-- a success leaves the blocks of the ring besides, and the block of the ring itself is not NULL.
pub ring_alloc-Outcome :
    (grants : ℕ → Bool) (qid sq_depth cq_depth : ℕ) (ty : RingType) (h : Heap)
    → Outcome h (ring_alloc grants qid ty sq_depth cq_depth h)
unfolding ring_alloc
ring_alloc-Outcome grants qid sqd cqd ty h =
    elim (Bool-cases (not (is_power_of_two sqd) || not (is_power_of_two cqd))) [
      | inl e ↦ rw e (λ x. refl)
      | inr e ↦ rw e (
          stage grants h h [] [] _ (λ x. omega arith) (λ x. refl)
            λ p1 h1 n1 b1.
              stage grants h h1 (p1 ∷ []) (p1 ∷ []) _ b1 (λ x. refl)
                λ p2 h2 n2 b2.
                  stage grants h h2 (p2 ∷ p1 ∷ []) (p2 ∷ p1 ∷ []) _ b2 (λ x. refl)
                    λ p3 h3 n3 b3.
                      stage grants h h3 (p3 ∷ p2 ∷ p1 ∷ []) (p3 ∷ p2 ∷ p1 ∷ []) _ b3 (λ x. refl)
                        λ p4 h4 n4 b4.
                          stage grants h h4 (p4 ∷ p3 ∷ p2 ∷ p1 ∷ []) (p4 ∷ p3 ∷ p2 ∷ p1 ∷ []) _ b4
                            (λ x. refl)
                            λ p5 h5 n5 b5.
                              stage grants h h5 (p5 ∷ p4 ∷ p3 ∷ p2 ∷ p1 ∷ [])
                                (p5 ∷ p4 ∷ p3 ∷ p2 ∷ p1 ∷ []) _ b5 (λ x. refl)
                                λ p6 h6 n6 b6.
                                  stage grants h h6 (p6 ∷ p5 ∷ p4 ∷ p3 ∷ p2 ∷ p1 ∷ [])
                                    (p6 ∷ p5 ∷ p4 ∷ p3 ∷ p2 ∷ p1 ∷ []) _ b6 (λ x. refl)
                                    λ p7 h7 n7 b7. elim (Bool-cases (not (is_tx ty))) [
                                      | inl rx_ring ↦ rw rx_ring (
                                        n1,
                                        λ x. omega (
                                          arith,
                                          b7 x,
                                          one_of_block x n1,
                                          one_of_block x n2,
                                          one_of_block x n3,
                                          one_of_block x n4,
                                          one_of_block x n5,
                                          one_of_block x n6,
                                          one_of_block x n7,
                                        ),
                                      )
                                      | inr tx_ring ↦ rw tx_ring (
                                          stage grants h h7 (p7 ∷ p6 ∷ p5 ∷ p4 ∷ p3 ∷ p2 ∷ p1 ∷ [])
                                            (p6 ∷ p7 ∷ p5 ∷ p4 ∷ p3 ∷ p2 ∷ p1 ∷ []) _ b7
                                            (λ x. omega arith)
                                            λ p8 h8 n8 b8.
                                              stage grants h h8
                                                (p8 ∷ p7 ∷ p6 ∷ p5 ∷ p4 ∷ p3 ∷ p2 ∷ p1 ∷ [])
                                                (p8 ∷ p7 ∷ p6 ∷ p5 ∷ p4 ∷ p3 ∷ p2 ∷ p1 ∷ []) _ b8
                                                (λ x. refl)
                                                λ p9 h9 n9 b9. (
                                                  n1,
                                                  λ x. omega (
                                                    arith,
                                                    b9 x,
                                                    one_of_block x n1,
                                                    one_of_block x n2,
                                                    one_of_block x n3,
                                                    one_of_block x n4,
                                                    one_of_block x n5,
                                                    one_of_block x n6,
                                                    one_of_block x n7,
                                                    one_of_block x n8,
                                                    one_of_block x n9,
                                                  ),
                                                ))
                                    ])
    ]

-- Freeing what is not NULL, in order.
free_ifs : List ℕ → Heap → Heap
free_ifs [] h = h
free_ifs (p ∷ ps) h = free_ifs ps (free_if p h)

free_ifs-occ :
    (ps : List ℕ) (h : Heap) (rest : ℕ → ℕ)
    → ((x : ℕ) → occ x h.live ≡ blocks_occ x ps + rest x)
    → (x : ℕ) → occ x (free_ifs ps h).live ≡ rest x
unfolding free_ifs free_if free_block
free_ifs-occ [] h rest b x = omega (arith, b x)
free_ifs-occ (p ∷ ps) h rest b x =
    free_ifs-occ ps (free_if p h) rest (λ y. ground (arith, b y, b p, occ-erase p y h.live)) x

ring_free-free_ifs : (b : Blocks) (h : Heap) → b.ring ≢ 0 → ring_free b h ≡ free_ifs (of_blocks b) h
unfolding ring_free free_ifs free_if free_block
ring_free-free_ifs b h n = let e : (b.ring == 0) ≡ false = ground arith in rw (e, free_if)

pub ring_free-occ :
    (b : Blocks) (h : Heap) (rest : ℕ → ℕ)
    → b.ring ≢ 0
    → ((x : ℕ) → occ x h.live ≡ blocks_occ x (of_blocks b) + rest x)
    → (x : ℕ) → occ x (ring_free b h).live ≡ rest x
ring_free-occ b h rest n live x =
    ap (λ (g : Heap). occ x g.live) (ring_free-free_ifs b h n)
    ∙ free_ifs-occ (of_blocks b) h rest live x

-- After an `ena_ring_alloc` that succeeds, `ena_ring_free` of its ring leaves the live blocks of
-- before the allocation.
pub ring_free-ring_alloc :
    (grants : ℕ → Bool) (qid sq_depth cq_depth : ℕ) (ty : RingType) (h h' : Heap) (r : Ring)
    (b : Blocks)
    → ring_alloc grants qid ty sq_depth cq_depth h ≡ (ok (r, b), h')
    → (x : ℕ) → occ x (ring_free b h').live ≡ occ x h.live
ring_free-ring_alloc grants qid sqd cqd ty h h' r b e x =
    let o = subst (Outcome h) e (ring_alloc-Outcome grants qid sqd cqd ty h) in
    ring_free-occ b h' (λ y. occ y h.live) o.0 o.1 x
