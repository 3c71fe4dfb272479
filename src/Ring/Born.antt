-- ===== src/Ring/Born.antt =====
-- What a ring that `ena_ring_alloc` returns is.
use lib_ena.Prelude.{
  ℕ, ◌≡◌, refl, sym, ap, ◌∙◌, List, Bool, true, not, ◌||◌, inl, inr, ◌==◌, Bool-cases,
  length-replicate, arith,
}
use lib_ena.Status.{Result, ok, err, einval, err-ne-ok}
use lib_ena.Ring.{Ring, RingType, is_tx}
use lib_ena.Ring.Depth.{is_power_of_two, IsDepth}
use lib_ena.Ring.Lifecycle.{Heap, Blocks, or_undo, new_ring, ring_alloc}
use lib_ena.Ring.Fresh.{fresh-PoolInv}
use lib_ena.Ring.Lap.{CqInv}
use lib_ena.Ring.FreeList.{HasPool}
use lib_ena.Prelude.{replicate}

-- An outcome whose ring, if there is one, is `r`.
abbrev Gives : Ring → Result (Ring × Blocks) × Heap → Type 0
Gives r (err e, h) = Unit
Gives r (ok (r', b), h) = r' ≡ r

or_undo-Gives :
    (r : Ring) (x : ℕ × Heap) (blocks : List ℕ) (k : ℕ → Heap → Result (Ring × Blocks) × Heap)
    → ((p : ℕ) (h : Heap) → Gives r (k p h))
    → Gives r (or_undo x blocks k)
unfolding or_undo
or_undo-Gives r x blocks k next = elim (Bool-cases (x.0 == 0)) [
  | inl e ↦ rw e tt
  | inr e ↦ rw e (next x.0 x.1)
]

ring_alloc-Gives :
    (grants : ℕ → Bool) (qid sqd cqd : ℕ) (ty : RingType) (h : Heap)
    → Gives (new_ring qid ty sqd cqd) (ring_alloc grants qid ty sqd cqd h)
unfolding ring_alloc
ring_alloc-Gives grants qid sqd cqd ty h =
    elim (Bool-cases (not (is_power_of_two sqd) || not (is_power_of_two cqd))) [
      | inl e ↦ rw e tt
      | inr e ↦ rw e (
          or_undo-Gives (new_ring qid ty sqd cqd) _ _ _ λ p1 h1.
            or_undo-Gives (new_ring qid ty sqd cqd) _ _ _ λ p2 h2.
              or_undo-Gives (new_ring qid ty sqd cqd) _ _ _ λ p3 h3.
                or_undo-Gives (new_ring qid ty sqd cqd) _ _ _ λ p4 h4.
                  or_undo-Gives (new_ring qid ty sqd cqd) _ _ _ λ p5 h5.
                    or_undo-Gives (new_ring qid ty sqd cqd) _ _ _ λ p6 h6.
                      or_undo-Gives (new_ring qid ty sqd cqd) _ _ _ λ p7 h7.
                        elim (Bool-cases (not (is_tx ty))) [
                          | inl rx_ring ↦ rw rx_ring refl
                          | inr tx_ring ↦ rw tx_ring (
                              or_undo-Gives (new_ring qid ty sqd cqd) _ _ _ λ p8 h8.
                                or_undo-Gives (new_ring qid ty sqd cqd) _ _ _ λ p9 h9. refl)
                        ])
    ]

ring_alloc-refused :
    (grants : ℕ → Bool) (qid sqd cqd : ℕ) (ty : RingType) (h : Heap)
    → (not (is_power_of_two sqd) || not (is_power_of_two cqd)) ≡ true
    → ring_alloc grants qid ty sqd cqd h ≡ (err einval, h)
unfolding ring_alloc
ring_alloc-refused grants qid sqd cqd ty h bad = rw bad

module _ (grants : ℕ → Bool) (qid sqd cqd : ℕ) (ty : RingType) (h h' : Heap) (r : Ring) (b : Blocks)
    (e : ring_alloc grants qid ty sqd cqd h ≡ (ok (r, b), h')) where
  pub born : r ≡ new_ring qid ty sqd cqd
  born = rw e at (ring_alloc-Gives grants qid sqd cqd ty h)

  pub depths_ok : (is_power_of_two sqd ≡ true) × (is_power_of_two cqd ≡ true)
  depths_ok = elim (Bool-cases (not (is_power_of_two sqd) || not (is_power_of_two cqd))) [
    | inl bad ↦
        absurd
          (err-ne-ok (ap (λ o. o.0) (sym (ring_alloc-refused grants qid sqd cqd ty h bad) ∙ e)))
    | inr fine ↦ ground arith
  ]

-- The pool and the completion queue of a new ring.
module _ {sqd cqd : ℕ} (qid : ℕ) (ty : RingType) (ws : IsDepth sqd) (wc : IsDepth cqd) where
  pub new_ring-HasPool : HasPool (new_ring qid ty sqd cqd)
  unfolding new_ring
  new_ring-HasPool = fresh-PoolInv sqd (replicate sqd 0) ws (length-replicate sqd 0)

  pub new_ring-CqInv : CqInv (new_ring qid ty sqd cqd).cq
  unfolding new_ring
  new_ring-CqInv = record {
    depth_ok = wc;
    head_in = omega arith;
    phase_ok = omega (arith, wc.lower);
  }
