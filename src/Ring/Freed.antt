-- ===== src/Ring/Freed.antt =====
-- What frees leave of the live blocks, for the teardowns of the admin layer and of receive side
-- scaling (src/ena_admin.c and src/ena_rss.c).
use lib_ena.Prelude.{ℕ, ◌+◌, ◌≡◌, ap, List, [], ◌∷◌, ◌==◌, arith}
use lib_ena.Prelude.Flags.{bit}
use lib_ena.Ring.Window.{occ}
use lib_ena.Ring.Lifecycle.{Heap, erase, free_block, free_if}
use lib_ena.Ring.Leaks.{blocks_occ, occ-erase}

pub free_if-occ :
    (p : ℕ) (h : Heap) (rest : ℕ → ℕ)
    → ((x : ℕ) → occ x h.live ≡ blocks_occ x (p ∷ []) + rest x)
    → (x : ℕ) → occ x (free_if p h).live ≡ rest x
unfolding free_if free_block
free_if-occ p h rest b x = ground (arith, b x, b p, occ-erase p x h.live)

pub free_four-occ :
    (p q r t : ℕ) (h : Heap) (rest : ℕ → ℕ)
    → ((x : ℕ) → occ x h.live ≡ blocks_occ x (p ∷ q ∷ r ∷ t ∷ []) + rest x)
    → (x : ℕ) → occ x (free_if t (free_if r (free_if q (free_if p h)))).live ≡ rest x
free_four-occ p q r t h rest b x =
    let b1 =
      free_if-occ p h (λ y. blocks_occ y (q ∷ r ∷ t ∷ []) + rest y) (λ y. omega (arith, b y)) in
    let b2 =
      free_if-occ q (free_if p h) (λ y. blocks_occ y (r ∷ t ∷ []) + rest y)
        (λ y. omega (arith, b1 y)) in
    let b3 =
      free_if-occ r (free_if q (free_if p h)) (λ y. blocks_occ y (t ∷ []) + rest y)
        (λ y. omega (arith, b2 y)) in
    free_if-occ t (free_if r (free_if q (free_if p h))) rest b3 x

pub erased : (p : ℕ) (l after : List ℕ) → after ≡ p ∷ l → (x : ℕ) → occ x (erase p after) ≡ occ x l
erased p l after e x =
    let c : (y : ℕ) → occ y after ≡ bit (y == p) + occ y l = λ y. ap (occ y) e in
    omega (arith, c x, occ-erase p x after (ground (arith, c p)))

pub erased2 :
    (p q : ℕ) (l after : List ℕ)
    → after ≡ q ∷ p ∷ l
    → (x : ℕ) → occ x (erase q (erase p after)) ≡ occ x l
erased2 p q l after e x =
    let c : (y : ℕ) → occ y after ≡ bit (y == q) + (bit (y == p) + occ y l) = λ y. ap (occ y) e in
    let once : (y : ℕ) → occ y (erase p after) ≡ bit (y == q) + occ y l =
      λ y. omega (arith, c y, occ-erase p y after (ground (arith, c p))) in
    omega (arith, once x, occ-erase q x (erase p after) (ground (arith, once q)))
