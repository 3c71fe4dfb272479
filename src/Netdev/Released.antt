-- ===== src/Netdev/Released.antt =====
-- What the release of a transmit queue does to the blocks of its place (`ena_netdev_free_txq_bounce`,
-- `ena_ring_free`).
use mathlib.Core.Path.{subst}
use lib_ena.Prelude.{
  ℕ, zero, suc, ◌+◌, ◌<◌, ◌≡◌, ◌≢◌, refl, sym, ap, ◌∙◌, inl, inr, Option, Option-cases, none, some,
  List, [], ◌∷◌, length, length-set, get_or, set, arith,
}
use lib_ena.Ring.{Ring}
use lib_ena.Ring.Window.{occ}
use lib_ena.Ring.Lifecycle.{Heap, Blocks, free_if}
use lib_ena.Ring.Leaks.{of_blocks, blocks_occ, ring_free-occ}
use lib_ena.Ring.Freed.{free_if-occ}
use lib_ena.Netdev.{TxQueue}
use lib_ena.Netdev.Configure.{TxPlace, with_heap, free_txq_bounce, drop_ring, without_ring}

-- The blocks of a ring, if there is one, and of a place.
abbrev pub ring_blocks : Option Blocks → List ℕ
ring_blocks none = []
ring_blocks (some b) = of_blocks b

abbrev pub slot_blocks : TxPlace → List ℕ
slot_blocks s = s.queue.bounce_buf ∷ s.ids_block ∷ s.map_block ∷ []

-- A ring has a block of its own.
abbrev pub Rooted : Option Blocks → Type 0
Rooted none = Unit
Rooted (some b) = b.ring ≢ 0

-- The ring that the adapter has at a place.
abbrev pub ring_here : ℕ → TxPlace → Option Ring
ring_here queue_id s = get_or s.adapter.tx_rings queue_id none

-- The live blocks are those of the place and others, `rest` saying how often each stands among the
-- others.
abbrev pub Accounted : (ℕ → ℕ) → TxPlace → Type 0
Accounted rest s =
    (x : ℕ)
    → occ x s.adapter.heap.live
      ≡ blocks_occ x (slot_blocks s) + (blocks_occ x (ring_blocks s.blocks) + rest x)

-- A place in order, whether it has a queue or not.
pub record Placed (rest : ℕ → ℕ) (queue_id : ℕ) (s : TxPlace) : Type 0 where
  pub accounted : Accounted rest s
  pub rooted : Rooted s.blocks
  pub no_ring : s.blocks ≡ none → ring_here queue_id s ≡ none
  pub in_range : queue_id < length s.adapter.tx_rings

-- A place with no queue: it has no block, and the adapter no ring there.
pub record Clean (rest : ℕ → ℕ) (queue_id : ℕ) (s : TxPlace) : Type 0 where
  pub live : (x : ℕ) → occ x s.adapter.heap.live ≡ rest x
  pub no_slots : (s.queue.bounce_buf ≡ 0) × (s.ids_block ≡ 0) × (s.map_block ≡ 0)
  pub no_blocks : s.blocks ≡ none
  pub no_ring : ring_here queue_id s ≡ none
  pub in_range : queue_id < length s.adapter.tx_rings

-- What the drop of a ring does.
pub record Dropped (rest : ℕ → ℕ) (queue_id : ℕ) (s s' : TxPlace) : Type 0 where
  pub live : (x : ℕ) → occ x s'.adapter.heap.live ≡ rest x
  pub no_blocks : s'.blocks ≡ none
  pub no_ring : ring_here queue_id s' ≡ none
  pub length_same : length s'.adapter.tx_rings ≡ length s.adapter.tx_rings
  pub queue_same : s'.queue ≡ s.queue
  pub ids_same : s'.ids_block ≡ s.ids_block
  pub map_same : s'.map_block ≡ s.map_block
  pub slots_same : slot_blocks s' ≡ slot_blocks s

none_put : (xs : List (Option Ring)) (i : ℕ) → get_or (set xs i none) i none ≡ none
none_put [] i = refl
none_put (x ∷ xs) zero = refl
none_put (x ∷ xs) (suc i) = none_put xs i

pub drop_ring-Dropped :
    (rest : ℕ → ℕ) (queue_id : ℕ) (s : TxPlace)
    → Rooted s.blocks
    → (s.blocks ≡ none → ring_here queue_id s ≡ none)
    → ((x : ℕ) → occ x s.adapter.heap.live ≡ blocks_occ x (ring_blocks s.blocks) + rest x)
    → Dropped rest queue_id s (drop_ring queue_id s)
unfolding drop_ring
drop_ring-Dropped rest queue_id s root absent live =
    let at : (o : Option Blocks)
        → s.blocks ≡ o
        → (x : ℕ) → occ x s.adapter.heap.live ≡ blocks_occ x (ring_blocks o) + rest x =
      λ o e x. live x ∙ ap (λ o'. blocks_occ x (ring_blocks o') + rest x) e in
    elim (Option-cases s.blocks) [
      | inl e ↦ subst (Dropped rest queue_id s) (ap (without_ring queue_id s) (sym e)) (record {
        live = λ x. omega (arith, at none e x);
        no_blocks = e;
        no_ring = absent e;
        length_same = refl;
        queue_same = refl;
        ids_same = refl;
        map_same = refl;
        slots_same = refl;
      })
      | inr (b, e) ↦
          subst (Dropped rest queue_id s) (ap (without_ring queue_id s) (sym e)) (record {
            live = ring_free-occ b s.adapter.heap rest (subst Rooted e root) (at (some b) e);
            no_blocks = refl;
            no_ring = none_put s.adapter.tx_rings queue_id;
            length_same = length-set s.adapter.tx_rings queue_id none;
            queue_same = refl;
            ids_same = refl;
            map_same = refl;
            slots_same = refl;
          })
    ]

-- What the release of the slots does to the heap.
free_slots-occ :
    (rest : ℕ → ℕ) (s : TxPlace)
    → ((x : ℕ) → occ x s.adapter.heap.live ≡ blocks_occ x (slot_blocks s) + rest x)
    → (x : ℕ) → occ x (free_txq_bounce s).adapter.heap.live ≡ rest x
unfolding free_txq_bounce
free_slots-occ rest s live =
    let p = s.queue.bounce_buf in
    let q = s.ids_block in
    let r = s.map_block in
    let h = s.adapter.heap in
    let b1 =
      free_if-occ p h (λ y. blocks_occ y (q ∷ r ∷ []) + rest y) (λ y. omega (arith, live y)) in
    let b2 =
      free_if-occ q (free_if p h) (λ y. blocks_occ y (r ∷ []) + rest y)
        (λ y. omega (arith, b1 y)) in
    free_if-occ r (free_if q (free_if p h)) rest b2

-- A place in order after the release of its slots, and of its ring, in either order.
module _ (rest : ℕ → ℕ) (queue_id : ℕ) (s : TxPlace) (v : Placed rest queue_id s) where
  pub free_drop-Clean : Clean rest queue_id (free_txq_bounce (drop_ring queue_id s))
  unfolding free_txq_bounce
  free_drop-Clean =
      let d =
        drop_ring-Dropped (λ x. blocks_occ x (slot_blocks s) + rest x) queue_id s v.rooted v.no_ring
          (λ x. omega (arith, v.accounted x)) in
      record {
        live =
            free_slots-occ rest (drop_ring queue_id s)
              (λ x. d.live x ∙ ap (λ l. blocks_occ x l + rest x) (sym d.slots_same));
        no_slots = (refl, refl, refl);
        no_blocks = d.no_blocks;
        no_ring = d.no_ring;
        in_range = omega (arith, d.length_same, v.in_range);
      }

  pub drop_free-Clean : Clean rest queue_id (drop_ring queue_id (free_txq_bounce s))
  unfolding free_txq_bounce
  drop_free-Clean =
      let d =
        drop_ring-Dropped rest queue_id (free_txq_bounce s) (v.rooted) (v.no_ring)
          (free_slots-occ (λ x. blocks_occ x (ring_blocks s.blocks) + rest x) s v.accounted) in
      record {
        live = d.live;
        no_slots = (ap (λ (q : TxQueue). q.bounce_buf) d.queue_same, d.ids_same, d.map_same);
        no_blocks = d.no_blocks;
        no_ring = d.no_ring;
        in_range = omega (arith, d.length_same, v.in_range);
      }

-- An allocation that fails.
pub same_live-Placed :
    (rest : ℕ → ℕ) (queue_id : ℕ) (s : TxPlace) (h : Heap)
    → h.live ≡ s.adapter.heap.live
    → Placed rest queue_id s
    → Placed rest queue_id (with_heap h s)
same_live-Placed rest queue_id s h e v = record {
  accounted = λ x. ap (occ x) e ∙ v.accounted x;
  rooted = v.rooted;
  no_ring = v.no_ring;
  in_range = v.in_range;
}
