-- ===== src/Netdev/Configured.antt =====
-- What `ena_netdev_txq_configure` leaves: no block is lost, and a queue that it returns is ready to send.
use lib_ena.Prelude.{
  ℕ, ◌≤◌, ◌≡◌, ◌≢◌, refl, sym, ap, ◌∙◌, Bool, true, false, true-ne-false, not, ◌&&◌, ◌||◌, ◌==◌,
  leb, Bool-cases, ◌⊎◌, inl, inr, none, some, List, [], replicate, length-replicate,
  get_or-replicate, length, length-set, get_or-set_self, arith,
}
use lib_ena.Status.{Result, ok, err}
use lib_ena.Ring.{Ring, tx}
use lib_ena.Ring.Depth.{IsDepth, is_power_of_two-IsDepth}
use lib_ena.Ring.Window.{occ}
use lib_ena.Ring.Lifecycle.{Heap, Blocks, grab, new_ring, ring_alloc}
use lib_ena.Ring.Leaks.{Outcome, ring_alloc-Outcome, grab_cases, one_of_block}
use lib_ena.Ring.Born.{born}
use lib_ena.Tx.Serve.{TxRing}
use lib_ena.Tx.Fresh.{ring_alloc-TxRing}
use lib_ena.Netdev.{TxQueue}
use lib_ena.Netdev.Slots.{none-ne-some}
use lib_ena.Netdev.Linked.{Linked}
use lib_ena.Netdev.Memory.{Backed, same-Backed}
use lib_ena.Netdev.Depth.{clamp_desc_count, clamp_desc_count-Clamped}
use lib_ena.Netdev.Released.{
  ring_here, Placed, Clean, drop_ring-Dropped, same_live-Placed, free_drop-Clean, drop_free-Clean,
}
use lib_ena.Netdev.Fresh.{no_read, calling-TxRing, fresh-Slots}
use lib_ena.Netdev.Configure.{
  TxPlace, with_heap, attach, alloc_map, alloc_slot_ids, alloc_slots, use_ring, alloc_ring,
  txq_configure,
}

-- A queue that is ready to send on a ring of so many descriptors: what a send asks for.
pub record Ready (rest : ℕ → ℕ) (queue_id depth : ℕ) (s : TxPlace) : Type 0 where
  pub placed : Placed rest queue_id s
  pub r : Ring
  pub here : ring_here queue_id s ≡ some r
  pub depth_is : r.sq.depth ≡ depth
  pub ring : TxRing r
  pub link : Linked s.queue r
  pub memory : Backed s.queue

-- A place whose ring has been built, with the memory of its slots or not yet.
record Built (rest : ℕ → ℕ) (queue_id depth : ℕ) (s : TxPlace) : Type 0 where
  placed : Placed rest queue_id s
  r : Ring
  here : ring_here queue_id s ≡ some r
  ring : TxRing r
  depth_is : r.sq.depth ≡ depth
  callback : r.tx_complete_cb ≡ true
  same_depth : s.queue.nb_desc ≡ depth

some-ne-none : (b : Blocks) → ¬ (some b ≡ none)
some-ne-none b e = cc

-- A configuration gives no queue and leaves a clean place, or a queue that is ready.
pub data Ending (rest : ℕ → ℕ) (queue_id depth : ℕ) (out : Bool × TxPlace) : Type 0 where
  refused : out.0 ≡ false → Clean rest queue_id out.1 → Ending rest queue_id depth out
  ready : out.0 ≡ true → Ready rest queue_id depth out.1 → Ending rest queue_id depth out

module _ (grants : ℕ → Bool) (phys : ℕ → ℕ) (rest : ℕ → ℕ) (queue_id depth : ℕ)
    (w : IsDepth depth) where
  alloc_map-Ending :
      (s : TxPlace)
      → Built rest queue_id depth s
      → Backed s.queue
      → s.map_block ≡ 0
      → Ending rest queue_id depth (alloc_map grants phys queue_id depth s)
  unfolding alloc_map
  alloc_map-Ending s v memory empty =
      let h = (grab grants s.adapter.heap).1 in
      let p = (grab grants s.adapter.heap).0 in
      elim (grab_cases grants s.adapter.heap) [
        | inl n ↦
            let z : (p == 0) ≡ true = ground (arith, n.0) in
            rw z (
              refused refl (
                drop_free-Clean rest queue_id (with_heap h s)
                  (same_live-Placed rest queue_id s h n.1 v.placed)))
        | inr g ↦
            let z : (p == 0) ≡ false = ground (arith, g.0) in
            rw z (
              ready refl (record {
                placed = record {
                  accounted = λ x.
                      ground
                        (arith, v.placed.accounted x, empty, ap (occ x) g.1, one_of_block x g.0);
                  rooted = v.placed.rooted;
                  no_ring = v.placed.no_ring;
                  in_range = v.placed.in_range;
                };
                r = v.r;
                here = v.here;
                depth_is = v.depth_is;
                ring = v.ring;
                link = record {
                  slots = fresh-Slots depth s w v.same_depth;
                  same_depth = v.same_depth ∙ sym v.depth_is;
                  flying = λ id slot e. absurd (none-ne-some (sym (no_read depth id) ∙ e));
                  callback = v.callback;
                };
                memory = same-Backed s.queue _ (record { slots = refl; nb_desc = refl }) memory;
              }))
      ]

  alloc_slot_ids-Ending :
      (s : TxPlace)
      → Built rest queue_id depth s
      → Backed s.queue
      → (s.ids_block ≡ 0) × (s.map_block ≡ 0)
      → Ending rest queue_id depth (alloc_slot_ids grants phys queue_id depth s)
  unfolding alloc_slot_ids
  alloc_slot_ids-Ending s v memory empty =
      let h = (grab grants s.adapter.heap).1 in
      let p = (grab grants s.adapter.heap).0 in
      elim (grab_cases grants s.adapter.heap) [
        | inl n ↦
            let z : (p == 0) ≡ true = ground (arith, n.0) in
            rw z (
              refused refl (
                drop_free-Clean rest queue_id (with_heap h s)
                  (same_live-Placed rest queue_id s h n.1 v.placed)))
        | inr g ↦
            let z : (p == 0) ≡ false = ground (arith, g.0) in
            rw z (
              alloc_map-Ending (record (with_heap h s) { ids_block = p })
                (record {
                  placed = record {
                    accounted = λ x.
                        ground (
                          arith,
                          v.placed.accounted x,
                          empty.0,
                          ap (occ x) g.1,
                          one_of_block x g.0,
                        );
                    rooted = v.placed.rooted;
                    no_ring = v.placed.no_ring;
                    in_range = v.placed.in_range;
                  };
                  r = v.r;
                  here = v.here;
                  ring = v.ring;
                  depth_is = v.depth_is;
                  callback = v.callback;
                  same_depth = v.same_depth;
                })
                memory empty.1)
      ]

  alloc_slots-Ending :
      (s : TxPlace)
      → Built rest queue_id depth s
      → (s.queue.bounce_buf ≡ 0) × (s.ids_block ≡ 0) × (s.map_block ≡ 0)
      → Ending rest queue_id depth (alloc_slots grants phys queue_id depth s)
  unfolding alloc_slots
  alloc_slots-Ending s v empty =
      let h = (grab grants s.adapter.heap).1 in
      let p = (grab grants s.adapter.heap).0 in
      elim (grab_cases grants s.adapter.heap) [
        | inl n ↦
            let z : (p == 0) ≡ true = ground (arith, n.0) in
            let d =
              drop_ring-Dropped rest queue_id (with_heap h s) v.placed.rooted v.placed.no_ring
                (λ x. ground (arith, v.placed.accounted x, empty.0, empty.1, ap (occ x) n.1)) in
            rw z (
              refused refl (record {
                live = d.live;
                no_slots = (
                  ap (λ (q : TxQueue). q.bounce_buf) d.queue_same ∙ empty.0,
                  d.ids_same ∙ empty.1,
                  d.map_same ∙ empty.2,
                );
                no_blocks = d.no_blocks;
                no_ring = d.no_ring;
                in_range = omega (arith, d.length_same, v.placed.in_range);
              }))
        | inr g ↦
            let z : (p == 0) ≡ false = ground (arith, g.0) in
            let page : List ℕ = replicate 4096 0 in
            rw z (
              alloc_slot_ids-Ending _
                (record {
                  placed = record {
                    accounted = λ x.
                        ground (
                          arith,
                          v.placed.accounted x,
                          empty.0,
                          ap (occ x) g.1,
                          one_of_block x g.0,
                        );
                    rooted = v.placed.rooted;
                    no_ring = v.placed.no_ring;
                    in_range = v.placed.in_range;
                  };
                  r = v.r;
                  here = v.here;
                  ring = v.ring;
                  depth_is = v.depth_is;
                  callback = v.callback;
                  same_depth = v.same_depth;
                })
                (record {
                  many = length-replicate depth page ∙ sym v.same_depth;
                  sized = λ slot lt.
                      ap length
                        (get_or-replicate depth slot page [] (omega (arith, lt, v.same_depth)))
                      ∙ length-replicate {A = ℕ} 4096 0;
                })
                (empty.1, empty.2))
      ]

  attached-Built :
      (s : TxPlace) (h : Heap) (r : Ring) (b : Blocks)
      → Clean rest queue_id s
      → ring_alloc grants queue_id tx depth depth s.adapter.heap ≡ (ok (r, b), h)
      → Outcome s.adapter.heap (ok (r, b), h)
      → Built rest queue_id depth (attach queue_id depth r b (with_heap h s))
  unfolding new_ring
  attached-Built s h r b v e o =
      let below = w.upper in
      let fresh =
        ring_alloc-TxRing grants queue_id depth depth s.adapter.heap h r b below below e in
      let called : Ring = record r { tx_complete_cb = true } in
      record {
        placed = record {
          accounted = λ x. ground (arith, o.1 x, v.live x, v.no_slots);
          rooted = o.0;
          no_ring = λ n. absurd (some-ne-none b n);
          in_range =
              omega (arith, length-set s.adapter.tx_rings queue_id (some called), v.in_range);
        };
        r = called;
        here = get_or-set_self s.adapter.tx_rings queue_id (some called) none v.in_range;
        ring = calling-TxRing r fresh;
        depth_is =
            ap (λ (q : Ring). q.sq.depth)
              (born grants queue_id depth depth tx s.adapter.heap h r b e);
        callback = refl;
        same_depth = refl;
      }

  use_ring-Ending :
      (s : TxPlace) (x : Result (Ring × Blocks) × Heap)
      → ring_alloc grants queue_id tx depth depth s.adapter.heap ≡ x
      → Outcome s.adapter.heap x
      → Clean rest queue_id s
      → Ending rest queue_id depth (use_ring grants phys queue_id depth s x)
  unfolding use_ring
  use_ring-Ending s (err e, h) eq o v = refused refl (record {
    live = λ x. o x ∙ v.live x;
    no_slots = v.no_slots;
    no_blocks = v.no_blocks;
    no_ring = v.no_ring;
    in_range = v.in_range;
  })
  use_ring-Ending s (ok (r, b), h) eq o v =
      alloc_slots-Ending _ (attached-Built s h r b v eq o) v.no_slots

  alloc_ring-Ending :
      (s : TxPlace)
      → Clean rest queue_id s
      → Ending rest queue_id depth (alloc_ring grants phys queue_id depth s)
  unfolding alloc_ring
  alloc_ring-Ending s v =
      let h = s.adapter.heap in
      use_ring-Ending s (ring_alloc grants queue_id tx depth depth h) refl
        (ring_alloc-Outcome grants queue_id depth depth tx h) v

-- When a configuration is refused at once: the device runs, or there is no such queue.
abbrev pub Refuses : ℕ → Bool → ℕ → ℕ → Type 0
Refuses max_queues running num queue_id =
    (running ≡ true) ⊎ ((max_queues ≤ queue_id) ⊎ ((num ≢ 0) × (num ≤ queue_id)))

no_queue :
    (max_queues num queue_id : ℕ)
    → (leb max_queues queue_id || (not (num == 0) && leb num queue_id)) ≡ true
    → (max_queues ≤ queue_id) ⊎ ((num ≢ 0) × (num ≤ queue_id))
no_queue max_queues num queue_id e = elim (Bool-cases (leb max_queues queue_id)) [
  | inl f ↦ inl (ground (arith, f))
  | inr f ↦ inr (ground (arith, e, f), ground (arith, e, f))
]

Refuses-not :
    (max_queues : ℕ) (running : Bool) (num queue_id : ℕ)
    → (leb max_queues queue_id || (not (num == 0) && leb num queue_id)) ≡ false
    → running ≡ false
    → ¬ Refuses max_queues running num queue_id
Refuses-not max_queues running num queue_id e f r = elim r [
  | inl g ↦ true-ne-false (sym g ∙ f)
  | inr (inl g) ↦ ground (arith, e, g)
  | inr (inr g) ↦ ground (arith, e, g.0, g.1)
]

-- The number of descriptors of a configuration.
abbrev pub depth_for : ℕ → TxPlace → ℕ
depth_for nb_desc s = clamp_desc_count nb_desc s.adapter.attributes.max_tx_ring_size

-- On a place in order, whose live blocks are its own and any others: `ena_netdev_txq_configure` changes
-- nothing if the device runs or there is no such queue. Else it frees what the place had, each block
-- once and no other, and whichever allocation fails, it returns no queue and leaves no block and no ring
-- there; or it returns a queue that has its blocks and is ready to send: the ring of the clamped depth
-- meets its invariant and calls the queue, every slot of the queue is free, and its memory is there.
pub txq_configure-Ending :
    (grants : ℕ → Bool) (phys : ℕ → ℕ) (rest : ℕ → ℕ) (max_queues : ℕ) (running : Bool)
    (queue_id nb_desc : ℕ) (s : TxPlace)
    → Placed rest queue_id s
    → Refuses max_queues running s.adapter.num_tx_rings queue_id
        × (txq_configure grants phys max_queues running queue_id nb_desc s ≡ (false, s))
      ⊎ (¬ Refuses max_queues running s.adapter.num_tx_rings queue_id)
        × Ending rest queue_id
            (depth_for nb_desc s)
            (txq_configure grants phys max_queues running queue_id nb_desc s)
unfolding txq_configure
txq_configure-Ending grants phys rest max_queues running queue_id nb_desc s v =
    let num = s.adapter.num_tx_rings in
    let fit = clamp_desc_count-Clamped nb_desc s.adapter.attributes.max_tx_ring_size in
    let w = is_power_of_two-IsDepth _ (omega (arith, fit.upper)) fit.accepted in
    elim (Bool-cases (leb max_queues queue_id || (not (num == 0) && leb num queue_id))) [
      | inl e ↦ inl (inr (no_queue max_queues num queue_id e), rw e refl)
      | inr e ↦ elim (Bool-cases running) [
        | inl f ↦ inl (inl f, rw (e, f) refl)
        | inr f ↦ inr (
          Refuses-not max_queues running num queue_id e f,
          rw (e, f)
              (alloc_ring-Ending grants phys rest queue_id (depth_for nb_desc s) w _
                (free_drop-Clean rest queue_id s v)),
        )
      ]
    ]
