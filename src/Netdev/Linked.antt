-- ===== src/Netdev/Linked.antt =====
-- A transmit queue beside its ring: what the completions of a poll make of the bounce slots.
use mathlib.Core.Path.{subst}
use lib_ena.Prelude.{
  ℕ, zero, suc, ◌+◌, ◌<◌, ◌≡◌, ◌≢◌, refl, sym, ap, ◌∙◌, true, false, not, ◌&&◌, ◌==◌, ltb, leb,
  ◌||◌, bit_and, Bool-cases, Option-cases, inl, inr, none, some, some_injective, List, is_null,
  is_null-length, get_or, set, get_or-set_self, get_or-set_ne, arith,
}
use lib_ena.Ring.{Ring, Io, Effect, TxCdesc}
use lib_ena.Ring.Ids.{req_id_free, slot_clear, slot_clear-tx, slot_clear-rx}
use lib_ena.Admin.Invalidate.{ring_type-cases}
use lib_ena.Tx.Poll.{
  Round, stop, next, no_foreign, clear_netbuf, netbuf_of, reclaim, drop_entry, drain_from,
  drain_foreign_frees, tx_entry, tx_complete_one, tx_poll_round, tx_poll_loop,
}
use lib_ena.Tx.Inv.{TxInv}
use lib_ena.Tx.Complete.{told, freed, complete_split, complete-Completed}
use lib_ena.Tx.Round.{After, round-After, Round-cases, loop-zero, loop-stop, loop-next}
use lib_ena.Netdev.{TxQueue}
use lib_ena.Netdev.Bounce.{give_slot, push_slot, note_use, reclaim_slot, called, waited}
use lib_ena.Netdev.Slots.{Maps, Slots, none-ne-some, polls-Slots, give-Slots}

-- The slots are in order, and only a request in flight holds one.
pub record Linked (q : TxQueue) (r : Ring) : Type 0 where
  pub slots : Slots q
  pub same_depth : q.nb_desc ≡ r.sq.depth
  pub flying : (id slot : ℕ) → Maps q id slot → get_or r.in_flight id false ≡ true
  pub callback : r.tx_complete_cb ≡ true

-- A request that holds no slot holds none after any change of its flag.
landed_other :
    (q : TxQueue) (r : Ring) (id j slot : ℕ)
    → Linked q r
    → id ≢ j
    → Maps q j slot
    → get_or (set r.in_flight id false) j false ≡ true
landed_other q r id j slot v ne m =
    get_or-set_ne r.in_flight id j false false ne ∙ v.flying j slot m

give_map : (id slot : ℕ) (q : TxQueue) → (give_slot id slot q).bounce_map ≡ set q.bounce_map id none
unfolding give_slot push_slot note_use
give_map id slot q = elim (Bool-cases (not (is_null q.bounce_free_ids) && ltb 0 q.nb_desc)) [
  | inl e ↦ rw e refl
  | inr e ↦ rw e refl
]

give_depth : (id slot : ℕ) (q : TxQueue) → (give_slot id slot q).nb_desc ≡ q.nb_desc
unfolding give_slot push_slot note_use
give_depth id slot q = elim (Bool-cases (not (is_null q.bounce_free_ids) && ltb 0 q.nb_desc)) [
  | inl e ↦ rw e refl
  | inr e ↦ rw e refl
]

-- The callback of a completion keeps the link with a ring whose request has landed.
pub reclaim-Linked :
    (q : TxQueue) (r r' : Ring) (id : ℕ)
    → Linked q r
    → id < r.sq.depth
    → r'.in_flight ≡ set r.in_flight id false
    → r'.sq.depth ≡ r.sq.depth
    → r'.tx_complete_cb ≡ r.tx_complete_cb
    → Linked (reclaim_slot id q) r'
unfolding reclaim_slot
reclaim-Linked q r r' id v h fl d cb =
    let inside : id < q.nb_desc = omega (arith, v.same_depth) in
    let has_map : is_null q.bounce_map ≡ false =
      is_null-length q.bounce_map (omega (arith, v.slots.map_length)) in
    let in_range : leb q.nb_desc id ≡ false = ground arith in
    elim (Option-cases (get_or q.bounce_map id none)) [
      | inl e ↦
          rw (has_map, in_range, e)
            (record {
              slots = v.slots;
              same_depth = v.same_depth ∙ sym d;
              flying = λ j slot m. rw fl (
                  landed_other q r id j slot v
                    (λ s. none-ne-some (sym e ∙ subst (λ t. Maps q t slot) (sym s) m)) m);
              callback = cb ∙ v.callback;
            })
      | inr (k, e) ↦
          let same = give_map id k q in
          rw (has_map, in_range, e)
            (record {
              slots = give-Slots q id k v.slots e;
              same_depth = give_depth id k q ∙ v.same_depth ∙ sym d;
              flying = λ j slot m.
                  let m' : get_or (set q.bounce_map id none) j none ≡ some slot = rw same at m in
                  let gone : get_or (set q.bounce_map id none) id none ≡ none =
                    get_or-set_self q.bounce_map id none none
                      (omega (arith, v.slots.map_length, inside)) in
                  let ne : id ≢ j = λ s. none-ne-some (
                    sym (subst (λ t. get_or (set q.bounce_map id none) t none ≡ none) s gone)
                    ∙ m') in
                  rw fl (
                    landed_other q r id j slot v ne
                      (sym (get_or-set_ne q.bounce_map id j none none ne) ∙ m'));
              callback = cb ∙ v.callback;
            })
    ]

-- A link with another ring of the same flags.
pub same-Linked :
    (q : TxQueue) (r r' : Ring)
    → Linked q r
    → r'.in_flight ≡ r.in_flight
    → r'.sq.depth ≡ r.sq.depth
    → r'.tx_complete_cb ≡ r.tx_complete_cb
    → Linked q r'
same-Linked q r r' v fl d cb = record {
  slots = v.slots;
  same_depth = v.same_depth ∙ sym d;
  flying = λ j slot m. rw fl (v.flying j slot m);
  callback = cb ∙ v.callback;
}

-- Freeing a buffer calls nothing.
called-freed : (nb : ℕ) (l : List Effect) (q : TxQueue) → called (freed nb l) q ≡ called l q
unfolding called
called-freed nb l q = elim (Bool-cases (nb == 0)) [ inl e ↦ rw e refl | inr e ↦ rw e refl ]

called-told :
    (c : TxCdesc) (s : Io) (q : TxQueue)
    → s.ring.tx_complete_cb ≡ true
    → called (told c s) q ≡ reclaim_slot c.req_id (called s.log q)
unfolding called
called-told c s q e = rw e refl

-- The link of a queue with the ring of a poll, once the calls of its log have been made.
abbrev LinkedIo : TxQueue → Io → Type 0
LinkedIo q s = Linked (called s.log q) s.ring

module _ (q : TxQueue) (cpu : ℕ) (c : TxCdesc) (s : Io) (v : TxInv s.ring) (k : LinkedIo q s)
    (h : c.req_id < s.ring.sq.depth) (e : get_or s.ring.in_flight c.req_id false ≡ true) where
  -- A completion whose log has the call, with a buffer freed or not.
  told-Linked :
      (r : Ring) (l : List Effect)
      → tx_complete_one cpu c s ≡ record { ring = r; log = l }
      → called l q ≡ reclaim_slot c.req_id (called s.log q)
      → r.tx_complete_cb ≡ s.ring.tx_complete_cb
      → LinkedIo q (tx_complete_one cpu c s)
  told-Linked r l p calls cb =
      let done =
        subst (λ (t : Io). t.ring.in_flight ≡ set s.ring.in_flight c.req_id false) p
          (complete-Completed cpu c s v h e).landed_flight in
      let depth =
        subst (λ (t : Io). t.ring.sq.depth ≡ s.ring.sq.depth) p
          (complete-Completed cpu c s v h e).depth_same in
      subst (LinkedIo q) (sym p) (
        subst (λ t. Linked t r) (sym calls)
          (reclaim-Linked (called s.log q) s.ring r c.req_id k h done depth cb))

  complete-Linked : LinkedIo q (tx_complete_one cpu c s)
  complete-Linked =
      let calls = called-told c s q k.callback in
      elim (complete_split cpu c s v h e) [
        | inl p ↦
            told-Linked _ _ p (called-freed (netbuf_of s.ring c.req_id) (told c s) q ∙ calls) refl
        | inr (inl p) ↦ told-Linked _ _ p calls refl
        | inr (inr p) ↦ told-Linked _ _ p calls refl
      ]

abbrev LinkedAfter : TxQueue → Round → Type 0
LinkedAfter q stop = Unit
LinkedAfter q (next n s) = LinkedIo q s

round-Linked :
    (q : TxQueue) (cpu budget n : ℕ) (s : Io)
    → TxInv s.ring
    → LinkedIo q s
    → LinkedAfter q (tx_poll_round cpu budget n s)
unfolding tx_poll_round
round-Linked q cpu budget n s v k =
    let c : TxCdesc = tx_entry s.ring in
    elim (Bool-cases (ltb n budget)) [
      | inr e ↦ rw e tt
      | inl more ↦ elim (Bool-cases (bit_and c.flags 1 == s.ring.cq.phase)) [
        | inr e ↦ rw (more, e) tt
        | inl ph ↦ elim (Bool-cases (leb s.ring.sq.depth c.req_id)) [
          | inl e ↦ rw (more, ph, e) tt
          | inr room ↦ elim (Bool-cases (get_or s.ring.in_flight c.req_id false)) [
            | inr e ↦ rw (more, ph, room, e) (same-Linked _ s.ring _ k refl refl refl)
            | inl fl ↦
                let s' = tx_complete_one cpu c s in
                rw (more, ph, room, fl)
                  (same-Linked (called s'.log q) s'.ring _
                    (complete-Linked q cpu c s v k (ground (arith, room)) fl) refl refl refl)
          ]
        ]
      ]
    ]

pub loop-Linked :
    (q : TxQueue) (fuel cpu budget n n' : ℕ) (s s' : Io)
    → TxInv s.ring
    → LinkedIo q s
    → tx_poll_loop fuel cpu budget n s ≡ some (n', s')
    → LinkedIo q s'
loop-Linked q zero cpu budget n n' s s' v k e = cc (loop-zero cpu budget n s)
loop-Linked q (suc fuel) cpu budget n n' s s' v k e =
    elim (Round-cases (tx_poll_round cpu budget n s)) [
      | inl p ↦
          subst (λ t. LinkedIo q t.1) (some_injective (sym (loop-stop fuel cpu budget n s p) ∙ e)) k
      | inr (m, t, p) ↦
          let a = subst (After budget n s) p (round-After cpu budget n s v) in
          loop-Linked q fuel cpu budget m n' t s' a.inv
            (subst (LinkedAfter q) p (round-Linked q cpu budget n s v k))
            (sym (loop-next fuel cpu budget n m s t p) ∙ e)
    ]

-- What a drain does not do: it calls nothing, and keeps the callback.
pub record Hushed (q : TxQueue) (s s' : Io) : Type 0 where
  pub calls : called s'.log q ≡ called s.log q
  pub callback : s'.ring.tx_complete_cb ≡ s.ring.tx_complete_cb

slot_clear-callback : (r : Ring) (id : ℕ) → (slot_clear r id).tx_complete_cb ≡ r.tx_complete_cb
slot_clear-callback r id = elim (ring_type-cases r.ring_type) [
  | inl t ↦ ap (λ (x : Ring). x.tx_complete_cb) (slot_clear-tx r id t)
  | inr t ↦ ap (λ (x : Ring). x.tx_complete_cb) (slot_clear-rx r id t)
]

req_id_free-callback : (r : Ring) (id : ℕ) → (req_id_free r id).1.tx_complete_cb ≡ r.tx_complete_cb
unfolding req_id_free
req_id_free-callback r id = elim (Bool-cases (leb r.sq.depth id)) [
  | inl e ↦ rw e refl
  | inr e ↦ elim (Bool-cases (get_or r.pool.allocated id true)) [
    | inr f ↦ rw (e, f) refl
    | inl f ↦ elim (Bool-cases (leb r.sq.depth r.pool.count)) [
      | inl g ↦ rw (e, f, g) refl
      | inr g ↦ rw (e, f, g) (slot_clear-callback _ id)
    ]
  ]
]

reclaim-Hushed : (q : TxQueue) (s : Io) (id : ℕ) → Hushed q s (reclaim s id)
unfolding reclaim
reclaim-Hushed q s id = record {
  calls = called-freed (netbuf_of s.ring id) s.log q;
  callback = req_id_free-callback (clear_netbuf s.ring id) id;
}

drain_from-Hushed : (q : TxQueue) (n cpu i : ℕ) (s : Io) → Hushed q s (drain_from n cpu i s)
unfolding drain_from drop_entry
drain_from-Hushed q zero cpu i s = record { calls = refl; callback = refl }
drain_from-Hushed q (suc n) cpu i s =
    let slot = get_or s.ring.tx_foreign i no_foreign in
    elim (Bool-cases (slot.owner_cpu == cpu)) [
      | inr e ↦ rw (e, drain_from) (drain_from-Hushed q n cpu (i + 1) s)
      | inl e ↦
          let s' = reclaim s slot.req_id in
          let one = reclaim-Hushed q s slot.req_id in
          let more = drain_from-Hushed q n cpu i (record s' { ring = drop_entry s'.ring i }) in
          rw (e, drain_from)
            (record { calls = more.calls ∙ one.calls; callback = more.callback ∙ one.callback })
    ]

pub drain-Hushed : (q : TxQueue) (cpu : ℕ) (s : Io) → Hushed q s (drain_foreign_frees cpu s)
unfolding drain_foreign_frees
drain-Hushed q cpu s =
    elim (Bool-cases (is_null s.ring.tx_foreign || s.ring.tx_foreign_count == 0)) [
      | inl e ↦ rw e (record { calls = refl; callback = refl })
      | inr e ↦ rw e (drain_from-Hushed q s.ring.tx_foreign_count cpu 0 s)
    ]

-- The count of the sends that found no slot is no part of the link.
pub waited-Linked : (q : TxQueue) (r : Ring) → Linked q r → Linked (waited q) r
unfolding waited
waited-Linked q r v = elim (Bool-cases (q.bounce_free_count == 0 && ltb 0 q.nb_desc)) [
  | inr e ↦ rw e v
  | inl e ↦ elim (Bool-cases (leb 256 q.bounce_wait_polls)) [
    | inl f ↦ rw (e, f) v
    | inr f ↦
        rw (e, f)
          (record {
            slots = polls-Slots q _ v.slots;
            same_depth = v.same_depth;
            flying = v.flying;
            callback = v.callback;
          })
  ]
]
