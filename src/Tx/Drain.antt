-- ===== src/Tx/Drain.antt =====
-- The drain of the deferred releases: what the owning core's poll gives back.
use mathlib.Core.Path.{subst}
use lib_ena.Prelude.{
  ℕ, zero, suc, ◌+◌, ◌-◌, ◌<◌, ◌≡◌, ◌≢◌, refl, sym, ap, ◌∙◌, true, false, inl, inr, ◌==◌,
  Bool-cases, is_null, is_null-length, get_or, get_or-set_ne, arith,
}
use lib_ena.Ring.{Ring, ForeignFree, Io}
use lib_ena.Ring.Ids.{push_id}
use lib_ena.Ring.Inv.{push_count}
use lib_ena.Tx.Poll.{no_foreign, reclaim, drop_entry, drain_from, drain_foreign_frees}
use lib_ena.Tx.Held.{deferred_allocated, drain-Held}
use lib_ena.Tx.Inv.{TxInv, reclaim-ring, cleared_length}

-- The core that owns entry `j`.
abbrev pub owner_at : Ring → ℕ → ℕ
owner_at r j = (get_or r.tx_foreign j no_foreign).owner_cpu

-- What a drain on core `cpu` keeps and changes.
pub record Drained (cpu : ℕ) (s s' : Io) : Type 0 where
  pub inv : TxInv s'.ring
  pub flight_same : s'.ring.in_flight ≡ s.ring.in_flight
  pub cq_same : s'.ring.cq ≡ s.ring.cq
  pub entries_same : s'.ring.tx_cq ≡ s.ring.tx_cq
  pub depth_same : s'.ring.sq.depth ≡ s.ring.sq.depth
  pub moved :
      s'.ring.pool.count + s'.ring.tx_foreign_count ≡ s.ring.pool.count + s.ring.tx_foreign_count
  pub mine_gone : (j : ℕ) → j < s'.ring.tx_foreign_count → owner_at s'.ring j ≢ cpu

-- The state after entry `i` has been taken off.
abbrev taken : Io → ℕ → Io
taken s i =
    let s' = reclaim s (get_or s.ring.tx_foreign i no_foreign).req_id in
    record s' { ring = drop_entry s'.ring i }

-- What one entry taken off keeps and changes.
record Taken (i : ℕ) (r r' : Ring) : Type 0 where
  inv : TxInv r'
  flight_same : r'.in_flight ≡ r.in_flight
  cq_same : r'.cq ≡ r.cq
  entries_same : r'.tx_cq ≡ r.tx_cq
  depth_same : r'.sq.depth ≡ r.sq.depth
  more_free : r'.pool.count ≡ suc r.pool.count
  fewer : suc r'.tx_foreign_count ≡ r.tx_foreign_count
  kept : (j : ℕ) → j < i → owner_at r' j ≡ owner_at r j

taken-Taken :
    (s : Io) (i : ℕ) → TxInv s.ring → i < s.ring.tx_foreign_count → Taken i s.ring (taken s i).ring
unfolding drop_entry push_id
taken-Taken s i v h =
    let r : Ring = s.ring in
    let id : ℕ = (get_or r.tx_foreign i no_foreign).req_id in
    let marked = deferred_allocated v.held i h in
    let inside = v.held.ranged i h in
    subst (λ t. Taken i r (drop_entry t i))
      (sym (reclaim-ring s id v.direction v.held.pool inside marked))
      (record {
        inv = record {
          direction = v.direction;
          bufs_length = cleared_length r id ∙ v.bufs_length;
          held = drain-Held v.held i h;
        };
        flight_same = refl;
        cq_same = refl;
        entries_same = refl;
        depth_same = refl;
        more_free = push_count v.held.pool id inside marked;
        fewer = omega arith;
        kept = λ j hj.
            ap (λ (f : ForeignFree). f.owner_cpu)
              (get_or-set_ne r.tx_foreign i j
                (get_or r.tx_foreign (r.tx_foreign_count - 1) no_foreign) no_foreign (omega arith));
      })

drain_from-skip :
    (n cpu i : ℕ) (s : Io)
    → owner_at s.ring i ≢ cpu
    → drain_from (suc n) cpu i s ≡ drain_from n cpu (i + 1) s
unfolding drain_from
drain_from-skip n cpu i s other =
    let e : (owner_at s.ring i == cpu) ≡ false = ground arith in rw (e, drain_from)

drain_from-take :
    (n cpu i : ℕ) (s : Io)
    → owner_at s.ring i ≡ cpu
    → drain_from (suc n) cpu i s ≡ drain_from n cpu i (taken s i)
unfolding drain_from
drain_from-take n cpu i s mine =
    let e : (owner_at s.ring i == cpu) ≡ true = ground arith in rw (e, drain_from)

below_next :
    (r : Ring) (i cpu : ℕ)
    → owner_at r i ≢ cpu
    → ((j : ℕ) → j < i → owner_at r j ≢ cpu)
    → (j : ℕ) → j < i + 1
    → owner_at r j ≢ cpu
below_next r i cpu other below j h = elim (Bool-cases (j == i)) [
  | inl q ↦ let same : j ≡ i = ground arith in λ p. other (sym (ap (owner_at r) same) ∙ p)
  | inr q ↦ below j (ground arith)
]

drain_from-Drained :
    (n cpu i : ℕ) (s : Io)
    → TxInv s.ring
    → i + n ≡ s.ring.tx_foreign_count
    → ((j : ℕ) → j < i → owner_at s.ring j ≢ cpu)
    → Drained cpu s (drain_from n cpu i s)
unfolding drain_from
drain_from-Drained zero cpu i s v f below = record {
  inv = v;
  flight_same = refl;
  cq_same = refl;
  entries_same = refl;
  depth_same = refl;
  moved = refl;
  mine_gone = λ j h. below j (omega arith);
}
drain_from-Drained (suc n) cpu i s v f below = elim (Bool-cases (owner_at s.ring i == cpu)) [
  | inr e ↦
      let other : owner_at s.ring i ≢ cpu = ground arith in
      subst (Drained cpu s) (sym (drain_from-skip n cpu i s other))
        (drain_from-Drained n cpu (i + 1) s v (omega arith) (below_next s.ring i cpu other below))
  | inl e ↦
      let t = taken-Taken s i v (omega arith) in
      let d =
        drain_from-Drained n cpu i (taken s i) t.inv (omega (arith, t.fewer))
          (λ j h p. below j h (sym (t.kept j h) ∙ p)) in
      subst (Drained cpu s) (sym (drain_from-take n cpu i s (ground arith))) (record {
        inv = d.inv;
        flight_same = d.flight_same ∙ t.flight_same;
        cq_same = d.cq_same ∙ t.cq_same;
        entries_same = d.entries_same ∙ t.entries_same;
        depth_same = d.depth_same ∙ t.depth_same;
        moved = omega (arith, d.moved, t.more_free, t.fewer);
        mine_gone = d.mine_gone;
      })
]

-- On a transmit ring that meets the invariant, `ena_tx_drain_foreign_frees` on a core leaves no
-- deferred release that this core owns, moves as many ids into the pool as it takes entries off,
-- leaves the flags and the completion queue as they were, and keeps the invariant.
pub drain-Drained : (cpu : ℕ) (s : Io) → TxInv s.ring → Drained cpu s (drain_foreign_frees cpu s)
unfolding drain_foreign_frees
drain-Drained cpu s v = elim (Bool-cases (s.ring.tx_foreign_count == 0)) [
  | inl none_left ↦
      rw (has_array, none_left)
        (record {
          inv = v;
          flight_same = refl;
          cq_same = refl;
          entries_same = refl;
          depth_same = refl;
          moved = refl;
          mine_gone = λ j h. absurd (ground arith);
        })
  | inr some_left ↦
      rw (has_array, some_left)
        (drain_from-Drained s.ring.tx_foreign_count cpu 0 s v (omega arith)
          (λ j h. absurd (omega arith)))
]
  where
    has_array : is_null s.ring.tx_foreign ≡ false
    has_array =
        is_null-length s.ring.tx_foreign
          (omega (arith, v.held.foreign_length, v.held.pool.depth_ok.lower))
