-- ===== src/Tx/Round.antt =====
-- One round of the poll loop, and the loop.
use mathlib.Core.Path.{subst}
use lib_ena.Prelude.{
  ℕ, zero, suc, ◌+◌, ◌≤◌, ◌<◌, ◌≡◌, refl, sym, ap, ◌∙◌, bit_and, true, false, ◌⊎◌, inl, inr, ◌==◌,
  ltb, leb, Bool-cases, none, some, some_injective, get_or, arith,
}
use lib_ena.Prelude.Flags.{flags, flags-set}
use lib_ena.Ring.{Ring, CompQueue, TxCdesc, Io}
use lib_ena.Ring.Advance.{cq_advance}
use lib_ena.Tx.Poll.{
  Round, stop, next, tx_entry, tx_poll_round, tx_poll_loop, tx_complete_one, advance_cq,
}
use lib_ena.Tx.Inv.{TxInv}
use lib_ena.Tx.Complete.{complete-Completed}

-- A round that goes on has matched the phase of its entry, and took at most one request out of
-- those in flight.
pub record Advanced (budget n : ℕ) (s : Io) (n' : ℕ) (s' : Io) : Type 0 where
  pub matched : bit_and (tx_entry s.ring).flags 1 ≡ s.ring.cq.phase
  pub inv : TxInv s'.ring
  pub cq_next : s'.ring.cq ≡ cq_advance s.ring.cq
  pub entries_same : s'.ring.tx_cq ≡ s.ring.tx_cq
  pub depth_same : s'.ring.sq.depth ≡ s.ring.sq.depth
  pub within : n' ≤ budget
  pub counted : n' + flags s'.ring.in_flight ≡ n + flags s.ring.in_flight

-- The invariant does not read the completion queue.
cq-TxInv : (r : Ring) (q : CompQueue) → TxInv r → TxInv (record r { cq = q })
cq-TxInv r q v = record { direction = v.direction; bufs_length = v.bufs_length; held = v.held }

skip-Advanced :
    (budget n : ℕ) (s : Io)
    → TxInv s.ring
    → n ≤ budget
    → bit_and (tx_entry s.ring).flags 1 ≡ s.ring.cq.phase
    → Advanced budget n s n (advance_cq s)
skip-Advanced budget n s v le ph = record {
  matched = ph;
  inv = cq-TxInv s.ring (cq_advance s.ring.cq) v;
  cq_next = refl;
  entries_same = refl;
  depth_same = refl;
  within = le;
  counted = refl;
}

one-Advanced :
    (cpu budget n : ℕ) (s : Io)
    → TxInv s.ring
    → n < budget
    → bit_and (tx_entry s.ring).flags 1 ≡ s.ring.cq.phase
    → (tx_entry s.ring).req_id < s.ring.sq.depth
    → get_or s.ring.in_flight (tx_entry s.ring).req_id false ≡ true
    → Advanced budget n s (n + 1) (advance_cq (tx_complete_one cpu (tx_entry s.ring) s))
one-Advanced cpu budget n s v lt ph h e =
    let c : TxCdesc = tx_entry s.ring in
    let s' : Io = tx_complete_one cpu c s in
    let done = complete-Completed cpu c s v h e in
    record {
      matched = ph;
      inv = cq-TxInv s'.ring (cq_advance s'.ring.cq) done.inv;
      cq_next = ap cq_advance done.cq_same;
      entries_same = done.entries_same;
      depth_same = done.depth_same;
      within = omega arith;
      counted = ground (
        arith,
        ap flags done.landed_flight,
        flags-set s.ring.in_flight c.req_id false false,
        v.held.flight_length,
      );
    }

abbrev pub After : ℕ → ℕ → Io → Round → Type 0
After budget n s stop = Unit
After budget n s (next n' s') = Advanced budget n s n' s'

pub round-After :
    (cpu budget n : ℕ) (s : Io) → TxInv s.ring → After budget n s (tx_poll_round cpu budget n s)
unfolding tx_poll_round
round-After cpu budget n s v = elim (Bool-cases (ltb n budget)) [
  | inr e ↦ rw e tt
  | inl more ↦ elim (Bool-cases (bit_and (tx_entry s.ring).flags 1 == s.ring.cq.phase)) [
    | inr e ↦ rw (more, e) tt
    | inl ph ↦ elim (Bool-cases (leb s.ring.sq.depth (tx_entry s.ring).req_id)) [
      | inl e ↦ rw (more, ph, e) tt
      | inr ok ↦ elim (Bool-cases (get_or s.ring.in_flight (tx_entry s.ring).req_id false)) [
        | inr e ↦ rw (more, ph, ok, e) (skip-Advanced budget n s v (ground arith) (ground arith))
        | inl fl ↦
            rw (more, ph, ok, fl)
              (one-Advanced cpu budget n s v (ground arith) (ground arith) (ground arith) fl)
      ]
    ]
  ]
]

pub Round-cases : (r : Round) → (r ≡ stop) ⊎ ((n : ℕ) × (s : Io) × (r ≡ next n s))
Round-cases stop = inl refl
Round-cases (next n s) = inr (n, s, refl)

pub loop-zero : (cpu budget n : ℕ) (s : Io) → tx_poll_loop 0 cpu budget n s ≡ none
unfolding tx_poll_loop
loop-zero cpu budget n s = refl

pub loop-stop :
    (fuel cpu budget n : ℕ) (s : Io)
    → tx_poll_round cpu budget n s ≡ stop
    → tx_poll_loop (suc fuel) cpu budget n s ≡ some (n, s)
unfolding tx_poll_loop
loop-stop fuel cpu budget n s e = rw (e, tx_poll_loop)

pub loop-next :
    (fuel cpu budget n n' : ℕ) (s s' : Io)
    → tx_poll_round cpu budget n s ≡ next n' s'
    → tx_poll_loop (suc fuel) cpu budget n s ≡ tx_poll_loop fuel cpu budget n' s'
unfolding tx_poll_loop
loop-next fuel cpu budget n n' s s' e = rw (e, tx_poll_loop)

-- What a whole loop leaves.
pub record Ran (budget n : ℕ) (s : Io) (n' : ℕ) (s' : Io) : Type 0 where
  pub inv : TxInv s'.ring
  pub depth_same : s'.ring.sq.depth ≡ s.ring.sq.depth
  pub within : n' ≤ budget
  pub counted : n' + flags s'.ring.in_flight ≡ n + flags s.ring.in_flight

pub loop-Ran :
    (fuel cpu budget n n' : ℕ) (s s' : Io)
    → TxInv s.ring
    → n ≤ budget
    → tx_poll_loop fuel cpu budget n s ≡ some (n', s')
    → Ran budget n s n' s'
loop-Ran zero cpu budget n n' s s' v h e = cc (loop-zero cpu budget n s)
loop-Ran (suc fuel) cpu budget n n' s s' v h e = elim (Round-cases (tx_poll_round cpu budget n s)) [
  | inl p ↦
      let same = some_injective (sym (loop-stop fuel cpu budget n s p) ∙ e) in
      subst (λ t. Ran budget n s t.0 t.1) same
        (record { inv = v; depth_same = refl; within = h; counted = refl })
  | inr (k, t, p) ↦
      let a = subst (After budget n s) p (round-After cpu budget n s v) in
      let rest =
        loop-Ran fuel cpu budget k n' t s' a.inv a.within
          (sym (loop-next fuel cpu budget n k s t p) ∙ e) in
      record {
        inv = rest.inv;
        depth_same = rest.depth_same ∙ a.depth_same;
        within = rest.within;
        counted = omega (arith, rest.counted, a.counted);
      }
]
