-- ===== src/Tx/Serve.antt =====
-- What `ena_tx_poll_completions` promises: it ends, keeps the invariant, and accounts for every
-- request that it cleans.
use mathlib.Core.Path.{subst}
use lib_ena.Prelude.{
  ℕ, suc, ◌+◌, ◌≤◌, ◌≡◌, refl, sym, ap, ◌∙◌, true, inl, inr, ◌==◌, leb, if◌then◌else◌, Bool-cases,
  Option, none, some, length, is_null-length, arith,
}
use lib_ena.Prelude.Flags.{flags}
use lib_ena.Status.{ok}
use lib_ena.Ring.{Ring, CompQueue, Io, is_tx}
use lib_ena.Tx.Poll.{Polled, tx_poll_loop, tx_poll_completions, drain_foreign_frees}
use lib_ena.Tx.Inv.{TxInv}
use lib_ena.Tx.Round.{loop-Ran}
use lib_ena.Tx.Drain.{drain-Drained}
use lib_ena.Ring.Lap.{CqInv}
use lib_ena.Tx.Bound.{loop_total}

-- A transmit ring with its completion ring.
pub record TxRing (r : Ring) : Type 0 where
  pub inv : TxInv r
  pub cq : CqInv r.cq
  pub entries : length r.tx_cq ≡ r.cq.depth

-- The budget that a poll works with.
abbrev pub limit_of : ℕ → Ring → ℕ
limit_of budget r = if budget == 0 then r.cq.depth else budget

-- What a poll returns and leaves.
pub record Served (budget : ℕ) (s : Io) (p : Polled) : Type 0 where
  pub cleaned : ℕ
  pub answer : p.ret ≡ ok cleaned
  pub within : cleaned ≤ limit_of budget s.ring
  pub inv : TxInv p.after.ring
  pub depth_same : p.after.ring.sq.depth ≡ s.ring.sq.depth
  pub flown : cleaned + flags p.after.ring.in_flight ≡ flags s.ring.in_flight
  pub given :
      p.after.ring.pool.count + p.after.ring.tx_foreign_count
      ≡ cleaned + (s.ring.pool.count + s.ring.tx_foreign_count)

pub idle-Served :
    (budget : ℕ) (s : Io) (c : Option ℕ)
    → TxInv s.ring
    → Served budget s (record { ret = ok 0; cleaned_count = c; after = s })
idle-Served budget s c v = record {
  cleaned = 0;
  answer = refl;
  within = omega arith;
  inv = v;
  depth_same = refl;
  flown = omega arith;
  given = omega arith;
}

-- The loop of a poll on a ring with requests outstanding, after the drain.
pub busy_loop :
    (cpu budget : ℕ) (s : Io)
    → TxRing s.ring
    → (n : ℕ) × (s' : Io) × (tx_poll_loop
          (suc s.ring.cq.depth)
          cpu
          budget
          0
          (drain_foreign_frees cpu s)
        ≡ some (n, s'))
busy_loop cpu budget s v =
    let d = drain-Drained cpu s v.inv in
    let s1 : Io = drain_foreign_frees cpu s in
    subst
      (λ (q : CompQueue).
        (n : ℕ) × (s' : Io) × (tx_poll_loop (suc q.depth) cpu budget 0 s1 ≡ some (n, s')))
      d.cq_same (loop_total cpu budget s1 d.inv (subst CqInv (sym d.cq_same) v.cq))

pub busy-Served :
    (cpu budget n : ℕ) (s s' : Io)
    → TxRing s.ring
    → tx_poll_loop (suc s.ring.cq.depth) cpu (limit_of budget s.ring) 0 (drain_foreign_frees cpu s)
      ≡ some (n, s')
    → Served budget s (record { ret = ok n; cleaned_count = some n; after = s' })
busy-Served cpu budget n s s' v e =
    let d = drain-Drained cpu s v.inv in
    let s1 : Io = drain_foreign_frees cpu s in
    let r =
      loop-Ran (suc s.ring.cq.depth) cpu (limit_of budget s.ring) 0 n s1 s' d.inv (omega arith) e in
    let depth = r.depth_same ∙ d.depth_same in
    let flown : n + flags s'.ring.in_flight ≡ flags s.ring.in_flight =
      omega (arith, r.counted, ap flags d.flight_same) in
    record {
      cleaned = n;
      answer = refl;
      within = r.within;
      inv = r.inv;
      depth_same = depth;
      flown = flown;
      given = omega (arith, r.inv.held.whole, v.inv.held.whole, depth, flown);
    }

-- On a transmit ring that meets the invariant, with a completion ring of any content,
-- `ena_tx_poll_completions` returns: the number of requests that it cleaned, at most the budget,
-- or the depth for a budget of 0. As many requests leave those in flight, as many ids become free
-- or deferred, and the invariant stays.
pub tx_poll-Served :
    (cpu budget : ℕ) (s : Io)
    → TxRing s.ring
    → (p : Polled) × (tx_poll_completions cpu budget s ≡ some p) × Served budget s p
unfolding tx_poll_completions
tx_poll-Served cpu budget s v =
    let direction : is_tx s.ring.ring_type ≡ true = ap is_tx v.inv.direction in
    let has_cq = is_null-length s.ring.tx_cq (omega (arith, v.entries, v.cq.depth_ok.lower)) in
    elim (Bool-cases s.ring.hw_valid) [
      | inr e ↦ (_, simp (direction, has_cq, e), idle-Served budget s none v.inv)
      | inl valid ↦ elim (Bool-cases (leb s.ring.sq.depth s.ring.pool.count)) [
        | inl e ↦ (_, simp (direction, has_cq, valid, e), idle-Served budget s (some 0) v.inv)
        | inr e ↦
            let (n, s', r) = busy_loop cpu (limit_of budget s.ring) s v in
            (_, simp (direction, has_cq, valid, e, r), busy-Served cpu budget n s s' v r)
      ]
    ]
