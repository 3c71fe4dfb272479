-- ===== src/Netdev/Reaped.antt =====
-- A poll of the transmit ring with the queue that its completions call.
use mathlib.Core.Path.{subst}
use lib_ena.Prelude.{
  ℕ, suc, ◌≡◌, sym, ap, true, inl, inr, leb, Bool-cases, some, none, is_null-length, arith,
}
use lib_ena.Ring.{Io, is_tx}
use lib_ena.Tx.Poll.{Polled, tx_poll_completions, drain_foreign_frees}
use lib_ena.Tx.Drain.{drain-Drained}
use lib_ena.Tx.Serve.{TxRing, Served, limit_of, busy_loop, idle-Served, busy-Served}
use lib_ena.Netdev.{TxQueue}
use lib_ena.Netdev.Bounce.{called}
use lib_ena.Netdev.Linked.{Linked, same-Linked, drain-Hushed, loop-Linked}

module _ (q : TxQueue) (cpu budget : ℕ) (s : Io) (v : TxRing s.ring)
    (k : Linked (called s.log q) s.ring) where
  -- The drain before the loop.
  drained-Linked :
      Linked (called (drain_foreign_frees cpu s).log q) (drain_foreign_frees cpu s).ring
  drained-Linked =
      let d = drain-Drained cpu s v.inv in
      let quiet = drain-Hushed q cpu s in
      subst (λ t. Linked t (drain_foreign_frees cpu s).ring) (sym quiet.calls)
        (same-Linked (called s.log q) s.ring _ k d.flight_same d.depth_same quiet.callback)

  -- A poll returns, and the queue that its completions have called fits the ring that it leaves.
  pub poll-Linked :
      (p : Polled) × (tx_poll_completions cpu budget s ≡ some p)
      × Served budget s p
      × Linked (called p.after.log q) p.after.ring
  unfolding tx_poll_completions
  poll-Linked =
      let direction : is_tx s.ring.ring_type ≡ true = ap is_tx v.inv.direction in
      let has_cq = is_null-length s.ring.tx_cq (omega (arith, v.entries, v.cq.depth_ok.lower)) in
      elim (Bool-cases s.ring.hw_valid) [
        | inr e ↦ (_, simp (direction, has_cq, e), idle-Served budget s none v.inv, k)
        | inl valid ↦ elim (Bool-cases (leb s.ring.sq.depth s.ring.pool.count)) [
          | inl e ↦ (_, simp (direction, has_cq, valid, e), idle-Served budget s (some 0) v.inv, k)
          | inr e ↦
              let (n, s', r) = busy_loop cpu (limit_of budget s.ring) s v in
              (
                _,
                simp (direction, has_cq, valid, e, r),
                busy-Served cpu budget n s s' v r,
                loop-Linked q (suc s.ring.cq.depth) cpu (limit_of budget s.ring) 0 n
                    (drain_foreign_frees cpu s) s' (drain-Drained cpu s v.inv).inv drained-Linked r,
              )
        ]
      ]
