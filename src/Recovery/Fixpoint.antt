-- ===== src/Recovery/Fixpoint.antt =====
-- `ena_admin_exec_cmd` and the recovery call each other: src/ena_admin.c. Here `Recovery.exec_cmd`, whose
-- recovery sends the commands of `busy_exec`, is shown to satisfy the recursive equation.
use mathlib.Core.Path.{subst}
use lib_ena.Prelude.{
  ℕ, zero, suc, ◌≡◌, refl, sym, ap, ◌∙◌, ◌==◌, not, ◌&&◌, inl, inr, true, if◌then◌else◌, Bool-cases,
  Option, none, some, Option-cases, get_or,
}
use lib_ena.Status.{Result, ok, err, Code, success, ebusy}
use lib_ena.Ring.{Ring}
use lib_ena.Rx.Queue.{RxIo}
use lib_ena.Rx.Refill.{Allocator}
use lib_ena.Admin.{Handle, tx_ring, rx_ring, Master, World, Command, Reply}
use lib_ena.Admin.Client.{Exec, ring_at}
use lib_ena.Init.{reapply_device_features}
use lib_ena.Recovery.{
  Rss, Tally, first_error, vector_of, refilled, refill_first, after_rx, counted, recover_ring,
  recover_tx, recover_rx, recover_io_rings, has_io_rings, restart, rebuild, idle_again, begun,
  reset_and_recover, exec_with, busy_exec, exec_cmd,
}
use lib_ena.Recovery.Knot.{
  exec_with-same, reset_and_recover-busy, exec_cmd-busy_exec, exec_cmd-active,
}
use lib_ena.Recovery.Failed.{restart-SameRings}
use lib_ena.Admin.Exec.{exec_locked}
use lib_ena.Admin.Invalidate.{invalidate_io_rings}
use lib_ena.Recovery.Agree.{Same, Agree, Same-refl, or_return-Same, dropped-Same, if-Same}
use lib_ena.Recovery.AgreeQueue.{create_hw-Same}
use lib_ena.Recovery.AgreeInit.{Steps, aenq-Same, reapply-Same}

refilled-active :
    (o : Option (Result ℕ × RxIo)) (m : Master) → (refilled o m).recover_active ≡ m.recover_active
unfolding refilled
refilled-active none m = refl
refilled-active (some (_, s)) m = refl

refill_first-active :
    (o : Option Allocator) (r : Ring) (m : Master)
    → (refill_first o r m).recover_active ≡ m.recover_active
unfolding refill_first
refill_first-active none r m = refl
refill_first-active (some alloc) r m = refilled-active _ m

after_rx-active :
    (w : World) (q : ℕ) (m : Master) → (after_rx w q m).recover_active ≡ m.recover_active
unfolding after_rx
after_rx-active w q m = elim (Bool-cases (q == 0)) [
  | inr e ↦ rw e refl
  | inl e ↦ elim (Option-cases (get_or m.rx_rings 0 none)) [
    | inl f ↦ rw (e, f) refl
    | inr (r, f) ↦ rw (e, f) (refill_first-active w.refill_netbuf r m)
  ]
]

counted-active :
    (t : Tally) (follow : Master → Master) (x : Code × Master)
    → ((m : Master) → (follow m).recover_active ≡ m.recover_active)
    → (counted t follow x).1.recover_active ≡ x.1.recover_active
unfolding counted
counted-active t follow (err e, m) f = refl
counted-active t follow (ok _, m) f = f m

module _ (exec exec' : Exec) (agree : Agree exec exec') (w : World) where
  ring_both :
      (h : Handle) (v : ℕ) (follow : Master → Master) (o : Option Ring) (x : Tally × Master)
      → ((m : Master) → (follow m).recover_active ≡ m.recover_active)
      → x.1.recover_active ≡ true
      → Same (recover_ring exec w h v follow o x) (recover_ring exec' w h v follow o x)
  unfolding recover_ring
  ring_both h v follow none (t, m) f a = Same-refl t m a
  ring_both h v follow (some r) (t, m) f a =
      let s = create_hw-Same exec exec' agree w.bus h v m a in
      if-Same r.hw_valid _ _ _ _ (Same-refl t m a) (record {
        eq = ap (counted t follow) s.eq;
        active = counted-active t follow _ f ∙ s.active;
      })

  -- One round of each loop.
  tx_round : Exec → ℕ → Tally × Master → Tally × Master
  tx_round e q x =
      recover_ring e w (tx_ring q) (vector_of q x.1) (λ m. m) (ring_at (tx_ring q) x.1) x

  rx_round : Exec → ℕ → Tally × Master → Tally × Master
  rx_round e q x =
      recover_ring e w (rx_ring q) (vector_of q x.1) (after_rx w q) (ring_at (rx_ring q) x.1) x

  tx_round-Same :
      (q : ℕ) (x y : Tally × Master) → Same x y → Same (tx_round exec q x) (tx_round exec' q y)
  unfolding tx_round
  tx_round-Same q x y p =
      subst (λ z. Same (tx_round exec q x) (tx_round exec' q z)) p.eq
        (ring_both (tx_ring q) (vector_of q x.1) (λ m. m) (ring_at (tx_ring q) x.1) x (λ m. refl)
          p.active)

  rx_round-Same :
      (q : ℕ) (x y : Tally × Master) → Same x y → Same (rx_round exec q x) (rx_round exec' q y)
  unfolding rx_round
  rx_round-Same q x y p =
      subst (λ z. Same (rx_round exec q x) (rx_round exec' q z)) p.eq
        (ring_both (rx_ring q) (vector_of q x.1) (after_rx w q) (ring_at (rx_ring q) x.1) x
          (after_rx-active w q) p.active)

  tx_loop-Same :
      (n q : ℕ) (x y : Tally × Master)
      → Same x y
      → Same (recover_tx exec w n q x) (recover_tx exec' w n q y)
  unfolding recover_tx tx_round
  tx_loop-Same zero q x y p = p
  tx_loop-Same (suc n) q x y p =
      tx_loop-Same n (suc q) (tx_round exec q x) (tx_round exec' q y) (tx_round-Same q x y p)

  rx_loop-Same :
      (n q : ℕ) (x y : Tally × Master)
      → Same x y
      → Same (recover_rx exec w n q x) (recover_rx exec' w n q y)
  unfolding recover_rx rx_round
  rx_loop-Same zero q x y p = p
  rx_loop-Same (suc n) q x y p =
      rx_loop-Same n (suc q) (rx_round exec q x) (rx_round exec' q y) (rx_round-Same q x y p)

  rx_all-Same :
      (x y : Tally × Master)
      → Same x y
      → Same (recover_rx exec w x.1.num_rx_rings 0 x) (recover_rx exec' w y.1.num_rx_rings 0 y)
  rx_all-Same x y p =
      subst
        (λ z.
          Same (recover_rx exec w x.1.num_rx_rings 0 x) (recover_rx exec' w z.1.num_rx_rings 0 z))
        p.eq (rx_loop-Same x.1.num_rx_rings 0 x x (record { eq = refl; active = p.active }))

  module _ (rss : Rss) (rss_agree : (n : ℕ) → Steps (rss exec n) (rss exec' n)) where
    -- What follows the two loops.
    features : Exec → Tally × Master → Code × Master
    features e (t, m) =
        let (fret, m') = reapply_device_features e (rss e) m in
        if t.created == 0 then (t.ret, m) else (first_error t.ret fret, m')

    features-Same : (x y : Tally × Master) → Same x y → Same (features exec x) (features exec' y)
    unfolding features
    features-Same (t, m) y p =
        let s = reapply-Same exec exec' agree (rss exec) (rss exec') rss_agree m p.active in
        subst (λ z. Same (features exec (t, m)) (features exec' z)) p.eq
          (if-Same (t.created == 0) _ _ _ _ (Same-refl t.ret m p.active) (record {
            eq =
                ap
                  (λ (r : Code × Master).
                    let out : Code × Master = (first_error t.ret r.0, r.1) in out)
                  s.eq;
            active = s.active;
          }))

    rings-Same : Steps (recover_io_rings exec w rss) (recover_io_rings exec' w rss)
    unfolding recover_io_rings features
    rings-Same m a =
        let start : Tally = record { ret = success; created = 0 } in
        features-Same _ _ (
          rx_all-Same _ _
            (tx_loop-Same m.num_tx_rings 0 (start, m) (start, m) (Same-refl start m a)))

    rings_after-Same :
        (x y : Master)
        → Same (success, x) (success, y)
        → Same (recover_io_rings exec w rss x) (recover_io_rings exec' w rss y)
    rings_after-Same x y p =
        subst (λ z. Same (recover_io_rings exec w rss x) (recover_io_rings exec' w rss z))
          (ap (λ t. t.1) p.eq) (rings-Same x p.active)

    rebuild-Same : Steps (rebuild exec w rss) (rebuild exec' w rss)
    unfolding rebuild
    rebuild-Same m a =
        elim (Bool-cases (not (has_io_rings m) && not (m.reports.aenq_enabled_groups == 0))) [
          | inl e ↦
              rw e
                (rings_after-Same _ _ (dropped-Same success _ _ (aenq-Same exec exec' agree m a)))
          | inr e ↦ rw e (rings_after-Same m m (Same-refl success m a))
        ]

begun-active : (m : Master) → (begun m).recover_active ≡ true
unfolding begun invalidate_io_rings
begun-active m = refl

reset_and_recover-agrees :
    (exec exec' : Exec) (agree : Agree exec exec') (w : World) (rss : Rss)
    → ((n : ℕ) → Steps (rss exec n) (rss exec' n))
    → (m : Master) → reset_and_recover exec w rss m ≡ reset_and_recover exec' w rss m
unfolding reset_and_recover
reset_and_recover-agrees exec exec' agree w rss r m = elim (Bool-cases m.recover_active) [
  | inl e ↦ reset_and_recover-busy exec w rss m e ∙ sym (reset_and_recover-busy exec' w rss m e)
  | inr e ↦
      let x = restart w (begun m) in
      let same : Same x x = record {
        eq = refl;
        active = (restart-SameRings w (begun m)).active ∙ begun-active m;
      } in
      ap (λ t. if m.recover_active then (err ebusy, m) else idle_again t)
        (or_return-Same x x (rebuild exec w rss) (rebuild exec' w rss) same
          (rebuild-Same exec exec' agree w rss r)).eq
]

-- `ena_rss_configure` depends on the way to run commands only through the commands that it sends
-- inside a recovery.
abbrev pub RssAgrees : Rss → Type 0
RssAgrees rss = (exec exec' : Exec) → Agree exec exec' → (n : ℕ) → Steps (rss exec n) (rss exec' n)

-- If `ena_rss_configure` depends on the way to run commands only through its commands, then the model
-- of `ena_admin_exec_cmd` satisfies the recursion of the source: it is the command whose timeout runs
-- `ena_adapter_reset_and_recover` with `ena_admin_exec_cmd` itself for the commands of the recovery,
-- queue creation, bring-up and all. So two levels of the recursion are enough, and it ends.
pub exec_cmd-recursive :
    (w : World) (rss : Rss) (c : Command) (m : Master)
    → RssAgrees rss
    → exec_cmd w rss c m ≡ exec_with w (reset_and_recover (exec_cmd w rss) w rss) c m
unfolding exec_cmd
exec_cmd-recursive w rss c m r =
    let agree : Agree (busy_exec w) (exec_cmd w rss) = λ d s a. record {
      eq = sym (exec_cmd-busy_exec w rss d s a);
      active =
          ap (λ (x : Reply × Master). x.1.recover_active) (sym (exec_cmd-busy_exec w rss d s a))
          ∙ exec_cmd-active w rss d s
          ∙ a;
    } in
    exec_with-same w (reset_and_recover (busy_exec w) w rss)
      (reset_and_recover (exec_cmd w rss) w rss) c m
      (reset_and_recover-agrees (busy_exec w) (exec_cmd w rss) agree w rss
        (r (busy_exec w) (exec_cmd w rss) agree) (exec_locked w c m).1)
