-- ===== src/Recovery/Failed.antt =====
-- A recovery that cannot restart the device leaves the rings down: src/ena_admin.c.
use mathlib.Core.Path.{subst}
use lib_ena.Prelude.{
  ℕ, ◌==◌, ◌≡◌, refl, sym, ◌∙◌, inl, inr, true, false, not, ◌&&◌, ◌||◌, if◌then◌else◌, Bool-cases,
}
use lib_ena.Status.{Errno, ok, err, Code, err-ne-ok}
use lib_ena.Device.{error}
use lib_ena.Ring.Depth.{is_power_of_two}
use lib_ena.Ring.Lifecycle.{grab}
use lib_ena.Admin.{Master, World}
use lib_ena.Admin.Setup.{admin_fini, installed, admin_alloc, admin_init}
use lib_ena.Admin.Client.{Exec, or_return}
use lib_ena.Admin.Invalidate.{Down, invalidate-Down}
use lib_ena.Recovery.{Rss, begun, reset_device, aenq_register, restart, rebuild, reset_and_recover}

-- Both arrays of rings and the flag of the recovery are those of another adapter.
pub record SameRings (m out : Master) : Type 0 where
  pub tx : out.tx_rings ≡ m.tx_rings
  pub rx : out.rx_rings ≡ m.rx_rings
  pub active : out.recover_active ≡ m.recover_active

same : (m : Master) → SameRings m m
same m = record { tx = refl; rx = refl; active = refl }

admin_alloc-SameRings :
    (w : World) (ad qd ed : ℕ) (m : Master) → SameRings m (admin_alloc w ad qd ed m).1
unfolding admin_alloc installed
admin_alloc-SameRings w ad qd ed m =
    let (a, h1) = grab w.grants m.heap in
    let (q, h2) = grab w.grants h1 in
    let (e, h3) = grab w.grants h2 in
    elim (Bool-cases (a == 0)) [
      | inl e1 ↦ rw e1 (record { tx = refl; rx = refl; active = refl })
      | inr e1 ↦ elim (Bool-cases (q == 0)) [
        | inl e2 ↦ rw (e1, e2) (record { tx = refl; rx = refl; active = refl })
        | inr e2 ↦ elim (Bool-cases (e == 0)) [
          | inl e3 ↦ rw (e1, e2, e3) (record { tx = refl; rx = refl; active = refl })
          | inr e3 ↦ rw (e1, e2, e3) (record { tx = refl; rx = refl; active = refl })
        ]
      ]
    ]

admin_init-SameRings :
    (w : World) (ad qd ed : ℕ) (m : Master) → SameRings m (admin_init w ad qd ed m).1
unfolding admin_init admin_fini
admin_init-SameRings w ad qd ed m =
    let held = not (m.aq.base == 0) || (not (m.acq.base == 0) || not (m.aenq.base == 0)) in
    let m' = if held then admin_fini m else m in
    let kept : SameRings m m' = elim (Bool-cases held) [
      | inl e ↦ rw e (record { tx = refl; rx = refl; active = refl })
      | inr e ↦ rw e (same m)
    ] in
    elim (Bool-cases (m.dev.bar0_base == 0)) [
      | inl e ↦ rw e (same m)
      | inr e ↦
          let fine = is_power_of_two ad && (is_power_of_two qd && is_power_of_two ed) in
          elim (Bool-cases fine) [
            | inr bad ↦ rw (e, bad) kept
            | inl good ↦
                let k = admin_alloc-SameRings w ad qd ed m' in
                rw (e, good)
                  (record {
                    tx = k.tx ∙ kept.tx;
                    rx = k.rx ∙ kept.rx;
                    active = k.active ∙ kept.active;
                  })
          ]
    ]

reset_device-SameRings : (w : World) (m : Master) → SameRings m (reset_device w m).1
unfolding reset_device
reset_device-SameRings w m = record { tx = refl; rx = refl; active = refl }

aenq_register-SameRings : (h : ℕ) (m : Master) → SameRings m (aenq_register h m).1
unfolding aenq_register
aenq_register-SameRings h m = elim (Bool-cases (h == 0)) [
  | inl e ↦ rw e (same m)
  | inr e ↦ rw e (record { tx = refl; rx = refl; active = refl })
]

or_return-SameRings :
    (m : Master) (x : Code × Master) (k : Master → Code × Master)
    → SameRings m x.1
    → ((s : Master) → SameRings m s → SameRings m (k s).1)
    → SameRings m (or_return x k).1
unfolding or_return
or_return-SameRings m (ok _, s) k r f = f s r
or_return-SameRings m (err e, s) k r f = r

then_same : {a b c : Master} → SameRings a b → SameRings b c → SameRings a c
then_same p q = record { tx = q.tx ∙ p.tx; rx = q.rx ∙ p.rx; active = q.active ∙ p.active }

pub restart-SameRings : (w : World) (m : Master) → SameRings m (restart w m).1
unfolding restart
restart-SameRings w m =
    or_return-SameRings m (reset_device w m) _ (reset_device-SameRings w m) (λ s r.
      or_return-SameRings m (admin_init w _ _ _ s) _ (then_same r (admin_init-SameRings w _ _ _ s))
        (λ t q. then_same q (aenq_register-SameRings m.aenq_handler t)))

begun-Down :
    (m : Master) → Down m.num_tx_rings (begun m).tx_rings × Down m.num_rx_rings (begun m).rx_rings
unfolding begun
begun-Down m =
    invalidate-Down (record m { recover_active = true; dev = record m.dev { state = error } })

or_return-failed :
    (x : Code × Master) (k : Master → Code × Master) (e : Errno)
    → x.0 ≡ err e
    → ((or_return x k).0 ≡ err e) × SameRings x.1 (or_return x k).1
unfolding or_return
or_return-failed (ok _, s) k e f = absurd (err-ne-ok (sym f))
or_return-failed (err c, s) k e f = (f, same s)

-- `ena_adapter_reset_and_recover` on an adapter that is not in a recovery, where the reset or the new
-- start of the admin queues fails: it returns that error, it is no longer active, and no ring that
-- the counts cover is valid, so the data path does not touch a queue that the reset destroyed.
pub reset_and_recover-failed :
    (exec : Exec) (w : World) (rss : Rss) (m : Master) (e : Errno)
    → m.recover_active ≡ false
    → (restart w (begun m)).0 ≡ err e
    → let (ret, out) = reset_and_recover exec w rss m in
      (ret ≡ err e)
      × (out.recover_active ≡ false)
      × Down m.num_tx_rings out.tx_rings
      × Down m.num_rx_rings out.rx_rings
unfolding reset_and_recover begun
reset_and_recover-failed exec w rss m e idle failed =
    let d = begun-Down m in
    let k = restart-SameRings w (begun m) in
    let left = or_return-failed (restart w (begun m)) (rebuild exec w rss) e failed in
    rw idle (
      left.0,
      refl,
      subst (Down m.num_tx_rings) (sym (left.1.tx ∙ k.tx)) d.0,
      subst (Down m.num_rx_rings) (sym (left.1.rx ∙ k.rx)) d.1,
    )
