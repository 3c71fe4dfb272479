-- ===== src/Recovery/Knot.antt =====
-- `ena_admin_exec_cmd` with the recovery that it starts: src/ena_admin.c.
use lib_ena.Prelude.{
  ℕ, ◌+◌, ◌==◌, ltb, ◌≡◌, refl, sym, ap, ◌∙◌, inl, inr, Bool, true, false, ◌&&◌, ◌||◌,
  if◌then◌else◌, Bool-cases, true-ne-false, List, length,
}
use lib_ena.Status.{err, Code, einval, ebusy, enodev}
use lib_ena.Admin.{AcqEntry, AdminSq, AdminCq, Access, Master, World, Command, Reply}
use lib_ena.Admin.Exec.{
  command_id_of, id_after, build_entry, resync, resync_if, aq_push, submit, refusal, conclude,
  exec_locked,
}
use lib_ena.Admin.Client.{Exec, is_timeout, Keeps, Keeps-refl, Keeps-trans, IsQuiet}
use lib_ena.Recovery.{Rss, is_error, reset_and_recover, exec_with, busy_exec, exec_cmd}

-- A change of the admin queues alone.
Keeps-queues :
    (m : Master) (aq : AdminSq) (acq : AdminCq) (id now : ℕ) (log : List Access)
    → Keeps m (record m { aq = aq; acq = acq; next_command_id = id; now = now; log = log })
Keeps-queues m aq acq id now log = record {
  dev = refl;
  bar2_base = refl;
  bar2_size = refl;
  tx_rings = refl;
  rx_rings = refl;
  num_tx_rings = refl;
  num_rx_rings = refl;
  llq_info = refl;
  attributes = refl;
  reports = refl;
  recover_active = refl;
}

resync_if-Keeps : (id : ℕ) (m : Master) → Keeps m (resync_if id m)
unfolding resync_if
resync_if-Keeps id m = elim (Bool-cases ((id == 1) && ltb 0 m.acq.head)) [
  | inl e ↦ rw e (Keeps-queues m m.aq (resync m.acq) m.next_command_id m.now _)
  | inr e ↦ rw e (Keeps-refl m)
]

submit-Keeps : (c : Command) (m : Master) → Keeps m (submit c m)
unfolding submit
submit-Keeps c m =
    let id = command_id_of m.next_command_id in
    let m1 : Master = record m { next_command_id = id_after id } in
    let s = resync_if id m1 in
    let k : Keeps m m1 = Keeps-queues m m.aq m.acq (id_after id) m.now m.log in
    Keeps-trans k (
      Keeps-trans (resync_if-Keeps id m1) (
        Keeps-queues s (aq_push (build_entry c id m.aq.phase) m.aq) s.acq s.next_command_id s.now
          _))

conclude-Keeps :
    (c : Command) (id slot : ℕ) (out : Bool × List AcqEntry) (m : Master)
    → is_timeout (conclude c id slot out m).0.ret ≡ false
    → Keeps m (conclude c id slot out m).1
unfolding conclude is_timeout
conclude-Keeps c id slot (true, mem) m e = Keeps-queues m m.aq _ m.next_command_id (m.now + 1) _
conclude-Keeps c id slot (false, mem) m e = absurd (true-ne-false e)

conclude-active :
    (c : Command) (id slot : ℕ) (out : Bool × List AcqEntry) (m : Master)
    → (conclude c id slot out m).1.recover_active ≡ m.recover_active
unfolding conclude
conclude-active c id slot (true, mem) m = refl
conclude-active c id slot (false, mem) m = refl

exec_locked-Keeps :
    (w : World) (c : Command) (m : Master)
    → is_timeout (exec_locked w c m).0.ret ≡ false
    → Keeps m (exec_locked w c m).1
unfolding exec_locked
exec_locked-Keeps w c m = elim (Bool-cases (ltb 16 (length c.req))) [
  | inl e ↦ rw e (λ _. Keeps-refl m)
  | inr e ↦ rw e (λ f. Keeps-trans (submit-Keeps c m) (conclude-Keeps c _ _ _ (submit c m) f))
]

exec_locked-active :
    (w : World) (c : Command) (m : Master) → (exec_locked w c m).1.recover_active ≡ m.recover_active
unfolding exec_locked
exec_locked-active w c m = elim (Bool-cases (ltb 16 (length c.req))) [
  | inl e ↦ rw e refl
  | inr e ↦ rw e (conclude-active c _ _ _ (submit c m) ∙ (submit-Keeps c m).recover_active)
]

-- The three ways through `exec_with`.
exec_with-cases :
    (w : World) (recover : Master → Code × Master) (c : Command) (m : Master)
    (P : Reply × Master → Type 0)
    → ((r : Reply) → is_timeout r.ret ≡ false → P (r, m))
    → (is_timeout (exec_locked w c m).0.ret ≡ true
        → P ((exec_locked w c m).0, (recover (exec_locked w c m).1).1))
    → (is_timeout (exec_locked w c m).0.ret ≡ false → P (exec_locked w c m))
    → P (exec_with w recover c m)
unfolding exec_with is_timeout
exec_with-cases w recover c m P refused late done =
    elim (Bool-cases ((m.aq.base == 0) || (m.acq.base == 0))) [
      | inl e ↦ rw e (refused _ refl)
      | inr e ↦ elim (Bool-cases (is_error m.dev.state)) [
        | inl f ↦ rw (e, f) (refused _ refl)
        | inr f ↦ elim (Bool-cases (is_timeout (exec_locked w c m).0.ret)) [
          | inl t ↦ rw (e, f, t) (late t)
          | inr t ↦ rw (e, f, t) (done t)
        ]
      ]
    ]

pub exec_with-same :
    (w : World) (recover recover' : Master → Code × Master) (c : Command) (m : Master)
    → recover (exec_locked w c m).1 ≡ recover' (exec_locked w c m).1
    → exec_with w recover c m ≡ exec_with w recover' c m
unfolding exec_with
exec_with-same w recover recover' c m e =
    ap
      (λ (t : Code × Master).
        if m.aq.base == 0 || m.acq.base == 0
        then (refusal einval, m)
        else if is_error m.dev.state
        then (refusal enodev, m)
        else if is_timeout (exec_locked w c m).0.ret
        then ((exec_locked w c m).0, t.1)
        else exec_locked w c m)
      e

module _ (w : World) (recover : Master → Code × Master) where
  exec_with-IsQuiet : IsQuiet (exec_with w recover)
  exec_with-IsQuiet c m =
      exec_with-cases w recover c m (λ out. is_timeout out.0.ret ≡ false → Keeps m out.1)
        (λ r e _. Keeps-refl m) (λ t f. absurd (true-ne-false (sym t ∙ f)))
        (λ t f. exec_locked-Keeps w c m t)

  exec_with-active :
      ((m : Master) → (recover m).1.recover_active ≡ m.recover_active)
      → (c : Command) (m : Master) → (exec_with w recover c m).1.recover_active ≡ m.recover_active
  exec_with-active keeps c m =
      exec_with-cases w recover c m (λ out. out.1.recover_active ≡ m.recover_active) (λ r e. refl)
        (λ t. keeps (exec_locked w c m).1 ∙ exec_locked-active w c m)
        (λ t. exec_locked-active w c m)

reset_and_recover-active :
    (exec : Exec) (w : World) (rss : Rss) (m : Master)
    → (reset_and_recover exec w rss m).1.recover_active ≡ m.recover_active
unfolding reset_and_recover
reset_and_recover-active exec w rss m = elim (Bool-cases m.recover_active) [
  | inl e ↦ rw e refl
  | inr e ↦ rw e refl
]

pub reset_and_recover-busy :
    (exec : Exec) (w : World) (rss : Rss) (m : Master)
    → m.recover_active ≡ true
    → reset_and_recover exec w rss m ≡ (err ebusy, m)
unfolding reset_and_recover
reset_and_recover-busy exec w rss m e = rw e refl

-- `ena_admin_exec_cmd` keeps what its clients rely on: a command that does not answer with
-- -ETIMEDOUT (nor with the device status of that number) leaves the device state, the BARs, the
-- rings, the LLQ mode, the attributes and the reports of the adapter as they were.
pub exec_cmd-IsQuiet : (w : World) (rss : Rss) → IsQuiet (exec_cmd w rss)
unfolding exec_cmd
exec_cmd-IsQuiet w rss = exec_with-IsQuiet w (reset_and_recover (busy_exec w) w rss)

-- Whatever a command does, the recovery that a timeout starts included, `recover_active` is
-- afterwards what it was before.
pub exec_cmd-active :
    (w : World) (rss : Rss) (c : Command) (m : Master)
    → (exec_cmd w rss c m).1.recover_active ≡ m.recover_active
unfolding exec_cmd
exec_cmd-active w rss c m =
    exec_with-active w (reset_and_recover (busy_exec w) w rss)
      (reset_and_recover-active (busy_exec w) w rss) c m

-- On an adapter with `recover_active` set, `ena_admin_exec_cmd` is the command that a recovery sends:
-- one that starts no recovery of its own. So a recovery inside a recovery changes nothing, and the
-- recursion ends there.
pub exec_cmd-busy_exec :
    (w : World) (rss : Rss) (c : Command) (m : Master)
    → m.recover_active ≡ true
    → exec_cmd w rss c m ≡ busy_exec w c m
unfolding exec_cmd busy_exec
exec_cmd-busy_exec w rss c m e =
    exec_with-same w (reset_and_recover (busy_exec w) w rss) (λ s. (err ebusy, s)) c m
      (reset_and_recover-busy (busy_exec w) w rss (exec_locked w c m).1
        (exec_locked-active w c m ∙ e))
