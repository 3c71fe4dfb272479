-- ===== src/Admin/WrapLoss.antt =====
-- The completion that is lost when the command ids wrap: src/ena_admin.c, `ena_admin_exec_locked`.
use lib_ena.Prelude.{
  ℕ, zero, suc, ◌≤◌, ◌<◌, bit_and, ◌==◌, ltb, ◌≡◌, refl, sym, ap, ◌∙◌, true, false, List, length,
  get_or, get_or-set_self, arith,
}
use lib_ena.Status.{eio}
use lib_ena.Ring.Depth.{ring_index}
use lib_ena.Admin.{AcqEntry, blank_acq, Master, World, Command}
use lib_ena.Admin.Exec.{
  command_id_of, id_after, resync, resync_if, submit, await, refusal, reply_to, conclude,
  at_least_one, exec_locked,
}
use lib_ena.Admin.Inv.{CqInv, resync-phase}

await-first :
    (dma : ℕ → List AcqEntry → List AcqEntry) (slot phase n : ℕ) (mem : List AcqEntry)
    → 1 ≤ n
    → bit_and (get_or (dma 0 mem) slot blank_acq).flags 1 ≡ phase
    → await dma slot phase n 0 mem ≡ (true, dma 0 mem)
unfolding await
await-first dma slot phase zero mem h e = absurd (omega arith)
await-first dma slot phase (suc n) mem h e =
    let same : (bit_and (get_or (dma 0 mem) slot blank_acq).flags 1 == phase) ≡ true =
      ground arith in
    rw same refl

command_id_of-first : (n : ℕ) → n ≤ 1 → command_id_of n ≡ 1
unfolding command_id_of
command_id_of-first n h = ground arith

reply_to-blank : (c : Command) → reply_to c 1 blank_acq ≡ refusal eio
unfolding reply_to
reply_to-blank c = refl

resync_if-wiped :
    (m : Master)
    → CqInv m.acq
    → 0 < m.acq.head
    → ring_index m.acq.depth m.acq.head < length m.acq.entries
    → let s = resync_if 1 m in
      (s.acq.phase ≡ m.acq.phase)
      × (get_or s.acq.entries (ring_index s.acq.depth s.acq.head) blank_acq ≡ blank_acq)
      × (s.now ≡ m.now)
unfolding resync_if resync
resync_if-wiped m v moved inside =
    let e : ltb 0 m.acq.head ≡ true = ground arith in
    rw e (
      resync-phase m.acq v,
      get_or-set_self m.acq.entries (ring_index m.acq.depth m.acq.head) blank_acq blank_acq inside,
      refl,
    )

module _ (w : World) (c : Command) (m : Master) where
  -- A completion that the first poll finds is what the command answers.
  exec_locked-at_once :
      length c.req ≤ 16
      → (e : AcqEntry)
      → let s = submit c m in
        get_or (w.acq_dma s.now 0 s.acq.entries) (ring_index s.acq.depth s.acq.head) blank_acq ≡ e
        → bit_and e.flags 1 ≡ s.acq.phase
        → (exec_locked w c m).0 ≡ reply_to c (command_id_of m.next_command_id) e
  unfolding exec_locked conclude
  exec_locked-at_once fits e here shows =
      let s = submit c m in
      let short : ltb 16 (length c.req) ≡ false = ground arith in
      let budget : 1 ≤ at_least_one c.max_polls = ground arith in
      let once =
        await-first (w.acq_dma s.now) (ring_index s.acq.depth s.acq.head) s.acq.phase
          (at_least_one c.max_polls) s.acq.entries budget
          (ap (λ t. bit_and t.flags 1) here ∙ shows) in
      rw (short, once) (ap (reply_to c (command_id_of m.next_command_id)) here)

  -- Where the ids come back to 1 and the expected phase is 0, with the queue's head past the start:
  -- a request that fits fails with EIO on a device that has not written to the queue by the first
  -- poll. The slot has just been wiped, its phase bit is the expected 0, and its id is 0.
  pub exec_locked-wrap_loss :
      CqInv m.acq
      → length c.req ≤ 16
      → m.next_command_id ≤ 1
      → 0 < m.acq.head
      → m.acq.phase ≡ 0
      → ring_index m.acq.depth m.acq.head < length m.acq.entries
      → ((mem : List AcqEntry) → w.acq_dma m.now 0 mem ≡ mem)
      → (exec_locked w c m).0 ≡ refusal eio
  unfolding submit
  exec_locked-wrap_loss v fits last moved even inside silent =
      let first : command_id_of m.next_command_id ≡ 1 =
        command_id_of-first m.next_command_id last in
      let r' = resync_if 1 (record m { next_command_id = id_after 1 }) in
      let r = resync_if-wiped (record m { next_command_id = id_after 1 }) v moved inside in
      exec_locked-at_once fits blank_acq
        (rw (first, r.2)
          (ap (λ t. get_or t (ring_index r'.acq.depth r'.acq.head) blank_acq) (silent _) ∙ r.1))
        (rw first (sym (r.0 ∙ even)))
      ∙ ap (λ id. reply_to c id blank_acq) first
      ∙ reply_to-blank c
