-- ===== src/Admin/Inv.antt =====
-- The invariant of the admin queues: the phases stand for the counters, the ids are in range.
use Prim.Native.Nat.{bit_xor}
use lib_ena.Prelude.{
  ℕ, zero, suc, ◌+◌, ◌/◌, ◌%◌, ◌≤◌, ◌<◌, bit_and, ◌==◌, ltb, ◌≡◌, ap, ◌∙◌, inl, inr, Bool, true,
  false, ◌&&◌, Bool-cases, length, List, arith,
}
use lib_ena.Prelude.Bits.{bit_and_mask}
use lib_ena.Ring.{u16}
use lib_ena.Ring.Depth.{IsDepth}
use lib_ena.Ring.Advance.{next_phase}
use lib_ena.Ring.Phase.{phase_at, next_phase-phase_at}
use lib_ena.Admin.{AqEntry, AcqEntry, AdminSq, AdminCq, Master, World, Command}
use lib_ena.Admin.Exec.{
  command_id_of, id_after, build_entry, resync, resync_if, aq_push, submit, acq_pop, conclude,
  exec_locked,
}

pub record SqInv (q : AdminSq) : Type 0 where
  pub depth_ok : IsDepth q.depth
  pub tail_in : q.tail < 65536
  pub phase_ok : q.phase ≡ phase_at q.depth q.tail

pub record CqInv (q : AdminCq) : Type 0 where
  pub depth_ok : IsDepth q.depth
  pub head_in : q.head < 65536
  pub phase_ok : q.phase ≡ phase_at q.depth q.head

pub record AdminInv (m : Master) : Type 0 where
  pub sq : SqInv m.aq
  pub cq : CqInv m.acq
  pub id_in : m.next_command_id < 4096

aq_push-SqInv : (e : AqEntry) (q : AdminSq) → SqInv q → SqInv (aq_push e q)
unfolding aq_push
aq_push-SqInv e q v = record {
  depth_ok = v.depth_ok;
  tail_in = omega arith;
  phase_ok =
      ap (next_phase q.depth (u16 (q.tail + 1))) v.phase_ok
      ∙ next_phase-phase_at q.tail v.depth_ok v.tail_in;
}

acq_pop-CqInv : (q : AdminCq) → CqInv q → CqInv (acq_pop q)
unfolding acq_pop
acq_pop-CqInv q v = record {
  depth_ok = v.depth_ok;
  head_in = omega arith;
  phase_ok =
      ap (next_phase q.depth (u16 (q.head + 1))) v.phase_ok
      ∙ next_phase-phase_at q.head v.depth_ok v.head_in;
}

bit_xor-one : (n : ℕ) → n < 2 → bit_xor 1 n ≡ (1 + n) % 2
bit_xor-one zero h = omega arith
bit_xor-one (suc zero) h = omega arith
bit_xor-one (suc (suc n)) h = absurd (omega arith)

-- On a completion queue whose phase stands for its head, the phase that the wrap of the command ids
-- computes from the head is the phase that the queue has.
pub resync-phase : (q : AdminCq) → CqInv q → (resync q).phase ≡ q.phase
unfolding resync
resync-phase q v =
    let m : bit_and (q.head / q.depth) 1 ≡ q.head / q.depth % 2 =
      bit_and_mask 1 (q.head / q.depth) in
    let x : bit_xor 1 (bit_and (q.head / q.depth) 1) ≡ (1 + bit_and (q.head / q.depth) 1) % 2 =
      bit_xor-one (bit_and (q.head / q.depth) 1) (omega (arith, m)) in
    let p : bit_xor 1 (bit_and (q.head / q.depth) 1) ≡ phase_at q.depth q.head =
      omega (arith, m, x) in
    ground (arith, p, v.phase_ok, v.depth_ok.lower)

resync-CqInv : (q : AdminCq) → CqInv q → CqInv (resync q)
unfolding resync
resync-CqInv q v = record {
  depth_ok = v.depth_ok;
  head_in = v.head_in;
  phase_ok = resync-phase q v ∙ v.phase_ok;
}

resync_if-AdminInv : (id : ℕ) (m : Master) → AdminInv m → AdminInv (resync_if id m)
unfolding resync_if
resync_if-AdminInv id m v = elim (Bool-cases ((id == 1) && ltb 0 m.acq.head)) [
  | inl e ↦ rw e (record { sq = v.sq; cq = resync-CqInv m.acq v.cq; id_in = v.id_in })
  | inr e ↦ rw e v
]

pub command_id_of-range : (n : ℕ) → n < 4096 → (1 ≤ command_id_of n) × (command_id_of n < 4096)
unfolding command_id_of
command_id_of-range n h = (ground arith, ground arith)

id_after-lt : (id : ℕ) → id_after id < 4096
unfolding id_after
id_after-lt id =
    let m : bit_and (id + 1) 0x0fff ≡ (id + 1) % 4096 = bit_and_mask 12 (id + 1) in
    (command_id_of-range (bit_and (id + 1) 0x0fff) (omega (arith, m))).1

pub submit-AdminInv : (c : Command) (m : Master) → AdminInv m → AdminInv (submit c m)
unfolding submit
submit-AdminInv c m v =
    let id = command_id_of m.next_command_id in
    let r =
      resync_if-AdminInv id (record m { next_command_id = id_after id })
        (record { sq = v.sq; cq = v.cq; id_in = id_after-lt id }) in
    record {
      sq = aq_push-SqInv (build_entry c id m.aq.phase) m.aq v.sq;
      cq = r.cq;
      id_in = r.id_in;
    }

conclude-AdminInv :
    (c : Command) (id slot : ℕ) (out : Bool × List AcqEntry) (m : Master)
    → AdminInv m
    → AdminInv (conclude c id slot out m).1
unfolding conclude
conclude-AdminInv c id slot (true, mem) m v = record {
  sq = v.sq;
  cq =
      acq_pop-CqInv (record m.acq { entries = mem })
        (record { depth_ok = v.cq.depth_ok; head_in = v.cq.head_in; phase_ok = v.cq.phase_ok });
  id_in = v.id_in;
}
conclude-AdminInv c id slot (false, mem) m v = record {
  sq = v.sq;
  cq = record { depth_ok = v.cq.depth_ok; head_in = v.cq.head_in; phase_ok = v.cq.phase_ok };
  id_in = v.id_in;
}

-- Whatever the device does, `ena_admin_exec_locked` keeps the invariant of the admin queues: depths
-- that are powers of two from 4 on, 16-bit counters, phases that stand for the counters, and a next
-- command id below 4096.
pub exec_locked-AdminInv :
    (w : World) (c : Command) (m : Master) → AdminInv m → AdminInv (exec_locked w c m).1
unfolding exec_locked
exec_locked-AdminInv w c m v = elim (Bool-cases (ltb 16 (length c.req))) [
  | inl e ↦ rw e v
  | inr e ↦ rw e (
      conclude-AdminInv c (command_id_of m.next_command_id) _ _ (submit c m)
        (submit-AdminInv c m v))
]
