-- ===== src/Admin/Answered.antt =====
-- How an admin command ends: src/ena_admin.c, `ena_admin_exec_locked`.
use lib_ena.Prelude.{
  ℕ, zero, suc, ◌+◌, ◌≤◌, ◌<◌, min, bit_and, ◌==◌, ltb, ◌≡◌, ◌≢◌, refl, sym, ap, ◌∙◌, inl, inr,
  Bool, true, false, ◌&&◌, Bool-cases, some, List, length, get_or, arith,
}
use lib_ena.Status.{einval, eio, etimedout}
use lib_ena.Device.{error}
use lib_ena.Ring.{u16}
use lib_ena.Ring.Depth.{ring_index}
use lib_ena.Admin.{AcqEntry, blank_acq, Master, World, Command, Reply, fit}
use lib_ena.Admin.Exec.{
  command_id_of, id_after, resync, resync_if, aq_push, submit, await, acq_pop, refusal, status_code,
  reply_to, conclude, at_least_one, exec_locked,
}
use lib_ena.Admin.Inv.{AdminInv, CqInv, resync-phase}

-- The memory that the first `n` polls leave.
unfoldable pub memory_after :
    (ℕ → List AcqEntry → List AcqEntry) → ℕ → List AcqEntry → List AcqEntry
memory_after dma zero mem = mem
memory_after dma (suc n) mem = dma n (memory_after dma n mem)

module _ (dma : ℕ → List AcqEntry → List AcqEntry) (slot phase : ℕ) (mem : List AcqEntry) where
  -- The entry that poll number `i` finds in the slot.
  abbrev pub found_at : ℕ → AcqEntry
  found_at i = get_or (memory_after dma (suc i) mem) slot blank_acq

  -- Poll number `i` finds the phase.
  abbrev pub Shows : ℕ → Type 0
  Shows i = bit_and (found_at i).flags 1 ≡ phase

  -- A wait of `n` polls from poll `i` on.
  pub data Awaited (i n : ℕ) : Bool × List AcqEntry → Type 0 where
    hit :
        (k : ℕ)
        → i ≤ k
        → k < i + n
        → ((j : ℕ) → i ≤ j → j < k → ¬ Shows j)
        → Shows k
        → Awaited i n (true, memory_after dma (suc k) mem)
    missed :
        ((j : ℕ) → i ≤ j → j < i + n → ¬ Shows j)
        → (left : List AcqEntry) → Awaited i n (false, left)

  silent_before :
      (i k : ℕ)
      → ¬ Shows i
      → ((j : ℕ) → suc i ≤ j → j < k → ¬ Shows j)
      → (j : ℕ) → i ≤ j
      → j < k
      → ¬ Shows j
  silent_before i k here later j h l = elim (Bool-cases (j == i)) [
    | inl e ↦
        let same : j ≡ i = ground arith in
        λ s. here (ap (λ t. bit_and (found_at t).flags 1) (sym same) ∙ s)
    | inr e ↦ later j (ground arith) l
  ]

  Awaited-before :
      (i n : ℕ) (out : Bool × List AcqEntry)
      → ¬ Shows i
      → Awaited (suc i) n out
      → Awaited i (suc n) out
  Awaited-before i n out here (hit k h l u s) =
      hit k (omega arith) (omega arith) (silent_before i k here u) s
  Awaited-before i n out here (missed u left) =
      missed (λ j h l. silent_before i (i + suc n) here (λ k g q. u k g (omega arith)) j h l) left

  await-Awaited : (n i : ℕ) → Awaited i n (await dma slot phase n i (memory_after dma i mem))
  unfolding await memory_after
  await-Awaited zero i = missed (λ j h l. absurd (omega arith)) _
  await-Awaited (suc n) i = elim (Bool-cases (bit_and (found_at i).flags 1 == phase)) [
    | inl e ↦
        rw e (hit i (omega arith) (omega arith) (λ j h l. absurd (omega arith)) (ground arith))
    | inr e ↦ rw e (Awaited-before i n _ (λ s. ground arith) (await-Awaited n (suc i)))
  ]

-- What the caller is told of the completion `e` of the command `id`.
pub data Answer (c : Command) (id : ℕ) (e : AcqEntry) : Reply → Type 0 where
  foreign : bit_and e.command 0x0fff ≢ id → Answer c id e (refusal eio)
  own :
      bit_and e.command 0x0fff ≡ id
      → Answer c id e (record {
        ret = status_code e.status;
        command_id = some id;
        resp = fit (min 14 c.resp_cap) e.response;
      })

reply_to-Answer : (c : Command) (id : ℕ) (e : AcqEntry) → Answer c id e (reply_to c id e)
unfolding reply_to
reply_to-Answer c id e = elim (Bool-cases (bit_and e.command 0x0fff == id)) [
  | inl h ↦ let same : bit_and e.command 0x0fff ≡ id = ground arith in rw (h, same) (own same)
  | inr h ↦ rw h (foreign (ground arith))
]

resync_if-same :
    (id : ℕ) (m : Master)
    → ((resync_if id m).dev ≡ m.dev)
      × ((resync_if id m).now ≡ m.now)
      × ((resync_if id m).next_command_id ≡ m.next_command_id)
      × ((resync_if id m).acq.head ≡ m.acq.head)
      × ((resync_if id m).acq.depth ≡ m.acq.depth)
unfolding resync_if resync
resync_if-same id m = elim (Bool-cases ((id == 1) && ltb 0 m.acq.head)) [
  | inl e ↦ rw e (refl, refl, refl, refl, refl)
  | inr e ↦ rw e (refl, refl, refl, refl, refl)
]

resync_if-phase : (id : ℕ) (m : Master) → CqInv m.acq → (resync_if id m).acq.phase ≡ m.acq.phase
unfolding resync_if
resync_if-phase id m v = elim (Bool-cases ((id == 1) && ltb 0 m.acq.head)) [
  | inl e ↦ rw e (resync-phase m.acq v)
  | inr e ↦ rw e refl
]

-- A submit leaves the completion queue's place and its expected phase.
pub record Submitted (m s : Master) : Type 0 where
  pub dev : s.dev ≡ m.dev
  pub moment : s.now ≡ m.now
  pub next_id : s.next_command_id ≡ id_after (command_id_of m.next_command_id)
  pub tail : s.aq.tail ≡ u16 (m.aq.tail + 1)
  pub head : s.acq.head ≡ m.acq.head
  pub depth : s.acq.depth ≡ m.acq.depth
  pub phase : s.acq.phase ≡ m.acq.phase

submit-Submitted : (c : Command) (m : Master) → AdminInv m → Submitted m (submit c m)
unfolding submit aq_push
submit-Submitted c m v =
    let id = command_id_of m.next_command_id in
    let r = resync_if-same id (record m { next_command_id = id_after id }) in
    record {
      dev = r.0;
      moment = r.1;
      next_id = r.2;
      tail = refl;
      head = r.3;
      depth = r.4;
      phase = resync_if-phase id (record m { next_command_id = id_after id }) v.cq;
    }

-- The results of a command on an adapter, `s` being the adapter as the command has been submitted.
pub data Exchange (w : World) (c : Command) (m s : Master) : Reply × Master → Type 0 where
  refused : 16 < length c.req → Exchange w c m s (refusal einval, m)
  lost :
      (out : Master)
      → out.aq ≡ s.aq
      → out.next_command_id ≡ s.next_command_id
      → ((i : ℕ)
          → i < at_least_one c.max_polls
          → ¬ Shows
              (w.acq_dma s.now)
              (ring_index s.acq.depth s.acq.head)
              s.acq.phase
              s.acq.entries
              i)
      → out.dev ≡ record s.dev { state = error }
      → out.acq.head ≡ s.acq.head
      → Exchange w c m s (refusal etimedout, out)
  answered :
      (i : ℕ) (out : Master) (r : Reply)
      → out.aq ≡ s.aq
      → out.next_command_id ≡ s.next_command_id
      → i < at_least_one c.max_polls
      → ((j : ℕ)
          → j < i
          → ¬ Shows
              (w.acq_dma s.now)
              (ring_index s.acq.depth s.acq.head)
              s.acq.phase
              s.acq.entries
              j)
      → Shows (w.acq_dma s.now) (ring_index s.acq.depth s.acq.head) s.acq.phase s.acq.entries i
      → Answer c
          (command_id_of m.next_command_id)
          (found_at
            (w.acq_dma s.now)
            (ring_index s.acq.depth s.acq.head)
            s.acq.phase
            s.acq.entries
            i)
          r
      → out.dev ≡ s.dev
      → out.acq.head ≡ u16 (s.acq.head + 1)
      → Exchange w c m s (r, out)

module _ (w : World) (c : Command) (m s : Master) where
  conclude-Exchange :
      (out : Bool × List AcqEntry)
      → Awaited
          (w.acq_dma s.now)
          (ring_index s.acq.depth s.acq.head)
          s.acq.phase
          s.acq.entries
          0
          (at_least_one c.max_polls)
          out
      → Exchange w c m s
          (conclude c (command_id_of m.next_command_id) (ring_index s.acq.depth s.acq.head) out s)
  unfolding conclude acq_pop
  conclude-Exchange _ (hit k h l u e) =
      answered k _ _ refl refl (omega (arith, l)) (λ j q. u j (omega arith) q) e
        (reply_to-Answer c (command_id_of m.next_command_id) _) refl refl
  conclude-Exchange _ (missed u left) =
      lost _ refl refl (λ j q. u j (omega arith) (omega (arith, q))) refl refl

-- `ena_admin_exec_locked` with the invariant of the queues: a request of more than 16 words is
-- refused with EINVAL and changes nothing. Any other is put on the queue, takes the next id and
-- moves the tail. If no poll of the budget, one at least, finds the expected phase in the slot of
-- the head, the answer is ETIMEDOUT, the adapter is in its error state and the head stays. Else the
-- first poll that finds it decides: the head moves by one, the state stays, and the entry found is
-- rejected with EIO if its id is another command's, and its status and response are returned
-- otherwise.
pub exec_locked-Exchange :
    (w : World) (c : Command) (m : Master)
    → AdminInv m
    → Submitted m (submit c m) × Exchange w c m (submit c m) (exec_locked w c m)
unfolding exec_locked memory_after
exec_locked-Exchange w c m v = (
  submit-Submitted c m v,
  elim (Bool-cases (ltb 16 (length c.req))) [
    | inl e ↦ rw e (refused (ground arith))
    | inr e ↦ rw e (
        conclude-Exchange w c m (submit c m) _ (await-Awaited _ _ _ _ (at_least_one c.max_polls) 0))
  ],
)
