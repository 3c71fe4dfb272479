-- ===== src/Admin/Exec.antt =====
-- `ena_admin_exec_locked` (src/ena_admin.c): one admin command and the wait for its completion.
use Prim.Native.Nat.{bit_xor}
use lib_ena.Prelude.{
  ℕ, zero, suc, ◌+◌, ◌/◌, ◌%◌, ◌^◌, min, bit_and, bit_or, ◌==◌, ltb, Bool, true, false, not, ◌&&◌,
  if◌then◌else◌, none, some, List, [], ◌∷◌, length, get_or, set,
}
use lib_ena.Status.{err, Errno, Code, success, einval, eio, etimedout, device}
use lib_ena.Device.{error}
use lib_ena.Ring.{u16}
use lib_ena.Ring.Depth.{ring_index}
use lib_ena.Ring.Advance.{next_phase}
use lib_ena.Admin.{
  AqEntry, AcqEntry, blank_acq, AdminSq, AdminCq, write_reg, Master, World, Command, Reply, fit,
}

-- `ENA_REGS_…_OFF`
abbrev pub aq_db : ℕ
aq_db = 0x2c

abbrev pub acq_tail : ℕ
acq_tail = 0x30

-- The id of the next command, which is never 0.
unfoldable pub command_id_of : ℕ → ℕ
command_id_of next = if next == 0 then 1 else next

-- The id after it, in 12 bits.
unfoldable pub id_after : ℕ → ℕ
id_after id = command_id_of (bit_and (id + 1) 0x0fff)

-- The words of the entry, and the flags that the request brings: a request of a whole entry is
-- copied over it, a shorter one to its data.
abbrev pub payload : List ℕ → List ℕ
payload [] = fit 15 []
payload (w ∷ ws) = if ltb 15 (length (w ∷ ws)) then fit 15 ws else fit 15 (w ∷ ws)

abbrev pub own_flags : List ℕ → ℕ
own_flags [] = 0
own_flags (w ∷ ws) = if ltb 15 (length (w ∷ ws)) then bit_and (w / 2 ^ 24 % 2 ^ 8) 0xfe else 0

unfoldable pub build_entry : Command → ℕ → ℕ → AqEntry
build_entry c id phase =
    let words = payload c.req in
    let flags = own_flags c.req in
    let indirect = if ltb 0 (get_or words 0 0) then bit_or flags 0x04 else flags in
    record {
      command_id = id;
      opcode = c.opcode;
      flags = bit_or indirect (bit_and phase 1);
      data_words = words;
    }

-- Where the ids have come back to 1: the phase is set from the head, and the slot is wiped.
unfoldable pub resync : AdminCq → AdminCq
resync q = record q {
  phase = if ltb 0 q.depth then bit_xor 1 (bit_and (q.head / q.depth) 1) else q.phase;
  entries = set q.entries (ring_index q.depth q.head) blank_acq;
}

unfoldable pub resync_if : ℕ → Master → Master
resync_if id m =
    if id == 1 && ltb 0 m.acq.head
    then record m { acq = resync m.acq; log = write_reg acq_tail m.acq.head ∷ m.log }
    else m

-- The tail moves on with its phase.
unfoldable pub aq_push : AqEntry → AdminSq → AdminSq
aq_push e q = record q {
  entries = set q.entries (ring_index q.depth q.tail) e;
  tail = u16 (q.tail + 1);
  phase = next_phase q.depth (u16 (q.tail + 1)) q.phase;
}

-- The command in its slot, and `ena_admin_ring_aq_db`.
unfoldable pub submit : Command → Master → Master
submit c m =
    let id = command_id_of m.next_command_id in
    let aq = aq_push (build_entry c id m.aq.phase) m.aq in
    let s = resync_if id (record m { next_command_id = id_after id }) in
    record s { aq = aq; log = write_reg aq_db aq.tail ∷ s.log }

-- The poll loop: `n` polls are left, the next one is poll `i`. The answer says whether the entry in
-- the slot has got the phase, and comes with the memory that the last poll found.
unfoldable pub await :
    (ℕ → List AcqEntry → List AcqEntry) → ℕ → ℕ → ℕ → ℕ → List AcqEntry → Bool × List AcqEntry
await dma slot phase zero i mem = (false, mem)
await dma slot phase (suc n) i mem =
    let rest = await dma slot phase n (suc i) (dma i mem) in
    if bit_and (get_or (dma i mem) slot blank_acq).flags 1 == phase then (true, dma i mem) else rest

-- The head moves on with its phase.
unfoldable pub acq_pop : AdminCq → AdminCq
acq_pop q = record q {
  head = u16 (q.head + 1);
  phase = next_phase q.depth (u16 (q.head + 1)) q.phase;
}

-- A failure that writes none of the results.
abbrev pub refusal : Errno → Reply
refusal e = record { ret = err e; command_id = none; resp = [] }

abbrev pub status_code : ℕ → Code
status_code status = if status == 0 then success else err (device status)

-- What the caller gets for a completion: nothing of one that is not the command's own.
unfoldable pub reply_to : Command → ℕ → AcqEntry → Reply
reply_to c id e = if not (bit_and e.command 0x0fff == id) then refusal eio else record {
  ret = status_code e.status;
  command_id = some (bit_and e.command 0x0fff);
  resp = fit (min 14 c.resp_cap) e.response;
}

-- The memory of the completion queue after the wait, in the adapter.
abbrev pub waited : List AcqEntry → Master → Master
waited mem m = record m { acq = record m.acq { entries = mem }; now = m.now + 1 }

-- The end of a wait.
unfoldable pub conclude : Command → ℕ → ℕ → Bool × List AcqEntry → Master → Reply × Master
conclude c id slot (found, mem) m =
    let s = waited mem m in
    let q = acq_pop s.acq in
    if found
    then (
      reply_to c id (get_or mem slot blank_acq),
      record s { acq = q; log = write_reg acq_tail q.head ∷ s.log },
    )
    else (refusal etimedout, record s { dev = record s.dev { state = error } })

abbrev pub at_least_one : ℕ → ℕ
at_least_one n = if n == 0 then 1 else n

-- `ena_admin_exec_locked`
unfoldable pub exec_locked : World → Command → Master → Reply × Master
exec_locked w c m =
    let id = command_id_of m.next_command_id in
    let s = submit c m in
    let slot = ring_index s.acq.depth s.acq.head in
    let out = await (w.acq_dma s.now) slot s.acq.phase (at_least_one c.max_polls) 0 s.acq.entries in
    if ltb 16 (length c.req) then (refusal einval, m) else conclude c id slot out s
