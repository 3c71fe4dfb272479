-- ===== src/Admin/Events.antt =====
-- `ena_admin_aenq_poll` (src/ena_admin.c). The registered handler is a function of the entry and of
-- the adapter. The mask is that of the depth at the start; a handler may replace the queue, and a
-- read through a queue that is NULL is a fault: `none`.
use lib_ena.Prelude.{
  ℕ, zero, suc, ◌+◌, bit_and, ◌==◌, not, if◌then◌else◌, Option, none, some, ◌∷◌, get_or,
}
use lib_ena.Status.{Result, ok, err, einval}
use lib_ena.Ring.{u16}
use lib_ena.Ring.Depth.{ring_index}
use lib_ena.Ring.Advance.{next_phase}
use lib_ena.Admin.{AenqEntry, blank_aenq, EventQueue, write_reg, Master, World}
use lib_ena.Admin.Setup.{aenq_head_db}

-- A handler, its result being dropped.
abbrev pub Handler : Type 0
Handler = AenqEntry → Master → Master

-- The memory of the queue as the next read finds it.
unfoldable pub refreshed : World → Master → Master
refreshed w m = record m {
  aenq = record m.aenq { entries = w.aenq_dma m.now m.aenq.entries };
  now = m.now + 1;
}

-- The head moves on with its phase.
unfoldable pub aenq_pop : ℕ → EventQueue → EventQueue
aenq_pop depth q = record q {
  head = u16 (q.head + 1);
  phase = next_phase depth (u16 (q.head + 1)) q.phase;
}

-- An event is taken from the queue and acknowledged.
unfoldable pub acknowledged : ℕ → Master → Master
acknowledged depth m =
    let q = aenq_pop depth m.aenq in
    record m { aenq = q; log = write_reg aenq_head_db q.head ∷ m.log }

-- The call of the handler, if there is one.
unfoldable pub dispatch : Handler → AenqEntry → Master → Master
dispatch handle e m = if m.aenq_handler == 0 then m else handle e m

-- The loop: `n` events are left of the budget, `count` have been dispatched.
unfoldable pub poll_events : Handler → World → ℕ → ℕ → ℕ → Master → Option (ℕ × Master)
poll_events handle w depth zero count m = some (count, m)
poll_events handle w depth (suc n) count m =
    let s = refreshed w m in
    let e = get_or s.aenq.entries (ring_index depth s.aenq.head) blank_aenq in
    let rest =
      poll_events handle w depth n (suc count) (dispatch handle e (acknowledged depth s)) in
    if m.aenq.base == 0
    then none
    else if not (bit_and e.flags 1 == s.aenq.phase)
    then some (count, s)
    else rest

-- `ena_admin_aenq_poll`: how many events were dispatched.
unfoldable pub aenq_poll : Handler → World → ℕ → Master → Option (Result ℕ × Master)
aenq_poll handle w max_events m =
    if m.aenq.base == 0
    then some (err einval, m)
    else elim (poll_events handle w m.aenq.depth max_events 0 m) [
      | none ↦ none
      | some (n, s) ↦ some (ok n, s)
    ]
