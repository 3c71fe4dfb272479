-- ===== src/Admin/Polled.antt =====
-- What a poll of the event queue leaves: src/ena_admin.c, `ena_admin_aenq_poll`.
use lib_ena.Prelude.{ℕ, ◌+◌, ◌≤◌, ◌<◌, bit_and, ◌≡◌, ◌≢◌, List, get_or}
use lib_ena.Ring.{u16}
use lib_ena.Ring.Depth.{ring_index}
use lib_ena.Admin.{AenqEntry, blank_aenq, Master, World}
use lib_ena.Admin.Started.{EventInv}
use lib_ena.Admin.Events.{Handler}

-- A handler that leaves the event queue alone at each event that the device posts, `t` being the time and
-- `mem` the memory before.
abbrev pub LeavesEvents : Handler → World → Type 0
LeavesEvents handle w =
    (t : ℕ) (mem : List AenqEntry) (i : ℕ) (m : Master)
    → (handle (get_or (w.aenq_dma t mem) i blank_aenq) m).aenq ≡ m.aenq

-- What a poll of a queue with head `h` leaves after `n` events of a budget: the head has moved by as
-- many, and where the budget is not used up, the entry at the head does not have the phase.
pub record Drained (d h budget n : ℕ) (out : Master) : Type 0 where
  pub within : n ≤ budget
  pub events : EventInv out.aenq
  pub depth : out.aenq.depth ≡ d
  pub head : out.aenq.head ≡ u16 (h + n)
  pub dry :
      n < budget
      → bit_and (get_or out.aenq.entries (ring_index d out.aenq.head) blank_aenq).flags 1
        ≢ out.aenq.phase
