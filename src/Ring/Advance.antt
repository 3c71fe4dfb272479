-- ===== src/Ring/Advance.antt =====
-- The monotonic `uint16_t` counters of a queue: the increment, and the flip of the phase bit where
-- the masked counter comes back to 0.
use Prim.Native.Nat.{bit_xor}
use lib_ena.Prelude.{ℕ, ◌+◌, ◌==◌, if◌then◌else◌}
use lib_ena.Ring.{SubQueue, CompQueue, u16}
use lib_ena.Ring.Depth.{ring_index}

-- `if ((count & (depth - 1)) == 0) phase ^= 1;`
unfoldable pub next_phase : ℕ → ℕ → ℕ → ℕ
next_phase depth count phase = if ring_index depth count == 0 then bit_xor phase 1 else phase

-- `ring->sq_tail++` and the flip.
unfoldable pub sq_advance : SubQueue → SubQueue
sq_advance q = record q {
  tail = u16 (q.tail + 1);
  phase = next_phase q.depth (u16 (q.tail + 1)) q.phase;
}

-- `ring->cq_head++` and the flip.
unfoldable pub cq_advance : CompQueue → CompQueue
cq_advance q = record q {
  head = u16 (q.head + 1);
  phase = next_phase q.depth (u16 (q.head + 1)) q.phase;
}
