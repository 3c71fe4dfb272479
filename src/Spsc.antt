-- ===== src/Spsc.antt =====
-- The ring of file descriptors between two threads of the sample: samples/httpreply-mc/spsc.h. Each
-- thread runs its own operation; the loads and stores of the other fall before or after its one
-- publishing store, so an operation is taken as a step at that store. `size_t` has 64 bits.
use lib_ena.Prelude.{
  ℕ, ◌+◌, ◌-◌, ◌%◌, ◌^◌, leb, ◌==◌, Bool, true, false, if◌then◌else◌, Option, none, some, List,
  get_or, set,
}
pub mod Fifo

abbrev pub spsc_cap : ℕ
spsc_cap = 1024

pub record SpscRing : Type 0 where
  pub head : ℕ
  pub tail : ℕ
  pub slot_data : List ℕ

unfoldable pub spsc_ring_init : SpscRing → SpscRing
spsc_ring_init r = record r { head = 0; tail = 0 }

unfoldable pub spsc_ring_empty : SpscRing → Bool
spsc_ring_empty r = r.head == r.tail

-- `h - t` in a `size_t`
abbrev pub distance : ℕ → ℕ → ℕ
distance h t = (h + (2 ^ 64 - t)) % 2 ^ 64

unfoldable pub spsc_ring_full : SpscRing → Bool
spsc_ring_full r = leb spsc_cap (distance r.head r.tail)

-- `spsc_ring_push`: whether there was room, and the ring.
unfoldable pub spsc_ring_push : ℕ → SpscRing → Bool × SpscRing
spsc_ring_push fd r = if leb spsc_cap (distance r.head r.tail) then (false, r) else (
  true,
  record r { slot_data = set r.slot_data (r.head % spsc_cap) fd; head = (r.head + 1) % 2 ^ 64 },
)

-- `spsc_ring_pop`: what it stores through `fd_out` where it returns true, and the ring.
unfoldable pub spsc_ring_pop : SpscRing → Option ℕ × SpscRing
spsc_ring_pop r = if r.head == r.tail then (none, r) else (
  some (get_or r.slot_data (r.tail % spsc_cap) 0),
  record r { tail = (r.tail + 1) % 2 ^ 64 },
)
