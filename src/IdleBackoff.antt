-- ===== src/IdleBackoff.antt =====
-- The sleep policy of the sample's worker loop: samples/httpreply-mc/idlebackoff.h. Times are 64-bit
-- numbers of nanoseconds, the counters 32-bit numbers.
use lib_ena.Prelude.{ℕ, ◌+◌, ◌-◌, ◌*◌, ◌%◌, ◌^◌, leb, ltb, Bool, true, false, if◌then◌else◌}
pub mod Sleeps

-- `struct ib_state`
pub record IbState : Type 0 where
  pub streak : ℕ
  pub shift : ℕ
  pub last_work : ℕ

abbrev pub ib_idle_streak_limit : ℕ
ib_idle_streak_limit = 8

abbrev pub ib_active_window_ns : ℕ
ib_active_window_ns = 2000000

abbrev pub ib_active_sleep_ns : ℕ
ib_active_sleep_ns = 20000

abbrev pub ib_long_base_ns : ℕ
ib_long_base_ns = 1000000

abbrev pub ib_long_max_ns : ℕ
ib_long_max_ns = 8000000

abbrev pub ib_long_max_shift : ℕ
ib_long_max_shift = 3

unfoldable pub ib_init : ℕ → IbState
ib_init now = record { streak = 0; shift = 0; last_work = now }

-- `ib_tick`: the sleep, and the state. A shift by 64 or more is not defined in C.
unfoldable pub ib_tick : IbState → ℕ → Bool → ℕ × IbState
ib_tick s now work =
    let streak = (s.streak + 1) % 2 ^ 32 in
    let counted = record s { streak = streak } in
    let budget = ib_long_base_ns * 2 ^ s.shift % 2 ^ 64 in
    let capped = if ltb ib_long_max_ns budget then ib_long_max_ns else budget in
    if work
    then (0, record { streak = 0; shift = 0; last_work = now })
    else if leb streak ib_idle_streak_limit
    then (0, counted)
    else if leb ((now + (2 ^ 64 - s.last_work)) % 2 ^ 64) ib_active_window_ns
    then (ib_active_sleep_ns, counted)
    else if ltb s.shift ib_long_max_shift
    then (capped, record counted { shift = s.shift + 1 })
    else (capped, counted)
