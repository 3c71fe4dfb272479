-- ===== src/Recovery.antt =====
-- The recovery of the device and its entry points: src/ena_admin.c, from `ena_adapter_recover_io_rings`
-- to `ena_admin_exec_cmd`, and `ena_aenq_default_handler`.
--
-- A recovery sends commands, and a command that times out starts a recovery: the source cuts this
-- knot with `recover_active`. Here the commands of a recovery are those of `busy_exec`, whose
-- timeouts find the flag set; `Recovery.Fixpoint` is about the recursion that this stands for.
-- `rss` is `ena_rss_configure` of src/ena_rss.c, which is an argument, with the commands that it sends
-- and the number of queues as its own; `Recovery.Driver` fills it.
use lib_ena.Prelude.{
  ℕ, zero, suc, ◌+◌, ◌-◌, ◌*◌, ◌^◌, bit_and, bit_or, ◌==◌, ltb, not, ◌&&◌, ◌||◌, Bool, true, false,
  if◌then◌else◌, Option, none, some, List, [], ◌∷◌, get_or, set,
}
use lib_ena.Status.{Result, Errno, ok, err, Code, success, einval, ebusy, enodev}
use lib_ena.Device.{State, error, device_reset, wait_reset_complete}
use lib_ena.Ring.{Ring, u32}
use lib_ena.Rx.Queue.{RxIo}
use lib_ena.Rx.Refill.{Allocator, rx_refill}
use lib_ena.Admin.{
  AenqEntry, Access, write_reg, Handle, tx_ring, rx_ring, Master, World, Command, Reply,
}
use lib_ena.Admin.Exec.{refusal, exec_locked}
use lib_ena.Admin.Setup.{logged, admin_init}
use lib_ena.Admin.Client.{Exec, is_timeout, ring_at, put_ring, or_return}
use lib_ena.Admin.Hardware.{ring_create_hw}
use lib_ena.Admin.Invalidate.{ring_log, invalidate_io_rings}
use lib_ena.Init.{config_aenq, reapply_device_features}
pub mod Calm
pub mod Knot
pub mod Failed
pub mod Agree
pub mod AgreeQueue
pub mod AgreeInit
pub mod Fixpoint
pub mod Queue
pub mod Driver

-- The type of `ena_rss_configure`.
abbrev pub Rss : Type 0
Rss = Exec → ℕ → Master → Code × Master

-- The first error that a loop saw, and how many queues it created.
pub record Tally : Type 0 where
  pub ret : Code
  pub created : ℕ

abbrev pub first_error : Code → Code → Code
first_error (ok _) r = r
first_error (err e) r = err e

-- The vector of a queue: 0 without a table.
abbrev pub vector_of : ℕ → Master → ℕ
vector_of q m = if m.irq_vectors then u32 (q + 1) else 0

-- What a refill of RX queue 0 leaves; it ends within its fuel, so `none` does not occur.
unfoldable pub refilled : Option (Result ℕ × RxIo) → Master → Master
refilled none m = m
refilled (some (_, s)) m = record (put_ring (rx_ring 0) s.ring m) {
  rx_queue = s.queue;
  log = ring_log s.log m.log;
}

-- The refill of RX queue 0, if it has a callback.
unfoldable pub refill_first : Option Allocator → Ring → Master → Master
refill_first none r m = m
refill_first (some alloc) r m =
    let s : RxIo = record { ring = r; queue = m.rx_queue; log = [] } in
    refilled (rx_refill alloc (r.sq.depth - 1) s) m

-- What follows the creation of an RX queue.
unfoldable pub after_rx : World → ℕ → Master → Master
after_rx w q m =
    if q == 0
    then elim (ring_at (rx_ring 0) m) [ none ↦ m | some r ↦ refill_first w.refill_netbuf r m ]
    else m

-- The outcome of a creation is noted; `follow` runs after a success.
unfoldable pub counted : Tally → (Master → Master) → Code × Master → Tally × Master
counted t follow (err e, m) = (record t { ret = first_error t.ret (err e) }, m)
counted t follow (ok _, m) = (record t { created = t.created + 1 }, follow m)

-- One round of either loop, `r` being the ring at its place: one that is missing or valid is passed
-- over.
unfoldable pub recover_ring :
    Exec → World → Handle → ℕ → (Master → Master) → Option Ring → Tally × Master → Tally × Master
recover_ring exec w h vector follow none s = s
recover_ring exec w h vector follow (some r) (t, m) =
    if r.hw_valid then (t, m) else counted t follow (ring_create_hw exec w.bus h vector m)

-- The loops over the rings: `n` are left, the next one is `q`.
unfoldable pub recover_tx : Exec → World → ℕ → ℕ → Tally × Master → Tally × Master
recover_tx exec w zero q s = s
recover_tx exec w (suc n) q s =
    recover_tx exec w n (suc q)
      (recover_ring exec w (tx_ring q) (vector_of q s.1) (λ m. m) (ring_at (tx_ring q) s.1) s)

unfoldable pub recover_rx : Exec → World → ℕ → ℕ → Tally × Master → Tally × Master
recover_rx exec w zero q s = s
recover_rx exec w (suc n) q s =
    recover_rx exec w n (suc q)
      (recover_ring exec w (rx_ring q) (vector_of q s.1) (after_rx w q) (ring_at (rx_ring q) s.1) s)

-- `ena_adapter_recover_io_rings`
unfoldable pub recover_io_rings : Exec → World → Rss → Master → Code × Master
recover_io_rings exec w rss m =
    let none_yet : Tally = record { ret = success; created = 0 } in
    let s1 = recover_tx exec w m.num_tx_rings 0 (none_yet, m) in
    let (t, m2) = recover_rx exec w s1.1.num_rx_rings 0 s1 in
    let (fret, m3) = reapply_device_features exec (rss exec) m2 in
    if t.created == 0 then (t.ret, m2) else (first_error t.ret fret, m3)

unfoldable pub any_ring : ℕ → List (Option Ring) → Bool
any_ring zero rings = false
any_ring (suc n) [] = false
any_ring (suc n) (none ∷ rings) = any_ring n rings
any_ring (suc n) (some r ∷ rings) = true

-- `ena_adapter_has_io_rings`
unfoldable pub has_io_rings : Master → Bool
has_io_rings m = any_ring m.num_tx_rings m.tx_rings || any_ring m.num_rx_rings m.rx_rings

-- `ena_device_reset` and `ena_device_wait_reset_complete` on the adapter.
unfoldable pub reset_device : World → Master → Code × Master
reset_device w m =
    let (_, writes) = device_reset (w.control m.now) m.dev in
    let written : List Access = elim writes [ [] ↦ m.log | v ∷ _ ↦ write_reg 0x54 v ∷ m.log ] in
    let (ret, dev) = wait_reset_complete (w.status m.now) 1000 m.dev in
    (ret, record m { dev = dev; log = written; now = m.now + 1 })

-- `ena_admin_aenq_register`
unfoldable pub aenq_register : ℕ → Master → Code × Master
aenq_register handler m =
    if handler == 0 then (err einval, m) else (success, record m { aenq_handler = handler })

abbrev pub depth_or : ℕ → ℕ
depth_or d = if d == 0 then 32 else d

-- The section of the recovery that holds the lock: the reset, the admin queues anew, and the event
-- handler in its place.
unfoldable pub restart : World → Master → Code × Master
restart w m = or_return (reset_device w m) λ m1.
    or_return
      (admin_init w (depth_or m1.aq.depth) (depth_or m1.acq.depth) (depth_or m1.aenq.depth) m1)
      λ m2. (success, (aenq_register m.aenq_handler m2).1)

-- What follows a successful restart: the event groups, the queues and the features.
unfoldable pub rebuild : Exec → World → Rss → Master → Code × Master
rebuild exec w rss m =
    let groups = not (has_io_rings m) && not (m.reports.aenq_enabled_groups == 0) in
    let m1 = if groups then (config_aenq exec m).1 else m in recover_io_rings exec w rss m1

abbrev pub idle_again : Code × Master → Code × Master
idle_again (ret, m) = (ret, record m { recover_active = false })

-- The flag and the state are set, and the rings are given up.
unfoldable pub begun : Master → Master
begun m =
    invalidate_io_rings (record m { recover_active = true; dev = record m.dev { state = error } })

-- `ena_adapter_reset_and_recover`, `exec` being the commands that it sends.
unfoldable pub reset_and_recover : Exec → World → Rss → Master → Code × Master
reset_and_recover exec w rss m =
    let rest = or_return (restart w (begun m)) (rebuild exec w rss) in
    if m.recover_active then (err ebusy, m) else idle_again rest

abbrev pub is_error : State → Bool
is_error error = true
is_error _ = false

-- `ena_admin_exec_cmd`, `recover` being what it does after a timeout.
unfoldable pub exec_with : World → (Master → Code × Master) → Exec
exec_with w recover c m =
    let (r, m1) = exec_locked w c m in
    if m.aq.base == 0 || m.acq.base == 0
    then (refusal einval, m)
    else if is_error m.dev.state
    then (refusal enodev, m)
    else if is_timeout r.ret
    then (r, (recover m1).1)
    else (r, m1)

-- A command inside a recovery: a timeout finds `recover_active` set.
unfoldable pub busy_exec : World → Exec
busy_exec w c m = exec_with w (λ s. (err ebusy, s)) c m

-- `ena_admin_exec_cmd`
unfoldable pub exec_cmd : World → Rss → Exec
exec_cmd w rss c m = exec_with w (reset_and_recover (busy_exec w) w rss) c m

-- A 64-bit counter of two words of an event.
abbrev pub counter64 : AenqEntry → ℕ → ℕ
counter64 e i = get_or e.data_words (i + 1) 0 * 2 ^ 32 + get_or e.data_words i 0

-- `ena_aenq_default_handler`: link changes, fatal errors and keep-alives; the rest is only printed.
unfoldable pub default_handler : World → Rss → AenqEntry → Master → Code × Master
default_handler w rss e m =
    if e.group == 1
    then reset_and_recover (busy_exec w) w rss m
    else if e.group == 0
    then (
      success,
      record m {
        reports = record m.reports { link_up = not (bit_and (get_or e.data_words 0 0) 1 == 0) };
      },
    )
    else if e.group == 4
    then (
      success,
      record m {
        reports = record m.reports {
          aen_keepalives = u32 (m.reports.aen_keepalives + 1);
          aen_rx_drops = counter64 e 0;
          aen_tx_drops = counter64 e 2;
        };
      },
    )
    else (success, m)
