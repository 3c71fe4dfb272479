-- ===== src/Tests/Others.antt =====
-- The push buffer, the device, the ring of file descriptors and the sleep policy.
use lib_ena.Prelude.{
  ◌^◌, Option, ◌+◌, get_or, ◌%◌, ℕ, zero, suc, ◌≡◌, ◌==◌, if◌then◌else◌, refl, Bool, true, false,
  List, [], ◌∷◌, some, replicate, length-replicate, arith,
}
use lib_ena.Status.{ok}
use lib_ena.Ring.{Ring, Io}
use lib_ena.Ring.Depth.{ring_index}
use lib_ena.Ring.Ids.{req_id_alloc}
use lib_ena.Ring.Reset.{fill_ids}
use lib_ena.Ring.Lifecycle.{new_ring}
use lib_ena.Tx.Inv.{TxInv}
use lib_ena.Llq.Push.{falls_back, llq_tx_push}
use lib_ena.Llq.Written.{Written}
use lib_ena.Llq.Pushed.{Pushed, llq_push-Pushed}
use lib_ena.Rss.{RssInfo, query_ind_table_limits, set_ind_table}
use lib_ena.Rss.Table.{Sized, query-Sized, set_ind_table-entries}
use lib_ena.Rss.Setup.{RssState}
use lib_ena.Device.{Adapter, pci_probed, wait_reset_complete}
use lib_ena.Device.Reset.{Ended, wait_reset-Ended}
use lib_ena.Spsc.{SpscRing}
use lib_ena.Spsc.Fifo.{SpscInv, Op, push, pop, run, fifo_run, contents, run-fifo_run}
use lib_ena.IdleBackoff.{IbState}
use lib_ena.IdleBackoff.Sleeps.{IbInv, idle_sleeps, dormant_sleeps, idle_sleeps-dormant_sleeps}
use lib_ena.Tests.Rings.{tx_ring, tx_ring-TxRing, packet, io}

-- A ring with a push buffer of four entries of 128 bytes.
abbrev llq_ring : Ring
llq_ring = record tx_ring {
  push = record {
    is_llq = true;
    virt = 65536;
    phys = 65536;
    size = 512;
    header_len = 96;
    entry_size = 128;
  };
}

llq-TxInv : TxInv llq_ring
llq-TxInv = record {
  direction = tx_ring-TxRing.inv.direction;
  bufs_length = tx_ring-TxRing.inv.bufs_length;
  held = tx_ring-TxRing.inv.held;
}

abbrev no_data : ℕ → Bool
no_data nb = false

abbrev pushed_io : Io
pushed_io = (llq_tx_push no_data 3 packet (some (1 ∷ 2 ∷ [])) 2 (io llq_ring)).1

llq_usable : falls_back llq_ring ≡ false
unfolding new_ring
llq_usable = refl

llq_pushed : llq_tx_push no_data 3 packet (some (1 ∷ 2 ∷ [])) 2 (io llq_ring) ≡ (ok 0, pushed_io)
unfolding llq_tx_push new_ring req_id_alloc fill_ids ring_index
llq_pushed = refl

llq_push-Pushed_example :
    Pushed packet llq_ring 0 pushed_io.ring
    × Written packet (some (1 ∷ 2 ∷ [])) 2 llq_ring [] 0 pushed_io.log
llq_push-Pushed_example =
    llq_push-Pushed no_data 3 2 packet (some (1 ∷ 2 ∷ [])) (io llq_ring) llq-TxInv llq_usable 0
      pushed_io llq_pushed

abbrev probed : Adapter
probed = record {
  bar0_base = 4096;
  bar0_size = 16384;
  state = pci_probed;
  version = 0;
  controller_version = 0;
  caps = 0;
}

-- The reset is in progress for two reads.
abbrev third_read : ℕ → ℕ
third_read zero = 0x08
third_read (suc zero) = 0x08
third_read (suc (suc n)) = 0x10

wait_reset-Ended_example :
    Ended third_read probed 0 (if 5 == 0 then 1 else 5) (wait_reset_complete third_read 5 probed)
wait_reset-Ended_example = wait_reset-Ended third_read 5 probed (omega arith)

-- The counters are about to wrap.
abbrev fd_ring : SpscRing
fd_ring = record {
  head = 18446744073709551615;
  tail = 18446744073709551615;
  slot_data = replicate 1024 0;
}

fd_ring-SpscInv : SpscInv fd_ring
fd_ring-SpscInv = record {
  slots = length-replicate {A = ℕ} 1024 0;
  head_in = omega arith;
  tail_in = omega arith;
  held = omega arith;
}

abbrev fd_ops : List Op
fd_ops = push 5 ∷ push 6 ∷ pop ∷ pop ∷ pop ∷ []

run-fifo_run_example : run fd_ring fd_ops ≡ fifo_run (contents fd_ring) fd_ops
run-fifo_run_example = run-fifo_run fd_ops fd_ring fd_ring-SpscInv

-- Eight ticks without work.
abbrev idle : IbState
idle = record { streak = 8; shift = 0; last_work = 0 }

idle-IbInv : IbInv idle
idle-IbInv = record { shift_in = omega arith; streak_in = omega arith }

abbrev late_times : List ℕ
late_times = 3000000 ∷ 4000000 ∷ 6000000 ∷ 10000000 ∷ 18000000 ∷ []

idle_sleeps-dormant_sleeps_example : idle_sleeps idle late_times ≡ dormant_sleeps 0 5
idle_sleeps-dormant_sleeps_example =
    idle_sleeps-dormant_sleeps late_times idle idle-IbInv (omega arith) (omega arith)
      (omega arith, (omega arith, (omega arith, (omega arith, (omega arith, tt)))))

-- A table of eight entries.
abbrev table : RssInfo
table = record { ind_table_size = 8; host_ind_table = replicate 8 0; ind_table = replicate 8 0 }

-- The device knows the ring of queue `q` as `q + 16`.
abbrev from_16 : ℕ → Option ℕ
from_16 q = some (q + 16)

set_ind_table-entries_example :
    ((set_ind_table (ok tt) from_16 3 table).0 ≡ ok tt)
    × (get_or (set_ind_table (ok tt) from_16 3 table).1.host_ind_table 7 0 ≡ 7 % 3)
    × (get_or (set_ind_table (ok tt) from_16 3 table).1.ind_table 7 0 ≡ 7 % 3 + 16)
set_ind_table-entries_example =
    set_ind_table-entries (ok tt) from_16 3 7 table (omega arith) (omega arith) refl refl
      (omega arith)

query-Sized_example :
    (rss' : RssInfo) × (query_ind_table_limits (ok (7, 9)) 3 table ≡ some rss') × Sized 7 9 3 rss'
query-Sized_example =
    query-Sized 7 9 3 table (omega arith) (omega arith) (omega arith) (omega arith)

-- Nothing is set up, on a heap with one block of another part.
abbrev bare : RssState
bare = record {
  info = record { ind_table_size = 0; host_ind_table = []; ind_table = [] };
  host_ind_table = 0;
  ind_table = 0;
  hash_key = 0;
  hash_ctrl = 0;
  supported = false;
  enabled = false;
  heap = record { calls = 20; live = 9 ∷ [] };
}

-- A device with the table and the key.
abbrev table_and_key : ℕ
table_and_key = 2 ^ 10 + 2 ^ 12
