-- ===== src/Recovery/Queue.antt =====
-- `ena_ring_create_hw` over the admin queue that the driver has: src/ena_datapath.c and
-- src/ena_admin.c together.
use lib_ena.Prelude.{ℕ, ◌≡◌, false, some}
use lib_ena.Status.{success}
use lib_ena.Ring.{Ring}
use lib_ena.Admin.{Handle, Master, World}
use lib_ena.Admin.Client.{ring_at}
use lib_ena.Admin.Hardware.{ring_create_hw}
use lib_ena.Admin.Valid.{Live, ring_create_hw-Live}
use lib_ena.Recovery.{Rss, exec_cmd}
use lib_ena.Recovery.Knot.{exec_cmd-IsQuiet}

-- `ena_ring_create_hw` with the commands of `ena_admin_exec_cmd`, on a ring of an adapter with LLQ
-- mode off, whatever the device does: if it answers 0, the ring is marked valid, each of its three
-- registers (submission doorbell, completion doorbell, unmask) has offset 0 or is a whole aligned
-- word inside BAR0, and a doorbell pointer whose offset is not 0 is BAR0 plus the offset. The device
-- record and the LLQ settings of the adapter are as before.
pub create_hw-Live :
    (w : World) (rss : Rss) (h : Handle) (vector : ℕ) (m : Master) (r : Ring)
    → m.llq_info.enabled ≡ false
    → ring_at h m ≡ some r
    → (ring_create_hw (exec_cmd w rss) w.bus h vector m).0 ≡ success
    → Live h m (ring_create_hw (exec_cmd w rss) w.bus h vector m).1
create_hw-Live w rss h vector m r =
    ring_create_hw-Live (exec_cmd w rss) (exec_cmd-IsQuiet w rss) w.bus h vector m r
