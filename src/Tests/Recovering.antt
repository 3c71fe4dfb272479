-- ===== src/Tests/Recovering.antt =====
-- Queue creation, bring-up and recovery on the adapter of `Tests.Adapters`.
use lib_ena.Prelude.{◌≡◌, refl, false}
use lib_ena.Device.{wait_reset_complete, reset_polls}
use lib_ena.Ring.Depth.{ring_index}
use lib_ena.Ring.Advance.{next_phase}
use lib_ena.Admin.Exec.{
  exec_locked, submit, command_id_of, id_after, build_entry, resync_if, resync, aq_push, acq_pop,
  await, conclude, reply_to,
}
use lib_ena.Admin.Client.{is_timeout, answered, or_return, return_if}
use lib_ena.Admin.Queues.{admin_create_cq, admin_create_sq, admin_create_sq_common}
use lib_ena.Status.{success, err, eio}
use lib_ena.Ring.{tx}
use lib_ena.Ring.Lifecycle.{new_ring, grab}
use lib_ena.Admin.{tx_ring}
use lib_ena.Admin.Hardware.{
  with_ring, store_cq, hw_check_cq, map_cq_db, hw_sq, wants_llq, hw_host_sq, hw_fallback,
  or_destroy_cq, store_sq, hw_finish, map_sq_db, set_valid, ring_create_hw,
}
use lib_ena.Admin.Valid.{Live}
use lib_ena.Admin.Invalidate.{Down, invalidate_io_rings}
use lib_ena.Init.{
  get_device_attributes, read_attributes, get_queue_limits, read_limits, feature_req, feature_id,
  init_exec, ask, tell, set_host_info, config_llq, config_aenq, set_mtu, get_mac_addr, init_run,
}
use lib_ena.Init.Limits.{Limits, get_queue_limits-Limits}
use lib_ena.Init.Configured.{Ready, init_run-Ready}
use lib_ena.Recovery.{
  begun, restart, reset_and_recover, reset_device, busy_exec, exec_with, exec_cmd,
}
use lib_ena.Recovery.Knot.{exec_cmd-IsQuiet, exec_cmd-active}
use lib_ena.Recovery.Driver.{driver_exec, driver_exec-recursive}
use lib_ena.Rss.Configure.{rss_configure}
use lib_ena.Recovery.Failed.{reset_and_recover-failed}
use lib_ena.Recovery.Queue.{create_hw-Live}
use lib_ena.Tests.Adapters.{adapter, silent, prompt, query, no_rss}

created : (ring_create_hw (exec_cmd prompt no_rss) prompt.bus (tx_ring 0) 1 adapter).0 ≡ success
unfolding ring_create_hw with_ring admin_create_cq store_cq hw_check_cq map_cq_db hw_sq wants_llq
    hw_fallback hw_host_sq or_destroy_cq admin_create_sq admin_create_sq_common store_sq hw_finish
    map_sq_db set_valid new_ring exec_cmd exec_with is_timeout exec_locked submit command_id_of
    id_after build_entry resync_if resync aq_push acq_pop await conclude reply_to ring_index
    next_phase answered or_return return_if
created = refl

create_hw-Live_example :
    Live
      (tx_ring 0)
      adapter
      (ring_create_hw (exec_cmd prompt no_rss) prompt.bus (tx_ring 0) 1 adapter).1
create_hw-Live_example =
    create_hw-Live prompt no_rss (tx_ring 0) 1 adapter (new_ring 0 tx 4 4) refl refl created

configured_run : (init_run (exec_cmd prompt no_rss) prompt 1500 adapter).0 ≡ success
unfolding init_run get_device_attributes read_attributes get_queue_limits read_limits feature_req
    feature_id init_exec ask tell set_host_info grab config_llq config_aenq set_mtu get_mac_addr
    exec_cmd exec_with is_timeout exec_locked submit command_id_of id_after build_entry resync_if
    resync aq_push acq_pop await conclude reply_to ring_index next_phase answered or_return
    return_if
configured_run = refl

init_run-Ready_example : Ready 1500 (init_run (exec_cmd prompt no_rss) prompt 1500 adapter).1
init_run-Ready_example =
    init_run-Ready (exec_cmd prompt no_rss) (exec_cmd-IsQuiet prompt no_rss) prompt 1500 adapter
      configured_run

limits_read : (get_queue_limits (exec_cmd prompt no_rss) adapter).0 ≡ success
unfolding get_queue_limits ask init_exec feature_req exec_cmd exec_with is_timeout exec_locked
    submit command_id_of id_after build_entry resync_if resync aq_push acq_pop await conclude
    reply_to ring_index next_phase answered or_return return_if
limits_read = refl

get_queue_limits-Limits_example :
    Limits (get_queue_limits (exec_cmd prompt no_rss) adapter).1.attributes
get_queue_limits-Limits_example =
    get_queue_limits-Limits (exec_cmd prompt no_rss) adapter limits_read

driver_exec-recursive_example :
    driver_exec silent query adapter
    ≡ exec_with silent
        (reset_and_recover (driver_exec silent) silent (rss_configure silent))
        query
        adapter
driver_exec-recursive_example = driver_exec-recursive silent query adapter

exec_cmd-active_example :
    (exec_cmd silent no_rss query adapter).1.recover_active ≡ adapter.recover_active
exec_cmd-active_example = exec_cmd-active silent no_rss query adapter

fatal_restart : (restart silent (begun adapter)).0 ≡ err eio
unfolding restart begun or_return reset_device wait_reset_complete invalidate_io_rings reset_polls
fatal_restart = refl

reset_and_recover-failed_example :
    let (ret, out) = reset_and_recover (busy_exec silent) silent no_rss adapter in
    (ret ≡ err eio) × (out.recover_active ≡ false) × Down 1 out.tx_rings × Down 1 out.rx_rings
reset_and_recover-failed_example =
    reset_and_recover-failed (busy_exec silent) silent no_rss adapter eio refl fatal_restart
