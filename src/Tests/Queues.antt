-- ===== src/Tests/Queues.antt =====
-- The admin queues.
use lib_ena.Prelude.{◌≡◌, refl, [], ◌∷◌, replicate, arith}
use lib_ena.Status.{eio}
use lib_ena.Ring.Depth.{IsDepth, ring_index}
use lib_ena.Ring.Window.{occ}
use lib_ena.Admin.{Master, blank_acq}
use lib_ena.Admin.Exec.{submit, refusal, exec_locked}
use lib_ena.Admin.Inv.{CqInv, AdminInv, exec_locked-AdminInv}
use lib_ena.Admin.Answered.{Submitted, Exchange, exec_locked-Exchange}
use lib_ena.Admin.WrapLoss.{exec_locked-wrap_loss}
use lib_ena.Admin.Setup.{admin_init}
use lib_ena.Admin.Balance.{Accounted}
use lib_ena.Admin.Started.{Init, admin_init-Init}
use lib_ena.Admin.Events.{Handler}
use lib_ena.Init.Depths.{Offered, clamp_queue_depth-Offered}
use lib_ena.Init.{clamp_queue_depth}
use lib_ena.Recovery.{default_handler}
use lib_ena.Tests.Adapters.{adapter, silent, prompt, warning_posted, query, no_rss}

four : IsDepth 4
four = record { lower = omega arith; upper = omega arith; exponent = 2; power = refl }

adapter-AdminInv : AdminInv adapter
adapter-AdminInv = record {
  sq = record { depth_ok = four; tail_in = omega arith; phase_ok = refl };
  cq = record { depth_ok = four; head_in = omega arith; phase_ok = refl };
  id_in = omega arith;
}

exec_locked-Exchange_example :
    Submitted adapter (submit query adapter)
    × Exchange prompt query adapter (submit query adapter) (exec_locked prompt query adapter)
exec_locked-Exchange_example = exec_locked-Exchange prompt query adapter adapter-AdminInv

exec_locked-AdminInv_example : AdminInv (exec_locked prompt query adapter).1
exec_locked-AdminInv_example = exec_locked-AdminInv prompt query adapter adapter-AdminInv

-- The adapter as the ids come back to 1, on queues of 32 entries.
abbrev wrapped : Master
wrapped = record adapter {
  acq = record {
    base = 2;
    phys = 128;
    depth = 32;
    head = 4095;
    phase = 0;
    entries = replicate 32 blank_acq;
  };
}

wrapped-CqInv : CqInv wrapped.acq
wrapped-CqInv = record {
  depth_ok = record { lower = omega arith; upper = omega arith; exponent = 5; power = refl };
  head_in = omega arith;
  phase_ok = refl;
}

wrapped_slot : ring_index wrapped.acq.depth wrapped.acq.head ≡ 31
unfolding ring_index
wrapped_slot = refl

exec_locked-wrap_loss_example : (exec_locked silent query wrapped).0 ≡ refusal eio
exec_locked-wrap_loss_example =
    exec_locked-wrap_loss silent query wrapped wrapped-CqInv (omega arith) (omega arith)
      (omega arith) refl (omega (arith, wrapped_slot)) (λ mem. refl)

adapter-Accounted : Accounted (λ x. occ x (9 ∷ [])) adapter
adapter-Accounted x = omega arith

admin_init-Init_example :
    Accounted (λ x. occ x (9 ∷ [])) (admin_init silent 8 8 4 adapter).1
    × Init 8 8 4 (admin_init silent 8 8 4 adapter)
admin_init-Init_example =
    admin_init-Init silent 8 8 4 (λ x. occ x (9 ∷ [])) adapter (omega arith) (omega arith)
      (omega arith) adapter-Accounted

-- The handler of the driver.
abbrev on_event : Handler
on_event e m = (default_handler warning_posted no_rss e m).1

clamp_queue_depth-Offered_example : Offered 1000 (clamp_queue_depth 1000)
clamp_queue_depth-Offered_example = clamp_queue_depth-Offered 1000
