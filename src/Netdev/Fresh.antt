-- ===== src/Netdev/Fresh.antt =====
-- A new transmit queue: all its slots are free (`ena_netdev_txq_configure`).
use mathlib.Core.Path.{subst}
use lib_ena.Prelude.{
  ℕ, zero, suc, ◌≡◌, refl, sym, ◌∙◌, true, false, Option, none, some, List, replicate,
  length-replicate, get_or, arith,
}
use lib_ena.Prelude.Flags.{flags-replicate}
use lib_ena.Ring.{Ring}
use lib_ena.Ring.Depth.{IsDepth}
use lib_ena.Ring.Inv.{PoolInv}
use lib_ena.Ring.Fresh.{fresh_pool, fresh-PoolInv}
use lib_ena.Tx.Serve.{TxRing}
use lib_ena.Netdev.Slots.{mapped, Slots, none-ne-some}
use lib_ena.Netdev.Configure.{TxPlace, fill_queue}

-- A map with no slot.
abbrev pub no_map : ℕ → List (Option ℕ)
no_map n = replicate n none

pub no_read : (n id : ℕ) → get_or (no_map n) id none ≡ none
no_read zero id = refl
no_read (suc n) zero = refl
no_read (suc n) (suc id) = no_read n id

none_mapped : (n : ℕ) → mapped (no_map n) ≡ 0
unfolding mapped
none_mapped zero = refl
none_mapped (suc n) = omega (arith, none_mapped n)

-- The arrays of a new queue: every slot is free.
pub fresh-Slots :
    (depth : ℕ) (s : TxPlace)
    → IsDepth depth
    → s.queue.nb_desc ≡ depth
    → Slots (fill_queue depth s).queue
fresh-Slots depth s w same =
    let free : (id slot : ℕ) → ¬ (get_or (no_map depth) id none ≡ some slot) =
      λ id slot e. none-ne-some (sym (no_read depth id) ∙ e) in
    record {
      marks = replicate depth false;
      pool =
          subst (λ d. PoolInv d (fresh_pool depth (replicate depth 0))) (sym same)
            (fresh-PoolInv depth (replicate depth 0) w (length-replicate depth 0));
      map_length = length-replicate depth none ∙ sym same;
      marked = λ id slot e. absurd (free id slot e);
      one_request = λ i j slot e f. absurd (free i slot e);
      no_leak = omega (arith, flags-replicate depth, none_mapped depth);
    }

-- The callback is no part of the invariant of a ring.
pub calling-TxRing : (r : Ring) → TxRing r → TxRing (record r { tx_complete_cb = true })
calling-TxRing r v = record {
  inv = record {
    direction = v.inv.direction;
    bufs_length = v.inv.bufs_length;
    held = record {
      pool = v.inv.held.pool;
      flight_length = v.inv.held.flight_length;
      foreign_length = v.inv.held.foreign_length;
      holders = v.inv.held.holders;
      ranged = v.inv.held.ranged;
      whole = v.inv.held.whole;
    };
  };
  cq = v.cq;
  entries = v.entries;
}
