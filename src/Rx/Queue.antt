-- ===== src/Rx/Queue.antt =====
-- The part of `struct uk_netdev_rx_queue` (include/ena_netdev.h) that the receive ring works on.
use lib_ena.Prelude.{ℕ, ◌+◌, ltb, not, ◌&&◌, if◌then◌else◌, Option, List, is_null, set}
use lib_ena.Ring.{Ring, Effect, u16}
use lib_ena.Ring.Depth.{ring_index}

-- An `int16_t` slot is `none` where it is negative.
pub record RxQueue : Type 0 where
  pub bounce_buf : ℕ
  pub nb_desc : ℕ
  pub bounce_free_tail : ℕ
  pub bounce_free_count : ℕ
  pub bounce_free_ids : List ℕ
  pub bounce_map : List (Option ℕ)
  pub pending_slot : Option ℕ

-- A receive ring, the queue that its callbacks name (`none` for NULL), and what has been done
-- outside them, the latest first.
pub record RxIo : Type 0 where
  pub ring : Ring
  pub queue : Option RxQueue
  pub log : List Effect

-- A bounce slot back to its pool, if there is one.
unfoldable pub push_slot : RxQueue → ℕ → RxQueue
push_slot q slot =
    if not (is_null q.bounce_free_ids) && ltb 0 q.nb_desc
    then record q {
      bounce_free_ids = set q.bounce_free_ids q.bounce_free_tail slot;
      bounce_free_tail = u16 (ring_index q.nb_desc (q.bounce_free_tail + 1));
      bounce_free_count = u16 (q.bounce_free_count + 1);
    }
    else q
