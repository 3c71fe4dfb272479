-- ===== src/Netdev/Follows.antt =====
-- A receive ring that a part of `ena_netdev_rx_one` leaves in order, where the ring is not polled.
use lib_ena.Prelude.{◌+◌, ◌≡◌, refl, ◌∙◌, true, List, [], ◌∷◌, is_null}
use lib_ena.Ring.{Ring, u64}
use lib_ena.Rx.Inv.{RxInv}
use lib_ena.Netdev.Receive.{Fragment}

-- A ring that is in order, with the completion queue of another.
pub record Follows (r r' : Ring) : Type 0 where
  pub inv : RxInv r'
  pub cq_same : r'.cq ≡ r.cq
  pub entries_same : r'.rx_cq ≡ r.rx_cq

-- The statistics are no part of the invariant.
pub dropped-Follows :
    {a r : Ring}
    → Follows a r
    → Follows a (record r { stats = record r.stats { rx_dropped = u64 (r.stats.rx_dropped + 1) } })
dropped-Follows v = record {
  inv = record {
    direction = v.inv.direction;
    pool = v.inv.pool;
    flight_length = v.inv.flight_length;
    bufs_length = v.inv.bufs_length;
    flying = v.inv.flying;
  };
  cq_same = v.cq_same;
  entries_same = v.entries_same;
}

pub Follows-trans : {a b c : Ring} → Follows a b → Follows b c → Follows a c
Follows-trans u v = record {
  inv = v.inv;
  cq_same = v.cq_same ∙ u.cq_same;
  entries_same = v.entries_same ∙ u.entries_same;
}

pub is_null-nil : (xs : List Fragment) → is_null xs ≡ true → xs ≡ []
is_null-nil [] e = refl
is_null-nil (x ∷ xs) e = cc
