-- ===== src/Admin/Client.antt =====
-- What the clients of the admin queue see: a way to run a command, and the rings of the adapter by
-- their place. `ena_admin_exec_cmd` (src/ena_admin.c) is the way that the driver has.
use lib_ena.Prelude.{
  ℕ, ◌≡◌, refl, ◌∙◌, ◌==◌, Bool, true, false, Option, none, some, List, get_or, set,
}
use lib_ena.Status.{Errno, ok, err, etimedout, device, Code}
use lib_ena.Ring.{Ring}
use lib_ena.Admin.{Handle, tx_ring, rx_ring, Master, Command, Reply}

-- The type of `ena_admin_exec_cmd`.
abbrev pub Exec : Type 0
Exec = Command → Master → Reply × Master

-- The ring at a place; `none` for NULL.
abbrev pub ring_at : Handle → Master → Option Ring
ring_at (tx_ring q) m = get_or m.tx_rings q none
ring_at (rx_ring q) m = get_or m.rx_rings q none

abbrev pub put_ring : Handle → Ring → Master → Master
put_ring (tx_ring q) r m = record m { tx_rings = set m.tx_rings q (some r) }
put_ring (rx_ring q) r m = record m { rx_rings = set m.rx_rings q (some r) }

-- A write through a pointer to a ring; nothing for NULL.
abbrev pub on_ring : Handle → (Ring → Ring) → Master → Master
on_ring h f m = elim (ring_at h m) [ none ↦ m | some r ↦ put_ring h (f r) m ]

-- `if (ret) return ret;` and what follows it.
unfoldable pub or_return : Code × Master → (Master → Code × Master) → Code × Master
or_return (ok _, m) k = k m
or_return (err e, m) k = (err e, m)

-- `if (c) { …; return -e; }` and what follows it; `m` is the adapter at the return.
unfoldable pub return_if : Bool → Errno → Master → Code × Master → Code × Master
return_if true e m k = (err e, m)
return_if false e m k = k

-- The same after a command, whose response goes on.
unfoldable pub answered : Reply × Master → (List ℕ → Master → Code × Master) → Code × Master
answered (r, m) k = elim r.ret [ ok _ ↦ k r.resp m | err e ↦ (err e, m) ]

-- `ret == -ETIMEDOUT`, that is, -110.
unfoldable pub is_timeout : Code → Bool
is_timeout (ok _) = false
is_timeout (err etimedout) = true
is_timeout (err (device s)) = s == 110
is_timeout (err _) = false

-- What a command that does not time out leaves as it was.
pub record Keeps (m out : Master) : Type 0 where
  pub dev : out.dev ≡ m.dev
  pub bar2_base : out.bar2_base ≡ m.bar2_base
  pub bar2_size : out.bar2_size ≡ m.bar2_size
  pub tx_rings : out.tx_rings ≡ m.tx_rings
  pub rx_rings : out.rx_rings ≡ m.rx_rings
  pub num_tx_rings : out.num_tx_rings ≡ m.num_tx_rings
  pub num_rx_rings : out.num_rx_rings ≡ m.num_rx_rings
  pub llq_info : out.llq_info ≡ m.llq_info
  pub attributes : out.attributes ≡ m.attributes
  pub reports : out.reports ≡ m.reports
  pub recover_active : out.recover_active ≡ m.recover_active

pub Keeps-refl : (m : Master) → Keeps m m
Keeps-refl m = record {
  dev = refl;
  bar2_base = refl;
  bar2_size = refl;
  tx_rings = refl;
  rx_rings = refl;
  num_tx_rings = refl;
  num_rx_rings = refl;
  llq_info = refl;
  attributes = refl;
  reports = refl;
  recover_active = refl;
}

pub Keeps-trans : {a b c : Master} → Keeps a b → Keeps b c → Keeps a c
Keeps-trans p q = record {
  dev = q.dev ∙ p.dev;
  bar2_base = q.bar2_base ∙ p.bar2_base;
  bar2_size = q.bar2_size ∙ p.bar2_size;
  tx_rings = q.tx_rings ∙ p.tx_rings;
  rx_rings = q.rx_rings ∙ p.rx_rings;
  num_tx_rings = q.num_tx_rings ∙ p.num_tx_rings;
  num_rx_rings = q.num_rx_rings ∙ p.num_rx_rings;
  llq_info = q.llq_info ∙ p.llq_info;
  attributes = q.attributes ∙ p.attributes;
  reports = q.reports ∙ p.reports;
  recover_active = q.recover_active ∙ p.recover_active;
}

-- The law of the admin queue that its clients rely on.
abbrev pub IsQuiet : Exec → Type 0
IsQuiet exec =
    (c : Command) (m : Master) → is_timeout (exec c m).0.ret ≡ false → Keeps m (exec c m).1
