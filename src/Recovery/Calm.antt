-- ===== src/Recovery/Calm.antt =====
-- `ena_aenq_default_handler` (src/ena_admin.c) on a device that posts no fatal event.
use lib_ena.Prelude.{ℕ, ◌≡◌, ◌≢◌, refl, false, ◌==◌, inl, inr, Bool-cases, List, get_or, arith}
use lib_ena.Admin.{AenqEntry, blank_aenq, Master, World}
use lib_ena.Admin.Polled.{LeavesEvents}
use lib_ena.Recovery.{Rss, default_handler}

default_handler-aenq :
    (w : World) (rss : Rss) (e : AenqEntry) (m : Master)
    → e.group ≢ 1
    → (default_handler w rss e m).1.aenq ≡ m.aenq
unfolding default_handler
default_handler-aenq w rss e m calm =
    let fatal : (e.group == 1) ≡ false = ground (arith, calm) in
    elim (Bool-cases (e.group == 0)) [
      | inl z ↦ rw (fatal, z) refl
      | inr z ↦ elim (Bool-cases (e.group == 4)) [
        | inl k ↦ rw (fatal, z, k) refl
        | inr k ↦ rw (fatal, z, k) refl
      ]
    ]

-- The driver's handler leaves the event queue alone at each event, if none is fatal.
pub default_handler-LeavesEvents :
    (w : World) (rss : Rss)
    → ((t : ℕ) (mem : List AenqEntry) (i : ℕ) → (get_or (w.aenq_dma t mem) i blank_aenq).group ≢ 1)
    → LeavesEvents (λ e m. (default_handler w rss e m).1) w
default_handler-LeavesEvents w rss calm t mem i m =
    default_handler-aenq w rss (get_or (w.aenq_dma t mem) i blank_aenq) m (calm t mem i)
