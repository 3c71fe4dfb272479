-- ===== src/Admin/Started.antt =====
-- What a success of `ena_admin_init` starts, and its result.
use native.Mathlib.Nat.{div_self}
use lib_ena.Prelude.{
  ℕ, ◌+◌, ◌≤◌, ◌<◌, ◌%◌, ◌≡◌, ◌≢◌, refl, sym, ap, Bool, not, ◌&&◌, ◌||◌, inl, inr, ◌==◌,
  if◌then◌else◌, Bool-cases, arith,
}
use lib_ena.Status.{err, Code, success, einval, enomem}
use lib_ena.Device.{admin_ready}
use lib_ena.Ring.Depth.{IsDepth, is_power_of_two, is_power_of_two-IsDepth}
use lib_ena.Ring.Phase.{phase_at}
use lib_ena.Ring.Lifecycle.{Heap, grab}
use lib_ena.Admin.{EventQueue, Master, World}
use lib_ena.Admin.Inv.{AdminInv}
use lib_ena.Admin.Setup.{admin_fini, installed, admin_alloc, admin_init}
use lib_ena.Admin.Balance.{Accounted, Bare, admin_fini-Accounted, admin_alloc-Accounted}

-- The event queue, whose head counter starts one lap in.
pub record EventInv (q : EventQueue) : Type 0 where
  pub depth_ok : IsDepth q.depth
  pub head_in : q.head < 65536
  pub phase_ok : phase_at q.depth q.head + q.phase ≡ 1

-- What an init leaves of an adapter: in every case the other blocks, and after a success started
-- queues in the ready state.
pub record Running (m : Master) : Type 0 where
  pub admin : AdminInv m
  pub events : EventInv m.aenq
  pub ready : m.dev.state ≡ admin_ready
  pub placed : (m.aq.base ≢ 0) × (m.acq.base ≢ 0) × (m.aenq.base ≢ 0)

-- The last result of an init of the depths `ad`, `qd` and `ed`: a failure of an argument, a failure
-- of an allocation, or the running queues.
pub data Init (ad qd ed : ℕ) : Code × Master → Type 0 where
  invalid : (out : Master) → Init ad qd ed (err einval, out)
  out_of_memory :
      (out : Master)
      → (out.aq.base ≡ 0) × (out.acq.base ≡ 0) × (out.aenq.base ≡ 0)
      → Init ad qd ed (err enomem, out)
  started :
      (out : Master)
      → Running out
      → (out.aq.depth ≡ ad) × (out.acq.depth ≡ qd) × (out.aenq.depth ≡ ed)
      → Init ad qd ed (success, out)

abbrev Depths : ℕ → ℕ → ℕ → Type 0
Depths ad qd ed = IsDepth ad × IsDepth qd × IsDepth ed

phase_at_self : (d : ℕ) → 4 ≤ d → phase_at d d ≡ 0
phase_at_self d h = ap (λ t. (1 + t) % 2) (div_self (omega arith))

phase_at_zero : (d : ℕ) → 4 ≤ d → phase_at d 0 ≡ 1
phase_at_zero d h = omega arith

installed-depths :
    (w : World) (ad qd ed a q e : ℕ) (h : Heap) (m : Master)
    → let out = installed w ad qd ed a q e h m in
      (out.aq.depth ≡ ad) × (out.acq.depth ≡ qd) × (out.aenq.depth ≡ ed)
unfolding installed
installed-depths w ad qd ed a q e h m = (refl, refl, refl)

installed-Running :
    (w : World) (ad qd ed a q e : ℕ) (h : Heap) (m : Master)
    → Depths ad qd ed
    → a ≢ 0
    → q ≢ 0
    → e ≢ 0
    → Running (installed w ad qd ed a q e h m)
unfolding installed
installed-Running w ad qd ed a q e h m (da, dq, de) na nq ne = record {
  admin = record {
    sq = record {
      depth_ok = da;
      tail_in = omega arith;
      phase_ok = sym (phase_at_zero ad da.lower);
    };
    cq = record {
      depth_ok = dq;
      head_in = omega arith;
      phase_ok = sym (phase_at_zero qd dq.lower);
    };
    id_in = omega arith;
  };
  events = record {
    depth_ok = de;
    head_in = de.upper;
    phase_ok = omega (arith, phase_at_self ed de.lower);
  };
  ready = refl;
  placed = (na, nq, ne);
}

admin_alloc-Init :
    (w : World) (ad qd ed : ℕ) (m : Master)
    → Depths ad qd ed
    → Bare m
    → Init ad qd ed (admin_alloc w ad qd ed m)
unfolding admin_alloc
admin_alloc-Init w ad qd ed m d z =
    let (a, h1) = grab w.grants m.heap in
    let (q, h2) = grab w.grants h1 in
    let (e, h3) = grab w.grants h2 in
    elim (Bool-cases (a == 0)) [
      | inl e1 ↦ rw e1 (out_of_memory _ z)
      | inr e1 ↦ elim (Bool-cases (q == 0)) [
        | inl e2 ↦ rw (e1, e2) (out_of_memory _ z)
        | inr e2 ↦ elim (Bool-cases (e == 0)) [
          | inl e3 ↦ rw (e1, e2, e3) (out_of_memory _ z)
          | inr e3 ↦
              rw (e1, e2, e3)
                (started _
                  (installed-Running w ad qd ed a q e h3 m d (ground arith) (ground arith)
                    (ground arith))
                  (installed-depths w ad qd ed a q e h3 m))
        ]
      ]
    ]

abbrev held : Master → Bool
held m = not (m.aq.base == 0) || (not (m.acq.base == 0) || not (m.aenq.base == 0))

cleared-Bare : (m : Master) → Bare (if held m then admin_fini m else m)
unfolding admin_fini
cleared-Bare m = elim (Bool-cases (held m)) [
  | inl e ↦ rw e (refl, refl, refl)
  | inr e ↦ rw e (ground arith, ground arith, ground arith)
]

cleared-Accounted :
    (rest : ℕ → ℕ) (m : Master)
    → Accounted rest m
    → Accounted rest (if held m then admin_fini m else m)
cleared-Accounted rest m b = elim (Bool-cases (held m)) [
  | inl e ↦ rw e (admin_fini-Accounted rest m b)
  | inr e ↦ rw e b
]

-- `ena_admin_init` with 16-bit depths, on an adapter whose blocks are accounted for: no block is
-- lost on any path, since the live blocks afterwards are those that the adapter then holds and the
-- others of before. It fails with EINVAL, or with ENOMEM and no queue held, or it succeeds. Then the
-- queues have the depths asked for, they satisfy their invariants, and the adapter is ready.
pub admin_init-Init :
    (w : World) (ad qd ed : ℕ) (rest : ℕ → ℕ) (m : Master)
    → ad < 65536
    → qd < 65536
    → ed < 65536
    → Accounted rest m
    → Accounted rest (admin_init w ad qd ed m).1 × Init ad qd ed (admin_init w ad qd ed m)
unfolding admin_init
admin_init-Init w ad qd ed rest m ha hq he b = elim (Bool-cases (m.dev.bar0_base == 0)) [
  | inl e ↦ rw e (b, invalid _)
  | inr e ↦
      let m' = if held m then admin_fini m else m in
      let ok_depths = is_power_of_two ad && (is_power_of_two qd && is_power_of_two ed) in
      elim (Bool-cases ok_depths) [
        | inr bad ↦ rw (e, bad) (cleared-Accounted rest m b, invalid _)
        | inl good ↦
            let d : Depths ad qd ed = (
              is_power_of_two-IsDepth ad ha (ground (arith, good)),
              is_power_of_two-IsDepth qd hq (ground (arith, good)),
              is_power_of_two-IsDepth ed he (ground (arith, good)),
            ) in
            rw (e, good)
              (
                admin_alloc-Accounted w ad qd ed rest m' (cleared-Bare m)
                    (cleared-Accounted rest m b),
                admin_alloc-Init w ad qd ed m' d (cleared-Bare m),
              )
      ]
]
