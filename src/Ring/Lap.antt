-- ===== src/Ring/Lap.antt =====
-- A consumer that goes through a completion ring by the phase bit looks at no slot twice. A queue is
-- read through `slot`, the phase bit of the entry in each slot, which stays as it is meanwhile.
use mathlib.Core.Path.{subst}
use lib_ena.Prelude.{
  ℕ, ◌+◌, ◌≤◌, ◌<◌, ◌≡◌, ◌≢◌, refl, sym, ap, ap₂, ◌∙◌, inl, inr, ◌==◌, Bool-cases, arith,
}
use lib_ena.Ring.{CompQueue, u16}
use lib_ena.Ring.Depth.{IsDepth, ring_index}
use lib_ena.Ring.Advance.{next_phase, cq_advance}
use lib_ena.Ring.Phase.{phase_at, next_phase-phase_at, lap_turns}

-- A completion queue whose phase stands for its head counter.
pub record CqInv (q : CompQueue) : Type 0 where
  pub depth_ok : IsDepth q.depth
  pub head_in : q.head < 65536
  pub phase_ok : q.phase ≡ phase_at q.depth q.head

pub cq_advance-CqInv : (q : CompQueue) → CqInv q → CqInv (cq_advance q)
unfolding cq_advance
cq_advance-CqInv q v = record {
  depth_ok = v.depth_ok;
  head_in = omega arith;
  phase_ok =
      ap (next_phase q.depth (u16 (q.head + 1))) v.phase_ok
      ∙ next_phase-phase_at q.head v.depth_ok v.head_in;
}

cq_advance-head : (q : CompQueue) → (cq_advance q).head ≡ u16 (q.head + 1)
unfolding cq_advance
cq_advance-head q = refl

cq_advance-depth : (q : CompQueue) → (cq_advance q).depth ≡ q.depth
unfolding cq_advance
cq_advance-depth q = refl

-- The entry at the head has the phase that the queue expects.
abbrev pub Matches : (ℕ → ℕ) → CompQueue → Type 0
Matches slot q = slot (ring_index q.depth q.head) ≡ q.phase

-- After `m` rounds of a loop that began at counter `h`: the counter has moved by `m`, and from the
-- first round on the entry at the start is known to have had the phase of the start.
pub record Lap (slot : ℕ → ℕ) (d h m : ℕ) (q : CompQueue) : Type 0 where
  pub cq : CqInv q
  pub depth : q.depth ≡ d
  pub head : q.head ≡ u16 (h + m)
  pub start : 1 ≤ m → slot (ring_index d h) ≡ phase_at d h

pub Lap-start : (slot : ℕ → ℕ) (q : CompQueue) → CqInv q → Lap slot q.depth q.head 0 q
Lap-start slot q v = record {
  cq = v;
  depth = refl;
  head = omega (arith, v.head_in);
  start = λ h. absurd (omega arith);
}

module _ {slot : ℕ → ℕ} {d h m : ℕ} {q : CompQueue} (hin : h < 65536) (l : Lap slot d h m q)
    (e : Matches slot q) where
  here_phase : slot (ring_index d (u16 (h + m))) ≡ phase_at d (u16 (h + m))
  here_phase =
      ap₂ (λ dd hh. slot (ring_index dd hh)) (sym l.depth) (sym l.head)
      ∙ e
      ∙ l.cq.phase_ok
      ∙ ap₂ phase_at l.depth l.head

  -- A whole lap on, the entry at the start cannot match again.
  pub lap_over : m ≢ d
  lap_over full =
      let ok : IsDepth d = subst IsDepth l.depth l.cq.depth_ok in
      let turn = lap_turns h ok hin in
      let again = ap (λ t. u16 (h + t)) full in
      turn.1 (
        sym (ap (phase_at d) again)
        ∙ sym here_phase
        ∙ ap (λ t. slot (ring_index d t)) again
        ∙ ap slot turn.0
        ∙ l.start (omega (arith, ok.lower, full)))

  start_known : slot (ring_index d h) ≡ phase_at d h
  start_known = elim (Bool-cases (m == 0)) [
    | inr pos ↦ l.start (ground arith)
    | inl first ↦
        let at_start : u16 (h + m) ≡ h = ground arith in
        subst (λ t. slot (ring_index d t) ≡ phase_at d t) at_start here_phase
  ]

  -- One round on.
  pub Lap-next : {q' : CompQueue} → q' ≡ cq_advance q → Lap slot d h (m + 1) q'
  Lap-next p = record {
    cq = subst CqInv (sym p) (cq_advance-CqInv q l.cq);
    depth = ap (λ (t : CompQueue). t.depth) p ∙ cq_advance-depth q ∙ l.depth;
    head =
        ap (λ (t : CompQueue). t.head) p
        ∙ cq_advance-head q
        ∙ ap (λ t. u16 (t + 1)) l.head
        ∙ omega arith;
    start = λ _. start_known;
  }
