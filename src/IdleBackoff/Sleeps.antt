-- ===== src/IdleBackoff/Sleeps.antt =====
-- How long the policy lets a core sleep.
use lib_ena.Prelude.{
  ℕ, zero, suc, ◌+◌, ◌-◌, ◌*◌, ◌%◌, ◌^◌, ◌≤◌, ◌<◌, ◌≡◌, refl, sym, ap, ◌∙◌, Bool, true, false, inl,
  inr, leb, ltb, if◌then◌else◌, Bool-cases, List, [], ◌∷◌, ap₂, length, arith,
}
use lib_ena.IdleBackoff.{IbState, ib_tick}

pub record IbInv (s : IbState) : Type 0 where
  pub shift_in : s.shift ≤ 3
  pub streak_in : s.streak < 2 ^ 32

-- The dormant sleep after `n` dormant sleeps since the last work: 1, 2, 4, 8, 8, … ms.
abbrev pub dormant_sleep : ℕ → ℕ
dormant_sleep zero = 1000000
dormant_sleep (suc zero) = 2000000
dormant_sleep (suc (suc zero)) = 4000000
dormant_sleep (suc (suc (suc n))) = 8000000

-- The states and sleeps of a core that ticks at these times, none of which brings work.
unfoldable pub idle_sleeps : IbState → List ℕ → List ℕ
idle_sleeps s [] = []
idle_sleeps s (now ∷ nows) = let (sleep, s') = ib_tick s now false in sleep ∷ idle_sleeps s' nows

budget-dormant :
    (n : ℕ)
    → n ≤ 3
    → (if ltb 8000000 (1000000 * 2 ^ n % 2 ^ 64) then 8000000 else 1000000 * 2 ^ n % 2 ^ 64)
      ≡ dormant_sleep n
budget-dormant zero h = refl
budget-dormant (suc zero) h = refl
budget-dormant (suc (suc zero)) h = refl
budget-dormant (suc (suc (suc zero))) h = refl
budget-dormant (suc (suc (suc (suc n)))) h = absurd (omega arith)

-- The sleeps of `n` dormant ticks in a row.
abbrev pub dormant_sleeps : ℕ → ℕ → List ℕ
dormant_sleeps shift zero = []
dormant_sleeps shift (suc n) = dormant_sleep shift ∷ dormant_sleeps (suc shift) n

-- Every time is more than 2 ms after the last work.
abbrev pub Dormant : ℕ → List ℕ → Type 0
Dormant last [] = Unit
Dormant last (now ∷ nows) = (2000000 < (now + (2 ^ 64 - last)) % 2 ^ 64) × Dormant last nows

dormant-bound : (n : ℕ) → dormant_sleep n ≤ 8000000
dormant-bound zero = omega arith
dormant-bound (suc zero) = omega arith
dormant-bound (suc (suc zero)) = omega arith
dormant-bound (suc (suc (suc n))) = omega arith

dormant_sleep-three : (n : ℕ) → 3 ≤ n → dormant_sleep n ≡ 8000000
dormant_sleep-three zero h = absurd (omega arith)
dormant_sleep-three (suc zero) h = absurd (omega arith)
dormant_sleep-three (suc (suc zero)) h = absurd (omega arith)
dormant_sleep-three (suc (suc (suc n))) h = refl

-- From the cap on the sleeps are those of the cap.
dormant_sleeps-three : (a b n : ℕ) → 3 ≤ a → 3 ≤ b → dormant_sleeps a n ≡ dormant_sleeps b n
dormant_sleeps-three a b zero h k = refl
dormant_sleeps-three a b (suc n) h k =
    ap₂ ◌∷◌ (dormant_sleep-three a h ∙ sym (dormant_sleep-three b k))
      (dormant_sleeps-three (suc a) (suc b) n (omega arith) (omega arith))

-- The state after a dormant tick.
abbrev slept : IbState → IbState
slept s = record s { streak = s.streak + 1; shift = if ltb s.shift 3 then s.shift + 1 else s.shift }

dormant_tick :
    (s : IbState) (now : ℕ)
    → IbInv s
    → 8 ≤ s.streak
    → s.streak + 1 < 2 ^ 32
    → 2000000 < (now + (2 ^ 64 - s.last_work)) % 2 ^ 64
    → ib_tick s now false ≡ (dormant_sleep s.shift, slept s)
unfolding ib_tick
dormant_tick s now v long fits late =
    let wrap : (s.streak + 1) % 2 ^ 32 ≡ s.streak + 1 = omega arith in
    let past : leb (s.streak + 1) 8 ≡ false = ground arith in
    let quiet : leb ((now + (2 ^ 64 - s.last_work)) % 2 ^ 64) 2000000 ≡ false = ground arith in
    elim (Bool-cases (ltb s.shift 3)) [
      | inl e ↦ rw (wrap, past, quiet, e, budget-dormant s.shift v.shift_in)
      | inr e ↦ rw (wrap, past, quiet, e, budget-dormant s.shift v.shift_in)
    ]

-- A core that has had eight ticks without work, and then only ticks without work more than 2 ms
-- after the last one, sleeps 1, 2, 4 and then always 8 ms, from the sleep that its state has come
-- to, as long as the streak counter does not wrap.
pub idle_sleeps-dormant_sleeps :
    (nows : List ℕ) (s : IbState)
    → IbInv s
    → 8 ≤ s.streak
    → s.streak + length nows < 2 ^ 32
    → Dormant s.last_work nows
    → idle_sleeps s nows ≡ dormant_sleeps s.shift (length nows)
unfolding idle_sleeps
idle_sleeps-dormant_sleeps [] s v long fits late = refl
idle_sleeps-dormant_sleeps (now ∷ nows) s v long fits (one, late) =
    let tick = dormant_tick s now v long (omega arith) one in
    let rest =
      idle_sleeps-dormant_sleeps nows (slept s)
        (record { shift_in = ground (arith, v.shift_in); streak_in = omega arith }) (omega arith)
        (omega arith) late in
    rw tick
      (ap (λ l. dormant_sleep s.shift ∷ l) (rest ∙ next_shift s.shift v.shift_in (length nows)))
  where
    next_shift :
        (k : ℕ)
        → k ≤ 3
        → (n : ℕ) → dormant_sleeps (if ltb k 3 then k + 1 else k) n ≡ dormant_sleeps (suc k) n
    next_shift k h n = elim (Bool-cases (ltb k 3)) [
      | inl e ↦ rw e (ap (λ m. dormant_sleeps m n) (omega arith))
      | inr e ↦ rw e (dormant_sleeps-three k (suc k) n (ground arith) (ground arith))
    ]

-- A tick of a state that meets the invariant never sleeps more than 8 ms, whatever the time and the
-- work, and keeps the invariant.
pub ib_tick-bound :
    (s : IbState) (now : ℕ) (work : Bool)
    → IbInv s
    → ((ib_tick s now work).0 ≤ 8000000) × IbInv (ib_tick s now work).1
unfolding ib_tick
ib_tick-bound s now true v =
    (omega arith, record { shift_in = omega arith; streak_in = omega arith })
ib_tick-bound s now false v = elim (Bool-cases (leb ((s.streak + 1) % 2 ^ 32) 8)) [
  | inl e ↦ rw e (omega arith, record { shift_in = v.shift_in; streak_in = omega arith })
  | inr past ↦ elim (Bool-cases (leb ((now + (2 ^ 64 - s.last_work)) % 2 ^ 64) 2000000)) [
    | inl e ↦ rw (past, e) (omega arith, record { shift_in = v.shift_in; streak_in = omega arith })
    | inr quiet ↦ elim (Bool-cases (ltb s.shift 3)) [
      | inl e ↦
          rw (past, quiet, e)
            (omega (arith, bound), record { shift_in = ground arith; streak_in = omega arith })
      | inr e ↦
          rw (past, quiet, e)
            (omega (arith, bound), record { shift_in = v.shift_in; streak_in = omega arith })
    ]
  ]
]
  where
    bound :
        (if ltb 8000000 (1000000 * 2 ^ s.shift % 2 ^ 64)
          then 8000000
          else 1000000 * 2 ^ s.shift % 2 ^ 64)
        ≤ 8000000
    bound = rw (budget-dormant s.shift v.shift_in) (dormant-bound s.shift)
