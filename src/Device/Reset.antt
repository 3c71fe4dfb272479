-- ===== src/Device/Reset.antt =====
-- When the wait for a reset ends, and how.
use lib_ena.Prelude.{
  ℕ, zero, suc, ◌+◌, ◌≤◌, ◌<◌, ◌≡◌, ◌≢◌, ap, ◌∙◌, Bool, true, false, not, ◌&&◌, ◌||◌, inl, inr,
  ◌==◌, if◌then◌else◌, Bool-cases, arith,
}
use lib_ena.Status.{err, Code, success, eio, etimedout}
use lib_ena.Device.{Adapter, error, in_progress, finished, fatal, reset_polls, wait_reset_complete}

-- A status that ends the wait.
abbrev pub decisive : ℕ → Bool
decisive status = fatal status || (finished status && not (in_progress status))

-- The reads before number `m` are not decisive.
abbrev pub Undecided : (ℕ → ℕ) → ℕ → ℕ → Type 0
Undecided status i m = (j : ℕ) → i ≤ j → j < m → decisive (status j) ≡ false

-- How a wait of `n` reads from read `i` on ends.
pub data Ended (status : ℕ → ℕ) (a : Adapter) (i n : ℕ) : Code × Adapter → Type 0 where
  done :
      (m : ℕ)
      → i ≤ m
      → m < i + n
      → Undecided status i m
      → fatal (status m) ≡ false
      → finished (status m) ≡ true
      → in_progress (status m) ≡ false
      → Ended status a i n (success, a)
  failed :
      (m : ℕ)
      → i ≤ m
      → m < i + n
      → Undecided status i m
      → fatal (status m) ≡ true
      → Ended status a i n (err eio, record a { state = error })
  timed_out : Undecided status i (i + n) → Ended status a i n (err etimedout, a)

-- One undecisive read before.
Undecided-before :
    (status : ℕ → ℕ) (i m : ℕ)
    → decisive (status i) ≡ false
    → Undecided status (i + 1) m
    → Undecided status i m
Undecided-before status i m here later j h l = elim (Bool-cases (j == i)) [
  | inl e ↦ let same : j ≡ i = ground arith in ap (λ k. decisive (status k)) same ∙ here
  | inr e ↦ later j (ground arith) l
]

Ended-before :
    (status : ℕ → ℕ) (a : Adapter) (i n : ℕ) (out : Code × Adapter)
    → decisive (status i) ≡ false
    → Ended status a (i + 1) n out
    → Ended status a i (suc n) out
Ended-before status a i n out here (done m h l u f d p) =
    done m (omega arith) (omega arith) (Undecided-before status i m here u) f d p
Ended-before status a i n out here (failed m h l u f) =
    failed m (omega arith) (omega arith) (Undecided-before status i m here u) f
Ended-before status a i n out here (timed_out u) =
    timed_out
      (λ j h l. Undecided-before status i (i + suc n) here (λ k g q. u k g (omega arith)) j h l)

polls-Ended :
    (status : ℕ → ℕ) (n i : ℕ) (a : Adapter) → Ended status a i n (reset_polls status n i a)
unfolding reset_polls
polls-Ended status zero i a = timed_out (λ j h l. absurd (omega arith))
polls-Ended status (suc n) i a = elim (Bool-cases (fatal (status i))) [
  | inl f ↦ rw f (failed i (omega arith) (omega arith) (λ j h l. absurd (omega arith)) f)
  | inr f ↦ elim (Bool-cases (finished (status i) && not (in_progress (status i)))) [
    | inl d ↦
        rw (f, d)
          (done i (omega arith) (omega arith) (λ j h l. absurd (omega arith)) f (ground (arith, d))
            (ground (arith, d)))
    | inr d ↦
        let here : decisive (status i) ≡ false = rw (f, d) in
        rw (f, d)
          (Ended-before status a i n (reset_polls status n (i + 1) a) here
            (polls-Ended status n (i + 1) a))
  ]
]

-- `ena_device_wait_reset_complete` on an adapter with a mapped BAR ends within `max_polls` reads, one
-- at least, at the first decisive status: with 0 and the adapter as it was where that status is
-- finished, not in progress and not fatal, with EIO and the adapter in its error state where it is
-- fatal. It answers ETIMEDOUT only where every read of the budget is undecisive.
pub wait_reset-Ended :
    (status : ℕ → ℕ) (max_polls : ℕ) (a : Adapter)
    → a.bar0_base ≢ 0
    → Ended status a 0
        (if max_polls == 0 then 1 else max_polls)
        (wait_reset_complete status max_polls a)
unfolding wait_reset_complete
wait_reset-Ended status max_polls a mapped =
    let e : (a.bar0_base == 0) ≡ false = ground arith in
    rw e (polls-Ended status (if max_polls == 0 then 1 else max_polls) 0 a)
