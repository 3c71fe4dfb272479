-- ===== src/Admin/Ensures.antt =====
-- What the success of a block of code leaves: lemmas on the early returns of `Admin.Client`.
use lib_ena.Prelude.{ℕ, ◌≡◌, refl, inl, inr, Bool, true, false, List}
use lib_ena.Status.{Errno, ok, err, Code, success, err-ne-ok, Code-cases}
use lib_ena.Admin.{Master, Reply}
use lib_ena.Admin.Client.{or_return, answered, return_if}

-- A block of code whose success leaves an adapter that satisfies `P`.
pub record Ensures (P : Master → Type 0) (x : Code × Master) : Type 0 where
  pub after : x.0 ≡ success → P x.1

pub at_once : (P : Master → Type 0) (s : Master) → P s → Ensures P (success, s)
at_once P s p = record { after = λ _. p }

pub or_return-Ensures :
    (Q P : Master → Type 0) (x : Code × Master) (k : Master → Code × Master)
    → Ensures Q x
    → ((s : Master) → Q s → Ensures P (k s))
    → Ensures P (or_return x k)
unfolding or_return
or_return-Ensures Q P (ok _, s) k q p = p s (q.after refl)
or_return-Ensures Q P (err c, s) k q p = record { after = λ e. absurd (err-ne-ok e) }

pub answered-Ensures :
    (Q P : Master → Type 0) (x : Reply × Master) (k : List ℕ → Master → Code × Master)
    → (x.0.ret ≡ success → Q x.1)
    → ((resp : List ℕ) (s : Master) → Q s → Ensures P (k resp s))
    → Ensures P (answered x k)
unfolding answered
answered-Ensures Q P (r, s) k q p = elim (Code-cases r.ret) [
  | inl f ↦ rw f (p r.resp s (q f))
  | inr (c, f) ↦ rw f (record { after = λ e. absurd (err-ne-ok e) })
]

pub return_if-Ensures :
    (P : Master → Type 0) (b : Bool) (c : Errno) (s : Master) (y : Code × Master)
    → (b ≡ false → Ensures P y)
    → Ensures P (return_if b c s y)
unfolding return_if
return_if-Ensures P true c s y p = record { after = λ e. absurd (err-ne-ok e) }
return_if-Ensures P false c s y p = p refl
