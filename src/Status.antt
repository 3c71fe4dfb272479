-- ===== src/Status.antt =====
-- What the driver's functions return: 0 or a value, or a negative errno (errno.h).
use lib_ena.Prelude.{ℕ, ◌≡◌, refl, ap, ◌⊎◌, inl, inr}

-- The codes that the modelled functions return, without their sign. `device s` is the status `s` of
-- an admin completion, which the admin queue returns as `-s`.
pub data Errno : Type 0 where
  einval ebusy enodev enomem etimedout eio enospc eopnotsupp : Errno
  device : ℕ → Errno

pub data Result {ℓ} (A : Type ℓ) : Type ℓ where
  ok : A → Result A
  err : Errno → Result A

-- An `int` that is 0 or a negative code, of a function that returns no value.
abbrev pub Code : Type 0
Code = Result (Unit {0})

abbrev pub success : Code
success = ok tt

pub Code-cases : (c : Code) → (c ≡ success) ⊎ ((e : Errno) × (c ≡ err e))
Code-cases (ok tt) = inl refl
Code-cases (err e) = inr (e, refl)

module _ {ℓ} {A : Type ℓ} where
  pub ok_injective : {a b : A} → ok a ≡ ok b → a ≡ b
  ok_injective {a} e = ap (λ r. elim r [ ok x ↦ x | err _ ↦ a ]) e

  pub err-ne-ok : {e : Errno} {a : A} → ¬ (err e ≡ ok a)
  err-ne-ok h = cc
