-- ===== src/Recovery/Agree.antt =====
-- Two ways to run commands that agree inside a recovery: what is built from them agrees too.
use mathlib.Core.Path.{subst}
use lib_ena.Prelude.{
  ℕ, ◌≡◌, refl, ap, inl, inr, Bool, true, false, if◌then◌else◌, Option-cases, List,
}
use lib_ena.Status.{Errno, ok, err, Code, Code-cases}
use lib_ena.Ring.{Ring}
use lib_ena.Admin.{Handle, tx_ring, rx_ring, Master, Command, Reply}
use lib_ena.Admin.Client.{Exec, ring_at, on_ring, or_return, answered, return_if}
use lib_ena.Admin.Hardware.{with_ring}

-- Two results that are the same and leave a recovery running.
pub record Same {ℓ} {A : Type ℓ} (x y : A × Master) : Type ℓ where
  pub eq : x ≡ y
  pub active : x.1.recover_active ≡ true

abbrev pub Agree : Exec → Exec → Type 0
Agree exec exec' =
    (c : Command) (m : Master) → m.recover_active ≡ true → Same (exec c m) (exec' c m)

pub Same-refl {ℓ} : {A : Type ℓ} (a : A) (m : Master) → m.recover_active ≡ true → Same (a, m) (a, m)
Same-refl a m e = record { eq = refl; active = e }

pub or_return-Same :
    (x y : Code × Master) (k k' : Master → Code × Master)
    → Same x y
    → ((s : Master) → s.recover_active ≡ true → Same (k s) (k' s))
    → Same (or_return x k) (or_return y k')
unfolding or_return
or_return-Same (ok _, s) y k k' p f = subst (λ z. Same (k s) (or_return z k')) p.eq (f s p.active)
or_return-Same (err e, s) y k k' p f =
    subst (λ z. Same (err e, s) (or_return z k')) p.eq (Same-refl (err e) s p.active)

answered-both :
    (x : Reply × Master) (k k' : List ℕ → Master → Code × Master)
    → x.1.recover_active ≡ true
    → ((resp : List ℕ) (s : Master) → s.recover_active ≡ true → Same (k resp s) (k' resp s))
    → Same (answered x k) (answered x k')
unfolding answered
answered-both (r, s) k k' a f = elim (Code-cases r.ret) [
  | inl e ↦ rw e (f r.resp s a)
  | inr (c, e) ↦ rw e (Same-refl (err c) s a)
]

pub answered-Same :
    (x y : Reply × Master) (k k' : List ℕ → Master → Code × Master)
    → Same x y
    → ((resp : List ℕ) (s : Master) → s.recover_active ≡ true → Same (k resp s) (k' resp s))
    → Same (answered x k) (answered y k')
answered-Same x y k k' p f =
    subst (λ z. Same (answered x k) (answered z k')) p.eq (answered-both x k k' p.active f)

-- The adapter after a step whose result is dropped, with a result of its own.
pub dropped-Same : {A B : Type 0} (b : B) (x y : A × Master) → Same x y → Same (b, x.1) (b, y.1)
dropped-Same b x y p = record { eq = ap (λ z. (b, z.1)) p.eq; active = p.active }

abbrev pub failure : Errno → Master → Code × Master
failure e s = (err e, s)

pub return_if-Same :
    (b : Bool) (e : Errno) (s s' : Master) (x y : Code × Master)
    → Same (failure e s) (failure e s')
    → Same x y
    → Same (return_if b e s x) (return_if b e s' y)
unfolding return_if
return_if-Same true e s s' x y p q = p
return_if-Same false e s s' x y p q = q

pub if-Same {ℓ} :
    {A : Type ℓ} (b : Bool) (x y x' y' : A × Master)
    → Same x x'
    → Same y y'
    → Same (if b then x else y) (if b then x' else y')
if-Same true x y x' y' p q = p
if-Same false x y x' y' p q = q

pub with_ring-Same :
    (h : Handle) (m : Master) (k k' : Ring → Code × Master)
    → m.recover_active ≡ true
    → ((r : Ring) → Same (k r) (k' r))
    → Same (with_ring h m k) (with_ring h m k')
unfolding with_ring
with_ring-Same h m k k' a f = elim (Option-cases (ring_at h m)) [
  | inl e ↦ rw (with_ring, e) (Same-refl _ m a)
  | inr (r, e) ↦ rw (with_ring, e) (f r)
]

pub on_ring-active :
    (h : Handle) (f : Ring → Ring) (m : Master) → (on_ring h f m).recover_active ≡ m.recover_active
on_ring-active (tx_ring q) f m = elim (Option-cases (ring_at (tx_ring q) m)) [
  | inl e ↦ rw (on_ring, e) refl
  | inr (r, e) ↦ rw (on_ring, e) refl
]
on_ring-active (rx_ring q) f m = elim (Option-cases (ring_at (rx_ring q) m)) [
  | inl e ↦ rw (on_ring, e) refl
  | inr (r, e) ↦ rw (on_ring, e) refl
]
