-- ===== src/Tx/Deferred.antt =====
-- The array of deferred releases: how often a request stands among its first entries.
use lib_ena.Prelude.{
  ℕ, zero, suc, ◌+◌, ◌≤◌, ◌<◌, ◌≡◌, refl, ap, List, [], ◌∷◌, inl, inr, ◌==◌, ltb, Bool-cases,
  length, get_or, set, arith,
}
use lib_ena.Prelude.Flags.{bit}
use lib_ena.Ring.{ForeignFree}
use lib_ena.Tx.Poll.{no_foreign}

-- The entries for request `id` among the first `n`.
abbrev pub deferred : ℕ → List ForeignFree → ℕ → ℕ
deferred id [] n = 0
deferred id (f ∷ fs) zero = 0
deferred id (f ∷ fs) (suc n) = bit (id == f.req_id) + deferred id fs n

pub deferred-suc :
    (id : ℕ) (fs : List ForeignFree) (n : ℕ)
    → n < length fs
    → deferred id fs (suc n) ≡ deferred id fs n + bit (id == (get_or fs n no_foreign).req_id)
deferred-suc id [] n h = absurd (omega arith)
deferred-suc id (f ∷ []) zero h = omega arith
deferred-suc id (f ∷ g ∷ fs) zero h = omega arith
deferred-suc id (f ∷ fs) (suc n) h = omega (arith, deferred-suc id fs n (omega arith))

-- A write behind the first `n` entries.
pub deferred-set_behind :
    (id : ℕ) (fs : List ForeignFree) (i n : ℕ) (e : ForeignFree)
    → n ≤ i
    → deferred id (set fs i e) n ≡ deferred id fs n
deferred-set_behind id [] i n e h = refl
deferred-set_behind id (f ∷ fs) zero zero e h = refl
deferred-set_behind id (f ∷ fs) zero (suc n) e h = absurd (omega arith)
deferred-set_behind id (f ∷ fs) (suc i) zero e h = refl
deferred-set_behind id (f ∷ fs) (suc i) (suc n) e h =
    omega (arith, deferred-set_behind id fs i n e (omega arith))

-- A write among them.
pub deferred-set_inside :
    (id : ℕ) (fs : List ForeignFree) (i n : ℕ) (e : ForeignFree)
    → i < n
    → n ≤ length fs
    → deferred id (set fs i e) n + bit (id == (get_or fs i no_foreign).req_id)
      ≡ deferred id fs n + bit (id == e.req_id)
deferred-set_inside id [] i n e h k = absurd (omega arith)
deferred-set_inside id (f ∷ fs) i zero e h k = absurd (omega arith)
deferred-set_inside id (f ∷ fs) zero (suc n) e h k = omega arith
deferred-set_inside id (f ∷ fs) (suc i) (suc n) e h k =
    omega (arith, deferred-set_inside id fs i n e (omega arith) (omega arith))

-- A new entry at the end.
pub deferred-stage :
    (id : ℕ) (fs : List ForeignFree) (n : ℕ) (e : ForeignFree)
    → n < length fs
    → deferred id (set fs n e) (suc n) ≡ deferred id fs n + bit (id == e.req_id)
deferred-stage id fs n e h = omega (
  arith,
  deferred-set_inside id fs n (suc n) e (omega arith) (omega arith),
  deferred-suc id fs n h,
)

-- The last entry takes the place of entry `i`.
pub deferred-drop :
    (id : ℕ) (fs : List ForeignFree) (i n : ℕ)
    → i < suc n
    → suc n ≤ length fs
    → deferred id (set fs i (get_or fs n no_foreign)) n
        + bit (id == (get_or fs i no_foreign).req_id)
      ≡ deferred id fs (suc n)
deferred-drop id fs i n h k = elim (Bool-cases (ltb i n)) [
  | inl lt ↦
      let inside : i < n = ground arith in
      omega (
        arith,
        deferred-set_inside id fs i n (get_or fs n no_foreign) inside (omega arith),
        deferred-suc id fs n (omega arith),
      )
  | inr ge ↦
      let last : i ≡ n = ground arith in
      omega (
        arith,
        deferred-set_behind id fs i n (get_or fs n no_foreign) (omega arith),
        deferred-suc id fs n (omega arith),
        ap (λ j. bit (id == (get_or fs j no_foreign).req_id)) last,
      )
]

-- An entry is counted.
pub deferred-pos :
    (fs : List ForeignFree) (i n : ℕ)
    → i < n
    → n ≤ length fs
    → 1 ≤ deferred (get_or fs i no_foreign).req_id fs n
deferred-pos [] i n h k = absurd (omega arith)
deferred-pos (f ∷ fs) i zero h k = absurd (omega arith)
deferred-pos (f ∷ fs) zero (suc n) h k = ground arith
deferred-pos (f ∷ fs) (suc i) (suc n) h k =
    omega (arith, deferred-pos fs i n (omega arith) (omega arith))
