-- ===== src/Ring/Window.antt =====
-- The part of a circular array that a FIFO holds, and how often an id stands in a list.
use native.Mathlib.Nat.{mod-add-mod, mod-eq_of_lt, mod-eq-sub-mod, add-zero}
use lib_ena.Prelude.{
  ℕ, zero, suc, ◌+◌, ◌-◌, ◌%◌, ◌<◌, ◌≡◌, ◌≢◌, refl, ap, ap₂, ◌∙◌, List, [], ◌∷◌, ◌++◌, inl, inr,
  ◌==◌, Bool-cases, ltb, lt→ltb, ltb→lt, length, get_or, set, get_or-set_self, get_or-set_ne, arith,
}
use lib_ena.Prelude.Flags.{bit}

-- How often `a` stands in a list.
abbrev pub occ : ℕ → List ℕ → ℕ
occ a [] = 0
occ a (x ∷ xs) = bit (a == x) + occ a xs

-- Every entry is below `d`.
abbrev pub Below : ℕ → List ℕ → Type 0
Below d [] = Unit
Below d (x ∷ xs) = (x < d) × Below d xs

pub occ-append : (a : ℕ) (xs ys : List ℕ) → occ a (xs ++ ys) ≡ occ a xs + occ a ys
occ-append a [] ys = omega arith
occ-append a (x ∷ xs) ys = omega (arith, occ-append a xs ys)

pub Below-append : (d : ℕ) (xs ys : List ℕ) → Below d xs → Below d ys → Below d (xs ++ ys)
Below-append d [] ys h k = k
Below-append d (x ∷ xs) ys h k = (h.0, Below-append d xs ys h.1 k)

module _ (d : ℕ) (ids : List ℕ) where
  -- The `n` entries from index `h` on, round the end of the array.
  abbrev pub window : ℕ → ℕ → List ℕ
  window h zero = []
  window h (suc n) = get_or ids h 0 ∷ window ((h + 1) % d) n

  pub length-window : (from n : ℕ) → length (window from n) ≡ n
  length-window from zero = refl
  length-window from (suc n) = ap suc (length-window ((from + 1) % d) n)

  -- `window` matches on `suc`, the code tests `count == 0`.
  pub window-front : (h n : ℕ) → n ≢ 0 → window h n ≡ get_or ids h 0 ∷ window ((h + 1) % d) (n - 1)
  window-front h zero p = absurd (p refl)
  window-front h (suc n) p = ap (λ k. window h (suc k)) (omega arith)

-- Less than a turn round the array does not come back.
turn-ne : (d h k : ℕ) → h < d → suc k < d → (h + suc k) % d ≢ h
turn-ne d h k p q = elim (Bool-cases (ltb (h + suc k) d)) [
  | inl e ↦ let lt : h + suc k < d = ltb→lt _ _ e in omega (arith, mod-eq_of_lt lt)
  | inr e ↦
      let ge : ¬ (h + suc k < d) = λ lt. cc (lt→ltb _ _ lt) in
      omega (
        arith,
        mod-eq-sub-mod {n = h + suc k} {m = d} (omega arith),
        mod-eq_of_lt {n = h + suc k - d} {m = d} (omega arith),
      )
]

-- A write at the index after the window appends to it.
pub window-extend :
    (d : ℕ) (ids : List ℕ) (h n id : ℕ)
    → length ids ≡ d
    → h < d
    → n < d
    → window d (set ids ((h + n) % d) id) h (suc n) ≡ window d ids h n ++ (id ∷ [])
window-extend d ids h zero id len hh hn =
    rw (add-zero, mod-eq_of_lt hh, get_or-set_self ids h id 0 (omega arith))
window-extend d ids h (suc n) id len hh hn =
    ap₂ ◌∷◌ (get_or-set_ne ids ((h + suc n) % d) h id 0 (turn-ne d h n hh hn)) (
      ap (λ k. window d (set ids k id) ((h + 1) % d) (suc n)) shift
      ∙ window-extend d ids ((h + 1) % d) n id len (omega arith) (omega arith))
  where
    shift : (h + suc n) % d ≡ ((h + 1) % d + n) % d
    shift = rw mod-add-mod (ap (λ k. k % d) (omega arith))
