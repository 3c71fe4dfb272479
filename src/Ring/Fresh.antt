-- ===== src/Ring/Fresh.antt =====
-- A pool whose array lists every id in order holds each of them once.
use native.Mathlib.Nat.{mod-eq_of_lt, mod_self}
use mathlib.Core.Path.{subst}
use lib_ena.Prelude.{
  ℕ, zero, suc, ◌+◌, ◌%◌, ◌≤◌, ◌<◌, ◌≡◌, refl, sym, ap, ap₂, ◌∙◌, List, [], ◌∷◌, true, false, ◌&&◌,
  ◌==◌, leb, ltb, inl, inr, Bool-cases, length, length-set, length-replicate, get_or,
  get_or-set_self, get_or-set_ne, get_or-replicate, set, replicate, arith,
}
use lib_ena.Prelude.Flags.{bit, flags-replicate}
use lib_ena.Ring.{IdPool, u16}
use lib_ena.Ring.Depth.{IsDepth}
use lib_ena.Ring.Reset.{fill_ids}
use lib_ena.Ring.Window.{occ, Below, window}
use lib_ena.Ring.Inv.{PoolInv}

-- `n` ids from `h` on.
abbrev pub ids_from : ℕ → ℕ → List ℕ
ids_from h zero = []
ids_from h (suc n) = h ∷ ids_from (suc h) n

occ-ids_from : (id h n : ℕ) → occ id (ids_from h n) ≡ bit (leb h id && ltb id (h + n))
occ-ids_from id h zero = ground arith
occ-ids_from id h (suc n) = ground (arith, occ-ids_from id (suc h) n)

Below-ids_from : (d h n : ℕ) → h + n ≤ d → Below d (ids_from h n)
Below-ids_from d h zero l = tt
Below-ids_from d h (suc n) l = (omega arith, Below-ids_from d (suc h) n (omega arith))

-- The array in order, read from `h` on.
window-ids_from :
    (d : ℕ) (ids : List ℕ)
    → ((j : ℕ) → j < d → get_or ids j 0 ≡ j)
    → (n h : ℕ) → h + n ≤ d
    → window d ids h n ≡ ids_from h n
window-ids_from d ids at zero h l = refl
window-ids_from d ids at (suc zero) h l = ap (λ t. t ∷ []) (at h (omega arith))
window-ids_from d ids at (suc (suc n)) h l =
    let next : (h + 1) % d ≡ suc h =
      omega (arith, mod-eq_of_lt {n = h + 1} {m = d} (omega arith)) in
    ap₂ ◌∷◌ (at h (omega arith)) (
      ap (λ k. window d ids k (suc n)) next
      ∙ window-ids_from d ids at (suc n) (suc h) (omega arith))

pub length-fill_ids : (n i : ℕ) (ids : List ℕ) → length (fill_ids n i ids) ≡ length ids
unfolding fill_ids
length-fill_ids zero i ids = refl
length-fill_ids (suc n) i ids =
    length-fill_ids n (i + 1) (set ids i (u16 i)) ∙ length-set ids i (u16 i)

fill_ids-before :
    (n i j : ℕ) (ids : List ℕ) → j < i → get_or (fill_ids n i ids) j 0 ≡ get_or ids j 0
unfolding fill_ids
fill_ids-before zero i j ids h = refl
fill_ids-before (suc n) i j ids h =
    fill_ids-before n (i + 1) j (set ids i (u16 i)) (omega arith)
    ∙ get_or-set_ne ids i j (u16 i) 0 (omega arith)

fill_ids-at :
    (n i j : ℕ) (ids : List ℕ)
    → i + n ≤ length ids
    → length ids < 65536
    → i ≤ j
    → j < i + n
    → get_or (fill_ids n i ids) j 0 ≡ j
unfolding fill_ids
fill_ids-at zero i j ids f s l h = absurd (omega arith)
fill_ids-at (suc n) i j ids f s l h = elim (Bool-cases (i == j)) [
  | inl e ↦
      let same : i ≡ j = ground arith in
      fill_ids-before n (i + 1) j (set ids i (u16 i)) (omega arith)
      ∙ ap (λ k. get_or (set ids i (u16 i)) k 0) (sym same)
      ∙ get_or-set_self ids i (u16 i) 0 (omega arith)
      ∙ omega arith
  | inr e ↦
      let len = length-set ids i (u16 i) in
      fill_ids-at n (i + 1) j (set ids i (u16 i)) (omega (arith, len)) (omega (arith, len))
        (ground arith) (omega arith)
]

-- A pool as a new ring or a reset leaves it.
abbrev pub fresh_pool : ℕ → List ℕ → IdPool
fresh_pool d ids = record {
  ids = fill_ids d 0 ids;
  head = 0;
  tail = 0;
  count = d;
  allocated = replicate d false;
}

pub fresh_window :
    (d : ℕ) (ids : List ℕ)
    → IsDepth d
    → length ids ≡ d
    → window d (fill_ids d 0 ids) 0 d ≡ ids_from 0 d
fresh_window d ids w len =
    window-ids_from d (fill_ids d 0 ids)
      (λ j h.
        fill_ids-at d 0 j ids (omega arith) (omega (arith, w.upper)) (omega arith) (omega arith))
      d 0 (omega arith)

pub fresh-PoolInv :
    (d : ℕ) (ids : List ℕ) → IsDepth d → length ids ≡ d → PoolInv d (fresh_pool d ids)
fresh-PoolInv d ids w len = record {
  depth_ok = w;
  ids_length = length-fill_ids d 0 ids ∙ len;
  marks_length = length-replicate d false;
  head_in = omega (arith, w.lower);
  tail_at = sym (ap (λ k. k % d) zero_add ∙ mod_self d);
  in_range = subst (Below d) (sym (fresh_window d ids w len)) (Below-ids_from d 0 d (omega arith));
  once = λ id h. ground (
    arith,
    ap (occ id) (fresh_window d ids w len),
    occ-ids_from id 0 d,
    get_or-replicate d id false true h,
  );
  total = omega (arith, flags-replicate d);
}
  where
    zero_add : 0 + d ≡ d
    zero_add = omega arith
