-- ===== src/Ring/Inv.antt =====
-- The invariant of the request id pool: every id is free exactly once, or allocated.
use native.Mathlib.Nat.{mod-add-mod, mod-lt}
use mathlib.Core.Path.{subst}
use lib_ena.Prelude.{
  ℕ, zero, suc, ◌+◌, ◌-◌, ◌%◌, ◌<◌, ◌≡◌, ◌≢◌, refl, sym, ap, ◌∙◌, List, [], ◌∷◌, ◌++◌, Bool, true,
  false, length, length-set, get_or, set, get_or-set_self, get_or-set_ne, arith,
}
use lib_ena.Prelude.Flags.{bit, flags, flags-set, bit-le-flags}
use lib_ena.Ring.{IdPool, u16}
use lib_ena.Ring.Depth.{IsDepth, ring_index, ring_index-mod, ring_index-lt}
use lib_ena.Ring.Ids.{pop_id, push_id}
use lib_ena.Ring.Window.{occ, occ-append, Below, Below-append, window, window-front, window-extend}

-- The free ids, the next to be handed out first.
abbrev pub free_ids : ℕ → IdPool → List ℕ
free_ids d p = window d p.ids p.head p.count

pub record PoolInv (d : ℕ) (p : IdPool) : Type 0 where
  pub depth_ok : IsDepth d
  pub ids_length : length p.ids ≡ d
  pub marks_length : length p.allocated ≡ d
  pub head_in : p.head < d
  pub tail_at : p.tail ≡ (p.head + p.count) % d
  pub in_range : Below d (free_ids d p)
  pub once : (id : ℕ) → id < d → occ id (free_ids d p) + bit (get_or p.allocated id true) ≡ 1
  pub total : p.count + flags p.allocated ≡ d

-- A default is not read inside an array.
pub get_or_default :
    (xs : List Bool) (i : ℕ) (a b : Bool) → i < length xs → get_or xs i a ≡ get_or xs i b
get_or_default [] i a b h = absurd (omega arith)
get_or_default (x ∷ xs) zero a b h = refl
get_or_default (x ∷ xs) (suc i) a b h = get_or_default xs i a b (omega arith)

module _ {d : ℕ} {p : IdPool} (v : PoolInv d p) where
  -- The pool wraps its indices without a cut by the `uint16_t` cast.
  pub next_index : (i : ℕ) → u16 (ring_index d (i + 1)) ≡ (i + 1) % d
  next_index i =
      omega (
        arith,
        ring_index-mod (i + 1) v.depth_ok,
        ring_index-lt (i + 1) v.depth_ok,
        v.depth_ok.upper,
      )

  pub front_in : p.count ≢ 0 → get_or p.ids p.head 0 < d
  front_in ne = (subst (Below d) (window-front d p.ids p.head p.count ne) v.in_range).0

  -- The id at the front is not allocated, and stands nowhere else in the pool.
  pub front_free :
      p.count ≢ 0
      → (get_or p.allocated (get_or p.ids p.head 0) true ≡ false)
        × (occ (get_or p.ids p.head 0) (window d p.ids ((p.head + 1) % d) (p.count - 1)) ≡ 0)
  front_free ne =
      let x : ℕ = get_or p.ids p.head 0 in
      let one = v.once x (front_in ne) in
      let split = ap (occ x) (window-front d p.ids p.head p.count ne) in ground (arith, one, split)

  -- An allocated id leaves room in the pool.
  pub room : (id : ℕ) → id < d → get_or p.allocated id true ≡ true → p.count < d
  room id h e =
      let same = get_or_default p.allocated id true false (omega (arith, v.marks_length)) in
      ground (arith, same, bit-le-flags p.allocated id, v.total)

  pop_once :
      p.count ≢ 0
      → (id : ℕ) → id < d
      → occ id (window d p.ids ((p.head + 1) % d) (p.count - 1))
          + bit (get_or (set p.allocated (get_or p.ids p.head 0) true) id true)
        ≡ 1
  pop_once ne id h =
      let x : ℕ = get_or p.ids p.head 0 in
      let split = ap (occ id) (window-front d p.ids p.head p.count ne) in
      ground (
        arith,
        v.once id h,
        split,
        front_free ne,
        front_in ne,
        v.marks_length,
        get_or-set_self p.allocated x true true,
        get_or-set_ne p.allocated x id true true,
      )

  next_turn : p.count ≢ 0 → (p.head + p.count) % d ≡ ((p.head + 1) % d + (p.count - 1)) % d
  next_turn ne = rw mod-add-mod (ap (λ k. k % d) (omega arith))

  -- `pop_id` keeps the invariant.
  pub pop_id-Inv : p.count ≢ 0 → PoolInv d (pop_id d p)
  unfolding pop_id
  pop_id-Inv ne = rw (next_index p.head) (record {
    depth_ok = v.depth_ok;
    ids_length = v.ids_length;
    marks_length = length-set p.allocated (get_or p.ids p.head 0) true ∙ v.marks_length;
    head_in = mod-lt (p.head + 1) (omega (arith, v.head_in));
    tail_at = v.tail_at ∙ next_turn ne;
    in_range = (subst (Below d) (window-front d p.ids p.head p.count ne) v.in_range).1;
    once = pop_once ne;
    total = ground (
      arith,
      v.total,
      front_free ne,
      front_in ne,
      v.marks_length,
      get_or_default p.allocated (get_or p.ids p.head 0) true false,
      flags-set p.allocated (get_or p.ids p.head 0) true false,
    );
  })

  -- A push appends to the free ids.
  pub push-window :
      (id : ℕ)
      → p.count < d
      → window d (set p.ids p.tail id) p.head (suc p.count) ≡ free_ids d p ++ (id ∷ [])
  push-window id h =
      ap (λ k. window d (set p.ids k id) p.head (suc p.count)) v.tail_at
      ∙ window-extend d p.ids p.head p.count id v.ids_length v.head_in h

  push_once :
      (id : ℕ)
      → id < d
      → get_or p.allocated id true ≡ true
      → (j : ℕ) → j < d
      → occ j (free_ids d p ++ (id ∷ [])) + bit (get_or (set p.allocated id false) j true) ≡ 1
  push_once id h e j hj = ground (
    arith,
    v.once j hj,
    v.marks_length,
    occ-append j (free_ids d p) (id ∷ []),
    get_or-set_self p.allocated id false true,
    get_or-set_ne p.allocated id j false true,
  )

  pub push_count :
      (id : ℕ) → id < d → get_or p.allocated id true ≡ true → u16 (p.count + 1) ≡ suc p.count
  push_count id h e = omega (arith, room id h e, v.depth_ok.upper)

  push_total :
      (id : ℕ)
      → id < d
      → get_or p.allocated id true ≡ true
      → suc p.count + flags (set p.allocated id false) ≡ d
  push_total id h e = ground (
    arith,
    v.total,
    v.marks_length,
    get_or_default p.allocated id true false,
    flags-set p.allocated id false false,
  )

  -- So does `push_id` of an allocated id.
  pub push_id-Inv :
      (id : ℕ) → id < d → get_or p.allocated id true ≡ true → PoolInv d (push_id d p id)
  unfolding push_id
  push_id-Inv id h e =
      let lt = room id h e in
      rw (next_index p.tail, push_count id h e)
        (record {
          depth_ok = v.depth_ok;
          ids_length = length-set p.ids p.tail id ∙ v.ids_length;
          marks_length = length-set p.allocated id false ∙ v.marks_length;
          head_in = v.head_in;
          tail_at = rw (v.tail_at, mod-add-mod) (ap (λ k. k % d) (omega arith));
          in_range =
              subst (Below d) (sym (push-window id lt))
                (Below-append d (free_ids d p) (id ∷ []) v.in_range (h, tt));
          once = λ j hj.
              subst (λ w. occ j w + bit (get_or (set p.allocated id false) j true) ≡ 1)
                (sym (push-window id lt)) (push_once id h e j hj);
          total = push_total id h e;
        })
