-- ===== src/Rss/Table.antt =====
-- The size of the table, and what its entries are.
use mathlib.Core.Path.{subst}
use native.Mathlib.Nat.{pow-le-pow_right, mod-lt, mod-eq_of_lt}
use lib_ena.Prelude.{
  ℕ, zero, suc, ◌+◌, ◌%◌, ◌^◌, ◌≤◌, ◌<◌, ◌≡◌, ◌≢◌, refl, ap, ◌∙◌, false, ◌⊎◌, inl, inr, ◌==◌, ltb,
  ◌||◌, if◌then◌else◌, Bool-cases, Option, some, is_null-length, length, length-set, get_or, set,
  get_or-set_self, get_or-set_ne, arith,
}
use lib_ena.Status.{Result, ok, err, Code}
use lib_ena.Ring.{u16}
use lib_ena.Rss.{
  RssInfo, requested_from, clamp, query_ind_table_limits, fill_table, sq_idx_of, set_ind_table,
}

-- The least exponent from `low` on whose power covers the queues.
record Covers (num low k : ℕ) : Type 0 where
  above : low ≤ k
  enough : num ≤ 2 ^ k
  least : (j : ℕ) → low ≤ j → j < k → 2 ^ j < num

requested-Covers :
    (fuel num low : ℕ)
    → num ≤ 2 ^ (low + fuel)
    → (k : ℕ) × (requested_from (suc fuel) num low ≡ some k) × Covers num low k
unfolding requested_from
requested-Covers zero num low h =
    let same : low + 0 ≡ low = omega arith in
    let e : ltb (2 ^ low) num ≡ false = ground (arith, subst (λ t. num ≤ 2 ^ t) same h) in
    (
      low,
      rw e,
      record { above = omega arith; enough = ground arith; least = λ j g l. absurd (omega arith) },
    )
requested-Covers (suc f) num low h = elim (Bool-cases (ltb (2 ^ low) num)) [
  | inr e ↦ (
    low,
    rw e,
    record { above = omega arith; enough = ground arith; least = λ j g l. absurd (omega arith) },
  )
  | inl e ↦
      let (k, r, c) = requested-Covers f num (low + 1) (subst (λ t. num ≤ 2 ^ t) (omega arith) h) in
      (
        k,
        rw e r,
        record {
          above = omega (arith, c.above);
          enough = c.enough;
          least = λ j l u. elim (Bool-cases (j == low)) [
            | inl q ↦
                let same : low ≡ j = ground arith in subst (λ t. 2 ^ t < num) same (ground arith)
            | inr q ↦ c.least j (ground arith) u
          ];
        },
      )
]

-- The size that a query leaves: the least power of two in the device's range, from 2 on, that covers
-- the queues, where the range and the cut to 2^14 entries allow it.
pub record Sized (min_size max_size num : ℕ) (rss' : RssInfo) : Type 0 where
  pub exponent : ℕ
  pub power : rss'.ind_table_size ≡ 2 ^ exponent
  pub small : exponent ≤ 14
  pub upper : exponent ≤ max_size
  pub lower : (min_size ≤ exponent) ⊎ (exponent ≡ 14)
  pub covers : (num ≤ 2 ^ exponent) ⊎ ((exponent ≡ max_size) ⊎ (exponent ≡ 14))
  pub least : (j : ℕ) → 1 ≤ j → min_size ≤ j → num ≤ 2 ^ j → exponent ≤ j

clamp-small : (a b r : ℕ) → clamp a b r ≤ 14
unfolding clamp
clamp-small a b r = ground arith

clamp-upper : (a b r : ℕ) → a ≤ b → clamp a b r ≤ b
unfolding clamp
clamp-upper a b r h = ground arith

clamp-lower : (a b r : ℕ) → a ≤ b → (a ≤ clamp a b r) ⊎ (clamp a b r ≡ 14)
unfolding clamp
clamp-lower a b r h = elim (Bool-cases (ltb 14 (if ltb r a then a else if ltb b r then b else r))) [
  | inl e ↦ rw e (inr refl)
  | inr e ↦ rw e (inl (ground arith))
]

clamp-range : (a b r : ℕ) → a ≤ b → (r ≤ clamp a b r) ⊎ ((clamp a b r ≡ b) ⊎ (clamp a b r ≡ 14))
unfolding clamp
clamp-range a b r h = elim (Bool-cases (ltb 14 (if ltb r a then a else if ltb b r then b else r))) [
  | inl e ↦ rw e (inr (inr refl))
  | inr e ↦ rw e (elim (Bool-cases (ltb b r)) [
    | inl p ↦ inr (inl (ground arith))
    | inr p ↦ inl (ground arith)
  ])
]

clamp-least : (a b r j : ℕ) → a ≤ b → a ≤ j → r ≤ j → clamp a b r ≤ j
unfolding clamp
clamp-least a b r j h ha hr = ground arith

-- An exponent that covers the queues is not below the least one.
Covers-least : (num low k j : ℕ) → Covers num low k → low ≤ j → num ≤ 2 ^ j → k ≤ j
Covers-least num low k j c h p = elim (Bool-cases (ltb j k)) [
  | inl e ↦ absurd (omega (arith, c.least j h (ground arith), p))
  | inr e ↦ ground arith
]

pow_small : (k : ℕ) → k ≤ 14 → u16 (2 ^ k) ≡ 2 ^ k
pow_small k h =
    mod-eq_of_lt {n = 2 ^ k} {m = 65536} (omega (arith, pow-le-pow_right {n = 2} (omega arith) h))

-- A query of the limits of the table for at least two queues, and less than 2^31, that the device
-- answers with a valid range of exponents ends with a table size that is a power of two of at least 2
-- and at most 2^14 entries, and of at most the largest of the range. It is at least the smallest of the
-- range, or 2^14 where that is larger. It has an entry for each queue unless the range or the cut to
-- 2^14 forbids it, and no smaller power of two from 2 on, at least the smallest of the range, has one.
pub query-Sized :
    (min_size max_size num : ℕ) (rss : RssInfo)
    → 2 ≤ num
    → num < 2 ^ 31
    → 1 ≤ min_size
    → min_size ≤ max_size
    → (rss' : RssInfo) × (query_ind_table_limits (ok (min_size, max_size)) num rss ≡ some rss')
      × Sized min_size max_size num rss'
unfolding query_ind_table_limits
query-Sized a b num rss two big pos le =
    let (k, r, c) = requested-Covers 31 num 1 (omega arith) in
    let e : ltb num 2 ≡ false = ground arith in
    let z : (a == 0 || ltb b a) ≡ false = ground arith in
    (
      record rss { ind_table_size = u16 (2 ^ clamp a b k) },
      rw (e, z, r),
      record {
        exponent = clamp a b k;
        power = pow_small (clamp a b k) (clamp-small a b k);
        small = clamp-small a b k;
        upper = clamp-upper a b k le;
        lower = clamp-lower a b k le;
        covers = elim (clamp-range a b k le) [
          | inl h ↦ inl (omega (arith, c.enough, pow-le-pow_right {n = 2} (omega arith) h))
          | inr h ↦ inr h
        ];
        least = λ j one low p. clamp-least a b k j le low (Covers-least num 1 k j c one p);
      },
    )

-- What filling `n` entries from `i` on leaves.
record Filled (sq_idx : ℕ → ℕ) (num n i : ℕ) (rss rss' : RssInfo) : Type 0 where
  entries :
      (j : ℕ)
      → i ≤ j
      → j < i + n
      → (get_or rss'.host_ind_table j 0 ≡ j % num) × (get_or rss'.ind_table j 0 ≡ sq_idx (j % num))
  before :
      (j : ℕ)
      → j < i
      → (get_or rss'.host_ind_table j 0 ≡ get_or rss.host_ind_table j 0)
        × (get_or rss'.ind_table j 0 ≡ get_or rss.ind_table j 0)

fill-Filled :
    (sq_idx : ℕ → ℕ) (num n i : ℕ) (rss : RssInfo)
    → num ≢ 0
    → num < 65536
    → i + n ≤ length rss.host_ind_table
    → i + n ≤ length rss.ind_table
    → Filled sq_idx num n i rss (fill_table sq_idx num n i rss)
unfolding fill_table
fill-Filled sq_idx num zero i rss nz small hh hi = record {
  entries = λ j l u. absurd (omega arith);
  before = λ j l. (refl, refl);
}
fill-Filled sq_idx num (suc n) i rss nz small hh hi =
    let q : ℕ = u16 (i % num) in
    let one : RssInfo = record rss {
      host_ind_table = set rss.host_ind_table i q;
      ind_table = set rss.ind_table i (sq_idx q);
    } in
    let rest =
      fill-Filled sq_idx num n (i + 1) one nz small
        (omega (arith, length-set rss.host_ind_table i q))
        (omega (arith, length-set rss.ind_table i (sq_idx q))) in
    let pos : 0 < num = omega (arith, nz) in
    let cut : q ≡ i % num = omega (arith, mod-lt i pos) in
    record {
      entries = λ j l u. elim (Bool-cases (i == j)) [
        | inr e ↦ rest.entries j (ground arith) (omega arith)
        | inl e ↦
            let same : i ≡ j = ground arith in
            let b = rest.before i (omega arith) in
            subst
              (λ t.
                (get_or (fill_table sq_idx num n (i + 1) one).host_ind_table t 0 ≡ t % num)
                × (get_or (fill_table sq_idx num n (i + 1) one).ind_table t 0 ≡ sq_idx (t % num)))
              same
              (
                b.0 ∙ get_or-set_self rss.host_ind_table i q 0 (omega arith) ∙ cut,
                b.1 ∙ get_or-set_self rss.ind_table i (sq_idx q) 0 (omega arith) ∙ ap sq_idx cut,
              )
      ];
      before = λ j l.
          let b = rest.before j (omega arith) in
          (
            b.0 ∙ get_or-set_ne rss.host_ind_table i j q 0 (omega arith),
            b.1 ∙ get_or-set_ne rss.ind_table i j (sq_idx q) 0 (omega arith),
          );
    }

-- With a table of a size that its two arrays have, and between 1 and 65535 queues,
-- `ena_rss_set_ind_table` spreads the entries round-robin: entry `j` names queue `j % num` on the
-- host's side, and on the device's side the number of that queue's ring. It returns the code of the
-- admin command.
pub set_ind_table-entries :
    (sent : Code) (ring_idx : ℕ → Option ℕ) (num j : ℕ) (rss : RssInfo)
    → num ≢ 0
    → num < 65536
    → length rss.host_ind_table ≡ rss.ind_table_size
    → length rss.ind_table ≡ rss.ind_table_size
    → j < rss.ind_table_size
    → ((set_ind_table sent ring_idx num rss).0 ≡ sent)
      × (get_or (set_ind_table sent ring_idx num rss).1.host_ind_table j 0 ≡ j % num)
      × (get_or (set_ind_table sent ring_idx num rss).1.ind_table j 0
          ≡ sq_idx_of ring_idx (j % num))
unfolding set_ind_table
set_ind_table-entries sent ring_idx num j rss nz small hh hi lt =
    let some_queues : (num == 0) ≡ false = ground arith in
    let sized : (rss.ind_table_size == 0) ≡ false = ground arith in
    let f =
      fill-Filled (sq_idx_of ring_idx) num rss.ind_table_size 0 rss nz small (omega arith)
        (omega arith) in
    let entry = f.entries j (omega arith) (omega arith) in
    rw
      (
        some_queues,
        is_null-length rss.ind_table (omega arith),
        is_null-length rss.host_ind_table (omega arith),
        sized,
      )
      (refl, entry.0, entry.1)

-- A query for less than 2^31 queues ends, whatever the device answers.
pub query-some :
    (limits : Result (ℕ × ℕ)) (num : ℕ) (rss : RssInfo)
    → num < 2 ^ 31
    → (rss' : RssInfo) × (query_ind_table_limits limits num rss ≡ some rss')
unfolding query_ind_table_limits
query-some (err e) num rss big = (rss, refl)
query-some (ok (a, b)) num rss big =
    let (k, r, c) = requested-Covers 31 num 1 (omega arith) in
    elim (Bool-cases (ltb num 2)) [
      | inl e ↦ (rss, rw e refl)
      | inr e ↦ elim (Bool-cases (a == 0 || ltb b a)) [
        | inl z ↦ (rss, rw (e, z) refl)
        | inr z ↦ (record rss { ind_table_size = u16 (2 ^ clamp a b k) }, rw (e, z, r) refl)
      ]
    ]
