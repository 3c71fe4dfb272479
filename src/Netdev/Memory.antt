-- ===== src/Netdev/Memory.antt =====
-- The memory of the bounce slots, which the calls of a poll leave alone.
use mathlib.Core.Path.{subst}
use lib_ena.Prelude.{
  ℕ, zero, suc, ◌≤◌, ◌<◌, ◌≡◌, refl, sym, ap, ◌∙◌, not, ◌&&◌, ◌==◌, ltb, leb, ◌||◌, Bool-cases,
  Option-cases, inl, inr, none, List, [], ◌∷◌, length, length-set, is_null, get_or, set,
  get_or-set_self, get_or-set_ne, arith,
}
use lib_ena.Ring.{
  Effect, free_netbuf, drop_netbuf, tx_complete, write_sq_db, write_cq_db, fill_netbuf, push_entry,
}
use lib_ena.Admin.{fit}
use lib_ena.Netdev.{TxQueue}
use lib_ena.Netdev.Bounce.{
  push_slot, note_use, give_slot, reclaim_slot, called, memcpy, fill_slot, waited,
}

pub length-fit : (n : ℕ) (xs : List ℕ) → length (fit n xs) ≡ n
length-fit zero xs = refl
length-fit (suc n) [] = ap suc (length-fit n [])
length-fit (suc n) (x ∷ xs) = ap suc (length-fit n xs)

pub get_or-fit : (n i : ℕ) (xs : List ℕ) → i < n → get_or (fit n xs) i 0 ≡ get_or xs i 0
get_or-fit zero i xs h = absurd (omega arith)
get_or-fit (suc n) zero [] h = refl
get_or-fit (suc n) (suc i) [] h = get_or-fit n i [] (omega arith)
get_or-fit (suc n) zero (x ∷ xs) h = refl
get_or-fit (suc n) (suc i) (x ∷ xs) h = get_or-fit n i xs (omega arith)

pub length-memcpy : (to bytes : List ℕ) → length (memcpy to bytes) ≡ length to
unfolding memcpy
length-memcpy to [] = refl
length-memcpy [] (b ∷ bytes) = refl
length-memcpy (x ∷ to) (b ∷ bytes) = ap suc (length-memcpy to bytes)

pub get_or-memcpy :
    (to bytes : List ℕ) (i : ℕ)
    → i < length bytes
    → i < length to
    → get_or (memcpy to bytes) i 0 ≡ get_or bytes i 0
unfolding memcpy
get_or-memcpy to [] i h k = absurd (omega arith)
get_or-memcpy [] (b ∷ bytes) i h k = absurd (omega arith)
get_or-memcpy (x ∷ to) (b ∷ bytes) zero h k = refl
get_or-memcpy (x ∷ to) (b ∷ bytes) (suc i) h k =
    get_or-memcpy to bytes i (omega arith) (omega arith)

-- The slots have the size that the driver allocates, `ENA_TX_BOUNCE_SIZE`.
pub record Backed (q : TxQueue) : Type 0 where
  pub many : length q.slots ≡ q.nb_desc
  pub sized : (slot : ℕ) → slot < q.nb_desc → length (get_or q.slots slot []) ≡ 4096

-- Nothing but the copy of a packet touches the memory.
pub record SameMemory (q q' : TxQueue) : Type 0 where
  pub slots : q'.slots ≡ q.slots
  pub nb_desc : q'.nb_desc ≡ q.nb_desc

pub same-Backed : (q q' : TxQueue) → SameMemory q q' → Backed q → Backed q'
same-Backed q q' s v = record {
  many = ap length s.slots ∙ v.many ∙ sym s.nb_desc;
  sized = λ slot h.
      ap (λ m. length (get_or m slot [])) s.slots ∙ v.sized slot (omega (arith, h, s.nb_desc));
}

give-SameMemory : (id slot : ℕ) (q : TxQueue) → SameMemory q (give_slot id slot q)
unfolding give_slot push_slot note_use
give-SameMemory id slot q = elim (Bool-cases (not (is_null q.bounce_free_ids) && ltb 0 q.nb_desc)) [
  | inl e ↦ rw e (record { slots = refl; nb_desc = refl })
  | inr e ↦ rw e (record { slots = refl; nb_desc = refl })
]

reclaim-SameMemory : (id : ℕ) (q : TxQueue) → SameMemory q (reclaim_slot id q)
unfolding reclaim_slot
reclaim-SameMemory id q = elim (Bool-cases (is_null q.bounce_map || leb q.nb_desc id)) [
  | inl e ↦ rw e (record { slots = refl; nb_desc = refl })
  | inr e ↦ elim (Option-cases (get_or q.bounce_map id none)) [
    | inl f ↦ rw (e, f) (record { slots = refl; nb_desc = refl })
    | inr (k, f) ↦ rw (e, f) (give-SameMemory id k q)
  ]
]

pub called-SameMemory : (l : List Effect) (q : TxQueue) → SameMemory q (called l q)
unfolding called
called-SameMemory [] q = record { slots = refl; nb_desc = refl }
called-SameMemory (tx_complete id ∷ l) q =
    let rest = called-SameMemory l q in
    let now = reclaim-SameMemory id (called l q) in
    record { slots = now.slots ∙ rest.slots; nb_desc = now.nb_desc ∙ rest.nb_desc }
called-SameMemory (free_netbuf _ ∷ l) q = called-SameMemory l q
called-SameMemory (drop_netbuf _ ∷ l) q = called-SameMemory l q
called-SameMemory (write_sq_db _ ∷ l) q = called-SameMemory l q
called-SameMemory (write_cq_db _ ∷ l) q = called-SameMemory l q
called-SameMemory (fill_netbuf _ _ ∷ l) q = called-SameMemory l q
called-SameMemory (push_entry _ _ ∷ l) q = called-SameMemory l q

pub waited-SameMemory : (q : TxQueue) → SameMemory q (waited q)
unfolding waited
waited-SameMemory q = elim (Bool-cases (q.bounce_free_count == 0 && ltb 0 q.nb_desc)) [
  | inr e ↦ rw e (record { slots = refl; nb_desc = refl })
  | inl e ↦ elim (Bool-cases (leb 256 q.bounce_wait_polls)) [
    | inl f ↦ rw (e, f) (record { slots = refl; nb_desc = refl })
    | inr f ↦ rw (e, f) (record { slots = refl; nb_desc = refl })
  ]
]

-- A copy into a slot, and what the slot holds then.
pub fill-Backed :
    (slot : ℕ) (bytes : List ℕ) (q : TxQueue) → Backed q → Backed (fill_slot slot bytes q)
unfolding fill_slot
fill-Backed slot bytes q v =
    let new = memcpy (get_or q.slots slot []) bytes in
    record {
      many = length-set q.slots slot new ∙ v.many;
      sized = λ j h. elim (Bool-cases (slot == j)) [
        | inl s ↦
            let same : slot ≡ j = ground (arith, s) in
            subst (λ t. length (get_or (set q.slots slot new) t []) ≡ 4096) same
              (ap length (get_or-set_self q.slots slot new [] (omega (arith, v.many, h, same)))
                ∙ length-memcpy (get_or q.slots slot []) bytes
                ∙ v.sized slot (omega (arith, h, same)))
        | inr s ↦ ap length (get_or-set_ne q.slots slot j new [] (ground (arith, s))) ∙ v.sized j h
      ];
    }

pub fill_read :
    (slot n i : ℕ) (bytes : List ℕ) (q : TxQueue)
    → Backed q
    → slot < q.nb_desc
    → n ≤ 4096
    → i < n
    → get_or (get_or (fill_slot slot (fit n bytes) q).slots slot []) i 0 ≡ get_or bytes i 0
unfolding fill_slot
fill_read slot n i bytes q v h le lt =
    let new = memcpy (get_or q.slots slot []) (fit n bytes) in
    ap (λ m. get_or m i 0) (get_or-set_self q.slots slot new [] (omega (arith, v.many)))
    ∙ get_or-memcpy (get_or q.slots slot []) (fit n bytes) i (omega (arith, length-fit n bytes))
        (omega (arith, v.sized slot h))
    ∙ get_or-fit n i bytes lt
