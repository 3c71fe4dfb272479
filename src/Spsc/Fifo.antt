-- ===== src/Spsc/Fifo.antt =====
-- The ring is a queue of at most 1024 entries.
use lib_ena.Prelude.{
  ℕ, suc, ◌+◌, ◌-◌, ◌%◌, ◌^◌, ◌≤◌, ◌<◌, ◌≡◌, ◌≢◌, refl, ap, ap₂, ◌∙◌, Bool, true, false, inl, inr,
  ◌==◌, leb, if◌then◌else◌, Bool-cases, Option, none, some, List, [], ◌∷◌, ◌++◌, length, length-set,
  get_or, set, arith,
}
use lib_ena.Ring.Window.{window, window-front, window-extend, length-window}
use lib_ena.Spsc.{SpscRing, distance, spsc_ring_init, spsc_ring_push, spsc_ring_pop}

pub record SpscInv (r : SpscRing) : Type 0 where
  pub slots : length r.slot_data ≡ 1024
  pub head_in : r.head < 2 ^ 64
  pub tail_in : r.tail < 2 ^ 64
  pub held : distance r.head r.tail ≤ 1024

-- The entries that the ring holds, the oldest first.
abbrev pub contents : SpscRing → List ℕ
contents r = window 1024 r.slot_data (r.tail % 1024) (distance r.head r.tail)

pub data Op : Type 0 where
  push : ℕ → Op
  pop : Op

pub data Reply : Type 0 where
  pushed : Bool → Reply
  popped : Option ℕ → Reply

-- The answers of a ring to a sequence of operations of its two threads.
unfoldable pub run : SpscRing → List Op → List Reply
run r [] = []
run r (push fd ∷ ops) = let (done, r') = spsc_ring_push fd r in pushed done ∷ run r' ops
run r (pop ∷ ops) = let (got, r') = spsc_ring_pop r in popped got ∷ run r' ops

-- The answers of a queue of at most 1024 entries.
unfoldable pub fifo_run : List ℕ → List Op → List Reply
fifo_run q [] = []
fifo_run q (push fd ∷ ops) =
    if leb 1024 (length q)
    then pushed false ∷ fifo_run q ops
    else pushed true ∷ fifo_run (q ++ (fd ∷ [])) ops
fifo_run [] (pop ∷ ops) = popped none ∷ fifo_run [] ops
fifo_run (x ∷ q) (pop ∷ ops) = popped (some x) ∷ fifo_run q ops

abbrev after_push : ℕ → SpscRing → SpscRing
after_push fd r = record r {
  slot_data = set r.slot_data (r.head % 1024) fd;
  head = (r.head + 1) % 2 ^ 64;
}

abbrev after_pop : SpscRing → SpscRing
after_pop r = record r { tail = (r.tail + 1) % 2 ^ 64 }

module _ (r : SpscRing) (v : SpscInv r) where
  push-Inv : (fd : ℕ) → distance r.head r.tail < 1024 → SpscInv (after_push fd r)
  push-Inv fd room = record {
    slots = length-set r.slot_data (r.head % 1024) fd ∙ v.slots;
    head_in = omega arith;
    tail_in = v.tail_in;
    held = omega (arith, v.head_in, v.tail_in);
  }

  push-contents :
      (fd : ℕ)
      → distance r.head r.tail < 1024
      → contents (after_push fd r) ≡ contents r ++ (fd ∷ [])
  push-contents fd room =
      let longer : distance ((r.head + 1) % 2 ^ 64) r.tail ≡ suc (distance r.head r.tail) =
        omega (arith, v.head_in, v.tail_in) in
      let place : r.head % 1024 ≡ (r.tail % 1024 + distance r.head r.tail) % 1024 =
        omega (arith, v.head_in, v.tail_in) in
      ap₂ (λ k n. window 1024 (set r.slot_data k fd) (r.tail % 1024) n) place longer
      ∙ window-extend 1024 r.slot_data (r.tail % 1024) (distance r.head r.tail) fd v.slots
          (omega arith) room

  pop-Inv : r.head ≢ r.tail → SpscInv (after_pop r)
  pop-Inv ne = record {
    slots = v.slots;
    head_in = v.head_in;
    tail_in = omega arith;
    held = omega (arith, v.head_in, v.tail_in, v.held);
  }

  pop-contents :
      r.head ≢ r.tail → contents r ≡ get_or r.slot_data (r.tail % 1024) 0 ∷ contents (after_pop r)
  pop-contents ne =
      let shorter : distance r.head r.tail - 1 ≡ distance r.head ((r.tail + 1) % 2 ^ 64) =
        omega (arith, v.head_in, v.tail_in) in
      let place : (r.tail % 1024 + 1) % 1024 ≡ (r.tail + 1) % 2 ^ 64 % 1024 =
        omega (arith, v.tail_in) in
      window-front 1024 r.slot_data (r.tail % 1024) (distance r.head r.tail)
        (omega (arith, v.head_in, v.tail_in))
      ∙ ap₂ (λ k n. get_or r.slot_data (r.tail % 1024) 0 ∷ window 1024 r.slot_data k n) place
          shorter

  length-contents : length (contents r) ≡ distance r.head r.tail
  length-contents = length-window 1024 r.slot_data (r.tail % 1024) (distance r.head r.tail)

-- No sequence of pushes and pops tells a ring that meets the invariant from a queue of at most 1024
-- entries that begins with what the ring holds, the wrap of the two counters at 2^64 included.
pub run-fifo_run :
    (ops : List Op) (r : SpscRing) → SpscInv r → run r ops ≡ fifo_run (contents r) ops
unfolding run fifo_run spsc_ring_push spsc_ring_pop
run-fifo_run [] r v = refl
run-fifo_run (push fd ∷ ops) r v = elim (Bool-cases (leb 1024 (distance r.head r.tail))) [
  | inl e ↦ rw (length-contents r v, e) (ap (λ l. pushed false ∷ l) (run-fifo_run ops r v))
  | inr e ↦
      let room : distance r.head r.tail < 1024 = ground arith in
      rw (length-contents r v, e)
        (ap (λ l. pushed true ∷ l)
          (run-fifo_run ops (after_push fd r) (push-Inv r v fd room)
            ∙ ap (λ q. fifo_run q ops) (push-contents r v fd room)))
]
run-fifo_run (pop ∷ ops) r v = elim (Bool-cases (r.head == r.tail)) [
  | inl e ↦
      let no_more : distance r.head r.tail ≡ 0 = ground (arith, v.tail_in) in
      rw (no_more, e)
        (ap (λ l. popped none ∷ l)
          (run-fifo_run ops r v
            ∙ ap (λ n. fifo_run (window 1024 r.slot_data (r.tail % 1024) n) ops) no_more))
  | inr e ↦
      let ne : r.head ≢ r.tail = ground arith in
      rw (pop-contents r v ne, e)
        (ap (λ l. popped (some (get_or r.slot_data (r.tail % 1024) 0)) ∷ l)
          (run-fifo_run ops (after_pop r) (pop-Inv r v ne)))
]

pub init-SpscInv : (r : SpscRing) → length r.slot_data ≡ 1024 → SpscInv (spsc_ring_init r)
unfolding spsc_ring_init
init-SpscInv r len = record {
  slots = len;
  head_in = omega arith;
  tail_in = omega arith;
  held = omega arith;
}
