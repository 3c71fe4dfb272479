-- ===== src/Tx/Bound.antt =====
-- The poll loop ends: it looks at no slot of the completion ring twice.
use mathlib.Core.Path.{subst}
use lib_ena.Prelude.{
  ℕ, zero, suc, ◌+◌, ◌≤◌, ◌<◌, ◌≡◌, sym, ◌∙◌, bit_and, inl, inr, some, List, get_or, arith,
}
use lib_ena.Ring.{TxCdesc, Io}
use lib_ena.Ring.Lap.{CqInv, Lap, Lap-start, lap_over, Lap-next}
use lib_ena.Tx.Poll.{no_tx_cdesc, tx_poll_round, tx_poll_loop}
use lib_ena.Tx.Inv.{TxInv}
use lib_ena.Tx.Round.{After, round-After, Round-cases, loop-stop, loop-next}

-- The phase bit of the entry in a slot.
abbrev slot_phase : List TxCdesc → ℕ → ℕ
slot_phase es i = bit_and (get_or es i no_tx_cdesc).flags 1

-- With a round for every slot that is left, the loop ends by its own test.
loop_ends :
    (fuel d h m cpu budget n : ℕ) (s : Io)
    → h < 65536
    → m ≤ d
    → fuel + m ≡ suc d
    → TxInv s.ring
    → Lap (slot_phase s.ring.tx_cq) d h m s.ring.cq
    → (n' : ℕ) × (s' : Io) × (tx_poll_loop fuel cpu budget n s ≡ some (n', s'))
loop_ends zero d h m cpu budget n s hin le f v l = absurd (omega arith)
loop_ends (suc fuel) d h m cpu budget n s hin le f v l =
    elim (Round-cases (tx_poll_round cpu budget n s)) [
      | inl p ↦ (n, s, loop-stop fuel cpu budget n s p)
      | inr (k, t, p) ↦
          let a = subst (After budget n s) p (round-After cpu budget n s v) in
          let over = lap_over hin l a.matched in
          let l' =
            subst (λ es. Lap (slot_phase es) d h (m + 1) t.ring.cq) (sym a.entries_same)
              (Lap-next hin l a.matched a.cq_next) in
          let (n', s', r) =
            loop_ends fuel d h (m + 1) cpu budget k t hin (omega (arith, over)) (omega arith) a.inv
              l' in
          (n', s', loop-next fuel cpu budget n k s t p ∙ r)
    ]

pub loop_total :
    (cpu budget : ℕ) (s : Io)
    → TxInv s.ring
    → CqInv s.ring.cq
    → (n : ℕ) × (s' : Io) × (tx_poll_loop (suc s.ring.cq.depth) cpu budget 0 s ≡ some (n, s'))
loop_total cpu budget s v q =
    loop_ends (suc s.ring.cq.depth) s.ring.cq.depth s.ring.cq.head 0 cpu budget 0 s q.head_in
      (omega arith) (omega arith) v (Lap-start (slot_phase s.ring.tx_cq) s.ring.cq q)
