-- ===== src/Llq/Written.antt =====
-- What `ena_llq_tx_push` writes to the push buffer.
use lib_ena.Prelude.{
  ℕ, zero, suc, ◌+◌, ◌*◌, ◌/◌, ◌%◌, ◌≤◌, ◌<◌, ◌≡◌, refl, ap, ◌∙◌, ◌⊎◌, inl, inr, ◌==◌, not, ◌||◌,
  if◌then◌else◌, Bool-cases, Option, List, ◌∷◌, length, get_or, arith,
}
use lib_ena.Ring.{Ring, TxDesc, Io, Effect, push_entry, write_sq_db}
use lib_ena.Ring.Advance.{sq_advance}
use lib_ena.Ring.Depth.{IsDepth, ring_index, ring_index-mod}
use lib_ena.Ring.Ids.{pop_id}
use lib_ena.Tx.Submit.{TxPkt, tx_doorbell}
use lib_ena.Llq.Push.{entry_byte, entry_bytes, entry_size_of, llq_desc, llq_fill, llq_write}

-- The write of a push under request `id`, from a ring `r` with the log `log` to the log `log'`: at the
-- slot of the masked tail, the bytes of the descriptor, the inline header and zeroes, in whole 64-bit
-- words, inside a push buffer of a known size. The doorbell, if it is rung, comes after it.
pub record Written (pkt : TxPkt) (hdr : Option (List ℕ)) (hdr_len : ℕ) (r : Ring)
    (log : List Effect) (id : ℕ) (log' : List Effect) : Type 0 where
  pub bytes : List ℕ
  pub at : ℕ
  pub at_slot : at ≡ r.sq.tail % r.sq.depth * entry_size_of r
  pub whole_words : length bytes ≡ entry_size_of r / 8 * 8
  pub contents :
      (i : ℕ)
      → i < length bytes
      → get_or bytes i 0 ≡ entry_byte (llq_desc r.sq.phase id pkt hdr_len) hdr hdr_len i
  pub inside : (r.push.size ≡ 0) ⊎ (at + length bytes ≤ r.push.size)
  pub logged : log' ≡ (
      if not r.hw_valid || r.sq.db == 0
      then push_entry at bytes ∷ log
      else write_sq_db (sq_advance r.sq).tail ∷ push_entry at bytes ∷ log)

length-entry_bytes :
    (d : TxDesc) (hdr : Option (List ℕ)) (hdr_len i n : ℕ)
    → length (entry_bytes d hdr hdr_len i n) ≡ n
unfolding entry_bytes
length-entry_bytes d hdr hdr_len i zero = refl
length-entry_bytes d hdr hdr_len i (suc n) = ap suc (length-entry_bytes d hdr hdr_len (i + 1) n)

get_or-entry_bytes :
    (d : TxDesc) (hdr : Option (List ℕ)) (hdr_len i n j : ℕ)
    → j < n
    → get_or (entry_bytes d hdr hdr_len i n) j 0 ≡ entry_byte d hdr hdr_len (i + j)
unfolding entry_bytes
get_or-entry_bytes d hdr hdr_len i zero j h = absurd (omega arith)
get_or-entry_bytes d hdr hdr_len i (suc n) zero h = ap (entry_byte d hdr hdr_len) (omega arith)
get_or-entry_bytes d hdr hdr_len i (suc n) (suc j) h =
    get_or-entry_bytes d hdr hdr_len (i + 1) n j (omega arith)
    ∙ ap (entry_byte d hdr hdr_len) (omega arith)

-- Whole words of an entry in a slot end where the next slot begins, or before.
in_slot : (slot size : ℕ) → slot * size + size / 8 * 8 ≤ (slot + 1) * size
in_slot slot size = omega arith

module _ (pkt : TxPkt) (hdr : Option (List ℕ)) (hdr_len id : ℕ) (s : Io) where
  -- The effects of a push that has taken the request `id`.
  abbrev pub pushed_with : Io
  pushed_with =
      let r : Ring = record s.ring { pool = pop_id s.ring.sq.depth s.ring.pool } in
      tx_doorbell
        (record { ring = llq_fill pkt id r; log = llq_write pkt hdr hdr_len id r ∷ s.log })

  pub pushed-Written :
      IsDepth s.ring.sq.depth
      → (s.ring.push.size ≡ 0)
        ⊎ ((ring_index s.ring.sq.depth s.ring.sq.tail + 1) * entry_size_of s.ring
            ≤ s.ring.push.size)
      → Written pkt hdr hdr_len s.ring s.log id pushed_with.log
  unfolding tx_doorbell llq_write llq_fill sq_advance
  pushed-Written w fits =
      let r = s.ring in
      let size = entry_size_of r in
      let slot = ring_index r.sq.depth r.sq.tail in
      let n = size / 8 * 8 in
      let d = llq_desc r.sq.phase id pkt hdr_len in
      let bytes = entry_bytes d hdr hdr_len 0 n in
      let many = length-entry_bytes d hdr hdr_len 0 n in
      record {
        bytes = bytes;
        at = slot * size;
        at_slot = ap (λ k. k * size) (ring_index-mod r.sq.tail w);
        whole_words = many;
        contents = λ i h.
            get_or-entry_bytes d hdr hdr_len 0 n i (omega (arith, many))
            ∙ ap (entry_byte d hdr hdr_len) (omega arith);
        inside = elim fits [
          | inl z ↦ inl z
          | inr f ↦ inr (omega (arith, in_slot slot size, many, f))
        ];
        logged = elim (Bool-cases (not r.hw_valid || r.sq.db == 0)) [
          | inl e ↦ rw e refl
          | inr e ↦ rw e refl
        ];
      }
