-- ===== src/Llq/Pushed.antt =====
-- What `ena_llq_tx_push` does on a ring whose push buffer is used.
use mathlib.Core.Path.{subst}
use lib_ena.Prelude.{
  ℕ, suc, ◌+◌, ◌-◌, ◌*◌, ◌^◌, ◌≤◌, ◌<◌, ◌≡◌, ◌≢◌, refl, sym, ap, ◌∙◌, Bool, true, false, ◌⊎◌, inl,
  inr, ◌==◌, ltb, not, ◌||◌, ◌&&◌, Bool-cases, Option, List, ◌∷◌, length-set, get_or, set,
  get_or-set_self, arith,
}
use lib_ena.Status.{ok, err-ne-ok, ok_injective}
use lib_ena.Ring.{Ring, no_tx_buffer, Io, is_tx, u32}
use lib_ena.Ring.Advance.{sq_advance}
use lib_ena.Ring.Depth.{ring_index}
use lib_ena.Ring.Ids.{pop_id}
use lib_ena.Ring.Inv.{front_in, front_free}
use lib_ena.Ring.FreeList.{req_id_alloc-front}
use lib_ena.Tx.Submit.{TxPkt, tx_doorbell}
use lib_ena.Tx.Held.{submit-Held}
use lib_ena.Tx.Inv.{TxInv}
use lib_ena.Llq.Written.{Written, pushed-Written}
use lib_ena.Llq.Push.{entry_size_of, falls_back, llq_fill, llq_write, llq_tx_push}

-- What a push that succeeds leaves.
pub record Pushed (pkt : TxPkt) (r : Ring) (id : ℕ) (r' : Ring) : Type 0 where
  pub inv : TxInv r'
  pub in_range : id < r.sq.depth
  pub was_free : get_or r.pool.allocated id true ≡ false
  pub now_in_flight : get_or r'.in_flight id false ≡ true
  pub one_less : suc r'.pool.count ≡ r.pool.count
  pub tail_moved : r'.sq ≡ sq_advance r.sq
  pub entry_fits :
      (r.push.size ≡ 0) ⊎ ((ring_index r.sq.depth r.sq.tail + 1) * entry_size_of r ≤ r.push.size)
  pub owner_same : r'.tx_owner_cpu ≡ r.tx_owner_cpu
  pub flight_set : r'.in_flight ≡ set r.in_flight id true
  pub callback_same : r'.tx_complete_cb ≡ r.tx_complete_cb
  pub buffer : get_or r'.tx_bufs id no_tx_buffer ≡ record {
    netbuf = pkt.netbuf;
    phys_addr = pkt.phys_addr;
    data_len = pkt.len;
    num_descs = 1;
    req_id = id;
  }

pub doorbell-ring : (s : Io) → (tx_doorbell s).ring ≡ s.ring
unfolding tx_doorbell
doorbell-ring s = elim (Bool-cases (not s.ring.hw_valid || s.ring.sq.db == 0)) [
  | inl e ↦ rw e refl
  | inr e ↦ rw e refl
]

abbrev front : Ring → ℕ
front r = get_or r.pool.ids r.pool.head 0

abbrev popped : Ring → Ring
popped r = record r { pool = pop_id r.sq.depth r.pool }

module _ (has_data : ℕ → Bool) (cpu hdr_len : ℕ) (pkt : TxPkt) (hdr : Option (List ℕ)) (s : Io)
    (v : TxInv s.ring) (use_llq : falls_back s.ring ≡ false) where
  abbrev pushed : Io
  pushed = tx_doorbell (record {
    ring = llq_fill pkt (front s.ring) (popped s.ring);
    log = llq_write pkt hdr hdr_len (front s.ring) (popped s.ring) ∷ s.log;
  })

  fill-Pushed :
      s.ring.pool.count ≢ 0
      → (ltb 0 s.ring.push.size
          && ltb s.ring.push.size
              ((ring_index s.ring.sq.depth s.ring.sq.tail + 1) * entry_size_of s.ring))
        ≡ false
      → Pushed pkt s.ring (front s.ring) (llq_fill pkt (front s.ring) (popped s.ring))
  unfolding llq_fill pop_id sq_advance
  fill-Pushed left room =
      let r : Ring = s.ring in
      let x : ℕ = front r in
      let inside = front_in v.held.pool left in
      record {
        inv = record {
          direction = v.direction;
          bufs_length = length-set r.tx_bufs x _ ∙ v.bufs_length;
          held = submit-Held v.held left;
        };
        in_range = inside;
        was_free = (front_free v.held.pool left).0;
        now_in_flight =
            get_or-set_self r.in_flight x true false (omega (arith, v.held.flight_length));
        one_less = omega arith;
        tail_moved = refl;
        entry_fits = ground arith;
        owner_same = refl;
        flight_set = refl;
        callback_same = refl;
        buffer = get_or-set_self r.tx_bufs x _ no_tx_buffer (omega (arith, inside, v.bufs_length));
      }

  abbrev over_end : Bool
  over_end =
      ltb 0 s.ring.push.size
      && ltb s.ring.push.size
          ((ring_index s.ring.sq.depth s.ring.sq.tail + 1) * entry_size_of s.ring)

  -- What a push that succeeds has passed.
  push_passed :
      (id : ℕ) (s' : Io)
      → llq_tx_push has_data cpu pkt hdr hdr_len s ≡ (ok id, s')
      → (s.ring.pool.count ≢ 0)
        × (over_end ≡ false)
        × (llq_tx_push has_data cpu pkt hdr hdr_len s ≡ (ok (front s.ring), pushed))
  unfolding llq_tx_push
  push_passed id s' e =
      let direction : is_tx s.ring.ring_type ≡ true = ap is_tx v.direction in
      elim (Bool-cases (ltb (u32 (entry_size_of s.ring + (2 ^ 32 - 32))) hdr_len)) [
        | inl p ↦ absurd (err-ne-ok (ap (λ t. t.0) (rw (direction, p) at e)))
        | inr p ↦ elim (Bool-cases (s.ring.pool.count == 0)) [
          | inl z ↦ absurd (err-ne-ok (ap (λ t. t.0) (rw (direction, p, use_llq, z) at e)))
          | inr z ↦ elim (Bool-cases over_end) [
            | inl o ↦ absurd (err-ne-ok (ap (λ t. t.0) (rw (direction, p, use_llq, z, o) at e)))
            | inr o ↦
                let left : s.ring.pool.count ≢ 0 = ground arith in
                (
                  left,
                  o,
                  rw (direction, p, use_llq, z, o, req_id_alloc-front s.ring v.held.pool left),
                )
          ]
        ]
      ]

  -- A push that succeeds on a transmit ring that meets the invariant and whose push buffer is
  -- usable takes a request id in range that was free, marks it in flight, leaves one free id less,
  -- records the packet as the buffer of the request, moves the tail, keeps the invariant and the flags of
  -- the other requests, and leaves the owning core and the callback of the ring as they were. It writes
  -- one entry, at the slot of the masked tail and inside a push buffer of a known size: the descriptor,
  -- the inline header and zeroes, in whole 64-bit words; then it rings the doorbell, if there is one.
  pub llq_push-Pushed :
      (id : ℕ) (s' : Io)
      → llq_tx_push has_data cpu pkt hdr hdr_len s ≡ (ok id, s')
      → Pushed pkt s.ring id s'.ring × Written pkt hdr hdr_len s.ring s.log id s'.log
  llq_push-Pushed id s' e =
      let (left, room, passed) = push_passed id s' e in
      let same = sym passed ∙ e in
      let ring_same = doorbell-ring (record {
        ring = llq_fill pkt (front s.ring) (popped s.ring);
        log = llq_write pkt hdr hdr_len (front s.ring) (popped s.ring) ∷ s.log;
      }) in
      let filled = fill-Pushed left room in
      let id_same = ok_injective (ap (λ t. t.0) same) in
      (
        subst (λ k. Pushed pkt s.ring k s'.ring) id_same
            (subst (Pushed pkt s.ring (front s.ring)) (sym ring_same ∙ ap (λ t. t.1.ring) same)
              filled),
        subst (λ k. Written pkt hdr hdr_len s.ring s.log k s'.log) id_same
            (subst (Written pkt hdr hdr_len s.ring s.log (front s.ring)) (ap (λ t. t.1.log) same) (
              pushed-Written pkt hdr hdr_len (front s.ring) s v.held.pool.depth_ok
                filled.entry_fits)),
      )
