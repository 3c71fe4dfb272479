-- ===== src/Netdev/Xmitted.antt =====
-- What `ena_netdev_tx_xmit_one` does to the ring, on the push buffer or in host memory.
use mathlib.Core.Path.{subst}
use lib_ena.Prelude.{
  ℕ, ◌+◌, ◌-◌, ◌*◌, ◌^◌, if◌then◌else◌, ◌<◌, ◌≡◌, ◌≢◌, refl, sym, ap, ◌∙◌, Bool, true, false, not,
  ◌==◌, ltb, ◌&&◌, ◌||◌, Bool-cases, ◌⊎◌, inl, inr, some, List, ◌∷◌, get_or, set, arith,
}
use lib_ena.Status.{Result, Errno, ok, err}
use lib_ena.Ring.{Ring, no_tx_buffer, Effect, fill_netbuf, write_sq_db, Io, is_tx, u32}
use lib_ena.Ring.Advance.{sq_advance}
use lib_ena.Ring.Depth.{ring_index}
use lib_ena.Ring.Ids.{pop_id}
use lib_ena.Ring.FreeList.{req_id_alloc-front}
use lib_ena.Tx.Submit.{TxPkt, tx_desc, tx_submit, tx_doorbell}
use lib_ena.Tx.Inv.{TxInv}
use lib_ena.Tx.Accept.{Submitted, tx_submit-Submitted}
use lib_ena.Llq.Push.{
  entry_size_of, falls_back, header_bytes, llq_fill, llq_write, llq_fallback, llq_tx_push,
}
use lib_ena.Llq.Written.{Written}
use lib_ena.Llq.Pushed.{Pushed, llq_push-Pushed, doorbell-ring}
use lib_ena.Netdev.Transmit.{inline_len, xmit_one}

-- A ring that has taken a packet under a request that was not in flight.
pub record Accepted (t : TxPkt) (r : Ring) (id : ℕ) (r' : Ring) : Type 0 where
  pub inv : TxInv r'
  pub in_range : id < r.sq.depth
  pub was_down : get_or r.in_flight id false ≡ false
  pub flight_set : r'.in_flight ≡ set r.in_flight id true
  pub depth_same : r'.sq.depth ≡ r.sq.depth
  pub callback_same : r'.tx_complete_cb ≡ r.tx_complete_cb
  pub buffer : get_or r'.tx_bufs id no_tx_buffer ≡ record {
    netbuf = t.netbuf;
    phys_addr = t.phys_addr;
    data_len = t.len;
    num_descs = 1;
    req_id = id;
  }

-- The log ends with the doorbell of a ring that has one and that the device knows.
abbrev Rung : Ring → List Effect → Type 0
Rung r log =
    (before : List Effect) × (log
      ≡ (if not r.hw_valid || r.sq.db == 0 then before else write_sq_db r.sq.tail ∷ before))

-- How the device is told of the packet: by its descriptor in host memory, or by an entry of the push
-- buffer with its descriptor and the start of `hdr`; and by the doorbell.
pub data Told (t : TxPkt) (hdr : List ℕ) (r : Ring) (log : List Effect) (id : ℕ) (r' : Ring)
    (log' : List Effect) : Type 0 where
  in_memory :
      r'.tx_sq ≡ set r.tx_sq (ring_index r.sq.depth r.sq.tail) (tx_desc r.sq.phase id t)
      → Rung r' log'
      → Told t hdr r log id r' log'
  pushed : Written t (some hdr) (inline_len r t) r log id log' → Told t hdr r log id r' log'

-- The end of a submit: the request, or the ring as it was.
abbrev pub Xmit : TxPkt → List ℕ → Ring → List Effect → Result ℕ × Io → Type 0
Xmit t hdr r log (ok id, s) = Accepted t r id s.ring × Told t hdr r log id s.ring s.log
Xmit t hdr r log (err e, s) = s.ring ≡ r

advance_depth : (r r' : Ring) → r'.sq ≡ sq_advance r.sq → r'.sq.depth ≡ r.sq.depth
unfolding sq_advance
advance_depth r r' e = ap (λ q. q.depth) e

-- A free request is not in flight.
free_down :
    (r : Ring) (id : ℕ)
    → TxInv r
    → id < r.sq.depth
    → get_or r.pool.allocated id true ≡ false
    → get_or r.in_flight id false ≡ false
free_down r id v h e = ground (arith, v.held.holders id h, e)

of-Submitted :
    (cpu : ℕ) (pkt : TxPkt) (r : Ring) (id : ℕ) (r' : Ring)
    → TxInv r
    → Submitted cpu pkt r id r'
    → Accepted pkt r id r'
of-Submitted cpu pkt r id r' v p = record {
  inv = p.inv;
  in_range = p.in_range;
  was_down = free_down r id v p.in_range p.was_free;
  flight_set = p.flight_set;
  depth_same = advance_depth r r' p.tail_moved;
  callback_same = p.callback_same;
  buffer = p.buffer;
}

of-Pushed :
    (pkt : TxPkt) (r : Ring) (id : ℕ) (r' : Ring)
    → TxInv r
    → Pushed pkt r id r'
    → Accepted pkt r id r'
of-Pushed pkt r id r' v p = record {
  inv = p.inv;
  in_range = p.in_range;
  was_down = free_down r id v p.in_range p.was_free;
  flight_set = p.flight_set;
  depth_same = advance_depth r r' p.tail_moved;
  callback_same = p.callback_same;
  buffer = p.buffer;
}

Result-cases : {A : Type 0} (x : Result A) → ((a : A) × (x ≡ ok a)) ⊎ ((e : Errno) × (x ≡ err e))
Result-cases (ok a) = inl (a, refl)
Result-cases (err e) = inr (e, refl)

-- A step that may add to the log leaves the ring alone.
if_ring :
    (b : Bool) (s : Io) (l : List Effect) → (if b then record s { log = l } else s).ring ≡ s.ring
if_ring true s l = refl
if_ring false s l = refl

-- The submission in host memory with its doorbell.
host_end : ℕ → TxPkt → Io → Result ℕ × Io
host_end cpu pkt s = elim (tx_submit cpu pkt s.ring) [
  | ok (id, r) ↦ (ok id, tx_doorbell (record s { ring = r }))
  | err e ↦ (err e, s)
]

doorbell-Rung : (s : Io) → Rung s.ring (tx_doorbell s).log
unfolding tx_doorbell
doorbell-Rung s = elim (Bool-cases (not s.ring.hw_valid || s.ring.sq.db == 0)) [
  | inl e ↦ (s.log, rw e refl)
  | inr e ↦ (s.log, rw e refl)
]

host-Xmit :
    (cpu : ℕ) (pkt : TxPkt) (hdr : List ℕ) (r : Ring) (log : List Effect) (s : Io)
    → TxInv r
    → s.ring ≡ r
    → Xmit pkt hdr r log (host_end cpu pkt s)
unfolding host_end
host-Xmit cpu pkt hdr r log s v same = elim (Result-cases (tx_submit cpu pkt s.ring)) [
  | inr (e, p) ↦ rw (p, host_end) same
  | inl ((id, r'), p) ↦
      let p' : tx_submit cpu pkt r ≡ ok (id, r') = ap (tx_submit cpu pkt) (sym same) ∙ p in
      let back = sym (doorbell-ring (record s { ring = r' })) in
      let done = tx_submit-Submitted cpu pkt r v id r' p' in
      rw (p, host_end)
        (
          subst (Accepted pkt r id) back (of-Submitted cpu pkt r id r' v done),
          in_memory (ap (λ (t : Ring). t.tx_sq) (sym back) ∙ done.descriptor) (
              subst (λ t. Rung t (tx_doorbell (record s { ring = r' })).log) back
                (doorbell-Rung (record s { ring = r' }))),
        )
]

if-Xmit :
    (pkt : TxPkt) (hdr : List ℕ) (r : Ring) (log : List Effect) (b : Bool) (x y : Result ℕ × Io)
    → Xmit pkt hdr r log x
    → Xmit pkt hdr r log y
    → Xmit pkt hdr r log (if b then x else y)
if-Xmit pkt hdr r log true x y p q = p
if-Xmit pkt hdr r log false x y p q = q

module _ (has_data : ℕ → Bool) (cpu : ℕ) (pkt : TxPkt) (s : Io) (v : TxInv s.ring) where
  fallback-Xmit :
      (bytes : List ℕ) (hdr_len : ℕ)
      → Xmit pkt bytes s.ring s.log (llq_fallback has_data cpu pkt (some bytes) hdr_len s)
  unfolding llq_fallback host_end
  fallback-Xmit bytes hdr_len =
      host-Xmit cpu pkt bytes s.ring s.log
        (if ltb 0 hdr_len && not (pkt.netbuf == 0) && has_data pkt.netbuf
          then record s { log = fill_netbuf pkt.netbuf (header_bytes bytes 0 hdr_len) ∷ s.log }
          else s)
        v (if_ring (ltb 0 hdr_len && not (pkt.netbuf == 0) && has_data pkt.netbuf) s _)

  push-Xmit :
      (bytes : List ℕ)
      → Xmit pkt bytes s.ring s.log
          (llq_tx_push has_data cpu pkt (some bytes) (inline_len s.ring pkt) s)
  unfolding llq_tx_push
  push-Xmit bytes =
      let r = s.ring in
      let hdr = some bytes in
      let hdr_len = inline_len r pkt in
      let direction : is_tx r.ring_type ≡ true = ap is_tx v.direction in
      let slot = ring_index r.sq.depth r.sq.tail in
      elim (Bool-cases (ltb (u32 (entry_size_of r + (2 ^ 32 - 32))) hdr_len)) [
        | inl p ↦ rw (direction, p) refl
        | inr p ↦ elim (Bool-cases (falls_back r)) [
          | inl f ↦ rw (direction, p, f) (fallback-Xmit bytes hdr_len)
          | inr f ↦ elim (Bool-cases (r.pool.count == 0)) [
            | inl z ↦ rw (direction, p, f, z) refl
            | inr z ↦
                elim (Bool-cases
                  (ltb 0 r.push.size && ltb r.push.size ((slot + 1) * entry_size_of r))) [
                    | inl o ↦ rw (direction, p, f, z, o) refl
                    | inr o ↦
                        let left : r.pool.count ≢ 0 = ground (arith, z) in
                        let x = get_or r.pool.ids r.pool.head 0 in
                        let r' : Ring = record r { pool = pop_id r.sq.depth r.pool } in
                        let s' = tx_doorbell (record {
                          ring = llq_fill pkt x r';
                          log = llq_write pkt hdr hdr_len x r' ∷ s.log;
                        }) in
                        let taken : llq_tx_push has_data cpu pkt hdr hdr_len s ≡ (ok x, s') =
                          rw (direction, p, f, z, o, req_id_alloc-front r v.held.pool left) refl in
                        let (p, w) =
                          llq_push-Pushed has_data cpu hdr_len pkt hdr s v f x s' taken in
                        subst (Xmit pkt bytes r s.log) (sym taken)
                          (of-Pushed pkt r x s'.ring v p, pushed w)
                  ]
          ]
        ]
      ]

  -- A send of a packet takes a request that was not in flight and tells the device of the packet, or
  -- leaves the ring as it was.
  pub xmit_one-Xmit : (hdr : List ℕ) → Xmit pkt hdr s.ring s.log (xmit_one has_data cpu pkt hdr s)
  unfolding xmit_one host_end
  xmit_one-Xmit hdr =
      if-Xmit pkt hdr s.ring s.log s.ring.push.is_llq _ _ (push-Xmit hdr)
        (host-Xmit cpu pkt hdr s.ring s.log s v refl)
