-- ===== src/Tx/Accept.antt =====
-- What `ena_tx_submit` accepts, and what it does to the ring.
use mathlib.Core.Path.{subst}
use lib_ena.Prelude.{
  ℕ, suc, ◌≤◌, ◌<◌, ◌≡◌, ◌≢◌, ◌↔◌, refl, sym, ap, ◌∙◌, true, false, ◌==◌, ltb, ◌||◌, length-set,
  get_or, set, get_or-set_self, arith,
}
use lib_ena.Status.{ok, ok_injective}
use lib_ena.Ring.{Ring, no_tx_buffer, is_tx}
use lib_ena.Ring.Advance.{sq_advance}
use lib_ena.Ring.Depth.{ring_index}
use lib_ena.Ring.Ids.{pop_id}
use lib_ena.Ring.Inv.{front_in, front_free}
use lib_ena.Ring.FreeList.{req_id_alloc-front}
use lib_ena.Tx.Submit.{TxPkt, tx_desc, tx_fill, tx_submit}
use lib_ena.Tx.Held.{submit-Held}
use lib_ena.Tx.Inv.{TxInv}

-- What `ena_tx_submit` asks of the ring and the packet.
pub record IsAccepted (pkt : TxPkt) (r : Ring) : Type 0 where
  pub valid : r.hw_valid ≡ true
  pub some_bytes : 1 ≤ pkt.len
  pub one_word : pkt.len ≤ 0xffff
  pub ids_left : r.pool.count ≢ 0

-- The id at the front of the pool, and the ring that a submit leaves.
abbrev front : Ring → ℕ
front r = get_or r.pool.ids r.pool.head 0

abbrev filled : ℕ → TxPkt → Ring → Ring
filled cpu pkt r = tx_fill cpu pkt (front r) (record r { pool = pop_id r.sq.depth r.pool })

-- What an accepted submit does.
pub record Submitted (cpu : ℕ) (pkt : TxPkt) (r : Ring) (id : ℕ) (r' : Ring) : Type 0 where
  pub inv : TxInv r'
  pub in_range : id < r.sq.depth
  pub was_free : get_or r.pool.allocated id true ≡ false
  pub now_in_flight : get_or r'.in_flight id false ≡ true
  pub one_less : suc r'.pool.count ≡ r.pool.count
  pub descriptor :
      r'.tx_sq ≡ set r.tx_sq (ring_index r.sq.depth r.sq.tail) (tx_desc r.sq.phase id pkt)
  pub tail_moved : r'.sq ≡ sq_advance r.sq
  pub owner : r'.tx_owner_cpu ≡ cpu
  pub flight_set : r'.in_flight ≡ set r.in_flight id true
  pub callback_same : r'.tx_complete_cb ≡ r.tx_complete_cb
  pub buffer : get_or r'.tx_bufs id no_tx_buffer ≡ record {
    netbuf = pkt.netbuf;
    phys_addr = pkt.phys_addr;
    data_len = pkt.len;
    num_descs = 1;
    req_id = id;
  }

module _ (cpu : ℕ) (pkt : TxPkt) (r : Ring) (v : TxInv r) where
  submit_accepted : IsAccepted pkt r → tx_submit cpu pkt r ≡ ok (front r, filled cpu pkt r)
  unfolding tx_submit
  submit_accepted a =
      let direction : is_tx r.ring_type ≡ true = ap is_tx v.direction in
      let fits : (pkt.len == 0 || ltb 0xffff pkt.len) ≡ false =
        ground (arith, a.some_bytes, a.one_word) in
      let left : (r.pool.count == 0) ≡ false = ground (arith, a.ids_left) in
      simp (direction, a.valid, fits, left, req_id_alloc-front r v.held.pool a.ids_left)

  submit_ok : (id : ℕ) (r' : Ring) → tx_submit cpu pkt r ≡ ok (id, r') → IsAccepted pkt r
  unfolding tx_submit
  submit_ok id r' e = ground arith

  filled-Submitted : r.pool.count ≢ 0 → Submitted cpu pkt r (front r) (filled cpu pkt r)
  unfolding tx_fill pop_id sq_advance
  filled-Submitted left =
      let x : ℕ = front r in
      let inside = front_in v.held.pool left in
      record {
        inv = record {
          direction = v.direction;
          bufs_length = length-set r.tx_bufs x _ ∙ v.bufs_length;
          held = submit-Held v.held left;
        };
        in_range = inside;
        was_free = (front_free v.held.pool left).0;
        now_in_flight =
            get_or-set_self r.in_flight x true false (omega (arith, v.held.flight_length));
        one_less = omega arith;
        descriptor = refl;
        tail_moved = refl;
        owner = refl;
        flight_set = refl;
        callback_same = refl;
        buffer = get_or-set_self r.tx_bufs x _ no_tx_buffer (omega (arith, inside, v.bufs_length));
      }

  -- On a transmit ring that meets the invariant, `ena_tx_submit` succeeds exactly when the hardware
  -- queues are valid, the packet has between 1 and 65535 bytes, and a request id is left.
  pub tx_submit_ok_iff :
      ((id : ℕ) × (r' : Ring) × (tx_submit cpu pkt r ≡ ok (id, r'))) ↔ IsAccepted pkt r
  tx_submit_ok_iff =
      (λ t. submit_ok t.0 t.1 t.2, λ a. (front r, filled cpu pkt r, submit_accepted a))

  -- A submit that succeeds on a transmit ring that meets the invariant takes a request id in range
  -- that was free, marks it and no other in flight, leaves one free id less, writes the descriptor of the
  -- packet at the masked tail with the phase of the queue, records the packet as the buffer of the
  -- request, moves the tail, records the core, and keeps the invariant.
  pub tx_submit-Submitted :
      (id : ℕ) (r' : Ring) → tx_submit cpu pkt r ≡ ok (id, r') → Submitted cpu pkt r id r'
  tx_submit-Submitted id r' e =
      let a = submit_ok id r' e in
      let same = ok_injective (sym (submit_accepted a) ∙ e) in
      subst (λ t. Submitted cpu pkt r t.0 t.1) same (filled-Submitted a.ids_left)
