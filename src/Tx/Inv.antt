-- ===== src/Tx/Inv.antt =====
-- The invariant of a transmit ring, and what one completion does to it.
use lib_ena.Prelude.{
  ℕ, suc, ◌+◌, ◌<◌, ◌≡◌, ◌≢◌, ap, ◌∙◌, Bool, true, false, ◌==◌, leb, length, length-set,
  is_null-length, get_or, set, arith,
}
use lib_ena.Ring.{Ring, tx, TxCdesc, Io, no_tx_buffer, u16}
use lib_ena.Ring.Depth.{ring_index}
use lib_ena.Ring.Ids.{push_id, slot_clear-tx}
use lib_ena.Ring.FreeList.{HasPool, req_id_free-allocated}
use lib_ena.Tx.Poll.{netbuf_of, clear_netbuf, reclaim, report_foreign_reaper, stage_foreign_free}
use lib_ena.Tx.Held.{Held, release-Held, stage_room, stage-Held}

-- A transmit ring whose every request id is free, in flight, or deferred.
pub record TxInv (r : Ring) : Type 0 where
  pub direction : r.ring_type ≡ tx
  pub bufs_length : length r.tx_bufs ≡ r.sq.depth
  pub held : Held r.sq.depth r.pool r.in_flight r.tx_foreign r.tx_foreign_count

-- The slot of a request with its buffer taken out and the slot cleared.
abbrev pub cleared : Ring → ℕ → Ring
cleared r id = record (clear_netbuf r id) {
  tx_bufs = set (clear_netbuf r id).tx_bufs id no_tx_buffer;
  pool = push_id r.sq.depth r.pool id;
}

-- `reclaim` of an allocated request.
pub reclaim-ring :
    (s : Io) (id : ℕ)
    → s.ring.ring_type ≡ tx
    → HasPool s.ring
    → id < s.ring.sq.depth
    → get_or s.ring.pool.allocated id true ≡ true
    → (reclaim s id).ring ≡ cleared s.ring id
unfolding reclaim
reclaim-ring s id t v h e =
    let r : Ring = clear_netbuf s.ring id in
    ap (λ o. o.1) (req_id_free-allocated r v id h e)
    ∙ slot_clear-tx (record r { pool = push_id r.sq.depth r.pool id }) id t

pub cleared_length : (r : Ring) (id : ℕ) → length (cleared r id).tx_bufs ≡ length r.tx_bufs
cleared_length r id =
    length-set (clear_netbuf r id).tx_bufs id no_tx_buffer
    ∙ length-set r.tx_bufs id (record (get_or r.tx_bufs id no_tx_buffer) { netbuf = 0 })

-- The ring of a completion before its buffer is dealt with, with a warning or without.
abbrev pub landed : Ring → TxCdesc → Bool → Ring
landed r c w = record r {
  in_flight = set r.in_flight c.req_id false;
  sq = record r.sq { head = ring_index r.sq.depth c.sq_head_idx };
  tx_owner_warned = w;
}

-- The ring of a completion whose release is deferred.
abbrev pub deferring : Ring → TxCdesc → Bool → ℕ → Ring
deferring r c w owner = record (landed r c w) {
  tx_foreign =
      set r.tx_foreign r.tx_foreign_count (record { req_id = c.req_id; owner_cpu = owner });
  tx_foreign_count = suc r.tx_foreign_count;
}

module _ (r : Ring) (v : TxInv r) (c : TxCdesc) (h : c.req_id < r.sq.depth)
    (e : get_or r.in_flight c.req_id false ≡ true) where
  -- A completion that releases its buffer.
  pub cleared-TxInv : (w : Bool) → TxInv (cleared (landed r c w) c.req_id)
  cleared-TxInv w = record {
    direction = v.direction;
    bufs_length = cleared_length r c.req_id ∙ v.bufs_length;
    held = release-Held v.held c.req_id h e;
  }

  pub stage-deferring :
      (w : Bool) (owner : ℕ)
      → netbuf_of r c.req_id ≢ 0
      → stage_foreign_free (landed r c w) c.req_id owner ≡ (true, deferring r c w owner)
  unfolding stage_foreign_free
  stage-deferring w owner nb =
      let lt = stage_room v.held c.req_id e in
      let depth_pos = v.held.pool.depth_ok in
      let has_room : leb r.sq.depth r.tx_foreign_count ≡ false = ground arith in
      let count : u16 (r.tx_foreign_count + 1) ≡ suc r.tx_foreign_count =
        omega (arith, lt, depth_pos.upper) in
      let has_buf : (netbuf_of r c.req_id == 0) ≡ false = ground arith in
      rw (
        is_null-length r.tx_bufs (omega (arith, v.bufs_length, depth_pos.lower)),
        is_null-length r.tx_foreign (omega (arith, v.held.foreign_length, depth_pos.lower)),
        has_buf,
        has_room,
        count,
      )

  pub stage-empty :
      (w : Bool) (owner : ℕ)
      → netbuf_of r c.req_id ≡ 0
      → stage_foreign_free (landed r c w) c.req_id owner ≡ (false, landed r c w)
  unfolding stage_foreign_free
  stage-empty w owner nb =
      let depth_pos = v.held.pool.depth_ok in
      let no_buf : (netbuf_of r c.req_id == 0) ≡ true = ground arith in
      rw (
        is_null-length r.tx_bufs (omega (arith, v.bufs_length, depth_pos.lower)),
        is_null-length r.tx_foreign (omega (arith, v.held.foreign_length, depth_pos.lower)),
        no_buf,
      )

  pub deferring-TxInv : (w : Bool) (owner : ℕ) → TxInv (deferring r c w owner)
  deferring-TxInv w owner = record {
    direction = v.direction;
    bufs_length = v.bufs_length;
    held = stage-Held v.held c.req_id owner h e;
  }

pub report-warned :
    (r : Ring)
    → report_foreign_reaper r
      ≡ record r { tx_owner_warned = (report_foreign_reaper r).tx_owner_warned }
unfolding report_foreign_reaper
report-warned r = ground arith
