-- ===== src/Ring/Lifecycle.antt =====
-- `ena_ring_alloc` and `ena_ring_free`. The allocators (`calloc`, `free`, and the DMA allocator of
-- the platform) are a heap of live blocks and a schedule that says which call succeeds.
use lib_ena.Prelude.{
  ℕ, suc, ◌==◌, Bool, true, false, not, ◌||◌, if◌then◌else◌, List, [], ◌∷◌, replicate,
}
use lib_ena.Status.{Result, ok, err, einval, enomem}
use lib_ena.Ring.{
  Ring, RingType, tx, rx, is_tx, TxDesc, RxDesc, RxCdesc, cpu_id_none, no_tx_buffer, no_rx_buffer,
}
use lib_ena.Ring.Depth.{is_power_of_two}
use lib_ena.Ring.Reset.{fill_ids}

-- How many allocations have been asked for, and the blocks that are allocated.
pub record Heap : Type 0 where
  pub calls : ℕ
  pub live : List ℕ

-- The blocks of a ring; 0 for one that the ring does not have.
pub record Blocks : Type 0 where
  pub ring : ℕ
  pub sq : ℕ
  pub cq : ℕ
  pub ids : ℕ
  pub bufs : ℕ
  pub in_flight : ℕ
  pub allocated : ℕ
  pub sq_head_wb : ℕ
  pub foreign : ℕ

-- One block less.
unfoldable pub erase : ℕ → List ℕ → List ℕ
erase p [] = []
erase p (x ∷ xs) = let rest = x ∷ erase p xs in if p == x then xs else rest

unfoldable pub free_block : Heap → ℕ → Heap
free_block h p = record h { live = erase p h.live }

-- The blocks of a list freed in order.
unfoldable pub free_all : List ℕ → Heap → Heap
free_all [] h = h
free_all (p ∷ ps) h = free_all ps (free_block h p)

-- `if (p) free(p);`
unfoldable pub free_if : ℕ → Heap → Heap
free_if p h = if p == 0 then h else free_block h p

module _ (grants : ℕ → Bool) where
  -- An allocation: the new block, or NULL.
  unfoldable pub grab : Heap → ℕ × Heap
  grab h =
      if grants h.calls
      then (suc h.calls, record { calls = suc h.calls; live = suc h.calls ∷ h.live })
      else (0, record h { calls = suc h.calls })

-- `if (!p) { free the blocks; return -ENOMEM; }` and what follows it.
unfoldable pub or_undo :
    ℕ × Heap → List ℕ → (ℕ → Heap → Result (Ring × Blocks) × Heap) → Result (Ring × Blocks) × Heap
or_undo (p, h) blocks k = if p == 0 then (err enomem, free_all blocks h) else k p h

abbrev no_tx_desc : TxDesc
no_tx_desc = record { len_ctrl = 0; meta_ctrl = 0; buff_addr_lo = 0; buff_addr_hi_hdr_sz = 0 }

abbrev no_rx_desc : RxDesc
no_rx_desc = record { length = 0; ctrl = 0; req_id = 0; buff_addr_lo = 0; buff_addr_hi = 0 }

abbrev no_rx_cdesc : RxCdesc
no_rx_cdesc = record { status = 0; length = 0; req_id = 0; hash = 0; sub_qid = 0; offset = 0 }

-- An array of one of the two directions.
abbrev pub of_tx {ℓ} : {A : Type ℓ} → RingType → List A → List A
of_tx tx xs = xs
of_tx rx xs = []

abbrev pub of_rx {ℓ} : {A : Type ℓ} → RingType → List A → List A
of_rx tx xs = []
of_rx rx xs = xs

-- The fields of a new ring: those that `ena_ring_alloc` sets, and zeroes.
unfoldable pub new_ring : ℕ → RingType → ℕ → ℕ → Ring
new_ring qid ty sq_depth cq_depth = record {
  qid = qid;
  ring_type = ty;
  hw_valid = true;
  sq = record { depth = sq_depth; tail = 0; head = 0; phase = 1; idx = 0; db_offset = 0; db = 0 };
  cq = record {
    depth = cq_depth;
    head = 0;
    phase = 1;
    elem_size = if is_tx ty then 8 else 16;
    idx = 0;
    db_offset = 0;
    db = 0;
    unmask_db_offset = 0;
  };
  pool = record {
    ids = fill_ids sq_depth 0 (replicate sq_depth 0);
    head = 0;
    tail = 0;
    count = sq_depth;
    allocated = replicate sq_depth false;
  };
  in_flight = replicate sq_depth false;
  tx_owner_cpu = cpu_id_none;
  tx_owner_warned = false;
  tx_foreign = of_tx ty (replicate sq_depth (record { req_id = 0; owner_cpu = 0 }));
  tx_foreign_count = 0;
  drop_netbuf_cb = false;
  tx_complete_cb = false;
  tx_bufs = of_tx ty (replicate sq_depth no_tx_buffer);
  rx_bufs = of_rx ty (replicate sq_depth no_rx_buffer);
  stats = record {
    tx_packets = 0;
    tx_bytes = 0;
    rx_packets = 0;
    rx_bytes = 0;
    rx_dropped = 0;
    tx_dropped = 0;
  };
  push = record { is_llq = false; virt = 0; phys = 0; size = 0; header_len = 0; entry_size = 0 };
  tx_sq = of_tx ty (replicate sq_depth no_tx_desc);
  tx_cq = of_tx ty (
      replicate cq_depth
        (record { req_id = 0; status = 0; flags = 0; sub_qid = 0; sq_head_idx = 0 }));
  rx_sq = of_rx ty (replicate sq_depth no_rx_desc);
  rx_cq = of_rx ty (replicate cq_depth no_rx_cdesc);
}

-- `ena_ring_alloc`: each failure frees what was allocated before it, in the source's order.
unfoldable pub ring_alloc : (ℕ → Bool) → ℕ → RingType → ℕ → ℕ → Heap → Result (Ring × Blocks) × Heap
ring_alloc grants qid ty sq_depth cq_depth h =
    if not (is_power_of_two sq_depth) || not (is_power_of_two cq_depth)
    then (err einval, h)
    else or_undo (grab grants h) [] λ ring h1. or_undo (grab grants h1) (ring ∷ []) λ sq h2.
      or_undo (grab grants h2) (sq ∷ ring ∷ []) λ cq h3.
        or_undo (grab grants h3) (cq ∷ sq ∷ ring ∷ []) λ ids h4.
          or_undo (grab grants h4) (ids ∷ cq ∷ sq ∷ ring ∷ []) λ bufs h5.
            or_undo (grab grants h5) (bufs ∷ ids ∷ cq ∷ sq ∷ ring ∷ []) λ in_flight h6.
              or_undo (grab grants h6) (in_flight ∷ bufs ∷ ids ∷ cq ∷ sq ∷ ring ∷ [])
                λ allocated h7.
                  let new = new_ring qid ty sq_depth cq_depth in
                  let blocks : Blocks = record {
                    ring = ring;
                    sq = sq;
                    cq = cq;
                    ids = ids;
                    bufs = bufs;
                    in_flight = in_flight;
                    allocated = allocated;
                    sq_head_wb = 0;
                    foreign = 0;
                  } in
                  if not (is_tx ty)
                  then (ok (new, blocks), h7)
                  else or_undo (grab grants h7)
                      (in_flight ∷ allocated ∷ bufs ∷ ids ∷ cq ∷ sq ∷ ring ∷ [])
                      λ wb h8.
                        or_undo (grab grants h8)
                          (wb ∷ allocated ∷ in_flight ∷ bufs ∷ ids ∷ cq ∷ sq ∷ ring ∷ [])
                          λ foreign h9.
                            (ok (new, record blocks { sq_head_wb = wb; foreign = foreign }), h9)

-- `ena_ring_free`
unfoldable pub ring_free : Blocks → Heap → Heap
ring_free b h =
    let h1 = free_if b.in_flight (free_if b.sq_head_wb h) in
    let h2 = free_if b.foreign (free_if b.allocated h1) in
    let h3 = free_if b.ids (free_if b.bufs h2) in
    let h4 = free_if b.sq (free_if b.cq h3) in free_block h4 b.ring
