-- ===== src/Tx/Poll.antt =====
-- `ena_tx_poll_completions`, with the releases that it defers to the core that owns a buffer.
use lib_ena.Prelude.{
  ℕ, zero, suc, ◌+◌, ◌-◌, bit_and, ◌==◌, ltb, leb, Bool, true, false, not, ◌||◌, if◌then◌else◌,
  Option, none, some, ◌∷◌, is_null, get_or, set,
}
use lib_ena.Status.{Result, ok, err, einval}
use lib_ena.Ring.{
  Ring, TxCdesc, ForeignFree, Io, free_netbuf, tx_complete, is_tx, u16, no_tx_buffer, cpu_id_none,
}
use lib_ena.Ring.Depth.{ring_index}
use lib_ena.Ring.Advance.{cq_advance}
use lib_ena.Ring.Ids.{req_id_free}

abbrev pub no_foreign : ForeignFree
no_foreign = record { req_id = 0; owner_cpu = 0 }

abbrev pub no_tx_cdesc : TxCdesc
no_tx_cdesc = record { req_id = 0; status = 0; flags = 0; sub_qid = 0; sq_head_idx = 0 }

abbrev pub netbuf_of : Ring → ℕ → ℕ
netbuf_of r req_id = (get_or r.tx_bufs req_id no_tx_buffer).netbuf

-- `tx_buf->netbuf = NULL`
abbrev pub clear_netbuf : Ring → ℕ → Ring
clear_netbuf r req_id = record r {
  tx_bufs = set r.tx_bufs req_id (record (get_or r.tx_bufs req_id no_tx_buffer) { netbuf = 0 });
}

-- `if (tx_buf->netbuf) uk_netbuf_free(tx_buf->netbuf); tx_buf->netbuf = NULL;` and the release of
-- the request id, which the drain and the completion path share.
unfoldable pub reclaim : Io → ℕ → Io
reclaim s req_id =
    let nb = netbuf_of s.ring req_id in
    record {
      ring = (req_id_free (clear_netbuf s.ring req_id) req_id).1;
      log = if nb == 0 then s.log else free_netbuf nb ∷ s.log;
    }

-- `ena_tx_report_foreign_reaper`, without its message.
unfoldable pub report_foreign_reaper : Ring → Ring
report_foreign_reaper r =
    if r.tx_owner_cpu == cpu_id_none || r.tx_owner_warned
    then r
    else record r { tx_owner_warned = true }

-- `ena_tx_stage_foreign_free`
unfoldable pub stage_foreign_free : Ring → ℕ → ℕ → Bool × Ring
stage_foreign_free r req_id owner_cpu =
    if is_null r.tx_bufs || is_null r.tx_foreign
    then (false, r)
    else if netbuf_of r req_id == 0
    then (false, r)
    else if leb r.sq.depth r.tx_foreign_count
    then (false, clear_netbuf r req_id)
    else (
      true,
      record r {
        tx_foreign =
            set r.tx_foreign r.tx_foreign_count (record { req_id = req_id; owner_cpu = owner_cpu });
        tx_foreign_count = u16 (r.tx_foreign_count + 1);
      },
    )

-- `*slot = ring->tx_foreign[--ring->tx_foreign_count]`, at a count that is not 0.
unfoldable pub drop_entry : Ring → ℕ → Ring
drop_entry r i = record r {
  tx_foreign = set r.tx_foreign i (get_or r.tx_foreign (r.tx_foreign_count - 1) no_foreign);
  tx_foreign_count = r.tx_foreign_count - 1;
}

-- The loop of `ena_tx_drain_foreign_frees`, on `tx_foreign_count - i` rounds: each round takes one
-- entry off or goes on to the next.
unfoldable pub drain_from : ℕ → ℕ → ℕ → Io → Io
drain_from zero cpu i s = s
drain_from (suc n) cpu i s =
    let slot = get_or s.ring.tx_foreign i no_foreign in
    elim (slot.owner_cpu == cpu) [
      | false ↦ drain_from n cpu (i + 1) s
      | true ↦
          let s' = reclaim s slot.req_id in
          drain_from n cpu i (record s' { ring = drop_entry s'.ring i })
    ]

-- `ena_tx_drain_foreign_frees`
unfoldable pub drain_foreign_frees : ℕ → Io → Io
drain_foreign_frees cpu s =
    if is_null s.ring.tx_foreign || s.ring.tx_foreign_count == 0
    then s
    else drain_from s.ring.tx_foreign_count cpu 0 s

-- The completion that the poll looks at.
abbrev pub tx_entry : Ring → TxCdesc
tx_entry r = get_or r.tx_cq (ring_index r.cq.depth r.cq.head) no_tx_cdesc

-- A completion of a request that is in flight, up to `advance_cq`.
unfoldable pub tx_complete_one : ℕ → TxCdesc → Io → Io
tx_complete_one cpu c s =
    let r = record s.ring {
      in_flight = set s.ring.in_flight c.req_id false;
      sq = record s.ring.sq { head = ring_index s.ring.sq.depth c.sq_head_idx };
    } in
    let log' = if s.ring.tx_complete_cb then tx_complete c.req_id ∷ s.log else s.log in
    if cpu == r.tx_owner_cpu
    then reclaim (record { ring = r; log = log' }) c.req_id
    else let warned = report_foreign_reaper r in
      let (staged, r') = stage_foreign_free warned c.req_id warned.tx_owner_cpu in
      if staged
      then record { ring = r'; log = log' }
      else reclaim (record { ring = r'; log = log' }) c.req_id

-- `advance_cq`
abbrev pub advance_cq : Io → Io
advance_cq s = record s { ring = record s.ring { cq = cq_advance s.ring.cq } }

-- One round of the poll loop: it ends, or goes on with the count of cleaned requests.
pub data Round : Type 0 where
  stop : Round
  next : ℕ → Io → Round

unfoldable pub tx_poll_round : ℕ → ℕ → ℕ → Io → Round
tx_poll_round cpu budget cleaned s =
    let c = tx_entry s.ring in
    if not (ltb cleaned budget)
    then stop
    else if not (bit_and c.flags 1 == s.ring.cq.phase)
    then stop
    else if leb s.ring.sq.depth c.req_id
    then stop
    else if not (get_or s.ring.in_flight c.req_id false)
    then next cleaned (advance_cq s)
    else next (cleaned + 1) (advance_cq (tx_complete_one cpu c s))

-- The poll loop on fuel; `none` means that the fuel ran out.
unfoldable pub tx_poll_loop : ℕ → ℕ → ℕ → ℕ → Io → Option (ℕ × Io)
tx_poll_loop zero cpu budget cleaned s = none
tx_poll_loop (suc fuel) cpu budget cleaned s = elim (tx_poll_round cpu budget cleaned s) [
  | stop ↦ some (cleaned, s)
  | next cleaned' s' ↦ tx_poll_loop fuel cpu budget cleaned' s'
]

-- What `ena_tx_poll_completions` returns, what it stores through `cleaned_count` (`none`: nothing),
-- and what it leaves.
pub record Polled : Type 0 where
  pub ret : Result ℕ
  pub cleaned_count : Option ℕ
  pub after : Io

abbrev polled_of : Option (ℕ × Io) → Option Polled
polled_of none = none
polled_of (some (n, s)) = some (record { ret = ok n; cleaned_count = some n; after = s })

-- `ena_tx_poll_completions` on core `cpu`. A round looks at one slot of the completion ring, and no
-- slot is looked at twice, so one round more than there are slots is enough.
unfoldable pub tx_poll_completions : ℕ → ℕ → Io → Option Polled
tx_poll_completions cpu budget s =
    if not (is_tx s.ring.ring_type) || is_null s.ring.tx_cq
    then some (record { ret = err einval; cleaned_count = none; after = s })
    else if not s.ring.hw_valid
    then some (record { ret = ok 0; cleaned_count = none; after = s })
    else if leb s.ring.sq.depth s.ring.pool.count
    then some (record { ret = ok 0; cleaned_count = some 0; after = s })
    else let limit = if budget == 0 then s.ring.cq.depth else budget in
      polled_of (tx_poll_loop (suc s.ring.cq.depth) cpu limit 0 (drain_foreign_frees cpu s))
