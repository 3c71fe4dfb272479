-- ===== src/Tx/Complete.antt =====
-- What one completion does, on the core that owns the buffer and on another one.
use mathlib.Core.Path.{subst}
use lib_ena.Prelude.{
  ℕ, ◌<◌, ◌≡◌, ◌≢◌, refl, sym, ap, ◌∙◌, List, ◌∷◌, Bool, true, false, ◌⊎◌, inl, inr, ◌==◌,
  if◌then◌else◌, Bool-cases, get_or, set, arith,
}
use lib_ena.Ring.{TxCdesc, Effect, Io, tx_complete, free_netbuf}
use lib_ena.Tx.Poll.{netbuf_of, reclaim, report_foreign_reaper, tx_complete_one}
use lib_ena.Tx.Held.{flight_allocated}
use lib_ena.Tx.Inv.{
  TxInv, landed, cleared, reclaim-ring, cleared-TxInv, deferring, stage-deferring, stage-empty,
  deferring-TxInv, report-warned,
}

-- The log once the netdev layer has been told.
abbrev pub told : TxCdesc → Io → List Effect
told c s = if s.ring.tx_complete_cb then tx_complete c.req_id ∷ s.log else s.log

-- The log once a buffer, if there is one, has been freed.
abbrev pub freed : ℕ → List Effect → List Effect
freed nb l = if nb == 0 then l else free_netbuf nb ∷ l

-- What holds after a completion, whichever way its buffer goes.
pub record Completed (s : Io) (c : TxCdesc) (s' : Io) : Type 0 where
  pub inv : TxInv s'.ring
  pub cq_same : s'.ring.cq ≡ s.ring.cq
  pub entries_same : s'.ring.tx_cq ≡ s.ring.tx_cq
  pub depth_same : s'.ring.sq.depth ≡ s.ring.sq.depth
  pub landed_flight : s'.ring.in_flight ≡ set s.ring.in_flight c.req_id false

-- The flag once a core that is not the owner has been reported.
abbrev pub warned : TxCdesc → Io → Bool
warned c s = (report_foreign_reaper (landed s.ring c s.ring.tx_owner_warned)).tx_owner_warned

module _ (cpu : ℕ) (c : TxCdesc) (s : Io) (v : TxInv s.ring) (h : c.req_id < s.ring.sq.depth)
    (e : get_or s.ring.in_flight c.req_id false ≡ true) where
  abbrev marked : get_or s.ring.pool.allocated c.req_id true ≡ true
  marked = flight_allocated v.held c.req_id h e

  -- A buffer released with the ring as `landed` leaves it.
  release_at :
      (w : Bool) (l : List Effect)
      → reclaim (record { ring = landed s.ring c w; log = l }) c.req_id ≡ record {
        ring = cleared (landed s.ring c w) c.req_id;
        log = freed (netbuf_of s.ring c.req_id) l;
      }
  unfolding reclaim
  release_at w l =
      ap (λ t. record { ring = t; log = freed (netbuf_of s.ring c.req_id) l })
        (reclaim-ring (record { ring = landed s.ring c w; log = l }) c.req_id v.direction
          v.held.pool h marked)

  -- On a transmit ring that meets the invariant, the completion of a request that is in range and
  -- in flight, reaped on the core that last submitted: the buffer, if the slot holds one, is
  -- freed, the slot is cleared and the id goes back to the pool.
  pub complete_owner :
      cpu ≡ s.ring.tx_owner_cpu
      → tx_complete_one cpu c s ≡ record {
        ring = cleared (landed s.ring c s.ring.tx_owner_warned) c.req_id;
        log = freed (netbuf_of s.ring c.req_id) (told c s);
      }
  unfolding tx_complete_one
  complete_owner same =
      let yes_owner : (cpu == s.ring.tx_owner_cpu) ≡ true = ground arith in
      rw yes_owner (release_at s.ring.tx_owner_warned (told c s))

  -- On a transmit ring that meets the invariant, the completion of a request that is in range, in
  -- flight and holds a buffer, reaped on a core that is not the one that last submitted: an entry
  -- for that core is appended to the deferred releases, no buffer is freed, and the pool and the
  -- slots stay as they are.
  pub complete_foreign :
      cpu ≢ s.ring.tx_owner_cpu
      → netbuf_of s.ring c.req_id ≢ 0
      → tx_complete_one cpu c s
        ≡ record { ring = deferring s.ring c (warned c s) s.ring.tx_owner_cpu; log = told c s }
  unfolding tx_complete_one
  complete_foreign other nb =
      let no_owner : (cpu == s.ring.tx_owner_cpu) ≡ false = ground arith in
      rw (
        no_owner,
        report-warned (landed s.ring c s.ring.tx_owner_warned),
        stage-deferring s.ring v c h e (warned c s) s.ring.tx_owner_cpu nb,
      )

  -- With no buffer to free, the id goes back to the pool on any core.
  complete_empty :
      cpu ≢ s.ring.tx_owner_cpu
      → netbuf_of s.ring c.req_id ≡ 0
      → tx_complete_one cpu c s
        ≡ record { ring = cleared (landed s.ring c (warned c s)) c.req_id; log = told c s }
  unfolding tx_complete_one
  complete_empty other nb =
      let no_owner : (cpu == s.ring.tx_owner_cpu) ≡ false = ground arith in
      let l : List Effect = told c s in
      rw
        (
          no_owner,
          report-warned (landed s.ring c s.ring.tx_owner_warned),
          stage-empty s.ring v c h e (warned c s) s.ring.tx_owner_cpu nb,
        )
        (release_at (warned c s) l
          ∙ ap
              (λ t. record {
                ring = cleared (landed s.ring c (warned c s)) c.req_id;
                log = freed t l;
              })
              nb)

  pub complete_split :
      (tx_complete_one cpu c s ≡ record {
        ring = cleared (landed s.ring c s.ring.tx_owner_warned) c.req_id;
        log = freed (netbuf_of s.ring c.req_id) (told c s);
      })
      ⊎ ((tx_complete_one cpu c s
            ≡ record { ring = deferring s.ring c (warned c s) s.ring.tx_owner_cpu; log = told c s })
          ⊎ (tx_complete_one cpu c s
              ≡ record { ring = cleared (landed s.ring c (warned c s)) c.req_id; log = told c s }))
  complete_split = elim (Bool-cases (cpu == s.ring.tx_owner_cpu)) [
    | inl own ↦ inl (complete_owner (ground arith))
    | inr other ↦ elim (Bool-cases (netbuf_of s.ring c.req_id == 0)) [
      | inl nb ↦ inr (inr (complete_empty (ground arith) (ground arith)))
      | inr nb ↦ inr (inl (complete_foreign (ground arith) (ground arith)))
    ]
  ]

  cleared-Completed :
      (w : Bool) (l : List Effect)
      → Completed s c (record { ring = cleared (landed s.ring c w) c.req_id; log = l })
  cleared-Completed w l = record {
    inv = cleared-TxInv s.ring v c h e w;
    cq_same = refl;
    entries_same = refl;
    depth_same = refl;
    landed_flight = refl;
  }

  -- On a transmit ring that meets the invariant, the completion of a request that is in range and
  -- in flight, whichever way it goes: the invariant stays, the flag of the request is cleared and
  -- no other, and the completion queue and its entries stay as they were.
  pub complete-Completed : Completed s c (tx_complete_one cpu c s)
  complete-Completed = elim complete_split [
    | inl p ↦ subst (Completed s c) (sym p) (cleared-Completed s.ring.tx_owner_warned _)
    | inr (inl p) ↦ subst (Completed s c) (sym p) (record {
      inv = deferring-TxInv s.ring v c h e (warned c s) s.ring.tx_owner_cpu;
      cq_same = refl;
      entries_same = refl;
      depth_same = refl;
      landed_flight = refl;
    })
    | inr (inr p) ↦ subst (Completed s c) (sym p) (cleared-Completed (warned c s) _)
  ]
