-- ===== src/Netdev/Landed.antt =====
-- What becomes of one packet that `ena_rx_poll` has given to the netdev layer.
use mathlib.Core.Path.{subst}
use lib_ena.Prelude.{
  sym, ap, ◌∙◌, some_injective, true-ne-false, ℕ, ◌+◌, ◌≤◌, ◌<◌, ◌↔◌, ◌≡◌, ◌≢◌, refl, Bool, true,
  false, ◌==◌, leb, not, ◌&&◌, Bool-cases, ◌⊎◌, inl, inr, Option, Option-cases, none, some, [], ◌∷◌,
  ◌++◌, is_null, arith,
}
use lib_ena.Status.{ok}
use lib_ena.Ring.{free_netbuf}
use lib_ena.Rx.Queue.{RxQueue}
use lib_ena.Rx.Refill.{Allocator}
use lib_ena.Rx.Poll.{RxPkt}
use lib_ena.Rx.Inv.{RxInv}
use lib_ena.Rx.Refilled.{Grown, rx_refill-Refilled}
use lib_ena.Netdev.Receive.{
  Fragment, RxNet, free_chain, drop_chain, to_refill, count_refill, rx_refill_helper, Step, done,
  more, slot_of, has_slot, fragment, queue_after, end_pass, drop_packet, assemble, take_packet,
}
use lib_ena.Netdev.Follows.{Follows, dropped-Follows, is_null-nil}

-- The fragment of a packet: how far the data pointer of its netbuf has been moved, and where its bytes
-- were copied from.
pub record Made (p : RxPkt) (moved : ℕ) (copied : Option (ℕ × ℕ)) (f : Fragment) : Type 0 where
  pub netbuf : f.netbuf ≡ p.netbuf
  pub len : f.len ≡ p.len
  pub moved_by : f.moved ≡ moved
  pub copied_from : f.copied ≡ copied
  pub valid :
      f.data_valid ≡ true
      ↔ ((p.l3_csum_err ≡ false) × (p.l4_csum_err ≡ false) × (p.l4_csum_checked ≡ true))

-- Whether the packet's bytes stand in bounce slot `slot`, with room made for them in the netbuf.
abbrev pub Bounced : (ℕ → Bool) → RxPkt → Option RxQueue → ℕ → Type 0
Bounced has_data p q slot =
    (slot_of p.req_id q ≡ some slot) × (has_slot slot q ≡ true) × (has_data p.netbuf ≡ true)

-- Whether they stand in the netbuf, but not at its start.
abbrev pub Shifted : (ℕ → Bool) → RxPkt → Option RxQueue → Type 0
Shifted has_data p q = (slot_of p.req_id q ≡ none) × (p.offset ≢ 0) × (has_data p.netbuf ≡ true)

-- What the netdev layer makes of the bytes of a packet, in each case. They are copied from a bounce slot,
-- or found at an offset in the netbuf, if they lie within the slot and the netbuf. Else they stay where
-- the ring has put them.
pub data Fitting (has_data : ℕ → Bool) (buflen : ℕ → ℕ) (p : RxPkt) (q : Option RxQueue)
    : Option Fragment → Type 0 where
  from_slot :
      (slot : ℕ) (f : Fragment)
      → Bounced has_data p q slot
      → p.len ≤ buflen p.netbuf
      → p.offset + p.len ≤ 2048
      → Made p 0 (some (slot, p.offset)) f
      → Fitting has_data buflen p q (some f)
  past_slot :
      (slot : ℕ)
      → Bounced has_data p q slot
      → (buflen p.netbuf < p.len) ⊎ (2048 < p.offset + p.len)
      → Fitting has_data buflen p q none
  at_offset :
      (f : Fragment)
      → Shifted has_data p q
      → p.offset + p.len ≤ buflen p.netbuf
      → Made p p.offset none f
      → Fitting has_data buflen p q (some f)
  past_buffer :
      Shifted has_data p q → buflen p.netbuf < p.offset + p.len → Fitting has_data buflen p q none
  as_it_is :
      (f : Fragment)
      → ¬ Shifted has_data p q
      → ((slot : ℕ) → ¬ Bounced has_data p q slot)
      → Made p 0 none f
      → Fitting has_data buflen p q (some f)

-- What a packet with a netbuf comes to, in a queue with the chain of `s`.
pub data Landing (p : RxPkt) (o : Option Fragment) (s : RxNet) (x : Step) (s' : RxNet)
    : Type 0 where
  refused :
      o ≡ none
      → x ≡ done none s'
      → s'.chain ≡ []
      → Grown (free_chain s.chain (free_netbuf p.netbuf ∷ s.io.log)) s'.io.log
      → Landing p o s x s'
  whole :
      (f : Fragment)
      → o ≡ some f
      → (p.last ≡ true) ⊎ ((s.chain ≡ []) × (p.first ≡ false))
      → x ≡ done (some (s.chain ++ (f ∷ []))) s'
      → s'.chain ≡ []
      → Grown s.io.log s'.io.log
      → Landing p o s x s'
  part :
      (f : Fragment)
      → o ≡ some f
      → p.last ≡ false
      → (s.chain ≢ []) ⊎ (p.first ≡ true)
      → x ≡ more s'
      → s'.chain ≡ s.chain ++ (f ∷ [])
      → Grown s.io.log s'.io.log
      → Landing p o s x s'

-- A fragment whose bytes stand where the ring has put them.
abbrev plain_of : RxPkt → Fragment
plain_of p = record {
  netbuf = p.netbuf;
  len = p.len;
  moved = 0;
  copied = none;
  data_valid = not p.l3_csum_err && not p.l4_csum_err && p.l4_csum_checked;
}

none-ne-some : {A : Type 0} {a : A} → ¬ (none ≡ some a)
none-ne-some e = cc

made :
    (p : RxPkt) (moved : ℕ) (copied : Option (ℕ × ℕ))
    → Made p moved copied (record (plain_of p) { moved = moved; copied = copied })
made p moved copied = record {
  netbuf = refl;
  len = refl;
  moved_by = refl;
  copied_from = refl;
  valid = (λ e. ground (arith, e), λ h. ground (arith, h.0, h.1, h.2));
}

module _ (alloc : Allocator) (has_data : ℕ → Bool) (buflen : ℕ → ℕ) where
  refill-Grown :
      (s : RxNet)
      → RxInv s.io.ring
      → (s' : RxNet) × (rx_refill_helper alloc s ≡ some s')
        × (s'.chain ≡ s.chain)
        × Grown s.io.log s'.io.log
  unfolding rx_refill_helper
  refill-Grown s v =
      let (n, io, e, bound, x) = rx_refill-Refilled alloc (to_refill s.io.ring) s.io v in
      (count_refill (ok n, io) s, rw (e, rx_refill_helper) refl, refl, x.log_grown)

  pub fragment-Fitting :
      (p : RxPkt) (q : Option RxQueue)
      → Fitting has_data buflen p q (fragment alloc has_data buflen p q)
  unfolding fragment
  fragment-Fitting p q =
      let nb = p.netbuf in
      elim (Option-cases (slot_of p.req_id q)) [
        | inl n ↦
            let unbounced : (slot : ℕ) → ¬ Bounced has_data p q slot =
              λ slot t. none-ne-some (sym n ∙ t.0) in
            elim (Bool-cases (not (p.offset == 0) && has_data nb)) [
              | inr b ↦
                  rw (n, fragment)
                    (rw b (as_it_is _ (λ t. ground (arith, b, t.1, t.2)) unbounced (made p 0 none)))
              | inl b ↦
                  let shifted : Shifted has_data p q = (n, ground (arith, b), ground (arith, b)) in
                  elim (Bool-cases (leb (p.offset + p.len) (buflen nb))) [
                    | inr c ↦ rw (n, fragment) (rw (b, c) (past_buffer shifted (ground (arith, c))))
                    | inl c ↦
                        rw (n, fragment)
                          (rw (b, c)
                            (at_offset _ shifted (ground (arith, c)) (made p p.offset none)))
                  ]
            ]
        | inr (slot, n) ↦
            let unshifted : ¬ Shifted has_data p q = λ t. none-ne-some (sym t.0 ∙ n) in
            elim (Bool-cases (not (has_slot slot q && has_data nb))) [
              | inl b ↦
                  rw (n, fragment)
                    (rw b (
                      as_it_is _ unshifted
                        (λ k t.
                          let same : slot ≡ k = some_injective (sym n ∙ t.0) in
                          ground (arith, b, t.2, subst (λ j. has_slot j q ≡ true) (sym same) t.1))
                        (made p 0 none)))
              | inr b ↦
                  let bounced : Bounced has_data p q slot =
                    (n, ground (arith, b), ground (arith, b)) in
                  elim (Bool-cases (leb p.len (buflen nb) && leb (p.offset + p.len) 2048)) [
                    | inr c ↦ rw (n, fragment) (rw (b, c) (past_slot slot bounced (beyond c)))
                    | inl c ↦
                        rw (n, fragment)
                          (rw (b, c)
                            (from_slot slot _ bounced (ground (arith, c)) (ground (arith, c))
                              (made p 0 (some (slot, p.offset)))))
                  ]
            ]
      ]
    where
      beyond :
          (leb p.len (buflen p.netbuf) && leb (p.offset + p.len) 2048) ≡ false
          → (buflen p.netbuf < p.len) ⊎ (2048 < p.offset + p.len)
      beyond c = elim (Bool-cases (leb p.len (buflen p.netbuf))) [
        | inl e ↦ inr (ground (arith, c, e))
        | inr e ↦ inl (ground (arith, e))
      ]

  assemble-Landing :
      (p : RxPkt) (f : Fragment) (s s' : RxNet)
      → s'.chain ≡ s.chain
      → Grown s.io.log s'.io.log
      → fragment alloc has_data buflen p s.io.queue ≡ some f
      → (t : RxNet) × Landing p
          (fragment alloc has_data buflen p s.io.queue)
          s
          (assemble p.first p.last f s')
          t
  unfolding assemble
  assemble-Landing p f s s' c g e =
      let joined : s'.chain ++ (f ∷ []) ≡ s.chain ++ (f ∷ []) = ap (λ fs. fs ++ (f ∷ [])) c in
      elim (Bool-cases (is_null s'.chain)) [
        | inl n ↦
            let empty : s'.chain ≡ [] = is_null-nil s'.chain n in
            let alone : f ∷ [] ≡ s.chain ++ (f ∷ []) = ap (λ fs. fs ++ (f ∷ [])) (sym empty ∙ c) in
            let ends : (p.first && not p.last) ≡ false
                → (p.last ≡ true) ⊎ ((s.chain ≡ []) × (p.first ≡ false)) =
              λ b. elim (Bool-cases p.last) [
                | inl l ↦ inl l
                | inr l ↦ inr (sym c ∙ empty, ground (arith, b, l))
              ] in
            elim (Bool-cases (p.first && not p.last)) [
              | inl b ↦ (
                record s' { chain = f ∷ [] },
                part f e (ground (arith, b)) (inr (ground (arith, b))) (rw (n, b) refl) alone g,
              )
              | inr b ↦
                  (s', whole f e (ends b) (rw (n, b) (ap (λ fs. done (some fs) s') alone)) empty g)
            ]
        | inr n ↦ elim (Bool-cases p.last) [
          | inl b ↦ (
            record s' { chain = [] },
            whole f e (inl b)
                (rw (n, b) (ap (λ fs. done (some fs) (record s' { chain = [] })) joined)) refl g,
          )
          | inr b ↦ (
            record s' { chain = s'.chain ++ (f ∷ []) },
            part f e b (inl (λ z. true-ne-false (sym (ap is_null (c ∙ z)) ∙ n))) (rw (n, b) refl)
                joined g,
          )
        ]
      ]

  -- A packet with a netbuf that the ring has given: the call returns or goes on. A packet whose bytes do
  -- not fit is freed, then the netbufs of the chain in order, no chain is left and no frame returned. Else
  -- its fragment comes after the chain: as a frame that is returned, if it is the last of its frame, or if
  -- no chain is there and it is not the first of its frame, as the rest of a frame that has been dropped;
  -- as the longer chain, if more follow. The bytes do not fit exactly if they stand in a bounce slot and
  -- reach past the slot or the netbuf, or stand at an offset in the netbuf and reach past it. Where they
  -- fit, the fragment has the netbuf and the length of the packet, and copies them from the slot, or moves
  -- the data pointer to them, or takes them as they are, in these cases. Its checksums are known as valid
  -- exactly if the device has checked that of layer 4 and reports no error.
  pub take_packet-Landing :
      (p : RxPkt) (s : RxNet)
      → p.netbuf ≢ 0
      → RxInv s.io.ring
      → (x : Step) × (t : RxNet) × (take_packet alloc has_data buflen p s ≡ some x)
        × Landing p (fragment alloc has_data buflen p s.io.queue) s x t
        × Fitting has_data buflen p s.io.queue (fragment alloc has_data buflen p s.io.queue)
  unfolding take_packet end_pass drop_packet drop_chain
  take_packet-Landing p s here v =
      let after : RxNet = record s { io = record s.io { queue = queue_after p s.io.queue } } in
      let z : (p.netbuf == 0) ≡ false = ground (arith, here) in
      let fits = fragment-Fitting p s.io.queue in
      elim (Option-cases (fragment alloc has_data buflen p s.io.queue)) [
        | inl n ↦
            let stay : Follows s.io.ring s.io.ring = record {
              inv = v;
              cq_same = refl;
              entries_same = refl;
            } in
            let (s', e, c, g) = refill-Grown (drop_packet p after) (dropped-Follows stay).inv in
            (
              done none s',
              s',
              rw z (rw (n, take_packet) (rw (e, end_pass) refl)),
              refused n refl c g,
              fits,
            )
        | inr (f, n) ↦
            let (s', e, c, g) = refill-Grown after v in
            let (t, landing) = assemble-Landing p f s s' c g n in
            (
              assemble p.first p.last f s',
              t,
              rw z (rw (n, take_packet) (rw (e, take_packet) refl)),
              landing,
              fits,
            )
      ]
