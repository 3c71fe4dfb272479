-- ===== src/Admin/Valid.antt =====
-- A ring that `ena_ring_create_hw` accepts has its doorbells inside BAR0.
use mathlib.Core.Path.{subst}
use lib_ena.Prelude.{
  ℕ, zero, suc, List, [], ◌∷◌, ◌+◌, ◌≤◌, bit_and, ◌==◌, ◌≡◌, ◌≢◌, refl, ap, sym, ◌∙◌, ◌⊎◌, inl, inr,
  true, false, Bool-cases, Option, none, some, Option-cases, get_or, set, arith,
}
use lib_ena.Status.{ok, err, Code, success, err-ne-ok}
use lib_ena.Device.{Adapter}
use lib_ena.Ring.{Ring, CompQueue}
use lib_ena.Admin.{Handle, tx_ring, rx_ring, RingBus, Master, Command}
use lib_ena.Admin.Client.{Exec, is_timeout, ring_at, on_ring, IsQuiet, Keeps}
use lib_ena.Admin.Ensures.{Ensures, at_once, or_return-Ensures, answered-Ensures, return_if-Ensures}
use lib_ena.Admin.Queues.{admin_create_cq, admin_create_sq, admin_create_sq_common}
use lib_ena.Admin.Hardware.{
  bad_offset, with_ring, store_cq, store_sq, map_cq_db, map_sq_db, set_valid, wants_llq, hw_finish,
  or_destroy_cq, hw_host_sq, hw_fallback, hw_sq, hw_check_cq, ring_create_hw, drop_cq,
}

-- A doorbell: the device gave no offset, or the register is a whole word inside the BAR.
pub record Mapped (size off : ℕ) : Type 0 where
  pub inside : (off ≡ 0) ⊎ (off + 4 ≤ size) × (bit_and off 3 ≡ 0)

bad_offset-Mapped : (size off : ℕ) → bad_offset size off ≡ false → Mapped size off
bad_offset-Mapped size off e = elim (Bool-cases (off == 0)) [
  | inl z ↦ record { inside = inl (ground arith) }
  | inr nz ↦
      let in_bar : (off + 4 ≤ size) × (bit_and off 3 ≡ 0) = (ground arith, ground arith) in
      record { inside = inr in_bar }
]

set-some :
    (rs : List (Option Ring)) (q : ℕ) (r r' : Ring)
    → get_or rs q none ≡ some r
    → get_or (set rs q (some r')) q none ≡ some r'
set-some [] q r r' e = absurd cc
set-some (x ∷ rs) zero r r' e = refl
set-some (x ∷ rs) (suc q) r r' e = set-some rs q r r' e

-- The adapter has the device, the BARs and the LLQ mode of another.
pub record SameSetting (m out : Master) : Type 0 where
  pub dev : out.dev ≡ m.dev
  pub llq : out.llq_info ≡ m.llq_info

same_trans : {a b c : Master} → SameSetting a b → SameSetting b c → SameSetting a c
same_trans p q = record { dev = q.dev ∙ p.dev; llq = q.llq ∙ p.llq }

-- The ring at the place is `r`, in the setting of `m`.
record At (h : Handle) (m : Master) (r : Ring) (out : Master) : Type 0 where
  here : ring_at h out ≡ some r
  same : SameSetting m out

on_ring-At :
    (h : Handle) (f : Ring → Ring) (m : Master) (r : Ring) (s : Master)
    → At h m r s
    → At h m (f r) (on_ring h f s)
on_ring-At (tx_ring q) f m r s a =
    rw (on_ring, a.here)
      (record {
        here = set-some s.tx_rings q r (f r) a.here;
        same = record { dev = a.same.dev; llq = a.same.llq };
      })
on_ring-At (rx_ring q) f m r s a =
    rw (on_ring, a.here)
      (record {
        here = set-some s.rx_rings q r (f r) a.here;
        same = record { dev = a.same.dev; llq = a.same.llq };
      })

Keeps-At :
    (h : Handle) (m : Master) (r : Ring) (s out : Master) → At h m r s → Keeps s out → At h m r out
Keeps-At (tx_ring q) m r s out a k = record {
  here = ap (λ l. get_or l q none) k.tx_rings ∙ a.here;
  same = same_trans a.same (record { dev = k.dev; llq = k.llq_info });
}
Keeps-At (rx_ring q) m r s out a k = record {
  here = ap (λ l. get_or l q none) k.rx_rings ∙ a.here;
  same = same_trans a.same (record { dev = k.dev; llq = k.llq_info });
}

with_ring-Ensures :
    (P : Master → Type 0) (h : Handle) (s : Master) (k : Ring → Code × Master) (r : Ring)
    → ring_at h s ≡ some r
    → Ensures P (k r)
    → Ensures P (with_ring h s k)
unfolding with_ring
with_ring-Ensures P h s k r e p = rw (with_ring, e) p

-- A doorbell register: where there is an offset, it is mapped inside the BAR.
pub record Doorbell (d : Adapter) (off db : ℕ) : Type 0 where
  pub mapped : Mapped d.bar0_size off
  pub address : off ≢ 0 → db ≡ d.bar0_base + off

-- The completion queue of a ring is usable.
pub record CqUsable (d : Adapter) (q : CompQueue) : Type 0 where
  pub head_db : Doorbell d q.db_offset q.db
  pub unmask : Mapped d.bar0_size q.unmask_db_offset

-- Some ring is at the place.
abbrev Present : Handle → Master → Master → Type 0
Present h m out = (r : Ring) × At h m r out

abbrev Checked : Handle → Master → Master → Type 0
Checked h m out = (r : Ring) × At h m r out × CqUsable m.dev r.cq

-- The ring at the place in `out` is live, with the doorbells of the adapter `m`.
pub record Live (h : Handle) (m out : Master) : Type 0 where
  pub ring : Ring
  pub here : ring_at h out ≡ some ring
  pub valid : ring.hw_valid ≡ true
  pub cq : CqUsable m.dev ring.cq
  pub sq_db : Doorbell m.dev ring.sq.db_offset ring.sq.db
  pub setting : SameSetting m out

map_cq_db-CqUsable :
    (d : Adapter) (r : Ring)
    → bad_offset d.bar0_size r.cq.db_offset ≡ false
    → bad_offset d.bar0_size r.cq.unmask_db_offset ≡ false
    → CqUsable d (map_cq_db d.bar0_base r).cq
unfolding map_cq_db
map_cq_db-CqUsable d r e u = elim (Bool-cases (r.cq.db_offset == 0)) [
  | inl z ↦ rw z (record {
    head_db = record { mapped = bad_offset-Mapped _ _ e; address = λ n. absurd (n (ground arith)) };
    unmask = bad_offset-Mapped _ _ u;
  })
  | inr z ↦ rw z (record {
    head_db = record { mapped = bad_offset-Mapped _ _ e; address = λ n. refl };
    unmask = bad_offset-Mapped _ _ u;
  })
]

map_sq_db-kept :
    (d : Adapter) (r : Ring)
    → bad_offset d.bar0_size r.sq.db_offset ≡ false
    → let r' = map_sq_db d.bar0_base r in (r'.cq ≡ r.cq) × Doorbell d r'.sq.db_offset r'.sq.db
unfolding map_sq_db
map_sq_db-kept d r e = elim (Bool-cases (r.sq.db_offset == 0)) [
  | inl z ↦
      rw z (
        refl,
        record { mapped = bad_offset-Mapped _ _ e; address = λ n. absurd (n (ground arith)) },
      )
  | inr z ↦ rw z (refl, record { mapped = bad_offset-Mapped _ _ e; address = λ n. refl })
]

wants_llq-off : (r : Ring) (m : Master) → m.llq_info.enabled ≡ false → wants_llq r m ≡ false
unfolding wants_llq
wants_llq-off r m e = ground arith

module _ (exec : Exec) (quiet : IsQuiet exec) (bus : Handle → RingBus) (h : Handle) where
  -- A command that succeeds keeps the ring.
  exec-At :
      (m : Master) (r : Ring) (c : Command) (s : Master)
      → At h m r s
      → (exec c s).0.ret ≡ success
      → At h m r (exec c s).1
  unfolding is_timeout
  exec-At m r c s a e = Keeps-At h m r s (exec c s).1 a (quiet c s (ap is_timeout e))

  create_cq-Ensures :
      (d p v n : ℕ) (m : Master) (r : Ring) (s : Master)
      → At h m r s
      → Ensures (Present h m) (admin_create_cq exec d p v n (λ i o u. on_ring h (store_cq i o u)) s)
  unfolding admin_create_cq
  create_cq-Ensures d p v n m r s a =
      answered-Ensures (At h m r) (Present h m) _ _ (exec-At m r _ s a) (λ resp t b.
        return_if-Ensures (Present h m) _ _ _ _
          (λ _. at_once (Present h m) _ (_, on_ring-At h _ m r t b)))

  check_cq-Ensures :
      (m : Master) (s : Master) → Present h m s → Ensures (Checked h m) (hw_check_cq exec bus h s)
  unfolding hw_check_cq
  check_cq-Ensures m s (r, a) = with_ring-Ensures (Checked h m) h s _ r a.here (
      return_if-Ensures (Checked h m) _ _ _ _ λ e. return_if-Ensures (Checked h m) _ _ _ _ λ u.
        at_once (Checked h m) _ (
          map_cq_db s.dev.bar0_base r,
          on_ring-At h _ m r s a,
          subst (λ d. CqUsable d (map_cq_db s.dev.bar0_base r).cq) a.same.dev
              (map_cq_db-CqUsable s.dev r e u),
        ))

  store_sq-CqUsable :
      (i o : ℕ) (d : Adapter) (r : Ring) → CqUsable d r.cq → CqUsable d (store_sq i o r).cq
  unfolding store_sq
  store_sq-CqUsable i o d r u = u

  create_sq-Ensures :
      (d p wb cq dir : ℕ) (m s : Master)
      → Checked h m s
      → Ensures
          (Checked h m)
          (admin_create_sq exec d p wb cq dir (λ i o. on_ring h (store_sq i o)) s)
  unfolding admin_create_sq admin_create_sq_common
  create_sq-Ensures d p wb cq dir m s (r, a, u) =
      answered-Ensures (At h m r) (Checked h m) _ _ (exec-At m r _ s a) (λ resp t b.
        return_if-Ensures (Checked h m) _ _ _ _ (λ _.
          at_once (Checked h m) _ (_, on_ring-At h _ m r t b, store_sq-CqUsable _ _ m.dev r u)))

  drop_cq-fails : (P : Master → Type 0) (s : Master) → Ensures P (drop_cq exec bus h s)
  unfolding drop_cq with_ring
  drop_cq-fails P s = elim (Option-cases (ring_at h s)) [
    | inl e ↦ rw (with_ring, e) (record { after = λ f. absurd (err-ne-ok f) })
    | inr (r, e) ↦ rw (with_ring, e) (record { after = λ f. absurd (err-ne-ok f) })
  ]

  or_destroy_cq-Ensures :
      (P : Master → Type 0) (x : Code × Master)
      → Ensures P x
      → Ensures P (or_destroy_cq exec bus h x)
  unfolding or_destroy_cq with_ring
  or_destroy_cq-Ensures P (ok _, s) p = at_once P s (p.after refl)
  or_destroy_cq-Ensures P (err c, s) p = elim (Option-cases (ring_at h s)) [
    | inl e ↦ rw (with_ring, e) (record { after = λ f. absurd (err-ne-ok f) })
    | inr (r, e) ↦ rw (with_ring, e) (record { after = λ f. absurd (err-ne-ok f) })
  ]

  host_sq-Ensures : (m s : Master) → Checked h m s → Ensures (Checked h m) (hw_host_sq exec bus h s)
  unfolding hw_host_sq
  host_sq-Ensures m s (r, a, u) =
      with_ring-Ensures (Checked h m) h s _ r a.here
        (or_destroy_cq-Ensures (Checked h m) _ (create_sq-Ensures _ _ _ _ _ m s (r, a, u)))

  finish-Ensures : (m s : Master) → Checked h m s → Ensures (Live h m) (hw_finish exec bus h none s)
  unfolding hw_finish set_valid
  finish-Ensures m s (r, a, u) =
      let k = map_sq_db-kept s.dev r in
      with_ring-Ensures (Live h m) h s _ r a.here
        (elim (Bool-cases (bad_offset s.dev.bar0_size r.sq.db_offset)) [
          | inl e ↦ rw e (drop_cq-fails (Live h m) _)
          | inr e ↦
              let b = on_ring-At h (map_sq_db s.dev.bar0_base) m r s a in
              let c = on_ring-At h set_valid m (map_sq_db s.dev.bar0_base r) _ b in
              rw e (
                at_once (Live h m) _ (record {
                  ring = set_valid (map_sq_db s.dev.bar0_base r);
                  here = c.here;
                  valid = refl;
                  cq = subst (CqUsable m.dev) (sym (k e).0) u;
                  sq_db =
                      subst
                        (λ d.
                          Doorbell d (map_sq_db s.dev.bar0_base r).sq.db_offset
                            (map_sq_db s.dev.bar0_base r).sq.db)
                        a.same.dev (k e).1;
                  setting = c.same;
                }))
        ])

  sq-Ensures :
      (m s : Master)
      → m.llq_info.enabled ≡ false
      → Checked h m s
      → Ensures (Live h m) (hw_sq exec bus h s)
  unfolding hw_sq hw_fallback
  sq-Ensures m s off (r, a, u) =
      let no : wants_llq r s ≡ false = wants_llq-off r s (ap (λ l. l.enabled) a.same.llq ∙ off) in
      with_ring-Ensures (Live h m) h s _ r a.here (
        rw no (
          or_return-Ensures (Checked h m) (Live h m) _ _ (host_sq-Ensures m s (r, a, u))
            (λ t. finish-Ensures m t)))

  create_hw-Ensures :
      (vector : ℕ) (m : Master) (r : Ring)
      → m.llq_info.enabled ≡ false
      → ring_at h m ≡ some r
      → Ensures (Live h m) (ring_create_hw exec bus h vector m)
  unfolding ring_create_hw
  create_hw-Ensures vector m r off e =
      let a : At h m r m = record { here = e; same = record { dev = refl; llq = refl } } in
      with_ring-Ensures (Live h m) h m _ r e (
        return_if-Ensures (Live h m) _ _ _ _ (λ _.
          or_return-Ensures (Present h m) (Live h m) _ _ (create_cq-Ensures _ _ _ _ m r m a) (λ s p.
            or_return-Ensures (Checked h m) (Live h m) _ _ (check_cq-Ensures m s p)
              (λ t q. sq-Ensures m t off q))))

  -- `ena_ring_create_hw` over an admin queue whose commands change nothing else of the adapter unless
  -- they time out, with LLQ mode off, on a ring of the adapter: if it answers 0, the ring is marked
  -- valid, each of its three registers (submission doorbell, completion doorbell, unmask) has offset
  -- 0 or is a whole aligned word inside BAR0, and the two doorbell pointers are BAR0 plus a non-zero
  -- offset. The device state and the BARs are as before.
  pub ring_create_hw-Live :
      (vector : ℕ) (m : Master) (r : Ring)
      → m.llq_info.enabled ≡ false
      → ring_at h m ≡ some r
      → (ring_create_hw exec bus h vector m).0 ≡ success
      → Live h m (ring_create_hw exec bus h vector m).1
  ring_create_hw-Live vector m r off e = (create_hw-Ensures vector m r off e).after
