-- ===== src/Recovery/AgreeQueue.antt =====
-- The creation of a ring's queues agrees where the commands agree: src/ena_datapath.c.
use mathlib.Core.Path.{subst}
use lib_ena.Prelude.{ℕ, ◌≡◌, refl, ap, ap₂, ◌∙◌, inl, inr, true, Option, none, some}
use lib_ena.Status.{ok, err, Code, success, einval, Code-cases}
use lib_ena.Admin.{Handle, RingBus, Master, Reply}
use lib_ena.Admin.Client.{Exec, on_ring}
use lib_ena.Admin.Queues.{
  SqAnswer, word_of, admin_destroy_cq, admin_destroy_sq, admin_create_cq, admin_create_sq_common,
  admin_create_sq, admin_create_sq_llq,
}
use lib_ena.Admin.Hardware.{
  hw_check_cq, or_destroy_cq, hw_host_sq, drop_cq, hw_finish, hw_fallback, hw_after_llq, hw_sq,
  ring_create_hw, wants_llq, bad_llq, map_cq_db, map_sq_db, push_mode, set_valid, store_cq,
  store_sq,
}
use lib_ena.Recovery.Agree.{
  Same, Agree, Same-refl, or_return-Same, answered-Same, dropped-Same, return_if-Same, if-Same,
  with_ring-Same, on_ring-active,
}

-- A store that leaves a recovery running.
abbrev Leaves : (Master → Master) → Type 0
Leaves store = (m : Master) → (store m).recover_active ≡ m.recover_active

-- The results of CREATE_SQ, of its reply and of what followed it.
abbrev sq_answer : Reply → Code × Master → SqAnswer × Master
sq_answer r (ret, m) = (record { ret = ret; llq_descs = word_of r 2; llq_headers = word_of r 3 }, m)

module _ (exec exec' : Exec) (agree : Agree exec exec') where
  destroy_cq-Same :
      (i : ℕ) (m : Master)
      → m.recover_active ≡ true
      → Same (admin_destroy_cq exec i m) (admin_destroy_cq exec' i m)
  unfolding admin_destroy_cq
  destroy_cq-Same i m a =
      let s = agree _ m a in record { eq = ap (λ x. (x.0.ret, x.1)) s.eq; active = s.active }

  destroy_sq-Same :
      (i : ℕ) (m : Master)
      → m.recover_active ≡ true
      → Same (admin_destroy_sq exec i m) (admin_destroy_sq exec' i m)
  unfolding admin_destroy_sq
  destroy_sq-Same i m a =
      let s = agree _ m a in record { eq = ap (λ x. (x.0.ret, x.1)) s.eq; active = s.active }

  create_cq-Same :
      (d p v n : ℕ) (store : ℕ → ℕ → ℕ → Master → Master) (m : Master)
      → ((i o u : ℕ) → Leaves (store i o u))
      → m.recover_active ≡ true
      → Same (admin_create_cq exec d p v n store m) (admin_create_cq exec' d p v n store m)
  unfolding admin_create_cq
  create_cq-Same d p v n store m l a = answered-Same _ _ _ _ (agree _ m a) (λ resp s b.
      let b' = l _ _ _ s ∙ b in
      return_if-Same _ einval _ _ _ _ (dropped-Same _ _ _ (destroy_cq-Same _ _ b'))
        (Same-refl success _ b'))

  sq_answer-Same :
      (r r' : Reply) (x y : Code × Master)
      → r ≡ r'
      → Same x y
      → Same (sq_answer r x) (sq_answer r' y)
  sq_answer-Same r r' x y e p = record { eq = ap₂ sq_answer e p.eq; active = p.active }

  create_sq-Same :
      (pl d p wb cq dir : ℕ) (store : ℕ → ℕ → Master → Master) (m : Master)
      → ((i o : ℕ) → Leaves (store i o))
      → m.recover_active ≡ true
      → Same
          (admin_create_sq_common exec pl d p wb cq dir store m)
          (admin_create_sq_common exec' pl d p wb cq dir store m)
  unfolding admin_create_sq_common
  create_sq-Same pl d p wb cq dir store m l a =
      sq_answer-Same _ _ _ _ (ap (λ z. z.0) (agree _ m a).eq) (
        answered-Same _ _ _ _ (agree _ m a) (λ resp s b.
          let b' = l _ _ s ∙ b in
          return_if-Same _ einval _ _ _ _ (dropped-Same _ _ _ (destroy_sq-Same _ _ b'))
            (Same-refl success _ b')))

  host_sq_command-Same :
      (d p wb cq dir : ℕ) (store : ℕ → ℕ → Master → Master) (m : Master)
      → ((i o : ℕ) → Leaves (store i o))
      → m.recover_active ≡ true
      → Same
          (admin_create_sq exec d p wb cq dir store m)
          (admin_create_sq exec' d p wb cq dir store m)
  unfolding admin_create_sq
  host_sq_command-Same d p wb cq dir store m l a =
      let s = create_sq-Same 1 d p wb cq dir store m l a in
      record { eq = ap (λ x. (x.0.ret, x.1)) s.eq; active = s.active }

  llq_command-Same :
      (d cq dir : ℕ) (store : ℕ → ℕ → Master → Master) (m : Master)
      → ((i o : ℕ) → Leaves (store i o))
      → m.recover_active ≡ true
      → Same
          (admin_create_sq_llq exec d cq dir store m)
          (admin_create_sq_llq exec' d cq dir store m)
  unfolding admin_create_sq_llq
  llq_command-Same d cq dir store m l a = create_sq-Same 3 d 0 0 cq dir store m l a

  module _ (bus : Handle → RingBus) (h : Handle) where
    check_cq-Same :
        (m : Master)
        → m.recover_active ≡ true
        → Same (hw_check_cq exec bus h m) (hw_check_cq exec' bus h m)
    unfolding hw_check_cq
    check_cq-Same m a = with_ring-Same h m _ _ a (λ r.
        let b = on_ring-active h (map_cq_db m.dev.bar0_base) m ∙ a in
        return_if-Same _ einval _ _ _ _ (dropped-Same _ _ _ (destroy_cq-Same _ _ a)) (
          return_if-Same _ einval _ _ _ _ (dropped-Same _ _ _ (destroy_cq-Same _ _ b))
            (Same-refl success _ b)))

    or_destroy_both :
        (x : Code × Master)
        → x.1.recover_active ≡ true
        → Same (or_destroy_cq exec bus h x) (or_destroy_cq exec' bus h x)
    unfolding or_destroy_cq
    or_destroy_both (ok _, s) a = Same-refl success s a
    or_destroy_both (err e, s) a =
        with_ring-Same h s _ _ a (λ r. dropped-Same (err e) _ _ (destroy_cq-Same _ _ a))

    or_destroy-Same :
        (x y : Code × Master)
        → Same x y
        → Same (or_destroy_cq exec bus h x) (or_destroy_cq exec' bus h y)
    or_destroy-Same x y p =
        subst (λ z. Same (or_destroy_cq exec bus h x) (or_destroy_cq exec' bus h z)) p.eq
          (or_destroy_both x p.active)

    host_sq-Same :
        (m : Master)
        → m.recover_active ≡ true
        → Same (hw_host_sq exec bus h m) (hw_host_sq exec' bus h m)
    unfolding hw_host_sq
    host_sq-Same m a = with_ring-Same h m _ _ a (λ r.
        or_destroy-Same _ _
          (host_sq_command-Same _ _ _ _ _ _ m (λ i o s. on_ring-active h (store_sq i o) s) a))

    drop_cq-Same :
        (x y : Master)
        → Same (success, x) (success, y)
        → Same (drop_cq exec bus h x) (drop_cq exec' bus h y)
    unfolding drop_cq
    drop_cq-Same x y p =
        subst (λ z. Same (drop_cq exec bus h x) (drop_cq exec' bus h z)) (ap (λ t. t.1) p.eq)
          (with_ring-Same h x _ _ p.active
            (λ r. dropped-Same (err einval) _ _ (destroy_cq-Same _ _ p.active)))

    pushed-active :
        (llq : Option ℕ) (s : Master)
        → let pushed : Master = elim llq [ none ↦ s | some off ↦ on_ring h (push_mode off s) s ] in
          pushed.recover_active ≡ s.recover_active
    pushed-active none s = refl
    pushed-active (some off) s = on_ring-active h (push_mode off s) s

    finish-Same :
        (llq : Option ℕ) (m : Master)
        → m.recover_active ≡ true
        → Same (hw_finish exec bus h llq m) (hw_finish exec' bus h llq m)
    unfolding hw_finish
    finish-Same llq m a = with_ring-Same h m _ _ a (λ r.
        if-Same _ _ _ _ _ (drop_cq-Same _ _ (dropped-Same success _ _ (destroy_sq-Same _ _ a))) (
          Same-refl success _ (
            on_ring-active h set_valid _
            ∙ pushed-active llq (on_ring h (map_sq_db m.dev.bar0_base) m)
            ∙ on_ring-active h (map_sq_db m.dev.bar0_base) m
            ∙ a)))

    fallback-Same :
        (x y : Master)
        → Same (success, x) (success, y)
        → Same (hw_fallback exec bus h x) (hw_fallback exec' bus h y)
    unfolding hw_fallback
    fallback-Same x y p =
        subst (λ z. Same (hw_fallback exec bus h x) (hw_fallback exec' bus h z))
          (ap (λ t. t.1) p.eq) (or_return-Same _ _ _ _ (host_sq-Same x p.active) (finish-Same none))

    after_llq_both :
        (x : SqAnswer × Master)
        → x.1.recover_active ≡ true
        → Same (hw_after_llq exec bus h x) (hw_after_llq exec' bus h x)
    unfolding hw_after_llq
    after_llq_both (a, s) act = elim (Code-cases a.ret) [
      | inr (e, f) ↦ rw f (fallback-Same s s (Same-refl success s act))
      | inl f ↦ rw f (
          with_ring-Same h s _ _ act (λ r.
            if-Same (bad_llq r a s) _ _ _ _
              (fallback-Same _ _ (dropped-Same success _ _ (destroy_sq-Same _ _ act)))
              (finish-Same (some a.llq_descs) s act)))
    ]

    after_llq-Same :
        (x y : SqAnswer × Master)
        → Same x y
        → Same (hw_after_llq exec bus h x) (hw_after_llq exec' bus h y)
    after_llq-Same x y p =
        subst (λ z. Same (hw_after_llq exec bus h x) (hw_after_llq exec' bus h z)) p.eq
          (after_llq_both x p.active)

    sq-Same :
        (m : Master) → m.recover_active ≡ true → Same (hw_sq exec bus h m) (hw_sq exec' bus h m)
    unfolding hw_sq
    sq-Same m a = with_ring-Same h m _ _ a (λ r.
        if-Same (wants_llq r m) _ _ _ _
          (after_llq-Same _ _
            (llq_command-Same _ _ _ _ m (λ i o s. on_ring-active h (store_sq i o) s) a))
          (fallback-Same m m (Same-refl success m a)))

    pub create_hw-Same :
        (vector : ℕ) (m : Master)
        → m.recover_active ≡ true
        → Same (ring_create_hw exec bus h vector m) (ring_create_hw exec' bus h vector m)
    unfolding ring_create_hw
    create_hw-Same vector m a = with_ring-Same h m _ _ a (λ r.
        return_if-Same _ einval _ _ _ _ (Same-refl (err einval) m a) (
          or_return-Same _ _ _ _
            (create_cq-Same _ _ _ _ _ m (λ i o u s. on_ring-active h (store_cq i o u) s) a)
            (λ s b. or_return-Same _ _ _ _ (check_cq-Same s b) sq-Same)))
