-- ===== src/Recovery/AgreeInit.antt =====
-- The features sent again agree where the commands agree: src/ena_init.c.
use mathlib.Core.Path.{subst}
use lib_ena.Prelude.{
  ℕ, bit_and, ◌≡◌, refl, ap, ◌∙◌, ◌==◌, ltb, not, inl, inr, Bool, true, Bool-cases, List, get_or,
}
use lib_ena.Status.{ok, err, Code, success, einval, Code-cases}
use lib_ena.Admin.{Master, Reply}
use lib_ena.Admin.Client.{Exec}
use lib_ena.Init.{
  Feature, aenq_config, init_exec, ask, tell, get_device_attributes, set_mtu, groups_set,
  enable_groups, groups_answered, config_aenq, and_step, reapply_device_features,
}
use lib_ena.Recovery.Agree.{Same, Agree, Same-refl, answered-Same, return_if-Same, if-Same}

-- A step of the code that agrees with another inside a recovery.
abbrev pub Steps : (Master → Code × Master) → (Master → Code × Master) → Type 0
Steps step step' = (m : Master) → m.recover_active ≡ true → Same (step m) (step' m)

and_step_both :
    (b : Bool) (step step' : Master → Code × Master) (x : Code × Master)
    → Steps step step'
    → x.1.recover_active ≡ true
    → Same (and_step b step x) (and_step b step' x)
unfolding and_step
and_step_both b step step' (c, m) f a =
    let s = f m a in
    if-Same b _ _ _ _
      (record {
        eq =
            ap
              (λ (r : Code × Master).
                let first : Code = elim c [ ok _ ↦ r.0 | err e ↦ err e ] in
                let out : Code × Master = (first, r.1) in out)
              s.eq;
        active = s.active;
      })
      (Same-refl c m a)

-- A step that looks at the adapter first.
chain-Same :
    (b : Master → Bool) (step step' : Master → Master → Code × Master) (x y : Code × Master)
    → ((m : Master) → Steps (step m) (step' m))
    → Same x y
    → Same (and_step (b x.1) (step x.1) x) (and_step (b y.1) (step' y.1) y)
chain-Same b step step' x y f p =
    subst (λ z. Same (and_step (b x.1) (step x.1) x) (and_step (b z.1) (step' z.1) z)) p.eq
      (and_step_both (b x.1) (step x.1) (step' x.1) x (f x.1) p.active)

groups_set-active :
    (g : ℕ) (x : Reply × Master) → (groups_set g x).recover_active ≡ x.1.recover_active
unfolding groups_set
groups_set-active g (r, m) = elim (Code-cases r.ret) [ inl e ↦ rw e refl | inr (c, e) ↦ rw e refl ]

module _ (exec exec' : Exec) (agree : Agree exec exec') where
  ask-Same :
      (f : Feature) (cap : ℕ) (m : Master)
      → m.recover_active ≡ true
      → Same (ask exec f cap m) (ask exec' f cap m)
  unfolding ask init_exec
  ask-Same f cap m a = agree _ m a

  tell-Same :
      (f : Feature) (words : List ℕ) (m : Master)
      → m.recover_active ≡ true
      → Same (tell exec f words m) (tell exec' f words m)
  unfolding tell init_exec
  tell-Same f words m a = agree _ m a

  attributes-Same : Steps (get_device_attributes exec) (get_device_attributes exec')
  unfolding get_device_attributes
  attributes-Same m a = answered-Same _ _ _ _ (ask-Same _ _ m a) (λ resp s b. Same-refl success _ b)

  set_mtu-Same : (v : ℕ) → Steps (set_mtu exec v) (set_mtu exec' v)
  unfolding set_mtu
  set_mtu-Same v m a =
      return_if-Same _ einval _ _ _ _ (Same-refl (err einval) m a)
        (answered-Same _ _ _ _ (tell-Same _ _ m a) (λ resp s b. Same-refl success _ b))

  enable-Same :
      (g : ℕ) (m : Master)
      → m.recover_active ≡ true
      → Same (success, enable_groups exec g m) (success, enable_groups exec' g m)
  unfolding enable_groups
  enable-Same g m a = elim (Bool-cases (bit_and g 0x1f == 0)) [
    | inl e ↦ rw e (Same-refl success m a)
    | inr e ↦
        let s = tell-Same aenq_config _ m a in
        rw e (record {
          eq = ap (λ x. (success, groups_set (bit_and g 0x1f) x)) s.eq;
          active = groups_set-active (bit_and g 0x1f) _ ∙ s.active;
        })
  ]

  answered_both :
      (x : Reply × Master)
      → x.1.recover_active ≡ true
      → Same (success, groups_answered exec x) (success, groups_answered exec' x)
  unfolding groups_answered
  answered_both (r, s) a = elim (Code-cases r.ret) [
    | inl e ↦ rw e (enable-Same (get_or r.resp 0 0) s a)
    | inr (c, e) ↦ rw e (Same-refl success s a)
  ]

  pub aenq-Same : Steps (config_aenq exec) (config_aenq exec')
  unfolding config_aenq
  aenq-Same m a =
      let s = ask-Same aenq_config 14 m a in
      if-Same _ _ _ _ _ (Same-refl success m a) (
        subst
          (λ z.
            Same (success, groups_answered exec (ask exec aenq_config 14 m))
              (success, groups_answered exec' z))
          s.eq (answered_both (ask exec aenq_config 14 m) s.active))

  -- The steps of a recovery agree, if those of RSS do.
  pub reapply-Same :
      (rss : ℕ → Master → Code × Master) (rss' : ℕ → Master → Code × Master)
      → ((n : ℕ) → Steps (rss n) (rss' n))
      → Steps (reapply_device_features exec rss) (reapply_device_features exec' rss')
  unfolding reapply_device_features
  reapply-Same rss rss' r m a =
      chain-Same (λ s. ltb 1 s.num_rx_rings) (λ s. rss s.num_rx_rings) (λ s. rss' s.num_rx_rings) _
        _ (λ s. r s.num_rx_rings)
        (chain-Same (λ s. not (s.reports.aenq_enabled_groups == 0)) (λ _. config_aenq exec)
          (λ _. config_aenq exec') _ _ (λ _. aenq-Same)
          (chain-Same (λ s. not (s.attributes.mtu == 0)) (λ s. set_mtu exec s.attributes.mtu)
            (λ s. set_mtu exec' s.attributes.mtu) _ _ (λ s. set_mtu-Same s.attributes.mtu)
            (and_step_both true (get_device_attributes exec) (get_device_attributes exec')
              (success, m) attributes-Same a)))
