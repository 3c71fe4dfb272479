-- ===== src/Recovery/Driver.antt =====
-- The whole of `ena_admin_exec_cmd`: the commands of `ena_rss_configure` (src/ena_rss.c) put in the place
-- that `Recovery` leaves for them.
use lib_ena.Prelude.{
  ℕ, ◌≡◌, refl, ap, ◌∙◌, ◌==◌, ltb, ◌&&◌, ◌||◌, not, inl, inr, true, Bool-cases, Option,
  Option-cases, none, List, length,
}
use lib_ena.Status.{Result, ok, err, Code, success, einval, eopnotsupp}
use lib_ena.Rss.{query_ind_table_limits, set_ind_table}
use lib_ena.Rss.Setup.{has_feature}
use lib_ena.Rss.Configure.{
  indirection_table, hash_function, hash_input, rss_exec, rss_tell, limits_of, ask_limits,
  rss_alloc, rss_setup, set_hash_key, set_hash_ctrl, send_ind_table, readback_ind_table,
  rss_configure, fixed_size, key_bytes, key_written, fields_written, ring_idx, table_req,
  read_table, enabled,
}
use lib_ena.Admin.{Opcode, get_feature, set_feature, Master, World, Command, Reply}
use lib_ena.Admin.Client.{Exec}
use lib_ena.Recovery.{exec_with, reset_and_recover, exec_cmd}
use lib_ena.Recovery.Agree.{Same, Agree, Same-refl, or_return-Same, if-Same}
use lib_ena.Recovery.AgreeInit.{Steps}
use lib_ena.Recovery.Fixpoint.{RssAgrees, exec_cmd-recursive}

-- `ena_admin_exec_cmd` of the driver.
unfoldable pub driver_exec : World → Exec
driver_exec w = exec_cmd w (rss_configure w)

-- A function of the result of a step that leaves a recovery running.
ap-Same :
    {A B : Type 0} (f : A × Master → B × Master) (x y : A × Master)
    → ((z : A × Master) → (f z).1.recover_active ≡ z.1.recover_active)
    → Same x y
    → Same (f x) (f y)
ap-Same f x y k p = record { eq = ap f p.eq; active = k x ∙ p.active }

rss_alloc-active :
    (w : World) (n : ℕ) (x : Result (ℕ × ℕ) × Master)
    → (rss_alloc w n x).1.recover_active ≡ x.1.recover_active
unfolding rss_alloc
rss_alloc-active w n (limits, m) =
    elim (Option-cases (query_ind_table_limits limits n m.rss_info.info)) [
      | inl e ↦ rw (e, rss_alloc) refl
      | inr (info, e) ↦ rw (e, rss_alloc) refl
    ]

module _ (w : World) (exec exec' : Exec) (agree : Agree exec exec') where
  exec-Same :
      (op : Opcode) (req : List ℕ) (cap : ℕ) (m : Master)
      → m.recover_active ≡ true
      → Same (rss_exec exec op req cap m) (rss_exec exec' op req cap m)
  unfolding rss_exec
  exec-Same op req cap m a = agree _ m a

  tell-Same : (req : List ℕ) → Steps (rss_tell exec req) (rss_tell exec' req)
  unfolding rss_tell
  tell-Same req m a =
      ap-Same (λ (z : Reply × Master). (z.0.ret, z.1)) _ _ (λ z. refl)
        (exec-Same set_feature req 0 m a)

  ask-Same :
      (n : ℕ) (m : Master)
      → m.recover_active ≡ true
      → Same (ask_limits exec n m) (ask_limits exec' n m)
  unfolding ask_limits
  ask-Same n m a =
      if-Same (ltb n 2) (ok (0, 0), m) _ (ok (0, 0), m) _ (Same-refl (ok (0, 0)) m a)
        (ap-Same (λ (z : Reply × Master). (limits_of z.0, z.1)) _ _ (λ z. refl)
          (exec-Same get_feature _ 4 m a))

  setup-Same : Steps (rss_setup w exec) (rss_setup w exec')
  unfolding rss_setup
  setup-Same m a =
      if-Same (not (has_feature m.attributes.supported_features indirection_table))
        (err eopnotsupp, m) _ (err eopnotsupp, m) _ (Same-refl (err eopnotsupp) m a)
        (if-Same (not (m.rss_info.host_ind_table == 0) && not (m.rss_info.ind_table == 0))
          (success, m) _ (success, m) _ (Same-refl success m a)
          (ap-Same (rss_alloc w m.num_rx_rings) _ _ (rss_alloc-active w m.num_rx_rings)
            (ask-Same m.num_rx_rings (fixed_size m) a)))

  key-Same : (key : Option (List ℕ)) → Steps (set_hash_key w exec key) (set_hash_key w exec' key)
  unfolding set_hash_key
  key-Same key m a =
      let refused = Same-refl (err einval) m a in
      if-Same (m.rss_info.hash_key == 0) (err einval, m) _ (err einval, m) _ refused
        (if-Same (not (length (key_bytes key) == 40)) (err einval, m) _ (err einval, m) _ refused
          (tell-Same _ (key_written key m) a))

  ctrl-Same : Steps (set_hash_ctrl w exec) (set_hash_ctrl w exec')
  unfolding set_hash_ctrl
  ctrl-Same m a =
      if-Same (m.rss_info.hash_ctrl == 0) (err einval, m) _ (err einval, m) _
        (Same-refl (err einval) m a) (tell-Same _ (fields_written m) a)

  table-Same : (n : ℕ) → Steps (send_ind_table w exec n) (send_ind_table w exec' n)
  unfolding send_ind_table
  table-Same n m a =
      let (c, info) = set_ind_table success (ring_idx m) n m.rss_info.info in
      let filled : Master = record m { rss_info = record m.rss_info { info = info } } in
      or_return-Same (c, filled) (c, filled) _ _ (Same-refl c filled a)
        (λ s b. tell-Same (table_req w s) s b)

  readback-Same :
      (m : Master)
      → m.recover_active ≡ true
      → Same (success, readback_ind_table w exec m) (success, readback_ind_table w exec' m)
  unfolding readback_ind_table
  readback-Same m a =
      elim (Bool-cases (m.rss_info.ind_table == 0 || m.rss_info.info.ind_table_size == 0)) [
        | inl e ↦ rw e (Same-refl success m a)
        | inr e ↦ rw e (
            ap-Same (λ (z : Reply × Master). (success, read_table w m.now z.1)) _ _ (λ z. refl)
              (exec-Same get_feature (table_req w m) 4 m a))
      ]

  configure-Same : (n : ℕ) → Steps (rss_configure w exec n) (rss_configure w exec' n)
  unfolding rss_configure
  configure-Same n m a =
      if-Same (n == 0) (err einval, m) _ (err einval, m) _ (Same-refl (err einval) m a)
        (or_return-Same _ _ _ _ (setup-Same m a) λ m1 a1.
          or_return-Same _ _ _ _
            (if-Same (has_feature m1.attributes.supported_features hash_function) _ (success, m1) _
              (success, m1) (key-Same none m1 a1) (Same-refl success m1 a1))
            λ m2 a2.
              or_return-Same _ _ _ _
                (if-Same (has_feature m2.attributes.supported_features hash_input) _ (success, m2) _
                  (success, m2) (ctrl-Same m2 a2) (Same-refl success m2 a2))
                λ m3 a3. or_return-Same _ _ _ _ (table-Same n m3 a3) λ m4 a4.
                  ap-Same (λ (z : Code × Master). (success, enabled z.1)) _ _ (λ z. refl)
                    (readback-Same m4 a4))

rss_configure-RssAgrees : (w : World) → RssAgrees (rss_configure w)
rss_configure-RssAgrees w exec exec' agree n = configure-Same w exec exec' agree n

-- `ena_admin_exec_cmd` of the driver satisfies the recursion of the source: it is the command whose
-- timeout runs `ena_adapter_reset_and_recover` with `ena_admin_exec_cmd` itself for the commands of the
-- recovery: those of the queues, of the bring-up and of `ena_rss_configure`. So two levels of the
-- recursion are enough, and it ends.
pub driver_exec-recursive :
    (w : World) (c : Command) (m : Master)
    → driver_exec w c m ≡ exec_with w (reset_and_recover (driver_exec w) w (rss_configure w)) c m
unfolding driver_exec
driver_exec-recursive w c m = exec_cmd-recursive w (rss_configure w) c m (rss_configure-RssAgrees w)
