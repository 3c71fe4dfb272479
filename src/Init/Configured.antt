-- ===== src/Init/Configured.antt =====
-- What a successful bring-up leaves: src/ena_init.c, `ena_init_run`.
use lib_ena.Prelude.{ℕ, ◌≤◌, ◌≡◌, refl, ap, ◌∙◌, List, arith}
use lib_ena.Status.{success, Code}
use lib_ena.Device.{configured}
use lib_ena.Admin.{Attributes, Master, World}
use lib_ena.Admin.Client.{Exec, is_timeout, IsQuiet, Keeps}
use lib_ena.Admin.Ensures.{Ensures, at_once, or_return-Ensures, answered-Ensures, return_if-Ensures}
use lib_ena.Init.{
  Feature, device_attributes, ask, init_exec, read_attributes, get_device_attributes, set_mtu,
  get_mac_addr, init_run,
}

-- The MTU of the adapter is the one asked for.
abbrev HasMtu : ℕ → Master → Type 0
HasMtu value m = (46 ≤ value) × (value ≤ 0xffff) × (m.attributes.mtu ≡ value)

-- A device that has been brought up.
pub record Ready (value : ℕ) (m : Master) : Type 0 where
  pub state : m.dev.state ≡ configured
  pub mtu_lower : 46 ≤ value
  pub mtu_upper : value ≤ 0xffff
  pub mtu_set : m.attributes.mtu ≡ value

-- Nothing is known of what follows.
Anything : Master → Type 0
Anything _ = Unit {0}

anything : (x : Code × Master) → Ensures Anything x
unfolding Anything
anything x = record { after = λ _. tt }

module _ (exec : Exec) (quiet : IsQuiet exec) (w : World) (value : ℕ) where
  set_mtu-Ensures : (m : Master) → Ensures (HasMtu value) (set_mtu exec value m)
  unfolding set_mtu
  set_mtu-Ensures m = return_if-Ensures (HasMtu value) _ _ _ _ (λ e.
      answered-Ensures (λ _. Unit {0}) (HasMtu value) _ _ (λ _. tt)
        (λ _ s _. at_once (HasMtu value) _ (ground arith, ground arith, refl)))

  ask-Keeps :
      (f : Feature) (cap : ℕ) (m : Master)
      → (ask exec f cap m).0.ret ≡ success
      → Keeps m (ask exec f cap m).1
  unfolding ask init_exec is_timeout
  ask-Keeps f cap m e = quiet _ m (ap is_timeout e)

  read_attributes-mtu : (resp : List ℕ) (a : Attributes) → (read_attributes resp a).mtu ≡ a.mtu
  unfolding read_attributes
  read_attributes-mtu resp a = refl

  mac_addr-Ensures : (m : Master) → HasMtu value m → Ensures (HasMtu value) (get_mac_addr exec m)
  unfolding get_mac_addr get_device_attributes
  mac_addr-Ensures m (lo, hi, p) =
      answered-Ensures (HasMtu value) (HasMtu value) (ask exec device_attributes 14 m) _
        (λ e. (
          lo,
          hi,
          ap (λ (a : Attributes). a.mtu) (ask-Keeps device_attributes 14 m e).attributes ∙ p,
        ))
        (λ resp s (l, h, q).
          at_once (HasMtu value) _ (l, h, read_attributes-mtu resp s.attributes ∙ q))

  init_run-Ensures : (m : Master) → Ensures (Ready value) (init_run exec w value m)
  unfolding init_run
  init_run-Ensures m = or_return-Ensures Anything (Ready value) _ _ (anything _) λ m1 _.
      or_return-Ensures Anything (Ready value) _ _ (anything _) λ m2 _.
        or_return-Ensures Anything (Ready value) _ _ (anything _) λ m3 _.
          or_return-Ensures Anything (Ready value) _ _ (anything _) λ m4 _.
            or_return-Ensures (HasMtu value) (Ready value) _ _ (set_mtu-Ensures m4) λ m5 p.
              or_return-Ensures (HasMtu value) (Ready value) _ _ (mac_addr-Ensures m5 p) λ m6 q.
                at_once (Ready value) _
                  (record { state = refl; mtu_lower = q.0; mtu_upper = q.1; mtu_set = q.2 })

  -- `ena_init_run` over an admin queue whose commands change nothing else of the adapter unless they
  -- time out: if it answers 0, the adapter is in its configured state, the MTU asked for is between 46
  -- and 65535, and it is the MTU of the adapter, the second read of the attributes notwithstanding.
  pub init_run-Ready :
      (m : Master) → (init_run exec w value m).0 ≡ success → Ready value (init_run exec w value m).1
  init_run-Ready m = (init_run-Ensures m).after
