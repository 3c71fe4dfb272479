-- ===== src/Admin/Balance.antt =====
-- `ena_admin_init` and `ena_admin_fini` lose no block (src/ena_admin.c).
use lib_ena.Prelude.{ℕ, ◌+◌, ◌≡◌, ap, ◌∙◌, List, [], ◌∷◌, true, false, inl, inr, ◌==◌, arith}
use lib_ena.Ring.Window.{occ}
use lib_ena.Ring.Lifecycle.{grab, free_block}
use lib_ena.Ring.Leaks.{blocks_occ, grab_cases, one_of_block}
use lib_ena.Admin.{Master, World}
use lib_ena.Admin.Setup.{admin_fini, installed, admin_alloc}
use lib_ena.Ring.Freed.{free_four-occ, erased, erased2}

-- The blocks of the admin layer.
abbrev pub admin_blocks : Master → List ℕ
admin_blocks m = m.aq.base ∷ m.acq.base ∷ m.aenq.base ∷ m.host_info_base ∷ []

-- The live blocks are those of the admin layer and others, `rest` saying how often each stands
-- among the others.
abbrev pub Accounted : (ℕ → ℕ) → Master → Type 0
Accounted rest m = (x : ℕ) → occ x m.heap.live ≡ blocks_occ x (admin_blocks m) + rest x

-- No queue is held.
abbrev pub Bare : Master → Type 0
Bare m = (m.aq.base ≡ 0) × (m.acq.base ≡ 0) × (m.aenq.base ≡ 0)

-- `ena_admin_fini` frees the blocks of the admin layer and no other.
pub admin_fini-Accounted :
    (rest : ℕ → ℕ) (m : Master) → Accounted rest m → Accounted rest (admin_fini m)
unfolding admin_fini
admin_fini-Accounted rest m b x =
    omega (arith, free_four-occ m.aq.base m.acq.base m.aenq.base m.host_info_base m.heap rest b x)

pub admin_alloc-Accounted :
    (w : World) (aq_depth acq_depth aenq_depth : ℕ) (rest : ℕ → ℕ) (m : Master)
    → Bare m
    → Accounted rest m
    → Accounted rest (admin_alloc w aq_depth acq_depth aenq_depth m).1
unfolding admin_alloc installed free_block
admin_alloc-Accounted w ad qd ed rest m z b =
    let (a, h1) = grab w.grants m.heap in
    let (q, h2) = grab w.grants h1 in
    let (e, h3) = grab w.grants h2 in
    elim (grab_cases w.grants m.heap) [
      | inl n1 ↦
          let e1 : (a == 0) ≡ true = ground (arith, n1.0) in
          rw e1 (λ x. omega (arith, b x, ap (occ x) n1.1))
      | inr g1 ↦
          let e1 : (a == 0) ≡ false = ground (arith, g1.0) in
          elim (grab_cases w.grants h1) [
            | inl n2 ↦
                let e2 : (q == 0) ≡ true = ground (arith, n2.0) in
                rw (e1, e2) (λ x. erased a m.heap.live h2.live (n2.1 ∙ g1.1) x ∙ b x)
            | inr g2 ↦
                let e2 : (q == 0) ≡ false = ground (arith, g2.0) in
                elim (grab_cases w.grants h2) [
                  | inl n3 ↦
                      let e3 : (e == 0) ≡ true = ground (arith, n3.0) in
                      rw (e1, e2, e3)
                        (λ x.
                          erased2 a q m.heap.live h3.live (n3.1 ∙ g2.1 ∙ ap (λ l. q ∷ l) g1.1) x
                          ∙ b x)
                  | inr g3 ↦
                      let e3 : (e == 0) ≡ false = ground (arith, g3.0) in
                      rw (e1, e2, e3)
                        (λ x. ground (
                          arith,
                          b x,
                          z.0,
                          z.1,
                          z.2,
                          ap (occ x) (g3.1 ∙ ap (λ l. e ∷ l) (g2.1 ∙ ap (λ l. q ∷ l) g1.1)),
                          one_of_block x g1.0,
                          one_of_block x g2.0,
                          one_of_block x g3.0,
                        ))
                ]
          ]
    ]
