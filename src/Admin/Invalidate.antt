-- ===== src/Admin/Invalidate.antt =====
-- `ena_adapter_invalidate_io_rings` (src/ena_admin.c).
use lib_ena.Prelude.{
  ℕ, zero, suc, ◌+◌, ◌≤◌, ◌<◌, ◌⊎◌, some_injective, get_or-set_ne, ◌≡◌, refl, sym, ap, ◌∙◌, inl,
  inr, false, ◌==◌, Bool-cases, Option, none, some, List, [], ◌∷◌, get_or, set, arith,
}
use lib_ena.Ring.{Ring, RingType, tx, rx, Io, Effect}
use lib_ena.Ring.Reset.{reset_sw_state, release_slot, release_slots, slot_netbuf, rewound}
use lib_ena.Ring.Ids.{slot_clear, slot_clear-tx, slot_clear-rx}
use lib_ena.Admin.{Access, of_ring, Master}

-- The effects of a ring in the log of the adapter.
abbrev pub ring_log : List Effect → List Access → List Access
ring_log [] log = log
ring_log (e ∷ es) log = of_ring e ∷ ring_log es log

-- A ring reset in its place of an array; nothing for NULL.
unfoldable pub reset_place :
    ℕ → Option Ring → List (Option Ring) × List Access → List (Option Ring) × List Access
reset_place q none s = s
reset_place q (some r) (rings, log) =
    let s = reset_sw_state (record { ring = r; log = [] }) in
    (set rings q (some s.ring), ring_log s.log log)

-- The place `q` of an array, and the log.
unfoldable pub reset_at : ℕ → List (Option Ring) × List Access → List (Option Ring) × List Access
reset_at q (rings, log) = reset_place q (get_or rings q none) (rings, log)

-- The loop over an array: `n` places from `q` on.
unfoldable pub reset_rings :
    ℕ → ℕ → List (Option Ring) × List Access → List (Option Ring) × List Access
reset_rings zero q s = s
reset_rings (suc n) q s = reset_rings n (suc q) (reset_at q s)

-- `ena_adapter_invalidate_io_rings`
unfoldable pub invalidate_io_rings : Master → Master
invalidate_io_rings m =
    let (txs, log) = reset_rings m.num_tx_rings 0 (m.tx_rings, m.log) in
    let (rxs, log') = reset_rings m.num_rx_rings 0 (m.rx_rings, log) in
    record m { tx_rings = txs; rx_rings = rxs; log = log' }

-- The rings in the places below `n` are not valid.
abbrev pub Down : ℕ → List (Option Ring) → Type 0
Down n rings = (q : ℕ) (r : Ring) → q < n → get_or rings q none ≡ some r → r.hw_valid ≡ false

pub ring_type-cases : (t : RingType) → (t ≡ tx) ⊎ (t ≡ rx)
ring_type-cases tx = inl refl
ring_type-cases rx = inr refl

slot_clear-valid : (r : Ring) (i : ℕ) → (slot_clear r i).hw_valid ≡ r.hw_valid
slot_clear-valid r i = elim (ring_type-cases r.ring_type) [
  | inl t ↦ ap (λ (x : Ring). x.hw_valid) (slot_clear-tx r i t)
  | inr t ↦ ap (λ (x : Ring). x.hw_valid) (slot_clear-rx r i t)
]

release_slot-valid : (i : ℕ) (s : Io) → (release_slot s i).ring.hw_valid ≡ s.ring.hw_valid
unfolding release_slot
release_slot-valid i s = elim (Bool-cases (slot_netbuf s.ring i == 0)) [
  | inl e ↦ rw e refl
  | inr e ↦ rw e (slot_clear-valid s.ring i)
]

release_slots-valid : (n i : ℕ) (s : Io) → (release_slots n i s).ring.hw_valid ≡ s.ring.hw_valid
unfolding release_slots
release_slots-valid zero i s = refl
release_slots-valid (suc n) i s =
    release_slots-valid n (i + 1) (release_slot s i) ∙ release_slot-valid i s

reset-invalid : (s : Io) → (reset_sw_state s).ring.hw_valid ≡ false
unfolding reset_sw_state
reset-invalid s = release_slots-valid s.ring.sq.depth 0 (record s { ring = rewound s.ring })

none-ne-some {ℓ} : {A : Type ℓ} {a : A} → ¬ (none ≡ some a)
none-ne-some h = cc

-- The rings in the places from `lo` to `hi` are not valid.
abbrev Between : ℕ → ℕ → List (Option Ring) → Type 0
Between lo hi rings =
    (q : ℕ) (r : Ring) → lo ≤ q → q < hi → get_or rings q none ≡ some r → r.hw_valid ≡ false

set_outcome :
    (rs : List (Option Ring)) (q : ℕ) (o : Option Ring)
    → (get_or (set rs q o) q none ≡ o) ⊎ (get_or (set rs q o) q none ≡ none)
set_outcome [] q o = inr refl
set_outcome (x ∷ rs) zero o = inl refl
set_outcome (x ∷ rs) (suc q) o = set_outcome rs q o

reset_place-Between :
    (lo q : ℕ) (o : Option Ring) (rings : List (Option Ring)) (log : List Access)
    → get_or rings q none ≡ o
    → Between lo q rings
    → Between lo (suc q) (reset_place q o (rings, log)).0
unfolding reset_place
reset_place-Between lo q none rings log e down j r l h f = elim (Bool-cases (j == q)) [
  | inl s ↦
      let same : j ≡ q = ground arith in
      absurd (none-ne-some (sym (ap (λ k. get_or rings k none) same ∙ e) ∙ f))
  | inr s ↦ down j r l (ground arith) f
]
reset_place-Between lo q (some r0) rings log e down j r l h f = elim (Bool-cases (j == q)) [
  | inl s ↦
      let same : j ≡ q = ground arith in
      let new : Option Ring = some (reset_sw_state (record { ring = r0; log = [] })).ring in
      let g : get_or (set rings q new) q none ≡ some r =
        ap (λ k. get_or (set rings q new) k none) (sym same) ∙ f in
      elim (set_outcome rings q new) [
        | inl put ↦
            ap (λ (x : Ring). x.hw_valid) (some_injective (sym g ∙ put))
            ∙ reset-invalid (record { ring = r0; log = [] })
        | inr gone ↦ absurd (none-ne-some (sym gone ∙ g))
      ]
  | inr s ↦ down j r l (ground arith) (sym (get_or-set_ne rings q j _ none (λ k. ground arith)) ∙ f)
]

reset_at-Between :
    (lo q : ℕ) (s : List (Option Ring) × List Access)
    → Between lo q s.0
    → Between lo (suc q) (reset_at q s).0
unfolding reset_at
reset_at-Between lo q (rings, log) = reset_place-Between lo q (get_or rings q none) rings log refl

reset_rings-Between :
    (n q : ℕ) (s : List (Option Ring) × List Access)
    → Between 0 q s.0
    → Between 0 (q + n) (reset_rings n q s).0
unfolding reset_rings
reset_rings-Between zero q s down j r l h = down j r l (omega arith)
reset_rings-Between (suc n) q s down j r l h =
    reset_rings-Between n (suc q) (reset_at q s) (reset_at-Between 0 q s down) j r l (omega arith)

-- `ena_adapter_invalidate_io_rings` leaves no ring of the adapter valid: neither among the transmit
-- rings nor among the receive rings that the two counts cover.
pub invalidate-Down :
    (m : Master)
    → Down m.num_tx_rings (invalidate_io_rings m).tx_rings
      × Down m.num_rx_rings (invalidate_io_rings m).rx_rings
unfolding invalidate_io_rings
invalidate-Down m = (
  λ q r h.
      reset_rings-Between m.num_tx_rings 0 (m.tx_rings, m.log) (λ j x l k. absurd (omega arith)) q r
        (omega arith) (omega arith),
  λ q r h.
      reset_rings-Between m.num_rx_rings 0
        (m.rx_rings, (reset_rings m.num_tx_rings 0 (m.tx_rings, m.log)).1)
        (λ j x l k. absurd (omega arith)) q r (omega arith) (omega arith),
)
