-- ===== src/Tests/Configuring.antt =====
-- The configuration of a transmit queue where an older one stands.
use lib_ena.Prelude.{ℕ, ◌≡◌, ◌⊎◌, Bool, false, ltb, some, List, [], ◌∷◌, arith}
use lib_ena.Ring.Window.{occ}
use lib_ena.Ring.Lifecycle.{Blocks}
use lib_ena.Netdev.Depth.{Clamped, clamp_desc_count, clamp_desc_count-Clamped}
use lib_ena.Netdev.Configure.{TxPlace, txq_configure}
use lib_ena.Netdev.Released.{Placed}
use lib_ena.Netdev.Configured.{Ending, Refuses, depth_for, txq_configure-Ending}
use lib_ena.Tests.Adapters.{adapter}
use lib_ena.Tests.Sending.{queue}

abbrev old_blocks : Blocks
old_blocks = record {
  ring = 20;
  sq = 21;
  cq = 22;
  ids = 23;
  bufs = 24;
  in_flight = 25;
  allocated = 26;
  sq_head_wb = 27;
  foreign = 28;
}

-- The blocks of others, and of the place before them.
abbrev others : List ℕ
others = 1 ∷ 2 ∷ 3 ∷ 9 ∷ []

abbrev taken : List ℕ
taken = 65536 ∷ 30 ∷ 31 ∷ 27 ∷ 25 ∷ 26 ∷ 28 ∷ 24 ∷ 23 ∷ 22 ∷ 21 ∷ 20 ∷ others

abbrev place : TxPlace
place = record {
  adapter = record adapter { heap = record { calls = 70000; live = taken } };
  blocks = some old_blocks;
  queue = queue;
  ring = 20;
  ids_block = 30;
  map_block = 31;
}

-- An allocator that fails from the eleventh call on.
abbrev ten : ℕ → Bool
ten n = ltb n 70010

place-Placed : Placed (λ x. occ x others) 0 place
unfolding occ
place-Placed = record {
  accounted = λ x. omega arith;
  rooted = omega arith;
  no_ring = λ e. absurd (cc);
  in_range = omega arith;
}

txq_configure-Ending_example :
    Refuses 8 false 1 0 × (txq_configure ten (λ p. p) 8 false 0 500 place ≡ (false, place))
    ⊎ (¬ Refuses 8 false 1 0)
      × Ending
          (λ x. occ x others)
          0
          (depth_for 500 place)
          (txq_configure ten (λ p. p) 8 false 0 500 place)
txq_configure-Ending_example =
    txq_configure-Ending ten (λ p. p) (λ x. occ x others) 8 false 0 500 place place-Placed

clamp_desc_count-Clamped_example : Clamped 500 1024 (clamp_desc_count 500 1024)
clamp_desc_count-Clamped_example = clamp_desc_count-Clamped 500 1024
