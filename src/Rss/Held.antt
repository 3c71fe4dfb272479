-- ===== src/Rss/Held.antt =====
-- `ena_rss_init` and `ena_rss_fini` lose no block, and a setup that succeeds has what it needs.
use lib_ena.Prelude.{ℕ, ◌+◌, ◌≡◌, ◌≢◌, Bool, true, false, List, [], ◌∷◌, replicate}
use lib_ena.Status.{err, Code, success, enomem, eopnotsupp}
use lib_ena.Ring.Window.{occ}
use lib_ena.Ring.Leaks.{blocks_occ}
use lib_ena.Rss.Setup.{RssState, has_feature}

abbrev pub rss_blocks : RssState → List ℕ
rss_blocks s = s.host_ind_table ∷ s.ind_table ∷ s.hash_key ∷ s.hash_ctrl ∷ []

-- The live blocks are those of receive side scaling and others, `rest` saying how often each stands
-- among the others.
abbrev pub RssAccounted : (ℕ → ℕ) → RssState → Type 0
RssAccounted rest s = (x : ℕ) → occ x s.heap.live ≡ blocks_occ x (rss_blocks s) + rest x

-- No block is held.
abbrev pub Unheld : RssState → Type 0
Unheld s = (s.host_ind_table ≡ 0) × (s.ind_table ≡ 0) × (s.hash_key ≡ 0) × (s.hash_ctrl ≡ 0)

-- Both tables are held.
abbrev pub Tabled : RssState → Type 0
Tabled s = (s.host_ind_table ≢ 0) × (s.ind_table ≢ 0)

-- What a setup has: both tables, zeroed and of the size settled on, and the key and the hash control
-- for a device that has them.
pub record Held (features : ℕ) (s : RssState) : Type 0 where
  pub tabled : Tabled s
  pub host_zeroed : s.info.host_ind_table ≡ replicate s.info.ind_table_size 0
  pub zeroed : s.info.ind_table ≡ replicate s.info.ind_table_size 0
  pub key : has_feature features 10 ≡ true → s.hash_key ≢ 0
  pub ctrl : has_feature features 18 ≡ true → s.hash_ctrl ≢ 0
  pub marked : s.supported ≡ true

-- The ends of a setup.
pub data RssEnd (features : ℕ) (s : RssState) : Code × RssState → Type 0 where
  unsupported : has_feature features 12 ≡ false → RssEnd features s (err eopnotsupp, s)
  already : Held features s → RssEnd features s (success, s)
  out_of_memory : (out : RssState) → Unheld out → RssEnd features s (err enomem, out)
  ready : (out : RssState) → Held features out → RssEnd features s (success, out)

-- An end that keeps account of the blocks.
abbrev Kept : (ℕ → ℕ) → ℕ → RssState → Code × RssState → Type 0
Kept rest features s r = RssAccounted rest r.1 × RssEnd features s r

-- What the setup of the tables leaves for the rest, `key` saying that the key is in place.
record Begun (features : ℕ) (rest : ℕ → ℕ) (key : Bool) (s : RssState) : Type 0 where
  accounted : RssAccounted rest s
  tabled : Tabled s
  host_zeroed : s.info.host_ind_table ≡ replicate s.info.ind_table_size 0
  zeroed : s.info.ind_table ≡ replicate s.info.ind_table_size 0
  key_in : key ≡ true → has_feature features 10 ≡ true → s.hash_key ≢ 0
  no_key : key ≡ false → s.hash_key ≡ 0
  no_ctrl : s.hash_ctrl ≡ 0
