-- ===== src/Rss/Setup.antt =====
-- The setup and the teardown of receive side scaling: `ena_rss_init` and `ena_rss_fini` of
-- src/ena_rss.c, with the blocks of memory that they take and give back. What the device answers to
-- the query of the limits of its table is a parameter.
use lib_ena.Prelude.{
  ℕ, ◌^◌, bit_and, ◌==◌, not, ◌&&◌, if◌then◌else◌, Bool, true, false, Option, none, some, [],
  replicate,
}
use lib_ena.Status.{Result, err, Code, success, enomem, eopnotsupp}
use lib_ena.Ring.Lifecycle.{Heap, grab, free_block, free_if}
use lib_ena.Rss.{RssInfo, query_ind_table_limits}

-- `struct ena_rss_info` with the blocks behind its pointers, 0 for NULL; `info` has the arrays of the
-- two tables. The physical addresses and the contents of the key and the hash control are left out.
pub record RssState : Type 0 where
  pub info : RssInfo
  pub host_ind_table : ℕ
  pub ind_table : ℕ
  pub hash_key : ℕ
  pub hash_ctrl : ℕ
  pub supported : Bool
  pub enabled : Bool
  pub heap : Heap

-- The bit of a feature, `supported_features & (1u << id)`.
abbrev pub has_feature : ℕ → ℕ → Bool
has_feature features id = not (bit_and features (2 ^ id) == 0)

-- `ena_rss_fini`
unfoldable pub rss_fini : RssState → RssState
rss_fini s = record s {
  info = record s.info { host_ind_table = []; ind_table = [] };
  host_ind_table = 0;
  ind_table = 0;
  hash_key = 0;
  hash_ctrl = 0;
  supported = false;
  enabled = false;
  heap =
      free_if s.hash_ctrl
        (free_if s.hash_key (free_if s.ind_table (free_if s.host_ind_table s.heap)));
}

module _ (grants : ℕ → Bool) (features : ℕ) where
  -- The hash control, for a device that has it, and the end of the setup.
  unfoldable pub alloc_ctrl : RssState → Code × RssState
  alloc_ctrl s =
      let (c, h) = grab grants s.heap in
      if not (has_feature features 18)
      then (success, record s { supported = true })
      else if c == 0
      then (err enomem, rss_fini (record s { hash_ctrl = 0; heap = h }))
      else (success, record s { hash_ctrl = c; heap = h; supported = true })

  -- The hash key, for a device that has it.
  unfoldable pub alloc_key : RssState → Code × RssState
  alloc_key s =
      let (k, h) = grab grants s.heap in
      if not (has_feature features 10)
      then alloc_ctrl s
      else if k == 0
      then (err enomem, rss_fini (record s { hash_key = 0; heap = h }))
      else alloc_ctrl (record s { hash_key = k; heap = h })

  -- The two tables, zeroed.
  unfoldable pub alloc_tables : RssState → Code × RssState
  alloc_tables s =
      let (p, h1) = grab grants s.heap in
      let (t, h2) = grab grants h1 in
      let zeroed = replicate s.info.ind_table_size 0 in
      let tables : RssInfo = record s.info { host_ind_table = zeroed; ind_table = zeroed } in
      if p == 0
      then (
        err enomem,
        record s { info = record s.info { host_ind_table = [] }; host_ind_table = 0; heap = h1 },
      )
      else if t == 0
      then (
        err enomem,
        record s {
          info = record s.info { host_ind_table = []; ind_table = [] };
          host_ind_table = 0;
          ind_table = 0;
          heap = free_block h2 p;
        },
      )
      else alloc_key (record s { info = tables; host_ind_table = p; ind_table = t; heap = h2 })

  -- `ena_rss_init`, `limits` being what the device answers and `num_queues` the receive rings of the
  -- adapter; `none` means that the query of the limits ran out of fuel.
  unfoldable pub rss_init : Result (ℕ × ℕ) → ℕ → RssState → Option (Code × RssState)
  rss_init limits num_queues s =
      if not (has_feature features 12)
      then some (err eopnotsupp, s)
      else if not (s.host_ind_table == 0) && not (s.ind_table == 0)
      then some (success, s)
      else elim (query_ind_table_limits limits num_queues
          (record s.info { ind_table_size = 128 })) [
            | none ↦ none
            | some info ↦ some (alloc_tables (record s { info = info }))
          ]
