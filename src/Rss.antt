-- ===== src/Rss.antt =====
-- The indirection table of receive side scaling: src/ena_rss.c. The admin commands are parameters: what
-- the device answers to the query of its limits, and the code of the command that sets the table.
-- `Rss.Configure` sends these commands.
use lib_ena.Prelude.{
  ℕ, zero, suc, ◌+◌, ◌%◌, ◌^◌, ◌==◌, ltb, Bool, true, false, not, ◌||◌, if◌then◌else◌, Option, none,
  some, List, [], ◌∷◌, is_null, get_or, set,
}
use lib_ena.Status.{Result, ok, err, Code, success, einval}
use lib_ena.Ring.{u16}
pub mod Table
pub mod Setup
pub mod Configure
pub mod Held

-- The table part of `struct ena_rss_info`; an array that is NULL is empty.
pub record RssInfo : Type 0 where
  pub ind_table_size : ℕ
  pub host_ind_table : List ℕ
  pub ind_table : List ℕ

-- `struct ena_admin_feature_rss_flow_hash_control`, the key as bytes.
pub record HashKey : Type 0 where
  pub key_parts : ℕ
  pub reserved : ℕ
  pub key : List ℕ

-- `struct ena_rss_info` in the adapter: the blocks behind its pointers, 0 for NULL, and what stands in
-- them; of the hash control the fields that are selected for each protocol.
pub record RssPart : Type 0 where
  pub info : RssInfo
  pub host_ind_table : ℕ
  pub ind_table : ℕ
  pub hash_key : ℕ
  pub hash_ctrl : ℕ
  pub supported : Bool
  pub enabled : Bool
  pub key_memory : HashKey
  pub selected_fields : List ℕ

-- `while ((1u << requested) < num_queues) requested++;` on fuel; `none` means that the fuel ran out.
unfoldable pub requested_from : ℕ → ℕ → ℕ → Option ℕ
requested_from zero num_queues requested = none
requested_from (suc fuel) num_queues requested =
    let rest = requested_from fuel num_queues (requested + 1) in
    if ltb (2 ^ requested) num_queues then rest else some requested

-- The request cut to the range of the device, and to 14.
unfoldable pub clamp : ℕ → ℕ → ℕ → ℕ
clamp min_size max_size requested =
    let ranged =
      if ltb requested min_size
      then min_size
      else if ltb max_size requested
      then max_size
      else requested in
    if ltb 14 ranged then 14 else ranged

-- What the device answers: the code of the command, or its limits.
unfoldable pub query_ind_table_limits : Result (ℕ × ℕ) → ℕ → RssInfo → Option RssInfo
query_ind_table_limits (err e) num_queues rss = some rss
query_ind_table_limits (ok (min_size, max_size)) num_queues rss =
    if ltb num_queues 2
    then some rss
    else if min_size == 0 || ltb max_size min_size
    then some rss
    else elim (requested_from 32 num_queues 1) [
      | none ↦ none
      | some requested ↦
          some (record rss { ind_table_size = u16 (2 ^ clamp min_size max_size requested) })
    ]

-- `n` entries from entry `i` on, `sq_idx` being the queue that the device knows a ring by.
unfoldable pub fill_table : (ℕ → ℕ) → ℕ → ℕ → ℕ → RssInfo → RssInfo
fill_table sq_idx num_queues zero i rss = rss
fill_table sq_idx num_queues (suc n) i rss =
    let target_q = u16 (i % num_queues) in
    fill_table sq_idx num_queues n (i + 1) (record rss {
      host_ind_table = set rss.host_ind_table i target_q;
      ind_table = set rss.ind_table i (sq_idx target_q);
    })

-- The device's number of the ring of a queue, or the queue's own number where there is no ring.
abbrev pub sq_idx_of : (ℕ → Option ℕ) → ℕ → ℕ
sq_idx_of ring_idx q = elim (ring_idx q) [ none ↦ q | some idx ↦ idx ]

-- `ena_rss_set_ind_table`, `sent` being the code of the command. `ring_idx` is the device's number of
-- a receive ring, `none` for a ring that is not there.
unfoldable pub set_ind_table : Code → (ℕ → Option ℕ) → ℕ → RssInfo → Code × RssInfo
set_ind_table sent ring_idx num_queues rss =
    if num_queues == 0
    then (err einval, rss)
    else if is_null rss.ind_table || is_null rss.host_ind_table
    then (err einval, rss)
    else if rss.ind_table_size == 0
    then (err einval, rss)
    else (sent, fill_table (sq_idx_of ring_idx) num_queues rss.ind_table_size 0 rss)
