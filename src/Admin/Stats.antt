-- ===== src/Admin/Stats.antt =====
-- The queries of src/ena_admin.c: `ena_admin_get_device_attr` and the statistics. A query answers with
-- the words that it copies to its caller.
use lib_ena.Prelude.{ℕ, ◌+◌, ◌*◌, ◌^◌, List, [], ◌∷◌, replicate}
use lib_ena.Status.{Code, success, ok, err}
use lib_ena.Admin.{get_feature, get_stats, Master, Command, Reply, fit}
use lib_ena.Admin.Client.{Exec}

-- The code, and the first `n` words of the response after a success.
unfoldable pub copied : ℕ → Reply × Master → (Code × List ℕ) × Master
copied n (r, m) = elim r.ret [ ok _ ↦ ((success, fit n r.resp), m) | err e ↦ ((err e, []), m) ]

-- `ena_admin_get_device_attr`: the nine words of the device attributes.
unfoldable pub get_device_attr : Exec → Master → (Code × List ℕ) × Master
get_device_attr exec m =
    let c : Command = record {
      opcode = get_feature;
      req = 0 ∷ 0 ∷ 0 ∷ 0x0101 ∷ replicate 11 0;
      resp_cap = 14;
      max_polls = 100;
    } in
    copied 9 (exec c m)

-- `ena_admin_exec_get_stats`, of this device and of its traffic.
unfoldable pub exec_get_stats : Exec → ℕ → Master → Reply × Master
exec_get_stats exec stats_type m =
    let c : Command = record {
      opcode = get_stats;
      req = 0 ∷ 0 ∷ 0 ∷ (stats_type + 1 * 2 ^ 8) ∷ (0xffff * 2 ^ 16) ∷ 0 ∷ 0 ∷ [];
      resp_cap = 14;
      max_polls = 100;
    } in
    exec c m

-- `ena_admin_get_basic_stats`: twelve words.
unfoldable pub get_basic_stats : Exec → Master → (Code × List ℕ) × Master
get_basic_stats exec m = copied 12 (exec_get_stats exec 0 m)

-- `ena_admin_get_eni_stats`: five counters of two words.
unfoldable pub get_eni_stats : Exec → Master → (Code × List ℕ) × Master
get_eni_stats exec m = copied 10 (exec_get_stats exec 2 m)
