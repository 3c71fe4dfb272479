-- ===== src/Init.antt =====
-- The bring-up of a device: src/ena_init.c. Each function sends admin commands through `exec`, which
-- stands for `ena_admin_exec_cmd`. The texts in the host information are left out.
use lib_ena.Prelude.{
  ℕ, zero, suc, ◌+◌, ◌-◌, ◌*◌, ◌/◌, ◌%◌, ◌^◌, bit_and, ◌==◌, ltb, not, ◌&&◌, ◌||◌, Bool, true,
  false, if◌then◌else◌, List, [], ◌∷◌, ◌++◌, get_or, replicate,
}
use lib_ena.Status.{Errno, ok, err, Code, success, einval, enomem, eopnotsupp}
use lib_ena.Device.{configured}
use lib_ena.Ring.{u16}
use lib_ena.Ring.Lifecycle.{grab, free_block}
use lib_ena.Admin.{
  Opcode, get_feature, set_feature, Attributes, LlqInfo, Reports, Master, World, Command, Reply,
}
use lib_ena.Admin.Client.{Exec, or_return, answered, return_if}
use lib_ena.Admin.Queues.{addr_low, addr_high}
pub mod Depths
pub mod Limits
pub mod Configured

-- `enum ena_admin_aq_feature_id`
pub data Feature : Type 0 where
  device_attributes max_queues_num llq mtu aenq_config host_attr_config : Feature

unfoldable pub feature_id : Feature → ℕ
feature_id device_attributes = 1
feature_id max_queues_num = 2
feature_id llq = 4
feature_id mtu = 14
feature_id aenq_config = 26
feature_id host_attr_config = 28

-- The request for a feature: an empty control buffer, the selection of current values and the
-- feature, and the words of the feature.
unfoldable pub feature_req : Feature → List ℕ → List ℕ
feature_req f words = 0 ∷ 0 ∷ 0 ∷ (1 + feature_id f * 2 ^ 8) ∷ words

-- `ena_init_exec`, of a request for a feature.
unfoldable pub init_exec : Exec → Opcode → Feature → List ℕ → ℕ → Master → Reply × Master
init_exec exec op f words resp_cap m =
    let c : Command = record {
      opcode = op;
      req = feature_req f words;
      resp_cap = resp_cap;
      max_polls = 5000;
    } in
    exec c m

-- GET_FEATURE, whose request has 11 more words.
unfoldable pub ask : Exec → Feature → ℕ → Master → Reply × Master
ask exec f resp_cap m = init_exec exec get_feature f (replicate 11 0) resp_cap m

-- SET_FEATURE
unfoldable pub tell : Exec → Feature → List ℕ → Master → Reply × Master
tell exec f words m = init_exec exec set_feature f words 0 m

-- Byte number `i` of a word.
abbrev pub byte : ℕ → ℕ → ℕ
byte word i = word / 2 ^ (8 * i) % 2 ^ 8

-- The fields that the device attributes give.
unfoldable pub read_attributes : List ℕ → Attributes → Attributes
read_attributes resp a =
    let lo = get_or resp 6 0 in
    let hi = get_or resp 7 0 in
    record a {
      impl_id = get_or resp 0 0;
      device_version = get_or resp 1 0;
      supported_features = get_or resp 2 0;
      attr_caps = get_or resp 3 0;
      phys_addr_width = get_or resp 4 0;
      virt_addr_width = get_or resp 5 0;
      mac_addr = byte lo 0 ∷ byte lo 1 ∷ byte lo 2 ∷ byte lo 3 ∷ byte hi 0 ∷ byte hi 1 ∷ [];
      max_mtu = u16 (get_or resp 8 0);
    }

-- `ena_init_get_device_attributes`
unfoldable pub get_device_attributes : Exec → Master → Code × Master
get_device_attributes exec m =
    answered (ask exec device_attributes 14 m)
      λ resp m1. (success, record m1 { attributes = read_attributes resp m1.attributes })

-- The loop `while ((d & (d - 1)) != 0)` on fuel. A round makes `d` smaller, so `d` is enough.
unfoldable pub round_down : ℕ → ℕ → ℕ
round_down zero d = d
round_down (suc fuel) d =
    let rest = round_down fuel (bit_and d (d - 1)) in
    if not (bit_and d (d - 1) == 0) then rest else d

-- `clamp_queue_depth`
unfoldable pub clamp_queue_depth : ℕ → ℕ
clamp_queue_depth raw =
    let upper = if ltb 4096 raw then 4096 else raw in
    let d = if ltb upper 4 then 4 else upper in u16 (round_down d d)

-- `clamp_queue_num`
unfoldable pub clamp_queue_num : ℕ → ℕ
clamp_queue_num raw = if ltb 256 raw then 256 else if raw == 0 then 1 else u16 raw

-- The smaller of two limits, as the source compares them.
abbrev pub limited : ℕ → ℕ → ℕ
limited sq cq = if ltb cq sq then cq else sq

-- The fields that the queue limits give.
unfoldable pub read_limits : List ℕ → Attributes → Attributes
read_limits resp a =
    let queues = limited (clamp_queue_num (get_or resp 0 0)) (clamp_queue_num (get_or resp 2 0)) in
    let depth =
      limited (clamp_queue_depth (get_or resp 1 0)) (clamp_queue_depth (get_or resp 3 0)) in
    record a {
      max_tx_queues = queues;
      max_rx_queues = queues;
      max_tx_ring_size = depth;
      max_rx_ring_size = depth;
      max_header_size = get_or resp 6 0;
      max_packet_tx_descs = get_or resp 7 0 % 2 ^ 16;
      max_packet_rx_descs = get_or resp 7 0 / 2 ^ 16 % 2 ^ 16;
    }

-- `ena_init_get_queue_limits`
unfoldable pub get_queue_limits : Exec → Master → Code × Master
get_queue_limits exec m =
    answered (ask exec max_queues_num 14 m)
      λ resp m1. (success, record m1 { attributes = read_limits resp m1.attributes })

-- `ena_init_set_host_info`: the buffer is kept if the device takes it, and freed if not.
unfoldable pub set_host_info : Exec → World → Master → Code × Master
set_host_info exec w m =
    let (base, heap) = grab w.grants m.heap in
    let phys = w.phys base in
    let (r, m1) =
      tell exec host_attr_config (addr_low phys ∷ addr_high phys ∷ 0 ∷ 0 ∷ 0 ∷ [])
        (record m { heap = heap }) in
    let kept : Master = record m1 { host_info_base = base; host_info_phys = phys } in
    if base == 0 then (err enomem, record m { heap = heap }) else elim r.ret [
      | err e ↦ (err e, record m1 { heap = free_block m1.heap base })
      | ok _ ↦ (success, kept)
    ]

-- `ena_init_set_mtu`
unfoldable pub set_mtu : Exec → ℕ → Master → Code × Master
set_mtu exec value m = return_if (ltb value 46 || ltb 0xffff value) einval m (
    answered (tell exec mtu (value ∷ []) m)
      λ _ m1. (success, record m1 { attributes = record m1.attributes { mtu = value } }))

-- `ena_init_get_mac_addr`, the address being read into the adapter.
unfoldable pub get_mac_addr : Exec → Master → Code × Master
get_mac_addr exec m = get_device_attributes exec m

abbrev pub no_llq : LlqInfo
no_llq = record {
  supported = false;
  enabled = false;
  max_llq_num = 0;
  max_llq_depth = 0;
  entry_size = 0;
  header_len = 0;
}

-- `ena_init_config_llq`: the device is asked, and LLQ mode stays off whatever it answers.
unfoldable pub config_llq : Exec → Master → Code × Master
config_llq exec m =
    let off : Master = record m { llq_info = no_llq } in
    if m.bar2_base == 0 || m.bar2_size == 0
    then (success, off)
    else (success, (ask exec llq 8 off).1)

-- `ena_llq_select_params` (ENOTSUP is EOPNOTSUPP): the entry size and the header length, of the layouts supported.
unfoldable pub llq_select_params : ℕ → ℕ → Code × (ℕ × ℕ)
llq_select_params header_location_ctrl entry_size_ctrl =
    if bit_and header_location_ctrl 1 == 0
    then (err eopnotsupp, (0, 0))
    else if bit_and entry_size_ctrl 1 == 0
    then (err eopnotsupp, (0, 0))
    else (success, (128, u16 (128 - 2 * 16)))

-- The groups are enabled in the adapter if the device takes them.
unfoldable pub groups_set : ℕ → Reply × Master → Master
groups_set groups (r, m) = elim r.ret [
  | err _ ↦ m
  | ok _ ↦ record m { reports = record m.reports { aenq_enabled_groups = groups } }
]

-- The second half of `ena_init_config_aenq`: the groups of `supported` that the driver knows.
unfoldable pub enable_groups : Exec → ℕ → Master → Master
enable_groups exec supported m =
    let groups = bit_and supported 0x1f in
    let told = groups_set groups (tell exec aenq_config (supported ∷ groups ∷ []) m) in
    if groups == 0 then m else told

-- What the device reports as supported is enabled.
unfoldable pub groups_answered : Exec → Reply × Master → Master
groups_answered exec (r, m) = elim r.ret [
  | err _ ↦ m
  | ok _ ↦ enable_groups exec (get_or r.resp 0 0) m
]

-- `ena_init_config_aenq`, which always answers 0.
unfoldable pub config_aenq : Exec → Master → Code × Master
config_aenq exec m =
    if bit_and m.attributes.supported_features (2 ^ 26) == 0
    then (success, m)
    else (success, groups_answered exec (ask exec aenq_config 14 m))

-- `ena_init_run`
unfoldable pub init_run : Exec → World → ℕ → Master → Code × Master
init_run exec w value m = or_return (get_device_attributes exec m) λ m1.
    or_return (get_queue_limits exec m1) λ m2. or_return (set_host_info exec w m2) λ m3.
      or_return (config_llq exec (config_aenq exec m3).1) λ m4.
        or_return (set_mtu exec value m4) λ m5.
          or_return (get_mac_addr exec m5)
            λ m6. (success, record m6 { dev = record m6.dev { state = configured } })

-- One step of `ena_init_reapply_device_features`: it runs if it applies, and its error is kept if it
-- is the first.
unfoldable pub and_step : Bool → (Master → Code × Master) → Code × Master → Code × Master
and_step applies step (ret, m) =
    let (r, m1) = step m in
    let first : Code = elim ret [ ok _ ↦ r | err e ↦ err e ] in
    if applies then (first, m1) else (ret, m)

-- `ena_init_reapply_device_features`. `rss` is `ena_rss_configure`.
unfoldable pub reapply_device_features :
    Exec → (ℕ → Master → Code × Master) → Master → Code × Master
reapply_device_features exec rss m =
    let (c1, m1) = and_step true (get_device_attributes exec) (success, m) in
    let value = m1.attributes.mtu in
    let (c2, m2) = and_step (not (value == 0)) (set_mtu exec value) (c1, m1) in
    let wants = not (m2.reports.aenq_enabled_groups == 0) in
    let (c3, m3) = and_step wants (config_aenq exec) (c2, m2) in
    let queues = m3.num_rx_rings in and_step (ltb 1 queues) (rss queues) (c3, m3)
