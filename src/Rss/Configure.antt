-- ===== src/Rss/Configure.antt =====
-- `ena_rss_configure` and the commands that it sends: src/ena_rss.c.
use lib_ena.Prelude.{
  ℕ, zero, suc, ◌+◌, ◌*◌, ◌/◌, ◌%◌, ◌^◌, bit_or, ◌==◌, ltb, true, not, ◌&&◌, ◌||◌, if◌then◌else◌,
  Option, none, some, List, [], ◌∷◌, ◌++◌, length, get_or, replicate,
}
use lib_ena.Status.{Result, ok, err, Code, success, einval, enomem, eopnotsupp}
use lib_ena.Ring.{u32}
use lib_ena.Rss.{RssInfo, query_ind_table_limits, set_ind_table}
use lib_ena.Rss.Setup.{RssState, has_feature, alloc_tables}
use lib_ena.Admin.{Opcode, get_feature, set_feature, Master, World, Command, Reply}
use lib_ena.Admin.Client.{Exec, or_return}
use lib_ena.Admin.Queues.{addr_low, addr_high}

-- The features, `enum ena_admin_aq_feature_id`.
abbrev pub hash_function : ℕ
hash_function = 10

abbrev pub indirection_table : ℕ
indirection_table = 12

abbrev pub hash_input : ℕ
hash_input = 18

-- A request: the control buffer, the selection of current values with the feature, and the words of the
-- feature.
abbrev pub rss_req : ℕ → ℕ → ℕ → List ℕ → List ℕ
rss_req feature len phys words =
    len ∷ addr_low phys ∷ addr_high phys ∷ (1 + feature * 2 ^ 8) ∷ words

-- `ena_rss_exec`
unfoldable pub rss_exec : Exec → Opcode → List ℕ → ℕ → Master → Reply × Master
rss_exec exec op req resp_cap m =
    let c : Command = record { opcode = op; req = req; resp_cap = resp_cap; max_polls = 5000 } in
    exec c m

-- A command whose response nobody takes.
unfoldable pub rss_tell : Exec → List ℕ → Master → Code × Master
rss_tell exec req m = let (r, m') = rss_exec exec set_feature req 0 m in (r.ret, m')

-- The limits in a response of the table: the two halves of its first word.
abbrev pub limits_of : Reply → Result (ℕ × ℕ)
limits_of r = elim r.ret [
  | ok _ ↦ let word = get_or r.resp 0 0 in ok (word % 2 ^ 16, word / 2 ^ 16 % 2 ^ 16)
  | err e ↦ err e
]

-- The command of `ena_rss_query_ind_table_limits`, which it sends for at least two queues.
unfoldable pub ask_limits : Exec → ℕ → Master → Result (ℕ × ℕ) × Master
ask_limits exec num_queues m =
    let (r, m') = rss_exec exec get_feature (rss_req indirection_table 0 0 (replicate 4 0)) 4 m in
    if ltb num_queues 2 then (ok (0, 0), m) else (limits_of r, m')

-- What `ena_rss_init` works on, and where it goes.
abbrev pub packed : Master → RssInfo → RssState
packed m info = record {
  info = info;
  host_ind_table = m.rss_info.host_ind_table;
  ind_table = m.rss_info.ind_table;
  hash_key = m.rss_info.hash_key;
  hash_ctrl = m.rss_info.hash_ctrl;
  supported = m.rss_info.supported;
  enabled = m.rss_info.enabled;
  heap = m.heap;
}

-- New blocks are zeroed.
abbrev pub unpacked : RssState → Master → Master
unpacked s m = record m {
  rss_info = record {
    info = s.info;
    host_ind_table = s.host_ind_table;
    ind_table = s.ind_table;
    hash_key = s.hash_key;
    hash_ctrl = s.hash_ctrl;
    supported = s.supported;
    enabled = s.enabled;
    key_memory =
        if s.hash_key == m.rss_info.hash_key
        then m.rss_info.key_memory
        else record { key_parts = 0; reserved = 0; key = replicate 40 0 };
    selected_fields =
        if s.hash_ctrl == m.rss_info.hash_ctrl then m.rss_info.selected_fields else replicate 16 0;
  };
  heap = s.heap;
}

-- `ena_rss_init` from the answer of the device on. The query ends within its fuel, so `none` does not
-- occur.
unfoldable pub rss_alloc : World → ℕ → Result (ℕ × ℕ) × Master → Code × Master
rss_alloc w num_queues (limits, m) =
    elim (query_ind_table_limits limits num_queues m.rss_info.info) [
      | none ↦ (err enomem, m)
      | some info ↦
          let (c, s) = alloc_tables w.grants m.attributes.supported_features (packed m info) in
          (c, unpacked s m)
    ]

-- The size of the table before the device is asked.
abbrev pub fixed_size : Master → Master
fixed_size m = record m {
  rss_info = record m.rss_info { info = record m.rss_info.info { ind_table_size = 128 } };
}

-- `ena_rss_init`
unfoldable pub rss_setup : World → Exec → Master → Code × Master
rss_setup w exec m =
    if not (has_feature m.attributes.supported_features indirection_table)
    then (err eopnotsupp, m)
    else if not (m.rss_info.host_ind_table == 0) && not (m.rss_info.ind_table == 0)
    then (success, m)
    else rss_alloc w m.num_rx_rings (ask_limits exec m.num_rx_rings (fixed_size m))

-- `default_toeplitz_key`
abbrev pub default_toeplitz_key : List ℕ
default_toeplitz_key =
    (0x6d ∷ 0x5a ∷ 0x56 ∷ 0xda ∷ 0x25 ∷ 0x5b ∷ 0x0e ∷ 0xc2 ∷ 0x41 ∷ 0x67 ∷ [])
    ++ (0x25 ∷ 0x3d ∷ 0x43 ∷ 0xa3 ∷ 0x8f ∷ 0xb0 ∷ 0xd0 ∷ 0xca ∷ 0x2b ∷ 0xcb ∷ [])
    ++ (0xae ∷ 0x7b ∷ 0x30 ∷ 0xb4 ∷ 0x77 ∷ 0xcb ∷ 0x2d ∷ 0xa3 ∷ 0x80 ∷ 0x30 ∷ [])
    ++ (0xf2 ∷ 0x0c ∷ 0x6a ∷ 0x42 ∷ 0xb7 ∷ 0x3b ∷ 0xbe ∷ 0xac ∷ 0x01 ∷ 0xfa ∷ [])

-- The bytes of a key that the caller passes, `none` for NULL.
abbrev pub key_bytes : Option (List ℕ) → List ℕ
key_bytes none = default_toeplitz_key
key_bytes (some bytes) = bytes

abbrev pub key_written : Option (List ℕ) → Master → Master
key_written key m = record m {
  rss_info = record m.rss_info {
    key_memory = record { key_parts = 10; reserved = 0; key = key_bytes key };
  };
}

-- `ena_rss_set_hash_key`: Toeplitz is function 1.
unfoldable pub set_hash_key : World → Exec → Option (List ℕ) → Master → Code × Master
set_hash_key w exec key m =
    if m.rss_info.hash_key == 0
    then (err einval, m)
    else if not (length (key_bytes key) == 40)
    then (err einval, m)
    else rss_tell exec (rss_req hash_function 48 (w.phys m.rss_info.hash_key) (0 ∷ 2 ∷ 0 ∷ []))
        (key_written key m)

-- The fields of a protocol: `L3_DA` and `L3_SA` for IP, and `L4_DP` and `L4_SP` too for TCP and UDP.
abbrev pub ip_fields : ℕ
ip_fields = bit_or 8 4

abbrev pub tcp_udp_fields : ℕ
tcp_udp_fields = bit_or ip_fields (bit_or 32 16)

-- `TCP4`, `UDP4`, `IP4` and `IP4_FRAG` are 0, 1, 4 and 6.
abbrev pub fields_written : Master → Master
fields_written m = record m {
  rss_info = record m.rss_info {
    selected_fields =
        (tcp_udp_fields ∷ tcp_udp_fields ∷ 0 ∷ 0 ∷ ip_fields ∷ 0 ∷ ip_fields ∷ []) ++ replicate 9 0;
  };
}

-- `ena_rss_set_hash_ctrl`
unfoldable pub set_hash_ctrl : World → Exec → Master → Code × Master
set_hash_ctrl w exec m =
    if m.rss_info.hash_ctrl == 0
    then (err einval, m)
    else rss_tell exec
        (rss_req hash_input 256 (w.phys m.rss_info.hash_ctrl) (bit_or 2 4 * 2 ^ 16 ∷ []))
        (fields_written m)

-- `__builtin_ctz` of a number that is not 0, on the 32 bits of the number.
unfoldable pub ctz : ℕ → ℕ → ℕ
ctz zero n = 0
ctz (suc bits) n = let rest = ctz bits (n / 2) in if n % 2 == 0 then rest + 1 else 0

-- The request for the whole table.
abbrev pub table_req : World → Master → List ℕ
table_req w m =
    let rss = m.rss_info in
    rss_req indirection_table (u32 (rss.info.ind_table_size * 4)) (w.phys rss.ind_table)
      (0 ∷ ctz 32 rss.info.ind_table_size ∷ 0xffff_ffff ∷ 0 ∷ [])

-- The device's number of the receive ring of a queue.
abbrev pub ring_idx : Master → ℕ → Option ℕ
ring_idx m q = elim (get_or m.rx_rings q none) [ none ↦ none | some r ↦ some r.sq.idx ]

-- `ena_rss_set_ind_table` on the adapter: the table is filled, and the command is sent.
unfoldable pub send_ind_table : World → Exec → ℕ → Master → Code × Master
send_ind_table w exec num_queues m =
    let (c, info) = set_ind_table success (ring_idx m) num_queues m.rss_info.info in
    let filled : Master = record m { rss_info = record m.rss_info { info = info } } in
    or_return (c, filled) λ m1. rss_tell exec (table_req w m1) m1

-- The device writes to the table when it is read back in exchange `n`.
abbrev pub read_table : World → ℕ → Master → Master
read_table w n m = record m {
  rss_info = record m.rss_info {
    info = record m.rss_info.info { ind_table = w.ind_table_dma n m.rss_info.info.ind_table };
  };
}

-- `ena_rss_readback_ind_table`, without what it prints.
unfoldable pub readback_ind_table : World → Exec → Master → Master
readback_ind_table w exec m =
    let (r, m1) = rss_exec exec get_feature (table_req w m) 4 m in
    if m.rss_info.ind_table == 0 || m.rss_info.info.ind_table_size == 0
    then m
    else read_table w m.now m1

abbrev pub enabled : Master → Master
enabled m = record m { rss_info = record m.rss_info { enabled = true } }

-- `ena_rss_configure`
unfoldable pub rss_configure : World → Exec → ℕ → Master → Code × Master
rss_configure w exec num_queues m =
    let configured = or_return (rss_setup w exec m) λ m1.
      let key = set_hash_key w exec none m1 in
      or_return
        (if has_feature m1.attributes.supported_features hash_function then key else (success, m1))
        λ m2.
          let ctrl = set_hash_ctrl w exec m2 in
          or_return
            (if has_feature m2.attributes.supported_features hash_input
              then ctrl
              else (success, m2))
            λ m3.
              or_return (send_ind_table w exec num_queues m3)
                λ m4. (success, enabled (readback_ind_table w exec m4)) in
    if num_queues == 0 then (err einval, m) else configured
