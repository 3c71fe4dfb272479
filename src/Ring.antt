-- ===== src/Ring.antt =====
-- The data of an IO ring: include/ena_datapath.h. Each group of fields that the header sets apart
-- by a comment is a record of its own here.
--
-- A pointer is a number, 0 for NULL. A DMA ring is the list of its entries, an array is a list, and
-- an array pointer that is NULL is the empty list: a read of it gives the default that stands for
-- the source's NULL test, and a write to it changes nothing. The `uint8_t` arrays that hold only 0
-- and 1 are lists of `Bool`. `ena_cpu_to_le16` and its kin are the identity on the little-endian
-- targets that the driver builds for.
use lib_ena.Prelude.{ℕ, ◌+◌, ◌%◌, ◌^◌, ◌==◌, Bool, List, if◌then◌else◌}
pub mod Depth
pub mod Advance
pub mod Phase
pub mod Lap
pub mod Ids
pub mod Window
pub mod Inv
pub mod FreeList
pub mod Reset
pub mod Fresh
pub mod Renewed
pub mod Lifecycle
pub mod Leaks
pub mod Freed
pub mod Born

-- `enum ena_ring_type`
pub data RingType : Type 0 where
  tx rx : RingType

-- `struct ena_eth_io_tx_desc`
pub record TxDesc : Type 0 where
  pub len_ctrl : ℕ
  pub meta_ctrl : ℕ
  pub buff_addr_lo : ℕ
  pub buff_addr_hi_hdr_sz : ℕ

-- `struct ena_eth_io_tx_cdesc`
pub record TxCdesc : Type 0 where
  pub req_id : ℕ
  pub status : ℕ
  pub flags : ℕ
  pub sub_qid : ℕ
  pub sq_head_idx : ℕ

-- `struct ena_eth_io_rx_desc`
pub record RxDesc : Type 0 where
  pub length : ℕ
  pub ctrl : ℕ
  pub req_id : ℕ
  pub buff_addr_lo : ℕ
  pub buff_addr_hi : ℕ

-- `struct ena_eth_io_rx_cdesc_base`
pub record RxCdesc : Type 0 where
  pub status : ℕ
  pub length : ℕ
  pub req_id : ℕ
  pub hash : ℕ
  pub sub_qid : ℕ
  pub offset : ℕ

-- `struct ena_tx_buffer`
pub record TxBuffer : Type 0 where
  pub netbuf : ℕ
  pub phys_addr : ℕ
  pub data_len : ℕ
  pub num_descs : ℕ
  pub req_id : ℕ

-- `struct ena_rx_buffer`
pub record RxBuffer : Type 0 where
  pub netbuf : ℕ
  pub phys_addr : ℕ
  pub data_len : ℕ
  pub req_id : ℕ

-- `struct ena_tx_foreign_free`
pub record ForeignFree : Type 0 where
  pub req_id : ℕ
  pub owner_cpu : ℕ

-- The submission queue of `struct ena_ring`.
pub record SubQueue : Type 0 where
  pub depth : ℕ
  pub tail : ℕ
  pub head : ℕ
  pub phase : ℕ
  pub idx : ℕ
  pub db_offset : ℕ
  pub db : ℕ

-- The completion queue of `struct ena_ring`.
pub record CompQueue : Type 0 where
  pub depth : ℕ
  pub head : ℕ
  pub phase : ℕ
  pub elem_size : ℕ
  pub idx : ℕ
  pub db_offset : ℕ
  pub db : ℕ
  pub unmask_db_offset : ℕ

-- The request id pool of `struct ena_ring`, with its ownership marks.
pub record IdPool : Type 0 where
  pub ids : List ℕ
  pub head : ℕ
  pub tail : ℕ
  pub count : ℕ
  pub allocated : List Bool

-- The datapath statistics of `struct ena_ring`.
pub record Stats : Type 0 where
  pub tx_packets : ℕ
  pub tx_bytes : ℕ
  pub rx_packets : ℕ
  pub rx_bytes : ℕ
  pub rx_dropped : ℕ
  pub tx_dropped : ℕ

-- The low latency queue metadata of `struct ena_ring`.
pub record PushBuffer : Type 0 where
  pub is_llq : Bool
  pub virt : ℕ
  pub phys : ℕ
  pub size : ℕ
  pub header_len : ℕ
  pub entry_size : ℕ

-- `struct ena_ring`. The rings and the tracking buffers of the other direction are empty.
-- `ring_lock` has no field: a function that takes it is one step.
pub record Ring : Type 0 where
  pub qid : ℕ
  pub ring_type : RingType
  pub hw_valid : Bool
  pub sq : SubQueue
  pub cq : CompQueue
  pub pool : IdPool
  pub in_flight : List Bool
  pub tx_owner_cpu : ℕ
  pub tx_owner_warned : Bool
  pub tx_foreign : List ForeignFree
  pub tx_foreign_count : ℕ
  pub drop_netbuf_cb : Bool
  pub tx_complete_cb : Bool
  pub tx_bufs : List TxBuffer
  pub rx_bufs : List RxBuffer
  pub stats : Stats
  pub push : PushBuffer
  pub tx_sq : List TxDesc
  pub tx_cq : List TxCdesc
  pub rx_sq : List RxDesc
  pub rx_cq : List RxCdesc

-- What a function does outside the ring: a netbuf freed with `uk_netbuf_free`, the two callbacks of
-- the netdev layer, writes of the doorbell registers, bytes copied to the data of a netbuf, and an
-- entry written to the push buffer at an offset.
pub data Effect : Type 0 where
  free_netbuf : ℕ → Effect
  drop_netbuf : ℕ → Effect
  tx_complete : ℕ → Effect
  write_sq_db : ℕ → Effect
  write_cq_db : ℕ → Effect
  fill_netbuf : ℕ → List ℕ → Effect
  push_entry : ℕ → List ℕ → Effect

-- A ring and what has been done outside it, the latest first.
pub record Io : Type 0 where
  pub ring : Ring
  pub log : List Effect

abbrev pub cpu_id_none : ℕ
cpu_id_none = 0xffff_ffff

abbrev pub u16 : ℕ → ℕ
u16 n = n % 2 ^ 16

abbrev pub u32 : ℕ → ℕ
u32 n = n % 2 ^ 32

abbrev pub u64 : ℕ → ℕ
u64 n = n % 2 ^ 64

abbrev pub no_tx_buffer : TxBuffer
no_tx_buffer = record { netbuf = 0; phys_addr = 0; data_len = 0; num_descs = 0; req_id = 0 }

abbrev pub no_rx_buffer : RxBuffer
no_rx_buffer = record { netbuf = 0; phys_addr = 0; data_len = 0; req_id = 0 }

abbrev pub is_tx : RingType → Bool
is_tx tx = Bool.true
is_tx rx = Bool.false
