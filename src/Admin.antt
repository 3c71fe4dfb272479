-- ===== src/Admin.antt =====
-- The data of the admin queues and the adapter that holds them: include/ena_admin.h and
-- `struct ena_adapter` of include/ena.h. An entry is its common descriptor and the 32-bit words that
-- follow it. A request is the list of its words: every request of the driver is whole words.
use lib_ena.Prelude.{ℕ, zero, suc, ◌+◌, Bool, Option, List, [], ◌∷◌}
use lib_ena.Device.{Adapter}
use lib_ena.Ring.{Ring, Effect}
use lib_ena.Ring.Lifecycle.{Heap}
use lib_ena.Rx.Queue.{RxQueue}
use lib_ena.Rx.Refill.{Allocator}
use lib_ena.Rss.{RssPart}
use lib_ena.Status.{Code}
pub mod Exec
pub mod Inv
pub mod Answered
pub mod WrapLoss
pub mod Setup
pub mod Balance
pub mod Started
pub mod Client
pub mod Ensures
pub mod Queues
pub mod Hardware
pub mod Valid
pub mod Invalidate
pub mod Events
pub mod Polled
pub mod Stats

-- `enum ena_admin_aq_opcode`
pub data Opcode : Type 0 where
  create_sq destroy_sq create_cq destroy_cq get_feature set_feature get_stats : Opcode

-- `struct ena_admin_aq_entry`: 15 words after the common descriptor.
pub record AqEntry : Type 0 where
  pub command_id : ℕ
  pub opcode : Opcode
  pub flags : ℕ
  pub data_words : List ℕ

-- `struct ena_admin_acq_entry`: 14 words of response.
pub record AcqEntry : Type 0 where
  pub command : ℕ
  pub status : ℕ
  pub flags : ℕ
  pub extended_status : ℕ
  pub sq_head_indx : ℕ
  pub response : List ℕ

-- `struct ena_admin_aenq_entry`: 12 words of data.
pub record AenqEntry : Type 0 where
  pub group : ℕ
  pub syndrome : ℕ
  pub flags : ℕ
  pub timestamp_low : ℕ
  pub timestamp_high : ℕ
  pub data_words : List ℕ

-- The entries after `memset(..., 0, ...)`. Opcode 0 has no name, and no code reads it back.
abbrev pub blank_aq : AqEntry
blank_aq = record { command_id = 0; opcode = get_feature; flags = 0; data_words = [] }

abbrev pub blank_acq : AcqEntry
blank_acq = record {
  command = 0;
  status = 0;
  flags = 0;
  extended_status = 0;
  sq_head_indx = 0;
  response = [];
}

abbrev pub blank_aenq : AenqEntry
blank_aenq = record {
  group = 0;
  syndrome = 0;
  flags = 0;
  timestamp_low = 0;
  timestamp_high = 0;
  data_words = [];
}

-- The admin queue of `struct ena_adapter`: its base pointer (0 for NULL) and its memory.
pub record AdminSq : Type 0 where
  pub base : ℕ
  pub phys : ℕ
  pub depth : ℕ
  pub tail : ℕ
  pub phase : ℕ
  pub entries : List AqEntry

-- The admin completion queue.
pub record AdminCq : Type 0 where
  pub base : ℕ
  pub phys : ℕ
  pub depth : ℕ
  pub head : ℕ
  pub phase : ℕ
  pub entries : List AcqEntry

-- The event queue.
pub record EventQueue : Type 0 where
  pub base : ℕ
  pub phys : ℕ
  pub depth : ℕ
  pub head : ℕ
  pub phase : ℕ
  pub entries : List AenqEntry

-- What the events have reported, and the groups that are enabled.
pub record Reports : Type 0 where
  pub link_up : Bool
  pub aen_keepalives : ℕ
  pub aen_rx_drops : ℕ
  pub aen_tx_drops : ℕ
  pub aenq_enabled_groups : ℕ

-- The negotiated attributes and limits.
pub record Attributes : Type 0 where
  pub mac_addr : List ℕ
  pub max_mtu : ℕ
  pub max_tx_queues : ℕ
  pub max_rx_queues : ℕ
  pub max_tx_ring_size : ℕ
  pub max_rx_ring_size : ℕ
  pub impl_id : ℕ
  pub device_version : ℕ
  pub supported_features : ℕ
  pub attr_caps : ℕ
  pub phys_addr_width : ℕ
  pub virt_addr_width : ℕ
  pub max_header_size : ℕ
  pub max_packet_tx_descs : ℕ
  pub max_packet_rx_descs : ℕ
  pub mtu : ℕ

-- `struct ena_llq_info`
pub record LlqInfo : Type 0 where
  pub supported : Bool
  pub enabled : Bool
  pub max_llq_num : ℕ
  pub max_llq_depth : ℕ
  pub entry_size : ℕ
  pub header_len : ℕ

-- What the adapter does outside its memory: a register write, by the register's offset, and what a
-- ring does.
pub data Access : Type 0 where
  write_reg : ℕ → ℕ → Access
  of_ring : Effect → Access

-- `struct ena_adapter`, with the heap of the allocators, the number of the next exchange with the
-- device, and the log of what has been done, the latest first. `admin_lock` has no field: a section
-- that holds it is one step. `aenq_handler` is a number, 0 for NULL. `rx_queue` is the queue of the
-- netdev layer that the refill callback of RX queue 0 works on.
pub record Master : Type 0 where
  pub dev : Adapter
  pub bar2_base : ℕ
  pub bar2_size : ℕ
  pub aq : AdminSq
  pub acq : AdminCq
  pub aenq : EventQueue
  pub next_command_id : ℕ
  pub recover_active : Bool
  pub aenq_handler : ℕ
  pub reports : Reports
  pub attributes : Attributes
  pub host_info_base : ℕ
  pub host_info_phys : ℕ
  pub tx_rings : List (Option Ring)
  pub rx_rings : List (Option Ring)
  pub num_tx_rings : ℕ
  pub num_rx_rings : ℕ
  pub irq_vectors : Bool
  pub llq_info : LlqInfo
  pub rss_info : RssPart
  pub rx_queue : Option RxQueue
  pub heap : Heap
  pub now : ℕ
  pub log : List Access

-- `struct ena_ring *`: a place in the two arrays of the adapter.
pub data Handle : Type 0 where
  tx_ring rx_ring : ℕ → Handle

-- The bus addresses of the memory of a ring; 0 for no head writeback.
pub record RingBus : Type 0 where
  pub sq_phys : ℕ
  pub cq_phys : ℕ
  pub sq_head_wb_phys : ℕ

-- The device and the platform. In exchange number `n`: the memory of the completion queue as poll
-- number `i` of a command finds it, and of the event queue as a read finds it, each a function of
-- that memory before; the status register at read number `i` of a wait; and the control register.
-- Then the memory of the indirection table as a read of it leaves it, a function of that memory before,
-- which allocations succeed, the bus addresses of a block and of the
-- memory of a ring, and the refill callback of RX queue 0.
pub record World : Type 0 where
  pub acq_dma : ℕ → ℕ → List AcqEntry → List AcqEntry
  pub aenq_dma : ℕ → List AenqEntry → List AenqEntry
  pub status : ℕ → ℕ → ℕ
  pub control : ℕ → ℕ
  pub ind_table_dma : ℕ → List ℕ → List ℕ
  pub grants : ℕ → Bool
  pub phys : ℕ → ℕ
  pub bus : Handle → RingBus
  pub refill_netbuf : Option Allocator

-- The arguments of `ena_admin_exec_cmd`: the words of the request, how many words the caller takes
-- of the response, and the budget of polls.
pub record Command : Type 0 where
  pub opcode : Opcode
  pub req : List ℕ
  pub resp_cap : ℕ
  pub max_polls : ℕ

-- Its results: the code, `*out_command_id` where it is written, and the words written to `resp`.
pub record Reply : Type 0 where
  pub ret : Code
  pub command_id : Option ℕ
  pub resp : List ℕ

-- A list cut, or filled up with zeroes, to `n` words.
abbrev pub fit : ℕ → List ℕ → List ℕ
fit zero xs = []
fit (suc n) [] = 0 ∷ fit n []
fit (suc n) (x ∷ xs) = x ∷ fit n xs
