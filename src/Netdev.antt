-- ===== src/Netdev.antt =====
-- The netdev layer: src/ena_netdev.c and include/ena_netdev.h, as it is built for Unikraft.
use lib_ena.Prelude.{ℕ, Bool, Option, List}
pub mod Classify
pub mod Classified
pub mod Bounce
pub mod Slots
pub mod Linked
pub mod Memory
pub mod Xmitted
pub mod Reaped
pub mod Transmit
pub mod Sent
pub mod Receive
pub mod Follows
pub mod Gathered
pub mod Received
pub mod Landed
pub mod Depth
pub mod Configure
pub mod Released
pub mod Fresh
pub mod Configured

-- What the driver reads of a `struct uk_netbuf` to send: its own address, the address of its data (0
-- for NULL), the length, the bytes behind the data pointer, and the flags.
pub record Netbuf : Type 0 where
  pub addr : ℕ
  pub data_addr : ℕ
  pub len : ℕ
  pub bytes : List ℕ
  pub flags : ℕ

-- `struct uk_netdev_tx_queue`: `bounce_buf` is its address (0 for NULL), and `slots` the memory behind
-- it, a list of bytes for each slot. An `int16_t` entry of the map is `none` where it is negative.
pub record TxQueue : Type 0 where
  pub bounce_buf : ℕ
  pub bounce_phys : ℕ
  pub bounce_in_use : Bool
  pub bounce_req_id : ℕ
  pub bounce_wait_polls : ℕ
  pub nb_desc : ℕ
  pub bounce_free_head : ℕ
  pub bounce_free_tail : ℕ
  pub bounce_free_count : ℕ
  pub bounce_free_ids : List ℕ
  pub bounce_map : List (Option ℕ)
  pub slots : List (List ℕ)
