-- ===== src/Lib.antt =====
-- The ENA driver: the data path of a network adapter, its admin and event queues, the creation of its
-- queues, the bring-up and the recovery of the device, the low latency queue, receive side scaling, the
-- device registers, the data path of its netdev layer, and two policies of a sample.
--
-- The driver moves packets through rings. A transmit or receive ring has a submission queue that the
-- driver fills with descriptors, a completion queue that the device fills, a pool of request ids,
-- and an array of tracking buffers indexed by request id. A submit takes an id from the pool; a
-- completion names it, and the poll gives it back. A transmit buffer may be freed only by the core
-- that sent it: another core that reaps its completion defers the release.
--
-- The rings are created on the device by commands on the admin queue, as are all settings. A command
-- that times out resets the device and rebuilds what the reset cleared, by further commands; events
-- of the device come through a third queue, and a fatal one starts the same recovery.
--
-- Prelude has the shared helpers (tests into Bool, lists over the native numbers, bits, counts of
-- flags), Status the codes that functions return.
-- Ring is include/ena_datapath.h: struct ena_ring is the record Ring, its queues, pool, statistics and
-- push buffer are records of their own. Below it, Ring/Ids, Ring/Depth and Ring/Lifecycle are
-- src/ena_datapath.c (ena_ring_req_id_alloc, ena_ring_req_id_free, ena_ring_alloc, ena_ring_free),
-- Ring/Reset is ena_ring_reset_sw_state of src/ena_admin.c, and Ring/Advance is the step of the two
-- counters with their phase bits. Ring/Window, Inv, FreeList and Fresh are about the pool, Phase and
-- Lap about the phase bits, Renewed about the reset, Leaks, Freed and Born about the allocation.
-- Tx is src/ena_tx.c: Tx/Submit (ena_tx_submit, ena_tx_doorbell, ena_tx_free_space) and Tx/Poll
-- (ena_tx_poll_completions and its helpers); Tx/Held and Tx/Inv say where each request id is.
-- Rx is src/ena_rx.c: Rx/Submit, Rx/Refill and Rx/Poll, with the bounce slots of struct
-- uk_netdev_rx_queue in Rx/Queue.
-- Admin is include/ena_admin.h and struct ena_adapter of include/ena.h, whose record is Master. Below
-- it, src/ena_admin.c is Admin/Exec (ena_admin_exec_locked), Admin/Setup (ena_admin_init,
-- ena_admin_fini), Admin/Events (ena_admin_aenq_poll), Admin/Stats and Admin/Invalidate;
-- src/ena_datapath.c is Admin/Queues (ena_admin_create_cq and its kin) and Admin/Hardware
-- (ena_ring_create_hw, ena_ring_destroy_hw). These two and Init, which is src/ena_init.c, take
-- ena_admin_exec_cmd as an argument, with the law of Admin/Client; Recovery is that function with the
-- recovery that it starts; Recovery/Calm is about its event handler where no
-- event is fatal, Recovery/Knot shows that it meets the law, and Recovery/Fixpoint that it
-- satisfies the recursion of the source. Recovery takes ena_rss_configure as an argument, and
-- Recovery/Driver puts the one of Rss/Configure there. Admin/Ensures has lemmas on early returns, and
-- Recovery/Agree, AgreeQueue and AgreeInit follow two ways to run commands through the code.
-- Llq is src/ena_llq.c: Llq/Push (ena_llq_tx_push) and Llq/Negotiate (ena_llq_negotiate); Llq/Written is
-- about the entry that a push writes. Device is src/ena_com.c.
-- Rss is the indirection table of src/ena_rss.c (ena_rss_query_ind_table_limits, ena_rss_set_ind_table);
-- its children: Setup is ena_rss_init and ena_rss_fini, Held their blocks, Table the table, Configure
-- ena_rss_configure with the commands of the key, the hash control and the table. Rss and Rss/Setup take
-- the answers of the device as parameters, Rss/Configure takes them from the admin queue.
-- Netdev is src/ena_netdev.c over the rings of Tx: Netdev/Classify (ena_netdev_classify_tx_pkt),
-- Netdev/Depth (ena_netdev_clamp_desc_count), Netdev/Configure (ena_netdev_txq_configure),
-- Netdev/Bounce (ena_netdev_txq_reclaim_slot and the slots of struct uk_netdev_tx_queue) and
-- Netdev/Transmit (ena_netdev_tx_one, ena_netdev_tx_xmit_one). A packet below 1 MiB is copied to a bounce
-- slot first, which its completion gives back; the callback works on the queue and the poll on the
-- ring, so the calls in the log of a poll are made after it. Netdev/Slots says that each slot is free or
-- held by one request, Linked ties the slots to the flags of the ring, Memory is about the bytes, and
-- Released and Fresh are about the blocks and the arrays of a configuration.
-- Netdev/Receive is ena_netdev_rx_one after its polls of the event and the transmit queue; its chain of
-- netbufs is a list, its allocator (ena_netbuf_alloc_helper) an argument. Rx/Laps is about polls in a row,
-- Netdev/Received about a call, Netdev/Landed about one packet of it, Netdev/Gathered about the packets that
-- make a frame, and Netdev/Follows about the ring between two polls.
-- Spsc is samples/httpreply-mc/spsc.h, IdleBackoff is samples/httpreply-mc/idlebackoff.h.
-- Tests has concrete rings and adapters on which the theorems are applied.
--
-- Numbers are natural numbers; a field of w bits is cut with `% 2 ^ w` where the source can wrap it.
-- Pointers are numbers with 0 for NULL, and arguments that the source tests for NULL first are taken
-- as not NULL, but for the buffers, queues and doorbells whose test is part of a branch. The driver is
-- taken as built for its target: little-endian, with netbufs freed by the library of that target.
-- What happens outside a ring (a netbuf freed, a callback, a register or a push buffer written) is a
-- log, the latest first. The two callbacks of a ring and the netbuf library only appear in the log;
-- Netdev/Bounce makes the calls of the transmit callback. A function that takes the ring lock is one
-- step, as is a receive of the netdev layer, and the device writes to a completion ring between the
-- steps, not within one. DMA and heap allocation is a heap of live
-- blocks with a parameter that says which request is granted; the allocator of a refill and the
-- status register of a reset are parameters too. Messages and printed statistics are left out.
--
-- The memory that the device writes to is a parameter, the record World: what each poll of a command
-- finds in the completion queue is any function of what was there. The admin lock has no field: a
-- section that holds it is one step. Out-pointers are stores into the rings, and a ring is read anew
-- after each command, since the recovery that a command starts may change it. Commands of a recovery
-- run with recover_active set, so they start no recovery: they are those of busy_exec.
--
-- Loops run on fuel. A poll has one round more than the completion queue has entries, which is
-- enough since it looks at no slot twice; a refill has one round more than there are free ids, since
-- each buffer that it posts takes one. A receive takes a completion in each round, and no slot twice.
--
-- Not modelled: the texts of the host information; of the netdev layer the two polls at the start
-- of ena_netdev_rx_one, the allocator of its refill, the configuration of receive queues, start and stop,
-- and the accessors; interrupts, PCI and platform code, the tests, and the
-- socket programs of the samples.
pub mod Prelude
pub mod Status
pub mod Ring
pub mod Tx
pub mod Rx
pub mod Llq
pub mod Rss
pub mod Admin
pub mod Init
pub mod Recovery
pub mod Netdev
pub mod Device
pub mod Spsc
pub mod IdleBackoff
mod Tests
