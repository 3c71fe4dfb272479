-- ===== src/Rx.antt =====
-- The receive path of a ring: src/ena_rx.c. A call runs as one step, as under the ring lock, and the
-- completion ring is what the device has written when the call starts. The summary that
-- CONFIG_LIBENA_VERBOSE_STATS prints is left out.
pub mod Queue
pub mod Submit
pub mod Refill
pub mod Poll
pub mod Inv
pub mod Round
pub mod Serve
pub mod Accept
pub mod Refilled
pub mod Laps
pub mod Fresh
