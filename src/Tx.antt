-- ===== src/Tx.antt =====
-- The transmit path of a ring: src/ena_tx.c. A call runs as one step, as under the ring lock, and
-- the completion ring is what the device has written when the call starts.
pub mod Submit
pub mod Poll
mod Deferred
pub mod Held
pub mod Inv
pub mod Complete
pub mod Accept
pub mod Round
pub mod Drain
pub mod Bound
pub mod Serve
pub mod Fresh
