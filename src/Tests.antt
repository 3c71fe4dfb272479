-- ===== src/Tests.antt =====
-- Concrete rings on which the theorems apply: queues of four entries, new, with a packet that the
-- device has completed, and with buffers posted; and an adapter with devices that answer, stay silent
-- or break.
pub mod Rings
pub mod Adapters
mod Pool
mod Transmit
mod Receive
mod Others
mod Queues
mod Recovering
mod Sending
mod Configuring
