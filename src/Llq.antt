-- ===== src/Llq.antt =====
-- The low latency queue: src/ena_llq.c. The rest of the negotiation is `Init`.
pub mod Push
pub mod Written
pub mod Pushed
pub mod Negotiate
