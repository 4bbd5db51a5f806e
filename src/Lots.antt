-- ===== src/Lots.antt =====
-- Investment lots and their disposal in the order of acquisition (src/domain/investment_lot.rs).
pub mod Fifo
pub mod Open
pub mod Sold
pub mod Order
mod Tests
