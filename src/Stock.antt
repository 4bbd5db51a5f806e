-- ===== src/Stock.antt =====
-- Inventory valuation (src/domain/inventory_valuation.rs).
pub mod Valuation
pub mod Queue
pub mod Agreement
mod Tests
