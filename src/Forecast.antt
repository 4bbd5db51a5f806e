-- ===== src/Forecast.antt =====
-- The cash-flow forecast (src/reports/cash_flow_forecast.rs).
pub mod Schedule
pub mod Project
pub mod Build
pub mod Balances
pub mod Forecasts
mod Tests
