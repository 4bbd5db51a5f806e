-- ===== src/Fx.antt =====
-- Foreign-exchange rates (src/domain/fx.rs): the lookup of the applicable rate and the derivation
-- of a base-currency amount, rounded half away from zero to cents.
pub mod Rates
pub mod Convert
pub mod Rounding
pub mod Lookup
mod Tests
pub use Rates.{FxRate, FxError, lookup}
unfoldable pub use Convert.{derive_base_amount}
