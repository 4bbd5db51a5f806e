-- ===== src/Fx/Rates.antt =====
-- The rate table and `lookup` (src/domain/fx.rs).
use openaccounting.Prelude.{
  ℕ, String, Bool, ◌&&◌, ◌||◌, Option, none, some, List, [], ◌∷◌, ltb, leb, ◌==◌, str_eq,
  if◌then◌else◌,
}
use openaccounting.Prelude.Results.{Result, ok, ◌>>=◌, ◌>>◌, fail_if, ok_or}
use openaccounting.Prelude.Foreign.{Decimal, Env}

-- A row of `fx_rates`. `rate` is NUMERIC(24,12), a whole number of 10 ^ -12.
pub record FxRate : Type 0 where
  pub base_currency : String
  pub quote_currency : String
  pub rate : ℕ
  pub rate_date : ℕ
  pub is_manual : Bool

pub data FxError : Type 0 where
  missing_rate : String → String → ℕ → FxError
  -- `Db`: the second query finds no row
  row_not_found : FxError

-- WHERE the pair stands either way round AND rate_date <= date
unfoldable pub applies : String → String → ℕ → FxRate → Bool
applies base quote date r =
    ((str_eq r.base_currency base && str_eq r.quote_currency quote)
      || (str_eq r.base_currency quote && str_eq r.quote_currency base))
    && leb r.rate_date date

-- ORDER BY rate_date DESC, manual first: does `a` stand before `b`?
unfoldable pub precedes : FxRate → FxRate → Bool
precedes a b = if a.rate_date == b.rate_date then a.is_manual else ltb b.rate_date a.rate_date

unfoldable pub prefer : FxRate → Option FxRate → FxRate
unfolding precedes
prefer r none = r
prefer r (some best) = if precedes best r then best else r

-- LIMIT 1; between rows that the order leaves tied, one of them.
unfoldable pub latest : String → String → ℕ → List FxRate → Option FxRate
unfolding applies prefer
latest base quote date [] = none
latest base quote date (r ∷ rs) =
    let best = latest base quote date rs in
    if applies base quote date r then some (prefer r best) else best

-- The rate of the row that the first query reads, as it is stored if the row that the second query
-- reads has the pair this way round, else its reciprocal.
unfoldable pub rate_of : Env → String → FxRate → FxRate → Decimal
rate_of env base r again =
    let stored : Decimal = record { mantissa = r.rate; scale = 12 } in
    if str_eq again.base_currency base then stored else env.reciprocal stored

-- The rate and the base currency of its row are read by two queries, so the table of each is an
-- argument: another call may insert a row in between, and the rows may come in another order.
unfoldable pub lookup :
    Env → List FxRate → List FxRate → String → String → ℕ → Result FxError Decimal
unfolding latest rate_of
lookup env first second base quote date =
    if str_eq base quote then ok (record { mantissa = 1; scale = 0 }) else do
      r ← ok_or (latest base quote date first) (missing_rate base quote date)
      fail_if (r.rate == 0) (missing_rate base quote date)
      again ← ok_or (latest base quote date second) row_not_found
      ok (rate_of env base r again)
