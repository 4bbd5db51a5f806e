-- ===== src/Forecast/Tests.antt =====
-- The theorem on forecasts at a ledger with a weekly template, and tests of the dates.
use openaccounting.Prelude.{◌+◌, ◌-◌, ◌*◌, ◌/◌, ◌%◌, true, ◌≡◌, refl, none, some, [], ◌∷◌, map}
use openaccounting.Prelude.Int.{pos, ◌+ℤ◌, ◌-ℤ◌}
use openaccounting.Posting.Data.{debit, Posting, Txn, Db}
use openaccounting.Reports.Data.{Account}
use openaccounting.Forecast.Schedule.{Calendar, advance, materialize_forecast}
use openaccounting.Forecast.Project.{ForecastPoint, project}
use openaccounting.Forecast.Build.{Tables, build_forecast}
use openaccounting.Forecast.Forecasts.{IsForecast, build_forecast-IsForecast}

-- Twelve months of thirty days.
abbrev calendar : Calendar
calendar = record {
  year = λ d. d / 360;
  month = λ d. d % 360 / 30 + 1;
  day = λ d. d % 30 + 1;
  from_ymd_opt = λ y m d. some (360 * y + 30 * (m - 1) + (d - 1));
  first_of_month = λ y m. 360 * y + 30 * (m - 1);
}

abbrev cash : Account
cash = record {
  id = 3;
  ledger_id = 1;
  name = [];
  type_str = "ASSET";
  subtype_str = "CURRENT_ASSET";
}

abbrev deposit : Posting
deposit = record {
  id = 5;
  transaction_id = 4;
  account_id = 3;
  amount = 1000;
  direction = debit;
  memo = none;
  foreign_amount = none;
  foreign_currency = none;
  cost_center_id = none;
  project_id = none;
}

abbrev opening : Txn
opening = record {
  id = 4;
  ledger_id = 1;
  txn_date = 700;
  description = "opening";
  payee = none;
  reference = none;
  currency = "USD";
  kind = "standard";
  created_by = 1;
  reverses_id = none;
  number = none;
}

abbrev ledger_tables : Db
ledger_tables = record {
  ledgers = [];
  accounts = [];
  cost_centers = [];
  projects = [];
  closed_periods = [];
  fx_rates = [];
  transactions = opening ∷ [];
  postings = deposit ∷ [];
  posting_taxes = [];
  trigger_enabled = true;
  approvals = [];
  audit = [];
  events = [];
}

-- A hundred are paid each week.
abbrev tables : Tables
tables = record {
  db = ledger_tables;
  accounts = cash ∷ [];
  templates =
      record {
        id = 8;
        ledger_id = 1;
        description = "rent";
        payee = none;
        frequency = "weekly";
        next_date = 721;
        is_active = true;
      }
      ∷ [];
  template_postings =
      record { template_id = 8; account_id = 3; amount = 100; direction = "CREDIT" } ∷ [];
}

balances :
    map
      (λ (p : ForecastPoint). p.balance)
      (build_forecast (λ name. true) calendar tables 720 1 8).points
    ≡ pos 1000 ∷ pos 900 ∷ pos 900 ∷ pos 900 ∷ pos 900 ∷ pos 900 ∷ pos 900 ∷ pos 900 ∷ pos 800 ∷ []
unfolding build_forecast project materialize_forecast ◌+ℤ◌ ◌-ℤ◌
balances = refl

end_of_month : advance calendar (720 + 29) "monthly" 1 ≡ 720 + 59
unfolding advance
end_of_month = refl

build_forecast-IsForecast_example :
    IsForecast 720 (build_forecast (λ name. true) calendar tables 720 1 8)
build_forecast-IsForecast_example = build_forecast-IsForecast (λ name. true) calendar tables 720 1 8
