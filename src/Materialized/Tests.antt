-- ===== src/Materialized/Tests.antt =====
-- A materialized table of two portfolio-funds, and the theorems on it.
use investment_portfolio_man.Base.{
  ℕ, ◌+◌, ◌*◌, ◌≡◌, refl, true, false, List, [], ◌∷◌, none, map, arith,
}
use investment_portfolio_man.Base.Int.{pos}
use investment_portfolio_man.Float64.Micro.{Micro, micro_float}
use investment_portfolio_man.Model.{
  Time, day, Transaction, buy, FundHistoryEntry, FundHistoryResponse,
}
use investment_portfolio_man.Result.{ok}
use investment_portfolio_man.Store.Tables.{Tables, MaterializedRow, stock}
use investment_portfolio_man.Store.Monad.{World, statement, query, transact}
use investment_portfolio_man.Store.Triples.{Commits}
use investment_portfolio_man.Ibkr.{unique_from}
use investment_portfolio_man.Materialized.{
  history_rows, materialized_row, insert_ordered, order_by, insert_named, order_named, group_from,
}
use investment_portfolio_man.Materialized.Stale.{
  check_stale_data, get_latest_materialized_date, get_latest_source_dates, coverage, source_dates,
  stale_against,
}
use investment_portfolio_man.Materialized.Stale.Fresh.{IsFresh, check_stale_data-IsFresh}
use investment_portfolio_man.Materialized.Regenerate.{dated, flatten, regenerate_body}
use investment_portfolio_man.Materialized.Replaced.{replaced_rows, regenerate_body-replaced_rows}
use investment_portfolio_man.Materialized.Read.{
  by_date, format_fund_history_from_materialized, responses, get_fund_history_materialized,
}
use investment_portfolio_man.Materialized.Fallback.{
  Served, serve_cached, unless_stale, get_fund_history_with_fallback,
}
use investment_portfolio_man.Materialized.Fallback.Sources.{
  HasSource, get_fund_history_with_fallback-HasSource,
}
use investment_portfolio_man.Materialized.Read.Back.{dated_response, format-flatten}
use investment_portfolio_man.Materialized.Read.Refined.{regenerate_body-read}

abbrev micro : ℕ → Micro
micro n = pos (n * 1_000_000)

abbrev entry : ℕ → ℕ → Time → FundHistoryEntry Micro
entry i pf date = record {
  id = i;
  portfolio_fund_id = pf;
  fund_id = 1;
  date = date;
  shares = micro 10;
  price = micro 2;
  value = micro 20;
  cost = micro 20;
  realized_gain = micro 0;
  unrealized_gain = micro 0;
  total_gain_loss = micro 0;
  dividends = micro 0;
  fees = micro 0;
  sale_proceeds = micro 0;
  original_cost = micro 0;
}

abbrev row : ℕ → ℕ → Time → MaterializedRow Micro
row i pf date = record { entry = entry i pf date; calculated_at = 5 * day }

abbrev purchase : Transaction Micro
purchase = record {
  id = 21;
  portfolio_fund_id = 5;
  date = 3 * day;
  kind = buy;
  shares = micro 10;
  cost_per_share = micro 2;
  created_at = 3 * day;
}

-- The portfolio 2 holds the fund as 5, the portfolio 3 as 6.
abbrev tables : Tables Micro
tables = record {
  portfolios =
      record { id = 2; is_archived = false; exclude_from_overview = false }
      ∷ record { id = 3; is_archived = false; exclude_from_overview = false }
      ∷ [];
  funds =
      record { id = 1; isin = 11; symbol = 13; symbol_root = 12; name = 14; dividend_type = stock }
      ∷ [];
  portfolio_funds =
      record { id = 5; portfolio_id = 2; fund_id = 1 }
      ∷ record { id = 6; portfolio_id = 3; fund_id = 1 }
      ∷ [];
  transactions = purchase ∷ [];
  realized = [];
  dividends = [];
  ibkr_transactions = [];
  ibkr_allocations = [];
  ibkr_config = none;
  fund_prices = [];
  materialized = row 71 5 (3 * day) ∷ row 72 5 (4 * day) ∷ row 73 6 (4 * day) ∷ [];
}

abbrev healthy : World Micro
healthy = record {
  tables = tables;
  faults = [];
  now = 9 * day;
  uuid = λ n. 100 + n;
  drawn = 0;
  has_invalidator = true;
  jobs = [];
}

-- Two days from the fourth on.
abbrev history : List (FundHistoryResponse Micro)
history =
    record { date = 4 * day; funds = entry 81 5 0 ∷ [] }
    ∷ record { date = 5 * day; funds = entry 82 5 0 ∷ [] }
    ∷ []

-- The cache is fresh for a history up to the fourth day.
fresh_by_day_four : (check_stale_data (2 ∷ []) (4 * day) healthy).0 ≡ ok false
unfolding check_stale_data get_latest_materialized_date get_latest_source_dates coverage
    source_dates stale_against query statement
fresh_by_day_four = refl

check_stale_data-IsFresh_example : IsFresh (2 ∷ []) (4 * day) tables
check_stale_data-IsFresh_example = check_stale_data-IsFresh 2 [] (4 * day) healthy fresh_by_day_four

regenerate_body-replaced_rows_example :
    Commits tables
      (λ u t. (now : Time) × (t ≡ replaced_rows (4 * day) (flatten history) now tables))
      (transact (regenerate_body (4 * day) (flatten history)) healthy)
regenerate_body-replaced_rows_example =
    regenerate_body-replaced_rows (4 * day) (flatten history) healthy

format-flatten_example :
    format_fund_history_from_materialized (by_date (flatten history)) ≡ map dated_response history
format-flatten_example =
    format-flatten 0 history (omega arith, (λ e. cc), (omega arith, (λ e. cc), tt))

regenerate_body-read_example :
    Commits tables
      (λ u t.
        format_fund_history_from_materialized (by_date (history_rows 2 (4 * day) (9 * day) t))
        ≡ map dated_response history)
      (transact (regenerate_body (4 * day) (flatten history)) healthy)
unfolding flatten dated materialized_row unique_from
regenerate_body-read_example =
    regenerate_body-read 2 (4 * day) (9 * day) 0 history healthy
      (omega arith, (λ e. cc), (omega arith, (λ e. cc), tt))
      ((omega arith, tt), ((omega arith, tt), tt)) ((refl, refl), ((refl, refl), tt))
      (refl, (refl, tt))

-- What is read from the table for the third and the fourth day.
abbrev served : Served Micro
served = record {
  history =
      record { date = 3 * day; funds = entry 71 5 (3 * day) ∷ [] }
      ∷ record { date = 4 * day; funds = entry 72 5 (4 * day) ∷ [] }
      ∷ [];
  requested = none;
}

served_from_table : (get_fund_history_with_fallback 2 (3 * day) (4 * day) healthy).0 ≡ ok served
unfolding get_fund_history_with_fallback unless_stale serve_cached check_stale_data
    get_latest_materialized_date get_latest_source_dates coverage source_dates stale_against
    get_fund_history_materialized history_rows by_date format_fund_history_from_materialized
    responses order_named insert_named order_by insert_ordered group_from query statement
served_from_table = refl

get_fund_history_with_fallback-HasSource_example : HasSource 2 (3 * day) (4 * day) healthy served
get_fund_history_with_fallback-HasSource_example =
    get_fund_history_with_fallback-HasSource 2 (3 * day) (4 * day) healthy served_from_table
