-- ===== src/Prices/Tests.antt =====
-- A fund bought on the third day of 1970, and the theorems on its prices.
use investment_portfolio_man.Base.{
  ℕ, ◌+◌, ◌*◌, ◌≡◌, refl, true, false, [], ◌∷◌, map, some, none, arith,
}
use investment_portfolio_man.Base.Int.{pos}
use investment_portfolio_man.Float64.Micro.{Micro, micro_float}
use investment_portfolio_man.Result.{ok}
use investment_portfolio_man.Model.{Time, day, buy}
use investment_portfolio_man.Store.Tables.{Tables, stock}
use investment_portfolio_man.Store.Monad.{World}
use investment_portfolio_man.Store.Triples.{Commits}
use investment_portfolio_man.Yahoo.{
  Quote, ChartResult, PriceChart, unix, parse_chart, indicators_loop, indicator_at,
}
use investment_portfolio_man.Yahoo.Chart.{close_of, parse_chart-closed}
use investment_portfolio_man.Prices.{update_current_fund_price, update_historical_fund_price}
use investment_portfolio_man.Prices.Current.{Outcome, update_current_fund_price-Commits}
use investment_portfolio_man.Prices.Backfill.{
  IsBackfilled, past_days, update_historical_fund_price-IsBackfilled,
}

abbrev micro : ℕ → Micro
micro n = pos (n * 1_000_000)

-- Days of 1970.
abbrev date_of : ℕ → Time
date_of n = 719_162 * day + n * day

abbrev quote : Quote Micro
quote = record {
  open_prices = some (micro 1) ∷ none ∷ some (micro 3) ∷ some (micro 4) ∷ [];
  close_prices = some (micro 2) ∷ none ∷ some (micro 3) ∷ some (micro 5) ∷ [];
  volumes = some (pos 7) ∷ none ∷ none ∷ none ∷ [];
  high_prices = some (micro 2) ∷ none ∷ some (micro 3) ∷ some (micro 5) ∷ [];
  low_prices = some (micro 1) ∷ none ∷ some (micro 3) ∷ some (micro 4) ∷ [];
}

-- Prices at noon of the third to the sixth day, the second of them missing.
abbrev chart_result : ChartResult Micro
chart_result = record {
  meta = record {
    currency = 1;
    symbol = 13;
    exchange_name = 2;
    full_exchange_name = 3;
    long_name = 4;
    short_name = 5;
  };
  timestamps = 216_000 ∷ 302_400 ∷ 388_800 ∷ 475_200 ∷ [];
  quotes = quote ∷ [];
}

abbrev tables : Tables Micro
tables = record {
  portfolios = record { id = 2; is_archived = false; exclude_from_overview = false } ∷ [];
  funds =
      record { id = 1; isin = 11; symbol = 13; symbol_root = 12; name = 14; dividend_type = stock }
      ∷ [];
  portfolio_funds = record { id = 5; portfolio_id = 2; fund_id = 1 } ∷ [];
  transactions =
      record {
        id = 21;
        portfolio_fund_id = 5;
        date = date_of 2;
        kind = buy;
        shares = micro 10;
        cost_per_share = micro 2;
        created_at = date_of 2;
      }
      ∷ [];
  realized = [];
  dividends = [];
  ibkr_transactions = [];
  ibkr_allocations = [];
  ibkr_config = none;
  fund_prices = record { id = 51; fund_id = 1; date = date_of 2; price = micro 2 } ∷ [];
  materialized = [];
}

-- In the morning of the sixth day, for which the chart's price is not final.
abbrev healthy : World Micro
healthy = record {
  tables = tables;
  faults = [];
  now = date_of 5 + 7;
  uuid = λ n. 100 + n;
  drawn = 0;
  has_invalidator = true;
  jobs = [];
}

abbrev chart : PriceChart Micro
chart = record {
  meta = chart_result.meta;
  indicators =
      record {
        date = unix 216_000;
        price_open = micro 1;
        price_close = micro 2;
        volume = pos 7;
        price_high = micro 2;
        price_low = micro 1;
      }
      ∷ record {
        date = unix 388_800;
        price_open = micro 3;
        price_close = micro 3;
        volume = pos 0;
        price_high = micro 3;
        price_low = micro 3;
      }
      ∷ [];
}

parsed_chart : parse_chart (date_of 5 + 7) (chart_result ∷ []) ≡ ok chart
unfolding parse_chart indicators_loop indicator_at
parsed_chart = refl

parse_chart-closed_example :
    (c : PriceChart Micro) × (parse_chart (date_of 5 + 7) (chart_result ∷ []) ≡ ok c)
    × (map close_of c.indicators ≡ (unix 216_000, micro 2) ∷ (unix 388_800, micro 3) ∷ [])
parse_chart-closed_example =
    parse_chart-closed (date_of 5 + 7) chart_result [] quote [] (omega arith) refl
      (refl, omega arith, omega arith, omega arith, omega arith)

update_current_fund_price-Commits_example :
    Commits tables
      (λ u t. Outcome (date_of 5 + 7) 1 tables u.inserted u.fund_price t)
      (update_current_fund_price (λ symbol. ok (chart_result ∷ [])) 1 healthy)
update_current_fund_price-Commits_example =
    update_current_fund_price-Commits (λ symbol. ok (chart_result ∷ [])) 1 healthy (omega arith)

update_historical_fund_price-IsBackfilled_example :
    Commits tables
      (IsBackfilled 1 chart (past_days 1 tables (date_of 5 + 7)) tables)
      (update_historical_fund_price (λ symbol from to. ok (chart_result ∷ [])) 1 healthy)
update_historical_fund_price-IsBackfilled_example =
    update_historical_fund_price-IsBackfilled (λ symbol from to. ok (chart_result ∷ [])) 1 healthy
      (record {
        id = 1;
        isin = 11;
        symbol = 13;
        symbol_root = 12;
        name = 14;
        dividend_type = stock;
      })
      (chart_result ∷ []) chart refl refl parsed_chart
