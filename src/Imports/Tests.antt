-- ===== src/Imports/Tests.antt =====
-- Two small files, imported, and the theorems on imports there. Fields are separated by commas,
-- dates are numbers of days, and numbers are whole.
use investment_portfolio_man.Base.{
  ℕ, ◌+◌, ◌*◌, ◌-◌, ◌<◌, ◌≡◌, refl, true, false, List, [], ◌∷◌, ◌++◌, Option, none, some, ◌==◌,
  if◌then◌else◌,
}
use investment_portfolio_man.Base.Int.{pos}
use investment_portfolio_man.Float64.Micro.{Micro, micro_float}
use investment_portfolio_man.Result.{ok}
use investment_portfolio_man.Model.{day}
use investment_portfolio_man.Store.Tables.{Tables, stock}
use investment_portfolio_man.Store.Monad.{
  World, query, statement, transact, new_uuid, get_now, exec, regenerate,
}
use investment_portfolio_man.Store.Effects.{insert_transaction_row}
use investment_portfolio_man.Store.Repositories.{get_portfolio_fund, insert_transaction}
use investment_portfolio_man.Store.Prices.{get_fund, update_fund_price, upsert_fund_price_row}
use investment_portfolio_man.Store.Triples.{Commits}
use investment_portfolio_man.Csv.{
  Text, Parsers, Records, date_header, price_header, type_header, shares_header,
  cost_per_share_header, parse_csv, read_price_row, validate_transaction_row,
}
use investment_portfolio_man.Imports.{
  import_fund_prices, import_prices_loop, import_transactions, import_transactions_loop,
}
use investment_portfolio_man.Imports.Prices.{ArePrices, import_fund_prices-ArePrices}
use investment_portfolio_man.Imports.Transactions.{
  AreTransactions, import_transactions-AreTransactions,
}

abbrev with_first : ℕ → List Text → List Text
with_first c [] = (c ∷ []) ∷ []
with_first c (t ∷ ts) = (c ∷ t) ∷ ts

abbrev split_at : ℕ → List ℕ → List Text
split_at separator [] = [] ∷ []
split_at separator (c ∷ cs) =
    if c == separator then [] ∷ split_at separator cs else with_first c (split_at separator cs)

abbrev fields_of : List Text → List (List Text)
fields_of [] = []
fields_of (line ∷ lines) = split_at 44 line ∷ fields_of lines

abbrev number_loop : Text → ℕ → ℕ
number_loop [] n = n
number_loop (c ∷ cs) n = number_loop cs (n * 10 + (c - 48))

abbrev number_of : Text → Option ℕ
number_of [] = none
number_of (c ∷ cs) = some (number_loop (c ∷ cs) 0)

abbrev scaled : {A : Type 0} → (ℕ → A) → Option ℕ → Option A
scaled f none = none
scaled f (some n) = some (f n)

abbrev parsers : Parsers Micro
parsers = record {
  read_all = λ content. ok (fields_of (split_at 10 content));
  date_of = λ cs. scaled (λ n. n * day) (number_of cs);
  float_of = λ cs. scaled (λ n. pos (n * 1_000_000)) (number_of cs);
}

-- With a byte order mark, a space and a capital: two prices for the third day.
abbrev price_file : List ℕ
price_file =
    239 ∷ 187 ∷ 191 ∷ 68 ∷ 97 ∷ 116 ∷ 101 ∷ 44 ∷ 32 ∷ price_header
    ++ 10 ∷ 51 ∷ 44 ∷ 53 ∷ 10 ∷ 51 ∷ 44 ∷ 55 ∷ []

abbrev price_records : Records
price_records = record {
  headers = date_header ∷ price_header ∷ [];
  rows = ((51 ∷ []) ∷ (53 ∷ []) ∷ []) ∷ ((51 ∷ []) ∷ (55 ∷ []) ∷ []) ∷ [];
}

abbrev transaction_file : List ℕ
transaction_file =
    date_header
    ++ 44 ∷ type_header
    ++ 44 ∷ shares_header
    ++ 44 ∷ cost_per_share_header
    ++ 10 ∷ 51 ∷ 44 ∷ 66 ∷ 117 ∷ 121 ∷ 44 ∷ 53 ∷ 44 ∷ 50 ∷ []

abbrev transaction_records : Records
transaction_records = record {
  headers = date_header ∷ type_header ∷ shares_header ∷ cost_per_share_header ∷ [];
  rows = ((51 ∷ []) ∷ (66 ∷ 117 ∷ 121 ∷ []) ∷ (53 ∷ []) ∷ (50 ∷ []) ∷ []) ∷ [];
}

abbrev tables : Tables Micro
tables = record {
  portfolios = record { id = 2; is_archived = false; exclude_from_overview = false } ∷ [];
  funds =
      record { id = 1; isin = 11; symbol = 13; symbol_root = 12; name = 14; dividend_type = stock }
      ∷ [];
  portfolio_funds = record { id = 5; portfolio_id = 2; fund_id = 1 } ∷ [];
  transactions = [];
  realized = [];
  dividends = [];
  ibkr_transactions = [];
  ibkr_allocations = [];
  ibkr_config = none;
  fund_prices = [];
  materialized = [];
}

abbrev healthy : World Micro
healthy = record {
  tables = tables;
  faults = [];
  now = 5 * day;
  uuid = λ n. 100 + n;
  drawn = 0;
  has_invalidator = true;
  jobs = [];
}

prices_are_read : (import_fund_prices parsers 1 price_file healthy).0 ≡ ok 2
unfolding import_fund_prices get_fund query statement parse_csv transact import_prices_loop
    read_price_row new_uuid update_fund_price exec upsert_fund_price_row regenerate
prices_are_read = refl

transaction_is_read : (import_transactions parsers 5 transaction_file healthy).0 ≡ ok 1
unfolding import_transactions get_portfolio_fund query statement parse_csv transact
    import_transactions_loop validate_transaction_row new_uuid get_now insert_transaction exec
    insert_transaction_row regenerate
transaction_is_read = refl

price_file-parsed : parse_csv parsers price_file ≡ ok price_records
unfolding parse_csv
price_file-parsed = refl

transaction_file-parsed : parse_csv parsers transaction_file ≡ ok transaction_records
unfolding parse_csv
transaction_file-parsed = refl

import_fund_prices-ArePrices_example :
    Commits tables
      (λ n t.
        ArePrices parsers 1 1 (3 * day) price_records.headers price_records.rows 0 tables n t
        × (0 < n))
      (import_fund_prices parsers 1 price_file healthy)
import_fund_prices-ArePrices_example =
    import_fund_prices-ArePrices parsers 1 1 (3 * day) price_file price_records healthy
      price_file-parsed

import_transactions-AreTransactions_example :
    Commits tables
      (λ n t.
        AreTransactions parsers 5 transaction_records.headers transaction_records.rows 0 tables n t
        × (0 < n))
      (import_transactions parsers 5 transaction_file healthy)
import_transactions-AreTransactions_example =
    import_transactions-AreTransactions parsers 5 transaction_file transaction_records healthy
      transaction_file-parsed
