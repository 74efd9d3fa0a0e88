-- ===== src/Dividends/Tests.antt =====
-- A database with one fund that pays in stock, and the theorems on dividends at it.
use investment_portfolio_man.Base.{
  ℕ, ◌+◌, ◌*◌, ◌≡◌, refl, true, false, List, [], ◌∷◌, Option, none, some, ◌==◌, Bool-cases, inl,
  inr,
}
use investment_portfolio_man.Base.Int.{pos}
use investment_portfolio_man.Float64.{◌+f◌, nought, round}
use investment_portfolio_man.Float64.Micro.{Micro, micro_float}
use investment_portfolio_man.Model.{
  day, Transaction, dividend, buy, Dividend, ReinvestmentStatus, completed, partial,
}
use investment_portfolio_man.Result.{Result, ok, err, constraint}
use investment_portfolio_man.Store.Tables.{Tables, stock}
use investment_portfolio_man.Store.Monad.{
  World, statement, query, exec, new_uuid, get_now, transact, regenerate,
}
use investment_portfolio_man.Store.Triples.{Commits}
use investment_portfolio_man.Store.Effects.{insert_transaction_row}
use investment_portfolio_man.Store.Repositories.{insert_transaction}
use investment_portfolio_man.Store.Dividends.{
  get_portfolio_fund_listing, listing, get_shares_on_date, shares_on, insert_dividend,
  insert_dividend_row,
}
use investment_portfolio_man.Dividends.{
  CreateDividendRequest, UpdateDividendRequest, DividendFund, dividend_to_fund, reinvest,
  apply_reinvestment, create_reinvestment_transaction, reinvestment_transaction,
}
use investment_portfolio_man.Dividends.Methods.{
  new_dividend, create_dividend, create_dividend_body, update_dividend_of, delete_dividend_of,
}
use investment_portfolio_man.Dividends.Kept.{IsSound}
use investment_portfolio_man.Dividends.Bodies.{IsGone}
use investment_portfolio_man.Dividends.Atomic.{
  IsCreated, IsUpdated, create_dividend-Commits, update_dividend_of-Commits,
  delete_dividend_of-Commits,
}
use investment_portfolio_man.Dividends.Refused.{delete_dividend_of-refused}

abbrev micro : ℕ → Micro
micro n = pos (n * 1_000_000)

abbrev total : List Micro → Micro
total [] = nought
total (x ∷ xs) = x +f total xs

-- The reinvestment of a dividend.
abbrev reinvestment : Transaction Micro
reinvestment = record {
  id = 41;
  portfolio_fund_id = 5;
  date = 4 * day;
  kind = dividend;
  shares = micro 2;
  cost_per_share = micro 3;
  created_at = 4 * day;
}

abbrev purchase : Transaction Micro
purchase = record reinvestment { id = 21; kind = buy; date = 2 * day; shares = micro 12 }

abbrev paid : Dividend Micro
paid = record {
  id = 61;
  fund_id = 1;
  portfolio_fund_id = 5;
  record_date = 3 * day;
  ex_dividend_date = 3 * day;
  shares_owned = micro 12;
  dividend_per_share = pos 500_000;
  total_amount = micro 6;
  reinvestment_status = completed;
  buy_order_date = 4 * day;
  reinvestment_transaction_id = 41;
  created_at = 4 * day;
}

abbrev tables : Tables Micro
tables = record {
  portfolios = record { id = 2; is_archived = false; exclude_from_overview = false } ∷ [];
  funds =
      record { id = 1; isin = 11; symbol = 13; symbol_root = 12; name = 14; dividend_type = stock }
      ∷ [];
  portfolio_funds = record { id = 5; portfolio_id = 2; fund_id = 1 } ∷ [];
  transactions = purchase ∷ reinvestment ∷ [];
  realized = [];
  dividends = paid ∷ [];
  ibkr_transactions = [];
  ibkr_allocations = [];
  ibkr_config = none;
  fund_prices = [];
  materialized = [];
}

abbrev healthy : World Micro
healthy = record {
  tables = tables;
  faults = [];
  now = 9 * day;
  uuid = λ n. 100 + n;
  drawn = 0;
  has_invalidator = true;
  jobs = [];
}

tables-IsSound : IsSound tables
tables-IsSound = (
  λ i. elim (Bool-cases (21 == i)) [
    | inl e ↦ rw e refl
    | inr e ↦ elim (Bool-cases (41 == i)) [ inl e' ↦ rw (e, e') refl | inr e' ↦ rw (e, e') refl ]
  ],
  (refl, tt),
)

-- A quarter for each share, and three shares bought at one each.
abbrev request : CreateDividendRequest Micro
request = record {
  portfolio_fund_id = 5;
  record_date = some (6 * day);
  ex_dividend_date = some (6 * day);
  dividend_per_share = pos 250_000;
  buy_order_date = some (some (7 * day));
  reinvestment_shares = micro 3;
  reinvestment_price = micro 1;
}

abbrev no_change : UpdateDividendRequest Micro
no_change = record {
  portfolio_fund_id = none;
  record_date = none;
  ex_dividend_date = none;
  dividend_per_share = none;
  buy_order_date = none;
  reinvestment_shares = none;
  reinvestment_price = none;
}

create_dividend-Commits_example :
    Commits tables (IsCreated request) (create_dividend total request healthy)
create_dividend-Commits_example = create_dividend-Commits total request healthy tables-IsSound

update_dividend_of-Commits_example :
    Commits tables (IsUpdated 61 paid no_change) (update_dividend_of total 61 no_change healthy)
update_dividend_of-Commits_example =
    update_dividend_of-Commits total 61 no_change paid healthy tables-IsSound refl

delete_dividend_of-Commits_example :
    Commits tables (λ u. IsGone 61 41) (delete_dividend_of 61 healthy)
delete_dividend_of-Commits_example = delete_dividend_of-Commits 61 paid healthy tables-IsSound refl

-- A second dividend that the same transaction reinvests.
abbrev shared : World Micro
shared = record healthy {
  tables = record tables { dividends = paid ∷ record paid { id = 62 } ∷ [] };
}

delete_dividend_of-refused_example : delete_dividend_of 61 shared ≡ (err constraint, shared)
delete_dividend_of-refused_example =
    delete_dividend_of-refused paid shared refl refl refl refl refl refl

-- Fourteen shares earn 3.50, of which 3 are reinvested: in part.
abbrev status_of : Result (DividendFund Micro) → Option ReinvestmentStatus
status_of (ok a) = some a.dividend.reinvestment_status
status_of (err e) = none

reinvested_in_part : status_of (create_dividend total request healthy).0 ≡ some partial
unfolding create_dividend create_dividend_body apply_reinvestment reinvest
    create_reinvestment_transaction reinvestment_transaction new_dividend dividend_to_fund
    get_portfolio_fund_listing listing get_shares_on_date shares_on insert_dividend
    insert_dividend_row insert_transaction insert_transaction_row statement query exec new_uuid
    get_now transact regenerate round
reinvested_in_part = refl
