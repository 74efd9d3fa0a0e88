-- ===== src/Ibkr/Matched/Tests.antt =====
-- A reinvestment of ten shares that was allocated to a portfolio, and the dividend that paid for it.
use investment_portfolio_man.Base.{ℕ, ◌+◌, ◌*◌, ◌≡◌, refl, true, false, [], ◌∷◌, none}
use investment_portfolio_man.Base.Int.{pos}
use investment_portfolio_man.Float64.Micro.{Micro}
use investment_portfolio_man.Result.{ok}
use investment_portfolio_man.Model.{day, buy, pending, Dividend}
use investment_portfolio_man.Store.Tables.{Tables, IbkrStatus, stock}
use investment_portfolio_man.Store.Monad.{World, statement, query, exec, transact}
use investment_portfolio_man.Store.Triples.{Commits}
use investment_portfolio_man.Store.Repositories.{
  get_ibkr_transaction, get_portfolio_fund, get_ibkr_transaction_allocations,
}
use investment_portfolio_man.Store.Dividends.{get_dividend, update_dividend, update_dividend_row}
use investment_portfolio_man.Ibkr.{
  unique_from, collect_portfolio_ids_from_allocations, regenerate_portfolios,
  trigger_regen_from_allocations,
}
use investment_portfolio_man.Ibkr.Match.{
  get_allocation_details, match_loop, match_body, match_dividend,
}
use investment_portfolio_man.Ibkr.Matched.{AreReinvested, match_dividend-AreReinvested}

abbrev micro : ℕ → Micro
micro n = pos (n * 1_000_000)

abbrev unpaid : Dividend Micro
unpaid = record {
  id = 71;
  fund_id = 1;
  portfolio_fund_id = 5;
  record_date = 2 * day;
  ex_dividend_date = 2 * day;
  shares_owned = micro 40;
  dividend_per_share = pos 500_000;
  total_amount = micro 20;
  reinvestment_status = pending;
  buy_order_date = 0;
  reinvestment_transaction_id = 0;
  created_at = 2 * day;
}

abbrev tables : Tables Micro
tables = record {
  portfolios = record { id = 2; is_archived = false; exclude_from_overview = false } ∷ [];
  funds =
      record { id = 1; isin = 11; symbol = 13; symbol_root = 12; name = 14; dividend_type = stock }
      ∷ [];
  portfolio_funds = record { id = 5; portfolio_id = 2; fund_id = 1 } ∷ [];
  transactions =
      record {
        id = 21;
        portfolio_fund_id = 5;
        date = 3 * day;
        kind = buy;
        shares = micro 10;
        cost_per_share = micro 2;
        created_at = 9 * day;
      }
      ∷ [];
  realized = [];
  dividends = unpaid ∷ [];
  ibkr_transactions =
      record {
        id = 31;
        external_id = 61;
        transaction_date = 3 * day;
        symbol = 12;
        isin = 11;
        transaction_type = buy;
        quantity = micro 10;
        price = micro 2;
        total_amount = micro 20;
        fees = micro 1;
        status = IbkrStatus.processed;
        processed_at = none;
      }
      ∷ [];
  ibkr_allocations =
      record {
        id = 41;
        ibkr_transaction_id = 31;
        portfolio_id = 2;
        allocation_percentage = micro 100;
        allocated_amount = micro 20;
        allocated_shares = micro 10;
        transaction_id = 21;
        created_at = 9 * day;
      }
      ∷ [];
  ibkr_config = none;
  fund_prices = [];
  materialized = [];
}

abbrev healthy : World Micro
healthy = record {
  tables = tables;
  faults = [];
  now = 9 * day;
  uuid = λ n. 100 + n;
  drawn = 0;
  has_invalidator = true;
  jobs = [];
}

dividend_is_matched : (match_dividend 31 (71 ∷ []) healthy).0 ≡ ok tt
unfolding match_dividend match_body match_loop get_allocation_details get_ibkr_transaction transact
    statement query exec get_dividend get_portfolio_fund update_dividend update_dividend_row
    trigger_regen_from_allocations collect_portfolio_ids_from_allocations
    get_ibkr_transaction_allocations unique_from regenerate_portfolios
dividend_is_matched = refl

match_dividend-AreReinvested_example :
    Commits tables (λ u. AreReinvested 31 (71 ∷ []) tables) (match_dividend 31 (71 ∷ []) healthy)
match_dividend-AreReinvested_example = match_dividend-AreReinvested 31 (71 ∷ []) healthy (refl, tt)
