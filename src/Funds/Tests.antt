-- ===== src/Funds/Tests.antt =====
-- A portfolio with a sale and a reinvested dividend, deleted, and the theorem on deletions there.
use investment_portfolio_man.Base.{ℕ, ◌+◌, ◌*◌, ◌≡◌, refl, true, false, [], ◌∷◌, none}
use investment_portfolio_man.Base.Int.{pos}
use investment_portfolio_man.Float64.Micro.{Micro, micro_float}
use investment_portfolio_man.Result.{err, fund_in_use}
use investment_portfolio_man.Model.{day, buy, sell}
use investment_portfolio_man.Store.Tables.{Tables, stock}
use investment_portfolio_man.Store.Monad.{World, transact, statement, query}
use investment_portfolio_man.Ibkr.{unique_from}
use investment_portfolio_man.Store.Triples.{Commits}
use investment_portfolio_man.Store.Prices.{get_fund}
use investment_portfolio_man.Funds.{
  delete_portfolio_of, delete_portfolio_fund_of, delete_fund_of, delete_fund_body, get_usage,
}
use investment_portfolio_man.Funds.Deleted.{IsReferential}
use investment_portfolio_man.Funds.Referential.{deletions-IsReferential}

abbrev micro : ℕ → Micro
micro n = pos (n * 1_000_000)

abbrev tables : Tables Micro
tables = record {
  portfolios = record { id = 2; is_archived = false; exclude_from_overview = false } ∷ [];
  funds =
      record { id = 1; isin = 11; symbol = 13; symbol_root = 12; name = 14; dividend_type = stock }
      ∷ [];
  portfolio_funds = record { id = 5; portfolio_id = 2; fund_id = 1 } ∷ [];
  transactions =
      record {
        id = 21;
        portfolio_fund_id = 5;
        date = day;
        kind = buy;
        shares = micro 10;
        cost_per_share = micro 2;
        created_at = day;
      }
      ∷ record {
        id = 22;
        portfolio_fund_id = 5;
        date = 2 * day;
        kind = sell;
        shares = micro 4;
        cost_per_share = micro 3;
        created_at = 2 * day;
      }
      ∷ [];
  realized =
      record {
        id = 31;
        portfolio_id = 2;
        fund_id = 1;
        transaction_id = 22;
        transaction_date = 2 * day;
        shares_sold = micro 4;
        cost_basis = micro 8;
        sale_proceeds = micro 12;
        realized_gain_loss = micro 4;
        created_at = 2 * day;
      }
      ∷ [];
  dividends = [];
  ibkr_transactions = [];
  ibkr_allocations = [];
  ibkr_config = none;
  fund_prices = record { id = 51; fund_id = 1; date = day; price = micro 2 } ∷ [];
  materialized = [];
}

abbrev healthy : World Micro
healthy = record {
  tables = tables;
  faults = [];
  now = 5 * day;
  uuid = λ n. 100 + n;
  drawn = 0;
  has_invalidator = true;
  jobs = [];
}

tables-IsReferential : IsReferential tables
tables-IsReferential = record {
  portfolio_funds = ((refl, refl), tt);
  transactions = (refl, (refl, tt));
  dividends = tt;
  realized = ((refl, refl, refl), tt);
  allocations = tt;
  prices = (refl, tt);
  materialized = tt;
}

-- The fund is in use, and goes on being there.
fund_stays : (delete_fund_of 1 healthy).0 ≡ err fund_in_use
unfolding delete_fund_of delete_fund_body get_usage get_fund transact statement query unique_from
fund_stays = refl

deletions-IsReferential_example :
    Commits tables (λ (u : Unit {0}). IsReferential) (delete_portfolio_of 2 healthy)
    × Commits tables (λ (u : Unit {0}). IsReferential) (delete_portfolio_fund_of 2 healthy)
    × Commits tables (λ (u : Unit {0}). IsReferential) (delete_fund_of 2 healthy)
deletions-IsReferential_example = deletions-IsReferential 2 healthy tables-IsReferential
