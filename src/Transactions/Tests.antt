-- ===== src/Transactions/Tests.antt =====
-- A database with one purchase, and the theorems on transactions at it.
use investment_portfolio_man.Base.{
  ℕ, ◌+◌, ◌*◌, ◌≡◌, refl, true, false, List, [], ◌∷◌, none, some, ◌==◌, Bool-cases, inl, inr,
}
use investment_portfolio_man.Base.Int.{pos}
use investment_portfolio_man.Float64.Micro.{Micro, micro_float}
use investment_portfolio_man.Model.{day, Transaction, RealizedGainLoss, buy, sell, PortfolioFund}
use investment_portfolio_man.Result.{ok, err, insufficient_shares}
use investment_portfolio_man.Store.Tables.{Tables, stock}
use investment_portfolio_man.Store.Monad.{
  World, statement, query, exec, new_uuid, get_now, transact, regenerate,
}
use investment_portfolio_man.Store.Triples.{Commits}
use investment_portfolio_man.Store.Effects.{insert_transaction_row, insert_realized_row}
use investment_portfolio_man.Store.Repositories.{
  get_portfolio_fund, insert_transaction, insert_realized_gain_loss,
  get_transactions_by_portfolio_fund_id, transactions_of,
}
use investment_portfolio_man.Transactions.{
  CreateTransactionRequest, regen_job, UpdateTransactionRequest, create_transaction, create_body,
  create_realized_gain_loss, update_transaction_of, delete_transaction_of, position_loop, hold,
  calculate_current_position, realized_gain, new_transaction,
}
use investment_portfolio_man.Transactions.Matched.{IsMatched}
use investment_portfolio_man.Transactions.Atomic.{
  create_transaction-Commits, update_transaction_of-Commits, delete_transaction_of-Commits,
}
use investment_portfolio_man.Transactions.Sales.{create_transaction-created}

abbrev micro : ℕ → Micro
micro n = pos (n * 1_000_000)

-- Ten shares at 2 each, bought on the third day.
abbrev purchase : Transaction Micro
purchase = record {
  id = 21;
  portfolio_fund_id = 5;
  date = 3 * day;
  kind = buy;
  shares = micro 10;
  cost_per_share = micro 2;
  created_at = 3 * day;
}

abbrev holding_fund : PortfolioFund
holding_fund = record { id = 5; portfolio_id = 2; fund_id = 1 }

abbrev bought : Tables Micro
bought = record {
  portfolios =
      record { id = 2; is_archived = false; exclude_from_overview = false }
      ∷ record { id = 3; is_archived = false; exclude_from_overview = false }
      ∷ [];
  funds =
      record { id = 1; isin = 11; symbol = 13; symbol_root = 12; name = 14; dividend_type = stock }
      ∷ [];
  portfolio_funds = holding_fund ∷ [];
  transactions = purchase ∷ [];
  realized = [];
  dividends = [];
  ibkr_transactions = [];
  ibkr_allocations = [];
  ibkr_config = none;
  fund_prices = [];
  materialized = [];
}

abbrev healthy : World Micro
healthy = record {
  tables = bought;
  faults = [];
  now = 9 * day;
  uuid = λ n. 100 + n;
  drawn = 0;
  has_invalidator = true;
  jobs = [];
}

abbrev sale_request : ℕ → CreateTransactionRequest Micro
sale_request n = record {
  portfolio_fund_id = 5;
  date = some (6 * day);
  kind = sell;
  shares = micro n;
  cost_per_share = micro 3;
}

abbrev no_change : UpdateTransactionRequest Micro
no_change = record {
  portfolio_fund_id = none;
  date = none;
  kind = none;
  shares = none;
  cost_per_share = none;
}

bought-IsMatched : IsMatched bought
bought-IsMatched i = elim (Bool-cases (21 == i)) [ inl e ↦ rw e refl | inr e ↦ rw e refl ]

-- A sale of four of the ten shares.
abbrev sale : Transaction Micro
sale = record {
  id = 22;
  portfolio_fund_id = 5;
  date = 6 * day;
  kind = sell;
  shares = micro 4;
  cost_per_share = micro 3;
  created_at = 9 * day;
}

abbrev with_sale : World Micro
with_sale = record healthy { tables = record bought { transactions = purchase ∷ sale ∷ [] } }

create_transaction-Commits_example :
    Commits bought (λ x. IsMatched) (create_transaction (sale_request 4) healthy)
create_transaction-Commits_example =
    create_transaction-Commits (sale_request 4) healthy bought-IsMatched

update_transaction_of-Commits_example :
    Commits bought (λ x. IsMatched) (update_transaction_of 21 no_change healthy)
update_transaction_of-Commits_example =
    update_transaction_of-Commits 21 no_change healthy bought-IsMatched

delete_transaction_of-Commits_example :
    Commits bought (λ x. IsMatched) (delete_transaction_of 21 healthy)
delete_transaction_of-Commits_example = delete_transaction_of-Commits 21 healthy bought-IsMatched

-- Ten shares for 20 are held; four of them cost 8 and bring 12.
abbrev sold_row : RealizedGainLoss Micro
sold_row = record {
  id = 100;
  portfolio_id = 2;
  fund_id = 1;
  transaction_id = 22;
  transaction_date = 6 * day;
  shares_sold = micro 4;
  cost_basis = micro 8;
  sale_proceeds = micro 12;
  realized_gain_loss = micro 4;
  created_at = 9 * day;
}

abbrev purchase_request : CreateTransactionRequest Micro
purchase_request = record (sale_request 4) { kind = buy }

abbrev second_purchase : Transaction Micro
second_purchase = record sale { id = 100; kind = buy }

create_transaction-created_example : create_transaction purchase_request healthy ≡ (
  ok second_purchase,
  record healthy {
    tables = record bought { transactions = purchase ∷ second_purchase ∷ [] };
    drawn = 1;
    jobs = regen_job (6 * day) 5 ∷ [];
  },
)
unfolding regen_job
create_transaction-created_example =
    create_transaction-created purchase_request healthy refl refl refl (λ e. cc e)

-- The same sale through the whole method: it succeeds, its gain is 12 less 8, and one regeneration is
-- asked for.
abbrev recorded_gains : List (RealizedGainLoss Micro) → List Micro
recorded_gains [] = []
recorded_gains (r ∷ rs) = r.realized_gain_loss ∷ recorded_gains rs

sold_four :
    recorded_gains (create_transaction (sale_request 4) healthy).1.tables.realized ≡ micro 4 ∷ []
unfolding create_transaction create_body create_realized_gain_loss transact statement query exec
    new_uuid get_now regenerate get_portfolio_fund insert_transaction insert_realized_gain_loss
    insert_transaction_row insert_realized_row get_transactions_by_portfolio_fund_id transactions_of
    calculate_current_position position_loop hold realized_gain new_transaction
sold_four = refl

-- Eleven shares are too many, and nothing is left of the attempt.
sold_eleven :
    create_transaction (sale_request 11) healthy
    ≡ (err insufficient_shares, record healthy { drawn = 1 })
unfolding create_transaction create_body create_realized_gain_loss transact statement query exec
    new_uuid get_now regenerate get_portfolio_fund insert_transaction insert_realized_gain_loss
    insert_transaction_row insert_realized_row get_transactions_by_portfolio_fund_id transactions_of
    calculate_current_position position_loop hold realized_gain new_transaction
sold_eleven = refl
