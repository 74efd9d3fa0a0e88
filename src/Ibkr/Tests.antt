-- ===== src/Ibkr/Tests.antt =====
-- A database with one imported transaction, and the theorems on allocations at it.
use investment_portfolio_man.Base.{
  ℕ, ◌+◌, ◌*◌, ◌≡◌, refl, true, false, List, [], ◌∷◌, none, arith, ◌==◌, Bool-cases, inl, inr,
}
use investment_portfolio_man.Base.Int.{pos}
use investment_portfolio_man.Float64.Micro.{Micro, micro_float}
use investment_portfolio_man.Float64.{round}
use investment_portfolio_man.Model.{day, buy, Transaction}
use investment_portfolio_man.Store.Tables.{
  Tables, IbkrTransaction, IbkrAllocation, IbkrStatus, AllocationEntry, stock,
}
use investment_portfolio_man.Store.Monad.{World, statement, query, exec, new_uuid, get_now}
use investment_portfolio_man.Store.Triples.{Commits}
use investment_portfolio_man.Store.Effects.{
  insert_transaction_row, insert_allocation_row, insert_portfolio_fund_row, update_status_row,
}
use investment_portfolio_man.Store.Repositories.{
  get_ibkr_transaction, get_fund_by_symbol_or_isin, get_portfolio_fund_by_portfolio_and_fund,
  insert_portfolio_fund, insert_transaction, insert_ibkr_transaction_allocation,
  update_ibkr_transaction_status,
}
use investment_portfolio_man.Ibkr.{
  unallocate_ibkr_transaction, ignore_ibkr_transaction, find_fund_by_isin_or_symbol,
}
use investment_portfolio_man.Ibkr.Allocate.{
  allocate_ibkr_transaction, allocate_ibkr_transaction_tx, modify_allocations,
  bulk_allocate_ibkr_transactions, allocate_loop, allocate_one, allocate_trade, allocate_fee,
  share_of, allocated_transaction, fee_transaction, allocation_of,
}
use investment_portfolio_man.Ibkr.Settled.{IsSettled}
use investment_portfolio_man.Ibkr.Atomic.{
  allocate_ibkr_transaction-Commits, unallocate_ibkr_transaction-Commits,
  modify_allocations-Commits, ignore_ibkr_transaction-Commits,
}
use investment_portfolio_man.Transactions.{delete_transaction_of}
use investment_portfolio_man.Ibkr.Reverted.{delete_transaction_of-IsSettled}
use investment_portfolio_man.Ibkr.Bulk.{IsReport, bulk_allocate_ibkr_transactions-IsReport}

abbrev micro : ℕ → Micro
micro n = pos (n * 1_000_000)

abbrev imported : IbkrTransaction Micro
imported = record {
  id = 31;
  external_id = 61;
  transaction_date = 3 * day;
  symbol = 12;
  isin = 11;
  transaction_type = buy;
  quantity = micro 10;
  price = micro 2;
  total_amount = micro 20;
  fees = micro 1;
  status = IbkrStatus.pending;
  processed_at = none;
}

abbrev inbox : Tables Micro
inbox = record {
  portfolios =
      record { id = 2; is_archived = false; exclude_from_overview = false }
      ∷ record { id = 3; is_archived = false; exclude_from_overview = false }
      ∷ [];
  funds =
      record { id = 1; isin = 11; symbol = 13; symbol_root = 12; name = 14; dividend_type = stock }
      ∷ [];
  portfolio_funds = [];
  transactions = [];
  realized = [];
  dividends = [];
  ibkr_transactions = imported ∷ [];
  ibkr_allocations = [];
  ibkr_config = none;
  fund_prices = [];
  materialized = [];
}

abbrev healthy : World Micro
healthy = record {
  tables = inbox;
  faults = [];
  now = 9 * day;
  uuid = λ n. 100 + n;
  drawn = 0;
  has_invalidator = true;
  jobs = [];
}

-- Three quarters for one portfolio, a quarter for another.
abbrev split : List (AllocationEntry Micro)
split =
    record { portfolio_id = 2; percentage = micro 75 }
    ∷ record { portfolio_id = 3; percentage = micro 25 }
    ∷ []

inbox-IsSettled : IsSettled inbox
inbox-IsSettled =
    ((λ i. elim (Bool-cases (31 == i)) [ inl e ↦ rw e refl | inr e ↦ rw e refl ]), λ x. omega arith)

allocate_ibkr_transaction-Commits_example :
    Commits inbox (λ u. IsSettled) (allocate_ibkr_transaction 31 split healthy)
allocate_ibkr_transaction-Commits_example =
    allocate_ibkr_transaction-Commits 31 split healthy inbox-IsSettled

modify_allocations-Commits_example :
    Commits inbox (λ u. IsSettled) (modify_allocations 31 split healthy)
modify_allocations-Commits_example = modify_allocations-Commits 31 split healthy inbox-IsSettled

unallocate_ibkr_transaction-Commits_example :
    Commits inbox (λ u. IsSettled) (unallocate_ibkr_transaction 31 healthy)
unallocate_ibkr_transaction-Commits_example =
    unallocate_ibkr_transaction-Commits 31 healthy inbox-IsSettled

ignore_ibkr_transaction-Commits_example :
    Commits inbox (λ u. IsSettled) (ignore_ibkr_transaction 31 healthy)
ignore_ibkr_transaction-Commits_example = ignore_ibkr_transaction-Commits 31 healthy inbox-IsSettled

-- There is no transaction 32.
bulk_allocate_ibkr_transactions-IsReport_example :
    IsReport
      (31 ∷ 32 ∷ [])
      split
      healthy
      (bulk_allocate_ibkr_transactions (31 ∷ 32 ∷ []) split healthy)
bulk_allocate_ibkr_transactions-IsReport_example =
    bulk_allocate_ibkr_transactions-IsReport (31 ∷ 32 ∷ []) split healthy inbox-IsSettled

-- The transaction that the whole of it was allocated to.
abbrev linked_purchase : Transaction Micro
linked_purchase = record {
  id = 21;
  portfolio_fund_id = 5;
  date = 3 * day;
  kind = buy;
  shares = micro 10;
  cost_per_share = micro 2;
  created_at = 9 * day;
}

abbrev whole_allocation : IbkrAllocation Micro
whole_allocation = record {
  id = 41;
  ibkr_transaction_id = 31;
  portfolio_id = 2;
  allocation_percentage = micro 100;
  allocated_amount = micro 20;
  allocated_shares = micro 10;
  transaction_id = 21;
  created_at = 9 * day;
}

abbrev settled_inbox : Tables Micro
settled_inbox = record inbox {
  portfolio_funds = record { id = 5; portfolio_id = 2; fund_id = 1 } ∷ [];
  transactions = linked_purchase ∷ [];
  ibkr_transactions = record imported { status = IbkrStatus.processed } ∷ [];
  ibkr_allocations = whole_allocation ∷ [];
}

settled_inbox-IsSettled : IsSettled settled_inbox
settled_inbox-IsSettled = (
  (λ i. elim (Bool-cases (31 == i)) [ inl e ↦ rw e refl | inr e ↦ rw e refl ]),
  λ x. elim (Bool-cases (21 == x)) [ inl e ↦ rw e (omega arith) | inr e ↦ rw e (omega arith) ],
)

delete_transaction_of-IsSettled_example :
    Commits settled_inbox
      (λ u. IsSettled)
      (delete_transaction_of 21 (record healthy { tables = settled_inbox }))
delete_transaction_of-IsSettled_example =
    delete_transaction_of-IsSettled 21 (record healthy { tables = settled_inbox })
      settled_inbox-IsSettled refl

abbrev shares_of : List (IbkrAllocation Micro) → List Micro
shares_of [] = []
shares_of (a ∷ rest) = a.allocated_shares ∷ shares_of rest

-- Each portfolio gets its shares and a fee.
allocated_split :
    shares_of (allocate_ibkr_transaction_tx 31 split healthy).1.tables.ibkr_allocations
    ≡ pos 7_500_000 ∷ micro 0 ∷ pos 2_500_000 ∷ micro 0 ∷ []
unfolding allocate_ibkr_transaction_tx statement query exec new_uuid get_now get_ibkr_transaction
    get_fund_by_symbol_or_isin get_portfolio_fund_by_portfolio_and_fund insert_portfolio_fund
    insert_transaction insert_ibkr_transaction_allocation update_ibkr_transaction_status
    insert_transaction_row insert_allocation_row insert_portfolio_fund_row update_status_row
    allocate_loop allocate_one allocate_trade allocate_fee find_fund_by_isin_or_symbol share_of
    allocated_transaction fee_transaction allocation_of round
allocated_split = refl
