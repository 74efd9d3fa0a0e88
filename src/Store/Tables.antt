-- ===== src/Store/Tables.antt =====
-- The tables of internal/database/migrations/162_base.sql that the services below work on.
use investment_portfolio_man.Base.{Bool, List, Option}
use investment_portfolio_man.Model.{
  Ident, Time, Transaction, TransactionType, Dividend, RealizedGainLoss, PortfolioFund, FundPrice,
  FundHistoryEntry,
}

-- The texts that a fund's dividend type is compared with.
pub data DividendType : Type 0 where
  stock no_dividend : DividendType
  -- Any other text.
  other_dividend : DividendType

-- `symbol_root` is the symbol up to its first dot, which a query compares. Names compare as their
-- numbers do.
pub record Fund : Type 0 where
  pub id : Ident
  pub isin : Ident
  pub symbol : Ident
  pub symbol_root : Ident
  pub name : Ident
  pub dividend_type : DividendType

pub record Portfolio : Type 0 where
  pub id : Ident
  pub is_archived : Bool
  pub exclude_from_overview : Bool

-- A row of `fund_history_materialized`; `calculated_at` is the time of its insertion.
pub record MaterializedRow (F : Type 0) : Type 0 where
  pub entry : FundHistoryEntry F
  pub calculated_at : Time

pub data IbkrStatus : Type 0 where
  pending processed ignored : IbkrStatus

pub record IbkrTransaction (F : Type 0) : Type 0 where
  pub id : Ident
  -- The text made of the transaction's and the order's number.
  pub external_id : Ident
  pub transaction_date : Time
  pub symbol : Ident
  pub isin : Ident
  pub transaction_type : TransactionType
  pub quantity : F
  pub price : F
  pub total_amount : F
  pub fees : F
  pub status : IbkrStatus
  pub processed_at : Option Time

pub record IbkrAllocation (F : Type 0) : Type 0 where
  pub id : Ident
  pub ibkr_transaction_id : Ident
  pub portfolio_id : Ident
  pub allocation_percentage : F
  pub allocated_amount : F
  pub allocated_shares : F
  pub transaction_id : Ident
  pub created_at : Time

-- `request.AllocationEntry`, and `model.Allocation`, which has the same fields.
pub record AllocationEntry (F : Type 0) : Type 0 where
  pub portfolio_id : Ident
  pub percentage : F

pub record IbkrConfig (F : Type 0) : Type 0 where
  pub default_allocation_enabled : Bool
  pub default_allocations : List (AllocationEntry F)

pub record Tables (F : Type 0) : Type 0 where
  pub portfolios : List Portfolio
  pub funds : List Fund
  pub portfolio_funds : List PortfolioFund
  pub transactions : List (Transaction F)
  pub realized : List (RealizedGainLoss F)
  pub dividends : List (Dividend F)
  pub ibkr_transactions : List (IbkrTransaction F)
  pub ibkr_allocations : List (IbkrAllocation F)
  pub ibkr_config : Option (IbkrConfig F)
  pub fund_prices : List (FundPrice F)
  pub materialized : List (MaterializedRow F)
