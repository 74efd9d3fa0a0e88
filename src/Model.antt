-- ===== src/Model.antt =====
-- The records of internal/model. An identifier is only compared and tested for the empty text, so
-- it is a number, and 0 is the empty text. A time is its distance from the zero time of Go
-- (1 January of year 1, UTC), in a unit that divides a second, so that the zero time is 0.
use investment_portfolio_man.Base.{ℕ, ◌-◌, ◌%◌, Bool, ◌||◌, List, ltb, ◌==◌}

abbrev pub Ident : Type 0
Ident = ℕ

abbrev pub Time : Type 0
Time = ℕ

-- The unit is the nanosecond.
abbrev pub day : Time
day = 86_400_000_000_000

-- `t.Truncate(24 * time.Hour)`, which is also `time.Date` of the parts of a date in UTC.
abbrev pub midnight : Time → Time
midnight t = t - t % day

-- `a.Before(b) || a.Equal(b)`.
abbrev pub on_or_before : Time → Time → Bool
on_or_before a b = ltb a b || a == b

-- A Go map, in the order of one iteration over it.
abbrev pub Map {ℓ} : Type ℓ → Type ℓ
Map V = List (Ident × V)

-- The texts that a transaction's type is compared with.
pub data TransactionType : Type 0 where
  buy sell dividend fee : TransactionType
  -- Any other text.
  other_type : TransactionType

pub record Transaction (F : Type 0) : Type 0 where
  pub id : Ident
  pub portfolio_fund_id : Ident
  pub date : Time
  pub kind : TransactionType
  pub shares : F
  pub cost_per_share : F
  pub created_at : Time

pub data ReinvestmentStatus : Type 0 where
  pending completed partial : ReinvestmentStatus
  no_status : ReinvestmentStatus

pub record Dividend (F : Type 0) : Type 0 where
  pub id : Ident
  pub fund_id : Ident
  pub portfolio_fund_id : Ident
  pub record_date : Time
  pub ex_dividend_date : Time
  pub shares_owned : F
  pub dividend_per_share : F
  pub total_amount : F
  pub reinvestment_status : ReinvestmentStatus
  pub buy_order_date : Time
  pub reinvestment_transaction_id : Ident
  pub created_at : Time

pub record FundPrice (F : Type 0) : Type 0 where
  pub id : Ident
  pub fund_id : Ident
  pub date : Time
  pub price : F

pub record RealizedGainLoss (F : Type 0) : Type 0 where
  pub id : Ident
  pub portfolio_id : Ident
  pub fund_id : Ident
  pub transaction_id : Ident
  pub transaction_date : Time
  pub shares_sold : F
  pub cost_basis : F
  pub sale_proceeds : F
  pub realized_gain_loss : F
  pub created_at : Time

pub record PortfolioFund : Type 0 where
  pub id : Ident
  pub portfolio_id : Ident
  pub fund_id : Ident

-- One day of a fund in `fund_history_materialized`; the fund's name is left out.
pub record FundHistoryEntry (F : Type 0) : Type 0 where
  pub id : Ident
  pub portfolio_fund_id : Ident
  pub fund_id : Ident
  pub date : Time
  pub shares : F
  pub price : F
  pub value : F
  pub cost : F
  pub realized_gain : F
  pub unrealized_gain : F
  pub total_gain_loss : F
  pub dividends : F
  pub fees : F
  pub sale_proceeds : F
  pub original_cost : F

pub record FundHistoryResponse (F : Type 0) : Type 0 where
  pub date : Time
  pub funds : List (FundHistoryEntry F)
