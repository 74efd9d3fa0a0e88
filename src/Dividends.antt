-- ===== src/Dividends.antt =====
-- `DividendService`, internal/service/dividend_service.go: create, update and delete, with the
-- transaction that reinvests a dividend. A request's date is what `time.Parse` makes of its text.
pub mod Methods
pub mod Linked
pub mod Kept
pub mod Reinvested
pub mod Status
pub mod Bodies
pub mod Atomic
pub mod Refused
mod Tests
use investment_portfolio_man.Base.{
  Bool, true, false, not, ◌||◌, ◌&&◌, Option, none, some, ltb, ◌==◌, if◌then◌else◌,
}
use investment_portfolio_man.Float64.{Float64, ◌*f◌, nought, round}
use investment_portfolio_man.Result.{no_dividends}
use investment_portfolio_man.Model.{
  Ident, Time, Transaction, dividend, Dividend, ReinvestmentStatus, pending, completed, partial,
  no_status,
}
use investment_portfolio_man.Store.Tables.{DividendType, stock, no_dividend, other_dividend}
use investment_portfolio_man.Store.Monad.{
  M, pure, fail, ◌>>=◌, ◌>>◌, transact, regenerate, new_uuid, get_now,
}
use investment_portfolio_man.Store.Repositories.{
  get_transaction_by_id, insert_transaction, update_transaction, delete_transaction,
}
use investment_portfolio_man.Store.Dividends.{PortfolioFundListing}
use investment_portfolio_man.Transactions.{when, given, parsed, parsed_if_given, regen_job}

-- A buy-order date that is `none` is the empty text.
pub record CreateDividendRequest (F : Type 0) : Type 0 where
  pub portfolio_fund_id : Ident
  pub record_date : Option Time
  pub ex_dividend_date : Option Time
  pub dividend_per_share : F
  pub buy_order_date : Option (Option Time)
  pub reinvestment_shares : F
  pub reinvestment_price : F

-- A field that is `none` stays as it is.
pub record UpdateDividendRequest (F : Type 0) : Type 0 where
  pub portfolio_fund_id : Option Ident
  pub record_date : Option (Option Time)
  pub ex_dividend_date : Option (Option Time)
  pub dividend_per_share : Option F
  pub buy_order_date : Option (Option Time)
  pub reinvestment_shares : Option F
  pub reinvestment_price : Option F

-- `model.DividendFund`, less the fund's name.
pub record DividendFund (F : Type 0) : Type 0 where
  pub dividend : Dividend F
  pub buy_order_date : Option Time
  pub dividend_type : DividendType

-- The shares and the price of a reinvestment, if both are positive.
pub record Reinvestment (F : Type 0) : Type 0 where
  pub shares : F
  pub price : F

abbrev pub is_stock : DividendType → Bool
is_stock stock = true
is_stock _ = false

abbrev pub is_set {ℓ} : {A : Type ℓ} → Option A → Bool
is_set none = false
is_set (some a) = true

-- The status without a buy order.
abbrev pub unbought : DividendType → ReinvestmentStatus
unbought stock = pending
unbought _ = completed

abbrev pub kept_completed : ReinvestmentStatus → ReinvestmentStatus
kept_completed completed = completed
kept_completed _ = pending

abbrev pub nonzero : Time → Option Time
nonzero t = if t == 0 then none else some t

module _ {F : Type 0} where
  abbrev pub pays_dividends : DividendType → M F (Unit {0})
  pays_dividends no_dividend = fail no_dividends
  pays_dividends stock = pure tt
  pays_dividends other_dividend = pure tt

  abbrev pub with_reinvestment_status : ReinvestmentStatus → Dividend F → Dividend F
  with_reinvestment_status status d = record d { reinvestment_status = status }

  pub dividend_to_fund : Dividend F → PortfolioFundListing → DividendFund F
  dividend_to_fund d pf = record {
    dividend = d;
    buy_order_date = nonzero d.buy_order_date;
    dividend_type = pf.dividend_type;
  }

  pub apply_update_fields : Dividend F → UpdateDividendRequest F → M F (Dividend F)
  apply_update_fields d req = do
    record_date ← parsed_if_given req.record_date d.record_date
    ex_dividend_date ← parsed_if_given req.ex_dividend_date d.ex_dividend_date
    pure (record d {
      record_date = record_date;
      ex_dividend_date = ex_dividend_date;
      dividend_per_share = given req.dividend_per_share d.dividend_per_share;
    })

module _ {F : Type 0} ⦃f : Float64 F⦄ where
  abbrev pub reinvestment_info : F → F → Option (Reinvestment F)
  reinvestment_info shares price =
      if f.lt nought price && f.lt nought shares
      then some (record { shares = shares; price = price })
      else none

  abbrev pub reinvestment_info_if_given : Option F → Option F → Option (Reinvestment F)
  reinvestment_info_if_given (some shares) (some price) = reinvestment_info shares price
  reinvestment_info_if_given (some shares) none = none
  reinvestment_info_if_given none price = none

  abbrev pub reinvested_status : F → Reinvestment F → ReinvestmentStatus
  reinvested_status total r =
      if f.eq (round (r.shares *f r.price)) (round total) then completed else partial

  pub reinvestment_transaction : Ident → Ident → Dividend F → Reinvestment F → Time → Transaction F
  reinvestment_transaction i pf_id d r now = record {
    id = i;
    portfolio_fund_id = pf_id;
    date = d.buy_order_date;
    kind = dividend;
    shares = r.shares;
    cost_per_share = r.price;
    created_at = now;
  }

  unfoldable pub create_reinvestment_transaction :
      Ident → Dividend F → Reinvestment F → M F (Dividend F)
  create_reinvestment_transaction pf_id d r = do
    i ← new_uuid
    now ← get_now
    insert_transaction (reinvestment_transaction i pf_id d r now)
    pure (record d {
      reinvestment_transaction_id = i;
      reinvestment_status = reinvested_status d.total_amount r;
    })

  unfoldable pub update_reinvestment_transaction : Dividend F → Reinvestment F → M F (Dividend F)
  update_reinvestment_transaction d r = do
    x ← get_transaction_by_id d.reinvestment_transaction_id
    now ← get_now
    update_transaction (record x {
      portfolio_fund_id = d.portfolio_fund_id;
      date = d.buy_order_date;
      shares = r.shares;
      cost_per_share = r.price;
      created_at = now;
    })
    pure (with_reinvestment_status (reinvested_status d.total_amount r) d)

  unfoldable pub reinvest :
      PortfolioFundListing → Dividend F → Option (Reinvestment F) → M F (Dividend F)
  reinvest pf d none = pure (with_reinvestment_status pending d)
  reinvest pf d (some r) =
      if is_stock pf.dividend_type
      then create_reinvestment_transaction d.portfolio_fund_id d r
      else pure (with_reinvestment_status completed d)

  -- `applyReinvestment`, or the status of a dividend without a buy order.
  unfoldable pub apply_reinvestment :
      PortfolioFundListing
      → Dividend F
      → Option (Option Time)
      → CreateDividendRequest F
      → M F (Dividend F)
  apply_reinvestment pf d none req = pure (with_reinvestment_status (unbought pf.dividend_type) d)
  apply_reinvestment pf d (some o) req = do
    date ← parsed o
    reinvest pf (record d { buy_order_date = date })
        (reinvestment_info req.reinvestment_shares req.reinvestment_price)

  unfoldable pub update_reinvestment :
      PortfolioFundListing → Dividend F → Option (Reinvestment F) → M F (Dividend F)
  update_reinvestment pf d none =
      pure (with_reinvestment_status (kept_completed d.reinvestment_status) d)
  update_reinvestment pf d (some r) =
      if is_stock pf.dividend_type
      then (if d.reinvestment_transaction_id == 0
          then create_reinvestment_transaction d.portfolio_fund_id d r
          else update_reinvestment_transaction d r)
      else pure (with_reinvestment_status completed d)

  unfoldable pub apply_update_reinvestment :
      PortfolioFundListing → Dividend F → UpdateDividendRequest F → M F (Dividend F)
  apply_update_reinvestment pf d req = do
    date ← parsed_if_given req.buy_order_date d.buy_order_date
    update_reinvestment pf (record d { buy_order_date = date })
        (reinvestment_info_if_given req.reinvestment_shares req.reinvestment_price)
