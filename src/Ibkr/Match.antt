-- ===== src/Ibkr/Match.antt =====
-- `MatchDividend`, internal/service/ibkr_service.go: an imported reinvestment and the dividends that it
-- reinvests. The notes of the transaction, which are only logged, are left out.
use investment_portfolio_man.Base.{
  Bool, true, false, ◌&&◌, ◌||◌, List, [], ◌∷◌, Option, none, some, keep, ◌==◌, if◌then◌else◌,
}
use investment_portfolio_man.Result.{Result, ok, err, database, already_matched, no_allocation}
use investment_portfolio_man.Model.{
  Ident, Time, Map, Transaction, TransactionType, buy, sell, dividend, fee, other_type, Dividend,
  completed,
}
use investment_portfolio_man.History.{insert}
use investment_portfolio_man.Store.Tables.{Tables, IbkrTransaction, IbkrAllocation}
use investment_portfolio_man.Store.Monad.{M, pure, fail, query, lift_result, ◌>>=◌, ◌>>◌, transact}
use investment_portfolio_man.Store.Effects.{is_some, or_not_found, find_portfolio, find_transaction}
use investment_portfolio_man.Store.Repositories.{get_ibkr_transaction, get_portfolio_fund}
use investment_portfolio_man.Store.Dividends.{get_dividend, update_dividend}
use investment_portfolio_man.Ibkr.{is_processed, require, trigger_regen_from_allocations}

-- The fields of `model.IBKRTransactionAllocation` that are read.
pub record AllocationDetail : Type 0 where
  pub portfolio_id : Ident
  pub transaction_id : Ident
  pub kind : TransactionType

abbrev pub is_fee : TransactionType → Bool
is_fee buy = false
is_fee sell = false
is_fee dividend = false
is_fee fee = true
is_fee other_type = false

-- `portfolioToTxID`; a later allocation of a portfolio takes the place of an earlier one.
abbrev pub portfolio_to_tx_id : List AllocationDetail → Map Ident → Map Ident
portfolio_to_tx_id [] by = by
portfolio_to_tx_id (a ∷ rest) by = portfolio_to_tx_id rest (
    if is_fee a.kind || a.transaction_id == 0
    then by
    else insert a.portfolio_id a.transaction_id by)

abbrev pub allocated_to : Ident → Map Ident → Option Ident
allocated_to portfolio_id [] = none
allocated_to portfolio_id ((present, tx_id) ∷ others) =
    if present == portfolio_id then some tx_id else allocated_to portfolio_id others

abbrev pub first_detail :
    Result AllocationDetail → Result (List AllocationDetail) → Result (List AllocationDetail)
first_detail (err e) rest = err e
first_detail (ok x) (err e) = err e
first_detail (ok x) (ok xs) = ok (x ∷ xs)

module _ {F : Type 0} where
  -- An allocation with no transaction has no type to scan, which is an error.
  abbrev pub detail_of : IbkrAllocation F → Option (Transaction F) → Result AllocationDetail
  detail_of a none = err database
  detail_of a (some x) =
      ok
        (record { portfolio_id = a.portfolio_id; transaction_id = a.transaction_id; kind = x.kind })

  abbrev pub details_of : Tables F → List (IbkrAllocation F) → Result (List AllocationDetail)
  details_of t [] = ok []
  details_of t (a ∷ rest) =
      first_detail (detail_of a (find_transaction a.transaction_id t)) (details_of t rest)

  unfoldable pub get_allocation_details : Ident → M F (List AllocationDetail)
  get_allocation_details i = query (λ t. details_of t (
      keep
        (λ (a : IbkrAllocation F).
          a.ibkr_transaction_id == i && is_some (find_portfolio a.portfolio_id t))
        t.ibkr_allocations))

  abbrev pub unmatched : Dividend F → M F (Unit {0})
  unmatched d = if d.reinvestment_transaction_id == 0 then pure tt else fail already_matched

  abbrev pub matched : IbkrTransaction F → Dividend F → Ident → Dividend F
  matched x d tx_id = record d {
    reinvestment_transaction_id = tx_id;
    buy_order_date = x.transaction_date;
    reinvestment_status = completed;
  }

  unfoldable pub match_loop : IbkrTransaction F → Map Ident → List Ident → M F (Unit {0})
  match_loop x by [] = pure tt
  match_loop x by (i ∷ rest) = get_dividend i >>= λ d.
      unmatched d
      >> (get_portfolio_fund d.portfolio_fund_id >>= λ pf.
          lift_result (or_not_found no_allocation (allocated_to pf.portfolio_id by)) >>= λ tx_id.
          update_dividend (matched x d tx_id) >> match_loop x by rest)

  unfoldable pub match_body : Ident → (dividend_ids : List Ident) → M F Time
  match_body i dividend_ids = get_ibkr_transaction i >>= λ x.
      require (is_processed x.status)
      >> (get_allocation_details i >>= λ details.
          match_loop x (portfolio_to_tx_id details []) dividend_ids >> pure x.transaction_date)

  unfoldable pub match_dividend : Ident → (dividend_ids : List Ident) → M F (Unit {0})
  match_dividend i dividend_ids =
      transact (match_body i dividend_ids) >>= trigger_regen_from_allocations i
