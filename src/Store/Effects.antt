-- ===== src/Store/Effects.antt =====
-- What the statements of internal/repository that write do to the tables, with the constraints of
-- internal/database/migrations/162_base.sql (foreign keys are on, internal/database/database.go).
use investment_portfolio_man.Base.{
  ◌-◌, ◌%◌, Bool, true, false, not, ◌&&◌, ◌||◌, [], ◌∷◌, ◌++◌, map, Option, none, some, find?, ◌==◌,
  if◌then◌else◌,
}
use investment_portfolio_man.Result.{
  Result, ok, err, Error, constraint, transaction_not_found, ibkr_transaction_not_found,
}
use investment_portfolio_man.Model.{
  Ident, Time, midnight, Transaction, Dividend, RealizedGainLoss, PortfolioFund,
}
use investment_portfolio_man.Store.Tables.{
  Tables, Portfolio, Fund, IbkrTransaction, IbkrAllocation, IbkrStatus,
}
use investment_portfolio_man.Store.Rows.{find_row, delete_rows, replace_rows, count_rows}

abbrev pub is_some {ℓ} : {A : Type ℓ} → Option A → Bool
is_some none = false
is_some (some a) = true

abbrev pub or_not_found {ℓ} : {A : Type ℓ} → Error → Option A → Result A
or_not_found e none = err e
or_not_found e (some a) = ok a

-- A time as the column `created_at` keeps it, in whole seconds.
abbrev pub whole_second : Time → Time
whole_second t = t - t % 1_000_000_000

module _ {F : Type 0} where
  abbrev pub find_transaction : Ident → Tables F → Option (Transaction F)
  find_transaction i t = find_row (λ (x : Transaction F). x.id) i t.transactions

  abbrev pub find_portfolio_fund : Ident → Tables F → Option PortfolioFund
  find_portfolio_fund i t = find_row (λ (x : PortfolioFund). x.id) i t.portfolio_funds

  abbrev pub find_portfolio : Ident → Tables F → Option Portfolio
  find_portfolio i t = find_row (λ (x : Portfolio). x.id) i t.portfolios

  abbrev pub find_fund : Ident → Tables F → Option Fund
  find_fund i t = find_row (λ (x : Fund). x.id) i t.funds

  abbrev pub find_ibkr : Ident → Tables F → Option (IbkrTransaction F)
  find_ibkr i t = find_row (λ (x : IbkrTransaction F). x.id) i t.ibkr_transactions

  abbrev pub find_dividend : Ident → Tables F → Option (Dividend F)
  find_dividend i t = find_row (λ (x : Dividend F). x.id) i t.dividends

  -- The row that `InsertTransaction` and `UpdateTransaction` write.
  abbrev pub stored : Transaction F → Transaction F
  stored x = record x { date = midnight x.date; created_at = whole_second x.created_at }

  unfoldable pub insert_transaction_row : Transaction F → Tables F → Result (Tables F)
  insert_transaction_row x t =
      if is_some (find_transaction x.id t)
        || not (is_some (find_portfolio_fund x.portfolio_fund_id t))
      then err constraint
      else ok (record t { transactions = t.transactions ++ (stored x ∷ []) })

  abbrev pub with_transaction : Transaction F → Tables F → Tables F
  with_transaction x t = record t {
    transactions = replace_rows (λ (y : Transaction F). y.id) (stored x) t.transactions;
  }

  unfoldable pub update_transaction_row : Transaction F → Tables F → Result (Tables F)
  update_transaction_row x t =
      if not (is_some (find_transaction x.id t))
      then err transaction_not_found
      else if not (is_some (find_portfolio_fund x.portfolio_fund_id t))
      then err constraint
      else ok (with_transaction x t)

  -- Gains and allocations of a transaction go with it (`CASCADE`).
  abbrev pub without_transaction : Ident → Tables F → Tables F
  without_transaction i t = record t {
    transactions = delete_rows (λ (x : Transaction F). x.id) i t.transactions;
    realized = delete_rows (λ (r : RealizedGainLoss F). r.transaction_id) i t.realized;
    ibkr_allocations =
        delete_rows (λ (a : IbkrAllocation F). a.transaction_id) i t.ibkr_allocations;
  }

  -- A dividend's reinvestment transaction cannot go (`RESTRICT`).
  unfoldable pub delete_transaction_row : Ident → Tables F → Result (Tables F)
  delete_transaction_row i t =
      if is_some (find? (λ (d : Dividend F). d.reinvestment_transaction_id == i) t.dividends)
      then err constraint
      else if not (is_some (find_transaction i t))
      then err transaction_not_found
      else ok (without_transaction i t)

  unfoldable pub insert_realized_row : RealizedGainLoss F → Tables F → Result (Tables F)
  insert_realized_row r t =
      if is_some (find_row (λ (x : RealizedGainLoss F). x.id) r.id t.realized)
        || not (is_some (find_transaction r.transaction_id t))
        || not (is_some (find_portfolio r.portfolio_id t))
        || not (is_some (find_fund r.fund_id t))
      then err constraint
      else ok (record t {
        realized =
            t.realized
            ++ (record r {
              transaction_date = midnight r.transaction_date;
              created_at = whole_second r.created_at;
            }
                ∷ []);
      })

  unfoldable pub delete_realized_rows : Ident → Tables F → Tables F
  delete_realized_rows i t = record t {
    realized = delete_rows (λ (r : RealizedGainLoss F). r.transaction_id) i t.realized;
  }

  abbrev pub with_status : IbkrStatus → Option Time → IbkrTransaction F → IbkrTransaction F
  with_status status at x = record x { status = status; processed_at = at }

  abbrev pub with_ibkr_status : Ident → IbkrStatus → Option Time → Tables F → Tables F
  with_ibkr_status i status at t = record t {
    ibkr_transactions =
        map (λ (x : IbkrTransaction F). if x.id == i then with_status status at x else x)
          t.ibkr_transactions;
  }

  unfoldable pub update_status_row : Ident → IbkrStatus → Option Time → Tables F → Result (Tables F)
  update_status_row i status at t =
      if is_some (find_ibkr i t)
      then ok (with_ibkr_status i status at t)
      else err ibkr_transaction_not_found

  abbrev pub without_allocations : Ident → Tables F → Tables F
  without_allocations i t = record t {
    ibkr_allocations =
        delete_rows (λ (a : IbkrAllocation F). a.ibkr_transaction_id) i t.ibkr_allocations;
  }

  -- Allocations of an IBKR transaction go with it (`CASCADE`).
  abbrev pub without_ibkr : Ident → Tables F → Tables F
  without_ibkr i t = record t {
    ibkr_transactions = delete_rows (λ (x : IbkrTransaction F). x.id) i t.ibkr_transactions;
    ibkr_allocations =
        delete_rows (λ (a : IbkrAllocation F). a.ibkr_transaction_id) i t.ibkr_allocations;
  }

  unfoldable pub delete_ibkr_row : Ident → Tables F → Result (Tables F)
  delete_ibkr_row i t =
      if is_some (find_ibkr i t) then ok (without_ibkr i t) else err ibkr_transaction_not_found

  -- The row that `InsertIbkrTransactionAllocation` writes.
  abbrev pub stored_allocation : IbkrAllocation F → IbkrAllocation F
  stored_allocation a = record a { created_at = whole_second a.created_at }

  abbrev pub with_allocation : IbkrAllocation F → Tables F → Tables F
  with_allocation a t = record t {
    ibkr_allocations = t.ibkr_allocations ++ (stored_allocation a ∷ []);
  }

  unfoldable pub insert_allocation_row : IbkrAllocation F → Tables F → Result (Tables F)
  insert_allocation_row a t =
      if is_some (find_row (λ (x : IbkrAllocation F). x.id) a.id t.ibkr_allocations)
        || not (is_some (find_ibkr a.ibkr_transaction_id t))
        || not (is_some (find_portfolio a.portfolio_id t))
        || not (a.transaction_id == 0 || is_some (find_transaction a.transaction_id t))
      then err constraint
      else ok (with_allocation a t)

  unfoldable pub delete_allocation_rows : Ident → Tables F → Result (Tables F)
  delete_allocation_rows i t =
      if 0 == count_rows (λ (a : IbkrAllocation F). a.ibkr_transaction_id) i t.ibkr_allocations
      then err ibkr_transaction_not_found
      else ok (without_allocations i t)

  unfoldable pub insert_portfolio_fund_row : PortfolioFund → Tables F → Result (Tables F)
  insert_portfolio_fund_row pf t =
      if is_some (find_portfolio_fund pf.id t)
        || is_some (
            find?
              (λ (x : PortfolioFund). x.portfolio_id == pf.portfolio_id && x.fund_id == pf.fund_id)
              t.portfolio_funds)
        || not (is_some (find_portfolio pf.portfolio_id t))
        || not (is_some (find_fund pf.fund_id t))
      then err constraint
      else ok (record t { portfolio_funds = t.portfolio_funds ++ (pf ∷ []) })
