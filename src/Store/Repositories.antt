-- ===== src/Store/Repositories.antt =====
-- The repositories of internal/repository: one function for each query or statement.
-- `… ORDER BY date` leaves rows of one date as they stand in the table.
use investment_portfolio_man.Base.{
  ℕ, not, ◌&&◌, ◌||◌, List, [], ◌∷◌, map, Option, none, some, keep, find?, leb, ◌==◌, if◌then◌else◌,
}
use investment_portfolio_man.Result.{
  Result, ok, err, database, parse_date, transaction_not_found, portfolio_fund_not_found,
  symbol_or_isin_required, invalid_portfolio_id, ibkr_transaction_not_found,
}
use investment_portfolio_man.Model.{Ident, Time, Transaction, RealizedGainLoss, PortfolioFund}
use investment_portfolio_man.Store.Tables.{
  Tables, Fund, IbkrTransaction, IbkrAllocation, IbkrConfig, IbkrStatus,
}
use investment_portfolio_man.Store.Monad.{M, query, exec, new_uuid, ◌>>=◌}
use investment_portfolio_man.Store.Rows.{find_row, count_rows}
use investment_portfolio_man.Store.Effects.{
  delete_allocation_rows, delete_ibkr_row, delete_realized_rows, delete_transaction_row, find_ibkr,
  find_portfolio_fund, find_transaction, is_some, insert_allocation_row, insert_portfolio_fund_row,
  insert_realized_row, insert_transaction_row, or_not_found, update_status_row,
  update_transaction_row,
}

module _ {F : Type 0} where
  abbrev pub scanned_transaction : Option (Transaction F) → Result (Transaction F)
  scanned_transaction none = err transaction_not_found
  scanned_transaction (some x) =
      if x.date == 0 then err parse_date else if x.created_at == 0 then err parse_date else ok x

  unfoldable pub get_transaction_by_id : Ident → M F (Transaction F)
  get_transaction_by_id i = query (λ t. scanned_transaction (find_transaction i t))

  unfoldable pub insert_transaction : Transaction F → M F (Unit {0})
  insert_transaction x = exec (insert_transaction_row x)

  unfoldable pub update_transaction : Transaction F → M F (Unit {0})
  update_transaction x = exec (update_transaction_row x)

  unfoldable pub delete_transaction : Ident → M F (Unit {0})
  delete_transaction i = exec (delete_transaction_row i)

  unfoldable pub insert_realized_gain_loss : RealizedGainLoss F → M F (Unit {0})
  insert_realized_gain_loss r = exec (insert_realized_row r)

  unfoldable pub delete_realized_gain_loss_by_transaction_id : Ident → M F (Unit {0})
  delete_realized_gain_loss_by_transaction_id i = exec (λ t. ok (delete_realized_rows i t))

  -- `ORDER BY date ASC`.
  abbrev pub insert_by_date : Transaction F → List (Transaction F) → List (Transaction F)
  insert_by_date x [] = x ∷ []
  insert_by_date x (y ∷ ys) = if leb x.date y.date then x ∷ y ∷ ys else y ∷ insert_by_date x ys

  abbrev pub order_by_date : List (Transaction F) → List (Transaction F)
  order_by_date [] = []
  order_by_date (x ∷ xs) = insert_by_date x (order_by_date xs)

  unfoldable pub transactions_of : Ident → Tables F → Result (List (Transaction F))
  transactions_of pf_id t =
      ok (order_by_date (keep (λ (x : Transaction F). x.portfolio_fund_id == pf_id) t.transactions))

  unfoldable pub get_transactions_by_portfolio_fund_id : Ident → M F (List (Transaction F))
  get_transactions_by_portfolio_fund_id pf_id w =
      if pf_id == 0 then (err invalid_portfolio_id, w) else query (transactions_of pf_id) w

  unfoldable pub get_portfolio_fund : Ident → M F PortfolioFund
  get_portfolio_fund pf_id w =
      if pf_id == 0
      then (err invalid_portfolio_id, w)
      else query (λ t. or_not_found portfolio_fund_not_found (find_portfolio_fund pf_id t)) w

  -- `none` is `ErrPortfolioFundNotFound`, for which the caller tests.
  unfoldable pub get_portfolio_fund_by_portfolio_and_fund :
      Ident → Ident → M F (Option PortfolioFund)
  get_portfolio_fund_by_portfolio_and_fund portfolio_id fund_id = query λ t. ok (
      find? (λ (x : PortfolioFund). x.portfolio_id == portfolio_id && x.fund_id == fund_id)
        t.portfolio_funds)

  unfoldable pub insert_portfolio_fund : Ident → Ident → M F (Unit {0})
  insert_portfolio_fund portfolio_id fund_id = do
    i ← new_uuid
    exec (
        insert_portfolio_fund_row
          (record { id = i; portfolio_id = portfolio_id; fund_id = fund_id }))

  unfoldable pub get_ibkr_transaction : Ident → M F (IbkrTransaction F)
  get_ibkr_transaction i = query (λ t. or_not_found ibkr_transaction_not_found (find_ibkr i t))

  -- `none` is `ErrIbkrConfigNotFound`, for which the callers test.
  unfoldable pub get_ibkr_config : M F (Option (IbkrConfig F))
  get_ibkr_config = query (λ t. ok t.ibkr_config)

  unfoldable pub update_ibkr_transaction_status : Ident → IbkrStatus → Option Time → M F (Unit {0})
  update_ibkr_transaction_status i status at = exec (update_status_row i status at)

  unfoldable pub delete_ibkr_transaction : Ident → M F (Unit {0})
  delete_ibkr_transaction i = exec (delete_ibkr_row i)

  unfoldable pub insert_ibkr_transaction_allocation : IbkrAllocation F → M F (Unit {0})
  insert_ibkr_transaction_allocation a = exec (insert_allocation_row a)

  unfoldable pub delete_ibkr_transaction_allocations : Ident → M F (Unit {0})
  delete_ibkr_transaction_allocations i = exec (delete_allocation_rows i)

  abbrev pub linked_transactions : Ident → Tables F → List Ident
  linked_transactions i t =
      map (λ (a : IbkrAllocation F). a.transaction_id)
        (keep (λ (a : IbkrAllocation F). a.ibkr_transaction_id == i && not (a.transaction_id == 0))
          t.ibkr_allocations)

  unfoldable pub get_transaction_ids_by_ibkr_transaction : Ident → M F (List Ident)
  get_transaction_ids_by_ibkr_transaction i = query (λ t. ok (linked_transactions i t))

  -- The portfolios of the allocations; one with no transaction has no type to scan, which is an
  -- error.
  abbrev pub allocated_portfolios : Ident → Tables F → Result (List Ident)
  allocated_portfolios i t =
      let rows = keep (λ (a : IbkrAllocation F). a.ibkr_transaction_id == i) t.ibkr_allocations in
      elim (find? (λ (a : IbkrAllocation F). not (is_some (find_transaction a.transaction_id t)))
        rows) [
          | none ↦ ok (map (λ (a : IbkrAllocation F). a.portfolio_id) rows)
          | some a ↦ err database
        ]

  unfoldable pub get_ibkr_transaction_allocations : Ident → M F (List Ident)
  get_ibkr_transaction_allocations i = query (allocated_portfolios i)

  -- The IBKR transaction of a transaction, 0 if there is none.
  abbrev pub ibkr_of_transaction : Ident → Tables F → Ident
  ibkr_of_transaction i t =
      elim (find_row (λ (a : IbkrAllocation F). a.transaction_id) i t.ibkr_allocations) [
        | none ↦ 0
        | some a ↦ a.ibkr_transaction_id
      ]

  unfoldable pub get_ibkr_transaction_id_by_transaction_id : Ident → M F Ident
  get_ibkr_transaction_id_by_transaction_id i = query (λ t. ok (ibkr_of_transaction i t))

  unfoldable pub count_ibkr_allocations_by_ibkr_transaction_id : Ident → M F ℕ
  count_ibkr_allocations_by_ibkr_transaction_id i =
      query (λ t.
        ok (count_rows (λ (a : IbkrAllocation F). a.ibkr_transaction_id) i t.ibkr_allocations))

  -- `none` is `ErrFundNotFound`; without a symbol and an ISIN there is another error.
  unfoldable pub get_fund_by_symbol_or_isin : (symbol isin : Ident) → M F (Option Fund)
  get_fund_by_symbol_or_isin symbol isin w =
      if symbol == 0 && isin == 0
      then (err symbol_or_isin_required, w)
      else query
          (λ t. ok (
            find?
              (λ (x : Fund).
                (not (symbol == 0) && x.symbol_root == symbol)
                || (not (isin == 0) && x.isin == isin))
              t.funds))
          w
