-- ===== src/Store/Funds.antt =====
-- The statements of fund_repository.go, portfolio_repository.go and portfolio_fund_repository.go of
-- internal/repository on funds, portfolios and portfolio-funds, with what `CASCADE` and the other
-- foreign keys of internal/database/migrations/162_base.sql do. Names and descriptions are left out.
use investment_portfolio_man.Base.{
  ℕ, Bool, not, ◌&&◌, ◌||◌, List, [], ◌∷◌, ◌++◌, map, keep, find?, count_by, ◌==◌, if◌then◌else◌,
}
use investment_portfolio_man.Result.{
  Result, ok, err, constraint, fund_not_found, portfolio_not_found, portfolio_fund_not_found,
}
use investment_portfolio_man.Model.{
  Ident, Transaction, Dividend, RealizedGainLoss, PortfolioFund, FundPrice,
}
use investment_portfolio_man.Store.Tables.{Tables, Fund, Portfolio, IbkrAllocation, MaterializedRow}
use investment_portfolio_man.Store.Monad.{M, query, exec}
use investment_portfolio_man.Store.Rows.{delete_rows, replace_rows}
use investment_portfolio_man.Store.Effects.{is_some, find_fund, find_portfolio, find_portfolio_fund}
use investment_portfolio_man.Ibkr.{unique_from}

-- `model.PortfolioFilter`.
pub record PortfolioFilter : Type 0 where
  pub include_archived : Bool
  pub include_excluded : Bool

pub record PortfolioTransaction : Type 0 where
  pub id : Ident
  pub transaction_count : ℕ

module _ {F : Type 0} where
  -- The row of the fund table, without its ISIN another fund has.
  abbrev pub has_isin : Ident → Ident → Tables F → Bool
  has_isin i isin t = is_some (find? (λ (x : Fund). x.isin == isin && not (x.id == i)) t.funds)

  unfoldable pub insert_fund_row : Fund → Tables F → Result (Tables F)
  insert_fund_row x t =
      if is_some (find_fund x.id t) || has_isin x.id x.isin t
      then err constraint
      else ok (record t { funds = t.funds ++ (x ∷ []) })

  unfoldable pub update_fund_row : Fund → Tables F → Result (Tables F)
  update_fund_row x t =
      if not (is_some (find_fund x.id t))
      then err fund_not_found
      else if has_isin x.id x.isin t
      then err constraint
      else ok (record t { funds = replace_rows (λ (y : Fund). y.id) x t.funds })

  -- The portfolio-funds that go, and what belongs to them.
  abbrev pub goes : (PortfolioFund → Bool) → Tables F → Ident → Bool
  goes gone t pf_id =
      is_some (find? (λ (x : PortfolioFund). x.id == pf_id && gone x) t.portfolio_funds)

  abbrev pub transaction_goes : (PortfolioFund → Bool) → Tables F → Ident → Bool
  transaction_goes gone t i =
      is_some
        (find? (λ (x : Transaction F). x.id == i && goes gone t x.portfolio_fund_id) t.transactions)

  abbrev pub without_portfolio_funds : (PortfolioFund → Bool) → Tables F → Tables F
  without_portfolio_funds gone t = record t {
    portfolio_funds = keep (λ (x : PortfolioFund). not (gone x)) t.portfolio_funds;
    transactions =
        keep (λ (x : Transaction F). not (goes gone t x.portfolio_fund_id)) t.transactions;
    realized =
        keep (λ (x : RealizedGainLoss F). not (transaction_goes gone t x.transaction_id))
          t.realized;
    dividends = keep (λ (x : Dividend F). not (goes gone t x.portfolio_fund_id)) t.dividends;
    ibkr_allocations =
        keep (λ (x : IbkrAllocation F). not (transaction_goes gone t x.transaction_id))
          t.ibkr_allocations;
    materialized =
        keep (λ (x : MaterializedRow F). not (goes gone t x.entry.portfolio_fund_id))
          t.materialized;
  }

  -- A dividend that stays keeps its reinvestment transaction (`RESTRICT`). The dividends that go
  -- are deleted before the transactions, since their table is declared later.
  abbrev pub is_held : (PortfolioFund → Bool) → Tables F → Bool
  is_held gone t = is_some (
      find?
        (λ (x : Dividend F).
          not (goes gone t x.portfolio_fund_id)
          && transaction_goes gone t x.reinvestment_transaction_id)
        t.dividends)

  unfoldable pub delete_portfolio_fund_row : Ident → Tables F → Result (Tables F)
  delete_portfolio_fund_row i t =
      if not (is_some (find_portfolio_fund i t))
      then err portfolio_fund_not_found
      else if is_held (λ x. x.id == i) t
      then err constraint
      else ok (without_portfolio_funds (λ x. x.id == i) t)

  abbrev pub without_portfolio : Ident → Tables F → Tables F
  without_portfolio i t = record t {
    portfolios = delete_rows (λ (x : Portfolio). x.id) i t.portfolios;
    realized = delete_rows (λ (x : RealizedGainLoss F). x.portfolio_id) i t.realized;
    ibkr_allocations = delete_rows (λ (x : IbkrAllocation F). x.portfolio_id) i t.ibkr_allocations;
  }

  unfoldable pub delete_portfolio_row : Ident → Tables F → Result (Tables F)
  delete_portfolio_row i t =
      if not (is_some (find_portfolio i t))
      then err portfolio_not_found
      else if is_held (λ x. x.portfolio_id == i) t
      then err constraint
      else ok (without_portfolio i (without_portfolio_funds (λ x. x.portfolio_id == i) t))

  -- The foreign keys of prices, dividends and gains, which do not cascade.
  abbrev pub is_referenced : Ident → Tables F → Bool
  is_referenced i t =
      is_some (find? (λ (x : FundPrice F). x.fund_id == i) t.fund_prices)
      || is_some (find? (λ (x : Dividend F). x.fund_id == i) t.dividends)
      || is_some (find? (λ (x : RealizedGainLoss F). x.fund_id == i) t.realized)

  abbrev pub without_fund : Ident → Tables F → Tables F
  without_fund i t = record t { funds = delete_rows (λ (x : Fund). x.id) i t.funds }

  unfoldable pub delete_fund_row : Ident → Tables F → Result (Tables F)
  delete_fund_row i t =
      if not (is_some (find_fund i t))
      then err fund_not_found
      else if is_held (λ x. x.fund_id == i) t
          || is_referenced i (without_portfolio_funds (λ x. x.fund_id == i) t)
      then err constraint
      else ok (without_fund i (without_portfolio_funds (λ x. x.fund_id == i) t))

  unfoldable pub insert_portfolio_row : Portfolio → Tables F → Result (Tables F)
  insert_portfolio_row x t =
      if is_some (find_portfolio x.id t)
      then err constraint
      else ok (record t { portfolios = t.portfolios ++ (x ∷ []) })

  unfoldable pub update_portfolio_row : Portfolio → Tables F → Result (Tables F)
  update_portfolio_row x t =
      if not (is_some (find_portfolio x.id t))
      then err portfolio_not_found
      else ok (record t { portfolios = replace_rows (λ (y : Portfolio). y.id) x t.portfolios })

  unfoldable pub get_portfolios : PortfolioFilter → M F (List Portfolio)
  get_portfolios filter = query λ t. ok (
      keep
        (λ (x : Portfolio).
          (filter.include_archived || not x.is_archived)
          && (filter.include_excluded || not x.exclude_from_overview))
        t.portfolios)

  abbrev pub held_by : Ident → Tables F → List PortfolioFund
  held_by fund_id t = keep (λ (x : PortfolioFund). x.fund_id == fund_id) t.portfolio_funds

  -- How many transactions a portfolio has in the fund.
  abbrev pub transactions_in_fund : Ident → Tables F → Ident → ℕ
  transactions_in_fund fund_id t p =
      count_by
        (λ (x : Transaction F). is_some (
          find? (λ (pf : PortfolioFund). pf.id == x.portfolio_fund_id && pf.portfolio_id == p)
            (held_by fund_id t)))
        t.transactions

  abbrev pub usage_of : Ident → Tables F → List PortfolioTransaction
  usage_of fund_id t =
      map (λ p. record { id = p; transaction_count = transactions_in_fund fund_id t p })
        (keep (λ p. is_some (find_portfolio p t))
          (unique_from [] (map (λ (x : PortfolioFund). x.portfolio_id) (held_by fund_id t))))

  unfoldable pub insert_fund : Fund → M F (Unit {0})
  insert_fund x = exec (insert_fund_row x)

  unfoldable pub update_fund : Fund → M F (Unit {0})
  update_fund x = exec (update_fund_row x)

  unfoldable pub delete_fund : Ident → M F (Unit {0})
  delete_fund i = exec (delete_fund_row i)

  unfoldable pub insert_portfolio : Portfolio → M F (Unit {0})
  insert_portfolio x = exec (insert_portfolio_row x)

  unfoldable pub update_portfolio : Portfolio → M F (Unit {0})
  update_portfolio x = exec (update_portfolio_row x)

  unfoldable pub delete_portfolio : Ident → M F (Unit {0})
  delete_portfolio i = exec (delete_portfolio_row i)

  unfoldable pub delete_portfolio_fund : Ident → M F (Unit {0})
  delete_portfolio_fund i = exec (delete_portfolio_fund_row i)
