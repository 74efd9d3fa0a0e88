-- ===== src/Materialized/Read.antt =====
-- `GetFundHistoryMaterialized` and `formatFundHistoryFromMaterialized` of
-- internal/service/materialized_service.go.
pub mod Back
pub mod Refined
pub mod Reported
use investment_portfolio_man.Base.{List, [], ◌∷◌, ◌==◌}
use investment_portfolio_man.Model.{Ident, Time, Map, FundHistoryEntry, FundHistoryResponse}
use investment_portfolio_man.Store.Monad.{M, query, pure, ◌>>=◌}
use investment_portfolio_man.Materialized.{order_by, group_from, history_rows}
use investment_portfolio_man.Materialized.Loader.{scanned_rows}

module _ {F : Type 0} where
  -- The rows by date, in the order in which the query yields them.
  unfoldable pub by_date : List (FundHistoryEntry F) → Map (List (FundHistoryEntry F))
  by_date = group_from (λ (e : FundHistoryEntry F). e.date) []

  -- A date is that of its first fund.
  unfoldable pub responses : Map (List (FundHistoryEntry F)) → List (FundHistoryResponse F)
  responses [] = []
  responses ((date, []) ∷ rest) = responses rest
  responses ((date, e ∷ es) ∷ rest) = record { date = e.date; funds = e ∷ es } ∷ responses rest

  unfoldable pub format_fund_history_from_materialized :
      Map (List (FundHistoryEntry F)) → List (FundHistoryResponse F)
  format_fund_history_from_materialized by =
      responses (order_by (λ (p : Ident × List (FundHistoryEntry F)). p.0) by)

  unfoldable pub get_fund_history_materialized :
      Ident → (start_date end_date : Time) → M F (List (FundHistoryResponse F))
  get_fund_history_materialized portfolio_id start_date end_date =
      query (λ t.
        scanned_rows (λ (e : FundHistoryEntry F). e.date == 0) by_date
          (history_rows portfolio_id start_date end_date t))
      >>= λ by. pure (format_fund_history_from_materialized by)
