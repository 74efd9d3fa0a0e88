-- ===== src/Materialized/Read/Reported.antt =====
-- An on-demand history that goes through the table.
use investment_portfolio_man.Base.{◌+◌, ◌≡◌, List, [], ◌∷◌, map, some}
use investment_portfolio_man.Float64.{Float64}
use investment_portfolio_man.Result.{ok}
use investment_portfolio_man.Model.{Time, Map, RealizedGainLoss, FundHistoryResponse}
use investment_portfolio_man.History.{PortfolioData, calculate_fund_history_by_date}
use investment_portfolio_man.History.Reported.{IsHistory, calculate_fund_history_by_date-IsHistory}
use investment_portfolio_man.Materialized.Regenerate.{flatten}
use investment_portfolio_man.Materialized.Read.{by_date, format_fund_history_from_materialized}
use investment_portfolio_man.Materialized.Read.Back.{IsRising, dated_response, format-flatten}

module _ {F : Type 0} ⦃f : Float64 F⦄ (d : PortfolioData F)
    (gains : Map (List (RealizedGainLoss F))) where
  IsHistory-IsRising :
      (from to : Time) (h : List (FundHistoryResponse F))
      → IsHistory d gains from to h
      → IsRising from h
  IsHistory-IsRising from to [] h = tt
  IsHistory-IsRising from to (r ∷ rs) (le, below, some_, funds, rest) =
      (le, some_, IsHistory-IsRising (r.date + 1) to rs rest)

  -- A fund history that is computed on demand with no error, turned into entries by
  -- RegenerateMaterializedTable, then grouped by date and formatted by GetFundHistoryMaterialized,
  -- is the same history, with the date of each day in its entries.
  pub calculate_fund_history_by_date-format :
      (start_date end_date : Time) (h : List (FundHistoryResponse F))
      → calculate_fund_history_by_date d gains start_date end_date ≡ some (ok h)
      → format_fund_history_from_materialized (by_date (flatten h)) ≡ map dated_response h
  calculate_fund_history_by_date-format start_date end_date h e = format-flatten start_date h (
      IsHistory-IsRising start_date end_date h
        (calculate_fund_history_by_date-IsHistory d gains start_date end_date e))
