-- ===== src/Materialized/Fallback.antt =====
-- `GetFundHistoryWithFallback` of internal/service/materialized_service.go.
pub mod Sources
use investment_portfolio_man.Base.{Bool, true, false, List, [], ◌∷◌, Option, none, some}
use investment_portfolio_man.Float64.{Float64}
use investment_portfolio_man.Result.{Result, ok, err}
use investment_portfolio_man.Model.{Ident, Time, FundHistoryResponse}
use investment_portfolio_man.Store.Monad.{World, M, pure, bind_result, ◌>>=◌}
use investment_portfolio_man.Materialized.Loader.{fund_history_on_fly}
use investment_portfolio_man.Materialized.Read.{get_fund_history_materialized}
use investment_portfolio_man.Materialized.Stale.{check_stale_data}

-- A history, and the start date for which `triggerBackgroundRegeneration` is called, if it is.
pub record Served (F : Type 0) : Type 0 where
  pub history : List (FundHistoryResponse F)
  pub requested : Option Time

module _ {F : Type 0} ⦃f : Float64 F⦄ where
  abbrev pub computed : Time → List (FundHistoryResponse F) → M F (Served F)
  computed start_date history = pure (record { history = history; requested = some start_date })

  abbrev pub compute_and_request : Ident → (start_date end_date : Time) → M F (Served F)
  compute_and_request p start_date end_date =
      fund_history_on_fly p start_date end_date >>= computed start_date

  -- The rows of the table, unless there are none or the query fails.
  unfoldable pub serve_cached :
      Ident
      → (start_date end_date : Time) → Result (List (FundHistoryResponse F)) × World F
      → Result (Served F) × World F
  serve_cached p start_date end_date (ok (h ∷ hs), w) =
      (ok (record { history = h ∷ hs; requested = none }), w)
  serve_cached p start_date end_date (ok [], w) = compute_and_request p start_date end_date w
  serve_cached p start_date end_date (err e, w) = compute_and_request p start_date end_date w

  unfoldable pub unless_stale : Ident → (start_date end_date : Time) → Bool → M F (Served F)
  unless_stale p start_date end_date true w = compute_and_request p start_date end_date w
  unless_stale p start_date end_date false w =
      serve_cached p start_date end_date (get_fund_history_materialized p start_date end_date w)

  unfoldable pub get_fund_history_with_fallback :
      Ident → (start_date end_date : Time) → M F (Served F)
  get_fund_history_with_fallback p start_date end_date =
      check_stale_data (p ∷ []) end_date >>= unless_stale p start_date end_date
