-- ===== src/Materialized/Loader.antt =====
-- `LoadForPortfolios` of internal/service/portfolio_data_loader.go for one portfolio, with the queries
-- that it makes, and `calculateFundHistoryOnFly` of materialized_service.go on what it loads.
use investment_portfolio_man.Base.{
  Bool, true, false, ◌&&◌, ◌||◌, List, [], ◌∷◌, map, Option, none, some, keep, find?, leb, ltb,
  ◌==◌, if◌then◌else◌,
}
use investment_portfolio_man.Float64.{Float64}
use investment_portfolio_man.Result.{
  Result, ok, err, database, parse_date, portfolio_not_found, invalid_range,
}
use investment_portfolio_man.Model.{
  Ident, Time, Map, midnight, Transaction, Dividend, FundPrice, RealizedGainLoss, PortfolioFund,
  FundHistoryResponse,
}
use investment_portfolio_man.History.{PortfolioData, calculate_fund_history_on_fly}
use investment_portfolio_man.Store.Tables.{Tables, Portfolio}
use investment_portfolio_man.Store.Monad.{World, M, pure, query, lift_result, ◌>>=◌}
use investment_portfolio_man.Store.Effects.{is_some, or_not_found, find_fund, find_portfolio}
use investment_portfolio_man.Materialized.{contains, order_by, group_from}

-- What is loaded; `no_funds` is `len(data.PFIDs) == 0`.
pub record Loaded (F : Type 0) : Type 0 where
  pub no_funds : Bool
  pub portfolio_data : PortfolioData F

-- The zero time for no rows, as `GetOldestTransaction` answers it.
abbrev pub oldest_of : List Time → Time
oldest_of [] = 0
oldest_of (x ∷ []) = x
oldest_of (x ∷ y ∷ ys) = let older = oldest_of (y ∷ ys) in if ltb older x then older else x

-- `date >= ? AND date <= ?` on a column of dates.
abbrev pub between : Time → Time → Time → Bool
between start_date end_date date = leb (midnight start_date) date && leb date (midnight end_date)

-- The same on a column that keeps a time of day with the date: the text of a time on the last day is
-- longer than the text of that day and comes after it.
abbrev pub between_with_time : Time → Time → Time → Bool
between_with_time start_date end_date date =
    leb (midnight start_date) date && ltb date (midnight end_date)

-- A zero date among the rows is taken for one that does not parse.
abbrev pub scanned_rows : {A B : Type 0} → (A → Bool) → (List A → B) → List A → Result B
scanned_rows undated answer rows =
    if is_some (find? undated rows) then err parse_date else ok (answer rows)

module _ {F : Type 0} where
  unfoldable pub funds_of_portfolio : Ident → Tables F → List PortfolioFund
  funds_of_portfolio p t =
      keep (λ (pf : PortfolioFund). pf.portfolio_id == p && is_some (find_fund pf.fund_id t))
        t.portfolio_funds

  -- `GetPortfoliosForRequest` for a portfolio that is named.
  unfoldable pub get_portfolio_on_id : Ident → M F Portfolio
  get_portfolio_on_id p = query (λ t. or_not_found portfolio_not_found (find_portfolio p t))

  -- `GetPortfolioFundsOnPortfolioID` and `GetPortfolioFunds`.
  unfoldable pub get_portfolio_funds : Ident → M F (List PortfolioFund)
  get_portfolio_funds p = query (λ t. ok (funds_of_portfolio p t))

  unfoldable pub oldest_in : List Ident → Tables F → Time
  oldest_in pf_ids t = oldest_of (
      map (λ (x : Transaction F). x.date)
        (keep (λ (x : Transaction F). contains x.portfolio_fund_id pf_ids) t.transactions))

  -- An error counts as no transaction.
  abbrev pub zero_on_error : Result Time × World F → Result Time × World F
  zero_on_error (ok date, w) = (ok date, w)
  zero_on_error (err e, w) = (ok 0, w)

  unfoldable pub get_oldest_transaction : List Ident → M F Time
  get_oldest_transaction pf_ids w = zero_on_error (query (λ t. ok (oldest_in pf_ids t)) w)

  unfoldable pub transactions_between :
      List Ident → Time → Time → Tables F → Result (Map (List (Transaction F)))
  transactions_between pf_ids start_date end_date t =
      scanned_rows (λ (x : Transaction F). x.date == 0 || x.created_at == 0)
        (group_from (λ (x : Transaction F). x.portfolio_fund_id) [])
        (order_by (λ (x : Transaction F). x.date)
          (keep
            (λ (x : Transaction F).
              contains x.portfolio_fund_id pf_ids && between start_date end_date x.date)
            t.transactions))

  unfoldable pub get_transactions : List Ident → Time → Time → M F (Map (List (Transaction F)))
  get_transactions pf_ids start_date end_date =
      query (λ t. transactions_between pf_ids start_date end_date t)

  unfoldable pub dividends_between :
      List Ident → Time → Time → Tables F → Result (Map (List (Dividend F)))
  dividends_between pf_ids start_date end_date t =
      scanned_rows
        (λ (x : Dividend F). x.record_date == 0 || x.ex_dividend_date == 0 || x.created_at == 0)
        (group_from (λ (x : Dividend F). x.portfolio_fund_id) [])
        (order_by (λ (x : Dividend F). x.ex_dividend_date)
          (keep
            (λ (x : Dividend F).
              contains x.portfolio_fund_id pf_ids
              && between_with_time start_date end_date x.ex_dividend_date)
            t.dividends))

  unfoldable pub get_dividend_per_pf : List Ident → Time → Time → M F (Map (List (Dividend F)))
  get_dividend_per_pf pf_ids start_date end_date =
      query (λ t. dividends_between pf_ids start_date end_date t)

  unfoldable pub prices_between :
      List Ident → Time → Time → Tables F → Result (Map (List (FundPrice F)))
  prices_between fund_ids start_date end_date t =
      scanned_rows (λ (x : FundPrice F). x.date == 0)
        (group_from (λ (x : FundPrice F). x.fund_id) [])
        (order_by (λ (x : FundPrice F). x.date)
          (keep
            (λ (x : FundPrice F). contains x.fund_id fund_ids && between start_date end_date x.date)
            t.fund_prices))

  unfoldable pub get_fund_price : List Ident → Time → Time → M F (Map (List (FundPrice F)))
  get_fund_price fund_ids start_date end_date w =
      if ltb end_date start_date
      then (err invalid_range, w)
      else query (λ t. prices_between fund_ids start_date end_date t) w

  -- In the order of the date, then of the creation.
  unfoldable pub gains_between :
      Ident → Time → Time → Tables F → Result (Map (List (RealizedGainLoss F)))
  gains_between p start_date end_date t =
      scanned_rows (λ (x : RealizedGainLoss F). x.transaction_date == 0 || x.created_at == 0)
        (group_from (λ (x : RealizedGainLoss F). x.portfolio_id) [])
        (order_by (λ (x : RealizedGainLoss F). x.transaction_date)
          (order_by (λ (x : RealizedGainLoss F). x.created_at)
            (keep
              (λ (x : RealizedGainLoss F).
                x.portfolio_id == p && between start_date end_date x.transaction_date)
              t.realized)))

  unfoldable pub get_realized_gain_loss_by_portfolio :
      Ident → Time → Time → M F (Map (List (RealizedGainLoss F)))
  get_realized_gain_loss_by_portfolio p start_date end_date =
      query (λ t. gains_between p start_date end_date t)

  abbrev pub without_funds : List PortfolioFund → PortfolioData F
  without_funds details = record {
    portfolio_funds = details;
    oldest_transaction_date = 0;
    transactions_by_pf = [];
    dividends_by_pf = [];
    fund_prices_by_fund = [];
    realized_gains_by_portfolio = [];
  }

  unfoldable pub load_rows : Ident → Time → List PortfolioFund → List PortfolioFund → M F (Loaded F)
  load_rows p end_date details [] =
      pure (record { no_funds = true; portfolio_data = without_funds details })
  load_rows p end_date details (pf ∷ pfs) = do
    let pf_ids = map (λ (x : PortfolioFund). x.id) (pf ∷ pfs)
    oldest ← get_oldest_transaction pf_ids
    transactions ← get_transactions pf_ids oldest end_date
    dividends ← get_dividend_per_pf pf_ids oldest end_date
    prices ← get_fund_price (map (λ (x : PortfolioFund). x.fund_id) (pf ∷ pfs)) oldest end_date
    gains ← get_realized_gain_loss_by_portfolio p oldest end_date
    pure (record {
      no_funds = false;
      portfolio_data = record {
        portfolio_funds = details;
        oldest_transaction_date = oldest;
        transactions_by_pf = transactions;
        dividends_by_pf = dividends;
        fund_prices_by_fund = prices;
        realized_gains_by_portfolio = gains;
      };
    })

  unfoldable pub load_for_portfolio : Ident → Time → M F (Loaded F)
  load_for_portfolio p end_date = do
    pfs ← get_portfolio_funds p
    details ← get_portfolio_funds p
    load_rows p end_date details pfs

-- The fuel of a history is enough (History.Days), so `none` does not happen.
abbrev pub finished : {A : Type 0} → Option (Result A) → Result A
finished none = err database
finished (some r) = r

module _ {F : Type 0} ⦃f : Float64 F⦄ where
  unfoldable pub fund_history_on_fly :
      Ident → (start_date end_date : Time) → M F (List (FundHistoryResponse F))
  fund_history_on_fly p start_date end_date = do
    portfolio ← get_portfolio_on_id p
    loaded ← load_for_portfolio portfolio.id end_date
    lift_result (
        finished (
          calculate_fund_history_on_fly loaded.no_funds loaded.portfolio_data p start_date
            end_date))
