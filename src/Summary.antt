-- ===== src/Summary.antt =====
-- The daily portfolio history of internal/service/materialized_helpers.go, with
-- `processTransactionsForDate` and `GetPortfolioHistory` of materialized_service.go on the data that
-- the loader returns.
pub mod Begun
pub mod Days
pub mod Grouping
pub mod Reported
mod Tests
use investment_portfolio_man.Base.{
  ℕ, zero, suc, ◌+◌, ◌-◌, ◌/◌, Bool, true, false, ◌&&◌, List, [], ◌∷◌, ◌++◌, Option, none, some,
  ltb, leb, ◌==◌, if◌then◌else◌,
}
use investment_portfolio_man.Float64.{Float64, ◌+f◌, ◌-f◌, nought, round}
use investment_portfolio_man.Result.{Result, ok, err, ◌>>=◌}
use investment_portfolio_man.Model.{
  Ident, Time, Map, day, midnight, on_or_before, Transaction, Dividend, FundPrice,
}
use investment_portfolio_man.Metrics.{
  FundMetrics, GainTotals, calculate_fund_metrics, process_dividend_shares_for_date,
  process_dividend_amount_for_date, process_realized_gain_loss_for_date,
}
use investment_portfolio_man.History.{PortfolioData, lookup_or, insert}
use investment_portfolio_man.Store.Tables.{Portfolio}

pub record TransactionMetrics (F : Type 0) : Type 0 where
  pub total_shares : F
  pub total_cost : F
  pub total_value : F
  pub total_dividends : F
  pub total_fees : F

-- Less the name and the description.
pub record PortfolioSummary (F : Type 0) : Type 0 where
  pub id : Ident
  pub total_value : F
  pub total_cost : F
  pub total_dividends : F
  pub total_unrealized_gain_loss : F
  pub total_realized_gain_loss : F
  pub total_sale_proceeds : F
  pub total_original_cost : F
  pub total_gain_loss : F
  pub is_archived : Bool

pub record PortfolioHistory (F : Type 0) : Type 0 where
  pub date : Time
  pub portfolios : List (PortfolioSummary F)

pub record DisplayRange : Type 0 where
  pub display_start : Time
  pub display_end : Time

abbrev pub is_displayed : DisplayRange → Time → Bool
is_displayed range date =
    on_or_before range.display_start date && on_or_before date range.display_end

-- The fields of `PortfolioData` that name the portfolio and the fund of a portfolio-fund.
pub record Owners : Type 0 where
  pub portfolio_fund_to_portfolio : Map Ident
  pub portfolio_fund_to_fund : Map Ident

-- What `groupTransactionsByPortfolio` or `groupDividendsByPortfolio` returns: the rows of a portfolio,
-- and the same by portfolio-fund.
pub record Grouped (A : Type 0) : Type 0 where
  pub by_portfolio : Map (List A)
  pub by_pf_by_portfolio : Map (Map (List A))

pub calculate_display_date_range : (requested_start requested_end oldest now : Time) → DisplayRange
calculate_display_date_range requested_start requested_end oldest now = record {
  display_start = midnight (if ltb requested_start oldest then oldest else requested_start);
  display_end = midnight (if ltb now requested_end then now else requested_end);
}

abbrev pub add_group : {A : Type 0} → Map Ident → Ident → List A → Grouped A → Grouped A
add_group owners pf_id rows g =
    let p = lookup_or 0 pf_id owners in
    record {
      by_portfolio = insert p (lookup_or [] p g.by_portfolio ++ rows) g.by_portfolio;
      by_pf_by_portfolio =
          insert p (insert pf_id rows (lookup_or [] p g.by_pf_by_portfolio)) g.by_pf_by_portfolio;
    }

-- One loop for both functions, in the order of one iteration over the map.
pub group_by_portfolio : {A : Type 0} → Map Ident → Map (List A) → Grouped A → Grouped A
group_by_portfolio owners [] g = g
group_by_portfolio owners ((pf_id, rows) ∷ m) g =
    group_by_portfolio owners m (add_group owners pf_id rows g)

abbrev pub no_groups : {A : Type 0} → Grouped A
no_groups = record { by_portfolio = []; by_pf_by_portfolio = [] }

module _ {F : Type 0} where
  -- The date of `slices.MinFunc`.
  abbrev pub earliest : Time → List (Transaction F) → Time
  earliest date [] = date
  earliest date (t ∷ ts) = earliest (if ltb t.date date then t.date else date) ts

  -- Whether a portfolio has a transaction up to a date.
  abbrev pub has_begun : List (Transaction F) → Time → Bool
  has_begun [] date = false
  has_begun (t ∷ ts) date = leb (earliest t.date ts) date

module _ {F : Type 0} ⦃f : Float64 F⦄ where
  abbrev pub no_metrics : TransactionMetrics F
  no_metrics = record {
    total_shares = nought;
    total_cost = nought;
    total_value = nought;
    total_dividends = nought;
    total_fees = nought;
  }

  abbrev pub add_metrics : FundMetrics F → TransactionMetrics F → TransactionMetrics F
  add_metrics m s = record {
    total_shares = s.total_shares +f m.shares;
    total_cost = s.total_cost +f m.cost;
    total_value = s.total_value +f m.value;
    total_dividends = s.total_dividends +f m.dividend_total;
    total_fees = s.total_fees +f m.fees;
  }

  pub metrics_loop :
      Map (List (Transaction F))
      → Map F
      → Owners
      → Map (List (FundPrice F))
      → Time
      → TransactionMetrics F
      → Result (TransactionMetrics F)
  metrics_loop [] dividend_shares owners prices date s = ok s
  metrics_loop ((pf_id, transactions) ∷ m) dividend_shares owners prices date s =
      let fund_id = lookup_or 0 pf_id owners.portfolio_fund_to_fund in
      calculate_fund_metrics pf_id fund_id date transactions
        (lookup_or nought pf_id dividend_shares) (lookup_or [] fund_id prices) false
      >>= λ x. metrics_loop m dividend_shares owners prices date (add_metrics x s)

  abbrev pub at_least_nought : TransactionMetrics F → TransactionMetrics F
  at_least_nought s = record {
    total_shares = f.max nought s.total_shares;
    total_cost = f.max nought s.total_cost;
    total_value = f.max nought s.total_value;
    total_dividends = f.max nought s.total_dividends;
    total_fees = f.max nought s.total_fees;
  }

  pub process_transactions_for_date :
      Map (List (Transaction F))
      → Map F
      → Owners
      → Map (List (FundPrice F))
      → Time
      → Result (TransactionMetrics F)
  process_transactions_for_date [] dividend_shares owners prices date = ok no_metrics
  process_transactions_for_date (x ∷ m) dividend_shares owners prices date =
      metrics_loop (x ∷ m) dividend_shares owners prices date no_metrics >>= λ s.
      ok (at_least_nought s)

  pub summary_of :
      Portfolio → TransactionMetrics F → (dividend_amount : F) → GainTotals F → PortfolioSummary F
  summary_of p s dividend_amount g = record {
    id = p.id;
    total_value = round s.total_value;
    total_cost = round s.total_cost;
    total_dividends = round dividend_amount;
    total_unrealized_gain_loss = round (s.total_value -f s.total_cost);
    total_realized_gain_loss = round g.realized_gain_loss;
    total_sale_proceeds = round g.sale_proceeds;
    total_original_cost = round g.cost_basis;
    total_gain_loss = round (g.realized_gain_loss +f (s.total_value -f s.total_cost));
    is_archived = p.is_archived;
  }

  pub calculate_single_portfolio_summary :
      Portfolio
      → Time
      → PortfolioData F
      → Owners
      → Grouped (Transaction F)
      → Grouped (Dividend F)
      → Result (PortfolioSummary F)
  calculate_single_portfolio_summary p date d owners txs divs =
      process_transactions_for_date (lookup_or [] p.id txs.by_pf_by_portfolio)
        (process_dividend_shares_for_date (lookup_or [] p.id divs.by_pf_by_portfolio)
          (lookup_or [] p.id txs.by_portfolio) date)
        owners d.fund_prices_by_fund date
      >>= λ s. ok (
          summary_of p s
            (process_dividend_amount_for_date (lookup_or [] p.id divs.by_portfolio) date)
            (process_realized_gain_loss_for_date (lookup_or [] p.id d.realized_gains_by_portfolio)
              date))

  -- A portfolio that has not begun is left out.
  pub calculate_portfolio_summary_for_date :
      Time
      → List Portfolio
      → PortfolioData F
      → Owners
      → Grouped (Transaction F)
      → Grouped (Dividend F)
      → Result (List (PortfolioSummary F))
  calculate_portfolio_summary_for_date date [] d owners txs divs = ok []
  calculate_portfolio_summary_for_date date (p ∷ ps) d owners txs divs =
      let rest = calculate_portfolio_summary_for_date date ps d owners txs divs in
      let whole = calculate_single_portfolio_summary p date d owners txs divs >>= λ s.
      rest >>= λ others. ok (s ∷ others) in
      if has_begun (lookup_or [] p.id txs.by_portfolio) date then whole else rest

  -- The summaries of a day, if it is displayed, in front of the days after it.
  abbrev pub with_summaries :
      Bool
      → Time
      → List (PortfolioSummary F)
      → List (PortfolioHistory F)
      → List (PortfolioHistory F)
  with_summaries displayed date summaries rest =
      if displayed then record { date = midnight date; portfolios = summaries } ∷ rest else rest

  pub prepend_summaries :
      Bool
      → Time
      → Result (List (PortfolioSummary F))
      → Option (Result (List (PortfolioHistory F)))
      → Option (Result (List (PortfolioHistory F)))
  prepend_summaries displayed date (err e) next = some (err e)
  prepend_summaries displayed date (ok summaries) none = none
  prepend_summaries displayed date (ok summaries) (some r) =
      some (r >>= λ rest. ok (with_summaries displayed date summaries rest))

  -- The loop over the days up to `now`; `none` is a run that the fuel cuts off.
  pub daily_loop :
      (fuel : ℕ)
      → (date now : Time) → List Portfolio
      → PortfolioData F
      → Owners
      → Grouped (Transaction F)
      → Grouped (Dividend F)
      → DisplayRange
      → Option (Result (List (PortfolioHistory F)))
  unfolding prepend_summaries
  daily_loop zero date now ps d owners txs divs range = none
  daily_loop (suc fuel) date now ps d owners txs divs range =
      let days =
        prepend_summaries (is_displayed range date) date
          (calculate_portfolio_summary_for_date date ps d owners txs divs)
          (daily_loop fuel (date + day) now ps d owners txs divs range) in
      if ltb now date then some (ok []) else days

  -- One round for each day from the oldest transaction to `now`, and one to see that it is over.
  pub calculate_daily_portfolio_history :
      List Portfolio
      → PortfolioData F
      → Owners
      → Grouped (Transaction F)
      → Grouped (Dividend F)
      → DisplayRange
      → (now : Time) → Option (Result (List (PortfolioHistory F)))
  calculate_daily_portfolio_history ps d owners txs divs range now =
      daily_loop ((now - d.oldest_transaction_date) / day + 2) d.oldest_transaction_date now ps d
        owners txs divs range

  -- `GetPortfolioHistory` on the portfolios of the request and the data that the loader returns.
  pub get_portfolio_history :
      List Portfolio
      → PortfolioData F
      → Owners
      → (requested_start requested_end now : Time) → Option (Result (List (PortfolioHistory F)))
  get_portfolio_history ps d owners requested_start requested_end now =
      calculate_daily_portfolio_history ps d owners
        (group_by_portfolio owners.portfolio_fund_to_portfolio d.transactions_by_pf no_groups)
        (group_by_portfolio owners.portfolio_fund_to_portfolio d.dividends_by_pf no_groups)
        (calculate_display_date_range requested_start requested_end d.oldest_transaction_date now)
        now
