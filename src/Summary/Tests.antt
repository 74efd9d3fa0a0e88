-- ===== src/Summary/Tests.antt =====
-- A portfolio with one fund, and the theorems on its summaries.
use investment_portfolio_man.Base.{
  false, map, ℕ, ◌+◌, ◌*◌, ◌≡◌, refl, List, [], ◌∷◌, some, All, keep,
}
use investment_portfolio_man.Base.Int.{pos}
use investment_portfolio_man.Float64.{round}
use investment_portfolio_man.Float64.Micro.{Micro, micro_float}
use investment_portfolio_man.Result.{ok}
use investment_portfolio_man.Model.{day, midnight, Transaction, buy}
use investment_portfolio_man.Metrics.{
  calculate_fund_metrics, process_dividend_shares_for_date, process_dividend_amount_for_date,
  process_realized_gain_loss_for_date, replay, price_of, apply_transaction, metrics_of,
  dividend_shares_loop, dividend_amount_loop, gain_loop, get_price_for_date, price_loop, apply_kind,
  start_position,
}
use investment_portfolio_man.History.{PortfolioData, lookup_or}
use investment_portfolio_man.Store.Tables.{Portfolio}
use investment_portfolio_man.Summary.{
  PortfolioSummary, PortfolioHistory, Owners, Grouped, is_displayed, no_groups,
  calculate_display_date_range, group_by_portfolio, metrics_loop, process_transactions_for_date,
  summary_of, calculate_single_portfolio_summary, calculate_portfolio_summary_for_date,
  prepend_summaries, daily_loop, calculate_daily_portfolio_history, get_portfolio_history,
}
use investment_portfolio_man.Summary.Begun.{any_up_to, calculate_portfolio_summary_for_date-ids}
use investment_portfolio_man.Summary.Grouping.{group_by_portfolio-owned_rows}
use investment_portfolio_man.Summary.Days.{summaries_of}
use investment_portfolio_man.Summary.Reported.{
  Within, range, all_days, get_portfolio_history-total, get_portfolio_history-dates,
  get_portfolio_history-Within,
}

abbrev micro : ℕ → Micro
micro n = pos (n * 1_000_000)

abbrev purchase : Transaction Micro
purchase = record {
  id = 21;
  portfolio_fund_id = 5;
  date = 3 * day;
  kind = buy;
  shares = micro 10;
  cost_per_share = micro 2;
  created_at = 3 * day;
}

abbrev data_of_one : PortfolioData Micro
data_of_one = record {
  portfolio_funds = record { id = 5; portfolio_id = 2; fund_id = 1 } ∷ [];
  oldest_transaction_date = 3 * day;
  transactions_by_pf = (5, purchase ∷ []) ∷ [];
  dividends_by_pf = [];
  fund_prices_by_fund =
      (1, record { id = 51; fund_id = 1; date = 3 * day; price = micro 3 } ∷ []) ∷ [];
  realized_gains_by_portfolio = [];
}

abbrev owners_of_one : Owners
owners_of_one = record {
  portfolio_fund_to_portfolio = (5, 2) ∷ [];
  portfolio_fund_to_fund = (5, 1) ∷ [];
}

abbrev portfolios : List Portfolio
portfolios =
    record { id = 2; is_archived = false; exclude_from_overview = false }
    ∷ record { id = 4; is_archived = false; exclude_from_overview = false }
    ∷ []

-- The summary of the first one; the other one has no transactions.
abbrev held_summary : PortfolioSummary Micro
held_summary = record {
  id = 2;
  total_value = micro 30;
  total_cost = micro 20;
  total_dividends = micro 0;
  total_unrealized_gain_loss = micro 10;
  total_realized_gain_loss = micro 0;
  total_sale_proceeds = micro 0;
  total_original_cost = micro 0;
  total_gain_loss = micro 10;
  is_archived = false;
}

-- The request is from the day before the purchase to the day after it.
abbrev report : List (PortfolioHistory Micro)
report =
    record { date = 3 * day; portfolios = held_summary ∷ [] }
    ∷ record { date = 4 * day; portfolios = held_summary ∷ [] }
    ∷ []

reported :
    get_portfolio_history portfolios data_of_one owners_of_one (2 * day) (4 * day) (5 * day + 7)
    ≡ some (ok report)
unfolding get_portfolio_history calculate_daily_portfolio_history daily_loop prepend_summaries
    calculate_portfolio_summary_for_date calculate_single_portfolio_summary summary_of
    process_transactions_for_date metrics_loop calculate_display_date_range group_by_portfolio
    calculate_fund_metrics process_dividend_shares_for_date process_dividend_amount_for_date
    process_realized_gain_loss_for_date replay price_of apply_transaction metrics_of
    dividend_shares_loop dividend_amount_loop gain_loop get_price_for_date price_loop apply_kind
    start_position round
reported = refl

get_portfolio_history-total_example :
    get_portfolio_history portfolios data_of_one owners_of_one (2 * day) (4 * day) (5 * day + 7)
    ≡ some (
        summaries_of portfolios data_of_one owners_of_one
          (group_by_portfolio ((5, 2) ∷ []) data_of_one.transactions_by_pf no_groups)
          (group_by_portfolio ((5, 2) ∷ []) data_of_one.dividends_by_pf no_groups)
          (range portfolios data_of_one owners_of_one (2 * day) (4 * day) (5 * day + 7))
          (all_days portfolios data_of_one owners_of_one (2 * day) (4 * day) (5 * day + 7)))
get_portfolio_history-total_example =
    get_portfolio_history-total portfolios data_of_one owners_of_one (2 * day) (4 * day)
      (5 * day + 7)

get_portfolio_history-dates_example :
    map (λ e. e.date) report
    ≡ map midnight (
        keep
          (is_displayed
            (range portfolios data_of_one owners_of_one (2 * day) (4 * day) (5 * day + 7)))
          (all_days portfolios data_of_one owners_of_one (2 * day) (4 * day) (5 * day + 7)))
get_portfolio_history-dates_example =
    get_portfolio_history-dates portfolios data_of_one owners_of_one (2 * day) (4 * day)
      (5 * day + 7) report reported

get_portfolio_history-Within_example :
    All (Within (2 * day) (4 * day) (3 * day) (5 * day + 7)) (3 * day ∷ 4 * day ∷ [])
get_portfolio_history-Within_example =
    get_portfolio_history-Within portfolios data_of_one owners_of_one (2 * day) (4 * day)
      (5 * day + 7) report reported

abbrev grouped_purchase : Grouped (Transaction Micro)
grouped_purchase = record {
  by_portfolio = (2, purchase ∷ []) ∷ [];
  by_pf_by_portfolio = (2, (5, purchase ∷ []) ∷ []) ∷ [];
}

summaries_on_4 :
    calculate_portfolio_summary_for_date
      (4 * day)
      portfolios
      data_of_one
      owners_of_one
      grouped_purchase
      no_groups
    ≡ ok (held_summary ∷ [])
unfolding calculate_portfolio_summary_for_date calculate_single_portfolio_summary summary_of
    process_transactions_for_date metrics_loop calculate_fund_metrics
    process_dividend_shares_for_date process_dividend_amount_for_date
    process_realized_gain_loss_for_date replay price_of apply_transaction metrics_of
    dividend_shares_loop dividend_amount_loop gain_loop get_price_for_date price_loop apply_kind
    start_position round
summaries_on_4 = refl

calculate_portfolio_summary_for_date-ids_example :
    2 ∷ []
    ≡ map
        (λ p. p.id)
        (keep
          (λ p. any_up_to (lookup_or [] p.id grouped_purchase.by_portfolio) (4 * day))
          portfolios)
calculate_portfolio_summary_for_date-ids_example =
    calculate_portfolio_summary_for_date-ids (4 * day) data_of_one owners_of_one grouped_purchase
      no_groups portfolios summaries_on_4

group_by_portfolio-owned_rows_example :
    lookup_or {V = List ℕ} [] 2
      (group_by_portfolio
        ((5, 2) ∷ (6, 4) ∷ (7, 2) ∷ [])
        ((7, 1 ∷ 2 ∷ []) ∷ (6, 3 ∷ []) ∷ (5, 4 ∷ []) ∷ [])
        no_groups).by_portfolio
    ≡ 1 ∷ 2 ∷ 4 ∷ []
group_by_portfolio-owned_rows_example =
    group_by_portfolio-owned_rows ((5, 2) ∷ (6, 4) ∷ (7, 2) ∷ []) 2
      ((7, 1 ∷ 2 ∷ []) ∷ (6, 3 ∷ []) ∷ (5, 4 ∷ []) ∷ [])
