-- ===== src/History/Tests.antt =====
-- A portfolio with one fund, and the theorems on its history.
use investment_portfolio_man.Materialized.Regenerate.{flatten}
use investment_portfolio_man.Materialized.Read.{by_date, format_fund_history_from_materialized}
use investment_portfolio_man.Materialized.Read.Back.{dated_response}
use investment_portfolio_man.Materialized.Read.Reported.{calculate_fund_history_by_date-format}
use investment_portfolio_man.Base.{map, ℕ, ◌*◌, ◌≡◌, refl, List, [], ◌∷◌, some, arith}
use investment_portfolio_man.Base.Int.{pos}
use investment_portfolio_man.Float64.{round}
use investment_portfolio_man.Float64.Micro.{Micro, micro_float}
use investment_portfolio_man.Result.{ok}
use investment_portfolio_man.Model.{day, Transaction, buy, FundHistoryEntry, FundHistoryResponse}
use investment_portfolio_man.Metrics.{
  calculate_fund_metrics, process_dividend_shares_for_date, process_dividend_amount_for_date,
  process_realized_gain_loss_for_date, replay, price_of, apply_transaction, metrics_of,
  dividend_shares_loop, dividend_amount_loop, gain_loop, get_price_for_date, price_loop, apply_kind,
  start_position,
}
use investment_portfolio_man.History.{
  PortfolioData, calculate_fund_history_by_date, calculate_funds_for_date, funds_loop,
  calculate_fund_entry, fund_entry, has_no_data, history_loop, prepend_day,
}
use investment_portfolio_man.History.Days.{
  history_of, days_from, day_count, calculate_fund_history_by_date-total,
}
use investment_portfolio_man.History.Reported.{
  IsHistory, Reports, calculate_fund_history_by_date-IsHistory,
  calculate_fund_history_by_date_complete,
}

abbrev micro : ℕ → Micro
micro n = pos (n * 1_000_000)

abbrev purchase : Transaction Micro
purchase = record {
  id = 21;
  portfolio_fund_id = 5;
  date = 3 * day;
  kind = buy;
  shares = micro 10;
  cost_per_share = micro 2;
  created_at = 3 * day;
}

abbrev data_of_one : PortfolioData Micro
data_of_one = record {
  portfolio_funds = record { id = 5; portfolio_id = 2; fund_id = 1 } ∷ [];
  oldest_transaction_date = 3 * day;
  transactions_by_pf = (5, purchase ∷ []) ∷ [];
  dividends_by_pf = [];
  fund_prices_by_fund =
      (1, record { id = 51; fund_id = 1; date = 3 * day; price = micro 3 } ∷ []) ∷ [];
  realized_gains_by_portfolio = [];
}

-- Its entry from the purchase on.
abbrev held_entry : FundHistoryEntry Micro
held_entry = record {
  id = 0;
  portfolio_fund_id = 5;
  fund_id = 1;
  date = 0;
  shares = micro 10;
  price = micro 3;
  value = micro 30;
  cost = micro 20;
  realized_gain = micro 0;
  unrealized_gain = micro 10;
  total_gain_loss = micro 10;
  dividends = micro 0;
  fees = micro 0;
  sale_proceeds = micro 0;
  original_cost = micro 0;
}

-- Nothing is reported for the day before the purchase.
abbrev report : List (FundHistoryResponse Micro)
report =
    record { date = 3 * day; funds = held_entry ∷ [] }
    ∷ record { date = 4 * day; funds = held_entry ∷ [] }
    ∷ []

entry_on_4 : calculate_funds_for_date (4 * day) data_of_one [] ≡ ok (held_entry ∷ [])
unfolding calculate_funds_for_date funds_loop calculate_fund_entry fund_entry has_no_data
    calculate_fund_metrics process_dividend_shares_for_date process_dividend_amount_for_date
    process_realized_gain_loss_for_date replay price_of apply_transaction metrics_of
    dividend_shares_loop dividend_amount_loop gain_loop get_price_for_date price_loop apply_kind
    start_position round
entry_on_4 = refl

reported : calculate_fund_history_by_date data_of_one [] (2 * day) (4 * day) ≡ some (ok report)
unfolding calculate_fund_history_by_date history_loop prepend_day calculate_funds_for_date
    funds_loop calculate_fund_entry fund_entry has_no_data calculate_fund_metrics
    process_dividend_shares_for_date process_dividend_amount_for_date
    process_realized_gain_loss_for_date replay price_of apply_transaction metrics_of
    dividend_shares_loop dividend_amount_loop gain_loop get_price_for_date price_loop apply_kind
    start_position round
reported = refl

calculate_fund_history_by_date-total_example :
    calculate_fund_history_by_date data_of_one [] (2 * day) (4 * day)
    ≡ some (history_of data_of_one [] (days_from (day_count (2 * day) (4 * day)) (2 * day)))
calculate_fund_history_by_date-total_example =
    calculate_fund_history_by_date-total data_of_one [] (2 * day) (4 * day)

calculate_fund_history_by_date-IsHistory_example :
    IsHistory data_of_one [] (2 * day) (4 * day) report
calculate_fund_history_by_date-IsHistory_example =
    calculate_fund_history_by_date-IsHistory data_of_one [] (2 * day) (4 * day) reported

calculate_fund_history_by_date_complete_example :
    Reports data_of_one [] (4 * day) (held_entry ∷ []) report
calculate_fund_history_by_date_complete_example =
    calculate_fund_history_by_date_complete data_of_one [] (2 * day) (4 * day) 2 held_entry []
      reported (omega arith) entry_on_4

calculate_fund_history_by_date-format_example :
    format_fund_history_from_materialized (by_date (flatten report)) ≡ map dated_response report
calculate_fund_history_by_date-format_example =
    calculate_fund_history_by_date-format data_of_one [] (2 * day) (4 * day) report reported
