-- ===== src/Metrics/Tests.antt =====
-- A fund with a purchase, a sale and prices, and the theorems on its valuation.
use investment_portfolio_man.Base.{ℕ, ◌*◌, ◌≡◌, false, [], ◌∷◌, arith}
use investment_portfolio_man.Base.Int.{pos}
use investment_portfolio_man.Float64.Micro.{Micro, micro_float}
use investment_portfolio_man.Float64.{nought}
use investment_portfolio_man.Result.{ok, ◌>>=◌}
use investment_portfolio_man.Model.{day, Transaction, buy, sell, FundPrice}
use investment_portfolio_man.Metrics.{
  calculate_fund_metrics, metrics_of, start_position, get_latest_price,
}
use investment_portfolio_man.Metrics.AsOf.{apply_all, calculate_fund_metrics-as_of}

abbrev micro : ℕ → Micro
micro n = pos (n * 1_000_000)

abbrev purchase : Transaction Micro
purchase = record {
  id = 21;
  portfolio_fund_id = 5;
  date = 3 * day;
  kind = buy;
  shares = micro 10;
  cost_per_share = micro 2;
  created_at = 3 * day;
}

abbrev sale : Transaction Micro
sale = record purchase { id = 22; date = 6 * day; kind = sell; shares = micro 4 }

abbrev price_at : ℕ → ℕ → FundPrice Micro
price_at n p = record { id = n; fund_id = 1; date = n * day; price = micro p }

calculate_fund_metrics-as_of_example :
    calculate_fund_metrics 5 1
      (5 * day)
      (purchase ∷ sale ∷ [])
      nought
      (price_at 4 3 ∷ price_at 7 9 ∷ [])
      false
    ≡ (apply_all (purchase ∷ []) (start_position nought) >>= λ p. ok (metrics_of 5 1 (micro 3) p))
unfolding get_latest_price
calculate_fund_metrics-as_of_example =
    calculate_fund_metrics-as_of 5 1 (5 * day) (purchase ∷ sale ∷ []) nought
      (price_at 4 3 ∷ price_at 7 9 ∷ []) ((omega arith, tt), (tt, tt)) ((omega arith, tt), (tt, tt))
