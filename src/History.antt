-- ===== src/History.antt =====
-- The on-demand fund history of internal/service/materialized_helpers.go: one entry for each fund of
-- a portfolio and each day, and `MapRealizedGainsByPF` of portfolio_data_loader.go.
pub mod Days
pub mod Maps
pub mod Reported
mod Tests
use investment_portfolio_man.Base.{
  ℕ, zero, suc, ◌+◌, ◌-◌, ◌/◌, Bool, true, false, ◌&&◌, List, [], ◌∷◌, ◌++◌, Option, none, some,
  find?, ◌==◌, ltb, if◌then◌else◌,
}
use investment_portfolio_man.Float64.{Float64, ◌+f◌, nought, round}
use investment_portfolio_man.Result.{Result, ok, err, ◌>>=◌}
use investment_portfolio_man.Model.{
  Ident, Time, Map, day, midnight, Transaction, Dividend, FundPrice, RealizedGainLoss,
  FundHistoryEntry, FundHistoryResponse, PortfolioFund,
}
use investment_portfolio_man.Metrics.{
  FundMetrics, GainTotals, calculate_fund_metrics, process_dividend_shares_for_date,
  process_dividend_amount_for_date, process_realized_gain_loss_for_date,
}

-- `m[key]` of a map, with the zero value of its values.
abbrev pub lookup_or {ℓ} : {V : Type ℓ} → V → Ident → Map V → V
lookup_or zero_value key [] = zero_value
lookup_or zero_value key ((present, value) ∷ others) =
    if present == key then value else lookup_or zero_value key others

-- `m[key] = value`.
abbrev pub insert {ℓ} : {V : Type ℓ} → Ident → V → Map V → Map V
insert key value [] = (key, value) ∷ []
insert key value ((present, old) ∷ others) =
    if present == key then (present, value) ∷ others else (present, old) ∷ insert key value others

-- The fields of `PortfolioData` that a history is computed from.
pub record PortfolioData (F : Type 0) : Type 0 where
  pub portfolio_funds : List PortfolioFund
  pub oldest_transaction_date : Time
  pub transactions_by_pf : Map (List (Transaction F))
  pub dividends_by_pf : Map (List (Dividend F))
  pub fund_prices_by_fund : Map (List (FundPrice F))
  pub realized_gains_by_portfolio : Map (List (RealizedGainLoss F))

module _ {F : Type 0} where
  abbrev pub append_gain :
      Ident → RealizedGainLoss F → Map (List (RealizedGainLoss F)) → Map (List (RealizedGainLoss F))
  append_gain k r m = insert k (lookup_or [] k m ++ (r ∷ [])) m

  pub gains_of_entry :
      RealizedGainLoss F
      → List PortfolioFund
      → Map (List (RealizedGainLoss F))
      → Map (List (RealizedGainLoss F))
  gains_of_entry r [] m = m
  gains_of_entry r (pf ∷ pfs) m =
      gains_of_entry r pfs (if r.fund_id == pf.fund_id then append_gain pf.id r m else m)

  pub gains_by_pf :
      List (RealizedGainLoss F)
      → List PortfolioFund
      → Map (List (RealizedGainLoss F))
      → Map (List (RealizedGainLoss F))
  gains_by_pf [] pfs m = m
  gains_by_pf (r ∷ rs) pfs m = gains_by_pf rs pfs (gains_of_entry r pfs m)

  pub map_realized_gains_by_pf : PortfolioData F → Ident → Map (List (RealizedGainLoss F))
  map_realized_gains_by_pf d portfolio_id =
      gains_by_pf (lookup_or [] portfolio_id d.realized_gains_by_portfolio) d.portfolio_funds []

module _ {F : Type 0} ⦃f : Float64 F⦄ where
  pub fund_entry :
      PortfolioFund → FundMetrics F → (dividend_amount : F) → GainTotals F → FundHistoryEntry F
  fund_entry pf m dividend_amount g = record {
    id = 0;
    portfolio_fund_id = pf.id;
    fund_id = pf.fund_id;
    date = 0;
    shares = round m.shares;
    price = round m.latest_price;
    value = round m.value;
    cost = round m.cost;
    realized_gain = round g.realized_gain_loss;
    unrealized_gain = round m.unrealized_gain;
    total_gain_loss = round (m.unrealized_gain +f g.realized_gain_loss);
    dividends = round dividend_amount;
    fees = round m.fees;
    sale_proceeds = round g.sale_proceeds;
    original_cost = round g.cost_basis;
  }

  pub calculate_fund_entry :
      PortfolioFund
      → Time
      → PortfolioData F
      → List (RealizedGainLoss F)
      → Result (FundHistoryEntry F)
  calculate_fund_entry pf date d realized_gains =
      let transactions = lookup_or [] pf.id d.transactions_by_pf in
      let dividend_shares = process_dividend_shares_for_date d.dividends_by_pf transactions date in
      calculate_fund_metrics pf.id pf.fund_id date transactions
        (lookup_or nought pf.id dividend_shares) (lookup_or [] pf.fund_id d.fund_prices_by_fund)
        false
      >>= λ m. ok (
          fund_entry pf m
            (process_dividend_amount_for_date (lookup_or [] pf.id d.dividends_by_pf) date)
            (process_realized_gain_loss_for_date realized_gains date))

  -- An entry with no shares and no activity, which is left out.
  pub has_no_data : FundHistoryEntry F → Bool
  has_no_data e =
      f.eq e.shares nought
      && f.eq e.realized_gain nought
      && f.eq e.dividends nought
      && f.eq e.sale_proceeds nought
      && f.eq e.original_cost nought
      && f.eq e.fees nought

  pub funds_loop :
      List PortfolioFund
      → Time
      → PortfolioData F
      → Map (List (RealizedGainLoss F))
      → Result (List (FundHistoryEntry F))
  funds_loop [] date d gains = ok []
  funds_loop (pf ∷ pfs) date d gains =
      calculate_fund_entry pf date d (lookup_or [] pf.id gains) >>= λ e.
      funds_loop pfs date d gains >>= λ rest. ok (if has_no_data e then rest else e ∷ rest)

  pub calculate_funds_for_date :
      Time → PortfolioData F → Map (List (RealizedGainLoss F)) → Result (List (FundHistoryEntry F))
  calculate_funds_for_date date d gains = funds_loop d.portfolio_funds date d gains

  abbrev pub with_day :
      Time → List (FundHistoryEntry F) → List (FundHistoryResponse F) → List (FundHistoryResponse F)
  with_day date [] rest = rest
  with_day date (e ∷ es) rest = record { date = date; funds = e ∷ es } ∷ rest

  -- A day's funds in front of the days after it.
  pub prepend_day :
      Time
      → Result (List (FundHistoryEntry F))
      → Option (Result (List (FundHistoryResponse F)))
      → Option (Result (List (FundHistoryResponse F)))
  prepend_day date (err e) next = some (err e)
  prepend_day date (ok funds) none = none
  prepend_day date (ok funds) (some r) = some (r >>= λ rest. ok (with_day date funds rest))

  -- The loop over the days; `none` is a run that the fuel cuts off.
  pub history_loop :
      (fuel : ℕ)
      → (date end_date : Time) → PortfolioData F
      → Map (List (RealizedGainLoss F))
      → Option (Result (List (FundHistoryResponse F)))
  unfolding prepend_day
  history_loop zero date end_date d gains = none
  history_loop (suc fuel) date end_date d gains =
      let days =
        prepend_day date (calculate_funds_for_date date d gains)
          (history_loop fuel (date + day) end_date d gains) in
      if ltb end_date date then some (ok []) else days

  -- One round for each day from the start date to the end date, and one to see that it is over.
  pub calculate_fund_history_by_date :
      PortfolioData F
      → Map (List (RealizedGainLoss F))
      → (start_date end_date : Time) → Option (Result (List (FundHistoryResponse F)))
  calculate_fund_history_by_date d gains start_date end_date =
      history_loop ((end_date - start_date) / day + 2) start_date end_date d gains

  -- From `data.OldestTransactionDate` on, and from midnight.
  abbrev pub first_day : PortfolioData F → Time → Time
  first_day d start_date = midnight (
      if ltb 0 d.oldest_transaction_date && ltb start_date d.oldest_transaction_date
      then d.oldest_transaction_date
      else start_date)

  -- `calculateFundHistoryOnFly` on the data that the loader returns; `no_funds` is
  -- `len(data.PFIDs) == 0`.
  pub calculate_fund_history_on_fly :
      Bool
      → PortfolioData F
      → Ident
      → (start_date end_date : Time) → Option (Result (List (FundHistoryResponse F)))
  calculate_fund_history_on_fly no_funds d portfolio_id start_date end_date =
      if no_funds
      then some (ok [])
      else calculate_fund_history_by_date d (map_realized_gains_by_pf d portfolio_id)
          (first_day d start_date) end_date
