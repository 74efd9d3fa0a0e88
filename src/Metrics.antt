-- ===== src/Metrics.antt =====
-- The valuation of one fund on one date: internal/service/fund_metrics.go, and the sums over
-- dividends and realized gains of dividend_service.go and realizedGainLoss_service.go.
pub mod AsOf
mod Tests
use investment_portfolio_man.Base.{
  ℕ, Bool, ◌||◌, not, List, [], ◌∷◌, map, Option, none, some, find?, ◌==◌, if◌then◌else◌,
}
use investment_portfolio_man.Float64.{Float64, ◌+f◌, ◌-f◌, ◌*f◌, ◌/f◌, nought}
use investment_portfolio_man.Result.{Result, ok, err, ◌>>=◌, unsupported_type}
use investment_portfolio_man.Model.{
  Ident, Time, Map, on_or_before, Transaction, TransactionType, buy, sell, dividend, fee,
  other_type, Dividend, FundPrice, RealizedGainLoss,
}

pub record FundMetrics (F : Type 0) : Type 0 where
  pub portfolio_fund_id : Ident
  pub fund_id : Ident
  pub shares : F
  pub cost : F
  pub latest_price : F
  pub dividend_total : F
  pub value : F
  pub unrealized_gain : F
  pub fees : F

-- The variables of the loop in `calculateFundMetrics`.
pub record Position (F : Type 0) : Type 0 where
  pub shares : F
  pub cost : F
  pub dividend_total : F
  pub fees : F

module _ {F : Type 0} ⦃f : Float64 F⦄ where
  abbrev pub sell_cost : F → F → F → F
  sell_cost cost left sold = if f.lt nought left then cost /f (left +f sold) *f left else nought

  -- The `switch` on the transaction's type.
  unfoldable pub apply_kind : TransactionType → F → F → Position F → Result (Position F)
  apply_kind buy n each p = ok (record p { shares = p.shares +f n; cost = p.cost +f n *f each })
  apply_kind dividend n each p = ok (record p { dividend_total = p.dividend_total +f n *f each })
  apply_kind sell n each p =
      ok (record p { shares = p.shares -f n; cost = sell_cost p.cost (p.shares -f n) n })
  apply_kind fee n each p = ok (record p { cost = p.cost +f each; fees = p.fees +f each })
  apply_kind other_type n each p = err unsupported_type

  unfoldable pub apply_transaction : Transaction F → Position F → Result (Position F)
  unfolding apply_kind
  apply_transaction t p = apply_kind t.kind t.shares t.cost_per_share p

  -- The loop, which stops at the first transaction after the date.
  unfoldable pub replay : List (Transaction F) → Time → Position F → Result (Position F)
  replay [] date p = ok p
  replay (t ∷ ts) date p =
      if on_or_before t.date date then (apply_transaction t p >>= λ p'. replay ts date p') else ok p

  unfoldable pub price_loop : List (FundPrice F) → Time → F → F
  price_loop [] target latest = latest
  price_loop (p ∷ ps) target latest =
      if on_or_before p.date target then price_loop ps target p.price else latest

  unfoldable pub get_price_for_date : List (FundPrice F) → Time → F
  unfolding price_loop
  get_price_for_date prices target = price_loop prices target nought

  pub get_latest_price : List (FundPrice F) → F
  get_latest_price [] = nought
  get_latest_price (p ∷ []) = p.price
  get_latest_price (p ∷ q ∷ ps) = get_latest_price (q ∷ ps)

  abbrev pub has_any : List (FundPrice F) → Bool
  has_any [] = Bool.false
  has_any (p ∷ ps) = Bool.true

  unfoldable pub price_of : List (FundPrice F) → Time → Bool → F
  price_of prices date use_latest =
      if has_any prices
      then (if use_latest then get_latest_price prices else get_price_for_date prices date)
      else nought

  unfoldable pub start_position : F → Position F
  start_position dividend_shares = record {
    shares = dividend_shares;
    cost = nought;
    dividend_total = nought;
    fees = nought;
  }

  -- What `calculateFundMetrics` returns once the loop is done.
  unfoldable pub metrics_of : Ident → Ident → F → Position F → FundMetrics F
  metrics_of pf_id fund_id latest_price p =
      let value = if f.lt nought latest_price then p.shares *f latest_price else nought in
      record {
        portfolio_fund_id = pf_id;
        fund_id = fund_id;
        shares = p.shares;
        cost = p.cost;
        latest_price = latest_price;
        dividend_total = p.dividend_total;
        value = value;
        unrealized_gain = value -f p.cost;
        fees = p.fees;
      }

  unfoldable pub calculate_fund_metrics :
      Ident
      → Ident
      → Time
      → List (Transaction F)
      → F
      → List (FundPrice F)
      → Bool
      → Result (FundMetrics F)
  calculate_fund_metrics pf_id fund_id date transactions dividend_shares prices use_latest =
      replay transactions date (start_position dividend_shares) >>= λ p.
      ok (metrics_of pf_id fund_id (price_of prices date use_latest) p)

  -- The inner loop over the transactions: the shares of the first one with the identifier.
  abbrev pub reinvested : List (Transaction F) → Ident → F → F
  reinvested ts id acc = elim (find? (λ t. t.id == id) ts) [ none ↦ acc | some t ↦ acc +f t.shares ]

  unfoldable pub dividend_shares_loop : List (Dividend F) → List (Transaction F) → Time → F → F
  dividend_shares_loop [] ts date acc = acc
  dividend_shares_loop (d ∷ ds) ts date acc =
      if on_or_before d.ex_dividend_date date
      then dividend_shares_loop ds ts date (
          if d.reinvestment_transaction_id == 0
          then acc
          else reinvested ts d.reinvestment_transaction_id acc)
      else acc

  unfoldable pub process_dividend_shares_for_date :
      Map (List (Dividend F)) → List (Transaction F) → Time → Map F
  process_dividend_shares_for_date [] ts date = []
  process_dividend_shares_for_date ((pf_id, ds) ∷ m) ts date =
      (pf_id, dividend_shares_loop ds ts date nought) ∷ process_dividend_shares_for_date m ts date

  unfoldable pub dividend_amount_loop : List (Dividend F) → Time → F → F
  dividend_amount_loop [] date total = total
  dividend_amount_loop (d ∷ ds) date total =
      if on_or_before d.ex_dividend_date date
      then dividend_amount_loop ds date (total +f d.total_amount)
      else total

  unfoldable pub process_dividend_amount_for_date : List (Dividend F) → Time → F
  process_dividend_amount_for_date ds date = dividend_amount_loop ds date nought

-- The three totals of `processRealizedGainLossForDate`.
pub record GainTotals (F : Type 0) : Type 0 where
  pub realized_gain_loss : F
  pub sale_proceeds : F
  pub cost_basis : F

module _ {F : Type 0} ⦃f : Float64 F⦄ where
  pub add_gain : RealizedGainLoss F → GainTotals F → GainTotals F
  add_gain r g = record {
    realized_gain_loss = g.realized_gain_loss +f r.realized_gain_loss;
    sale_proceeds = g.sale_proceeds +f r.sale_proceeds;
    cost_basis = g.cost_basis +f r.cost_basis;
  }

  unfoldable pub gain_loop : List (RealizedGainLoss F) → Time → GainTotals F → GainTotals F
  gain_loop [] date g = g
  gain_loop (r ∷ rs) date g =
      gain_loop rs date (if on_or_before r.transaction_date date then add_gain r g else g)

  unfoldable pub process_realized_gain_loss_for_date :
      List (RealizedGainLoss F) → Time → GainTotals F
  process_realized_gain_loss_for_date rs date =
      gain_loop rs date
        (record { realized_gain_loss = nought; sale_proceeds = nought; cost_basis = nought })
