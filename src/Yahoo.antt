-- ===== src/Yahoo.antt =====
-- internal/yahoo: `ParseChart` and `GetIndicatorForDate` of yahoo.go on the types of model.go.
pub mod Chart
pub mod Past
use investment_portfolio_man.Base.{
  ℕ, zero, suc, ◌+◌, ◌*◌, not, List, [], ◌∷◌, Option, none, some, find?, ltb, ◌==◌, length, map,
  if◌then◌else◌,
}
use investment_portfolio_man.Base.Int.{ℤ, pos}
use investment_portfolio_man.Float64.{Float64, nought}
use investment_portfolio_man.Result.{
  Result, ok, err, ◌>>=◌, no_results, no_prices, mismatched_lengths, out_of_range, cell,
}
use investment_portfolio_man.Model.{Ident, Time, day, midnight}

-- The arrays of a quote; `none` is a null.
pub record Quote (F : Type 0) : Type 0 where
  pub open_prices : List (Option F)
  pub close_prices : List (Option F)
  pub volumes : List (Option ℤ)
  pub high_prices : List (Option F)
  pub low_prices : List (Option F)

pub record Meta : Type 0 where
  pub currency : Ident
  pub symbol : Ident
  pub exchange_name : Ident
  pub full_exchange_name : Ident
  pub long_name : Ident
  pub short_name : Ident

-- `yahoo.Result`; `timestamps` are seconds from 1970 on.
pub record ChartResult (F : Type 0) : Type 0 where
  pub meta : Meta
  pub timestamps : List ℕ
  pub quotes : List (Quote F)

pub record Indicators (F : Type 0) : Type 0 where
  pub date : Time
  pub price_open : F
  pub price_close : F
  pub volume : ℤ
  pub price_high : F
  pub price_low : F

pub record PriceChart (F : Type 0) : Type 0 where
  pub meta : Meta
  pub indicators : List (Indicators F)

-- `time.Unix(v, 0)`: 719,162 days lie before 1970.
abbrev pub unix : ℕ → Time
unix v = 719_162 * day + v * 1_000_000_000

abbrev pub or_zero : {V : Type 0} → V → Option V → V
or_zero zero_value none = zero_value
or_zero zero_value (some v) = v

module _ {F : Type 0} ⦃f : Float64 F⦄ where
  unfoldable pub indicator_at : ℕ → Quote F → Time → (close : F) → Result (Indicators F)
  indicator_at i q date close = cell i q.open_prices >>= λ o. cell i q.volumes >>= λ v.
      cell i q.high_prices >>= λ h. cell i q.low_prices >>= λ l. ok (record {
        date = date;
        price_open = or_zero nought o;
        price_close = close;
        volume = or_zero (pos 0) v;
        price_high = or_zero nought h;
        price_low = or_zero nought l;
      })

  -- The timestamps and the close prices from the index on. A day that is not over, and one without
  -- a close price, is left out.
  unfoldable pub indicators_loop :
      (today : Time) → Quote F → ℕ → List ℕ → List (Option F) → Result (List (Indicators F))
  indicators_loop today q i [] closes = ok []
  indicators_loop today q i (v ∷ vs) [] = err out_of_range
  indicators_loop today q i (v ∷ vs) (none ∷ closes) = indicators_loop today q (i + 1) vs closes
  indicators_loop today q i (v ∷ vs) (some c ∷ closes) =
      let rest = indicators_loop today q (i + 1) vs closes in
      if not (ltb (midnight (unix v)) today)
      then rest
      else indicator_at i q (unix v) c >>= λ x. rest >>= λ xs. ok (x ∷ xs)

  abbrev pub chart_of_quote : (now : Time) → ChartResult F → Quote F → Result (PriceChart F)
  chart_of_quote now r q =
      if not (length q.close_prices == length r.timestamps)
      then err mismatched_lengths
      else indicators_loop (midnight now) q 0 r.timestamps q.close_prices >>= λ xs.
          ok (record { meta = r.meta; indicators = xs })

  abbrev pub chart_of_quotes : (now : Time) → ChartResult F → List (Quote F) → Result (PriceChart F)
  chart_of_quotes now r [] = err no_prices
  chart_of_quotes now r (q ∷ qs) =
      if length q.close_prices == 0 then err no_prices else chart_of_quote now r q

  -- Of `Response` only the results are read.
  unfoldable pub parse_chart : (now : Time) → List (ChartResult F) → Result (PriceChart F)
  parse_chart now [] = err no_results
  parse_chart now (r ∷ rs) =
      if length r.timestamps == 0 then err no_prices else chart_of_quotes now r r.quotes

module _ {F : Type 0} where
  unfoldable pub get_indicator_for_date : PriceChart F → Time → Option (Indicators F)
  get_indicator_for_date c target =
      find? (λ (x : Indicators F). midnight x.date == midnight target) c.indicators
