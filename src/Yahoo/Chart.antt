-- ===== src/Yahoo/Chart.antt =====
-- What `ParseChart` returns for a well-formed response.
use investment_portfolio_man.Base.{
  ℕ, zero, suc, ◌+◌, ◌<◌, ◌≤◌, ◌≡◌, refl, inl, inr, false, true, List, [], ◌∷◌, Option, none, some,
  map, length, ltb, ◌==◌, arith, Bool-cases, if◌then◌else◌,
}
use investment_portfolio_man.Float64.{Float64}
use investment_portfolio_man.Result.{ok, cell}
use investment_portfolio_man.Model.{Time, midnight}
use investment_portfolio_man.Yahoo.{
  Quote, ChartResult, Indicators, PriceChart, unix, indicator_at, indicators_loop, parse_chart,
}

cell-total : {V : Type 0} (i : ℕ) (xs : List V) → i < length xs → (x : V) × (cell i xs ≡ ok x)
cell-total i [] h = absurd (omega arith)
cell-total zero (x ∷ xs) h = (x, refl)
cell-total (suc i) (x ∷ xs) h = cell-total i xs (omega arith)

-- The days that are over, each with its close price, for those that have one.
abbrev pub closed_days : {F : Type 0} → (today : Time) → List ℕ → List (Option F) → List (Time × F)
closed_days today [] closes = []
closed_days today (v ∷ vs) [] = []
closed_days today (v ∷ vs) (none ∷ closes) = closed_days today vs closes
closed_days today (v ∷ vs) (some c ∷ closes) =
    if ltb (midnight (unix v)) today
    then (unix v, c) ∷ closed_days today vs closes
    else closed_days today vs closes

-- The arrays are as long as that of the timestamps.
abbrev pub IsEven : {F : Type 0} → Quote F → ℕ → Type 0
IsEven q n =
    (length q.close_prices ≡ n)
    × (n ≤ length q.open_prices)
    × (n ≤ length q.volumes)
    × (n ≤ length q.high_prices)
    × (n ≤ length q.low_prices)

module _ {F : Type 0} ⦃f : Float64 F⦄ where
  abbrev pub close_of : Indicators F → Time × F
  close_of x = (x.date, x.price_close)

  indicator_at-total :
      (i : ℕ) (q : Quote F) (date : Time) (close : F)
      → i < length q.open_prices
      → i < length q.volumes
      → i < length q.high_prices
      → i < length q.low_prices
      → (x : Indicators F) × (indicator_at i q date close ≡ ok x) × (close_of x ≡ (date, close))
  unfolding indicator_at
  indicator_at-total i q date close ho hv hh hl =
      let (o, eo) = cell-total i q.open_prices ho in
      let (v, ev) = cell-total i q.volumes hv in
      let (h, eh) = cell-total i q.high_prices hh in
      let (l, el) = cell-total i q.low_prices hl in rw (eo, ev, eh, el) ((_, refl, refl))

  indicators_loop-closed :
      (today : Time) (q : Quote F) (i : ℕ) (vs : List ℕ) (closes : List (Option F))
      → length closes ≡ length vs
      → i + length vs ≤ length q.open_prices
      → i + length vs ≤ length q.volumes
      → i + length vs ≤ length q.high_prices
      → i + length vs ≤ length q.low_prices
      → (xs : List (Indicators F)) × (indicators_loop today q i vs closes ≡ ok xs)
        × (map close_of xs ≡ closed_days today vs closes)
  unfolding indicators_loop
  indicators_loop-closed today q i [] closes e ho hv hh hl = ([], refl, refl)
  indicators_loop-closed today q i (v ∷ vs) [] e ho hv hh hl = absurd (omega arith)
  indicators_loop-closed today q i (v ∷ vs) (none ∷ closes) e ho hv hh hl =
      indicators_loop-closed today q (i + 1) vs closes (omega arith) (omega arith) (omega arith)
        (omega arith) (omega arith)
  indicators_loop-closed today q i (v ∷ vs) (some c ∷ closes) e ho hv hh hl =
      let (xs, exs, h) =
        indicators_loop-closed today q (i + 1) vs closes (omega arith) (omega arith) (omega arith)
          (omega arith) (omega arith) in
      let (x, ex, hx) =
        indicator_at-total i q (unix v) c (omega arith) (omega arith) (omega arith) (omega arith) in
      elim (Bool-cases (ltb (midnight (unix v)) today)) [
        | inl over ↦ rw (over, ex, exs) ((x ∷ xs, refl, cc))
        | inr open_ ↦ rw (open_, exs) ((xs, refl, h))
      ]

  -- For a response whose first result has timestamps and a first quote with as many close prices
  -- and at least as many of the other values, ParseChart succeeds, and the dates and close prices
  -- of the chart are, in order, those of the timestamps before today that have a close price.
  pub parse_chart-closed :
      (now : Time) (r : ChartResult F) (rs : List (ChartResult F)) (q : Quote F)
      (qs : List (Quote F))
      → 0 < length r.timestamps
      → r.quotes ≡ q ∷ qs
      → IsEven q (length r.timestamps)
      → (c : PriceChart F) × (parse_chart now (r ∷ rs) ≡ ok c)
        × (map close_of c.indicators ≡ closed_days (midnight now) r.timestamps q.close_prices)
  unfolding parse_chart
  parse_chart-closed now r rs q qs some_ e (hc, ho, hv, hh, hl) =
      let (xs, exs, h) =
        indicators_loop-closed (midnight now) q 0 r.timestamps q.close_prices hc (omega arith)
          (omega arith) (omega arith) (omega arith) in
      let dated : (length r.timestamps == 0) ≡ false = ground arith in
      let priced : (length q.close_prices == 0) ≡ false = ground arith in
      let even : (length q.close_prices == length r.timestamps) ≡ true = ground arith in
      (record { meta = r.meta; indicators = xs }, rw (dated, e, priced, even, exs), h)
