-- ===== src/Yahoo/Past.antt =====
-- The days of a chart lie before the present day.
use investment_portfolio_man.Base.{
  ℕ, ◌+◌, ◌<◌, ◌≡◌, inl, inr, true, List, [], ◌∷◌, Option, some, none, ltb, length, ◌==◌, arith,
  All, Bool-cases, sym, subst, ap,
}
use investment_portfolio_man.Float64.{Float64}
use investment_portfolio_man.Result.{ok, >>=-eq-ok, ok-injective}
use investment_portfolio_man.Model.{Time, midnight}
use investment_portfolio_man.Yahoo.{
  ChartResult, Indicators, PriceChart, Quote, cell, indicator_at, indicators_loop, chart_of_quote,
  chart_of_quotes, parse_chart, unix,
}

module _ {F : Type 0} ⦃f : Float64 F⦄ where
  abbrev pub IsPast : Time → Indicators F → Type 0
  IsPast today x = midnight x.date < today

  indicator_at-date :
      (i : ℕ) (q : Quote F) (date : Time) (close : F) {x : Indicators F}
      → indicator_at i q date close ≡ ok x
      → x.date ≡ date
  unfolding indicator_at
  indicator_at-date i q date close e =
      let (o, eo, e1) = >>=-eq-ok (cell i q.open_prices) _ e in
      let (v, ev, e2) = >>=-eq-ok (cell i q.volumes) _ e1 in
      let (h, eh, e3) = >>=-eq-ok (cell i q.high_prices) _ e2 in
      let (l, el, e4) = >>=-eq-ok (cell i q.low_prices) _ e3 in
      ap (λ (x : Indicators F). x.date) (sym (ok-injective e4))

  IsPast-date :
      (today date : Time) (x : Indicators F)
      → x.date ≡ date
      → ltb (midnight date) today ≡ true
      → IsPast today x
  IsPast-date today date x e h = ground (arith, e, h)

  indicators_loop-IsPast :
      (today : Time) (q : Quote F) (i : ℕ) (vs : List ℕ) (closes : List (Option F))
      {xs : List (Indicators F)}
      → indicators_loop today q i vs closes ≡ ok xs
      → All (IsPast today) xs
  unfolding indicators_loop
  indicators_loop-IsPast today q i [] closes e = subst (All (IsPast today)) (ok-injective e) tt
  indicators_loop-IsPast today q i (v ∷ vs) [] e = cc
  indicators_loop-IsPast today q i (v ∷ vs) (none ∷ closes) e =
      indicators_loop-IsPast today q (i + 1) vs closes e
  indicators_loop-IsPast today q i (v ∷ vs) (some c ∷ closes) e =
      elim (Bool-cases (ltb (midnight (unix v)) today)) [
        | inl over ↦
            let (x, ex, e1) = >>=-eq-ok (indicator_at i q (unix v) c) _ (rw over at e) in
            let (rest, er, e2) = >>=-eq-ok (indicators_loop today q (i + 1) vs closes) _ e1 in
            subst (All (IsPast today)) (ok-injective e2) (
              (
                IsPast-date today (unix v) x (indicator_at-date i q (unix v) c ex) over,
                indicators_loop-IsPast today q (i + 1) vs closes er,
              ))
        | inr open_ ↦ indicators_loop-IsPast today q (i + 1) vs closes (rw open_ at e)
      ]

  chart_of_quote-IsPast :
      (now : Time) (r : ChartResult F) (q : Quote F) {c : PriceChart F}
      → chart_of_quote now r q ≡ ok c
      → All (IsPast (midnight now)) c.indicators
  chart_of_quote-IsPast now r q e =
      elim (Bool-cases (length q.close_prices == length r.timestamps)) [
        | inl even ↦
            let (xs, exs, e1) =
              >>=-eq-ok (indicators_loop (midnight now) q 0 r.timestamps q.close_prices) _
                (rw even at e) in
            subst (λ (c : PriceChart F). All (IsPast (midnight now)) c.indicators) (ok-injective e1)
              (indicators_loop-IsPast (midnight now) q 0 r.timestamps q.close_prices exs)
        | inr uneven ↦ cc (rw uneven at e)
      ]

  chart_of_quotes-IsPast :
      (now : Time) (r : ChartResult F) (qs : List (Quote F)) {c : PriceChart F}
      → chart_of_quotes now r qs ≡ ok c
      → All (IsPast (midnight now)) c.indicators
  chart_of_quotes-IsPast now r [] e = cc
  chart_of_quotes-IsPast now r (q ∷ qs) e = elim (Bool-cases (length q.close_prices == 0)) [
    | inl none_ ↦ cc (rw none_ at e)
    | inr some_ ↦ chart_of_quote-IsPast now r q (rw some_ at e)
  ]

  -- A chart has no day that is not over.
  pub parse_chart-IsPast :
      (now : Time) (rs : List (ChartResult F)) {c : PriceChart F}
      → parse_chart now rs ≡ ok c
      → All (IsPast (midnight now)) c.indicators
  unfolding parse_chart
  parse_chart-IsPast now [] e = cc
  parse_chart-IsPast now (r ∷ rs) e = elim (Bool-cases (length r.timestamps == 0)) [
    | inl none_ ↦ cc (rw none_ at e)
    | inr some_ ↦ chart_of_quotes-IsPast now r r.quotes (rw some_ at e)
  ]
