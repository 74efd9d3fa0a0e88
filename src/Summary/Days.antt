-- ===== src/Summary/Days.antt =====
-- The day loop of the portfolio history: it ends, and which days it reports.
use investment_portfolio_man.Base.{
  ℕ, zero, suc, ◌+◌, ◌-◌, ◌/◌, ◌<◌, ◌≡◌, refl, inl, inr, Bool, true, false, List, [], ◌∷◌, map,
  some, arith, ltb, if◌then◌else◌, Bool-cases, ◌∙◌, sym, subst, ap, keep,
}
use investment_portfolio_man.Float64.{Float64}
use investment_portfolio_man.Result.{Result, ok, err, ◌>>=◌, >>=-eq-ok, ok-injective}
use investment_portfolio_man.Model.{Time, day, midnight, Transaction, Dividend}
use investment_portfolio_man.Store.Tables.{Portfolio}
use investment_portfolio_man.History.{PortfolioData}
use investment_portfolio_man.History.Days.{days_from, day_count, day_count-next, suc-injective}
use investment_portfolio_man.Summary.{
  PortfolioSummary, PortfolioHistory, DisplayRange, Owners, Grouped, is_displayed, with_summaries,
  prepend_summaries, calculate_portfolio_summary_for_date, daily_loop,
  calculate_daily_portfolio_history,
}

module _ {F : Type 0} ⦃f : Float64 F⦄ (ps : List Portfolio) (d : PortfolioData F) (owners : Owners)
    (txs : Grouped (Transaction F)) (divs : Grouped (Dividend F)) (range : DisplayRange) where
  -- The days that are displayed, or the first error of any day.
  abbrev pub summaries_of : List Time → Result (List (PortfolioHistory F))
  summaries_of [] = ok []
  summaries_of (t ∷ ts) =
      calculate_portfolio_summary_for_date t ps d owners txs divs >>= λ summaries.
      summaries_of ts >>= λ rest. ok (with_summaries (is_displayed range t) t summaries rest)

  prepend_summaries-some :
      (b : Bool) (date : Time) (r : Result (List (PortfolioSummary F)))
      (rest : Result (List (PortfolioHistory F)))
      → prepend_summaries b date r (some rest)
        ≡ some (r >>= λ summaries. rest >>= λ days. ok (with_summaries b date summaries days))
  unfolding prepend_summaries
  prepend_summaries-some b date (ok summaries) rest = refl
  prepend_summaries-some b date (err e) rest = refl

  daily_loop-total :
      (n fuel : ℕ) (date now : Time)
      → day_count date now ≡ n
      → n < fuel
      → daily_loop fuel date now ps d owners txs divs range ≡ some (summaries_of (days_from n date))
  unfolding daily_loop
  daily_loop-total n zero date now e h = absurd (omega arith)
  daily_loop-total zero (suc fuel) date now e h = elim (Bool-cases (ltb now date)) [
    | inl over ↦ rw over
    | inr more ↦ absurd (ground (arith, day_count-next date now more))
  ]
  daily_loop-total (suc n) (suc fuel) date now e h = elim (Bool-cases (ltb now date)) [
    | inl over ↦ absurd (ground arith)
    | inr more ↦
        let fewer : day_count (date + day) now ≡ n =
          suc-injective (sym (day_count-next date now more) ∙ e) in
        rw (
          more,
          daily_loop-total n fuel (date + day) now fewer (omega arith),
          prepend_summaries-some (is_displayed range date) date
              (calculate_portfolio_summary_for_date date ps d owners txs divs),
        )
  ]

  pub calculate_daily_portfolio_history-total :
      (now : Time)
      → calculate_daily_portfolio_history ps d owners txs divs range now
        ≡ some (
            summaries_of
              (days_from (day_count d.oldest_transaction_date now) d.oldest_transaction_date))
  unfolding calculate_daily_portfolio_history
  calculate_daily_portfolio_history-total now =
      daily_loop-total (day_count d.oldest_transaction_date now)
        ((now - d.oldest_transaction_date) / day + 2) d.oldest_transaction_date now refl
        (ground arith)

  with_summaries-dates :
      (b : Bool) (t : Time) (summaries : List (PortfolioSummary F))
      (rest : List (PortfolioHistory F)) (ts : List Time)
      → map (λ e. e.date) rest ≡ map midnight ts
      → map (λ e. e.date) (with_summaries b t summaries rest)
        ≡ map midnight (if b then t ∷ ts else ts)
  with_summaries-dates true t summaries rest ts h = ap (λ us. midnight t ∷ us) h
  with_summaries-dates false t summaries rest ts h = h

  pub summaries_of-dates :
      (ts : List Time) {rs : List (PortfolioHistory F)}
      → summaries_of ts ≡ ok rs
      → map (λ e. e.date) rs ≡ map midnight (keep (is_displayed range) ts)
  summaries_of-dates [] e = subst (λ r. map (λ e. e.date) r ≡ []) (ok-injective e) refl
  summaries_of-dates (t ∷ ts) e =
      let (summaries, c, e1) =
        >>=-eq-ok (calculate_portfolio_summary_for_date t ps d owners txs divs) _ e in
      let (rest, er, e2) = >>=-eq-ok (summaries_of ts) _ e1 in
      subst (λ r. map (λ e. e.date) r ≡ map midnight (keep (is_displayed range) (t ∷ ts)))
        (ok-injective e2)
        (with_summaries-dates (is_displayed range t) t summaries rest (keep (is_displayed range) ts)
          (summaries_of-dates ts er))
