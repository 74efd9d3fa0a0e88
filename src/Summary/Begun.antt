-- ===== src/Summary/Begun.antt =====
-- Which portfolios are part of a day's summaries.
use investment_portfolio_man.Base.{
  ◌≡◌, refl, inl, inr, Bool, false, ◌||◌, List, [], ◌∷◌, map, arith, ltb, leb, if◌then◌else◌,
  Bool-cases, ◌∙◌, sym, subst, keep,
}
use investment_portfolio_man.Float64.{Float64}
use investment_portfolio_man.Result.{Result, ok, err, ◌>>=◌, >>=-eq-ok, ok-injective}
use investment_portfolio_man.Model.{Ident, Time, Transaction, Dividend}
use investment_portfolio_man.Metrics.{process_dividend_shares_for_date}
use investment_portfolio_man.Store.Tables.{Portfolio}
use investment_portfolio_man.History.{PortfolioData, lookup_or}
use investment_portfolio_man.Summary.{
  PortfolioSummary, Owners, Grouped, earliest, has_begun, summary_of, process_transactions_for_date,
  calculate_single_portfolio_summary, calculate_portfolio_summary_for_date,
}

module _ {F : Type 0} where
  -- Whether a transaction's date is on or before a date.
  abbrev pub any_up_to : List (Transaction F) → Time → Bool
  any_up_to [] date = false
  any_up_to (t ∷ ts) date = leb t.date date || any_up_to ts date

  earliest-up_to :
      (x date : Time) (ts : List (Transaction F))
      → leb (earliest x ts) date ≡ (leb x date || any_up_to ts date)
  earliest-up_to x date [] = ground arith
  earliest-up_to x date (t ∷ ts) =
      let h = earliest-up_to (if ltb t.date x then t.date else x) date ts in h ∙ ground arith

  has_begun_lem : (ts : List (Transaction F)) (date : Time) → has_begun ts date ≡ any_up_to ts date
  has_begun_lem [] date = refl
  has_begun_lem (t ∷ ts) date = earliest-up_to t.date date ts

bind-id :
    {F X : Type 0} (r : Result X) (next : X → PortfolioSummary F) (id : Ident)
    {s : PortfolioSummary F}
    → ((x : X) → (next x).id ≡ id)
    → (r >>= λ x. ok (next x)) ≡ ok s
    → s.id ≡ id
bind-id (ok x) next id h e = subst (λ s. s.id ≡ id) (ok-injective e) (h x)
bind-id (err why) next id h e = cc

module _ {F : Type 0} ⦃f : Float64 F⦄ (date : Time) (d : PortfolioData F) (owners : Owners)
    (txs : Grouped (Transaction F)) (divs : Grouped (Dividend F)) where
  calculate_single_portfolio_summary-id :
      (p : Portfolio) {s : PortfolioSummary F}
      → calculate_single_portfolio_summary p date d owners txs divs ≡ ok s
      → s.id ≡ p.id
  unfolding calculate_single_portfolio_summary summary_of
  calculate_single_portfolio_summary-id p e =
      bind-id
        (process_transactions_for_date (lookup_or [] p.id txs.by_pf_by_portfolio)
          (process_dividend_shares_for_date (lookup_or [] p.id divs.by_pf_by_portfolio)
            (lookup_or [] p.id txs.by_portfolio) date)
          owners d.fund_prices_by_fund date)
        _ p.id (λ x. refl) e

  -- When the summaries of a day are computed with no error, they are those of the portfolios with
  -- a transaction on or before that day, once each and in the order given.
  pub calculate_portfolio_summary_for_date-ids :
      (ps : List Portfolio) {ss : List (PortfolioSummary F)}
      → calculate_portfolio_summary_for_date date ps d owners txs divs ≡ ok ss
      → map (λ s. s.id) ss
        ≡ map (λ p. p.id) (keep (λ p. any_up_to (lookup_or [] p.id txs.by_portfolio) date) ps)
  unfolding calculate_portfolio_summary_for_date
  calculate_portfolio_summary_for_date-ids [] e =
      subst (λ ss. map (λ s. s.id) ss ≡ []) (ok-injective e) refl
  calculate_portfolio_summary_for_date-ids (p ∷ ps) e =
      let begun = has_begun_lem (lookup_or [] p.id txs.by_portfolio) date in
      elim (Bool-cases (any_up_to (lookup_or [] p.id txs.by_portfolio) date)) [
        | inl shown ↦
            let (s, c, e1) =
              >>=-eq-ok (calculate_single_portfolio_summary p date d owners txs divs) _
                (rw (begun, shown) at e) in
            let (others, c1, e2) =
              >>=-eq-ok (calculate_portfolio_summary_for_date date ps d owners txs divs) _ e1 in
            rw (
              shown,
              sym (ok-injective e2),
              calculate_single_portfolio_summary-id p c,
              calculate_portfolio_summary_for_date-ids ps c1,
            )
        | inr hidden ↦
            rw hidden (calculate_portfolio_summary_for_date-ids ps (rw (begun, hidden) at e))
      ]
