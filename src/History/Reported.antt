-- ===== src/History/Reported.antt =====
-- What a successful fund history reports.
use investment_portfolio_man.Base.{
  ℕ, zero, suc, ◌+◌, ◌*◌, ◌≤◌, ◌<◌, ◌≡◌, refl, ◌≢◌, ◌⊎◌, inl, inr, List, [], ◌∷◌, some, arith, ltb,
  sym, ◌∙◌, subst, ap, Bool-cases,
}
use mathlib.Core.Option.{some-injective}
use investment_portfolio_man.Float64.{Float64}
use investment_portfolio_man.Result.{ok, >>=-eq-ok, ok-injective}
use investment_portfolio_man.Model.{
  Time, Map, day, RealizedGainLoss, FundHistoryEntry, FundHistoryResponse,
}
use investment_portfolio_man.History.{
  PortfolioData, calculate_funds_for_date, with_day, calculate_fund_history_by_date,
}
use investment_portfolio_man.History.Days.{
  days_from, day_count, history_of, calculate_fund_history_by_date-total,
}

module _ {F : Type 0} ⦃f : Float64 F⦄ (d : PortfolioData F)
    (gains : Map (List (RealizedGainLoss F))) where
  -- Days in strictly rising order within bounds, each with the funds computed for it and with at
  -- least one.
  abbrev pub IsHistory : (from to : Time) → List (FundHistoryResponse F) → Type 0
  IsHistory from to [] = Unit
  IsHistory from to (r ∷ rs) =
      (from ≤ r.date)
      × (r.date ≤ to)
      × (r.funds ≢ [])
      × (calculate_funds_for_date r.date d gains ≡ ok r.funds)
      × IsHistory (r.date + 1) to rs

  IsHistory-earlier :
      (a b to : Time) (rs : List (FundHistoryResponse F))
      → a ≤ b
      → IsHistory b to rs
      → IsHistory a to rs
  IsHistory-earlier a b to [] h p = tt
  IsHistory-earlier a b to (r ∷ rs) h (p, q, n, c, rest) = (omega arith, q, n, c, rest)

  with_day-IsHistory :
      (t to : Time) (funds : List (FundHistoryEntry F)) (rest : List (FundHistoryResponse F))
      → calculate_funds_for_date t d gains ≡ ok funds
      → t ≤ to
      → IsHistory (t + day) to rest
      → IsHistory t to (with_day t funds rest)
  with_day-IsHistory t to [] rest c h p = IsHistory-earlier t (t + day) to rest (omega arith) p
  with_day-IsHistory t to (e ∷ es) rest c h p =
      (omega arith, h, cc, c, IsHistory-earlier (t + 1) (t + day) to rest (omega arith) p)

  history_of-IsHistory :
      (n : ℕ) (t to : Time) {rs : List (FundHistoryResponse F)}
      → t + n * day ≤ to + day
      → history_of d gains (days_from n t) ≡ ok rs
      → IsHistory t to rs
  history_of-IsHistory zero t to h e = subst (IsHistory t to) (ok-injective e) tt
  history_of-IsHistory (suc n) t to h e =
      let (funds, c, e1) = >>=-eq-ok (calculate_funds_for_date t d gains) _ e in
      let (rest, er, e2) = >>=-eq-ok (history_of d gains (days_from n (t + day))) _ e1 in
      subst (IsHistory t to) (ok-injective e2) (
        with_day-IsHistory t to funds rest c (omega arith)
          (history_of-IsHistory n (t + day) to (omega arith) er))

  -- The report has an entry for a day, with these funds.
  abbrev pub Reports : Time → List (FundHistoryEntry F) → List (FundHistoryResponse F) → Type 0
  Reports t funds [] = ⊥
  Reports t funds (r ∷ rs) = ((r.date ≡ t) × (r.funds ≡ funds)) ⊎ Reports t funds rs

  Reports-with_day :
      (t u : Time) (funds others : List (FundHistoryEntry F)) (rest : List (FundHistoryResponse F))
      → Reports t funds rest
      → Reports t funds (with_day u others rest)
  Reports-with_day t u funds [] rest h = h
  Reports-with_day t u funds (e ∷ es) rest h = inr h

  history_of-Reports :
      (n k : ℕ) (t u : Time) (x : FundHistoryEntry F) (xs : List (FundHistoryEntry F))
      {rs : List (FundHistoryResponse F)}
      → k < n
      → u ≡ t + k * day
      → history_of d gains (days_from n t) ≡ ok rs
      → calculate_funds_for_date u d gains ≡ ok (x ∷ xs)
      → Reports u (x ∷ xs) rs
  history_of-Reports zero k t u x xs h eu e c = absurd (omega arith)
  history_of-Reports (suc n) zero t u x xs h eu e c =
      let (funds, cf, e1) = >>=-eq-ok (calculate_funds_for_date t d gains) _ e in
      let (rest, er, e2) = >>=-eq-ok (history_of d gains (days_from n (t + day))) _ e1 in
      let now : u ≡ t = omega arith in
      let same : funds ≡ x ∷ xs =
        ok-injective (sym cf ∙ ap (λ v. calculate_funds_for_date v d gains) (sym now) ∙ c) in
      subst (Reports u (x ∷ xs)) (ok-injective e2)
        (subst (λ fs. Reports u (x ∷ xs) (with_day t fs rest)) (sym same) (inl (sym now, refl)))
  history_of-Reports (suc n) (suc k) t u x xs h eu e c =
      let (funds, cf, e1) = >>=-eq-ok (calculate_funds_for_date t d gains) _ e in
      let (rest, er, e2) = >>=-eq-ok (history_of d gains (days_from n (t + day))) _ e1 in
      subst (Reports u (x ∷ xs)) (ok-injective e2) (
        Reports-with_day u t (x ∷ xs) funds rest
          (history_of-Reports n k (t + day) u x xs (omega arith) (omega arith) er c))

  -- A history that is computed with no error reports days from the start date to the end date, in
  -- strictly rising order and each once, with at least one fund and the funds computed for that
  -- day.
  pub calculate_fund_history_by_date-IsHistory :
      (start_date end_date : Time) {rs : List (FundHistoryResponse F)}
      → calculate_fund_history_by_date d gains start_date end_date ≡ some (ok rs)
      → IsHistory start_date end_date rs
  calculate_fund_history_by_date-IsHistory start_date end_date e =
      let days =
        some-injective _ _
          (sym (calculate_fund_history_by_date-total d gains start_date end_date) ∙ e) in
      elim (Bool-cases (ltb end_date start_date)) [
        | inl over ↦ subst (IsHistory start_date end_date) (ok-injective (rw over at days)) tt
        | inr more ↦
            history_of-IsHistory (day_count start_date end_date) start_date end_date (ground arith)
              days
      ]

  -- When the history is computed with no error, every day of the range that has funds is reported,
  -- with those funds.
  pub calculate_fund_history_by_date_complete :
      (start_date end_date : Time) (k : ℕ) (x : FundHistoryEntry F) (xs : List (FundHistoryEntry F))
      {rs : List (FundHistoryResponse F)}
      → calculate_fund_history_by_date d gains start_date end_date ≡ some (ok rs)
      → start_date + k * day ≤ end_date
      → calculate_funds_for_date (start_date + k * day) d gains ≡ ok (x ∷ xs)
      → Reports (start_date + k * day) (x ∷ xs) rs
  calculate_fund_history_by_date_complete start_date end_date k x xs e h c =
      let days =
        some-injective _ _
          (sym (calculate_fund_history_by_date-total d gains start_date end_date) ∙ e) in
      history_of-Reports (day_count start_date end_date) k start_date (start_date + k * day) x xs
        (ground arith) refl days c
