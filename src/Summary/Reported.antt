-- ===== src/Summary/Reported.antt =====
-- The days of `GetPortfolioHistory`.
use investment_portfolio_man.Base.{
  ℕ, zero, suc, ◌+◌, ◌*◌, ◌≤◌, ◌≡◌, inl, inr, true, List, map, some, arith, ltb, if◌then◌else◌,
  Bool-cases, ◌∙◌, sym, subst, All, keep,
}
use mathlib.Core.Option.{some-injective}
use investment_portfolio_man.Float64.{Float64}
use investment_portfolio_man.Result.{ok}
use investment_portfolio_man.Model.{Time, day, midnight}
use investment_portfolio_man.Store.Tables.{Portfolio}
use investment_portfolio_man.History.{PortfolioData}
use investment_portfolio_man.History.Days.{days_from, day_count}
use investment_portfolio_man.Summary.{
  PortfolioHistory, DisplayRange, Owners, is_displayed, calculate_display_date_range,
  get_portfolio_history, group_by_portfolio, no_groups,
}
use investment_portfolio_man.Summary.Days.{
  summaries_of, summaries_of-dates, calculate_daily_portfolio_history-total,
}

-- A date as text, between two times and their days.
abbrev pub Within : (start end oldest now date : Time) → Type 0
Within start end oldest now date =
    (midnight start ≤ date) × (date ≤ end) × (midnight oldest ≤ date) × (date ≤ now)

midnight-below : (a t : Time) → midnight a ≤ t → midnight a ≤ midnight t
midnight-below a t h = omega arith

is_displayed-between :
    (range : DisplayRange) (t : Time)
    → is_displayed range t ≡ true
    → (range.display_start ≤ t) × (t ≤ range.display_end)
is_displayed-between range t h = (ground arith, ground arith)

display_start-≥ :
    (start oldest : Time) → midnight start ≤ midnight (if ltb start oldest then oldest else start)
display_start-≥ start oldest = elim (Bool-cases (ltb start oldest)) [
  | inl e ↦ rw e (ground arith)
  | inr e ↦ rw e (omega arith)
]

display_end-≤ : (end now : Time) → midnight (if ltb now end then now else end) ≤ end
display_end-≤ end now = ground arith

displayed-Within :
    (start end oldest now t : Time)
    → is_displayed (calculate_display_date_range start end oldest now) t ≡ true
    → oldest ≤ t
    → t ≤ now
    → Within start end oldest now (midnight t)
unfolding calculate_display_date_range
displayed-Within start end oldest now t e h k =
    let (from, to) = is_displayed-between (calculate_display_date_range start end oldest now) t e in
    let above : midnight start ≤ t = omega (arith, display_start-≥ start oldest) in
    let below : t ≤ end = omega (arith, display_end-≤ end now) in
    (midnight-below start t above, omega arith, midnight-below oldest t (omega arith), omega arith)

displayed_days :
    (start end oldest now : Time) (n : ℕ) (t : Time)
    → oldest ≤ t
    → t + n * day ≤ now + day
    → All (Within start end oldest now) (
        map midnight
          (keep (is_displayed (calculate_display_date_range start end oldest now)) (days_from n t)))
displayed_days start end oldest now zero t h k = tt
displayed_days start end oldest now (suc n) t h k =
    let rest = displayed_days start end oldest now n (t + day) (omega arith) (omega arith) in
    elim (Bool-cases (is_displayed (calculate_display_date_range start end oldest now) t)) [
      | inl e ↦ rw e ((displayed-Within start end oldest now t e h (omega arith), rest))
      | inr e ↦ rw e rest
    ]

data_days :
    (start end oldest now : Time)
    → All (Within start end oldest now) (
        map midnight (
          keep
            (is_displayed (calculate_display_date_range start end oldest now))
            (days_from (day_count oldest now) oldest)))
data_days start end oldest now = elim (Bool-cases (ltb now oldest)) [
  | inl over ↦ rw over tt
  | inr more ↦
      displayed_days start end oldest now (day_count oldest now) oldest (omega arith)
        (rw more (ground arith))
]

module _ {F : Type 0} ⦃f : Float64 F⦄ (ps : List Portfolio) (d : PortfolioData F) (owners : Owners)
    (requested_start requested_end now : Time) where
  abbrev pub range : DisplayRange
  range = calculate_display_date_range requested_start requested_end d.oldest_transaction_date now

  abbrev pub all_days : List Time
  all_days = days_from (day_count d.oldest_transaction_date now) d.oldest_transaction_date

  -- GetPortfolioHistory ends with the fuel given, and is that of the days from the oldest
  -- transaction to the present time, each a day after the one before: those that are displayed, or
  -- the error of the first day that has one, displayed or not.
  pub get_portfolio_history-total :
      get_portfolio_history ps d owners requested_start requested_end now
      ≡ some (
          summaries_of ps d owners
            (group_by_portfolio owners.portfolio_fund_to_portfolio d.transactions_by_pf no_groups)
            (group_by_portfolio owners.portfolio_fund_to_portfolio d.dividends_by_pf no_groups)
            range
            all_days)
  unfolding get_portfolio_history
  get_portfolio_history-total =
      calculate_daily_portfolio_history-total ps d owners
        (group_by_portfolio owners.portfolio_fund_to_portfolio d.transactions_by_pf no_groups)
        (group_by_portfolio owners.portfolio_fund_to_portfolio d.dividends_by_pf no_groups) range
        now

  -- When GetPortfolioHistory has no error, it reports every day from the oldest transaction to the
  -- present time that lies in the display range, and no other, once each and in order, whatever
  -- the portfolios hold.
  pub get_portfolio_history-dates :
      (h : List (PortfolioHistory F))
      → get_portfolio_history ps d owners requested_start requested_end now ≡ some (ok h)
      → map (λ e. e.date) h ≡ map midnight (keep (is_displayed range) all_days)
  get_portfolio_history-dates h e =
      summaries_of-dates ps d owners
        (group_by_portfolio owners.portfolio_fund_to_portfolio d.transactions_by_pf no_groups)
        (group_by_portfolio owners.portfolio_fund_to_portfolio d.dividends_by_pf no_groups) range
        all_days (some-injective _ _ (sym get_portfolio_history-total ∙ e))

  -- Every day that GetPortfolioHistory reports without error is at the earliest the midnight of
  -- the requested start and of the oldest transaction's day, and at the latest the requested end
  -- and the present time.
  pub get_portfolio_history-Within :
      (h : List (PortfolioHistory F))
      → get_portfolio_history ps d owners requested_start requested_end now ≡ some (ok h)
      → All
          (Within requested_start requested_end d.oldest_transaction_date now)
          (map (λ e. e.date) h)
  get_portfolio_history-Within h e =
      subst (All (Within requested_start requested_end d.oldest_transaction_date now))
        (sym (get_portfolio_history-dates h e))
        (data_days requested_start requested_end d.oldest_transaction_date now)
