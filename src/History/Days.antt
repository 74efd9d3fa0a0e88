-- ===== src/History/Days.antt =====
-- The day loop of the fund history: it ends, and which days it reports.
use investment_portfolio_man.Base.{
  ℕ, zero, suc, ◌+◌, ◌-◌, ◌/◌, ◌<◌, ◌≡◌, refl, inl, inr, false, List, [], ◌∷◌, some, arith, ltb,
  if◌then◌else◌, Bool-cases, ◌∙◌, sym,
}
use investment_portfolio_man.Float64.{Float64}
use investment_portfolio_man.Result.{Result, ok, err, ◌>>=◌}
use investment_portfolio_man.Model.{
  Time, Map, day, RealizedGainLoss, FundHistoryEntry, FundHistoryResponse,
}
use investment_portfolio_man.History.{
  PortfolioData, prepend_day, calculate_funds_for_date, with_day, history_loop,
  calculate_fund_history_by_date,
}

pub suc-injective : {a b : ℕ} → suc a ≡ suc b → a ≡ b
suc-injective h = omega arith

-- `n` days from a date on.
abbrev pub days_from : ℕ → Time → List Time
days_from zero t = []
days_from (suc n) t = t ∷ days_from n (t + day)

-- How many days lie from one date to another, both counted.
abbrev pub day_count : Time → Time → ℕ
day_count from to = if ltb to from then 0 else (to - from) / day + 1

pub day_count-next :
    (from to : Time) → ltb to from ≡ false → day_count from to ≡ suc (day_count (from + day) to)
day_count-next from to h = elim (Bool-cases (ltb to (from + day))) [
  | inl over ↦ rw (h, over) (ground arith)
  | inr more ↦ rw (h, more) (ground arith)
]

module _ {F : Type 0} ⦃f : Float64 F⦄ (d : PortfolioData F)
    (gains : Map (List (RealizedGainLoss F))) where
  -- The days that have data, or the first error.
  abbrev pub history_of : List Time → Result (List (FundHistoryResponse F))
  history_of [] = ok []
  history_of (t ∷ ts) = calculate_funds_for_date t d gains >>= λ funds.
      history_of ts >>= λ rest. ok (with_day t funds rest)

  prepend_day-some :
      (date : Time) (r : Result (List (FundHistoryEntry F)))
      (rest : Result (List (FundHistoryResponse F)))
      → prepend_day date r (some rest)
        ≡ some (r >>= λ funds. rest >>= λ days. ok (with_day date funds days))
  unfolding prepend_day
  prepend_day-some date (ok funds) rest = refl
  prepend_day-some date (err e) rest = refl

  history_loop-total :
      (n fuel : ℕ) (date end_date : Time)
      → day_count date end_date ≡ n
      → n < fuel
      → history_loop fuel date end_date d gains ≡ some (history_of (days_from n date))
  unfolding history_loop
  history_loop-total n zero date end_date e h = absurd (omega arith)
  history_loop-total zero (suc fuel) date end_date e h = elim (Bool-cases (ltb end_date date)) [
    | inl over ↦ rw over
    | inr more ↦ absurd (ground (arith, day_count-next date end_date more))
  ]
  history_loop-total (suc n) (suc fuel) date end_date e h = elim (Bool-cases (ltb end_date date)) [
    | inl over ↦ absurd (ground arith)
    | inr more ↦
        let fewer : day_count (date + day) end_date ≡ n =
          suc-injective (sym (day_count-next date end_date more) ∙ e) in
        rw (
          more,
          history_loop-total n fuel (date + day) end_date fewer (omega arith),
          prepend_day-some date (calculate_funds_for_date date d gains),
        )
  ]

  -- The history of a range of days ends with the fuel given, and is that of the days from the
  -- start date to the end date, each a day after the one before: the days that have data, or the
  -- error of the first day that has one.
  pub calculate_fund_history_by_date-total :
      (start_date end_date : Time)
      → calculate_fund_history_by_date d gains start_date end_date
        ≡ some (history_of (days_from (day_count start_date end_date) start_date))
  unfolding calculate_fund_history_by_date
  calculate_fund_history_by_date-total start_date end_date =
      history_loop-total (day_count start_date end_date) ((end_date - start_date) / day + 2)
        start_date end_date refl (ground arith)
