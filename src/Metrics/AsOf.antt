-- ===== src/Metrics/AsOf.antt =====
-- The loops of the valuation stop at the first row after the date. On rows in date order that is the
-- same as reading the rows up to the date, and later rows never matter.
use investment_portfolio_man.Base.{
  ◌≤◌, ◌<◌, ◌≡◌, refl, false, List, [], ◌∷◌, ◌++◌, arith, All, keep, All-mono, if◌then◌else◌,
  Bool-cases, ap, fun_ext, inl, inr,
}
use investment_portfolio_man.Float64.{Float64, ◌+f◌, nought}
use investment_portfolio_man.Result.{Result, ok, ◌>>=◌}
use investment_portfolio_man.Model.{
  Ident, Time, on_or_before, Transaction, Dividend, FundPrice, RealizedGainLoss,
}
use investment_portfolio_man.Metrics.{
  Position, apply_transaction, replay, price_loop, get_price_for_date, get_latest_price, has_any,
  price_of, start_position, metrics_of, calculate_fund_metrics, dividend_amount_loop,
  process_dividend_amount_for_date, gain_loop, add_gain, GainTotals,
}

module _ {A : Type 0} (key : A → Time) where
  -- The rows up to a date.
  abbrev pub as_of : Time → List A → List A
  as_of date = keep (λ x. on_or_before (key x) date)

  -- Rows in date order.
  abbrev pub IsAscending : List A → Type 0
  IsAscending [] = Unit
  IsAscending (x ∷ xs) = All (λ y. key x ≤ key y) xs × IsAscending xs

  pub as_of-later : (date : Time) (xs : List A) → All (λ y. date < key y) xs → as_of date xs ≡ []
  as_of-later date [] h = refl
  as_of-later date (x ∷ xs) h = ground (arith, as_of-later date xs h.1)

  -- After a row that is later than the date, none is left.
  pub as_of-stop :
      (date : Time) (x : A) (xs : List A)
      → on_or_before (key x) date ≡ false
      → All (λ y. key x ≤ key y) xs
      → as_of date xs ≡ []
  as_of-stop date x xs late above =
      as_of-later date xs
        (All-mono (λ y. key x ≤ key y) (λ y. date < key y) (λ y h. ground arith) xs above)

module _ {F : Type 0} ⦃f : Float64 F⦄ where
  -- Every transaction in turn, with no regard to dates.
  abbrev pub apply_all : List (Transaction F) → Position F → Result (Position F)
  apply_all [] p = ok p
  apply_all (t ∷ ts) p = apply_transaction t p >>= apply_all ts

  abbrev pub sum_amounts : List (Dividend F) → F → F
  sum_amounts [] total = total
  sum_amounts (d ∷ ds) total = sum_amounts ds (total +f d.total_amount)

  abbrev pub sum_gains : List (RealizedGainLoss F) → GainTotals F → GainTotals F
  sum_gains [] g = g
  sum_gains (r ∷ rs) g = sum_gains rs (add_gain r g)

  replay-as_of :
      (ts : List (Transaction F)) (date : Time) (p : Position F)
      → IsAscending (λ (t : Transaction F). t.date) ts
      → replay ts date p ≡ apply_all (as_of (λ (t : Transaction F). t.date) date ts) p
  unfolding replay
  replay-as_of [] date p asc = refl
  replay-as_of (t ∷ ts) date p asc = elim (Bool-cases (on_or_before t.date date)) [
    | inl early ↦
        rw early
          (ap (λ k. apply_transaction t p >>= k) (fun_ext (λ p'. replay-as_of ts date p' asc.1)))
    | inr late ↦ rw (late, as_of-stop (λ (t : Transaction F). t.date) date t ts late asc.0)
  ]

  get_latest_price-cons :
      (p : FundPrice F) (ps : List (FundPrice F))
      → get_latest_price (p ∷ ps) ≡ (if has_any ps then get_latest_price ps else p.price)
  unfolding get_latest_price
  get_latest_price-cons p [] = refl
  get_latest_price-cons p (q ∷ ps) = refl

  price_loop-as_of :
      (ps : List (FundPrice F)) (date : Time) (latest : F)
      → IsAscending (λ (p : FundPrice F). p.date) ps
      → price_loop ps date latest ≡ (
          if has_any (as_of (λ (p : FundPrice F). p.date) date ps)
          then get_latest_price (as_of (λ (p : FundPrice F). p.date) date ps)
          else latest)
  unfolding price_loop
  price_loop-as_of [] date latest asc = refl
  price_loop-as_of (p ∷ ps) date latest asc = elim (Bool-cases (on_or_before p.date date)) [
    | inl early ↦ rw (
      early,
      price_loop-as_of ps date p.price asc.1,
      get_latest_price-cons p (as_of (λ (q : FundPrice F). q.date) date ps),
    )
    | inr late ↦ rw (late, as_of-stop (λ (p : FundPrice F). p.date) date p ps late asc.0)
  ]

  price_of-as_of :
      (ps : List (FundPrice F)) (date : Time)
      → IsAscending (λ (p : FundPrice F). p.date) ps
      → price_of ps date false ≡ (
          if has_any (as_of (λ (p : FundPrice F). p.date) date ps)
          then get_latest_price (as_of (λ (p : FundPrice F). p.date) date ps)
          else nought)
  unfolding price_of get_price_for_date
  price_of-as_of [] date asc = refl
  price_of-as_of (p ∷ ps) date asc = price_loop-as_of (p ∷ ps) date nought asc

  gain_loop-as_of :
      (rs : List (RealizedGainLoss F)) (date : Time) (g : GainTotals F)
      → gain_loop rs date g
        ≡ sum_gains (as_of (λ (r : RealizedGainLoss F). r.transaction_date) date rs) g
  unfolding gain_loop
  gain_loop-as_of [] date g = refl
  gain_loop-as_of (r ∷ rs) date g = elim (Bool-cases (on_or_before r.transaction_date date)) [
    | inl early ↦ rw early (gain_loop-as_of rs date (add_gain r g))
    | inr late ↦ rw late (gain_loop-as_of rs date g)
  ]

  dividend_amount_loop-as_of :
      (ds : List (Dividend F)) (date : Time) (total : F)
      → IsAscending (λ (d : Dividend F). d.ex_dividend_date) ds
      → dividend_amount_loop ds date total
        ≡ sum_amounts (as_of (λ (d : Dividend F). d.ex_dividend_date) date ds) total
  unfolding dividend_amount_loop
  dividend_amount_loop-as_of [] date total asc = refl
  dividend_amount_loop-as_of (d ∷ ds) date total asc =
      elim (Bool-cases (on_or_before d.ex_dividend_date date)) [
        | inl early ↦ rw early (dividend_amount_loop-as_of ds date (total +f d.total_amount) asc.1)
        | inr late ↦
            rw (late, as_of-stop (λ (d : Dividend F). d.ex_dividend_date) date d ds late asc.0)
      ]

  replay-append_later :
      (ts later : List (Transaction F)) (date : Time) (p : Position F)
      → All (λ (t : Transaction F). date < t.date) later
      → replay (ts ++ later) date p ≡ replay ts date p
  unfolding replay
  replay-append_later [] [] date p h = refl
  replay-append_later [] (t ∷ later) date p h = ground arith
  replay-append_later (t ∷ ts) later date p h = elim (Bool-cases (on_or_before t.date date)) [
    | inl early ↦ rw early (
        ap (λ k. apply_transaction t p >>= k)
          (fun_ext (λ p'. replay-append_later ts later date p' h)))
    | inr late ↦ rw late
  ]

  price_loop-append_later :
      (prices ps : List (FundPrice F)) (date : Time) (latest : F)
      → All (λ (q : FundPrice F). date < q.date) ps
      → price_loop (prices ++ ps) date latest ≡ price_loop prices date latest
  unfolding price_loop
  price_loop-append_later [] [] date latest h = refl
  price_loop-append_later [] (q ∷ ps) date latest h = ground arith
  price_loop-append_later (p ∷ prices) ps date latest h =
      ground (arith, price_loop-append_later prices ps date p.price h)

  -- On transactions and prices in date order, the metrics of a fund on a date are those of every
  -- transaction up to that date, in order, at the last price up to that date, or at 0 if there is
  -- no such price.
  pub calculate_fund_metrics-as_of :
      (pf_id fund_id : Ident) (date : Time) (ts : List (Transaction F)) (dividend_shares : F)
      (prices : List (FundPrice F))
      → IsAscending (λ (t : Transaction F). t.date) ts
      → IsAscending (λ (p : FundPrice F). p.date) prices
      → let upto = as_of (λ (p : FundPrice F). p.date) date prices in
        calculate_fund_metrics pf_id fund_id date ts dividend_shares prices false ≡ (
          apply_all (as_of (λ (t : Transaction F). t.date) date ts) (start_position dividend_shares)
          >>= λ p.
              ok (
                metrics_of pf_id fund_id
                  (if has_any upto then get_latest_price upto else nought)
                  p))
  unfolding calculate_fund_metrics
  calculate_fund_metrics-as_of pf_id fund_id date ts dividend_shares prices asc ascp =
      rw
        (replay-as_of ts date (start_position dividend_shares) asc, price_of-as_of prices date ascp)

  -- When a fund has a price, transactions and prices after a date that are appended, in whatever
  -- order, leave the metrics of that date alone.
  calculate_fund_metrics-append_later :
      (pf_id fund_id : Ident) (date : Time) (ts later : List (Transaction F)) (dividend_shares : F)
      (prices : List (FundPrice F)) (p : FundPrice F) (ps : List (FundPrice F))
      → All (λ (t : Transaction F). date < t.date) later
      → All (λ (q : FundPrice F). date < q.date) ps
      → calculate_fund_metrics pf_id fund_id date
          (ts ++ later)
          dividend_shares
          ((p ∷ prices) ++ ps)
          false
        ≡ calculate_fund_metrics pf_id fund_id date ts dividend_shares (p ∷ prices) false
  unfolding calculate_fund_metrics price_of get_price_for_date
  calculate_fund_metrics-append_later pf_id fund_id date ts later shares prices p ps h hp = rw (
    replay-append_later ts later date (start_position shares) h,
    price_loop-append_later (p ∷ prices) ps date nought hp,
  )

  -- The dividends of a fund up to a date are the sum of the total amounts of its dividends with an
  -- ex-dividend date up to that date, when these are in the order of that date.
  process_dividend_amount_for_date-as_of :
      (ds : List (Dividend F)) (date : Time)
      → IsAscending (λ (d : Dividend F). d.ex_dividend_date) ds
      → process_dividend_amount_for_date ds date
        ≡ sum_amounts (as_of (λ (d : Dividend F). d.ex_dividend_date) date ds) nought
  unfolding process_dividend_amount_for_date
  process_dividend_amount_for_date-as_of ds date asc = dividend_amount_loop-as_of ds date nought asc
