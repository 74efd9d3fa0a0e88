-- ===== src/Prices/Current.antt =====
-- What `UpdateCurrentFundPrice` stores.
use investment_portfolio_man.Base.{
  ◌≤◌, ◌<◌, ◌≡◌, refl, inl, inr, Bool, true, false, not, ◌||◌, List, [], ◌∷◌, Option, some, none,
  ◌==◌, arith, All, Bool-cases, ◌∙◌, subst,
}
use investment_portfolio_man.Float64.{Float64}
use investment_portfolio_man.Result.{Result, ok, err}
use investment_portfolio_man.Model.{Ident, Time, day, midnight, FundPrice}
use investment_portfolio_man.Store.Tables.{Tables, Fund}
use investment_portfolio_man.Store.Effects.{is_some, find_fund}
use investment_portfolio_man.Store.Monad.{
  World, M, Job, exec, bind_result, pure, ◌>>=◌, ◌>>◌, new_uuid, regenerate, lift_result, get_now,
}
use investment_portfolio_man.Store.Triples.{Answers, Commits, after-Commits, push_job-Commits}
use investment_portfolio_man.Store.Quiet.{
  read-Commits, ensured-Commits, exec-Commits, new_uuid-IsRead,
}
use investment_portfolio_man.Store.Prices.{
  get_fund, has_price_row, with_new_price, insert_fund_price, insert_fund_price_row, has_price_id,
}
use investment_portfolio_man.Yahoo.{
  ChartResult, Indicators, PriceChart, parse_chart, get_indicator_for_date,
}
use investment_portfolio_man.Yahoo.Past.{IsPast, parse_chart-IsPast}
use investment_portfolio_man.Prices.{
  PriceUpdate, price_job, yesterday, check_existing_price, has_symbol, not_positive, last_indicator,
  insert_current, unless_existing, insert_from, fetch_yahoo_chart, update_current_fund_price,
}
use investment_portfolio_man.Prices.Rows.{In, midnight_twice}
use investment_portfolio_man.Prices.Found.{
  FoundIn, check_existing_price-IsRead, check_existing_price-IsTimed, check_existing_price_rule,
}
use investment_portfolio_man.Prices.Reads.{
  clocked-Commits, get_fund-IsTimed, get_fund-IsRead, get_fund_rule,
}

yesterday-past : (now : Time) → day ≤ now → midnight (yesterday now) < midnight now
yesterday-past now h = omega arith

module _ {F : Type 0} ⦃f : Float64 F⦄ where
  -- A new row, for a day that is over and had none; or a row that there was.
  abbrev pub Outcome : Time → Ident → Tables F → Bool → FundPrice F → Tables F → Type 0
  Outcome now k before true p t =
      (p.fund_id ≡ k)
      × (midnight p.date < midnight now)
      × (not_positive p.price ≡ false)
      × (has_price_row k (midnight p.date) before ≡ false)
      × (t ≡ with_new_price p before)
  Outcome now k before false p t = In p before.fund_prices × (p.fund_id ≡ k) × (t ≡ before)

  insert_row-Answers :
      (p : FundPrice F) (before : Tables F)
      → Answers
          (λ t.
            (has_price_row p.fund_id (midnight p.date) before ≡ false)
            × (t ≡ with_new_price p before))
          (insert_fund_price_row p before)
  unfolding insert_fund_price_row
  insert_row-Answers p before =
      elim (Bool-cases (
        has_price_id p.id before
        || has_price_row p.fund_id (midnight p.date) before
        || not (is_some (find_fund p.fund_id before)))) [
          | inl refused ↦ rw refused tt
          | inr taken ↦ rw taken ((ground arith, refl))
        ]

  last-All :
      (P : Indicators F → Type 0) (y : Indicators F) (ys : List (Indicators F))
      → All P (y ∷ ys)
      → P (last_indicator y ys)
  last-All P y [] h = h.0
  last-All P y (z ∷ ys) h = last-All P z ys h.1

  module _ (before : Tables F) (now : Time) (k : Ident) where
    abbrev Post : PriceUpdate F → Tables F → Type 0
    Post u t = Outcome now k before u.inserted u.fund_price t

    insert_new-Commits :
        (p : FundPrice F) (job : Job) (w : World F)
        → p.fund_id ≡ k
        → midnight p.date < midnight now
        → not_positive p.price ≡ false
        → w.tables ≡ before
        → Commits before Post (
            (insert_fund_price p
                >> (regenerate job >> pure (record { fund_price = p; inserted = true })))
              w)
    unfolding insert_fund_price regenerate
    insert_new-Commits p job w e past good same =
        after-Commits before
          (λ u t.
            (has_price_row p.fund_id (midnight p.date) before ≡ false)
            × (t ≡ with_new_price p before))
          Post _ (exec (insert_fund_price_row p) w)
          (exec-Commits before _ (insert_fund_price_row p) w same (insert_row-Answers p before))
          (λ u v q.
            push_job-Commits before Post v.has_invalidator job
              (record { fund_price = p; inserted = true }) v
              (
                e,
                past,
                good,
                subst (λ i. has_price_row i (midnight p.date) before ≡ false) e q.0,
                q.1,
              ))

    insert_current-Commits :
        (x : Fund) (indicator : Indicators F) (date : Time) (w : World F)
        → x.id ≡ k
        → midnight date < midnight now
        → w.tables ≡ before
        → Commits before Post (insert_current x indicator date w)
    unfolding insert_current
    insert_current-Commits x indicator date w e past same =
        elim (Bool-cases (not_positive indicator.price_close)) [
          | inl bad ↦ rw bad same
          | inr good ↦ rw good (
              read-Commits before Post new_uuid _ w new_uuid-IsRead same (λ i w' same'.
                insert_new-Commits
                  (record { id = i; fund_id = x.id; date = date; price = indicator.price_close })
                  (price_job date x.id) w' e past good same'))
        ]

    unless_existing-Commits :
        (m : M F (PriceUpdate F)) (o : Option (FundPrice F)) (w : World F)
        → w.tables ≡ before
        → FoundIn before k o
        → Commits before Post (m w)
        → Commits before Post (unless_existing m o w)
    unless_existing-Commits m none w same h c = c
    unless_existing-Commits m (some p) w same h c = (h.0, h.1, same)

    insert_from-Commits :
        (x : Fund) (date : Time) (indicators : List (Indicators F)) (o : Option (Indicators F))
        (w : World F)
        → x.id ≡ k
        → midnight date < midnight now
        → All (IsPast (midnight now)) indicators
        → w.tables ≡ before
        → Commits before Post (insert_from k x date indicators o w)
    unfolding insert_from
    insert_from-Commits x date [] o w e past h same = same
    insert_from-Commits x date (y ∷ ys) (some indicator) w e past h same =
        insert_current-Commits x indicator date w e past same
    insert_from-Commits x date (y ∷ ys) none w e past h same =
        let last = last_indicator y ys in
        let before_now : midnight (midnight last.date) < midnight now =
          rw (midnight_twice last.date) (last-All (IsPast (midnight now)) y ys h) in
        ensured-Commits before Post (check_existing_price k (midnight last.date)) _ w
          (check_existing_price-IsRead k (midnight last.date))
          (check_existing_price_rule before k (midnight last.date)) refl same
          (λ o w' same' found.
            unless_existing-Commits _ o w' same' found
              (insert_current-Commits x last (midnight last.date) w' e before_now same'))

  fetched-Commits :
      {B : Type 0} (before : Tables F) (Q : B → Tables F → Type 0) (now : Time)
      (raw : Result (List (ChartResult F))) (next : PriceChart F → M F B) (w : World F)
      → w.tables ≡ before
      → ((c : PriceChart F)
          → All (IsPast (midnight now)) c.indicators
          → Commits before Q (next c w))
      → Commits before Q
          (bind_result next (bind_result (λ rs. lift_result (parse_chart now rs)) (raw, w)))
  fetched-Commits before Q now (err e) next w same h = same
  fetched-Commits before Q now (ok rs) next w same h = parsed (parse_chart now rs) refl
    where
      parsed :
          (r : Result (PriceChart F))
          → parse_chart now rs ≡ r
          → Commits before Q (bind_result next (r, w))
      parsed (ok c) e = h c (parse_chart-IsPast now rs e)
      parsed (err x) e = same

  fetch-Commits :
      {B : Type 0} (before : Tables F) (Q : B → Tables F → Type 0)
      (query_five_day : Ident → Result (List (ChartResult F))) (symbol : Ident)
      (next : PriceChart F → M F B) (w : World F)
      → w.tables ≡ before
      → ((c : PriceChart F)
          → All (IsPast (midnight w.now)) c.indicators
          → Commits before Q (next c w))
      → Commits before Q ((fetch_yahoo_chart query_five_day symbol >>= next) w)
  unfolding fetch_yahoo_chart get_now
  fetch-Commits before Q query_five_day symbol next w same h = answered (query_five_day symbol)
    where
      answered :
          (r : Result (List (ChartResult F)))
          → Commits before Q
              (bind_result next (bind_result (λ rs v. lift_result (parse_chart v.now rs) v) (r, w)))
      answered (err e) = same
      answered (ok rs) = fetched-Commits before Q w.now (ok rs) next w same h

  pub has_symbol-Commits :
      {B : Type 0} (before : Tables F) (Q : B → Tables F → Type 0) (x : Fund) (m : M F B)
      (w : World F)
      → w.tables ≡ before
      → Commits before Q (m w)
      → Commits before Q ((has_symbol x >> m) w)
  has_symbol-Commits before Q x m w same c = elim (Bool-cases (x.symbol == 0)) [
    | inl e ↦ rw e same
    | inr e ↦ rw e c
  ]

  -- From the second day on, whichever statements fail and whatever Yahoo Finance answers,
  -- UpdateCurrentFundPrice either returns an error and leaves the tables as they were, or returns
  -- a price of the fund: one that it has added to the tables, for a day that is over, that had
  -- none, and at a price that is neither negative nor 0, or one that was in the table, which it
  -- has not changed.
  pub update_current_fund_price-Commits :
      (query_five_day : Ident → Result (List (ChartResult F))) (fund_id : Ident) (w : World F)
      → day ≤ w.now
      → Commits w.tables
          (λ u t. Outcome w.now fund_id w.tables u.inserted u.fund_price t)
          (update_current_fund_price query_five_day fund_id w)
  unfolding update_current_fund_price get_now
  update_current_fund_price-Commits query_five_day fund_id w late =
      clocked-Commits w.tables (Post w.tables w.now fund_id) (get_fund fund_id) _ w
        (get_fund-IsRead fund_id) (get_fund-IsTimed fund_id) (get_fund_rule w.tables fund_id) refl
        refl
        (λ x w' same clock e.
          has_symbol-Commits w.tables (Post w.tables w.now fund_id) x _ w' same (
            clocked-Commits w.tables (Post w.tables w.now fund_id)
              (check_existing_price fund_id (yesterday w'.now)) _ w'
              (check_existing_price-IsRead fund_id (yesterday w'.now))
              (check_existing_price-IsTimed fund_id (yesterday w'.now))
              (check_existing_price_rule w.tables fund_id (yesterday w'.now)) refl same
              (λ o v same' clock' found.
                unless_existing-Commits w.tables w.now fund_id _ o v same' found (
                  fetch-Commits w.tables (Post w.tables w.now fund_id) query_five_day x.symbol
                    (λ chart.
                      insert_from fund_id x (yesterday w'.now) chart.indicators
                        (get_indicator_for_date chart (yesterday w'.now)))
                    v same'
                    (λ chart past.
                      insert_from-Commits w.tables w.now fund_id x (yesterday w'.now)
                        chart.indicators _ v e (rw clock (yesterday-past w.now late))
                        (subst (λ n. All (IsPast (midnight n)) chart.indicators) (clock' ∙ clock)
                          past)
                        same')))))
