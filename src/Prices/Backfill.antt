-- ===== src/Prices/Backfill.antt =====
-- What `UpdateHistoricalFundPrice` adds.
use investment_portfolio_man.Base.{
  ℕ, ◌-◌, ◌≡◌, refl, ◌⊎◌, inl, inr, true, not, ◌||◌, List, [], ◌∷◌, ◌++◌, map, length, some, ◌==◌,
  arith, All, Bool-cases, ◌∙◌, sym, subst, ap,
}
use mathlib.Core.Option.{some-injective}
use investment_portfolio_man.Float64.{Float64}
use investment_portfolio_man.Result.{Result, ok}
use investment_portfolio_man.Model.{Ident, Time, Map, day, midnight, PortfolioFund, FundPrice}
use investment_portfolio_man.History.{lookup_or}
use investment_portfolio_man.History.Days.{days_from, day_count}
use investment_portfolio_man.Store.Tables.{Tables, Fund}
use investment_portfolio_man.Store.Effects.{find_fund}
use investment_portfolio_man.Store.Monad.{
  World, M, ◌>>=◌, ◌>>◌, transact, regenerate, lift_result, get_now,
}
use investment_portfolio_man.Store.Triples.{Commits, after-Commits, push_job-Commits}
use investment_portfolio_man.Store.Quiet.{transact-Commits, ensured-Commits}
use investment_portfolio_man.Store.Prices.{get_fund, insert_fund_prices, stored_price}
use investment_portfolio_man.Materialized.{contains}
use investment_portfolio_man.Materialized.Loader.{get_fund_price, get_oldest_transaction, oldest_in}
use investment_portfolio_man.Materialized.Regenerate.{get_portfolio_funds_by_fund_id}
use investment_portfolio_man.Yahoo.{ChartResult, PriceChart, parse_chart}
use investment_portfolio_man.Prices.{
  price_job, missing_from, finished_days, build_missing_dates_map, values, earliest_price,
  filter_missing_prices, insert_missing, fetch_missing, some_transaction,
  update_historical_fund_price,
}
use investment_portfolio_man.Prices.Rows.{In, In-priced, priced, priced-append, midnight_twice}
use investment_portfolio_man.Prices.Loop.{
  build_missing_dates_map-total, Covered, missing_from-Covered,
}
use investment_portfolio_man.Prices.Reads.{
  clocked-Commits, get_fund-IsTimed, get_fund-IsRead, get_fund_row_rule, holdings, holdings_rule,
  holdings-IsRead, holdings-IsTimed, oldest_rule, oldest-IsRead, oldest-IsTimed,
}
use investment_portfolio_man.Prices.Found.{
  get_fund_price_rule, get_fund_price-IsRead, get_fund_price-IsTimed,
}
use investment_portfolio_man.Prices.Current.{has_symbol-Commits}
use investment_portfolio_man.Prices.Filter.{
  values-priced, with_prices, with_prices-none, insert_fund_prices_rule, offered, Kept,
  filter-IsRead, filter_missing_prices_rule,
}

module _ {F : Type 0} where
  -- The date of the first transaction in a fund, and the days from it to yesterday.
  abbrev pub oldest_of_fund : Ident → Tables F → Time
  oldest_of_fund k t = oldest_in (map (λ (pf : PortfolioFund). pf.id) (holdings k t)) t

  abbrev pub past_days : Ident → Tables F → Time → List Time
  past_days k t now =
      days_from (day_count (oldest_of_fund k t) (midnight now - day)) (oldest_of_fund k t)

  priced-stored :
      (k : Ident) (d : Time) (ps : List (FundPrice F))
      → priced k d (map stored_price ps) ≡ priced k d ps
  priced-stored k d [] = refl
  priced-stored k d (p ∷ ps) = rw (midnight_twice p.date, priced-stored k d ps) refl

  length-stored : (ps : List (FundPrice F)) → length (map stored_price ps) ≡ length ps
  length-stored [] = refl
  length-stored (p ∷ ps) = omega (arith, length-stored ps)

  -- A day with a row that was found is priced.
  existing-priced :
      (k : Ident) (d : Time) (rows found : List (FundPrice F))
      → All (λ (x : FundPrice F). In x rows × (x.fund_id ≡ k)) found
      → contains d (map (λ (p : FundPrice F). midnight p.date) found) ≡ true
      → priced k d rows ≡ true
  existing-priced k d rows [] h e = cc
  existing-priced k d rows (p ∷ ps) h e = elim (Bool-cases (d == midnight p.date)) [
    | inl same ↦
        let at : d ≡ midnight p.date = ground (arith, same) in
        rw at (In-priced k p rows h.0.0 h.0.1)
    | inr other ↦ existing-priced k d rows ps h.1 (ground (arith, other, e))
  ]

module _ {F : Type 0} ⦃f : Float64 F⦄ where
  -- `n` prices are added, and each day for which the chart has a positive close price is priced.
  abbrev pub IsBackfilled : Ident → PriceChart F → List Time → Tables F → ℕ → Tables F → Type 0
  IsBackfilled k chart days before n t =
      (added : List (FundPrice F)) × (t
        ≡ record before { fund_prices = before.fund_prices ++ added })
      × (length added ≡ n)
      × All
          (λ d.
            (not (offered chart.indicators (midnight d)) || priced k (midnight d) t.fund_prices)
            ≡ true)
          days

  module _ (before : Tables F) (k : Ident) (chart : PriceChart F) where
    -- What is priced, is it by an old row or by a new one.
    days-priced :
        (found : List (FundPrice F)) (missing : List Time) (by : Map (FundPrice F))
        (days : List Time)
        → All (λ (x : FundPrice F). In x before.fund_prices × (x.fund_id ≡ k)) found
        → Covered (map (λ (p : FundPrice F). midnight p.date) found) missing days
        → Kept missing k chart.indicators [] by
        → All
            (λ d.
              (not (offered chart.indicators (midnight d))
                || priced k (midnight d) (before.fund_prices ++ map stored_price (values by)))
              ≡ true)
            days
    days-priced found missing by [] h c r = tt
    days-priced found missing by (d ∷ ds) h (inl e, cs) r = (
      rw
          (
            priced-append k (midnight d) before.fund_prices (map stored_price (values by)),
            existing-priced k (midnight d) before.fund_prices found h e,
          )
          (ground arith),
      days-priced found missing by ds h cs r,
    )
    days-priced found missing by (d ∷ ds) h (inr e, cs) r = (
      elim (Bool-cases (offered chart.indicators (midnight d))) [
        | inl o ↦
            rw
              (
                priced-append k (midnight d) before.fund_prices (map stored_price (values by)),
                priced-stored k (midnight d) (values by),
                values-priced k (midnight d) by r.keyed,
                r.covers (midnight d) e o,
              )
              (ground arith)
        | inr o ↦ rw o refl
      ],
      days-priced found missing by ds h cs r,
    )

    abbrev AreBackfilled : List Time → List (FundPrice F) → Type 0
    AreBackfilled days rows =
        All
          (λ d. (not (offered chart.indicators (midnight d)) || priced k (midnight d) rows) ≡ true)
          days

    added-IsBackfilled :
        (days : List Time) (ps : List (FundPrice F)) (t : Tables F)
        → t ≡ with_prices ps before
        → AreBackfilled days (before.fund_prices ++ map stored_price ps)
        → IsBackfilled k chart days before (length ps) t
    added-IsBackfilled days ps t q h = (
      map stored_price ps,
      q,
      length-stored ps,
      subst (AreBackfilled days) (sym (ap (λ (u : Tables F). u.fund_prices) q)) h,
    )

    insert_missing-Commits :
        (days : List Time) (ps : List (FundPrice F)) (w : World F)
        → w.tables ≡ before
        → AreBackfilled days (before.fund_prices ++ map stored_price ps)
        → Commits before (IsBackfilled k chart days before) (insert_missing ps w)
    unfolding insert_missing regenerate
    insert_missing-Commits days [] w same h =
        added-IsBackfilled days [] w.tables (same ∙ sym (with_prices-none before)) h
    insert_missing-Commits days (p ∷ ps) w same h =
        after-Commits before (λ u t. t ≡ with_prices (p ∷ ps) before)
          (IsBackfilled k chart days before) _ (transact (insert_fund_prices (p ∷ ps)) w)
          (transact-Commits before w (insert_fund_prices_rule before p ps) refl same)
          (λ u v q.
            push_job-Commits before (IsBackfilled k chart days before) v.has_invalidator
              (price_job (earliest_price p.date ps) p.fund_id) (length (p ∷ ps)) v
              (added-IsBackfilled days (p ∷ ps) v.tables q h))

    none-Kept : Kept [] k chart.indicators [] []
    none-Kept = record { keyed = tt; more = λ d g. g; covers = λ d m o. cc }

    fetch_missing-Commits :
        (query_range : Ident → Time → Time → Result (List (ChartResult F)))
        (raw : List (ChartResult F)) (symbol : Ident) (oldest now : Time)
        (found : List (FundPrice F)) (missing days : List Time) (w : World F)
        → query_range symbol oldest (midnight now - day) ≡ ok raw
        → parse_chart w.now raw ≡ ok chart
        → All (λ (x : FundPrice F). In x before.fund_prices × (x.fund_id ≡ k)) found
        → Covered (map (λ (p : FundPrice F). midnight p.date) found) missing days
        → w.tables ≡ before
        → Commits before
            (IsBackfilled k chart days before)
            (fetch_missing query_range symbol k oldest now missing w)
    unfolding fetch_missing get_now
    fetch_missing-Commits query_range raw symbol oldest now found [] days w er ec h c same =
        added-IsBackfilled days [] w.tables (same ∙ sym (with_prices-none before))
          (days-priced found [] [] days h c none-Kept)
    fetch_missing-Commits query_range raw symbol oldest now found (m ∷ ms) days w er ec h c same =
        rw (er, ec)
          (ensured-Commits before (IsBackfilled k chart days before)
            (filter_missing_prices chart.indicators (m ∷ ms) k [])
            (λ by. insert_missing (values by)) w (filter-IsRead (m ∷ ms) k chart.indicators [])
            (filter_missing_prices_rule (m ∷ ms) k (λ t. t ≡ before) chart.indicators [] tt) refl
            same
            (λ by v same' (e, r).
              insert_missing-Commits days (values by) v same'
                (days-priced found (m ∷ ms) by days h c r)))

    loaded-Commits :
        (query_range : Ident → Time → Time → Result (List (ChartResult F)))
        (raw : List (ChartResult F)) (symbol : Ident) (oldest now : Time)
        (found : List (FundPrice F)) (w : World F)
        → query_range symbol oldest (midnight now - day) ≡ ok raw
        → parse_chart w.now raw ≡ ok chart
        → All (λ (x : FundPrice F). In x before.fund_prices × (x.fund_id ≡ k)) found
        → w.tables ≡ before
        → Commits before
            (IsBackfilled k chart (days_from (day_count oldest (midnight now - day)) oldest) before)
            ((lift_result
                  (finished_days (build_missing_dates_map found oldest (midnight now - day)))
                >>= fetch_missing query_range symbol k oldest now)
              w)
    loaded-Commits query_range raw symbol oldest now found w er ec h same =
        let days = days_from (day_count oldest (midnight now - day)) oldest in
        rw (build_missing_dates_map-total found oldest (midnight now - day)) (
          fetch_missing-Commits query_range raw symbol oldest now found
            (missing_from (map (λ (p : FundPrice F). midnight p.date) found) days) days w er ec h
            (missing_from-Covered (map (λ (p : FundPrice F). midnight p.date) found) days) same)

  some_transaction-Commits :
      {B : Type 0} (before : Tables F) (Q : B → Tables F → Type 0) (o date : Time) (m : M F B)
      (w : World F)
      → w.tables ≡ before
      → (o ≡ 0) ⊎ (o ≡ date)
      → (o ≡ date → Commits before Q (m w))
      → Commits before Q ((some_transaction o >> m) w)
  some_transaction-Commits before Q o date m w same (inl e) c = rw e same
  some_transaction-Commits before Q o date m w same (inr e) c = elim (Bool-cases (o == 0)) [
    | inl z ↦ rw z same
    | inr z ↦ rw z (c e)
  ]

  -- For a fund that there is and an answer of Yahoo Finance for its symbol and its days that can
  -- be parsed, whichever statements fail, UpdateHistoricalFundPrice either returns an error and
  -- leaves the tables as they were, or returns the number of prices that it has added to the table
  -- of prices, changes nothing else, and every day from the first transaction in the fund to
  -- yesterday for which the answer has a positive close price then has a price of the fund.
  pub update_historical_fund_price-IsBackfilled :
      (query_range : Ident → Time → Time → Result (List (ChartResult F))) (k : Ident) (w : World F)
      (x : Fund) (raw : List (ChartResult F)) (chart : PriceChart F)
      → find_fund k w.tables ≡ some x
      → query_range x.symbol (oldest_of_fund k w.tables) (midnight w.now - day) ≡ ok raw
      → parse_chart w.now raw ≡ ok chart
      → Commits w.tables
          (IsBackfilled k chart (past_days k w.tables w.now) w.tables)
          (update_historical_fund_price query_range k w)
  unfolding update_historical_fund_price get_now
  update_historical_fund_price-IsBackfilled query_range k w x raw chart ex er ec =
      let Q = IsBackfilled k chart (past_days k w.tables w.now) w.tables in
      clocked-Commits w.tables Q (get_fund k) _ w (get_fund-IsRead k) (get_fund-IsTimed k)
        (get_fund_row_rule w.tables k) refl refl
        (λ y w1 s1 c1 ey. has_symbol-Commits w.tables Q y _ w1 s1 (
          clocked-Commits w.tables Q (get_portfolio_funds_by_fund_id k) _ w1 (holdings-IsRead k)
            (holdings-IsTimed k) (holdings_rule w.tables k) refl s1
            (λ pfs w2 s2 c2 ep.
              clocked-Commits w.tables Q
                (get_oldest_transaction (map (λ (pf : PortfolioFund). pf.id) pfs)) _ w2
                (oldest-IsRead _) (oldest-IsTimed _) (oldest_rule w.tables _) refl s2
                (λ o w3 s3 c3 eo.
                  some_transaction-Commits w.tables Q o (oldest_of_fund k w.tables) _ w3 s3
                    (subst
                      (λ hs.
                        (o ≡ 0) ⊎ (o ≡ oldest_in (map (λ (pf : PortfolioFund). pf.id) hs) w.tables))
                      (sym ep) eo)
                    (λ first.
                      clocked-Commits w.tables Q (get_fund_price (k ∷ []) o (midnight w3.now)) _ w3
                        (get_fund_price-IsRead (k ∷ []) o (midnight w3.now))
                        (get_fund_price-IsTimed (k ∷ []) o (midnight w3.now))
                        (get_fund_price_rule w.tables k o (midnight w3.now)) refl s3
                        (λ by w4 s4 c4 h.
                          rw
                            (
                              first,
                              c3 ∙ (c2 ∙ c1),
                              ap (λ (z : Fund). z.symbol) (some-injective _ _ (sym ey ∙ ex)),
                            )
                            (loaded-Commits w.tables k chart query_range raw x.symbol
                              (oldest_of_fund k w.tables) w.now (lookup_or [] k by) w4 er
                              (rw (c4 ∙ (c3 ∙ (c2 ∙ c1))) ec) h s4)))))))
