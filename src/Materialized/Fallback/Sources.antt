-- ===== src/Materialized/Fallback/Sources.antt =====
-- Where the histories of `GetFundHistoryWithFallback` come from.
use investment_portfolio_man.Base.{
  ◌≡◌, refl, ◌≢◌, ◌⊎◌, inl, inr, Bool, true, false, List, [], ◌∷◌, Option, none, some, ltb, sym,
  ◌∙◌, subst, Bool-cases, find?, ◌==◌,
}
use investment_portfolio_man.Float64.{Float64}
use investment_portfolio_man.Result.{Result, ok, err, ok-injective}
use investment_portfolio_man.Model.{
  Ident, Time, Map, midnight, FundHistoryEntry, FundHistoryResponse,
}
use investment_portfolio_man.Store.Tables.{Tables}
use investment_portfolio_man.Store.Effects.{is_some}
use investment_portfolio_man.Store.Monad.{World, query, pure, bind_result}
use investment_portfolio_man.Store.Quiet.{IsRead, query-IsRead, bind-IsRead}
use investment_portfolio_man.Materialized.{history_rows}
use investment_portfolio_man.Materialized.Loader.{fund_history_on_fly, scanned_rows}
use investment_portfolio_man.Materialized.Read.{
  by_date, format_fund_history_from_materialized, get_fund_history_materialized,
}
use investment_portfolio_man.Materialized.Stale.{
  Coverage, check_stale_data, coverage, source_dates, stale_from, stale_against, true_on_error,
  get_latest_materialized_date, get_latest_source_dates,
}
use investment_portfolio_man.Materialized.Stale.Fresh.{
  IsFresh, check_stale_data-IsFresh, query-cases,
}
use investment_portfolio_man.Materialized.Fallback.{
  Served, computed, serve_cached, unless_stale, get_fund_history_with_fallback,
}

module _ {F : Type 0} where
  get_fund_history_materialized-IsRead :
      (p : Ident) (start_date end_date : Time)
      → IsRead {F = F} (get_fund_history_materialized p start_date end_date)
  unfolding get_fund_history_materialized
  get_fund_history_materialized-IsRead p start_date end_date =
      bind-IsRead _ _ (query-IsRead _) (λ by w. refl)

  stale_from-IsRead :
      (p : Ident) (end_date : Time) (c : Option Coverage)
      → IsRead {F = F} (stale_from (p ∷ []) end_date c)
  unfolding get_latest_source_dates
  stale_from-IsRead p end_date none w = refl
  stale_from-IsRead p end_date (some c) w =
      elim (Bool-cases (ltb c.latest_date (midnight end_date))) [
        | inl early ↦ rw early
        | inr covered ↦ rw covered (
            bind-IsRead (query (λ t. ok (source_dates (p ∷ []) t))) (λ s. pure (stale_against c s))
              (query-IsRead _) (λ s v. refl) w)
      ]

  true_on_error-tables : (r : Result Bool × World F) → (true_on_error r).1.tables ≡ r.1.tables
  true_on_error-tables (ok b, w) = refl
  true_on_error-tables (err e, w) = refl

  check_stale_data-IsRead :
      (p : Ident) (end_date : Time) → IsRead {F = F} (check_stale_data (p ∷ []) end_date)
  unfolding check_stale_data get_latest_materialized_date
  check_stale_data-IsRead p end_date w =
      true_on_error-tables _
      ∙ bind-IsRead (query (λ t. ok (coverage (p ∷ []) t))) (stale_from (p ∷ []) end_date)
          (query-IsRead _) (stale_from-IsRead p end_date) w

  abbrev rows_by_date :
      Ident → (start_date end_date : Time) → Tables F → Result (Map (List (FundHistoryEntry F)))
  rows_by_date p start_date end_date t =
      scanned_rows (λ (x : FundHistoryEntry F). x.date == 0) by_date
        (history_rows p start_date end_date t)

  read_rows :
      (p : Ident) (start_date end_date : Time) (w : World F) {hs : List (FundHistoryResponse F)}
      → (get_fund_history_materialized p start_date end_date w).0 ≡ ok hs
      → hs
        ≡ format_fund_history_from_materialized
            (by_date (history_rows p start_date end_date w.tables))
  unfolding get_fund_history_materialized
  read_rows p start_date end_date w h = elim (query-cases (rows_by_date p start_date end_date) w) [
    | inl (w', e) ↦ cc (rw e at h)
    | inr (w', e, same) ↦
        elim (Bool-cases (
          is_some (
            find? (λ (x : FundHistoryEntry F). x.date == 0)
              (history_rows p start_date end_date w.tables)))) [
                | inl undated ↦ cc (rw (e, undated) at h)
                | inr dated ↦ sym (ok-injective (rw (e, dated) at h))
              ]
  ]

module _ {F : Type 0} ⦃f : Float64 F⦄ (p : Ident) (start_date end_date : Time) where
  -- The rows of a fresh table, or else what is computed on demand from the same tables.
  abbrev pub HasSource : World F → Served F → Type 0
  HasSource w r =
      ((r.requested ≡ none)
        × IsFresh (p ∷ []) end_date w.tables
        × (r.history ≢ [])
        × (r.history
            ≡ format_fund_history_from_materialized
                (by_date (history_rows p start_date end_date w.tables))))
      ⊎ ((r.requested ≡ some start_date)
          × (w' : World F) × (w'.tables ≡ w.tables)
          × ((fund_history_on_fly p start_date end_date w').0 ≡ ok r.history))

  computed-cases :
      (x : Result (List (FundHistoryResponse F)) × World F) {r : Served F}
      → (bind_result (computed start_date) x).0 ≡ ok r
      → (r.requested ≡ some start_date) × (x.0 ≡ ok r.history)
  computed-cases (ok h, w) e =
      subst (λ r. (r.requested ≡ some start_date) × (ok h ≡ ok r.history)) (ok-injective e)
        (refl, refl)
  computed-cases (err why, w) e = cc

  computed-HasSource :
      (w w' : World F) {r : Served F}
      → w'.tables ≡ w.tables
      → (bind_result (computed start_date) (fund_history_on_fly p start_date end_date w')).0 ≡ ok r
      → HasSource w r
  computed-HasSource w w' same e =
      let (q, h) = computed-cases (fund_history_on_fly p start_date end_date w') e in
      inr (q, w', same, h)

  serve_cached-HasSource :
      (w : World F) (x : Result (List (FundHistoryResponse F)) × World F) {r : Served F}
      → x.1.tables ≡ w.tables
      → IsFresh (p ∷ []) end_date w.tables
      → ((hs : List (FundHistoryResponse F))
          → x.0 ≡ ok hs
          → hs
            ≡ format_fund_history_from_materialized
                (by_date (history_rows p start_date end_date w.tables)))
      → (serve_cached p start_date end_date x).0 ≡ ok r
      → HasSource w r
  unfolding serve_cached
  serve_cached-HasSource w (ok (h ∷ hs), w') same fresh rows e =
      subst (HasSource w) (ok-injective e) (inl (refl, fresh, cc, rows (h ∷ hs) refl))
  serve_cached-HasSource w (ok [], w') same fresh rows e = computed-HasSource w w' same e
  serve_cached-HasSource w (err why, w') same fresh rows e = computed-HasSource w w' same e

  unless_stale-HasSource :
      (w : World F) (x : Result Bool × World F) {r : Served F}
      → x.1.tables ≡ w.tables
      → (x.0 ≡ ok false → IsFresh (p ∷ []) end_date w.tables)
      → (bind_result (unless_stale p start_date end_date) x).0 ≡ ok r
      → HasSource w r
  unfolding unless_stale
  unless_stale-HasSource w (ok true, w') same fresh e = computed-HasSource w w' same e
  unless_stale-HasSource w (ok false, w') same fresh e =
      serve_cached-HasSource w (get_fund_history_materialized p start_date end_date w')
        (get_fund_history_materialized-IsRead p start_date end_date w' ∙ same) (fresh refl)
        (λ hs h. rw same at (read_rows p start_date end_date w' h)) e
  unless_stale-HasSource w (err why, w') same fresh e = cc

  -- Whichever statements fail, a history that GetFundHistoryWithFallback returns without asking
  -- for a regeneration is that of the table's rows for the range, not empty, and there are a day
  -- not before the end date and a time such that the portfolio has a row calculated at that time
  -- and one of that day or a later one, no transaction or dividend of it was created after the
  -- time and no price of a fund that it holds is dated after the day; any other history is
  -- computed on demand from the same tables, and a regeneration from the start date is asked for.
  pub get_fund_history_with_fallback-HasSource :
      (w : World F) {r : Served F}
      → (get_fund_history_with_fallback p start_date end_date w).0 ≡ ok r
      → HasSource w r
  unfolding get_fund_history_with_fallback
  get_fund_history_with_fallback-HasSource w e =
      unless_stale-HasSource w (check_stale_data (p ∷ []) end_date w)
        (check_stale_data-IsRead p end_date w) (check_stale_data-IsFresh p [] end_date w) e
