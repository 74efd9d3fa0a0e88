-- ===== src/Materialized/Stale/Fresh.antt =====
-- What `checkStaleData` answers for when it finds the cache fresh.
use investment_portfolio_man.Base.{
  ◌≤◌, ◌≡◌, refl, Bool, true, false, List, [], ◌∷◌, map, some, arith, All, ltb, Bool-cases,
  Option-cases, inl, inr, ◌⊎◌, ◌==◌, ◌&&◌, keep, find?, ==_refl,
}
use investment_portfolio_man.Result.{Result, ok, err, database}
use investment_portfolio_man.Model.{
  Ident, Time, midnight, Transaction, Dividend, FundPrice, PortfolioFund,
}
use investment_portfolio_man.Store.Tables.{Tables}
use investment_portfolio_man.Store.Effects.{is_some}
use investment_portfolio_man.Store.Monad.{World, query, statement, statement_with, bind_result}
use investment_portfolio_man.Materialized.{latest_of, contains, in_portfolios}
use investment_portfolio_man.Materialized.Stale.Covered.{
  All-keep, All-map, IsOf, IsOf-in_portfolios, IsCovered, IsCalculation, coverage-IsCovered,
}
use investment_portfolio_man.Materialized.Stale.{
  Coverage, SourceDates, coverage, transactions_in, prices_in, dividends_in, source_dates,
  stale_against, check_stale_data, get_latest_materialized_date, get_latest_source_dates,
}

All-le_latest :
    {A : Type 0} (key : A → Time) (b : Time) (xs : List A)
    → latest_of (map key xs) ≤ b
    → All (λ x. key x ≤ b) xs
All-le_latest key b [] h = tt
All-le_latest key b (x ∷ xs) h = (ground (arith, h), All-le_latest key b xs (ground (arith, h)))

-- What holds if some element passes a test holds for each that does.
All-found :
    {A B : Type 0} (q : A → Bool) (xs : List A)
    → (is_some (find? q xs) ≡ true → B)
    → All (λ x. q x ≡ true → B) xs
All-found q [] f = tt
All-found q (x ∷ xs) f = elim (Bool-cases (q x)) [
  | inl found ↦ ((λ e. f (rw found refl)), All-found q xs (λ e. f (rw found refl)))
  | inr other ↦ ((λ e. cc), All-found q xs (rw other at f))
]

All-members :
    {P : Ident → Type 0} (ids : List Ident)
    → ((p : Ident) → contains p ids ≡ true → P p)
    → All P ids
All-members [] f = tt
All-members (i ∷ is) f =
    (f i (rw (==_refl i) refl), All-members is (λ p h. f p (ground (arith, h))))

not_stale :
    (c : Coverage) (s : SourceDates)
    → stale_against c s ≡ false
    → (s.latest_txn ≤ c.latest_calc)
      × (s.latest_price ≤ c.latest_date)
      × (s.latest_div ≤ c.latest_calc)
unfolding stale_against
not_stale c s h = ground arith

module _ {F : Type 0} where
  -- A query fails, or answers from the tables.
  query_with-cases :
      {A : Type 0} (f : Tables F → Result A) (faults : List Bool) (w : World F)
      → ((w' : World F) × (bind_result (λ u v. (f v.tables, v)) (statement_with faults w)
            ≡ (err database, w')))
        ⊎ ((w' : World F) × (bind_result (λ u v. (f v.tables, v)) (statement_with faults w)
              ≡ (f w.tables, w'))
            × (w'.tables ≡ w.tables))
  query_with-cases f [] w = inr (w, refl, refl)
  query_with-cases f (true ∷ faults) w = inl (_, refl)
  query_with-cases f (false ∷ faults) w = inr (_, refl, refl)

  pub query-cases :
      {A : Type 0} (f : Tables F → Result A) (w : World F)
      → ((w' : World F) × (query f w ≡ (err database, w')))
        ⊎ ((w' : World F) × (query f w ≡ (f w.tables, w')) × (w'.tables ≡ w.tables))
  unfolding query statement
  query-cases f w = query_with-cases f w.faults w

  -- No price of a fund that the portfolio holds is dated after the day.
  abbrev pub IsPriced : Tables F → Time → Ident → Type 0
  IsPriced t day p =
      All
        (λ (x : FundPrice F).
          All (λ (pf : PortfolioFund). pf.fund_id ≡ x.fund_id → pf.portfolio_id ≡ p → x.date ≤ day)
            t.portfolio_funds)
        t.fund_prices

  -- Up to some day each portfolio has rows or has none at all, and nothing of the portfolios is
  -- later than that day and than some calculation of their rows.
  abbrev pub IsFresh : List Ident → Time → Tables F → Type 0
  IsFresh ids end_date t =
      (covered : Time) × (calculated : Time) × (midnight end_date ≤ covered)
      × All (IsCovered t covered) ids
      × IsCalculation t ids calculated
      × All
          (λ p.
            All (λ (x : Transaction F). IsOf t p x.portfolio_fund_id → x.created_at ≤ calculated)
              t.transactions)
          ids
      × All (IsPriced t covered) ids
      × All
          (λ p.
            All (λ (x : Dividend F). IsOf t p x.portfolio_fund_id → x.created_at ≤ calculated)
              t.dividends)
          ids

  All-owned :
      {A : Type 0} (t : Tables F) (ids : List Ident) (of : A → Ident) (P : A → Type 0) (xs : List A)
      → All P (keep (λ x. in_portfolios ids t (of x)) xs)
      → All (λ p. All (λ x. IsOf t p (of x) → P x) xs) ids
  All-owned t ids of P xs h = All-members ids (λ p member.
      All-map (λ x. in_portfolios ids t (of x) ≡ true → P x) (λ x. IsOf t p (of x) → P x) xs
        (λ x q is_of. q (IsOf-in_portfolios t p (of x) ids is_of member))
        (All-keep (λ x. in_portfolios ids t (of x)) P xs h))

  prices-IsPriced :
      (t : Tables F) (ids : List Ident) (day : Time)
      → All (λ (x : FundPrice F). x.date ≤ day) (prices_in ids t)
      → All (IsPriced t day) ids
  prices-IsPriced t ids day h = All-members ids (λ p member.
      All-map _ _ t.fund_prices
        (λ x q.
          All-map _ _ t.portfolio_funds
            (λ pf found fund portfolio. found (held fund portfolio member))
            (All-found
              (λ (pf : PortfolioFund). pf.fund_id == x.fund_id && contains pf.portfolio_id ids)
              t.portfolio_funds q))
        (All-keep _ _ t.fund_prices h))
    where
      held :
          {a b p q : Ident}
          → a ≡ b
          → q ≡ p
          → contains p ids ≡ true
          → (a == b && contains q ids) ≡ true
      held {b = b} e e' h = rw (e, e', ==_refl b, h) refl

  source_dates-IsFresh :
      (ids : List Ident) (end_date : Time) (t : Tables F) (c : Coverage)
      → coverage ids t ≡ some c
      → ltb c.latest_date (midnight end_date) ≡ false
      → stale_against c (source_dates ids t) ≡ false
      → IsFresh ids end_date t
  unfolding source_dates
  source_dates-IsFresh ids end_date t c e covered h =
      let (txn, price, div) = not_stale c (source_dates ids t) h in
      let rows = coverage-IsCovered t c.latest_date ids c e (omega arith) in
      (
        c.latest_date,
        c.latest_calc,
        ground (arith, covered),
        rows.0,
        rows.1,
        All-owned t ids (λ (x : Transaction F). x.portfolio_fund_id)
            (λ (x : Transaction F). x.created_at ≤ c.latest_calc) t.transactions
            (All-le_latest (λ (x : Transaction F). x.created_at) c.latest_calc
              (transactions_in ids t) txn),
        prices-IsPriced t ids c.latest_date
            (All-le_latest (λ (x : FundPrice F). x.date) c.latest_date (prices_in ids t) price),
        All-owned t ids (λ (x : Dividend F). x.portfolio_fund_id)
            (λ (x : Dividend F). x.created_at ≤ c.latest_calc) t.dividends
            (All-le_latest (λ (x : Dividend F). x.created_at) c.latest_calc (dividends_in ids t)
              div),
      )

  -- Whichever statements fail, when checkStaleData finds the cache of one or more portfolios
  -- fresh, there are a day not before the end date and a time such that each of the portfolios has
  -- no rows or has one of that day or a later one, some row of theirs was calculated at that time,
  -- no transaction or dividend of theirs was created after it, and no price of a fund that one of
  -- them holds is dated after the day.
  pub check_stale_data-IsFresh :
      (p : Ident) (ps : List Ident) (end_date : Time) (w : World F)
      → (check_stale_data (p ∷ ps) end_date w).0 ≡ ok false
      → IsFresh (p ∷ ps) end_date w.tables
  unfolding check_stale_data get_latest_materialized_date get_latest_source_dates
  check_stale_data-IsFresh p ps end_date w h =
      elim (query-cases (λ t. ok (coverage (p ∷ ps) t)) w) [
        | inl (w', e) ↦ cc (rw e at h)
        | inr (w', e, same) ↦ elim (Option-cases (coverage (p ∷ ps) w.tables)) [
          | inl none_ ↦ cc (rw (e, none_) at h)
          | inr (c, covers) ↦ elim (Bool-cases (ltb c.latest_date (midnight end_date))) [
            | inl early ↦ cc (rw (e, covers, early) at h)
            | inr covered ↦ elim (query-cases (λ t. ok (source_dates (p ∷ ps) t)) w') [
              | inl (w'', e') ↦ cc (rw (e, covers, covered, e') at h)
              | inr (w'', e', same') ↦
                  source_dates-IsFresh (p ∷ ps) end_date w.tables c covers covered
                    (cc (rw (e, covers, covered, e', same) at h))
            ]
          ]
        ]
      ]
