-- ===== src/Materialized/Stale.antt =====
-- `checkStaleData` of internal/service/materialized_service.go, and what it answers for.
pub mod Covered
pub mod Fresh
use investment_portfolio_man.Base.{
  ◌≤◌, ◌≡◌, refl, Bool, true, false, not, ◌&&◌, ◌||◌, List, [], ◌∷◌, ◌++◌, map, Option, none, some,
  arith, keep, find?, All, ltb, ◌==◌, if◌then◌else◌, Bool-cases, inl, inr,
}
use investment_portfolio_man.Result.{Result, ok, err}
use investment_portfolio_man.Model.{
  Ident, Time, midnight, Transaction, Dividend, FundPrice, PortfolioFund,
}
use investment_portfolio_man.Store.Tables.{Tables, MaterializedRow}
use investment_portfolio_man.Store.Monad.{World, M, query, pure, ◌>>=◌, statement, statement_with}
use investment_portfolio_man.Store.Effects.{is_some}
use investment_portfolio_man.Materialized.{contains, latest_of, in_portfolios}

-- The last date that is covered and the last calculation.
pub record Coverage : Type 0 where
  pub latest_date : Time
  pub latest_calc : Time

-- The latest created or dated of each source, zero for none.
pub record SourceDates : Type 0 where
  pub latest_txn : Time
  pub latest_price : Time
  pub latest_div : Time

-- The earlier of the dates of the portfolios, the later of their calculations.
abbrev pub widen : Coverage → Option Coverage → Option Coverage
widen c none = some c
widen c (some d) = some (record {
  latest_date = if ltb c.latest_date d.latest_date then c.latest_date else d.latest_date;
  latest_calc = if ltb c.latest_calc d.latest_calc then d.latest_calc else c.latest_calc;
})

-- `!a.IsZero() && a.After(b)`.
abbrev pub is_later : Time → Time → Bool
is_later a b = not (a == 0) && ltb b a

unfoldable pub stale_against : Coverage → SourceDates → Bool
stale_against c s =
    if is_later s.latest_txn c.latest_calc
    then true
    else if is_later s.latest_price c.latest_date
    then true
    else is_later s.latest_div c.latest_calc

module _ {F : Type 0} where
  abbrev pub rows_of : Ident → Tables F → List (MaterializedRow F)
  rows_of p t =
      keep (λ (r : MaterializedRow F). in_portfolios (p ∷ []) t r.entry.portfolio_fund_id)
        t.materialized

  -- A portfolio without rows makes no group.
  abbrev pub cover : List (MaterializedRow F) → Option Coverage → Option Coverage
  cover [] others = others
  cover (r ∷ rs) others =
      widen
        (record {
          latest_date = latest_of (map (λ (x : MaterializedRow F). x.entry.date) (r ∷ rs));
          latest_calc = latest_of (map (λ (x : MaterializedRow F). x.calculated_at) (r ∷ rs));
        })
        others

  unfoldable pub coverage : List Ident → Tables F → Option Coverage
  coverage [] t = none
  coverage (p ∷ ps) t = cover (rows_of p t) (coverage ps t)

  -- `GetLatestMaterializedDate`.
  unfoldable pub get_latest_materialized_date : List Ident → M F (Option Coverage)
  get_latest_materialized_date [] = pure none
  get_latest_materialized_date (p ∷ ps) = query (λ t. ok (coverage (p ∷ ps) t))

  abbrev pub transactions_in : List Ident → Tables F → List (Transaction F)
  transactions_in ids t =
      keep (λ (x : Transaction F). in_portfolios ids t x.portfolio_fund_id) t.transactions

  abbrev pub dividends_in : List Ident → Tables F → List (Dividend F)
  dividends_in ids t =
      keep (λ (x : Dividend F). in_portfolios ids t x.portfolio_fund_id) t.dividends

  -- The prices of the funds that one of the portfolios holds.
  abbrev pub prices_in : List Ident → Tables F → List (FundPrice F)
  prices_in ids t =
      keep
        (λ (x : FundPrice F). is_some (
          find? (λ (pf : PortfolioFund). pf.fund_id == x.fund_id && contains pf.portfolio_id ids)
            t.portfolio_funds))
        t.fund_prices

  unfoldable pub source_dates : List Ident → Tables F → SourceDates
  source_dates ids t = record {
    latest_txn = latest_of (map (λ (x : Transaction F). x.created_at) (transactions_in ids t));
    latest_price = latest_of (map (λ (x : FundPrice F). x.date) (prices_in ids t));
    latest_div = latest_of (map (λ (x : Dividend F). x.created_at) (dividends_in ids t));
  }

  -- `GetLatestSourceDates`.
  unfoldable pub get_latest_source_dates : List Ident → M F SourceDates
  get_latest_source_dates [] = pure (record { latest_txn = 0; latest_price = 0; latest_div = 0 })
  get_latest_source_dates (p ∷ ps) = query (λ t. ok (source_dates (p ∷ ps) t))

  abbrev pub stale_from : List Ident → Time → Option Coverage → M F Bool
  stale_from ids end_date none = pure true
  stale_from ids end_date (some c) =
      if ltb c.latest_date (midnight end_date)
      then pure true
      else get_latest_source_dates ids >>= λ s. pure (stale_against c s)

  -- An error counts as stale.
  abbrev pub true_on_error : Result Bool × World F → Result Bool × World F
  true_on_error (ok b, w) = (ok b, w)
  true_on_error (err e, w) = (ok true, w)

  unfoldable pub check_stale_data : List Ident → Time → M F Bool
  check_stale_data ids end_date w =
      true_on_error ((get_latest_materialized_date ids >>= stale_from ids end_date) w)
