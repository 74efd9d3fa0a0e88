-- ===== src/Prices/Found.antt =====
-- The prices that `checkExistingPrice` and `GetFundPrice` find.
use investment_portfolio_man.Base.{
  ◌≡◌, refl, false, List, [], ◌∷◌, Option, some, none, ltb, arith, All, ◌∙◌, subst,
}
use investment_portfolio_man.Result.{Result, ok, err, invalid_range}
use investment_portfolio_man.Model.{Ident, Time, Map, FundPrice}
use investment_portfolio_man.History.{lookup_or}
use investment_portfolio_man.Store.Tables.{Tables}
use investment_portfolio_man.Store.Monad.{World, query}
use investment_portfolio_man.Store.Triples.{Ensures, Leaves, weaken_result}
use investment_portfolio_man.Store.Quiet.{IsRead, guard-IsRead, query-IsRead}
use investment_portfolio_man.Store.Reads.{read_rule}
use investment_portfolio_man.Materialized.Loader.{get_fund_price, prices_between}
use investment_portfolio_man.Prices.{first_price, existing_or_none, check_existing_price}
use investment_portfolio_man.Prices.Rows.{In, prices_between-In}
use investment_portfolio_man.Prices.Reads.{guarded-Leaves, guard-IsTimed, query-IsTimed}

same_day : (date : Time) → ltb date date ≡ false
same_day date = ground arith

module _ {F : Type 0} where
  -- A price that was found.
  abbrev pub FoundIn : Tables F → Ident → Option (FundPrice F) → Type 0
  FoundIn t k none = Unit
  FoundIn t k (some p) = In p t.fund_prices × (p.fund_id ≡ k)

  first-FoundIn :
      (t : Tables F) (k : Ident) (ps : List (FundPrice F))
      → All (λ (x : FundPrice F). In x t.fund_prices × (x.fund_id ≡ k)) ps
      → FoundIn t k (first_price ps)
  first-FoundIn t k [] h = tt
  first-FoundIn t k (p ∷ ps) h = h.0

  existing_or_none-FoundIn :
      (before : Tables F) (k : Ident) (r : Result (Map (List (FundPrice F))) × World F)
      → Leaves
          (λ by t.
            All
              (λ (x : FundPrice F). In x before.fund_prices × (x.fund_id ≡ k))
              (lookup_or [] k by))
          r
      → Leaves (λ o t. FoundIn before k o) (existing_or_none k r)
  existing_or_none-FoundIn before k (ok by, w) h = first-FoundIn before k (lookup_or [] k by) h
  existing_or_none-FoundIn before k (err e, w) h = tt

  existing_or_none-tables :
      (k : Ident) (r : Result (Map (List (FundPrice F))) × World F)
      → (existing_or_none k r).1.tables ≡ r.1.tables
  existing_or_none-tables k (ok by, w) = refl
  existing_or_none-tables k (err e, w) = refl

  pub check_existing_price-IsRead :
      (k : Ident) (date : Time) → IsRead {F = F} (check_existing_price k date)
  unfolding check_existing_price get_fund_price
  check_existing_price-IsRead k date w = rw (same_day date) (
      existing_or_none-tables k (query (λ t. prices_between (k ∷ []) date date t) w)
      ∙ query-IsRead (λ t. prices_between (k ∷ []) date date t) w)

  prices_rule :
      (before : Tables F) (k : Ident) (start_date end_date : Time)
      → Ensures
          (λ t. t ≡ before)
          (query (λ t. prices_between (k ∷ []) start_date end_date t))
          (λ by t.
            All
              (λ (x : FundPrice F). In x before.fund_prices × (x.fund_id ≡ k))
              (lookup_or [] k by))
  prices_rule before k start_date end_date =
      weaken_result (read_rule (λ t. prices_between (k ∷ []) start_date end_date t))
        (λ by t (same, e).
          subst
            (λ u.
              All (λ (x : FundPrice F). In x u.fund_prices × (x.fund_id ≡ k)) (lookup_or [] k by))
            same (prices_between-In (k ∷ []) start_date end_date t k e))

  pub check_existing_price_rule :
      (before : Tables F) (k : Ident) (date : Time)
      → Ensures (λ t. t ≡ before) (check_existing_price k date) (λ o t. FoundIn before k o)
  unfolding check_existing_price get_fund_price
  check_existing_price_rule before k date = record {
    leaves = λ w e. rw (same_day date) (
        existing_or_none-FoundIn before k (query (λ t. prices_between (k ∷ []) date date t) w)
          ((prices_rule before k date date).leaves w e));
  }

  existing_or_none-now :
      (k : Ident) (r : Result (Map (List (FundPrice F))) × World F)
      → (existing_or_none k r).1.now ≡ r.1.now
  existing_or_none-now k (ok by, w) = refl
  existing_or_none-now k (err e, w) = refl

  pub check_existing_price-IsTimed :
      (k : Ident) (date : Time) (w : World F) → (check_existing_price k date w).1.now ≡ w.now
  unfolding check_existing_price get_fund_price
  check_existing_price-IsTimed k date w = rw (same_day date) (
      existing_or_none-now k (query (λ t. prices_between (k ∷ []) date date t) w)
      ∙ query-IsTimed (λ t. prices_between (k ∷ []) date date t) w)

  -- The prices of a fund in a range of days are rows of the table.
  pub get_fund_price_rule :
      (before : Tables F) (k : Ident) (start_date end_date : Time)
      → Ensures
          (λ t. t ≡ before)
          (get_fund_price (k ∷ []) start_date end_date)
          (λ by t.
            All
              (λ (x : FundPrice F). In x before.fund_prices × (x.fund_id ≡ k))
              (lookup_or [] k by))
  unfolding get_fund_price
  get_fund_price_rule before k start_date end_date = record {
    leaves = λ w e.
        guarded-Leaves (λ t. t ≡ before) _ (ltb end_date start_date) invalid_range
          (λ t. prices_between (k ∷ []) start_date end_date t) w
          (prices_rule before k start_date end_date) e;
  }

  pub get_fund_price-IsRead :
      (ids : List Ident) (start_date end_date : Time)
      → IsRead {F = F} (get_fund_price ids start_date end_date)
  unfolding get_fund_price
  get_fund_price-IsRead ids start_date end_date =
      guard-IsRead (ltb end_date start_date) invalid_range _ (query-IsRead _)

  pub get_fund_price-IsTimed :
      (ids : List Ident) (start_date end_date : Time) (w : World F)
      → (get_fund_price ids start_date end_date w).1.now ≡ w.now
  unfolding get_fund_price
  get_fund_price-IsTimed ids start_date end_date w =
      guard-IsTimed (ltb end_date start_date) invalid_range _ w
