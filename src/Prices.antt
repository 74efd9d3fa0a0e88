-- ===== src/Prices.antt =====
-- The price updates of internal/service/fund_service.go, and `GetFundPrice` and `UpdateFundPrice` of
-- developer_service.go. The client of Yahoo Finance is a parameter: what it answers to a symbol, or
-- to a symbol and a range of dates.
pub mod Current
pub mod Filter
pub mod Found
pub mod Loop
pub mod Reads
pub mod Backfill
mod Tests
pub mod Rows
use investment_portfolio_man.Base.{
  ℕ, zero, suc, ◌+◌, ◌-◌, ◌/◌, Bool, true, false, not, ◌&&◌, ◌||◌, List, [], ◌∷◌, ◌++◌, map, length,
  Option, none, some, ltb, ◌==◌, if◌then◌else◌,
}
use investment_portfolio_man.Float64.{Float64, nought}
use investment_portfolio_man.Result.{
  Result, ok, err, database, parse_date, invalid_symbol, invalid_price, no_prices, no_transactions,
  fund_not_found, fund_price_not_found, update_failed,
}
use investment_portfolio_man.Model.{Ident, Time, Map, day, midnight, PortfolioFund, FundPrice}
use investment_portfolio_man.History.{lookup_or, insert}
use investment_portfolio_man.Store.Tables.{Tables, Fund}
use investment_portfolio_man.Store.Monad.{
  M, World, Job, pure, fail, query, lift_result, ◌>>=◌, ◌>>◌, transact, regenerate, new_uuid,
  get_now,
}
use investment_portfolio_man.Store.Effects.{or_not_found}
use investment_portfolio_man.Store.Prices.{
  get_fund, insert_fund_price, insert_fund_prices, update_fund_price,
}
use investment_portfolio_man.Materialized.{contains}
use investment_portfolio_man.Materialized.Loader.{get_fund_price, get_oldest_transaction}
use investment_portfolio_man.Materialized.Regenerate.{get_portfolio_funds_by_fund_id}
use investment_portfolio_man.Yahoo.{
  ChartResult, Indicators, PriceChart, parse_chart, get_indicator_for_date,
}

abbrev pub price_job : Time → Ident → Job
price_job date fund_id = record {
  start_date = date;
  portfolio_ids = [];
  fund_id = fund_id;
  portfolio_fund_id = 0;
}

-- A price, and whether it was inserted.
pub record PriceUpdate (F : Type 0) : Type 0 where
  pub fund_price : FundPrice F
  pub inserted : Bool

pub record AllFundUpdateResponse : Type 0 where
  pub success : Bool
  -- A fund and how many prices were added, and the funds with an error.
  pub updated_funds : List (Ident × ℕ)
  pub errors : List Ident
  pub total_updated : ℕ
  pub total_errors : ℕ

-- The dates of `for d := from; !d.After(to); d = d.AddDate(0, 0, 1)`; `none` is a run that the fuel
-- cuts off.
abbrev pub prepend : Time → Option (List Time) → Option (List Time)
prepend t none = none
prepend t (some ts) = some (t ∷ ts)

unfoldable pub loop_days : (fuel : ℕ) → (from to : Time) → Option (List Time)
loop_days zero from to = none
loop_days (suc fuel) from to =
    let rest = loop_days fuel (from + day) to in if ltb to from then some [] else prepend from rest

abbrev pub missing_from : List Time → List Time → List Time
missing_from existing [] = []
missing_from existing (t ∷ ts) =
    if contains (midnight t) existing
    then missing_from existing ts
    else midnight t ∷ missing_from existing ts

abbrev pub missing_of : List Time → Option (List Time) → Option (List Time)
missing_of existing none = none
missing_of existing (some ts) = some (missing_from existing ts)

abbrev pub finished_days : Option (List Time) → Result (List Time)
finished_days none = err database
finished_days (some ts) = ok ts

abbrev pub yesterday : Time → Time
yesterday now = midnight (now - day)

module _ {F : Type 0} where
  abbrev pub first_price : List (FundPrice F) → Option (FundPrice F)
  first_price [] = none
  first_price (p ∷ ps) = some p

  abbrev pub existing_or_none :
      Ident → Result (Map (List (FundPrice F))) × World F → Result (Option (FundPrice F)) × World F
  existing_or_none fund_id (ok by, w) = (ok (first_price (lookup_or [] fund_id by)), w)
  existing_or_none fund_id (err e, w) = (ok none, w)

  -- An error counts as no price.
  unfoldable pub check_existing_price : Ident → Time → M F (Option (FundPrice F))
  check_existing_price fund_id date w =
      existing_or_none fund_id (get_fund_price (fund_id ∷ []) date date w)

  -- `buildMissingDatesMap`: the keys of the map, each a day. One round for each day and one to see
  -- the end.
  unfoldable pub build_missing_dates_map :
      List (FundPrice F) → (start_date end_date : Time) → Option (List Time)
  build_missing_dates_map existing start_date end_date =
      missing_of (map (λ (p : FundPrice F). midnight p.date) existing)
        (loop_days ((end_date - start_date) / day + 2) start_date end_date)

  abbrev pub values : Map (FundPrice F) → List (FundPrice F)
  values [] = []
  values ((date, p) ∷ m) = p ∷ values m

  abbrev pub has_symbol : Fund → M F (Unit {0})
  has_symbol x = if x.symbol == 0 then fail invalid_symbol else pure tt

  abbrev pub earliest_price : Time → List (FundPrice F) → Time
  earliest_price date [] = date
  earliest_price date (p ∷ ps) = earliest_price (if ltb p.date date then p.date else date) ps

  unfoldable pub get_fund_price_of : Ident → Time → M F (FundPrice F)
  get_fund_price_of fund_id date = get_fund_price (fund_id ∷ []) date date >>= λ by.
      lift_result (or_not_found fund_price_not_found (first_price (lookup_or [] fund_id by)))

module _ {F : Type 0} ⦃f : Float64 F⦄ where
  -- `price <= 0`.
  abbrev pub not_positive : F → Bool
  not_positive x = f.lt x nought || f.eq x nought

  -- Later entries of a day take the place of earlier ones.
  unfoldable pub filter_missing_prices :
      List (Indicators F)
      → (missing : List Time) → Ident
      → Map (FundPrice F)
      → M F (Map (FundPrice F))
  filter_missing_prices [] missing fund_id by = pure by
  filter_missing_prices (x ∷ xs) missing fund_id by =
      if not (contains (midnight x.date) missing) || not_positive x.price_close
      then filter_missing_prices xs missing fund_id by
      else (new_uuid >>= λ i. filter_missing_prices xs missing fund_id (
          insert (midnight x.date)
            (record { id = i; fund_id = fund_id; date = midnight x.date; price = x.price_close })
            by))

  abbrev pub last_indicator : Indicators F → List (Indicators F) → Indicators F
  last_indicator x [] = x
  last_indicator x (y ∷ ys) = last_indicator y ys

  unfoldable pub insert_current : Fund → Indicators F → Time → M F (PriceUpdate F)
  insert_current x indicator date =
      if not_positive indicator.price_close
      then fail invalid_price
      else (new_uuid >>= λ i.
          let p : FundPrice F = record {
            id = i;
            fund_id = x.id;
            date = date;
            price = indicator.price_close;
          } in
          insert_fund_price p
          >> (regenerate (price_job date x.id)
              >> pure (record { fund_price = p; inserted = true })))

  abbrev pub unless_existing : M F (PriceUpdate F) → Option (FundPrice F) → M F (PriceUpdate F)
  unless_existing m none = m
  unless_existing m (some p) = pure (record { fund_price = p; inserted = false })

  -- Without a price for yesterday the last one is taken.
  unfoldable pub insert_from :
      Ident → Fund → Time → List (Indicators F) → Option (Indicators F) → M F (PriceUpdate F)
  insert_from fund_id x date [] found = fail no_prices
  insert_from fund_id x date (y ∷ ys) (some indicator) = insert_current x indicator date
  insert_from fund_id x date (y ∷ ys) none =
      let indicator = last_indicator y ys in
      check_existing_price fund_id (midnight indicator.date)
      >>= unless_existing (insert_current x indicator (midnight indicator.date))

  unfoldable pub fetch_yahoo_chart :
      (query_five_day : Ident → Result (List (ChartResult F))) → Ident → M F (PriceChart F)
  fetch_yahoo_chart query_five_day symbol = do
    raw ← lift_result (query_five_day symbol)
    now ← get_now
    lift_result (parse_chart now raw)

  unfoldable pub update_current_fund_price :
      (query_five_day : Ident → Result (List (ChartResult F))) → Ident → M F (PriceUpdate F)
  update_current_fund_price query_five_day fund_id = do
    x ← get_fund fund_id
    has_symbol x
    now ← get_now
    existing ← check_existing_price fund_id (yesterday now)
    unless_existing
        (fetch_yahoo_chart query_five_day x.symbol >>= λ chart.
          insert_from fund_id x (yesterday now) chart.indicators
            (get_indicator_for_date chart (yesterday now)))
        existing

  unfoldable pub insert_missing : List (FundPrice F) → M F ℕ
  insert_missing [] = pure 0
  insert_missing (p ∷ ps) = do
    transact (insert_fund_prices (p ∷ ps))
    regenerate (price_job (earliest_price p.date ps) p.fund_id)
    pure (length (p ∷ ps))

  unfoldable pub fetch_missing :
      (query_range : Ident → Time → Time → Result (List (ChartResult F)))
      → (symbol fund_id : Ident) → (oldest now : Time) → List Time
      → M F ℕ
  fetch_missing query_range symbol fund_id oldest now [] = pure 0
  fetch_missing query_range symbol fund_id oldest now (date ∷ dates) = do
    raw ← lift_result (query_range symbol oldest (midnight now - day))
    current ← get_now
    chart ← lift_result (parse_chart current raw)
    by ← filter_missing_prices chart.indicators (date ∷ dates) fund_id []
    insert_missing (values by)

  abbrev pub some_transaction : Time → M F (Unit {0})
  some_transaction oldest = if oldest == 0 then fail no_transactions else pure tt

  unfoldable pub update_historical_fund_price :
      (query_range : Ident → Time → Time → Result (List (ChartResult F))) → Ident → M F ℕ
  update_historical_fund_price query_range fund_id = do
    x ← get_fund fund_id
    has_symbol x
    pfs ← get_portfolio_funds_by_fund_id fund_id
    oldest ← get_oldest_transaction (map (λ (pf : PortfolioFund). pf.id) pfs)
    some_transaction oldest
    now ← get_now
    existing ← get_fund_price (fund_id ∷ []) oldest (midnight now)
    missing ← lift_result (
        finished_days
          (build_missing_dates_map (lookup_or [] fund_id existing) oldest (midnight now - day)))
    fetch_missing query_range x.symbol fund_id oldest now missing

  abbrev pub with_outcome :
      Ident → Result ℕ × World F → AllFundUpdateResponse → AllFundUpdateResponse
  with_outcome fund_id (ok n, w) s = record s {
    updated_funds = s.updated_funds ++ ((fund_id, n) ∷ []);
  }
  with_outcome fund_id (err e, w) s = record s { errors = s.errors ++ (fund_id ∷ []) }

  -- An error ends the update of one fund, not the loop. What is returned beside an error is left out.
  unfoldable pub update_all_loop :
      (update : Ident → M F ℕ) → List Fund → AllFundUpdateResponse → M F AllFundUpdateResponse
  update_all_loop update [] s w = (ok s, w)
  update_all_loop update (x ∷ xs) s w =
      let r = update x.id w in update_all_loop update xs (with_outcome x.id r s) r.1

  abbrev pub summed : AllFundUpdateResponse → M F AllFundUpdateResponse
  summed s =
      if length s.updated_funds == 0 && not (length s.errors == 0)
      then fail update_failed
      else pure (record s {
        success = true;
        total_updated = length s.updated_funds;
        total_errors = length s.errors;
      })

  abbrev pub update_funds : (update : Ident → M F ℕ) → List Fund → M F AllFundUpdateResponse
  update_funds update [] = fail fund_not_found
  update_funds update (x ∷ xs) =
      update_all_loop update (x ∷ xs) (record {
        success = false;
        updated_funds = [];
        errors = [];
        total_updated = 0;
        total_errors = 0;
      })
      >>= summed

  unfoldable pub update_all_fund_history :
      (query_range : Ident → Time → Time → Result (List (ChartResult F)))
      → M F AllFundUpdateResponse
  update_all_fund_history query_range =
      query (λ t. ok t.funds) >>= update_funds (update_historical_fund_price query_range)

  -- `DeveloperService.UpdateFundPrice`; the date and the price are those of the request's texts.
  unfoldable pub set_fund_price : Ident → Option Time → Option F → M F (FundPrice F)
  set_fund_price fund_id date price = do
    d ← lift_result (or_not_found parse_date date)
    v ← lift_result (or_not_found invalid_price price)
    p ← transact (
        new_uuid >>= λ i.
        let p : FundPrice F = record { id = i; fund_id = fund_id; date = d; price = v } in
        update_fund_price p >> pure p)
    regenerate (price_job d fund_id)
    pure p
