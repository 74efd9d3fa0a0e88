-- ===== src/Imports/Prices.antt =====
-- What `ImportFundPrices` leaves.
use investment_portfolio_man.Base.{
  ℕ, ◌+◌, ◌<◌, ◌≡◌, refl, inl, inr, Bool, false, ◌&&◌, List, [], ◌∷◌, ◌++◌, map, length, Option,
  none, some, find?, ◌==◌, if◌then◌else◌, arith, Bool-cases, ◌∙◌, sym, ap,
}
use investment_portfolio_man.Float64.{Float64}
use investment_portfolio_man.Result.{ok, fund_not_found}
use investment_portfolio_man.Model.{Ident, Time, midnight, FundPrice}
use investment_portfolio_man.Store.Tables.{Tables}
use investment_portfolio_man.Store.Monad.{World}
use investment_portfolio_man.Store.Effects.{is_some, find_fund}
use investment_portfolio_man.Store.Triples.{
  Answers, Commits, Ensures, bind_rule, pure_rule, exec_rule, new_uuid_rule, with_fact,
  weaken_result,
}
use investment_portfolio_man.Store.Reads.{lift_read_rule}
use investment_portfolio_man.Store.Prices.{
  get_fund, is_price_of, has_price_row, has_price_id, stored_price, set_price,
  upsert_fund_price_row, update_fund_price,
}
use investment_portfolio_man.Csv.{
  Text, Parsers, Records, date_header, price_header, validate_csv_headers, parse_csv,
  read_price_row,
}
use investment_portfolio_man.Store.Quiet.{read-Commits}
use investment_portfolio_man.Prices.{price_job}
use investment_portfolio_man.Prices.Reads.{get_fund-IsRead}
use investment_portfolio_man.Imports.Columns.{Each, IsPriceRow, read_price_row-IsPriceRow}
use investment_portfolio_man.Imports.Rules.{reported_as-IsRead, checked-Commits}
use investment_portfolio_man.Imports.{
  Imported, none_imported, with_date, import_prices_loop, import_fund_prices, reported_as,
}

-- The price of a fund on a day.
abbrev pub price_at : {F : Type 0} → Ident → Time → List (FundPrice F) → Option F
price_at k d [] = none
price_at k d (p ∷ ps) = if is_price_of k d p then some p.price else price_at k d ps

-- The last price that is read for a day, or else the one before.
abbrev pub last_read : {F : Type 0} → Time → List (Time × F) → Option F → Option F
last_read d [] o = o
last_read d ((date, price) ∷ xs) o = last_read d xs (if midnight date == d then some price else o)

module _ {F : Type 0} (k : Ident) (d : Time) (p : FundPrice F) where
  abbrev is_new : Bool
  is_new = p.fund_id == k && midnight p.date == d

  price_at-set :
      (xs : List (FundPrice F))
      → price_at k d (map (set_price p) xs) ≡ (
          if is_new
          then (if is_some (find? (is_price_of p.fund_id (midnight p.date)) xs)
              then some p.price
              else none)
          else price_at k d xs)
  price_at-set [] = ground arith
  price_at-set (x ∷ xs) = ground (arith, price_at-set xs)

  price_at-append :
      (xs : List (FundPrice F))
      → is_some (find? (is_price_of p.fund_id (midnight p.date)) xs) ≡ false
      → price_at k d (xs ++ (stored_price p ∷ []))
        ≡ (if is_new then some p.price else price_at k d xs)
  price_at-append [] e = ground arith
  price_at-append (x ∷ xs) e = ground (arith, e, price_at-append xs)

  -- What the statement of one price does.
  abbrev IsUpserted : Tables F → Tables F → Type 0
  IsUpserted before t =
      (t ≡ record before { fund_prices = t.fund_prices })
      × (price_at k d t.fund_prices
          ≡ (if is_new then some p.price else price_at k d before.fund_prices))

  upsert-IsUpserted : (t : Tables F) → Answers (IsUpserted t) (upsert_fund_price_row p t)
  unfolding upsert_fund_price_row
  upsert-IsUpserted t = elim (Bool-cases (has_price_id p.id t)) [
    | inl taken ↦ rw taken tt
    | inr fresh ↦ rw fresh (elim (Bool-cases (has_price_row p.fund_id (midnight p.date) t)) [
      | inl there ↦ rw there ((refl, rw (price_at-set t.fund_prices, there) refl))
      | inr new ↦ rw new (elim (Bool-cases (is_some (find_fund p.fund_id t))) [
        | inl found ↦ rw found ((refl, price_at-append t.fund_prices new))
        | inr absent ↦ rw absent tt
      ])
    ])
  ]

module _ {F : Type 0} ⦃f : Float64 F⦄ (p : Parsers F) (k k' : Ident) (d : Time)
    (headers : List Text) where
  -- Each row read, none of its effects but the prices, and what the price of a day then is.
  abbrev pub ArePrices :
      (rows : List (List Text)) → (counted : ℕ) → Tables F → ℕ → Tables F → Type 0
  ArePrices rows counted before n t =
      (reads : List (Time × F)) × Each (IsPriceRow p headers) rows reads
      × (n ≡ counted + length reads)
      × (t ≡ record before { fund_prices = t.fund_prices })
      × (price_at k' d t.fund_prices ≡ (
          if k == k'
          then last_read d reads (price_at k' d before.fund_prices)
          else price_at k' d before.fund_prices))

  row-ArePrices :
      (row : List Text) (rows : List (List Text)) (x : Time × F) (i : Ident) (counted n : ℕ)
      (before between after : Tables F)
      → IsPriceRow p headers row x
      → IsUpserted k' d (record { id = i; fund_id = k; date = x.0; price = x.1 }) before between
      → ArePrices rows (counted + 1) between n after
      → ArePrices (row ∷ rows) counted before n after
  row-ArePrices row rows x i counted n before between after e set (reads, all, count, same, price) =
      (
        x ∷ reads,
        (e, all),
        omega (arith, count),
        same ∙ ap (λ (u : Tables F). record u { fund_prices = after.fund_prices }) set.0,
        elim (Bool-cases (k == k')) [
          | inl own ↦ rw (price, set.1, own) refl
          | inr other ↦ rw (price, set.1, other) refl
        ],
      )

  loop-ArePrices :
      (rows : List (List Text)) (s : Imported) (before : Tables F)
      → Ensures
          (λ t. t ≡ before)
          (import_prices_loop p k headers rows s)
          (λ s' t. ArePrices rows s.count before s'.count t)
  unfolding import_prices_loop update_fund_price
  loop-ArePrices [] s before = pure_rule s (λ t e. (
    [],
    tt,
    omega arith,
    e ∙ ap (λ (u : Tables F). record before { fund_prices = u.fund_prices }) (sym e),
    ap (λ (u : Tables F). price_at k' d u.fund_prices) e ∙ ground arith,
  ))
  loop-ArePrices (row ∷ rows) s before =
      bind_rule (lift_read_rule (read_price_row p headers row)) λ x. with_fact λ e.
        bind_rule (new_uuid_rule (λ t. t ≡ before)) λ i.
          bind_rule
            (exec_rule {P = λ t. t ≡ before}
              {Q = IsUpserted k' d (record { id = i; fund_id = k; date = x.0; price = x.1 }) before}
              (upsert_fund_price_row (record { id = i; fund_id = k; date = x.0; price = x.1 }))
              (λ t q. rw q (upsert-IsUpserted k' d _ before)))
            λ u. record {
              leaves = λ w set.
                  (weaken_result (loop-ArePrices rows (with_date x.0 s) w.tables) (λ s' t all.
                      row-ArePrices row rows x i s.count s'.count before w.tables t
                        (read_price_row-IsPriceRow p headers row x e) set all)).leaves
                    w refl;
            }

module _ {F : Type 0} ⦃f : Float64 F⦄ (p : Parsers F) where
  -- For a file that encoding/csv can read and that has a first row, whichever statements fail,
  -- ImportFundPrices either returns an error and leaves the tables as they were, or every row
  -- behind the first has a date under the last header date and a positive price under the last
  -- header price, the spaces around them aside, or in the first column if there is no such header,
  -- and there is at least one; it returns how many, changes nothing but prices, and afterwards the
  -- price of the fund on a day is the last one that the file has for that day, or the one before
  -- if it has none, and that of any other fund is what it was.
  pub import_fund_prices-ArePrices :
      (fund_id k : Ident) (d : Time) (content : List ℕ) (csv : Records) (w : World F)
      → parse_csv p content ≡ ok csv
      → Commits w.tables
          (λ n t. ArePrices p fund_id k d csv.headers csv.rows 0 w.tables n t × (0 < n))
          (import_fund_prices p fund_id content w)
  unfolding import_fund_prices
  import_fund_prices-ArePrices fund_id k d content csv w parsed_csv =
      read-Commits w.tables _ (reported_as fund_not_found (get_fund fund_id)) _ w
        (reported_as-IsRead fund_not_found (get_fund fund_id) (get_fund-IsRead fund_id)) refl
        (λ found w' same.
          checked-Commits w.tables (ArePrices p fund_id k d csv.headers csv.rows 0 w.tables)
            (parse_csv p content) csv
            (λ x. validate_csv_headers x.headers (date_header ∷ price_header ∷ []))
            (λ x. import_prices_loop p fund_id x.headers x.rows none_imported)
            (λ date. price_job date fund_id) w' parsed_csv
            (loop-ArePrices p fund_id k d csv.headers csv.rows none_imported w.tables) same)
