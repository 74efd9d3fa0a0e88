-- ===== src/Imports.antt =====
-- ImportFundPrices and ImportTransactions of internal/service/developer_service.go.
pub mod Columns
pub mod Rules
pub mod Prices
pub mod Transactions
mod Tests
use investment_portfolio_man.Base.{ℕ, ◌+◌, Bool, not, ◌||◌, List, [], ◌∷◌, ltb, ◌==◌, if◌then◌else◌}
use investment_portfolio_man.Float64.{Float64}
use investment_portfolio_man.Result.{
  Result, ok, err, Error, fund_not_found, portfolio_fund_not_found, no_data_rows,
}
use investment_portfolio_man.Model.{Ident, Time, Transaction, FundPrice}
use investment_portfolio_man.Store.Monad.{
  M, World, Job, pure, fail, lift_result, ◌>>=◌, ◌>>◌, transact, regenerate, new_uuid, get_now,
}
use investment_portfolio_man.Store.Prices.{get_fund, update_fund_price}
use investment_portfolio_man.Store.Repositories.{get_portfolio_fund, insert_transaction}
use investment_portfolio_man.Transactions.{when, regen_job}
use investment_portfolio_man.Prices.{price_job}
use investment_portfolio_man.Csv.{
  Text, Parsers, Records, TransactionRow, date_header, price_header, type_header, shares_header,
  cost_per_share_header, parse_csv, validate_csv_headers, read_price_row, validate_transaction_row,
}

-- `count` and `earliestDate`, which is 0 before the first row.
pub record Imported : Type 0 where
  pub count : ℕ
  pub earliest : Time

abbrev pub none_imported : Imported
none_imported = record { count = 0; earliest = 0 }

abbrev pub with_date : Time → Imported → Imported
with_date date s = record {
  count = s.count + 1;
  earliest = if s.earliest == 0 || ltb date s.earliest then date else s.earliest;
}

module _ {F : Type 0} where
  -- Every error is reported as one.
  abbrev pub reported_result : {A : Type 0} → Error → Result A × World F → Result A × World F
  reported_result e (ok a, w) = (ok a, w)
  reported_result e (err why, w) = (err e, w)

  abbrev pub reported_as : {A : Type 0} → Error → M F A → M F A
  reported_as e m w = reported_result e (m w)

  abbrev pub some_rows : Imported → M F Imported
  some_rows s = if s.count == 0 then fail no_data_rows else pure s

  abbrev pub finish_import : (Time → Job) → Imported → M F ℕ
  finish_import job s = when (not (s.earliest == 0)) (regenerate (job s.earliest)) >> pure s.count

module _ {F : Type 0} ⦃f : Float64 F⦄ (p : Parsers F) where
  unfoldable pub import_prices_loop :
      Ident → (headers : List Text) → (rows : List (List Text)) → Imported → M F Imported
  import_prices_loop fund_id headers [] s = pure s
  import_prices_loop fund_id headers (row ∷ rows) s =
      lift_result (read_price_row p headers row) >>= λ x. new_uuid >>= λ i.
      update_fund_price (record { id = i; fund_id = fund_id; date = x.0; price = x.1 })
      >> import_prices_loop fund_id headers rows (with_date x.0 s)

  unfoldable pub import_fund_prices : Ident → (content : List ℕ) → M F ℕ
  import_fund_prices fund_id content = reported_as fund_not_found (get_fund fund_id) >>= λ found.
      lift_result (parse_csv p content) >>= λ csv.
      lift_result (validate_csv_headers csv.headers (date_header ∷ price_header ∷ []))
      >> (transact (import_prices_loop fund_id csv.headers csv.rows none_imported >>= some_rows)
          >>= finish_import (λ date. price_job date fund_id))

  unfoldable pub import_transactions_loop :
      Ident → (headers : List Text) → (rows : List (List Text)) → Imported → M F Imported
  import_transactions_loop pf_id headers [] s = pure s
  import_transactions_loop pf_id headers (row ∷ rows) s =
      lift_result (validate_transaction_row p headers row) >>= λ x. new_uuid >>= λ i.
      get_now >>= λ now.
      insert_transaction (record {
        id = i;
        portfolio_fund_id = pf_id;
        date = x.date;
        kind = x.kind;
        shares = x.shares;
        cost_per_share = x.cost_per_share;
        created_at = now;
      })
      >> import_transactions_loop pf_id headers rows (with_date x.date s)

  unfoldable pub import_transactions : Ident → (content : List ℕ) → M F ℕ
  import_transactions pf_id content =
      reported_as portfolio_fund_not_found (get_portfolio_fund pf_id) >>= λ found.
      lift_result (parse_csv p content) >>= λ csv.
      lift_result (
        validate_csv_headers csv.headers
          (date_header ∷ type_header ∷ shares_header ∷ cost_per_share_header ∷ []))
      >> (transact (import_transactions_loop pf_id csv.headers csv.rows none_imported >>= some_rows)
          >>= finish_import (λ date. regen_job date pf_id))
