-- ===== src/Store/Dividends.antt =====
-- internal/repository/dividend_repository.go, and the lookups of portfolio_fund_repository.go and
-- transaction_repository.go that the dividend service makes, with the constraints of the table
-- `dividend`. `SUM` is the database's: its sum of a column is a parameter, since the order and the
-- precision of the additions are its own.
use investment_portfolio_man.Base.{
  Bool, not, ◌&&◌, ◌||◌, List, [], ◌∷◌, ◌++◌, map, Option, none, some, keep, ◌==◌, leb,
  if◌then◌else◌,
}
use investment_portfolio_man.Float64.{Float64, nought}
use investment_portfolio_man.Result.{
  Result, ok, err, constraint, dividend_not_found, parse_date, invalid_portfolio_id,
  failed_to_retrieve_portfolio_funds,
}
use investment_portfolio_man.Model.{
  Ident, Time, midnight, Transaction, TransactionType, buy, sell, dividend, fee, other_type,
  Dividend, PortfolioFund,
}
use investment_portfolio_man.Store.Tables.{Tables, DividendType, Fund, Portfolio}
use investment_portfolio_man.Store.Monad.{M, query, exec}
use investment_portfolio_man.Store.Rows.{delete_rows, replace_rows}
use investment_portfolio_man.Store.Effects.{
  is_some, or_not_found, whole_second, find_dividend, find_fund, find_portfolio,
  find_portfolio_fund, find_transaction,
}

pub record PortfolioFundListing : Type 0 where
  pub id : Ident
  pub portfolio_id : Ident
  pub fund_id : Ident
  pub dividend_type : DividendType

-- The inner joins with `portfolio` and `fund`.
abbrev pub joined :
    Option PortfolioFund → Option Portfolio → Option Fund → Option PortfolioFundListing
joined (some pf) (some p) (some x) = some (record {
  id = pf.id;
  portfolio_id = pf.portfolio_id;
  fund_id = x.id;
  dividend_type = x.dividend_type;
})
joined (some pf) (some p) none = none
joined (some pf) none x = none
joined none p x = none

module _ {F : Type 0} where
  abbrev pub listing_of_row : Tables F → Option PortfolioFund → Option PortfolioFundListing
  listing_of_row t none = none
  listing_of_row t (some pf) =
      joined (some pf) (find_portfolio pf.portfolio_id t) (find_fund pf.fund_id t)

  unfoldable pub listing : Ident → Tables F → Option PortfolioFundListing
  listing i t = listing_of_row t (find_portfolio_fund i t)

  unfoldable pub get_portfolio_fund_listing : Ident → M F PortfolioFundListing
  get_portfolio_fund_listing i =
      query (λ t. or_not_found failed_to_retrieve_portfolio_funds (listing i t))

  -- The row that `InsertDividend` and `UpdateDividend` write; a zero buy-order date is `NULL`.
  abbrev pub stored_dividend : Dividend F → Dividend F
  stored_dividend d = record d {
    record_date = whole_second d.record_date;
    ex_dividend_date = whole_second d.ex_dividend_date;
    buy_order_date = midnight d.buy_order_date;
    created_at = whole_second d.created_at;
  }

  -- The foreign keys of a dividend; an empty reinvestment transaction is `NULL`.
  abbrev pub has_references : Dividend F → Tables F → Bool
  has_references d t =
      is_some (find_fund d.fund_id t)
      && is_some (find_portfolio_fund d.portfolio_fund_id t)
      && (d.reinvestment_transaction_id == 0
          || is_some (find_transaction d.reinvestment_transaction_id t))

  abbrev pub with_new_dividend : Dividend F → Tables F → Tables F
  with_new_dividend d t = record t { dividends = t.dividends ++ (stored_dividend d ∷ []) }

  abbrev pub with_dividend : Dividend F → Tables F → Tables F
  with_dividend d t = record t {
    dividends = replace_rows (λ (x : Dividend F). x.id) (stored_dividend d) t.dividends;
  }

  abbrev pub without_dividend : Ident → Tables F → Tables F
  without_dividend i t = record t {
    dividends = delete_rows (λ (x : Dividend F). x.id) i t.dividends;
  }

  unfoldable pub insert_dividend_row : Dividend F → Tables F → Result (Tables F)
  insert_dividend_row d t =
      if is_some (find_dividend d.id t)
      then err constraint
      else if not (has_references d t)
      then err constraint
      else ok (with_new_dividend d t)

  unfoldable pub update_dividend_row : Dividend F → Tables F → Result (Tables F)
  update_dividend_row d t =
      if not (is_some (find_dividend d.id t))
      then err dividend_not_found
      else if not (has_references d t)
      then err constraint
      else ok (with_dividend d t)

  unfoldable pub delete_dividend_row : Ident → Tables F → Result (Tables F)
  delete_dividend_row i t =
      if not (is_some (find_dividend i t))
      then err dividend_not_found
      else ok (without_dividend i t)

  -- `created_at` is not among the columns, and a zero date is taken for one that does not parse.
  abbrev pub scanned : Option (Dividend F) → Result (Dividend F)
  scanned none = err dividend_not_found
  scanned (some d) =
      if d.record_date == 0
      then err parse_date
      else if d.ex_dividend_date == 0
      then err parse_date
      else ok (record d { created_at = 0 })

  unfoldable pub get_dividend : Ident → M F (Dividend F)
  get_dividend i = query (λ t. scanned (find_dividend i t))

  unfoldable pub insert_dividend : Dividend F → M F (Unit {0})
  insert_dividend d = exec (insert_dividend_row d)

  unfoldable pub update_dividend : Dividend F → M F (Unit {0})
  update_dividend d = exec (update_dividend_row d)

  unfoldable pub delete_dividend : Ident → M F (Unit {0})
  delete_dividend i = exec (delete_dividend_row i)

-- `sum` is what the database makes of `SUM` over the rows in the order of the table.
module _ {F : Type 0} ⦃f : Float64 F⦄ (sum : List F → F) where
  -- The `CASE` of the query.
  abbrev pub signed_shares : TransactionType → F → F
  signed_shares buy n = n
  signed_shares dividend n = n
  signed_shares sell n = f.neg n
  signed_shares fee n = nought
  signed_shares other_type n = nought

  -- `COALESCE(SUM(…), 0)`.
  abbrev pub sum_or_nought : List F → F
  sum_or_nought [] = nought
  sum_or_nought (x ∷ xs) = sum (x ∷ xs)

  unfoldable pub shares_on : Ident → Time → Tables F → F
  shares_on pf_id date t = sum_or_nought (
      map (λ (x : Transaction F). signed_shares x.kind x.shares)
        (keep (λ (x : Transaction F). x.portfolio_fund_id == pf_id && leb x.date (midnight date))
          t.transactions))

  unfoldable pub get_shares_on_date : Ident → Time → M F F
  get_shares_on_date pf_id date w =
      if pf_id == 0
      then (err invalid_portfolio_id, w)
      else query (λ t. ok (shares_on pf_id date t)) w
