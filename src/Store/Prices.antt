-- ===== src/Store/Prices.antt =====
-- The statements of internal/repository/fund_repository.go on the table `fund_price`, and `GetFund`.
-- The latest price, which is only shown, is left out of a fund.
use investment_portfolio_man.Base.{
  Bool, not, ◌&&◌, ◌||◌, List, [], ◌∷◌, ◌++◌, map, find?, ◌==◌, if◌then◌else◌,
}
use investment_portfolio_man.Result.{Result, ok, err, constraint, fund_not_found}
use investment_portfolio_man.Model.{Ident, Time, midnight, FundPrice}
use investment_portfolio_man.Store.Tables.{Tables, Fund}
use investment_portfolio_man.Store.Monad.{M, query, exec, pure, statement, ◌>>◌}
use investment_portfolio_man.Store.Rows.{find_row}
use investment_portfolio_man.Store.Effects.{is_some, or_not_found, find_fund}

module _ {F : Type 0} where
  unfoldable pub get_fund : Ident → M F Fund
  get_fund i = query (λ t. or_not_found fund_not_found (find_fund i t))

  abbrev pub is_price_of : Ident → Time → FundPrice F → Bool
  is_price_of fund_id date p = p.fund_id == fund_id && p.date == date

  -- Whether the constraint `unique_fund_price` has a row for the fund and the date.
  abbrev pub has_price_row : Ident → Time → Tables F → Bool
  has_price_row fund_id date t = is_some (find? (is_price_of fund_id date) t.fund_prices)

  abbrev pub has_price_id : Ident → Tables F → Bool
  has_price_id i t = is_some (find_row (λ (x : FundPrice F). x.id) i t.fund_prices)

  abbrev pub stored_price : FundPrice F → FundPrice F
  stored_price p = record p { date = midnight p.date }

  abbrev pub with_new_price : FundPrice F → Tables F → Tables F
  with_new_price p t = record t { fund_prices = t.fund_prices ++ (stored_price p ∷ []) }

  unfoldable pub insert_fund_price_row : FundPrice F → Tables F → Result (Tables F)
  insert_fund_price_row p t =
      if has_price_id p.id t
        || has_price_row p.fund_id (midnight p.date) t
        || not (is_some (find_fund p.fund_id t))
      then err constraint
      else ok (with_new_price p t)

  abbrev pub set_price : FundPrice F → FundPrice F → FundPrice F
  set_price p x =
      if is_price_of p.fund_id (midnight p.date) x then record x { price = p.price } else x

  abbrev pub with_price : FundPrice F → Tables F → Tables F
  with_price p t = record t { fund_prices = map (set_price p) t.fund_prices }

  -- `ON CONFLICT(fund_id, date) DO UPDATE SET price`, which leaves other conflicts.
  unfoldable pub upsert_fund_price_row : FundPrice F → Tables F → Result (Tables F)
  upsert_fund_price_row p t =
      if has_price_id p.id t
      then err constraint
      else if has_price_row p.fund_id (midnight p.date) t
      then ok (with_price p t)
      else if not (is_some (find_fund p.fund_id t))
      then err constraint
      else ok (with_new_price p t)

  unfoldable pub insert_fund_price : FundPrice F → M F (Unit {0})
  insert_fund_price p = exec (insert_fund_price_row p)

  unfoldable pub insert_price_loop : List (FundPrice F) → M F (Unit {0})
  insert_price_loop [] = pure tt
  insert_price_loop (p ∷ ps) = insert_fund_price p >> insert_price_loop ps

  -- The statement is prepared first.
  unfoldable pub insert_fund_prices : List (FundPrice F) → M F (Unit {0})
  insert_fund_prices [] = pure tt
  insert_fund_prices (p ∷ ps) = statement >> insert_price_loop (p ∷ ps)

  unfoldable pub update_fund_price : FundPrice F → M F (Unit {0})
  update_fund_price p = exec (upsert_fund_price_row p)
