-- ===== src/Materialized.antt =====
-- The materialized fund history: the table `fund_history_materialized` of
-- internal/repository/materialized_repository.go, and the queries of its freshness.
pub mod Fallback
pub mod Stale
pub mod Loader
pub mod Regenerate
pub mod Replaced
pub mod Read
mod Tests
use investment_portfolio_man.Base.{
  Bool, true, false, not, ◌&&◌, ◌||◌, List, [], ◌∷◌, ◌++◌, map, Option, none, some, keep, find?,
  leb, ltb, ◌==◌, if◌then◌else◌,
}
use investment_portfolio_man.Result.{Result, ok, err, constraint}
use investment_portfolio_man.Model.{
  Ident, Time, Map, midnight, Transaction, Dividend, FundPrice, PortfolioFund, FundHistoryEntry,
}
use investment_portfolio_man.History.{lookup_or, insert}
use investment_portfolio_man.Store.Tables.{Tables, Fund, MaterializedRow}
use investment_portfolio_man.Store.Monad.{M, pure, query, exec, statement, get_now, ◌>>=◌, ◌>>◌}
use investment_portfolio_man.Store.Effects.{is_some, whole_second, find_fund, find_portfolio_fund}

abbrev pub contains : Ident → List Ident → Bool
contains i [] = false
contains i (j ∷ js) = i == j || contains i js

module _ {A : Type 0} (date : A → Time) where
  -- `ORDER BY date ASC`; rows of one date stay as they stand in the table.
  unfoldable pub insert_ordered : A → List A → List A
  insert_ordered x [] = x ∷ []
  insert_ordered x (y ∷ ys) = if leb (date x) (date y) then x ∷ y ∷ ys else y ∷ insert_ordered x ys

  unfoldable pub order_by : List A → List A
  order_by [] = []
  order_by (x ∷ xs) = insert_ordered x (order_by xs)

module _ {A : Type 0} (key : A → Ident) where
  -- `m[key] = append(m[key], x)` for each row.
  unfoldable pub group_from : Map (List A) → List A → Map (List A)
  group_from m [] = m
  group_from m (x ∷ xs) = group_from (insert (key x) (lookup_or [] (key x) m ++ (x ∷ [])) m) xs

-- The zero time for no rows.
abbrev pub latest_of : List Time → Time
latest_of [] = 0
latest_of (x ∷ xs) = let later = latest_of xs in if ltb later x then x else later

-- Whether a portfolio-fund belongs to one of the portfolios: the join with `portfolio_fund`.
abbrev pub owned : List Ident → Option PortfolioFund → Bool
owned ids none = false
owned ids (some pf) = contains pf.portfolio_id ids

abbrev pub name_of : Option Fund → Ident
name_of none = 0
name_of (some x) = x.name

module _ {F : Type 0} where
  abbrev pub in_portfolios : List Ident → Tables F → Ident → Bool
  in_portfolios ids t pf_id = owned ids (find_portfolio_fund pf_id t)

  -- The rows that `InvalidateMaterializedTable` deletes.
  abbrev pub in_scope : Time → List Ident → MaterializedRow F → Bool
  in_scope start pf_ids r =
      leb (midnight start) r.entry.date && contains r.entry.portfolio_fund_id pf_ids

  unfoldable pub invalidate_rows : Time → List Ident → Tables F → Tables F
  invalidate_rows start pf_ids t = record t {
    materialized = keep (λ (r : MaterializedRow F). not (in_scope start pf_ids r)) t.materialized;
  }

  unfoldable pub invalidate_materialized_table : Time → List Ident → M F (Unit {0})
  invalidate_materialized_table start [] = pure tt
  invalidate_materialized_table start (i ∷ is) = exec (λ t. ok (invalidate_rows start (i ∷ is) t))

  -- The row that `InsertMaterializedEntries` writes.
  unfoldable pub materialized_row : Time → FundHistoryEntry F → MaterializedRow F
  materialized_row now e = record {
    entry = record e { date = midnight e.date };
    calculated_at = whole_second now;
  }

  -- One row for each identifier, and for each portfolio-fund and date.
  abbrev pub clashes : MaterializedRow F → MaterializedRow F → Bool
  clashes r s =
      s.entry.id == r.entry.id
      || (s.entry.portfolio_fund_id == r.entry.portfolio_fund_id && s.entry.date == r.entry.date)

  unfoldable pub insert_materialized_row : MaterializedRow F → Tables F → Result (Tables F)
  insert_materialized_row r t =
      if is_some (find? (clashes r) t.materialized)
        || not (is_some (find_portfolio_fund r.entry.portfolio_fund_id t))
      then err constraint
      else ok (record t { materialized = t.materialized ++ (r ∷ []) })

  unfoldable pub insert_loop : Time → List (FundHistoryEntry F) → M F (Unit {0})
  insert_loop now [] = pure tt
  insert_loop now (e ∷ es) =
      exec (insert_materialized_row (materialized_row now e)) >> insert_loop now es

  -- `PrepareContext` is a statement that may fail as well.
  unfoldable pub insert_materialized_entries : List (FundHistoryEntry F) → M F (Unit {0})
  insert_materialized_entries [] = pure tt
  insert_materialized_entries (e ∷ es) = do statement; now ← get_now; insert_loop now (e ∷ es)

  -- The join and the `WHERE` of the query.
  abbrev pub shown : Ident → (start_date end_date : Time) → Tables F → MaterializedRow F → Bool
  shown portfolio_id start_date end_date t r =
      in_portfolios (portfolio_id ∷ []) t r.entry.portfolio_fund_id
      && is_some (find_fund r.entry.fund_id t)
      && leb (midnight start_date) r.entry.date
      && leb r.entry.date (midnight end_date)

  -- `f.name` of the join.
  abbrev pub fund_name : Tables F → FundHistoryEntry F → Ident
  fund_name t e = name_of (find_fund e.fund_id t)

  -- `ORDER BY fh.date ASC, f.name ASC`.
  unfoldable pub insert_named :
      Tables F → FundHistoryEntry F → List (FundHistoryEntry F) → List (FundHistoryEntry F)
  insert_named t x [] = x ∷ []
  insert_named t x (y ∷ ys) =
      if ltb x.date y.date || (x.date == y.date && leb (fund_name t x) (fund_name t y))
      then x ∷ y ∷ ys
      else y ∷ insert_named t x ys

  unfoldable pub order_named : Tables F → List (FundHistoryEntry F) → List (FundHistoryEntry F)
  order_named t [] = []
  order_named t (x ∷ xs) = insert_named t x (order_named t xs)

  -- The query of `GetFundHistoryMaterialized`.
  unfoldable pub history_rows :
      Ident → (start_date end_date : Time) → Tables F → List (FundHistoryEntry F)
  history_rows portfolio_id start_date end_date t = order_named t (
      map (λ (r : MaterializedRow F). r.entry)
        (keep (shown portfolio_id start_date end_date t) t.materialized))
