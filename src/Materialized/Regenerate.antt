-- ===== src/Materialized/Regenerate.antt =====
-- `RegenerateMaterializedTable` of internal/service/materialized_service.go. Calls are serialised by
-- `regenWriteMu`.
use investment_portfolio_man.Base.{List, [], ◌∷◌, ◌++◌, map, keep, ◌==◌, if◌then◌else◌}
use investment_portfolio_man.Float64.{Float64}
use investment_portfolio_man.Result.{
  Result, ok, err, invalid_fund_id, portfolio_fund_not_found, no_scope,
}
use investment_portfolio_man.Model.{
  Ident, Time, PortfolioFund, FundHistoryEntry, FundHistoryResponse,
}
use investment_portfolio_man.Store.Monad.{
  M, pure, fail, query, transact, new_uuid, get_now, ◌>>=◌, ◌>>◌,
}
use investment_portfolio_man.Store.Repositories.{get_portfolio_fund}
use investment_portfolio_man.Ibkr.{unique_from}
use investment_portfolio_man.Materialized.{
  invalidate_materialized_table, insert_materialized_entries,
}
use investment_portfolio_man.Materialized.Loader.{fund_history_on_fly}

abbrev pub some_found : List PortfolioFund → Result (List PortfolioFund)
some_found [] = err portfolio_fund_not_found
some_found (pf ∷ pfs) = ok (pf ∷ pfs)

module _ {F : Type 0} where
  unfoldable pub get_portfolio_funds_by_fund_id : Ident → M F (List PortfolioFund)
  get_portfolio_funds_by_fund_id fund_id w =
      if fund_id == 0
      then (err invalid_fund_id, w)
      else query
          (λ t. some_found (keep (λ (pf : PortfolioFund). pf.fund_id == fund_id) t.portfolio_funds))
          w

  -- The portfolios that hold a fund, each once, or the one of a portfolio-fund.
  unfoldable pub resolve_portfolios :
      List Ident → (fund_id portfolio_fund_id : Ident) → M F (List Ident)
  resolve_portfolios (p ∷ ps) fund_id portfolio_fund_id = pure (p ∷ ps)
  resolve_portfolios [] fund_id portfolio_fund_id =
      if fund_id == 0
      then (if portfolio_fund_id == 0
          then fail no_scope
          else (get_portfolio_fund portfolio_fund_id >>= λ pf. pure (pf.portfolio_id ∷ [])))
      else (get_portfolio_funds_by_fund_id fund_id >>= λ pfs.
          pure (unique_from [] (map (λ (pf : PortfolioFund). pf.portfolio_id) pfs)))

  -- The date of a day goes to each of its funds.
  unfoldable pub dated : Time → List (FundHistoryEntry F) → List (FundHistoryEntry F)
  dated date [] = []
  dated date (e ∷ es) = record e { date = date } ∷ dated date es

  unfoldable pub flatten : List (FundHistoryResponse F) → List (FundHistoryEntry F)
  unfolding dated
  flatten [] = []
  flatten (r ∷ rs) = dated r.date r.funds ++ flatten rs

  -- An entry without an identifier draws one.
  unfoldable pub identify : List (FundHistoryEntry F) → M F (List (FundHistoryEntry F))
  identify [] = pure []
  identify (e ∷ es) = do
    i ← if e.id == 0 then new_uuid else pure e.id
    rest ← identify es
    pure (record e { id = i } ∷ rest)

  -- `pfIDs`; the order of a map's keys is left open in the source, and only membership counts.
  abbrev pub affected : List (FundHistoryEntry F) → List Ident
  affected entries = unique_from [] (map (λ (e : FundHistoryEntry F). e.portfolio_fund_id) entries)

  -- What `RegenerateMaterializedTable` does between `BeginTx` and `Commit`.
  unfoldable pub regenerate_body : Time → List (FundHistoryEntry F) → M F (Unit {0})
  regenerate_body start_date entries = do
    invalidate_materialized_table start_date (affected entries)
    insert_materialized_entries entries

module _ {F : Type 0} ⦃f : Float64 F⦄ where
  unfoldable pub histories :
      List Ident → (start_date end_date : Time) → M F (List (FundHistoryResponse F))
  histories [] start_date end_date = pure []
  histories (p ∷ ps) start_date end_date = do
    entries ← fund_history_on_fly p start_date end_date
    rest ← histories ps start_date end_date
    pure (entries ++ rest)

  unfoldable pub regenerate_materialized_table :
      Time → List Ident → (fund_id portfolio_fund_id : Ident) → M F (Unit {0})
  regenerate_materialized_table start_date portfolio_ids fund_id portfolio_fund_id = do
    ids ← resolve_portfolios portfolio_ids fund_id portfolio_fund_id
    end_date ← get_now
    history ← histories ids start_date end_date
    entries ← identify (flatten history)
    transact (regenerate_body start_date entries)
