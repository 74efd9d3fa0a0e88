-- ===== src/Funds/Referential.antt =====
-- The foreign keys after the methods that delete, of the portfolio service and the fund service.
use investment_portfolio_man.Base.{inl, inr, List, [], ◌∷◌, ◌==◌, Bool-cases}
use investment_portfolio_man.Result.{fund_in_use}
use investment_portfolio_man.Model.{Ident, PortfolioFund}
use investment_portfolio_man.Store.Tables.{Tables}
use investment_portfolio_man.Store.Monad.{World}
use investment_portfolio_man.Store.Triples.{
  Commits, Ensures, bind_rule, pure_rule, fail_rule, exec_rule, transact_rule,
}
use investment_portfolio_man.Store.Reads.{keep_rule, get_portfolio_fund_rule}
use investment_portfolio_man.Store.Prices.{get_fund}
use investment_portfolio_man.Store.Funds.{
  PortfolioTransaction, delete_portfolio_row, delete_portfolio_fund_row, delete_fund_row,
  delete_portfolio, delete_portfolio_fund, delete_fund,
}
use investment_portfolio_man.Materialized.Loader.{get_portfolio_on_id}
use investment_portfolio_man.Funds.{
  usage_if_held, get_usage, unless_used, delete_portfolio_of, delete_portfolio_fund_of,
  delete_fund_body, delete_fund_of,
}
use investment_portfolio_man.Funds.Deleted.{IsReferential}
use investment_portfolio_man.Funds.Statements.{
  delete_portfolio_fund_row-IsReferential, delete_portfolio_row-IsReferential,
  delete_fund_row-IsReferential,
}

module _ {F : Type 0} where
  usage_if_held_rule :
      (P : Tables F → Type 0) (i : Ident) (pfs : List PortfolioFund)
      → Ensures P (usage_if_held i pfs) (λ xs. P)
  usage_if_held_rule P i [] = pure_rule [] (λ t p. p)
  usage_if_held_rule P i (pf ∷ pfs) = keep_rule P _

  unless_used_rule :
      (i : Ident) (xs : List PortfolioTransaction)
      → Ensures
          (IsReferential {F = F})
          (unless_used (delete_fund i) xs)
          (λ (u : Unit {0}). IsReferential)
  unfolding delete_fund
  unless_used_rule i [] = exec_rule (delete_fund_row i) (delete_fund_row-IsReferential i)
  unless_used_rule i (x ∷ xs) = fail_rule fund_in_use

  get_usage_rule : (P : Tables F → Type 0) (i : Ident) → Ensures P (get_usage i) (λ xs. P)
  unfolding get_usage
  get_usage_rule P i = record {
    leaves = λ w p. elim (Bool-cases (i == 0)) [
      | inl e ↦ rw e tt
      | inr e ↦ rw e ((bind_rule (keep_rule P _) (usage_if_held_rule P i)).leaves w p)
    ];
  }

  delete_fund_body-IsReferential :
      (i : Ident)
      → Ensures (IsReferential {F = F}) (delete_fund_body i) (λ (u : Unit {0}). IsReferential)
  unfolding delete_fund_body get_fund delete_fund
  delete_fund_body-IsReferential i =
      bind_rule (keep_rule IsReferential _)
        λ x. bind_rule (get_usage_rule IsReferential i) (unless_used_rule i)

  delete_portfolio_of-IsReferential :
      (i : Ident) (w : World F)
      → IsReferential w.tables
      → Commits w.tables (λ (u : Unit {0}). IsReferential) (delete_portfolio_of i w)
  unfolding delete_portfolio_of delete_portfolio get_portfolio_on_id
  delete_portfolio_of-IsReferential i w r =
      transact_rule
        (bind_rule (keep_rule IsReferential _)
          λ p. exec_rule (delete_portfolio_row i) (delete_portfolio_row-IsReferential i))
        w r

  delete_portfolio_fund_of-IsReferential :
      (i : Ident) (w : World F)
      → IsReferential w.tables
      → Commits w.tables (λ (u : Unit {0}). IsReferential) (delete_portfolio_fund_of i w)
  unfolding delete_portfolio_fund_of delete_portfolio_fund
  delete_portfolio_fund_of-IsReferential i w r =
      transact_rule
        (bind_rule (get_portfolio_fund_rule IsReferential i)
          λ pf. exec_rule (delete_portfolio_fund_row i) (delete_portfolio_fund_row-IsReferential i))
        w r

  delete_fund_of-IsReferential :
      (i : Ident) (w : World F)
      → IsReferential w.tables
      → Commits w.tables (λ (u : Unit {0}). IsReferential) (delete_fund_of i w)
  unfolding delete_fund_of
  delete_fund_of-IsReferential i w r = transact_rule (delete_fund_body-IsReferential i) w r

  -- If every row refers to rows that there are, as the foreign keys of the schema have it, then
  -- whichever statements fail, each of DeletePortfolio, DeletePortfolioFund and DeleteFund either
  -- returns an error and leaves the tables as they were, or succeeds, with all that goes by
  -- cascade, and leaves tables where this holds again.
  pub deletions-IsReferential :
      (i : Ident) (w : World F)
      → IsReferential w.tables
      → Commits w.tables (λ (u : Unit {0}). IsReferential) (delete_portfolio_of i w)
        × Commits w.tables (λ (u : Unit {0}). IsReferential) (delete_portfolio_fund_of i w)
        × Commits w.tables (λ (u : Unit {0}). IsReferential) (delete_fund_of i w)
  deletions-IsReferential i w r = (
    delete_portfolio_of-IsReferential i w r,
    delete_portfolio_fund_of-IsReferential i w r,
    delete_fund_of-IsReferential i w r,
  )
