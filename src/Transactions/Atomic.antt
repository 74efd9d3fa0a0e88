-- ===== src/Transactions/Atomic.antt =====
-- Create, update and delete of `TransactionService` as a whole, from `BeginTx` to the regeneration
-- that follows the commit.
use investment_portfolio_man.Base.{Bool-cases, inl, inr, ◌==◌}
use investment_portfolio_man.Float64.{Float64}
use investment_portfolio_man.Model.{Ident, Transaction}
use investment_portfolio_man.Store.Tables.{Tables}
use investment_portfolio_man.Store.Monad.{World, regenerate}
use investment_portfolio_man.Store.Triples.{
  Commits, transact_rule, regenerate-Commits, after-Commits,
}
use investment_portfolio_man.Transactions.{
  CreateTransactionRequest, UpdateTransactionRequest, create_transaction, update_transaction_of,
  delete_transaction_of, Updated, regenerate_updated, regenerate_deleted,
}
use investment_portfolio_man.Transactions.Matched.{IsMatched}
use investment_portfolio_man.Transactions.Kept.{
  create_body_rule, update_body_rule, delete_body_rule,
}

module _ {F : Type 0} ⦃f : Float64 F⦄ where
  regenerate_updated-Commits :
      (before : Tables F) (both : Updated F) (w : World F)
      → IsMatched w.tables
      → Commits before (λ x. IsMatched) (regenerate_updated both w)
  unfolding regenerate
  regenerate_updated-Commits before both w q =
      elim (Bool-cases (both.old.portfolio_fund_id == both.new.portfolio_fund_id)) [
        | inl e ↦ elim (Bool-cases w.has_invalidator) [ inl h ↦ rw (e, h) q | inr h ↦ rw (e, h) q ]
        | inr e ↦ elim (Bool-cases w.has_invalidator) [ inl h ↦ rw (e, h) q | inr h ↦ rw (e, h) q ]
      ]

  regenerate_deleted-Commits :
      (before : Tables F) (x : Transaction F) (w : World F)
      → IsMatched w.tables
      → Commits before (λ u. IsMatched) (regenerate_deleted x w)
  unfolding regenerate
  regenerate_deleted-Commits before x w q = elim (Bool-cases w.has_invalidator) [
    | inl h ↦ rw h q
    | inr h ↦ rw h q
  ]

  -- If every sale has exactly one realized gain and no other transaction has any, then whichever
  -- statements fail, CreateTransaction either returns an error and leaves the tables as they were,
  -- or succeeds and leaves tables where this holds again.
  pub create_transaction-Commits :
      (req : CreateTransactionRequest F) (w : World F)
      → IsMatched w.tables
      → Commits w.tables (λ x. IsMatched) (create_transaction req w)
  unfolding create_transaction
  create_transaction-Commits req w h =
      regenerate-Commits w.tables (λ x. IsMatched) _ _ (transact_rule (create_body_rule req) w h)

  -- If every sale has exactly one realized gain and no other transaction has any, then whichever
  -- statements fail, UpdateTransaction, which may turn a sale into another transaction and back,
  -- either returns an error and leaves the tables as they were, or succeeds and leaves tables
  -- where this holds again.
  pub update_transaction_of-Commits :
      (i : Ident) (req : UpdateTransactionRequest F) (w : World F)
      → IsMatched w.tables
      → Commits w.tables (λ x. IsMatched) (update_transaction_of i req w)
  unfolding update_transaction_of
  update_transaction_of-Commits i req w h =
      after-Commits w.tables (λ x. IsMatched) (λ x. IsMatched) _ _
        (transact_rule (update_body_rule i req) w h) (regenerate_updated-Commits w.tables)

  -- If every sale has exactly one realized gain and no other transaction has any, then whichever
  -- statements fail, DeleteTransaction either returns an error and leaves the tables as they were,
  -- or succeeds and leaves tables where this holds again.
  pub delete_transaction_of-Commits :
      (i : Ident) (w : World F)
      → IsMatched w.tables
      → Commits w.tables (λ x. IsMatched) (delete_transaction_of i w)
  unfolding delete_transaction_of
  delete_transaction_of-Commits i w h =
      after-Commits w.tables (λ x. IsMatched) (λ x. IsMatched) _ _
        (transact_rule (delete_body_rule i) w h) (regenerate_deleted-Commits w.tables)
