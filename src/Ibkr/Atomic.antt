-- ===== src/Ibkr/Atomic.antt =====
-- The methods on IBKR transactions as a whole, from the first read to the regeneration that follows
-- the commit.
use investment_portfolio_man.Base.{◌≡◌, refl, Bool, true, false, List, [], ◌∷◌, subst, sym}
use investment_portfolio_man.Float64.{Float64}
use investment_portfolio_man.Model.{Ident, Time}
use investment_portfolio_man.Result.{Result, ok, err}
use investment_portfolio_man.Store.Tables.{Tables, AllocationEntry}
use investment_portfolio_man.Store.Monad.{World}
use investment_portfolio_man.Store.Triples.{Commits, transact_rule, after-Commits}
use investment_portfolio_man.Store.Effects.{delete_ibkr_row}
use investment_portfolio_man.Store.Repositories.{
  get_ibkr_transaction, get_ibkr_transaction_allocations, delete_ibkr_transaction,
}
use investment_portfolio_man.Store.Quiet.{
  IsRead, IsQuiet, query-IsRead, push_job-IsQuiet, read-Commits, quiet-Commits, quiet_bind-Commits,
  exec-Commits, transact-Commits, if-Commits,
}
use investment_portfolio_man.Ibkr.{
  unique_or_none, collect_portfolio_ids_from_allocations, regenerate_portfolios,
  trigger_regen_from_allocations, unallocate_ibkr_transaction, ignore_ibkr_transaction,
  delete_ibkr_transaction_of, is_pending, require,
}
use investment_portfolio_man.Ibkr.Allocate.{allocate_ibkr_transaction, modify_allocations}
use investment_portfolio_man.Ibkr.Settled.{IsSettled, delete_ibkr-IsSettled}
use investment_portfolio_man.Ibkr.Kept.{unallocate_rule, ignore_rule}
use investment_portfolio_man.Ibkr.Allocated.{allocate_body_rule, modify_rule}

module _ {F : Type 0} where
  get_ibkr_transaction-IsRead : (i : Ident) → IsRead {F = F} (get_ibkr_transaction i)
  unfolding get_ibkr_transaction
  get_ibkr_transaction-IsRead i = query-IsRead _

  unique_or_none-ok :
      (t : Tables F) (r : Result (List Ident) × World F)
      → r.1.tables ≡ t
      → (ps : List Ident) × (w : World F) × (unique_or_none r ≡ (ok ps, w)) × (w.tables ≡ t)
  unique_or_none-ok t (ok ps, w) e = (_, w, refl, e)
  unique_or_none-ok t (err x, w) e = (_, w, refl, e)

  collect-IsQuiet : (i : Ident) → IsQuiet {F = F} (collect_portfolio_ids_from_allocations i)
  unfolding collect_portfolio_ids_from_allocations get_ibkr_transaction_allocations
  collect-IsQuiet i w = unique_or_none-ok w.tables _ (query-IsRead _ w)

  collect-IsRead : (i : Ident) → IsRead {F = F} (collect_portfolio_ids_from_allocations i)
  collect-IsRead i w =
      let (ps, w', e, same) = collect-IsQuiet i w in subst (λ r. r.1.tables ≡ w.tables) (sym e) same

  regenerate_portfolios-IsQuiet :
      (date : Time) (ps : List Ident) → IsQuiet {F = F} (regenerate_portfolios date ps)
  unfolding regenerate_portfolios
  regenerate_portfolios-IsQuiet date [] w = (tt, w, refl, refl)
  regenerate_portfolios-IsQuiet date (p ∷ ps) w = push_job-IsQuiet w.has_invalidator _ w

  pub trigger-Commits :
      (before : Tables F) (Q : Tables F → Type 0) (i : Ident) (date : Time) (w : World F)
      → Q w.tables
      → Commits before (λ u. Q) (trigger_regen_from_allocations i date w)
  unfolding trigger_regen_from_allocations
  trigger-Commits before Q i date w h =
      if-Commits before (λ u. Q) w.has_invalidator _ _
        (quiet_bind-Commits before Q (collect_portfolio_ids_from_allocations i)
          (regenerate_portfolios date) w (collect-IsQuiet i) (regenerate_portfolios-IsQuiet date) h)
        h

  -- If each IBKR transaction is processed exactly when it has allocations, and allocations have
  -- transactions that exist and differ, then whichever statements fail, UnallocateIbkrTransaction
  -- either returns an error and leaves the tables as they were, or succeeds and leaves tables
  -- where this holds again.
  pub unallocate_ibkr_transaction-Commits :
      (i : Ident) (w : World F)
      → IsSettled w.tables
      → Commits w.tables (λ u. IsSettled) (unallocate_ibkr_transaction i w)
  unfolding unallocate_ibkr_transaction
  unallocate_ibkr_transaction-Commits i w h =
      read-Commits w.tables _ (get_ibkr_transaction i) _ w (get_ibkr_transaction-IsRead i) refl
        λ x w₁ e₁.
          read-Commits w.tables _ (collect_portfolio_ids_from_allocations i) _ w₁ (collect-IsRead i)
            e₁
            λ ps w₂ e₂.
              after-Commits w.tables (λ u. IsSettled) _ _ _
                (transact-Commits w.tables w₂ (unallocate_rule i) h e₂)
                λ u w₃ q.
                  quiet-Commits w.tables IsSettled _ w₃
                    (regenerate_portfolios-IsQuiet x.transaction_date ps) q

  -- If each IBKR transaction is processed exactly when it has allocations, and allocations have
  -- transactions that exist and differ, then whichever statements fail, IgnoreIbkrTransaction
  -- either returns an error and leaves the tables as they were, or succeeds and leaves tables
  -- where this holds again.
  pub ignore_ibkr_transaction-Commits :
      (i : Ident) (w : World F)
      → IsSettled w.tables
      → Commits w.tables (λ u. IsSettled) (ignore_ibkr_transaction i w)
  unfolding ignore_ibkr_transaction
  ignore_ibkr_transaction-Commits i w h = transact_rule (ignore_rule i) w h

  require-IsRead : (b : Bool) → IsRead {F = F} (require b)
  require-IsRead true w = refl
  require-IsRead false w = refl

  -- If each IBKR transaction is processed exactly when it has allocations, and allocations have
  -- transactions that exist and differ, then whichever statements fail, DeleteIbkrTransaction,
  -- which has no database transaction of its own, either returns an error and leaves the tables as
  -- they were, or succeeds and leaves tables where this holds again.
  delete_ibkr_transaction_of-Commits :
      (i : Ident) (w : World F)
      → IsSettled w.tables
      → Commits w.tables (λ u. IsSettled) (delete_ibkr_transaction_of i w)
  unfolding delete_ibkr_transaction_of delete_ibkr_transaction
  delete_ibkr_transaction_of-Commits i w h =
      read-Commits w.tables _ (get_ibkr_transaction i) _ w (get_ibkr_transaction-IsRead i) refl
        λ x w₁ e₁.
          read-Commits w.tables _ (require (is_pending x.status)) _ w₁ (require-IsRead _) e₁
            λ u w₂ e₂.
              exec-Commits w.tables IsSettled (delete_ibkr_row i) w₂ e₂
                (delete_ibkr-IsSettled i w.tables h)

module _ {F : Type 0} ⦃f : Float64 F⦄ where
  -- If each IBKR transaction is processed exactly when it has allocations, and allocations have
  -- transactions that exist and differ, then whichever statements fail, AllocateIbkrTransaction,
  -- with the requested allocations or the default ones and with their fees, either returns an
  -- error and leaves the tables as they were, or succeeds and leaves tables where this holds
  -- again.
  pub allocate_ibkr_transaction-Commits :
      (i : Ident) (allocations : List (AllocationEntry F)) (w : World F)
      → IsSettled w.tables
      → Commits w.tables (λ u. IsSettled) (allocate_ibkr_transaction i allocations w)
  unfolding allocate_ibkr_transaction
  allocate_ibkr_transaction-Commits i allocations w h =
      after-Commits w.tables (λ x. IsSettled) (λ u. IsSettled) _ _
        (transact_rule (allocate_body_rule i allocations) w h)
        (λ x w' q. trigger-Commits w.tables IsSettled i x.transaction_date w' q)

  -- If each IBKR transaction is processed exactly when it has allocations, and allocations have
  -- transactions that exist and differ, then whichever statements fail, ModifyAllocations, which
  -- undoes an allocation and makes another in one database transaction, either returns an error
  -- and leaves the tables as they were, or succeeds and leaves tables where this holds again.
  pub modify_allocations-Commits :
      (i : Ident) (allocations : List (AllocationEntry F)) (w : World F)
      → IsSettled w.tables
      → Commits w.tables (λ u. IsSettled) (modify_allocations i allocations w)
  unfolding modify_allocations
  modify_allocations-Commits i allocations w h =
      read-Commits w.tables _ (get_ibkr_transaction i) _ w (get_ibkr_transaction-IsRead i) refl
        λ x w₁ e₁.
          read-Commits w.tables _ (collect_portfolio_ids_from_allocations i) _ w₁ (collect-IsRead i)
            e₁
            λ old w₂ e₂.
              after-Commits w.tables (λ u. IsSettled) _ _ _
                (transact-Commits w.tables w₂ (modify_rule i allocations) h e₂)
                λ u w₃ q.
                  quiet_bind-Commits w.tables IsSettled (collect_portfolio_ids_from_allocations i) _
                    w₃ (collect-IsQuiet i)
                    (λ new. regenerate_portfolios-IsQuiet x.transaction_date _) q
