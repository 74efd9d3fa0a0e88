-- ===== src/Ibkr/Kept.antt =====
-- The bodies of the methods on IBKR transactions, and whether these are settled, by the rules of
-- their statements.
use investment_portfolio_man.Base.{
  ℕ, ◌≡◌, refl, true, false, Bool, List, [], ◌∷◌, Option, none, some, ltb, ◌==◌, Bool-cases,
  Option-cases, inl, inr, ◌≢◌, sym, ap, ◌∙◌, subst,
}
use investment_portfolio_man.Model.{Ident, PortfolioFund}
use investment_portfolio_man.Result.{
  already_processed, invalid_allocations, fund_not_matched, symbol_or_isin_required, constraint,
  ok-injective,
}
use investment_portfolio_man.Store.Tables.{
  Tables, Fund, IbkrStatus, IbkrTransaction, AllocationEntry,
}
use investment_portfolio_man.Store.Monad.{M}
use investment_portfolio_man.Store.Triples.{
  Answers, Ensures, bind_rule, pure_rule, fail_rule, weaken, exec_rule, new_uuid_rule, query_rule,
  lift_keep_rule, Answers-guard,
}
use investment_portfolio_man.Store.Rows.{key-find_row}
use investment_portfolio_man.Store.Effects.{
  find_ibkr, delete_allocation_rows, insert_portfolio_fund_row,
}
use investment_portfolio_man.Store.Repositories.{
  get_ibkr_transaction, get_ibkr_config, get_fund_by_symbol_or_isin,
  get_portfolio_fund_by_portfolio_and_fund, insert_portfolio_fund, update_ibkr_transaction_status,
  get_transaction_ids_by_ibkr_transaction, delete_ibkr_transaction_allocations, delete_transaction,
}
use investment_portfolio_man.Store.Reads.{read_rule, keep_rule, guarded_keep}
use investment_portfolio_man.Ibkr.{
  is_pending, is_processed, require, found_fund, find_fund_by_isin_or_symbol,
  allocations_or_default, require_some, or_created, delete_loop, unallocate_ibkr_transaction_tx,
  ignore_body,
}
use investment_portfolio_man.Ibkr.Settled.{
  allocated, is_settled, IsSettled, IsOpen, update_status-IsSettled,
}
use investment_portfolio_man.Ibkr.Undone.{
  IsUndone, delete_allocations-IsUndone, delete_transaction-IsUndone,
}

module _ {F : Type 0} where
  -- A row as it stands in the table.
  abbrev pub IsCurrent : IbkrTransaction F → Tables F → Type 0
  IsCurrent x t = IsSettled t × (find_ibkr x.id t ≡ some x)

  pub get_ibkr_transaction_rule :
      (i : Ident)
      → Ensures {F = F} IsSettled (get_ibkr_transaction i) (λ x t. IsCurrent x t × (x.id ≡ i))
  unfolding get_ibkr_transaction
  get_ibkr_transaction_rule i = query_rule _ (λ t h. elim (Option-cases (find_ibkr i t)) [
    | inl missing ↦ rw missing tt
    | inr (x, e) ↦
        let same = key-find_row (λ (y : IbkrTransaction F). y.id) i t.ibkr_transactions x e in
        rw e ((h, subst (λ j. find_ibkr j t ≡ some x) (sym same) e), same)
  ])

  pub require_rule :
      (P : Tables F → Type 0) (b : Bool) → Ensures P (require b) (λ u t. P t × (b ≡ true))
  require_rule P true = pure_rule tt (λ t p. (p, refl))
  require_rule P false = fail_rule already_processed

  pub get_fund_rule :
      (P : Tables F → Type 0) (symbol isin : Ident)
      → Ensures P (get_fund_by_symbol_or_isin symbol isin) (λ x. P)
  unfolding get_fund_by_symbol_or_isin
  get_fund_rule P symbol isin = record {
    leaves = λ w p. guarded_keep P _ symbol_or_isin_required _ w p;
  }

  pub found_fund_rule :
      (P : Tables F → Type 0) (o : Option Fund) {m : M F Fund}
      → Ensures P m (λ x. P)
      → Ensures P (found_fund o m) (λ x. P)
  found_fund_rule P none h = h
  found_fund_rule P (some x) h = elim (Bool-cases (x.id == 0)) [
    | inl e ↦ rw e h
    | inr e ↦ rw e (pure_rule x (λ t p. p))
  ]

  pub find_fund_rule :
      (P : Tables F → Type 0) (isin symbol : Ident)
      → Ensures P (find_fund_by_isin_or_symbol isin symbol) (λ x. P)
  unfolding find_fund_by_isin_or_symbol
  find_fund_rule P isin symbol = bind_rule (get_fund_rule P 0 isin) (λ a. found_fund_rule P a (
      bind_rule (get_fund_rule P symbol 0) (λ b. found_fund_rule P b (fail_rule fund_not_matched))))

  pub allocations_rule :
      (P : Tables F → Type 0) (requested : List (AllocationEntry F))
      → Ensures P (allocations_or_default requested) (λ allocations. P)
  unfolding get_ibkr_config
  allocations_rule P [] = bind_rule (keep_rule P _) (λ c. pure_rule _ (λ t p. p))
  allocations_rule P (a ∷ rest) = pure_rule _ (λ t p. p)

  pub require_some_rule :
      (P : Tables F → Type 0) (allocations : List (AllocationEntry F))
      → Ensures P (require_some allocations) (λ u t. P t × (allocations ≢ []))
  require_some_rule P [] = fail_rule invalid_allocations
  require_some_rule P (a ∷ rest) = pure_rule tt (λ t p. (p, (λ e. cc)))

  -- A new portfolio-fund is none of their business.
  insert_portfolio_fund-IsOpen :
      (i : Ident) (m : ℕ) (pf : PortfolioFund) (t : Tables F)
      → IsOpen i m t
      → Answers (IsOpen i m) (insert_portfolio_fund_row pf t)
  unfolding insert_portfolio_fund_row
  insert_portfolio_fund-IsOpen i m pf t h = Answers-guard (IsOpen i m) _ constraint _ h

  pub or_created_rule :
      (i : Ident) (m : ℕ) (portfolio_id fund_id : Ident) (o : Option PortfolioFund)
      → Ensures {F = F} (IsOpen i m) (or_created portfolio_id fund_id o) (λ pf. IsOpen i m)
  unfolding insert_portfolio_fund get_portfolio_fund_by_portfolio_and_fund
  or_created_rule i m portfolio_id fund_id (some pf) = pure_rule pf (λ t p. p)
  or_created_rule i m portfolio_id fund_id none =
      bind_rule
        (bind_rule (new_uuid_rule (IsOpen i m))
          (λ j. exec_rule _ (insert_portfolio_fund-IsOpen i m _)))
        (λ u. bind_rule (keep_rule (IsOpen i m) _) (λ pf. lift_keep_rule (IsOpen i m) _))

  pub delete_loop_rule :
      (i : Ident) (xs : List Ident)
      → Ensures {F = F} (IsUndone i xs) (delete_loop xs) (λ u. IsUndone i [])
  unfolding delete_loop delete_transaction
  delete_loop_rule i [] = pure_rule tt (λ t p. p)
  delete_loop_rule i (x ∷ xs) =
      bind_rule (exec_rule _ (delete_transaction-IsUndone i x xs)) (λ u. delete_loop_rule i xs)

  pub unallocate_rule :
      (i : Ident) → Ensures {F = F} IsSettled (unallocate_ibkr_transaction_tx i) (λ u. IsSettled)
  unfolding unallocate_ibkr_transaction_tx get_transaction_ids_by_ibkr_transaction
      delete_ibkr_transaction_allocations update_ibkr_transaction_status
  unallocate_rule i = bind_rule (weaken (λ t p. p) (get_ibkr_transaction_rule i)) (λ x.
      bind_rule (weaken (λ t p. p.0.0) (require_rule IsSettled (is_processed x.status))) (λ u.
        bind_rule (weaken (λ t p. p.0) (read_rule {P = IsSettled} _)) (λ ids.
          bind_rule
            (exec_rule {Q = IsUndone i ids} _ (λ t p.
              subst (λ xs. Answers (IsUndone {F = F} i xs) (delete_allocation_rows i t))
                (ok-injective p.1) (delete_allocations-IsUndone i t p.0)))
            (λ u. bind_rule (delete_loop_rule i ids) (λ u. exec_rule _ (λ t p.
              update_status-IsSettled i IbkrStatus.pending none t (p.0, p.1, rw p.2 refl)))))))

  pub ignore_rule : (i : Ident) → Ensures {F = F} IsSettled (ignore_body i) (λ u. IsSettled)
  unfolding ignore_body update_ibkr_transaction_status
  ignore_rule i = bind_rule (get_ibkr_transaction_rule i) (λ x.
      bind_rule (require_rule (λ t. IsCurrent x t × (x.id ≡ i)) (is_pending x.status)) (λ u.
        exec_rule _ (λ t p. update_status-IsSettled i IbkrStatus.ignored none t (
          (λ j e. p.0.0.0.0 j),
          p.0.0.0.1,
          subst (λ j. ltb 0 (allocated j t) ≡ false) p.0.1
              (p.0.0.0.0 x.id ∙ ap is_settled p.0.0.1 ∙ pending-unprocessed x.status p.1),
        ))))
    where
      pending-unprocessed : (s : IbkrStatus) → is_pending s ≡ true → is_processed s ≡ false
      pending-unprocessed IbkrStatus.pending h = refl
      pending-unprocessed IbkrStatus.processed h = cc
      pending-unprocessed IbkrStatus.ignored h = cc
