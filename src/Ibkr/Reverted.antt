-- ===== src/Ibkr/Reverted.antt =====
-- `DeleteTransaction` of a transaction that an IBKR transaction was allocated to, which may take its
-- last allocation from it.
use investment_portfolio_man.Base.{
  ℕ, ◌+◌, ◌≡◌, true, false, not, none, some, arith, ltb, ◌==◌, Option-cases, inl, inr, sym, ap, ◌∙◌,
  subst,
}
use investment_portfolio_man.Float64.{Float64}
use investment_portfolio_man.Model.{Ident, Transaction}
use investment_portfolio_man.Result.{ok, ok-injective}
use investment_portfolio_man.Store.Tables.{Tables, IbkrStatus, IbkrAllocation}
use investment_portfolio_man.Store.Monad.{World, regenerate}
use investment_portfolio_man.Store.Quiet.{quiet-Commits, push_job-IsQuiet}
use investment_portfolio_man.Store.Triples.{
  Answers, Commits, after-Commits, Ensures, bind_rule, pure_rule, weaken, exec_rule, transact_rule,
}
use investment_portfolio_man.Store.Rows.{find_row}
use investment_portfolio_man.Store.Effects.{find_ibkr, delete_realized_rows, update_status_row}
use investment_portfolio_man.Store.Repositories.{
  get_transaction_by_id, delete_realized_gain_loss_by_transaction_id,
  get_ibkr_transaction_id_by_transaction_id, ibkr_of_transaction,
  count_ibkr_allocations_by_ibkr_transaction_id, update_ibkr_transaction_status, delete_transaction,
}
use investment_portfolio_man.Store.Reads.{read_rule, keep_rule}
use investment_portfolio_man.Ibkr.Settled.{allocated, is_settled, IsSettled}
use investment_portfolio_man.Transactions.{
  delete_body, delete_transaction_of, revert_ibkr, regenerate_deleted, is_sell,
}
use investment_portfolio_man.Transactions.Kept.{when_rule}
use investment_portfolio_man.Ibkr.Ready.{
  IsReady, delete_ready-IsSettled, none-IsReady, many-IsReady, one-IsReady, one_fewer_same,
}

module _ {F : Type 0} where
  -- Settled, and no IBKR transaction has the empty identifier.
  abbrev pub IsSettledNamed : Tables F → Type 0
  IsSettledNamed t = IsSettled t × (find_ibkr 0 t ≡ none)

  -- With the IBKR transaction that a transaction is linked to.
  abbrev pub IsLinkedTo : Ident → Ident → Tables F → Type 0
  IsLinkedTo i k t = IsSettledNamed t × (ibkr_of_transaction i t ≡ k)

  unlinked-IsReady : (i : Ident) (t : Tables F) → IsLinkedTo i 0 t → IsReady i t
  unlinked-IsReady i t ((settled, named), h) =
      elim (Option-cases
        (find_row (λ (b : IbkrAllocation F). b.transaction_id) i t.ibkr_allocations)) [
          | inl e ↦ none-IsReady i t settled e
          | inr (a, e) ↦ absurd (
              impossible _ _ (one_fewer_same i t a settled.1 e) (
                subst (λ k. ltb 0 (allocated k t) ≡ false) (sym (rw (e, ibkr_of_transaction) at h))
                  (settled.0 0 ∙ ap is_settled named)))
        ]
    where
      impossible : (m n : ℕ) → m + 1 ≡ n → ltb 0 n ≡ false → ⊥
      impossible m n h k = ground arith

  linked_row :
      (i k : Ident) (t : Tables F)
      → ibkr_of_transaction i t ≡ k
      → (k == 0) ≡ false
      → (a : IbkrAllocation F) × (find_row
            (λ (b : IbkrAllocation F). b.transaction_id)
            i
            t.ibkr_allocations
          ≡ some a)
        × (a.ibkr_transaction_id ≡ k)
  linked_row i k t h some_ =
      elim (Option-cases
        (find_row (λ (b : IbkrAllocation F). b.transaction_id) i t.ibkr_allocations)) [
          | inl e ↦ absurd (not_zero k (rw (e, ibkr_of_transaction) at h) some_)
          | inr (a, e) ↦ (a, e, rw (e, ibkr_of_transaction) at h)
        ]
    where
      not_zero : (m : ℕ) → 0 ≡ m → (m == 0) ≡ false → ⊥
      not_zero m e f = ground arith

  -- The count decides whether the IBKR transaction is pending again.
  revert_last-IsReady :
      (i k n : ℕ) (t : Tables F)
      → IsLinkedTo i k t
      → (k == 0) ≡ false
      → allocated k t ≡ n
      → ((n == 1) ≡ false → IsReady i t)
        × ((n == 1) ≡ true → Answers (IsReady i) (update_status_row k IbkrStatus.pending none t))
  revert_last-IsReady i k n t ((settled, named), h) some_ count =
      let (a, e, same) = linked_row i k t h some_ in
      let count_a : allocated a.ibkr_transaction_id t ≡ n =
        subst (λ j. allocated j t ≡ n) (sym same) count in
      (
        (λ many. many-IsReady i t a settled e (subst (λ m. (m == 1) ≡ false) (sym count_a) many)),
        λ one.
            subst (λ j. Answers (IsReady i) (update_status_row j IbkrStatus.pending none t)) same
              (one-IsReady i t a settled e (subst (λ m. (m == 1) ≡ true) (sym count_a) one)),
      )

is_zero : (m : ℕ) → not (m == 0) ≡ false → m ≡ 0
is_zero m h = ground arith

is_not_zero : (m : ℕ) → not (m == 0) ≡ true → (m == 0) ≡ false
is_not_zero m h = ground arith

module _ {F : Type 0} ⦃f : Float64 F⦄ where
  revert_rule : (i k : Ident) → Ensures {F = F} (IsLinkedTo i k) (revert_ibkr k) (λ u. IsReady i)
  unfolding revert_ibkr count_ibkr_allocations_by_ibkr_transaction_id update_ibkr_transaction_status
  revert_rule i k =
      when_rule (IsLinkedTo i k) (IsReady i) (not (k == 0))
        (λ e. bind_rule (read_rule {P = IsLinkedTo i k} _) (λ n.
          when_rule (λ t. IsLinkedTo i k t × (ok (allocated k t) ≡ ok n)) (IsReady i) (n == 1)
            (λ one.
              exec_rule _ (λ t p.
                (revert_last-IsReady i k n t p.0 (is_not_zero k e) (ok-injective p.1)).1 one))
            (λ many t p.
              (revert_last-IsReady i k n t p.0 (is_not_zero k e) (ok-injective p.1)).0 many)))
        (λ e t p. unlinked-IsReady i t (subst (λ j. IsLinkedTo i j t) (is_zero k e) p))

  delete_body-IsSettled :
      (i : Ident) → Ensures {F = F} IsSettledNamed (delete_body i) (λ x. IsSettled)
  unfolding delete_body get_transaction_by_id delete_transaction
      get_ibkr_transaction_id_by_transaction_id delete_realized_gain_loss_by_transaction_id
      delete_realized_rows
  delete_body-IsSettled i = bind_rule (keep_rule IsSettledNamed _) (λ x.
      bind_rule
        (when_rule IsSettledNamed IsSettledNamed (is_sell x.kind) (λ e. exec_rule _ (λ t p. p))
          (λ e t p. p))
        (λ u. bind_rule (weaken (λ t p. p) (read_rule {P = IsSettledNamed} _)) (λ k.
          bind_rule (weaken (λ t p. (p.0, ok-injective p.1)) (revert_rule i k)) (λ u.
            bind_rule (exec_rule _ (delete_ready-IsSettled i)) (λ u. pure_rule x (λ t p. p))))))

  regenerate_deleted-IsSettled :
      (before : Tables F) (x : Transaction F) (w : World F)
      → IsSettled w.tables
      → Commits before (λ u. IsSettled) (regenerate_deleted x w)
  unfolding regenerate
  regenerate_deleted-IsSettled before x w h =
      quiet-Commits before IsSettled (regenerate_deleted x) w
        (λ w'. push_job-IsQuiet w'.has_invalidator _ w') h

  -- If each IBKR transaction is processed exactly when it has allocations, allocations have
  -- transactions that exist and differ, and no IBKR transaction has the empty identifier, then
  -- whichever statements fail, DeleteTransaction, which may take the last allocation from an IBKR
  -- transaction, either returns an error and leaves the tables as they were, or succeeds and
  -- leaves tables where the first two conditions hold again.
  pub delete_transaction_of-IsSettled :
      (i : Ident) (w : World F)
      → IsSettled w.tables
      → find_ibkr 0 w.tables ≡ none
      → Commits w.tables (λ u. IsSettled) (delete_transaction_of i w)
  unfolding delete_transaction_of
  delete_transaction_of-IsSettled i w h named =
      after-Commits w.tables (λ x. IsSettled) (λ u. IsSettled) _ _
        (transact_rule (delete_body-IsSettled i) w (h, named))
        (regenerate_deleted-IsSettled w.tables)
