-- ===== src/Transactions/Matched.antt =====
-- Every sale has exactly one realized gain, and no other transaction has any: the statements.
use investment_portfolio_man.Base.{
  ℕ, ◌+◌, false, not, ◌||◌, Option, none, some, ◌==◌, if◌then◌else◌, Bool-cases, Option-cases, inl,
  inr, ==_iff, sym, ◌∙◌, ap, subst, ◌≡◌, find?,
}
use investment_portfolio_man.Result.{constraint}
use investment_portfolio_man.Model.{
  Ident, Time, Transaction, TransactionType, RealizedGainLoss, Dividend,
}
use investment_portfolio_man.Store.Tables.{Tables, IbkrStatus}
use investment_portfolio_man.Store.Triples.{Answers, Answers-guard}
use investment_portfolio_man.Store.Rows.{
  find_row, count_rows, replaced, find_row-insert-else, find_row-insert-new, find_row-delete-else,
  count_rows-delete-else, count_rows-delete-all, find_row-delete-all, count_rows-insert-else,
  count_rows-insert-one, find_row-replace-else, find_row-replace-one,
}
use investment_portfolio_man.Store.Effects.{
  find_transaction, find_portfolio_fund, is_some, stored, find_ibkr, without_transaction,
  with_transaction, insert_transaction_row, update_transaction_row, delete_transaction_row,
  find_portfolio, find_fund, insert_realized_row, delete_realized_rows, update_status_row,
}
use investment_portfolio_man.Transactions.{is_sell}

abbrev pub due_kind : TransactionType → ℕ
due_kind k = if is_sell k then 1 else 0

module _ {F : Type 0} where
  -- How many realized gains are recorded for a transaction.
  abbrev pub gains : Ident → Tables F → ℕ
  gains i t = count_rows (λ (r : RealizedGainLoss F). r.transaction_id) i t.realized

  -- How many there should be.
  abbrev pub due : Option (Transaction F) → ℕ
  due none = 0
  due (some x) = due_kind x.kind

  abbrev pub IsMatched : Tables F → Type 0
  IsMatched t = (i : Ident) → gains i t ≡ due (find_transaction i t)

  abbrev pub ElseMatched : Ident → Tables F → Type 0
  ElseMatched x t = (i : Ident) → (x == i) ≡ false → gains i t ≡ due (find_transaction i t)

  -- In the middle of a method: `x` has `n` gains and should have `m`, and all others are matched.
  abbrev pub IsPending : Ident → ℕ → ℕ → Tables F → Type 0
  IsPending x n m t = ElseMatched x t × (gains x t ≡ n) × (due (find_transaction x t) ≡ m)

  pub ElseMatched-IsMatched :
      (x : Ident) (t : Tables F)
      → ElseMatched x t
      → gains x t ≡ due (find_transaction x t)
      → IsMatched t
  ElseMatched-IsMatched x t h one i = elim (Bool-cases (x == i)) [
    | inl same ↦ subst (λ j. gains j t ≡ due (find_transaction j t)) ((==_iff x i).0 same) one
    | inr other ↦ h i other
  ]

  pub insert_transaction-IsPending :
      (x : Transaction F) (t : Tables F)
      → IsMatched t
      → Answers (IsPending x.id 0 (due_kind x.kind)) (insert_transaction_row x t)
  unfolding insert_transaction_row
  insert_transaction-IsPending x t h = elim (Option-cases (find_transaction x.id t)) [
    | inr (y, old) ↦ rw old tt
    | inl new ↦ elim (Bool-cases (is_some (find_portfolio_fund x.portfolio_fund_id t))) [
      | inl known ↦
          rw (new, known)
            (
              (λ i e.
                  h i
                  ∙ ap due (
                      sym (
                        find_row-insert-else (λ (y : Transaction F). y.id) i (stored x)
                          t.transactions e))),
              h x.id ∙ ap due new,
              ap due
                  (find_row-insert-new (λ (y : Transaction F). y.id) (stored x) t.transactions new),
            )
      | inr unknown ↦ rw (new, unknown) tt
    ]
  ]

  pub delete_realized-IsPending :
      (i : Ident) (m : ℕ) (t : Tables F)
      → ElseMatched i t
      → due (find_transaction i t) ≡ m
      → IsPending i 0 m (delete_realized_rows i t)
  unfolding delete_realized_rows
  delete_realized-IsPending i m t h k = (
    (λ j e.
        count_rows-delete-else (λ (r : RealizedGainLoss F). r.transaction_id) j i t.realized e
        ∙ h j e),
    count_rows-delete-all (λ (r : RealizedGainLoss F). r.transaction_id) i t.realized,
    k,
  )

  pub insert_realized-IsPending :
      (r : RealizedGainLoss F) (m : ℕ) (t : Tables F)
      → IsPending r.transaction_id 0 m t
      → Answers (IsPending r.transaction_id 1 m) (insert_realized_row r t)
  unfolding insert_realized_row
  insert_realized-IsPending r m t h =
      Answers-guard (IsPending r.transaction_id 1 m)
        (is_some (find_row (λ (x : RealizedGainLoss F). x.id) r.id t.realized)
          || not (is_some (find_transaction r.transaction_id t))
          || not (is_some (find_portfolio r.portfolio_id t))
          || not (is_some (find_fund r.fund_id t)))
        constraint _
        (
          (λ j e.
              count_rows-insert-else (λ (x : RealizedGainLoss F). x.transaction_id) j _ t.realized e
              ∙ h.0 j e),
          count_rows-insert-one (λ (x : RealizedGainLoss F). x.transaction_id) _ t.realized
              ∙ ap (λ n. n + 1) h.1,
          h.2,
        )

  pub update_transaction-IsMatched :
      (x : Transaction F) (m : ℕ) (t : Tables F)
      → IsPending x.id (due_kind x.kind) m t
      → Answers IsMatched (update_transaction_row x t)
  unfolding update_transaction_row
  update_transaction-IsMatched x m t h = elim (Option-cases (find_transaction x.id t)) [
    | inl new ↦ rw new tt
    | inr (y, old) ↦ elim (Bool-cases (is_some (find_portfolio_fund x.portfolio_fund_id t))) [
      | inl known ↦
          rw (old, known)
            (ElseMatched-IsMatched x.id (with_transaction x t)
              (λ i e.
                h.0 i e
                ∙ ap due (
                    sym (
                      find_row-replace-else (λ (z : Transaction F). z.id) i (stored x)
                        t.transactions e)))
              (h.1
                ∙ sym (
                    ap due (
                      find_row-replace-one (λ (z : Transaction F). z.id) (stored x) t.transactions
                      ∙ ap (replaced (λ (z : Transaction F). z.id) (stored x)) old))))
      | inr unknown ↦ rw (old, unknown) tt
    ]
  ]

  pub delete_transaction-IsMatched :
      (x : Ident) (t : Tables F) → ElseMatched x t → Answers IsMatched (delete_transaction_row x t)
  unfolding delete_transaction_row
  delete_transaction-IsMatched x t h =
      elim (Bool-cases
        (is_some (find? (λ (d : Dividend F). d.reinvestment_transaction_id == x) t.dividends))) [
          | inl used ↦ rw used tt
          | inr free ↦ elim (Bool-cases (is_some (find_transaction x t))) [
            | inl known ↦
                rw (free, known)
                  (ElseMatched-IsMatched x (without_transaction x t)
                    (λ i e.
                      count_rows-delete-else (λ (r : RealizedGainLoss F). r.transaction_id) i x
                        t.realized e
                      ∙ h i e
                      ∙ ap due (
                          sym (
                            find_row-delete-else (λ (z : Transaction F). z.id) i x t.transactions
                              e)))
                    (count_rows-delete-all (λ (r : RealizedGainLoss F). r.transaction_id) x
                        t.realized
                      ∙ sym (
                          ap due
                            (find_row-delete-all (λ (z : Transaction F). z.id) x t.transactions))))
            | inr unknown ↦ rw (free, unknown) tt
          ]
        ]

  -- An IBKR transaction's status is no part of it.
  pub update_status-ElseMatched :
      (x : Ident) (i : Ident) (status : IbkrStatus) (at : Option Time) (t : Tables F)
      → ElseMatched x t
      → Answers (ElseMatched x) (update_status_row i status at t)
  unfolding update_status_row
  update_status-ElseMatched x i status at t h = elim (Bool-cases (is_some (find_ibkr i t))) [
    | inl known ↦ rw known h
    | inr unknown ↦ rw unknown tt
  ]
