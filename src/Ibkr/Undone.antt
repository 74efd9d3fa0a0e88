-- ===== src/Ibkr/Undone.antt =====
-- What undoing an allocation does on the way: the allocations go first, and then their transactions.
use investment_portfolio_man.Base.{
  ℕ, ◌≤◌, ◌≡◌, List, ◌∷◌, Option, none, some, arith, ◌==◌, Bool-cases, inl, inr, subst, ==_iff, All,
  All-mono,
}
use investment_portfolio_man.Model.{Ident, Transaction}
use investment_portfolio_man.Result.{constraint, ibkr_transaction_not_found, transaction_not_found}
use investment_portfolio_man.Store.Tables.{Tables, IbkrAllocation}
use investment_portfolio_man.Store.Triples.{Answers, Answers-guard, Answers-guards}
use investment_portfolio_man.Store.Rows.{
  find_row, delete_rows, count_rows-delete-else, count_rows-delete-all, find_row-delete-else,
}
use investment_portfolio_man.Store.Rows.Keys.{delete_rows-none, count_rows-delete-le, kept-gone}
use investment_portfolio_man.Store.Effects.{
  find_transaction, without_allocations, without_transaction, delete_allocation_rows,
  delete_transaction_row,
}
use investment_portfolio_man.Store.Repositories.{linked_transactions}
use investment_portfolio_man.Ibkr.Settled.{
  le_trans, allocated, links, ElseSettled, present, IsLinked, IsSettled,
}

module _ {F : Type 0} where
  pub links_le_one : (t : Tables F) → IsLinked t → (x : Ident) → links x t ≤ 1
  links_le_one t h x = at_most (find_transaction x t) (h x)
    where
      at_most : (o : Option (Transaction F)) {n : ℕ} → n ≤ present o → n ≤ 1
      at_most none k = omega arith
      at_most (some y) k = k

  -- In the middle of an undone allocation: `i` has no allocation, and nor have these transactions.
  abbrev pub IsUndone : Ident → List Ident → Tables F → Type 0
  IsUndone i xs t = ElseSettled i t × IsLinked t × (allocated i t ≡ 0) × All (λ x. links x t ≡ 0) xs

  pub delete_allocations-IsUndone :
      (i : Ident) (t : Tables F)
      → IsSettled t
      → Answers (IsUndone i (linked_transactions i t)) (delete_allocation_rows i t)
  unfolding delete_allocation_rows
  delete_allocations-IsUndone i t h =
      Answers-guard (IsUndone i (linked_transactions i t)) _ ibkr_transaction_not_found
        (without_allocations i t)
        (
          (λ j e.
              rw
                (count_rows-delete-else (λ (a : IbkrAllocation F). a.ibkr_transaction_id) j i
                  t.ibkr_allocations e)
                (h.0 j)),
          (λ x.
              le_trans
                (count_rows-delete-le (λ (a : IbkrAllocation F). a.transaction_id)
                  (λ (a : IbkrAllocation F). a.ibkr_transaction_id) x i t.ibkr_allocations)
                (h.1 x)),
          count_rows-delete-all (λ (a : IbkrAllocation F). a.ibkr_transaction_id) i
              t.ibkr_allocations,
          kept-gone (λ (a : IbkrAllocation F). a.transaction_id)
              (λ (a : IbkrAllocation F). a.ibkr_transaction_id) i t.ibkr_allocations
              (links_le_one t h.1),
        )

  pub unlinked :
      (x y : Ident) (ts : List (Transaction F)) (n : ℕ)
      → (x ≡ y → n ≡ 0)
      → n ≤ present (find_row (λ (z : Transaction F). z.id) y ts)
      → n
        ≤ present (
            find_row
              (λ (z : Transaction F). z.id)
              y
              (delete_rows (λ (z : Transaction F). z.id) x ts))
  unlinked x y ts n h k = elim (Bool-cases (x == y)) [
    | inl e ↦ rw (h ((==_iff x y).0 e)) (omega arith)
    | inr e ↦ rw (find_row-delete-else (λ (z : Transaction F). z.id) y x ts e) k
  ]

  pub delete_transaction-IsUndone :
      (i x : Ident) (xs : List Ident) (t : Tables F)
      → IsUndone i (x ∷ xs) t
      → Answers (IsUndone i xs) (delete_transaction_row x t)
  unfolding delete_transaction_row
  delete_transaction-IsUndone i x xs t (others, linked, empty, (none_, rest)) =
      let same =
        delete_rows-none (λ (a : IbkrAllocation F). a.transaction_id) x t.ibkr_allocations none_ in
      Answers-guards (IsUndone i xs) _ _ constraint transaction_not_found (without_transaction x t)
        (
          (λ j e. rw same (others j e)),
          (λ y. rw same (
              unlinked x y t.transactions (links y t) (λ e. subst (λ z. links z t ≡ 0) e none_)
                (linked y))),
          rw same empty,
          All-mono (λ y. links y t ≡ 0) (λ y. links y (without_transaction x t) ≡ 0)
              (λ y e. rw same e) xs rest,
        )
