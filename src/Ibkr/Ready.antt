-- ===== src/Ibkr/Ready.antt =====
-- When a transaction can be deleted and IBKR transactions are settled without it.
use investment_portfolio_man.Base.{
  ℕ, ◌+◌, ◌≤◌, ◌≡◌, true, false, none, some, arith, ltb, ◌==◌, if◌then◌else◌, Bool-cases, inl, inr,
  sym, ap, ◌∙◌, subst, ==_iff, ==_refl, ◌⊎◌,
}
use investment_portfolio_man.Model.{Ident, Transaction}
use investment_portfolio_man.Result.{constraint, transaction_not_found}
use investment_portfolio_man.Store.Tables.{Tables, IbkrStatus, IbkrAllocation}
use investment_portfolio_man.Store.Triples.{Answers, Answers-guards}
use investment_portfolio_man.Store.Rows.{
  count_rows-delete-all, count_rows-delete-else, find_row-delete-else, find_row,
}
use investment_portfolio_man.Store.Rows.Keys.{
  delete_rows-none, count_rows-none, count_rows-delete-only,
}
use investment_portfolio_man.Store.Effects.{
  find_transaction, find_ibkr, is_some, without_transaction, with_ibkr_status,
  delete_transaction_row, update_status_row,
}
use investment_portfolio_man.Ibkr.Settled.{
  allocated, links, is_settled, IsLinked, IsSettled, present, find_ibkr-status-same,
  find_ibkr-status-else,
}
use investment_portfolio_man.Ibkr.Undone.{links_le_one}

none_lost : (m n : ℕ) → m + 0 ≡ n → ltb 0 m ≡ ltb 0 n
none_lost m n h = ground arith

some_left : (m n : ℕ) → m + 1 ≡ n → (n == 1) ≡ false → ltb 0 m ≡ ltb 0 n
some_left m n h k = ground arith

none_left : (m n : ℕ) → m + 1 ≡ n → (n == 1) ≡ true → ltb 0 m ≡ false
none_left m n h k = ground arith

module _ {F : Type 0} where
  -- The transaction can go: the IBKR transactions are settled without it.
  abbrev pub IsReady : Ident → Tables F → Type 0
  IsReady i t =
      IsLinked t
      × ((j : Ident) → ltb 0 (allocated j (without_transaction i t)) ≡ is_settled (find_ibkr j t))

  pub delete_ready-IsSettled :
      (i : Ident) (t : Tables F) → IsReady i t → Answers IsSettled (delete_transaction_row i t)
  unfolding delete_transaction_row
  delete_ready-IsSettled i t (linked, settled) =
      Answers-guards IsSettled _ _ constraint transaction_not_found (without_transaction i t)
        (settled, λ x. gone x (Bool-cases (i == x)))
    where
      gone :
          (x : Ident)
          → ((i == x) ≡ true) ⊎ ((i == x) ≡ false)
          → links x (without_transaction i t)
            ≤ present (find_transaction x (without_transaction i t))
      gone x (inl same) =
          subst
            (λ y.
              links y (without_transaction i t)
              ≤ present (find_transaction y (without_transaction i t)))
            ((==_iff i x).0 same)
            (rw
              (count_rows-delete-all (λ (a : IbkrAllocation F). a.transaction_id) i
                t.ibkr_allocations)
              (omega arith))
      gone x (inr other) =
          rw
            (
              count_rows-delete-else (λ (a : IbkrAllocation F). a.transaction_id) x i
                  t.ibkr_allocations other,
              find_row-delete-else (λ (z : Transaction F). z.id) x i t.transactions other,
            )
            (linked x)

  -- A transaction that no IBKR transaction is linked to.
  pub none-IsReady :
      (i : Ident) (t : Tables F)
      → IsSettled t
      → find_row (λ (a : IbkrAllocation F). a.transaction_id) i t.ibkr_allocations ≡ none
      → IsReady i t
  none-IsReady i t (settled, linked) e = (
    linked,
    λ j.
        rw
          (delete_rows-none (λ (a : IbkrAllocation F). a.transaction_id) i t.ibkr_allocations
            (count_rows-none (λ (a : IbkrAllocation F). a.transaction_id) i t.ibkr_allocations e))
          (settled j),
  )

  one_fewer :
      (i : Ident) (t : Tables F) (a : IbkrAllocation F)
      → IsLinked t
      → find_row (λ (b : IbkrAllocation F). b.transaction_id) i t.ibkr_allocations ≡ some a
      → (j : Ident)
      → allocated j (without_transaction i t) + (if a.ibkr_transaction_id == j then 1 else 0)
        ≡ allocated j t
  one_fewer i t a linked e j =
      count_rows-delete-only (λ (b : IbkrAllocation F). b.transaction_id)
        (λ (b : IbkrAllocation F). b.ibkr_transaction_id) i j t.ibkr_allocations a
        (links_le_one t linked i) e

  -- The IBKR transaction of the allocation loses it.
  pub one_fewer_same :
      (i : Ident) (t : Tables F) (a : IbkrAllocation F)
      → IsLinked t
      → find_row (λ (b : IbkrAllocation F). b.transaction_id) i t.ibkr_allocations ≡ some a
      → allocated a.ibkr_transaction_id (without_transaction i t) + 1
        ≡ allocated a.ibkr_transaction_id t
  one_fewer_same i t a linked e =
      rw (==_refl a.ibkr_transaction_id) at (one_fewer i t a linked e a.ibkr_transaction_id)

  -- The others lose none.
  one_fewer_else :
      (i : Ident) (t : Tables F) (a : IbkrAllocation F)
      → IsLinked t
      → find_row (λ (b : IbkrAllocation F). b.transaction_id) i t.ibkr_allocations ≡ some a
      → (j : Ident) → (a.ibkr_transaction_id == j) ≡ false
      → ltb 0 (allocated j (without_transaction i t)) ≡ ltb 0 (allocated j t)
  one_fewer_else i t a linked e j other = none_lost _ _ (rw other at (one_fewer i t a linked e j))

  -- One whose IBKR transaction has other allocations as well.
  pub many-IsReady :
      (i : Ident) (t : Tables F) (a : IbkrAllocation F)
      → IsSettled t
      → find_row (λ (b : IbkrAllocation F). b.transaction_id) i t.ibkr_allocations ≡ some a
      → (allocated a.ibkr_transaction_id t == 1) ≡ false
      → IsReady i t
  many-IsReady i t a (settled, linked) e many = (
    linked,
    λ j. elim (Bool-cases (a.ibkr_transaction_id == j)) [
      | inr other ↦ one_fewer_else i t a linked e j other ∙ settled j
      | inl same ↦
          subst (λ k. ltb 0 (allocated k (without_transaction i t)) ≡ is_settled (find_ibkr k t))
            ((==_iff a.ibkr_transaction_id j).0 same)
            (some_left _ _ (one_fewer_same i t a linked e) many ∙ settled a.ibkr_transaction_id)
    ],
  )

  -- One whose IBKR transaction has no other, and is pending again.
  pub one-IsReady :
      (i : Ident) (t : Tables F) (a : IbkrAllocation F)
      → IsSettled t
      → find_row (λ (b : IbkrAllocation F). b.transaction_id) i t.ibkr_allocations ≡ some a
      → (allocated a.ibkr_transaction_id t == 1) ≡ true
      → Answers (IsReady i) (update_status_row a.ibkr_transaction_id IbkrStatus.pending none t)
  unfolding update_status_row
  one-IsReady i t a (settled, linked) e one =
      elim (Bool-cases (is_some (find_ibkr a.ibkr_transaction_id t))) [
        | inr unknown ↦ rw unknown tt
        | inl known ↦ rw known (
          linked,
          λ j. elim (Bool-cases (a.ibkr_transaction_id == j)) [
            | inr other ↦
                one_fewer_else i t a linked e j other
                ∙ settled j
                ∙ ap is_settled (
                    sym (
                      find_ibkr-status-else a.ibkr_transaction_id j IbkrStatus.pending none
                        t.ibkr_transactions other))
            | inl same ↦
                subst
                  (λ k.
                    ltb 0 (allocated k (without_transaction i t))
                    ≡ is_settled (
                        find_ibkr k
                          (with_ibkr_status a.ibkr_transaction_id IbkrStatus.pending none t)))
                  ((==_iff a.ibkr_transaction_id j).0 same)
                  (none_left _ _ (one_fewer_same i t a linked e) one
                    ∙ sym (
                        find_ibkr-status-same a.ibkr_transaction_id IbkrStatus.pending none
                          t.ibkr_transactions known))
          ],
        )
      ]
