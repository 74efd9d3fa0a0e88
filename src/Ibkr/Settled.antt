-- ===== src/Ibkr/Settled.antt =====
-- An IBKR transaction is processed exactly when it has allocations, and a transaction has at most one
-- allocation: the statements, and what the writing statements do to them.
use investment_portfolio_man.Base.{
  ℕ, ◌≤◌, ◌≡◌, refl, true, false, Bool, List, [], ◌∷◌, ◌++◌, map, Option, none, some, arith, ltb,
  ◌==◌, if◌then◌else◌, Bool-cases, Option-cases, inl, inr, sym, ap, ◌∙◌, subst, ==_iff,
}
use investment_portfolio_man.Model.{Ident, Time, Transaction}
use investment_portfolio_man.Result.{constraint}
use investment_portfolio_man.Store.Tables.{Tables, IbkrStatus, IbkrTransaction, IbkrAllocation}
use investment_portfolio_man.Store.Triples.{Answers, Answers-guard}
use investment_portfolio_man.Store.Rows.{
  find_row, count_rows, count_rows-insert-else, count_rows-insert-one, count_rows-delete-else,
  count_rows-delete-all, find_row-delete-else, find_row-delete-all, find_row-insert-new,
}
use investment_portfolio_man.Store.Rows.Keys.{count_rows-delete-le}
use investment_portfolio_man.Store.Effects.{
  find_transaction, find_ibkr, find_portfolio_fund, is_some, stored, with_status, with_ibkr_status,
  without_ibkr, with_allocation, stored_allocation, insert_transaction_row, insert_allocation_row,
  update_status_row, delete_ibkr_row,
}
use investment_portfolio_man.Ibkr.{is_processed}

pub le_trans : {a b c : ℕ} → a ≤ b → b ≤ c → a ≤ c
le_trans h k = omega arith

module _ {F : Type 0} where
  -- How many allocations an IBKR transaction has.
  abbrev pub allocated : Ident → Tables F → ℕ
  allocated i t = count_rows (λ (a : IbkrAllocation F). a.ibkr_transaction_id) i t.ibkr_allocations

  -- How many allocations a transaction has.
  abbrev pub links : Ident → Tables F → ℕ
  links x t = count_rows (λ (a : IbkrAllocation F). a.transaction_id) x t.ibkr_allocations

  abbrev pub is_settled : Option (IbkrTransaction F) → Bool
  is_settled none = false
  is_settled (some x) = is_processed x.status

  abbrev pub ElseSettled : Ident → Tables F → Type 0
  ElseSettled i t =
      (j : Ident) → (i == j) ≡ false → ltb 0 (allocated j t) ≡ is_settled (find_ibkr j t)

  abbrev pub present : Option (Transaction F) → ℕ
  present none = 0
  present (some x) = 1

  -- Allocations have a transaction, and no two the same.
  abbrev pub IsLinked : Tables F → Type 0
  IsLinked t = (x : Ident) → links x t ≤ present (find_transaction x t)

  -- An IBKR transaction that is processed has allocations; one that is pending or ignored, or not
  -- there, has none. An allocation's transaction exists and has no other allocation.
  abbrev pub IsSettled : Tables F → Type 0
  IsSettled t = ((i : Ident) → ltb 0 (allocated i t) ≡ is_settled (find_ibkr i t)) × IsLinked t

  -- In the middle of a method: `i` has at least `m` allocations, and all others are settled.
  abbrev pub IsOpen : Ident → ℕ → Tables F → Type 0
  IsOpen i m t = ElseSettled i t × IsLinked t × (m ≤ allocated i t)

  -- As above, with a transaction that no allocation has.
  abbrev pub IsFree : Ident → ℕ → Ident → Tables F → Type 0
  IsFree i m x t = IsOpen i m t × (links x t ≡ 0) × (present (find_transaction x t) ≡ 1)

  present-insert :
      (x : Transaction F) (j : Ident) (ts : List (Transaction F))
      → present (find_row (λ (y : Transaction F). y.id) j ts)
        ≤ present (find_row (λ (y : Transaction F). y.id) j (ts ++ (stored x ∷ [])))
  present-insert x j [] = ground arith
  present-insert x j (y ∷ ts) = ground (arith, present-insert x j ts)

  pub insert_transaction-IsFree :
      (i : Ident) (m : ℕ) (x : Transaction F) (t : Tables F)
      → IsOpen i m t
      → Answers (IsFree i m x.id) (insert_transaction_row x t)
  unfolding insert_transaction_row
  insert_transaction-IsFree i m x t h = elim (Option-cases (find_transaction x.id t)) [
    | inr (y, old) ↦ rw old tt
    | inl new ↦ elim (Bool-cases (is_some (find_portfolio_fund x.portfolio_fund_id t))) [
      | inr unknown ↦ rw (new, unknown) tt
      | inl known ↦
          let none_linked : links x.id t ≤ 0 =
            subst (λ o. links x.id t ≤ present o) new (h.1 x.id) in
          rw (new, known)
            (
              (h.0, (λ j. le_trans (h.1 j) (present-insert x j t.transactions)), h.2),
              omega arith,
              ap present
                  (find_row-insert-new (λ (y : Transaction F). y.id) (stored x) t.transactions new),
            )
    ]
  ]

  links-insert :
      (a : IbkrAllocation F) (rows : List (IbkrAllocation F)) (ts : List (Transaction F))
      → ((x : Ident)
          → count_rows (λ (b : IbkrAllocation F). b.transaction_id) x rows
            ≤ present (find_row (λ (y : Transaction F). y.id) x ts))
      → count_rows (λ (b : IbkrAllocation F). b.transaction_id) a.transaction_id rows ≡ 0
      → present (find_row (λ (y : Transaction F). y.id) a.transaction_id ts) ≡ 1
      → (x : Ident)
      → count_rows (λ (b : IbkrAllocation F). b.transaction_id) x (rows ++ (a ∷ []))
        ≤ present (find_row (λ (y : Transaction F). y.id) x ts)
  links-insert a rows ts h none_ one x = elim (Bool-cases (a.transaction_id == x)) [
    | inl e ↦
        subst
          (λ y.
            count_rows (λ (b : IbkrAllocation F). b.transaction_id) y (rows ++ (a ∷ []))
            ≤ present (find_row (λ (z : Transaction F). z.id) y ts))
          ((==_iff a.transaction_id x).0 e)
          (rw
            (count_rows-insert-one (λ (b : IbkrAllocation F). b.transaction_id) a rows, none_, one)
            (omega arith))
    | inr e ↦
        rw (count_rows-insert-else (λ (b : IbkrAllocation F). b.transaction_id) x a rows e) (h x)
  ]

  pub insert_allocation-IsOpen :
      (m : ℕ) (a : IbkrAllocation F) (t : Tables F)
      → IsFree a.ibkr_transaction_id m a.transaction_id t
      → Answers (IsOpen a.ibkr_transaction_id 1) (insert_allocation_row a t)
  unfolding insert_allocation_row
  insert_allocation-IsOpen m a t (h, none_, one) =
      Answers-guard (IsOpen a.ibkr_transaction_id 1) _ constraint (with_allocation a t) (
        (λ j e.
            rw
              (count_rows-insert-else (λ (b : IbkrAllocation F). b.ibkr_transaction_id) j
                (stored_allocation a) t.ibkr_allocations e)
              (h.0 j e)),
        links-insert (stored_allocation a) t.ibkr_allocations t.transactions h.1 none_ one,
        rw
            (count_rows-insert-one (λ (b : IbkrAllocation F). b.ibkr_transaction_id)
              (stored_allocation a) t.ibkr_allocations)
            (omega arith),
      )

  pub find_ibkr-status-same :
      (i : Ident) (s : IbkrStatus) (at : Option Time) (xs : List (IbkrTransaction F))
      → is_some (find_row (λ (x : IbkrTransaction F). x.id) i xs) ≡ true
      → is_settled (
          find_row
            (λ (x : IbkrTransaction F). x.id)
            i
            (map (λ (x : IbkrTransaction F). if x.id == i then with_status s at x else x) xs))
        ≡ is_processed s
  find_ibkr-status-same i s at [] h = cc
  find_ibkr-status-same i s at (x ∷ xs) h = elim (Bool-cases (x.id == i)) [
    | inl e ↦ rw (e, e) refl
    | inr e ↦ rw (e, e) (find_ibkr-status-same i s at xs (rw (e) at h))
  ]

  pub find_ibkr-status-else :
      (i j : Ident) (s : IbkrStatus) (at : Option Time) (xs : List (IbkrTransaction F))
      → (i == j) ≡ false
      → find_row
          (λ (x : IbkrTransaction F). x.id)
          j
          (map (λ (x : IbkrTransaction F). if x.id == i then with_status s at x else x) xs)
        ≡ find_row (λ (x : IbkrTransaction F). x.id) j xs
  find_ibkr-status-else i j s at [] h = refl
  find_ibkr-status-else i j s at (x ∷ xs) h = ground (arith, find_ibkr-status-else i j s at xs h)

  ElseSettled-all :
      (i : Ident) (t : Tables F)
      → ElseSettled i t
      → ltb 0 (allocated i t) ≡ is_settled (find_ibkr i t)
      → (j : Ident) → ltb 0 (allocated j t) ≡ is_settled (find_ibkr j t)
  ElseSettled-all i t h one j = elim (Bool-cases (i == j)) [
    | inl e ↦ subst (λ k. ltb 0 (allocated k t) ≡ is_settled (find_ibkr k t)) ((==_iff i j).0 e) one
    | inr e ↦ h j e
  ]

  pub update_status-IsSettled :
      (i : Ident) (s : IbkrStatus) (at : Option Time) (t : Tables F)
      → ElseSettled i t × IsLinked t × (ltb 0 (allocated i t) ≡ is_processed s)
      → Answers IsSettled (update_status_row i s at t)
  unfolding update_status_row
  update_status-IsSettled i s at t h = elim (Bool-cases (is_some (find_ibkr i t))) [
    | inr unknown ↦ rw unknown tt
    | inl known ↦ rw known (
      ElseSettled-all i (with_ibkr_status i s at t)
          (λ j e.
            h.0 j e ∙ ap is_settled (sym (find_ibkr-status-else i j s at t.ibkr_transactions e)))
          (h.2 ∙ sym (find_ibkr-status-same i s at t.ibkr_transactions known)),
      h.1,
    )
  ]

  pub delete_ibkr-IsSettled :
      (i : Ident) (t : Tables F) → IsSettled t → Answers IsSettled (delete_ibkr_row i t)
  unfolding delete_ibkr_row
  delete_ibkr-IsSettled i t h = elim (Bool-cases (is_some (find_ibkr i t))) [
    | inr unknown ↦ rw unknown tt
    | inl known ↦ rw known (
      ElseSettled-all i (without_ibkr i t)
          (λ j e.
            rw
              (
                count_rows-delete-else (λ (a : IbkrAllocation F). a.ibkr_transaction_id) j i
                    t.ibkr_allocations e,
                find_row-delete-else (λ (x : IbkrTransaction F). x.id) j i t.ibkr_transactions e,
              )
              (h.0 j))
          (rw
            (
              count_rows-delete-all (λ (a : IbkrAllocation F). a.ibkr_transaction_id) i
                  t.ibkr_allocations,
              find_row-delete-all (λ (x : IbkrTransaction F). x.id) i t.ibkr_transactions,
            )
            refl),
      (λ x.
          le_trans
            (count_rows-delete-le (λ (a : IbkrAllocation F). a.transaction_id)
              (λ (a : IbkrAllocation F). a.ibkr_transaction_id) x i t.ibkr_allocations)
            (h.1 x)),
    )
  ]
