-- ===== src/Dividends/Linked.antt =====
-- The link from a dividend to the transaction that reinvests it: the statements.
use investment_portfolio_man.Base.{
  ◌≡◌, refl, ap, ◌∙◌, Bool, true, false, not, ◌&&◌, ◌||◌, List, [], ◌∷◌, ◌++◌, none, some, arith,
  find?, All, All-append, All-mono, All-keep, ◌==◌, Bool-cases, Option-cases, inl, inr,
}
use investment_portfolio_man.Model.{Ident, Transaction, Dividend, ReinvestmentStatus, partial}
use investment_portfolio_man.Store.Tables.{Tables}
use investment_portfolio_man.Store.Triples.{Answers}
use investment_portfolio_man.Store.Rows.{
  find_row-insert, find_row-insert-new, find_row-replace, find_row-replace-one,
  find_row-delete-else, find_row-delete-all, replaced,
}
use investment_portfolio_man.Store.Rows.Keys.{All-replace}
use investment_portfolio_man.Store.Effects.{
  is_some, find_transaction, find_portfolio_fund, find_dividend, stored, without_transaction,
  with_transaction, insert_transaction_row, update_transaction_row, delete_transaction_row,
}
use investment_portfolio_man.Store.Dividends.{
  stored_dividend, has_references, with_new_dividend, with_dividend, without_dividend,
  insert_dividend_row, update_dividend_row, delete_dividend_row,
}

abbrev pub is_partial : ReinvestmentStatus → Bool
is_partial partial = true
is_partial _ = false

other_way : (a b : Ident) → (a == b) ≡ false → (b == a) ≡ false
other_way a b h = ground arith

module _ {F : Type 0} where
  -- A dividend names a transaction that there is, or none; if it is reinvested in part, then it
  -- does name one.
  abbrev pub linked_row : Tables F → Dividend F → Bool
  linked_row t d =
      is_some (find_transaction d.reinvestment_transaction_id t)
      || (d.reinvestment_transaction_id == 0 && not (is_partial d.reinvestment_status))

  abbrev pub IsLinkedRow : Tables F → Dividend F → Type 0
  IsLinkedRow t d = linked_row t d ≡ true

  abbrev pub IsLinked : Tables F → Type 0
  IsLinked t = All (IsLinkedRow t) t.dividends

  -- Every transaction of the one is in the other.
  abbrev pub Keeps : Tables F → Tables F → Type 0
  Keeps t t' =
      (i : Ident) → is_some (find_transaction i t) ≡ true → is_some (find_transaction i t') ≡ true

  pub Keeps-IsLinkedRow :
      (t t' : Tables F) → Keeps t t' → (d : Dividend F) → IsLinkedRow t d → IsLinkedRow t' d
  Keeps-IsLinkedRow t t' keeps d h =
      elim (Bool-cases (is_some (find_transaction d.reinvestment_transaction_id t))) [
        | inl there ↦ rw (keeps d.reinvestment_transaction_id there) refl
        | inr gone ↦ ground (arith, h, gone)
      ]

  abbrev pub with_new_transaction : Transaction F → Tables F → Tables F
  with_new_transaction x t = record t { transactions = t.transactions ++ (stored x ∷ []) }

  insert-Keeps : (x : Transaction F) (t : Tables F) → Keeps t (with_new_transaction x t)
  insert-Keeps x t i h =
      ground (arith, find_row-insert (λ (y : Transaction F). y.id) i (stored x) t.transactions, h)

  replace-Keeps : (x : Transaction F) (t : Tables F) → Keeps t (with_transaction x t)
  replace-Keeps x t i h =
      ground (arith, find_row-replace (λ (y : Transaction F). y.id) i (stored x) t.transactions, h)

  All-linked :
      (t t' : Tables F)
      → Keeps t t'
      → (ds : List (Dividend F)) → All (IsLinkedRow t) ds
      → All (IsLinkedRow t') ds
  All-linked t t' keeps ds h =
      All-mono (IsLinkedRow t) (IsLinkedRow t') (Keeps-IsLinkedRow t t' keeps) ds h

  pub insert_transaction-IsLinked :
      (x : Transaction F) (t : Tables F)
      → IsLinked t
      → Answers
          (λ t'. IsLinked t' × (is_some (find_transaction x.id t') ≡ true))
          (insert_transaction_row x t)
  unfolding insert_transaction_row
  insert_transaction-IsLinked x t h = elim (Option-cases (find_transaction x.id t)) [
    | inr (y, old) ↦ rw old tt
    | inl new ↦ elim (Bool-cases (is_some (find_portfolio_fund x.portfolio_fund_id t))) [
      | inl known ↦
          rw (new, known)
            (
              All-linked t (with_new_transaction x t) (insert-Keeps x t) t.dividends h,
              rw (find_row-insert-new (λ (y : Transaction F). y.id) (stored x) t.transactions new)
                  refl,
            )
      | inr unknown ↦ rw (new, unknown) tt
    ]
  ]

  pub update_transaction-IsLinked :
      (x : Transaction F) (t : Tables F)
      → IsLinked t
      → Answers
          (λ t'. IsLinked t' × (is_some (find_transaction x.id t') ≡ true))
          (update_transaction_row x t)
  unfolding update_transaction_row
  update_transaction-IsLinked x t h = elim (Bool-cases (is_some (find_transaction x.id t))) [
    | inr new ↦ rw new tt
    | inl old ↦ elim (Bool-cases (is_some (find_portfolio_fund x.portfolio_fund_id t))) [
      | inl known ↦
          rw (old, known)
            (
              All-linked t (with_transaction x t) (replace-Keeps x t) t.dividends h,
              replace-Keeps x t x.id old,
            )
      | inr unknown ↦ rw (old, unknown) tt
    ]
  ]

  pub insert_dividend-IsLinked :
      (d : Dividend F) (t : Tables F)
      → IsLinked t
      → IsLinkedRow t d
      → Answers
          (λ t'. IsLinked t' × (find_dividend d.id t' ≡ some (stored_dividend d)))
          (insert_dividend_row d t)
  unfolding insert_dividend_row
  insert_dividend-IsLinked d t h k = elim (Option-cases (find_dividend d.id t)) [
    | inr (y, old) ↦ rw old tt
    | inl new ↦ elim (Bool-cases (has_references d t)) [
      | inl known ↦
          rw (new, known)
            (
              All-append (IsLinkedRow (with_new_dividend d t)) t.dividends (stored_dividend d ∷ [])
                  h (k, tt),
              find_row-insert-new (λ (y : Dividend F). y.id) (stored_dividend d) t.dividends new,
            )
      | inr unknown ↦ rw (new, unknown) tt
    ]
  ]

  pub update_dividend-IsLinked :
      (d : Dividend F) (t : Tables F)
      → IsLinked t
      → IsLinkedRow t d
      → Answers
          (λ t'. IsLinked t' × (find_dividend d.id t' ≡ some (stored_dividend d)))
          (update_dividend_row d t)
  unfolding update_dividend_row
  update_dividend-IsLinked d t h k = elim (Option-cases (find_dividend d.id t)) [
    | inl new ↦ rw new tt
    | inr (y, old) ↦ elim (Bool-cases (has_references d t)) [
      | inl known ↦
          rw (old, known)
            (
              All-replace (λ (y : Dividend F). y.id) (IsLinkedRow (with_dividend d t))
                  (stored_dividend d) t.dividends k h,
              find_row-replace-one (λ (y : Dividend F). y.id) (stored_dividend d) t.dividends
                  ∙ ap (replaced (λ (y : Dividend F). y.id) (stored_dividend d)) old,
            )
      | inr unknown ↦ rw (old, unknown) tt
    ]
  ]

  pub delete_dividend-IsLinked :
      (i : Ident) (t : Tables F)
      → IsLinked t
      → Answers (λ t'. IsLinked t' × (find_dividend i t' ≡ none)) (delete_dividend_row i t)
  unfolding delete_dividend_row
  delete_dividend-IsLinked i t h = elim (Bool-cases (is_some (find_dividend i t))) [
    | inl known ↦ rw known (
      All-keep (IsLinkedRow (without_dividend i t)) (λ (x : Dividend F). not (x.id == i))
          t.dividends h,
      find_row-delete-all (λ (y : Dividend F). y.id) i t.dividends,
    )
    | inr unknown ↦ rw unknown tt
  ]

  -- The rows that do not name the transaction stay linked without it.
  All-without :
      (x : Ident) (t : Tables F) (ds : List (Dividend F))
      → is_some (find? (λ (d : Dividend F). d.reinvestment_transaction_id == x) ds) ≡ false
      → All (IsLinkedRow t) ds
      → All (IsLinkedRow (without_transaction x t)) ds
  All-without x t [] e h = tt
  All-without x t (d ∷ ds) e h = elim (Bool-cases (d.reinvestment_transaction_id == x)) [
    | inl named ↦ cc (rw named at e)
    | inr other ↦ (
      rw
          (find_row-delete-else (λ (y : Transaction F). y.id) d.reinvestment_transaction_id x
            t.transactions (other_way _ _ other))
          h.0,
      All-without x t ds (rw other at e) h.1,
    )
  ]

  pub delete_transaction-IsLinked :
      (x : Ident) (t : Tables F) → IsLinked t → Answers IsLinked (delete_transaction_row x t)
  unfolding delete_transaction_row
  delete_transaction-IsLinked x t h =
      elim (Bool-cases
        (is_some (find? (λ (d : Dividend F). d.reinvestment_transaction_id == x) t.dividends))) [
          | inl used ↦ rw used tt
          | inr free ↦ elim (Bool-cases (is_some (find_transaction x t))) [
            | inl known ↦ rw (free, known) (All-without x t t.dividends free h)
            | inr unknown ↦ rw (free, unknown) tt
          ]
        ]
