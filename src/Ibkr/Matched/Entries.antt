-- ===== src/Ibkr/Matched/Entries.antt =====
-- The allocations of an IBKR transaction, and the dividends that were reinvested by it.
use investment_portfolio_man.Base.{
  ◌≡◌, ◌≢◌, refl, sym, ◌∙◌, ap, Bool, true, false, ◌&&◌, List, [], ◌∷◌, some, arith, ◌==◌, ==_iff,
  ==_refl, find?, keep, All, Bool-cases, Option-cases, inl, inr, subst,
}
use investment_portfolio_man.Result.{Result, ok, err, no_allocation, ok-injective}
use investment_portfolio_man.Model.{
  Ident, Map, Transaction, TransactionType, fee, Dividend, PortfolioFund, completed,
}
use investment_portfolio_man.History.{insert}
use investment_portfolio_man.Store.Tables.{Tables, IbkrAllocation}
use investment_portfolio_man.Store.Effects.{
  is_some, find_dividend, find_transaction, find_portfolio_fund, or_not_found,
}
use investment_portfolio_man.Ibkr.Match.{
  AllocationDetail, is_fee, details_of, first_detail, detail_of, portfolio_to_tx_id, allocated_to,
}

not_fee : {k : TransactionType} → is_fee k ≡ false → k ≢ fee
not_fee h e = cc (rw e at h)

same_transaction : (a b : Ident) (joined : Bool) → (a == b && joined) ≡ true → a ≡ b
same_transaction a b joined h = ground (arith, h)

insert-All :
    (P : Ident × Ident → Type 0) (key value : Ident) (m : Map Ident)
    → P (key, value)
    → All P m
    → All P (insert key value m)
insert-All P key value [] p h = (p, tt)
insert-All P key value ((present, old) ∷ others) p h = elim (Bool-cases (present == key)) [
  | inl same ↦
      rw same (subst (λ (k : Ident). P (k, value)) (sym ((==_iff present key).0 same)) p, h.1)
  | inr other ↦ rw other (h.0, insert-All P key value others p h.1)
]

module _ {F : Type 0} where
  -- Some allocation of the IBKR transaction to the portfolio has the transaction.
  abbrev pub IsAllocated : Ident → (portfolio_id tx_id : Ident) → List (IbkrAllocation F) → Type 0
  IsAllocated i portfolio_id tx_id allocations =
      is_some (
        find?
          (λ (a : IbkrAllocation F).
            a.ibkr_transaction_id == i
            && a.portfolio_id == portfolio_id
            && a.transaction_id == tx_id)
          allocations)
      ≡ true

  -- Such a transaction is there and is no fee.
  abbrev pub IsEntry : Tables F → Ident → Ident × Ident → Type 0
  IsEntry base i (portfolio_id, tx_id) =
      IsAllocated i portfolio_id tx_id base.ibkr_allocations
      × ((tx_id == 0) ≡ false)
      × ((x : Transaction F) × (find_transaction tx_id base ≡ some x) × (x.kind ≢ fee))

  -- A dividend that is completely reinvested, by the transaction that the IBKR transaction has for
  -- its portfolio.
  abbrev pub IsReinvestment : Tables F → Ident → Dividend F → Type 0
  IsReinvestment base i d =
      (pf : PortfolioFund) × (d.reinvestment_status ≡ completed)
      × (find_portfolio_fund d.portfolio_fund_id base ≡ some pf)
      × IsEntry base i (pf.portfolio_id, d.reinvestment_transaction_id)

  abbrev pub IsReinvested : Tables F → Ident → Tables F → Ident → Type 0
  IsReinvested base i t j =
      (d : Dividend F) × (find_dividend j t ≡ some d) × IsReinvestment base i d

  abbrev IsDetail : Tables F → Ident → List (IbkrAllocation F) → AllocationDetail → Type 0
  IsDetail base i allocations a =
      IsAllocated i a.portfolio_id a.transaction_id allocations
      × ((x : Transaction F) × (find_transaction a.transaction_id base ≡ some x)
          × (x.kind ≡ a.kind))

  IsDetail-more :
      (base : Tables F) (i : Ident) (a : IbkrAllocation F) (xs : List (IbkrAllocation F))
      (ds : List AllocationDetail)
      → All (IsDetail base i xs) ds
      → All (IsDetail base i (a ∷ xs)) ds
  IsDetail-more base i a xs [] h = tt
  IsDetail-more base i a xs (d ∷ ds) h =
      ((ground (arith, h.0.0), h.0.1), IsDetail-more base i a xs ds h.1)

  first-IsDetail :
      (base : Tables F) (i : Ident) (a : IbkrAllocation F) (xs : List (IbkrAllocation F))
      (rest : Result (List AllocationDetail)) {ds : List AllocationDetail}
      → a.ibkr_transaction_id ≡ i
      → ((es : List AllocationDetail) → rest ≡ ok es → All (IsDetail base i xs) es)
      → first_detail (detail_of a (find_transaction a.transaction_id base)) rest ≡ ok ds
      → All (IsDetail base i (a ∷ xs)) ds
  first-IsDetail base i a xs rest own all h =
      elim (Option-cases (find_transaction a.transaction_id base)) [
        | inl none_ ↦ cc (rw none_ at h)
        | inr (x, found) ↦ listed x found rest all (rw found at h)
      ]
    where
      listed :
          (x : Transaction F)
          → find_transaction a.transaction_id base ≡ some x
          → (r : Result (List AllocationDetail)) {ds : List AllocationDetail}
          → ((es : List AllocationDetail) → r ≡ ok es → All (IsDetail base i xs) es)
          → first_detail (detail_of a (some x)) r ≡ ok ds
          → All (IsDetail base i (a ∷ xs)) ds
      listed x found (err e) all h = cc
      listed x found (ok es) all h = subst (All (IsDetail base i (a ∷ xs))) (ok-injective h) (
        (
          rw (own, ==_refl i, ==_refl a.portfolio_id, ==_refl a.transaction_id) refl,
          (x, found, refl),
        ),
        IsDetail-more base i a xs es (all es refl),
      )

  pub details_of-IsDetail :
      (base : Tables F) (i : Ident) (joined : IbkrAllocation F → Bool)
      (xs : List (IbkrAllocation F)) {ds : List AllocationDetail}
      → details_of base (keep (λ (a : IbkrAllocation F). a.ibkr_transaction_id == i && joined a) xs)
        ≡ ok ds
      → All (IsDetail base i xs) ds
  details_of-IsDetail base i joined [] h = subst (All (IsDetail base i [])) (ok-injective h) tt
  details_of-IsDetail base i joined (a ∷ xs) h =
      elim (Bool-cases (a.ibkr_transaction_id == i && joined a)) [
        | inl own ↦
            first-IsDetail base i a xs _ (same_transaction a.ibkr_transaction_id i (joined a) own)
              (λ es. details_of-IsDetail base i joined xs) (rw own at h)
        | inr other ↦
            IsDetail-more base i a xs _ (details_of-IsDetail base i joined xs (rw other at h))
      ]

  pub portfolio_to_tx_id-IsEntry :
      (base : Tables F) (i : Ident) (ds : List AllocationDetail) (by : Map Ident)
      → All (IsDetail base i base.ibkr_allocations) ds
      → All (IsEntry base i) by
      → All (IsEntry base i) (portfolio_to_tx_id ds by)
  portfolio_to_tx_id-IsEntry base i [] by h entries = entries
  portfolio_to_tx_id-IsEntry base i (d ∷ ds) by h entries = elim (Bool-cases (is_fee d.kind)) [
    | inl f ↦ rw f (portfolio_to_tx_id-IsEntry base i ds by h.1 entries)
    | inr no_fee ↦ elim (Bool-cases (d.transaction_id == 0)) [
      | inl zero_ ↦ rw (no_fee, zero_) (portfolio_to_tx_id-IsEntry base i ds by h.1 entries)
      | inr named ↦
          rw (no_fee, named)
            (portfolio_to_tx_id-IsEntry base i ds _ h.1 (
              insert-All (IsEntry base i) d.portfolio_id d.transaction_id by
                (h.0.0, named, (h.0.1.0, h.0.1.1, not_fee (ap is_fee h.0.1.2 ∙ no_fee))) entries))
    ]
  ]

  pub allocated_to-IsEntry :
      (base : Tables F) (i portfolio_id : Ident) (by : Map Ident) {tx_id : Ident}
      → All (IsEntry base i) by
      → or_not_found no_allocation (allocated_to portfolio_id by) ≡ ok tx_id
      → IsEntry base i (portfolio_id, tx_id)
  allocated_to-IsEntry base i portfolio_id [] h e = cc
  allocated_to-IsEntry base i portfolio_id ((present, tx) ∷ others) {tx_id = found} h e =
      elim (Bool-cases (present == portfolio_id)) [
        | inl same ↦
            subst (λ (p : Ident). IsEntry base i (p, found)) ((==_iff present portfolio_id).0 same)
              (subst (λ (v : Ident). IsEntry base i (present, v)) (ok-injective (rw same at e)) h.0)
        | inr other ↦ allocated_to-IsEntry base i portfolio_id others h.1 (rw other at e)
      ]
