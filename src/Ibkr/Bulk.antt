-- ===== src/Ibkr/Bulk.antt =====
-- `BulkAllocateIbkrTransactions`: one database transaction for each, of which some may fail.
use investment_portfolio_man.Base.{
  ℕ, ◌+◌, ◌≡◌, refl, List, [], ◌∷◌, ◌++◌, length, length-append, arith, sym, ◌∙◌, subst,
}
use investment_portfolio_man.Float64.{Float64}
use investment_portfolio_man.Model.{Ident}
use mathlib.Core.List.{append-nil, append_assoc}
use investment_portfolio_man.Result.{Error, Result, ok, err}
use investment_portfolio_man.Store.Tables.{Tables, AllocationEntry}
use investment_portfolio_man.Store.Monad.{World}
use investment_portfolio_man.Store.Triples.{Commits}
use investment_portfolio_man.Ibkr.{BulkAllocateResponse, counted}
use investment_portfolio_man.Ibkr.Allocate.{
  bulk_loop, bulk_allocate_ibkr_transactions, allocate_ibkr_transaction,
}
use investment_portfolio_man.Ibkr.Settled.{IsSettled}
use investment_portfolio_man.Ibkr.Atomic.{allocate_ibkr_transaction-Commits}

module _ {F : Type 0} where
  -- So many are counted, there is an error for each that failed, and the tables are settled.
  abbrev Counts : ℕ → BulkAllocateResponse × World F → Type 0
  Counts n (resp, w) =
      (resp.success + resp.failed ≡ n) × (length resp.errors ≡ resp.failed) × IsSettled w.tables

  counted-Counts :
      (n : ℕ) (i : Ident) (resp : BulkAllocateResponse) (before : Tables F)
      (r : Result (Unit {0}) × World F)
      → resp.success + resp.failed ≡ n
      → length resp.errors ≡ resp.failed
      → IsSettled before
      → Commits before (λ u. IsSettled) r
      → Counts (n + 1) (counted i resp r)
  counted-Counts n i resp before (ok u, w) e k h q = (omega arith, k, q)
  counted-Counts n i resp before (err x, w) e k h q =
      (omega arith, rw (length-append resp.errors, k) refl, subst IsSettled (sym q) h)

module _ {F : Type 0} ⦃f : Float64 F⦄ where
  bulk_loop-Counts :
      (n : ℕ) (ids : List Ident) (allocations : List (AllocationEntry F))
      (s : BulkAllocateResponse × World F)
      → Counts n s
      → Counts (n + length ids) (bulk_loop ids allocations s)
  unfolding bulk_loop
  bulk_loop-Counts n [] allocations (resp, w) (e, k, h) = (omega arith, k, h)
  bulk_loop-Counts n (i ∷ ids) allocations (resp, w) (e, k, h) =
      let next = counted i resp (allocate_ibkr_transaction i allocations w) in
      let one =
        counted-Counts n i resp w.tables _ e k h
          (allocate_ibkr_transaction-Commits i allocations w h) in
      subst (λ m. Counts m (bulk_loop ids allocations next)) (omega arith)
        (bulk_loop-Counts (n + 1) ids allocations next one)

  -- What each transaction of the request comes to on its own, one after the other.
  unfoldable pub outcomes :
      List Ident → List (AllocationEntry F) → World F → List (Ident × Result (Unit {0}))
  outcomes [] allocations w = []
  outcomes (i ∷ ids) allocations w =
      let r = allocate_ibkr_transaction i allocations w in (i, r.0) ∷ outcomes ids allocations r.1

abbrev pub successes : List (Ident × Result (Unit {0})) → ℕ
successes [] = 0
successes ((i, ok u) ∷ os) = successes os + 1
successes ((i, err e) ∷ os) = successes os

abbrev pub failures : List (Ident × Result (Unit {0})) → List (Ident × Error)
failures [] = []
failures ((i, ok u) ∷ os) = failures os
failures ((i, err e) ∷ os) = (i, e) ∷ failures os

-- The counts and the errors after some outcomes, from those before them.
abbrev Adds :
    BulkAllocateResponse → List (Ident × Result (Unit {0})) → BulkAllocateResponse → Type 0
Adds resp os out =
    (out.success ≡ resp.success + successes os)
    × (out.failed ≡ resp.failed + length (failures os))
    × (out.errors ≡ resp.errors ++ failures os)

module _ {F : Type 0} where
  counted-Adds :
      (i : Ident) (resp out : BulkAllocateResponse)
      (rest : World F → List (Ident × Result (Unit {0}))) (r : Result (Unit {0}) × World F)
      → Adds (counted i resp r).0 (rest (counted i resp r).1) out
      → Adds resp ((i, r.0) ∷ rest r.1) out
  counted-Adds i resp out rest (ok u, w) (a, b, c) = (omega arith, b, c)
  counted-Adds i resp out rest (err e, w) (a, b, c) =
      (a, omega arith, c ∙ append_assoc resp.errors ((i, e) ∷ []) (failures (rest w)))

module _ {F : Type 0} ⦃f : Float64 F⦄ where
  bulk_loop-Adds :
      (ids : List Ident) (allocations : List (AllocationEntry F))
      (s : BulkAllocateResponse × World F)
      → Adds s.0 (outcomes ids allocations s.1) (bulk_loop ids allocations s).0
  unfolding bulk_loop outcomes
  bulk_loop-Adds [] allocations (resp, w) = (omega arith, omega arith, sym (append-nil resp.errors))
  bulk_loop-Adds (i ∷ ids) allocations (resp, w) =
      let r = allocate_ibkr_transaction i allocations w in
      counted-Adds i resp _ (outcomes ids allocations) r
        (bulk_loop-Adds ids allocations (counted i resp r))

  -- What a bulk allocation answers, from what each of its transactions comes to.
  abbrev pub IsReport :
      List Ident → List (AllocationEntry F) → World F → BulkAllocateResponse × World F → Type 0
  IsReport ids allocations before (resp, w) =
      (resp.success + resp.failed ≡ length ids)
      × (resp.success ≡ successes (outcomes ids allocations before))
      × (resp.failed ≡ length (failures (outcomes ids allocations before)))
      × (resp.errors ≡ failures (outcomes ids allocations before))
      × IsSettled w.tables

  -- If each IBKR transaction is processed exactly when it has allocations, and allocations have
  -- transactions that exist and differ, then whichever statements fail, a bulk allocation counts
  -- as successes those of its transactions whose allocation, made one after the other on the
  -- tables that the one before leaves, succeeds, and as failures the others, lists each of those
  -- with the error of its allocation, in order, and leaves tables where this holds again.
  pub bulk_allocate_ibkr_transactions-IsReport :
      (ids : List Ident) (allocations : List (AllocationEntry F)) (w : World F)
      → IsSettled w.tables
      → IsReport ids allocations w (bulk_allocate_ibkr_transactions ids allocations w)
  unfolding bulk_allocate_ibkr_transactions
  bulk_allocate_ibkr_transactions-IsReport ids allocations w h =
      let start : BulkAllocateResponse × World F =
        (record { success = 0; failed = 0; errors = [] }, w) in
      let counts = bulk_loop-Counts 0 ids allocations start (refl, refl, h) in
      let adds = bulk_loop-Adds ids allocations start in
      (omega (arith, counts.0), omega (arith, adds.0), omega (arith, adds.1), adds.2, counts.2)
