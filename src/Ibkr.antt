-- ===== src/Ibkr.antt =====
-- `IbkrService`, internal/service/ibkr_service.go: allocate an imported transaction to portfolios,
-- undo that, change it, ignore it and delete it.
pub mod Allocate
pub mod Match
pub mod Settled
pub mod Undone
pub mod Ready
pub mod Reverted
pub mod Kept
pub mod Allocated
pub mod Atomic
pub mod Bulk
pub mod Matched
mod Tests
use investment_portfolio_man.Base.{
  ℕ, ◌+◌, Bool, true, false, not, List, [], ◌∷◌, ◌++◌, Option, none, some, keep, find?, ◌==◌,
  if◌then◌else◌,
}
use investment_portfolio_man.Float64.{Float64, ◌*f◌, ◌/f◌, nought, round}
use investment_portfolio_man.Result.{
  Result, ok, err, Error, already_processed, invalid_allocations, fund_not_matched,
  portfolio_fund_not_found,
}
use investment_portfolio_man.Model.{Ident, Time, Transaction, TransactionType, fee, PortfolioFund}
use investment_portfolio_man.Store.Tables.{
  Tables, Fund, IbkrTransaction, IbkrAllocation, IbkrStatus, AllocationEntry, IbkrConfig,
}
use investment_portfolio_man.Store.Monad.{
  M, World, pure, fail, ◌>>=◌, ◌>>◌, lift_result, transact, push_job, new_uuid, get_now,
}
use investment_portfolio_man.Store.Effects.{or_not_found}
use investment_portfolio_man.Store.Repositories.{
  get_ibkr_transaction, get_ibkr_config, get_fund_by_symbol_or_isin,
  get_portfolio_fund_by_portfolio_and_fund, insert_portfolio_fund, insert_transaction,
  insert_ibkr_transaction_allocation, update_ibkr_transaction_status, delete_ibkr_transaction,
  get_transaction_ids_by_ibkr_transaction, delete_ibkr_transaction_allocations, delete_transaction,
  get_ibkr_transaction_allocations,
}

abbrev pub is_pending : IbkrStatus → Bool
is_pending IbkrStatus.pending = true
is_pending IbkrStatus.processed = false
is_pending IbkrStatus.ignored = false

abbrev pub is_processed : IbkrStatus → Bool
is_processed IbkrStatus.pending = false
is_processed IbkrStatus.processed = true
is_processed IbkrStatus.ignored = false

-- The texts of `Errors` are the identifier and the error.
pub record BulkAllocateResponse : Type 0 where
  pub success : ℕ
  pub failed : ℕ
  pub errors : List (Ident × Error)

-- The identifiers of a list, each once, less those seen.
unfoldable pub unique_from : (seen : List Ident) → List Ident → List Ident
unique_from seen [] = []
unique_from seen (p ∷ ps) =
    let rest = unique_from seen ps in
    let more = unique_from (p ∷ seen) ps in
    elim (find? (λ s. s == p) seen) [ none ↦ p ∷ more | some s ↦ rest ]

-- The old portfolios that are not among the new.
pub without : (seen : List Ident) → List Ident → List Ident
without seen = keep (λ p. elim (find? (λ s. s == p) seen) [ none ↦ true | some s ↦ false ])

module _ {F : Type 0} where
  -- `if ibkrTx.Status != …`.
  abbrev pub require : Bool → M F (Unit {0})
  require true = pure tt
  require false = fail already_processed

  abbrev pub found_fund : Option Fund → M F Fund → M F Fund
  found_fund none next = next
  found_fund (some x) next = if x.id == 0 then next else pure x

  unfoldable pub find_fund_by_isin_or_symbol : (isin symbol : Ident) → M F Fund
  find_fund_by_isin_or_symbol isin symbol = do
    by_isin ← get_fund_by_symbol_or_isin 0 isin
    found_fund by_isin (
        get_fund_by_symbol_or_isin symbol 0 >>= λ by_symbol.
        found_fund by_symbol (fail fund_not_matched))

  -- The default allocations of the configuration, if they are enabled.
  abbrev pub defaults : Option (IbkrConfig F) → List (AllocationEntry F)
  defaults none = []
  defaults (some c) = if c.default_allocation_enabled then c.default_allocations else []

  abbrev pub allocations_or_default : List (AllocationEntry F) → M F (List (AllocationEntry F))
  allocations_or_default [] = get_ibkr_config >>= λ c. pure (defaults c)
  allocations_or_default (a ∷ rest) = pure (a ∷ rest)

  abbrev pub require_some : List (AllocationEntry F) → M F (Unit {0})
  require_some [] = fail invalid_allocations
  require_some (a ∷ rest) = pure tt

  -- The portfolio-fund of an allocation, which is created if it is missing.
  abbrev pub or_created : Ident → Ident → Option PortfolioFund → M F PortfolioFund
  or_created portfolio_id fund_id (some pf) = pure pf
  or_created portfolio_id fund_id none = do
    insert_portfolio_fund portfolio_id fund_id
    pf ← get_portfolio_fund_by_portfolio_and_fund portfolio_id fund_id
    lift_result (or_not_found portfolio_fund_not_found pf)

  unfoldable pub delete_loop : List Ident → M F (Unit {0})
  delete_loop [] = pure tt
  delete_loop (x ∷ xs) = delete_transaction x >> delete_loop xs

  unfoldable pub unallocate_ibkr_transaction_tx : Ident → M F (Unit {0})
  unallocate_ibkr_transaction_tx i = do
    x ← get_ibkr_transaction i
    require (is_processed x.status)
    ids ← get_transaction_ids_by_ibkr_transaction i
    delete_ibkr_transaction_allocations i
    delete_loop ids
    update_ibkr_transaction_status i IbkrStatus.pending none

  -- Portfolios to regenerate; an error counts as none.
  abbrev pub unique_or_none : Result (List Ident) × World F → Result (List Ident) × World F
  unique_or_none (ok ps, w) = (ok (unique_from [] ps), w)
  unique_or_none (err e, w) = (ok [], w)

  unfoldable pub collect_portfolio_ids_from_allocations : Ident → M F (List Ident)
  collect_portfolio_ids_from_allocations i w = unique_or_none (get_ibkr_transaction_allocations i w)

  -- `if s.materializedInvalidator != nil && len(portfolioIDs) > 0`.
  unfoldable pub regenerate_portfolios : Time → List Ident → M F (Unit {0})
  regenerate_portfolios date [] w = (ok tt, w)
  regenerate_portfolios date (p ∷ ps) w =
      push_job w.has_invalidator
        (record { start_date = date; portfolio_ids = p ∷ ps; fund_id = 0; portfolio_fund_id = 0 }) w

  unfoldable pub trigger_regen_from_allocations : Ident → Time → M F (Unit {0})
  trigger_regen_from_allocations i date w =
      if w.has_invalidator
      then (collect_portfolio_ids_from_allocations i >>= regenerate_portfolios date) w
      else (ok tt, w)

  unfoldable pub unallocate_ibkr_transaction : Ident → M F (Unit {0})
  unallocate_ibkr_transaction i = do
    x ← get_ibkr_transaction i
    portfolio_ids ← collect_portfolio_ids_from_allocations i
    transact (unallocate_ibkr_transaction_tx i)
    regenerate_portfolios x.transaction_date portfolio_ids

  -- One statement, which SQLite runs in a transaction of its own.
  unfoldable pub delete_ibkr_transaction_of : Ident → M F (Unit {0})
  delete_ibkr_transaction_of i = do
    x ← get_ibkr_transaction i
    require (is_pending x.status)
    delete_ibkr_transaction i

  unfoldable pub ignore_body : Ident → M F (Unit {0})
  ignore_body i = do
    x ← get_ibkr_transaction i
    require (is_pending x.status)
    update_ibkr_transaction_status i IbkrStatus.ignored none

  unfoldable pub ignore_ibkr_transaction : Ident → M F (Unit {0})
  ignore_ibkr_transaction i = transact (ignore_body i)

  -- One transaction of a bulk request, with the counts of those before it.
  abbrev pub counted :
      Ident → BulkAllocateResponse → Result (Unit {0}) × World F → BulkAllocateResponse × World F
  counted i resp (ok u, w) = (record resp { success = resp.success + 1 }, w)
  counted i resp (err e, w) =
      (record resp { failed = resp.failed + 1; errors = resp.errors ++ ((i, e) ∷ []) }, w)
