-- ===== src/Ibkr/Allocate.antt =====
-- `IbkrService`, internal/service/ibkr_service.go: the methods that allocate. Each portfolio gets a
-- share of the transaction, and of its fees in a transaction of their own.
use investment_portfolio_man.Base.{Bool, true, false, List, [], ◌∷◌, ◌++◌, some}
use investment_portfolio_man.Float64.{Float64, ◌*f◌, ◌/f◌, nought, round}
use investment_portfolio_man.Model.{Ident, Time, Transaction, fee, PortfolioFund}
use investment_portfolio_man.Store.Tables.{
  Fund, IbkrTransaction, IbkrAllocation, IbkrStatus, AllocationEntry,
}
use investment_portfolio_man.Store.Monad.{M, World, pure, ◌>>=◌, ◌>>◌, transact, new_uuid, get_now}
use investment_portfolio_man.Store.Repositories.{
  get_ibkr_transaction, get_portfolio_fund_by_portfolio_and_fund, insert_transaction,
  insert_ibkr_transaction_allocation, update_ibkr_transaction_status,
}
use investment_portfolio_man.Ibkr.{
  is_pending, BulkAllocateResponse, without, require, find_fund_by_isin_or_symbol,
  allocations_or_default, require_some, or_created, unallocate_ibkr_transaction_tx,
  collect_portfolio_ids_from_allocations, regenerate_portfolios, trigger_regen_from_allocations,
  counted,
}

module _ {F : Type 0} ⦃f : Float64 F⦄ where
  -- A share of an amount: `round(amount * (percentage / 100.0))`.
  unfoldable pub share_of : AllocationEntry F → F → F
  share_of a amount = round (amount *f (a.percentage /f f.num 100))

  unfoldable pub allocated_transaction :
      Ident → PortfolioFund → IbkrTransaction F → AllocationEntry F → Time → Transaction F
  allocated_transaction i pf x a now = record {
    id = i;
    portfolio_fund_id = pf.id;
    date = x.transaction_date;
    kind = x.transaction_type;
    shares = share_of a x.quantity;
    cost_per_share = x.price;
    created_at = now;
  }

  unfoldable pub fee_transaction :
      Ident → PortfolioFund → IbkrTransaction F → AllocationEntry F → Time → Transaction F
  fee_transaction i pf x a now = record {
    id = i;
    portfolio_fund_id = pf.id;
    date = x.transaction_date;
    kind = fee;
    shares = nought;
    cost_per_share = share_of a x.fees;
    created_at = now;
  }

  unfoldable pub allocation_of :
      Ident
      → IbkrTransaction F
      → AllocationEntry F
      → (amount shares : F) → (transaction_id : Ident) → Time
      → IbkrAllocation F
  allocation_of i x a amount shares transaction_id now = record {
    id = i;
    ibkr_transaction_id = x.id;
    portfolio_id = a.portfolio_id;
    allocation_percentage = a.percentage;
    allocated_amount = amount;
    allocated_shares = shares;
    transaction_id = transaction_id;
    created_at = now;
  }

  unfoldable pub allocate_trade :
      IbkrTransaction F → PortfolioFund → Time → AllocationEntry F → M F (Unit {0})
  allocate_trade x pf now a = do
    i ← new_uuid
    insert_transaction (allocated_transaction i pf x a now)
    j ← new_uuid
    insert_ibkr_transaction_allocation
        (allocation_of j x a (share_of a x.total_amount) (share_of a x.quantity) i now)

  -- `if allocatedFees > 0`.
  unfoldable pub allocate_fee :
      Bool → IbkrTransaction F → PortfolioFund → Time → AllocationEntry F → M F (Unit {0})
  allocate_fee false x pf now a = pure tt
  allocate_fee true x pf now a = do
    i ← new_uuid
    insert_transaction (fee_transaction i pf x a now)
    j ← new_uuid
    insert_ibkr_transaction_allocation (allocation_of j x a (share_of a x.fees) nought i now)

  unfoldable pub allocate_one : IbkrTransaction F → Fund → Time → AllocationEntry F → M F (Unit {0})
  allocate_one x fund now a = do
    known ← get_portfolio_fund_by_portfolio_and_fund a.portfolio_id fund.id
    pf ← or_created a.portfolio_id fund.id known
    allocate_trade x pf now a
    allocate_fee (f.lt nought (share_of a x.fees)) x pf now a

  unfoldable pub allocate_loop :
      IbkrTransaction F → Fund → Time → List (AllocationEntry F) → M F (Unit {0})
  allocate_loop x fund now [] = pure tt
  allocate_loop x fund now (a ∷ rest) = allocate_one x fund now a >> allocate_loop x fund now rest

  unfoldable pub allocate_ibkr_transaction_tx : Ident → List (AllocationEntry F) → M F (Unit {0})
  allocate_ibkr_transaction_tx i requested = do
    x ← get_ibkr_transaction i
    require (is_pending x.status)
    allocations ← allocations_or_default requested
    require_some allocations
    fund ← find_fund_by_isin_or_symbol x.isin x.symbol
    now ← get_now
    allocate_loop x fund now allocations
    update_ibkr_transaction_status i IbkrStatus.processed (some now)

  unfoldable pub allocate_body : Ident → List (AllocationEntry F) → M F (IbkrTransaction F)
  allocate_body i allocations = do
    x ← get_ibkr_transaction i
    allocate_ibkr_transaction_tx i allocations
    pure x

  unfoldable pub allocate_ibkr_transaction : Ident → List (AllocationEntry F) → M F (Unit {0})
  allocate_ibkr_transaction i allocations = do
    x ← transact (allocate_body i allocations)
    trigger_regen_from_allocations i x.transaction_date

  unfoldable pub modify_body : Ident → List (AllocationEntry F) → M F (Unit {0})
  modify_body i allocations = do
    unallocate_ibkr_transaction_tx i
    allocate_ibkr_transaction_tx i allocations

  unfoldable pub modify_allocations : Ident → List (AllocationEntry F) → M F (Unit {0})
  modify_allocations i allocations = do
    x ← get_ibkr_transaction i
    old ← collect_portfolio_ids_from_allocations i
    transact (modify_body i allocations)
    new ← collect_portfolio_ids_from_allocations i
    regenerate_portfolios x.transaction_date (new ++ without new old)

  unfoldable pub bulk_loop :
      List Ident
      → List (AllocationEntry F)
      → BulkAllocateResponse × World F
      → BulkAllocateResponse × World F
  bulk_loop [] allocations (resp, w) = (resp, w)
  bulk_loop (i ∷ ids) allocations (resp, w) =
      bulk_loop ids allocations (counted i resp (allocate_ibkr_transaction i allocations w))

  unfoldable pub bulk_allocate_ibkr_transactions :
      List Ident → List (AllocationEntry F) → World F → BulkAllocateResponse × World F
  bulk_allocate_ibkr_transactions ids allocations w =
      bulk_loop ids allocations (record { success = 0; failed = 0; errors = [] }, w)
