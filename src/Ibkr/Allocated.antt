-- ===== src/Ibkr/Allocated.antt =====
-- The bodies of the methods that allocate, and whether IBKR transactions are settled.
use investment_portfolio_man.Base.{
  ℕ, ◌≤◌, ◌≡◌, refl, true, false, Bool, List, [], ◌∷◌, some, arith, ltb, ◌≢◌, subst,
}
use investment_portfolio_man.Float64.{Float64, nought}
use investment_portfolio_man.Model.{Ident, Time, PortfolioFund}
use investment_portfolio_man.Store.Tables.{Fund, IbkrStatus, IbkrTransaction, AllocationEntry}
use investment_portfolio_man.Store.Triples.{
  Ensures, bind_rule, pure_rule, weaken, exec_rule, new_uuid_rule, get_now_rule, with_fact,
}
use investment_portfolio_man.Store.Repositories.{
  get_portfolio_fund_by_portfolio_and_fund, insert_transaction, insert_ibkr_transaction_allocation,
  update_ibkr_transaction_status,
}
use investment_portfolio_man.Store.Reads.{keep_rule}
use investment_portfolio_man.Ibkr.{is_pending}
use investment_portfolio_man.Ibkr.Allocate.{
  allocated_transaction, fee_transaction, allocation_of, allocate_trade, allocate_fee, allocate_one,
  allocate_loop, allocate_ibkr_transaction_tx, allocate_body, modify_body, share_of,
}
use investment_portfolio_man.Ibkr.Settled.{
  IsSettled, IsOpen, IsFree, insert_transaction-IsFree, insert_allocation-IsOpen,
  update_status-IsSettled,
}
use investment_portfolio_man.Ibkr.Kept.{
  get_ibkr_transaction_rule, require_rule, find_fund_rule, allocations_rule, require_some_rule,
  or_created_rule, unallocate_rule,
}

module _ {F : Type 0} ⦃f : Float64 F⦄ where
  allocate_trade_rule :
      (m : ℕ) (x : IbkrTransaction F) (pf : PortfolioFund) (now : Time) (a : AllocationEntry F)
      → Ensures (IsOpen x.id m) (allocate_trade x pf now a) (λ u. IsOpen x.id 1)
  unfolding allocate_trade insert_transaction insert_ibkr_transaction_allocation
      allocated_transaction allocation_of
  allocate_trade_rule m x pf now a = bind_rule (new_uuid_rule (IsOpen x.id m)) (λ i.
      bind_rule
        (exec_rule _ (insert_transaction-IsFree x.id m (allocated_transaction i pf x a now)))
        (λ u. bind_rule (new_uuid_rule (IsFree x.id m i)) (λ j. exec_rule _ (
          insert_allocation-IsOpen m
            (allocation_of j x a (share_of a x.total_amount) (share_of a x.quantity) i now)))))

  allocate_fee_rule :
      (b : Bool) (x : IbkrTransaction F) (pf : PortfolioFund) (now : Time) (a : AllocationEntry F)
      → Ensures (IsOpen x.id 1) (allocate_fee b x pf now a) (λ u. IsOpen x.id 1)
  unfolding allocate_fee insert_transaction insert_ibkr_transaction_allocation fee_transaction
      allocation_of
  allocate_fee_rule false x pf now a = pure_rule tt (λ t p. p)
  allocate_fee_rule true x pf now a = bind_rule (new_uuid_rule (IsOpen x.id 1)) (λ i.
      bind_rule (exec_rule _ (insert_transaction-IsFree x.id 1 (fee_transaction i pf x a now)))
        (λ u. bind_rule (new_uuid_rule (IsFree x.id 1 i)) (λ j.
          exec_rule _
            (insert_allocation-IsOpen 1 (allocation_of j x a (share_of a x.fees) nought i now)))))

  allocate_one_rule :
      (m : ℕ) (x : IbkrTransaction F) (fund : Fund) (now : Time) (a : AllocationEntry F)
      → Ensures (IsOpen x.id m) (allocate_one x fund now a) (λ u. IsOpen x.id 1)
  unfolding allocate_one get_portfolio_fund_by_portfolio_and_fund
  allocate_one_rule m x fund now a = bind_rule (keep_rule (IsOpen x.id m) _) (λ known.
      bind_rule (or_created_rule x.id m a.portfolio_id fund.id known)
        (λ pf. bind_rule (allocate_trade_rule m x pf now a) (λ u. allocate_fee_rule _ x pf now a)))

  allocate_loop_rule :
      (x : IbkrTransaction F) (fund : Fund) (now : Time) (allocations : List (AllocationEntry F))
      → Ensures (IsOpen x.id 1) (allocate_loop x fund now allocations) (λ u. IsOpen x.id 1)
  unfolding allocate_loop
  allocate_loop_rule x fund now [] = pure_rule tt (λ t p. p)
  allocate_loop_rule x fund now (a ∷ rest) =
      bind_rule (allocate_one_rule 1 x fund now a) (λ u. allocate_loop_rule x fund now rest)

  -- The first allocation of a list that is not empty is enough.
  allocate_all_rule :
      (x : IbkrTransaction F) (fund : Fund) (now : Time) (allocations : List (AllocationEntry F))
      → allocations ≢ []
      → Ensures (IsOpen x.id 0) (allocate_loop x fund now allocations) (λ u. IsOpen x.id 1)
  unfolding allocate_loop
  allocate_all_rule x fund now [] some_ = absurd (some_ refl)
  allocate_all_rule x fund now (a ∷ rest) some_ =
      bind_rule (allocate_one_rule 0 x fund now a) (λ u. allocate_loop_rule x fund now rest)

  pub allocate_rule :
      (i : Ident) (requested : List (AllocationEntry F))
      → Ensures IsSettled (allocate_ibkr_transaction_tx i requested) (λ u. IsSettled)
  unfolding allocate_ibkr_transaction_tx update_ibkr_transaction_status
  allocate_rule i requested = bind_rule (get_ibkr_transaction_rule i) (λ x. with_fact (λ same.
      bind_rule (weaken (λ t p. p.0) (require_rule IsSettled (is_pending x.status))) (λ u.
        bind_rule (weaken (λ t p. p.0) (allocations_rule IsSettled requested)) (λ allocations.
          bind_rule (require_some_rule IsSettled allocations) (λ v. with_fact (λ some_.
            bind_rule (find_fund_rule IsSettled x.isin x.symbol) (λ fund.
              bind_rule (get_now_rule IsSettled) (λ now.
                bind_rule
                  (weaken (λ t p. ((λ j e. p.0 j), p.1, omega arith))
                    (allocate_all_rule x fund now allocations some_))
                  (λ w. exec_rule _ (λ t p.
                    let q = subst (λ j. IsOpen j 1 t) same p in
                    update_status-IsSettled i IbkrStatus.processed (some now) t
                      (q.0, q.1, at_least_one q.2)))))))))))
    where
      at_least_one : {n : ℕ} → 1 ≤ n → ltb 0 n ≡ true
      at_least_one h = ground arith

  pub allocate_body_rule :
      (i : Ident) (requested : List (AllocationEntry F))
      → Ensures IsSettled (allocate_body i requested) (λ x. IsSettled)
  unfolding allocate_body
  allocate_body_rule i requested = bind_rule (get_ibkr_transaction_rule i) (λ x.
      bind_rule (weaken (λ t p. p.0.0) (allocate_rule i requested)) (λ u. pure_rule x (λ t p. p)))

  pub modify_rule :
      (i : Ident) (requested : List (AllocationEntry F))
      → Ensures IsSettled (modify_body i requested) (λ u. IsSettled)
  unfolding modify_body
  modify_rule i requested = bind_rule (unallocate_rule i) (λ u. allocate_rule i requested)
