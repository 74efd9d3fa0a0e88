-- ===== src/Funds/Deleted.antt =====
-- The foreign keys after the deletion of a portfolio-fund and of what belongs to it.
use investment_portfolio_man.Base.{
  ◌≡◌, refl, inl, inr, Bool, true, false, not, ◌&&◌, ◌||◌, List, [], ◌∷◌, find?, keep, ◌==◌, arith,
  All, Bool-cases,
}
use investment_portfolio_man.Model.{
  Ident, Transaction, Dividend, RealizedGainLoss, PortfolioFund, FundPrice,
}
use investment_portfolio_man.Store.Tables.{Tables, IbkrAllocation, MaterializedRow}
use investment_portfolio_man.Store.Rows.{find_row}
use investment_portfolio_man.Store.Effects.{
  is_some, find_fund, find_ibkr, find_portfolio, find_portfolio_fund, find_transaction,
}
use investment_portfolio_man.Store.Funds.{goes, transaction_goes, without_portfolio_funds, is_held}

module _ {A : Type 0} where
  pub All-kept :
      (P Q : A → Type 0) (q : A → Bool) (xs : List A)
      → ((x : A) → P x → q x ≡ true → Q x)
      → All P xs
      → All Q (keep q xs)
  All-kept P Q q [] h p = tt
  All-kept P Q q (x ∷ xs) h p = elim (Bool-cases (q x)) [
    | inl e ↦ rw e ((h x p.0 e, All-kept P Q q xs h p.1))
    | inr e ↦ rw e (All-kept P Q q xs h p.1)
  ]

  pub All-pair : (P Q : A → Type 0) (xs : List A) → All P xs → All Q xs → All (λ x. P x × Q x) xs
  All-pair P Q [] p q = tt
  All-pair P Q (x ∷ xs) p q = ((p.0, q.0), All-pair P Q xs p.1 q.1)

  -- A row that does not go is still found.
  pub find-kept :
      (key : A → Ident) (gone : A → Bool) (i : Ident) (xs : List A)
      → is_some (find_row key i xs) ≡ true
      → is_some (find? (λ x. key x == i && gone x) xs) ≡ false
      → is_some (find_row key i (keep (λ x. not (gone x)) xs)) ≡ true
  find-kept key gone i [] h e = h
  find-kept key gone i (x ∷ xs) h e = ground (arith, h, e, find-kept key gone i xs)

  pub find-none :
      (p : A → Bool) (xs : List A) → is_some (find? p xs) ≡ false → All (λ x. p x ≡ false) xs
  find-none p [] e = tt
  find-none p (x ∷ xs) e = ground (arith, e, find-none p xs)

module _ {F : Type 0} where
  -- A link that may be empty.
  abbrev pub links : Ident → Tables F → Bool
  links i t = i == 0 || is_some (find_transaction i t)

  -- Each row refers to rows that there are.
  pub record IsReferential (t : Tables F) : Type 0 where
    pub portfolio_funds :
        All
          (λ (x : PortfolioFund).
            (is_some (find_portfolio x.portfolio_id t) ≡ true)
            × (is_some (find_fund x.fund_id t) ≡ true))
          t.portfolio_funds
    pub transactions :
        All
          (λ (x : Transaction F). is_some (find_portfolio_fund x.portfolio_fund_id t) ≡ true)
          t.transactions
    pub dividends :
        All
          (λ (x : Dividend F).
            (is_some (find_portfolio_fund x.portfolio_fund_id t) ≡ true)
            × (is_some (find_fund x.fund_id t) ≡ true)
            × (links x.reinvestment_transaction_id t ≡ true))
          t.dividends
    pub realized :
        All
          (λ (x : RealizedGainLoss F).
            (is_some (find_transaction x.transaction_id t) ≡ true)
            × (is_some (find_portfolio x.portfolio_id t) ≡ true)
            × (is_some (find_fund x.fund_id t) ≡ true))
          t.realized
    pub allocations :
        All
          (λ (x : IbkrAllocation F).
            (is_some (find_ibkr x.ibkr_transaction_id t) ≡ true)
            × (is_some (find_portfolio x.portfolio_id t) ≡ true)
            × (links x.transaction_id t ≡ true))
          t.ibkr_allocations
    pub prices : All (λ (x : FundPrice F). is_some (find_fund x.fund_id t) ≡ true) t.fund_prices
    pub materialized :
        All
          (λ (x : MaterializedRow F).
            is_some (find_portfolio_fund x.entry.portfolio_fund_id t) ≡ true)
          t.materialized

  module _ (gone : PortfolioFund → Bool) (t : Tables F) where
    found_portfolio_fund :
        (i : Ident)
        → is_some (find_portfolio_fund i t) ≡ true
        → not (goes gone t i) ≡ true
        → is_some (find_portfolio_fund i (without_portfolio_funds gone t)) ≡ true
    found_portfolio_fund i h e =
        find-kept (λ (x : PortfolioFund). x.id) gone i t.portfolio_funds h (ground (arith, e))

    found_transaction :
        (i : Ident)
        → is_some (find_transaction i t) ≡ true
        → transaction_goes gone t i ≡ false
        → is_some (find_transaction i (without_portfolio_funds gone t)) ≡ true
    found_transaction i h e =
        find-kept (λ (x : Transaction F). x.id)
          (λ (x : Transaction F). goes gone t x.portfolio_fund_id) i t.transactions h e

    found_link :
        (i : Ident)
        → links i t ≡ true
        → transaction_goes gone t i ≡ false
        → links i (without_portfolio_funds gone t) ≡ true
    found_link i h e = elim (Bool-cases (i == 0)) [
      | inl z ↦ rw z refl
      | inr z ↦ rw z (found_transaction i (rw z at h) e)
    ]

    pub without_portfolio_funds-IsReferential :
        is_held gone t ≡ false → IsReferential t → IsReferential (without_portfolio_funds gone t)
    without_portfolio_funds-IsReferential free r = record {
      portfolio_funds = All-kept _ _ _ t.portfolio_funds (λ x h e. h) r.portfolio_funds;
      transactions =
          All-kept _ _ _ t.transactions (λ x h e. found_portfolio_fund x.portfolio_fund_id h e)
            r.transactions;
      dividends =
          All-kept _ _ _ t.dividends
            (λ x h e. (
              found_portfolio_fund x.portfolio_fund_id h.0.0 e,
              h.0.1,
              found_link x.reinvestment_transaction_id h.0.2 (ground (arith, e, h.1)),
            ))
            (All-pair _ _ t.dividends r.dividends (find-none _ t.dividends free));
      realized =
          All-kept _ _ _ t.realized
            (λ x h e. (found_transaction x.transaction_id h.0 (ground (arith, e)), h.1, h.2))
            r.realized;
      allocations =
          All-kept _ _ _ t.ibkr_allocations
            (λ x h e. (h.0, h.1, found_link x.transaction_id h.2 (ground (arith, e))))
            r.allocations;
      prices = r.prices;
      materialized =
          All-kept _ _ _ t.materialized
            (λ x h e. found_portfolio_fund x.entry.portfolio_fund_id h e) r.materialized;
    }
