-- ===== src/Funds/Statements.antt =====
-- The foreign keys after the statements that delete funds, portfolios and portfolio-funds.
use investment_portfolio_man.Base.{
  ◌≡◌, inl, inr, true, false, List, [], ◌∷◌, ◌==◌, arith, All, All-mono, Bool-cases,
}
use investment_portfolio_man.Model.{Ident, Dividend, RealizedGainLoss, PortfolioFund, FundPrice}
use investment_portfolio_man.Store.Tables.{Tables, Portfolio, Fund}
use investment_portfolio_man.Store.Rows.{find_row, delete_rows, find_row-delete}
use investment_portfolio_man.Store.Effects.{is_some, find_fund, find_portfolio, find_portfolio_fund}
use investment_portfolio_man.Store.Triples.{Answers}
use investment_portfolio_man.Store.Funds.{
  without_portfolio_funds, without_portfolio, without_fund, is_held, is_referenced,
  delete_portfolio_row, delete_portfolio_fund_row, delete_fund_row,
}
use investment_portfolio_man.Funds.Deleted.{
  All-kept, All-pair, find-none, IsReferential, without_portfolio_funds-IsReferential,
}

-- Another row is found after a deletion.
else_found :
    {A : Type 0} (key : A → Ident) (i j : Ident) (xs : List A)
    → is_some (find_row key i xs) ≡ true
    → (i == j) ≡ false
    → is_some (find_row key i (delete_rows key j xs)) ≡ true
else_found key i j xs h e = rw (find_row-delete key i j xs, e) h

-- What two facts on each row give.
both :
    {A : Type 0} (P Q R : A → Type 0) (xs : List A)
    → All P xs
    → All Q xs
    → ((x : A) → P x → Q x → R x)
    → All R xs
both P Q R xs p q f = All-mono (λ x. P x × Q x) R (λ x h. f x h.0 h.1) xs (All-pair P Q xs p q)

delete_rows-all_gone :
    {A : Type 0} (key : A → Ident) (i : Ident) (xs : List A)
    → All (λ x. (key x == i) ≡ false) (delete_rows key i xs)
delete_rows-all_gone key i [] = tt
delete_rows-all_gone key i (x ∷ xs) = elim (Bool-cases (key x == i)) [
  | inl e ↦ rw e (delete_rows-all_gone key i xs)
  | inr e ↦ rw e ((e, delete_rows-all_gone key i xs))
]

module _ {F : Type 0} where
  -- The portfolio goes last; nothing that stays belongs to it.
  without_portfolio-IsReferential :
      (i : Ident) (t : Tables F)
      → IsReferential t
      → All (λ (x : PortfolioFund). (x.portfolio_id == i) ≡ false) t.portfolio_funds
      → IsReferential (without_portfolio i t)
  without_portfolio-IsReferential i t r free = record {
    portfolio_funds =
        both _ _ _ t.portfolio_funds r.portfolio_funds free (λ x h e.
          (else_found (λ (p : Portfolio). p.id) x.portfolio_id i t.portfolios h.0 e, h.1));
    transactions = r.transactions;
    dividends = r.dividends;
    realized =
        All-kept _ _ _ t.realized
          (λ x h e. (
            h.0,
            else_found (λ (p : Portfolio). p.id) x.portfolio_id i t.portfolios h.1
                (ground (arith, e)),
            h.2,
          ))
          r.realized;
    allocations =
        All-kept _ _ _ t.ibkr_allocations
          (λ x h e. (
            h.0,
            else_found (λ (p : Portfolio). p.id) x.portfolio_id i t.portfolios h.1
                (ground (arith, e)),
            h.2,
          ))
          r.allocations;
    prices = r.prices;
    materialized = r.materialized;
  }

  without_fund-IsReferential :
      (i : Ident) (t : Tables F)
      → IsReferential t
      → All (λ (x : PortfolioFund). (x.fund_id == i) ≡ false) t.portfolio_funds
      → is_referenced i t ≡ false
      → IsReferential (without_fund i t)
  without_fund-IsReferential i t r free unreferenced = record {
    portfolio_funds =
        both _ _ _ t.portfolio_funds r.portfolio_funds free
          (λ x h e. (h.0, else_found (λ (f : Fund). f.id) x.fund_id i t.funds h.1 e));
    transactions = r.transactions;
    dividends =
        both _ _ _ t.dividends r.dividends
          ((find-none (λ (x : Dividend F). x.fund_id == i) t.dividends
            (ground (arith, unreferenced))))
          (λ x h e. (h.0, else_found (λ (f : Fund). f.id) x.fund_id i t.funds h.1 e, h.2));
    realized =
        both _ _ _ t.realized r.realized
          ((find-none (λ (x : RealizedGainLoss F). x.fund_id == i) t.realized
            (ground (arith, unreferenced))))
          (λ x h e. (h.0, h.1, else_found (λ (f : Fund). f.id) x.fund_id i t.funds h.2 e));
    allocations = r.allocations;
    prices =
        both _ _ _ t.fund_prices r.prices
          ((find-none (λ (x : FundPrice F). x.fund_id == i) t.fund_prices
            (ground (arith, unreferenced))))
          (λ x h e. else_found (λ (f : Fund). f.id) x.fund_id i t.funds h e);
    materialized = r.materialized;
  }

  -- The three statements.
  pub delete_portfolio_fund_row-IsReferential :
      (i : Ident) (t : Tables F)
      → IsReferential t
      → Answers IsReferential (delete_portfolio_fund_row i t)
  unfolding delete_portfolio_fund_row
  delete_portfolio_fund_row-IsReferential i t r =
      elim (Bool-cases (is_some (find_portfolio_fund i t))) [
        | inr absent ↦ rw absent tt
        | inl found ↦ rw found (elim (Bool-cases (is_held (λ x. x.id == i) t)) [
          | inl held ↦ rw held tt
          | inr free ↦ rw free (without_portfolio_funds-IsReferential (λ x. x.id == i) t free r)
        ])
      ]

  pub delete_portfolio_row-IsReferential :
      (i : Ident) (t : Tables F)
      → IsReferential t
      → Answers IsReferential (delete_portfolio_row i t)
  unfolding delete_portfolio_row
  delete_portfolio_row-IsReferential i t r = elim (Bool-cases (is_some (find_portfolio i t))) [
    | inr absent ↦ rw absent tt
    | inl found ↦ rw found (elim (Bool-cases (is_held (λ x. x.portfolio_id == i) t)) [
      | inl held ↦ rw held tt
      | inr free ↦ rw free (
          without_portfolio-IsReferential i (without_portfolio_funds (λ x. x.portfolio_id == i) t)
            (without_portfolio_funds-IsReferential (λ x. x.portfolio_id == i) t free r)
            (delete_rows-all_gone (λ (x : PortfolioFund). x.portfolio_id) i t.portfolio_funds))
    ])
  ]

  pub delete_fund_row-IsReferential :
      (i : Ident) (t : Tables F) → IsReferential t → Answers IsReferential (delete_fund_row i t)
  unfolding delete_fund_row
  delete_fund_row-IsReferential i t r = elim (Bool-cases (is_some (find_fund i t))) [
    | inr absent ↦ rw absent tt
    | inl found ↦ rw found (elim (Bool-cases (is_held (λ x. x.fund_id == i) t)) [
      | inl held ↦ rw held tt
      | inr free ↦
          rw free
            (elim (Bool-cases (is_referenced i (without_portfolio_funds (λ x. x.fund_id == i) t))) [
              | inl refers ↦ rw refers tt
              | inr unreferenced ↦ rw unreferenced (
                  without_fund-IsReferential i (without_portfolio_funds (λ x. x.fund_id == i) t)
                    (without_portfolio_funds-IsReferential (λ x. x.fund_id == i) t free r)
                    (delete_rows-all_gone (λ (x : PortfolioFund). x.fund_id) i t.portfolio_funds)
                    unreferenced)
            ])
    ])
  ]
