-- ===== src/Transactions/Sales.antt =====
-- What `createRealizedGainLoss` and `CreateTransaction` do when no statement fails.
use investment_portfolio_man.Base.{
  ◌+◌, ◌≤◌, ◌≡◌, refl, true, false, List, [], ◌∷◌, ◌++◌, keep, Option, none, some, ◌==◌,
  Option-cases, inl, inr,
}
use investment_portfolio_man.Float64.{Float64, nought, ◌+f◌, ◌-f◌, ◌*f◌, ◌/f◌}
use investment_portfolio_man.Model.{
  Ident, Transaction, TransactionType, buy, sell, dividend, fee, other_type, RealizedGainLoss,
  PortfolioFund, midnight, Time,
}
use investment_portfolio_man.Result.{
  Result, ok, err, portfolio_fund_not_found, parse_date, constraint,
}
use investment_portfolio_man.Store.Tables.{Tables}
use investment_portfolio_man.Store.Monad.{
  World, statement, query, exec, new_uuid, get_now, transact, regenerate,
}
use investment_portfolio_man.Store.Effects.{
  find_transaction, find_portfolio_fund, whole_second, insert_transaction_row,
}
use investment_portfolio_man.Store.Repositories.{get_portfolio_fund, insert_transaction}
use investment_portfolio_man.Transactions.{
  CreateTransactionRequest, create_transaction, create_body, new_transaction, is_sell, regen_job,
}

not_sell : (k : TransactionType) → ¬ (k ≡ sell) → is_sell k ≡ false
not_sell buy n = refl
not_sell sell n = absurd (n refl)
not_sell dividend n = refl
not_sell fee n = refl
not_sell other_type n = refl

module _ {F : Type 0} ⦃f : Float64 F⦄ where
  -- The shares and the cost of a portfolio-fund after its transactions, one of them left out, from
  -- those before. A sale leaves the average cost of a share as it is.
  pub data Leaves (excluded : Ident) : List (Transaction F) → F → F → F → F → Type 0 where
    finished : {n c : F} → Leaves excluded [] n c n c
    left_out :
        {x : Transaction F} {xs : List (Transaction F)} {n c m d : F}
        → (x.id == excluded) ≡ true
        → Leaves excluded xs n c m d
        → Leaves excluded (x ∷ xs) n c m d
    buys :
        {x : Transaction F} {xs : List (Transaction F)} {n c m d : F}
        → (x.id == excluded) ≡ false
        → x.kind ≡ buy
        → Leaves excluded xs (n +f x.shares) (c +f x.shares *f x.cost_per_share) m d
        → Leaves excluded (x ∷ xs) n c m d
    reinvests :
        {x : Transaction F} {xs : List (Transaction F)} {n c m d : F}
        → (x.id == excluded) ≡ false
        → x.kind ≡ dividend
        → Leaves excluded xs (n +f x.shares) (c +f x.shares *f x.cost_per_share) m d
        → Leaves excluded (x ∷ xs) n c m d
    sells_part :
        {x : Transaction F} {xs : List (Transaction F)} {n c m d : F}
        → (x.id == excluded) ≡ false
        → x.kind ≡ sell
        → f.lt nought (n -f x.shares) ≡ true
        → Leaves excluded xs
            (n -f x.shares)
            (c /f ((n -f x.shares) +f x.shares) *f (n -f x.shares))
            m
            d
        → Leaves excluded (x ∷ xs) n c m d
    sells_all :
        {x : Transaction F} {xs : List (Transaction F)} {n c m d : F}
        → (x.id == excluded) ≡ false
        → x.kind ≡ sell
        → f.lt nought (n -f x.shares) ≡ false
        → Leaves excluded xs (n -f x.shares) nought m d
        → Leaves excluded (x ∷ xs) n c m d
    charges :
        {x : Transaction F} {xs : List (Transaction F)} {n c m d : F}
        → (x.id == excluded) ≡ false
        → x.kind ≡ fee
        → Leaves excluded xs n (c +f x.cost_per_share) m d
        → Leaves excluded (x ∷ xs) n c m d

  -- Dates that do not fall.
  abbrev pub AreInOrder : Time → List (Transaction F) → Type 0
  AreInOrder from [] = Unit
  AreInOrder from (x ∷ xs) = (from ≤ x.date) × AreInOrder x.date xs

  -- The shares and the cost that the transactions of a portfolio-fund, which stand in the order of
  -- their dates, come to, one of them left out.
  abbrev pub Holds : Ident → Ident → (shares cost : F) → Tables F → Type 0
  Holds pf_id excluded shares cost t =
      let own = keep (λ (x : Transaction F). x.portfolio_fund_id == pf_id) t.transactions in
      AreInOrder 0 own × Leaves excluded own nought nought shares cost

  -- A world whose next statements all succeed.
  abbrev pub IsHealthy : World F → Type 0
  IsHealthy w = w.faults ≡ []

  -- The row of a sale: its proceeds, the average cost of the shares sold, and the difference.
  abbrev pub gain_row :
      Ident → Ident → Ident → Transaction F → (average : F) → Time → RealizedGainLoss F
  gain_row i portfolio_id fund_id x average now = record {
    id = i;
    portfolio_id = portfolio_id;
    fund_id = fund_id;
    transaction_id = x.id;
    transaction_date = midnight x.date;
    shares_sold = x.shares;
    cost_basis = average *f x.shares;
    sale_proceeds = x.shares *f x.cost_per_share;
    realized_gain_loss = x.shares *f x.cost_per_share -f average *f x.shares;
    created_at = whole_second now;
  }

  -- What a request that is no sale comes to, from the portfolio-fund, the date and the transaction
  -- of the same identifier that are found.
  abbrev pub created :
      CreateTransactionRequest F
      → World F
      → Option PortfolioFund
      → Option Time
      → Option (Transaction F)
      → Result (Transaction F) × World F
  created req w none date taken = (err portfolio_fund_not_found, w)
  created req w (some pf) none taken = (err parse_date, w)
  created req w (some pf) (some date) (some y) = (err constraint, record w { drawn = w.drawn + 1 })
  created req w (some pf) (some date) none =
      let x : Transaction F = record {
        id = w.uuid w.drawn;
        portfolio_fund_id = req.portfolio_fund_id;
        date = date;
        kind = req.kind;
        shares = req.shares;
        cost_per_share = req.cost_per_share;
        created_at = w.now;
      } in
      (
        ok x,
        record w {
          tables = record w.tables {
            transactions =
                w.tables.transactions
                ++ (record x { date = midnight date; created_at = whole_second w.now } ∷ []);
          };
          drawn = w.drawn + 1;
          jobs =
              record {
                start_date = date;
                portfolio_ids = [];
                fund_id = 0;
                portfolio_fund_id = req.portfolio_fund_id;
              }
              ∷ w.jobs;
        },
      )

  -- When no statement fails, a portfolio-fund is named and regenerations are wanted,
  -- CreateTransaction of any transaction but a sale changes no table and returns an error if the
  -- portfolio-fund is not there, the date is none or the identifier that is drawn is in use, in
  -- this order, and otherwise returns the transaction with what was asked for, adds its row and
  -- nothing else, and asks for one regeneration of its portfolio-fund from its date on.
  pub create_transaction-created :
      (req : CreateTransactionRequest F) (w : World F)
      → IsHealthy w
      → w.has_invalidator ≡ true
      → (req.portfolio_fund_id == 0) ≡ false
      → ¬ (req.kind ≡ sell)
      → create_transaction req w
        ≡ created req w
            (find_portfolio_fund req.portfolio_fund_id w.tables)
            req.date
            (find_transaction (w.uuid w.drawn) w.tables)
  unfolding create_transaction create_body transact regenerate get_portfolio_fund insert_transaction
      insert_transaction_row new_transaction regen_job statement query exec new_uuid get_now
  create_transaction-created req w healthy active named other =
      let other_ = not_sell req.kind other in
      elim (Option-cases (find_portfolio_fund req.portfolio_fund_id w.tables)) [
        | inl known ↦ rw (healthy, named, known) refl
        | inr (pf, known) ↦ elim (Option-cases req.date) [
          | inl dated ↦ rw (healthy, named, known, dated) refl
          | inr (date, dated) ↦ elim (Option-cases (find_transaction (w.uuid w.drawn) w.tables)) [
            | inl new ↦ rw (healthy, named, known, dated, known, new, other_, active) refl
            | inr (y, new) ↦ rw (healthy, named, known, dated, known, new) refl
          ]
        ]
      ]
