-- ===== src/Transactions.antt =====
-- `TransactionService`, internal/service/transaction_service.go: create, update and delete, with the
-- realized gain of a sale. A request's date is what `time.Parse` makes of its text.
pub mod Matched
pub mod Kept
pub mod Atomic
pub mod Sales
mod Tests
use investment_portfolio_man.Base.{
  ℕ, Bool, true, false, not, ◌||◌, List, [], ◌∷◌, Option, none, some, ltb, ◌==◌, if◌then◌else◌,
}
use investment_portfolio_man.Float64.{Float64, ◌+f◌, ◌-f◌, ◌*f◌, ◌/f◌, nought}
use investment_portfolio_man.Result.{
  Result, ok, err, parse_date, insufficient_shares, unsupported_type,
}
use investment_portfolio_man.Model.{
  Ident, Time, Transaction, TransactionType, buy, sell, dividend, fee, other_type, RealizedGainLoss,
  PortfolioFund,
}
use investment_portfolio_man.Metrics.{sell_cost}
use investment_portfolio_man.Store.Tables.{IbkrStatus}
use investment_portfolio_man.Store.Monad.{
  M, World, Job, pure, fail, ◌>>=◌, ◌>>◌, lift_result, transact, regenerate, new_uuid, get_now,
}
use investment_portfolio_man.Store.Effects.{or_not_found}
use investment_portfolio_man.Store.Repositories.{
  get_transaction_by_id, insert_transaction, update_transaction, delete_transaction,
  insert_realized_gain_loss, delete_realized_gain_loss_by_transaction_id,
  get_transactions_by_portfolio_fund_id, get_portfolio_fund, update_ibkr_transaction_status,
  get_ibkr_transaction_id_by_transaction_id, count_ibkr_allocations_by_ibkr_transaction_id,
}

pub record CreateTransactionRequest (F : Type 0) : Type 0 where
  pub portfolio_fund_id : Ident
  pub date : Option Time
  pub kind : TransactionType
  pub shares : F
  pub cost_per_share : F

-- A field that is `none` stays as it is.
pub record UpdateTransactionRequest (F : Type 0) : Type 0 where
  pub portfolio_fund_id : Option Ident
  pub date : Option (Option Time)
  pub kind : Option TransactionType
  pub shares : Option F
  pub cost_per_share : Option F

-- The variables of the loop in `calculateCurrentPosition`.
pub record Holding (F : Type 0) : Type 0 where
  pub shares : F
  pub cost : F

-- What an update has found and what it has written.
pub record Updated (F : Type 0) : Type 0 where
  pub old : Transaction F
  pub new : Transaction F

abbrev pub is_sell : TransactionType → Bool
is_sell sell = true
is_sell _ = false

abbrev pub given {ℓ} : {A : Type ℓ} → Option A → A → A
given none a = a
given (some b) a = b

-- A regeneration from a date on, for a portfolio-fund.
pub regen_job : Time → Ident → Job
regen_job date pf_id = record {
  start_date = date;
  portfolio_ids = [];
  fund_id = 0;
  portfolio_fund_id = pf_id;
}

module _ {F : Type 0} where
  -- A statement under `if`.
  abbrev pub when : Bool → M F (Unit {0}) → M F (Unit {0})
  when true m = m
  when false m = pure tt

  -- `time.Parse("2006-01-02", …)`.
  abbrev pub parsed : Option Time → M F Time
  parsed o = lift_result (or_not_found parse_date o)

  -- `if shares < transaction.Shares`.
  abbrev pub enough_shares : Bool → M F (Unit {0})
  enough_shares true = fail insufficient_shares
  enough_shares false = pure tt

  abbrev pub check_portfolio_fund : Option Ident → M F (Unit {0})
  check_portfolio_fund none = pure tt
  check_portfolio_fund (some pf_id) = get_portfolio_fund pf_id >>= λ pf. pure tt

  abbrev pub parsed_if_given : Option (Option Time) → Time → M F Time
  parsed_if_given none date = pure date
  parsed_if_given (some o) date = parsed o

module _ {F : Type 0} ⦃f : Float64 F⦄ where
  pub hold : TransactionType → F → F → Holding F → Result (Holding F)
  hold buy n each h = ok (record { shares = h.shares +f n; cost = h.cost +f n *f each })
  hold dividend n each h = ok (record { shares = h.shares +f n; cost = h.cost +f n *f each })
  hold sell n each h =
      ok (record { shares = h.shares -f n; cost = sell_cost h.cost (h.shares -f n) n })
  hold fee n each h = ok (record h { cost = h.cost +f each })
  hold other_type n each h = err unsupported_type

  abbrev pub after_step : (Holding F → Result (Holding F)) → Result (Holding F) → Result (Holding F)
  after_step k (ok h) = k h
  after_step k (err e) = err e

  pub position_loop : List (Transaction F) → Ident → Holding F → Result (Holding F)
  unfolding hold
  position_loop [] excluded h = ok h
  position_loop (t ∷ ts) excluded h =
      after_step (position_loop ts excluded)
        (if t.id == excluded then ok h else hold t.kind t.shares t.cost_per_share h)

  pub calculate_current_position : Ident → Ident → M F (Holding F)
  calculate_current_position pf_id excluded = do
    transactions ← get_transactions_by_portfolio_fund_id pf_id
    lift_result (position_loop transactions excluded (record { shares = nought; cost = nought }))

  -- The record of a sale out of a holding.
  pub realized_gain : Ident → PortfolioFund → Transaction F → Holding F → Time → RealizedGainLoss F
  realized_gain i pf t h now =
      let average = if f.lt nought h.shares then h.cost /f h.shares else nought in
      let cost_basis = average *f t.shares in
      let sale_proceeds = t.shares *f t.cost_per_share in
      record {
        id = i;
        portfolio_id = pf.portfolio_id;
        fund_id = pf.fund_id;
        transaction_id = t.id;
        transaction_date = t.date;
        shares_sold = t.shares;
        cost_basis = cost_basis;
        sale_proceeds = sale_proceeds;
        realized_gain_loss = sale_proceeds -f cost_basis;
        created_at = now;
      }

  unfoldable pub create_realized_gain_loss : Transaction F → M F (Unit {0})
  create_realized_gain_loss t = do
    h ← calculate_current_position t.portfolio_fund_id t.id
    enough_shares (f.lt h.shares t.shares)
    pf ← get_portfolio_fund t.portfolio_fund_id
    i ← new_uuid
    now ← get_now
    insert_realized_gain_loss (realized_gain i pf t h now)

  pub new_transaction : Ident → Time → Time → CreateTransactionRequest F → Transaction F
  new_transaction i date now req = record {
    id = i;
    portfolio_fund_id = req.portfolio_fund_id;
    date = date;
    kind = req.kind;
    shares = req.shares;
    cost_per_share = req.cost_per_share;
    created_at = now;
  }

  -- What `CreateTransaction` does between `BeginTx` and `Commit`.
  unfoldable pub create_body : CreateTransactionRequest F → M F (Transaction F)
  create_body req = do
    pf ← get_portfolio_fund req.portfolio_fund_id
    date ← parsed req.date
    i ← new_uuid
    now ← get_now
    insert_transaction (new_transaction i date now req)
    when (is_sell req.kind) (create_realized_gain_loss (new_transaction i date now req))
    pure (new_transaction i date now req)

  unfoldable pub create_transaction : CreateTransactionRequest F → M F (Transaction F)
  create_transaction req = do
    t ← transact (create_body req)
    regenerate (regen_job t.date req.portfolio_fund_id)
    pure t

  pub apply_transaction_updates : Transaction F → UpdateTransactionRequest F → M F (Transaction F)
  apply_transaction_updates t req = do
    check_portfolio_fund req.portfolio_fund_id
    date ← parsed_if_given req.date t.date
    pure (record t {
      portfolio_fund_id = given req.portfolio_fund_id t.portfolio_fund_id;
      date = date;
      kind = given req.kind t.kind;
      shares = given req.shares t.shares;
      cost_per_share = given req.cost_per_share t.cost_per_share;
    })

  unfoldable pub update_body : Ident → UpdateTransactionRequest F → M F (Updated F)
  update_body i req = do
    old ← get_transaction_by_id i
    new ← apply_transaction_updates old req
    when (is_sell old.kind) (delete_realized_gain_loss_by_transaction_id i)
    when (is_sell new.kind) (create_realized_gain_loss new)
    update_transaction new
    pure (record { old = old; new = new })

  -- From the earlier of the two dates, for the portfolio-fund that it was in as well.
  abbrev pub regenerate_updated : Updated F → M F (Transaction F)
  regenerate_updated both = do
    let date = if ltb both.old.date both.new.date then both.old.date else both.new.date
    regenerate (regen_job date both.new.portfolio_fund_id)
    when (not (both.old.portfolio_fund_id == both.new.portfolio_fund_id))
        (regenerate (regen_job date both.old.portfolio_fund_id))
    pure both.new

  unfoldable pub update_transaction_of : Ident → UpdateTransactionRequest F → M F (Transaction F)
  update_transaction_of i req = transact (update_body i req) >>= regenerate_updated

  abbrev pub revert_last : Ident → ℕ → M F (Unit {0})
  revert_last ibkr_id n =
      when (n == 1) (update_ibkr_transaction_status ibkr_id IbkrStatus.pending none)

  -- A linked IBKR transaction whose only allocation goes is pending again.
  unfoldable pub revert_ibkr : Ident → M F (Unit {0})
  revert_ibkr ibkr_id =
      when (not (ibkr_id == 0))
        (count_ibkr_allocations_by_ibkr_transaction_id ibkr_id >>= revert_last ibkr_id)

  unfoldable pub delete_body : Ident → M F (Transaction F)
  delete_body i = do
    t ← get_transaction_by_id i
    when (is_sell t.kind) (delete_realized_gain_loss_by_transaction_id i)
    ibkr_id ← get_ibkr_transaction_id_by_transaction_id i
    revert_ibkr ibkr_id
    delete_transaction i
    pure t

  abbrev pub regenerate_deleted : Transaction F → M F (Unit {0})
  regenerate_deleted t = regenerate (regen_job t.date t.portfolio_fund_id)

  unfoldable pub delete_transaction_of : Ident → M F (Unit {0})
  delete_transaction_of i = transact (delete_body i) >>= regenerate_deleted
