-- ===== src/Dividends/Methods.antt =====
-- Create, update and delete of `DividendService`. `sum` is the database's `SUM`.
use investment_portfolio_man.Base.{List, not, ◌||◌, ltb, ◌==◌, if◌then◌else◌}
use investment_portfolio_man.Float64.{Float64, ◌*f◌}
use investment_portfolio_man.Model.{Ident, Time, Dividend, no_status}
use investment_portfolio_man.Store.Monad.{
  M, pure, ◌>>=◌, ◌>>◌, transact, regenerate, new_uuid, get_now,
}
use investment_portfolio_man.Store.Repositories.{delete_transaction}
use investment_portfolio_man.Store.Dividends.{
  PortfolioFundListing, get_portfolio_fund_listing, get_shares_on_date, get_dividend,
  insert_dividend, update_dividend, delete_dividend,
}
use investment_portfolio_man.Transactions.{when, given, parsed, regen_job}
use investment_portfolio_man.Dividends.{
  CreateDividendRequest, UpdateDividendRequest, DividendFund, is_set, pays_dividends, unbought,
  with_reinvestment_status, dividend_to_fund, apply_update_fields, apply_reinvestment,
  apply_update_reinvestment,
}

module _ {F : Type 0} ⦃f : Float64 F⦄ where
  unfoldable pub create_dividend_body :
      PortfolioFundListing → Dividend F → CreateDividendRequest F → M F (Dividend F)
  create_dividend_body pf d req = do
    new ← apply_reinvestment pf d req.buy_order_date req
    insert_dividend new
    pure new

  unfoldable pub new_dividend :
      Ident
      → Time
      → PortfolioFundListing
      → (record_date ex_dividend_date : Time) → F
      → CreateDividendRequest F
      → Dividend F
  new_dividend i now pf record_date ex_dividend_date shares req = record {
    id = i;
    fund_id = pf.fund_id;
    portfolio_fund_id = req.portfolio_fund_id;
    record_date = record_date;
    ex_dividend_date = ex_dividend_date;
    shares_owned = shares;
    dividend_per_share = req.dividend_per_share;
    total_amount = shares *f req.dividend_per_share;
    reinvestment_status = no_status;
    buy_order_date = 0;
    reinvestment_transaction_id = 0;
    created_at = now;
  }

  unfoldable pub create_dividend : (List F → F) → CreateDividendRequest F → M F (DividendFund F)
  create_dividend sum req = do
    pf ← get_portfolio_fund_listing req.portfolio_fund_id
    pays_dividends pf.dividend_type
    record_date ← parsed req.record_date
    ex_dividend_date ← parsed req.ex_dividend_date
    shares ← get_shares_on_date sum req.portfolio_fund_id ex_dividend_date
    i ← new_uuid
    now ← get_now
    d ← transact (
        create_dividend_body pf (new_dividend i now pf record_date ex_dividend_date shares req) req)
    regenerate (regen_job d.ex_dividend_date req.portfolio_fund_id)
    pure (dividend_to_fund d pf)

  unfoldable pub update_dividend_body :
      PortfolioFundListing → Dividend F → UpdateDividendRequest F → M F (Dividend F)
  update_dividend_body pf d req = do
    new ←
        if is_set req.buy_order_date || not (d.buy_order_date == 0)
        then apply_update_reinvestment pf d req
        else pure (with_reinvestment_status (unbought pf.dividend_type) d)
    update_dividend new
    pure new

  abbrev pub recalculated : Dividend F → F → Time → Dividend F
  recalculated d shares now = record d {
    shares_owned = shares;
    total_amount = shares *f d.dividend_per_share;
    created_at = now;
  }

  unfoldable pub update_dividend_of :
      (List F → F) → Ident → UpdateDividendRequest F → M F (DividendFund F)
  update_dividend_of sum i req = do
    old ← get_dividend i
    let moved = record old { portfolio_fund_id = given req.portfolio_fund_id old.portfolio_fund_id }
    pf ← get_portfolio_fund_listing moved.portfolio_fund_id
    dated ← apply_update_fields moved req
    shares ← get_shares_on_date sum dated.portfolio_fund_id dated.ex_dividend_date
    now ← get_now
    new ← transact (update_dividend_body pf (recalculated dated shares now) req)
    let first =
        if ltb old.ex_dividend_date new.ex_dividend_date
        then old.ex_dividend_date
        else new.ex_dividend_date
    regenerate (regen_job first new.portfolio_fund_id)
    pure (dividend_to_fund new pf)

module _ {F : Type 0} where
  -- The dividend goes first, since it refers to the transaction.
  unfoldable pub delete_dividend_body : Dividend F → M F (Unit {0})
  delete_dividend_body d = do
    delete_dividend d.id
    when (not (d.reinvestment_transaction_id == 0))
        (delete_transaction d.reinvestment_transaction_id)

  unfoldable pub delete_dividend_of : Ident → M F (Unit {0})
  delete_dividend_of i = do
    d ← get_dividend i
    transact (delete_dividend_body d)
    regenerate (regen_job d.ex_dividend_date d.portfolio_fund_id)
