-- ===== src/Funds.antt =====
-- Funds, portfolios and portfolio-funds: internal/service/fund_service.go, less the prices, and
-- internal/service/portfolio_service.go.
pub mod Deleted
pub mod Statements
pub mod Referential
mod Tests
use investment_portfolio_man.Base.{Bool, true, false, List, [], ◌∷◌, Option, ◌==◌, if◌then◌else◌}
use investment_portfolio_man.Result.{ok, portfolio_fund_not_found, fund_in_use, invalid_fund_id}
use investment_portfolio_man.Model.{Ident, PortfolioFund}
use investment_portfolio_man.Store.Tables.{Fund, Portfolio, DividendType}
use investment_portfolio_man.Store.Monad.{M, pure, fail, query, ◌>>=◌, ◌>>◌, transact, new_uuid}
use investment_portfolio_man.Store.Repositories.{get_portfolio_fund, insert_portfolio_fund}
use investment_portfolio_man.Store.Prices.{get_fund}
use investment_portfolio_man.Store.Funds.{
  PortfolioFilter, PortfolioTransaction, usage_of, held_by, get_portfolios, insert_fund,
  update_fund, delete_fund, insert_portfolio, update_portfolio, delete_portfolio,
  delete_portfolio_fund,
}
use investment_portfolio_man.Materialized.Loader.{get_portfolio_on_id}
use investment_portfolio_man.Transactions.{given}

-- The fields of `request.CreateFundRequest` and `UpdateFundRequest` that the fund keeps.
pub record CreateFundRequest : Type 0 where
  pub isin : Ident
  pub symbol : Ident
  pub symbol_root : Ident
  pub name : Ident
  pub dividend_type : DividendType

pub record UpdateFundRequest : Type 0 where
  pub isin : Option Ident
  pub symbol : Option Ident
  pub symbol_root : Option Ident
  pub name : Option Ident
  pub dividend_type : Option DividendType

pub record UpdatePortfolioRequest : Type 0 where
  pub is_archived : Option Bool
  pub exclude_from_overview : Option Bool

pub record FundUsage : Type 0 where
  pub in_usage : Bool
  pub portfolios : List PortfolioTransaction

abbrev pub usage_from : List PortfolioTransaction → FundUsage
usage_from [] = record { in_usage = false; portfolios = [] }
usage_from (x ∷ xs) = record { in_usage = true; portfolios = x ∷ xs }

abbrev pub apply_fund_updates : Fund → UpdateFundRequest → Fund
apply_fund_updates x req = record x {
  isin = given req.isin x.isin;
  symbol = given req.symbol x.symbol;
  symbol_root = given req.symbol_root x.symbol_root;
  name = given req.name x.name;
  dividend_type = given req.dividend_type x.dividend_type;
}

abbrev pub apply_portfolio_updates : Portfolio → UpdatePortfolioRequest → Portfolio
apply_portfolio_updates p req = record p {
  is_archived = given req.is_archived p.is_archived;
  exclude_from_overview = given req.exclude_from_overview p.exclude_from_overview;
}

module _ {F : Type 0} where
  -- `CheckUsage` of the repository: one query for the portfolio-funds, another for the portfolios.
  abbrev pub usage_if_held : Ident → List PortfolioFund → M F (List PortfolioTransaction)
  usage_if_held fund_id [] = pure []
  usage_if_held fund_id (pf ∷ pfs) = query (λ t. ok (usage_of fund_id t))

  unfoldable pub get_usage : Ident → M F (List PortfolioTransaction)
  get_usage fund_id w =
      if fund_id == 0
      then fail invalid_fund_id w
      else (query (λ t. ok (held_by fund_id t)) >>= usage_if_held fund_id) w

  unfoldable pub check_usage : Ident → M F FundUsage
  check_usage fund_id = get_usage fund_id >>= λ xs. pure (usage_from xs)

  unfoldable pub create_portfolio_fund : (portfolio_id fund_id : Ident) → M F (Unit {0})
  create_portfolio_fund portfolio_id fund_id = transact (
      get_portfolio_on_id portfolio_id >>= λ p.
      get_fund fund_id >>= λ x. insert_portfolio_fund portfolio_id fund_id)

  unfoldable pub delete_portfolio_fund_of : Ident → M F (Unit {0})
  delete_portfolio_fund_of i = transact (get_portfolio_fund i >>= λ pf. delete_portfolio_fund i)

  unfoldable pub create_fund : CreateFundRequest → M F Fund
  create_fund req = new_uuid >>= λ i.
      let x : Fund = record {
        id = i;
        isin = req.isin;
        symbol = req.symbol;
        symbol_root = req.symbol_root;
        name = req.name;
        dividend_type = req.dividend_type;
      } in
      insert_fund x >> pure x

  unfoldable pub update_fund_of : Ident → UpdateFundRequest → M F Fund
  update_fund_of i req = transact (
      get_fund i >>= λ x. update_fund (apply_fund_updates x req) >> pure (apply_fund_updates x req))

  abbrev pub unless_used : M F (Unit {0}) → List PortfolioTransaction → M F (Unit {0})
  unless_used m [] = m
  unless_used m (x ∷ xs) = fail fund_in_use

  unfoldable pub delete_fund_body : Ident → M F (Unit {0})
  delete_fund_body i = get_fund i >>= λ x. get_usage i >>= unless_used (delete_fund i)

  unfoldable pub delete_fund_of : Ident → M F (Unit {0})
  delete_fund_of i = transact (delete_fund_body i)

  unfoldable pub get_portfolios_for_request : Ident → M F (List Portfolio)
  get_portfolios_for_request i =
      if i == 0
      then get_portfolios (record { include_archived = false; include_excluded = false })
      else (get_portfolio_on_id i >>= λ p. pure (p ∷ []))

  unfoldable pub get_all_portfolios : M F (List Portfolio)
  get_all_portfolios = get_portfolios (record { include_archived = true; include_excluded = true })

  unfoldable pub create_portfolio : (exclude_from_overview : Bool) → M F Portfolio
  create_portfolio exclude = new_uuid >>= λ i.
      let p : Portfolio = record { id = i; is_archived = false; exclude_from_overview = exclude } in
      insert_portfolio p >> pure p

  unfoldable pub update_portfolio_of : Ident → UpdatePortfolioRequest → M F Portfolio
  update_portfolio_of i req = transact (
      get_portfolio_on_id i >>= λ p.
      update_portfolio (apply_portfolio_updates p req) >> pure (apply_portfolio_updates p req))

  unfoldable pub delete_portfolio_of : Ident → M F (Unit {0})
  delete_portfolio_of i = transact (get_portfolio_on_id i >>= λ p. delete_portfolio i)
