-- ===== src/Dividends/Refused.antt =====
-- Two dividends that one transaction reinvests, as `MatchDividend` of `IbkrService` leaves them.
use investment_portfolio_man.Base.{◌≡◌, refl, true, false, some, [], find?, ◌==◌}
use investment_portfolio_man.Model.{Dividend}
use investment_portfolio_man.Result.{err, constraint}
use investment_portfolio_man.Store.Monad.{World, statement, query, exec, transact}
use investment_portfolio_man.Store.Rows.{delete_rows}
use investment_portfolio_man.Store.Effects.{is_some, find_dividend, delete_transaction_row}
use investment_portfolio_man.Store.Repositories.{delete_transaction}
use investment_portfolio_man.Store.Dividends.{get_dividend, delete_dividend, delete_dividend_row}
use investment_portfolio_man.Dividends.Methods.{delete_dividend_of, delete_dividend_body}

module _ {F : Type 0} where
  -- When no statement fails, DeleteDividend of a dividend with valid dates whose reinvestment
  -- transaction another dividend names as well returns an error of the database and changes
  -- nothing.
  pub delete_dividend_of-refused :
      (d : Dividend F) (w : World F)
      → w.faults ≡ []
      → find_dividend d.id w.tables ≡ some d
      → (d.record_date == 0) ≡ false
      → (d.ex_dividend_date == 0) ≡ false
      → (d.reinvestment_transaction_id == 0) ≡ false
      → is_some (
          find?
            (λ (e : Dividend F). e.reinvestment_transaction_id == d.reinvestment_transaction_id)
            (delete_rows (λ (e : Dividend F). e.id) d.id w.tables.dividends))
        ≡ true
      → delete_dividend_of d.id w ≡ (err constraint, w)
  unfolding delete_dividend_of delete_dividend_body get_dividend delete_dividend delete_dividend_row
      delete_transaction delete_transaction_row statement query exec transact
  delete_dividend_of-refused d w healthy known dated dated' linked shared =
      rw (healthy, known, dated, dated', known, linked, shared) refl
