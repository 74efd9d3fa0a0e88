-- ===== src/Store/Reads.antt =====
-- Queries change no table: what holds before holds after, and the answer is that of the tables.
use investment_portfolio_man.Base.{
  ◌≡◌, refl, Bool, true, false, Option, none, some, ◌==◌, if◌then◌else◌,
}
use investment_portfolio_man.Model.{Ident}
use investment_portfolio_man.Result.{Result, ok, err, Error, invalid_portfolio_id}
use investment_portfolio_man.Store.Tables.{Tables}
use investment_portfolio_man.Store.Monad.{World, query, lift_result}
use investment_portfolio_man.Store.Triples.{Answers, Leaves, Ensures, query_rule, lift_rule}
use investment_portfolio_man.Store.Effects.{or_not_found}
use investment_portfolio_man.Store.Repositories.{
  get_transactions_by_portfolio_fund_id, get_portfolio_fund,
}

Answers-itself : {A : Type 0} (P : Type 0) (r : Result A) → P → Answers (λ a. P × (r ≡ ok a)) r
Answers-itself P (ok a) p = (p, refl)
Answers-itself P (err e) p = tt

Answers-same : {A : Type 0} (P : Type 0) (r : Result A) → P → Answers (λ a. P) r
Answers-same P (ok a) p = p
Answers-same P (err e) p = tt

pub or_not_found-eq-ok {ℓ} :
    {A : Type ℓ} (e : Error) (o : Option A) {a : A} → or_not_found e o ≡ ok a → o ≡ some a
or_not_found-eq-ok e none h = cc
or_not_found-eq-ok e (some b) h = cc

module _ {F : Type 0} where
  pub read_rule :
      {A : Type 0} {P : Tables F → Type 0} (f : Tables F → Result A)
      → Ensures P (query f) (λ a t. P t × (f t ≡ ok a))
  read_rule {P = P} f = query_rule f (λ t p. Answers-itself (P t) (f t) p)

  -- A step outside the database.
  pub lift_read_rule :
      {A : Type 0} {P : Tables F → Type 0} (r : Result A)
      → Ensures P (lift_result r) (λ a t. P t × (r ≡ ok a))
  lift_read_rule {P = P} r = lift_rule r (λ t p. Answers-itself (P t) r p)

  pub keep_rule :
      {A : Type 0} (P : Tables F → Type 0) (f : Tables F → Result A) → Ensures P (query f) (λ a. P)
  keep_rule P f = query_rule f (λ t p. Answers-same (P t) (f t) p)

  pub guarded_keep :
      {A : Type 0} (P : Tables F → Type 0) (b : Bool) (e : Error) (f : Tables F → Result A)
      (w : World F)
      → P w.tables
      → Leaves (λ a. P) (if b then (err e, w) else query f w)
  guarded_keep P true e f w p = tt
  guarded_keep P false e f w p = (keep_rule P f).leaves w p

  pub get_portfolio_fund_rule :
      (P : Tables F → Type 0) (i : Ident) → Ensures P (get_portfolio_fund i) (λ pf. P)
  unfolding get_portfolio_fund
  get_portfolio_fund_rule P i = record {
    leaves = λ w p. guarded_keep P (i == 0) invalid_portfolio_id _ w p;
  }

  pub get_transactions_rule :
      (P : Tables F → Type 0) (i : Ident)
      → Ensures P (get_transactions_by_portfolio_fund_id i) (λ ts. P)
  unfolding get_transactions_by_portfolio_fund_id
  get_transactions_rule P i = record {
    leaves = λ w p. guarded_keep P (i == 0) invalid_portfolio_id _ w p;
  }
