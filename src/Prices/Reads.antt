-- ===== src/Prices/Reads.antt =====
-- Reads that keep the tables and the clock.
use investment_portfolio_man.Base.{
  some, keep, ◌≡◌, refl, ◌⊎◌, inl, inr, Bool, true, false, List, [], ◌∷◌, ◌==◌, if◌then◌else◌, ◌∙◌,
  sym, subst, ap,
}
use investment_portfolio_man.Result.{
  Result, ok, err, fund_not_found, Error, invalid_fund_id, ok-injective,
}
use investment_portfolio_man.Model.{Ident, Time, PortfolioFund}
use investment_portfolio_man.Store.Tables.{Tables, Fund}
use investment_portfolio_man.Store.Effects.{find_fund, or_not_found}
use investment_portfolio_man.Store.Rows.{key-find_row}
use investment_portfolio_man.Store.Monad.{
  World, M, query, statement, statement_with, bind_result, ◌>>=◌,
}
use investment_portfolio_man.Store.Triples.{Commits, Ensures, Leaves, weaken_result}
use investment_portfolio_man.Store.Quiet.{IsRead, guard-IsRead, query-IsRead}
use investment_portfolio_man.Store.Reads.{or_not_found-eq-ok, read_rule}
use investment_portfolio_man.Store.Prices.{get_fund}
use investment_portfolio_man.Materialized.Loader.{zero_on_error, get_oldest_transaction, oldest_in}
use investment_portfolio_man.Materialized.Regenerate.{some_found, get_portfolio_funds_by_fund_id}

some_found-eq :
    (xs : List PortfolioFund) {ys : List PortfolioFund} → some_found xs ≡ ok ys → xs ≡ ys
some_found-eq [] e = cc
some_found-eq (x ∷ xs) e = ok-injective e

module _ {F : Type 0} where
  bind_clocked-Commits :
      {A B : Type 0} {R : A → Type 0} (before : Tables F) (n : Time) (Q : B → Tables F → Type 0)
      (k : A → M F B) (r : Result A × World F)
      → r.1.tables ≡ before
      → r.1.now ≡ n
      → Leaves (λ a t. R a) r
      → ((a : A) (w : World F) → w.tables ≡ before → w.now ≡ n → R a → Commits before Q (k a w))
      → Commits before Q (bind_result k r)
  bind_clocked-Commits before n Q k (ok a, w) e c l h = h a w e c l
  bind_clocked-Commits before n Q k (err x, w) e c l h = e

  -- A read, after which the clock has not moved.
  pub clocked-Commits :
      {A B : Type 0} {P : Tables F → Type 0} {R : A → Type 0} (before : Tables F)
      (Q : B → Tables F → Type 0) (m : M F A) (k : A → M F B) (w : World F)
      → IsRead m
      → ((v : World F) → (m v).1.now ≡ v.now)
      → Ensures P m (λ a t. R a)
      → P before
      → w.tables ≡ before
      → ((a : A) (w' : World F)
          → w'.tables ≡ before
          → w'.now ≡ w.now
          → R a
          → Commits before Q (k a w'))
      → Commits before Q ((m >>= k) w)
  clocked-Commits {P = P} {R = R} before Q m k w read timed rule p e h =
      bind_clocked-Commits {R = R} before w.now Q k (m w) (read w ∙ e) (timed w)
        (rule.leaves w (subst P (sym e) p)) h

  query_with-now :
      {A : Type 0} (f : Tables F → Result A) (faults : List Bool) (w : World F)
      → (bind_result (λ u w'. (f w'.tables, w')) (statement_with faults w)).1.now ≡ w.now
  query_with-now f [] w = refl
  query_with-now f (true ∷ faults) w = refl
  query_with-now f (false ∷ faults) w = refl

  pub get_fund-IsTimed : (i : Ident) (w : World F) → (get_fund i w).1.now ≡ w.now
  unfolding get_fund query statement
  get_fund-IsTimed i w = query_with-now _ w.faults w

  pub get_fund-IsRead : (i : Ident) → IsRead {F = F} (get_fund i)
  unfolding get_fund
  get_fund-IsRead i = query-IsRead _

  pub get_fund_row_rule :
      (before : Tables F) (i : Ident)
      → Ensures (λ t. t ≡ before) (get_fund i) (λ x t. find_fund i before ≡ some x)
  unfolding get_fund
  get_fund_row_rule before i =
      weaken_result (read_rule (λ t. or_not_found fund_not_found (find_fund i t)))
        (λ x t (same, h). subst (λ u. find_fund i u ≡ some x) same (or_not_found-eq-ok _ _ h))

  pub get_fund_rule :
      (before : Tables F) (i : Ident) → Ensures (λ t. t ≡ before) (get_fund i) (λ x t. x.id ≡ i)
  unfolding get_fund
  get_fund_rule before i =
      weaken_result (read_rule (λ t. or_not_found fund_not_found (find_fund i t)))
        (λ x t h. key-find_row (λ (y : Fund). y.id) i t.funds x (or_not_found-eq-ok _ _ h.1))

  pub query-IsTimed :
      {A : Type 0} (g : Tables F → Result A) (w : World F) → (query g w).1.now ≡ w.now
  unfolding query statement
  query-IsTimed g w = query_with-now g w.faults w

  pub guard-IsTimed :
      {A : Type 0} (b : Bool) (e : Error) (g : Tables F → Result A) (w : World F)
      → ((if b then (err e, w) else query g w).1.now ≡ w.now)
  guard-IsTimed true e g w = refl
  guard-IsTimed false e g w = query-IsTimed g w

  pub guarded-Leaves :
      {A : Type 0} (P : Tables F → Type 0) (Q : A → Tables F → Type 0) (b : Bool) (e : Error)
      (g : Tables F → Result A) (w : World F)
      → Ensures P (query g) Q
      → P w.tables
      → Leaves Q (if b then (err e, w) else query g w)
  guarded-Leaves P Q true e g w rule p = tt
  guarded-Leaves P Q false e g w rule p = rule.leaves w p

  abbrev pub holdings : Ident → Tables F → List PortfolioFund
  holdings k t = keep (λ (pf : PortfolioFund). pf.fund_id == k) t.portfolio_funds

  pub holdings_rule :
      (before : Tables F) (k : Ident)
      → Ensures
          (λ t. t ≡ before)
          (get_portfolio_funds_by_fund_id k)
          (λ pfs t. holdings k before ≡ pfs)
  unfolding get_portfolio_funds_by_fund_id
  holdings_rule before k = record {
    leaves = λ w e.
        guarded-Leaves (λ t. t ≡ before) _ (k == 0) invalid_fund_id (λ t. some_found (holdings k t))
          w
          (weaken_result (read_rule (λ t. some_found (holdings k t))) (λ pfs t (same, h).
            subst (λ u. holdings k u ≡ pfs) same (some_found-eq (holdings k t) h)))
          e;
  }

  pub holdings-IsRead : (k : Ident) → IsRead {F = F} (get_portfolio_funds_by_fund_id k)
  unfolding get_portfolio_funds_by_fund_id
  holdings-IsRead k = guard-IsRead (k == 0) invalid_fund_id _ (query-IsRead _)

  pub holdings-IsTimed :
      (k : Ident) (w : World F) → (get_portfolio_funds_by_fund_id k w).1.now ≡ w.now
  unfolding get_portfolio_funds_by_fund_id
  holdings-IsTimed k w = guard-IsTimed (k == 0) invalid_fund_id _ w

  zero_on_error-tables : (r : Result Time × World F) → (zero_on_error r).1.tables ≡ r.1.tables
  zero_on_error-tables (ok d, w) = refl
  zero_on_error-tables (err e, w) = refl

  zero_on_error-now : (r : Result Time × World F) → (zero_on_error r).1.now ≡ r.1.now
  zero_on_error-now (ok d, w) = refl
  zero_on_error-now (err e, w) = refl

  zero_on_error-Leaves :
      (date : Time) (r : Result Time × World F)
      → Leaves (λ o t. o ≡ date) r
      → Leaves (λ o t. (o ≡ 0) ⊎ (o ≡ date)) (zero_on_error r)
  zero_on_error-Leaves date (ok d, w) h = inr h
  zero_on_error-Leaves date (err e, w) h = inl refl

  pub oldest-IsRead : (ids : List Ident) → IsRead {F = F} (get_oldest_transaction ids)
  unfolding get_oldest_transaction
  oldest-IsRead ids w = zero_on_error-tables _ ∙ query-IsRead (λ t. ok (oldest_in ids t)) w

  pub oldest-IsTimed :
      (ids : List Ident) (w : World F) → (get_oldest_transaction ids w).1.now ≡ w.now
  unfolding get_oldest_transaction
  oldest-IsTimed ids w = zero_on_error-now _ ∙ query-IsTimed (λ t. ok (oldest_in ids t)) w

  pub oldest_rule :
      (before : Tables F) (ids : List Ident)
      → Ensures
          (λ t. t ≡ before)
          (get_oldest_transaction ids)
          (λ o t. (o ≡ 0) ⊎ (o ≡ oldest_in ids before))
  unfolding get_oldest_transaction
  oldest_rule before ids = record {
    leaves = λ w e.
        zero_on_error-Leaves (oldest_in ids before) (query (λ t. ok (oldest_in ids t)) w) (
          (weaken_result (read_rule (λ t. ok (oldest_in ids t)))
              (λ o t (same, h). sym (ok-injective h) ∙ ap (oldest_in ids) same)).leaves
            w e);
  }
