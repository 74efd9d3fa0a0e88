-- ===== src/Store/Monad.antt =====
-- Statements, their sequence, and `BeginTx` with the deferred `Rollback`.
use investment_portfolio_man.Base.{ℕ, ◌+◌, Bool, true, false, List, [], ◌∷◌}
use investment_portfolio_man.Model.{Ident, Time}
use investment_portfolio_man.Result.{Result, ok, err, Error, database}
use investment_portfolio_man.Store.Tables.{Tables}

-- A call of `RegenerateMaterializedTable` that a goroutine makes: the start date, and the portfolios
-- or else the fund or the portfolio-fund.
pub record Job : Type 0 where
  pub start_date : Time
  pub portfolio_ids : List Ident
  pub fund_id : Ident
  pub portfolio_fund_id : Ident

pub record World (F : Type 0) : Type 0 where
  pub tables : Tables F
  pub faults : List Bool
  pub now : Time
  pub uuid : ℕ → Ident
  pub drawn : ℕ
  -- Whether `materializedInvalidator` is set, and what was asked of it.
  pub has_invalidator : Bool
  pub jobs : List Job

abbrev pub M : Type 0 → Type 0 → Type 0
M F A = World F → Result A × World F

module _ {F : Type 0} where
  abbrev pub pure : {A : Type 0} → A → M F A
  pure a w = (ok a, w)

  abbrev pub fail : {A : Type 0} → Error → M F A
  fail e w = (err e, w)

  infixl 5 ◌>>=◌ ◌>>◌
  abbrev pub bind_result : {A B : Type 0} → (A → M F B) → Result A × World F → Result B × World F
  bind_result k (ok a, w) = k a w
  bind_result k (err e, w) = (err e, w)

  abbrev pub ◌>>=◌ : {A B : Type 0} → M F A → (A → M F B) → M F B
  ◌>>=◌ m k w = bind_result k (m w)

  abbrev pub ◌>>◌ : {B : Type 0} → M F (Unit {0}) → M F B → M F B
  m >> k = m >>= λ _. k

  abbrev pub lift_result : {A : Type 0} → Result A → M F A
  lift_result r w = (r, w)

  abbrev pub statement_with : List Bool → M F (Unit {0})
  statement_with [] w = (ok tt, w)
  statement_with (true ∷ faults) w = (err database, record w { faults = faults })
  statement_with (false ∷ faults) w = (ok tt, record w { faults = faults })

  unfoldable pub statement : M F (Unit {0})
  statement w = statement_with w.faults w

  -- A query, which may find that there is no such row.
  unfoldable pub query : {A : Type 0} → (Tables F → Result A) → M F A
  query f = statement >> λ w. (f w.tables, w)

  abbrev pub store_result : Result (Tables F) → M F (Unit {0})
  store_result (ok t) w = (ok tt, record w { tables = t })
  store_result (err e) w = (err e, w)

  -- A statement that changes the tables, or is refused and changes nothing.
  unfoldable pub exec : (Tables F → Result (Tables F)) → M F (Unit {0})
  exec f = statement >> λ w. store_result (f w.tables) w

  unfoldable pub new_uuid : M F Ident
  new_uuid w = (ok (w.uuid w.drawn), record w { drawn = w.drawn + 1 })

  unfoldable pub get_now : M F Time
  get_now w = (ok w.now, w)

  abbrev pub rollback_on_error : {A : Type 0} → Tables F → Result A × World F → Result A × World F
  rollback_on_error before (ok a, w) = (ok a, w)
  rollback_on_error before (err e, w) = (err e, record w { tables = before })

  abbrev pub commit : {A : Type 0} → A → M F A
  commit a = statement >> pure a

  -- `BeginTx`, the body, `Commit`; the deferred `Rollback` undoes all that an error leaves behind.
  unfoldable pub transact : {A : Type 0} → M F A → M F A
  transact m w = rollback_on_error w.tables ((statement >> (m >>= commit)) w)

  abbrev pub push_job : Bool → Job → M F (Unit {0})
  push_job true j w = (ok tt, record w { jobs = j ∷ w.jobs })
  push_job false j w = (ok tt, w)

  -- `if s.materializedInvalidator != nil { go … }`.
  unfoldable pub regenerate : Job → M F (Unit {0})
  regenerate j w = push_job w.has_invalidator j w
