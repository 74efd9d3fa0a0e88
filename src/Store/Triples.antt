-- ===== src/Store/Triples.antt =====
-- A method's effect on the tables, by a rule for each way to put methods together.
use investment_portfolio_man.Base.{if◌then◌else◌, ◌≡◌, refl, Bool, true, false, List, [], ◌∷◌}
use investment_portfolio_man.Result.{Result, ok, err, Error}
use investment_portfolio_man.Store.Tables.{Tables}
use investment_portfolio_man.Store.Monad.{
  World, M, Job, pure, fail, bind_result, ◌>>=◌, ◌>>◌, statement, statement_with, query, exec,
  store_result, new_uuid, get_now, rollback_on_error, commit, transact, push_job, regenerate,
  lift_result,
}

-- What a query or an update that succeeds has answered.
abbrev pub Answers : {A : Type 0} → (A → Type 0) → Result A → Type 0
Answers Q (ok a) = Q a
Answers Q (err e) = Unit

-- A statement that is refused on a condition, or on one of two.
pub Answers-guard :
    {A : Type 0} (Q : A → Type 0) (b : Bool) (e : Error) (a : A)
    → Q a
    → Answers Q (if b then err e else ok a)
Answers-guard Q true e a q = tt
Answers-guard Q false e a q = q

pub Answers-guards :
    {A : Type 0} (Q : A → Type 0) (b c : Bool) (e e' : Error) (a : A)
    → Q a
    → Answers Q (if b then err e else if c then err e' else ok a)
Answers-guards Q true c e e' a q = tt
Answers-guards Q false c e e' a q = Answers-guard Q c e' a q

-- Two facts about one answer, and a weaker one.
pub Answers-both :
    {A : Type 0} (P Q : A → Type 0) (r : Result A)
    → Answers P r
    → Answers Q r
    → Answers (λ a. P a × Q a) r
Answers-both P Q (ok a) p q = (p, q)
Answers-both P Q (err e) p q = tt

pub Answers-map :
    {A : Type 0} (P Q : A → Type 0) (r : Result A)
    → Answers P r
    → ((a : A) → P a → Q a)
    → Answers Q r
Answers-map P Q (ok a) p h = h a p
Answers-map P Q (err e) p h = tt

module _ {F : Type 0} where
  -- What a successful run leaves; a failed one may leave anything, since it is rolled back.
  abbrev pub Leaves : {A : Type 0} → (A → Tables F → Type 0) → Result A × World F → Type 0
  Leaves Q (ok a, w) = Q a w.tables
  Leaves Q (err e, w) = Unit

  -- All or nothing.
  abbrev pub Commits :
      {A : Type 0} → Tables F → (A → Tables F → Type 0) → Result A × World F → Type 0
  Commits before Q (ok a, w) = Q a w.tables
  Commits before Q (err e, w) = w.tables ≡ before

-- From tables with `P` a run of `m` that succeeds leaves tables with `Q`.
pub record Ensures {F A : Type 0} (P : Tables F → Type 0) (m : M F A) (Q : A → Tables F → Type 0)
    : Type 0 where
  pub leaves : (w : World F) → P w.tables → Leaves Q (m w)

module _ {F : Type 0} where
  bind_result-Leaves :
      {A B : Type 0} (Q : A → Tables F → Type 0) (R : B → Tables F → Type 0) (k : A → M F B)
      (r : Result A × World F)
      → Leaves Q r
      → ((a : A) → Ensures (Q a) (k a) R)
      → Leaves R (bind_result k r)
  bind_result-Leaves Q R k (ok a, w) h hk = (hk a).leaves w h
  bind_result-Leaves Q R k (err e, w) h hk = tt

  pub bind_rule :
      {A B : Type 0} {P : Tables F → Type 0} {Q : A → Tables F → Type 0} {R : B → Tables F → Type 0}
      {m : M F A} {k : A → M F B}
      → Ensures P m Q
      → ((a : A) → Ensures (Q a) (k a) R)
      → Ensures P (m >>= k) R
  bind_rule {Q = Q} {R = R} {m = m} {k = k} hm hk = record {
    leaves = λ w p. bind_result-Leaves Q R k (m w) (hm.leaves w p) hk;
  }

  pub pure_rule :
      {A : Type 0} {P : Tables F → Type 0} {Q : A → Tables F → Type 0} (a : A)
      → ((t : Tables F) → P t → Q a t)
      → Ensures P (pure a) Q
  pure_rule a h = record { leaves = λ w p. h w.tables p }

  pub fail_rule :
      {A : Type 0} {P : Tables F → Type 0} {Q : A → Tables F → Type 0} (e : Error)
      → Ensures P (fail {A = A} e) Q
  fail_rule e = record { leaves = λ w p. tt }

  -- The rule of consequence, for what a method needs.
  pub weaken :
      {A : Type 0} {P P' : Tables F → Type 0} {Q : A → Tables F → Type 0} {m : M F A}
      → ((t : Tables F) → P t → P' t)
      → Ensures P' m Q
      → Ensures P m Q
  weaken h e = record { leaves = λ w p. e.leaves w (h w.tables p) }

  map-Leaves :
      {A : Type 0} (Q R : A → Tables F → Type 0) (r : Result A × World F)
      → Leaves Q r
      → ((a : A) (t : Tables F) → Q a t → R a t)
      → Leaves R r
  map-Leaves Q R (ok a, w) q h = h a w.tables q
  map-Leaves Q R (err e, w) q h = tt

  -- And for what it leaves.
  pub weaken_result :
      {A : Type 0} {P : Tables F → Type 0} {Q R : A → Tables F → Type 0} {m : M F A}
      → Ensures P m Q
      → ((a : A) (t : Tables F) → Q a t → R a t)
      → Ensures P m R
  weaken_result {Q = Q} {R = R} {m = m} e h = record {
    leaves = λ w p. map-Leaves Q R (m w) (e.leaves w p) h;
  }

  statement_with_rule :
      (P : Tables F → Type 0) (faults : List Bool) (w : World F)
      → P w.tables
      → Leaves (λ (u : Unit {0}). P) (statement_with faults w)
  statement_with_rule P [] w p = p
  statement_with_rule P (true ∷ faults) w p = tt
  statement_with_rule P (false ∷ faults) w p = p

  pub statement_rule : (P : Tables F → Type 0) → Ensures P statement (λ u. P)
  unfolding statement
  statement_rule P = record { leaves = λ w p. statement_with_rule P w.faults w p }

  lift-Leaves :
      {A : Type 0} (Q : A → Tables F → Type 0) (r : Result A) (w : World F)
      → Answers (λ a. Q a w.tables) r
      → Leaves Q (r, w)
  lift-Leaves Q (ok a) w h = h
  lift-Leaves Q (err e) w h = tt

  pub query_rule :
      {A : Type 0} {P : Tables F → Type 0} {Q : A → Tables F → Type 0} (f : Tables F → Result A)
      → ((t : Tables F) → P t → Answers (λ a. Q a t) (f t))
      → Ensures P (query f) Q
  unfolding query
  query_rule {P = P} {Q = Q} f h =
      bind_rule (statement_rule P)
        λ u. record { leaves = λ w p. lift-Leaves Q (f w.tables) w (h w.tables p) }

  store_result-Leaves :
      (Q : Tables F → Type 0) (r : Result (Tables F)) (w : World F)
      → Answers Q r
      → Leaves (λ (u : Unit {0}). Q) (store_result r w)
  store_result-Leaves Q (ok t) w h = h
  store_result-Leaves Q (err e) w h = tt

  pub exec_rule :
      {P Q : Tables F → Type 0} (f : Tables F → Result (Tables F))
      → ((t : Tables F) → P t → Answers Q (f t))
      → Ensures P (exec f) (λ u. Q)
  unfolding exec
  exec_rule {P = P} {Q = Q} f h =
      bind_rule (statement_rule P)
        λ u. record { leaves = λ w p. store_result-Leaves Q (f w.tables) w (h w.tables p) }

  pub new_uuid_rule : (P : Tables F → Type 0) → Ensures P new_uuid (λ i. P)
  unfolding new_uuid
  new_uuid_rule P = record { leaves = λ w p. p }

  pub get_now_rule : (P : Tables F → Type 0) → Ensures P get_now (λ i. P)
  unfolding get_now
  get_now_rule P = record { leaves = λ w p. p }

  pub lift_rule :
      {A : Type 0} {P : Tables F → Type 0} {Q : A → Tables F → Type 0} (r : Result A)
      → ((t : Tables F) → P t → Answers (λ a. Q a t) r)
      → Ensures P (lift_result r) Q
  lift_rule {Q = Q} r h = record { leaves = λ w p. lift-Leaves Q r w (h w.tables p) }

  pub lift_keep_rule :
      {A : Type 0} (P : Tables F → Type 0) (r : Result A) → Ensures P (lift_result r) (λ a. P)
  lift_keep_rule P (ok a) = lift_rule (ok a) (λ t p. p)
  lift_keep_rule P (err e) = lift_rule (err e) (λ t p. tt)

  pub if_rule :
      {A : Type 0} {P : Tables F → Type 0} {Q : A → Tables F → Type 0} (b : Bool) {m m' : M F A}
      → (b ≡ true → Ensures P m Q)
      → (b ≡ false → Ensures P m' Q)
      → Ensures P (if b then m else m') Q
  if_rule true h k = h refl
  if_rule false h k = k refl

  -- A fact that a step has found does not depend on the tables.
  pub with_fact :
      {A E : Type 0} {P : Tables F → Type 0} {m : M F A} {Q : A → Tables F → Type 0}
      → (E → Ensures P m Q)
      → Ensures (λ t. P t × E) m Q
  with_fact h = record { leaves = λ w p. (h p.1).leaves w p.0 }

  rollback-Commits :
      {A : Type 0} (before : Tables F) (Q : A → Tables F → Type 0) (r : Result A × World F)
      → Leaves Q r
      → Commits before Q (rollback_on_error before r)
  rollback-Commits before Q (ok a, w) h = h
  rollback-Commits before Q (err e, w) h = refl

  -- A transaction with an error leaves the tables as they were; otherwise its body's effect stays.
  pub transact_rule :
      {A : Type 0} {P : Tables F → Type 0} {Q : A → Tables F → Type 0} {m : M F A}
      → Ensures P m Q
      → (w : World F) → P w.tables
      → Commits w.tables Q (transact m w)
  unfolding transact
  transact_rule {A = A} {P = P} {Q = Q} {m = m} h w p =
      let body : Ensures P (statement >> (m >>= commit)) Q =
        bind_rule (statement_rule P) (λ u.
          bind_rule h (λ a. bind_rule (statement_rule (Q a)) (λ v. pure_rule a (λ t q. q)))) in
      rollback-Commits w.tables Q ((statement >> (m >>= commit)) w) (body.leaves w p)

  pub push_job-Commits :
      {A : Type 0} (before : Tables F) (Q : A → Tables F → Type 0) (b : Bool) (j : Job) (a : A)
      (w : World F)
      → Q a w.tables
      → Commits before Q ((push_job b j >> pure a) w)
  push_job-Commits before Q true j a w q = q
  push_job-Commits before Q false j a w q = q

  -- The regeneration that a method asks for after its commit does not touch the tables.
  pub regenerate-Commits :
      {A : Type 0} (before : Tables F) (Q : A → Tables F → Type 0) (r : Result A × World F)
      (job : A → Job)
      → Commits before Q r
      → Commits before Q (bind_result (λ a. regenerate (job a) >> pure a) r)
  unfolding regenerate
  regenerate-Commits before Q (ok a, w) job q =
      push_job-Commits before Q w.has_invalidator (job a) a w q
  regenerate-Commits before Q (err e, w) job q = q

  pub after-Commits :
      {A B : Type 0} (before : Tables F) (Q : A → Tables F → Type 0) (R : B → Tables F → Type 0)
      (k : A → M F B) (r : Result A × World F)
      → Commits before Q r
      → ((a : A) (w : World F) → Q a w.tables → Commits before R (k a w))
      → Commits before R (bind_result k r)
  after-Commits before Q R k (ok a, w) q h = h a w q
  after-Commits before Q R k (err e, w) q h = q
