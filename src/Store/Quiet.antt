-- ===== src/Store/Quiet.antt =====
-- Steps that leave the tables as they are: reads before a database transaction, and what follows its
-- commit.
use investment_portfolio_man.Base.{
  ◌≡◌, if◌then◌else◌, refl, Bool, true, false, List, [], ◌∷◌, subst, sym, ◌∙◌,
}
use investment_portfolio_man.Result.{Result, ok, err, Error}
use investment_portfolio_man.Store.Tables.{Tables}
use investment_portfolio_man.Store.Monad.{
  World, M, Job, bind_result, ◌>>=◌, statement, statement_with, query, push_job, transact, exec,
  store_result, new_uuid, get_now,
}
use investment_portfolio_man.Store.Triples.{Answers, Commits, Ensures, Leaves, transact_rule}

module _ {F : Type 0} where
  -- It may fail, but the tables stay.
  abbrev pub IsRead : {A : Type 0} → M F A → Type 0
  IsRead m = (w : World F) → (m w).1.tables ≡ w.tables

  -- It does not fail either.
  abbrev pub IsQuiet : {A : Type 0} → M F A → Type 0
  IsQuiet {A} m =
      (w : World F) → (a : A) × (w' : World F) × (m w ≡ (ok a, w')) × (w'.tables ≡ w.tables)

  query_with-tables :
      {A : Type 0} (f : Tables F → Result A) (faults : List Bool) (w : World F)
      → (bind_result (λ u w'. (f w'.tables, w')) (statement_with faults w)).1.tables ≡ w.tables
  query_with-tables f [] w = refl
  query_with-tables f (true ∷ faults) w = refl
  query_with-tables f (false ∷ faults) w = refl

  pub query-IsRead : {A : Type 0} (f : Tables F → Result A) → IsRead (query f)
  unfolding query statement
  query-IsRead f w = query_with-tables f w.faults w

  pub push_job-IsQuiet : (b : Bool) (j : Job) → IsQuiet (push_job b j)
  push_job-IsQuiet true j w = (tt, _, refl, refl)
  push_job-IsQuiet false j w = (tt, _, refl, refl)

  bind_read-Commits :
      {A B : Type 0} (before : Tables F) (Q : B → Tables F → Type 0) (k : A → M F B)
      (r : Result A × World F)
      → r.1.tables ≡ before
      → ((a : A) (w : World F) → w.tables ≡ before → Commits before Q (k a w))
      → Commits before Q (bind_result k r)
  bind_read-Commits before Q k (ok a, w) e h = h a w e
  bind_read-Commits before Q k (err x, w) e h = e

  pub read-Commits :
      {A B : Type 0} (before : Tables F) (Q : B → Tables F → Type 0) (m : M F A) (k : A → M F B)
      (w : World F)
      → IsRead m
      → w.tables ≡ before
      → ((a : A) (w' : World F) → w'.tables ≡ before → Commits before Q (k a w'))
      → Commits before Q ((m >>= k) w)
  read-Commits before Q m k w read e h =
      bind_read-Commits before Q k (m w) (subst (λ t. (m w).1.tables ≡ t) e (read w)) h

  -- A quiet step after a commit.
  pub quiet-Commits :
      {B : Type 0} (before : Tables F) (Q : Tables F → Type 0) (m : M F B) (w : World F)
      → IsQuiet m
      → Q w.tables
      → Commits before (λ b. Q) (m w)
  quiet-Commits before Q m w quiet q =
      let (b, w', e, same) = quiet w in
      subst (Commits before (λ b'. Q)) (sym e) (subst Q (sym same) q)

  pub quiet_bind-Commits :
      {A B : Type 0} (before : Tables F) (Q : Tables F → Type 0) (m : M F A) (k : A → M F B)
      (w : World F)
      → IsQuiet m
      → ((a : A) → IsQuiet (k a))
      → Q w.tables
      → Commits before (λ b. Q) ((m >>= k) w)
  quiet_bind-Commits before Q m k w quiet quiet' q =
      let (a, w', e, same) = quiet w in
      subst (λ r. Commits before (λ b. Q) (bind_result k r)) (sym e)
        (quiet-Commits before Q (k a) w' (quiet' a) (subst Q (sym same) q))

  -- A database transaction after reads.
  pub transact-Commits :
      {A : Type 0} {P : Tables F → Type 0} {Q : A → Tables F → Type 0} {m : M F A}
      (before : Tables F) (w : World F)
      → Ensures P m Q
      → P before
      → w.tables ≡ before
      → Commits before Q (transact m w)
  transact-Commits {P = P} {Q = Q} {m = m} before w rule p same =
      subst (λ t. Commits t Q (transact m w)) same (transact_rule rule w (subst P (sym same) p))

  pub if-Commits :
      {A : Type 0} (before : Tables F) (Q : A → Tables F → Type 0) (b : Bool)
      (r s : Result A × World F)
      → Commits before Q r
      → Commits before Q s
      → Commits before Q (if b then r else s)
  if-Commits before Q true r s h k = h
  if-Commits before Q false r s h k = k

  store_result-Commits :
      (before : Tables F) (Q : Tables F → Type 0) (r : Result (Tables F)) (w : World F)
      → w.tables ≡ before
      → Answers Q r
      → Commits before (λ u. Q) (store_result r w)
  store_result-Commits before Q (ok t) w e q = q
  store_result-Commits before Q (err x) w e q = e

  exec_with-Commits :
      (Q : Tables F → Type 0) (f : Tables F → Result (Tables F)) (faults : List Bool) (w : World F)
      → Answers Q (f w.tables)
      → Commits w.tables
          (λ u. Q)
          (bind_result (λ u w'. store_result (f w'.tables) w') (statement_with faults w))
  exec_with-Commits Q f [] w q = store_result-Commits w.tables Q (f w.tables) w refl q
  exec_with-Commits Q f (true ∷ faults) w q = refl
  exec_with-Commits Q f (false ∷ faults) w q =
      store_result-Commits w.tables Q (f w.tables) (record w { faults = faults }) refl q

  -- A statement outside a database transaction is all or nothing by itself.
  pub exec-Commits :
      (before : Tables F) (Q : Tables F → Type 0) (f : Tables F → Result (Tables F)) (w : World F)
      → w.tables ≡ before
      → Answers Q (f before)
      → Commits before (λ u. Q) (exec f w)
  unfolding exec statement
  exec-Commits before Q f w e q =
      subst (λ t. Commits t (λ u. Q) (exec f w)) e
        (exec_with-Commits Q f w.faults w (subst (λ t. Answers Q (f t)) (sym e) q))

  bind_ensured-Commits :
      {A B : Type 0} (before : Tables F) (R : A → Tables F → Type 0) (Q : B → Tables F → Type 0)
      (k : A → M F B) (r : Result A × World F)
      → r.1.tables ≡ before
      → Leaves R r
      → ((a : A) (w : World F) → w.tables ≡ before → R a before → Commits before Q (k a w))
      → Commits before Q (bind_result k r)
  bind_ensured-Commits before R Q k (ok a, w) e l h = h a w e (subst (R a) e l)
  bind_ensured-Commits before R Q k (err x, w) e l h = e

  -- A read, and what its answer is known to be.
  pub ensured-Commits :
      {A B : Type 0} {P : Tables F → Type 0} {R : A → Tables F → Type 0} (before : Tables F)
      (Q : B → Tables F → Type 0) (m : M F A) (k : A → M F B) (w : World F)
      → IsRead m
      → Ensures P m R
      → P before
      → w.tables ≡ before
      → ((a : A) (w' : World F) → w'.tables ≡ before → R a before → Commits before Q (k a w'))
      → Commits before Q ((m >>= k) w)
  ensured-Commits {P = P} {R = R} before Q m k w read rule p e h =
      bind_ensured-Commits before R Q k (m w) (read w ∙ e) (rule.leaves w (subst P (sym e) p)) h

  bind-tables :
      {A B : Type 0} (t : Tables F) (k : A → M F B) (r : Result A × World F)
      → r.1.tables ≡ t
      → ((a : A) → IsRead (k a))
      → (bind_result k r).1.tables ≡ t
  bind-tables t k (ok a, w) e h = h a w ∙ e
  bind-tables t k (err x, w) e h = e

  pub bind-IsRead :
      {A B : Type 0} (m : M F A) (k : A → M F B)
      → IsRead m
      → ((a : A) → IsRead (k a))
      → IsRead (m >>= k)
  bind-IsRead m k h h' w = bind-tables w.tables k (m w) (h w) h'

  pub guard-IsRead :
      {A : Type 0} (b : Bool) (e : Error) (m : M F A)
      → IsRead m
      → IsRead (λ w. if b then (err e, w) else m w)
  guard-IsRead true e m h w = refl
  guard-IsRead false e m h w = h w

  pub new_uuid-IsRead : IsRead new_uuid
  unfolding new_uuid
  new_uuid-IsRead w = refl

  pub get_now-IsRead : IsRead get_now
  unfolding get_now
  get_now-IsRead w = refl
