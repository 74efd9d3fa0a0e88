-- ===== src/Imports/Rules.antt =====
-- The steps that both imports share: the check of what the rows are for, the reading of the file, the
-- database transaction, and the regeneration after it.
use investment_portfolio_man.Base.{ℕ, ◌<◌, ◌≡◌, refl, ◌∙◌, inl, inr, ◌==◌, arith, Bool-cases}
use investment_portfolio_man.Result.{Result, ok, err, Error, no_data_rows}
use investment_portfolio_man.Model.{Time}
use investment_portfolio_man.Store.Tables.{Tables}
use investment_portfolio_man.Store.Monad.{
  World, M, Job, bind_result, lift_result, ◌>>=◌, ◌>>◌, transact, regenerate,
}
use investment_portfolio_man.Store.Triples.{
  Commits, Ensures, bind_rule, pure_rule, fail_rule, if_rule, after-Commits, push_job-Commits,
}
use investment_portfolio_man.Store.Quiet.{IsRead, transact-Commits}
use investment_portfolio_man.Csv.{Records}
use investment_portfolio_man.Imports.{
  Imported, reported_result, reported_as, some_rows, finish_import,
}

module _ {F : Type 0} where
  reported_result-tables :
      {A : Type 0} (e : Error) (r : Result A × World F)
      → (reported_result e r).1.tables ≡ r.1.tables
  reported_result-tables e (ok a, w) = refl
  reported_result-tables e (err why, w) = refl

  pub reported_as-IsRead :
      {A : Type 0} (e : Error) (m : M F A) → IsRead m → IsRead (reported_as e m)
  reported_as-IsRead e m read w = reported_result-tables e (m w) ∙ read w

  module _ (before : Tables F) (P : ℕ → Tables F → Type 0) where
    abbrev pub AtLeastOne : ℕ → Tables F → Type 0
    AtLeastOne n t = P n t × (0 < n)

    some_rows_rule :
        (s : Imported) → Ensures (P s.count) (some_rows s) (λ s' t. AtLeastOne s'.count t)
    some_rows_rule s =
        if_rule (s.count == 0) (λ e. fail_rule no_data_rows)
          (λ e. pure_rule s (λ t q. (q, ground (arith, e))))

    finish_import-Commits :
        (job : Time → Job) (s : Imported) (w : World F)
        → AtLeastOne s.count w.tables
        → Commits before AtLeastOne (finish_import job s w)
    unfolding regenerate
    finish_import-Commits job s w q = elim (Bool-cases (s.earliest == 0)) [
      | inl e ↦ rw e q
      | inr e ↦
          rw e (push_job-Commits before AtLeastOne w.has_invalidator (job s.earliest) s.count w q)
    ]

    stored-Commits :
        (loop : M F Imported) (job : Time → Job) (w : World F)
        → Ensures (λ t. t ≡ before) loop (λ s. P s.count)
        → w.tables ≡ before
        → Commits before AtLeastOne ((transact (loop >>= some_rows) >>= finish_import job) w)
    stored-Commits loop job w rule same =
        after-Commits before (λ s. AtLeastOne s.count) AtLeastOne (finish_import job)
          (transact (loop >>= some_rows) w)
          (transact-Commits before w (bind_rule rule some_rows_rule) refl same)
          (finish_import-Commits job)

    -- The file is read, and its headers are checked, before the transaction begins.
    pub checked-Commits :
        (file : Result Records) (csv : Records) (headers : Records → Result (Unit {0}))
        (loop : Records → M F Imported) (job : Time → Job) (w : World F)
        → file ≡ ok csv
        → Ensures (λ t. t ≡ before) (loop csv) (λ s. P s.count)
        → w.tables ≡ before
        → Commits before AtLeastOne (
            (lift_result file >>= λ x.
            lift_result (headers x) >> (transact (loop x >>= some_rows) >>= finish_import job))
              w)
    checked-Commits file csv headers loop job w e rule same = rw e (checked (headers csv))
      where
        checked :
            (r : Result (Unit {0}))
            → Commits before AtLeastOne
                (bind_result (λ u. transact (loop csv >>= some_rows) >>= finish_import job) (r, w))
        checked (ok u) = stored-Commits (loop csv) job w rule same
        checked (err why) = same
