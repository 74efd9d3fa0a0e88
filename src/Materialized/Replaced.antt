-- ===== src/Materialized/Replaced.antt =====
-- What a regeneration leaves in the materialized table.
use investment_portfolio_man.Base.{
  ◌≡◌, refl, sym, ◌∙◌, ap, subst, not, ◌||◌, List, [], ◌∷◌, ◌++◌, map, keep, find?, ltb, ◌&&◌, leb,
  ◌==◌, arith, false, Bool-cases, Option-cases, inl, inr, ==_iff, ==_refl, Bool,
}
use mathlib.Core.List.{append-nil, append_assoc}
use investment_portfolio_man.Result.{constraint}
use investment_portfolio_man.Model.{Ident, Time, midnight, FundHistoryEntry}
use investment_portfolio_man.Store.Tables.{Tables, MaterializedRow}
use investment_portfolio_man.Store.Monad.{World, transact}
use investment_portfolio_man.Store.Triples.{
  Answers, Answers-guard, Commits, Ensures, bind_rule, pure_rule, exec_rule, get_now_rule,
  statement_rule, weaken_result, transact_rule,
}
use investment_portfolio_man.Store.Effects.{is_some, whole_second, find_portfolio_fund}
use investment_portfolio_man.Materialized.{
  contains, in_scope, clashes, invalidate_rows, invalidate_materialized_table, materialized_row,
  insert_materialized_row, insert_loop, insert_materialized_entries,
}
use investment_portfolio_man.Ibkr.{unique_from}
use investment_portfolio_man.Materialized.Regenerate.{affected, regenerate_body}

differ : (a b : Ident) → (a == b) ≡ false → (b == a) ≡ false
differ a b h = ground (arith, h)

contains-unique_from :
    (i : Ident) (seen js : List Ident)
    → is_some (find? (λ s. s == i) seen) ≡ false
    → contains i (unique_from seen js) ≡ is_some (find? (λ j. j == i) js)
unfolding unique_from
contains-unique_from i seen [] h = refl
contains-unique_from i seen (j ∷ js) h = elim (Option-cases (find? (λ s. s == j) seen)) [
  | inl new ↦ elim (Bool-cases (j == i)) [
    | inl same ↦ rw (new, unique_from, (==_iff j i).0 same) (rw (==_refl i) refl)
    | inr other ↦
        rw (new, unique_from, other, differ j i other)
          (contains-unique_from i (j ∷ seen) js (rw other h))
  ]
  | inr (s, old) ↦ elim (Bool-cases (j == i)) [
    | inl same ↦ cc (rw ((==_iff j i).0 same) at old, h)
    | inr other ↦ rw (old, unique_from, other) (contains-unique_from i seen js h)
  ]
]

keep-ext :
    {A : Type 0} (p q : A → Bool) → ((x : A) → p x ≡ q x) → (xs : List A) → keep p xs ≡ keep q xs
keep-ext p q h [] = refl
keep-ext p q h (x ∷ xs) = rw (h x, keep-ext p q h xs) refl

module _ {F : Type 0} where
  abbrev pub with_rows : List (MaterializedRow F) → Tables F → Tables F
  with_rows rs t = record t { materialized = t.materialized ++ rs }

  -- The rows that a regeneration leaves alone: those of an earlier day, and those of
  -- portfolio-funds that no entry is about.
  abbrev pub kept_rows : Time → List (FundHistoryEntry F) → Tables F → List (MaterializedRow F)
  kept_rows start_date entries t =
      keep
        (λ (r : MaterializedRow F).
          ltb r.entry.date (midnight start_date)
          || not (
              is_some (
                find? (λ (e : FundHistoryEntry F). e.portfolio_fund_id == r.entry.portfolio_fund_id)
                  entries)))
        t.materialized

  -- The rows from the start date on of the portfolio-funds that have a new entry, for those entries.
  abbrev pub replaced_rows : Time → List (FundHistoryEntry F) → Time → Tables F → Tables F
  replaced_rows start_date entries now t = record t {
    materialized =
        kept_rows start_date entries t
        ++ map
            (λ (e : FundHistoryEntry F). record {
              entry = record e { date = midnight e.date };
              calculated_at = whole_second now;
            })
            entries;
  }

  find-map :
      (i : Ident) (es : List (FundHistoryEntry F))
      → is_some (find? (λ j. j == i) (map (λ (e : FundHistoryEntry F). e.portfolio_fund_id) es))
        ≡ is_some (find? (λ (e : FundHistoryEntry F). e.portfolio_fund_id == i) es)
  find-map i [] = refl
  find-map i (e ∷ es) = ground (arith, find-map i es)

  keep_all :
      (start_date : Time) (rs : List (MaterializedRow F))
      → keep (λ (r : MaterializedRow F). ltb r.entry.date (midnight start_date) || not false) rs
        ≡ rs
  keep_all start_date [] = refl
  keep_all start_date (r ∷ rs) = ground (arith, keep_all start_date rs)

  insert_one :
      (r : MaterializedRow F) (before t : Tables F)
      → t ≡ before
      → Answers (λ t'. t' ≡ with_rows (r ∷ []) before) (insert_materialized_row r t)
  unfolding insert_materialized_row
  insert_one r before t e =
      Answers-guard (λ t'. t' ≡ with_rows (r ∷ []) before)
        (is_some (find? (clashes r) t.materialized)
          || not (is_some (find_portfolio_fund r.entry.portfolio_fund_id t)))
        constraint (with_rows (r ∷ []) t) (ap (with_rows (r ∷ [])) e)

  with_rows_twice :
      (r : MaterializedRow F) (rs : List (MaterializedRow F)) (t : Tables F)
      → with_rows rs (with_rows (r ∷ []) t) ≡ with_rows (r ∷ rs) t
  with_rows_twice r rs t =
      ap (λ (m : List (MaterializedRow F)). record t { materialized = m })
        (append_assoc t.materialized (r ∷ []) rs)

  insert_loop_rule :
      (now : Time) (es : List (FundHistoryEntry F)) (before : Tables F)
      → Ensures
          (λ t. t ≡ before)
          (insert_loop now es)
          (λ u t. t ≡ with_rows (map (materialized_row now) es) before)
  unfolding insert_loop
  insert_loop_rule now [] before = pure_rule tt (λ t e.
      e
      ∙ ap (λ (m : List (MaterializedRow F)). record before { materialized = m })
          (sym (append-nil before.materialized)))
  insert_loop_rule now (e ∷ es) before =
      bind_rule (exec_rule _ (insert_one (materialized_row now e) before)) λ u.
        subst
          (λ (s : Tables F).
            Ensures (λ t. t ≡ with_rows (materialized_row now e ∷ []) before) (insert_loop now es)
              (λ v t. t ≡ s))
          (with_rows_twice (materialized_row now e) (map (materialized_row now) es) before)
          (insert_loop_rule now es (with_rows (materialized_row now e ∷ []) before))

  -- What an invalidation keeps is what a regeneration leaves alone.
  kept :
      (start_date : Time) (entries : List (FundHistoryEntry F)) (r : MaterializedRow F)
      → not (in_scope start_date (affected entries) r) ≡ (
          ltb r.entry.date (midnight start_date)
          || not (
              is_some (
                find?
                  (λ (e : FundHistoryEntry F). e.portfolio_fund_id == r.entry.portfolio_fund_id)
                  entries)))
  kept start_date entries r =
      let known =
        contains-unique_from r.entry.portfolio_fund_id []
          (map (λ (e : FundHistoryEntry F). e.portfolio_fund_id) entries) refl
        ∙ find-map r.entry.portfolio_fund_id entries in
      rw known (not_and _ r.entry.date (midnight start_date))
    where
      not_and : (b : Bool) (d s : Time) → not (leb s d && b) ≡ (ltb d s || not b)
      not_and b d s = ground arith

  nothing_replaced : (start_date now : Time) (t : Tables F) → t ≡ replaced_rows start_date [] now t
  nothing_replaced start_date now t =
      ap (λ (m : List (MaterializedRow F)). record t { materialized = m })
        (sym (append-nil _ ∙ keep_all start_date t.materialized))

  invalidated :
      (start_date : Time) (entries : List (FundHistoryEntry F)) (t : Tables F)
      → invalidate_rows start_date (affected entries) t
        ≡ record t { materialized = kept_rows start_date entries t }
  unfolding invalidate_rows
  invalidated start_date entries t =
      ap (λ (m : List (MaterializedRow F)). record t { materialized = m })
        (keep-ext _ _ (kept start_date entries) t.materialized)

  pub regenerate_body_rule :
      (start_date : Time) (entries : List (FundHistoryEntry F)) (before : Tables F)
      → Ensures
          (λ t. t ≡ before)
          (regenerate_body start_date entries)
          (λ u t. (now : Time) × (t ≡ replaced_rows start_date entries now before))
  unfolding regenerate_body invalidate_materialized_table insert_materialized_entries
      materialized_row unique_from
  regenerate_body_rule start_date [] before =
      bind_rule {Q = λ u t. t ≡ before} (pure_rule tt (λ t e. e))
        λ u. pure_rule tt (λ t e. (0, e ∙ nothing_replaced start_date 0 before))
  regenerate_body_rule start_date (e ∷ es) before =
      let gone : Tables F = invalidate_rows start_date (affected (e ∷ es)) before in
      bind_rule {Q = λ u t. t ≡ gone}
        (exec_rule _ (λ t same. ap (invalidate_rows start_date (affected (e ∷ es))) same))
        λ u. bind_rule (statement_rule (λ t. t ≡ gone)) λ v.
          bind_rule (get_now_rule (λ t. t ≡ gone)) λ now.
            weaken_result (insert_loop_rule now (e ∷ es) gone) (λ w t p. (
              now,
              p
                  ∙ ap (with_rows (map (materialized_row now) (e ∷ es)))
                      (invalidated start_date (e ∷ es) before),
            ))

  -- Whichever statements fail, the database transaction of RegenerateMaterializedTable either
  -- returns an error and leaves the tables as they were, or succeeds and replaces the materialized
  -- rows of the start date's day or a later one of the portfolio-funds that have a new entry by
  -- one row for each entry, dated by its day, and nothing else.
  pub regenerate_body-replaced_rows :
      (start_date : Time) (entries : List (FundHistoryEntry F)) (w : World F)
      → Commits w.tables
          (λ u t. (now : Time) × (t ≡ replaced_rows start_date entries now w.tables))
          (transact (regenerate_body start_date entries) w)
  regenerate_body-replaced_rows start_date entries w =
      transact_rule (regenerate_body_rule start_date entries w.tables) w refl
