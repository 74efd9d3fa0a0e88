-- ===== src/Materialized/Read/Refined.antt =====
-- The table after a regeneration, read by `GetFundHistoryMaterialized`, against the history that the
-- regeneration has written.
use investment_portfolio_man.Base.{
  ℕ, ◌+◌, ◌≤◌, ◌<◌, ◌≡◌, ◌⊎◌, inr, refl, ◌∙◌, ap, true, false, List, [], ◌∷◌, ◌++◌, map, keep,
  keep-append, keep-none, arith, All,
}
use investment_portfolio_man.Model.{Ident, Time, midnight, FundHistoryEntry, FundHistoryResponse}
use investment_portfolio_man.Store.Tables.{Tables, MaterializedRow}
use investment_portfolio_man.Store.Monad.{World, transact}
use investment_portfolio_man.Store.Triples.{Commits, weaken_result, transact_rule}
use investment_portfolio_man.Materialized.{
  insert_named, order_named, fund_name, history_rows, shown, materialized_row,
}
use investment_portfolio_man.Materialized.Regenerate.{dated, flatten, regenerate_body}
use investment_portfolio_man.Materialized.Replaced.{kept_rows, replaced_rows, regenerate_body_rule}
use investment_portfolio_man.Materialized.Read.{by_date, format_fund_history_from_materialized}
use investment_portfolio_man.Materialized.Read.Back.{IsRising, dated_response, format-flatten}

module _ {F : Type 0} where
  abbrev entry_of : MaterializedRow F → FundHistoryEntry F
  entry_of r = r.entry

  -- Dates that do not fall, and on one date names that do not.
  abbrev IsOrdered : Tables F → Time → (name : Ident) → List (FundHistoryEntry F) → Type 0
  IsOrdered t from name [] = Unit
  IsOrdered t from name (e ∷ es) =
      ((from < e.date) ⊎ ((from ≡ e.date) × (name ≤ fund_name t e)))
      × IsOrdered t e.date (fund_name t e) es

  insert_named-first :
      (t : Tables F) (e : FundHistoryEntry F) (es : List (FundHistoryEntry F))
      → IsOrdered t e.date (fund_name t e) es
      → insert_named t e es ≡ e ∷ es
  unfolding insert_named
  insert_named-first t e [] h = refl
  insert_named-first t e (x ∷ xs) h = ground (arith, h.0)

  order_named-IsOrdered :
      (t : Tables F) (from name : ℕ) (es : List (FundHistoryEntry F))
      → IsOrdered t from name es
      → order_named t es ≡ es
  unfolding order_named
  order_named-IsOrdered t from name [] h = refl
  order_named-IsOrdered t from name (e ∷ es) h =
      rw (order_named-IsOrdered t e.date (fund_name t e) es h.1) (insert_named-first t e es h.1)

  IsOrdered-later :
      (t : Tables F) (a b name : ℕ) (es : List (FundHistoryEntry F))
      → a < b
      → IsOrdered t b 0 es
      → IsOrdered t a name es
  IsOrdered-later t a b name [] lt h = tt
  IsOrdered-later t a b name (e ∷ es) lt h = (ground (arith, h.0), h.1)

  IsOrdered-le :
      (t : Tables F) (a b : ℕ) (es : List (FundHistoryEntry F))
      → a ≤ b
      → IsOrdered t b 0 es
      → IsOrdered t a 0 es
  IsOrdered-le t a b [] le h = tt
  IsOrdered-le t a b (e ∷ es) le h = (ground (arith, h.0), h.1)

  -- The funds of a day by their names.
  abbrev pub AreNamed : Tables F → (name : Ident) → List (FundHistoryEntry F) → Type 0
  AreNamed t name [] = Unit
  AreNamed t name (e ∷ es) = (name ≤ fund_name t e) × AreNamed t (fund_name t e) es

  dated-IsOrdered :
      (t : Tables F) (d name : ℕ) (es rest : List (FundHistoryEntry F))
      → AreNamed t name es
      → IsOrdered t (d + 1) 0 rest
      → IsOrdered t d name (dated d es ++ rest)
  unfolding dated
  dated-IsOrdered t d name [] rest named h = IsOrdered-later t d (d + 1) name rest (omega arith) h
  dated-IsOrdered t d name (e ∷ es) rest named h =
      (inr (refl, named.0), dated-IsOrdered t d (fund_name t e) es rest named.1 h)

  flatten-IsOrdered :
      (t : Tables F) (from : Time) (h : List (FundHistoryResponse F))
      → IsRising from h
      → All (λ r. AreNamed t 0 r.funds) h
      → IsOrdered t from 0 (flatten h)
  unfolding flatten
  flatten-IsOrdered t from [] rising named = tt
  flatten-IsOrdered t from (r ∷ rs) (le, some_, rest) named =
      IsOrdered-le t from r.date (dated r.date r.funds ++ flatten rs) le (
        dated-IsOrdered t r.date 0 r.funds (flatten rs) named.0
          (flatten-IsOrdered t (r.date + 1) rs rest named.1))

  -- An entry that the query shows as it was computed: its date is a day.
  abbrev pub IsShown : Ident → (start_date end_date : Time) → Tables F → FundHistoryEntry F → Type 0
  IsShown p start_date end_date t e =
      (shown p start_date end_date t (materialized_row 0 e) ≡ true) × (midnight e.date ≡ e.date)

  shown-entries :
      (p : Ident) (start_date end_date now : Time) (t : Tables F) (es : List (FundHistoryEntry F))
      → All (IsShown p start_date end_date t) es
      → map entry_of (keep (shown p start_date end_date t) (map (materialized_row now) es)) ≡ es
  unfolding materialized_row
  shown-entries p start_date end_date now t [] h = refl
  shown-entries p start_date end_date now t (e ∷ es) h =
      let here : shown p start_date end_date t (materialized_row now e) ≡ true = h.0.0 in
      rw here (
        ap
          (λ (d : Time).
            record e { date = d }
            ∷ map entry_of (keep (shown p start_date end_date t) (map (materialized_row now) es)))
          h.0.1
        ∙ ap (λ (rest : List (FundHistoryEntry F)). e ∷ rest)
            (shown-entries p start_date end_date now t es h.1))

  -- No row that the regeneration leaves alone belongs to the portfolio and the range.
  abbrev pub NoneLeft :
      Ident → (start_date end_date : Time) → List (FundHistoryEntry F) → Tables F → Type 0
  NoneLeft p start_date end_date entries t =
      All (λ r. shown p start_date end_date t r ≡ false) (kept_rows start_date entries t)

  history_rows-replaced_rows :
      (p : Ident) (start_date end_date now from : Time) (h : List (FundHistoryResponse F))
      (t : Tables F)
      → IsRising from h
      → All (λ r. AreNamed t 0 r.funds) h
      → All (IsShown p start_date end_date t) (flatten h)
      → NoneLeft p start_date end_date (flatten h) t
      → history_rows p start_date end_date (replaced_rows start_date (flatten h) now t) ≡ flatten h
  unfolding history_rows materialized_row
  history_rows-replaced_rows p start_date end_date now from h t rising named shown_ none_ =
      rw
        (
          keep-append (shown p start_date end_date t) (kept_rows start_date (flatten h) t)
              (map (materialized_row now) (flatten h)),
          keep-none (shown p start_date end_date t) (kept_rows start_date (flatten h) t) none_,
          shown-entries p start_date end_date now t (flatten h) shown_,
        )
        (order_named-IsOrdered (replaced_rows start_date (flatten h) now t) from 0 (flatten h)
          (flatten-IsOrdered (replaced_rows start_date (flatten h) now t) from h rising named))

  -- If a history's days rise and each has a fund, the funds of a day stand in the order of their
  -- names, its entries fall on whole days within the range and belong to portfolio-funds of the
  -- portfolio with a fund that there is, and no other row of the portfolio in the range is left by
  -- the regeneration, then whichever statements fail, the database transaction of
  -- RegenerateMaterializedTable for those entries either returns an error and leaves the tables as
  -- they were, or succeeds, and what GetFundHistoryMaterialized then reads for the portfolio and
  -- the range is that history.
  pub regenerate_body-read :
      (p : Ident) (start_date end_date from : Time) (h : List (FundHistoryResponse F)) (w : World F)
      → IsRising from h
      → All (λ r. AreNamed w.tables 0 r.funds) h
      → All (IsShown p start_date end_date w.tables) (flatten h)
      → NoneLeft p start_date end_date (flatten h) w.tables
      → Commits w.tables
          (λ u t.
            format_fund_history_from_materialized (by_date (history_rows p start_date end_date t))
            ≡ map dated_response h)
          (transact (regenerate_body start_date (flatten h)) w)
  regenerate_body-read p start_date end_date from h w rising named shown_ none_ =
      transact_rule
        (weaken_result (regenerate_body_rule start_date (flatten h) w.tables) (λ u t (now, e).
          ap
            (λ (s : Tables F).
              format_fund_history_from_materialized
                (by_date (history_rows p start_date end_date s)))
            e
          ∙ ap
              (λ (es : List (FundHistoryEntry F)).
                format_fund_history_from_materialized (by_date es))
              (history_rows-replaced_rows p start_date end_date now from h w.tables rising named
                shown_ none_)
          ∙ format-flatten from h rising))
        w refl
