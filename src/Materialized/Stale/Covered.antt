-- ===== src/Materialized/Stale/Covered.antt =====
-- The last days and calculations of `GetLatestMaterializedDate`, against the rows that they are of.
use investment_portfolio_man.Base.{
  ◌≤◌, ◌≡◌, refl, sym, ap, subst, Bool, true, false, ◌==◌, ◌||◌, ltb, List, [], ◌∷◌, map, keep,
  Option, none, some, All, arith, Bool-cases, Option-cases, inl, inr, ◌⊎◌,
}
use investment_portfolio_man.Model.{Ident, Time, PortfolioFund}
use investment_portfolio_man.Store.Tables.{Tables, MaterializedRow}
use investment_portfolio_man.Store.Effects.{find_portfolio_fund}
use investment_portfolio_man.Materialized.{contains, latest_of, in_portfolios}
use investment_portfolio_man.Materialized.Stale.{Coverage, widen, rows_of, coverage}

abbrev pub Some : {A : Type 0} → (A → Type 0) → List A → Type 0
Some P [] = ⊥
Some P (x ∷ xs) = P x ⊎ Some P xs

Some-map :
    {A : Type 0} (P Q : A → Type 0) (xs : List A) → ((x : A) → P x → Q x) → Some P xs → Some Q xs
Some-map P Q [] f h = elim h [ ]
Some-map P Q (x ∷ xs) f (inl p) = inl (f x p)
Some-map P Q (x ∷ xs) f (inr p) = inr (Some-map P Q xs f p)

Some-keep :
    {A : Type 0} (q : A → Bool) (P : A → Type 0) (xs : List A)
    → Some P (keep q xs)
    → Some (λ x. (q x ≡ true) × P x) xs
Some-keep q P [] h = elim h [ ]
Some-keep q P (x ∷ xs) h = elim (Bool-cases (q x)) [
  | inl kept ↦
      let h' : P x ⊎ Some P (keep q xs) = rw kept at h in
      elim h' [ inl p ↦ inl (kept, p) | inr p ↦ inr (Some-keep q P xs p) ]
  | inr left ↦ inr (Some-keep q P xs (rw left at h))
]

pub All-keep :
    {A : Type 0} (q : A → Bool) (P : A → Type 0) (xs : List A)
    → All P (keep q xs)
    → All (λ x. q x ≡ true → P x) xs
All-keep q P [] h = tt
All-keep q P (x ∷ xs) h = elim (Bool-cases (q x)) [
  | inl kept ↦ ((λ e. (rw kept at h).0), All-keep q P xs ((rw kept at h).1))
  | inr left ↦ ((λ e. cc), All-keep q P xs (rw left at h))
]

pub All-map :
    {A : Type 0} (P Q : A → Type 0) (xs : List A) → ((x : A) → P x → Q x) → All P xs → All Q xs
All-map P Q [] f h = tt
All-map P Q (x ∷ xs) f h = (f x h.0, All-map P Q xs f h.1)

All-keep-none :
    {A : Type 0} (q : A → Bool) (xs : List A) → keep q xs ≡ [] → All (λ x. q x ≡ false) xs
All-keep-none q [] h = tt
All-keep-none q (x ∷ xs) h = elim (Bool-cases (q x)) [
  | inl kept ↦ cc (rw kept at h)
  | inr left ↦ (left, All-keep-none q xs (rw left at h))
]

-- The latest of some dates is one of them.
Some-latest :
    {A : Type 0} (key : A → Time) (x : A) (xs : List A)
    → Some (λ y. latest_of (map key (x ∷ xs)) ≡ key y) (x ∷ xs)
Some-latest key x [] = inl (ground arith)
Some-latest key x (y ∷ ys) = elim (Bool-cases (ltb (latest_of (map key (y ∷ ys))) (key x))) [
  | inl later ↦ inl (rw later refl)
  | inr not_later ↦ inr (
      subst (λ (d : Time). Some (λ z. d ≡ key z) (y ∷ ys)) (rw not_later refl)
        (Some-latest key y ys))
]

contains_self : (p : Ident) → contains p (p ∷ []) ≡ true
contains_self p = ground arith

module _ {F : Type 0} (t : Tables F) where
  -- A row, a transaction or a dividend of a portfolio, by its portfolio-fund.
  abbrev pub IsOf : Ident → (portfolio_fund_id : Ident) → Type 0
  IsOf p i = (pf : PortfolioFund) × (find_portfolio_fund i t ≡ some pf) × (pf.portfolio_id ≡ p)

  in_portfolios-IsOf : (p i : Ident) → in_portfolios (p ∷ []) t i ≡ true → IsOf p i
  in_portfolios-IsOf p i h = elim (Option-cases (find_portfolio_fund i t)) [
    | inl none_ ↦ cc (rw none_ at h)
    | inr (pf, known) ↦ (pf, known, one (rw known at h))
  ]
    where
      one : {a b : Ident} → (a == b || false) ≡ true → a ≡ b
      one h = ground (arith, h)

  pub IsOf-in_portfolios :
      (p i : Ident) (ids : List Ident)
      → IsOf p i
      → contains p ids ≡ true
      → in_portfolios ids t i ≡ true
  IsOf-in_portfolios p i ids (pf, known, same) h = rw (known, same) h

  -- A portfolio without rows, or with a row of the day or a later one.
  abbrev pub IsCovered : Time → Ident → Type 0
  IsCovered day p =
      All (λ (r : MaterializedRow F). IsOf p r.entry.portfolio_fund_id → ⊥) t.materialized
      ⊎ Some (λ (r : MaterializedRow F). IsOf p r.entry.portfolio_fund_id × (day ≤ r.entry.date))
          t.materialized

  -- A time at which some row of the portfolios was calculated.
  abbrev pub IsCalculation : List Ident → Time → Type 0
  IsCalculation ids time =
      Some
        (λ (p : Ident).
          Some
            (λ (r : MaterializedRow F). IsOf p r.entry.portfolio_fund_id × (time ≡ r.calculated_at))
            t.materialized)
        ids

  no_rows :
      (p : Ident)
      → rows_of p t ≡ []
      → All (λ (r : MaterializedRow F). IsOf p r.entry.portfolio_fund_id → ⊥) t.materialized
  no_rows p h =
      All-map
        (λ (r : MaterializedRow F). in_portfolios (p ∷ []) t r.entry.portfolio_fund_id ≡ false)
        (λ (r : MaterializedRow F). IsOf p r.entry.portfolio_fund_id → ⊥) t.materialized
        (λ r other is_of.
          cc (
            IsOf-in_portfolios p r.entry.portfolio_fund_id (p ∷ []) is_of (contains_self p),
            other,
          ))
        (All-keep-none _ t.materialized h)

  Some-row :
      (p : Ident) (P : MaterializedRow F → Type 0)
      → Some P (rows_of p t)
      → Some (λ r. IsOf p r.entry.portfolio_fund_id × P r) t.materialized
  Some-row p P h =
      Some-map _ _ t.materialized (λ r q. (in_portfolios-IsOf p r.entry.portfolio_fund_id q.0, q.1))
        (Some-keep _ P t.materialized h)

  rows_cases :
      (rs : List (MaterializedRow F))
      → (rs ≡ []) ⊎ ((r : MaterializedRow F) × (rest : List (MaterializedRow F)) × (rs ≡ r ∷ rest))
  rows_cases [] = inl refl
  rows_cases (r ∷ rs) = inr (r, rs, refl)

  abbrev date_of : Option Coverage → Time
  date_of none = 0
  date_of (some c) = c.latest_date

  abbrev calc_of : Option Coverage → Time
  calc_of none = 0
  calc_of (some c) = c.latest_calc

  -- What the rows of one portfolio give.
  abbrev own : List (MaterializedRow F) → Coverage
  own rs = record {
    latest_date = latest_of (map (λ (x : MaterializedRow F). x.entry.date) rs);
    latest_calc = latest_of (map (λ (x : MaterializedRow F). x.calculated_at) rs);
  }

  own-IsCovered :
      (p : Ident) (r : MaterializedRow F) (rs : List (MaterializedRow F)) (day : Time)
      → rows_of p t ≡ r ∷ rs
      → day ≤ (own (r ∷ rs)).latest_date
      → IsCovered day p
  own-IsCovered p r rs day e h = inr (
      Some-row p (λ x. day ≤ x.entry.date)
        (subst (Some (λ x. day ≤ x.entry.date)) (sym e) (
          Some-map _ _ (r ∷ rs) (λ x same. subst (λ (d : Time). day ≤ d) same h)
            (Some-latest (λ (x : MaterializedRow F). x.entry.date) r rs))))

  own-IsCalculation :
      (p : Ident) (ps : List Ident) (r : MaterializedRow F) (rs : List (MaterializedRow F))
      → rows_of p t ≡ r ∷ rs
      → IsCalculation (p ∷ ps) (own (r ∷ rs)).latest_calc
  own-IsCalculation p ps r rs e = inl (
      Some-row p (λ x. (own (r ∷ rs)).latest_calc ≡ x.calculated_at)
        (subst (Some (λ x. (own (r ∷ rs)).latest_calc ≡ x.calculated_at)) (sym e)
          (Some-latest (λ (x : MaterializedRow F). x.calculated_at) r rs)))

  coverage-none : (day : Time) (ids : List Ident) → coverage ids t ≡ none → All (IsCovered day) ids
  unfolding coverage
  coverage-none day [] h = tt
  coverage-none day (p ∷ ps) h = elim (rows_cases (rows_of p t)) [
    | inl empty ↦ (inl (no_rows p empty), coverage-none day ps (rw empty at h))
    | inr (r, rs, e) ↦ elim (Option-cases (coverage ps t)) [
      | inl none_ ↦ cc (rw (e, none_) at h)
      | inr (d, covers) ↦ cc (rw (e, covers) at h)
    ]
  ]

  pub coverage-IsCovered :
      (day : Time) (ids : List Ident) (c : Coverage)
      → coverage ids t ≡ some c
      → day ≤ c.latest_date
      → All (IsCovered day) ids × IsCalculation ids c.latest_calc
  unfolding coverage
  coverage-IsCovered day [] c h le = cc
  coverage-IsCovered day (p ∷ ps) c h le = elim (rows_cases (rows_of p t)) [
    | inl empty ↦
        let rest = coverage-IsCovered day ps c (rw empty at h) le in
        ((inl (no_rows p empty), rest.0), inr rest.1)
    | inr (r, rs, e) ↦ elim (Option-cases (coverage ps t)) [
      | inl none_ ↦
          let h' : some (own (r ∷ rs)) ≡ some c = rw (e, none_) at h in
          (
            (
              own-IsCovered p r rs day e (subst (λ (d : Time). day ≤ d) (sym (ap date_of h')) le),
              coverage-none day ps none_,
            ),
            subst (IsCalculation (p ∷ ps)) (ap calc_of h') (own-IsCalculation p ps r rs e),
          )
      | inr (d, covers) ↦
          let h' : widen (own (r ∷ rs)) (some d) ≡ some c = rw (e, covers) at h in
          let both =
            earlier (own (r ∷ rs)) d day (subst (λ (x : Time). day ≤ x) (sym (ap date_of h')) le) in
          let rest = coverage-IsCovered day ps d covers both.1 in
          (
            (own-IsCovered p r rs day e both.0, rest.0),
            subst (IsCalculation (p ∷ ps)) (ap calc_of h') (
                either (IsCalculation (p ∷ ps)) (own (r ∷ rs)) d (own-IsCalculation p ps r rs e)
                  (inr rest.1)),
          )
    ]
  ]
    where
      earlier :
          (a b : Coverage) (x : Time)
          → x ≤ date_of (widen a (some b))
          → (x ≤ a.latest_date) × (x ≤ b.latest_date)
      earlier a b x h = ground (arith, h)

      either :
          (P : Time → Type 0) (a b : Coverage)
          → P a.latest_calc
          → P b.latest_calc
          → P (calc_of (widen a (some b)))
      either P a b pa pb = elim (Bool-cases (ltb a.latest_calc b.latest_calc)) [
        | inl before ↦ rw before pb
        | inr after ↦ rw after pa
      ]
