-- ===== src/Prices/Rows.antt =====
-- The rows of `fund_price` that a query returns, and what an insertion adds.
use investment_portfolio_man.Base.{
  ◌≡◌, refl, ◌⊎◌, inl, inr, Bool, true, false, ◌&&◌, ◌||◌, List, [], ◌∷◌, ◌++◌, keep, find?, leb,
  ◌==◌, arith, All, All-keep, All-append, All-mono, Bool-cases, ◌∙◌, subst, ap,
}
use investment_portfolio_man.Result.{ok, ok-injective}
use investment_portfolio_man.Model.{Ident, Time, Map, midnight, FundPrice}
use investment_portfolio_man.History.{lookup_or, insert}
use investment_portfolio_man.History.Maps.{lookup_or-insert}
use investment_portfolio_man.Store.Tables.{Tables}
use investment_portfolio_man.Store.Effects.{is_some}
use investment_portfolio_man.Materialized.{contains, insert_ordered, order_by, group_from}
use investment_portfolio_man.Materialized.Loader.{scanned_rows, prices_between, between}

pub midnight_twice : (t : Time) → midnight (midnight t) ≡ midnight t
midnight_twice t = omega arith

module _ {A : Type 0} where
  -- A row stands in a table.
  abbrev pub In : A → List A → Type 0
  In x [] = ⊥
  In x (y ∷ ys) = (y ≡ x) ⊎ In x ys

  All-In-more : (y : A) (xs ys : List A) → All (λ x. In x ys) xs → All (λ x. In x (y ∷ ys)) xs
  All-In-more y xs ys = All-mono (λ x. In x ys) (λ x. In x (y ∷ ys)) (λ x h. inr h) xs

  pub All-In : (xs : List A) → All (λ x. In x xs) xs
  All-In [] = tt
  All-In (x ∷ xs) = (inl refl, All-In-more x xs xs (All-In xs))

module _ {A : Type 0} (P : A → Type 0) where
  All-insert_ordered :
      (date : A → Time) (x : A) (xs : List A) → P x → All P xs → All P (insert_ordered date x xs)
  unfolding insert_ordered
  All-insert_ordered date x [] p h = (p, tt)
  All-insert_ordered date x (y ∷ ys) p h = elim (Bool-cases (leb (date x) (date y))) [
    | inl e ↦ rw e ((p, h))
    | inr e ↦ rw e ((h.0, All-insert_ordered date x ys p h.1))
  ]

  All-order_by : (date : A → Time) (xs : List A) → All P xs → All P (order_by date xs)
  unfolding order_by
  All-order_by date [] h = tt
  All-order_by date (x ∷ xs) h =
      All-insert_ordered date x (order_by date xs) h.0 (All-order_by date xs h.1)

  -- What a map has for a key.
  abbrev pub Filed : (A → Ident) → Ident → Map (List A) → Type 0
  Filed key k m = All (λ x. P x × (key x ≡ k)) (lookup_or [] k m)

  insert-Filed :
      (key : A → Ident) (k : Ident) (x : A) (m : Map (List A))
      → P x
      → Filed key k m
      → Filed key k (insert (key x) (lookup_or [] (key x) m ++ (x ∷ [])) m)
  insert-Filed key k x m p h = elim (Bool-cases (key x == k)) [
    | inl e ↦
        let same : key x ≡ k = ground (arith, e) in
        rw (lookup_or-insert [] (lookup_or [] (key x) m ++ (x ∷ [])) k (key x) m, e, same)
          (All-append (λ y. P y × (key y ≡ k)) (lookup_or [] k m) (x ∷ []) h ((p, same), tt))
    | inr e ↦ rw (lookup_or-insert [] (lookup_or [] (key x) m ++ (x ∷ [])) k (key x) m, e) h
  ]

  group_from-Filed :
      (key : A → Ident) (k : Ident) (xs : List A) (m : Map (List A))
      → All P xs
      → Filed key k m
      → Filed key k (group_from key m xs)
  unfolding group_from
  group_from-Filed key k [] m p h = h
  group_from-Filed key k (x ∷ xs) m p h =
      group_from-Filed key k xs (insert (key x) (lookup_or [] (key x) m ++ (x ∷ [])) m) p.1
        (insert-Filed key k x m p.0 h)

scanned_rows-answer :
    {A B : Type 0} (undated : A → Bool) (answer : List A → B) (rows : List A) {b : B}
    → scanned_rows undated answer rows ≡ ok b
    → answer rows ≡ b
scanned_rows-answer undated answer rows e = elim (Bool-cases (is_some (find? undated rows))) [
  | inl h ↦ cc (rw h at e)
  | inr h ↦ ok-injective (rw h at e)
]

-- Whether a table has a price for a fund and a day.
abbrev pub priced : {F : Type 0} → Ident → Time → List (FundPrice F) → Bool
priced fund_id date [] = false
priced fund_id date (p ∷ ps) =
    p.fund_id == fund_id && midnight p.date == date || priced fund_id date ps

pub priced-append :
    {F : Type 0} (fund_id : Ident) (date : Time) (ps qs : List (FundPrice F))
    → priced fund_id date (ps ++ qs) ≡ (priced fund_id date ps || priced fund_id date qs)
priced-append fund_id date [] qs = refl
priced-append fund_id date (p ∷ ps) qs = ground (arith, priced-append fund_id date ps qs)

pub In-priced :
    {F : Type 0} (fund_id : Ident) (p : FundPrice F) (ps : List (FundPrice F))
    → In p ps
    → p.fund_id ≡ fund_id
    → priced fund_id (midnight p.date) ps ≡ true
In-priced {F} fund_id p [] i h = absurd i
In-priced {F} fund_id p (q ∷ qs) (inl e) h =
    subst (λ x. priced fund_id (midnight x.date) (q ∷ qs) ≡ true) e
      (let same : q.fund_id ≡ fund_id = ap (λ (x : FundPrice F). x.fund_id) e ∙ h in
        ground (arith, same))
In-priced {F} fund_id p (q ∷ qs) (inr i) h = ground (arith, In-priced fund_id p qs i h)

module _ {F : Type 0} where
  pub prices_between-In :
      (fund_ids : List Ident) (start_date end_date : Time) (t : Tables F) (k : Ident)
      {by : Map (List (FundPrice F))}
      → prices_between fund_ids start_date end_date t ≡ ok by
      → All (λ (x : FundPrice F). In x t.fund_prices × (x.fund_id ≡ k)) (lookup_or [] k by)
  unfolding prices_between
  prices_between-In fund_ids start_date end_date t k e =
      let rows =
        keep
          (λ (x : FundPrice F). contains x.fund_id fund_ids && between start_date end_date x.date)
          t.fund_prices in
      let found : All (λ x. In x t.fund_prices) rows =
        All-keep (λ x. In x t.fund_prices) _ t.fund_prices (All-In t.fund_prices) in
      subst
        (λ by. All (λ (x : FundPrice F). In x t.fund_prices × (x.fund_id ≡ k)) (lookup_or [] k by))
        (scanned_rows-answer (λ (x : FundPrice F). x.date == 0)
          (group_from (λ (x : FundPrice F). x.fund_id) [])
          (order_by (λ (x : FundPrice F). x.date) rows) e)
        (group_from-Filed (λ x. In x t.fund_prices) (λ (x : FundPrice F). x.fund_id) k
          (order_by (λ (x : FundPrice F). x.date) rows) []
          (All-order_by (λ x. In x t.fund_prices) (λ (x : FundPrice F). x.date) rows found) tt)
