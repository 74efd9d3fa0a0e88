-- ===== src/Materialized/Read/Back.antt =====
-- A history that is flattened into rows and read back.
use investment_portfolio_man.Base.{
  ◌+◌, ◌≤◌, ◌<◌, ◌≡◌, ◌≢◌, refl, sym, ◌∙◌, ap, List, [], ◌∷◌, ◌++◌, map, arith, All, All-append,
  All-mono,
}
use mathlib.Core.List.{append-nil, append_assoc}
use investment_portfolio_man.Model.{Ident, Time, Map, FundHistoryEntry, FundHistoryResponse}
use investment_portfolio_man.History.{lookup_or, insert}
use investment_portfolio_man.Materialized.{insert_ordered, order_by, group_from}
use investment_portfolio_man.Materialized.Regenerate.{dated, flatten}
use investment_portfolio_man.Materialized.Read.{
  by_date, responses, format_fund_history_from_materialized,
}

module _ {V : Type 0} where
  -- Every key of a map is below a date.
  abbrev Below : Time → Map V → Type 0
  Below d = All (λ (p : Ident × V). p.0 < d)

  lookup_or-last :
      (z v : V) (d : Time) (m : Map V) → Below d m → lookup_or z d (m ++ ((d, v) ∷ [])) ≡ v
  lookup_or-last z v d [] h = ground arith
  lookup_or-last z v d ((k, w) ∷ m) h = ground (arith, lookup_or-last z v d m h.1)

  lookup_or-none : (z : V) (d : Time) (m : Map V) → Below d m → lookup_or z d m ≡ z
  lookup_or-none z d [] h = refl
  lookup_or-none z d ((k, w) ∷ m) h = ground (arith, lookup_or-none z d m h.1)

  insert-last :
      (v w : V) (d : Time) (m : Map V)
      → Below d m
      → insert d w (m ++ ((d, v) ∷ [])) ≡ m ++ ((d, w) ∷ [])
  insert-last v w d [] h = ground arith
  insert-last v w d ((k, u) ∷ m) h = ground (arith, insert-last v w d m h.1)

  insert-new : (w : V) (d : Time) (m : Map V) → Below d m → insert d w m ≡ m ++ ((d, w) ∷ [])
  insert-new w d [] h = refl
  insert-new w d ((k, u) ∷ m) h = ground (arith, insert-new w d m h.1)

module _ {F : Type 0} where
  abbrev date_of : FundHistoryEntry F → Time
  date_of e = e.date

  append-last :
      (x : FundHistoryEntry F) (d : Time) (m : Map (List (FundHistoryEntry F)))
      (v : List (FundHistoryEntry F))
      → Below d m
      → insert d (lookup_or [] d (m ++ ((d, v) ∷ [])) ++ (x ∷ [])) (m ++ ((d, v) ∷ []))
        ≡ m ++ ((d, v ++ (x ∷ [])) ∷ [])
  append-last x d m v h = rw (lookup_or-last [] v d m h) (insert-last v (v ++ (x ∷ [])) d m h)

  append-first :
      (x : FundHistoryEntry F) (d : Time) (m : Map (List (FundHistoryEntry F)))
      → Below d m
      → insert d (lookup_or [] d m ++ (x ∷ [])) m ≡ m ++ ((d, x ∷ []) ∷ [])
  append-first x d m h = rw (lookup_or-none [] d m h) (insert-new (x ∷ []) d m h)

  group_day :
      (d : Time) (m : Map (List (FundHistoryEntry F))) (v es rest : List (FundHistoryEntry F))
      → Below d m
      → group_from date_of (m ++ ((d, v) ∷ [])) (dated d es ++ rest)
        ≡ group_from date_of (m ++ ((d, v ++ dated d es) ∷ [])) rest
  unfolding group_from dated
  group_day d m v [] rest h =
      ap (λ (u : List (FundHistoryEntry F)). group_from date_of (m ++ ((d, u) ∷ [])) rest)
        (sym (append-nil v))
  group_day d m v (e ∷ es) rest h =
      let x : FundHistoryEntry F = record e { date = d } in
      ap (λ m'. group_from date_of m' (dated d es ++ rest)) (append-last x d m v h)
      ∙ group_day d m (v ++ (x ∷ [])) es rest h
      ∙ ap (λ (u : List (FundHistoryEntry F)). group_from date_of (m ++ ((d, u) ∷ [])) rest)
          (append_assoc v (x ∷ []) (dated d es))

  -- Days in strictly rising order, each with at least one fund.
  abbrev pub IsRising : Time → List (FundHistoryResponse F) → Type 0
  IsRising from [] = Unit
  IsRising from (r ∷ rs) = (from ≤ r.date) × (r.funds ≢ []) × IsRising (r.date + 1) rs

  abbrev groups : List (FundHistoryResponse F) → Map (List (FundHistoryEntry F))
  groups = map (λ (r : FundHistoryResponse F). (r.date, dated r.date r.funds))

  group_funds :
      (d : Time) (m : Map (List (FundHistoryEntry F))) (funds rest : List (FundHistoryEntry F))
      → Below d m
      → funds ≢ []
      → group_from date_of m (dated d funds ++ rest)
        ≡ group_from date_of (m ++ ((d, dated d funds) ∷ [])) rest
  unfolding group_from dated
  group_funds d m [] rest h some_ = absurd (some_ refl)
  group_funds d m (e ∷ es) rest h some_ =
      let x : FundHistoryEntry F = record e { date = d } in
      ap (λ m'. group_from date_of m' (dated d es ++ rest)) (append-first x d m h)
      ∙ group_day d m (x ∷ []) es rest h

  Below-snoc :
      (b d : Time) (v : List (FundHistoryEntry F)) (m : Map (List (FundHistoryEntry F)))
      → Below b m
      → b ≤ d
      → Below (d + 1) (m ++ ((d, v) ∷ []))
  Below-snoc b d v m h le =
      All-append (λ (p : Ident × List (FundHistoryEntry F)). p.0 < d + 1) m ((d, v) ∷ [])
        (All-mono (λ (p : Ident × List (FundHistoryEntry F)). p.0 < b)
          (λ (p : Ident × List (FundHistoryEntry F)). p.0 < d + 1) (λ p lt. omega arith) m h)
        (omega arith, tt)

  Below-le : (b d : Time) (m : Map (List (FundHistoryEntry F))) → b ≤ d → Below b m → Below d m
  Below-le b d m le =
      All-mono (λ (p : Ident × List (FundHistoryEntry F)). p.0 < b)
        (λ (p : Ident × List (FundHistoryEntry F)). p.0 < d) (λ p lt. omega arith) m

  group_flatten :
      (b : Time) (m : Map (List (FundHistoryEntry F))) (h : List (FundHistoryResponse F))
      → Below b m
      → IsRising b h
      → group_from date_of m (flatten h) ≡ m ++ groups h
  unfolding flatten group_from
  group_flatten b m [] below rising = sym (append-nil m)
  group_flatten b m (r ∷ rs) below (from, some_, rest) =
      let m' : Map (List (FundHistoryEntry F)) = m ++ ((r.date, dated r.date r.funds) ∷ []) in
      group_funds r.date m r.funds (flatten rs) (Below-le b r.date m from below) some_
      ∙ group_flatten (r.date + 1) m' rs (Below-snoc b r.date (dated r.date r.funds) m below from)
          rest
      ∙ append_assoc m ((r.date, dated r.date r.funds) ∷ []) (groups rs)

  -- Days in order stay as they are.
  abbrev key_of : Ident × List (FundHistoryEntry F) → Time
  key_of p = p.0

  insert_ordered-first :
      (p : Ident × List (FundHistoryEntry F)) (h : List (FundHistoryResponse F))
      → IsRising (p.0 + 1) h
      → insert_ordered key_of p (groups h) ≡ p ∷ groups h
  unfolding insert_ordered
  insert_ordered-first p [] rising = refl
  insert_ordered-first p (r ∷ rs) (from, some_, rest) = ground (arith, from)

  order_by-groups :
      (b : Time) (h : List (FundHistoryResponse F))
      → IsRising b h
      → order_by key_of (groups h) ≡ groups h
  unfolding order_by
  order_by-groups b [] rising = refl
  order_by-groups b (r ∷ rs) (from, some_, rest) =
      rw (order_by-groups (r.date + 1) rs rest)
        (insert_ordered-first (r.date, dated r.date r.funds) rs rest)

  abbrev pub dated_response : FundHistoryResponse F → FundHistoryResponse F
  dated_response r = record r { funds = dated r.date r.funds }

  responses-day :
      (d : Time) (funds : List (FundHistoryEntry F)) (m : Map (List (FundHistoryEntry F)))
      → funds ≢ []
      → responses ((d, dated d funds) ∷ m)
        ≡ record { date = d; funds = dated d funds } ∷ responses m
  unfolding responses dated
  responses-day d [] m some_ = absurd (some_ refl)
  responses-day d (e ∷ es) m some_ = refl

  responses-groups :
      (b : Time) (h : List (FundHistoryResponse F))
      → IsRising b h
      → responses (groups h) ≡ map dated_response h
  unfolding responses
  responses-groups b [] rising = refl
  responses-groups b (r ∷ rs) (from, some_, rest) =
      responses-day r.date r.funds (groups rs) some_
      ∙ ap (λ rest'. dated_response r ∷ rest') (responses-groups (r.date + 1) rs rest)

  pub format-flatten :
      (b : Time) (h : List (FundHistoryResponse F))
      → IsRising b h
      → format_fund_history_from_materialized (by_date (flatten h)) ≡ map dated_response h
  unfolding format_fund_history_from_materialized by_date
  format-flatten b h rising =
      ap (λ (m : Map (List (FundHistoryEntry F))). responses (order_by key_of m))
        (group_flatten b [] h tt rising)
      ∙ ap responses (order_by-groups b h rising)
      ∙ responses-groups b h rising
