-- ===== src/Prices/Filter.antt =====
-- What `filterMissingPrices` keeps, and what the insertion of its prices leaves.
use investment_portfolio_man.Base.{
  ◌≡◌, refl, inl, inr, Bool, true, false, not, ◌&&◌, ◌||◌, List, [], ◌∷◌, ◌++◌, map, ◌==◌, arith,
  All, Bool-cases, ◌∙◌, sym, subst, ap,
}
use mathlib.Core.List.{append-nil, append_assoc}
use investment_portfolio_man.Float64.{Float64}
use investment_portfolio_man.Result.{constraint}
use investment_portfolio_man.Model.{Ident, Time, Map, midnight, FundPrice}
use investment_portfolio_man.History.{insert}
use investment_portfolio_man.Store.Tables.{Tables}
use investment_portfolio_man.Store.Effects.{is_some, find_fund}
use investment_portfolio_man.Store.Monad.{new_uuid}
use investment_portfolio_man.Store.Triples.{
  Answers-guard, Ensures, bind_rule, pure_rule, exec_rule, statement_rule, new_uuid_rule, if_rule,
  weaken_result,
}
use investment_portfolio_man.Store.Quiet.{IsRead, bind-IsRead, new_uuid-IsRead}
use investment_portfolio_man.Store.Prices.{
  has_price_id, has_price_row, stored_price, with_new_price, insert_fund_price,
  insert_fund_price_row, insert_price_loop, insert_fund_prices,
}
use investment_portfolio_man.Materialized.{contains}
use investment_portfolio_man.Yahoo.{Indicators}
use investment_portfolio_man.Prices.{values, not_positive, filter_missing_prices}
use investment_portfolio_man.Prices.Rows.{priced, midnight_twice}

module _ {F : Type 0} where
  abbrev pub has_key : Time → Map (FundPrice F) → Bool
  has_key date [] = false
  has_key date ((key, p) ∷ by) = key == date || has_key date by

  -- Each price is filed under its day.
  abbrev pub IsKeyed : Ident → Map (FundPrice F) → Type 0
  IsKeyed k by = All (λ x. (midnight x.1.date ≡ x.0) × (x.1.fund_id ≡ k)) by

  insert-IsKeyed :
      (k : Ident) (p : FundPrice F) (by : Map (FundPrice F))
      → midnight p.date ≡ p.date
      → p.fund_id ≡ k
      → IsKeyed k by
      → IsKeyed k (insert p.date p by)
  insert-IsKeyed k p [] e same h = ((e, same), tt)
  insert-IsKeyed k p ((key, q) ∷ by) e same h = elim (Bool-cases (key == p.date)) [
    | inl found ↦
        let key_is : p.date ≡ key = ground (arith, found) in rw found (((e ∙ key_is, same), h.1))
    | inr other ↦ rw other ((h.0, insert-IsKeyed k p by e same h.1))
  ]

  has_key-insert :
      (date key : Time) (p : FundPrice F) (by : Map (FundPrice F))
      → has_key date (insert key p by) ≡ (key == date || has_key date by)
  has_key-insert date key p [] = refl
  has_key-insert date key p ((other, q) ∷ by) = ground (arith, has_key-insert date key p by)

  pub values-priced :
      (k : Ident) (date : Time) (by : Map (FundPrice F))
      → IsKeyed k by
      → priced k date (values by) ≡ has_key date by
  values-priced k date [] h = refl
  values-priced k date ((key, p) ∷ by) h = ground (arith, h.0.0, h.0.1, values-priced k date by h.1)

  abbrev pub with_prices : List (FundPrice F) → Tables F → Tables F
  with_prices ps t = record t { fund_prices = t.fund_prices ++ map stored_price ps }

  with_prices-more :
      (p : FundPrice F) (ps : List (FundPrice F)) (t : Tables F)
      → with_prices ps (with_new_price p t) ≡ with_prices (p ∷ ps) t
  with_prices-more p ps t =
      ap (λ rows. record t { fund_prices = rows })
        (append_assoc t.fund_prices (stored_price p ∷ []) (map stored_price ps))

  pub with_prices-none : (t : Tables F) → with_prices [] t ≡ t
  with_prices-none t = ap (λ rows. record t { fund_prices = rows }) (append-nil t.fund_prices)

  insert_price_rule :
      (before : Tables F) (p : FundPrice F)
      → Ensures (λ t. t ≡ before) (insert_fund_price p) (λ u t. t ≡ with_new_price p before)
  unfolding insert_fund_price insert_fund_price_row
  insert_price_rule before p = exec_rule _ (λ t e.
      Answers-guard (λ t'. t' ≡ with_new_price p before)
        (has_price_id p.id t
          || has_price_row p.fund_id (midnight p.date) t
          || not (is_some (find_fund p.fund_id t)))
        constraint (with_new_price p t) (ap (with_new_price p) e))

  insert_price_loop_rule :
      (before : Tables F) (ps : List (FundPrice F))
      → Ensures (λ t. t ≡ before) (insert_price_loop ps) (λ u t. t ≡ with_prices ps before)
  unfolding insert_price_loop
  insert_price_loop_rule before [] = pure_rule tt (λ t e. e ∙ sym (with_prices-none before))
  insert_price_loop_rule before (p ∷ ps) = bind_rule (insert_price_rule before p) (λ u.
      weaken_result (insert_price_loop_rule (with_new_price p before) ps)
        (λ v t e. e ∙ with_prices-more p ps before))

  pub insert_fund_prices_rule :
      (before : Tables F) (p : FundPrice F) (ps : List (FundPrice F))
      → Ensures
          (λ t. t ≡ before)
          (insert_fund_prices (p ∷ ps))
          (λ u t. t ≡ with_prices (p ∷ ps) before)
  unfolding insert_fund_prices
  insert_fund_prices_rule before p ps =
      bind_rule (statement_rule (λ t. t ≡ before)) (λ u. insert_price_loop_rule before (p ∷ ps))

module _ {F : Type 0} ⦃f : Float64 F⦄ where
  -- Whether a chart has a positive close price for a day.
  abbrev pub offered : List (Indicators F) → Time → Bool
  offered [] date = false
  offered (x ∷ xs) date =
      midnight x.date == date && not (not_positive x.price_close) || offered xs date

  module _ (missing : List Time) (k : Ident) where
    -- What is kept of the indicators, on top of a map.
    pub record Kept (xs : List (Indicators F)) (by by' : Map (FundPrice F)) : Type 0 where
      pub keyed : IsKeyed k by'
      pub more : (d : Time) → has_key d by ≡ true → has_key d by' ≡ true
      pub covers :
          (d : Time) → contains d missing ≡ true → offered xs d ≡ true → has_key d by' ≡ true

    pub filter-IsRead :
        (xs : List (Indicators F)) (by : Map (FundPrice F))
        → IsRead (filter_missing_prices xs missing k by)
    unfolding filter_missing_prices
    filter-IsRead [] by w = refl
    filter-IsRead (x ∷ xs) by w =
        elim (Bool-cases (not (contains (midnight x.date) missing) || not_positive x.price_close)) [
          | inl skip ↦ rw skip (filter-IsRead xs by w)
          | inr take ↦ rw take (bind-IsRead new_uuid _ new_uuid-IsRead (λ i. filter-IsRead xs _) w)
        ]

    offered_later :
        (x : Indicators F) (xs : List (Indicators F)) (d : Time)
        → contains d missing ≡ true
        → offered (x ∷ xs) d ≡ true
        → (not (contains (midnight x.date) missing) || not_positive x.price_close) ≡ true
        → offered xs d ≡ true
    offered_later x xs d m o skip = elim (Bool-cases (midnight x.date == d)) [
      | inl e ↦
          let same : midnight x.date ≡ d = ground (arith, e) in
          let c : contains (midnight x.date) missing ≡ true =
            subst (λ t. contains t missing ≡ true) (sym same) m in
          ground (arith, c, skip, o)
      | inr e ↦ ground (arith, e, o)
    ]

    skipped :
        (x : Indicators F) (xs : List (Indicators F)) (by by' : Map (FundPrice F))
        → (not (contains (midnight x.date) missing) || not_positive x.price_close) ≡ true
        → Kept xs by by'
        → Kept (x ∷ xs) by by'
    skipped x xs by by' skip h = record {
      keyed = h.keyed;
      more = h.more;
      covers = λ d m o. h.covers d m (offered_later x xs d m o skip);
    }

    taken :
        (x : Indicators F) (xs : List (Indicators F)) (by by' : Map (FundPrice F)) (p : FundPrice F)
        → Kept xs (insert (midnight x.date) p by) by'
        → Kept (x ∷ xs) by by'
    taken x xs by by' p h = record {
      keyed = h.keyed;
      more = λ d g. h.more d (rw (has_key-insert d (midnight x.date) p by, g) (ground arith));
      covers = λ d m o. elim (Bool-cases (midnight x.date == d)) [
        | inl e ↦ h.more d (rw (has_key-insert d (midnight x.date) p by, e) (ground arith))
        | inr e ↦ h.covers d m (ground (arith, e, o))
      ];
    }

    pub filter_missing_prices_rule :
        (P : Tables F → Type 0) (xs : List (Indicators F)) (by : Map (FundPrice F))
        → IsKeyed k by
        → Ensures P (filter_missing_prices xs missing k by) (λ by' t. P t × Kept xs by by')
    unfolding filter_missing_prices
    filter_missing_prices_rule P [] by h =
        pure_rule by (λ t p. (p, record { keyed = h; more = λ d g. g; covers = λ d m o. cc }))
    filter_missing_prices_rule P (x ∷ xs) by h =
        if_rule (not (contains (midnight x.date) missing) || not_positive x.price_close)
          (λ skip.
            weaken_result (filter_missing_prices_rule P xs by h)
              (λ by' t (p, r). (p, skipped x xs by by' skip r)))
          (λ take. bind_rule (new_uuid_rule P) (λ i.
            let p : FundPrice F = record {
              id = i;
              fund_id = k;
              date = midnight x.date;
              price = x.price_close;
            } in
            weaken_result
              (filter_missing_prices_rule P xs (insert (midnight x.date) p by)
                (insert-IsKeyed k p by (midnight_twice x.date) refl h))
              (λ by' t (q, r). (q, taken x xs by by' p r))))
