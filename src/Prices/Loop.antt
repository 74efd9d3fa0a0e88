-- ===== src/Prices/Loop.antt =====
-- The days that the loop of `buildMissingDatesMap` goes through.
use investment_portfolio_man.Base.{
  ℕ, zero, suc, ◌+◌, ◌-◌, ◌/◌, ◌<◌, ◌≡◌, refl, ◌⊎◌, inl, inr, true, List, [], ◌∷◌, some, arith, ltb,
  Bool-cases, ◌∙◌, sym, subst, ap, map, All,
}
use investment_portfolio_man.Model.{Time, day, midnight, FundPrice}
use investment_portfolio_man.History.Days.{days_from, day_count, day_count-next, suc-injective}
use investment_portfolio_man.Materialized.{contains}
use investment_portfolio_man.Prices.{loop_days, missing_from, missing_of, build_missing_dates_map}

loop_days-count :
    (n fuel : ℕ) (from to : Time)
    → day_count from to ≡ n
    → n < fuel
    → loop_days fuel from to ≡ some (days_from n from)
unfolding loop_days
loop_days-count n zero from to e h = absurd (omega arith)
loop_days-count zero (suc fuel) from to e h = elim (Bool-cases (ltb to from)) [
  | inl over ↦ rw over refl
  | inr more ↦ absurd (ground (arith, day_count-next from to more))
]
loop_days-count (suc n) (suc fuel) from to e h = elim (Bool-cases (ltb to from)) [
  | inl over ↦ absurd (ground arith)
  | inr more ↦
      let fewer : day_count (from + day) to ≡ n =
        suc-injective (sym (day_count-next from to more) ∙ e) in
      rw (more, loop_days-count n fuel (from + day) to fewer (omega arith)) refl
]

-- The fuel is enough.
pub build_missing_dates_map-total :
    {F : Type 0} (existing : List (FundPrice F)) (start_date end_date : Time)
    → build_missing_dates_map existing start_date end_date
      ≡ some (
          missing_from
            (map (λ (p : FundPrice F). midnight p.date) existing)
            (days_from (day_count start_date end_date) start_date))
unfolding build_missing_dates_map
build_missing_dates_map-total existing start_date end_date =
    ap (missing_of (map (λ p. midnight p.date) existing)) (
      loop_days-count (day_count start_date end_date) ((end_date - start_date) / day + 2) start_date
        end_date refl (ground arith))

-- Each day exists, or it is missing.
abbrev pub Covered : (existing ms ts : List Time) → Type 0
Covered existing ms ts =
    All (λ t. (contains (midnight t) existing ≡ true) ⊎ (contains (midnight t) ms ≡ true)) ts

Covered-more :
    (existing ms ts : List Time) (m : Time) → Covered existing ms ts → Covered existing (m ∷ ms) ts
Covered-more existing ms [] m h = tt
Covered-more existing ms (t ∷ ts) m (inl h, hs) = (inl h, Covered-more existing ms ts m hs)
Covered-more existing ms (t ∷ ts) m (inr h, hs) =
    (inr (ground (arith, h)), Covered-more existing ms ts m hs)

pub missing_from-Covered :
    (existing ts : List Time) → Covered existing (missing_from existing ts) ts
missing_from-Covered existing [] = tt
missing_from-Covered existing (t ∷ ts) = elim (Bool-cases (contains (midnight t) existing)) [
  | inl e ↦
      let same : missing_from existing (t ∷ ts) ≡ missing_from existing ts = rw e refl in
      (inl e, subst (λ ms. Covered existing ms ts) (sym same) (missing_from-Covered existing ts))
  | inr e ↦
      let same : missing_from existing (t ∷ ts) ≡ midnight t ∷ missing_from existing ts =
        rw e refl in
      subst (λ ms. Covered existing ms (t ∷ ts)) (sym same)
        (
          inr (ground arith),
          Covered-more existing (missing_from existing ts) ts (midnight t)
              (missing_from-Covered existing ts),
        )
]
