-- ===== src/Regen/Coverage.antt =====
-- What the bookkeeping of `regenInFlight` promises to those who ask for a regeneration.
use investment_portfolio_man.Base.{
  ℕ, suc, ◌≤◌, ◌≡◌, ◌↔◌, Bool, Option, none, some, List, [], ◌∷◌, ◌++◌, arith, All, length, ==_refl,
  subst, ap, ◌∙◌,
}
use investment_portfolio_man.Regen.{Phase, top, checking, System, move, run_alone, Reach}
use investment_portfolio_man.Regen.Flight.{
  phases, Agrees, phases-append, not-append-eq-nil, All-le-down, Reach-IsConsistent,
}

-- In every interleaving a portfolio has at most one regeneration goroutine, and none exactly when
-- it has no entry in regenInFlight.
pub Reach-single :
    {s : System}
    → Reach s
    → (p : ℕ) → (length (phases p s.loops) ≤ 1) × ((phases p s.loops ≡ []) ↔ (s.in_flight p ≡ none))
Reach-single {s} r p =
    single (s.in_flight p) (phases p s.loops) (s.asked p) (Reach-IsConsistent r p)
  where
    single :
        (e : Option ℕ) (phs : List Phase) (dates : List ℕ)
        → Agrees e phs dates
        → (length phs ≤ 1) × ((phs ≡ []) ↔ (e ≡ none))
    single none phs dates a = ground arith
    single (some e) phs dates (ph, one, fit, all) = ground arith

-- A goroutine that ends at its check found no earlier date.
le_of_ended :
    (failed : Bool) (f d x : ℕ) → (move failed (checking f d) (some x)).phase ≡ none → d ≤ x
unfolding move
le_of_ended failed f d x done = ground arith

-- In every interleaving of requests and goroutines, when a goroutine that has checked for follow-
-- ups ends, its last regeneration started no later than any date asked for since the portfolio's
-- entry was made.
pub ended-covers-asked :
    {s : System} (failed : Bool) (before : List (ℕ × Phase)) (p f d : ℕ) (after : List (ℕ × Phase))
    → Reach s
    → s.loops ≡ before ++ ((p, checking f d) ∷ after)
    → (move failed (checking f d) (s.in_flight p)).phase ≡ none
    → All (λ asked_date. d ≤ asked_date) (s.asked p)
ended-covers-asked {s} failed before p f d after r e ends =
    covers (s.in_flight p) (s.asked p)
      (subst (λ phs. Agrees (s.in_flight p) phs (s.asked p)) split (Reach-IsConsistent r p)) ends
  where
    split : phases p s.loops ≡ phases p before ++ (checking f d ∷ phases p after)
    split = ap (phases p) e ∙ phases-append p before ((p, checking f d) ∷ after) ∙ rw (==_refl)

    covers :
        (entry : Option ℕ) (dates : List ℕ)
        → Agrees entry (phases p before ++ (checking f d ∷ phases p after)) dates
        → (move failed (checking f d) entry).phase ≡ none
        → All (λ asked_date. d ≤ asked_date) dates
    covers none dates a done =
        absurd (not-append-eq-nil (phases p before) (phases p after) (checking f d) a)
    covers (some x) dates (ph, one, fit, all) done =
        All-le-down d x dates (le_of_ended failed f d x done) all

-- A goroutine alone.
run_alone-single :
    (fuel : ℕ) (outcome : ℕ → Bool) (d : ℕ)
    → run_alone (suc (suc (suc (suc fuel)))) outcome (some (top 0)) (some d) ≡ some (d ∷ [])
unfolding run_alone move
run_alone-single fuel outcome d = ground arith
