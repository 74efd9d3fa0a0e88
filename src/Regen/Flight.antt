-- ===== src/Regen/Flight.antt =====
-- One goroutine for each entry of `regenInFlight`, whatever the interleaving.
use investment_portfolio_man.Base.{
  ℕ, ◌≤◌, ◌+◌, ◌≡◌, refl, Bool, false, Option, none, some, List, [], ◌∷◌, ◌++◌, arith, ◌==◌, ==_iff,
  ==_refl, inl, inr, Bool-cases, All, leb, ltb, if◌then◌else◌, subst, ◌∙◌, ap,
}
use investment_portfolio_man.Regen.{
  Phase, top, running, aborting, checking, System, trigger_entry, trigger_one, trigger, Moved, move,
  moved, Step, request, turn, Reach, here, next, goroutine, asked_after, max_regen_retries,
}

-- The goroutines of one portfolio.
abbrev pub phases : ℕ → List (ℕ × Phase) → List Phase
phases p [] = []
phases p ((q, ph) ∷ loops) = if q == p then ph ∷ phases p loops else phases p loops

pub phases-append :
    (p : ℕ) (xs ys : List (ℕ × Phase)) → phases p (xs ++ ys) ≡ phases p xs ++ phases p ys
phases-append p [] ys = refl
phases-append p ((q, ph) ∷ xs) ys = ground (arith, phases-append p xs ys)

-- An entry is no later than the start date of its goroutine; a goroutine that has yet to read the
-- entry, or is about to delete it, says nothing.
abbrev pub FitsPhase : ℕ → Phase → Type 0
FitsPhase e (top f) = Unit
FitsPhase e (running f d) = e ≤ d
FitsPhase e aborting = Unit
FitsPhase e (checking f d) = e ≤ d

-- A portfolio with no entry has no goroutine; one with an entry has one, and the entry is no later
-- than any date asked for.
abbrev pub Agrees : Option ℕ → List Phase → List ℕ → Type 0
Agrees none phs dates = phs ≡ []
Agrees (some e) phs dates = (ph : Phase) × (phs ≡ ph ∷ []) × FitsPhase e ph × All (λ d. e ≤ d) dates

abbrev pub IsConsistent : System → Type 0
IsConsistent s = (p : ℕ) → Agrees (s.in_flight p) (phases p s.loops) (s.asked p)

pub All-le-down :
    (a b : ℕ) (dates : List ℕ) → a ≤ b → All (λ d. b ≤ d) dates → All (λ d. a ≤ d) dates
All-le-down a b [] h all = tt
All-le-down a b (d ∷ dates) h all = (omega arith, All-le-down a b dates h all.1)

FitsPhase-down : (a b : ℕ) (ph : Phase) → a ≤ b → FitsPhase b ph → FitsPhase a ph
FitsPhase-down a b (top f) h fit = tt
FitsPhase-down a b (running f d) h fit = omega arith
FitsPhase-down a b aborting h fit = tt
FitsPhase-down a b (checking f d) h fit = omega arith

phases-new :
    (p q : ℕ) (ph : Phase) (loops : List (ℕ × Phase))
    → phases q (loops ++ ((p, ph) ∷ []))
      ≡ (if p == q then phases q loops ++ (ph ∷ []) else phases q loops)
phases-new p q ph [] = refl
phases-new p q ph ((r, x) ∷ loops) = ground (arith, phases-new p q ph loops)

trigger_entry-IsConsistent :
    (start p : ℕ) (s : System) (entry : Option ℕ)
    → s.in_flight p ≡ entry
    → IsConsistent s
    → IsConsistent (trigger_entry start p s entry)
unfolding trigger_entry
trigger_entry-IsConsistent start p s none e inv q = elim (Bool-cases (p == q)) [
  | inl same ↦
      let here : p ≡ q = (==_iff p q).0 same in
      let none_left : phases p s.loops ≡ [] = rw e at (inv p) in
      rw (← here, phases-new, ==_refl, none_left) (top 0, refl, tt, omega arith)
  | inr other ↦ rw (phases-new, other) (inv q)
]
trigger_entry-IsConsistent start p s (some old) e inv q = elim (Bool-cases (p == q)) [
  | inl same ↦
      let here : p ≡ q = (==_iff p q).0 same in
      let (ph, one, fit, all) = rw e at (inv p) in
      elim (Bool-cases (ltb start old)) [
        | inl sooner ↦
            rw (← here, sooner, ==_refl)
              (
                ph,
                one,
                FitsPhase-down start old ph (ground arith) fit,
                (omega arith, All-le-down start old (s.asked p) (ground arith) all),
              )
        | inr later ↦ rw (← here, later, ==_refl, e) (ph, one, fit, (ground arith, all))
      ]
  | inr other ↦ elim (Bool-cases (ltb start old)) [
    | inl sooner ↦ rw (sooner, other) (inv q)
    | inr later ↦ rw (later, other) (inv q)
  ]
]

trigger-IsConsistent :
    (ps : List ℕ) (start : ℕ) (s : System) → IsConsistent s → IsConsistent (trigger ps start s)
unfolding trigger trigger_one
trigger-IsConsistent [] start s inv = inv
trigger-IsConsistent (p ∷ ps) start s inv =
    trigger-IsConsistent ps start (trigger_one start p s)
      (trigger_entry-IsConsistent start p s (s.in_flight p) refl inv)

abbrev singleton : Option Phase → List Phase
singleton none = []
singleton (some ph) = ph ∷ []

append-eq-singleton :
    (xs ys : List Phase) (x y : Phase) → xs ++ (x ∷ ys) ≡ y ∷ [] → (xs ≡ []) × (ys ≡ []) × (x ≡ y)
append-eq-singleton [] ys x y e = ground arith
append-eq-singleton (z ∷ []) ys x y e = cc
append-eq-singleton (z ∷ w ∷ xs) ys x y e = cc

pub not-append-eq-nil : (xs ys : List Phase) (x : Phase) → xs ++ (x ∷ ys) ≡ [] → ⊥
not-append-eq-nil [] ys x e = cc
not-append-eq-nil (z ∷ xs) ys x e = cc

phases-goroutine_ne :
    (p q : ℕ) (ph : Phase) (o : Option Phase) (after : List (ℕ × Phase))
    → (p == q) ≡ false
    → phases q (goroutine p o ++ after) ≡ phases q ((p, ph) ∷ after)
phases-goroutine_ne p q ph none after h = rw h
phases-goroutine_ne p q ph (some x) after h = rw h

phases-goroutine_self :
    (p : ℕ) (o : Option Phase) (after : List (ℕ × Phase))
    → phases p after ≡ []
    → phases p (goroutine p o ++ after) ≡ singleton o
phases-goroutine_self p none after h = h
phases-goroutine_self p (some x) after h = rw (==_refl, h)

Agrees-move :
    (failed : Bool) (ph : Phase) (e : ℕ) (dates : List ℕ)
    → FitsPhase e ph
    → All (λ d. e ≤ d) dates
    → let m = move failed ph (some e) in
      Agrees m.entry (singleton m.phase) (asked_after m.entry dates)
unfolding move
Agrees-move failed (top f) e dates fit all = (running f e, refl, omega arith, all)
Agrees-move failed (running f d) e dates fit all =
    elim (Bool-cases (leb max_regen_retries (if failed then f + 1 else 0))) [
      | inl give_up ↦ rw give_up (aborting, refl, tt, all)
      | inr go_on ↦ rw go_on (checking (if failed then f + 1 else 0) d, refl, fit, all)
    ]
Agrees-move failed aborting e dates fit all = refl
Agrees-move failed (checking f d) e dates fit all = elim (Bool-cases (ltb e d)) [
  | inl again ↦ rw again (top f, refl, tt, all)
  | inr done ↦ rw done refl
]

moved_self-IsConsistent :
    (failed : Bool) (before : List (ℕ × Phase)) (p : ℕ) (ph : Phase) (after : List (ℕ × Phase))
    (s : System) (entry : Option ℕ)
    → Agrees entry (phases p before ++ (ph ∷ phases p after)) (s.asked p)
    → let m = move failed ph entry in
      Agrees m.entry
        (phases p (before ++ (goroutine p m.phase ++ after)))
        (asked_after m.entry (s.asked p))
moved_self-IsConsistent failed before p ph after s none a =
    absurd (not-append-eq-nil (phases p before) (phases p after) ph a)
moved_self-IsConsistent failed before p ph after s (some e) (x, one, fit, all) =
    let (b, a, same) = append-eq-singleton (phases p before) (phases p after) ph x one in
    let m : Moved = move failed ph (some e) in
    rw
      (
        phases-append p before (goroutine p m.phase ++ after),
        b,
        phases-goroutine_self p m.phase after a,
      )
      (Agrees-move failed ph e (s.asked p) (rw same fit) all)

moved-IsConsistent :
    (failed : Bool) (before : List (ℕ × Phase)) (p : ℕ) (ph : Phase) (after : List (ℕ × Phase))
    (s : System)
    → s.loops ≡ before ++ ((p, ph) ∷ after)
    → IsConsistent s
    → IsConsistent (moved failed before p ph after s)
unfolding moved
moved-IsConsistent failed before p ph after s e inv q = elim (Bool-cases (p == q)) [
  | inl same ↦
      let here : p ≡ q = (==_iff p q).0 same in
      let old : Agrees (s.in_flight p) (phases p before ++ (ph ∷ phases p after)) (s.asked p) =
        subst (λ phs. Agrees (s.in_flight p) phs (s.asked p))
          (ap (phases p) e ∙ phases-append p before ((p, ph) ∷ after) ∙ rw (==_refl)) (inv p) in
      rw (← here, ==_refl) (moved_self-IsConsistent failed before p ph after s (s.in_flight p) old)
  | inr other ↦
      let mph : Option Phase = (move failed ph (s.in_flight p)).phase in
      rw
        (
          other,
          phases-append q before (goroutine p mph ++ after),
          phases-goroutine_ne p q ph mph after other,
          ← phases-append q before ((p, ph) ∷ after),
          ← e,
        )
        (inv q)
]

Step-IsConsistent : {s t : System} → Step s t → IsConsistent s → IsConsistent t
Step-IsConsistent (request ps start s) inv = trigger-IsConsistent ps start s inv
Step-IsConsistent (turn failed before p ph after s e) inv =
    moved-IsConsistent failed before p ph after s e inv

pub Reach-IsConsistent : {s : System} → Reach s → IsConsistent s
Reach-IsConsistent here p = refl
Reach-IsConsistent (next r st) p = Step-IsConsistent st (Reach-IsConsistent r) p
