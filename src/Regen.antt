-- ===== src/Regen.antt =====
-- Background regeneration of the materialized table, internal/service/materialized_service.go:
-- the map `regenInFlight`, `triggerBackgroundRegeneration`, and the goroutines of `runRegenLoop`.
-- A step is one region under `regenMu`, or one return of `RegenerateMaterializedTable`; a
-- goroutine that is spawned after the unlock is one that has not moved yet. Dates are numbers.
pub mod Flight
pub mod Coverage
pub mod Tests
use mathlib.Core.Option
use investment_portfolio_man.Base.{
  ◌≡◌, ℕ, zero, suc, false, ◌+◌, Bool, Option, none, some, List, [], ◌∷◌, ◌++◌, leb, ltb, ◌==◌,
  if◌then◌else◌,
}

abbrev pub max_regen_retries : ℕ
max_regen_retries = 3

-- Where a goroutine stands, with its count of consecutive failures and its start date.
pub data Phase : Type 0 where
  top : ℕ → Phase
  running : ℕ → ℕ → Phase
  aborting : Phase
  checking : ℕ → ℕ → Phase

abbrev pub InFlight : Type 0
InFlight = ℕ → Option ℕ

abbrev pub put : InFlight → ℕ → Option ℕ → InFlight
put m p v q = if p == q then v else m q

-- `asked` records the dates that were asked for since a portfolio's entry was made.
pub record System : Type 0 where
  pub in_flight : InFlight
  pub loops : List (ℕ × Phase)
  pub asked : ℕ → List ℕ

abbrev pub ask : (ℕ → List ℕ) → ℕ → List ℕ → ℕ → List ℕ
ask a p dates q = if p == q then dates else a q

-- One turn of the loop over `portfolioIDs` in `triggerBackgroundRegeneration`, by the entry found.
trigger_entry : ℕ → ℕ → System → Option ℕ → System
trigger_entry start p s (some existing) = record s {
  in_flight = if ltb start existing then put s.in_flight p (some start) else s.in_flight;
  asked = ask s.asked p (start ∷ s.asked p);
}
trigger_entry start p s none = record {
  in_flight = put s.in_flight p (some start);
  loops = s.loops ++ ((p, top 0) ∷ []);
  asked = ask s.asked p (start ∷ []);
}

pub trigger_one : ℕ → ℕ → System → System
unfolding trigger_entry
trigger_one start p s = trigger_entry start p s (s.in_flight p)

pub trigger : List ℕ → ℕ → System → System
trigger [] start s = s
trigger (p ∷ ps) start s = trigger ps start (trigger_one start p s)

-- What a move leaves of the goroutine and of its portfolio's entry.
pub record Moved : Type 0 where
  pub phase : Option Phase
  pub entry : Option ℕ

-- `current` of an absent key is the zero time, which is before no date.
abbrev before_start : Option ℕ → ℕ → Bool
before_start none d = ltb 0 d
before_start (some e) d = ltb e d

-- One move of a goroutine of `runRegenLoop`, `failed` being what the regeneration returned.
pub move : Bool → Phase → Option ℕ → Moved
move failed (top f) none = record { phase = none; entry = none }
move failed (top f) (some d) = record { phase = some (running f d); entry = some d }
move failed (running f d) e =
    let failures = if failed then f + 1 else 0 in
    record {
      phase = some (if leb max_regen_retries failures then aborting else checking failures d);
      entry = e;
    }
move failed aborting e = record { phase = none; entry = none }
move failed (checking f d) e =
    if before_start e d
    then record { phase = some (top f); entry = e }
    else record { phase = none; entry = none }

abbrev pub goroutine : ℕ → Option Phase → List (ℕ × Phase)
goroutine p none = []
goroutine p (some ph) = (p, ph) ∷ []

abbrev pub asked_after : Option ℕ → List ℕ → List ℕ
asked_after none dates = []
asked_after (some e) dates = dates

-- The regeneration that a phase waits for, and whether it fails.
abbrev started : Phase → List ℕ
started (running f d) = d ∷ []
started _ = []

abbrev failing : (ℕ → Bool) → Phase → Bool
failing outcome (running f d) = outcome f
failing outcome _ = false

-- The goroutine of `p` that stands between `before` and `after` moves.
pub moved :
    Bool → (before : List (ℕ × Phase)) → ℕ → Phase → (after : List (ℕ × Phase)) → System → System
moved failed before p ph after s =
    let m = move failed ph (s.in_flight p) in
    record {
      in_flight = put s.in_flight p m.entry;
      loops = before ++ (goroutine p m.phase ++ after);
      asked = ask s.asked p (asked_after m.entry (s.asked p));
    }

-- `runRegenLoop` alone: the start dates of its regenerations, when `outcome f` tells whether the one
-- that follows `f` failures fails. `none` is a run that the fuel cuts off.
pub run_alone : ℕ → (ℕ → Bool) → Option Phase → Option ℕ → Option (List ℕ)
run_alone zero outcome ph e = none
run_alone (suc fuel) outcome none e = some []
run_alone (suc fuel) outcome (some ph) e =
    let m = move (failing outcome ph) ph e in
    Option.map (λ dates. started ph ++ dates) (run_alone fuel outcome m.phase m.entry)

-- Every interleaving of requests and goroutines.
pub data Step : System → System → Type 0 where
  request : (ps : List ℕ) (start : ℕ) (s : System) → Step s (trigger ps start s)
  turn :
      (failed : Bool) (before : List (ℕ × Phase)) (p : ℕ) (ph : Phase) (after : List (ℕ × Phase))
      (s : System)
      → s.loops ≡ before ++ ((p, ph) ∷ after)
      → Step s (moved failed before p ph after s)

abbrev pub idle : System
idle = record { in_flight = λ p. none; loops = []; asked = λ p. [] }

pub data Reach : System → Type 0 where
  here : Reach idle
  next : {s t : System} → Reach s → Step s t → Reach t
