-- ===== src/Regen/Tests.antt =====
-- Runs of the regeneration bookkeeping, and its theorems at concrete inputs.
use investment_portfolio_man.Base.{◌≤◌, ◌≡◌, refl, ◌↔◌, false, none, [], ◌∷◌, All, length}
use investment_portfolio_man.Regen.{
  top, running, checking, System, trigger, trigger_one, move, moved, idle, Reach, here, next,
  request, turn,
}
use investment_portfolio_man.Regen.Flight.{phases}
use investment_portfolio_man.Regen.Coverage.{Reach-single, ended-covers-asked}

-- Portfolio 7 is asked for from day 20, its goroutine starts, and day 25 is asked for meanwhile.
abbrev requested : System
requested = trigger (7 ∷ []) 20 idle

abbrev started_system : System
started_system = moved false [] 7 (top 0) [] requested

abbrev asked_again : System
asked_again = trigger (7 ∷ []) 25 started_system

abbrev at_check : System
at_check = moved false [] 7 (running 0 20) [] asked_again

at_check-Reach : Reach at_check
unfolding trigger trigger_one moved move
at_check-Reach =
    next
      (next
        (next (next here (request (7 ∷ []) 20 idle)) (turn false [] 7 (top 0) [] requested refl))
        (request (7 ∷ []) 25 started_system))
      (turn false [] 7 (running 0 20) [] asked_again refl)

-- A request for an earlier day is served by a second round.
earlier_request :
    (moved false [] 7 (checking 0 20) [] (trigger (7 ∷ []) 10 at_check)).loops ≡ (7, top 0) ∷ []
unfolding trigger trigger_one moved move
earlier_request = refl

Reach-single_example :
    (length (phases 7 at_check.loops) ≤ 1)
    × ((phases 7 at_check.loops ≡ []) ↔ (at_check.in_flight 7 ≡ none))
Reach-single_example = Reach-single at_check-Reach 7

ended-covers-asked_example : All (λ asked_date. 20 ≤ asked_date) (at_check.asked 7)
unfolding trigger trigger_one moved move
ended-covers-asked_example = ended-covers-asked false [] 7 0 20 [] at_check-Reach refl refl
