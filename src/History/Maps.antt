-- ===== src/History/Maps.antt =====
-- Lookups after an update of a map.
use investment_portfolio_man.Base.{◌≡◌, refl, [], ◌∷◌, ◌==◌, if◌then◌else◌, arith}
use investment_portfolio_man.Model.{Ident, Map}
use investment_portfolio_man.History.{lookup_or, insert}

pub lookup_or-insert :
    {V : Type 0} (z v : V) (j k : Ident) (m : Map V)
    → lookup_or z j (insert k v m) ≡ (if k == j then v else lookup_or z j m)
lookup_or-insert z v j k [] = refl
lookup_or-insert z v j k ((present, old) ∷ m) = ground (arith, lookup_or-insert z v j k m)
