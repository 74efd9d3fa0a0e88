-- ===== src/Summary/Grouping.antt =====
-- What the grouping by portfolio gathers.
use investment_portfolio_man.Base.{
  ◌≡◌, inl, inr, List, [], ◌∷◌, ◌++◌, ◌==◌, if◌then◌else◌, arith, Bool-cases, ◌∙◌, sym,
}
use mathlib.Core.List.{append-nil, append_assoc}
use investment_portfolio_man.Model.{Ident, Map}
use investment_portfolio_man.History.{lookup_or, insert}
use investment_portfolio_man.History.Maps.{lookup_or-insert}
use investment_portfolio_man.Summary.{Grouped, add_group, group_by_portfolio, no_groups}

module _ {A : Type 0} (owners : Map Ident) (p : Ident) where
  -- The rows of the portfolio-funds that the portfolio owns, one portfolio-fund after the other.
  abbrev pub owned_rows : Map (List A) → List A
  owned_rows [] = []
  owned_rows ((pf_id, rows) ∷ m) =
      if lookup_or 0 pf_id owners == p then rows ++ owned_rows m else owned_rows m

  add_group-owned :
      (g : Grouped A) (owner : Ident) (rows rest : List A)
      → lookup_or [] p (insert owner (lookup_or [] owner g.by_portfolio ++ rows) g.by_portfolio)
          ++ rest
        ≡ lookup_or [] p g.by_portfolio ++ (if owner == p then rows ++ rest else rest)
  add_group-owned g owner rows rest = elim (Bool-cases (owner == p)) [
    | inl same ↦
        let e : owner ≡ p = ground (arith, same) in
        rw (
          lookup_or-insert [] (lookup_or [] owner g.by_portfolio ++ rows) p owner g.by_portfolio,
          same,
          e,
          append_assoc (lookup_or [] p g.by_portfolio) rows rest,
        )
    | inr other ↦ rw (
      lookup_or-insert [] (lookup_or [] owner g.by_portfolio ++ rows) p owner g.by_portfolio,
      other,
    )
  ]

  group-owned_rows :
      (m : Map (List A)) (g : Grouped A)
      → lookup_or [] p (group_by_portfolio owners m g).by_portfolio
        ≡ lookup_or [] p g.by_portfolio ++ owned_rows m
  unfolding group_by_portfolio
  group-owned_rows [] g = sym (append-nil (lookup_or [] p g.by_portfolio))
  group-owned_rows ((pf_id, rows) ∷ m) g =
      group-owned_rows m (add_group owners pf_id rows g)
      ∙ add_group-owned g (lookup_or 0 pf_id owners) rows (owned_rows m)

  -- After the grouping by portfolio a portfolio has the rows of each portfolio-fund that it owns,
  -- one portfolio-fund after the other in the order of the iteration, and no others.
  pub group_by_portfolio-owned_rows :
      (m : Map (List A))
      → lookup_or [] p (group_by_portfolio owners m no_groups).by_portfolio ≡ owned_rows m
  group_by_portfolio-owned_rows m = group-owned_rows m no_groups
