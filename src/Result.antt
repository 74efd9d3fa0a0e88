-- ===== src/Result.antt =====
-- Errors as values: the errors of internal/apperrors/errors.go that the modelled code returns, and
-- those that it makes on the spot.

use investment_portfolio_man.Base.{ℕ, zero, suc, ◌≡◌, refl, List, [], ◌∷◌}

pub data Error : Type 0 where
  -- A statement of the database failed, or broke a constraint.
  database constraint : Error
  transaction_not_found portfolio_fund_not_found dividend_not_found fund_not_found : Error
  invalid_portfolio_id insufficient_shares : Error
  ibkr_transaction_not_found already_processed invalid_allocations fund_not_matched
        symbol_or_isin_required :
      Error
  config_not_found : Error
  unsupported_type parse_date no_dividends already_matched no_allocation : Error
  failed_to_retrieve_portfolio_funds portfolio_not_found invalid_fund_id no_scope invalid_range :
      Error
  no_results no_prices mismatched_lengths : Error
  -- An index out of range, at which the run panics.
  out_of_range : Error
  invalid_symbol invalid_price fund_price_not_found no_transactions fund_in_use update_failed :
      Error
  invalid_csv invalid_csv_headers no_data_rows invalid_transaction_row : Error

-- A value, or the error in its place.
pub data Result {ℓ} (Value : Type ℓ) : Type ℓ where
  err : Error → Result Value
  ok : Value → Result Value

module _ {ℓ κ} {V : Type ℓ} {W : Type κ} where
  infixl 5 ◌>>=◌
  -- `if err != nil { return … }` between two steps.
  abbrev pub ◌>>=◌ : Result V → (V → Result W) → Result W
  err why >>= next = err why
  ok value >>= next = next value

  -- Two steps that succeed have a value in between.
  pub >>=-eq-ok :
      (first : Result V) (next : V → Result W) {last : W}
      → (first >>= next) ≡ ok last
      → (between : V) × (first ≡ ok between) × (next between ≡ ok last)
  >>=-eq-ok (err why) next e = cc
  >>=-eq-ok (ok value) next e = (value, refl, e)

-- `xs[i]`.
abbrev pub cell {ℓ} : {V : Type ℓ} → ℕ → List V → Result V
cell i [] = err out_of_range
cell zero (x ∷ xs) = ok x
cell (suc i) (x ∷ xs) = cell i xs

pub ok-injective {ℓ} : {V : Type ℓ} {v w : V} → ok v ≡ ok w → v ≡ w
ok-injective e = cc
