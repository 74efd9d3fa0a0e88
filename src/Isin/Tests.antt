-- ===== src/Isin/Tests.antt =====
-- The ISIN US0378331005, of which all but the last digit is given.
use investment_portfolio_man.Base.{ℕ, ◌≡◌, refl, false, arith, List, [], ◌∷◌, ◌++◌}
use investment_portfolio_man.Isin.{check_digit, validate_isin, digits_of, luhn_sum}
use investment_portfolio_man.Isin.CheckDigit.{validate_isin-exchange}

abbrev us037833100 : List ℕ
us037833100 = 85 ∷ 83 ∷ 48 ∷ 51 ∷ 55 ∷ 56 ∷ 51 ∷ 51 ∷ 49 ∷ 48 ∷ 48 ∷ []

five : check_digit us037833100 ≡ 5
unfolding check_digit luhn_sum digits_of
five = refl

validate_isin-exchange_example :
    validate_isin
      (((85 ∷ 83 ∷ []) ++ (49 ∷ 51 ∷ 55 ∷ 56 ∷ 51 ∷ 51 ∷ 49 ∷ 48 ∷ 48 ∷ [])) ++ (53 ∷ []))
    ≡ false
unfolding validate_isin check_digit luhn_sum digits_of
validate_isin-exchange_example =
    validate_isin-exchange (85 ∷ 83 ∷ []) (51 ∷ 55 ∷ 56 ∷ 51 ∷ 51 ∷ 49 ∷ 48 ∷ 48 ∷ []) 48 49 53 refl
      refl refl refl (λ e. omega arith) refl
