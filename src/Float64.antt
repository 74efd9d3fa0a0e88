-- ===== src/Float64.antt =====
-- All that the code does with a `float64`: constants, arithmetic, comparisons and `math.Round`.
-- The type and its operations are a parameter of every module that computes with shares, prices or
-- amounts; `Float64.Micro` is a concrete one.
pub mod Micro
use investment_portfolio_man.Base.{ℕ, Bool}

pub record Float64 (F : Type 0) : Type 0 where
  -- The constant that is a whole number.
  pub num : ℕ → F
  -- The constant 0.01.
  pub hundredth : F
  pub add : F → F → F
  pub sub : F → F → F
  pub mul : F → F → F
  pub div : F → F → F
  pub neg : F → F
  pub abs : F → F
  -- The predeclared `max`.
  pub max : F → F → F
  -- `math.Round`.
  pub round_half : F → F
  -- `<` and `==`; both are false at NaN.
  pub lt : F → F → Bool
  pub eq : F → F → Bool

module _ {F : Type 0} ⦃f : Float64 F⦄ where
  infixl 65 ◌+f◌ ◌-f◌
  infixl 70 ◌*f◌ ◌/f◌
  abbrev pub ◌+f◌ : F → F → F
  ◌+f◌ = f.add

  abbrev pub ◌-f◌ : F → F → F
  ◌-f◌ = f.sub

  abbrev pub ◌*f◌ : F → F → F
  ◌*f◌ = f.mul

  abbrev pub ◌/f◌ : F → F → F
  ◌/f◌ = f.div

  abbrev pub nought : F
  nought = f.num 0

  abbrev pub rounding_precision : F
  rounding_precision = f.num 1_000_000

  -- `round` of internal/service/general_helpers.go.
  unfoldable pub round : F → F
  round value = f.round_half (value *f rounding_precision) /f rounding_precision
