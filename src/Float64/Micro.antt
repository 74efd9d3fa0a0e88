-- ===== src/Float64/Micro.antt =====
-- Fixed-point numbers of six decimals, as one instance of `Float64`: every operation is exact but
-- `*` and `/`, which drop what lies below the sixth decimal, and `x / 0`, which is 0.
use investment_portfolio_man.Base.{ℕ, ◌+◌, ◌*◌, ◌/◌, if◌then◌else◌}
use investment_portfolio_man.Base.Int.{ℤ, pos, ◌+ℤ◌, ◌-ℤ◌, abs, ltb_ℤ, eqb_ℤ, signed}
use investment_portfolio_man.Float64.{Float64}

abbrev pub Micro : Type 0
Micro = ℤ

abbrev unit : ℕ
unit = 1_000_000

abbrev mul_micro : ℤ → ℤ → ℤ
mul_micro a b = signed a b (abs a * abs b / unit)

abbrev div_micro : ℤ → ℤ → ℤ
div_micro a b = signed a b (abs a * unit / abs b)

-- To the nearest whole number, a half away from zero.
abbrev round_micro : ℤ → ℤ
round_micro a = signed a (pos 0) ((abs a + 500_000) / unit * unit)

instance abbrev pub micro_float : Float64 Micro
micro_float = record {
  num = λ n. pos (n * unit);
  hundredth = pos 10_000;
  add = ◌+ℤ◌;
  sub = ◌-ℤ◌;
  mul = mul_micro;
  div = div_micro;
  neg = λ a. pos 0 -ℤ a;
  abs = λ a. pos (abs a);
  max = λ a b. if ltb_ℤ a b then b else a;
  round_half = round_micro;
  lt = ltb_ℤ;
  eq = eqb_ℤ;
}
