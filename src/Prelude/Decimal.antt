-- ===== src/Prelude/Decimal.antt =====
-- Python's `Decimal` and `datetime` as the program uses them.
use Prim.Native.Nat.{ℕ}
use hqmts.Prelude.Int.{ℤ, ◌*ℤ◌, trunc_div, pos_part}

-- An amount, price or ratio as a whole number of 10^-8. Sums, differences, comparisons and
-- multiples by an `int` are exact; see `mul` and the ratio tests for the rest.
abbrev pub Decimal : Type 0
Decimal = ℤ

-- Microseconds on the exchange's clock, from some midnight on. `now_shanghai()` is an argument.
abbrev pub Datetime : Type 0
Datetime = ℕ

-- 1
abbrev pub unit : ℕ
unit = 100_000_000

-- A product of two decimals, cut to eight places towards zero. It is exact where the factors have
-- eight places between them, as a price with four and a rate with four.
unfoldable pub mul : Decimal → Decimal → Decimal
mul a b = trunc_div (a *ℤ b) unit

-- `int(a / b)` for b > 0: the scales cancel.
abbrev pub int_quotient : Decimal → Decimal → ℤ
int_quotient a b = trunc_div a (pos_part b)
