-- ===== src/Tests/Units.antt =====
-- Witnesses on the conversions of units, with amounts that are counted in basic units.
use chain_nodelib.Prelude.{ℕ, ◌+◌, ◌*◌, ◌/◌, ◌%◌, ◌≡◌, refl, true, false, ltb, leb, ◌==◌, arith}
use chain_nodelib.Method.{ok}
use chain_nodelib.BigNumber.{BigNumbers}
use chain_nodelib.Units.{basic_unit, UnitOperations, to_cro, from_cro}
use chain_nodelib.Units.RoundTrip.{UnitLaws, from_cro-to_cro}

-- A value with `k` digits behind the point, in hundred millionths.
abbrev scaled : ℕ → ℕ → ℕ
scaled n ℕ.zero = n * 100000000
scaled n (ℕ.suc k) = n

abbrev amounts : BigNumbers ℕ
amounts = record {
  decimal = scaled;
  is_integer = λ x. x % 100000000 == 0;
  is_greater_than_or_equal_to = λ x y. leb y x;
  is_less_than_or_equal_to = λ x y. leb x y;
  plus = λ x y. x + y;
  to_string = λ x. "1";
}

abbrev units : UnitOperations ℕ
units = record {
  multiplied_by = λ x y. x * (y / 100000000);
  divided_by = λ x y. x / (y / 100000000);
  is_negative = λ x. false;
  is_greater_than = λ x y. ltb y x;
}

integer_lem : (n : ℕ) → (n * 100000000 % 100000000 == 0) ≡ true
integer_lem n = ground arith

divide_lem : (n : ℕ) → n * 100000000 / 100000000 ≡ n
divide_lem n = omega arith

unit_laws : UnitLaws amounts units
unit_laws = record {
  integer_numeral = integer_lem;
  divide = divide_lem;
  multiply = λ n. refl;
  not_negative = λ n k. refl;
  greater = λ n m. refl;
}

from_cro-to_cro_example :
    from_cro amounts units 150000000 basic_unit ≡ ok (amounts.decimal 150000000 0)
unfolding to_cro
from_cro-to_cro_example = from_cro-to_cro amounts units unit_laws 150000000 150000000 refl
