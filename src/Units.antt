-- ===== src/Units.antt =====
-- lib/src/utils: the conversions between basic units and CRO. The values of the enumeration are the
-- only ones that the check of the unit admits, so the default branches are never taken.
pub mod RoundTrip
use chain_nodelib.Prelude.{ℕ, Bool, true, false, not}
use chain_nodelib.Method.{Result, ok, require, and_then}
use chain_nodelib.BigNumber.{BigNumbers}

pub data UnitEnum : Type 0 where
  basic_unit cro : UnitEnum

-- What else the conversions use of bignumber.js.
pub record UnitOperations (B : Type 0) : Type 0 where
  pub multiplied_by : B → B → B
  pub divided_by : B → B → B
  pub is_negative : B → Bool
  pub is_greater_than : B → B → Bool

-- `new BigNumber(value)` of a value of a supported type, and `isNaN`, are parameters.
module _ {B V : Type 0} (new_big_number : V → B) (is_nan : B → Bool) where
  pub to_big_number : V → Result B
  to_big_number v =
      let big_number = new_big_number v in
      and_then (require (not (is_nan big_number)) "Expected valid number representation")
        λ _. ok big_number

module _ {B : Type 0} (big : BigNumbers B) (units : UnitOperations B) where
  -- `CRO_DECIMAL`
  abbrev pub cro_decimal : B
  cro_decimal = big.decimal 100000000 0

  -- `MAX_CRO`
  abbrev pub max_cro : B
  max_cro = big.decimal 100000000000 0

  abbrev pub verify_cro : B → Result (Unit {0})
  verify_cro value =
      and_then
        (require (big.is_integer (units.multiplied_by value cro_decimal))
          "value exceed maximum number of decimal places")
        λ _.
          and_then (require (not (units.is_negative value)) "value cannot be negative") λ _.
            require (not (units.is_greater_than value max_cro)) "value exceed maximum CRO supply"

  abbrev in_cro : B → UnitEnum → B
  in_cro value basic_unit = units.divided_by value cro_decimal
  in_cro value cro = value

  unfoldable pub to_cro : B → UnitEnum → Result B
  to_cro value from_unit =
      and_then (verify_cro (in_cro value from_unit)) λ _. ok (in_cro value from_unit)

  abbrev in_unit : B → UnitEnum → B
  in_unit value basic_unit = units.multiplied_by value cro_decimal
  in_unit value cro = value

  unfoldable pub from_cro : B → UnitEnum → Result B
  from_cro value to_unit = and_then (verify_cro value) λ _. ok (in_unit value to_unit)
