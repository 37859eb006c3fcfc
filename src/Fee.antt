-- ===== src/Fee.antt =====
-- lib/src/fee: the fee configuration, its check and its form for the native module.
use Prim.Native.String
use chain_nodelib.Prelude.{String, Bool, true, false, ◌&&◌, Option, none, some, ◌≡◌, refl, arith}
use chain_nodelib.Method.{Result, ok, err, thrown, type_error}
use chain_nodelib.BigNumber.{BigNumbers}

-- `other` is a value that is not in the enumeration.
pub data FeeAlgorithm : Type 0 where
  linear_fee : FeeAlgorithm
  other : String → FeeAlgorithm

abbrev pub algorithm_name : FeeAlgorithm → String
algorithm_name linear_fee = "LinearFee"
algorithm_name (other name) = name

-- The two variants of the union; `none` is `undefined`.
pub record FeeConfig (B : Type 0) : Type 0 where
  pub algorithm : FeeAlgorithm
  pub constant : Option B
  pub coefficient : Option B

pub record NativeFeeConfig : Type 0 where
  pub algorithm : FeeAlgorithm
  pub constant : String
  pub coefficient : String

abbrev pub is_linear_fee : FeeAlgorithm → Bool
is_linear_fee linear_fee = true
is_linear_fee (other name) = false

module _ {B : Type 0} (big : BigNumbers B) where
  abbrev pub ow_linear_fee_milli : Option B → Bool
  ow_linear_fee_milli none = false
  ow_linear_fee_milli (some x) = big.is_greater_than_or_equal_to x (big.decimal 0 0)

  abbrev pub ow_fee_config : FeeConfig B → Bool
  ow_fee_config c =
      is_linear_fee c.algorithm
      && ow_linear_fee_milli c.constant
      && ow_linear_fee_milli c.coefficient

  -- `x.toString(10)` of a property that may be `undefined`
  abbrev parse_linear : Option B → Option B → Result NativeFeeConfig
  parse_linear (some constant) (some coefficient) = ok (record {
    algorithm = linear_fee;
    constant = big.to_string constant;
    coefficient = big.to_string coefficient;
  })
  parse_linear (some constant) none = err type_error
  parse_linear none coefficient = err type_error

  abbrev parse_by : FeeAlgorithm → Option B → Option B → Result NativeFeeConfig
  parse_by linear_fee constant coefficient = parse_linear constant coefficient
  parse_by (other name) constant coefficient =
      err (thrown (String.◌++◌ "Unsupported fee algorithm: " name))

  unfoldable pub parse_fee_config_for_native : FeeConfig B → Result NativeFeeConfig
  parse_fee_config_for_native c = parse_by c.algorithm c.constant c.coefficient

  abbrev pub zero_linear_fee : FeeConfig B
  zero_linear_fee = record {
    algorithm = linear_fee;
    constant = some (big.decimal 0 0);
    coefficient = some (big.decimal 0 0);
  }

  -- A configuration that passes the check has a form for the native module.
  pub parse-ow :
      (c : FeeConfig B)
      → ow_fee_config c ≡ true
      → (n : NativeFeeConfig) × (parse_fee_config_for_native c ≡ ok n)
  unfolding parse_fee_config_for_native
  parse-ow c h = go c.algorithm c.constant c.coefficient h
    where
      go :
          (a : FeeAlgorithm) (x y : Option B)
          → (is_linear_fee a && ow_linear_fee_milli x && ow_linear_fee_milli y) ≡ true
          → (n : NativeFeeConfig) × (parse_by a x y ≡ ok n)
      go linear_fee (some x) (some y) e = (_, refl)
      go linear_fee (some x) none e = absurd (ground arith)
      go linear_fee none y e = absurd (ground arith)
      go (other name) x y e = absurd (ground arith)
