-- ===== src/Units/RoundTrip.antt =====
-- Amounts in basic units, in CRO and back.
use chain_nodelib.Prelude.{ℕ, ◌*◌, ◌^◌, ◌≡◌, true, false, ltb, if◌then◌else◌, arith}
use chain_nodelib.Method.{ok, err, thrown}
use chain_nodelib.BigNumber.{BigNumbers}
use chain_nodelib.Units.{basic_unit, UnitOperations, cro_decimal, to_cro, from_cro}

-- The documented laws of numbers with up to eight digits behind the point.
pub record UnitLaws {B : Type 0} (big : BigNumbers B) (units : UnitOperations B) : Type 0 where
  pub integer_numeral : (n : ℕ) → big.is_integer (big.decimal n 0) ≡ true
  pub divide :
      (n : ℕ) → units.divided_by (big.decimal n 0) (cro_decimal big units) ≡ big.decimal n 8
  pub multiply :
      (n : ℕ) → units.multiplied_by (big.decimal n 8) (cro_decimal big units) ≡ big.decimal n 0
  pub not_negative : (n k : ℕ) → units.is_negative (big.decimal n k) ≡ false
  pub greater :
      (n m : ℕ) → units.is_greater_than (big.decimal n 8) (big.decimal m 0) ≡ ltb (m * 10 ^ 8) n

module _ {B : Type 0} (big : BigNumbers B) (units : UnitOperations B)
    (laws : UnitLaws big units) where
  -- An amount of `n` basic units becomes the number of CRO with the digits of `n`, eight of them
  -- behind the point, exactly up to 10 ^ 19 basic units; above that `toCRO` throws that the supply is
  -- exceeded.
  to_cro_numeral :
      (n : ℕ)
      → to_cro big units (big.decimal n 0) basic_unit ≡ (
          if ltb (10 ^ 19) n
          then err (thrown "value exceed maximum CRO supply")
          else ok (big.decimal n 8))
  unfolding to_cro
  to_cro_numeral n =
      rw
        (
          laws.divide n,
          laws.multiply n,
          laws.integer_numeral n,
          laws.not_negative n 8,
          laws.greater n 100000000000,
        )
        (ground arith)

  -- What `toCRO` returns for a whole number of basic units, `fromCRO` turns back into that number.
  pub from_cro-to_cro :
      (n : ℕ) (amount : B)
      → to_cro big units (big.decimal n 0) basic_unit ≡ ok amount
      → from_cro big units amount basic_unit ≡ ok (big.decimal n 0)
  unfolding to_cro from_cro
  from_cro-to_cro n amount e = ground (
    arith,
    laws.divide n,
    laws.multiply n,
    laws.integer_numeral n,
    laws.not_negative n 8,
    laws.greater n 100000000000,
  )
