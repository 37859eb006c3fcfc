-- ===== src/BigNumber.antt =====
-- What the library uses of bignumber.js: a type of values with these operations, which is a
-- parameter of the model, and the documented laws of whole numbers.
use chain_nodelib.Prelude.{ℕ, ◌+◌, String, Bool, true, ◌≡◌, leb}

pub record BigNumbers (B : Type 0) : Type 0 where
  -- the number written with the digits of the first argument, of which as many as the second
  -- says stand behind the point: `new BigNumber(1.25)` is `decimal 125 2`
  pub decimal : ℕ → ℕ → B
  pub is_integer : B → Bool
  pub is_greater_than_or_equal_to : B → B → Bool
  pub is_less_than_or_equal_to : B → B → Bool
  pub plus : B → B → B
  -- `toString(10)`
  pub to_string : B → String

-- Of numerals, and of the whole numbers among the values.
pub record NumberLaws {B : Type 0} (big : BigNumbers B) : Type 0 where
  pub integer_numeral : (n : ℕ) → big.is_integer (big.decimal n 0) ≡ true
  pub ge_numeral :
      (m n : ℕ) → big.is_greater_than_or_equal_to (big.decimal m 0) (big.decimal n 0) ≡ leb n m
  pub le_numeral :
      (m n : ℕ) → big.is_less_than_or_equal_to (big.decimal m 0) (big.decimal n 0) ≡ leb m n
  pub plus_numeral :
      (m n : ℕ) → big.plus (big.decimal m 0) (big.decimal n 0) ≡ big.decimal (m + n) 0
  pub ge_zero :
      (n k : ℕ) → big.is_greater_than_or_equal_to (big.decimal n k) (big.decimal 0 0) ≡ true
  -- a whole number that is not negative is a numeral
  pub numeral :
      (x : B)
      → big.is_integer x ≡ true
      → big.is_greater_than_or_equal_to x (big.decimal 0 0) ≡ true
      → (n : ℕ) × (x ≡ big.decimal n 0)
