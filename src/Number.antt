-- ===== src/Number.antt =====
-- JavaScript's numbers, as far as the library tells them apart in an index, a count or a time.
-- NaN and the infinities are left out.
use chain_nodelib.Prelude.{ℕ, Bool, true, false, ltb, leb}

pub data Number : Type 0 where
  whole : ℕ → Number
  -- strictly between the number and the next one
  fraction : ℕ → Number
  -- anything below zero
  negative : Number

-- `ow.number.integer.greaterThanOrEqual(k)`; `greaterThan(0)` and `positive` are `k = 1`
abbrev pub integer_at_least : ℕ → Number → Bool
integer_at_least k (whole n) = leb k n
integer_at_least k (fraction n) = false
integer_at_least k negative = false

-- `ow.number.uint16`
abbrev pub uint16 : Number → Bool
uint16 (whole n) = ltb n 65536
uint16 (fraction n) = false
uint16 negative = false

-- `n >= k`
abbrev pub at_least : ℕ → Number → Bool
at_least k (whole n) = leb k n
at_least k (fraction n) = leb k n
at_least k negative = false

-- `n < k`
abbrev pub less_than : ℕ → Number → Bool
less_than k (whole n) = ltb n k
less_than k (fraction n) = ltb n k
less_than k negative = true

-- `n <= k`
abbrev pub at_most : ℕ → Number → Bool
at_most k (whole n) = leb n k
at_most k (fraction n) = ltb n k
at_most k negative = true
