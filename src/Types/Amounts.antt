-- ===== src/Types/Amounts.antt =====
-- The values that the checks of amounts and nonces admit.
use chain_nodelib.Prelude.{ℕ, ◌≤◌, ◌^◌, ◌≡◌, ◌↔◌, sym, ◌∙◌, true, arith, leb→le, le→leb, ◌&&◌}
use chain_nodelib.BigNumber.{BigNumbers, NumberLaws}
use chain_nodelib.Types.{ow_coin, ow_account_nonce}

module _ {B : Type 0} (big : BigNumbers B) (laws : NumberLaws big) where
  -- A whole number up to a bound.
  abbrev pub IsUpTo : ℕ → B → Type 0
  IsUpTo most x = (n : ℕ) × (x ≡ big.decimal n 0) × (n ≤ most)

  IsUpTo-sound :
      (x : B) (most : ℕ)
      → (big.is_integer x
          && big.is_greater_than_or_equal_to x (big.decimal 0 0)
          && big.is_less_than_or_equal_to x (big.decimal most 0))
        ≡ true
      → IsUpTo most x
  IsUpTo-sound x most h =
      let (n, e) = laws.numeral x (ground arith) (ground arith) in
      let below : big.is_less_than_or_equal_to x (big.decimal most 0) ≡ true = ground arith in
      (n, e, leb→le n most (sym (laws.le_numeral n most) ∙ rw e at below))

  IsUpTo-complete :
      (n most : ℕ)
      → n ≤ most
      → (big.is_integer (big.decimal n 0)
          && big.is_greater_than_or_equal_to (big.decimal n 0) (big.decimal 0 0)
          && big.is_less_than_or_equal_to (big.decimal n 0) (big.decimal most 0))
        ≡ true
  IsUpTo-complete n most h =
      rw (laws.integer_numeral n, laws.ge_zero n 0, laws.le_numeral n most) (le→leb n most h)

  -- `owCoin` admits exactly the whole numbers from 0 to the maximum coin, 10 ^ 19 basic units.
  pub ow_coin_iff : (x : B) → (ow_coin big x ≡ true) ↔ IsUpTo (10 ^ 19) x
  unfolding ow_coin
  ow_coin_iff x =
      (IsUpTo-sound x (10 ^ 19), λ c. let (n, e, le) = c in rw e (IsUpTo-complete n (10 ^ 19) le))

  -- `owAccountNonce` admits exactly the whole numbers from 0 to 2 ^ 64. The last of these is no
  -- 64-bit number.
  pub ow_account_nonce_iff : (x : B) → (ow_account_nonce big x ≡ true) ↔ IsUpTo (2 ^ 64) x
  unfolding ow_account_nonce
  ow_account_nonce_iff x =
      (IsUpTo-sound x (2 ^ 64), λ c. let (n, e, le) = c in rw e (IsUpTo-complete n (2 ^ 64) le))
