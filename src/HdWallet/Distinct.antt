-- ===== src/HdWallet/Distinct.antt =====
-- Paths of different accounts and indices differ.
use mathlib.Core.List.{head-eq_of_cons-eq, tail-eq_of_cons-eq}
use chain_nodelib.Prelude.{
  ℕ, zero, suc, ◌+◌, ◌/◌, ◌%◌, ◌<◌, ◌≡◌, ◌⊎◌, inl, inr, refl, sym, ap, ap₂, Bool, true, false, ◌∙◌,
  String, List, [], ◌∷◌, ◌++◌, arith, All, ltb, if◌then◌else◌,
}
use chain_nodelib.Method.{ok}
use chain_nodelib.Number.{whole}
use chain_nodelib.Buffer.{codes}
use chain_nodelib.BigNumber.{BigNumbers}
use chain_nodelib.Network.{mainnet_config, testnet_config}
use chain_nodelib.HdWallet.{decimal, number_text, format}
use chain_nodelib.HdWallet.Format.{read, read-number_text}
use chain_nodelib.HdWallet.Networks.{bip44, format-mainnet, format-testnet}

-- Digits come after the quote that ends an account.
abbrev IsDigits : List ℕ → Type 0
IsDigits = All (λ c. 39 < c)

IsDigits-concat : (cs : List ℕ) (c : ℕ) → IsDigits cs → 39 < c → IsDigits (cs ++ c ∷ [])
IsDigits-concat [] c h d = (d, tt)
IsDigits-concat (e ∷ cs) c (p, h) d = (p, IsDigits-concat cs c h d)

if-IsDigits :
    (b : Bool) (xs ys : List ℕ) → IsDigits xs → IsDigits ys → IsDigits (if b then xs else ys)
if-IsDigits true xs ys h k = h
if-IsDigits false xs ys h k = k

decimal-IsDigits : (digits n : ℕ) → IsDigits (decimal digits n)
unfolding decimal
decimal-IsDigits zero n = tt
decimal-IsDigits (suc digits) n =
    let longer =
      IsDigits-concat (decimal digits (n / 10)) (b'0' + n % 10) (decimal-IsDigits digits (n / 10))
        (omega arith) in
    let one : IsDigits ((b'0' + n) ∷ []) = (omega arith, tt) in
    if-IsDigits (ltb n 10) ((b'0' + n) ∷ []) (decimal digits (n / 10) ++ (b'0' + n % 10) ∷ []) one
      longer

split_quote :
    (xs ys r s : List ℕ)
    → IsDigits xs
    → IsDigits ys
    → xs ++ 39 ∷ r ≡ ys ++ 39 ∷ s
    → (xs ≡ ys) × (r ≡ s)
split_quote [] [] r s h k e = (refl, tail-eq_of_cons-eq e)
split_quote [] (y ∷ ys) r s h (q, k) e = absurd (omega (arith, q, head-eq_of_cons-eq e))
split_quote (x ∷ xs) [] r s (p, h) k e = absurd (omega (arith, p, head-eq_of_cons-eq e))
split_quote (x ∷ xs) (y ∷ ys) r s (p, h) (q, k) e =
    let (same, rest) = split_quote xs ys r s h k (tail-eq_of_cons-eq e) in
    (ap₂ ◌∷◌ (head-eq_of_cons-eq e) same, rest)

cancel : (xs ys zs : List ℕ) → xs ++ ys ≡ xs ++ zs → ys ≡ zs
cancel [] ys zs e = e
cancel (x ∷ xs) ys zs e = cancel xs ys zs (tail-eq_of_cons-eq e)

number_text-injective :
    (m n : ℕ) → m < 4294967296 → n < 4294967296 → number_text m ≡ number_text n → m ≡ n
number_text-injective m n bm bn e =
    sym (read-number_text m (omega arith)) ∙ ap (read 0) e ∙ read-number_text n (omega arith)

ok-injective : {a b : List ℕ} → ok a ≡ ok b → a ≡ b
ok-injective e = ground (arith, e)

module _ (account index account' index' : ℕ) (account_bound : account < 4294967296)
    (index_bound : index < 4294967296) (account_bound' : account' < 4294967296)
    (index_bound' : index' < 4294967296) where
  bip44-injective :
      (start : String)
      → bip44 start account index ≡ bip44 start account' index'
      → (account ≡ account') × (index ≡ index')
  bip44-injective start e =
      let (same_account, rest) =
        split_quote (number_text account) (number_text account') (codes "/0/" ++ number_text index)
          (codes "/0/" ++ number_text index') (decimal-IsDigits 10 account)
          (decimal-IsDigits 10 account') (cancel (codes start) _ _ e) in
      (
        number_text-injective account account' account_bound account_bound' same_account,
        number_text-injective index index' index_bound index_bound' (cancel (codes "/0/") _ _ rest),
      )

  -- With the format path of the main network, or that of the test network and of the development
  -- networks, `derivef` derives one path for two pairs of an account and an index below 2 ^ 32 only
  -- if the pairs are equal.
  pub format-bip44_path_distinct :
      {B : Type 0} (big : BigNumbers B) (path : String)
      → (path ≡ (mainnet_config big).bip44_path) ⊎ (path ≡ (testnet_config big).bip44_path)
      → format (codes path) (whole account ∷ whole index ∷ [])
        ≡ format (codes path) (whole account' ∷ whole index' ∷ [])
      → (account ≡ account') × (index ≡ index')
  format-bip44_path_distinct big path h e = elim h [
    | inl main ↦ bip44-injective "m/44'/394'/" (
        ok-injective (
          sym (format-mainnet account index account_bound index_bound)
          ∙ sym (ap (λ p. format (codes p) (whole account ∷ whole index ∷ [])) main)
          ∙ e
          ∙ ap (λ p. format (codes p) (whole account' ∷ whole index' ∷ [])) main
          ∙ format-mainnet account' index' account_bound' index_bound'))
    | inr test ↦ bip44-injective "m/44'/1'/" (
        ok-injective (
          sym (format-testnet account index account_bound index_bound)
          ∙ sym (ap (λ p. format (codes p) (whole account ∷ whole index ∷ [])) test)
          ∙ e
          ∙ ap (λ p. format (codes p) (whole account' ∷ whole index' ∷ [])) test
          ∙ format-testnet account' index' account_bound' index_bound'))
  ]
