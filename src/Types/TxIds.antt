-- ===== src/Types/TxIds.antt =====
-- The texts that the check of transaction ids admits.
use chain_nodelib.Prelude.{
  ℕ, ◌≤◌, String, ◌≡◌, ◌⊎◌, Bool, true, List, [], ◌∷◌, arith, All, length, all,
}
use chain_nodelib.Buffer.{codes, is_hex_digit}
use chain_nodelib.Types.{ow_tx_id}

-- A digit of base 16, as a code point.
abbrev IsHexDigit : ℕ → Type 0
IsHexDigit c = ((b'0' ≤ c) × (c ≤ b'9')) ⊎ ((b'a' ≤ c) × (c ≤ b'f')) ⊎ ((b'A' ≤ c) × (c ≤ b'F'))

-- The text of 32 bytes.
abbrev pub IsTxId : String → Type 0
IsTxId id = (length (codes id) ≡ 64) × All IsHexDigit (codes id)

is_hex_digit-IsHexDigit : (c : ℕ) → is_hex_digit c ≡ true → IsHexDigit c
is_hex_digit-IsHexDigit c h = ground arith

All-of_all :
    (p : ℕ → Bool) (P : ℕ → Type 0)
    → ((n : ℕ) → p n ≡ true → P n)
    → (ns : List ℕ) → all p ns ≡ true
    → All P ns
All-of_all p P h [] e = tt
All-of_all p P h (n ∷ ns) e = (h n (ground arith), All-of_all p P h ns (ground arith))

pub ow_tx_id-IsTxId : (id : String) → ow_tx_id id ≡ true → IsTxId id
unfolding ow_tx_id
ow_tx_id-IsTxId id h = (
  ground arith,
  All-of_all is_hex_digit IsHexDigit is_hex_digit-IsHexDigit (codes id) (ground arith),
)
