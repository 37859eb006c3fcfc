-- ===== src/Tests/HdWallet.antt =====
-- Witnesses on the format paths of wallets.
use chain_nodelib.Fee.{linear_fee}
use chain_nodelib.Network.{DevnetOptions, hex}
use chain_nodelib.HdWallet.Distinct.{format-bip44_path_distinct}
use chain_nodelib.Tests.{numbers}
use chain_nodelib.Prelude.{ℕ, some, refl, inr, ◌≡◌, List, [], ◌∷◌, arith, All}
use chain_nodelib.Method.{ok}
use chain_nodelib.Number.{whole}
use chain_nodelib.HdWallet.{kind, format}
use chain_nodelib.HdWallet.Format.{Piece, char, placeholder, IsPiece, print, filled, format-print}

-- `m/{ACCOUNT}'/{INDEX}`, the names shortened
abbrev path : List Piece
path =
    char b'm'
    ∷ char b'/'
    ∷ placeholder (b'A' ∷ b'C' ∷ [])
    ∷ char 39
    ∷ char b'/'
    ∷ placeholder (b'I' ∷ [])
    ∷ []

path-IsPiece : All IsPiece path
unfolding kind
path-IsPiece = ground arith

format-print_example :
    format (print path) (whole 44 ∷ whole 7 ∷ []) ≡ ok (filled path (44 ∷ 7 ∷ []))
format-print_example = format-print path (44 ∷ 7 ∷ []) path-IsPiece (omega arith, (omega arith, tt))

abbrev options : DevnetOptions ℕ
options = record {
  fee_config = record { algorithm = linear_fee; constant = some 1; coefficient = some 2 };
  chain_hex_id = hex "AB";
}

format-bip44_path_distinct_example : (◌≡◌ {A = ℕ} 3 3) × (◌≡◌ {A = ℕ} 12 12)
format-bip44_path_distinct_example =
    format-bip44_path_distinct 3 12 3 12 (omega arith) (omega arith) (omega arith) (omega arith)
      numbers "m/44'/1'/{ACCOUNT}'/0/{INDEX}" (inr refl) refl
