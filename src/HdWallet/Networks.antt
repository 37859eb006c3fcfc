-- ===== src/HdWallet/Networks.antt =====
-- lib/src/hd_wallet/hd_wallet.ts on the paths of lib/src/network: what `derivef` derives for an account
-- and an index.
use mathlib.Core.List.{append-nil}
use chain_nodelib.Prelude.{
  ℕ, ◌<◌, ◌≡◌, sym, ap, ◌∙◌, String, Bool, true, false, List, [], ◌∷◌, ◌++◌, map, arith, All,
}
use chain_nodelib.Method.{ok, ow, and_then}
use chain_nodelib.Number.{whole}
use chain_nodelib.Buffer.{codes}
use chain_nodelib.BigNumber.{BigNumbers}
use chain_nodelib.Network.{
  NetworkConfig, DevnetOptions, mainnet_config, testnet_config, devnet_config,
}
use chain_nodelib.HdWallet.{kind, number_text, format}
use chain_nodelib.HdWallet.Format.{Piece, char, placeholder, IsPiece, format-print}

-- The pieces of a path with these characters at its start.
abbrev bip44_pieces : String → List Piece
bip44_pieces start =
    map char (codes start)
    ++ placeholder (codes "ACCOUNT") ∷ map char (codes "'/0/")
    ++ placeholder (codes "INDEX") ∷ []

-- The path of an account and an index.
abbrev pub bip44 : String → ℕ → ℕ → List ℕ
bip44 start account index =
    codes start ++ (number_text account ++ (codes "'/0/" ++ number_text index))

mainnet-IsPiece : All IsPiece (bip44_pieces "m/44'/394'/")
unfolding kind
mainnet-IsPiece = ground arith

testnet-IsPiece : All IsPiece (bip44_pieces "m/44'/1'/")
unfolding kind
testnet-IsPiece = ground arith

ow-eq-ok :
    {A B : Type 0} (test : Bool) (a : A) (f : A → B) {b : A}
    → and_then (ow test) (λ _. ok a) ≡ ok b
    → f a ≡ f b
ow-eq-ok true a f h = ground (arith, h)
ow-eq-ok false a f h = cc

module _ (account index : ℕ) (account_bound : account < 4294967296)
    (index_bound : index < 4294967296) where
  pub format-mainnet :
      format (codes "m/44'/394'/{ACCOUNT}'/0/{INDEX}") (whole account ∷ whole index ∷ [])
      ≡ ok (bip44 "m/44'/394'/" account index)
  format-mainnet =
      format-print (bip44_pieces "m/44'/394'/") (account ∷ index ∷ []) mainnet-IsPiece
        (account_bound, (index_bound, tt))
      ∙ ap (λ t. ok (codes "m/44'/394'/" ++ (number_text account ++ (codes "'/0/" ++ t))))
          (append-nil (number_text index))

  pub format-testnet :
      format (codes "m/44'/1'/{ACCOUNT}'/0/{INDEX}") (whole account ∷ whole index ∷ [])
      ≡ ok (bip44 "m/44'/1'/" account index)
  format-testnet =
      format-print (bip44_pieces "m/44'/1'/") (account ∷ index ∷ []) testnet-IsPiece
        (account_bound, (index_bound, tt))
      ∙ ap (λ t. ok (codes "m/44'/1'/" ++ (number_text account ++ (codes "'/0/" ++ t))))
          (append-nil (number_text index))

  -- The path that `derivef` derives for an account and an index below 2 ^ 32 is
  -- `m/44'/394'/account'/0/index` on the main network, and `m/44'/1'/account'/0/index` on the test
  -- network and on every development network.
  format-bip44_path :
      {B : Type 0} (big : BigNumbers B) (options : DevnetOptions B) (config : NetworkConfig B)
      → devnet_config big options ≡ ok config
      → (format (codes (mainnet_config big).bip44_path) (whole account ∷ whole index ∷ [])
          ≡ ok (bip44 "m/44'/394'/" account index))
        × (format (codes (testnet_config big).bip44_path) (whole account ∷ whole index ∷ [])
            ≡ ok (bip44 "m/44'/1'/" account index))
        × (format (codes config.bip44_path) (whole account ∷ whole index ∷ [])
            ≡ ok (bip44 "m/44'/1'/" account index))
  unfolding devnet_config
  format-bip44_path big options config h = (
    format-mainnet,
    format-testnet,
    sym (ow-eq-ok _ _ (λ c. format (codes c.bip44_path) (whole account ∷ whole index ∷ [])) h)
        ∙ format-testnet,
  )
