-- ===== src/Tests/Wallet.antt =====
-- A witness on a payment to a wallet.
use chain_nodelib.Prelude.{
  ℕ, ◌≡◌, refl, sym, ap, eq_iff, arith, String, true, none, some, [], ◌∷◌, if◌then◌else◌, str_eq,
}
use chain_nodelib.Method.{ok, err, argument}
use chain_nodelib.Number.{whole}
use chain_nodelib.Buffer.{Buffer}
use chain_nodelib.Network.{mainnet, ow_network_config}
use chain_nodelib.Types.{Input, Output, ow_tx_id, ow_coin, prefix_network}
use chain_nodelib.KeyPair.{KeyPair, from_private_key}
use chain_nodelib.HdWallet.{Bip, HdWallet, derivef, derive, format, kind}
use chain_nodelib.Address
use chain_nodelib.Native.{Env, AddressNative}
use chain_nodelib.Transaction.Transfer.{add_input, add_output}
use chain_nodelib.Transaction.Transfer.Export.{MaySign}
use chain_nodelib.Transaction.Transfer.Wallet.{
  AddressLaws, payment, paid, spending, spent, payment-MaySign,
}
use chain_nodelib.Tests.{env}
use chain_nodelib.Tests.Transfer.{empty_builder, ready_builder}

-- Keys and addresses of the main network alone.
abbrev main_addresses : AddressNative
main_addresses = record env.address {
  get_transfer_address_from_public_key =
      λ key network. if str_eq network "Mainnet" then ok "cro1" else err argument;
}

abbrev main_env : Env ℕ
main_env = record env { address = main_addresses }

main_only :
    (key : Buffer) (network address : String)
    → main_addresses.get_transfer_address_from_public_key key network ≡ ok address
    → (str_eq network "Mainnet" ≡ true) × (address ≡ "cro1")
main_only key network address e = ground arith

main_addresses-AddressLaws : AddressLaws main_addresses
main_addresses-AddressLaws = record {
  valid = λ key network address e. (main_only key network address e).0;
  prefix = λ key network address e.
      let (same, e') = main_only key network address e in
      (mainnet, ap prefix_network e', sym ((eq_iff network "Mainnet").0 same));
}

abbrev wallet : HdWallet
wallet = record { seed = 8 ∷ [] }

abbrev bip : Bip
bip = record {
  derive_private_key = λ seed path. ok (some seed);
  validate_mnemonic = λ words. true;
  mnemonic_to_seed_sync = λ words passphrase. 8 ∷ [];
}

abbrev derived : KeyPair
derived = record {
  inner_public_key = some (4 ∷ 8 ∷ []);
  inner_compressed_public_key = some (2 ∷ 8 ∷ []);
  inner_private_key = some (8 ∷ []);
}

abbrev paid_output : Output ℕ
paid_output = payment "cro1" 10 none

abbrev tx_id_text : String
tx_id_text = "0123456789abcdef0123456789abcdef0123456789abcdef0123456789abcdef"

abbrev spent_input : Input ℕ
spent_input = spending tx_id_text 2 paid_output

payment-MaySign_example :
    (add_output main_env paid_output ready_builder ≡ (ok tt, paid paid_output ready_builder))
    × (add_input main_env spent_input empty_builder ≡ (ok tt, spent spent_input empty_builder))
    × MaySign main_env (whole 0) derived (spent spent_input empty_builder)
unfolding derivef derive from_private_key format kind Address.transfer ow_network_config ow_coin
    ow_tx_id
payment-MaySign_example =
    payment-MaySign main_env main_addresses-AddressLaws bip wallet (b'm' ∷ []) [] derived "cro1" 10
      none tx_id_text 2 ready_builder empty_builder refl refl refl refl refl
