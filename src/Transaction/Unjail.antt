-- ===== src/Transaction/Unjail.antt =====
-- lib/src/transaction/council_node/unjail_transaction.ts: the builder of unjail transactions, and the
-- check of a signed one.
pub mod Signing
use chain_nodelib.Prelude.{String, Bool, ◌&&◌, Option, none, some, ◌++◌, is_some}
use chain_nodelib.Method.{Result, ok, err, type_error, ow, require, and_then}
use chain_nodelib.Buffer.{Buffer}
use chain_nodelib.Network.{NetworkConfig, ow_optional_network_config}
use chain_nodelib.Types.{ow_account_nonce}
use chain_nodelib.Native.{Env, RawTx}
use chain_nodelib.KeyPair.{KeyPair, to_object}
use chain_nodelib.Transaction.{init_network, unjail_prefix}

pub record UnjailTransactionBuilderOptions (B : Type 0) : Type 0 where
  pub staking_address : String
  pub nonce : B
  pub network : Option (NetworkConfig B)

pub record UnjailTransactionBuilder (B : Type 0) : Type 0 where
  pub network : NetworkConfig B
  pub staking_address : String
  pub nonce : B
  pub unsigned_raw_tx : Buffer
  pub innert_tx_id : String
  pub key_pair : Option KeyPair

module _ {B : Type 0} where
  abbrev pub get_staking_address : UnjailTransactionBuilder B → String
  get_staking_address b = b.staking_address

  abbrev pub get_nonce : UnjailTransactionBuilder B → B
  get_nonce b = b.nonce

module _ {B : Type 0} (env : Env B) where
  abbrev pub ow_options : UnjailTransactionBuilderOptions B → Bool
  ow_options options =
      env.address.is_staking_address_valid options.staking_address
      && ow_account_nonce env.big options.nonce
      && ow_optional_network_config env.big options.network

  -- what `prepareRawTx` asks the native module for
  unfoldable pub build_raw : UnjailTransactionBuilderOptions B → Result RawTx
  build_raw options = env.council_node.build_raw_unjail_transaction (record {
    staking_address = options.staking_address;
    nonce = env.big.to_string options.nonce;
    chain_hex_id = (init_network env.big options.network).chain_hex_id;
  })

  -- the constructor, which ends with `prepareRawTx`
  unfoldable pub new_builder :
      UnjailTransactionBuilderOptions B → Result (UnjailTransactionBuilder B)
  new_builder options = and_then (ow (ow_options options)) λ _. and_then (build_raw options) λ raw.
      ok (record {
        network = init_network env.big options.network;
        staking_address = options.staking_address;
        nonce = options.nonce;
        unsigned_raw_tx = raw.unsigned_raw_tx;
        innert_tx_id = raw.tx_id;
        key_pair = none;
      })

  pub sign : KeyPair → UnjailTransactionBuilder B → UnjailTransactionBuilder B
  sign key_pair b = record b { key_pair = some key_pair }

  pub is_completed : UnjailTransactionBuilder B → Bool
  is_completed b = is_some b.key_pair

  pub tx_id : UnjailTransactionBuilder B → String
  tx_id b = b.innert_tx_id

  unfoldable pub to_unsigned_hex : UnjailTransactionBuilder B → Buffer
  to_unsigned_hex b = unjail_prefix ++ b.unsigned_raw_tx

  -- `this.keyPair!.toObject()`, and the call of the native module
  abbrev export : UnjailTransactionBuilder B → Option KeyPair → Result Buffer
  export b none = err type_error
  export b (some key_pair) =
      env.council_node.unjail_transaction_to_hex b.unsigned_raw_tx (to_object key_pair)

  pub to_hex : UnjailTransactionBuilder B → Result Buffer
  unfolding is_completed
  to_hex b =
      and_then (require (is_completed b) "Transaction builder is not completed")
        λ _. export b b.key_pair

pub record VerifySignedUnjailTxHexOption (B : Type 0) : Type 0 where
  pub staking_address : String
  pub nonce : B
  pub network : NetworkConfig B

pub verify_signed_unjail_tx_hex :
    {B : Type 0} → Env B → Buffer → VerifySignedUnjailTxHexOption B → Result (Unit {0})
verify_signed_unjail_tx_hex env unjail_tx_hex options =
    env.council_node.verify_unjail_tx_aux unjail_tx_hex (record {
      staking_address = options.staking_address;
      nonce = env.big.to_string options.nonce;
      chain_hex_id = options.network.chain_hex_id;
    })
