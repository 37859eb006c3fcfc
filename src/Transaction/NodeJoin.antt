-- ===== src/Transaction/NodeJoin.antt =====
-- lib/src/transaction/council_node/node_join_transaction_builder.ts and types.ts: the builder of
-- transactions by which a council node joins.
pub mod Signing
pub mod MetaData
use chain_nodelib.Prelude.{String, Bool, ◌&&◌, Option, none, some, ◌++◌, is_some}
use chain_nodelib.Method.{Result, ok, err, type_error, ow, require, and_then}
use chain_nodelib.Buffer.{Buffer}
use chain_nodelib.Network.{NetworkConfig, ow_optional_network_config}
use chain_nodelib.Types.{ow_account_nonce}
use chain_nodelib.Native.{Env, RawTx}
use chain_nodelib.KeyPair.{KeyPair, to_object}
use chain_nodelib.Transaction.NodeJoin.MetaData.{
  NodeMetaData, ow_node_meta_data, parse_node_meta_data_for_native, json,
}
use chain_nodelib.Transaction.{init_network, node_join_prefix}

pub record NodeJoinTransactionBuilderOptions (B : Type 0) : Type 0 where
  pub staking_address : String
  pub nonce : B
  pub node_meta_data : NodeMetaData
  pub network : Option (NetworkConfig B)

pub record NodeJoinTransactionBuilder (B : Type 0) : Type 0 where
  pub network : NetworkConfig B
  pub staking_address : String
  pub nonce : B
  pub node_meta_data : NodeMetaData
  pub unsigned_raw_tx : Buffer
  pub innert_tx_id : String
  pub key_pair : Option KeyPair

module _ {B : Type 0} where
  abbrev pub get_staking_address : NodeJoinTransactionBuilder B → String
  get_staking_address b = b.staking_address

  abbrev pub get_nonce : NodeJoinTransactionBuilder B → B
  get_nonce b = b.nonce

  abbrev pub get_node_meta_data : NodeJoinTransactionBuilder B → NodeMetaData
  get_node_meta_data b = b.node_meta_data

module _ {B : Type 0} (env : Env B) where
  abbrev pub ow_options : NodeJoinTransactionBuilderOptions B → Bool
  ow_options options =
      env.address.is_staking_address_valid options.staking_address
      && ow_account_nonce env.big options.nonce
      && ow_node_meta_data options.node_meta_data
      && ow_optional_network_config env.big options.network

  -- what `prepareRawTx` asks the native module for
  unfoldable pub build_raw : NodeJoinTransactionBuilderOptions B → Result RawTx
  build_raw options = env.council_node.build_raw_node_join_transaction (record {
    staking_address = options.staking_address;
    nonce = env.big.to_string options.nonce;
    node_meta_data = json (parse_node_meta_data_for_native options.node_meta_data);
    chain_hex_id = (init_network env.big options.network).chain_hex_id;
  })

  -- the constructor, which ends with `prepareRawTx`
  unfoldable pub new_builder :
      NodeJoinTransactionBuilderOptions B → Result (NodeJoinTransactionBuilder B)
  new_builder options = and_then (ow (ow_options options)) λ _. and_then (build_raw options) λ raw.
      ok (record {
        network = init_network env.big options.network;
        staking_address = options.staking_address;
        nonce = options.nonce;
        node_meta_data = options.node_meta_data;
        unsigned_raw_tx = raw.unsigned_raw_tx;
        innert_tx_id = raw.tx_id;
        key_pair = none;
      })

  pub sign : KeyPair → NodeJoinTransactionBuilder B → NodeJoinTransactionBuilder B
  sign key_pair b = record b { key_pair = some key_pair }

  pub is_completed : NodeJoinTransactionBuilder B → Bool
  is_completed b = is_some b.key_pair

  pub tx_id : NodeJoinTransactionBuilder B → String
  tx_id b = b.innert_tx_id

  unfoldable pub to_unsigned_hex : NodeJoinTransactionBuilder B → Buffer
  to_unsigned_hex b = node_join_prefix ++ b.unsigned_raw_tx

  -- `this.keyPair!.toObject()`, and the call of the native module
  abbrev export : NodeJoinTransactionBuilder B → Option KeyPair → Result Buffer
  export b none = err type_error
  export b (some key_pair) =
      env.council_node.node_join_transaction_to_hex b.unsigned_raw_tx (to_object key_pair)

  pub to_hex : NodeJoinTransactionBuilder B → Result Buffer
  unfolding is_completed
  to_hex b =
      and_then (require (is_completed b) "Transaction builder is not completed")
        λ _. export b b.key_pair
