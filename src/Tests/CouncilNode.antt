-- ===== src/Tests/CouncilNode.antt =====
-- Witnesses on the builders that are made whole by their constructors, and a run of the JSON text.
use chain_nodelib.Prelude.{ℕ, ◌≡◌, refl, none, some, [], ◌∷◌}
use chain_nodelib.Network.{mainnet_config}
use chain_nodelib.Types.{ow_coin, ow_account_nonce}
use chain_nodelib.Transaction.Unbond
use chain_nodelib.Transaction.Unjail
use chain_nodelib.Transaction.NodeJoin
use chain_nodelib.Transaction.Unbond.{UnbondTransactionBuilder, UnbondTransactionBuilderOptions}
use chain_nodelib.Transaction.Unbond.Signing.{IsUnbond, new_builder-IsUnbond}
use chain_nodelib.Transaction.Unjail.{UnjailTransactionBuilder, UnjailTransactionBuilderOptions}
use chain_nodelib.Transaction.Unjail.Signing.{IsUnjail, new_builder-IsUnjail}
use chain_nodelib.Transaction.NodeJoin.{
  NodeJoinTransactionBuilder, NodeJoinTransactionBuilderOptions,
}
use chain_nodelib.Transaction.NodeJoin.MetaData.{
  NodeMetaData, ed25519, parse_node_meta_data_for_native, json,
}
use chain_nodelib.Transaction.NodeJoin.Signing.{IsNodeJoin, new_builder-IsNodeJoin}
use chain_nodelib.Tests.{env, numbers}

abbrev unbond_options : UnbondTransactionBuilderOptions ℕ
unbond_options = record { staking_address = "0x1"; nonce = 1; amount = 10; network = none }

abbrev unbond : UnbondTransactionBuilder ℕ
unbond = record {
  network = mainnet_config numbers;
  staking_address = "0x1";
  nonce = 1;
  amount = 10;
  unsigned_raw_tx = 7 ∷ 42 ∷ [];
  innert_tx_id = "0b";
  key_pair = none;
}

new_builder-IsUnbond_example : IsUnbond env unbond_options unbond
unfolding Unbond.new_builder Unbond.build_raw ow_coin ow_account_nonce
new_builder-IsUnbond_example = new_builder-IsUnbond env unbond_options unbond refl

abbrev unjail_options : UnjailTransactionBuilderOptions ℕ
unjail_options = record { staking_address = "0x1"; nonce = 1; network = none }

abbrev unjail : UnjailTransactionBuilder ℕ
unjail = record {
  network = mainnet_config numbers;
  staking_address = "0x1";
  nonce = 1;
  unsigned_raw_tx = 7 ∷ 42 ∷ [];
  innert_tx_id = "0b";
  key_pair = none;
}

new_builder-IsUnjail_example : IsUnjail env unjail_options unjail
unfolding Unjail.new_builder Unjail.build_raw ow_account_nonce
new_builder-IsUnjail_example = new_builder-IsUnjail env unjail_options unjail refl

abbrev node : NodeMetaData
node = record {
  name = "a\"b";
  security_contact = some "x";
  consensus_public_key = record { key_type = ed25519; value = "k" };
}

abbrev node_join_options : NodeJoinTransactionBuilderOptions ℕ
node_join_options = record {
  staking_address = "0x1";
  nonce = 1;
  node_meta_data = node;
  network = none;
}

abbrev node_join : NodeJoinTransactionBuilder ℕ
node_join = record {
  network = mainnet_config numbers;
  staking_address = "0x1";
  nonce = 1;
  node_meta_data = node;
  unsigned_raw_tx = 7 ∷ 42 ∷ [];
  innert_tx_id = "0b";
  key_pair = none;
}

new_builder-IsNodeJoin_example : IsNodeJoin env node_join_options node_join
unfolding NodeJoin.new_builder NodeJoin.build_raw ow_account_nonce
new_builder-IsNodeJoin_example = new_builder-IsNodeJoin env node_join_options node_join refl

json_run :
    json (parse_node_meta_data_for_native node)
    ≡ "{\"name\":\"a\\\"b\",\"security_contact\":\"x\",\"consensus_pubkey\":{\"type\":\"tendermint/PubKeyEd25519\",\"value\":\"k\"},\"confidential_init\":{\"cert\":\"RklYTUU=\"}}"
unfolding json parse_node_meta_data_for_native
json_run = refl
