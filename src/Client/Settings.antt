-- ===== src/Client/Settings.antt =====
-- integration-tests/common/constant.ts, the constructors of common/utils.ts and the parsers of
-- common/staking.ts. The values of the environment are arguments.
use chain_nodelib.Prelude.{ℕ, zero, suc, String, Option, none, some, List, ◌++◌}
use chain_nodelib.Method.{Result}
use chain_nodelib.Number.{Number}
use chain_nodelib.Buffer.{codes}
use chain_nodelib.BigNumber.{BigNumbers}
use chain_nodelib.Fee.{FeeConfig, linear_fee}
use chain_nodelib.Network.{NetworkConfig, hex, devnet_config}
use chain_nodelib.HdWallet.{decimal, number_text}
use chain_nodelib.Transaction.NodeJoin.MetaData.{NodeMetaData, NodePublicKey}
use chain_nodelib.Client.Rpc.{RpcClient}
use chain_nodelib.Client.Tendermint.{TendermintRpc}
use chain_nodelib.Client.Wallet.{WalletRpc}

abbrev service_url : List ℕ → ℕ → List ℕ
service_url host port = codes "http://" ++ (host ++ (codes ":" ++ number_text port))

-- `Number(process.env.…) || port`; 0 and what is no number count as absent
abbrev port_or : Option ℕ → ℕ → ℕ
port_or none port = port
port_or (some zero) port = port
port_or (some (suc n)) port = suc n

pub new_rpc_client : List ℕ → ℕ → RpcClient
new_rpc_client host port = record { url = service_url host port }

pub new_zero_fee_rpc_client : Option ℕ → RpcClient
new_zero_fee_rpc_client port = new_rpc_client (codes "localhost") (port_or port 16659)

pub new_with_fee_rpc_client : Option ℕ → RpcClient
new_with_fee_rpc_client port = new_rpc_client (codes "localhost") (port_or port 26659)

-- `newTendermintRpc` and `newTendermintRPC`
pub new_tendermint_rpc : List ℕ → ℕ → TendermintRpc
new_tendermint_rpc host port = record { url = service_url host port }

pub new_default_tendermint_rpc : Option ℕ → TendermintRpc
new_default_tendermint_rpc port = new_tendermint_rpc (codes "localhost") (port_or port 26657)

pub new_wallet_rpc : Option ℕ → Option ℕ → WalletRpc
new_wallet_rpc client_port tendermint_port = record {
  rpc_client = new_with_fee_rpc_client client_port;
  tendermint_rpc = new_default_tendermint_rpc tendermint_port;
}

-- `Date.now()` has at most 16 digits.
pub generate_wallet_name : List ℕ → ℕ → List ℕ
generate_wallet_name prefix now = prefix ++ (codes "_" ++ decimal 16 now)

-- `process.env.CHAIN_HEX_ID || 'AB'`
abbrev chain_hex_id_or_default : Option String → String
chain_hex_id_or_default none = "AB"
chain_hex_id_or_default (some String.[]) = "AB"
chain_hex_id_or_default (some (String.◌∷◌ c s)) = String.◌∷◌ c s

module _ {B : Type 0} (big : BigNumbers B) where
  pub devnet_fee_config : FeeConfig B
  devnet_fee_config = record {
    algorithm = linear_fee;
    constant = some (big.decimal 11 1);
    coefficient = some (big.decimal 125 2);
  }

  pub devnet : Option String → Result (NetworkConfig B)
  devnet chain_hex_id = devnet_config big (record {
    fee_config = devnet_fee_config;
    chain_hex_id = hex (chain_hex_id_or_default chain_hex_id);
  })

-- The fields that are read.
pub record RpcStakedState (B : Type 0) : Type 0 where
  pub nonce : B
  pub bonded : String
  pub unbonded : String
  pub unbonded_from : B
  pub address : String

pub record FlattenStakedStake (B : Type 0) : Type 0 where
  pub nonce : B
  pub bonded : B
  pub unbonded : B
  pub unbonded_from : Number
  pub address : String

-- What the chain tells of a node, with a placeholder for its certificate: the base64 text of the
-- bytes of `FIXME`.
pub record RpcCouncilNode : Type 0 where
  pub name : String
  pub security_contact : Option String
  pub consensus_pubkey : NodePublicKey
  pub confidential_init_cert : String

abbrev pub parse_rpc_council_node_from_node_meta_data : NodeMetaData → RpcCouncilNode
parse_rpc_council_node_from_node_meta_data m = record {
  name = m.name;
  security_contact = m.security_contact;
  consensus_pubkey = m.consensus_public_key;
  confidential_init_cert = "RklYTUU=";
}

-- `new BigNumber(text)` and `toNumber` are parameters.
module _ {B : Type 0} (new_big_number : String → B) (to_number : B → Number) where
  pub parse_staked_state_from_rpc : RpcStakedState B → FlattenStakedStake B
  parse_staked_state_from_rpc staked_state = record {
    nonce = staked_state.nonce;
    bonded = new_big_number staked_state.bonded;
    unbonded = new_big_number staked_state.unbonded;
    unbonded_from = to_number staked_state.unbonded_from;
    address = staked_state.address;
  }
