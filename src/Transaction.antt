-- ===== src/Transaction.antt =====
-- lib/src/transaction: what the builders share, transaction_builder.ts and encoding.ts. Each
-- builder is a module below this one.
pub mod Transfer
pub mod Deposit
pub mod Withdraw
pub mod Unbond
pub mod Unjail
pub mod NodeJoin
pub mod Prefixes
use chain_nodelib.Prelude.{ℕ, String, Option, none, some, List, [], ◌∷◌}
use chain_nodelib.Buffer.{Buffer, codes, from_hex}
use chain_nodelib.BigNumber.{BigNumbers}
use chain_nodelib.Network.{NetworkConfig, mainnet_config}

-- The network of a new builder.
abbrev pub init_network : {B : Type 0} → BigNumbers B → Option (NetworkConfig B) → NetworkConfig B
init_network big none = mainnet_config big
init_network big (some network) = network

-- `ENCODING_PREFIX`
abbrev pub unbond_prefix : Buffer
unbond_prefix = from_hex (codes "0100")

abbrev pub unjail_prefix : Buffer
unjail_prefix = from_hex (codes "0101")

abbrev pub node_join_prefix : Buffer
node_join_prefix = from_hex (codes "0102")

-- The default value of a parameter `tendermintAddress`.
abbrev pub tendermint_address_or_default : Option String → String
tendermint_address_or_default none = "ws://localhost:26657/websocket"
tendermint_address_or_default (some address) = address
