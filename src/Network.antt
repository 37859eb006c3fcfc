-- ===== src/Network.antt =====
-- lib/src/network: the network constants, the Devnet constructor, the network of a chain id and the
-- checks of a network configuration.
pub mod Laws
use text.Mathlib.Text.{◌==◌}
use chain_nodelib.Prelude.{
  ℕ, String, Bool, ◌&&◌, ◌||◌, Option, none, some, List, [], ◌∷◌, if◌then◌else◌, true, false,
}
use chain_nodelib.Method.{Result, ok, ow, and_then}
use chain_nodelib.Buffer.{Buffer, codes, is_hex_digit, to_hex, from_hex, to_upper_case, same_text}
use chain_nodelib.BigNumber.{BigNumbers}
use chain_nodelib.Fee.{FeeConfig, linear_fee, ow_fee_config}

pub data NetworkEnum : Type 0 where
  mainnet testnet devnet : NetworkEnum

abbrev pub enum_value : NetworkEnum → String
enum_value mainnet = "Mainnet"
enum_value testnet = "Testnet"
enum_value devnet = "Devnet"

pub record NetworkConfig (B : Type 0) : Type 0 where
  pub name : String
  pub chain_hex_id : Buffer
  pub address_prefix : String
  pub bip44_path : String
  pub fee_config : FeeConfig B

-- `Buffer | string`
pub data ChainHexId : Type 0 where
  bytes : Buffer → ChainHexId
  hex : String → ChainHexId

pub record DevnetOptions (B : Type 0) : Type 0 where
  pub fee_config : FeeConfig B
  pub chain_hex_id : ChainHexId

-- `/^[0-9a-fA-F]{2}$/`
abbrev two_hex_digits : List ℕ → Bool
two_hex_digits (h ∷ l ∷ []) = is_hex_digit h && is_hex_digit l
two_hex_digits cs = false

abbrev pub ow_chain_hex_id : ChainHexId → Bool
ow_chain_hex_id (bytes b) = two_hex_digits (to_hex b)
ow_chain_hex_id (hex s) = two_hex_digits (codes s)

abbrev chain_hex_id_bytes : ChainHexId → Buffer
chain_hex_id_bytes (hex s) = from_hex (codes s)
chain_hex_id_bytes (bytes b) = b

-- `validator: value === 'Mainnet' || value === 'Testnet' || value === 'Devnet'`
abbrev pub ow_network_enum : String → Bool
ow_network_enum value = value == "Mainnet" || value == "Testnet" || value == "Devnet"

module _ {B : Type 0} (big : BigNumbers B) where
  abbrev standard_fee : FeeConfig B
  standard_fee = record {
    algorithm = linear_fee;
    constant = some (big.decimal 11 1);
    coefficient = some (big.decimal 125 2);
  }

  abbrev pub mainnet_config : NetworkConfig B
  mainnet_config = record {
    name = enum_value mainnet;
    chain_hex_id = from_hex (codes "2A");
    address_prefix = "cro";
    bip44_path = "m/44'/394'/{ACCOUNT}'/0/{INDEX}";
    fee_config = standard_fee;
  }

  abbrev pub testnet_config : NetworkConfig B
  testnet_config = record {
    name = enum_value testnet;
    chain_hex_id = from_hex (codes "42");
    address_prefix = "tcro";
    bip44_path = "m/44'/1'/{ACCOUNT}'/0/{INDEX}";
    fee_config = standard_fee;
  }

  abbrev ow_devnet_options : DevnetOptions B → Bool
  ow_devnet_options options =
      ow_fee_config big options.fee_config && ow_chain_hex_id options.chain_hex_id

  unfoldable pub devnet_config : DevnetOptions B → Result (NetworkConfig B)
  devnet_config options = and_then (ow (ow_devnet_options options)) λ _. ok (record {
    name = enum_value devnet;
    chain_hex_id = chain_hex_id_bytes options.chain_hex_id;
    address_prefix = "dcro";
    bip44_path = "m/44'/1'/{ACCOUNT}'/0/{INDEX}";
    fee_config = options.fee_config;
  })

  abbrev ow_mainnet : NetworkConfig B → Bool
  ow_mainnet c =
      ow_network_enum c.name && ow_fee_config big c.fee_config && c.name == enum_value mainnet

  abbrev ow_testnet : NetworkConfig B → Bool
  ow_testnet c =
      ow_network_enum c.name && ow_fee_config big c.fee_config && c.name == enum_value testnet

  abbrev ow_devnet : NetworkConfig B → Bool
  ow_devnet c =
      ow_network_enum c.name && ow_fee_config big c.fee_config && c.name == enum_value devnet

  unfoldable pub ow_network_config : NetworkConfig B → Bool
  ow_network_config c = ow_mainnet c || ow_testnet c || ow_devnet c

  abbrev pub ow_optional_network_config : Option (NetworkConfig B) → Bool
  ow_optional_network_config none = true
  ow_optional_network_config (some c) = ow_network_config c

-- `switch (chainHexId.toString('hex').toUpperCase())`
unfoldable pub from_chain_id : Buffer → NetworkEnum
from_chain_id chain_hex_id =
    let id = to_upper_case (to_hex chain_hex_id) in
    if same_text id (codes "2A")
    then mainnet
    else if same_text id (codes "42")
    then testnet
    else devnet
