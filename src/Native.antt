-- ===== src/Native.antt =====
-- What the library uses of code that is not TypeScript: the native module (native/, Rust), Node's
-- `URL` and the environment variable NODE_ENV. They are a parameter of the model. A native
-- function may throw, and the theorems hold whatever it answers.
use chain_nodelib.Prelude.{String, Bool, Option, none, some, List, if◌then◌else◌, str_eq}
use chain_nodelib.Method.{Result}
use chain_nodelib.Number.{Number}
use chain_nodelib.Buffer.{Buffer}
use chain_nodelib.BigNumber.{BigNumbers}
use chain_nodelib.Fee.{NativeFeeConfig}
use chain_nodelib.Types.{NativeOutput, NativeInput}

-- lib/src/native.ts
pub data Features : Type 0 where
  all_default mock_abci mock_obfuscation : Features

unfoldable pub get_rust_features_from_env : Option String → Features
get_rust_features_from_env none = all_default
get_rust_features_from_env (some node_env) =
    if str_eq node_env "test"
    then mock_obfuscation
    else if str_eq node_env "integration-test"
    then all_default
    else all_default

-- lib/src/key_pair/key_pair.ts, `toObject`
pub record NativeKeyPair : Type 0 where
  pub private_key : Option Buffer
  pub compressed_public_key : Option Buffer
  pub public_key : Option Buffer

pub record PublicKeys : Type 0 where
  pub public_key : Buffer
  pub compressed_public_key : Buffer

pub record AddressNative : Type 0 where
  pub is_transfer_address_valid : String → String → Bool
  pub is_staking_address_valid : String → Bool
  pub get_transfer_address_from_public_key : Buffer → String → Result String
  pub get_staking_address_from_public_key : Buffer → Result String

pub record KeyPairNative : Type 0 where
  pub is_valid_view_key : Buffer → Bool
  pub verify_public_key : Buffer → Result (Unit {0})
  pub verify_private_key : Buffer → Result (Unit {0})
  pub get_public_keys_from_any_public_key : Buffer → Result PublicKeys
  pub get_public_keys_from_private_key : Buffer → Result PublicKeys

pub record BuildTransfer : Type 0 where
  pub chain_hex_id : Buffer
  pub inputs : List NativeInput
  pub outputs : List NativeOutput
  pub view_keys : List Buffer
  pub fee_config : NativeFeeConfig

pub record LinearFeeTx : Type 0 where
  pub incomplete_hex : Option Buffer
  pub fee_config : NativeFeeConfig

pub record TransferNative : Type 0 where
  pub build_incomplete_hex_linear_fee : BuildTransfer → Result Buffer
  pub estimate_fee_linear_fee : LinearFeeTx → Result String
  pub tx_id_linear_fee : LinearFeeTx → Result String
  pub sign_input_linear_fee : LinearFeeTx → Number → NativeKeyPair → Result Buffer
  pub add_input_witness_linear_fee : LinearFeeTx → Number → Buffer → Result Buffer
  pub verify_linear_fee : LinearFeeTx → Result (Unit {0})
  pub is_completed_linear_fee : LinearFeeTx → Result Bool
  pub to_hex_linear_fee : LinearFeeTx → String → Features → Result Buffer

pub record RawTx : Type 0 where
  pub unsigned_raw_tx : Buffer
  pub tx_id : String

pub record PrevOutputPointer : Type 0 where
  pub prev_tx_id : String
  pub prev_index : Number

pub record BuildDeposit : Type 0 where
  pub inputs : List PrevOutputPointer
  pub to_address : String
  pub chain_hex_id : Buffer

pub record BuildUnbond : Type 0 where
  pub staking_address : String
  pub nonce : String
  pub amount : String
  pub chain_hex_id : Buffer

pub record BuildWithdraw : Type 0 where
  pub nonce : String
  pub outputs : List NativeOutput
  pub view_keys : List Buffer
  pub chain_hex_id : Buffer

pub record StakingNative : Type 0 where
  pub build_raw_deposit_transaction : BuildDeposit → Result RawTx
  pub deposit_transaction_to_hex :
      Option Buffer → List (Option Buffer) → String → Features → Result Buffer
  pub build_raw_unbond_transaction : BuildUnbond → Result RawTx
  pub unbond_transaction_to_hex : Buffer → NativeKeyPair → Result Buffer
  pub build_raw_withdraw_unbonded_transaction : BuildWithdraw → Result RawTx
  pub estimate_withdraw_unbonded_transaction_fee : Option Buffer → NativeFeeConfig → Result String
  pub withdraw_unbonded_transaction_to_witness : Option Buffer → NativeKeyPair → Result Buffer
  pub withdraw_unbonded_transaction_to_signed_plain_hex :
      Option Buffer → Option Buffer → Result Buffer
  pub withdraw_unbonded_transaction_to_obfuscated_hex :
      Option Buffer → Option Buffer → String → Features → Result Buffer

pub record BuildNodeJoin : Type 0 where
  pub staking_address : String
  pub nonce : String
  pub node_meta_data : String
  pub chain_hex_id : Buffer

pub record BuildUnjail : Type 0 where
  pub staking_address : String
  pub nonce : String
  pub chain_hex_id : Buffer

pub record CouncilNodeNative : Type 0 where
  pub build_raw_node_join_transaction : BuildNodeJoin → Result RawTx
  pub node_join_transaction_to_hex : Buffer → NativeKeyPair → Result Buffer
  pub build_raw_unjail_transaction : BuildUnjail → Result RawTx
  pub unjail_transaction_to_hex : Buffer → NativeKeyPair → Result Buffer
  pub verify_unjail_tx_aux : Buffer → BuildUnjail → Result (Unit {0})

pub record Env (B : Type 0) : Type 0 where
  pub big : BigNumbers B
  pub address : AddressNative
  pub key_pair : KeyPairNative
  pub transfer : TransferNative
  pub staking : StakingNative
  pub council_node : CouncilNodeNative
  -- `native.signer.schnorrSignTxId`
  pub schnorr_sign_tx_id : Buffer → NativeKeyPair → Result Buffer
  -- `new URL(text)` does not throw
  pub is_url : String → Bool
  pub node_env : Option String
