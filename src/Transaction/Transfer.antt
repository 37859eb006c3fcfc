-- ===== src/Transaction/Transfer.antt =====
-- lib/src/transaction/transfer: the builder of transfer transactions. The proofs are in the modules
-- below.
pub mod Calls
pub mod Getters
pub mod Current
pub mod Contents
pub mod Addresses
pub mod Typed
pub mod Errors
pub mod Replay
pub mod Export
pub mod Signing
pub mod Complete
pub mod Wallet
use Prim.Native.String
use chain_nodelib.Prelude.{
  String, Bool, true, false, not, ◌&&◌, Option, none, some, List, [], ◌∷◌, ◌++◌, map, length,
  get_elem?, is_empty, str_eq, if◌then◌else◌,
}
use chain_nodelib.Method.{
  Result, ok, err, thrown, type_error, ow, require, and_then, Method, pure, lift, query, modify,
  ◌>>=◌, ◌>>◌,
}
use chain_nodelib.Number.{Number, whole, fraction, negative, at_least, less_than}
use chain_nodelib.Buffer.{Buffer}
use chain_nodelib.Fee.{
  FeeConfig, NativeFeeConfig, is_linear_fee, algorithm_name, ow_fee_config,
  parse_fee_config_for_native,
}
use chain_nodelib.Network.{NetworkConfig, ow_optional_network_config}
use chain_nodelib.Types.{
  Input, Output, ow_input, ow_output, ow_tendermint_address, parse_input_for_native,
  parse_output_for_native,
}
use chain_nodelib.Native.{Env, get_rust_features_from_env}
use chain_nodelib.KeyPair.{KeyPair, has_private_key, to_object}
use chain_nodelib.Address
use chain_nodelib.Transaction.{init_network, tendermint_address_or_default}

pub record TransferTransactionBuilderOptions (B : Type 0) : Type 0 where
  pub network : Option (NetworkConfig B)
  -- admitted by the check, and not read
  pub fee_config : Option (FeeConfig B)

pub record TransferTransactionBuilder (B : Type 0) : Type 0 where
  pub network : NetworkConfig B
  pub inputs : List (Input B)
  pub outputs : List (Output B)
  pub view_keys : List Buffer
  pub incomplete_hex : Option Buffer

-- `inputs[index]`, of which a property is read next
abbrev pub element_at : {A : Type 0} → List A → Number → Result A
element_at xs (whole i) = elim (get_elem? xs i) [ none ↦ err type_error | some x ↦ ok x ]
element_at xs (fraction i) = err type_error
element_at xs negative = err type_error

module _ {B : Type 0} (env : Env B) where
  abbrev Builder : Type 0
  Builder = TransferTransactionBuilder B

  abbrev ow_optional_fee_config : Option (FeeConfig B) → Bool
  ow_optional_fee_config none = true
  ow_optional_fee_config (some c) = ow_fee_config env.big c

  abbrev options_network : Option (TransferTransactionBuilderOptions B) → Option (NetworkConfig B)
  options_network none = none
  options_network (some options) = options.network

  abbrev ow_options : Option (TransferTransactionBuilderOptions B) → Bool
  ow_options none = true
  ow_options (some options) =
      ow_optional_network_config env.big options.network
      && ow_optional_fee_config options.fee_config

  -- the constructor
  unfoldable pub new_builder : Option (TransferTransactionBuilderOptions B) → Result Builder
  new_builder options = and_then (ow (ow_options options)) λ _. ok (record {
    network = init_network env.big (options_network options);
    inputs = [];
    outputs = [];
    view_keys = [];
    incomplete_hex = none;
  })

  abbrev pub is_transfer_address_in_network : Builder → String → Bool
  is_transfer_address_in_network b address =
      env.address.is_transfer_address_valid address b.network.name

  abbrev clear_incomplete_signing_hex : Builder → Builder
  clear_incomplete_signing_hex b = record b { incomplete_hex = none }

  pub add_input : Input B → Method Builder (Unit {0})
  add_input input = do
    lift (ow (ow_input env.big env.address.is_transfer_address_valid input))
    query λ b.
        require (is_transfer_address_in_network b input.prev_output.address)
          "Previous output address does not belongs to the builder network"
    modify clear_incomplete_signing_hex
    modify λ b. record b { inputs = b.inputs ++ input ∷ [] }

  pub add_output : Output B → Method Builder (Unit {0})
  add_output output = do
    lift (ow (ow_output env.big env.address.is_transfer_address_valid output))
    query λ b.
        require (is_transfer_address_in_network b output.address)
          "Address does not belongs to the builder network"
    modify clear_incomplete_signing_hex
    modify λ b. record b { outputs = b.outputs ++ output ∷ [] }

  pub add_view_key : Buffer → Method Builder (Unit {0})
  add_view_key view_key = do
    lift (ow (env.key_pair.is_valid_view_key view_key))
    modify clear_incomplete_signing_hex
    modify λ b. record b { view_keys = b.view_keys ++ view_key ∷ [] }

  abbrev has_input : Builder → Bool
  has_input b = not (is_empty b.inputs)

  abbrev has_output : Builder → Bool
  has_output b = not (is_empty b.outputs)

  abbrev verify_has_input : Builder → Result (Unit {0})
  verify_has_input b = require (has_input b) "Builder has no input"

  abbrev verify_has_output : Builder → Result (Unit {0})
  verify_has_output b = require (has_output b) "Builder has no output"

  -- `if (this.feeConfig.algorithm === LinearFee) { … }`, and the `throw` behind it
  abbrev if_linear_fee : {A : Type 0} → Builder → Result A → Result A
  if_linear_fee b body =
      if is_linear_fee b.network.fee_config.algorithm
      then body
      else err (
          thrown (
            String.◌++◌ "Unsupported fee algorithm "
              (algorithm_name b.network.fee_config.algorithm)))

  abbrev native_fee : Builder → Result NativeFeeConfig
  native_fee b = parse_fee_config_for_native env.big b.network.fee_config

  -- `buildIncompleteHex` and `buildIncompleteHexLinearFee`
  unfoldable pub build_incomplete_hex : Builder → Result Buffer
  build_incomplete_hex b = if_linear_fee b (
      and_then (native_fee b) λ fee. env.transfer.build_incomplete_hex_linear_fee (record {
        chain_hex_id = b.network.chain_hex_id;
        inputs = map (parse_input_for_native env.big) b.inputs;
        outputs = map (parse_output_for_native env.big) b.outputs;
        view_keys = b.view_keys;
        fee_config = fee;
      }))

  pub estimate_fee : Builder → Result String
  estimate_fee b = if_linear_fee b (
      and_then (verify_has_input b) λ _. and_then (verify_has_output b) λ _.
        and_then (build_incomplete_hex b) λ hex. and_then (native_fee b) λ fee.
          env.transfer.estimate_fee_linear_fee
            (record { incomplete_hex = some hex; fee_config = fee }))

  pub tx_id : Builder → Result String
  tx_id b = and_then (verify_has_input b) λ _. if_linear_fee b (
      and_then (build_incomplete_hex b) λ hex. and_then (native_fee b) λ fee.
        env.transfer.tx_id_linear_fee (record { incomplete_hex = some hex; fee_config = fee }))

  abbrev prepare_from : Option Buffer → Method Builder Buffer
  prepare_from (some hex) = pure hex
  prepare_from none = do
    hex ← query build_incomplete_hex
    modify λ b. record b { incomplete_hex = some hex }
    pure hex

  unfoldable pub prepare_incomplete_signing_hex : Method Builder Buffer
  prepare_incomplete_signing_hex b = prepare_from b.incomplete_hex b

  -- `owIndex`
  abbrev ow_index : Builder → Number → Bool
  ow_index b index = at_least 0 index && less_than (length b.inputs) index

  -- the call of the native module in `signInput`, and the write of what it answers
  unfoldable pub sign_with : Number → KeyPair → Buffer → Method Builder (Unit {0})
  sign_with index key_pair hex = do
    updated ← query λ b. if_linear_fee b (
        and_then (native_fee b) λ fee.
          env.transfer.sign_input_linear_fee
            (record { incomplete_hex = some hex; fee_config = fee }) index (to_object key_pair))
    modify λ b. record b { incomplete_hex = some updated }

  unfoldable pub sign_input : Number → KeyPair → Method Builder (Unit {0})
  sign_input index key_pair = do
    query λ b. ow (ow_index b index)
    lift (require (has_private_key key_pair) "KeyPair does not have private key")
    signing_address ← query λ b.
        Address.transfer env.big env.address
          (record { source = Address.key_pair key_pair; network = b.network })
    input ← query λ b. element_at b.inputs index
    lift (
        require (str_eq input.prev_output.address signing_address)
          "Input address is not signable by the key pair")
    hex ← prepare_incomplete_signing_hex
    sign_with index key_pair hex

  -- the same in `addWitness`
  witness_with : Number → Buffer → Buffer → Method Builder (Unit {0})
  witness_with index witness hex = do
    updated ← query λ b. if_linear_fee b (
        and_then (native_fee b) λ fee.
          env.transfer.add_input_witness_linear_fee
            (record { incomplete_hex = some hex; fee_config = fee }) index witness)
    modify λ b. record b { incomplete_hex = some updated }

  pub add_witness : Number → Buffer → Method Builder (Unit {0})
  add_witness index witness = do
    query λ b. ow (ow_index b index)
    hex ← prepare_incomplete_signing_hex
    witness_with index witness hex

  unfoldable pub verify : Builder → Result (Unit {0})
  verify b = and_then (verify_has_input b) λ _. and_then (verify_has_output b) λ _.
      if_linear_fee b (
        and_then (native_fee b) λ fee.
          env.transfer.verify_linear_fee
            (record { incomplete_hex = b.incomplete_hex; fee_config = fee }))

  pub to_incomplete_hex : Builder → Result Buffer
  to_incomplete_hex b = elim b.incomplete_hex [ some hex ↦ ok hex | none ↦ build_incomplete_hex b ]

  unfoldable pub is_completed : Builder → Result Bool
  is_completed b = elim b.incomplete_hex [
    | none ↦ ok false
    | some hex ↦ if_linear_fee b (
        and_then (native_fee b) λ fee.
          env.transfer.is_completed_linear_fee
            (record { incomplete_hex = some hex; fee_config = fee }))
  ]

  unfoldable pub to_hex : Option String → Builder → Result Buffer
  to_hex tendermint_address b =
      let address = tendermint_address_or_default tendermint_address in
      and_then (ow (ow_tendermint_address env.is_url address)) λ _.
        and_then (verify_has_input b) λ _. and_then (verify_has_output b) λ _.
          and_then (is_completed b) λ completed.
            and_then (require completed "Transaction is not completed") λ _.
              and_then (verify b) λ _. and_then (native_fee b) λ fee.
                env.transfer.to_hex_linear_fee
                  (record { incomplete_hex = b.incomplete_hex; fee_config = fee }) address
                  (get_rust_features_from_env env.node_env)
