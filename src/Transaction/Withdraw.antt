-- ===== src/Transaction/Withdraw.antt =====
-- lib/src/transaction/staking/withdraw_unbonded_transaction_builder.ts: the builder of transactions
-- that withdraw unbonded stake.
pub mod Calls
pub mod Getters
pub mod Contents
pub mod Errors
pub mod Prepared
pub mod Reference
pub mod Agreement
pub mod Outputs
pub mod Witness
pub mod Complete
use chain_nodelib.Prelude.{
  ℕ, String, Bool, true, false, not, ◌&&◌, Option, none, some, List, [], ◌∷◌, ◌++◌, map, length,
  is_empty, is_some, ◌==◌, if◌then◌else◌,
}
use mathlib.Core.List.{foldl}
use chain_nodelib.Method.{
  Result, ok, err, type_error, ow, require, and_then, Method, pure, lift, query, gets, modify,
  ◌>>=◌, ◌>>◌,
}
use chain_nodelib.Number.{Number}
use chain_nodelib.Buffer.{Buffer, codes, from_hex}
use chain_nodelib.Fee.{parse_fee_config_for_native}
use chain_nodelib.Network.{NetworkConfig, ow_optional_network_config}
use chain_nodelib.Types.{
  Timespec, Output, ow_coin, ow_account_nonce, validate_transfer_address, ow_tendermint_address,
  parse_output_for_native,
}
use chain_nodelib.Native.{Env, RawTx, get_rust_features_from_env}
use chain_nodelib.KeyPair.{KeyPair, to_object}
use chain_nodelib.Transaction.{init_network, tendermint_address_or_default}

pub record WithdrawUnbondedTransactionBuilderOptions (B : Type 0) : Type 0 where
  pub nonce : B
  pub network : Option (NetworkConfig B)

pub record WithdrawUnbondedTransactionBuilder (B : Type 0) : Type 0 where
  pub network : NetworkConfig B
  pub nonce : B
  pub outputs : List (Output B)
  pub view_keys : List Buffer
  pub unsigned_raw_tx : Option Buffer
  pub innert_tx_id : Option String
  pub witness : Option Buffer

-- `MAX_OUTPUT_SIZE`
abbrev pub max_output_size : ℕ
max_output_size = 65536

-- `owStakedStateOpWitness`
abbrev pub ow_staked_state_op_witness : Buffer → Bool
ow_staked_state_op_witness buf = length buf == 66

module _ {B : Type 0} (env : Env B) where
  abbrev Builder : Type 0
  Builder = WithdrawUnbondedTransactionBuilder B

  abbrev ow_withdraw_unbonded_transaction_builder_options :
      WithdrawUnbondedTransactionBuilderOptions B → Bool
  ow_withdraw_unbonded_transaction_builder_options options =
      ow_account_nonce env.big options.nonce && ow_optional_network_config env.big options.network

  -- the constructor
  unfoldable pub new_builder : WithdrawUnbondedTransactionBuilderOptions B → Result Builder
  new_builder options =
      and_then (ow (ow_withdraw_unbonded_transaction_builder_options options)) λ _. ok (record {
        network = init_network env.big options.network;
        nonce = options.nonce;
        outputs = [];
        view_keys = [];
        unsigned_raw_tx = none;
        innert_tx_id = none;
        witness = none;
      })

  -- the time is not optional here
  unfoldable pub ow_withdraw_unbonded_output : Output B → Bool
  ow_withdraw_unbonded_output output =
      validate_transfer_address env.address.is_transfer_address_valid output.address
      && ow_coin env.big output.value
      && is_some output.valid_from

  abbrev pub is_transfer_address_in_network : Builder → String → Bool
  is_transfer_address_in_network b address =
      env.address.is_transfer_address_valid address b.network.name

  abbrev clear_prepared_raw_tx : Builder → Builder
  clear_prepared_raw_tx b = record b { unsigned_raw_tx = none; innert_tx_id = none }

  unfoldable pub add_output : Output B → Method Builder (Unit {0})
  add_output output = do
    lift (ow (ow_withdraw_unbonded_output output))
    query λ b.
        require (not (length b.outputs == max_output_size)) "Exceeded maximum number of outputs"
    query λ b.
        require (is_transfer_address_in_network b output.address)
          "Address does not belongs to the builder network"
    modify clear_prepared_raw_tx
    modify λ b. record b { outputs = b.outputs ++ output ∷ [] }

  -- `reduce`
  pub get_total_output_amount : Builder → B
  get_total_output_amount b =
      foldl (λ total output. env.big.plus total output.value) (env.big.decimal 0 0) b.outputs

  unfoldable pub add_view_key : Buffer → Method Builder (Unit {0})
  add_view_key view_key = do
    lift (ow (env.key_pair.is_valid_view_key view_key))
    modify clear_prepared_raw_tx
    modify λ b. record b { view_keys = b.view_keys ++ view_key ∷ [] }

  abbrev pub has_output : Builder → Bool
  has_output b = not (is_empty b.outputs)

  abbrev pub is_signed : Builder → Bool
  is_signed b = is_some b.witness

  -- what `prepareRawTx` asks the native module for
  unfoldable pub build_raw : Builder → Result RawTx
  build_raw b = env.staking.build_raw_withdraw_unbonded_transaction (record {
    nonce = env.big.to_string b.nonce;
    outputs = map (parse_output_for_native env.big) b.outputs;
    view_keys = b.view_keys;
    chain_hex_id = b.network.chain_hex_id;
  })

  unfoldable pub prepare_raw_tx : Method Builder (Unit {0})
  prepare_raw_tx = do
    raw ← query build_raw
    modify
        λ b. record b { unsigned_raw_tx = some raw.unsigned_raw_tx; innert_tx_id = some raw.tx_id }

  -- `if (!this.isRawTxPrepared()) { if (!this.hasOutput()) { throw … } this.prepareRawTx(); }`
  unfoldable pub prepare_if_needed : Method Builder (Unit {0})
  prepare_if_needed b = elim b.unsigned_raw_tx [
    | some raw ↦ (ok tt, b)
    | none ↦ (do query (λ s. require (has_output s) "Builder has no output"); prepare_raw_tx) b
  ]

  pub estimate_fee : Method Builder String
  estimate_fee = do
    prepare_if_needed
    query λ b.
        and_then (parse_fee_config_for_native env.big b.network.fee_config)
          λ fee. env.staking.estimate_withdraw_unbonded_transaction_fee b.unsigned_raw_tx fee

  pub tx_id : Method Builder (Option String)
  tx_id = do prepare_if_needed; gets λ b. b.innert_tx_id

  -- `Buffer.concat([Buffer.from(prefix, 'hex'), raw])`
  abbrev prefixed : String → Option Buffer → Result Buffer
  prefixed prefix none = err type_error
  prefixed prefix (some raw) = ok (from_hex (codes prefix) ++ raw)

  pub to_unsigned_hex : Method Builder Buffer
  to_unsigned_hex = do prepare_if_needed; query λ b. prefixed "0002" b.unsigned_raw_tx

  unfoldable pub sign : KeyPair → Method Builder (Unit {0})
  sign key_pair = do
    prepare_if_needed
    witness ← query λ b.
        env.staking.withdraw_unbonded_transaction_to_witness b.unsigned_raw_tx (to_object key_pair)
    modify λ b. record b { witness = some witness }

  pub add_witness : Buffer → Method Builder (Unit {0})
  add_witness witness = do
    lift (ow (ow_staked_state_op_witness witness))
    prepare_if_needed
    modify λ b. record b { witness = some witness }

  abbrev verify_signed : Builder → Result (Unit {0})
  verify_signed b = require (is_signed b) "Builder is not signed"

  pub get_witness : Builder → Result (Option Buffer)
  get_witness b = and_then (verify_signed b) λ _. ok b.witness

  pub is_completed : Builder → Bool
  is_completed b = if not (has_output b) then false else is_signed b

  pub to_signed_plain_hex : Builder → Result Buffer
  to_signed_plain_hex b = and_then (verify_signed b) λ _.
      and_then
        (env.staking.withdraw_unbonded_transaction_to_signed_plain_hex b.unsigned_raw_tx b.witness)
        λ signed_raw_tx. prefixed "00" (some signed_raw_tx)

  unfoldable pub to_hex : Option String → Method Builder Buffer
  to_hex tendermint_address = do
    let address = tendermint_address_or_default tendermint_address
    lift (ow (ow_tendermint_address env.is_url address))
    prepare_if_needed
    query verify_signed
    query λ b.
        env.staking.withdraw_unbonded_transaction_to_obfuscated_hex b.unsigned_raw_tx b.witness
          address (get_rust_features_from_env env.node_env)
