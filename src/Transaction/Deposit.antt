-- ===== src/Transaction/Deposit.antt =====
-- lib/src/transaction/staking/deposit_transaction_builder.ts: the builder of deposit transactions.
pub mod Calls
pub mod Getters
pub mod Contents
pub mod Spends
pub mod Errors
pub mod Prepared
pub mod Reference
pub mod Agreement
pub mod Export
pub mod Witnesses
pub mod Signed
pub mod Complete
pub mod Adding
use chain_nodelib.Prelude.{
  ℕ, String, Bool, true, false, not, ◌&&◌, ◌||◌, Option, none, some, List, [], ◌∷◌, ◌++◌, map,
  length, all, get_elem?, set, is_empty, is_some,
}
use chain_nodelib.Method.{
  Result, ok, err, type_error, ow, require, and_then, Method, pure, lift, query, gets, modify,
  ◌>>=◌, ◌>>◌,
}
use chain_nodelib.Number.{Number, whole, fraction, negative, less_than, uint16}
use chain_nodelib.Buffer.{Buffer, codes, from_hex}
use chain_nodelib.Network.{NetworkConfig, ow_optional_network_config}
use chain_nodelib.Types.{ow_tx_id, ow_tendermint_address}
use chain_nodelib.Native.{Env, PrevOutputPointer, RawTx, get_rust_features_from_env}
use chain_nodelib.KeyPair.{KeyPair, to_object}
use chain_nodelib.Transaction.{init_network, tendermint_address_or_default}

pub record WitnessedPrevOutputPointer : Type 0 where
  pub prev_output_pointer : PrevOutputPointer
  pub witness : Option Buffer

pub record DepositTransactionBuilderOptions (B : Type 0) : Type 0 where
  pub staking_address : String
  pub network : Option (NetworkConfig B)

pub record DepositTransactionBuilder (B : Type 0) : Type 0 where
  pub network : NetworkConfig B
  pub inputs : List WitnessedPrevOutputPointer
  pub staking_address : String
  pub unsigned_raw_tx : Option Buffer
  pub innert_tx_id : Option String

unfoldable pub ow_prev_output_pointer : PrevOutputPointer → Bool
ow_prev_output_pointer p = ow_tx_id p.prev_tx_id && uint16 p.prev_index

-- `this.inputs[index].witness = witness`
abbrev pub set_witness :
    List WitnessedPrevOutputPointer → ℕ → Buffer → List WitnessedPrevOutputPointer
set_witness [] i witness = []
set_witness (x ∷ xs) ℕ.zero witness = record x { witness = some witness } ∷ xs
set_witness (x ∷ xs) (ℕ.suc i) witness = x ∷ set_witness xs i witness

-- `this.inputs[index].witness = undefined`
abbrev without_witness : WitnessedPrevOutputPointer → WitnessedPrevOutputPointer
without_witness input = record input { witness = none }

module _ {B : Type 0} (env : Env B) where
  abbrev Builder : Type 0
  Builder = DepositTransactionBuilder B

  abbrev ow_deposit_transaction_options : DepositTransactionBuilderOptions B → Bool
  ow_deposit_transaction_options options =
      env.address.is_staking_address_valid options.staking_address
      && ow_optional_network_config env.big options.network

  -- the constructor
  unfoldable pub new_builder : DepositTransactionBuilderOptions B → Result Builder
  new_builder options = and_then (ow (ow_deposit_transaction_options options)) λ _. ok (record {
    network = init_network env.big options.network;
    inputs = [];
    staking_address = options.staking_address;
    unsigned_raw_tx = none;
    innert_tx_id = none;
  })

  abbrev clear_witnesses : Builder → Builder
  clear_witnesses b = record b { inputs = map without_witness b.inputs }

  abbrev clear_prepared_raw_tx : Builder → Builder
  clear_prepared_raw_tx b = record b { unsigned_raw_tx = none; innert_tx_id = none }

  abbrev clear_cached_data : Builder → Builder
  clear_cached_data b = clear_prepared_raw_tx (clear_witnesses b)

  unfoldable pub add_input : PrevOutputPointer → Method Builder (Unit {0})
  add_input pointer = do
    lift (ow (ow_prev_output_pointer pointer))
    modify clear_cached_data
    modify λ b. record b {
      inputs = b.inputs ++ record { prev_output_pointer = pointer; witness = none } ∷ [];
    }

  abbrev has_input : Builder → Bool
  has_input b = not (is_empty b.inputs)

  abbrev verify_has_input : Builder → Result (Unit {0})
  verify_has_input b = require (has_input b) "Builder has no input"

  -- what `prepareRawTx` asks the native module for
  unfoldable pub build_raw : Builder → Result RawTx
  build_raw b = env.staking.build_raw_deposit_transaction (record {
    inputs = map (λ input. input.prev_output_pointer) b.inputs;
    to_address = b.staking_address;
    chain_hex_id = b.network.chain_hex_id;
  })

  unfoldable pub prepare_raw_tx : Method Builder (Unit {0})
  prepare_raw_tx = do
    raw ← query build_raw
    modify
        λ b. record b { unsigned_raw_tx = some raw.unsigned_raw_tx; innert_tx_id = some raw.tx_id }

  -- `if (!this.isRawTxPrepared()) { … }`
  unfoldable pub if_not_prepared : Method Builder (Unit {0}) → Method Builder (Unit {0})
  if_not_prepared prepare b = elim b.unsigned_raw_tx [ some raw ↦ (ok tt, b) | none ↦ prepare b ]

  unfoldable pub prepare_if_needed : Method Builder (Unit {0})
  prepare_if_needed = if_not_prepared (query verify_has_input >> prepare_raw_tx)

  -- a field that `!` says is there; the methods read it after it was set
  abbrev defined : {A : Type 0} → Option A → Result A
  defined none = err type_error
  defined (some a) = ok a

  unfoldable pub tx_id : Method Builder (Option String)
  tx_id = do prepare_if_needed; gets λ b. b.innert_tx_id

  abbrev verify_input_index : Number → Builder → Result (Unit {0})
  verify_input_index index b =
      require (not (less_than 0 index || not (less_than (length b.inputs) index)))
        "Input index out of bound"

  -- the write at an index within the bounds; `this.inputs[index]` of a fraction is `undefined`
  unfoldable pub write_witness : Number → Buffer → Method Builder (Unit {0})
  write_witness (whole i) witness = modify λ b. record b { inputs = set_witness b.inputs i witness }
  write_witness (fraction i) witness = lift (err type_error)
  write_witness negative witness = lift (err type_error)

  unfoldable pub sign_input : Number → KeyPair → Method Builder (Unit {0})
  sign_input index key_pair = do
    prepare_if_needed
    query (verify_input_index index)
    id ← query λ b. defined b.innert_tx_id
    witness ← lift (env.schnorr_sign_tx_id (from_hex (codes id)) (to_object key_pair))
    write_witness index witness

  pub add_witness : Number → Buffer → Method Builder (Unit {0})
  add_witness index witness = do
    query verify_has_input
    query (verify_input_index index)
    write_witness index witness

  abbrev witness_at : Number → List WitnessedPrevOutputPointer → Result Bool
  witness_at (whole i) xs = elim (get_elem? xs i) [
    | none ↦ err type_error
    | some x ↦ ok (is_some x.witness)
  ]
  witness_at (fraction i) xs = err type_error
  witness_at negative xs = err type_error

  pub has_witness : Number → Builder → Result Bool
  has_witness index b = and_then (verify_input_index index b) λ _. witness_at index b.inputs

  pub to_unsigned_hex : Method Builder (Option Buffer)
  to_unsigned_hex = do
    query verify_has_input
    if_not_prepared prepare_raw_tx
    gets λ b. b.unsigned_raw_tx

  unfoldable pub is_completed : Builder → Bool
  is_completed b = has_input b && all (λ input. is_some input.witness) b.inputs

  unfoldable pub to_hex : Option String → Method Builder Buffer
  to_hex tendermint_address = do
    let address = tendermint_address_or_default tendermint_address
    lift (ow (ow_tendermint_address env.is_url address))
    prepare_if_needed
    query λ b. require (is_completed b) "Transaction builder is not completed"
    query λ b.
        env.staking.deposit_transaction_to_hex b.unsigned_raw_tx
          (map (λ input. input.witness) b.inputs) address (get_rust_features_from_env env.node_env)
