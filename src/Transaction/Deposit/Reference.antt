-- ===== src/Transaction/Deposit/Reference.antt =====
-- A builder that keeps no raw transaction, against which the one that keeps it is held: each method
-- that needs the raw transaction asks the native module for it.
use chain_nodelib.Prelude.{
  String, not, ◌&&◌, ◌||◌, some, none, List, [], ◌∷◌, ◌++◌, map, length, all, is_empty, is_some,
}
use chain_nodelib.Method.{Result, ok, err, ow, require, and_then, type_error}
use chain_nodelib.Number.{Number, whole, fraction, negative, less_than}
use chain_nodelib.Buffer.{Buffer, codes, from_hex}
use chain_nodelib.Network.{NetworkConfig}
use chain_nodelib.Types.{ow_tendermint_address}
use chain_nodelib.Native.{Env, RawTx, get_rust_features_from_env}
use chain_nodelib.KeyPair.{to_object}
use chain_nodelib.Transaction.{tendermint_address_or_default}
use chain_nodelib.Transaction.Deposit.{
  DepositTransactionBuilder, WitnessedPrevOutputPointer, ow_prev_output_pointer, set_witness,
  without_witness,
}
use chain_nodelib.Transaction.Deposit.Calls.{
  Call, adds_input, signs_input, adds_witness, asks_tx_id, asks_unsigned_hex, asks_hex, Answer,
  nothing, text, bytes, as_answer,
}
use chain_nodelib.Transaction.Deposit.Prepared.{pointers}

pub record Plain (B : Type 0) : Type 0 where
  pub network : NetworkConfig B
  pub staking_address : String
  pub inputs : List WitnessedPrevOutputPointer

-- The builder without what is prepared.
abbrev pub plain : {B : Type 0} → DepositTransactionBuilder B → Plain B
plain b = record { network = b.network; staking_address = b.staking_address; inputs = b.inputs }

-- The inputs with a witness at an index within the bounds.
abbrev pub witnessed_at :
    Number → Buffer → List WitnessedPrevOutputPointer → Result (List WitnessedPrevOutputPointer)
witnessed_at (whole i) w xs = ok (set_witness xs i w)
witnessed_at (fraction i) w xs = err type_error
witnessed_at negative w xs = err type_error

module _ {B : Type 0} (env : Env B) where
  abbrev verify_has_input_of : Plain B → Result (Unit {0})
  verify_has_input_of p = require (not (is_empty p.inputs)) "Builder has no input"

  abbrev verify_index_of : Number → Plain B → Result (Unit {0})
  verify_index_of n p =
      require (not (less_than 0 n || not (less_than (length p.inputs) n)))
        "Input index out of bound"

  -- The raw transaction of the contents; there must be an input.
  unfoldable pub raw_of : Plain B → Result RawTx
  raw_of p = and_then (verify_has_input_of p) λ _.
      env.staking.build_raw_deposit_transaction (record {
        inputs = pointers p.inputs;
        to_address = p.staking_address;
        chain_hex_id = p.network.chain_hex_id;
      })

  -- The inputs after a call that writes to them, and the refusals of the call.
  unfoldable pub inputs_after : Call → Plain B → Result (List WitnessedPrevOutputPointer)
  unfolding raw_of
  inputs_after (adds_input x) p = and_then (ow (ow_prev_output_pointer x)) λ _.
      ok (map without_witness p.inputs ++ record { prev_output_pointer = x; witness = none } ∷ [])
  inputs_after (signs_input n k) p = and_then (raw_of p) λ raw. and_then (verify_index_of n p) λ _.
      and_then (env.schnorr_sign_tx_id (from_hex (codes raw.tx_id)) (to_object k))
        λ w. witnessed_at n w p.inputs
  inputs_after (adds_witness n w) p =
      and_then (verify_has_input_of p)
        λ _. and_then (verify_index_of n p) λ _. witnessed_at n w p.inputs
  inputs_after _ p = ok p.inputs

  unfoldable pub plain_step : Call → Plain B → Plain B
  unfolding inputs_after
  plain_step c p = elim (inputs_after c p) [ ok xs ↦ record p { inputs = xs } | err e ↦ p ]

  -- What a call answers.
  unfoldable pub plain_answer : Call → Plain B → Result Answer
  unfolding raw_of inputs_after
  plain_answer asks_tx_id p = as_answer (λ raw. text raw.tx_id) (raw_of p)
  plain_answer asks_unsigned_hex p = as_answer (λ raw. bytes raw.unsigned_raw_tx) (raw_of p)
  plain_answer (asks_hex a) p =
      let address = tendermint_address_or_default a in
      as_answer bytes (
        and_then (ow (ow_tendermint_address env.is_url address)) λ _. and_then (raw_of p) λ raw.
          and_then
            (require (not (is_empty p.inputs) && all (λ x. is_some x.witness) p.inputs)
              "Transaction builder is not completed")
            λ _.
              env.staking.deposit_transaction_to_hex (some raw.unsigned_raw_tx)
                (map (λ x. x.witness) p.inputs) address (get_rust_features_from_env env.node_env))
  plain_answer c p = as_answer (λ _. nothing) (inputs_after c p)

  -- The answers of a sequence of calls.
  abbrev pub plain_answers : List Call → Plain B → List (Result Answer)
  plain_answers [] p = []
  plain_answers (c ∷ cs) p = plain_answer c p ∷ plain_answers cs (plain_step c p)
