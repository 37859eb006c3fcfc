-- ===== src/Tests/Staking.antt =====
-- Witnesses on the builders of deposit, unbond and withdraw transactions.
use chain_nodelib.Transaction.Deposit.Reference as DepositReference
use chain_nodelib.Transaction.Deposit.Agreement as DepositAgreement
use chain_nodelib.Prelude.{filter, All, get_elem?, map}
use chain_nodelib.Transaction.Deposit.Spends as DepositSpends
use chain_nodelib.Method.{thrown}
use chain_nodelib.Transaction.Deposit.Contents as DepositContents
use chain_nodelib.Transaction.Deposit.Errors as DepositErrors
use chain_nodelib.Prelude.{ℕ, ◌≡◌, ◌≢◌, refl, none, some, List, [], ◌∷◌, ◌++◌, arith}
use chain_nodelib.Method.{◌>>=◌}
use chain_nodelib.Number.{whole, negative}
use chain_nodelib.Network.{mainnet_config}
use chain_nodelib.Types.{ow_tendermint_address, ow_tx_id}
use chain_nodelib.Native.{PrevOutputPointer, RawTx}
use chain_nodelib.Transaction.Deposit
use chain_nodelib.Transaction.Deposit.{
  DepositTransactionBuilder, DepositTransactionBuilderOptions, WitnessedPrevOutputPointer,
  set_witness, ow_prev_output_pointer,
}
use chain_nodelib.Transaction.Deposit.Calls as DepositCalls
use chain_nodelib.Transaction.Deposit.Complete as DepositComplete
use chain_nodelib.Transaction.Deposit.Signed as DepositSigned
use chain_nodelib.Transaction.Deposit.Adding as DepositAdding
use chain_nodelib.Native.{get_rust_features_from_env}
use chain_nodelib.Transaction.{tendermint_address_or_default}
use chain_nodelib.Tests.{env, numbers, alice}

abbrev pointer : PrevOutputPointer
pointer = record {
  prev_tx_id = "0123456789abcdef0123456789abcdef0123456789abcdef0123456789abcdef";
  prev_index = whole 0;
}

abbrev options : DepositTransactionBuilderOptions ℕ
options = record { staking_address = "0x1"; network = none }

abbrev new_deposit : DepositTransactionBuilder ℕ
new_deposit = record {
  network = mainnet_config numbers;
  inputs = [];
  staking_address = "0x1";
  unsigned_raw_tx = none;
  innert_tx_id = none;
}

abbrev calls : List DepositCalls.Call
calls =
    DepositCalls.adds_input pointer
    ∷ DepositCalls.signs_input (whole 0) alice
    ∷ DepositCalls.asks_hex none
    ∷ []

abbrev one_input : DepositTransactionBuilder ℕ
one_input = record new_deposit {
  inputs = record { prev_output_pointer = pointer; witness = none } ∷ [];
}

abbrev raw : RawTx
raw = record { unsigned_raw_tx = 7 ∷ 1 ∷ 42 ∷ []; tx_id = "0b" }

abbrev prepared : DepositTransactionBuilder ℕ
prepared = record one_input { unsigned_raw_tx = some (7 ∷ 1 ∷ 42 ∷ []); innert_tx_id = some "0b" }

abbrev completed : DepositTransactionBuilder ℕ
completed = record prepared {
  inputs = record { prev_output_pointer = pointer; witness = some (9 ∷ []) } ∷ [];
}

cons_is_not_nil : one_input.inputs ≢ []
cons_is_not_nil = ground arith

to_hex_complete_example :
    (Deposit.to_hex env none (
      DepositCalls.run env
        (DepositSigned.add_inputs (pointer ∷ pointer ∷ [])
          ++ DepositSigned.sign_inputs 0 (alice ∷ alice ∷ []))
        new_deposit)).0
    ≡ env.staking.deposit_transaction_to_hex
        (some (7 ∷ 2 ∷ 42 ∷ []))
        (some (9 ∷ 11 ∷ []) ∷ some (9 ∷ 11 ∷ []) ∷ [])
        (tendermint_address_or_default none)
        (get_rust_features_from_env none)
unfolding Deposit.new_builder ow_prev_output_pointer ow_tx_id ow_tendermint_address
to_hex_complete_example =
    DepositComplete.to_hex_complete env options new_deposit (pointer ∷ pointer ∷ [])
      (alice ∷ alice ∷ []) ((9 ∷ 11 ∷ []) ∷ (9 ∷ 11 ∷ []) ∷ [])
      (record { unsigned_raw_tx = 7 ∷ 2 ∷ 42 ∷ []; tx_id = "0b" }) none refl (ground arith)
      (refl, (refl, tt)) refl refl (refl, (refl, tt)) refl

abbrev two_inputs : DepositTransactionBuilder ℕ
two_inputs = record new_deposit {
  inputs =
      record { prev_output_pointer = pointer; witness = none }
      ∷ record { prev_output_pointer = pointer; witness = none }
      ∷ [];
}

abbrev added : DepositAdding.Witnesses
added = (whole 1, 8 ∷ []) ∷ (whole 2, 7 ∷ []) ∷ (negative, 7 ∷ []) ∷ (whole 1, 9 ∷ []) ∷ []

run-add_witnesses_example :
    (DepositCalls.answers env (DepositAdding.add_witnesses added) two_inputs
      ≡ map (λ x. DepositAdding.outcome 2 x.0) added)
    × (record (DepositCalls.run env (DepositAdding.add_witnesses added) two_inputs) {
      inputs = two_inputs.inputs;
    }
        ≡ two_inputs)
    × ((i : ℕ)
        → get_elem? (DepositCalls.run env (DepositAdding.add_witnesses added) two_inputs).inputs i
          ≡ DepositAdding.with_last i added (get_elem? two_inputs.inputs i))
run-add_witnesses_example = DepositAdding.run-add_witnesses env added two_inputs

run-new_deposit-spends_example :
    (DepositContents.contents (DepositCalls.run env calls new_deposit)
      ≡ DepositSpends.of_options env options
          (filter ow_prev_output_pointer (DepositContents.given_inputs calls)))
    × All DepositSpends.IsPointer
        (DepositContents.contents (DepositCalls.run env calls new_deposit)).spends
unfolding Deposit.new_builder
run-new_deposit-spends_example =
    DepositSpends.run-new_deposit-spends env options new_deposit calls refl

-- The export prepares the raw transaction, and then finds no witness.
step_failed_deposit_example :
    DepositErrors.IsUntouched env one_input
      (DepositCalls.step env (DepositCalls.asks_hex none) one_input)
unfolding Deposit.to_hex Deposit.prepare_if_needed Deposit.if_not_prepared Deposit.prepare_raw_tx
    Deposit.build_raw Deposit.is_completed ow_tendermint_address ◌>>=◌
step_failed_deposit_example =
    DepositErrors.step_failed_deposit env (DepositCalls.asks_hex none) one_input
      (thrown "Transaction builder is not completed") refl

answers-new_deposit_example :
    DepositCalls.answers env calls new_deposit
    ≡ DepositReference.plain_answers env calls (DepositReference.plain new_deposit)
unfolding Deposit.new_builder
answers-new_deposit_example =
    DepositAgreement.answers-new_deposit env options new_deposit calls refl
