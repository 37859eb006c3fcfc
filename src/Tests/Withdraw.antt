-- ===== src/Tests/Withdraw.antt =====
-- Witnesses on the builder of transactions that withdraw unbonded stake.
use chain_nodelib.Transaction.Withdraw.Calls.{answers}
use chain_nodelib.Prelude.{false}
use chain_nodelib.Transaction.Withdraw.{to_signed_plain_hex}
use chain_nodelib.Transaction.Withdraw.Calls.{run}
use chain_nodelib.Transaction.Withdraw.Reference.{plain, plain_answers}
use chain_nodelib.Transaction.Withdraw.Agreement.{
  plain_run, plain_signed_hex, remembered, answers-new_withdraw,
}
use chain_nodelib.Method.{thrown}
use chain_nodelib.Transaction.Withdraw.{prepare_raw_tx}
use chain_nodelib.Transaction.Withdraw.Calls.{step}
use chain_nodelib.Transaction.Withdraw.Contents.{contents, extended_by, run-contents_withdraw}
use chain_nodelib.Transaction.Withdraw.Errors.{IsUntouched, step_failed_withdraw}
use chain_nodelib.Prelude.{ℕ, ◌≤◌, ◌^◌, ◌≡◌, refl, All, none, some, List, [], ◌∷◌, ◌++◌, map, arith}
use chain_nodelib.Method.{◌>>=◌}
use chain_nodelib.Network.{mainnet_config}
use chain_nodelib.Types.{
  Output, ow_tendermint_address, ow_coin, ow_account_nonce, validate_transfer_address,
}
use chain_nodelib.Native.{RawTx}
use chain_nodelib.Transaction.Withdraw.{
  WithdrawUnbondedTransactionBuilder, WithdrawUnbondedTransactionBuilderOptions, new_builder,
  build_raw, prepare_if_needed, to_hex, add_output, ow_withdraw_unbonded_output,
  get_total_output_amount,
}
use chain_nodelib.Transaction.Withdraw.Calls.{
  Call, adds_output, adds_view_key, signs, asks_hex, run,
}
use chain_nodelib.Transaction.Withdraw.Prepared.{IsPrepared, run-new_withdraw-IsPrepared}
use chain_nodelib.Transaction.Withdraw.Outputs.{HasGoodOutputs, sum, get_total_output_amount-Totals}
use chain_nodelib.Transaction.Withdraw.Witness.{IsStale, add_output-IsStale}
use chain_nodelib.Transaction.Withdraw.Complete.{
  add_outputs, add_view_keys, to_hex-complete_withdraw,
}
use chain_nodelib.Native.{get_rust_features_from_env}
use chain_nodelib.Transaction.{tendermint_address_or_default}
use chain_nodelib.Tests.{env, numbers, number_laws, alice}

abbrev output : Output ℕ
output = record { address = "cro1"; value = 10; valid_from = some (record { seconds = 3 }) }

abbrev options : WithdrawUnbondedTransactionBuilderOptions ℕ
options = record { nonce = 1; network = none }

abbrev new_withdraw : WithdrawUnbondedTransactionBuilder ℕ
new_withdraw = record {
  network = mainnet_config numbers;
  nonce = 1;
  outputs = [];
  view_keys = [];
  unsigned_raw_tx = none;
  innert_tx_id = none;
  witness = none;
}

abbrev calls : List (Call ℕ)
calls =
    adds_output output
    ∷ adds_view_key (2 ∷ [])
    ∷ signs alice
    ∷ adds_output output
    ∷ asks_hex none
    ∷ []

run-new_withdraw-IsPrepared_example : IsPrepared env (run env calls new_withdraw)
unfolding new_builder ow_account_nonce
run-new_withdraw-IsPrepared_example =
    run-new_withdraw-IsPrepared env options new_withdraw calls refl

abbrev two_outputs : WithdrawUnbondedTransactionBuilder ℕ
two_outputs = record new_withdraw { outputs = output ∷ output ∷ [] }

two_outputs-HasGoodOutputs : HasGoodOutputs env "Mainnet" two_outputs
unfolding ow_withdraw_unbonded_output ow_coin validate_transfer_address
two_outputs-HasGoodOutputs = record {
  same_network = refl;
  bounded = omega arith;
  accepted = ((refl, refl), ((refl, refl), tt));
}

get_total_output_amount-Totals_example :
    (amounts : List ℕ) × (map (λ o. o.value) two_outputs.outputs
      ≡ map (λ n. numbers.decimal n 0) amounts)
    × All (λ n. n ≤ 10 ^ 19) amounts
    × (get_total_output_amount env two_outputs ≡ numbers.decimal (sum amounts) 0)
get_total_output_amount-Totals_example =
    get_total_output_amount-Totals env number_laws "Mainnet" two_outputs two_outputs-HasGoodOutputs

abbrev raw : RawTx
raw = record { unsigned_raw_tx = 7 ∷ 2 ∷ 42 ∷ []; tx_id = "0b" }

abbrev signed : WithdrawUnbondedTransactionBuilder ℕ
signed = record two_outputs {
  unsigned_raw_tx = some (7 ∷ 2 ∷ 42 ∷ []);
  innert_tx_id = some "0b";
  witness = some (9 ∷ []);
}

add_output-IsStale_example : IsStale env (9 ∷ []) (add_output env output signed).1
unfolding add_output ow_withdraw_unbonded_output ow_coin validate_transfer_address ◌>>=◌
add_output-IsStale_example = add_output-IsStale env output (9 ∷ []) signed refl refl

to_hex-complete_withdraw_example :
    (to_hex env none (
      run env
        (add_outputs (output ∷ []) ++ (add_view_keys ((2 ∷ []) ∷ []) ++ signs alice ∷ []))
        new_withdraw)).0
    ≡ env.staking.withdraw_unbonded_transaction_to_obfuscated_hex
        (some (7 ∷ 1 ∷ 42 ∷ []))
        (some (7 ∷ 1 ∷ 42 ∷ []))
        (tendermint_address_or_default none)
        (get_rust_features_from_env none)
unfolding new_builder ow_account_nonce build_raw ow_withdraw_unbonded_output ow_coin
    validate_transfer_address ow_tendermint_address
to_hex-complete_withdraw_example =
    to_hex-complete_withdraw env options new_withdraw output [] ((2 ∷ []) ∷ []) alice
      (record { unsigned_raw_tx = 7 ∷ 1 ∷ 42 ∷ []; tx_id = "0b" }) (7 ∷ 1 ∷ 42 ∷ []) none refl
      (omega arith) ((refl, refl), tt) (refl, tt) refl refl refl

run-contents_withdraw_example :
    contents (run env calls new_withdraw) ≡ extended_by env new_withdraw calls
run-contents_withdraw_example = run-contents_withdraw env calls new_withdraw (omega arith)

-- The export prepares the raw transaction, and then finds no witness.
step_failed_withdraw_example : IsUntouched env two_outputs (step env (asks_hex none) two_outputs)
unfolding to_hex prepare_if_needed prepare_raw_tx build_raw ow_tendermint_address ◌>>=◌
step_failed_withdraw_example =
    step_failed_withdraw env (asks_hex none) two_outputs (thrown "Builder is not signed") refl

answers-new_withdraw_example :
    (answers env calls new_withdraw ≡ plain_answers env calls (plain new_withdraw))
    × (plain (run env calls new_withdraw) ≡ plain_run env calls (plain new_withdraw))
    × (to_signed_plain_hex env (run env calls new_withdraw)
        ≡ plain_signed_hex env
            (remembered env calls (plain new_withdraw) false)
            (plain_run env calls (plain new_withdraw)))
unfolding new_builder ow_account_nonce
answers-new_withdraw_example = answers-new_withdraw env options new_withdraw calls refl
