-- ===== src/Tests/Transfer.antt =====
-- Witnesses on a transfer builder.
use chain_nodelib.Transaction.Transfer.{to_incomplete_hex}
use chain_nodelib.Transaction.Transfer.Calls.{answers}
use chain_nodelib.Transaction.Transfer.Replay.{plain, plain_answers, plain_run, plain_hex}
use chain_nodelib.Transaction.Transfer.Replay.Runs.{run-new_transfer-replay}
use chain_nodelib.Prelude.{All}
use chain_nodelib.Method.{argument}
use chain_nodelib.Transaction.Transfer.Calls.{step}
use chain_nodelib.Transaction.Transfer.Errors.{IsUntouched, step_failed_transfer}
use chain_nodelib.Transaction.Transfer.Typed.{IsTypedInput, IsTypedOutput, run-new_builder-IsTyped}
use chain_nodelib.Tests.{number_laws}
use chain_nodelib.Prelude.{ℕ, ◌≡◌, ◌↔◌, refl, sym, ◌∙◌, eq_iff, arith, none, some, List, [], ◌∷◌}
use chain_nodelib.Method.{ok, ◌>>=◌}
use chain_nodelib.Number.{whole}
use chain_nodelib.Network.{mainnet_config, ow_network_config}
use chain_nodelib.Types.{Input, Output, single_sign_address, ow_tendermint_address}
use chain_nodelib.KeyPair.{has_private_key, to_object}
use chain_nodelib.Address
use chain_nodelib.Fee.{linear_fee, parse_fee_config_for_native}
use chain_nodelib.Transaction.Transfer.{
  TransferTransactionBuilder, new_builder, sign_input, prepare_incomplete_signing_hex, sign_with,
  to_hex, verify, is_completed, build_incomplete_hex,
}
use chain_nodelib.Transaction.Transfer.Calls.{
  Call, adds_input, adds_output, adds_view_key, signs_input, run,
}
use chain_nodelib.Transaction.Transfer.Current.{IsCurrent, built, signed, run-new_builder-IsCurrent}
use chain_nodelib.Transaction.Transfer.Contents.{run-contents, extended_by}
use chain_nodelib.Transaction.Transfer.Calls.{contents}
use chain_nodelib.Transaction.Transfer.Export.{
  MaySign, IsExported, sign_input-MaySign, to_hex-IsExported,
}
use chain_nodelib.Fee.{NativeFeeConfig}
use chain_nodelib.Native.{get_rust_features_from_env}
use chain_nodelib.Transaction.{tendermint_address_or_default}
use chain_nodelib.Transaction.Transfer.Signing.{Signs, sign_input_iff}
use chain_nodelib.Transaction.Transfer.Complete.{sign_inputs, to_hex-complete_transfer}
use chain_nodelib.Transaction.Transfer.Addresses.{
  IsExclusive, InputsFit, OutputsFit, run-new_builder-fits,
}
use chain_nodelib.Tests.{env, numbers, alice}

abbrev output : Output ℕ
output = record { address = "cro1"; value = 10; valid_from = none }

abbrev input : Input ℕ
input = record {
  prev_tx_id = "0123456789abcdef0123456789abcdef0123456789abcdef0123456789abcdef";
  prev_index = whole 0;
  prev_output = output;
  address_params = single_sign_address;
}

abbrev pub empty_builder : TransferTransactionBuilder ℕ
empty_builder = record {
  network = mainnet_config numbers;
  inputs = [];
  outputs = [];
  view_keys = [];
  incomplete_hex = none;
}

abbrev calls : List (Call ℕ)
calls =
    adds_input input
    ∷ adds_output output
    ∷ adds_view_key (2 ∷ [])
    ∷ signs_input (whole 0) alice
    ∷ []

run-new_builder-IsCurrent_example : IsCurrent env (run env calls empty_builder)
unfolding new_builder
run-new_builder-IsCurrent_example = run-new_builder-IsCurrent env none empty_builder calls refl

run-contents_example : contents (run env calls empty_builder) ≡ extended_by env empty_builder calls
run-contents_example = run-contents env calls empty_builder

abbrev pub ready_builder : TransferTransactionBuilder ℕ
ready_builder = record empty_builder { inputs = input ∷ []; outputs = output ∷ [] }

abbrev signed_builder : TransferTransactionBuilder ℕ
signed_builder = record ready_builder { incomplete_hex = some (1 ∷ 1 ∷ 1 ∷ 42 ∷ []) }

signed_builder-IsCurrent : IsCurrent env signed_builder
unfolding build_incomplete_hex parse_fee_config_for_native
signed_builder-IsCurrent =
    signed (record { algorithm = linear_fee; constant = "5"; coefficient = "5" }) (whole 0)
      (to_object alice) (built refl) refl

to_hex-IsExported_example : IsExported env none signed_builder (1 ∷ 1 ∷ 1 ∷ 42 ∷ [])
unfolding to_hex verify is_completed parse_fee_config_for_native ow_tendermint_address
to_hex-IsExported_example =
    to_hex-IsExported env none signed_builder (1 ∷ 1 ∷ 1 ∷ 42 ∷ []) signed_builder-IsCurrent refl

sign_input_iff_example :
    (sign_input env (whole 0) alice ready_builder ≡ (ok tt, signed_builder))
    ↔ Signs env (whole 0) alice ready_builder signed_builder
sign_input_iff_example = sign_input_iff env (whole 0) alice ready_builder signed_builder

alice-MaySign : MaySign env (whole 0) alice ready_builder
unfolding sign_input prepare_incomplete_signing_hex sign_with build_incomplete_hex
    parse_fee_config_for_native has_private_key Address.transfer ow_network_config ◌>>=◌
alice-MaySign = sign_input-MaySign env (whole 0) alice ready_builder refl

abbrev fee : NativeFeeConfig
fee = record { algorithm = linear_fee; constant = "5"; coefficient = "5" }

to_hex-complete_transfer_example :
    to_hex env none (run env (sign_inputs 0 (alice ∷ [])) ready_builder)
    ≡ env.transfer.to_hex_linear_fee
        (record { incomplete_hex = some (1 ∷ 1 ∷ 1 ∷ 42 ∷ []); fee_config = fee })
        (tendermint_address_or_default none)
        (get_rust_features_from_env none)
unfolding build_incomplete_hex parse_fee_config_for_native ow_tendermint_address
to_hex-complete_transfer_example =
    to_hex-complete_transfer env ready_builder alice [] (0 ∷ 1 ∷ 1 ∷ 42 ∷ []) (1 ∷ 1 ∷ 1 ∷ 42 ∷ [])
      fee none (ground arith) (ground arith) refl refl refl (alice-MaySign, tt) refl (_, refl, refl)
      refl refl refl

addresses-IsExclusive : IsExclusive env.address
addresses-IsExclusive address network other h k =
    (eq_iff network "Mainnet").0 h ∙ sym ((eq_iff other "Mainnet").0 k)

run-new_builder-fits_example :
    InputsFit env addresses-IsExclusive empty_builder.network (run env calls empty_builder).inputs
    × OutputsFit env addresses-IsExclusive empty_builder.network
        (run env calls empty_builder).outputs
unfolding new_builder
run-new_builder-fits_example =
    run-new_builder-fits env addresses-IsExclusive none empty_builder calls refl

step_failed_transfer_example :
    IsUntouched env ready_builder (step env (signs_input (whole 1) alice) ready_builder)
unfolding sign_input ◌>>=◌
step_failed_transfer_example =
    step_failed_transfer env (signs_input (whole 1) alice) ready_builder argument refl

run-new_builder-IsTyped_example :
    All (IsTypedInput env number_laws) (run env calls empty_builder).inputs
    × All (IsTypedOutput env number_laws) (run env calls empty_builder).outputs
unfolding new_builder
run-new_builder-IsTyped_example =
    run-new_builder-IsTyped env number_laws none empty_builder calls refl

run-new_transfer-replay_example :
    (answers env calls empty_builder ≡ plain_answers env calls (plain empty_builder none))
    × (contents (run env calls empty_builder)
        ≡ (plain_run env calls (plain empty_builder none)).base)
    × (to_incomplete_hex env (run env calls empty_builder)
        ≡ plain_hex env (plain_run env calls (plain empty_builder none)))
unfolding new_builder
run-new_transfer-replay_example = run-new_transfer-replay env none empty_builder calls refl
