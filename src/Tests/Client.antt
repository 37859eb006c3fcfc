-- ===== src/Tests/Client.antt =====
-- Witnesses on the clients of the integration tests.
use chain_nodelib.Prelude.{
  ℕ, ◌+◌, ◌/◌, ◌<◌, ◌≤◌, ◌≡◌, ◌≢◌, ◌↔◌, refl, String, Bool, true, false, Option, none, some, List,
  [], ◌∷◌, ◌++◌, arith, leb,
}
use chain_nodelib.Number.{Number, whole}
use chain_nodelib.Buffer.{codes}
use chain_nodelib.Client.{
  Json, number, text, object, member, no_members, array, item, no_items, error, Outcome, fulfilled,
  Platform,
}
use chain_nodelib.Client.Rpc.{initial}
use chain_nodelib.Client.Tendermint.{TendermintRpc, wait_tx_id_confirmation}
use chain_nodelib.Client.Waits.{wait_for_block_count}
use chain_nodelib.Client.Polling.{Settles, wait_tx_id_confirmation_iff}
use chain_nodelib.Client.Blocks.{IsProducing, status, wait_for_block_count-passes}
use chain_nodelib.Client.Wallet.{WalletRpc, withdraw_all_stake}
use chain_nodelib.Client.Requests.{IsRecord}
use chain_nodelib.Client.{◌>>=◌, async_middleman, modify, gets, settle, resolve, sleep}
use chain_nodelib.Client.Rpc.{request, post_request, on_world}
use chain_nodelib.Client.Wallet.{
  get_auth_token, unbond_and_withdraw_stake, sync, withdraw_bonded_funds,
}
use chain_nodelib.Client.Tendermint.{check_confirmation, is_tx_id_confirmed}
use chain_nodelib.Client.Balance.{Ends, withdraw_all_stake-Ends}
use chain_nodelib.Client.Assertion.{
  incoming, TransactionChangeOutputAssertion, TransactionAssertion, RpcTransactionChange, transfer,
  expect_transaction_should_eq,
}
use chain_nodelib.Client.Matches.{
  AgreeAllOutputs, AgreesId, AgreesText, expect_transaction_should_eq_iff,
}

-- A clock in milliseconds, and the requests that have been posted.
abbrev World : Type 0
World = ℕ × List (ℕ × String)

abbrev at_least : Json → ℕ → Bool
at_least (number (whole m)) n = leb n m
at_least _ n = false

abbrev natural : Json → Option ℕ
natural (number (whole n)) = some n
natural _ = none

abbrev two_addresses : Json
two_addresses =
    object
      (member "result" (array (item (text (97 ∷ [])) (item (text (98 ∷ [])) no_items))) no_members)

abbrev committed : Json
committed = object (
    member "result"
      (object (
        member "check_tx" (object (member "code" (number (whole 0)) no_members))
          (member "deliver_tx" (object (member "code" (number (whole 0)) no_members)) no_members)))
      no_members)

-- A node with a block in each second.
abbrev platform : Platform World
platform = record {
  get = λ url w. (fulfilled (status (number (whole (w.0 / 1000)))), w);
  post = λ url body w. (fulfilled committed, w);
  post_transformed =
      λ url body transform w. (fulfilled two_addresses, (w.0, w.1 ++ (body.id, body.method) ∷ []));
  parse = λ raw reviver. two_addresses;
  now = λ w. w.0;
  wait = λ ms w. (w.0 + ms, w.1);
  is_greater_than = λ v n. false;
  is_greater_than_or_equal_to = at_least;
  to_number = natural;
  template = λ v. [];
  stringify = λ v. [];
  type_error_message = [];
}

abbrev client : TendermintRpc
client = record { url = codes "http://localhost:26657" }

-- A node that finds as many transactions as its clock says.
abbrev search_platform : Platform World
search_platform = record platform {
  get = λ url w. (
    fulfilled (
        object (
          member "result" (object (member "total_count" (number (whole w.0)) no_members))
            no_members)),
    w,
  );
}

fulfilled_is_not_pending : fulfilled true ≢ Outcome.pending
fulfilled_is_not_pending = λ e. cc

wait_tx_id_confirmation_iff_example :
    (wait_tx_id_confirmation search_platform 3 client (text []) 1000 (0, [])
      ≡ (fulfilled true, (1000, [])))
    ↔ ((n : ℕ) × (n ≤ 3)
        × Settles search_platform client (text []) 1000 n (0, []) (fulfilled true) (1000, []))
wait_tx_id_confirmation_iff_example =
    wait_tx_id_confirmation_iff search_platform client (text []) 1000 3 (0, []) (1000, [])
      fulfilled_is_not_pending

platform-IsProducing : IsProducing platform client (λ w. w.0 / 1000) 1
platform-IsProducing = record {
  answers = λ w. (number (whole (w.0 / 1000)), refl, refl);
  keeps = λ w. omega arith;
  grows = λ w. omega arith;
}

wait_for_block_count-passes_example :
    (w' : World) × (wait_for_block_count platform 4 2 client (0, []) ≡ (fulfilled tt, w'))
    × (0 / 1000 + 2 < w'.0 / 1000)
wait_for_block_count-passes_example =
    wait_for_block_count-passes platform client (λ w. w.0 / 1000) 1 platform-IsProducing 4 2 (0, [])
      (omega arith)

abbrev wallet : WalletRpc
wallet = record { rpc_client = record { url = [] }; tendermint_rpc = client }

search_platform-IsRecord : IsRecord search_platform (λ w. w.1)
search_platform-IsRecord = record {
  posts = λ url body transform w. refl;
  gets = λ url w. refl;
  waits = λ ms w. refl;
}

-- This run ends without an error.
run_ends : (withdraw_all_stake search_platform 3 wallet none (initial (0, []))).0 ≡ fulfilled tt
unfolding withdraw_all_stake ◌>>=◌ get_auth_token async_middleman request post_request modify gets
    on_world settle unbond_and_withdraw_stake sync resolve withdraw_bonded_funds
    wait_tx_id_confirmation check_confirmation is_tx_id_confirmed sleep
run_ends = refl

withdraw_all_stake-Ends_example :
    Ends search_platform
      (λ (w : World). w.1)
      search_platform-IsRecord
      wallet
      (initial (0, []))
      (withdraw_all_stake search_platform 3 wallet none (initial (0, [])))
withdraw_all_stake-Ends_example =
    withdraw_all_stake-Ends search_platform (λ w. w.1) search_platform-IsRecord 3 wallet none
      (initial (0, []))

abbrev expected_output : TransactionChangeOutputAssertion
expected_output = record { address = "cro1"; valid_from = some 5; value = "10" }

abbrev expected : TransactionAssertion
expected = record {
  kind = incoming;
  outputs = some (expected_output ∷ []);
  tx_id = some "0a";
  value = "10";
}

abbrev actual : RpcTransactionChange Number
actual = record {
  block_height = whole 7;
  block_time = "2020";
  fee = "1";
  inputs = [];
  kind = incoming;
  outputs = record { address = "cro1"; valid_from = whole 5; value = "10" } ∷ [];
  transaction_id = "0a";
  transaction_type = transfer;
  value = "10";
}

expect_transaction_should_eq_iff_example :
    (expect_transaction_should_eq (λ n. n) (λ tx. []) error (error []) expected actual
      ≡ fulfilled tt)
    ↔ ((actual.kind ≡ expected.kind)
        × AgreeAllOutputs (λ n. n) (λ tx. []) error (error []) expected.outputs actual.outputs
        × AgreesId expected.tx_id actual.transaction_id
        × AgreesText expected.value actual.value)
expect_transaction_should_eq_iff_example =
    expect_transaction_should_eq_iff (λ n. n) (λ tx. []) error (error []) expected actual
