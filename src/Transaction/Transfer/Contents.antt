-- ===== src/Transaction/Transfer/Contents.antt =====
-- What the methods of a transfer builder do to its network, inputs, outputs and view keys.
use mathlib.Core.List.{append-nil, append_assoc}
use chain_nodelib.Prelude.{
  ◌≡◌, ap, ◌∙◌, Bool, Option, none, List, [], ◌∷◌, ◌++◌, arith, ◌&&◌, filter,
}
use chain_nodelib.Method.{ok, ◌>>=◌}
use chain_nodelib.Number.{Number}
use chain_nodelib.Buffer.{Buffer}
use chain_nodelib.Network.{NetworkConfig}
use chain_nodelib.Types.{Input, Output, ow_input, ow_output}
use chain_nodelib.Native.{Env}
use chain_nodelib.KeyPair.{KeyPair}
use chain_nodelib.Transaction.Transfer.{
  TransferTransactionBuilder, TransferTransactionBuilderOptions, new_builder, add_input, add_output,
  add_view_key, sign_input, add_witness, prepare_incomplete_signing_hex, sign_with, witness_with,
}
use chain_nodelib.Transaction.Transfer.Calls.{
  Call, adds_input, adds_output, adds_view_key, signs_input, adds_witness, contents, step, run,
}

module _ {B : Type 0} where
  -- What a sequence of calls hands over, in their order.
  abbrev pub given_inputs : List (Call B) → List (Input B)
  given_inputs [] = []
  given_inputs (adds_input x ∷ cs) = x ∷ given_inputs cs
  given_inputs (_ ∷ cs) = given_inputs cs

  abbrev pub given_outputs : List (Call B) → List (Output B)
  given_outputs [] = []
  given_outputs (adds_output x ∷ cs) = x ∷ given_outputs cs
  given_outputs (_ ∷ cs) = given_outputs cs

  abbrev pub given_view_keys : List (Call B) → List Buffer
  given_view_keys [] = []
  given_view_keys (adds_view_key x ∷ cs) = x ∷ given_view_keys cs
  given_view_keys (_ ∷ cs) = given_view_keys cs

module _ {B : Type 0} (env : Env B) where
  -- The checks of `addInput`: the shape of the input, and its address in the network.
  abbrev pub accepts_input : NetworkConfig B → Input B → Bool
  accepts_input network x =
      ow_input env.big env.address.is_transfer_address_valid x
      && env.address.is_transfer_address_valid x.prev_output.address network.name

  abbrev pub accepts_output : NetworkConfig B → Output B → Bool
  accepts_output network x =
      ow_output env.big env.address.is_transfer_address_valid x
      && env.address.is_transfer_address_valid x.address network.name

  -- Of these, what passes the checks.
  abbrev pub accepted_inputs : NetworkConfig B → List (Call B) → List (Input B)
  accepted_inputs network cs = filter (accepts_input network) (given_inputs cs)

  abbrev pub accepted_outputs : NetworkConfig B → List (Call B) → List (Output B)
  accepted_outputs network cs = filter (accepts_output network) (given_outputs cs)

  abbrev pub accepted_view_keys : List (Call B) → List Buffer
  accepted_view_keys cs = filter env.key_pair.is_valid_view_key (given_view_keys cs)

  -- A builder with the same network and more contents.
  abbrev pub extended :
      TransferTransactionBuilder B
      → List (Input B)
      → List (Output B)
      → List Buffer
      → TransferTransactionBuilder B
  extended b is os vs = record {
    network = b.network;
    inputs = b.inputs ++ is;
    outputs = b.outputs ++ os;
    view_keys = b.view_keys ++ vs;
    incomplete_hex = none;
  }

  abbrev pub extended_by :
      TransferTransactionBuilder B → List (Call B) → TransferTransactionBuilder B
  extended_by b cs =
      extended b (accepted_inputs b.network cs) (accepted_outputs b.network cs)
        (accepted_view_keys cs)

  sign_input-contents :
      (i : Number) (k : KeyPair) (b : TransferTransactionBuilder B)
      → contents (sign_input env i k b).1 ≡ contents b
  unfolding sign_input sign_with prepare_incomplete_signing_hex ◌>>=◌
  sign_input-contents i k b = ground arith

  add_witness-contents :
      (i : Number) (w : Buffer) (b : TransferTransactionBuilder B)
      → contents (add_witness env i w b).1 ≡ contents b
  unfolding add_witness witness_with prepare_incomplete_signing_hex ◌>>=◌
  add_witness-contents i w b = ground arith

  -- After any calls, failing ones included, a builder has its network, and its inputs, outputs and
  -- view keys are the earlier ones and behind them those that were added and pass the checks, in the
  -- order of the calls.
  pub run-contents :
      (cs : List (Call B)) (b : TransferTransactionBuilder B)
      → contents (run env cs b) ≡ extended_by b cs
  unfolding run step add_input add_output add_view_key ◌>>=◌
  run-contents [] b = simp append-nil
  run-contents (adds_input x ∷ cs) b = ground (
    arith,
    run-contents cs (step env (adds_input x) b),
    append_assoc b.inputs (x ∷ []) (accepted_inputs b.network cs),
  )
  run-contents (adds_output x ∷ cs) b = ground (
    arith,
    run-contents cs (step env (adds_output x) b),
    append_assoc b.outputs (x ∷ []) (accepted_outputs b.network cs),
  )
  run-contents (adds_view_key x ∷ cs) b = ground (
    arith,
    run-contents cs (step env (adds_view_key x) b),
    append_assoc b.view_keys (x ∷ []) (accepted_view_keys cs),
  )
  run-contents (signs_input i k ∷ cs) b =
      run-contents cs (step env (signs_input i k) b)
      ∙ ap (λ c. extended_by c cs) (sign_input-contents i k b)
  run-contents (adds_witness i w ∷ cs) b =
      run-contents cs (step env (adds_witness i w) b)
      ∙ ap (λ c. extended_by c cs) (add_witness-contents i w b)

  -- The lists of a builder that began empty.
  pub run-new_builder-lists :
      (options : Option (TransferTransactionBuilderOptions B)) (b : TransferTransactionBuilder B)
      (cs : List (Call B))
      → new_builder env options ≡ ok b
      → ((run env cs b).inputs ≡ accepted_inputs b.network cs)
        × ((run env cs b).outputs ≡ accepted_outputs b.network cs)
        × ((run env cs b).view_keys ≡ accepted_view_keys cs)
  unfolding new_builder
  run-new_builder-lists options b cs e =
      let empty : (b.inputs ≡ []) × (b.outputs ≡ []) × (b.view_keys ≡ []) = ground arith in
      let all = run-contents cs b in
      (
        ap (λ c. c.inputs) all ∙ ap (λ l. l ++ accepted_inputs b.network cs) empty.0,
        ap (λ c. c.outputs) all ∙ ap (λ l. l ++ accepted_outputs b.network cs) empty.1,
        ap (λ c. c.view_keys) all ∙ ap (λ l. l ++ accepted_view_keys cs) empty.2,
      )
