-- ===== src/Transaction/Transfer/Calls.antt =====
-- Sequences of calls on a transfer builder.
use chain_nodelib.Prelude.{none, List, [], ◌∷◌}
use chain_nodelib.Method.{Result}
use chain_nodelib.Number.{Number}
use chain_nodelib.Buffer.{Buffer}
use chain_nodelib.Types.{Input, Output}
use chain_nodelib.Native.{Env}
use chain_nodelib.KeyPair.{KeyPair}
use chain_nodelib.Transaction.Transfer.{
  TransferTransactionBuilder, add_input, add_output, add_view_key, sign_input, add_witness,
}

-- A call of a method that writes to the builder.
pub data Call (B : Type 0) : Type 0 where
  adds_input : Input B → Call B
  adds_output : Output B → Call B
  adds_view_key : Buffer → Call B
  signs_input : Number → KeyPair → Call B
  adds_witness : Number → Buffer → Call B

-- What a builder holds beside its signing state.
abbrev pub contents : {B : Type 0} → TransferTransactionBuilder B → TransferTransactionBuilder B
contents b = record b { incomplete_hex = none }

module _ {B : Type 0} (env : Env B) where
  -- The builder after a call, also where the call throws.
  unfoldable pub step : Call B → TransferTransactionBuilder B → TransferTransactionBuilder B
  step (adds_input input) b = (add_input env input b).1
  step (adds_output output) b = (add_output env output b).1
  step (adds_view_key key) b = (add_view_key env key b).1
  step (signs_input index key_pair) b = (sign_input env index key_pair b).1
  step (adds_witness index witness) b = (add_witness env index witness b).1

  -- What a call answers.
  abbrev pub answer : Call B → TransferTransactionBuilder B → Result (Unit {0})
  answer (adds_input input) b = (add_input env input b).0
  answer (adds_output output) b = (add_output env output b).0
  answer (adds_view_key key) b = (add_view_key env key b).0
  answer (signs_input index key_pair) b = (sign_input env index key_pair b).0
  answer (adds_witness index witness) b = (add_witness env index witness b).0

  unfoldable pub run : List (Call B) → TransferTransactionBuilder B → TransferTransactionBuilder B
  run [] b = b
  run (c ∷ cs) b = run cs (step c b)

  -- The answers of a sequence of calls.
  abbrev pub answers : List (Call B) → TransferTransactionBuilder B → List (Result (Unit {0}))
  answers [] b = []
  answers (c ∷ cs) b = answer c b ∷ answers cs (step c b)
