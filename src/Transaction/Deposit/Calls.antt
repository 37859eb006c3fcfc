-- ===== src/Transaction/Deposit/Calls.antt =====
-- Sequences of calls on a deposit builder.
use chain_nodelib.Prelude.{String, Option, none, some, List, [], ◌∷◌}
use chain_nodelib.Number.{Number}
use chain_nodelib.Method.{Result, ok, and_then}
use chain_nodelib.Buffer.{Buffer}
use chain_nodelib.Native.{Env, PrevOutputPointer}
use chain_nodelib.KeyPair.{KeyPair}
use chain_nodelib.Transaction.Deposit.{
  DepositTransactionBuilder, add_input, sign_input, add_witness, tx_id, to_unsigned_hex, to_hex,
}

-- A call of a method that may write to the builder.
pub data Call : Type 0 where
  adds_input : PrevOutputPointer → Call
  signs_input : Number → KeyPair → Call
  adds_witness : Number → Buffer → Call
  asks_tx_id : Call
  asks_unsigned_hex : Call
  asks_hex : Option String → Call

-- What the methods answer.
pub data Answer : Type 0 where
  nothing : Answer
  text : String → Answer
  bytes : Buffer → Answer

abbrev pub as_answer : {A : Type 0} → (A → Answer) → Result A → Result Answer
as_answer f r = and_then r λ a. ok (f a)

-- An id or a raw transaction that is there.
abbrev id_answer : Option String → Answer
id_answer none = nothing
id_answer (some id) = text id

abbrev raw_answer : Option Buffer → Answer
raw_answer none = nothing
raw_answer (some raw) = bytes raw

module _ {B : Type 0} (env : Env B) where
  -- The builder after a call, also where the call throws.
  unfoldable pub step : Call → DepositTransactionBuilder B → DepositTransactionBuilder B
  step (adds_input pointer) b = (add_input env pointer b).1
  step (signs_input index key_pair) b = (sign_input env index key_pair b).1
  step (adds_witness index witness) b = (add_witness env index witness b).1
  step asks_tx_id b = (tx_id env b).1
  step asks_unsigned_hex b = (to_unsigned_hex env b).1
  step (asks_hex address) b = (to_hex env address b).1

  -- What a call on a builder answers.
  abbrev pub answer : Call → DepositTransactionBuilder B → Result Answer
  answer (adds_input p) b = as_answer (λ _. nothing) (add_input env p b).0
  answer (signs_input n k) b = as_answer (λ _. nothing) (sign_input env n k b).0
  answer (adds_witness n w) b = as_answer (λ _. nothing) (add_witness env n w b).0
  answer asks_tx_id b = as_answer id_answer (tx_id env b).0
  answer asks_unsigned_hex b = as_answer raw_answer (to_unsigned_hex env b).0
  answer (asks_hex a) b = as_answer bytes (to_hex env a b).0

  unfoldable pub run : List Call → DepositTransactionBuilder B → DepositTransactionBuilder B
  run [] b = b
  run (c ∷ cs) b = run cs (step c b)

  -- The answers of a sequence of calls.
  abbrev pub answers : List Call → DepositTransactionBuilder B → List (Result Answer)
  answers [] b = []
  answers (c ∷ cs) b = answer c b ∷ answers cs (step c b)
