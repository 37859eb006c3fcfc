-- ===== src/Transaction/Withdraw/Calls.antt =====
-- Sequences of calls on a builder that withdraws unbonded stake.
use chain_nodelib.Prelude.{String, Option, none, some, List, [], ◌∷◌}
use chain_nodelib.Method.{Result, ok, and_then}
use chain_nodelib.Buffer.{Buffer}
use chain_nodelib.Types.{Output}
use chain_nodelib.Native.{Env}
use chain_nodelib.KeyPair.{KeyPair}
use chain_nodelib.Transaction.Withdraw.{
  WithdrawUnbondedTransactionBuilder, add_output, add_view_key, estimate_fee, tx_id,
  to_unsigned_hex, sign, add_witness, to_hex,
}

-- A call of a method that may write to the builder.
pub data Call (B : Type 0) : Type 0 where
  adds_output : Output B → Call B
  adds_view_key : Buffer → Call B
  asks_fee : Call B
  asks_tx_id : Call B
  asks_unsigned_hex : Call B
  signs : KeyPair → Call B
  adds_witness : Buffer → Call B
  asks_hex : Option String → Call B

-- What the methods answer.
pub data Answer : Type 0 where
  nothing : Answer
  text : String → Answer
  bytes : Buffer → Answer

abbrev pub as_answer : {A : Type 0} → (A → Answer) → Result A → Result Answer
as_answer f r = and_then r λ a. ok (f a)

-- An id that is there is a text.
abbrev id_answer : Option String → Answer
id_answer none = nothing
id_answer (some id) = text id

module _ {B : Type 0} (env : Env B) where
  -- The builder after a call, also where the call throws.
  unfoldable pub step :
      Call B → WithdrawUnbondedTransactionBuilder B → WithdrawUnbondedTransactionBuilder B
  step (adds_output output) b = (add_output env output b).1
  step (adds_view_key view_key) b = (add_view_key env view_key b).1
  step asks_fee b = (estimate_fee env b).1
  step asks_tx_id b = (tx_id env b).1
  step asks_unsigned_hex b = (to_unsigned_hex env b).1
  step (signs key_pair) b = (sign env key_pair b).1
  step (adds_witness witness) b = (add_witness env witness b).1
  step (asks_hex address) b = (to_hex env address b).1

  -- What a call on a builder answers.
  abbrev pub answer : Call B → WithdrawUnbondedTransactionBuilder B → Result Answer
  answer (adds_output o) b = as_answer (λ _. nothing) (add_output env o b).0
  answer (adds_view_key k) b = as_answer (λ _. nothing) (add_view_key env k b).0
  answer asks_fee b = as_answer text (estimate_fee env b).0
  answer asks_tx_id b = as_answer id_answer (tx_id env b).0
  answer asks_unsigned_hex b = as_answer bytes (to_unsigned_hex env b).0
  answer (signs k) b = as_answer (λ _. nothing) (sign env k b).0
  answer (adds_witness w) b = as_answer (λ _. nothing) (add_witness env w b).0
  answer (asks_hex a) b = as_answer bytes (to_hex env a b).0

  unfoldable pub run :
      List (Call B) → WithdrawUnbondedTransactionBuilder B → WithdrawUnbondedTransactionBuilder B
  run [] b = b
  run (c ∷ cs) b = run cs (step c b)

  -- The answers of a sequence of calls.
  abbrev pub answers : List (Call B) → WithdrawUnbondedTransactionBuilder B → List (Result Answer)
  answers [] b = []
  answers (c ∷ cs) b = answer c b ∷ answers cs (step c b)
