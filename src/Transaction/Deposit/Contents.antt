-- ===== src/Transaction/Deposit/Contents.antt =====
-- What the methods of a deposit builder do to its network, its staking address and the outputs that
-- it spends.
use mathlib.Core.List.{append-nil, append_assoc}
use chain_nodelib.Prelude.{
  String, ◌≡◌, refl, ap, ◌∙◌, Option, none, List, [], ◌∷◌, ◌++◌, map, arith, filter,
}
use chain_nodelib.Method.{Method, modify, lift, ◌>>=◌}
use chain_nodelib.Method.Keeps.{Keeps, keeps_rules}
use chain_nodelib.Number.{Number, whole, fraction, negative}
use chain_nodelib.Buffer.{Buffer}
use chain_nodelib.Network.{NetworkConfig}
use chain_nodelib.Native.{Env, PrevOutputPointer}
use chain_nodelib.KeyPair.{KeyPair}
use chain_nodelib.Transaction.Deposit.{
  DepositTransactionBuilder, WitnessedPrevOutputPointer, ow_prev_output_pointer, without_witness,
  add_input, prepare_raw_tx, if_not_prepared, prepare_if_needed, write_witness, sign_input,
  add_witness, tx_id, to_unsigned_hex, to_hex,
}
use chain_nodelib.Transaction.Deposit.Prepared.{pointers, pointers-set_witness}
use chain_nodelib.Transaction.Deposit.Calls.{
  Call, adds_input, signs_input, adds_witness, asks_tx_id, asks_unsigned_hex, asks_hex, step, run,
}

-- What a deposit says: the outputs that it spends, and where the stake goes.
pub record Contents (B : Type 0) : Type 0 where
  pub network : NetworkConfig B
  pub staking_address : String
  pub spends : List PrevOutputPointer

abbrev pub contents : {B : Type 0} → DepositTransactionBuilder B → Contents B
contents b = record {
  network = b.network;
  staking_address = b.staking_address;
  spends = pointers b.inputs;
}

abbrev pub spending : {B : Type 0} → Contents B → List PrevOutputPointer → Contents B
spending c ps = record c { spends = c.spends ++ ps }

-- What a sequence of calls hands over, in their order.
abbrev pub given_inputs : List Call → List PrevOutputPointer
given_inputs [] = []
given_inputs (adds_input p ∷ cs) = p ∷ given_inputs cs
given_inputs (_ ∷ cs) = given_inputs cs

-- An input is added behind inputs without witnesses.
pointers-concat :
    (inputs : List WitnessedPrevOutputPointer) (p : PrevOutputPointer)
    → pointers
        (map without_witness inputs ++ record { prev_output_pointer = p; witness = none } ∷ [])
      ≡ pointers inputs ++ p ∷ []
pointers-concat [] p = refl
pointers-concat (x ∷ xs) p = ap (λ ps. x.prev_output_pointer ∷ ps) (pointers-concat xs p)

-- The contents, to be kept by a method.
module _ {B : Type 0} (env : Env B) (c : Contents B) where
  abbrev Holds : DepositTransactionBuilder B → Type 0
  Holds b = contents b ≡ c

  prepare_raw_tx-Holds : Keeps Holds (prepare_raw_tx env)
  unfolding prepare_raw_tx ◌>>=◌
  prepare_raw_tx-Holds = record { after = λ b h. ground arith }

  if_not_prepared-Holds :
      (m : Method (DepositTransactionBuilder B) (Unit {0}))
      → Keeps Holds m
      → Keeps Holds (if_not_prepared env m)
  unfolding if_not_prepared
  if_not_prepared-Holds m k = record { after = λ b h. ground (arith, k.after b h) }

  prepare_if_needed-Holds : Keeps Holds (prepare_if_needed env)
  unfolding prepare_if_needed
  prepare_if_needed-Holds = search (keeps_rules, if_not_prepared-Holds, prepare_raw_tx-Holds)

  write_witness-Holds : (n : Number) (w : Buffer) → Keeps Holds (write_witness env n w)
  unfolding write_witness modify lift
  write_witness-Holds (whole i) w = record {
    after = λ b h.
        ap (λ ps. record (contents b) { spends = ps }) (pointers-set_witness b.inputs i w) ∙ h;
  }
  write_witness-Holds (fraction i) w = record { after = λ b h. h }
  write_witness-Holds negative w = record { after = λ b h. h }

  ruleset holds_rules = (
    keeps_rules, if_not_prepared-Holds, prepare_raw_tx-Holds, prepare_if_needed-Holds,
    write_witness-Holds,
  )

  sign_input-Holds : (n : Number) (k : KeyPair) → Keeps Holds (sign_input env n k)
  unfolding sign_input
  sign_input-Holds n k = search holds_rules

  add_witness-Holds : (n : Number) (w : Buffer) → Keeps Holds (add_witness env n w)
  unfolding add_witness
  add_witness-Holds n w = search holds_rules

  tx_id-Holds : Keeps Holds (tx_id env)
  unfolding tx_id
  tx_id-Holds = search holds_rules

  to_unsigned_hex-Holds : Keeps Holds (to_unsigned_hex env)
  unfolding to_unsigned_hex
  to_unsigned_hex-Holds = search holds_rules

  to_hex-Holds : (address : Option String) → Keeps Holds (to_hex env address)
  unfolding to_hex
  to_hex-Holds address = search holds_rules

module _ {B : Type 0} (env : Env B) where
  add_input-contents :
      (p : PrevOutputPointer) (b : DepositTransactionBuilder B) (cs : List Call)
      → spending (contents (add_input env p b).1) (filter ow_prev_output_pointer (given_inputs cs))
        ≡ spending (contents b) (filter ow_prev_output_pointer (given_inputs (adds_input p ∷ cs)))
  unfolding add_input ◌>>=◌
  add_input-contents p b cs = ground (
    arith,
    pointers-concat b.inputs p,
    append_assoc (pointers b.inputs) (p ∷ []) (filter ow_prev_output_pointer (given_inputs cs)),
  )

  -- Calls that hand over no input.
  abbrev Adds : Call → Type 0
  Adds (adds_input p) = Unit
  Adds _ = ⊥

  step-contents :
      (c : Call) (b : DepositTransactionBuilder B) → ¬ Adds c → contents (step env c b) ≡ contents b
  unfolding step
  step-contents (adds_input p) b h = absurd (h tt)
  step-contents (signs_input n k) b h = (sign_input-Holds env (contents b) n k).after b refl
  step-contents (adds_witness n w) b h = (add_witness-Holds env (contents b) n w).after b refl
  step-contents asks_tx_id b h = (tx_id-Holds env (contents b)).after b refl
  step-contents asks_unsigned_hex b h = (to_unsigned_hex-Holds env (contents b)).after b refl
  step-contents (asks_hex address) b h = (to_hex-Holds env (contents b) address).after b refl

  -- A builder spends what it spent, and behind this what was added and passes the check.
  pub run-contents_deposit :
      (cs : List Call) (b : DepositTransactionBuilder B)
      → contents (run env cs b)
        ≡ spending (contents b) (filter ow_prev_output_pointer (given_inputs cs))
  unfolding run step
  run-contents_deposit [] b = simp append-nil
  run-contents_deposit (adds_input p ∷ cs) b =
      run-contents_deposit cs (add_input env p b).1 ∙ add_input-contents p b cs
  run-contents_deposit (c ∷ cs) b =
      run-contents_deposit cs (step env c b)
      ∙ ap (λ s. spending s (filter ow_prev_output_pointer (given_inputs cs)))
          (step-contents c b (λ x. x))
