-- ===== src/Transaction/Deposit/Agreement.antt =====
-- A deposit builder answers like one that keeps no raw transaction.
use chain_nodelib.Prelude.{
  ℕ, zero, suc, ◌≡◌, ◌⊎◌, refl, ap, ap₂, ◌∙◌, false, some, none, List, [], ◌∷◌, arith, is_empty,
  inl, inr,
}
use chain_nodelib.Method.{Error, ok, err, gets, Result-cases, ◌>>=◌}
use chain_nodelib.Method.Keeps.{Keeps, keeps_rules}
use chain_nodelib.Number.{Number, whole, fraction, negative}
use chain_nodelib.Buffer.{Buffer}
use chain_nodelib.Native.{Env, PrevOutputPointer, RawTx}
use chain_nodelib.Transaction.Deposit.{
  DepositTransactionBuilder, DepositTransactionBuilderOptions, WitnessedPrevOutputPointer,
  new_builder, set_witness, build_raw, prepare_raw_tx, if_not_prepared, prepare_if_needed,
  write_witness, add_input, sign_input, add_witness, tx_id, to_unsigned_hex, is_completed, to_hex,
}
use chain_nodelib.Transaction.Deposit.Calls.{
  Call, adds_input, signs_input, adds_witness, asks_tx_id, asks_unsigned_hex, asks_hex, answer,
  answers, step,
}
use chain_nodelib.Transaction.Deposit.Prepared.{IsPrepared, step-IsPrepared}
use chain_nodelib.Transaction.Deposit.Reference.{
  plain, raw_of, inputs_after, plain_step, plain_answer, plain_answers,
}

is_empty-set_witness :
    (xs : List WitnessedPrevOutputPointer) (i : ℕ) (w : Buffer)
    → is_empty (set_witness xs i w) ≡ is_empty xs
is_empty-set_witness [] i w = refl
is_empty-set_witness (x ∷ xs) zero w = refl
is_empty-set_witness (x ∷ xs) (suc i) w = refl

module _ {B : Type 0} (env : Env B) where
  -- A raw transaction is kept only where there is an input.
  abbrev pub HasInput : DepositTransactionBuilder B → Type 0
  HasInput b = (b.unsigned_raw_tx ≡ none) ⊎ (is_empty b.inputs ≡ false)

  add_input-HasInput : (p : PrevOutputPointer) → Keeps HasInput (add_input env p)
  unfolding add_input ◌>>=◌
  add_input-HasInput p = record { after = λ b h. ground arith }

  prepare_if_needed-HasInput : Keeps HasInput (prepare_if_needed env)
  unfolding prepare_if_needed prepare_raw_tx if_not_prepared ◌>>=◌
  prepare_if_needed-HasInput = record { after = λ b h. ground arith }

  to_unsigned_hex-HasInput : Keeps HasInput (to_unsigned_hex env)
  unfolding to_unsigned_hex prepare_raw_tx if_not_prepared ◌>>=◌
  to_unsigned_hex-HasInput = record { after = λ b h. ground arith }

  write_witness-HasInput : (n : Number) (w : Buffer) → Keeps HasInput (write_witness env n w)
  unfolding write_witness ◌>>=◌
  write_witness-HasInput (whole i) w = record {
    after = λ b h. ground (arith, is_empty-set_witness b.inputs i w);
  }
  write_witness-HasInput (fraction i) w = record { after = λ b h. h }
  write_witness-HasInput negative w = record { after = λ b h. h }

  ruleset input_rules = (keeps_rules, prepare_if_needed-HasInput, write_witness-HasInput)

  step-HasInput :
      (c : Call) (b : DepositTransactionBuilder B) → HasInput b → HasInput (step env c b)
  unfolding step sign_input add_witness tx_id to_hex
  step-HasInput (adds_input p) b h = (add_input-HasInput p).after b h
  step-HasInput (signs_input n k) b h =
      let keeps : Keeps HasInput (sign_input env n k) = search input_rules in keeps.after b h
  step-HasInput (adds_witness n w) b h =
      let keeps : Keeps HasInput (add_witness env n w) = search input_rules in keeps.after b h
  step-HasInput asks_tx_id b h =
      let keeps : Keeps HasInput (tx_id env) = search input_rules in keeps.after b h
  step-HasInput asks_unsigned_hex b h = to_unsigned_hex-HasInput.after b h
  step-HasInput (asks_hex a) b h =
      let keeps : Keeps HasInput (to_hex env a) = search input_rules in keeps.after b h

  abbrev prepared : DepositTransactionBuilder B → RawTx → DepositTransactionBuilder B
  prepared b raw = record b {
    unsigned_raw_tx = some raw.unsigned_raw_tx;
    innert_tx_id = some raw.tx_id;
  }

  -- Preparing is asking for the raw transaction of the contents.
  prepare-raw_of :
      (b : DepositTransactionBuilder B)
      → IsPrepared env b
      → HasInput b
      → ((raw : RawTx) × (raw_of env (plain b) ≡ ok raw)
          × (prepare_if_needed env b ≡ (ok tt, prepared b raw)))
        ⊎ ((e : Error) × (raw_of env (plain b) ≡ err e) × (prepare_if_needed env b ≡ (err e, b)))
  unfolding raw_of build_raw prepare_if_needed if_not_prepared prepare_raw_tx ◌>>=◌
  prepare-raw_of b (inl (no_raw, no_id)) i = elim (Result-cases (raw_of env (plain b))) [
    | inl (raw, e) ↦ inl (raw, e, ground arith)
    | inr (x, e) ↦ inr (x, e, ground arith)
  ]
  prepare-raw_of b (inr (raw, built, has_raw, has_id)) i = inl (raw, ground arith, ground arith)

  -- `toUnsignedHex` looks for an input first, also where it finds a raw transaction.
  to_unsigned_hex_lem :
      (b : DepositTransactionBuilder B)
      → HasInput b
      → to_unsigned_hex env b ≡ (prepare_if_needed env >>= λ _. gets (λ s. s.unsigned_raw_tx)) b
  unfolding to_unsigned_hex prepare_if_needed if_not_prepared prepare_raw_tx ◌>>=◌
  to_unsigned_hex_lem b i = ground arith

  call-plain :
      (c : Call) (b : DepositTransactionBuilder B)
      → IsPrepared env b
      → HasInput b
      → (answer env c b ≡ plain_answer env c (plain b))
        × (plain (step env c b) ≡ plain_step env c (plain b))
  unfolding step plain_answer plain_step inputs_after add_input tx_id sign_input add_witness
      write_witness is_completed to_hex ◌>>=◌
  call-plain (adds_input p) b h i = (ground arith, ground arith)
  call-plain (adds_witness (whole j) w) b h i = (ground arith, ground arith)
  call-plain (adds_witness n w) b h i = (ground arith, ground arith)
  call-plain asks_unsigned_hex b h i = elim (prepare-raw_of b h i) [
    | inl (raw, e, q) ↦
        (ground (arith, to_unsigned_hex_lem b i), ground (arith, to_unsigned_hex_lem b i))
    | inr (x, e, q) ↦
        (ground (arith, to_unsigned_hex_lem b i), ground (arith, to_unsigned_hex_lem b i))
  ]
  call-plain (signs_input (whole j) k) b h i = elim (prepare-raw_of b h i) [
    | inl (raw, e, q) ↦ (ground arith, ground arith)
    | inr (x, e, q) ↦ (ground arith, ground arith)
  ]
  call-plain c b h i = elim (prepare-raw_of b h i) [
    | inl (raw, e, q) ↦ (ground arith, ground arith)
    | inr (x, e, q) ↦ (ground arith, ground arith)
  ]

  answers-plain :
      (cs : List Call) (b : DepositTransactionBuilder B)
      → IsPrepared env b
      → HasInput b
      → answers env cs b ≡ plain_answers env cs (plain b)
  answers-plain [] b h i = refl
  answers-plain (c ∷ cs) b h i =
      let (same, next) = call-plain c b h i in
      ap₂ ◌∷◌ same (
        answers-plain cs (step env c b) (step-IsPrepared env c b h) (step-HasInput c b i)
        ∙ ap (plain_answers env cs) next)

  -- That the raw transaction is kept is never seen: any calls on a new builder, failing ones included,
  -- answer what they answer on a builder that keeps none and has the native module build it anew
  -- whenever a method needs it.
  pub answers-new_deposit :
      (options : DepositTransactionBuilderOptions B) (b : DepositTransactionBuilder B)
      (cs : List Call)
      → new_builder env options ≡ ok b
      → answers env cs b ≡ plain_answers env cs (plain b)
  unfolding new_builder
  answers-new_deposit options b cs e = answers-plain cs b (ground arith) (ground arith)
