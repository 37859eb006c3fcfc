-- ===== src/Transaction/Deposit/Prepared.antt =====
-- The raw transaction and the transaction id that a deposit builder keeps belong to its inputs.
use chain_nodelib.Prelude.{ℕ, zero, suc, ◌≡◌, refl, ap, none, some, List, [], ◌∷◌, map, arith, ◌⊎◌}
use chain_nodelib.Method.{ok, Method, ◌>>=◌}
use chain_nodelib.Method.Keeps.{Keeps, keeps_rules}
use chain_nodelib.Number.{Number, whole, fraction, negative}
use chain_nodelib.Buffer.{Buffer}
use chain_nodelib.Native.{Env, RawTx, PrevOutputPointer}
use chain_nodelib.Transaction.Deposit.{
  WitnessedPrevOutputPointer, DepositTransactionBuilder, DepositTransactionBuilderOptions,
  new_builder, set_witness, add_input, build_raw, prepare_raw_tx, if_not_prepared,
  prepare_if_needed, tx_id, write_witness, sign_input, add_witness, to_unsigned_hex, to_hex,
}
use chain_nodelib.Transaction.Deposit.Calls.{
  Call, adds_input, signs_input, adds_witness, asks_tx_id, asks_unsigned_hex, asks_hex, step, run,
}

abbrev pub pointers : List WitnessedPrevOutputPointer → List PrevOutputPointer
pointers xs = map (λ input. input.prev_output_pointer) xs

pub pointers-set_witness :
    (xs : List WitnessedPrevOutputPointer) (i : ℕ) (w : Buffer)
    → pointers (set_witness xs i w) ≡ pointers xs
pointers-set_witness [] i w = refl
pointers-set_witness (x ∷ xs) zero w = refl
pointers-set_witness (x ∷ xs) (suc i) w =
    ap (◌∷◌ x.prev_output_pointer) (pointers-set_witness xs i w)

module _ {B : Type 0} (env : Env B) where
  -- Nothing is prepared, or what is prepared is what the native module builds of the inputs, the
  -- staking address and the chain id that the builder has now.
  abbrev pub IsPrepared : DepositTransactionBuilder B → Type 0
  IsPrepared b =
      ((b.unsigned_raw_tx ≡ none) × (b.innert_tx_id ≡ none))
      ⊎ ((raw : RawTx) × (build_raw env b ≡ ok raw)
          × (b.unsigned_raw_tx ≡ some raw.unsigned_raw_tx)
          × (b.innert_tx_id ≡ some raw.tx_id))

  add_input-IsPrepared : (p : PrevOutputPointer) → Keeps IsPrepared (add_input env p)
  unfolding add_input ◌>>=◌
  add_input-IsPrepared p = record { after = λ b h. ground arith }

  prepare_raw_tx-IsPrepared : Keeps IsPrepared (prepare_raw_tx env)
  unfolding prepare_raw_tx build_raw ◌>>=◌
  prepare_raw_tx-IsPrepared = record { after = λ b h. ground arith }

  if_not_prepared-IsPrepared :
      (m : Method (DepositTransactionBuilder B) Unit)
      → Keeps IsPrepared m
      → Keeps IsPrepared (if_not_prepared env m)
  unfolding if_not_prepared
  if_not_prepared-IsPrepared m k = record { after = λ b h. ground (arith, k.after b h) }

  prepare_if_needed-IsPrepared : Keeps IsPrepared (prepare_if_needed env)
  unfolding prepare_if_needed
  prepare_if_needed-IsPrepared =
      search (keeps_rules, if_not_prepared-IsPrepared, prepare_raw_tx-IsPrepared)

  write_witness-IsPrepared : (i : Number) (w : Buffer) → Keeps IsPrepared (write_witness env i w)
  unfolding write_witness build_raw ◌>>=◌
  write_witness-IsPrepared (whole n) w = record {
    after = λ b h. ground (arith, pointers-set_witness b.inputs n w);
  }
  write_witness-IsPrepared (fraction n) w = record { after = λ b h. h }
  write_witness-IsPrepared negative w = record { after = λ b h. h }

  ruleset prepared_rules = (
    keeps_rules, if_not_prepared-IsPrepared, prepare_raw_tx-IsPrepared,
    prepare_if_needed-IsPrepared, write_witness-IsPrepared,
  )

  pub step-IsPrepared :
      (c : Call) (b : DepositTransactionBuilder B) → IsPrepared b → IsPrepared (step env c b)
  unfolding step sign_input add_witness tx_id to_unsigned_hex to_hex
  step-IsPrepared (adds_input p) b h = (add_input-IsPrepared p).after b h
  step-IsPrepared (signs_input i k) b h =
      let keeps : Keeps IsPrepared (sign_input env i k) = search prepared_rules in keeps.after b h
  step-IsPrepared (adds_witness i w) b h =
      let keeps : Keeps IsPrepared (add_witness env i w) = search prepared_rules in keeps.after b h
  step-IsPrepared asks_tx_id b h =
      let keeps : Keeps IsPrepared (tx_id env) = search prepared_rules in keeps.after b h
  step-IsPrepared asks_unsigned_hex b h =
      let keeps : Keeps IsPrepared (to_unsigned_hex env) = search prepared_rules in keeps.after b h
  step-IsPrepared (asks_hex a) b h =
      let keeps : Keeps IsPrepared (to_hex env a) = search prepared_rules in keeps.after b h

  run-IsPrepared :
      (cs : List Call) (b : DepositTransactionBuilder B) → IsPrepared b → IsPrepared (run env cs b)
  unfolding run
  run-IsPrepared [] b h = h
  run-IsPrepared (c ∷ cs) b h = run-IsPrepared cs (step env c b) (step-IsPrepared c b h)

  -- After any calls on a new builder, failing ones included, the raw transaction and its id are
  -- both absent, or they are what the native module builds of the present inputs.
  run-new_builder-IsPrepared :
      (options : DepositTransactionBuilderOptions B) (b : DepositTransactionBuilder B)
      (cs : List Call)
      → new_builder env options ≡ ok b
      → IsPrepared (run env cs b)
  unfolding new_builder
  run-new_builder-IsPrepared options b cs e = run-IsPrepared cs b (ground arith)
