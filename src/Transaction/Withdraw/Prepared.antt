-- ===== src/Transaction/Withdraw/Prepared.antt =====
-- The raw transaction and the id that a builder keeps belong to its present outputs and view keys,
-- and what is given out rests on them.
use chain_nodelib.Prelude.{
  String, ◌≡◌, ◌≢◌, Option, none, some, List, [], ◌∷◌, arith, Bool-cases, Option-cases, ◌⊎◌, inl,
  inr,
}
use chain_nodelib.Method.{Error, thrown, Result, ok, err, Result-cases, modify, ◌>>=◌}
use chain_nodelib.Method.Keeps.{Keeps, keeps_rules}
use chain_nodelib.Buffer.{Buffer}
use chain_nodelib.Types.{Output}
use chain_nodelib.Native.{Env, RawTx, get_rust_features_from_env}
use chain_nodelib.KeyPair.{KeyPair}
use chain_nodelib.Transaction.{tendermint_address_or_default}
use chain_nodelib.Transaction.Withdraw.{
  WithdrawUnbondedTransactionBuilder, WithdrawUnbondedTransactionBuilderOptions, new_builder,
  add_output, add_view_key, has_output, build_raw, prepare_raw_tx, prepare_if_needed, estimate_fee,
  tx_id, to_unsigned_hex, sign, add_witness, to_hex,
}
use chain_nodelib.Transaction.Withdraw.Calls.{
  Call, adds_output, adds_view_key, asks_fee, asks_tx_id, asks_unsigned_hex, signs, adds_witness,
  asks_hex, step, run,
}

module _ {B : Type 0} (env : Env B) where
  abbrev State : Type 0
  State = WithdrawUnbondedTransactionBuilder B

  -- Nothing is prepared, or there is an output and what is prepared is what the native module builds
  -- of the nonce, the outputs, the view keys and the chain id that the builder has now.
  abbrev pub IsPrepared : WithdrawUnbondedTransactionBuilder B → Type 0
  IsPrepared b =
      ((b.unsigned_raw_tx ≡ none) × (b.innert_tx_id ≡ none))
      ⊎ ((raw : RawTx) × (build_raw env b ≡ ok raw)
          × (b.unsigned_raw_tx ≡ some raw.unsigned_raw_tx)
          × (b.innert_tx_id ≡ some raw.tx_id)
          × (b.outputs ≢ []))

  add_output-IsPrepared : (o : Output B) → Keeps IsPrepared (add_output env o)
  unfolding add_output ◌>>=◌
  add_output-IsPrepared o = record { after = λ b h. ground arith }

  add_view_key-IsPrepared : (k : Buffer) → Keeps IsPrepared (add_view_key env k)
  unfolding add_view_key ◌>>=◌
  add_view_key-IsPrepared k = record { after = λ b h. ground arith }

  prepare_if_needed-IsPrepared : Keeps IsPrepared (prepare_if_needed env)
  unfolding prepare_if_needed prepare_raw_tx build_raw ◌>>=◌
  prepare_if_needed-IsPrepared = record { after = λ b h. ground arith }

  estimate_fee-IsPrepared : Keeps IsPrepared (estimate_fee env)
  unfolding estimate_fee
  estimate_fee-IsPrepared = search (keeps_rules, prepare_if_needed-IsPrepared)

  tx_id-IsPrepared : Keeps IsPrepared (tx_id env)
  unfolding tx_id
  tx_id-IsPrepared = search (keeps_rules, prepare_if_needed-IsPrepared)

  to_unsigned_hex-IsPrepared : Keeps IsPrepared (to_unsigned_hex env)
  unfolding to_unsigned_hex
  to_unsigned_hex-IsPrepared = search (keeps_rules, prepare_if_needed-IsPrepared)

  store_witness-IsPrepared :
      (w : Buffer) → Keeps IsPrepared (modify λ (b : State). record b { witness = some w })
  unfolding build_raw ◌>>=◌
  store_witness-IsPrepared w = record { after = λ b h. h }

  sign-IsPrepared : (k : KeyPair) → Keeps IsPrepared (sign env k)
  unfolding sign
  sign-IsPrepared k = search (keeps_rules, prepare_if_needed-IsPrepared, store_witness-IsPrepared)

  add_witness-IsPrepared : (w : Buffer) → Keeps IsPrepared (add_witness env w)
  unfolding add_witness
  add_witness-IsPrepared w =
      search (keeps_rules, prepare_if_needed-IsPrepared, store_witness-IsPrepared)

  to_hex-IsPrepared : (a : Option String) → Keeps IsPrepared (to_hex env a)
  unfolding to_hex
  to_hex-IsPrepared a = search (keeps_rules, prepare_if_needed-IsPrepared)

  pub step-IsPrepared : (c : Call B) (b : State) → IsPrepared b → IsPrepared (step env c b)
  unfolding step
  step-IsPrepared (adds_output o) b h = (add_output-IsPrepared o).after b h
  step-IsPrepared (adds_view_key k) b h = (add_view_key-IsPrepared k).after b h
  step-IsPrepared asks_fee b h = estimate_fee-IsPrepared.after b h
  step-IsPrepared asks_tx_id b h = tx_id-IsPrepared.after b h
  step-IsPrepared asks_unsigned_hex b h = to_unsigned_hex-IsPrepared.after b h
  step-IsPrepared (signs k) b h = (sign-IsPrepared k).after b h
  step-IsPrepared (adds_witness w) b h = (add_witness-IsPrepared w).after b h
  step-IsPrepared (asks_hex a) b h = (to_hex-IsPrepared a).after b h

  run-IsPrepared : (cs : List (Call B)) (b : State) → IsPrepared b → IsPrepared (run env cs b)
  unfolding run
  run-IsPrepared [] b h = h
  run-IsPrepared (c ∷ cs) b h = run-IsPrepared cs (step env c b) (step-IsPrepared c b h)

  -- After any calls on a new builder, failing ones included, the raw transaction and its id are both
  -- absent, or there is an output and they are what the native module builds of the present contents.
  pub run-new_withdraw-IsPrepared :
      (options : WithdrawUnbondedTransactionBuilderOptions B)
      (b : WithdrawUnbondedTransactionBuilder B) (cs : List (Call B))
      → new_builder env options ≡ ok b
      → IsPrepared (run env cs b)
  unfolding new_builder
  run-new_withdraw-IsPrepared options b cs e = run-IsPrepared cs b (ground arith)

  abbrev pub prepared :
      WithdrawUnbondedTransactionBuilder B → RawTx → WithdrawUnbondedTransactionBuilder B
  prepared b raw = record b {
    unsigned_raw_tx = some raw.unsigned_raw_tx;
    innert_tx_id = some raw.tx_id;
  }

  -- Preparing throws and writes nothing, or there is an output and what it leaves prepared is built of
  -- the present contents.
  abbrev pub Prepares :
      WithdrawUnbondedTransactionBuilder B
      → Result (Unit {0}) × WithdrawUnbondedTransactionBuilder B
      → Type 0
  Prepares b answer =
      ((raw : RawTx) × (build_raw env b ≡ ok raw)
        × (b.outputs ≢ [])
        × (answer ≡ (ok tt, prepared b raw)))
      ⊎ ((e : Error) × (answer ≡ (err e, b)))

  prepare_if_needed-Prepares :
      (b : WithdrawUnbondedTransactionBuilder B)
      → IsPrepared b
      → Prepares b (prepare_if_needed env b)
  unfolding prepare_if_needed prepare_raw_tx ◌>>=◌
  prepare_if_needed-Prepares b (inl (no_raw, no_id)) = elim (Bool-cases (has_output env b)) [
    | inl some_output ↦ elim (Result-cases (build_raw env b)) [
      | inl (raw, e) ↦ inl (raw, e, ground arith, ground arith)
      | inr (x, e) ↦ inr (x, ground arith)
    ]
    | inr no_output ↦ inr (thrown "Builder has no output", ground arith)
  ]
  prepare_if_needed-Prepares b (inr (raw, e, has_raw, has_id, ne)) = inl (raw, e, ne, ground arith)

  -- What a transaction that is given out rests on.
  pub record IsExported (address : Option String) (b : WithdrawUnbondedTransactionBuilder B)
      (hex : Buffer) : Type 0 where
    pub has_outputs : b.outputs ≢ []
    pub raw : RawTx
    pub built : build_raw env b ≡ ok raw
    pub witness : Buffer
    pub signed : b.witness ≡ some witness
    pub exported :
        env.staking.withdraw_unbonded_transaction_to_obfuscated_hex
          (some raw.unsigned_raw_tx)
          (some witness)
          (tendermint_address_or_default address)
          (get_rust_features_from_env env.node_env)
        ≡ ok hex

  -- A call of `toHex` that returns was made on a builder with an output and a witness, and returns
  -- what the native module exports of the raw transaction of the present contents.
  to_hex-IsExported_withdraw :
      (address : Option String) (b : WithdrawUnbondedTransactionBuilder B) (hex : Buffer)
      → IsPrepared b
      → (to_hex env address b).0 ≡ ok hex
      → IsExported address b hex
  unfolding to_hex ◌>>=◌
  to_hex-IsExported_withdraw address b hex p h = elim (prepare_if_needed-Prepares b p) [
    | inl (raw, built, ne, e) ↦ elim (Option-cases b.witness) [
      | inl unsigned ↦ absurd (ground arith)
      | inr (witness, signed) ↦ record {
        has_outputs = ne;
        raw = raw;
        built = built;
        witness = witness;
        signed = signed;
        exported = ground arith;
      }
    ]
    | inr (x, e) ↦ absurd (ground arith)
  ]
