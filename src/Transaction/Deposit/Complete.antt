-- ===== src/Transaction/Deposit/Complete.antt =====
-- A deposit from its first input to its export.
use chain_nodelib.Prelude.{
  String, ◌≡◌, ◌≢◌, refl, sym, ap, ◌∙◌, true, some, Option, List, [], ◌∷◌, ◌++◌, map, arith, All,
  length,
}
use chain_nodelib.Method.{ok, ◌>>=◌}
use chain_nodelib.Buffer.{Buffer}
use chain_nodelib.Types.{ow_tendermint_address}
use chain_nodelib.Native.{Env, PrevOutputPointer, RawTx, get_rust_features_from_env}
use chain_nodelib.KeyPair.{KeyPair}
use chain_nodelib.Transaction.{tendermint_address_or_default}
use chain_nodelib.Transaction.Deposit.{
  WitnessedPrevOutputPointer, DepositTransactionBuilder, DepositTransactionBuilderOptions,
  ow_prev_output_pointer, prepare_if_needed, if_not_prepared, is_completed, to_hex, new_builder,
}
use chain_nodelib.Transaction.Deposit.Calls.{run}
use chain_nodelib.Transaction.Deposit.Witnesses.{unwitnessed, witnessed, is_completed-witnessed}
use chain_nodelib.Transaction.Deposit.Signed.{
  add_inputs, sign_inputs, length-unwitnessed, unsigned, prepared, run-add_inputs, Signs,
  length-Signs, builds, run-append, run-signed,
}

witnesses-witnessed :
    (xs : List WitnessedPrevOutputPointer) (ws : List Buffer)
    → length ws ≡ length xs
    → map (λ x. x.witness) (witnessed xs ws) ≡ map some ws
witnesses-witnessed [] [] h = refl
witnesses-witnessed [] (w ∷ ws) h = absurd (omega arith)
witnesses-witnessed (x ∷ xs) [] h = absurd (omega arith)
witnesses-witnessed (x ∷ xs) (w ∷ ws) h =
    ap (◌∷◌ (some w)) (witnesses-witnessed xs ws (omega arith))

module _ {B : Type 0} (env : Env B) where
  abbrev Builder : Type 0
  Builder = DepositTransactionBuilder B

  to_hex-prepared :
      (address : Option String) (b : Builder) (raw : RawTx) (xs : List WitnessedPrevOutputPointer)
      → ow_tendermint_address env.is_url (tendermint_address_or_default address) ≡ true
      → is_completed env (prepared b raw xs) ≡ true
      → (to_hex env address (prepared b raw xs)).0
        ≡ env.staking.deposit_transaction_to_hex
            (some raw.unsigned_raw_tx)
            (map (λ x. x.witness) xs)
            (tendermint_address_or_default address)
            (get_rust_features_from_env env.node_env)
  unfolding to_hex prepare_if_needed if_not_prepared ◌>>=◌
  to_hex-prepared address b raw xs a c = ground arith

  new_builder-unsigned :
      (options : DepositTransactionBuilderOptions B) (b : Builder)
      → new_builder env options ≡ ok b
      → b ≡ unsigned b []
  unfolding new_builder
  new_builder-unsigned options b e = ground arith

  -- If the native module builds env the raw transaction of these inputs and signs its id with each of the
  -- key pairs, then a new builder to which the inputs are added and which signs each of them with
  -- its key pair, in order, exports: `toHex` with an address that passes the check returns what the
  -- native module makes of the raw transaction and the signatures.
  pub to_hex_complete :
      (options : DepositTransactionBuilderOptions B) (b : DepositTransactionBuilder B)
      (ps : List PrevOutputPointer) (ks : List KeyPair) (ws : List Buffer) (raw : RawTx)
      (address : Option String)
      → new_builder env options ≡ ok b
      → ps ≢ []
      → All (λ p. ow_prev_output_pointer p ≡ true) ps
      → builds env b ps ≡ ok raw
      → length ks ≡ length ps
      → Signs env raw ks ws
      → ow_tendermint_address env.is_url (tendermint_address_or_default address) ≡ true
      → (to_hex env address (run env (add_inputs ps ++ sign_inputs 0 ks) b)).0
        ≡ env.staking.deposit_transaction_to_hex
            (some raw.unsigned_raw_tx)
            (map some ws)
            (tendermint_address_or_default address)
            (get_rust_features_from_env env.node_env)
  to_hex_complete options b ps ks ws raw address e ne valid built h s a =
      let xs = witnessed (unwitnessed ps) ws in
      let counted : length ws ≡ length (unwitnessed ps) =
        length-Signs env raw ks ws s ∙ h ∙ sym (length-unwitnessed ps) in
      let some_input : unwitnessed ps ≢ [] = not_empty ps ne in
      let signed : run env (add_inputs ps ++ sign_inputs 0 ks) b ≡ prepared b raw xs =
        run-append env (add_inputs ps) (sign_inputs 0 ks) b
        ∙ ap (λ c. run env (sign_inputs 0 ks) (run env (add_inputs ps) c))
            (new_builder-unsigned options b e)
        ∙ ap (run env (sign_inputs 0 ks)) (run-add_inputs env b [] ps valid)
        ∙ run-signed env b raw ps ks ws ne built h s in
      ap (λ c. (to_hex env address c).0) signed
      ∙ to_hex-prepared address b raw xs a (
          is_completed-witnessed env (unwitnessed ps) ws (prepared b raw (unwitnessed ps))
            some_input counted)
      ∙ ap
          (λ l.
            env.staking.deposit_transaction_to_hex (some raw.unsigned_raw_tx) l
              (tendermint_address_or_default address) (get_rust_features_from_env env.node_env))
          (witnesses-witnessed (unwitnessed ps) ws counted)
    where
      not_empty : (qs : List PrevOutputPointer) → qs ≢ [] → unwitnessed qs ≢ []
      not_empty [] n = absurd (n refl)
      not_empty (q ∷ qs) n = λ (p : unwitnessed (q ∷ qs) ≡ []). cc
