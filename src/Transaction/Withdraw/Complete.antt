-- ===== src/Transaction/Withdraw/Complete.antt =====
-- A withdrawal from its first output to its export.
use mathlib.Core.List.{append_assoc, append-nil}
use chain_nodelib.Prelude.{
  ◌+◌, ◌≤◌, ◌<◌, String, ◌≡◌, refl, sym, ap, ◌∙◌, true, none, some, Option, List, [], ◌∷◌, ◌++◌,
  arith, All, length, length-concat,
}
use chain_nodelib.Method.{ok, ◌>>=◌}
use chain_nodelib.Buffer.{Buffer}
use chain_nodelib.Types.{Output, ow_tendermint_address}
use chain_nodelib.Native.{Env, RawTx, get_rust_features_from_env}
use chain_nodelib.KeyPair.{KeyPair, to_object}
use chain_nodelib.Transaction.{tendermint_address_or_default}
use chain_nodelib.Transaction.Withdraw.{
  WithdrawUnbondedTransactionBuilder, WithdrawUnbondedTransactionBuilderOptions, add_output,
  add_view_key, build_raw, prepare_raw_tx, prepare_if_needed, sign, to_hex, new_builder,
  max_output_size,
}
use chain_nodelib.Transaction.Withdraw.Calls.{Call, adds_output, adds_view_key, signs, step, run}
use chain_nodelib.Transaction.Withdraw.Outputs.{IsAccepted}

abbrev pub add_outputs : {B : Type 0} → List (Output B) → List (Call B)
add_outputs [] = []
add_outputs (o ∷ os) = adds_output o ∷ add_outputs os

abbrev pub add_view_keys : {B : Type 0} → List Buffer → List (Call B)
add_view_keys [] = []
add_view_keys (k ∷ ks) = adds_view_key k ∷ add_view_keys ks

module _ {B : Type 0} (env : Env B) where
  abbrev Builder : Type 0
  Builder = WithdrawUnbondedTransactionBuilder B

  -- The builder with these contents, and nothing prepared.
  abbrev pub filled : Builder → List (Output B) → List Buffer → Builder
  filled b os ks = record b {
    outputs = os;
    view_keys = ks;
    unsigned_raw_tx = none;
    innert_tx_id = none;
  }

  add_output-filled :
      (b : Builder) (os : List (Output B)) (o : Output B)
      → length os < max_output_size
      → IsAccepted env b.network.name o
      → step env (adds_output o) (filled b os []) ≡ filled b (os ++ o ∷ []) []
  unfolding step add_output ◌>>=◌
  add_output-filled b os o n h = ground arith

  run-add_outputs :
      (b : Builder) (os ps : List (Output B))
      → length os + length ps ≤ max_output_size
      → All (IsAccepted env b.network.name) ps
      → run env (add_outputs ps) (filled b os []) ≡ filled b (os ++ ps) []
  unfolding run
  run-add_outputs b os [] n h = ap (λ l. filled b l []) (sym (append-nil os))
  run-add_outputs b os (o ∷ ps) n (p, h) =
      ap (run env (add_outputs ps)) (add_output-filled b os o (omega arith) p)
      ∙ run-add_outputs b (os ++ o ∷ []) ps (omega (arith, length-concat os o)) h
      ∙ ap (λ l. filled b l []) (append_assoc os (o ∷ []) ps)

  add_view_key-filled :
      (b : Builder) (os : List (Output B)) (ks : List Buffer) (k : Buffer)
      → env.key_pair.is_valid_view_key k ≡ true
      → step env (adds_view_key k) (filled b os ks) ≡ filled b os (ks ++ k ∷ [])
  unfolding step add_view_key ◌>>=◌
  add_view_key-filled b os ks k h = ground arith

  run-add_view_keys :
      (b : Builder) (os : List (Output B)) (ks ls : List Buffer)
      → All (λ k. env.key_pair.is_valid_view_key k ≡ true) ls
      → run env (add_view_keys ls) (filled b os ks) ≡ filled b os (ks ++ ls)
  unfolding run
  run-add_view_keys b os ks [] h = ap (filled b os) (sym (append-nil ks))
  run-add_view_keys b os ks (l ∷ ls) (p, h) =
      ap (run env (add_view_keys ls)) (add_view_key-filled b os ks l p)
      ∙ run-add_view_keys b os (ks ++ l ∷ []) ls h
      ∙ ap (filled b os) (append_assoc ks (l ∷ []) ls)

  abbrev exported : Builder → RawTx → Buffer → Builder
  exported b raw w = record b {
    unsigned_raw_tx = some raw.unsigned_raw_tx;
    innert_tx_id = some raw.tx_id;
    witness = some w;
  }

  sign-filled :
      (b : Builder) (o : Output B) (os : List (Output B)) (ks : List Buffer) (raw : RawTx)
      (key_pair : KeyPair) (w : Buffer)
      → build_raw env (filled b (o ∷ os) ks) ≡ ok raw
      → env.staking.withdraw_unbonded_transaction_to_witness
          (some raw.unsigned_raw_tx)
          (to_object key_pair)
        ≡ ok w
      → step env (signs key_pair) (filled b (o ∷ os) ks) ≡ exported (filled b (o ∷ os) ks) raw w
  unfolding step sign prepare_if_needed prepare_raw_tx ◌>>=◌
  sign-filled b o os ks raw key_pair w built signed = ground arith

  to_hex-exported :
      (address : Option String) (b : Builder) (raw : RawTx) (w : Buffer)
      → ow_tendermint_address env.is_url (tendermint_address_or_default address) ≡ true
      → (to_hex env address (exported b raw w)).0
        ≡ env.staking.withdraw_unbonded_transaction_to_obfuscated_hex
            (some raw.unsigned_raw_tx)
            (some w)
            (tendermint_address_or_default address)
            (get_rust_features_from_env env.node_env)
  unfolding to_hex prepare_if_needed ◌>>=◌
  to_hex-exported address b raw w a = ground arith

  run-append :
      (cs ds : List (Call B)) (b : Builder) → run env (cs ++ ds) b ≡ run env ds (run env cs b)
  unfolding run
  run-append [] ds b = refl
  run-append (c ∷ cs) ds b = run-append cs ds (step env c b)

  new_builder-filled :
      (options : WithdrawUnbondedTransactionBuilderOptions B) (b : Builder)
      → new_builder env options ≡ ok b
      → b ≡ filled b [] []
  unfolding new_builder
  new_builder-filled options b e = ground arith

  -- A new builder to which between 1 and 65536 outputs are added that pass the checks, then view keys
  -- that do, and which then signs, exports: if the native module builds the raw transaction of
  -- these contents and signs it with the key pair, then `toHex` with an address that passes the
  -- check returns what the native module makes of the raw transaction and the signature.
  pub to_hex-complete_withdraw :
      (options : WithdrawUnbondedTransactionBuilderOptions B)
      (b : WithdrawUnbondedTransactionBuilder B) (o : Output B) (os : List (Output B))
      (ks : List Buffer) (key_pair : KeyPair) (raw : RawTx) (w : Buffer) (address : Option String)
      → new_builder env options ≡ ok b
      → length (o ∷ os) ≤ max_output_size
      → All (IsAccepted env b.network.name) (o ∷ os)
      → All (λ k. env.key_pair.is_valid_view_key k ≡ true) ks
      → build_raw env (filled b (o ∷ os) ks) ≡ ok raw
      → env.staking.withdraw_unbonded_transaction_to_witness
          (some raw.unsigned_raw_tx)
          (to_object key_pair)
        ≡ ok w
      → ow_tendermint_address env.is_url (tendermint_address_or_default address) ≡ true
      → (to_hex env address
          (run env (add_outputs (o ∷ os) ++ (add_view_keys ks ++ signs key_pair ∷ [])) b)).0
        ≡ env.staking.withdraw_unbonded_transaction_to_obfuscated_hex
            (some raw.unsigned_raw_tx)
            (some w)
            (tendermint_address_or_default address)
            (get_rust_features_from_env env.node_env)
  unfolding run
  to_hex-complete_withdraw options b o os ks key_pair raw w address e n accepted valid built signed
        a =
      let all : run env (add_outputs (o ∷ os) ++ (add_view_keys ks ++ signs key_pair ∷ [])) b
          ≡ exported (filled b (o ∷ os) ks) raw w =
        run-append (add_outputs (o ∷ os)) (add_view_keys ks ++ signs key_pair ∷ []) b
        ∙ ap
            (λ c.
              run env (add_view_keys ks ++ signs key_pair ∷ []) (run env (add_outputs (o ∷ os)) c))
            (new_builder-filled options b e)
        ∙ ap (run env (add_view_keys ks ++ signs key_pair ∷ []))
            (run-add_outputs b [] (o ∷ os) (omega arith) accepted)
        ∙ run-append (add_view_keys ks) (signs key_pair ∷ []) (filled b (o ∷ os) [])
        ∙ ap (run env (signs key_pair ∷ [])) (run-add_view_keys b (o ∷ os) [] ks valid)
        ∙ sign-filled b o os ks raw key_pair w built signed in
      ap (λ c. (to_hex env address c).0) all
      ∙ to_hex-exported address (filled b (o ∷ os) ks) raw w a
