-- ===== src/Transaction/Withdraw/Reference.antt =====
-- A builder that keeps no raw transaction, against which the one that keeps it is held: each method
-- that needs the raw transaction asks the native module for it.
use chain_nodelib.Prelude.{
  ◌≡◌, ◌⊎◌, refl, ap, ap₂, ◌∙◌, not, Option, some, List, [], ◌∷◌, ◌++◌, map, arith, length,
  is_empty, is_some, ◌==◌, inl, inr,
}
use chain_nodelib.Method.{Error, Result, ok, err, ow, require, and_then, Result-cases, ◌>>=◌}
use chain_nodelib.Buffer.{Buffer, codes, from_hex}
use chain_nodelib.Fee.{parse_fee_config_for_native}
use chain_nodelib.Network.{NetworkConfig}
use chain_nodelib.Types.{Output, ow_tendermint_address, parse_output_for_native}
use chain_nodelib.Native.{Env, RawTx, get_rust_features_from_env}
use chain_nodelib.KeyPair.{KeyPair, to_object}
use chain_nodelib.Transaction.{tendermint_address_or_default}
use chain_nodelib.Transaction.Withdraw.{
  WithdrawUnbondedTransactionBuilder, max_output_size, ow_staked_state_op_witness,
  ow_withdraw_unbonded_output, build_raw, prepare_raw_tx, prepare_if_needed, add_output,
  add_view_key, estimate_fee, tx_id, to_unsigned_hex, sign, add_witness, to_hex,
}
use chain_nodelib.Transaction.Withdraw.Calls.{
  Call, adds_output, adds_view_key, asks_fee, asks_tx_id, asks_unsigned_hex, signs, adds_witness,
  asks_hex, Answer, nothing, text, bytes, as_answer, answer, answers, step,
}
use chain_nodelib.Transaction.Withdraw.Prepared.{IsPrepared, prepared, step-IsPrepared}

pub record Plain (B : Type 0) : Type 0 where
  pub network : NetworkConfig B
  pub nonce : B
  pub outputs : List (Output B)
  pub view_keys : List Buffer
  pub witness : Option Buffer

-- The builder without what is prepared.
abbrev pub plain : {B : Type 0} → WithdrawUnbondedTransactionBuilder B → Plain B
plain b = record {
  network = b.network;
  nonce = b.nonce;
  outputs = b.outputs;
  view_keys = b.view_keys;
  witness = b.witness;
}

module _ {B : Type 0} (env : Env B) where
  -- The raw transaction of the contents; there must be an output.
  unfoldable pub raw_of : Plain B → Result RawTx
  raw_of p = and_then (require (not (is_empty p.outputs)) "Builder has no output") λ _.
      env.staking.build_raw_withdraw_unbonded_transaction (record {
        nonce = env.big.to_string p.nonce;
        outputs = map (parse_output_for_native env.big) p.outputs;
        view_keys = p.view_keys;
        chain_hex_id = p.network.chain_hex_id;
      })

  abbrev pub accepts_output : Output B → Plain B → Result (Unit {0})
  accepts_output o p = and_then (ow (ow_withdraw_unbonded_output env o)) λ _.
      and_then
        (require (not (length p.outputs == max_output_size)) "Exceeded maximum number of outputs")
        λ _.
          require (env.address.is_transfer_address_valid o.address p.network.name)
            "Address does not belongs to the builder network"

  unfoldable pub witness_of : KeyPair → Plain B → Result Buffer
  unfolding raw_of
  witness_of k p = and_then (raw_of p) λ raw.
      env.staking.withdraw_unbonded_transaction_to_witness (some raw.unsigned_raw_tx) (to_object k)

  -- What a call answers.
  unfoldable pub plain_answer : Call B → Plain B → Result Answer
  unfolding raw_of witness_of
  plain_answer (adds_output o) p = as_answer (λ _. nothing) (accepts_output o p)
  plain_answer (adds_view_key k) p =
      as_answer (λ _. nothing) (ow (env.key_pair.is_valid_view_key k))
  plain_answer asks_fee p = as_answer text (
      and_then (raw_of p) λ raw.
        and_then (parse_fee_config_for_native env.big p.network.fee_config) λ fee.
          env.staking.estimate_withdraw_unbonded_transaction_fee (some raw.unsigned_raw_tx) fee)
  plain_answer asks_tx_id p = as_answer (λ raw. text raw.tx_id) (raw_of p)
  plain_answer asks_unsigned_hex p =
      as_answer (λ raw. bytes (from_hex (codes "0002") ++ raw.unsigned_raw_tx)) (raw_of p)
  plain_answer (signs k) p = as_answer (λ _. nothing) (witness_of k p)
  plain_answer (adds_witness w) p =
      as_answer (λ _. nothing) (and_then (ow (ow_staked_state_op_witness w)) λ _. raw_of p)
  plain_answer (asks_hex a) p =
      let address = tendermint_address_or_default a in
      as_answer bytes (
        and_then (ow (ow_tendermint_address env.is_url address)) λ _. and_then (raw_of p) λ raw.
          and_then (require (is_some p.witness) "Builder is not signed") λ _.
            env.staking.withdraw_unbonded_transaction_to_obfuscated_hex (some raw.unsigned_raw_tx)
              p.witness address (get_rust_features_from_env env.node_env))

  -- What a call that answers writes.
  abbrev pub written : Call B → Plain B → Plain B
  written (adds_output o) p = record p { outputs = p.outputs ++ o ∷ [] }
  written (adds_view_key k) p = record p { view_keys = p.view_keys ++ k ∷ [] }
  written (signs k) p = elim (witness_of k p) [ ok w ↦ record p { witness = some w } | err e ↦ p ]
  written (adds_witness w) p = record p { witness = some w }
  written _ p = p

  unfoldable pub plain_step : Call B → Plain B → Plain B
  unfolding plain_answer witness_of
  plain_step c p = elim (plain_answer c p) [ ok a ↦ written c p | err e ↦ p ]

  -- Preparing is asking for the raw transaction of the contents.
  pub prepare-raw_of :
      (b : WithdrawUnbondedTransactionBuilder B)
      → IsPrepared env b
      → ((raw : RawTx) × (raw_of (plain b) ≡ ok raw)
          × (prepare_if_needed env b ≡ (ok tt, prepared env b raw)))
        ⊎ ((e : Error) × (raw_of (plain b) ≡ err e) × (prepare_if_needed env b ≡ (err e, b)))
  unfolding raw_of build_raw prepare_if_needed prepare_raw_tx ◌>>=◌
  prepare-raw_of b (inl (no_raw, no_id)) = elim (Result-cases (raw_of (plain b))) [
    | inl (raw, e) ↦ inl (raw, e, ground arith)
    | inr (x, e) ↦ inr (x, e, ground arith)
  ]
  prepare-raw_of b (inr (raw, built, has_raw, has_id, ne)) = inl (raw, ground arith, ground arith)

  pub call-plain :
      (c : Call B) (b : WithdrawUnbondedTransactionBuilder B)
      → IsPrepared env b
      → (answer env c b ≡ plain_answer c (plain b))
        × (plain (step env c b) ≡ plain_step c (plain b))
  unfolding step plain_answer plain_step witness_of add_output add_view_key estimate_fee tx_id
      to_unsigned_hex sign add_witness to_hex ◌>>=◌
  call-plain (adds_output o) b h = (ground arith, ground arith)
  call-plain (adds_view_key k) b h = (ground arith, ground arith)
  call-plain c b h = elim (prepare-raw_of b h) [
    | inl (raw, e, q) ↦ (ground arith, ground arith)
    | inr (x, e, q) ↦ (ground arith, ground arith)
  ]

  -- The answers of a sequence of calls.
  abbrev pub plain_answers : List (Call B) → Plain B → List (Result Answer)
  plain_answers [] p = []
  plain_answers (c ∷ cs) p = plain_answer c p ∷ plain_answers cs (plain_step c p)

  pub answers-plain :
      (cs : List (Call B)) (b : WithdrawUnbondedTransactionBuilder B)
      → IsPrepared env b
      → answers env cs b ≡ plain_answers cs (plain b)
  answers-plain [] b h = refl
  answers-plain (c ∷ cs) b h =
      let (same, next) = call-plain c b h in
      ap₂ ◌∷◌ same
        (answers-plain cs (step env c b) (step-IsPrepared env c b h) ∙ ap (plain_answers cs) next)
