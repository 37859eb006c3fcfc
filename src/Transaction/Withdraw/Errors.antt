-- ===== src/Transaction/Withdraw/Errors.antt =====
-- What a call on a builder that withdraws unbonded stake leaves behind when it throws.
use chain_nodelib.Prelude.{◌≡◌, ◌≢◌, ◌⊎◌, some, none, [], arith}
use chain_nodelib.Method.{Error, err, ok, ◌>>=◌}
use chain_nodelib.Native.{Env, RawTx}
use chain_nodelib.Transaction.Withdraw.{
  WithdrawUnbondedTransactionBuilder, build_raw, prepare_raw_tx, prepare_if_needed, add_output,
  add_view_key, estimate_fee, tx_id, to_unsigned_hex, sign, add_witness, to_hex,
}
use chain_nodelib.Transaction.Withdraw.Calls.{Call, adds_output, adds_view_key, answer, step}

module _ {B : Type 0} (env : Env B) where
  -- The second builder is the first with what the native module builds of it kept.
  abbrev pub Prepares :
      WithdrawUnbondedTransactionBuilder B → WithdrawUnbondedTransactionBuilder B → Type 0
  Prepares b s =
      (b.unsigned_raw_tx ≡ none)
      × (b.outputs ≢ [])
      × ((raw : RawTx) × (build_raw env b ≡ ok raw)
          × (s ≡ record b {
            unsigned_raw_tx = some raw.unsigned_raw_tx;
            innert_tx_id = some raw.tx_id;
          }))

  -- The second builder has what the first has.
  abbrev pub IsUntouched :
      WithdrawUnbondedTransactionBuilder B → WithdrawUnbondedTransactionBuilder B → Type 0
  IsUntouched b s = (s ≡ b) ⊎ Prepares b s

  prepare_if_needed-IsUntouched :
      (b : WithdrawUnbondedTransactionBuilder B) → IsUntouched b (prepare_if_needed env b).1
  unfolding prepare_if_needed prepare_raw_tx ◌>>=◌
  prepare_if_needed-IsUntouched b = ground arith

  -- A call that throws, whichever call it is and whatever it throws, leaves the builder as it was, or
  -- with nothing changed but that the raw transaction of its present outputs and view keys, which
  -- was not prepared before, and its id are kept; then there is an output.
  pub step_failed_withdraw :
      (c : Call B) (b : WithdrawUnbondedTransactionBuilder B) (e : Error)
      → answer env c b ≡ err e
      → IsUntouched b (step env c b)
  unfolding step add_output add_view_key estimate_fee tx_id to_unsigned_hex sign add_witness to_hex
      ◌>>=◌
  step_failed_withdraw (adds_output output) b e h = ground arith
  step_failed_withdraw (adds_view_key view_key) b e h = ground arith
  step_failed_withdraw _ b e h = ground (arith, prepare_if_needed-IsUntouched b)
