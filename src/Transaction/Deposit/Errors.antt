-- ===== src/Transaction/Deposit/Errors.antt =====
-- What a call on a deposit builder leaves behind when it throws.
use chain_nodelib.Prelude.{◌≡◌, ◌⊎◌, some, none}
use chain_nodelib.Prelude.{arith}
use chain_nodelib.Method.{Error, err, ok, ◌>>=◌}
use chain_nodelib.Native.{Env, RawTx}
use chain_nodelib.Number.{whole}
use chain_nodelib.Transaction.Deposit.{
  DepositTransactionBuilder, add_input, build_raw, prepare_raw_tx, if_not_prepared,
  prepare_if_needed, write_witness, sign_input, add_witness, tx_id, to_unsigned_hex, to_hex,
}
use chain_nodelib.Transaction.Deposit.Calls.{
  Call, adds_input, signs_input, adds_witness, asks_tx_id, asks_unsigned_hex, asks_hex, answer,
  step,
}

module _ {B : Type 0} (env : Env B) where
  -- The second builder is the first with what the native module builds of it kept.
  abbrev pub Prepares : DepositTransactionBuilder B → DepositTransactionBuilder B → Type 0
  Prepares b s =
      (b.unsigned_raw_tx ≡ none)
      × ((raw : RawTx) × (build_raw env b ≡ ok raw)
          × (s ≡ record b {
            unsigned_raw_tx = some raw.unsigned_raw_tx;
            innert_tx_id = some raw.tx_id;
          }))

  -- The second builder has what the first has.
  abbrev pub IsUntouched : DepositTransactionBuilder B → DepositTransactionBuilder B → Type 0
  IsUntouched b s = (s ≡ b) ⊎ Prepares b s

  prepare_raw_tx-Prepares :
      (b : DepositTransactionBuilder B)
      → b.unsigned_raw_tx ≡ none
      → IsUntouched b (prepare_raw_tx env b).1
  unfolding prepare_raw_tx ◌>>=◌
  prepare_raw_tx-Prepares b h = ground arith

  prepare_if_needed-IsUntouched :
      (b : DepositTransactionBuilder B) → IsUntouched b (prepare_if_needed env b).1
  unfolding prepare_if_needed if_not_prepared ◌>>=◌
  prepare_if_needed-IsUntouched b = ground (arith, prepare_raw_tx-Prepares b)

  -- A call that throws, whichever call it is and whatever it throws, leaves the builder as it was, or
  -- with nothing changed but that the raw transaction of its present inputs, which was not prepared
  -- before, and its id are kept.
  pub step_failed_deposit :
      (c : Call) (b : DepositTransactionBuilder B) (e : Error)
      → answer env c b ≡ err e
      → IsUntouched b (step env c b)
  unfolding step add_input tx_id to_unsigned_hex if_not_prepared sign_input add_witness
      write_witness to_hex ◌>>=◌
  step_failed_deposit (adds_input p) b e h = ground arith
  step_failed_deposit (signs_input (whole i) k) b e h =
      ground (arith, prepare_if_needed-IsUntouched b)
  step_failed_deposit (signs_input n k) b e h = ground (arith, prepare_if_needed-IsUntouched b)
  step_failed_deposit (adds_witness (whole i) w) b e h = ground arith
  step_failed_deposit (adds_witness n w) b e h = ground arith
  step_failed_deposit asks_tx_id b e h = ground (arith, prepare_if_needed-IsUntouched b)
  step_failed_deposit asks_unsigned_hex b e h = ground (arith, prepare_raw_tx-Prepares b)
  step_failed_deposit (asks_hex address) b e h = ground (arith, prepare_if_needed-IsUntouched b)
