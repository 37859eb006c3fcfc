-- ===== src/Transaction/Transfer/Errors.antt =====
-- What a call on a transfer builder leaves behind when it throws.
use chain_nodelib.Prelude.{◌≡◌, ◌⊎◌, some, none, arith}
use chain_nodelib.Method.{Error, err, ok, ◌>>=◌}
use chain_nodelib.Buffer.{Buffer}
use chain_nodelib.Native.{Env}
use chain_nodelib.Transaction.Transfer.{
  TransferTransactionBuilder, add_input, add_output, add_view_key, sign_input, sign_with,
  add_witness, witness_with, prepare_incomplete_signing_hex, build_incomplete_hex,
}
use chain_nodelib.Transaction.Transfer.Calls.{
  Call, adds_input, adds_output, adds_view_key, answer, step,
}

module _ {B : Type 0} (env : Env B) where
  -- The second builder is the first with what the native module builds of it kept.
  abbrev pub Prepares : TransferTransactionBuilder B → TransferTransactionBuilder B → Type 0
  Prepares b s =
      (b.incomplete_hex ≡ none)
      × ((hex : Buffer) × (build_incomplete_hex env b ≡ ok hex)
          × (s ≡ record b { incomplete_hex = some hex }))

  -- The second builder has what the first has.
  abbrev pub IsUntouched : TransferTransactionBuilder B → TransferTransactionBuilder B → Type 0
  IsUntouched b s = (s ≡ b) ⊎ Prepares b s

  prepare-IsUntouched :
      (b : TransferTransactionBuilder B) → IsUntouched b (prepare_incomplete_signing_hex env b).1
  unfolding prepare_incomplete_signing_hex ◌>>=◌
  prepare-IsUntouched b = ground arith

  -- A call that throws, whichever call it is and whatever it throws, leaves the builder as it was, or
  -- with nothing changed but that the transaction of its present contents, of which none was kept
  -- before, is kept with no signature: no input, output, view key or signature is lost.
  pub step_failed_transfer :
      (c : Call B) (b : TransferTransactionBuilder B) (e : Error)
      → answer env c b ≡ err e
      → IsUntouched b (step env c b)
  unfolding step add_input add_output add_view_key sign_input sign_with add_witness witness_with
      ◌>>=◌
  step_failed_transfer (adds_input input) b e h = ground arith
  step_failed_transfer (adds_output output) b e h = ground arith
  step_failed_transfer (adds_view_key key) b e h = ground arith
  step_failed_transfer _ b e h = ground (arith, prepare-IsUntouched b)
