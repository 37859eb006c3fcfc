-- ===== src/Transaction/Withdraw/Witness.antt =====
-- A change of the contents keeps the witness.
use chain_nodelib.Prelude.{◌≡◌, true, none, some, ◌++◌, arith, is_empty-concat}
use chain_nodelib.Method.{ok, and_then, ◌>>=◌}
use chain_nodelib.Buffer.{Buffer, codes, from_hex}
use chain_nodelib.Types.{Output}
use chain_nodelib.Native.{Env}
use chain_nodelib.Transaction.Withdraw.{
  WithdrawUnbondedTransactionBuilder, add_output, is_completed, get_witness, to_signed_plain_hex,
}

module _ {B : Type 0} (env : Env B) where
  -- What a builder with a witness for other contents answers.
  pub record IsStale (w : Buffer) (b : WithdrawUnbondedTransactionBuilder B) : Type 0 where
    pub unprepared : b.unsigned_raw_tx ≡ none
    pub completed : is_completed env b ≡ true
    pub answers : get_witness env b ≡ ok (some w)
    pub asks :
        to_signed_plain_hex env b
        ≡ and_then
            (env.staking.withdraw_unbonded_transaction_to_signed_plain_hex none (some w))
            (λ signed. ok (from_hex (codes "00") ++ signed))

  -- After a call of `addOutput` that returns, a builder that had a witness drops the raw transaction
  -- which the witness signs, keeps the witness and answers that it is completed; `toSignedPlainHex`
  -- then hands the native module no raw transaction beside the witness.
  pub add_output-IsStale :
      (o : Output B) (w : Buffer) (b : WithdrawUnbondedTransactionBuilder B)
      → b.witness ≡ some w
      → (add_output env o b).0 ≡ ok tt
      → IsStale w (add_output env o b).1
  unfolding add_output is_completed get_witness to_signed_plain_hex ◌>>=◌
  add_output-IsStale o w b e h = ground (arith, is_empty-concat b.outputs o)
