-- ===== src/Transaction/Deposit/Export.antt =====
-- What a deposit builder gives out.
use chain_nodelib.Prelude.{String, ◌≡◌, true, Option, some, map, arith}
use chain_nodelib.Method.{ok, ◌>>=◌}
use chain_nodelib.Buffer.{Buffer}
use chain_nodelib.Native.{Env, RawTx, get_rust_features_from_env}
use chain_nodelib.Transaction.{tendermint_address_or_default}
use chain_nodelib.Transaction.Deposit.{
  DepositTransactionBuilder, build_raw, prepare_raw_tx, if_not_prepared, prepare_if_needed, to_hex,
  is_completed,
}
use chain_nodelib.Transaction.Deposit.Prepared.{IsPrepared}

module _ {B : Type 0} (env : Env B) where
  -- What a transaction that is given out rests on.
  pub record IsExported (address : Option String) (b : DepositTransactionBuilder B) (hex : Buffer)
      : Type 0 where
    pub completed : is_completed env b ≡ true
    pub raw : RawTx
    pub built : build_raw env b ≡ ok raw
    pub exported :
        env.staking.deposit_transaction_to_hex
          (some raw.unsigned_raw_tx)
          (map (λ input. input.witness) b.inputs)
          (tendermint_address_or_default address)
          (get_rust_features_from_env env.node_env)
        ≡ ok hex

  -- A call of `toHex` that returns was made on a completed builder, and returns what the native
  -- module exports of the raw transaction of the present inputs with their witnesses.
  to_hex-IsExported_deposit :
      (address : Option String) (b : DepositTransactionBuilder B) (hex : Buffer)
      → IsPrepared env b
      → (to_hex env address b).0 ≡ ok hex
      → IsExported address b hex
  unfolding to_hex prepare_if_needed if_not_prepared prepare_raw_tx is_completed ◌>>=◌
  to_hex-IsExported_deposit address b hex p h = ground arith
