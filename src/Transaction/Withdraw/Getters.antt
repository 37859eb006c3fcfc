-- ===== src/Transaction/Withdraw/Getters.antt =====
-- What a builder that withdraws unbonded stake tells of its contents.
use chain_nodelib.Prelude.{ℕ, Bool, length, is_some}
use chain_nodelib.Fee.{FeeConfig}
use chain_nodelib.Transaction.Withdraw.{WithdrawUnbondedTransactionBuilder}

module _ {B : Type 0} where
  abbrev pub get_nonce : WithdrawUnbondedTransactionBuilder B → B
  get_nonce b = b.nonce

  abbrev pub fee_config : WithdrawUnbondedTransactionBuilder B → FeeConfig B
  fee_config b = b.network.fee_config

  abbrev pub outputs_length : WithdrawUnbondedTransactionBuilder B → ℕ
  outputs_length b = length b.outputs

  abbrev pub view_keys_length : WithdrawUnbondedTransactionBuilder B → ℕ
  view_keys_length b = length b.view_keys

  abbrev pub is_raw_tx_prepared : WithdrawUnbondedTransactionBuilder B → Bool
  is_raw_tx_prepared b = is_some b.unsigned_raw_tx
