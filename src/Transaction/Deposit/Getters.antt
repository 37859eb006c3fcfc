-- ===== src/Transaction/Deposit/Getters.antt =====
-- What a deposit builder tells of its contents.
use chain_nodelib.Prelude.{ℕ, String, Bool, length, is_some}
use chain_nodelib.Transaction.Deposit.{DepositTransactionBuilder}

module _ {B : Type 0} where
  abbrev pub get_staking_address : DepositTransactionBuilder B → String
  get_staking_address b = b.staking_address

  abbrev pub inputs_length : DepositTransactionBuilder B → ℕ
  inputs_length b = length b.inputs

  abbrev pub is_raw_tx_prepared : DepositTransactionBuilder B → Bool
  is_raw_tx_prepared b = is_some b.unsigned_raw_tx
