-- ===== src/Transaction/Transfer/Getters.antt =====
-- What a transfer builder tells of its contents.
use chain_nodelib.Prelude.{ℕ, Bool, length, is_some}
use chain_nodelib.Fee.{FeeConfig}
use chain_nodelib.Transaction.Transfer.{TransferTransactionBuilder}

module _ {B : Type 0} where
  abbrev pub fee_config : TransferTransactionBuilder B → FeeConfig B
  fee_config b = b.network.fee_config

  abbrev pub inputs_length : TransferTransactionBuilder B → ℕ
  inputs_length b = length b.inputs

  abbrev pub outputs_length : TransferTransactionBuilder B → ℕ
  outputs_length b = length b.outputs

  abbrev pub view_keys_length : TransferTransactionBuilder B → ℕ
  view_keys_length b = length b.view_keys

  abbrev pub is_signing : TransferTransactionBuilder B → Bool
  is_signing b = is_some b.incomplete_hex
