-- ===== src/Transaction/Transfer/Typed.antt =====
-- What the fields of a transfer builder's inputs and outputs can be.
use chain_nodelib.Prelude.{ℕ, ◌≤◌, ◌^◌, ◌≡◌, refl, true, Option, List, arith, All, All-filter}
use chain_nodelib.Method.{ok}
use chain_nodelib.Number.{Number, whole, fraction, negative, integer_at_least}
use chain_nodelib.BigNumber.{NumberLaws}
use chain_nodelib.Network.{NetworkConfig}
use chain_nodelib.Types.{
  Input, InputAddressParams, Output, ow_input, ow_output, ow_input_address_params,
}
use chain_nodelib.Types.TxIds.{IsTxId, ow_tx_id-IsTxId}
use chain_nodelib.Types.Amounts.{IsUpTo, ow_coin_iff}
use chain_nodelib.Native.{Env}
use chain_nodelib.Transaction.Transfer.{
  TransferTransactionBuilder, TransferTransactionBuilderOptions, new_builder,
}
use chain_nodelib.Transaction.Transfer.Calls.{Call, run}
use chain_nodelib.Transaction.Transfer.Contents.{
  given_inputs, given_outputs, accepts_input, accepts_output, run-new_builder-lists,
}

-- At least one of the signers is needed, and no more than there are.
abbrev pub IsThreshold : InputAddressParams → Type 0
IsThreshold p =
    (required : ℕ) × (total : ℕ) × (p.required_signers ≡ whole required)
    × (p.total_signers ≡ whole total)
    × (1 ≤ required)
    × (required ≤ total)

IsThreshold-of_ow :
    (p : InputAddressParams) (required total : Number)
    → required ≡ p.required_signers
    → total ≡ p.total_signers
    → ow_input_address_params p ≡ true
    → IsThreshold p
unfolding ow_input_address_params
IsThreshold-of_ow p (whole r) (whole t) e f h =
    (r, t, ground arith, ground arith, ground arith, ground arith)
IsThreshold-of_ow p (whole r) t e f h = absurd (ground arith)
IsThreshold-of_ow p r t e f h = absurd (ground arith)

integer_at_least-whole : (n : Number) → integer_at_least 0 n ≡ true → (i : ℕ) × (n ≡ whole i)
integer_at_least-whole (whole i) h = (i, refl)
integer_at_least-whole (fraction i) h = cc
integer_at_least-whole negative h = cc

module _ {B : Type 0} (env : Env B) (laws : NumberLaws env.big) where
  -- An output's value is a number of basic units.
  abbrev pub IsTypedOutput : Output B → Type 0
  IsTypedOutput o = IsUpTo env.big laws (10 ^ 19) o.value

  pub record IsTypedInput (x : Input B) : Type 0 where
    pub id : IsTxId x.prev_tx_id
    pub index : (i : ℕ) × (x.prev_index ≡ whole i)
    pub output : IsTypedOutput x.prev_output
    pub threshold : IsThreshold x.address_params

  accepted_output-IsTypedOutput :
      (network : NetworkConfig B) (o : Output B)
      → accepts_output env network o ≡ true
      → IsTypedOutput o
  unfolding ow_output
  accepted_output-IsTypedOutput network o h = (ow_coin_iff env.big laws o.value).0 (ground arith)

  accepted_input-IsTypedInput :
      (network : NetworkConfig B) (x : Input B)
      → accepts_input env network x ≡ true
      → IsTypedInput x
  unfolding ow_input ow_output
  accepted_input-IsTypedInput network x h = record {
    id = ow_tx_id-IsTxId x.prev_tx_id (ground arith);
    index = integer_at_least-whole x.prev_index (ground arith);
    output = (ow_coin_iff env.big laws x.prev_output.value).0 (ground arith);
    threshold =
        IsThreshold-of_ow x.address_params x.address_params.required_signers
          x.address_params.total_signers refl refl (ground arith);
  }

  -- By the laws of bignumber.js: after any calls on a new builder, failing ones included, each input
  -- has an id of 64 digits of base 16, a whole number for an index, a value of at most 10 ^ 19 whole
  -- basic units, and signers of whom at least one and at most all are required; each output has such a
  -- value.
  pub run-new_builder-IsTyped :
      (options : Option (TransferTransactionBuilderOptions B)) (b : TransferTransactionBuilder B)
      (cs : List (Call B))
      → new_builder env options ≡ ok b
      → All IsTypedInput (run env cs b).inputs × All IsTypedOutput (run env cs b).outputs
  run-new_builder-IsTyped options b cs e =
      let (inputs, outputs, _) = run-new_builder-lists env options b cs e in
      (
        rw inputs (
            All-filter IsTypedInput (accepts_input env b.network)
              (accepted_input-IsTypedInput b.network) (given_inputs cs)),
        rw outputs (
            All-filter IsTypedOutput (accepts_output env b.network)
              (accepted_output-IsTypedOutput b.network) (given_outputs cs)),
      )
