-- ===== src/Transaction/Deposit/Spends.antt =====
-- The outputs that a deposit builder spends.
use chain_nodelib.Prelude.{
  ℕ, ◌<◌, ◌≡◌, refl, ap, ◌∙◌, true, arith, All, All-filter, filter, List, [],
}
use chain_nodelib.Method.{ok}
use chain_nodelib.Number.{Number, whole, fraction, negative, uint16}
use chain_nodelib.Types.TxIds.{IsTxId, ow_tx_id-IsTxId}
use chain_nodelib.Native.{Env, PrevOutputPointer}
use chain_nodelib.Transaction.{init_network}
use chain_nodelib.Transaction.Deposit.{
  DepositTransactionBuilder, DepositTransactionBuilderOptions, ow_prev_output_pointer, new_builder,
}
use chain_nodelib.Transaction.Deposit.Contents.{
  Contents, contents, given_inputs, spending, run-contents_deposit,
}
use chain_nodelib.Transaction.Deposit.Calls.{Call, run}

-- An output of a transaction: the text of 32 bytes, and a 16-bit number.
pub record IsPointer (p : PrevOutputPointer) : Type 0 where
  pub id : IsTxId p.prev_tx_id
  pub index : (i : ℕ) × (p.prev_index ≡ whole i) × (i < 65536)

uint16-bounds : (n : Number) → uint16 n ≡ true → (i : ℕ) × (n ≡ whole i) × (i < 65536)
uint16-bounds (whole i) h = (i, refl, ground arith)
uint16-bounds (fraction i) h = cc
uint16-bounds negative h = cc

ow_prev_output_pointer-IsPointer :
    (p : PrevOutputPointer) → ow_prev_output_pointer p ≡ true → IsPointer p
unfolding ow_prev_output_pointer
ow_prev_output_pointer-IsPointer p h = record {
  id = ow_tx_id-IsTxId p.prev_tx_id (ground arith);
  index = uint16-bounds p.prev_index (ground arith);
}

module _ {B : Type 0} (env : Env B) where
  -- What a builder of these options holds, when it spends a list of outputs.
  abbrev pub of_options : DepositTransactionBuilderOptions B → List PrevOutputPointer → Contents B
  of_options options ps = record {
    network = init_network env.big options.network;
    staking_address = options.staking_address;
    spends = ps;
  }

  new_builder-contents :
      (options : DepositTransactionBuilderOptions B) (b : DepositTransactionBuilder B)
      → new_builder env options ≡ ok b
      → contents b ≡ of_options options []
  unfolding new_builder
  new_builder-contents options b e = ground arith

  -- After any calls on a new builder, failing ones included, the builder has the network and the
  -- staking address of its options, and it spends what was added and passes the check of `addInput`, in
  -- the order of the calls; each is named by an id of 64 digits of base 16 and a whole number below
  -- 65536.
  pub run-new_deposit-spends :
      (options : DepositTransactionBuilderOptions B) (b : DepositTransactionBuilder B)
      (cs : List Call)
      → new_builder env options ≡ ok b
      → (contents (run env cs b)
          ≡ of_options options (filter ow_prev_output_pointer (given_inputs cs)))
        × All IsPointer (contents (run env cs b)).spends
  run-new_deposit-spends options b cs e =
      let added = filter ow_prev_output_pointer (given_inputs cs) in
      let holds : contents (run env cs b) ≡ of_options options added =
        run-contents_deposit env cs b
        ∙ ap (λ c. spending c added) (new_builder-contents options b e) in
      (
        holds,
        rw (ap (λ c. c.spends) holds) (
            All-filter IsPointer ow_prev_output_pointer ow_prev_output_pointer-IsPointer
              (given_inputs cs)),
      )
