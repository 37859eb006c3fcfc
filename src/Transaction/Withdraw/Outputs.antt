-- ===== src/Transaction/Withdraw/Outputs.antt =====
-- The outputs of a builder: how many there are, what each is, and their total.
use mathlib.Core.List.{foldl}
use chain_nodelib.Prelude.{
  ℕ, String, ◌+◌, ◌≤◌, ◌^◌, ◌≡◌, refl, ap, ap₂, ◌∙◌, true, List, [], ◌∷◌, ◌++◌, map, arith, length,
  length-concat, All, All-concat,
}
use chain_nodelib.Method.{ok, ◌>>=◌}
use chain_nodelib.Method.Keeps.{Keeps}
use chain_nodelib.Buffer.{Buffer}
use chain_nodelib.BigNumber.{NumberLaws}
use chain_nodelib.Types.{Output, ow_coin}
use chain_nodelib.Types.Amounts.{ow_coin_iff}
use chain_nodelib.Native.{Env}
use chain_nodelib.Transaction.Withdraw.{
  WithdrawUnbondedTransactionBuilder, WithdrawUnbondedTransactionBuilderOptions, new_builder,
  max_output_size, ow_withdraw_unbonded_output, add_output, add_view_key, prepare_raw_tx,
  prepare_if_needed, estimate_fee, tx_id, to_unsigned_hex, sign, add_witness, to_hex,
  get_total_output_amount,
}
use chain_nodelib.Transaction.Withdraw.Calls.{Call, adds_output, adds_view_key, step, run}

module _ {B : Type 0} (env : Env B) (network_name : String) where
  -- What the checks of `addOutput` say of an output.
  abbrev pub IsAccepted : Output B → Type 0
  IsAccepted o =
      (ow_withdraw_unbonded_output env o ≡ true)
      × (env.address.is_transfer_address_valid o.address network_name ≡ true)

  pub record HasGoodOutputs (b : WithdrawUnbondedTransactionBuilder B) : Type 0 where
    pub same_network : b.network.name ≡ network_name
    pub bounded : length b.outputs ≤ max_output_size
    pub accepted : All IsAccepted b.outputs

  IsAccepted-concat :
      (os : List (Output B)) (o : Output B)
      → All IsAccepted os
      → IsAccepted o
      → All IsAccepted (os ++ o ∷ [])
  IsAccepted-concat os o h k = All-concat IsAccepted os h k

  add_output-HasGoodOutputs : (o : Output B) → Keeps HasGoodOutputs (add_output env o)
  unfolding add_output ◌>>=◌
  add_output-HasGoodOutputs o = record {
    after =
        λ b h. ground (arith, length-concat b.outputs o, IsAccepted-concat b.outputs o h.accepted);
  }

  add_view_key-HasGoodOutputs : (k : Buffer) → Keeps HasGoodOutputs (add_view_key env k)
  unfolding add_view_key ◌>>=◌
  add_view_key-HasGoodOutputs k = record { after = λ b h. ground arith }

  prepare_if_needed-HasGoodOutputs : Keeps HasGoodOutputs (prepare_if_needed env)
  unfolding prepare_if_needed prepare_raw_tx ◌>>=◌
  prepare_if_needed-HasGoodOutputs = record { after = λ b h. ground arith }

  step-HasGoodOutputs :
      (c : Call B) (b : WithdrawUnbondedTransactionBuilder B)
      → HasGoodOutputs b
      → HasGoodOutputs (step env c b)
  unfolding step estimate_fee tx_id to_unsigned_hex sign add_witness to_hex ◌>>=◌
  step-HasGoodOutputs (adds_output o) b h = (add_output-HasGoodOutputs o).after b h
  step-HasGoodOutputs (adds_view_key k) b h = (add_view_key-HasGoodOutputs k).after b h
  step-HasGoodOutputs _ b h = ground (arith, prepare_if_needed-HasGoodOutputs.after b h)

  run-HasGoodOutputs :
      (cs : List (Call B)) (b : WithdrawUnbondedTransactionBuilder B)
      → HasGoodOutputs b
      → HasGoodOutputs (run env cs b)
  unfolding run
  run-HasGoodOutputs [] b h = h
  run-HasGoodOutputs (c ∷ cs) b h = run-HasGoodOutputs cs (step env c b) (step-HasGoodOutputs c b h)

module _ {B : Type 0} (env : Env B) where
  -- After any calls on a new builder, failing ones included, the builder has the network that it
  -- began with and at most 65536 outputs, and each of them passes the checks of `addOutput`.
  run-new_withdraw-HasGoodOutputs :
      (options : WithdrawUnbondedTransactionBuilderOptions B)
      (b : WithdrawUnbondedTransactionBuilder B) (cs : List (Call B))
      → new_builder env options ≡ ok b
      → HasGoodOutputs env b.network.name (run env cs b)
  unfolding new_builder
  run-new_withdraw-HasGoodOutputs options b cs e =
      run-HasGoodOutputs env b.network.name cs b (ground arith)

abbrev pub sum : List ℕ → ℕ
sum [] = 0
sum (n ∷ ns) = n + sum ns

module _ {B : Type 0} (env : Env B) (laws : NumberLaws env.big) where
  -- The amounts of the outputs in basic units, and their total behind `start`.
  abbrev pub Totals : ℕ → List (Output B) → Type 0
  Totals start os =
      (amounts : List ℕ) × (map (λ o. o.value) os ≡ map (λ n. env.big.decimal n 0) amounts)
      × All (λ n. n ≤ 10 ^ 19) amounts
      × (foldl (λ total o. env.big.plus total o.value) (env.big.decimal start 0) os
          ≡ env.big.decimal (start + sum amounts) 0)

  totals :
      (network_name : String) (os : List (Output B)) (start : ℕ)
      → All (IsAccepted env network_name) os
      → Totals start os
  unfolding ow_withdraw_unbonded_output
  totals network_name [] start h = ([], refl, tt, ap (λ n. env.big.decimal n 0) (omega arith))
  totals network_name (o ∷ os) start h =
      let from = λ (v : B). foldl (λ total x. env.big.plus total x.value) v os in
      let coin : ow_coin env.big o.value ≡ true = ground arith in
      let (n, e, le) = (ow_coin_iff env.big laws o.value).0 coin in
      let (ns, values, bounds, total) = totals network_name os (start + n) h.1 in
      (
        n ∷ ns,
        ap₂ ◌∷◌ e values,
        (le, bounds),
        ap (λ v. from (env.big.plus (env.big.decimal start 0) v)) e
            ∙ ap from (laws.plus_numeral start n)
            ∙ total
            ∙ ap (λ k. env.big.decimal k 0) (omega arith),
      )

  -- The total of outputs that passed the checks is the sum of their amounts, each a whole number of
  -- at most 10 ^ 19 basic units.
  pub get_total_output_amount-Totals :
      (network_name : String) (b : WithdrawUnbondedTransactionBuilder B)
      → HasGoodOutputs env network_name b
      → (amounts : List ℕ) × (map (λ o. o.value) b.outputs ≡ map (λ n. env.big.decimal n 0) amounts)
        × All (λ n. n ≤ 10 ^ 19) amounts
        × (get_total_output_amount env b ≡ env.big.decimal (sum amounts) 0)
  unfolding get_total_output_amount
  get_total_output_amount-Totals network_name b h =
      let (ns, values, bounds, total) = totals network_name b.outputs 0 h.accepted in
      (ns, values, bounds, total ∙ ap (λ k. env.big.decimal k 0) (omega arith))
