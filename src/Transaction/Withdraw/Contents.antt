-- ===== src/Transaction/Withdraw/Contents.antt =====
-- What the methods of a builder that withdraws unbonded stake do to its network, nonce, outputs and
-- view keys, by a filter and a prefix of what it was given.
use mathlib.Core.List.{append-nil, append_assoc}
use chain_nodelib.Prelude.{
  ◌-◌, ◌≤◌, ◌≡◌, ap, ◌∙◌, Bool, none, List, [], ◌∷◌, ◌++◌, arith, ◌&&◌, filter, take, take-nil,
  take-cons, length, length-concat,
}
use chain_nodelib.Method.{◌>>=◌}
use chain_nodelib.Buffer.{Buffer}
use chain_nodelib.Network.{NetworkConfig}
use chain_nodelib.Types.{Output}
use chain_nodelib.Native.{Env}
use chain_nodelib.Transaction.Withdraw.{
  WithdrawUnbondedTransactionBuilder, ow_withdraw_unbonded_output, max_output_size, add_output,
  add_view_key, prepare_raw_tx, prepare_if_needed, estimate_fee, tx_id, to_unsigned_hex, sign,
  add_witness, to_hex,
}
use chain_nodelib.Transaction.Withdraw.Calls.{Call, adds_output, adds_view_key, step, run}

module _ {B : Type 0} where
  -- What a sequence of calls hands over, in their order.
  abbrev pub given_outputs : List (Call B) → List (Output B)
  given_outputs [] = []
  given_outputs (adds_output o ∷ cs) = o ∷ given_outputs cs
  given_outputs (_ ∷ cs) = given_outputs cs

  abbrev pub given_view_keys : List (Call B) → List Buffer
  given_view_keys [] = []
  given_view_keys (adds_view_key k ∷ cs) = k ∷ given_view_keys cs
  given_view_keys (_ ∷ cs) = given_view_keys cs

  -- What a builder holds beside what is prepared and signed.
  abbrev pub contents : WithdrawUnbondedTransactionBuilder B → WithdrawUnbondedTransactionBuilder B
  contents b = record b { unsigned_raw_tx = none; innert_tx_id = none; witness = none }

module _ {B : Type 0} (env : Env B) where
  -- The checks of an output that do not count the earlier ones.
  abbrev pub accepts : NetworkConfig B → Output B → Bool
  accepts network o =
      ow_withdraw_unbonded_output env o
      && env.address.is_transfer_address_valid o.address network.name

  -- The outputs there is room for.
  abbrev pub accepted_outputs :
      WithdrawUnbondedTransactionBuilder B → List (Output B) → List (Output B)
  accepted_outputs b os = take (max_output_size - length b.outputs) (filter (accepts b.network) os)

  abbrev pub extended_by :
      WithdrawUnbondedTransactionBuilder B → List (Call B) → WithdrawUnbondedTransactionBuilder B
  extended_by b cs = record {
    network = b.network;
    nonce = b.nonce;
    outputs = b.outputs ++ accepted_outputs b (given_outputs cs);
    view_keys = b.view_keys ++ filter env.key_pair.is_valid_view_key (given_view_keys cs);
    unsigned_raw_tx = none;
    innert_tx_id = none;
    witness = none;
  }

  prepare_if_needed-contents :
      (b : WithdrawUnbondedTransactionBuilder B) → contents (prepare_if_needed env b).1 ≡ contents b
  unfolding prepare_if_needed prepare_raw_tx ◌>>=◌
  prepare_if_needed-contents b = ground arith

  -- Calls that hand over neither an output nor a view key.
  abbrev Adds : Call B → Type 0
  Adds (adds_output o) = Unit
  Adds (adds_view_key k) = Unit
  Adds _ = ⊥

  step-contents :
      (c : Call B) (b : WithdrawUnbondedTransactionBuilder B)
      → ¬ Adds c
      → contents (step env c b) ≡ contents b
  unfolding step estimate_fee tx_id to_unsigned_hex sign add_witness to_hex ◌>>=◌
  step-contents (adds_output o) b h = absurd (h tt)
  step-contents (adds_view_key k) b h = absurd (h tt)
  step-contents _ b h = ground (arith, prepare_if_needed-contents b)

  add_output-contents :
      (o : Output B) (b : WithdrawUnbondedTransactionBuilder B) (cs : List (Call B))
      → length b.outputs ≤ max_output_size
      → (length (add_output env o b).1.outputs ≤ max_output_size)
        × (extended_by (add_output env o b).1 cs ≡ extended_by b (adds_output o ∷ cs))
  unfolding add_output ◌>>=◌
  add_output-contents o b cs h = ground (
    arith,
    length-concat b.outputs o,
    append_assoc b.outputs (o ∷ []) (accepted_outputs (add_output env o b).1 (given_outputs cs)),
    take-cons (max_output_size - length b.outputs) o
        (filter (accepts b.network) (given_outputs cs)),
  )

  add_view_key-contents :
      (k : Buffer) (b : WithdrawUnbondedTransactionBuilder B) (cs : List (Call B))
      → length b.outputs ≤ max_output_size
      → (length (add_view_key env k b).1.outputs ≤ max_output_size)
        × (extended_by (add_view_key env k b).1 cs ≡ extended_by b (adds_view_key k ∷ cs))
  unfolding add_view_key ◌>>=◌
  add_view_key-contents k b cs h = ground (
    arith,
    append_assoc b.view_keys (k ∷ []) (filter env.key_pair.is_valid_view_key (given_view_keys cs)),
  )

  -- After any calls, failing ones included, a builder of at most 65536 outputs has its network and
  -- its nonce. Its outputs are the earlier ones and behind them, of those that were added and pass
  -- the checks of their address, amount, time and network, the first for which 65536 leaves room.
  -- Its view keys are the earlier ones and behind them the valid ones that were added. Both are in
  -- the order of the calls.
  pub run-contents_withdraw :
      (cs : List (Call B)) (b : WithdrawUnbondedTransactionBuilder B)
      → length b.outputs ≤ max_output_size
      → contents (run env cs b) ≡ extended_by b cs
  unfolding run step
  run-contents_withdraw [] b h = simp (take-nil, append-nil)
  run-contents_withdraw (adds_output o ∷ cs) b h =
      let (room, e) = add_output-contents o b cs h in
      run-contents_withdraw cs (add_output env o b).1 room ∙ e
  run-contents_withdraw (adds_view_key k ∷ cs) b h =
      let (room, e) = add_view_key-contents k b cs h in
      run-contents_withdraw cs (add_view_key env k b).1 room ∙ e
  run-contents_withdraw (c ∷ cs) b h =
      let e = step-contents c b (λ x. x) in
      run-contents_withdraw cs (step env c b) (rw (ap (λ s. s.outputs) e) h)
      ∙ ap (λ s. extended_by s cs) e
