-- ===== src/Transaction/Withdraw/Agreement.antt =====
-- Where the raw transaction that a builder keeps is seen, and where it is not.
use chain_nodelib.Prelude.{
  ◌≡◌, refl, ap, ap₂, ◌∙◌, Bool, true, false, ◌||◌, ◌&&◌, Option, none, some, List, [], ◌∷◌, ◌++◌,
  arith, is_some, if◌then◌else◌, inl, inr,
}
use chain_nodelib.Method.{Result, ok, err, require, and_then, ◌>>=◌}
use chain_nodelib.Buffer.{Buffer, codes, from_hex}
use chain_nodelib.Types.{ow_tendermint_address}
use chain_nodelib.Native.{Env}
use chain_nodelib.Transaction.{tendermint_address_or_default}
use chain_nodelib.Transaction.Withdraw.{
  WithdrawUnbondedTransactionBuilder, WithdrawUnbondedTransactionBuilderOptions, new_builder,
  ow_staked_state_op_witness, build_raw, add_output, add_view_key, estimate_fee, tx_id,
  to_unsigned_hex, sign, add_witness, to_hex, to_signed_plain_hex,
}
use chain_nodelib.Transaction.Withdraw.Calls.{
  Call, adds_output, adds_view_key, adds_witness, asks_hex, answers, step, run,
}
use chain_nodelib.Transaction.Withdraw.Prepared.{
  IsPrepared, step-IsPrepared, run-new_withdraw-IsPrepared,
}
use chain_nodelib.Transaction.Withdraw.Reference.{
  Plain, plain, raw_of, accepts_output, plain_answers, plain_step, prepare-raw_of, call-plain,
  answers-plain,
}

abbrev is_ok : {A : Type 0} → Result A → Bool
is_ok (ok a) = true
is_ok (err e) = false

abbrev value_of : {A : Type 0} → Result A → Option A
value_of (ok a) = some a
value_of (err e) = none

module _ {B : Type 0} (env : Env B) where
  -- The call gets as far as the raw transaction.
  abbrev asks_raw : Call B → Bool
  asks_raw (adds_witness w) = ow_staked_state_op_witness w
  asks_raw (asks_hex a) = ow_tendermint_address env.is_url (tendermint_address_or_default a)
  asks_raw _ = true

  -- Whether a raw transaction has been built since an output or a view key was added last.
  abbrev pub remembers : Call B → Plain B → Bool → Bool
  remembers (adds_output o) p kept = if is_ok (accepts_output env o p) then false else kept
  remembers (adds_view_key k) p kept = if env.key_pair.is_valid_view_key k then false else kept
  remembers c p kept = kept || (asks_raw c && is_ok (raw_of env p))

  abbrev pub remembered : List (Call B) → Plain B → Bool → Bool
  remembered [] p kept = kept
  remembered (c ∷ cs) p kept = remembered cs (plain_step env c p) (remembers c p kept)

  abbrev pub plain_run : List (Call B) → Plain B → Plain B
  plain_run [] p = p
  plain_run (c ∷ cs) p = plain_run cs (plain_step env c p)

  -- The export in plain, with the raw transaction of the contents or with none.
  abbrev pub plain_signed_hex : Bool → Plain B → Result Buffer
  plain_signed_hex kept p = and_then (require (is_some p.witness) "Builder is not signed") λ _.
      and_then
        (env.staking.withdraw_unbonded_transaction_to_signed_plain_hex
          (if kept then value_of (and_then (raw_of env p) λ raw. ok raw.unsigned_raw_tx) else none)
          p.witness)
        λ signed. ok (from_hex (codes "00") ++ signed)

  abbrev is_kept : WithdrawUnbondedTransactionBuilder B → Bool
  is_kept b = is_some b.unsigned_raw_tx

  call-remembers :
      (c : Call B) (b : WithdrawUnbondedTransactionBuilder B)
      → IsPrepared env b
      → is_kept (step env c b) ≡ remembers c (plain b) (is_kept b)
  unfolding step add_output add_view_key estimate_fee tx_id to_unsigned_hex sign add_witness to_hex
      ◌>>=◌
  call-remembers (adds_output o) b h = ground arith
  call-remembers (adds_view_key k) b h = ground arith
  call-remembers c b h = elim (prepare-raw_of env b h) [
    | inl (raw, e, q) ↦ ground arith
    | inr (x, e, q) ↦ ground arith
  ]

  to_signed_plain_hex-plain :
      (b : WithdrawUnbondedTransactionBuilder B)
      → IsPrepared env b
      → to_signed_plain_hex env b ≡ plain_signed_hex (is_kept b) (plain b)
  unfolding to_signed_plain_hex raw_of build_raw
  to_signed_plain_hex-plain b (inl (no_raw, no_id)) = ground arith
  to_signed_plain_hex-plain b (inr (raw, built, has_raw, has_id, ne)) = ground arith

  -- What a sequence of calls answers, the contents behind it, and the export in plain.
  agreed :
      (cs : List (Call B)) (b : WithdrawUnbondedTransactionBuilder B)
      → IsPrepared env b
      → (plain (run env cs b) ≡ plain_run cs (plain b))
        × (to_signed_plain_hex env (run env cs b)
            ≡ plain_signed_hex (remembered cs (plain b) (is_kept b)) (plain_run cs (plain b)))
  unfolding run
  agreed [] b h = (refl, to_signed_plain_hex-plain b h)
  agreed (c ∷ cs) b h =
      let (_, next) = call-plain env c b h in
      let (contents, signed) = agreed cs (step env c b) (step-IsPrepared env c b h) in
      (
        contents ∙ ap (plain_run cs) next,
        signed
            ∙ ap₂ (λ p kept. plain_signed_hex (remembered cs p kept) (plain_run cs p)) next
                (call-remembers c b h),
      )

  -- Any calls on a new builder of the methods that write to it, failing ones included, answer what
  -- they answer on a builder that keeps no raw transaction and has the native module build it anew
  -- whenever one of these methods needs it, and both have the same nonce, outputs, view keys and
  -- witness. `toSignedPlainHex` alone sees what is kept: behind the calls it hands over the raw
  -- transaction of the contents if one was built since an output or a view key was added last, and
  -- `undefined` otherwise.
  pub answers-new_withdraw :
      (options : WithdrawUnbondedTransactionBuilderOptions B)
      (b : WithdrawUnbondedTransactionBuilder B) (cs : List (Call B))
      → new_builder env options ≡ ok b
      → (answers env cs b ≡ plain_answers env cs (plain b))
        × (plain (run env cs b) ≡ plain_run cs (plain b))
        × (to_signed_plain_hex env (run env cs b)
            ≡ plain_signed_hex (remembered cs (plain b) false) (plain_run cs (plain b)))
  unfolding new_builder run
  answers-new_withdraw options b cs e =
      let h : IsPrepared env b = run-new_withdraw-IsPrepared env options b [] e in
      let fresh : is_kept b ≡ false = ground arith in
      let (contents, signed) = agreed cs b h in
      (
        answers-plain env cs b h,
        contents,
        signed
            ∙ ap (λ kept. plain_signed_hex (remembered cs (plain b) kept) (plain_run cs (plain b)))
                fresh,
      )
