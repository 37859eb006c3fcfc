-- ===== src/Transaction/Transfer/Replay/Runs.antt =====
-- A transfer builder and its replay, over a sequence of calls.
use chain_nodelib.Prelude.{◌≡◌, refl, sym, ap, ap₂, ◌∙◌, Option, none, List, [], ◌∷◌, arith, inl}
use chain_nodelib.Method.{ok}
use chain_nodelib.Native.{Env}
use chain_nodelib.Transaction.Transfer.{
  TransferTransactionBuilder, TransferTransactionBuilderOptions, new_builder, build_incomplete_hex,
  to_incomplete_hex,
}
use chain_nodelib.Transaction.Transfer.Calls.{Call, contents, step, run, answers}
use chain_nodelib.Transaction.Transfer.Replay.{
  plain, Signing, replay, plain_call, plain_answers, plain_run, plain_hex,
}
use chain_nodelib.Transaction.Transfer.Replay.Steps.{IsReplayed, step-Agrees}

module _ {B : Type 0} (env : Env B) where
  to_incomplete_hex-plain_hex :
      (b : TransferTransactionBuilder B) (l : Option (List Signing))
      → IsReplayed env b l
      → to_incomplete_hex env b ≡ plain_hex env (plain b l)
  unfolding to_incomplete_hex replay build_incomplete_hex
  to_incomplete_hex-plain_hex b l h = ground arith

  -- What the calls answer, and the transaction behind them.
  abbrev Replays : List (Call B) → TransferTransactionBuilder B → Option (List Signing) → Type 0
  Replays cs b l =
      (answers env cs b ≡ plain_answers env cs (plain b l))
      × (contents (run env cs b) ≡ (plain_run env cs (plain b l)).base)
      × (to_incomplete_hex env (run env cs b) ≡ plain_hex env (plain_run env cs (plain b l)))

  run-Replays :
      (cs : List (Call B)) (b : TransferTransactionBuilder B) (l : Option (List Signing))
      → IsReplayed env b l
      → Replays cs b l
  unfolding run
  run-Replays [] b l h = (refl, refl, to_incomplete_hex-plain_hex b l h)
  run-Replays (c ∷ cs) b l h =
      let (next, e, h') = step-Agrees env c b l h in
      let (same, base, hex) = run-Replays cs (step env c b) next h' in
      let to : (plain_call env c (plain b l)).1 ≡ plain (step env c b) next = ap (λ r. r.1) e in
      (
        ap₂ ◌∷◌ (sym (ap (λ r. r.0) e)) (same ∙ ap (plain_answers env cs) (sym to)),
        base ∙ ap (λ p. (plain_run env cs p).base) (sym to),
        hex ∙ ap (λ p. plain_hex env (plain_run env cs p)) (sym to),
      )

  -- The transaction that is being signed holds the signings since the contents changed last, and no
  -- other: any calls on a new builder, failing ones included, answer what they answer on a builder
  -- that keeps the signings alone. Behind them the contents are the same, and `toIncompleteHex`
  -- answers what the native module makes of the contents by the signings that are kept, in their
  -- order.
  pub run-new_transfer-replay :
      (options : Option (TransferTransactionBuilderOptions B)) (b : TransferTransactionBuilder B)
      (cs : List (Call B))
      → new_builder env options ≡ ok b
      → (answers env cs b ≡ plain_answers env cs (plain b none))
        × (contents (run env cs b) ≡ (plain_run env cs (plain b none)).base)
        × (to_incomplete_hex env (run env cs b) ≡ plain_hex env (plain_run env cs (plain b none)))
  unfolding new_builder
  run-new_transfer-replay options b cs e = run-Replays cs b none (inl (ground arith, refl))
