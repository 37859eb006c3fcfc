-- ===== src/Transaction/Transfer/Replay/Steps.antt =====
-- A transfer builder and its replay, call by call.
use chain_nodelib.Prelude.{
  ◌≡◌, ◌⊎◌, refl, Option, some, none, List, ◌∷◌, arith, inl, inr, Bool-cases,
}
use chain_nodelib.Method.{Error, ok, err, ow, require, and_then, Result-cases, ◌>>=◌}
use chain_nodelib.Number.{Number}
use chain_nodelib.Buffer.{Buffer}
use chain_nodelib.Types.{Input, Output, ow_input, ow_output}
use chain_nodelib.Native.{Env}
use chain_nodelib.KeyPair.{KeyPair}
use chain_nodelib.Transaction.Transfer.{
  TransferTransactionBuilder, is_transfer_address_in_network, ow_index, build_incomplete_hex,
  prepare_incomplete_signing_hex, add_input, add_output, add_view_key, sign_input, sign_with,
  add_witness, witness_with,
}
use chain_nodelib.Transaction.Transfer.Calls.{
  Call, adds_input, adds_output, adds_view_key, signs_input, adds_witness, contents, step, answer,
}
use chain_nodelib.Transaction.Transfer.Replay.{
  plain, Signing, signature, witness, log_or_empty, signed, replay, may_sign, plain_call,
}

module _ {B : Type 0} (env : Env B) where
  -- No transaction is being signed, or it is the replay.
  abbrev pub IsReplayed : TransferTransactionBuilder B → Option (List Signing) → Type 0
  IsReplayed b l =
      ((b.incomplete_hex ≡ none) × (l ≡ none))
      ⊎ ((hex : Buffer) × (log : List Signing) × (b.incomplete_hex ≡ some hex)
          × (l ≡ some log)
          × (replay env (contents b) log ≡ ok hex))

  -- The call answers the same on both, and they match behind it.
  abbrev pub Agrees : Call B → TransferTransactionBuilder B → Option (List Signing) → Type 0
  Agrees c b l =
      (next : Option (List Signing)) × (plain_call env c (plain b l)
        ≡ (answer env c b, plain (step env c b) next))
      × IsReplayed (step env c b) next

  adds_input-Agrees :
      (x : Input B) (b : TransferTransactionBuilder B) (l : Option (List Signing))
      → IsReplayed b l
      → Agrees (adds_input x) b l
  unfolding step plain_call add_input ◌>>=◌
  adds_input-Agrees x b l h =
      elim (Result-cases (
        and_then (ow (ow_input env.big env.address.is_transfer_address_valid x)) λ _.
          require (is_transfer_address_in_network env b x.prev_output.address)
            "Previous output address does not belongs to the builder network")) [
              | inl (u, e) ↦ (none, ground arith, ground arith)
              | inr (y, e) ↦ (l, ground arith, ground arith)
            ]

  adds_output-Agrees :
      (x : Output B) (b : TransferTransactionBuilder B) (l : Option (List Signing))
      → IsReplayed b l
      → Agrees (adds_output x) b l
  unfolding step plain_call add_output ◌>>=◌
  adds_output-Agrees x b l h =
      elim (Result-cases (
        and_then (ow (ow_output env.big env.address.is_transfer_address_valid x)) λ _.
          require (is_transfer_address_in_network env b x.address)
            "Address does not belongs to the builder network")) [
              | inl (u, e) ↦ (none, ground arith, ground arith)
              | inr (y, e) ↦ (l, ground arith, ground arith)
            ]

  adds_view_key-Agrees :
      (x : Buffer) (b : TransferTransactionBuilder B) (l : Option (List Signing))
      → IsReplayed b l
      → Agrees (adds_view_key x) b l
  unfolding step plain_call add_view_key ◌>>=◌
  adds_view_key-Agrees x b l h = elim (Bool-cases (env.key_pair.is_valid_view_key x)) [
    | inl e ↦ (none, ground arith, ground arith)
    | inr e ↦ (l, ground arith, ground arith)
  ]

  prepare-replay :
      (b : TransferTransactionBuilder B) (l : Option (List Signing))
      → IsReplayed b l
      → ((hex : Buffer) × (replay env (contents b) (log_or_empty l) ≡ ok hex)
          × (prepare_incomplete_signing_hex env b
              ≡ (ok hex, record b { incomplete_hex = some hex })))
        ⊎ ((e : Error) × (replay env (contents b) (log_or_empty l) ≡ err e)
            × (prepare_incomplete_signing_hex env b ≡ (err e, b)))
  unfolding replay build_incomplete_hex prepare_incomplete_signing_hex ◌>>=◌
  prepare-replay b l (inl (no_hex, no_log)) = elim (Result-cases (build_incomplete_hex env b)) [
    | inl (hex, e) ↦ inl (hex, ground arith, ground arith)
    | inr (x, e) ↦ inr (x, ground arith, ground arith)
  ]
  prepare-replay b l (inr (hex, log, e, f, r)) = inl (hex, ground arith, ground arith)

  sign_input-may_sign :
      (n : Number) (k : KeyPair) (b : TransferTransactionBuilder B)
      → ((may_sign env n k (contents b) ≡ ok tt)
          × (sign_input env n k b ≡ (prepare_incomplete_signing_hex env >>= sign_with env n k) b))
        ⊎ ((e : Error) × (may_sign env n k (contents b) ≡ err e)
            × (sign_input env n k b ≡ (err e, b)))
  unfolding may_sign sign_input ◌>>=◌
  sign_input-may_sign n k b = elim (Result-cases (may_sign env n k (contents b))) [
    | inl (u, e) ↦ inl (e, ground arith)
    | inr (x, e) ↦ inr (x, e, ground arith)
  ]

  sign_with-signed :
      (n : Number) (k : KeyPair) (b : TransferTransactionBuilder B) (hex : Buffer)
      → ((next : Buffer) × (signed env (contents b) (signature n k) hex ≡ ok next)
          × (sign_with env n k hex b ≡ (ok tt, record b { incomplete_hex = some next })))
        ⊎ ((e : Error) × (signed env (contents b) (signature n k) hex ≡ err e)
            × (sign_with env n k hex b ≡ (err e, b)))
  unfolding signed sign_with ◌>>=◌
  sign_with-signed n k b hex = elim (Result-cases (signed env (contents b) (signature n k) hex)) [
    | inl (next, e) ↦ inl (next, e, ground arith)
    | inr (x, e) ↦ inr (x, e, ground arith)
  ]

  witness_with-signed :
      (n : Number) (w : Buffer) (b : TransferTransactionBuilder B) (hex : Buffer)
      → ((next : Buffer) × (signed env (contents b) (witness n w) hex ≡ ok next)
          × (witness_with env n w hex b ≡ (ok tt, record b { incomplete_hex = some next })))
        ⊎ ((e : Error) × (signed env (contents b) (witness n w) hex ≡ err e)
            × (witness_with env n w hex b ≡ (err e, b)))
  unfolding signed witness_with ◌>>=◌
  witness_with-signed n w b hex = elim (Result-cases (signed env (contents b) (witness n w) hex)) [
    | inl (next, e) ↦ inl (next, e, ground arith)
    | inr (x, e) ↦ inr (x, e, ground arith)
  ]

  signs_input-Agrees :
      (n : Number) (k : KeyPair) (b : TransferTransactionBuilder B) (l : Option (List Signing))
      → IsReplayed b l
      → Agrees (signs_input n k) b l
  unfolding step plain_call replay ◌>>=◌
  signs_input-Agrees n k b l h = elim (sign_input-may_sign n k b) [
    | inr (x, e, q) ↦ (l, ground arith, ground arith)
    | inl (e, q) ↦ elim (prepare-replay b l h) [
      | inr (x, r, p) ↦ (l, ground arith, ground arith)
      | inl (hex, r, p) ↦ elim (sign_with-signed n k (record b { incomplete_hex = some hex }) hex) [
        | inl (next, s, t) ↦ (
          some (signature n k ∷ log_or_empty l),
          ground arith,
          inr (next, signature n k ∷ log_or_empty l, ground arith, refl, ground arith),
        )
        | inr (x, s, t) ↦ (
          some (log_or_empty l),
          ground arith,
          inr (hex, log_or_empty l, ground arith, refl, ground arith),
        )
      ]
    ]
  ]

  adds_witness-Agrees :
      (n : Number) (w : Buffer) (b : TransferTransactionBuilder B) (l : Option (List Signing))
      → IsReplayed b l
      → Agrees (adds_witness n w) b l
  unfolding step plain_call add_witness replay ◌>>=◌
  adds_witness-Agrees n w b l h = elim (Bool-cases (ow_index env b n)) [
    | inr e ↦ (l, ground arith, ground arith)
    | inl e ↦ elim (prepare-replay b l h) [
      | inr (x, r, p) ↦ (l, ground arith, ground arith)
      | inl (hex, r, p) ↦
          elim (witness_with-signed n w (record b { incomplete_hex = some hex }) hex) [
            | inl (next, s, t) ↦ (
              some (witness n w ∷ log_or_empty l),
              ground arith,
              inr (next, witness n w ∷ log_or_empty l, ground arith, refl, ground arith),
            )
            | inr (x, s, t) ↦ (
              some (log_or_empty l),
              ground arith,
              inr (hex, log_or_empty l, ground arith, refl, ground arith),
            )
          ]
    ]
  ]

  pub step-Agrees :
      (c : Call B) (b : TransferTransactionBuilder B) (l : Option (List Signing))
      → IsReplayed b l
      → Agrees c b l
  step-Agrees (adds_input x) b l h = adds_input-Agrees x b l h
  step-Agrees (adds_output x) b l h = adds_output-Agrees x b l h
  step-Agrees (adds_view_key x) b l h = adds_view_key-Agrees x b l h
  step-Agrees (signs_input n k) b l h = signs_input-Agrees n k b l h
  step-Agrees (adds_witness n w) b l h = adds_witness-Agrees n w b l h
