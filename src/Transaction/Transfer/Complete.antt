-- ===== src/Transaction/Transfer/Complete.antt =====
-- A transfer from its first signature to its export.
use chain_nodelib.Prelude.{
  ℕ, suc, String, ◌≡◌, ◌≢◌, refl, ap, ◌∙◌, true, none, some, Option, List, [], ◌∷◌, arith,
}
use chain_nodelib.Method.{ok}
use chain_nodelib.Number.{whole}
use chain_nodelib.Buffer.{Buffer}
use chain_nodelib.Fee.{NativeFeeConfig, is_linear_fee, parse_fee_config_for_native}
use chain_nodelib.Types.{ow_tendermint_address}
use chain_nodelib.Native.{Env, get_rust_features_from_env}
use chain_nodelib.KeyPair.{KeyPair, to_object}
use chain_nodelib.Transaction.{tendermint_address_or_default}
use chain_nodelib.Transaction.Transfer.{
  TransferTransactionBuilder, build_incomplete_hex, to_incomplete_hex, verify, is_completed, to_hex,
}
use chain_nodelib.Transaction.Transfer.Calls.{Call, signs_input, step, run}
use chain_nodelib.Transaction.Transfer.Export.{MaySign}
use chain_nodelib.Transaction.Transfer.Signing.{sign_input_iff}

-- The calls that sign the inputs from the index on, each with its key pair.
abbrev pub sign_inputs : {B : Type 0} → ℕ → List KeyPair → List (Call B)
sign_inputs i [] = []
sign_inputs i (k ∷ ks) = signs_input (whole i) k ∷ sign_inputs (suc i) ks

module _ {B : Type 0} (env : Env B) where
  -- The key pairs may sign the inputs from the index on.
  abbrev pub MaySignAll : ℕ → List KeyPair → TransferTransactionBuilder B → Type 0
  MaySignAll i [] b = Unit
  MaySignAll i (k ∷ ks) b = MaySign env (whole i) k b × MaySignAll (suc i) ks b

  -- The native module makes the last transaction of the first by one signature after the other.
  abbrev pub SignsAll : NativeFeeConfig → ℕ → List KeyPair → Buffer → Buffer → Type 0
  SignsAll fee i [] first last = first ≡ last
  SignsAll fee i (k ∷ ks) first last =
      (next : Buffer) × (env.transfer.sign_input_linear_fee
          (record { incomplete_hex = some first; fee_config = fee }) (whole i) (to_object k)
        ≡ ok next)
      × SignsAll fee (suc i) ks next last

  abbrev signing : TransferTransactionBuilder B → Buffer → TransferTransactionBuilder B
  signing b transaction = record b { incomplete_hex = some transaction }

  MaySign-signing :
      (i : ℕ) (k : KeyPair) (b : TransferTransactionBuilder B) (o : Option Buffer)
      → MaySign env (whole i) k b
      → MaySign env (whole i) k (record b { incomplete_hex = o })
  MaySign-signing i k b o m = record {
    position = m.position;
    is_position = m.is_position;
    input = m.input;
    found = m.found;
    has_key = m.has_key;
    unlocks = m.unlocks;
  }

  MaySignAll-signing :
      (i : ℕ) (ks : List KeyPair) (b : TransferTransactionBuilder B) (o : Option Buffer)
      → MaySignAll i ks b
      → MaySignAll i ks (record b { incomplete_hex = o })
  MaySignAll-signing i [] b o h = tt
  MaySignAll-signing i (k ∷ ks) b o (m, h) =
      (MaySign-signing i k b o m, MaySignAll-signing (suc i) ks b o h)

  sign_step :
      (i : ℕ) (k : KeyPair) (b : TransferTransactionBuilder B) (first next : Buffer)
      (fee : NativeFeeConfig)
      → MaySign env (whole i) k b
      → is_linear_fee b.network.fee_config.algorithm ≡ true
      → parse_fee_config_for_native env.big b.network.fee_config ≡ ok fee
      → to_incomplete_hex env b ≡ ok first
      → env.transfer.sign_input_linear_fee
          (record { incomplete_hex = some first; fee_config = fee })
          (whole i)
          (to_object k)
        ≡ ok next
      → step env (signs_input (whole i) k) b ≡ signing b next
  unfolding step
  sign_step i k b first next fee m linear parsed prepared signed =
      ap (λ r. r.1)
        ((sign_input_iff env (whole i) k b (signing b next)).1 (record {
          allowed = m;
          transaction = first;
          prepared = prepared;
          linear = linear;
          fee = fee;
          parsed = parsed;
          signed_transaction = next;
          signed = signed;
          result = refl;
        }))

  to_incomplete_hex-signing :
      (b : TransferTransactionBuilder B) (t : Buffer) → to_incomplete_hex env (signing b t) ≡ ok t
  unfolding to_incomplete_hex
  to_incomplete_hex-signing b t = refl

  to_incomplete_hex-unsigned :
      (b : TransferTransactionBuilder B)
      → b.incomplete_hex ≡ none
      → to_incomplete_hex env b ≡ build_incomplete_hex env b
  unfolding to_incomplete_hex
  to_incomplete_hex-unsigned b h = ground arith

  -- Signing from a builder whose transaction to sign is `first`.
  run-sign_inputs :
      (i : ℕ) (k : KeyPair) (ks : List KeyPair) (b : TransferTransactionBuilder B)
      (first last : Buffer) (fee : NativeFeeConfig)
      → MaySignAll i (k ∷ ks) b
      → is_linear_fee b.network.fee_config.algorithm ≡ true
      → parse_fee_config_for_native env.big b.network.fee_config ≡ ok fee
      → to_incomplete_hex env b ≡ ok first
      → SignsAll fee i (k ∷ ks) first last
      → run env (sign_inputs i (k ∷ ks)) b ≡ signing b last
  unfolding run
  run-sign_inputs i k [] b first last fee (m, h) linear parsed prepared (next, signed, s) =
      sign_step i k b first next fee m linear parsed prepared signed ∙ ap (signing b) s
  run-sign_inputs i k (l ∷ ks) b first last fee (m, h) linear parsed prepared (next, signed, s) =
      ap (run env (sign_inputs (suc i) (l ∷ ks)))
        (sign_step i k b first next fee m linear parsed prepared signed)
      ∙ run-sign_inputs (suc i) l ks (signing b next) next last fee
          (MaySignAll-signing (suc i) (l ∷ ks) b (some next) h) linear parsed
          (to_incomplete_hex-signing b next) s

  to_hex-signing :
      (address : Option String) (b : TransferTransactionBuilder B) (t : Buffer)
      (fee : NativeFeeConfig)
      → b.inputs ≢ []
      → b.outputs ≢ []
      → is_linear_fee b.network.fee_config.algorithm ≡ true
      → parse_fee_config_for_native env.big b.network.fee_config ≡ ok fee
      → env.transfer.is_completed_linear_fee (record { incomplete_hex = some t; fee_config = fee })
        ≡ ok true
      → env.transfer.verify_linear_fee (record { incomplete_hex = some t; fee_config = fee })
        ≡ ok tt
      → ow_tendermint_address env.is_url (tendermint_address_or_default address) ≡ true
      → to_hex env address (signing b t)
        ≡ env.transfer.to_hex_linear_fee
            (record { incomplete_hex = some t; fee_config = fee })
            (tendermint_address_or_default address)
            (get_rust_features_from_env env.node_env)
  unfolding to_hex verify is_completed
  to_hex-signing address b t fee inputs_ne outputs_ne linear parsed completed verified a =
      ground arith

  -- A builder with inputs and outputs that is not being signed yet, and whose inputs from the first
  -- on are signed with key pairs that may sign them, exports: if the native module builds the
  -- transaction, signs it with each key pair in turn, and holds the result to be completed and
  -- valid, then `toHex` with an address that passes the check returns what the native module makes
  -- of the result.
  pub to_hex-complete_transfer :
      (b : TransferTransactionBuilder B) (k : KeyPair) (ks : List KeyPair) (first last : Buffer)
      (fee : NativeFeeConfig) (address : Option String)
      → b.inputs ≢ []
      → b.outputs ≢ []
      → b.incomplete_hex ≡ none
      → is_linear_fee b.network.fee_config.algorithm ≡ true
      → parse_fee_config_for_native env.big b.network.fee_config ≡ ok fee
      → MaySignAll 0 (k ∷ ks) b
      → build_incomplete_hex env b ≡ ok first
      → SignsAll fee 0 (k ∷ ks) first last
      → env.transfer.is_completed_linear_fee
          (record { incomplete_hex = some last; fee_config = fee })
        ≡ ok true
      → env.transfer.verify_linear_fee (record { incomplete_hex = some last; fee_config = fee })
        ≡ ok tt
      → ow_tendermint_address env.is_url (tendermint_address_or_default address) ≡ true
      → to_hex env address (run env (sign_inputs 0 (k ∷ ks)) b)
        ≡ env.transfer.to_hex_linear_fee
            (record { incomplete_hex = some last; fee_config = fee })
            (tendermint_address_or_default address)
            (get_rust_features_from_env env.node_env)
  to_hex-complete_transfer b k ks first last fee address inputs_ne outputs_ne fresh linear parsed
        may built signed completed verified a =
      ap (to_hex env address) (
        run-sign_inputs 0 k ks b first last fee may linear parsed
          (to_incomplete_hex-unsigned b fresh ∙ built) signed)
      ∙ to_hex-signing address b last fee inputs_ne outputs_ne linear parsed completed verified a
