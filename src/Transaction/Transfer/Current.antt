-- ===== src/Transaction/Transfer/Current.antt =====
-- The signing state of a transfer builder belongs to its present contents.
use chain_nodelib.Prelude.{
  ◌≡◌, refl, Option, none, some, List, [], ◌∷◌, arith, Bool-cases, ◌⊎◌, inl, inr,
}
use chain_nodelib.Method.{
  Result, ok, err, Error, Method, Result-cases, and_then, and_then-eq-ok, modify, ◌>>=◌,
}
use chain_nodelib.Method.Keeps.{after_query, after_lift}
use chain_nodelib.Number.{Number}
use chain_nodelib.Buffer.{Buffer}
use chain_nodelib.Fee.{NativeFeeConfig, is_linear_fee}
use chain_nodelib.Types.{Input, Output}
use chain_nodelib.Native.{Env, NativeKeyPair}
use chain_nodelib.KeyPair.{KeyPair, to_object}
use chain_nodelib.Transaction.Transfer.Calls.{
  Call, adds_input, adds_output, adds_view_key, signs_input, adds_witness, contents, step, run,
}
use chain_nodelib.Transaction.Transfer.{
  TransferTransactionBuilder, TransferTransactionBuilderOptions, new_builder, add_input, add_output,
  add_view_key, sign_input, add_witness, build_incomplete_hex, prepare_from,
  prepare_incomplete_signing_hex, sign_with, witness_with, if_linear_fee, native_fee,
}

module _ {B : Type 0} (env : Env B) where
  -- What the native module makes of the contents `c`: the transaction that it builds from them,
  -- and what it makes of such a transaction by a signature or a witness.
  pub data Derived (c : TransferTransactionBuilder B) : Buffer → Type 0 where
    built : {hex : Buffer} → build_incomplete_hex env c ≡ ok hex → Derived c hex
    signed :
        {hex next : Buffer} (fee : NativeFeeConfig) (index : Number) (keys : NativeKeyPair)
        → Derived c hex
        → env.transfer.sign_input_linear_fee
            (record { incomplete_hex = some hex; fee_config = fee })
            index
            keys
          ≡ ok next
        → Derived c next
    witnessed :
        {hex next : Buffer} (fee : NativeFeeConfig) (index : Number) (witness : Buffer)
        → Derived c hex
        → env.transfer.add_input_witness_linear_fee
            (record { incomplete_hex = some hex; fee_config = fee })
            index
            witness
          ≡ ok next
        → Derived c next

  abbrev DerivedIfAny : TransferTransactionBuilder B → Option Buffer → Type 0
  DerivedIfAny c none = Unit
  DerivedIfAny c (some hex) = Derived c hex

  -- The signing state, where there is one, comes from the present contents.
  abbrev pub IsCurrent : TransferTransactionBuilder B → Type 0
  IsCurrent b = DerivedIfAny (contents b) b.incomplete_hex

  add_input-IsCurrent :
      (x : Input B) (b : TransferTransactionBuilder B)
      → IsCurrent b
      → IsCurrent (add_input env x b).1
  unfolding add_input ◌>>=◌
  add_input-IsCurrent x b h = ground arith

  add_output-IsCurrent :
      (x : Output B) (b : TransferTransactionBuilder B)
      → IsCurrent b
      → IsCurrent (add_output env x b).1
  unfolding add_output ◌>>=◌
  add_output-IsCurrent x b h = ground arith

  add_view_key-IsCurrent :
      (x : Buffer) (b : TransferTransactionBuilder B)
      → IsCurrent b
      → IsCurrent (add_view_key env x b).1
  unfolding add_view_key ◌>>=◌
  add_view_key-IsCurrent x b h = ground arith

  -- Preparing either answers a derived transaction, which it has stored, or throws and writes nothing.
  abbrev Prepares :
      TransferTransactionBuilder B → Result Buffer × TransferTransactionBuilder B → Type 0
  Prepares b answer =
      ((hex : Buffer) × (answer ≡ (ok hex, record b { incomplete_hex = some hex }))
        × Derived (contents b) hex)
      ⊎ ((e : Error) × (answer ≡ (err e, b)))

  prepare_from-Prepares :
      (b : TransferTransactionBuilder B) (o : Option Buffer)
      → DerivedIfAny (contents b) o
      → Prepares
          (record b { incomplete_hex = o })
          (prepare_from env o (record b { incomplete_hex = o }))
  unfolding ◌>>=◌
  prepare_from-Prepares b (some hex) h = inl (hex, refl, h)
  prepare_from-Prepares b none h = elim (Result-cases (build_incomplete_hex env (contents b))) [
    | inl (hex, e) ↦ inl (hex, rw e, built e)
    | inr (x, e) ↦ inr (x, rw e)
  ]

  prepare-Prepares :
      (b : TransferTransactionBuilder B)
      → IsCurrent b
      → Prepares b (prepare_incomplete_signing_hex env b)
  unfolding prepare_incomplete_signing_hex
  prepare-Prepares b h = prepare_from-Prepares b b.incomplete_hex h

  -- What follows a preparation may rely on the derived transaction.
  after_prepare :
      (k : Buffer → Method (TransferTransactionBuilder B) Unit) (b : TransferTransactionBuilder B)
      → IsCurrent b
      → ((hex : Buffer)
          → Derived (contents b) hex
          → IsCurrent (k hex (record b { incomplete_hex = some hex })).1)
      → IsCurrent ((prepare_incomplete_signing_hex env >>= k) b).1
  unfolding ◌>>=◌
  after_prepare k b h g = elim (prepare-Prepares b h) [
    | inl (hex, e, d) ↦ rw e (g hex d)
    | inr (x, e) ↦ rw e h
  ]

  -- What a body behind the test of the fee algorithm answers.
  pub if_linear_fee-eq-ok :
      {A : Type 0} (b : TransferTransactionBuilder B) (body : NativeFeeConfig → Result A) (a : A)
      → if_linear_fee env b (and_then (native_fee env b) body) ≡ ok a
      → (fee : NativeFeeConfig) × (native_fee env b ≡ ok fee) × (body fee ≡ ok a)
  if_linear_fee-eq-ok b body a h =
      elim (Bool-cases (is_linear_fee b.network.fee_config.algorithm)) [
        | inl linear ↦ and_then-eq-ok (native_fee env b) body (rw linear at h)
        | inr bare ↦ absurd (ground arith)
      ]

  sign_with-IsCurrent :
      (index : Number) (keys : KeyPair) (hex : Buffer) (b : TransferTransactionBuilder B)
      → Derived (contents b) hex
      → IsCurrent b
      → IsCurrent (sign_with env index keys hex b).1
  unfolding sign_with
  sign_with-IsCurrent index keys hex b d h = after_query IsCurrent _ _ b h λ next e.
      let (fee, _, e') = if_linear_fee-eq-ok b _ next e in
      unfold modify in signed fee index (to_object keys) d e'

  witness_with-IsCurrent :
      (index : Number) (witness : Buffer) (hex : Buffer) (b : TransferTransactionBuilder B)
      → Derived (contents b) hex
      → IsCurrent b
      → IsCurrent (witness_with env index witness hex b).1
  unfolding witness_with
  witness_with-IsCurrent index witness hex b d h = after_query IsCurrent _ _ b h λ next e.
      let (fee, _, e') = if_linear_fee-eq-ok b _ next e in
      unfold modify in witnessed fee index witness d e'

  sign_input-IsCurrent :
      (index : Number) (keys : KeyPair) (b : TransferTransactionBuilder B)
      → IsCurrent b
      → IsCurrent (sign_input env index keys b).1
  unfolding sign_input
  sign_input-IsCurrent index keys b h = after_query IsCurrent _ _ b h λ _ _.
      after_lift IsCurrent _ _ b h λ _ _. after_query IsCurrent _ _ b h λ _ _.
        after_query IsCurrent _ _ b h λ _ _.
          after_lift IsCurrent _ _ b h
            λ _ _. after_prepare _ b h λ hex d. sign_with-IsCurrent index keys hex _ d d

  add_witness-IsCurrent :
      (index : Number) (witness : Buffer) (b : TransferTransactionBuilder B)
      → IsCurrent b
      → IsCurrent (add_witness env index witness b).1
  unfolding add_witness
  add_witness-IsCurrent index witness b h =
      after_query IsCurrent _ _ b h
        λ _ _. after_prepare _ b h λ hex d. witness_with-IsCurrent index witness hex _ d d

  step-IsCurrent :
      (c : Call B) (b : TransferTransactionBuilder B) → IsCurrent b → IsCurrent (step env c b)
  unfolding step
  step-IsCurrent (adds_input input) b h = add_input-IsCurrent input b h
  step-IsCurrent (adds_output output) b h = add_output-IsCurrent output b h
  step-IsCurrent (adds_view_key key) b h = add_view_key-IsCurrent key b h
  step-IsCurrent (signs_input index keys) b h = sign_input-IsCurrent index keys b h
  step-IsCurrent (adds_witness index witness) b h = add_witness-IsCurrent index witness b h

  run-IsCurrent :
      (cs : List (Call B)) (b : TransferTransactionBuilder B)
      → IsCurrent b
      → IsCurrent (run env cs b)
  unfolding run
  run-IsCurrent [] b h = h
  run-IsCurrent (c ∷ cs) b h = run-IsCurrent cs (step env c b) (step-IsCurrent c b h)

  new_builder-IsCurrent :
      (options : Option (TransferTransactionBuilderOptions B)) (b : TransferTransactionBuilder B)
      → new_builder env options ≡ ok b
      → IsCurrent b
  unfolding new_builder
  new_builder-IsCurrent options b e = ground arith

  -- After any calls on a new builder, failing ones included, a transaction that is being signed is
  -- one that the native module built from the present network, inputs, outputs and view keys, and
  -- then signed or witnessed: a change of the contents leaves no earlier signature behind.
  pub run-new_builder-IsCurrent :
      (options : Option (TransferTransactionBuilderOptions B)) (b : TransferTransactionBuilder B)
      (cs : List (Call B))
      → new_builder env options ≡ ok b
      → IsCurrent (run env cs b)
  run-new_builder-IsCurrent options b cs e = run-IsCurrent cs b (new_builder-IsCurrent options b e)
