-- ===== src/Transaction/Transfer/Signing.antt =====
-- Exactly what a call of `signInput` needs, and what it leaves behind.
use chain_nodelib.Prelude.{
  ◌≡◌, ◌↔◌, sym, ◌∙◌, true, some, arith, lt_of_get_elem?, ap, eq_iff, Bool-cases, inl, inr,
}
use chain_nodelib.Method.{Result, Error, ok, err, ◌>>=◌, Result-cases}
use chain_nodelib.Number.{Number}
use chain_nodelib.Buffer.{Buffer}
use chain_nodelib.Fee.{NativeFeeConfig, is_linear_fee, parse_fee_config_for_native}
use chain_nodelib.Native.{Env}
use chain_nodelib.KeyPair.{KeyPair, to_object}
use chain_nodelib.Transaction.Transfer.{
  TransferTransactionBuilder, sign_input, sign_with, prepare_incomplete_signing_hex,
  to_incomplete_hex,
}
use chain_nodelib.Transaction.Transfer.Export.{MaySign, sign_input-MaySign}

module _ {B : Type 0} (env : Env B) where
  -- The call is allowed, there is a transaction to sign (the one that is being signed, or else the
  -- one that the native module builds), and the native module signs it; then `c` is the builder
  -- with the signed transaction.
  pub record Signs (index : Number) (key_pair : KeyPair) (b c : TransferTransactionBuilder B)
      : Type 0 where
    pub allowed : MaySign env index key_pair b
    pub transaction : Buffer
    pub prepared : to_incomplete_hex env b ≡ ok transaction
    pub linear : is_linear_fee b.network.fee_config.algorithm ≡ true
    pub fee : NativeFeeConfig
    pub parsed : parse_fee_config_for_native env.big b.network.fee_config ≡ ok fee
    pub signed_transaction : Buffer
    pub signed :
        env.transfer.sign_input_linear_fee
          (record { incomplete_hex = some transaction; fee_config = fee })
          index
          (to_object key_pair)
        ≡ ok signed_transaction
    pub result : c ≡ record b { incomplete_hex = some signed_transaction }

  sign_with-signed :
      (index : Number) (key_pair : KeyPair) (b : TransferTransactionBuilder B)
      (transaction next : Buffer) (fee : NativeFeeConfig)
      → is_linear_fee b.network.fee_config.algorithm ≡ true
      → parse_fee_config_for_native env.big b.network.fee_config ≡ ok fee
      → env.transfer.sign_input_linear_fee
          (record { incomplete_hex = some transaction; fee_config = fee })
          index
          (to_object key_pair)
        ≡ ok next
      → sign_with env index key_pair transaction b
        ≡ (ok tt, record b { incomplete_hex = some next })
  unfolding sign_with ◌>>=◌
  sign_with-signed index key_pair b transaction next fee linear parsed signed = ground arith

  -- Preparing stores the transaction to sign.
  prepare-to_incomplete_hex :
      (b : TransferTransactionBuilder B) (transaction : Buffer)
      → to_incomplete_hex env b ≡ ok transaction
      → prepare_incomplete_signing_hex env b
        ≡ (ok transaction, record b { incomplete_hex = some transaction })
  unfolding prepare_incomplete_signing_hex to_incomplete_hex ◌>>=◌
  prepare-to_incomplete_hex b transaction e = ground arith

  prepare-failed :
      (b : TransferTransactionBuilder B) (x : Error)
      → to_incomplete_hex env b ≡ err x
      → prepare_incomplete_signing_hex env b ≡ (err x, b)
  unfolding prepare_incomplete_signing_hex to_incomplete_hex ◌>>=◌
  prepare-failed b x e = ground arith

  -- A call that passes the checks prepares and signs.
  sign_input-allowed :
      (index : Number) (key_pair : KeyPair) (b : TransferTransactionBuilder B)
      → MaySign env index key_pair b
      → sign_input env index key_pair b
        ≡ (prepare_incomplete_signing_hex env >>= sign_with env index key_pair) b
  unfolding sign_input ◌>>=◌
  sign_input-allowed index key_pair b m = ground (
    arith,
    m.is_position,
    lt_of_get_elem? b.inputs m.position m.found,
    eq_iff m.input.prev_output.address m.input.prev_output.address,
  )

  -- What the native module signs.
  abbrev signs : Number → KeyPair → Buffer → NativeFeeConfig → Result Buffer
  signs index key_pair transaction fee =
      env.transfer.sign_input_linear_fee
        (record { incomplete_hex = some transaction; fee_config = fee }) index (to_object key_pair)

  sign_with-inverse :
      (index : Number) (key_pair : KeyPair) (b c : TransferTransactionBuilder B)
      (transaction : Buffer)
      → sign_with env index key_pair transaction b ≡ (ok tt, c)
      → (fee : NativeFeeConfig) × (next : Buffer) × (is_linear_fee b.network.fee_config.algorithm
          ≡ true)
        × (parse_fee_config_for_native env.big b.network.fee_config ≡ ok fee)
        × (signs index key_pair transaction fee ≡ ok next)
        × (c ≡ record b { incomplete_hex = some next })
  unfolding sign_with ◌>>=◌
  sign_with-inverse index key_pair b c transaction e =
      elim (Bool-cases (is_linear_fee b.network.fee_config.algorithm)) [
        | inr bare ↦ absurd (ground arith)
        | inl linear ↦
            elim (Result-cases (parse_fee_config_for_native env.big b.network.fee_config)) [
              | inr (x, failed) ↦ absurd (ground arith)
              | inl (fee, parsed) ↦ elim (Result-cases (signs index key_pair transaction fee)) [
                | inr (x, failed) ↦ absurd (ground arith)
                | inl (next, signed) ↦ (fee, next, linear, parsed, signed, ground arith)
              ]
            ]
      ]

  -- A call of `signInput` returns and leaves the builder `c` exactly if `Signs` holds: the index is
  -- that of an input, the key pair has a private key and its transfer address in the network of the
  -- builder is that of the input, and `c` is the builder with what the native module signs.
  pub sign_input_iff :
      (index : Number) (key_pair : KeyPair) (b c : TransferTransactionBuilder B)
      → (sign_input env index key_pair b ≡ (ok tt, c)) ↔ Signs index key_pair b c
  unfolding ◌>>=◌
  sign_input_iff index key_pair b c = (forth, back)
    where
      forth : sign_input env index key_pair b ≡ (ok tt, c) → Signs index key_pair b c
      forth e =
          let allowed = sign_input-MaySign env index key_pair b (ap (λ r. r.0) e) in
          let run = sym (sign_input-allowed index key_pair b allowed) ∙ e in
          elim (Result-cases (to_incomplete_hex env b)) [
            | inr (x, failed) ↦ absurd (ground (arith, prepare-failed b x failed))
            | inl (transaction, prepared) ↦
                let start : TransferTransactionBuilder B = record b {
                  incomplete_hex = some transaction;
                } in
                let signing : sign_with env index key_pair transaction start ≡ (ok tt, c) =
                  ground (arith, prepare-to_incomplete_hex b transaction prepared) in
                let (fee, next, linear, parsed, signed, result) =
                  sign_with-inverse index key_pair start c transaction signing in
                record {
                  allowed = allowed;
                  transaction = transaction;
                  prepared = prepared;
                  linear = linear;
                  fee = fee;
                  parsed = parsed;
                  signed_transaction = next;
                  signed = signed;
                  result = result;
                }
          ]

      back : Signs index key_pair b c → sign_input env index key_pair b ≡ (ok tt, c)
      back s = ground (
        arith,
        sign_input-allowed index key_pair b s.allowed,
        prepare-to_incomplete_hex b s.transaction s.prepared,
        sign_with-signed index key_pair (record b { incomplete_hex = some s.transaction })
            s.transaction s.signed_transaction s.fee s.linear s.parsed s.signed,
      )
