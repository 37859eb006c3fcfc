-- ===== src/Transaction/Unbond/Signing.antt =====
-- What an unbond builder gives out before and after it is signed.
use chain_nodelib.Prelude.{◌≡◌, refl, true, ◌++◌, arith, Option, List, [], ◌∷◌}
use chain_nodelib.Method.{ok, err, thrown, and_then-eq-ok, ow}
use chain_nodelib.Native.{Env, RawTx}
use chain_nodelib.KeyPair.{KeyPair, to_object}
use chain_nodelib.Transaction.{unbond_prefix}
use chain_nodelib.Transaction.Unbond.{
  UnbondTransactionBuilderOptions, UnbondTransactionBuilder, ow_options, build_raw, new_builder,
  sign, is_completed, tx_id, to_unsigned_hex, to_hex,
}

module _ {B : Type 0} (env : Env B) where
  -- The builder after it was signed with each of the key pairs, in order.
  abbrev pub signed : List KeyPair → UnbondTransactionBuilder B → UnbondTransactionBuilder B
  signed [] b = b
  signed (k ∷ ks) b = signed ks (sign env k b)

  -- Signing keeps all but the key pair.
  signed-keeps :
      (ks : List KeyPair) (b : UnbondTransactionBuilder B)
      → (key_pair : Option KeyPair) × (signed ks b ≡ record b { key_pair = key_pair })
  unfolding sign
  signed-keeps [] b = (b.key_pair, refl)
  signed-keeps (k ∷ ks) b = signed-keeps ks (sign env k b)

  -- A builder `b` that was made of `options`.
  pub record IsUnbond (options : UnbondTransactionBuilderOptions B) (b : UnbondTransactionBuilder B)
      : Type 0 where
    pub checked : ow_options env options ≡ true
    pub raw : RawTx
    pub built : build_raw env options ≡ ok raw
    pub unsigned : to_unsigned_hex env b ≡ unbond_prefix ++ raw.unsigned_raw_tx
    pub id : tx_id env b ≡ raw.tx_id
    pub refuses : to_hex env b ≡ err (thrown "Transaction builder is not completed")
    pub id_signed : (ks : List KeyPair) → tx_id env (signed ks b) ≡ raw.tx_id
    pub unsigned_signed :
        (ks : List KeyPair)
        → to_unsigned_hex env (signed ks b) ≡ unbond_prefix ++ raw.unsigned_raw_tx
    pub completed :
        (k : KeyPair) (ks : List KeyPair) → is_completed env (sign env k (signed ks b)) ≡ true
    pub exports_last :
        (k : KeyPair) (ks : List KeyPair)
        → to_hex env (sign env k (signed ks b))
          ≡ env.staking.unbond_transaction_to_hex raw.unsigned_raw_tx (to_object k)

  -- A new unbond builder rests on options that pass the checks and on the raw transaction which the
  -- native module builds of them; it refuses to export before it is signed, and once it was signed,
  -- one or more times, it is completed and exports that raw transaction with the key pair that signed
  -- last; signing any number of times changes neither the id nor the unsigned form.
  pub new_builder-IsUnbond :
      (options : UnbondTransactionBuilderOptions B) (b : UnbondTransactionBuilder B)
      → new_builder env options ≡ ok b
      → IsUnbond options b
  unfolding new_builder to_hex is_completed tx_id to_unsigned_hex sign
  new_builder-IsUnbond options b e =
      let (_, checked, e') = and_then-eq-ok (ow (ow_options env options)) _ e in
      let (raw, built, e'') = and_then-eq-ok (build_raw env options) _ e' in
      record {
        checked = ground arith;
        raw = raw;
        built = built;
        unsigned = ground arith;
        id = ground arith;
        refuses = ground arith;
        id_signed = λ ks. let (_, e) = signed-keeps ks b in ground arith;
        unsigned_signed = λ ks. let (_, e) = signed-keeps ks b in ground arith;
        completed = λ k ks. refl;
        exports_last = λ k ks. let (_, e) = signed-keeps ks b in ground arith;
      }
