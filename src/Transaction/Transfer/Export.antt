-- ===== src/Transaction/Transfer/Export.antt =====
-- What a transfer builder has established when it signs an input or gives out a transaction.
use chain_nodelib.Prelude.{
  ℕ, ◌≡◌, ◌≢◌, refl, String, true, Option, some, [], arith, get_elem?, eq_iff, Option-cases, inl,
  inr,
}
use chain_nodelib.Method.{Result, ok, ◌>>=◌, Result-cases}
use chain_nodelib.Number.{Number, whole, fraction, negative}
use chain_nodelib.Buffer.{Buffer}
use chain_nodelib.Fee.{NativeFeeConfig, parse_fee_config_for_native}
use chain_nodelib.Types.{Input}
use chain_nodelib.Native.{Env, get_rust_features_from_env}
use chain_nodelib.KeyPair.{KeyPair, has_private_key}
use chain_nodelib.Address
use chain_nodelib.Transaction.{tendermint_address_or_default}
use chain_nodelib.Transaction.Transfer.{
  TransferTransactionBuilder, sign_input, to_hex, verify, is_completed,
}
use chain_nodelib.Transaction.Transfer.Current.{Derived, IsCurrent}
use chain_nodelib.Transaction.Transfer.Calls.{contents}

module _ {B : Type 0} (env : Env B) where
  abbrev pub address_of : KeyPair → TransferTransactionBuilder B → Result String
  address_of key_pair b =
      Address.transfer env.big env.address
        (record { source = Address.key_pair key_pair; network = b.network })

  -- The index names an input, which the address of the key pair unlocks.
  pub record MaySign (index : Number) (key_pair : KeyPair) (b : TransferTransactionBuilder B)
      : Type 0 where
    pub position : ℕ
    pub is_position : index ≡ whole position
    pub input : Input B
    pub found : get_elem? b.inputs position ≡ some input
    pub has_key : has_private_key key_pair ≡ true
    pub unlocks : address_of key_pair b ≡ ok input.prev_output.address

  -- A call of `signInput` that returns was made with the index of an input and with a key pair that
  -- has a private key and whose transfer address in the network of the builder is the address of
  -- that input's previous output.
  pub sign_input-MaySign :
      (index : Number) (key_pair : KeyPair) (b : TransferTransactionBuilder B)
      → (sign_input env index key_pair b).0 ≡ ok tt
      → MaySign index key_pair b
  unfolding sign_input ◌>>=◌
  sign_input-MaySign (whole n) key_pair b h = elim (Option-cases (get_elem? b.inputs n)) [
    | inl missing ↦ absurd (ground arith)
    | inr (input, found) ↦ elim (Result-cases (address_of key_pair b)) [
      | inl (address, e) ↦ record {
        position = n;
        is_position = refl;
        input = input;
        found = found;
        has_key = ground arith;
        unlocks = ground (arith, eq_iff input.prev_output.address address);
      }
      | inr (x, e) ↦ absurd (ground arith)
    ]
  ]
  sign_input-MaySign (fraction n) key_pair b h = absurd (ground arith)
  sign_input-MaySign negative key_pair b h = absurd (ground arith)

  -- What a transaction that is given out rests on.
  pub record IsExported (address : Option String) (b : TransferTransactionBuilder B) (hex : Buffer)
      : Type 0 where
    pub has_inputs : b.inputs ≢ []
    pub has_outputs : b.outputs ≢ []
    pub transaction : Buffer
    pub signed : b.incomplete_hex ≡ some transaction
    pub derived : Derived env (contents b) transaction
    pub fee : NativeFeeConfig
    pub parsed : parse_fee_config_for_native env.big b.network.fee_config ≡ ok fee
    pub completed :
        env.transfer.is_completed_linear_fee
          (record { incomplete_hex = some transaction; fee_config = fee })
        ≡ ok true
    pub verified :
        env.transfer.verify_linear_fee
          (record { incomplete_hex = some transaction; fee_config = fee })
        ≡ ok tt
    pub exported :
        env.transfer.to_hex_linear_fee
          (record { incomplete_hex = some transaction; fee_config = fee })
          (tendermint_address_or_default address)
          (get_rust_features_from_env env.node_env)
        ≡ ok hex

  -- Where the signing state is current, a call of `toHex` that returns was made on a builder with
  -- inputs and outputs whose transaction comes from the present contents, is completed and verified
  -- by the native module, and it returns what the native module exports of that transaction.
  pub to_hex-IsExported :
      (address : Option String) (b : TransferTransactionBuilder B) (hex : Buffer)
      → IsCurrent env b
      → to_hex env address b ≡ ok hex
      → IsExported address b hex
  unfolding to_hex verify is_completed
  to_hex-IsExported address b hex c h = ground arith
