-- ===== src/MultiSig/Builder.antt =====
-- lib/src/multi_sig/multi_sig_builder.ts: the parties of a multi-signature address, its creation and
-- the sessions of its holder.
use chain_nodelib.Prelude.{
  ℕ, ◌+◌, ◌≤◌, ◌<◌, String, ◌≡◌, ◌↔◌, true, Option, none, some, List, [], ◌∷◌, ◌++◌, arith, length,
  length-append, length-map, map, leb,
}
use chain_nodelib.Method.{Result, ok, ow, and_then, Method, pure, query, lift, modify, ◌>>=◌, ◌>>◌}
use chain_nodelib.Number.{Number, whole, fraction, negative, at_least, at_most}
use chain_nodelib.Buffer.{Buffer}
use chain_nodelib.Network.{ow_network_enum}
use chain_nodelib.Types.{validate_transfer_address}
use chain_nodelib.Native.{AddressNative}
use chain_nodelib.KeyPair.{KeyPair}
use chain_nodelib.MultiSig.{MultiSigNative}
use chain_nodelib.MultiSig.Session.{MultiSigSession, new_session}

pub record MultiSigBuilder : Type 0 where
  pub key_pair : KeyPair
  pub network : String
  pub signer_public_keys : List (Option Buffer)
  pub required_signer_number : Number
  pub multi_sig_address : Option String

-- The keys of the other signers and behind them the own one.
abbrev all_keys : KeyPair → List Buffer → List (Option Buffer)
all_keys self_key_pair co_signer_public_keys =
    map some co_signer_public_keys ++ self_key_pair.inner_public_key ∷ []

-- the fields that the constructor sets
abbrev initial : KeyPair → List Buffer → String → Number → MultiSigBuilder
initial self_key_pair co_signer_public_keys network required_signer_number = record {
  key_pair = self_key_pair;
  network = network;
  signer_public_keys = all_keys self_key_pair co_signer_public_keys;
  required_signer_number = required_signer_number;
  multi_sig_address = none;
}

-- the constructor; its checks read no field that they set but the keys
unfoldable pub new_builder : KeyPair → List Buffer → String → Number → Result MultiSigBuilder
new_builder self_key_pair co_signer_public_keys network required_signer_number =
    and_then (ow (ow_network_enum network)) λ _.
      and_then (ow (leb 1 (length co_signer_public_keys))) λ _.
        and_then (ow (at_least 1 required_signer_number)) λ _.
          and_then
            (ow (
              at_most (length (all_keys self_key_pair co_signer_public_keys))
                required_signer_number))
            λ _. ok (initial self_key_pair co_signer_public_keys network required_signer_number)

module _ (address_native : AddressNative) (native : MultiSigNative) where
  pub create_multi_sig_address : Method MultiSigBuilder String
  create_multi_sig_address = do
    query λ b. ow (leb 2 (length b.signer_public_keys))
    address ← query λ b.
        native.create_address b.signer_public_keys b.key_pair.inner_public_key
          b.required_signer_number b.network
    lift (ow (validate_transfer_address address_native.is_transfer_address_valid address))
    modify λ b. record b { multi_sig_address = some address }
    pure address

  unfoldable pub create_new_session : String → MultiSigBuilder → Result MultiSigSession
  create_new_session message b = new_session native message b.key_pair b.signer_public_keys

abbrev pub IsRequired : Number → ℕ → Type 0
IsRequired (whole n) most = (1 ≤ n) × (n ≤ most)
IsRequired (fraction n) most = (1 ≤ n) × (n < most)
IsRequired negative most = ⊥

length-all_keys : (k : KeyPair) (co : List Buffer) → length (all_keys k co) ≡ length co + 1
length-all_keys k co = omega (
  arith,
  length-append (map some co) (k.inner_public_key ∷ []),
  length-map {0, 0} {A = Buffer} some co,
)

-- A builder is made exactly when the network is a variant, there is another signer and the number of
-- required signers lies between 1 and the number of signers; it may be a fraction.
pub new_builder_iff :
    (k : KeyPair) (co : List Buffer) (network : String) (required : Number)
    → ((b : MultiSigBuilder) × (new_builder k co network required ≡ ok b))
      ↔ ((ow_network_enum network ≡ true) × (1 ≤ length co) × IsRequired required (length co + 1))
unfolding new_builder
new_builder_iff k co network (whole n) = (
  λ h. ground (arith, length-all_keys k co),
  λ h. (initial k co network (whole n), ground (arith, length-all_keys k co)),
)
new_builder_iff k co network (fraction n) = (
  λ h. ground (arith, length-all_keys k co),
  λ h. (initial k co network (fraction n), ground (arith, length-all_keys k co)),
)
new_builder_iff k co network negative = (λ h. absurd (ground arith), λ h. absurd h.2)

-- What the exchanges of a session start from.
pub create_new_session-fresh :
    (address_native : AddressNative) (native : MultiSigNative) (k : KeyPair) (co : List Buffer)
    (network : String) (required : Number) (b : MultiSigBuilder) (message : String)
    (s : MultiSigSession)
    → new_builder k co network required ≡ ok b
    → create_new_session address_native native message b ≡ ok s
    → (length s.signer_public_keys ≡ length co + 1)
      × (s.message ≡ message)
      × (s.signer_public_keys ≡ b.signer_public_keys)
      × (s.co_signer_nonce_commitments ≡ [])
      × (s.co_signer_nonces ≡ [])
      × (s.co_signer_signatures ≡ [])
unfolding new_builder create_new_session new_session
create_new_session-fresh address_native native k co network required b message s e h =
    ground (arith, length-all_keys k co)
