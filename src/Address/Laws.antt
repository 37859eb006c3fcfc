-- ===== src/Address/Laws.antt =====
-- Key pairs and their addresses.
use chain_nodelib.Prelude.{◌≡◌, true, arith}
use chain_nodelib.Method.{ok, err, thrown}
use chain_nodelib.Buffer.{Buffer}
use chain_nodelib.BigNumber.{BigNumbers}
use chain_nodelib.Network.{NetworkConfig, ow_network_config}
use chain_nodelib.Native.{AddressNative, KeyPairNative, PublicKeys}
use chain_nodelib.KeyPair.{KeyPair, new_key_pair, has_public_key, has_private_key, from_private_key}
use chain_nodelib.Address.{public_key, key_pair, transfer, staking}

module _ {B : Type 0} (big : BigNumbers B) (address : AddressNative) (keys : KeyPairNative) where
  -- The addresses of a key pair that was made of a private key are those of the public key which the
  -- native module derives of the private key, and the pair has both keys.
  transfer-from_private_key :
      (private : Buffer) (k : KeyPair) (network : NetworkConfig B)
      → from_private_key keys private ≡ ok k
      → (pair : PublicKeys) × (keys.get_public_keys_from_private_key private ≡ ok pair)
        × (has_private_key k ≡ true)
        × (has_public_key k ≡ true)
        × (transfer big address (record { source = key_pair k; network = network })
            ≡ transfer big address
                (record { source = public_key pair.public_key; network = network }))
        × (staking address (key_pair k) ≡ staking address (public_key pair.public_key))
  unfolding from_private_key has_private_key has_public_key transfer staking
  transfer-from_private_key private k network e = ground arith

  -- A key pair without a public key has neither address, in any network that passes the check.
  pub transfer-missing_key :
      (network : NetworkConfig B)
      → ow_network_config big network ≡ true
      → (transfer big address (record { source = key_pair new_key_pair; network = network })
          ≡ err (thrown "Missing public key in KeyPair"))
        × (staking address (key_pair new_key_pair) ≡ err (thrown "Missing public key in KeyPair"))
  unfolding transfer staking
  transfer-missing_key network e = ground arith
