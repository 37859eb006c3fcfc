-- ===== src/Address.antt =====
-- lib/src/address: the transfer and the staking address of a public key or a key pair.
pub mod Laws
use chain_nodelib.Prelude.{String, Option, none, some}
use chain_nodelib.Method.{Result, ok, err, ow, require, and_then, type_error}
use chain_nodelib.Buffer.{Buffer}
use chain_nodelib.BigNumber.{BigNumbers}
use chain_nodelib.Network.{NetworkConfig, ow_network_config}
use chain_nodelib.Native.{AddressNative}
use chain_nodelib.KeyPair.{KeyPair, has_public_key}

-- The two shapes of options that the check of `options` admits.
pub data PublicKeySource : Type 0 where
  public_key : Buffer → PublicKeySource
  key_pair : KeyPair → PublicKeySource

abbrev defined_key : Option Buffer → Result Buffer
defined_key none = err type_error
defined_key (some key) = ok key

pub source_key : PublicKeySource → Result Buffer
unfolding has_public_key
source_key (public_key key) = ok key
source_key (key_pair k) =
    and_then (require (has_public_key k) "Missing public key in KeyPair")
      λ _. defined_key k.inner_public_key

pub record TransferOptions (B : Type 0) : Type 0 where
  pub source : PublicKeySource
  pub network : NetworkConfig B

unfoldable pub transfer :
    {B : Type 0} → BigNumbers B → AddressNative → TransferOptions B → Result String
unfolding source_key
transfer big native options = and_then (ow (ow_network_config big options.network)) λ _.
    and_then (source_key options.source)
      λ key. native.get_transfer_address_from_public_key key options.network.name

unfoldable pub staking : AddressNative → PublicKeySource → Result String
unfolding source_key
staking native source =
    and_then (source_key source) λ key. native.get_staking_address_from_public_key key
