-- ===== src/KeyPair.antt =====
-- lib/src/key_pair/key_pair.ts: a public key, with or without its private key.
use chain_nodelib.Prelude.{Bool, Option, none, some, is_some}
use chain_nodelib.Method.{Result, ok, and_then}
use chain_nodelib.Buffer.{Buffer}
use chain_nodelib.Native.{NativeKeyPair, PublicKeys, KeyPairNative}

-- The fields of `new KeyPair()` are `undefined`.
pub record KeyPair : Type 0 where
  pub inner_public_key : Option Buffer
  pub inner_compressed_public_key : Option Buffer
  pub inner_private_key : Option Buffer

abbrev pub new_key_pair : KeyPair
new_key_pair = record {
  inner_public_key = none;
  inner_compressed_public_key = none;
  inner_private_key = none;
}

abbrev add_private_key : Buffer → KeyPair → KeyPair
add_private_key private_key k = record k { inner_private_key = some private_key }

abbrev add_public_key : PublicKeys → KeyPair → KeyPair
add_public_key keys k = record k {
  inner_public_key = some keys.public_key;
  inner_compressed_public_key = some keys.compressed_public_key;
}

unfoldable pub has_public_key : KeyPair → Bool
has_public_key k = is_some k.inner_public_key

unfoldable pub has_private_key : KeyPair → Bool
has_private_key k = is_some k.inner_private_key

abbrev pub public_key : KeyPair → Option Buffer
public_key k = k.inner_public_key

abbrev pub compressed_public_key : KeyPair → Option Buffer
compressed_public_key k = k.inner_compressed_public_key

abbrev pub private_key : KeyPair → Option Buffer
private_key k = k.inner_private_key

abbrev pub to_object : KeyPair → NativeKeyPair
to_object k = record {
  private_key = private_key k;
  compressed_public_key = compressed_public_key k;
  public_key = public_key k;
}

module _ (native : KeyPairNative) where
  unfoldable pub from_public_key : Buffer → Result KeyPair
  from_public_key any_public_key = and_then (native.verify_public_key any_public_key) λ _.
      and_then (native.get_public_keys_from_any_public_key any_public_key)
        λ keys. ok (add_public_key keys new_key_pair)

  unfoldable pub from_private_key : Buffer → Result KeyPair
  from_private_key private_key = and_then (native.verify_private_key private_key) λ _.
      and_then (native.get_public_keys_from_private_key private_key)
        λ keys. ok (add_public_key keys (add_private_key private_key new_key_pair))

  -- The argument is what `native.keyPair.newPrivateKey()` answered.
  unfoldable pub generate_random : Result Buffer → Result KeyPair
  unfolding from_private_key
  generate_random new_private_key =
      and_then new_private_key λ private_key. from_private_key private_key
