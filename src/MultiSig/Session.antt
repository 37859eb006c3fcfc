-- ===== src/MultiSig/Session.antt =====
-- lib/src/multi_sig/multi_sig_session.ts: a session in which several parties sign a message. The
-- proofs are in the modules below.
pub mod Calls
pub mod Order
pub mod View
pub mod Exchange
pub mod Distinct
pub mod Phases
pub mod Complete
pub mod Collecting
use chain_nodelib.Prelude.{
  ℕ, ◌+◌, String, Bool, true, false, not, ◌&&◌, Option, none, some, List, [], ◌∷◌, ◌++◌, length,
  all, is_some, ◌==◌, leb, ltb, str_eq,
}
use chain_nodelib.Method.{
  Result, ok, err, thrown, ow, require, and_then, Method, pure, query, modify, ◌>>=◌, ◌>>◌,
}
use chain_nodelib.Buffer.{Buffer}
use chain_nodelib.KeyPair.{KeyPair}
use chain_nodelib.MultiSig.{BufferObject, has_object, WithSession, MultiSigNative}

pub record MultiSigSession : Type 0 where
  pub message : String
  pub key_pair : KeyPair
  pub signer_public_keys : List (Option Buffer)
  pub session : Buffer
  pub nonce_commitment : Option Buffer
  pub co_signer_nonce_commitments : List BufferObject
  pub nonce : Option Buffer
  pub co_signer_nonces : List BufferObject
  pub partial_signature : Option Buffer
  pub co_signer_signatures : List BufferObject
  pub signature : Option Buffer

-- `ow.string.not.empty`
abbrev pub ow_not_empty : String → Bool
ow_not_empty message = not (str_eq message "")

abbrev ow_multi_sig_session_not_empty : Buffer → Bool
ow_multi_sig_session_not_empty session = ltb 0 (length session)

abbrev has_collected : List BufferObject → MultiSigSession → Bool
has_collected collected s = length collected + 1 == length s.signer_public_keys

module _ (native : MultiSigNative) where
  -- the constructor
  unfoldable pub new_session : String → KeyPair → List (Option Buffer) → Result MultiSigSession
  new_session message self_key_pair signer_public_keys = and_then (ow (ow_not_empty message)) λ _.
      and_then (ow (leb 2 (length signer_public_keys) && all is_some signer_public_keys)) λ _.
        and_then
          (native.new_session message signer_public_keys self_key_pair.inner_public_key
            self_key_pair.inner_private_key)
          λ session. ok (record {
            message = message;
            key_pair = self_key_pair;
            signer_public_keys = signer_public_keys;
            session = session;
            nonce_commitment = none;
            co_signer_nonce_commitments = [];
            nonce = none;
            co_signer_nonces = [];
            partial_signature = none;
            co_signer_signatures = [];
            signature = none;
          })

  pub get_raw_session : MultiSigSession → Result Buffer
  get_raw_session s = and_then (ow (ow_multi_sig_session_not_empty s.session)) λ _. ok s.session

  pub get_message : MultiSigSession → Result String
  get_message s = and_then (ow (ow_not_empty s.message)) λ _. ok s.message

  pub generate_nonce_commitment : Method MultiSigSession Buffer
  generate_nonce_commitment = do
    generated ← query λ s. native.generate_nonce_commitment s.session
    modify λ s. record s {
      nonce_commitment = some generated.value;
      session = generated.incomplete_session;
    }
    pure generated.value

  pub add_nonce_commitment : Buffer → BufferObject → Method MultiSigSession Buffer
  add_nonce_commitment public_key commitment = do
    query λ s.
        require (not (has_object s.co_signer_nonce_commitments commitment))
          "This co-signer's nonce commitment has already been added"
    session ← query λ s. native.add_nonce_commitment s.session public_key commitment.content
    modify λ s. record s {
      session = session;
      co_signer_nonce_commitments = s.co_signer_nonce_commitments ++ commitment ∷ [];
    }
    pure session

  unfoldable pub generate_nonce : Method MultiSigSession Buffer
  generate_nonce = do
    query λ s.
        require (has_collected s.co_signer_nonce_commitments s)
          "Nonce can be generated only after all co-signer's nonce commitment are added"
    generated ← query λ s. native.generate_nonce s.session
    modify λ s. record s { nonce = some generated.value; session = generated.incomplete_session }
    pure generated.value

  pub add_nonce : Buffer → BufferObject → Method MultiSigSession Buffer
  add_nonce public_key nonce = do
    query λ s.
        require (not (has_object s.co_signer_nonces nonce))
          "This co-signer's nonce has already been added"
    session ← query λ s. native.add_nonce s.session public_key nonce.content
    modify λ s. record s { session = session; co_signer_nonces = s.co_signer_nonces ++ nonce ∷ [] }
    pure session

  pub partial_sign : Method MultiSigSession Buffer
  partial_sign = do
    query λ s.
        require (has_collected s.co_signer_nonces s)
          "Session can be partially signed only after all co-signer's nonces are added"
    generated ← query λ s. native.partial_sign s.session
    modify λ s. record s {
      partial_signature = some generated.value;
      session = generated.incomplete_session;
    }
    pure generated.value

  pub add_partial_signature : Buffer → BufferObject → Method MultiSigSession Buffer
  add_partial_signature public_key signature = do
    query λ s.
        require (not (has_object s.co_signer_signatures signature))
          "This co-signer's signature has already been added"
    session ← query λ s. native.add_partial_signature s.session public_key signature.content
    modify λ s. record s {
      session = session;
      co_signer_signatures = s.co_signer_signatures ++ signature ∷ [];
    }
    pure session

  unfoldable pub sign : Method MultiSigSession Buffer
  sign = do
    query λ s.
        require (has_collected s.co_signer_signatures s)
          "Session can be final signed only after all co-signer's partial signatures are added"
    signature ← query λ s. native.sign s.session
    modify λ s. record s { signature = some signature }
    pure signature

  -- the signature given, or else that of the session
  abbrev signature_or : Option Buffer → Option Buffer → Result Buffer
  signature_or (some given) own = ok given
  signature_or none (some own) = ok own
  signature_or none none = err (thrown "Current signature is not ready for verification")

  pub verify : Option Buffer → MultiSigSession → Result Bool
  verify given s =
      and_then (signature_or given s.signature)
        λ signature. native.verify signature s.message s.signer_public_keys
