-- ===== src/MultiSig.antt =====
-- lib/src/multi_sig: the native functions of multi-signatures, which are a parameter of the model,
-- and the caches of `Buffer` objects. The session and the builder are the modules below.
pub mod Cache
pub mod Session
pub mod Builder
pub mod Protocol
use chain_nodelib.Prelude.{ℕ, String, Bool, true, false, ◌||◌, Option, List, [], ◌∷◌, ◌==◌}
use chain_nodelib.Method.{Result}
use chain_nodelib.Number.{Number}
use chain_nodelib.Buffer.{Buffer}

-- A `Buffer` with its identity: two objects may hold the same bytes.
pub record BufferObject : Type 0 where
  pub identity : ℕ
  pub content : Buffer

-- `cache.indexOf(buffer) > -1`: `indexOf` compares objects by `===`, that is by identity
unfoldable pub has_object : List BufferObject → BufferObject → Bool
has_object [] x = false
has_object (y ∷ ys) x = y.identity == x.identity || has_object ys x

-- A result that comes with the session after it.
pub record WithSession : Type 0 where
  pub value : Buffer
  pub incomplete_session : Buffer

-- `native.multiSig`
pub record MultiSigNative : Type 0 where
  pub create_address : List (Option Buffer) → Option Buffer → Number → String → Result String
  pub new_session : String → List (Option Buffer) → Option Buffer → Option Buffer → Result Buffer
  pub generate_nonce_commitment : Buffer → Result WithSession
  pub add_nonce_commitment : Buffer → Buffer → Buffer → Result Buffer
  pub generate_nonce : Buffer → Result WithSession
  pub add_nonce : Buffer → Buffer → Buffer → Result Buffer
  pub partial_sign : Buffer → Result WithSession
  pub add_partial_signature : Buffer → Buffer → Buffer → Result Buffer
  pub sign : Buffer → Result Buffer
  pub verify : Buffer → String → List (Option Buffer) → Result Bool
