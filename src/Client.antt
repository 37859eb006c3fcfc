-- ===== src/Client.antt =====
-- integration-tests/common: the clients that the integration tests talk to a node and to a wallet with.
-- The packages axios, lossless-json and bignumber.js, the clock and what JavaScript makes of a value
-- as a number or a text are a parameter; `W` is the state of the servers and of the clock. Texts are
-- lists of code points. What is written to the console is left out.
pub mod Rpc
pub mod Tendermint
pub mod Waits
pub mod Polling
pub mod Elapsed
pub mod Blocks
pub mod Wallet
pub mod Requests
pub mod Sending
pub mod Script
pub mod Balance
pub mod Assertion
pub mod Matches
pub mod Broadcast
pub mod Settings
use chain_nodelib.Prelude.{
  ℕ, zero, suc, ◌+◌, String, Bool, true, false, Option, List, [], ◌∷◌, ◌++◌, str_eq, not, is_empty,
  if◌then◌else◌, ◌==◌,
}
use chain_nodelib.Number.{Number, whole, fraction, negative}
use chain_nodelib.Buffer.{codes}

-- The values that `any` stands for.
mutual
  pub data Json : Type 0 where
    undefined null : Json
    boolean : Bool → Json
    number : Number → Json
    text : List ℕ → Json
    -- a `LosslessNumber`, and the `BigNumber` of a text
    lossless big_number : List ℕ → Json
    array : Items → Json
    object : Members → Json

  pub data Items : Type 0 where
    no_items : Items
    item : Json → Items → Items

  pub data Members : Type 0 where
    no_members : Members
    member : String → Json → Members → Members

-- What is thrown: an `Error` with its message, or another value.
pub data Failure : Type 0 where
  error : List ℕ → Failure
  value : Json → Failure

-- How a promise ends; `pending` when its loop has not ended in the rounds it was given.
pub data Outcome (A : Type 0) : Type 0 where
  fulfilled : A → Outcome A
  rejected : Failure → Outcome A
  pending : Outcome A

-- The body of a call by JSON-RPC 2.0.
pub record Body : Type 0 where
  pub id : ℕ
  pub method : String
  pub params : List Json

pub record Platform (W : Type 0) : Type 0 where
  -- `axios.get(url)` and `axios.post(url, body)`, with the `data` of the response
  pub get : List ℕ → W → Outcome Json × W
  pub post : List ℕ → Body → W → Outcome Json × W
  -- `axios.post(url, body, { transformResponse })`
  pub post_transformed : List ℕ → Body → (List ℕ → Json) → W → Outcome Json × W
  -- `LosslessJSON.parse(text, reviver)`
  pub parse : List ℕ → (Json → Json) → Json
  -- `Date.now()`, and the `setTimeout` of `sleep`
  pub now : W → ℕ
  pub wait : ℕ → W → W
  -- `new BigNumber(x).isGreaterThan(n)` and `isGreaterThanOrEqualTo(n)`
  pub is_greater_than : Json → ℕ → Bool
  pub is_greater_than_or_equal_to : Json → ℕ → Bool
  -- `Number(x)` where this is a natural number
  pub to_number : Json → Option ℕ
  -- a value in a template, and `JSON.stringify(x, null, '    ')`
  pub template : Json → List ℕ
  pub stringify : Json → List ℕ
  -- the message of the `TypeError` when a property of `undefined` or `null` is read
  pub type_error_message : List ℕ

abbrev pub Async : Type 0 → Type 0 → Type 0
Async S A = S → Outcome A × S

module _ {S A : Type 0} where
  unfoldable pub resolve : A → Async S A
  resolve a s = (fulfilled a, s)

  unfoldable pub settle : Outcome A → Async S A
  settle o s = (o, s)

  unfoldable pub gets : (S → A) → Async S A
  gets f s = (fulfilled (f s), s)

module _ {S : Type 0} where
  unfoldable pub modify : (S → S) → Async S (Unit {0})
  modify f s = (fulfilled tt, f s)

module _ {S A B : Type 0} where
  abbrev pub continue : (A → Async S B) → Outcome A → S → Outcome B × S
  continue f (fulfilled a) s = f a s
  continue f (rejected e) s = (rejected e, s)
  continue f pending s = (pending, s)

  infixl 5 ◌>>=◌ ◌>>◌
  unfoldable pub ◌>>=◌ : Async S A → (A → Async S B) → Async S B
  ◌>>=◌ m f s = continue f (m s).0 (m s).1

  abbrev pub ◌>>◌ : Async S A → Async S B → Async S B
  m >> n = m >>= λ _. n

abbrev pub truthy : Json → Bool
truthy undefined = false
truthy null = false
truthy (boolean b) = b
truthy (number (whole n)) = not (n == 0)
truthy (number (fraction n)) = true
truthy (number negative) = true
truthy (text cs) = not (is_empty cs)
truthy (lossless cs) = true
truthy (big_number cs) = true
truthy (array xs) = true
truthy (object ms) = true

abbrev pub lookup : String → Members → Json
lookup name no_members = undefined
lookup name (member key v ms) = if str_eq key name then v else lookup name ms

abbrev pub nth : Items → ℕ → Json
nth no_items i = undefined
nth (item x xs) zero = x
nth (item x xs) (suc i) = nth xs i

abbrev pub char_at : List ℕ → ℕ → Json
char_at [] i = undefined
char_at (c ∷ cs) zero = text (c ∷ [])
char_at (c ∷ cs) (suc i) = char_at cs i

-- The members are plain data, so a value of another kind has none of the names that are read.
abbrev pub property : String → Json → Json
property name (object ms) = lookup name ms
property name _ = undefined

abbrev pub is_nullish : Json → Bool
is_nullish undefined = true
is_nullish null = true
is_nullish _ = false

module _ {W : Type 0} (platform : Platform W) where
  -- `v.name`; `v?.name` is `property`
  abbrev pub read : String → Json → Outcome Json
  read name v =
      if is_nullish v
      then rejected (error platform.type_error_message)
      else fulfilled (property name v)

  -- `v[i]` of an array or a text
  abbrev pub read_item : ℕ → Json → Outcome Json
  read_item i (array xs) = fulfilled (nth xs i)
  read_item i (text cs) = fulfilled (char_at cs i)
  read_item i undefined = rejected (error platform.type_error_message)
  read_item i null = rejected (error platform.type_error_message)
  read_item i _ = fulfilled undefined

  -- `${err.message}`
  abbrev pub message : Failure → List ℕ
  message (error m) = m
  message (value v) = platform.template (property "message" v)

  -- `sleep` in common/utils.ts
  unfoldable pub sleep : ℕ → Async W (Unit {0})
  sleep ms w = (fulfilled tt, platform.wait ms w)

  abbrev pub recover : {A : Type 0} → String → Outcome A → Outcome A
  recover error_message (fulfilled a) = fulfilled a
  recover error_message (rejected e) =
      rejected (error (codes error_message ++ (codes ": " ++ message e)))
  recover error_message pending = pending

  unfoldable pub async_middleman : {S A : Type 0} → Async S A → String → Async S A
  async_middleman promise error_message s = (recover error_message (promise s).0, (promise s).1)
