-- ===== src/Client/Assertion.antt =====
-- integration-tests/common/assertion.ts. What `toNumber` makes of a `BigNumber`, the text of a
-- transaction in JSON, the error of a failed expectation of chai and a `TypeError` are parameters.
use chain_nodelib.Prelude.{
  ℕ, zero, suc, String, Bool, true, false, Option, none, some, List, [], ◌∷◌, ◌++◌, length, str_eq,
  if◌then◌else◌, ◌==◌,
}
use chain_nodelib.Number.{Number, whole, fraction, negative}
use chain_nodelib.Buffer.{codes}
use chain_nodelib.HdWallet.{number_text}
use chain_nodelib.Client.{Json, Failure, Outcome, fulfilled, rejected, pending}

pub data TransactionChangeKind : Type 0 where
  incoming outgoing : TransactionChangeKind

pub data TransactionType : Type 0 where
  withdraw transfer : TransactionType

-- A time is a whole number.
pub record TransactionChangeOutputAssertion : Type 0 where
  pub address : String
  pub valid_from : Option ℕ
  pub value : String

pub record TransactionAssertion : Type 0 where
  pub kind : TransactionChangeKind
  pub outputs : Option (List TransactionChangeOutputAssertion)
  pub tx_id : Option String
  pub value : String

pub record RpcTransactionChangeOutput (B : Type 0) : Type 0 where
  pub address : String
  pub valid_from : B
  pub value : String

pub record RpcTransactionChange (B : Type 0) : Type 0 where
  pub block_height : B
  pub block_time : String
  pub fee : String
  pub inputs : List Json
  pub kind : TransactionChangeKind
  pub outputs : List (RpcTransactionChangeOutput B)
  pub transaction_id : String
  pub transaction_type : TransactionType
  pub value : String

abbrev pub same_kind : TransactionChangeKind → TransactionChangeKind → Bool
same_kind incoming incoming = true
same_kind incoming outgoing = false
same_kind outgoing incoming = false
same_kind outgoing outgoing = true

-- `n === k`
abbrev pub is_whole : ℕ → Number → Bool
is_whole k (whole n) = n == k
is_whole k (fraction n) = false
is_whole k negative = false

abbrev pub then_expect : Outcome (Unit {0}) → Outcome (Unit {0}) → Outcome (Unit {0})
then_expect (fulfilled u) next = next
then_expect (rejected e) next = rejected e
then_expect pending next = pending

-- `if (test) { … }`
abbrev pub when : Bool → Outcome (Unit {0}) → Outcome (Unit {0})
when true body = body
when false body = fulfilled tt

-- a text that counts as true
abbrev pub is_given : String → Bool
is_given s = if str_eq s "" then false else true

module _ (assertion_error : List ℕ → Failure) where
  -- `expect(a).to.eq(b, message)`, the comparison given
  abbrev pub expect_eq : Bool → List ℕ → Outcome (Unit {0})
  expect_eq true message = fulfilled tt
  expect_eq false message = rejected (assertion_error message)

module _ {B : Type 0} (to_number : B → Number) (stringify : RpcTransactionChange B → List ℕ)
    (assertion_error : List ℕ → Failure) (type_error : Failure) where
  abbrev err_message : RpcTransactionChange B → List ℕ → List ℕ
  err_message actual msg = msg ++ (codes ": " ++ stringify actual)

  abbrev output_message : RpcTransactionChange B → ℕ → String → List ℕ
  output_message actual i what =
      err_message actual (codes "output " ++ (number_text i ++ codes what))

  abbrev pub expect_valid_from : Option ℕ → B → List ℕ → Outcome (Unit {0})
  expect_valid_from none actual message = fulfilled tt
  expect_valid_from (some zero) actual message = fulfilled tt
  expect_valid_from (some (suc n)) actual message =
      expect_eq assertion_error (is_whole (suc n) (to_number actual)) message

  abbrev pub expect_output :
      RpcTransactionChange B
      → ℕ
      → TransactionChangeOutputAssertion
      → RpcTransactionChangeOutput B
      → Outcome (Unit {0})
  expect_output actual i expected_output actual_output =
      then_expect
        (expect_eq assertion_error (str_eq actual_output.address expected_output.address)
          (output_message actual i " address mismatch"))
        (then_expect
          (expect_valid_from expected_output.valid_from actual_output.valid_from
            (output_message actual i " valid from mismatch"))
          (expect_eq assertion_error (str_eq actual_output.value expected_output.value)
            (output_message actual i " value mismatch")))

  -- the loop from an index on
  unfoldable pub expect_outputs :
      RpcTransactionChange B
      → ℕ
      → List TransactionChangeOutputAssertion
      → List (RpcTransactionChangeOutput B)
      → Outcome (Unit {0})
  expect_outputs actual i [] outputs = fulfilled tt
  expect_outputs actual i (e ∷ es) [] = rejected type_error
  expect_outputs actual i (e ∷ es) (a ∷ as_) =
      then_expect (expect_output actual i e a) (expect_outputs actual (suc i) es as_)

  abbrev pub expect_all_outputs :
      Option (List TransactionChangeOutputAssertion) → RpcTransactionChange B → Outcome (Unit {0})
  expect_all_outputs none actual = fulfilled tt
  expect_all_outputs (some outputs) actual =
      then_expect
        (expect_eq assertion_error (length actual.outputs == length outputs)
          (codes "outputs length mismatch"))
        (expect_outputs actual 0 outputs actual.outputs)

  abbrev pub expect_tx_id : Option String → RpcTransactionChange B → Outcome (Unit {0})
  expect_tx_id none actual = fulfilled tt
  expect_tx_id (some tx_id) actual = when (is_given tx_id) (
      expect_eq assertion_error (str_eq actual.transaction_id tx_id)
        (err_message actual (codes "transaction id mismatch")))

  unfoldable pub expect_transaction_should_eq :
      TransactionAssertion → RpcTransactionChange B → Outcome (Unit {0})
  expect_transaction_should_eq expected actual =
      then_expect
        (expect_eq assertion_error (same_kind actual.kind expected.kind)
          (err_message actual (codes "transaction kind mismatch")))
        (then_expect (expect_all_outputs expected.outputs actual) (
          then_expect (expect_tx_id expected.tx_id actual) (
            when (is_given expected.value) (
              expect_eq assertion_error (str_eq actual.value expected.value)
                (err_message actual (codes "transaction value mismatch"))))))
