-- ===== src/Client/Matches.antt =====
-- When the expectations on a transaction hold.
use chain_nodelib.Prelude.{
  ℕ, zero, suc, ◌≡◌, ◌↔◌, ◌⊎◌, refl, ap, String, Bool, true, false, Option, none, some, List, [],
  ◌∷◌, length, arith, eq_iff, ==_iff, inl, inr, str_eq, if◌then◌else◌,
}
use chain_nodelib.Number.{Number, whole, fraction, negative}
use chain_nodelib.Client.{Failure, Outcome, fulfilled, rejected, pending}
use chain_nodelib.Client.Assertion.{
  TransactionChangeKind, incoming, outgoing, TransactionChangeOutputAssertion, TransactionAssertion,
  RpcTransactionChangeOutput, RpcTransactionChange, same_kind, is_whole, then_expect, when,
  expect_eq, expect_valid_from, expect_output, expect_outputs, expect_all_outputs, expect_tx_id,
  expect_transaction_should_eq,
}

module _ {A B C D : Type 0} where
  both : (A ↔ B) → (C ↔ D) → (A × C) ↔ (B × D)
  both (f, g) (h, k) = (λ (a, c). (f a, h c), λ (b, d). (g b, k d))

through : {A B C : Type 0} → (A ↔ B) → (B ↔ C) → A ↔ C
through (f, g) (h, k) = (λ a. h (f a), λ c. g (k c))

same : {A : Type 0} → A ↔ A
same = (λ a. a, λ a. a)

swap : {A B : Type 0} → (A × B) ↔ (B × A)
swap = (λ (a, b). (b, a), λ (b, a). (a, b))

flat : {A B C : Type 0} → (A × (B × C)) ↔ (A × B × C)
flat = (λ (a, (b, c)). (a, b, c), λ (a, b, c). (a, (b, c)))

flat4 : {A B C D : Type 0} → (A × (B × (C × D))) ↔ (A × B × C × D)
flat4 = (λ (a, (b, (c, d))). (a, b, c, d), λ (a, b, c, d). (a, (b, (c, d))))

-- Nothing is expected of an empty text.
abbrev pub AgreesText : String → String → Type 0
AgreesText expected actual = (expected ≡ "") ⊎ (actual ≡ expected)

-- Nor of the time 0.
abbrev pub AgreesTime : Option ℕ → Number → Type 0
AgreesTime none actual = Unit
AgreesTime (some zero) actual = Unit
AgreesTime (some (suc n)) actual = actual ≡ whole (suc n)

abbrev pub AgreesId : Option String → String → Type 0
AgreesId none actual = Unit
AgreesId (some tx_id) actual = AgreesText tx_id actual

then_iff :
    (r next : Outcome (Unit {0}))
    → (then_expect r next ≡ fulfilled tt) ↔ ((r ≡ fulfilled tt) × (next ≡ fulfilled tt))
then_iff (fulfilled u) next = (λ h. (refl, h), λ h. h.1)
then_iff (rejected e) next = (λ h. cc, λ h. cc)
then_iff pending next = (λ h. cc, λ h. cc)

same_kind_iff : (k l : TransactionChangeKind) → (same_kind k l ≡ true) ↔ (k ≡ l)
same_kind_iff incoming incoming = (λ _. refl, λ _. refl)
same_kind_iff incoming outgoing = ground arith
same_kind_iff outgoing incoming = ground arith
same_kind_iff outgoing outgoing = (λ _. refl, λ _. refl)

is_whole_iff : (k : ℕ) (n : Number) → (is_whole k n ≡ true) ↔ (n ≡ whole k)
is_whole_iff k (whole n) = ground arith
is_whole_iff k (fraction n) = ground arith
is_whole_iff k negative = ground arith

bool_absurd : {A : Type 0} → false ≡ true → A
bool_absurd h = cc

when_iff :
    (blank : Bool) (r : Outcome (Unit {0})) {Q P : Type 0}
    → (blank ≡ true) ↔ Q
    → (r ≡ fulfilled tt) ↔ P
    → (when (if blank then false else true) r ≡ fulfilled tt) ↔ (Q ⊎ P)
when_iff true r e h = (λ _. inl (e.0 refl), λ _. refl)
when_iff false r e h =
    (λ q. inr (h.0 q), λ s. elim s [ inl q ↦ bool_absurd (e.1 q) | inr p ↦ h.1 p ])

module _ (assertion_error : List ℕ → Failure) where
  expect_eq_iff :
      (b : Bool) (message : List ℕ)
      → (expect_eq assertion_error b message ≡ fulfilled tt) ↔ (b ≡ true)
  expect_eq_iff true message = (λ _. refl, λ _. refl)
  expect_eq_iff false message = (λ h. cc, λ h. cc)

  expect_text_iff :
      (actual expected : String) (message : List ℕ)
      → (expect_eq assertion_error (str_eq actual expected) message ≡ fulfilled tt)
        ↔ (actual ≡ expected)
  expect_text_iff actual expected message =
      through (expect_eq_iff _ message) (eq_iff actual expected)

module _ {B : Type 0} (to_number : B → Number) (stringify : RpcTransactionChange B → List ℕ)
    (assertion_error : List ℕ → Failure) (type_error : Failure) where
  -- An output has the address, the time and the value.
  abbrev pub AgreesOutput : TransactionChangeOutputAssertion → RpcTransactionChangeOutput B → Type 0
  AgreesOutput expected actual =
      (actual.address ≡ expected.address)
      × AgreesTime expected.valid_from (to_number actual.valid_from)
      × (actual.value ≡ expected.value)

  -- The outputs agree one by one, and there are as many.
  abbrev pub AgreeOutputs :
      List TransactionChangeOutputAssertion → List (RpcTransactionChangeOutput B) → Type 0
  AgreeOutputs [] [] = Unit
  AgreeOutputs [] (a ∷ as_) = ⊥
  AgreeOutputs (e ∷ es) [] = ⊥
  AgreeOutputs (e ∷ es) (a ∷ as_) = AgreesOutput e a × AgreeOutputs es as_

  abbrev pub AgreeAllOutputs :
      Option (List TransactionChangeOutputAssertion) → List (RpcTransactionChangeOutput B) → Type 0
  AgreeAllOutputs none actual = Unit
  AgreeAllOutputs (some expected) actual = AgreeOutputs expected actual

  time_iff :
      (v : Option ℕ) (actual : B) (message : List ℕ)
      → (expect_valid_from to_number stringify assertion_error type_error v actual message
          ≡ fulfilled tt)
        ↔ AgreesTime v (to_number actual)
  time_iff none actual message = (λ _. tt, λ _. refl)
  time_iff (some zero) actual message = (λ _. tt, λ _. refl)
  time_iff (some (suc n)) actual message =
      through (expect_eq_iff assertion_error _ message) (is_whole_iff (suc n) (to_number actual))

  output_iff :
      (tx : RpcTransactionChange B) (i : ℕ) (e : TransactionChangeOutputAssertion)
      (a : RpcTransactionChangeOutput B)
      → (expect_output to_number stringify assertion_error type_error tx i e a ≡ fulfilled tt)
        ↔ AgreesOutput e a
  output_iff tx i e a =
      through
        (through (then_iff _ _) (
          both (expect_text_iff assertion_error a.address e.address _) (
            through (then_iff _ _) (
              both (time_iff e.valid_from a.valid_from _)
                (expect_text_iff assertion_error a.value e.value _)))))
        flat

  outputs_iff :
      (tx : RpcTransactionChange B) (i : ℕ) (es : List TransactionChangeOutputAssertion)
      (as_ : List (RpcTransactionChangeOutput B))
      → ((expect_outputs to_number stringify assertion_error type_error tx i es as_ ≡ fulfilled tt)
          × (length as_ ≡ length es))
        ↔ AgreeOutputs es as_
  unfolding expect_outputs
  outputs_iff tx i [] [] = (λ _. tt, λ _. (refl, refl))
  outputs_iff tx i [] (a ∷ as_) = (λ h. omega (arith, h.1), λ h. absurd h)
  outputs_iff tx i (e ∷ es) [] = (λ h. omega (arith, h.1), λ h. absurd h)
  outputs_iff tx i (e ∷ es) (a ∷ as_) =
      let rest = outputs_iff tx (suc i) es as_ in
      let first = output_iff tx i e a in
      (
        λ h.
            let parts = (then_iff _ _).0 h.0 in
            (first.0 parts.0, rest.0 (parts.1, omega (arith, h.1))),
        λ h. let below = rest.1 h.1 in ((then_iff _ _).1 (first.1 h.0, below.0), ap suc below.1),
      )

  all_outputs_iff :
      (outputs : Option (List TransactionChangeOutputAssertion)) (tx : RpcTransactionChange B)
      → (expect_all_outputs to_number stringify assertion_error type_error outputs tx
          ≡ fulfilled tt)
        ↔ AgreeAllOutputs outputs tx.outputs
  all_outputs_iff none tx = (λ _. tt, λ _. refl)
  all_outputs_iff (some es) tx = through (then_iff _ _) (
      through
        (both (through (expect_eq_iff assertion_error _ _) (==_iff (length tx.outputs) (length es)))
          same)
        (through swap (outputs_iff tx 0 es tx.outputs)))

  tx_id_iff :
      (tx_id : Option String) (tx : RpcTransactionChange B)
      → (expect_tx_id to_number stringify assertion_error type_error tx_id tx ≡ fulfilled tt)
        ↔ AgreesId tx_id tx.transaction_id
  tx_id_iff none tx = (λ _. tt, λ _. refl)
  tx_id_iff (some tx_id) tx =
      when_iff (str_eq tx_id "") _ (eq_iff tx_id "")
        (expect_text_iff assertion_error tx.transaction_id tx_id _)

  -- The expectations on a transaction hold exactly where it has the kind, the outputs one by one if
  -- some are expected, and the transaction id and the value unless the expected text is empty; the
  -- time 0 of an output is not compared.
  pub expect_transaction_should_eq_iff :
      (expected : TransactionAssertion) (actual : RpcTransactionChange B)
      → (expect_transaction_should_eq to_number stringify assertion_error type_error expected actual
          ≡ fulfilled tt)
        ↔ ((actual.kind ≡ expected.kind)
            × AgreeAllOutputs expected.outputs actual.outputs
            × AgreesId expected.tx_id actual.transaction_id
            × AgreesText expected.value actual.value)
  unfolding expect_transaction_should_eq
  expect_transaction_should_eq_iff expected actual =
      through
        (through (then_iff _ _) (
          both
            (through (expect_eq_iff assertion_error _ _) (same_kind_iff actual.kind expected.kind))
            (through (then_iff _ _) (
              both (all_outputs_iff expected.outputs actual) (
                through (then_iff _ _) (
                  both (tx_id_iff expected.tx_id actual) (
                    when_iff (str_eq expected.value "") _ (eq_iff expected.value "")
                      (expect_text_iff assertion_error actual.value expected.value _))))))))
        flat4
