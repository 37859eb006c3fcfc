-- ===== src/Method.antt =====
-- What the methods of the library's classes do: they read and write the fields of `this` and may
-- throw. What was written before a throw stays written, so the state comes back beside the error.
pub mod Keeps
use chain_nodelib.Prelude.{String, ◌≡◌, refl, Bool, true, false, ◌⊎◌, inl, inr}

pub data Error : Type 0 where
  -- `ow` refuses an argument
  argument : Error
  -- `throw new Error(message)`
  thrown : String → Error
  -- a property of `undefined` is read
  type_error : Error
  -- raised inside the native module
  native : String → Error

pub data Result {ℓ} (A : Type ℓ) : Type ℓ where
  ok : A → Result A
  err : Error → Result A

-- `ow(value, predicate)`, the predicate's answer given.
abbrev pub ow : Bool → Result (Unit {0})
ow true = ok tt
ow false = err argument

-- `if (!test) { throw new Error(message) }`
abbrev pub require : Bool → String → Result (Unit {0})
require true message = ok tt
require false message = err (thrown message)

abbrev pub and_then {ℓ κ} : {A : Type ℓ} {B : Type κ} → Result A → (A → Result B) → Result B
and_then (ok a) f = f a
and_then (err e) f = err e

abbrev pub Method : Type 0 → Type 0 → Type 0
Method S A = S → Result A × S

module _ {S A : Type 0} where
  unfoldable pub pure : A → Method S A
  pure a s = (ok a, s)

  unfoldable pub lift : Result A → Method S A
  lift r s = (r, s)

  -- a method that reads `this` and writes nothing
  unfoldable pub query : (S → Result A) → Method S A
  query f s = (f s, s)

  unfoldable pub gets : (S → A) → Method S A
  gets f s = (ok (f s), s)

module _ {S : Type 0} where
  unfoldable pub modify : (S → S) → Method S (Unit {0})
  modify f s = (ok tt, f s)

module _ {S A B : Type 0} where
  abbrev pub continue : (A → Method S B) → Result A → S → Result B × S
  continue f (ok a) s = f a s
  continue f (err e) s = (err e, s)

  infixl 5 ◌>>=◌ ◌>>◌
  -- opening this opens the single steps too
  unfoldable pub ◌>>=◌ : Method S A → (A → Method S B) → Method S B
  unfolding pure lift query gets modify
  ◌>>=◌ m f s = continue f (m s).0 (m s).1

  abbrev pub ◌>>◌ : Method S A → Method S B → Method S B
  m >> n = m >>= λ _. n

-- To split on what a call answers.
pub Result-cases {ℓ} :
    {A : Type ℓ} (r : Result A) → ((a : A) × (r ≡ ok a)) ⊎ ((e : Error) × (r ≡ err e))
Result-cases (ok a) = inl (a, refl)
Result-cases (err e) = inr (e, refl)

-- Inversion of a chain that answers.
pub and_then-eq-ok {ℓ κ} :
    {A : Type ℓ} {B : Type κ} (r : Result A) (f : A → Result B) {b : B}
    → and_then r f ≡ ok b
    → (a : A) × (r ≡ ok a) × (f a ≡ ok b)
and_then-eq-ok (ok a) f h = (a, refl, h)
and_then-eq-ok (err e) f h = cc
