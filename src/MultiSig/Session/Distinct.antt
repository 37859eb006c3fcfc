-- ===== src/MultiSig/Session/Distinct.antt =====
-- The `Buffer` objects that a session collects are distinct.
use chain_nodelib.Prelude.{ℕ, String, ◌≡◌, refl, false, Option, List, [], ◌∷◌, ◌++◌, arith, ◌==◌}
use chain_nodelib.Method.{ok, ◌>>=◌}
use chain_nodelib.Buffer.{Buffer}
use chain_nodelib.KeyPair.{KeyPair}
use chain_nodelib.MultiSig.{BufferObject, has_object, MultiSigNative}
use chain_nodelib.MultiSig.Session.{
  MultiSigSession, new_session, generate_nonce_commitment, add_nonce_commitment, generate_nonce,
  add_nonce, partial_sign, add_partial_signature, sign,
}
use chain_nodelib.MultiSig.Session.Calls.{
  Call, adds_nonce_commitment, adds_nonce, adds_partial_signature, step, run,
}

-- No object stands in the list twice; the same bytes may.
abbrev pub IsDistinct : List BufferObject → Type 0
IsDistinct [] = Unit
IsDistinct (x ∷ xs) = (has_object xs x ≡ false) × IsDistinct xs

-- No object of the second list stands in the first.
abbrev pub AreNew : List BufferObject → List BufferObject → Type 0
AreNew xs [] = Unit
AreNew xs (y ∷ ys) = (has_object xs y ≡ false) × AreNew xs ys

pub same_sym : (a b : ℕ) → (a == b) ≡ (b == a)
same_sym a b = ground arith

has_object-concat :
    (xs : List BufferObject) (y z : BufferObject)
    → has_object xs z ≡ false
    → (y.identity == z.identity) ≡ false
    → has_object (xs ++ y ∷ []) z ≡ false
unfolding has_object
has_object-concat [] y z h e = ground arith
has_object-concat (x ∷ xs) y z h e = ground (arith, has_object-concat xs y z)

IsDistinct-concat :
    (xs : List BufferObject) (y : BufferObject)
    → IsDistinct xs
    → has_object xs y ≡ false
    → IsDistinct (xs ++ y ∷ [])
unfolding has_object
IsDistinct-concat [] y d h = (refl, tt)
IsDistinct-concat (x ∷ xs) y (new, d) h =
    ground (
      arith,
      IsDistinct-concat xs y d,
      has_object-concat xs y x new,
      same_sym x.identity y.identity,
    )

pub AreNew-concat :
    (xs : List BufferObject) (x : BufferObject) (ys : List BufferObject)
    → AreNew xs ys
    → has_object ys x ≡ false
    → AreNew (xs ++ x ∷ []) ys
unfolding has_object
AreNew-concat xs x [] n h = tt
AreNew-concat xs x (y ∷ ys) (new, n) h =
    ground
      (arith, AreNew-concat xs x ys n, has_object-concat xs x y new, same_sym x.identity y.identity)

pub AreNew-nil : (ys : List BufferObject) → AreNew [] ys
unfolding has_object
AreNew-nil [] = tt
AreNew-nil (y ∷ ys) = (refl, AreNew-nil ys)

-- What is collected holds no object twice.
pub record HoldsDistinct (s : MultiSigSession) : Type 0 where
  pub commitments : IsDistinct s.co_signer_nonce_commitments
  pub nonces : IsDistinct s.co_signer_nonces
  pub signatures : IsDistinct s.co_signer_signatures

module _ (native : MultiSigNative) where
  step-HoldsDistinct :
      (c : Call) (s : MultiSigSession) → HoldsDistinct s → HoldsDistinct (step native c s)
  unfolding step generate_nonce_commitment add_nonce_commitment generate_nonce add_nonce
      partial_sign add_partial_signature sign ◌>>=◌
  step-HoldsDistinct (adds_nonce_commitment key x) s h =
      ground (arith, IsDistinct-concat s.co_signer_nonce_commitments x h.commitments)
  step-HoldsDistinct (adds_nonce key x) s h =
      ground (arith, IsDistinct-concat s.co_signer_nonces x h.nonces)
  step-HoldsDistinct (adds_partial_signature key x) s h =
      ground (arith, IsDistinct-concat s.co_signer_signatures x h.signatures)
  step-HoldsDistinct _ s h = ground arith

  run-HoldsDistinct :
      (cs : List Call) (s : MultiSigSession) → HoldsDistinct s → HoldsDistinct (run native cs s)
  unfolding run
  run-HoldsDistinct [] s h = h
  run-HoldsDistinct (c ∷ cs) s h = run-HoldsDistinct cs (step native c s) (step-HoldsDistinct c s h)

  -- After any calls on a new session, failing ones included, no `Buffer` object has been collected
  -- twice as a nonce commitment, as a nonce or as a partial signature.
  run-new_session-HoldsDistinct :
      (message : String) (k : KeyPair) (keys : List (Option Buffer)) (s : MultiSigSession)
      (cs : List Call)
      → new_session native message k keys ≡ ok s
      → HoldsDistinct (run native cs s)
  unfolding new_session
  run-new_session-HoldsDistinct message k keys s cs e = run-HoldsDistinct cs s (ground arith)
