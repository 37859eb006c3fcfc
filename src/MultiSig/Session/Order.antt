-- ===== src/MultiSig/Session/Order.antt =====
-- The order of the phases of a session.
use chain_nodelib.Prelude.{
  ◌+◌, ◌≤◌, String, ◌≡◌, ◌≢◌, none, Option, List, [], ◌∷◌, arith, length, length-concat,
}
use chain_nodelib.Method.{Error, Result, ok, err, ◌>>=◌}
use chain_nodelib.Buffer.{Buffer}
use chain_nodelib.KeyPair.{KeyPair}
use chain_nodelib.MultiSig.{BufferObject, MultiSigNative}
use chain_nodelib.MultiSig.Session.{
  MultiSigSession, new_session, generate_nonce_commitment, add_nonce_commitment, generate_nonce,
  add_nonce, partial_sign, add_partial_signature, sign,
}
use chain_nodelib.MultiSig.Session.Calls.{
  Call, generates_nonce_commitment, adds_nonce_commitment, generates_nonce, adds_nonce,
  partial_signs, adds_partial_signature, signs, step, run,
}

-- As many values have been collected as there are other signers, or more.
abbrev pub Covers : List BufferObject → MultiSigSession → Type 0
Covers collected s = length s.signer_public_keys ≤ length collected + 1

-- A value that was generated rests on what had to be collected before it.
pub record IsOrdered (s : MultiSigSession) : Type 0 where
  pub nonce_after : s.nonce ≢ none → Covers s.co_signer_nonce_commitments s
  pub partial_after : s.partial_signature ≢ none → Covers s.co_signer_nonces s
  pub signature_after : s.signature ≢ none → Covers s.co_signer_signatures s

module _ (native : MultiSigNative) where
  step-IsOrdered : (c : Call) (s : MultiSigSession) → IsOrdered s → IsOrdered (step native c s)
  unfolding step generate_nonce_commitment add_nonce_commitment generate_nonce add_nonce
      partial_sign add_partial_signature sign ◌>>=◌
  step-IsOrdered generates_nonce_commitment s h = ground arith
  step-IsOrdered (adds_nonce_commitment key x) s h =
      ground (arith, length-concat s.co_signer_nonce_commitments x)
  step-IsOrdered generates_nonce s h = ground arith
  step-IsOrdered (adds_nonce key x) s h = ground (arith, length-concat s.co_signer_nonces x)
  step-IsOrdered partial_signs s h = ground arith
  step-IsOrdered (adds_partial_signature key x) s h =
      ground (arith, length-concat s.co_signer_signatures x)
  step-IsOrdered signs s h = ground arith

  run-IsOrdered : (cs : List Call) (s : MultiSigSession) → IsOrdered s → IsOrdered (run native cs s)
  unfolding run
  run-IsOrdered [] s h = h
  run-IsOrdered (c ∷ cs) s h = run-IsOrdered cs (step native c s) (step-IsOrdered c s h)

  -- After any calls on a new session, failing ones included, a nonce was generated only if at least as
  -- many nonce commitments were added as there are other signers, a partial signature only if as
  -- many nonces were, and the signature only if as many partial signatures were.
  pub run-new_session-IsOrdered :
      (message : String) (k : KeyPair) (keys : List (Option Buffer)) (s : MultiSigSession)
      (cs : List Call)
      → new_session native message k keys ≡ ok s
      → IsOrdered (run native cs s)
  unfolding new_session
  run-new_session-IsOrdered message k keys s cs e = run-IsOrdered cs s (ground arith)

  -- What a call answers.
  abbrev pub answer : Call → MultiSigSession → Result Buffer
  answer generates_nonce_commitment s = (generate_nonce_commitment native s).0
  answer (adds_nonce_commitment key c) s = (add_nonce_commitment native key c s).0
  answer generates_nonce s = (generate_nonce native s).0
  answer (adds_nonce key n) s = (add_nonce native key n s).0
  answer partial_signs s = (partial_sign native s).0
  answer (adds_partial_signature key x) s = (add_partial_signature native key x s).0
  answer signs s = (sign native s).0

  -- A call that throws leaves the session as it was, whichever call it is and whatever it throws.
  step_failed :
      (c : Call) (s : MultiSigSession) (e : Error) → answer c s ≡ err e → step native c s ≡ s
  unfolding step generate_nonce_commitment add_nonce_commitment generate_nonce add_nonce
      partial_sign add_partial_signature sign ◌>>=◌
  step_failed generates_nonce_commitment s e h = ground arith
  step_failed _ s e h = ground arith
