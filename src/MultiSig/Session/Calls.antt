-- ===== src/MultiSig/Session/Calls.antt =====
-- Sequences of calls on a session.
use chain_nodelib.Prelude.{List, [], ◌∷◌}
use chain_nodelib.Buffer.{Buffer}
use chain_nodelib.MultiSig.{BufferObject, MultiSigNative}
use chain_nodelib.MultiSig.Session.{
  MultiSigSession, generate_nonce_commitment, add_nonce_commitment, generate_nonce, add_nonce,
  partial_sign, add_partial_signature, sign,
}

pub data Call : Type 0 where
  generates_nonce_commitment : Call
  adds_nonce_commitment : Buffer → BufferObject → Call
  generates_nonce : Call
  adds_nonce : Buffer → BufferObject → Call
  partial_signs : Call
  adds_partial_signature : Buffer → BufferObject → Call
  signs : Call

module _ (native : MultiSigNative) where
  -- The session after a call, also where the call throws.
  unfoldable pub step : Call → MultiSigSession → MultiSigSession
  step generates_nonce_commitment s = (generate_nonce_commitment native s).1
  step (adds_nonce_commitment key c) s = (add_nonce_commitment native key c s).1
  step generates_nonce s = (generate_nonce native s).1
  step (adds_nonce key n) s = (add_nonce native key n s).1
  step partial_signs s = (partial_sign native s).1
  step (adds_partial_signature key x) s = (add_partial_signature native key x s).1
  step signs s = (sign native s).1

  unfoldable pub run : List Call → MultiSigSession → MultiSigSession
  run [] s = s
  run (c ∷ cs) s = run cs (step c s)
