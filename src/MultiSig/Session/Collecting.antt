-- ===== src/MultiSig/Session/Collecting.antt =====
-- What a session collects from the other signers, and when it may go on.
use chain_nodelib.Prelude.{
  ◌+◌, ◌<◌, String, ◌≡◌, ap, Option, List, [], ◌∷◌, arith, length, length-append, length-concat,
}
use chain_nodelib.Method.{ok, err, thrown, and_then, ◌>>=◌}
use chain_nodelib.Buffer.{Buffer}
use chain_nodelib.KeyPair.{KeyPair}
use chain_nodelib.MultiSig.{BufferObject, MultiSigNative}
use chain_nodelib.MultiSig.Session.{
  MultiSigSession, new_session, generate_nonce_commitment, add_nonce_commitment, generate_nonce,
  add_nonce, partial_sign, add_partial_signature, sign,
}
use chain_nodelib.MultiSig.Session.Calls.{Call, adds_nonce_commitment, step, run}
use chain_nodelib.MultiSig.Session.Distinct.{IsDistinct, AreNew, AreNew-nil}
use chain_nodelib.MultiSig.Session.Phases.{
  commitments, calls, objects, length-objects, all_added, commitments-IsPhase, run-calls,
}

module _ (native : MultiSigNative) where
  generate_nonce_collected :
      (s : MultiSigSession)
      → length s.co_signer_nonce_commitments + 1 ≡ length s.signer_public_keys
      → (generate_nonce native s).0
        ≡ and_then (native.generate_nonce s.session) (λ generated. ok generated.value)
  unfolding generate_nonce ◌>>=◌
  generate_nonce_collected s h = ground arith

  new_session-starts :
      (message : String) (k : KeyPair) (keys : List (Option Buffer)) (s : MultiSigSession)
      → new_session native message k keys ≡ ok s
      → (s.co_signer_nonce_commitments ≡ []) × (s.signer_public_keys ≡ keys)
  unfolding new_session
  new_session-starts message k keys s e = ground arith

  -- Adding to a new session as many distinct `Buffer` objects as there are other signers, with
  -- whatever keys and bytes, where the native module takes these one after the other, lets
  -- `generateNonce` answer what the native module answers of the session that it has then.
  pub generate_nonce-add_commitments :
      (message : String) (k : KeyPair) (keys : List (Option Buffer)) (s : MultiSigSession)
      (xs : List (Buffer × BufferObject)) (end : Buffer)
      → new_session native message k keys ≡ ok s
      → IsDistinct (objects xs)
      → length xs + 1 ≡ length keys
      → all_added native.add_nonce_commitment s.session xs ≡ ok end
      → (generate_nonce native (run native (calls commitments xs) s)).0
        ≡ and_then (native.generate_nonce end) (λ generated. ok generated.value)
  generate_nonce-add_commitments message k keys s xs end e d h taken =
      let (none_yet, same_keys) = new_session-starts message k keys s e in
      let fresh : AreNew s.co_signer_nonce_commitments (objects xs) =
        rw none_yet (AreNew-nil (objects xs)) in
      rw (run-calls native commitments (commitments-IsPhase native) xs s end fresh d taken) (
        generate_nonce_collected _ (
          omega (
            arith,
            length-objects xs,
            ap length same_keys,
            ap length none_yet,
            length-append s.co_signer_nonce_commitments (objects xs),
          )))

  -- More was collected than there are other signers.
  abbrev pub IsOverfull : MultiSigSession → Type 0
  IsOverfull s = length s.signer_public_keys < length s.co_signer_nonce_commitments + 1

  step-IsOverfull : (c : Call) (s : MultiSigSession) → IsOverfull s → IsOverfull (step native c s)
  unfolding step generate_nonce_commitment add_nonce_commitment generate_nonce add_nonce
      partial_sign add_partial_signature sign ◌>>=◌
  step-IsOverfull (adds_nonce_commitment key x) s h =
      ground (arith, length-concat s.co_signer_nonce_commitments x)
  step-IsOverfull _ s h = ground arith

  generate_nonce_overfull :
      (s : MultiSigSession)
      → IsOverfull s
      → (generate_nonce native s).0
        ≡ err
            (thrown "Nonce can be generated only after all co-signer's nonce commitment are added")
  unfolding generate_nonce ◌>>=◌
  generate_nonce_overfull s h = ground arith

  -- Once more commitments have been added than there are other signers, `generateNonce` throws after
  -- any further calls: the count is compared by `===` and nothing takes a commitment back.
  pub generate_nonce-run_overfull :
      (cs : List Call) (s : MultiSigSession)
      → IsOverfull s
      → (generate_nonce native (run native cs s)).0
        ≡ err
            (thrown "Nonce can be generated only after all co-signer's nonce commitment are added")
  unfolding run
  generate_nonce-run_overfull [] s h = generate_nonce_overfull s h
  generate_nonce-run_overfull (c ∷ cs) s h =
      generate_nonce-run_overfull cs (step native c s) (step-IsOverfull c s h)
