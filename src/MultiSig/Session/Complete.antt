-- ===== src/MultiSig/Session/Complete.antt =====
-- A session from its first call to its signature, with what the other signers send.
use chain_nodelib.Prelude.{suc, ◌≡◌, refl, ap, ◌∙◌, some, none, List, [], ◌∷◌, ◌++◌, arith, length}
use chain_nodelib.Method.{ok, ◌>>=◌}
use chain_nodelib.Buffer.{Buffer}
use chain_nodelib.MultiSig.{BufferObject, WithSession, MultiSigNative}
use chain_nodelib.MultiSig.Session.{
  MultiSigSession, generate_nonce_commitment, generate_nonce, partial_sign, sign, verify,
}
use chain_nodelib.MultiSig.Session.Calls.{
  Call, generates_nonce_commitment, generates_nonce, partial_signs, step, run,
}
use chain_nodelib.MultiSig.Session.Distinct.{IsDistinct, AreNew-nil}
use chain_nodelib.MultiSig.Session.Phases.{
  Phase, IsPhase, commitments, nonces, signatures, calls, objects, length-objects, all_added,
  commitments-IsPhase, nonces-IsPhase, signatures-IsPhase, run-calls,
}

abbrev pub Values : Type 0
Values = List (Buffer × BufferObject)

-- What the native module answers in a protocol that begins with this session, in which these nonce
-- commitments, nonces and partial signatures come from the other signers.
pub record Cooperates (native : MultiSigNative) (start : Buffer) (cs ns xs : Values) : Type 0 where
  pub commitment : WithSession
  pub generates_commitment : native.generate_nonce_commitment start ≡ ok commitment
  pub committed : Buffer
  pub takes_commitments :
      all_added native.add_nonce_commitment commitment.incomplete_session cs ≡ ok committed
  pub nonce : WithSession
  pub generates_nonce : native.generate_nonce committed ≡ ok nonce
  pub revealed : Buffer
  pub takes_nonces : all_added native.add_nonce nonce.incomplete_session ns ≡ ok revealed
  pub partial_signature : WithSession
  pub signs_partially : native.partial_sign revealed ≡ ok partial_signature
  pub gathered : Buffer
  pub takes_signatures :
      all_added native.add_partial_signature partial_signature.incomplete_session xs ≡ ok gathered
  pub signature : Buffer
  pub signs : native.sign gathered ≡ ok signature

run-append :
    (native : MultiSigNative) (cs ds : List Call) (s : MultiSigSession)
    → run native (cs ++ ds) s ≡ run native ds (run native cs s)
unfolding run
run-append native [] ds s = refl
run-append native (c ∷ cs) ds s = run-append native cs ds (step native c s)

-- What a holder does before the last call, with what the other signers send.
abbrev pub protocol : Values → Values → Values → List Call
protocol cs ns xs =
    (generates_nonce_commitment ∷ calls commitments cs)
    ++ ((generates_nonce ∷ calls nonces ns) ++ (partial_signs ∷ calls signatures xs))

-- Distinct values, one from each of the other signers.
pub record Fits (s : MultiSigSession) (xs : Values) : Type 0 where
  pub distinct : IsDistinct (objects xs)
  pub enough : suc (length xs) ≡ length s.signer_public_keys

-- Nothing has been collected.
pub record IsFresh (s : MultiSigSession) : Type 0 where
  pub no_commitments : s.co_signer_nonce_commitments ≡ []
  pub no_nonces : s.co_signer_nonces ≡ []
  pub no_signatures : s.co_signer_signatures ≡ []

module _ (native : MultiSigNative) where
  generates_nonce_commitment-answers :
      (s : MultiSigSession) (g : WithSession)
      → native.generate_nonce_commitment s.session ≡ ok g
      → step native generates_nonce_commitment s
        ≡ record s { nonce_commitment = some g.value; session = g.incomplete_session }
  unfolding step generate_nonce_commitment ◌>>=◌
  generates_nonce_commitment-answers s g e = ground arith

  generates_nonce-answers :
      (s : MultiSigSession) (g : WithSession)
      → suc (length s.co_signer_nonce_commitments) ≡ length s.signer_public_keys
      → native.generate_nonce s.session ≡ ok g
      → step native generates_nonce s
        ≡ record s { nonce = some g.value; session = g.incomplete_session }
  unfolding step generate_nonce ◌>>=◌
  generates_nonce-answers s g h e = ground arith

  partial_signs-answers :
      (s : MultiSigSession) (g : WithSession)
      → suc (length s.co_signer_nonces) ≡ length s.signer_public_keys
      → native.partial_sign s.session ≡ ok g
      → step native partial_signs s
        ≡ record s { partial_signature = some g.value; session = g.incomplete_session }
  unfolding step partial_sign ◌>>=◌
  partial_signs-answers s g h e = ground arith

  sign-answers :
      (s : MultiSigSession) (x : Buffer)
      → suc (length s.co_signer_signatures) ≡ length s.signer_public_keys
      → native.sign s.session ≡ ok x
      → sign native s ≡ (ok x, record s { signature = some x })
  unfolding sign ◌>>=◌
  sign-answers s x h e = ground arith

  -- A call, and the exchange behind it.
  run-leg :
      (phase : Phase)
      → IsPhase native phase
      → (c : Call) (xs : Values) (s t : MultiSigSession) (end : Buffer) → step native c s ≡ t
      → phase.held t ≡ []
      → IsDistinct (objects xs)
      → all_added (phase.function native) t.session xs ≡ ok end
      → run native (c ∷ calls phase xs) s ≡ phase.keep (objects xs) end t
  unfolding run
  run-leg phase law c xs s t end e h d taken =
      ap (run native (calls phase xs)) e
      ∙ run-calls native phase law xs t end (rw h (AreNew-nil (objects xs))) d taken
      ∙ ap (λ l. phase.keep (l ++ objects xs) end t) h

  module _ (s : MultiSigSession) (cs ns xs : Values)
      (w : Cooperates native s.session cs ns xs) where
    -- The session after each of the three exchanges.
    abbrev after_commitments : MultiSigSession
    after_commitments = record s {
      nonce_commitment = some w.commitment.value;
      session = w.committed;
      co_signer_nonce_commitments = objects cs;
    }

    abbrev after_nonces : MultiSigSession
    after_nonces = record after_commitments {
      nonce = some w.nonce.value;
      session = w.revealed;
      co_signer_nonces = objects ns;
    }

    abbrev after_signatures : MultiSigSession
    after_signatures = record after_nonces {
      partial_signature = some w.partial_signature.value;
      session = w.gathered;
      co_signer_signatures = objects xs;
    }

    run-protocol :
        IsFresh s
        → Fits s cs
        → Fits s ns
        → IsDistinct (objects xs)
        → run native (protocol cs ns xs) s ≡ after_signatures
    run-protocol f c n d =
        run-append native (generates_nonce_commitment ∷ calls commitments cs) _ s
        ∙ ap (run native _) (
            run-leg commitments (commitments-IsPhase native) generates_nonce_commitment cs s _
              w.committed (generates_nonce_commitment-answers s w.commitment w.generates_commitment)
              f.no_commitments c.distinct w.takes_commitments)
        ∙ run-append native (generates_nonce ∷ calls nonces ns) _ after_commitments
        ∙ ap (run native _) (
            run-leg nonces (nonces-IsPhase native) generates_nonce ns after_commitments _ w.revealed
              (generates_nonce-answers after_commitments w.nonce
                (omega (arith, length-objects cs, c.enough)) w.generates_nonce)
              f.no_nonces n.distinct w.takes_nonces)
        ∙ run-leg signatures (signatures-IsPhase native) partial_signs xs after_nonces _ w.gathered
            (partial_signs-answers after_nonces w.partial_signature
              (omega (arith, length-objects ns, n.enough)) w.signs_partially)
            f.no_signatures d w.takes_signatures

    -- The last call answers, and the signature verifies as the native module says.
    pub sign-protocol :
        IsFresh s
        → Fits s cs
        → Fits s ns
        → Fits s xs
        → let t = run native (protocol cs ns xs) s in
          ((sign native t).0 ≡ ok w.signature)
          × (verify native none (sign native t).1
              ≡ native.verify w.signature s.message s.signer_public_keys)
    unfolding verify
    sign-protocol f c n x =
        let e =
          ap (sign native) (run-protocol f c n x.distinct)
          ∙ sign-answers after_signatures w.signature (omega (arith, length-objects xs, x.enough))
              w.signs in
        (ap (λ r. r.0) e, ap (λ r. verify native none r.1) e)
