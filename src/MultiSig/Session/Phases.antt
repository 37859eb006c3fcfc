-- ===== src/MultiSig/Session/Phases.antt =====
-- The three phases in which a session collects one kind of value from the other signers: nonce
-- commitments, nonces and partial signatures.
use mathlib.Core.List.{append-nil, append_assoc}
use chain_nodelib.Prelude.{
  suc, ◌≡◌, refl, sym, ap, ap₂, ◌∙◌, false, List, [], ◌∷◌, ◌++◌, arith, length,
}
use chain_nodelib.Method.{Result, ok, and_then, and_then-eq-ok, ◌>>=◌}
use chain_nodelib.Buffer.{Buffer}
use chain_nodelib.MultiSig.{BufferObject, has_object, MultiSigNative}
use chain_nodelib.MultiSig.Session.{
  MultiSigSession, add_nonce_commitment, add_nonce, add_partial_signature,
}
use chain_nodelib.MultiSig.Session.Calls.{
  Call, adds_nonce_commitment, adds_nonce, adds_partial_signature, step, run,
}
use chain_nodelib.MultiSig.Session.Distinct.{IsDistinct, AreNew, AreNew-concat}

-- A native function that adds the value of a signer to a session.
abbrev pub Adding : Type 0
Adding = Buffer → Buffer → Buffer → Result Buffer

-- The native function and the call that add a value, the values held, and the session with other ones.
pub record Phase : Type 0 where
  pub function : MultiSigNative → Adding
  pub call : Buffer → BufferObject → Call
  pub held : MultiSigSession → List BufferObject
  pub keep : List BufferObject → Buffer → MultiSigSession → MultiSigSession

abbrev pub commitments : Phase
commitments = record {
  function = λ native. native.add_nonce_commitment;
  call = adds_nonce_commitment;
  held = λ s. s.co_signer_nonce_commitments;
  keep = λ xs session s. record s { session = session; co_signer_nonce_commitments = xs };
}

abbrev pub nonces : Phase
nonces = record {
  function = λ native. native.add_nonce;
  call = adds_nonce;
  held = λ s. s.co_signer_nonces;
  keep = λ xs session s. record s { session = session; co_signer_nonces = xs };
}

abbrev pub signatures : Phase
signatures = record {
  function = λ native. native.add_partial_signature;
  call = adds_partial_signature;
  held = λ s. s.co_signer_signatures;
  keep = λ xs session s. record s { session = session; co_signer_signatures = xs };
}

-- The calls that add these values, each with the key of its signer.
abbrev pub calls : Phase → List (Buffer × BufferObject) → List Call
calls phase [] = []
calls phase ((key, x) ∷ xs) = phase.call key x ∷ calls phase xs

abbrev pub objects : List (Buffer × BufferObject) → List BufferObject
objects [] = []
objects ((key, x) ∷ xs) = x ∷ objects xs

pub length-objects : (xs : List (Buffer × BufferObject)) → length (objects xs) ≡ length xs
length-objects [] = refl
length-objects ((key, x) ∷ xs) = ap suc (length-objects xs)

-- What a native function makes of a session and these values, each with the key of its signer.
abbrev pub all_added : Adding → Buffer → List (Buffer × BufferObject) → Result Buffer
all_added adds session [] = ok session
all_added adds session ((key, x) ∷ xs) =
    and_then (adds session key x.content) λ next. all_added adds next xs

module _ (native : MultiSigNative) where
  -- A value that is not held and that the native module takes is added, and nothing else changes.
  pub record IsPhase (phase : Phase) : Type 0 where
    pub adds :
        (key : Buffer) (x : BufferObject) (s : MultiSigSession) (next : Buffer)
        → has_object (phase.held s) x ≡ false
        → phase.function native s.session key x.content ≡ ok next
        → step native (phase.call key x) s ≡ phase.keep (phase.held s ++ x ∷ []) next s
    pub held-keep :
        (xs : List BufferObject) (session : Buffer) (s : MultiSigSession)
        → phase.held (phase.keep xs session s) ≡ xs
    pub session-keep :
        (xs : List BufferObject) (session : Buffer) (s : MultiSigSession)
        → (phase.keep xs session s).session ≡ session
    pub keep-keep :
        (xs ys : List BufferObject) (session next : Buffer) (s : MultiSigSession)
        → phase.keep ys next (phase.keep xs session s) ≡ phase.keep ys next s
    pub keep-held : (s : MultiSigSession) → phase.keep (phase.held s) s.session s ≡ s

  pub commitments-IsPhase : IsPhase commitments
  unfolding step add_nonce_commitment ◌>>=◌
  commitments-IsPhase = record {
    adds = λ key x s next new e. ground arith;
    held-keep = λ xs session s. refl;
    session-keep = λ xs session s. refl;
    keep-keep = λ xs ys session next s. refl;
    keep-held = λ s. refl;
  }

  pub nonces-IsPhase : IsPhase nonces
  unfolding step add_nonce ◌>>=◌
  nonces-IsPhase = record {
    adds = λ key x s next new e. ground arith;
    held-keep = λ xs session s. refl;
    session-keep = λ xs session s. refl;
    keep-keep = λ xs ys session next s. refl;
    keep-held = λ s. refl;
  }

  pub signatures-IsPhase : IsPhase signatures
  unfolding step add_partial_signature ◌>>=◌
  signatures-IsPhase = record {
    adds = λ key x s next new e. ground arith;
    held-keep = λ xs session s. refl;
    session-keep = λ xs session s. refl;
    keep-keep = λ xs ys session next s. refl;
    keep-held = λ s. refl;
  }

  -- Distinct values that are not held and that the native module takes, one after the other, are all
  -- added, in order, and nothing else changes.
  pub run-calls :
      (phase : Phase)
      → IsPhase phase
      → (xs : List (Buffer × BufferObject)) (s : MultiSigSession) (end : Buffer)
      → AreNew (phase.held s) (objects xs)
      → IsDistinct (objects xs)
      → all_added (phase.function native) s.session xs ≡ ok end
      → run native (calls phase xs) s ≡ phase.keep (phase.held s ++ objects xs) end s
  unfolding run
  run-calls phase law [] s end n d e =
      let same : s.session ≡ end = cc in
      sym (law.keep-held s) ∙ ap₂ (λ l t. phase.keep l t s) (sym (append-nil (phase.held s))) same
  run-calls phase law ((key, x) ∷ xs) s end (new, n) (first, d) e =
      let (session, taken, e') =
        and_then-eq-ok (phase.function native s.session key x.content) _ e in
      let s' : MultiSigSession = phase.keep (phase.held s ++ x ∷ []) session s in
      let held : phase.held s' ≡ phase.held s ++ x ∷ [] = law.held-keep _ session s in
      let fresh : AreNew (phase.held s') (objects xs) =
        rw held (AreNew-concat (phase.held s) x (objects xs) n first) in
      let rest =
        run-calls phase law xs s' end fresh d
          (ap (λ t. all_added (phase.function native) t xs) (law.session-keep _ session s) ∙ e') in
      ap (run native (calls phase xs)) (law.adds key x s session new taken)
      ∙ rest
      ∙ law.keep-keep _ _ session end s
      ∙ ap (λ l. phase.keep l end s)
          (ap (λ l. l ++ objects xs) held ∙ append_assoc (phase.held s) (x ∷ []) (objects xs))
