-- ===== src/MultiSig/Session/View.antt =====
-- A session without the order of what it has collected, and what a call does to it.
use chain_nodelib.Prelude.{
  ◌+◌, String, ◌≡◌, refl, ap, ap₂, ◌∙◌, Bool, not, Option, some, List, [], ◌∷◌, arith, length, ◌==◌,
}
use chain_nodelib.Method.{Result, ok, err, require, and_then, ◌>>=◌}
use chain_nodelib.Buffer.{Buffer}
use chain_nodelib.KeyPair.{KeyPair}
use chain_nodelib.MultiSig.{MultiSigNative}
use chain_nodelib.MultiSig.Cache.{Cache, cache_of, size, contains, add}
use chain_nodelib.MultiSig.Session.{
  MultiSigSession, generate_nonce_commitment, add_nonce_commitment, generate_nonce, add_nonce,
  partial_sign, add_partial_signature, sign,
}
use chain_nodelib.MultiSig.Session.Calls.{
  Call, generates_nonce_commitment, adds_nonce_commitment, generates_nonce, adds_nonce,
  partial_signs, adds_partial_signature, signs, step,
}
use chain_nodelib.MultiSig.Session.Order.{answer}

pub record View : Type 0 where
  pub message : String
  pub key_pair : KeyPair
  pub signer_public_keys : List (Option Buffer)
  pub session : Buffer
  pub nonce_commitment : Option Buffer
  pub co_signer_nonce_commitments : Cache
  pub nonce : Option Buffer
  pub co_signer_nonces : Cache
  pub partial_signature : Option Buffer
  pub co_signer_signatures : Cache
  pub signature : Option Buffer

abbrev pub view : MultiSigSession → View
view s = record {
  message = s.message;
  key_pair = s.key_pair;
  signer_public_keys = s.signer_public_keys;
  session = s.session;
  nonce_commitment = s.nonce_commitment;
  co_signer_nonce_commitments = cache_of s.co_signer_nonce_commitments;
  nonce = s.nonce;
  co_signer_nonces = cache_of s.co_signer_nonces;
  partial_signature = s.partial_signature;
  co_signer_signatures = cache_of s.co_signer_signatures;
  signature = s.signature;
}

-- What a call answers, and the view behind it.
abbrev Answer : Type 0
Answer = Result Buffer × View

-- The second argument is written if the call answers.
abbrev replies : {A : Type 0} → View → Result A → (A → Buffer × View) → Answer
replies v (ok a) next = (ok (next a).0, (next a).1)
replies v (err e) next = (err e, v)

-- All other signers are in the cache.
abbrev is_complete : Cache → View → Bool
is_complete cache v = size cache + 1 == length v.signer_public_keys

module _ (native : MultiSigNative) where
  unfoldable pub view_call : Call → View → Answer
  view_call generates_nonce_commitment v =
      replies v (native.generate_nonce_commitment v.session) λ generated. (
        generated.value,
        record v {
          nonce_commitment = some generated.value;
          session = generated.incomplete_session;
        },
      )
  view_call (adds_nonce_commitment key x) v =
      replies v
        (and_then
          (require (not (contains x v.co_signer_nonce_commitments))
            "This co-signer's nonce commitment has already been added")
          λ _. native.add_nonce_commitment v.session key x.content)
        λ session. (
          session,
          record v {
            session = session;
            co_signer_nonce_commitments = add x v.co_signer_nonce_commitments;
          },
        )
  view_call generates_nonce v =
      replies v
        (and_then
          (require (is_complete v.co_signer_nonce_commitments v)
            "Nonce can be generated only after all co-signer's nonce commitment are added")
          λ _. native.generate_nonce v.session)
        λ generated. (
          generated.value,
          record v { nonce = some generated.value; session = generated.incomplete_session },
        )
  view_call (adds_nonce key x) v =
      replies v
        (and_then
          (require (not (contains x v.co_signer_nonces))
            "This co-signer's nonce has already been added")
          λ _. native.add_nonce v.session key x.content)
        λ session.
          (session, record v { session = session; co_signer_nonces = add x v.co_signer_nonces })
  view_call partial_signs v =
      replies v
        (and_then
          (require (is_complete v.co_signer_nonces v)
            "Session can be partially signed only after all co-signer's nonces are added")
          λ _. native.partial_sign v.session)
        λ generated. (
          generated.value,
          record v {
            partial_signature = some generated.value;
            session = generated.incomplete_session;
          },
        )
  view_call (adds_partial_signature key x) v =
      replies v
        (and_then
          (require (not (contains x v.co_signer_signatures))
            "This co-signer's signature has already been added")
          λ _. native.add_partial_signature v.session key x.content)
        λ session. (
          session,
          record v { session = session; co_signer_signatures = add x v.co_signer_signatures },
        )
  view_call signs v =
      replies v
        (and_then
          (require (is_complete v.co_signer_signatures v)
            "Session can be final signed only after all co-signer's partial signatures are added")
          λ _. native.sign v.session)
        λ signature. (signature, record v { signature = some signature })

  -- The call on the session.
  abbrev pub call : Call → MultiSigSession → Answer
  call c s = (answer native c s, view (step native c s))

  -- A call answers what the view says, and leaves the view that the view says.
  call-view_call : (c : Call) (s : MultiSigSession) → call c s ≡ view_call c (view s)
  unfolding step view_call generate_nonce_commitment add_nonce_commitment generate_nonce add_nonce
      partial_sign add_partial_signature sign size contains add ◌>>=◌
  call-view_call generates_nonce_commitment s = ground arith
  call-view_call _ s = ground arith

  -- The answers of a sequence of calls, and the view behind it.
  abbrev pub calls : List Call → MultiSigSession → List (Result Buffer) × View
  calls [] s = ([], view s)
  calls (c ∷ cs) s =
      (answer native c s ∷ (calls cs (step native c s)).0, (calls cs (step native c s)).1)

  -- The same on views, with no session behind them.
  abbrev pub view_calls : List Call → View → List (Result Buffer) × View
  view_calls [] v = ([], v)
  view_calls (c ∷ cs) v =
      ((view_call c v).0 ∷ (view_calls cs (view_call c v).1).0, (view_calls cs (view_call c v).1).1)

  -- What any calls on a session answer, failing ones included, and the view behind them follow from
  -- the view of the session: of each of the three caches the methods ask only whether an object is in
  -- it and how many there are.
  pub calls-view_calls :
      (cs : List Call) (s : MultiSigSession) → calls cs s ≡ view_calls cs (view s)
  calls-view_calls [] s = refl
  calls-view_calls (c ∷ cs) s =
      let e = call-view_call c s in
      ap₂ (λ a r. (a ∷ r.0, r.1)) (ap (λ r. r.0) e)
        (calls-view_calls cs (step native c s) ∙ ap (λ r. view_calls cs r.1) e)
