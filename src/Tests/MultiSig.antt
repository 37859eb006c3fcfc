-- ===== src/Tests/MultiSig.antt =====
-- Witnesses on multi-signature builders and sessions.
use mathlib.Core.List.{Permᴰ}
use chain_nodelib.MultiSig.Session.View as SessionView
use chain_nodelib.MultiSig.Session.View.{view, view_calls, calls-view_calls}
use chain_nodelib.MultiSig.Session.Exchange.{Kind, calls-reordered}
use chain_nodelib.Prelude.{◌≤◌, ◌≡◌, ◌↔◌, refl, true, none, some, Option, List, [], ◌∷◌, arith}
use chain_nodelib.Method.{ok, err, thrown, and_then}
use chain_nodelib.Number.{whole, fraction}
use chain_nodelib.Buffer.{Buffer}
use chain_nodelib.Network.{ow_network_enum}
use chain_nodelib.MultiSig.{BufferObject, has_object}
use chain_nodelib.MultiSig.Session.{MultiSigSession, new_session, generate_nonce, sign, verify}
use chain_nodelib.MultiSig.Session.Calls.{
  Call, adds_nonce_commitment, generates_nonce_commitment, generates_nonce, adds_nonce,
  partial_signs, run,
}
use chain_nodelib.MultiSig.Session.Order.{IsOrdered, run-new_session-IsOrdered}
use chain_nodelib.MultiSig.Session.Collecting.{
  generate_nonce-add_commitments, generate_nonce-run_overfull,
}
use chain_nodelib.MultiSig.Session.Phases.{calls, commitments}
use chain_nodelib.MultiSig.Session.Complete.{Cooperates, Values, protocol}
use chain_nodelib.MultiSig.Protocol.{OneFromEach, protocol-completes}
use chain_nodelib.MultiSig.Builder.{
  MultiSigBuilder, new_builder, create_new_session, IsRequired, new_builder_iff,
}
use chain_nodelib.Tests.{alice, addresses, multi_sigs}

abbrev bob_key : Buffer
bob_key = 4 ∷ 2 ∷ []

abbrev signers : List (Option Buffer)
signers = some bob_key ∷ some (4 ∷ 1 ∷ []) ∷ []

abbrev session : MultiSigSession
session = record {
  message = "hello";
  key_pair = alice;
  signer_public_keys = signers;
  session = 0 ∷ [];
  nonce_commitment = none;
  co_signer_nonce_commitments = [];
  nonce = none;
  co_signer_nonces = [];
  partial_signature = none;
  co_signer_signatures = [];
  signature = none;
}

abbrev commitment : BufferObject
commitment = record { identity = 1; content = 7 ∷ [] }

abbrev copy : BufferObject
copy = record { identity = 2; content = 7 ∷ [] }

abbrev some_calls : List Call
some_calls =
    generates_nonce_commitment
    ∷ generates_nonce
    ∷ adds_nonce_commitment bob_key commitment
    ∷ adds_nonce_commitment bob_key commitment
    ∷ generates_nonce
    ∷ adds_nonce bob_key copy
    ∷ partial_signs
    ∷ []

run-new_session-IsOrdered_example : IsOrdered (run multi_sigs some_calls session)
unfolding new_session
run-new_session-IsOrdered_example =
    run-new_session-IsOrdered multi_sigs "hello" alice signers session some_calls refl

-- With three signers, the same bytes of one of them count twice.
abbrev three_signers : List (Option Buffer)
three_signers = some bob_key ∷ some (4 ∷ 3 ∷ []) ∷ some (4 ∷ 1 ∷ []) ∷ []

abbrev three_session : MultiSigSession
three_session = record session { signer_public_keys = three_signers }

abbrev twice : List (Buffer × BufferObject)
twice = (bob_key, commitment) ∷ (bob_key, copy) ∷ []

generate_nonce-add_commitments_example :
    (generate_nonce multi_sigs (run multi_sigs (calls commitments twice) three_session)).0
    ≡ and_then (multi_sigs.generate_nonce (1 ∷ 1 ∷ 0 ∷ [])) (λ generated. ok generated.value)
unfolding new_session has_object
generate_nonce-add_commitments_example =
    generate_nonce-add_commitments multi_sigs "hello" alice three_signers three_session twice
      (1 ∷ 1 ∷ 0 ∷ []) refl (refl, (refl, tt)) refl refl

abbrev overfull : MultiSigSession
overfull = record session { co_signer_nonce_commitments = commitment ∷ copy ∷ [] }

generate_nonce-run_overfull_example :
    (generate_nonce multi_sigs (run multi_sigs some_calls overfull)).0
    ≡ err (thrown "Nonce can be generated only after all co-signer's nonce commitment are added")
generate_nonce-run_overfull_example =
    generate_nonce-run_overfull multi_sigs some_calls overfull (omega arith)

new_builder_iff_example :
    ((b : MultiSigBuilder) × (new_builder alice (bob_key ∷ []) "Devnet" (fraction 1) ≡ ok b))
    ↔ ((ow_network_enum "Devnet" ≡ true) × (1 ≤ 1) × IsRequired (fraction 1) 2)
new_builder_iff_example = new_builder_iff alice (bob_key ∷ []) "Devnet" (fraction 1)

abbrev builder : MultiSigBuilder
builder = record {
  key_pair = alice;
  network = "Devnet";
  signer_public_keys = signers;
  required_signer_number = whole 2;
  multi_sig_address = none;
}

abbrev from_bob : Values
from_bob = (bob_key, commitment) ∷ []

from_bob-OneFromEach : OneFromEach (bob_key ∷ []) from_bob
unfolding has_object
from_bob-OneFromEach = record { distinct = (refl, tt); count = refl }

abbrev bob_cooperates : Cooperates multi_sigs (0 ∷ []) from_bob from_bob from_bob
bob_cooperates = record {
  commitment = record { value = 1 ∷ []; incomplete_session = 0 ∷ [] };
  generates_commitment = refl;
  committed = 1 ∷ 0 ∷ [];
  takes_commitments = refl;
  nonce = record { value = 2 ∷ []; incomplete_session = 1 ∷ 0 ∷ [] };
  generates_nonce = refl;
  revealed = 2 ∷ 1 ∷ 0 ∷ [];
  takes_nonces = refl;
  partial_signature = record { value = 3 ∷ []; incomplete_session = 2 ∷ 1 ∷ 0 ∷ [] };
  signs_partially = refl;
  gathered = 3 ∷ 2 ∷ 1 ∷ 0 ∷ [];
  takes_signatures = refl;
  signature = 5 ∷ [];
  signs = refl;
}

protocol-completes_example :
    ((sign multi_sigs (run multi_sigs (protocol from_bob from_bob from_bob) session)).0
      ≡ ok (5 ∷ []))
    × (verify multi_sigs none
          (sign multi_sigs (run multi_sigs (protocol from_bob from_bob from_bob) session)).1
        ≡ multi_sigs.verify (5 ∷ []) "hello" signers)
unfolding new_builder create_new_session new_session
protocol-completes_example =
    protocol-completes addresses multi_sigs alice (bob_key ∷ []) "Devnet" (whole 2) builder "hello"
      session from_bob from_bob from_bob bob_cooperates refl refl from_bob-OneFromEach
      from_bob-OneFromEach from_bob-OneFromEach

calls-view_calls_example :
    SessionView.calls multi_sigs some_calls session
    ≡ view_calls multi_sigs some_calls (view session)
calls-view_calls_example = calls-view_calls multi_sigs some_calls session

abbrev of_bob : Buffer × BufferObject
of_bob = (bob_key, commitment)

abbrev of_carol : Buffer × BufferObject
of_carol = (4 ∷ 3 ∷ [], record { identity = 2; content = 8 ∷ [] })

calls-reordered_example :
    SessionView.calls multi_sigs
      (generates_nonce ∷ [])
      (run multi_sigs (calls commitments (of_bob ∷ of_carol ∷ [])) three_session)
    ≡ SessionView.calls multi_sigs
        (generates_nonce ∷ [])
        (run multi_sigs (calls commitments (of_carol ∷ of_bob ∷ [])) three_session)
unfolding has_object
calls-reordered_example =
    calls-reordered multi_sigs Kind.commitment (generates_nonce ∷ []) three_session (1 ∷ 1 ∷ 0 ∷ [])
      (Permᴰ.swap {a = of_bob} {b = of_carol} {l = []} refl refl) (refl, (refl, tt))
      (refl, (refl, tt)) refl refl
