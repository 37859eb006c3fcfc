-- ===== src/Client/Broadcast.antt =====
-- When the broadcast of a transaction that waits for the commit succeeds.
use chain_nodelib.Prelude.{
  ℕ, ◌≡◌, ◌≢◌, ◌↔◌, inl, inr, Bool-cases, refl, ap, ◌∙◌, String, true, false, List, [], ◌∷◌, arith,
}
use chain_nodelib.Number.{whole, fraction, negative}
use chain_nodelib.Client.{
  Json, undefined, null, boolean, number, text, lossless, big_number, array, object, Outcome,
  fulfilled, rejected, pending, Body, Platform, Async, settle, gets, continue, ◌>>=◌, ◌>>◌,
  property, is_nullish,
}
use chain_nodelib.Client.Tendermint.{TendermintRpc, is_zero, throw_unless_zero, broadcast_tx_commit}

is_zero_iff : (v : Json) → (is_zero v ≡ true) ↔ (v ≡ number (whole 0))
is_zero_iff (number (whole n)) = ground arith
is_zero_iff (number (fraction n)) = ground arith
is_zero_iff (number negative) = ground arith
is_zero_iff undefined = ground arith
is_zero_iff null = ground arith
is_zero_iff (boolean b) = ground arith
is_zero_iff (text cs) = ground arith
is_zero_iff (lossless cs) = ground arith
is_zero_iff (big_number cs) = ground arith
is_zero_iff (array xs) = ground arith
is_zero_iff (object ms) = ground arith

-- The code of a check in a response.
abbrev pub code_of : String → Json → Json
code_of check response = property "code" (property check (property "result" response))

module _ {W : Type 0} (platform : Platform W) where
  throw_passes :
      (check : String) (response : Json)
      → is_nullish response ≡ false
      → is_zero (code_of check response) ≡ true
      → throw_unless_zero platform check response ≡ fulfilled tt
  throw_passes check response h z = rw (throw_unless_zero, h, z)

  throw_nullish :
      (check : String) (response : Json)
      → is_nullish response ≡ true
      → throw_unless_zero platform check response ≢ fulfilled tt
  throw_nullish check response h = rw (throw_unless_zero, h) (λ e. cc)

  throw_nonzero :
      (check : String) (response : Json)
      → is_nullish response ≡ false
      → is_zero (code_of check response) ≡ false
      → throw_unless_zero platform check response ≢ fulfilled tt
  throw_nonzero check response h z = rw (throw_unless_zero, h, z) (λ e. cc)

  throw_inv :
      (check : String) (response : Json)
      → throw_unless_zero platform check response ≡ fulfilled tt
      → (is_nullish response ≡ false) × (code_of check response ≡ number (whole 0))
  throw_inv check response e = elim (Bool-cases (is_nullish response)) [
    | inl h ↦ absurd (throw_nullish check response h e)
    | inr h ↦ elim (Bool-cases (is_zero (code_of check response))) [
      | inl z ↦ (h, (is_zero_iff _).0 z)
      | inr z ↦ absurd (throw_nonzero check response h z e)
    ]
  ]

  -- The body of the broadcast at a time.
  abbrev pub commit_body : List ℕ → W → Body
  commit_body encoded_tx w = record {
    id = platform.now w;
    method = "broadcast_tx_commit";
    params = text encoded_tx ∷ [];
  }

  abbrev Committed : TendermintRpc → List ℕ → W → W → Type 0
  Committed client encoded_tx w w' =
      (response : Json) × (platform.post client.url (commit_body encoded_tx w) w
        ≡ (fulfilled response, w'))
      × (is_nullish response ≡ false)
      × (code_of "check_tx" response ≡ number (whole 0))
      × (code_of "deliver_tx" response ≡ number (whole 0))

  -- What follows the response.
  abbrev checks : Json → Async W (Unit {0})
  checks response =
      settle (throw_unless_zero platform "check_tx" response)
      >> settle (throw_unless_zero platform "deliver_tx" response)

  two_settled :
      (o p : Outcome (Unit {0})) (w w' : W)
      → continue (λ _. settle p) o w ≡ (fulfilled tt, w')
      → (o ≡ fulfilled tt) × (p ≡ fulfilled tt) × (w ≡ w')
  unfolding settle
  two_settled (fulfilled u) p w w' h = (refl, ap (λ r. r.0) h, ap (λ r. r.1) h)
  two_settled (rejected e) p w w' h = cc
  two_settled pending p w w' h = cc

  after_post :
      (client : TendermintRpc) (encoded_tx : List ℕ) (w w' : W) (r : Outcome Json × W)
      → platform.post client.url (commit_body encoded_tx w) w ≡ r
      → continue checks r.0 r.1 ≡ (fulfilled tt, w')
      → Committed client encoded_tx w w'
  unfolding ◌>>=◌ settle
  after_post client encoded_tx w w' (fulfilled response, w1) e h =
      let (check, deliver, same) = two_settled _ _ w1 w' h in
      let (answered, zero_check) = throw_inv "check_tx" response check in
      let (_, zero_deliver) = throw_inv "deliver_tx" response deliver in
      (response, e ∙ ap (λ v. (fulfilled response, v)) same, answered, zero_check, zero_deliver)
  after_post client encoded_tx w w' (rejected f, w1) e h = cc
  after_post client encoded_tx w w' (pending, w1) e h = cc

  -- The broadcast succeeds exactly where the node answers with a response whose codes, of the check
  -- and of the delivery, are both 0.
  broadcast_tx_commit_iff :
      (client : TendermintRpc) (encoded_tx : List ℕ) (w w' : W)
      → (broadcast_tx_commit platform client encoded_tx w ≡ (fulfilled tt, w')) ↔ (
          (response : Json) × (platform.post client.url (commit_body encoded_tx w) w
            ≡ (fulfilled response, w'))
          × (is_nullish response ≡ false)
          × (code_of "check_tx" response ≡ number (whole 0))
          × (code_of "deliver_tx" response ≡ number (whole 0)))
  unfolding broadcast_tx_commit ◌>>=◌ gets settle
  broadcast_tx_commit_iff client encoded_tx w w' = (
    after_post client encoded_tx w w' _ refl,
    λ (response, e, h, check, deliver). rw (
      e,
      throw_passes "check_tx" response h ((is_zero_iff _).1 check),
      throw_passes "deliver_tx" response h ((is_zero_iff _).1 deliver),
    ),
  )
