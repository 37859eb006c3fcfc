-- ===== src/Client/Requests.antt =====
-- Which requests a method of a client sends, seen by the server.
use mathlib.Core.List.{append_assoc, append-nil}
use chain_nodelib.Prelude.{
  ℕ, ◌+◌, ◌≡◌, refl, sym, ap, ap₂, ◌∙◌, String, Bool, true, false, List, [], ◌∷◌, ◌++◌, arith,
  length, length-append,
}
use chain_nodelib.Client.{
  Json, Failure, Outcome, fulfilled, rejected, pending, Body, Platform, Async, resolve, settle,
  continue, ◌>>=◌, recover, async_middleman,
}
use chain_nodelib.Client.Rpc.{Clients, on_world}

-- The methods with the ids that follow a number.
abbrev pub numbered : ℕ → List String → List (ℕ × String)
numbered id [] = []
numbered id (m ∷ ms) = (id + 1, m) ∷ numbered (id + 1) ms

pub numbered-append :
    (id : ℕ) (ms ns : List String)
    → numbered id (ms ++ ns) ≡ numbered id ms ++ numbered (id + length ms) ns
numbered-append id [] ns = ap (λ k. numbered k ns) (omega arith)
numbered-append id (m ∷ ms) ns =
    ap (◌∷◌ (id + 1, m)) (
      numbered-append (id + 1) ms ns
      ∙ ap (λ k. numbered (id + 1) ms ++ numbered k ns) (omega arith))

-- The server's record of the requests of a wallet client.
pub record IsRecord {W : Type 0} (platform : Platform W) (posted : W → List (ℕ × String))
    : Type 0 where
  pub posts :
      (url : List ℕ) (body : Body) (transform : List ℕ → Json) (w : W)
      → posted (platform.post_transformed url body transform w).1
        ≡ posted w ++ (body.id, body.method) ∷ []
  pub gets : (url : List ℕ) (w : W) → posted (platform.get url w).1 ≡ posted w
  pub waits : (ms : ℕ) (w : W) → posted (platform.wait ms w) ≡ posted w

-- What has to hold of the methods that were not sent: none if `whole` and the call did not fail.
abbrev pub Finished : {A : Type 0} → Bool → Outcome A → List String → Type 0
Finished true (fulfilled a) rest = rest ≡ []
Finished true (rejected e) rest = Unit
Finished true pending rest = Unit
Finished false o rest = Unit

module _ {W : Type 0} (posted : W → List (ℕ × String)) where
  -- From a state on, the first methods of a list have been sent, with consecutive ids.
  abbrev pub Sent : {A : Type 0} → Bool → List String → Clients W → Outcome A × Clients W → Type 0
  Sent whole methods s r =
      (sent : List String) × (rest : List String) × (sent ++ rest ≡ methods)
      × Finished whole r.0 rest
      × (posted r.1.world ≡ posted s.world ++ numbered s.request_id sent)
      × (r.1.request_id ≡ s.request_id + length sent)

  abbrev pub Sends : {A : Type 0} → Bool → List String → Async (Clients W) A → Type 0
  Sends whole methods m = (s : Clients W) → Sent whole methods s (m s)

  Sent-nothing :
      {A : Type 0} (whole : Bool) (ms : List String) (o : Outcome A) (s : Clients W)
      → Finished whole o ms
      → Sent whole ms s (o, s)
  Sent-nothing whole ms o s h = ([], ms, refl, h, sym (append-nil (posted s.world)), omega arith)

  pub Sends-resolve : {A : Type 0} (a : A) → Sends true [] (resolve a)
  unfolding resolve
  Sends-resolve a s = Sent-nothing true [] (fulfilled a) s refl

  -- where a method returns early
  pub Sends-return : {A : Type 0} (ms : List String) (a : A) → Sends false ms (resolve a)
  unfolding resolve
  Sends-return ms a s = Sent-nothing false ms (fulfilled a) s tt

  Finished-nil : {A : Type 0} (o : Outcome A) → Finished true o []
  Finished-nil (fulfilled a) = refl
  Finished-nil (rejected e) = tt
  Finished-nil pending = tt

  pub Sends-settle : {A : Type 0} (o : Outcome A) → Sends true [] (settle o)
  unfolding settle
  Sends-settle o s = Sent-nothing true [] o s (Finished-nil o)

  failed :
      (A B : Type 0) (whole : Bool) (ms ns : List String) (s : Clients W) (o : Outcome A)
      (p : Outcome B) (s1 : Clients W)
      → ((rest : List String) → Finished whole p rest)
      → Sent true ms s (o, s1)
      → Sent whole (ms ++ ns) s (p, s1)
  failed A B whole ms ns s o p s1 free (sent, rest, e, _, logged, id) = (
    sent,
    rest ++ ns,
    sym (append_assoc sent rest ns) ∙ ap (◌++ ns) e,
    free (rest ++ ns),
    logged,
    id,
  )

  Finished-rejected :
      (A : Type 0) (whole : Bool) (e : Failure) (rest : List String)
      → Finished {A = A} whole (rejected e) rest
  Finished-rejected A true e rest = tt
  Finished-rejected A false e rest = tt

  Finished-pending :
      (A : Type 0) (whole : Bool) (rest : List String) → Finished {A = A} whole pending rest
  Finished-pending A true rest = tt
  Finished-pending A false rest = tt

  pub whole_sent : {sent rest ms : List String} → sent ++ rest ≡ ms → rest ≡ [] → sent ≡ ms
  whole_sent {sent} e h = sym (append-nil sent) ∙ sym (ap (◌++◌ sent) h) ∙ e

  joined :
      {A B : Type 0} (whole : Bool) {ms ns : List String} (s s1 : Clients W) (a : A)
      (r : Outcome B × Clients W)
      → Sent true ms s (fulfilled a, s1)
      → Sent whole ns s1 r
      → Sent whole (ms ++ ns) s r
  joined whole {ms} {ns} s s1 a r (sent, rest, e, all_sent, logged, id)
        (sent', rest', e', finished, logged', id') =
      (
        sent ++ sent',
        rest',
        append_assoc sent sent' rest' ∙ ap₂ ◌++◌ (whole_sent e all_sent) e',
        finished,
        logged'
            ∙ ap₂ (λ l k. l ++ numbered k sent') logged id
            ∙ append_assoc (posted s.world) (numbered s.request_id sent)
                (numbered (s.request_id + length sent) sent')
            ∙ ap (◌++◌ (posted s.world)) (sym (numbered-append s.request_id sent sent')),
        id' ∙ omega (arith, id, length-append sent sent'),
      )

  continued :
      {A B : Type 0} (whole : Bool) {ms ns : List String} (s : Clients W)
      (f : A → Async (Clients W) B) (r : Outcome A × Clients W)
      → Sent true ms s r
      → ((a : A) → Sends whole ns (f a))
      → Sent whole (ms ++ ns) s (continue f r.0 r.1)
  continued whole s f (fulfilled a, s1) h g = joined whole s s1 a (f a s1) h (g a s1)
  continued {A} {B} whole {ms} {ns} s f (rejected e, s1) h g =
      failed A B whole ms ns s (rejected e) (rejected e) s1 (Finished-rejected _ whole e) h
  continued {A} {B} whole {ms} {ns} s f (pending, s1) h g =
      failed A B whole ms ns s pending pending s1 (Finished-pending _ whole) h

  pub Sends-bind :
      {A B : Type 0} (whole : Bool) {ms ns : List String} (m : Async (Clients W) A)
      (f : A → Async (Clients W) B)
      → Sends true ms m
      → ((a : A) → Sends whole ns (f a))
      → Sends whole (ms ++ ns) (m >>= f)
  unfolding ◌>>=◌
  Sends-bind whole m f h g s = continued whole s f (m s) (h s) g

  Finished-recover :
      {A : Type 0} (whole : Bool) (platform : Platform W) (message : String) (o : Outcome A)
      (rest : List String)
      → Finished whole o rest
      → Finished whole (recover platform message o) rest
  Finished-recover true platform message (fulfilled a) rest h = h
  Finished-recover true platform message (rejected e) rest h = tt
  Finished-recover true platform message pending rest h = tt
  Finished-recover false platform message o rest h = tt

  pub Sends-async_middleman :
      {A : Type 0} (whole : Bool) (platform : Platform W) {ms : List String}
      (m : Async (Clients W) A) (message : String)
      → Sends whole ms m
      → Sends whole ms (async_middleman platform m message)
  unfolding async_middleman
  Sends-async_middleman whole platform m message h s =
      let (sent, rest, e, finished, logged, id) = h s in
      (sent, rest, e, Finished-recover whole platform message (m s).0 rest finished, logged, id)

  -- no method is missing after a call that has sent them all
  pub Sent-all :
      {A : Type 0} (ms : List String) (s : Clients W) (r : Outcome A × Clients W)
      → posted r.1.world ≡ posted s.world ++ numbered s.request_id ms
      → r.1.request_id ≡ s.request_id + length ms
      → Sent true ms s r
  Sent-all ms s r logged id = (ms, [], append-nil ms, Finished-nil r.0, logged, id)

  abbrev pub Keeps : {A : Type 0} → Async W A → Type 0
  Keeps m = (w : W) → posted (m w).1 ≡ posted w

  Keeps-continue :
      {A B : Type 0} (f : A → Async W B) (o : Outcome A) (w : W)
      → ((a : A) → Keeps (f a))
      → posted (continue f o w).1 ≡ posted w
  Keeps-continue f (fulfilled a) w h = h a w
  Keeps-continue f (rejected e) w h = refl
  Keeps-continue f pending w h = refl

  pub Keeps-bind :
      {A B : Type 0} (m : Async W A) (f : A → Async W B)
      → Keeps m
      → ((a : A) → Keeps (f a))
      → Keeps (m >>= f)
  unfolding ◌>>=◌
  Keeps-bind m f h g w = Keeps-continue f (m w).0 (m w).1 g ∙ h w

  pub Sends-on_world : {A : Type 0} (m : Async W A) → Keeps m → Sends true [] (on_world m)
  unfolding on_world
  Sends-on_world m h s =
      Sent-all [] s (on_world m s) (h s.world ∙ sym (append-nil (posted s.world))) (omega arith)
