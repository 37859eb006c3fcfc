-- ===== src/MultiSig/Session/Exchange.antt =====
-- The order in which the values of the other signers are added.
use mathlib.Core.List.{Permᴰ}
use mathlib.Core.Quot
use chain_nodelib.Prelude.{
  suc, refl, ◌||◌, ◌≡◌, ap, sym, ◌∙◌, List, [], ◌∷◌, ◌++◌, arith, length, length-append,
}
use chain_nodelib.Method.{ok}
use chain_nodelib.Buffer.{Buffer}
use chain_nodelib.MultiSig.{BufferObject, MultiSigNative, has_object}
use chain_nodelib.MultiSig.Cache.{AreAlike, cache_of}
use chain_nodelib.MultiSig.Session.{MultiSigSession}
use chain_nodelib.MultiSig.Session.Calls.{Call, step, run}
use chain_nodelib.MultiSig.Session.Distinct.{IsDistinct, AreNew, same_sym}
use chain_nodelib.MultiSig.Session.Phases as Phases
use chain_nodelib.MultiSig.Session.Phases.{
  Phase, IsPhase, commitments, nonces, signatures, objects, all_added, commitments-IsPhase,
  nonces-IsPhase, signatures-IsPhase, run-calls,
}
use chain_nodelib.MultiSig.Session.View.{view, view_calls, calls, calls-view_calls}

pub data Kind : Type 0 where
  commitment nonce signature : Kind

abbrev pub phase_of : Kind → Phase
phase_of commitment = commitments
phase_of nonce = nonces
phase_of signature = signatures

phase_of-IsPhase : (native : MultiSigNative) (kind : Kind) → IsPhase native (phase_of kind)
phase_of-IsPhase native commitment = commitments-IsPhase native
phase_of-IsPhase native nonce = nonces-IsPhase native
phase_of-IsPhase native signature = signatures-IsPhase native

-- Of the collected objects the view holds the cache.
view-keep :
    (kind : Kind) (session : Buffer) (s : MultiSigSession) {xs ys : List BufferObject}
    → cache_of xs ≡ cache_of ys
    → view ((phase_of kind).keep xs session s) ≡ view ((phase_of kind).keep ys session s)
view-keep commitment session s e =
    ap (λ c. record (view s) { session = session; co_signer_nonce_commitments = c }) e
view-keep nonce session s e =
    ap (λ c. record (view s) { session = session; co_signer_nonces = c }) e
view-keep signature session s e =
    ap (λ c. record (view s) { session = session; co_signer_signatures = c }) e

objects-perm :
    {xs ys : List (Buffer × BufferObject)} → Permᴰ xs ys → Permᴰ (objects xs) (objects ys)
objects-perm Permᴰ.nil = Permᴰ.nil
objects-perm (Permᴰ.cons e p) = Permᴰ.cons (ap (λ x. x.1) e) (objects-perm p)
objects-perm (Permᴰ.swap e f) = Permᴰ.swap (ap (λ x. x.1) e) (ap (λ x. x.1) f)
objects-perm (Permᴰ.trans p q) = Permᴰ.trans (objects-perm p) (objects-perm q)

has_object-perm :
    {xs ys : List BufferObject} (z : BufferObject) → Permᴰ xs ys → has_object xs z ≡ has_object ys z
unfolding has_object
has_object-perm z Permᴰ.nil = refl
has_object-perm z (Permᴰ.cons e p) = ground (arith, has_object-perm z p, ap (λ x. x.identity) e)
has_object-perm z (Permᴰ.swap e f) = ground (arith, ap (λ x. x.identity) e, ap (λ x. x.identity) f)
has_object-perm z (Permᴰ.trans p q) = has_object-perm z p ∙ has_object-perm z q

length-perm : {xs ys : List BufferObject} → Permᴰ xs ys → length xs ≡ length ys
length-perm Permᴰ.nil = refl
length-perm (Permᴰ.cons e p) = ap suc (length-perm p)
length-perm (Permᴰ.swap e f) = refl
length-perm (Permᴰ.trans p q) = length-perm p ∙ length-perm q

has_object-append :
    (xs ys : List BufferObject) (z : BufferObject)
    → has_object (xs ++ ys) z ≡ (has_object xs z || has_object ys z)
unfolding has_object
has_object-append [] ys z = refl
has_object-append (x ∷ xs) ys z = ground (arith, has_object-append xs ys z)

AreAlike-append :
    (held : List BufferObject) {xs ys : List BufferObject}
    → Permᴰ xs ys
    → AreAlike (held ++ xs) (held ++ ys)
AreAlike-append held {xs} {ys} p = record {
  same_objects = λ z.
      has_object-append held xs z
      ∙ ap (λ b. has_object held z || b) (has_object-perm z p)
      ∙ sym (has_object-append held ys z);
  same_length = omega (arith, length-append held xs, length-append held ys, length-perm p);
}

AreNew-perm :
    (held : List BufferObject) {xs ys : List BufferObject}
    → Permᴰ xs ys
    → AreNew held xs
    → AreNew held ys
AreNew-perm held Permᴰ.nil n = tt
AreNew-perm held (Permᴰ.cons e p) (new, n) =
    (sym (ap (has_object held) e) ∙ new, AreNew-perm held p n)
AreNew-perm held (Permᴰ.swap e f) (first, (second, n)) =
    (sym (ap (has_object held) f) ∙ second, (sym (ap (has_object held) e) ∙ first, n))
AreNew-perm held (Permᴰ.trans p q) n = AreNew-perm held q (AreNew-perm held p n)

IsDistinct-perm : {xs ys : List BufferObject} → Permᴰ xs ys → IsDistinct xs → IsDistinct ys
unfolding has_object
IsDistinct-perm Permᴰ.nil d = tt
IsDistinct-perm (Permᴰ.cons {a = x} {l₂ = ys} e p) (new, d) =
    (ap (has_object ys) (sym e) ∙ sym (has_object-perm x p) ∙ new, IsDistinct-perm p d)
IsDistinct-perm (Permᴰ.swap {a = x} {b = y} {a' = y'} {b' = x'} {l = l} e f) (first, (second, d)) =
    ground (
      arith,
      ap (λ u. u.identity) e,
      ap (λ u. u.identity) f,
      ap (has_object l) e,
      ap (has_object l) f,
      same_sym x.identity y.identity,
    )
IsDistinct-perm (Permᴰ.trans p q) d = IsDistinct-perm q (IsDistinct-perm p d)

module _ (native : MultiSigNative) where
  view-run : (cs : List Call) (s : MultiSigSession) → view (run native cs s) ≡ (calls native cs s).1
  unfolding run
  view-run [] s = refl
  view-run (c ∷ cs) s = view-run cs (step native c s)

  -- Distinct `Buffer` objects of one kind (nonce commitments, nonces, partial signatures) that a
  -- session does not hold, each with the key of its signer, are added in two orders. If the native
  -- module takes them one after the other in both, and returns the same session at the end, then the
  -- order is one to the session too: whatever is called afterwards answers the same, and leaves a
  -- session with the same view.
  pub calls-reordered :
      (kind : Kind) {xs ys : List (Buffer × BufferObject)} (after : List Call) (s : MultiSigSession)
      (end : Buffer)
      → Permᴰ xs ys
      → AreNew ((phase_of kind).held s) (objects xs)
      → IsDistinct (objects xs)
      → all_added ((phase_of kind).function native) s.session xs ≡ ok end
      → all_added ((phase_of kind).function native) s.session ys ≡ ok end
      → calls native after (run native (Phases.calls (phase_of kind) xs) s)
        ≡ calls native after (run native (Phases.calls (phase_of kind) ys) s)
  calls-reordered kind {xs} {ys} after s end p n d e f =
      let q = objects-perm p in
      let held = (phase_of kind).held s in
      let law = phase_of-IsPhase native kind in
      calls-view_calls native after _
      ∙ ap (view_calls native after) (
          ap view (run-calls native (phase_of kind) law xs s end n d e)
          ∙ view-keep kind end s (Quot.sound (AreAlike-append held q))
          ∙ ap view (
              sym (
                run-calls native (phase_of kind) law ys s end (AreNew-perm held q n)
                  (IsDistinct-perm q d) f)))
      ∙ sym (calls-view_calls native after _)
