-- ===== src/MultiSig/Protocol.antt =====
-- The whole protocol of lib/src/multi_sig: a builder, its session, the exchanges with the other
-- signers, and the signature.
use chain_nodelib.Prelude.{◌+◌, String, ◌≡◌, none, ◌∙◌, ap₂, List, arith, length}
use chain_nodelib.Method.{ok}
use chain_nodelib.Number.{Number}
use chain_nodelib.Buffer.{Buffer}
use chain_nodelib.Native.{AddressNative}
use chain_nodelib.KeyPair.{KeyPair}
use chain_nodelib.MultiSig.{MultiSigNative}
use chain_nodelib.MultiSig.Builder.{
  MultiSigBuilder, new_builder, create_new_session, create_new_session-fresh,
}
use chain_nodelib.MultiSig.Session.{MultiSigSession, sign, verify}
use chain_nodelib.MultiSig.Session.Calls.{run}
use chain_nodelib.MultiSig.Session.Distinct.{IsDistinct}
use chain_nodelib.MultiSig.Session.Phases.{objects}
use chain_nodelib.MultiSig.Session.Complete.{
  Values, Cooperates, IsFresh, Fits, protocol, sign-protocol,
}

-- One value for each of the other signers, each a `Buffer` object of its own.
pub record OneFromEach (co : List Buffer) (xs : Values) : Type 0 where
  pub distinct : IsDistinct (objects xs)
  pub count : length xs ≡ length co

-- In a session of a builder the other signers' nonce commitments, nonces and partial signatures are
-- added in this order, each kind after the holder's own and one for each other signer. If the native
-- module answers the calls that are made of it, each on the session that the one before returned,
-- then `sign` returns the signature that it answers last, and `verify` without an argument asks it
-- about that signature, the message and the signers.
pub protocol-completes :
    (address_native : AddressNative) (native : MultiSigNative) (k : KeyPair) (co : List Buffer)
    (network : String) (required : Number) (b : MultiSigBuilder) (message : String)
    (s : MultiSigSession) (cs ns xs : Values) (w : Cooperates native s.session cs ns xs)
    → new_builder k co network required ≡ ok b
    → create_new_session address_native native message b ≡ ok s
    → OneFromEach co cs
    → OneFromEach co ns
    → OneFromEach co xs
    → ((sign native (run native (protocol cs ns xs) s)).0 ≡ ok w.signature)
      × (verify native none (sign native (run native (protocol cs ns xs) s)).1
          ≡ native.verify w.signature message b.signer_public_keys)
protocol-completes address_native native k co network required b message s cs ns xs w e h c n x =
    let (count, same_message, same_keys, no_commitments, no_nonces, no_signatures) =
      create_new_session-fresh address_native native k co network required b message s e h in
    let fresh : IsFresh s = record {
      no_commitments = no_commitments;
      no_nonces = no_nonces;
      no_signatures = no_signatures;
    } in
    let (answers, verifies) =
      sign-protocol native s cs ns xs w fresh (fits s count cs c) (fits s count ns n)
        (fits s count xs x) in
    (answers, verifies ∙ ap₂ (native.verify w.signature) same_message same_keys)
  where
    fits :
        (t : MultiSigSession)
        → length t.signer_public_keys ≡ length co + 1
        → (ys : Values) → OneFromEach co ys
        → Fits t ys
    fits t e ys o = record { distinct = o.distinct; enough = omega (arith, e, o.count) }
