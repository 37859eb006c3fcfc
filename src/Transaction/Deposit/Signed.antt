-- ===== src/Transaction/Deposit/Signed.antt =====
-- A deposit from its first input to its last signature.
use mathlib.Core.List.{append_assoc, append-nil}
use chain_nodelib.Prelude.{
  ℕ, suc, ◌<◌, ◌≡◌, ◌≢◌, refl, sym, ap, ◌∙◌, true, none, some, List, [], ◌∷◌, ◌++◌, arith, All,
  length, length-append, length-concat,
}
use chain_nodelib.Method.{Result, ok, ◌>>=◌}
use chain_nodelib.Number.{whole}
use chain_nodelib.Buffer.{Buffer, codes, from_hex}
use chain_nodelib.Native.{Env, PrevOutputPointer, RawTx}
use chain_nodelib.KeyPair.{KeyPair, to_object}
use chain_nodelib.Transaction.Deposit.{
  WitnessedPrevOutputPointer, DepositTransactionBuilder, set_witness, add_input,
  ow_prev_output_pointer, build_raw, prepare_raw_tx, prepare_if_needed, if_not_prepared,
  write_witness, sign_input,
}
use chain_nodelib.Transaction.Deposit.Calls.{Call, adds_input, signs_input, step, run}
use chain_nodelib.Transaction.Deposit.Prepared.{pointers}
use chain_nodelib.Transaction.Deposit.Witnesses.{
  unwitnessed, witnessed, unwitnessed-concat, set_witness-append,
}

abbrev pub add_inputs : List PrevOutputPointer → List Call
add_inputs [] = []
add_inputs (p ∷ ps) = adds_input p ∷ add_inputs ps

-- The calls that sign the inputs from the index on.
abbrev pub sign_inputs : ℕ → List KeyPair → List Call
sign_inputs i [] = []
sign_inputs i (k ∷ ks) = signs_input (whole i) k ∷ sign_inputs (suc i) ks

pointers-unwitnessed : (ps : List PrevOutputPointer) → pointers (unwitnessed ps) ≡ ps
pointers-unwitnessed [] = refl
pointers-unwitnessed (p ∷ ps) = ap (◌∷◌ p) (pointers-unwitnessed ps)

pub length-unwitnessed : (ps : List PrevOutputPointer) → length (unwitnessed ps) ≡ length ps
length-unwitnessed [] = refl
length-unwitnessed (p ∷ ps) = ap suc (length-unwitnessed ps)

module _ {B : Type 0} where
  -- The builder with these inputs, none of them signed and nothing prepared.
  abbrev pub unsigned :
      DepositTransactionBuilder B → List PrevOutputPointer → DepositTransactionBuilder B
  unsigned b ps = record b { inputs = unwitnessed ps; unsigned_raw_tx = none; innert_tx_id = none }

  -- The builder with these inputs and this raw transaction.
  abbrev pub prepared :
      DepositTransactionBuilder B
      → RawTx
      → List WitnessedPrevOutputPointer
      → DepositTransactionBuilder B
  prepared b raw xs = record b {
    inputs = xs;
    unsigned_raw_tx = some raw.unsigned_raw_tx;
    innert_tx_id = some raw.tx_id;
  }

module _ {B : Type 0} (env : Env B) where
  abbrev Builder : Type 0
  Builder = DepositTransactionBuilder B

  add_input-unsigned :
      (b : Builder) (ps : List PrevOutputPointer) (p : PrevOutputPointer)
      → ow_prev_output_pointer p ≡ true
      → step env (adds_input p) (unsigned b ps) ≡ unsigned b (ps ++ p ∷ [])
  unfolding step add_input ◌>>=◌
  add_input-unsigned b ps p h =
      ground (arith, unwitnessed-concat (unwitnessed ps) p, pointers-unwitnessed ps)

  pub run-add_inputs :
      (b : Builder) (ps qs : List PrevOutputPointer)
      → All (λ p. ow_prev_output_pointer p ≡ true) qs
      → run env (add_inputs qs) (unsigned b ps) ≡ unsigned b (ps ++ qs)
  unfolding run
  run-add_inputs b ps [] h = ap (unsigned b) (sym (append-nil ps))
  run-add_inputs b ps (q ∷ qs) (p, h) =
      ap (run env (add_inputs qs)) (add_input-unsigned b ps q p)
      ∙ run-add_inputs b (ps ++ q ∷ []) qs h
      ∙ ap (unsigned b) (append_assoc ps (q ∷ []) qs)

  -- The native module signs the id of the transaction with each key pair.
  abbrev pub Signs : RawTx → List KeyPair → List Buffer → Type 0
  Signs raw [] [] = Unit
  Signs raw [] (w ∷ ws) = ⊥
  Signs raw (k ∷ ks) [] = ⊥
  Signs raw (k ∷ ks) (w ∷ ws) =
      (env.schnorr_sign_tx_id (from_hex (codes raw.tx_id)) (to_object k) ≡ ok w) × Signs raw ks ws

  pub length-Signs :
      (raw : RawTx) (ks : List KeyPair) (ws : List Buffer) → Signs raw ks ws → length ws ≡ length ks
  length-Signs raw [] [] h = refl
  length-Signs raw [] (w ∷ ws) h = absurd h
  length-Signs raw (k ∷ ks) [] h = absurd h
  length-Signs raw (k ∷ ks) (w ∷ ws) (e, h) = ap suc (length-Signs raw ks ws h)

  sign_input-prepared :
      (b : Builder) (raw : RawTx) (xs : List WitnessedPrevOutputPointer) (i : ℕ) (k : KeyPair)
      (w : Buffer)
      → i < length xs
      → env.schnorr_sign_tx_id (from_hex (codes raw.tx_id)) (to_object k) ≡ ok w
      → step env (signs_input (whole i) k) (prepared b raw xs) ≡ prepared b raw (set_witness xs i w)
  unfolding step sign_input prepare_if_needed if_not_prepared write_witness ◌>>=◌
  sign_input-prepared b raw xs i k w h e = ground arith

  -- The first signature prepares the transaction.
  sign_input-unsigned :
      (b : Builder) (raw : RawTx) (p : PrevOutputPointer) (ps : List PrevOutputPointer)
      (k : KeyPair)
      → build_raw env (unsigned b (p ∷ ps)) ≡ ok raw
      → step env (signs_input (whole 0) k) (unsigned b (p ∷ ps))
        ≡ step env (signs_input (whole 0) k) (prepared b raw (unwitnessed (p ∷ ps)))
  unfolding step sign_input prepare_if_needed if_not_prepared prepare_raw_tx ◌>>=◌
  sign_input-unsigned b raw p ps k e = ground arith

  run-sign_inputs :
      (b : Builder) (raw : RawTx) (done rest : List WitnessedPrevOutputPointer) (ks : List KeyPair)
      (ws : List Buffer) (i : ℕ)
      → i ≡ length done
      → length ks ≡ length rest
      → Signs raw ks ws
      → run env (sign_inputs i ks) (prepared b raw (done ++ rest))
        ≡ prepared b raw (done ++ witnessed rest ws)
  unfolding run
  run-sign_inputs b raw done [] [] ws i e h s = refl
  run-sign_inputs b raw done [] (k ∷ ks) ws i e h s = absurd (omega arith)
  run-sign_inputs b raw done (x ∷ rest) [] ws i e h s = absurd (omega arith)
  run-sign_inputs b raw done (x ∷ rest) (k ∷ ks) [] i e h s = absurd s
  run-sign_inputs b raw done (x ∷ rest) (k ∷ ks) (w ∷ ws) i e h (signed, s) =
      let x' : WitnessedPrevOutputPointer = record x { witness = some w } in
      let within : i < length (done ++ x ∷ rest) = omega (arith, length-append done (x ∷ rest)) in
      ap (run env (sign_inputs (suc i) ks)) (
        sign_input-prepared b raw (done ++ x ∷ rest) i k w within signed
        ∙ ap (prepared b raw)
            (rw e (set_witness-append done x rest w) ∙ sym (append_assoc done (x' ∷ []) rest)))
      ∙ run-sign_inputs b raw (done ++ x' ∷ []) rest ks ws (suc i)
          (omega (arith, length-concat done x')) (omega arith) s
      ∙ ap (prepared b raw) (append_assoc done (x' ∷ []) (witnessed rest ws))

  -- What the native module is asked to build of these inputs.
  abbrev pub builds : Builder → List PrevOutputPointer → Result RawTx
  builds b ps = env.staking.build_raw_deposit_transaction (record {
    inputs = ps;
    to_address = b.staking_address;
    chain_hex_id = b.network.chain_hex_id;
  })

  build_raw-unsigned :
      (b : Builder) (ps : List PrevOutputPointer) → build_raw env (unsigned b ps) ≡ builds b ps
  unfolding build_raw
  build_raw-unsigned b ps = ap (builds b) (pointers-unwitnessed ps)

  pub run-append :
      (cs ds : List Call) (b : Builder) → run env (cs ++ ds) b ≡ run env ds (run env cs b)
  unfolding run
  run-append [] ds b = refl
  run-append (c ∷ cs) ds b = run-append cs ds (step env c b)

  pub run-signed :
      (b : Builder) (raw : RawTx) (ps : List PrevOutputPointer) (ks : List KeyPair)
      (ws : List Buffer)
      → ps ≢ []
      → builds b ps ≡ ok raw
      → length ks ≡ length ps
      → Signs raw ks ws
      → run env (sign_inputs 0 ks) (unsigned b ps) ≡ prepared b raw (witnessed (unwitnessed ps) ws)
  unfolding run
  run-signed b raw [] ks ws ne e h s = absurd (ne refl)
  run-signed b raw (p ∷ ps) [] ws ne e h s = absurd (omega arith)
  run-signed b raw (p ∷ ps) (k ∷ ks) ws ne e h s =
      ap (run env (sign_inputs 1 ks))
        (sign_input-unsigned b raw p ps k (build_raw-unsigned b (p ∷ ps) ∙ e))
      ∙ run-sign_inputs b raw [] (unwitnessed (p ∷ ps)) (k ∷ ks) ws 0 refl
          (omega (arith, length-unwitnessed ps)) s
