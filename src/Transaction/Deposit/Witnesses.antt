-- ===== src/Transaction/Deposit/Witnesses.antt =====
-- The witnesses of the inputs of a deposit builder.
use mathlib.Core.List.{append_assoc}
use chain_nodelib.Prelude.{
  ℕ, suc, ◌<◌, ◌≡◌, ◌≢◌, ◌↔◌, refl, sym, ap, ◌∙◌, true, false, none, some, List, [], ◌∷◌, ◌++◌, map,
  arith, All, length, length-append, length-concat, all, is_some,
}
use chain_nodelib.Method.{ok, ◌>>=◌}
use chain_nodelib.Number.{whole}
use chain_nodelib.Buffer.{Buffer}
use chain_nodelib.Native.{Env, PrevOutputPointer}
use chain_nodelib.Transaction.Deposit.{
  WitnessedPrevOutputPointer, without_witness, DepositTransactionBuilder, set_witness,
  write_witness, add_witness, is_completed,
}
use chain_nodelib.Transaction.Deposit.Calls.{Call, adds_witness, step, run}
use chain_nodelib.Transaction.Deposit.Prepared.{pointers}

-- The inputs of these pointers, with no witness.
abbrev pub unwitnessed : List PrevOutputPointer → List WitnessedPrevOutputPointer
unwitnessed [] = []
unwitnessed (p ∷ ps) = record { prev_output_pointer = p; witness = none } ∷ unwitnessed ps

-- The calls that add these witnesses to the inputs from the index on.
abbrev pub add_witnesses : ℕ → List Buffer → List Call
add_witnesses i [] = []
add_witnesses i (w ∷ ws) = adds_witness (whole i) w ∷ add_witnesses (suc i) ws

abbrev pub witnessed :
    List WitnessedPrevOutputPointer → List Buffer → List WitnessedPrevOutputPointer
witnessed [] ws = []
witnessed (x ∷ xs) [] = x ∷ xs
witnessed (x ∷ xs) (w ∷ ws) = record x { witness = some w } ∷ witnessed xs ws

pub unwitnessed-concat :
    (xs : List WitnessedPrevOutputPointer) (p : PrevOutputPointer)
    → map without_witness xs ++ record { prev_output_pointer = p; witness = none } ∷ []
      ≡ unwitnessed (pointers xs ++ p ∷ [])
unwitnessed-concat [] p = refl
unwitnessed-concat (x ∷ xs) p = rw (unwitnessed-concat xs p)

all-unwitnessed :
    (ps : List PrevOutputPointer) (p : PrevOutputPointer)
    → all (λ x. is_some x.witness) (unwitnessed (ps ++ p ∷ [])) ≡ false
all-unwitnessed [] p = refl
all-unwitnessed (q ∷ ps) p = refl

all-witnessed :
    (xs : List WitnessedPrevOutputPointer) (ws : List Buffer)
    → length ws ≡ length xs
    → all (λ x. is_some x.witness) (witnessed xs ws) ≡ true
all-witnessed [] ws h = refl
all-witnessed (x ∷ xs) [] h = absurd (omega arith)
all-witnessed (x ∷ xs) (w ∷ ws) h = all-witnessed xs ws (omega arith)

pub set_witness-append :
    (xs : List WitnessedPrevOutputPointer) (y : WitnessedPrevOutputPointer)
    (ys : List WitnessedPrevOutputPointer) (w : Buffer)
    → set_witness (xs ++ y ∷ ys) (length xs) w ≡ xs ++ record y { witness = some w } ∷ ys
set_witness-append [] y ys w = refl
set_witness-append (x ∷ xs) y ys w = ap (◌∷◌ x) (set_witness-append xs y ys w)

all_iff :
    (xs : List WitnessedPrevOutputPointer)
    → (all (λ x. is_some x.witness) xs ≡ true) ↔ All (λ x. x.witness ≢ none) xs
all_iff [] = ground arith
all_iff (x ∷ xs) = ground (arith, all_iff xs)

module _ {B : Type 0} (env : Env B) where
  add_witness_whole :
      (i : ℕ) (w : Buffer) (b : DepositTransactionBuilder B)
      → i < length b.inputs
      → add_witness env (whole i) w b ≡ (ok tt, record b { inputs = set_witness b.inputs i w })
  unfolding add_witness write_witness ◌>>=◌
  add_witness_whole i w b h = ground arith

  add_witness-append :
      (done rest : List WitnessedPrevOutputPointer) (x : WitnessedPrevOutputPointer) (i : ℕ)
      (w : Buffer) (b : DepositTransactionBuilder B)
      → i ≡ length done
      → (add_witness env (whole i) w (record b { inputs = done ++ x ∷ rest })).1
        ≡ record b { inputs = (done ++ record x { witness = some w } ∷ []) ++ rest }
  add_witness-append done rest x i w b e =
      let within : i < length (done ++ x ∷ rest) = omega (arith, length-append done (x ∷ rest)) in
      ap (λ r. r.1) (add_witness_whole i w (record b { inputs = done ++ x ∷ rest }) within)
      ∙ ap (λ is. record b { inputs = is })
          (rw e (set_witness-append done x rest w)
            ∙ sym (append_assoc done (record x { witness = some w } ∷ []) rest))

  run-add_witnesses :
      (done rest : List WitnessedPrevOutputPointer) (ws : List Buffer) (i : ℕ)
      (b : DepositTransactionBuilder B)
      → i ≡ length done
      → length ws ≡ length rest
      → run env (add_witnesses i ws) (record b { inputs = done ++ rest })
        ≡ record b { inputs = done ++ witnessed rest ws }
  unfolding run step
  run-add_witnesses done [] [] i b e h = refl
  run-add_witnesses done [] (w ∷ ws) i b e h = absurd (omega arith)
  run-add_witnesses done (x ∷ rest) [] i b e h = absurd (omega arith)
  run-add_witnesses done (x ∷ rest) (w ∷ ws) i b e h =
      let x' : WitnessedPrevOutputPointer = record x { witness = some w } in
      ap (run env (add_witnesses (suc i) ws)) (add_witness-append done rest x i w b e)
      ∙ run-add_witnesses (done ++ x' ∷ []) rest ws (suc i) b (omega (arith, length-concat done x'))
          (omega arith)
      ∙ ap (λ is. record b { inputs = is }) (append_assoc done (x' ∷ []) (witnessed rest ws))

  pub is_completed-witnessed :
      (xs : List WitnessedPrevOutputPointer) (ws : List Buffer) (b : DepositTransactionBuilder B)
      → xs ≢ []
      → length ws ≡ length xs
      → is_completed env (record b { inputs = witnessed xs ws }) ≡ true
  unfolding is_completed
  is_completed-witnessed [] ws b ne h = absurd (ne refl)
  is_completed-witnessed (x ∷ xs) [] b ne h = absurd (omega arith)
  is_completed-witnessed (x ∷ xs) (w ∷ ws) b ne h = all-witnessed xs ws (omega arith)

  -- Where there is an input, adding one witness for each, in order, leaves each input with its pointer
  -- and its witness, changes nothing else and completes the builder.
  add_witnesses_complete :
      (ws : List Buffer) (b : DepositTransactionBuilder B)
      → b.inputs ≢ []
      → length ws ≡ length b.inputs
      → (run env (add_witnesses 0 ws) b ≡ record b { inputs = witnessed b.inputs ws })
        × (is_completed env (run env (add_witnesses 0 ws) b) ≡ true)
  add_witnesses_complete ws b ne h =
      let all_set = run-add_witnesses [] b.inputs ws 0 b refl h in
      (all_set, rw all_set (is_completed-witnessed b.inputs ws b ne h))
