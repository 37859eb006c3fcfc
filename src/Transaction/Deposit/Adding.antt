-- ===== src/Transaction/Deposit/Adding.antt =====
-- Which witnesses a deposit builder holds after calls of `addWitness`, and what these answer.
use chain_nodelib.Prelude.{
  ℕ, zero, suc, ◌≤◌, ◌≡◌, refl, ap, ap₂, ◌∙◌, Option, none, some, List, [], ◌∷◌, map, arith, length,
  get_elem?, if◌then◌else◌, ◌==◌, ltb,
}
use chain_nodelib.Method.{Result, ok, err, thrown, type_error, ◌>>=◌}
use chain_nodelib.Number.{Number, whole, fraction, negative}
use chain_nodelib.Buffer.{Buffer}
use chain_nodelib.Native.{Env}
use chain_nodelib.Transaction.Deposit.{
  WitnessedPrevOutputPointer, DepositTransactionBuilder, set_witness, add_witness, write_witness,
}
use chain_nodelib.Transaction.Deposit.Calls.{
  Call, adds_witness, Answer, nothing, answer, answers, step, run,
}

abbrev pub Witnesses : Type 0
Witnesses = List (Number × Buffer)

-- The calls that add each witness at its index.
abbrev pub add_witnesses : Witnesses → List Call
add_witnesses [] = []
add_witnesses ((n, w) ∷ ws) = adds_witness n w ∷ add_witnesses ws

-- What `addWitness` answers at an index, on a builder with so many inputs.
abbrev pub outcome : ℕ → Number → Result Answer
outcome zero n = err (thrown "Builder has no input")
outcome (suc count) (whole i) =
    if ltb i (suc count) then ok nothing else err (thrown "Input index out of bound")
outcome (suc count) (fraction i) =
    if ltb i (suc count) then err type_error else err (thrown "Input index out of bound")
outcome (suc count) negative = err (thrown "Input index out of bound")

-- The witness that was added last at an index, or else the one that was there.
abbrev pub last_at : ℕ → Witnesses → Option Buffer → Option Buffer
last_at i [] own = own
last_at i ((whole j, w) ∷ ws) own = last_at i ws (if i == j then some w else own)
last_at i ((fraction j, w) ∷ ws) own = last_at i ws own
last_at i ((negative, w) ∷ ws) own = last_at i ws own

abbrev pub with_last :
    ℕ → Witnesses → Option WitnessedPrevOutputPointer → Option WitnessedPrevOutputPointer
with_last i ws none = none
with_last i ws (some x) = some (record x { witness = last_at i ws x.witness })

-- The write of `addWitness`.
abbrev written : Number → Buffer → List WitnessedPrevOutputPointer → List WitnessedPrevOutputPointer
written (whole i) w xs = set_witness xs i w
written (fraction i) w xs = xs
written negative w xs = xs

set_witness_outside :
    (xs : List WitnessedPrevOutputPointer) (i : ℕ) (w : Buffer)
    → length xs ≤ i
    → set_witness xs i w ≡ xs
set_witness_outside [] i w h = refl
set_witness_outside (x ∷ xs) zero w h = absurd (omega arith)
set_witness_outside (x ∷ xs) (suc i) w h = ap (◌∷◌ x) (set_witness_outside xs i w (omega arith))

length-set_witness :
    (xs : List WitnessedPrevOutputPointer) (i : ℕ) (w : Buffer)
    → length (set_witness xs i w) ≡ length xs
length-set_witness [] i w = refl
length-set_witness (x ∷ xs) zero w = refl
length-set_witness (x ∷ xs) (suc i) w = ap suc (length-set_witness xs i w)

length-written :
    (n : Number) (w : Buffer) (xs : List WitnessedPrevOutputPointer)
    → length (written n w xs) ≡ length xs
length-written (whole i) w xs = length-set_witness xs i w
length-written (fraction i) w xs = refl
length-written negative w xs = refl

-- What a write at an index does to what stands at an index.
abbrev touched :
    ℕ → ℕ → Buffer → Option WitnessedPrevOutputPointer → Option WitnessedPrevOutputPointer
touched i j w none = none
touched i j w (some x) = some (if i == j then record x { witness = some w } else x)

touched-suc :
    (i j : ℕ) (w : Buffer) (o : Option WitnessedPrevOutputPointer)
    → touched i j w o ≡ touched (suc i) (suc j) w o
touched-suc i j w none = refl
touched-suc i j w (some x) = ground arith

touched-zero :
    (i : ℕ) (w : Buffer) (o : Option WitnessedPrevOutputPointer) → o ≡ touched (suc i) 0 w o
touched-zero i w none = refl
touched-zero i w (some x) = ground arith

get_elem?-set_witness :
    (xs : List WitnessedPrevOutputPointer) (i j : ℕ) (w : Buffer)
    → get_elem? (set_witness xs j w) i ≡ touched i j w (get_elem? xs i)
get_elem?-set_witness [] i j w = refl
get_elem?-set_witness (x ∷ xs) zero zero w = ground arith
get_elem?-set_witness (x ∷ xs) zero (suc j) w = ground arith
get_elem?-set_witness (x ∷ xs) (suc i) zero w = touched-zero i w (get_elem? xs i)
get_elem?-set_witness (x ∷ xs) (suc i) (suc j) w =
    get_elem?-set_witness xs i j w ∙ touched-suc i j w (get_elem? xs i)

with_last-touched :
    (i j : ℕ) (w : Buffer) (ws : Witnesses) (o : Option WitnessedPrevOutputPointer)
    → with_last i ws (touched i j w o) ≡ with_last i ((whole j, w) ∷ ws) o
with_last-touched i j w ws none = refl
with_last-touched i j w ws (some x) = ground arith

get_elem?-written :
    (n : Number) (xs : List WitnessedPrevOutputPointer) (i : ℕ) (w : Buffer) (ws : Witnesses)
    → with_last i ws (get_elem? (written n w xs) i) ≡ with_last i ((n, w) ∷ ws) (get_elem? xs i)
get_elem?-written (whole j) xs i w ws =
    ap (with_last i ws) (get_elem?-set_witness xs i j w)
    ∙ with_last-touched i j w ws (get_elem? xs i)
get_elem?-written (fraction j) xs i w ws = same (get_elem? xs i)
  where
    same :
        (o : Option WitnessedPrevOutputPointer)
        → with_last i ws o ≡ with_last i ((fraction j, w) ∷ ws) o
    same none = refl
    same (some x) = refl
get_elem?-written negative xs i w ws = same (get_elem? xs i)
  where
    same :
        (o : Option WitnessedPrevOutputPointer)
        → with_last i ws o ≡ with_last i ((negative, w) ∷ ws) o
    same none = refl
    same (some x) = refl

with_last-nil : (i : ℕ) (o : Option WitnessedPrevOutputPointer) → o ≡ with_last i [] o
with_last-nil i none = refl
with_last-nil i (some x) = refl

module _ {B : Type 0} (env : Env B) where
  abbrev replaced :
      DepositTransactionBuilder B → List WitnessedPrevOutputPointer → DepositTransactionBuilder B
  replaced b xs = record b { inputs = xs }

  call-add_witness :
      (n : Number) (w : Buffer) (b : DepositTransactionBuilder B)
      (xs : List WitnessedPrevOutputPointer)
      → (answer env (adds_witness n w) (replaced b xs) ≡ outcome (length xs) n)
        × (step env (adds_witness n w) (replaced b xs) ≡ replaced b (written n w xs))
  unfolding step add_witness write_witness ◌>>=◌
  call-add_witness (whole i) w b [] = (refl, refl)
  call-add_witness (fraction i) w b [] = (refl, refl)
  call-add_witness negative w b [] = (refl, refl)
  call-add_witness (whole i) w b (x ∷ xs) = (
    ground arith,
    ground (
      arith,
      λ (h : length (x ∷ xs) ≤ i).
          ap (λ l. record b { inputs = l }) (set_witness_outside (x ∷ xs) i w h),
    ),
  )
  call-add_witness (fraction i) w b (x ∷ xs) = (ground arith, ground arith)
  call-add_witness negative w b (x ∷ xs) = (refl, refl)

  run-replaced :
      (ws : Witnesses) (b : DepositTransactionBuilder B) (xs : List WitnessedPrevOutputPointer)
      → (answers env (add_witnesses ws) (replaced b xs) ≡ map (λ x. outcome (length xs) x.0) ws)
        × (ys : List WitnessedPrevOutputPointer) × (run env (add_witnesses ws) (replaced b xs)
            ≡ replaced b ys)
        × ((i : ℕ) → get_elem? ys i ≡ with_last i ws (get_elem? xs i))
  unfolding run
  run-replaced [] b xs = (refl, xs, refl, λ i. with_last-nil i (get_elem? xs i))
  run-replaced ((n, w) ∷ ws) b xs =
      let (said, next) = call-add_witness n w b xs in
      let (rest, ys, left, each) = run-replaced ws b (written n w xs) in
      (
        ap₂ ◌∷◌ said (
            ap (answers env (add_witnesses ws)) next
            ∙ rest
            ∙ ap (λ k. map (λ x. outcome k x.0) ws) (length-written n w xs)),
        ys,
        ap (run env (add_witnesses ws)) next ∙ left,
        λ i. each i ∙ get_elem?-written n xs i w ws,
      )

  -- Any calls of `addWitness`, failing ones included, answer what the number of inputs and the index
  -- say: they throw without an input, at a negative index or one that is not below the number of
  -- inputs, and at a fraction. Behind them each input has the witness that was added last at its index,
  -- or its own if none was, and nothing else is changed.
  pub run-add_witnesses :
      (ws : Witnesses) (b : DepositTransactionBuilder B)
      → (answers env (add_witnesses ws) b ≡ map (λ x. outcome (length b.inputs) x.0) ws)
        × (record (run env (add_witnesses ws) b) { inputs = b.inputs } ≡ b)
        × ((i : ℕ)
            → get_elem? (run env (add_witnesses ws) b).inputs i
              ≡ with_last i ws (get_elem? b.inputs i))
  run-add_witnesses ws b =
      let (said, ys, left, each) = run-replaced ws b b.inputs in
      (said, ap (λ c. replaced c b.inputs) left, λ i. ap (λ c. get_elem? c.inputs i) left ∙ each i)
