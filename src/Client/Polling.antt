-- ===== src/Client/Polling.antt =====
-- What the loops that wait settle with.
use mathlib.Core.Path.{subst}
use chain_nodelib.Prelude.{
  ℕ, zero, suc, ◌≤◌, ◌≡◌, ◌≢◌, ◌↔◌, refl, sym, ap, Bool, true, false, if◌then◌else◌, arith,
}
use chain_nodelib.Client.{
  Json, Failure, Outcome, fulfilled, rejected, pending, Platform, resolve, settle, continue, ◌>>=◌,
  ◌>>◌, sleep,
}
use chain_nodelib.Client.Tendermint.{TendermintRpc, check_confirmation, wait_tx_id_confirmation}

module _ {W : Type 0} (platform : Platform W) (client : TendermintRpc) (tx_id : Json)
    (retry_timeout : ℕ) where
  -- Checks one after the other, with a sleep between two, up to the one that decides.
  pub data Settles : ℕ → W → Outcome Bool → W → Type 0 where
    exists :
        {w w' : W}
        → check_confirmation platform client tx_id w ≡ (fulfilled true, w')
        → Settles 1 w (fulfilled true) w'
    fails :
        {e : Failure} {w w' : W}
        → check_confirmation platform client tx_id w ≡ (rejected e, w')
        → Settles 1 w (rejected e) w'
    later :
        {n : ℕ} {o : Outcome Bool} {w w' w'' : W}
        → check_confirmation platform client tx_id w ≡ (fulfilled false, w')
        → Settles n (platform.wait retry_timeout w') o w''
        → Settles (suc n) w o w''

  wait_complete :
      (turns : ℕ) {n : ℕ} {o : Outcome Bool} {w w' : W}
      → Settles n w o w'
      → n ≤ turns
      → wait_tx_id_confirmation platform turns client tx_id retry_timeout w ≡ (o, w')
  unfolding wait_tx_id_confirmation ◌>>=◌ sleep resolve settle
  wait_complete zero (exists h) b = absurd (omega arith)
  wait_complete (suc turns) (exists h) b = rw h
  wait_complete zero (fails h) b = absurd (omega arith)
  wait_complete (suc turns) (fails h) b = rw h
  wait_complete zero (later h s) b = absurd (omega arith)
  wait_complete (suc turns) (later h s) b = rw h (wait_complete turns s (omega arith))

  abbrev Settled : ℕ → W → Outcome Bool → W → Type 0
  Settled turns w o w' = (n : ℕ) × (n ≤ turns) × Settles n w o w'

  later-Settled :
      {turns : ℕ} {o : Outcome Bool} {w w' w'' : W}
      → check_confirmation platform client tx_id w ≡ (fulfilled false, w')
      → Settled turns (platform.wait retry_timeout w') o w''
      → Settled (suc turns) w o w''
  later-Settled h (n, b, s) = (suc n, omega arith, later h s)

  -- What follows a check.
  abbrev after_check : ℕ → Outcome Bool × W → Outcome Bool × W
  after_check turns r =
      continue
        (λ exists.
          if exists
          then resolve true
          else sleep platform retry_timeout
            >> wait_tx_id_confirmation platform turns client tx_id retry_timeout)
        r.0 r.1

  turn_sound :
      (turns : ℕ) {o : Outcome Bool} {w w' : W} (r : Outcome Bool × W)
      → ((w : W)
          → wait_tx_id_confirmation platform turns client tx_id retry_timeout w ≡ (o, w')
          → Settled turns w o w')
      → o ≢ pending
      → check_confirmation platform client tx_id w ≡ r
      → after_check turns r ≡ (o, w')
      → Settled (suc turns) w o w'
  unfolding ◌>>=◌ sleep resolve
  turn_sound turns {o} {w} {w'} (fulfilled true, w1) ih np e h =
      (1, omega arith, subst (λ (p : Outcome Bool × W). Settles 1 w p.0 p.1) h (exists e))
  turn_sound turns (fulfilled false, w1) ih np e h = later-Settled e (ih _ h)
  turn_sound turns {o} {w} {w'} (rejected f, w1) ih np e h =
      (1, omega arith, subst (λ (p : Outcome Bool × W). Settles 1 w p.0 p.1) h (fails e))
  turn_sound turns (pending, w1) ih np e h = absurd (np (sym (ap (λ p. p.0) h)))

  wait_sound :
      (turns : ℕ) {o : Outcome Bool} {w' : W} (w : W)
      → o ≢ pending
      → wait_tx_id_confirmation platform turns client tx_id retry_timeout w ≡ (o, w')
      → Settled turns w o w'
  unfolding wait_tx_id_confirmation settle ◌>>=◌
  wait_sound zero w np h = absurd (np (sym (ap (λ p. p.0) h)))
  wait_sound (suc turns) w np h =
      turn_sound turns (check_confirmation platform client tx_id w) (λ w1. wait_sound turns w1 np)
        np refl h

  -- The wait for a transaction ends with an answer or an error within a number of turns exactly where
  -- that many checks at most, each after the first behind a sleep, lead to it: all but the last say that
  -- the transaction is not there yet, and the last says that it is, or fails.
  pub wait_tx_id_confirmation_iff :
      (turns : ℕ) {o : Outcome Bool} (w w' : W)
      → o ≢ pending
      → (wait_tx_id_confirmation platform turns client tx_id retry_timeout w ≡ (o, w'))
        ↔ ((n : ℕ) × (n ≤ turns) × Settles n w o w')
  wait_tx_id_confirmation_iff turns w w' np =
      (wait_sound turns w np, λ (n, b, s). wait_complete turns s b)
