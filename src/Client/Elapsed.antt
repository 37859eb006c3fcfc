-- ===== src/Client/Elapsed.antt =====
-- The loop that waits for a time.
use chain_nodelib.Prelude.{
  ℕ, zero, suc, ◌+◌, ◌*◌, ◌/◌, ◌<◌, ◌≤◌, ◌≡◌, ◌⊎◌, refl, false, arith, leb, Bool-cases, leb→le, inl,
  inr,
}
use chain_nodelib.Client.{fulfilled, Platform, resolve, settle, gets, ◌>>=◌, sleep}
use chain_nodelib.Client.Waits.{wait_for_time}

-- A sleep takes at least the time it was given.
abbrev pub Advances : {W : Type 0} → Platform W → Type 0
Advances {W} platform = (ms : ℕ) (w : W) → platform.now w + ms ≤ platform.now (platform.wait ms w)

module _ {W : Type 0} (platform : Platform W) (advances : Advances platform)
    (unix_timestamp : ℕ) where
  abbrev Arrives : ℕ → W → Type 0
  Arrives turns w =
      (w' : W) × (wait_for_time platform turns unix_timestamp w ≡ (fulfilled tt, w'))
      × (unix_timestamp * 1000 ≤ platform.now w')
      × ((w' ≡ w) ⊎ (platform.now w < unix_timestamp * 1000))

  early→lt :
      (w : W)
      → leb unix_timestamp (platform.now w / 1000) ≡ false
      → platform.now w / 1000 < unix_timestamp
  early→lt w early = ground arith

  later_turn :
      (turns : ℕ) (w : W)
      → leb unix_timestamp (platform.now w / 1000) ≡ false
      → Arrives turns (platform.wait 1000 w)
      → Arrives (suc turns) w
  unfolding wait_for_time ◌>>=◌ gets sleep
  later_turn turns w early (w', e, arrived, _) =
      (w', rw early e, arrived, inr (omega (arith, early→lt w early)))

  -- A wait for a time ends without an error and not before that time, if it may take one turn more than
  -- there are seconds left; it does not sleep unless the time is still to come.
  wait_for_time-Arrives :
      (turns : ℕ) (w : W)
      → 0 < turns
      → unix_timestamp < turns + platform.now w / 1000
      → Arrives turns w
  unfolding wait_for_time ◌>>=◌ gets resolve sleep settle
  wait_for_time-Arrives zero w pos b = absurd (omega arith)
  wait_for_time-Arrives (suc turns) w pos b =
      elim (Bool-cases (leb unix_timestamp (platform.now w / 1000))) [
        | inl arrived ↦ (w, rw arrived, omega (arith, leb→le _ _ arrived), inl refl)
        | inr early ↦ later_turn turns w early (
            wait_for_time-Arrives turns (platform.wait 1000 w) (omega (arith, early→lt w early))
              (omega (arith, early→lt w early, advances 1000 w)))
      ]
