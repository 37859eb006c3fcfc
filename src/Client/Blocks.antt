-- ===== src/Client/Blocks.antt =====
-- The loop that waits for blocks.
use native.Mathlib.Nat.{suc-mul, zero-mul, suc-add, zero-add}
use chain_nodelib.Prelude.{
  ℕ, zero, suc, ◌+◌, ◌*◌, ◌<◌, ◌≤◌, ◌≡◌, ap, ◌∙◌, true, false, some, arith, ltb, Bool-cases, ltb→lt,
  inl, inr, ◌++◌,
}
use chain_nodelib.Buffer.{codes}
use chain_nodelib.Client.{
  Json, object, member, no_members, fulfilled, Platform, resolve, settle, ◌>>=◌, sleep,
}
use chain_nodelib.Client.Tendermint.{TendermintRpc, latest_block_height}
use chain_nodelib.Client.Waits.{has_passed, wait_past, wait_for_block_count}

-- What a node answers when it is asked for its status.
abbrev pub status : Json → Json
status height = object (
    member "result"
      (object
        (member "sync_info" (object (member "latest_block_height" height no_members)) no_members))
      no_members)

-- So many sleeps of a second.
abbrev pub sleeps : {W : Type 0} → Platform W → ℕ → W → W
sleeps platform zero w = w
sleeps platform (suc n) w = sleeps platform n (platform.wait 1000 w)

-- A node that is not changed by a question, answers its height, which does not fall, and makes a
-- block in so many seconds.
pub record IsProducing {W : Type 0} (platform : Platform W) (client : TendermintRpc)
    (height : W → ℕ) (interval : ℕ) : Type 0 where
  pub answers :
      (w : W)
      → (j : Json) × (platform.get (client.url ++ codes "/status") w ≡ (fulfilled (status j), w))
        × (platform.to_number j ≡ some (height w))
  pub keeps : (w : W) → height w ≤ height (platform.wait 1000 w)
  pub grows : (w : W) → height w < height (sleeps platform interval w)

module _ {W : Type 0} (platform : Platform W) (client : TendermintRpc) (height : W → ℕ)
    (interval : ℕ) (producing : IsProducing platform client height interval) where
  sleeps-add :
      (m n : ℕ) (w : W) → sleeps platform (m + n) w ≡ sleeps platform n (sleeps platform m w)
  sleeps-add zero n w = ap (λ k. sleeps platform k w) (zero-add n)
  sleeps-add (suc m) n w =
      ap (λ k. sleeps platform k w) (suc-add m n) ∙ sleeps-add m n (platform.wait 1000 w)

  height-sleeps : (k : ℕ) (w : W) → height w + k ≤ height (sleeps platform (k * interval) w)
  height-sleeps zero w =
      rw (ap (λ n. height (sleeps platform n w)) (zero-mul interval)) (omega arith)
  height-sleeps (suc k) w =
      let before = height-sleeps k w in
      let grown = producing.grows (sleeps platform (k * interval) w) in
      rw
        (
          ap (λ n. height (sleeps platform n w)) (suc-mul k interval),
          ap height (sleeps-add (k * interval) interval w),
        )
        (omega (arith, before, grown))

  height_read :
      (w : W)
      → (j : Json) × (latest_block_height platform client w ≡ (fulfilled j, w))
        × (platform.to_number j ≡ some (height w))
  unfolding latest_block_height ◌>>=◌ settle
  height_read w = let (j, e, h) = producing.answers w in (j, rw e, h)

  abbrev Passes : ℕ → ℕ → ℕ → Json → W → Type 0
  Passes turns count last j w =
      (w' : W) × (wait_past platform turns count j client w ≡ (fulfilled tt, w'))
      × (last + count < height w')

  lt→ltb : (m n : ℕ) → m < n → ltb m n ≡ true
  lt→ltb m n h = ground arith

  has_passed-heights :
      (count last : ℕ) (j now : Json) (w : W)
      → platform.to_number j ≡ some last
      → platform.to_number now ≡ some (height w)
      → has_passed platform count j now ≡ ltb (last + count) (height w)
  has_passed-heights count last j now w h hn = rw (hn, h)

  passed_turn :
      (turns count : ℕ) (j now : Json) (w : W)
      → latest_block_height platform client w ≡ (fulfilled now, w)
      → has_passed platform count j now ≡ true
      → wait_past platform (suc turns) count j client w ≡ (fulfilled tt, w)
  unfolding wait_past ◌>>=◌ resolve
  passed_turn turns count j now w e p = rw (e, p)

  later_turn :
      (turns count : ℕ) (j now : Json) (w : W)
      → latest_block_height platform client w ≡ (fulfilled now, w)
      → has_passed platform count j now ≡ false
      → wait_past platform (suc turns) count j client w
        ≡ wait_past platform turns count j client (platform.wait 1000 w)
  unfolding wait_past ◌>>=◌ resolve sleep
  later_turn turns count j now w e p = rw (e, p)

  wait_past-Passes :
      (n turns count last : ℕ) (j : Json) (w : W)
      → platform.to_number j ≡ some last
      → last + count < height (sleeps platform n w)
      → n < turns
      → Passes turns count last j w
  wait_past-Passes n zero count last j w h above b = absurd (omega arith)
  wait_past-Passes zero (suc turns) count last j w h above b =
      let (now, e, hn) = height_read w in
      (
        w,
        passed_turn turns count j now w e
            (has_passed-heights count last j now w h hn ∙ lt→ltb _ _ above),
        above,
      )
  wait_past-Passes (suc n) (suc turns) count last j w h above b =
      let rest =
        wait_past-Passes n turns count last j (platform.wait 1000 w) h above (omega arith) in
      let (now, e, hn) = height_read w in
      elim (Bool-cases (ltb (last + count) (height w))) [
        | inl passed ↦ (
          w,
          passed_turn turns count j now w e (has_passed-heights count last j now w h hn ∙ passed),
          ltb→lt _ _ passed,
        )
        | inr early ↦ (
          rest.0,
          later_turn turns count j now w e (has_passed-heights count last j now w h hn ∙ early)
              ∙ rest.1,
          rest.2,
        )
      ]

  -- The wait for blocks ends without an error if it may take more turns than a producing node needs
  -- for one block more than the count, and then the height has grown by more than the count.
  pub wait_for_block_count-passes :
      (turns count : ℕ) (w : W)
      → suc count * interval < turns
      → (w' : W) × (wait_for_block_count platform turns count client w ≡ (fulfilled tt, w'))
        × (height w + count < height w')
  unfolding wait_for_block_count ◌>>=◌
  wait_for_block_count-passes turns count w b =
      let (j, e, h) = height_read w in
      let (w', passes, above) =
        wait_past-Passes (suc count * interval) turns count (height w) j w h
          (omega (arith, height-sleeps (suc count) w)) b in
      (w', rw e passes, above)
