-- ===== src/Client/Waits.antt =====
-- integration-tests/common/utils.ts: the loops that wait for blocks and for a time, with the number
-- of turns they may take.
use chain_nodelib.Prelude.{
  ℕ, zero, suc, ◌+◌, ◌/◌, Bool, false, Option, none, some, if◌then◌else◌, ltb, leb,
}
use chain_nodelib.Client.{Json, pending, Platform, Async, resolve, settle, gets, ◌>>=◌, ◌>>◌, sleep}
use chain_nodelib.Client.Tendermint.{TendermintRpc, latest_block_height}

-- `latest - last > count`, false where one of the two is not a number
abbrev exceeds : Option ℕ → Option ℕ → ℕ → Bool
exceeds none last count = false
exceeds (some latest) none count = false
exceeds (some latest) (some last) count = ltb (last + count) latest

module _ {W : Type 0} (platform : Platform W) where
  abbrev pub has_passed : ℕ → Json → Json → Bool
  has_passed count last latest = exceeds (platform.to_number latest) (platform.to_number last) count

  unfoldable pub wait_past : ℕ → ℕ → Json → TendermintRpc → Async W (Unit {0})
  wait_past zero count last client = settle pending
  wait_past (suc turns) count last client =
      let rest = sleep platform 1000 >> wait_past turns count last client in
      do
        latest ← latest_block_height platform client
        if has_passed count last latest then resolve tt else rest

  unfoldable pub wait_for_block_count : ℕ → ℕ → TendermintRpc → Async W (Unit {0})
  wait_for_block_count turns count client = do
    last ← latest_block_height platform client
    wait_past turns count last client

  unfoldable pub wait_for_time : ℕ → ℕ → Async W (Unit {0})
  wait_for_time zero unix_timestamp = settle pending
  wait_for_time (suc turns) unix_timestamp =
      let rest = sleep platform 1000 >> wait_for_time turns unix_timestamp in
      do now ← gets λ w. platform.now w / 1000; if leb unix_timestamp now then resolve tt else rest
