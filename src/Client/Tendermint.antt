-- ===== src/Client/Tendermint.antt =====
-- integration-tests/common/tendermint-rpc.ts
use chain_nodelib.Prelude.{
  ℕ, zero, suc, String, Bool, true, false, List, [], ◌∷◌, ◌++◌, if◌then◌else◌, ◌==◌,
}
use chain_nodelib.Number.{whole}
use chain_nodelib.Buffer.{codes}
use chain_nodelib.Client.{
  Json, number, text, error, Outcome, fulfilled, rejected, pending, Platform, Async, resolve,
  settle, gets, ◌>>=◌, ◌>>◌, property, read, sleep, async_middleman,
}

pub record TendermintRpc : Type 0 where
  pub url : List ℕ

abbrev pub is_zero : Json → Bool
is_zero (number (whole n)) = n == 0
is_zero _ = false

module _ {W : Type 0} (platform : Platform W) where
  -- `axios.get(url).then((res) => res.data.result)`
  abbrev get_result : List ℕ → Async W Json
  get_result url = do data_ ← platform.get url; settle (read platform "result" data_)

  pub abci_info : TendermintRpc → Async W Json
  abci_info client = get_result (client.url ++ codes "/abci_info")

  unfoldable pub latest_block_height : TendermintRpc → Async W Json
  latest_block_height client = do
    result ← get_result (client.url ++ codes "/status")
    sync_info ← settle (read platform "sync_info" result)
    settle (read platform "latest_block_height" sync_info)

  pub latest_validators : TendermintRpc → Async W Json
  latest_validators client = get_result (client.url ++ codes "/validators")

  abbrev post_transaction : String → TendermintRpc → List ℕ → Async W Json
  post_transaction method client encoded_tx = do
    id ← gets platform.now
    platform.post client.url (record { id = id; method = method; params = text encoded_tx ∷ [] })

  -- of the response the model keeps the `data`
  unfoldable pub broadcast_tx : TendermintRpc → List ℕ → Async W Json
  broadcast_tx client encoded_tx = post_transaction "broadcast_tx_async" client encoded_tx

  -- `response.result?.[name]?.code !== 0`
  abbrev pub throw_unless_zero : String → Json → Outcome (Unit {0})
  throw_unless_zero name response = elim (read platform "result" response) [
    | rejected e ↦ rejected e
    | pending ↦ pending
    | fulfilled result ↦
        if is_zero (property "code" (property name result))
        then fulfilled tt
        else rejected
            (error (codes "Error when broadcasting transaction: " ++ platform.stringify response))
  ]

  unfoldable pub broadcast_tx_commit : TendermintRpc → List ℕ → Async W (Unit {0})
  broadcast_tx_commit client encoded_tx = do
    response ← post_transaction "broadcast_tx_commit" client encoded_tx
    settle (throw_unless_zero "check_tx" response)
    settle (throw_unless_zero "deliver_tx" response)

  abbrev tx_search : TendermintRpc → Json → List ℕ
  tx_search client tx_id =
      client.url
      ++ (codes "/tx_search?query=\"valid_txs.txid='" ++ (platform.template tx_id ++ codes "'\""))

  unfoldable pub is_tx_id_confirmed : TendermintRpc → Json → Async W Bool
  is_tx_id_confirmed client tx_id = do
    result ← get_result (tx_search client tx_id)
    total_count ← settle (read platform "total_count" result)
    resolve (platform.is_greater_than_or_equal_to total_count 1)

  -- one turn of the loop, up to the sleep
  unfoldable pub check_confirmation : TendermintRpc → Json → Async W Bool
  check_confirmation client tx_id =
      async_middleman platform (is_tx_id_confirmed client tx_id)
        "Error when retrieving transaction confirmation"

  -- the loop, with the number of turns it may take
  unfoldable pub wait_tx_id_confirmation : ℕ → TendermintRpc → Json → ℕ → Async W Bool
  wait_tx_id_confirmation zero client tx_id retry_timeout = settle pending
  wait_tx_id_confirmation (suc turns) client tx_id retry_timeout =
      let rest =
        sleep platform retry_timeout >> wait_tx_id_confirmation turns client tx_id retry_timeout in
      do exists ← check_confirmation client tx_id; if exists then resolve true else rest
