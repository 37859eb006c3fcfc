-- ===== src/Client/Rpc.antt =====
-- integration-tests/common/rpc-client.ts
use chain_nodelib.Prelude.{ℕ, ◌+◌, String, List, [], ◌∷◌, if◌then◌else◌}
use chain_nodelib.Client.{
  Json, text, lossless, big_number, value, Outcome, fulfilled, rejected, pending, Platform, Async,
  settle, gets, modify, ◌>>=◌, ◌>>◌, truthy, read,
}

-- `requestId` is kept beside the state of the servers.
pub record Clients (W : Type 0) : Type 0 where
  pub request_id : ℕ
  pub world : W

pub record RpcClient : Type 0 where
  pub url : List ℕ

-- `string | any[]`
pub data Params : Type 0 where
  one : List ℕ → Params
  many : List Json → Params

abbrev params_list : Params → List Json
params_list (one s) = text s ∷ []
params_list (many vs) = vs

-- `losslessJSONReceiver`
abbrev lossless_json_receiver : Json → Json
lossless_json_receiver (lossless n) = big_number n
lossless_json_receiver v = v

module _ {W : Type 0} where
  -- what is done by a client without a state of its own
  unfoldable pub on_world : {A : Type 0} → Async W A → Async (Clients W) A
  on_world m s = ((m s.world).0, record s { world = (m s.world).1 })

  -- `new RpcClient(url)`
  abbrev pub initial : W → Clients W
  initial w = record { request_id = 1; world = w }

module _ {W : Type 0} (platform : Platform W) where
  -- `axios.post` with the next id
  unfoldable pub post_request : RpcClient → String → Params → Async (Clients W) Json
  post_request client method params = do
    modify λ c. record c { request_id = c.request_id + 1 }
    id ← gets λ c. c.request_id
    on_world (
        platform.post_transformed client.url
          (record { id = id; method = method; params = params_list params })
          λ raw_data. platform.parse raw_data lossless_json_receiver)

  -- what is made of the `data` of the response
  abbrev pub answer : Json → Outcome Json
  answer response = elim (read platform "error" response) [
    | rejected e ↦ rejected e
    | pending ↦ pending
    | fulfilled failure ↦
        if truthy failure then rejected (value failure) else read platform "result" response
  ]

  unfoldable pub request : RpcClient → String → Params → Async (Clients W) Json
  request client method params = do
    response ← post_request client method params
    settle (answer response)
