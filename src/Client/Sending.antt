-- ===== src/Client/Sending.antt =====
-- The requests and the waits of the clients, seen by the server.
use chain_nodelib.Prelude.{
  ℕ, zero, suc, refl, String, Bool, true, false, List, [], ◌∷◌, if◌then◌else◌,
}
use chain_nodelib.Client.{
  Json, Platform, Async, resolve, settle, gets, modify, ◌>>=◌, sleep, async_middleman,
}
use chain_nodelib.Client.Rpc.{RpcClient, Params, on_world, post_request, answer, request}
use chain_nodelib.Client.Tendermint.{
  TendermintRpc, is_tx_id_confirmed, check_confirmation, wait_tx_id_confirmation,
}
use chain_nodelib.Client.Requests.{
  IsRecord, Sends, Keeps, Sent-all, Keeps-bind, Sends-settle, Sends-bind,
}

module _ {W : Type 0} (platform : Platform W) (posted : W → List (ℕ × String))
    (is_record : IsRecord platform posted) where
  Keeps-is_tx_id_confirmed :
      (client : TendermintRpc) (tx_id : Json)
      → Keeps posted (is_tx_id_confirmed platform client tx_id)
  unfolding is_tx_id_confirmed settle resolve
  Keeps-is_tx_id_confirmed client tx_id =
      Keeps-bind posted _ _ (Keeps-bind posted _ _ (is_record.gets _) (λ a w. refl))
        λ a. Keeps-bind posted _ _ (λ w. refl) λ a w. refl

  Keeps-turn :
      (found : Bool) (m : Async W Bool)
      → Keeps posted m
      → Keeps posted (if found then resolve true else m)
  unfolding resolve
  Keeps-turn true m h w = refl
  Keeps-turn false m h w = h w

  pub Keeps-wait :
      (turns : ℕ) (client : TendermintRpc) (tx_id : Json) (retry_timeout : ℕ)
      → Keeps posted (wait_tx_id_confirmation platform turns client tx_id retry_timeout)
  unfolding wait_tx_id_confirmation settle check_confirmation async_middleman sleep
  Keeps-wait zero client tx_id retry_timeout = λ w. refl
  Keeps-wait (suc turns) client tx_id retry_timeout =
      let rest = Keeps-wait turns client tx_id retry_timeout in
      Keeps-bind posted _ _ (Keeps-is_tx_id_confirmed client tx_id) λ exists.
        Keeps-turn exists _ (Keeps-bind posted _ _ (is_record.waits retry_timeout) λ _. rest)

  Sends-post_request :
      (client : RpcClient) (method : String) (params : Params)
      → Sends posted true (method ∷ []) (post_request platform client method params)
  unfolding post_request ◌>>=◌ modify gets on_world
  Sends-post_request client method params s =
      Sent-all posted (method ∷ []) s _ (is_record.posts _ _ _ s.world) refl

  pub Sends-request :
      (client : RpcClient) (method : String) (params : Params)
      → Sends posted true (method ∷ []) (request platform client method params)
  unfolding request
  Sends-request client method params =
      Sends-bind posted true _ _ (Sends-post_request client method params)
        λ response. Sends-settle posted (answer platform response)
