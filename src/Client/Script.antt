-- ===== src/Client/Script.antt =====
-- The requests of the wallet client, in their order.
use chain_nodelib.Prelude.{ℕ, Bool, true, false, String, Option, List, [], ◌∷◌, if◌then◌else◌}
use chain_nodelib.Client.{Json, Platform, Async, resolve, async_middleman}
use chain_nodelib.Client.Rpc.{Clients, many, request}
use chain_nodelib.Client.Wallet.{
  WalletRpc, WalletRequest, get_auth_token, sync, withdraw_bonded_funds, unbond_and_withdraw_stake,
  withdraw_all_stake,
}
use chain_nodelib.Client.Sending.{Sends-request, Keeps-wait}
use chain_nodelib.Client.Requests.{
  IsRecord, Sends, Sends-resolve, Sends-return, Sends-settle, Sends-bind, Sends-async_middleman,
  Sends-on_world,
}

-- The requests that withdraw the stake.
abbrev pub withdrawal : List String
withdrawal = "wallet_listTransferAddresses" ∷ "staking_withdrawAllUnbondedStake" ∷ "sync" ∷ []

-- The requests of a wallet whose stake is withdrawn.
abbrev pub script : List String
script =
    "wallet_getEncKey" ∷ "sync" ∷ "wallet_listStakingAddresses" ∷ "staking_state" ∷ "wallet_balance"
    ∷ withdrawal

module _ {W : Type 0} (platform : Platform W) (posted : W → List (ℕ × String))
    (is_record : IsRecord platform posted) where
  pub Sends-sync :
      (wallet : WalletRpc) (r : WalletRequest) (message : String)
      → Sends posted true ("sync" ∷ []) (async_middleman platform (sync platform wallet r) message)
  unfolding sync
  Sends-sync wallet r message = Sends-async_middleman posted true platform _ message (
      Sends-bind posted true _ _ (Sends-request platform posted is_record _ _ _)
        λ _. Sends-resolve posted tt)

  pub Sends-call :
      (wallet : WalletRpc) (method : String) (params : List Json) (message : String)
      → Sends posted true (method ∷ []) (
          async_middleman platform
            (request platform wallet.rpc_client method (many params))
            message)
  Sends-call wallet method params message =
      Sends-async_middleman posted true platform _ message
        (Sends-request platform posted is_record _ _ _)

  pub Sends-withdraw_bonded_funds :
      (turns : ℕ) (wallet : WalletRpc) (r : WalletRequest) (staking_address : Json)
      → Sends posted true withdrawal (withdraw_bonded_funds platform turns wallet r staking_address)
  unfolding withdraw_bonded_funds
  Sends-withdraw_bonded_funds turns wallet r staking_address =
      Sends-bind posted true _ _ (Sends-call wallet _ _ _) λ addresses.
        Sends-bind posted true {ms = []} _ _ (Sends-settle posted _) λ address.
          Sends-bind posted true _ _ (Sends-call wallet _ _ _) λ tx_id.
            Sends-bind posted true {ms = []} _ _
              (Sends-async_middleman posted true platform _ _
                (Sends-on_world posted _ (Keeps-wait platform posted is_record _ _ _ _)))
              λ _. Sends-sync wallet r _

  Sends-branch :
      (test : Bool) (m : Async (Clients W) (Unit {0}))
      → Sends posted true withdrawal m
      → Sends posted false withdrawal (if test then resolve tt else m)
  Sends-branch true m h s = Sends-return posted withdrawal tt s
  Sends-branch false m h s =
      let (sent, rest, e, _, logged, id) = h s in (sent, rest, e, tt, logged, id)

  Sends-unbond_and_withdraw_stake :
      (turns : ℕ) (wallet : WalletRpc) (r : WalletRequest)
      → Sends posted false
          ("sync" ∷ "wallet_listStakingAddresses" ∷ "staking_state" ∷ "wallet_balance" ∷ withdrawal)
          (unbond_and_withdraw_stake platform turns wallet r)
  unfolding unbond_and_withdraw_stake
  Sends-unbond_and_withdraw_stake turns wallet r =
      Sends-bind posted false _ _ (Sends-sync wallet r _) λ _.
        Sends-bind posted false _ _ (Sends-call wallet _ _ _) λ addresses.
          Sends-bind posted false {ms = []} _ _ (Sends-settle posted _) λ address.
            Sends-bind posted false _ _ (Sends-call wallet _ _ _) λ state.
              Sends-bind posted false _ _ (Sends-call wallet _ _ _) λ balance.
                Sends-bind posted false {ms = []} _ _ (Sends-settle posted _)
                  λ available. Sends-branch _ _ (Sends-withdraw_bonded_funds turns wallet r address)

  -- The script sends requests of one list of methods, in its order, with consecutive ids.
  pub Sends-withdraw_all_stake :
      (turns : ℕ) (wallet : WalletRpc) (passphrase : Option (List ℕ))
      → Sends posted false script (withdraw_all_stake platform turns wallet passphrase)
  unfolding withdraw_all_stake get_auth_token
  Sends-withdraw_all_stake turns wallet passphrase =
      Sends-bind posted false _ _ (Sends-call wallet _ _ _)
        λ enckey. Sends-unbond_and_withdraw_stake turns wallet _
