-- ===== src/Client/Wallet.antt =====
-- integration-tests/common/wallet-rpc.ts, and the script withdraw-all-stake.ts.
use chain_nodelib.Prelude.{
  ℕ, String, true, false, Option, none, some, List, [], ◌∷◌, map, if◌then◌else◌,
}
use chain_nodelib.Buffer.{Buffer, codes, to_hex}
use chain_nodelib.BigNumber.{BigNumbers}
use chain_nodelib.Client.{
  Json, boolean, text, array, object, Items, no_items, item, no_members, member, Platform, Async,
  resolve, settle, ◌>>=◌, ◌>>◌, read, read_item, async_middleman,
}
use chain_nodelib.Client.Rpc.{Clients, RpcClient, Params, many, on_world, request}
use chain_nodelib.Client.Tendermint.{TendermintRpc, wait_tx_id_confirmation}

pub record WalletRpc : Type 0 where
  pub rpc_client : RpcClient
  pub tendermint_rpc : TendermintRpc

pub record WalletAuthRequest : Type 0 where
  pub name : List ℕ
  pub passphrase : List ℕ

-- The key is what the wallet answered.
pub record WalletRequest : Type 0 where
  pub name : List ℕ
  pub enckey : Json

pub record FaucetOptions (B : Type 0) : Type 0 where
  pub to_address : List ℕ
  pub value : B
  pub view_keys : Option (List Buffer)

pub record Utxo (B : Type 0) : Type 0 where
  pub tx_id : Json
  pub index : ℕ
  pub value : B

abbrev auth_request_json : WalletAuthRequest → Json
auth_request_json r =
    object (member "name" (text r.name) (member "passphrase" (text r.passphrase) no_members))

abbrev pub request_json : WalletRequest → Json
request_json r = object (member "name" (text r.name) (member "enckey" r.enckey no_members))

abbrev sync_request : Json
sync_request = object (
    member "blocking" (boolean true)
      (member "reset" (boolean false) (member "do_loop" (boolean false) no_members)))

abbrev items : List Json → Items
items [] = no_items
items (v ∷ vs) = item v (items vs)

-- `options.viewKeys?.map(…)`, and `viewKeys || []`
abbrev view_key_texts : Option (List Buffer) → List Json
view_key_texts none = []
view_key_texts (some keys) = map (λ key. text (to_hex key)) keys

-- `process.env.WALLET_PASSPHRASE || '123456'`
abbrev passphrase_or_default : Option (List ℕ) → List ℕ
passphrase_or_default none = codes "123456"
passphrase_or_default (some []) = codes "123456"
passphrase_or_default (some (c ∷ cs)) = c ∷ cs

module _ {W : Type 0} (platform : Platform W) where
  unfoldable pub get_auth_token : WalletRpc → WalletAuthRequest → Async (Clients W) Json
  get_auth_token wallet wallet_auth_request =
      async_middleman platform
        (request platform wallet.rpc_client "wallet_getEncKey"
          (many (auth_request_json wallet_auth_request ∷ [])))
        "Error when querying auth token"

  unfoldable pub sync : WalletRpc → WalletRequest → Async (Clients W) (Unit {0})
  sync wallet wallet_request =
      request platform wallet.rpc_client "sync"
        (many (request_json wallet_request ∷ sync_request ∷ []))
      >> resolve tt

  -- `turns` bounds the loop that waits for the transaction
  unfoldable pub faucet :
      {B : Type 0}
      → BigNumbers B
      → ℕ
      → WalletRpc
      → WalletRequest
      → FaucetOptions B
      → Async (Clients W) (Utxo B)
  faucet big turns wallet wallet_request options = do
    async_middleman platform (sync wallet wallet_request) "Error when trying to sync wallet"
    tx_id ←
        async_middleman platform
          (request platform wallet.rpc_client "wallet_sendToAddress" (
            many (
              request_json wallet_request
              ∷ text options.to_address
              ∷ text (codes (big.to_string options.value))
              ∷ array (items (view_key_texts options.view_keys))
              ∷ [])))
          "Error when transferring funds to address"
    on_world (wait_tx_id_confirmation platform turns wallet.tendermint_rpc tx_id 1000)
    resolve (record { tx_id = tx_id; index = 0; value = options.value })

  -- `request` of the class
  abbrev pub wallet_rpc_request : WalletRpc → String → Params → Async (Clients W) Json
  wallet_rpc_request wallet method params = request platform wallet.rpc_client method params

  -- a request of `unbondAndWithdrawStake`
  abbrev call : WalletRpc → String → List Json → String → Async (Clients W) Json
  call wallet method params error_message =
      async_middleman platform (wallet_rpc_request wallet method (many params)) error_message

  -- from the log "Withdrawing bonded funds" on
  unfoldable pub withdraw_bonded_funds :
      ℕ → WalletRpc → WalletRequest → Json → Async (Clients W) (Unit {0})
  withdraw_bonded_funds turns wallet wallet_request staking_address = do
    transfer_addresses ←
        call wallet "wallet_listTransferAddresses" (request_json wallet_request ∷ [])
          "Error when retrieving transfer addresses"
    transfer_address ← settle (read_item platform 0 transfer_addresses)
    withdraw_tx_id ←
        call wallet "staking_withdrawAllUnbondedStake"
          (request_json wallet_request ∷ staking_address ∷ transfer_address ∷ array no_items ∷ [])
          "Error when withdrawing all unbonded stake"
    async_middleman platform
        (on_world
          (wait_tx_id_confirmation platform turns wallet.tendermint_rpc withdraw_tx_id 1000))
        "Error when retrieving transaction confirmation"
    async_middleman platform (sync wallet wallet_request) "Error when synchronizing Default wallet"

  unfoldable pub unbond_and_withdraw_stake :
      ℕ → WalletRpc → WalletRequest → Async (Clients W) (Unit {0})
  unbond_and_withdraw_stake turns wallet wallet_request = do
    async_middleman platform (sync wallet wallet_request) "Error when synchronizing Default wallet"
    staking_addresses ←
        call wallet "wallet_listStakingAddresses" (request_json wallet_request ∷ [])
          "Error when retrieving staking addresses"
    staking_address ← settle (read_item platform 1 staking_addresses)
    call wallet "staking_state" (text wallet_request.name ∷ staking_address ∷ [])
        "Error when retrieving Default wallet staking state"
    wallet_balance ←
        call wallet "wallet_balance" (request_json wallet_request ∷ [])
          "Error when retrieving Default wallet balance"
    available ← settle (read platform "available" wallet_balance)
    if platform.is_greater_than available 0
        then resolve tt
        else withdraw_bonded_funds turns wallet wallet_request staking_address

  -- `main` of withdraw-all-stake.ts, with the passphrase of the environment if there is one
  unfoldable pub withdraw_all_stake : ℕ → WalletRpc → Option (List ℕ) → Async (Clients W) (Unit {0})
  withdraw_all_stake turns wallet passphrase = do
    enckey ←
        get_auth_token wallet
          (record { name = codes "Default"; passphrase = passphrase_or_default passphrase })
    unbond_and_withdraw_stake turns wallet (record { name = codes "Default"; enckey = enckey })
