-- ===== src/Client/Balance.antt =====
-- What decides whether the script of the wallet client withdraws the stake.
use chain_nodelib.Prelude.{
  ℕ, ◌+◌, ◌≡◌, ◌⊎◌, inl, inr, refl, sym, ap, ap₂, ◌∙◌, Bool, true, false, String, Option, List, [],
  ◌∷◌, ◌++◌, arith, if◌then◌else◌, length, length-append,
}
use mathlib.Core.List.{append_assoc}
use mathlib.Core.Path.{subst}
use chain_nodelib.Buffer.{codes}
use chain_nodelib.Client.{
  Json, Outcome, fulfilled, rejected, pending, Platform, Async, read, resolve, settle, continue,
  ◌>>=◌, async_middleman,
}
use chain_nodelib.Client.Rpc.{Clients, many, request}
use chain_nodelib.Client.Wallet.{
  WalletRpc, WalletRequest, request_json, get_auth_token, unbond_and_withdraw_stake,
  withdraw_all_stake,
}
use chain_nodelib.Client.Requests.{IsRecord, Sent, Sends, numbered, numbered-append, whole_sent}
use chain_nodelib.Client.Script.{
  script, withdrawal, Sends-sync, Sends-call, Sends-withdraw_bonded_funds, Sends-withdraw_all_stake,
}

-- The requests between that of the key and that of the balance.
abbrev pub addressed : List String
addressed = "sync" ∷ "wallet_listStakingAddresses" ∷ "staking_state" ∷ []

-- What is bound was fulfilled, if all is.
bind-fulfilled :
    {S A B : Type 0} (m : Async S A) (f : A → Async S B) (s s' : S) {b : B}
    → (m >>= f) s ≡ (fulfilled b, s')
    → (a : A) × (t : S) × (m s ≡ (fulfilled a, t)) × (f a t ≡ (fulfilled b, s'))
unfolding ◌>>=◌
bind-fulfilled {S} {A} {B} m f s s' {b} e = cases (m s).0 (m s).1 refl e
  where
    cases :
        (o : Outcome A) (t : S)
        → m s ≡ (o, t)
        → continue f o t ≡ (fulfilled b, s')
        → (a : A) × (t : S) × (m s ≡ (fulfilled a, t)) × (f a t ≡ (fulfilled b, s'))
    cases (fulfilled a) t p q = (a, t, p, q)
    cases (rejected x) t p q = cc
    cases pending t p q = cc

settle-fulfilled :
    {S A : Type 0} (o : Outcome A) (s t : S) {a : A}
    → settle o s ≡ (fulfilled a, t)
    → (o ≡ fulfilled a) × (t ≡ s)
unfolding settle
settle-fulfilled o s t e = (ap (λ r. r.0) e, sym (ap (λ r. r.1) e))

module _ {W : Type 0} (platform : Platform W) (posted : W → List (ℕ × String)) where
  -- These requests, and no other, were sent between two states.
  pub record Between (s : Clients W) (ms : List String) (t : Clients W) : Type 0 where
    pub sent : posted t.world ≡ posted s.world ++ numbered s.request_id ms
    pub id : t.request_id ≡ s.request_id + length ms

  between :
      {A : Type 0} {ms : List String} {a : A} (m : Async (Clients W) A) (s t : Clients W)
      → Sends posted true ms m
      → m s ≡ (fulfilled a, t)
      → Between s ms t
  between {A} {ms} m s t h e =
      let (sent, rest, q, done, logged, id) = subst (λ r. Sent posted true ms s r) e (h s) in
      let all_sent : sent ≡ ms = whole_sent posted q done in
      record {
        sent = logged ∙ ap (λ l. posted s.world ++ numbered s.request_id l) all_sent;
        id = id ∙ ap (λ l. s.request_id + length l) all_sent;
      }

  Between-append :
      {ms ns : List String} (s t u : Clients W)
      → Between s ms t
      → Between t ns u
      → Between s (ms ++ ns) u
  Between-append {ms} {ns} s t u p q = record {
    sent =
        q.sent
        ∙ ap₂ (λ l k. l ++ numbered k ns) p.sent p.id
        ∙ append_assoc (posted s.world) (numbered s.request_id ms)
            (numbered (s.request_id + length ms) ns)
        ∙ ap (◌++◌ (posted s.world)) (sym (numbered-append s.request_id ms ns));
    id = q.id ∙ omega (arith, p.id, length-append ms ns);
  }

  abbrev pub default_wallet : Json → WalletRequest
  default_wallet enckey = record { name = codes "Default"; enckey = enckey }

  abbrev pub asks_balance : WalletRpc → WalletRequest → Async (Clients W) Json
  asks_balance wallet r =
      async_middleman platform
        (request platform wallet.rpc_client "wallet_balance" (many (request_json r ∷ [])))
        "Error when retrieving Default wallet balance"

  -- The state in which the balance is asked for, the answer, and what follows from it.
  pub record Decided (wallet : WalletRpc) (r : WalletRequest) (first : List String)
      (s s' : Clients W) : Type 0 where
    pub before : Clients W
    pub asked : Between s (first ++ addressed) before
    pub balance : Json
    pub behind : Clients W
    pub answered : asks_balance wallet r before ≡ (fulfilled balance, behind)
    pub available : Json
    pub reads : read platform "available" balance ≡ fulfilled available
    pub decides :
        ((platform.is_greater_than available 0 ≡ true) × Between before ("wallet_balance" ∷ []) s')
        ⊎ ((platform.is_greater_than available 0 ≡ false)
            × Between before ("wallet_balance" ∷ withdrawal) s')

  module _ (is_record : IsRecord platform posted) where
    branch :
        (test : Bool) (m : Async (Clients W) (Unit {0})) (before s s' : Clients W)
        → Sends posted true withdrawal m
        → Between before ("wallet_balance" ∷ []) s
        → (if test then resolve tt else m) s ≡ (fulfilled tt, s')
        → ((test ≡ true) × Between before ("wallet_balance" ∷ []) s')
          ⊎ ((test ≡ false) × Between before ("wallet_balance" ∷ withdrawal) s')
    unfolding resolve
    branch true m before s s' h p e =
        inl (refl, subst (Between before ("wallet_balance" ∷ [])) (ap (λ r. r.1) e) p)
    branch false m before s s' h p e = inr (refl, Between-append before s s' p (between m s s' h e))

    -- From the request of the balance on.
    balance-Decided :
        (wallet : WalletRpc) (r : WalletRequest) (first : List String)
        (withdraws : Async (Clients W) (Unit {0})) (start s s' : Clients W)
        → Sends posted true withdrawal withdraws
        → Between start (first ++ addressed) s
        → (asks_balance wallet r >>= λ balance.
              settle (read platform "available" balance) >>= λ available.
              if platform.is_greater_than available 0 then resolve tt else withdraws)
            s
          ≡ (fulfilled tt, s')
        → Decided wallet r first start s'
    balance-Decided wallet r first withdraws start s s' h p e =
        let (balance, t, asked, e1) = bind-fulfilled _ _ s s' e in
        let (available, u, reads, e2) = bind-fulfilled _ _ t s' e1 in
        let (is_read, same) = settle-fulfilled _ t u reads in
        record {
          before = s;
          asked = p;
          balance = balance;
          behind = t;
          answered = asked;
          available = available;
          reads = is_read;
          decides =
              branch _ withdraws s u s' h
                (subst (Between s ("wallet_balance" ∷ [])) (sym same)
                  (between _ s t (Sends-call platform posted is_record wallet _ _ _) asked))
                e2;
        }

    unbond_and_withdraw_stake-Decided :
        (turns : ℕ) (wallet : WalletRpc) (r : WalletRequest) (first : List String)
        (start s s' : Clients W)
        → Between start first s
        → unbond_and_withdraw_stake platform turns wallet r s ≡ (fulfilled tt, s')
        → Decided wallet r first start s'
    unfolding unbond_and_withdraw_stake
    unbond_and_withdraw_stake-Decided turns wallet r first start s s' p e =
        let (_, s1, e1, f1) = bind-fulfilled _ _ s s' e in
        let (addresses, s2, e2, f2) = bind-fulfilled _ _ s1 s' f1 in
        let (address, s3, e3, f3) = bind-fulfilled _ _ s2 s' f2 in
        let (state, s4, e4, f4) = bind-fulfilled _ _ s3 s' f3 in
        let calls = λ (method : String) (params : List Json) (message : String).
          Sends-call platform posted is_record wallet method params message in
        let q : Between s1 ("wallet_listStakingAddresses" ∷ []) s3 =
          subst (Between s1 _) (sym (settle-fulfilled _ s2 s3 e3).1)
            (between _ s1 s2 (calls _ _ _) e2) in
        let early : Between s addressed s4 =
          Between-append s s1 s4
            (between _ s s1 (Sends-sync platform posted is_record wallet r _) e1)
            (Between-append s1 s3 s4 q (between _ s3 s4 (calls _ _ _) e4)) in
        balance-Decided wallet r first _ start s4 s'
          (Sends-withdraw_bonded_funds platform posted is_record turns wallet r address)
          (Between-append start s s4 p early) f4

    -- How the script ends: decided by the balance, or stopped somewhere on its list.
    abbrev pub Ends : WalletRpc → Clients W → Outcome (Unit {0}) × Clients W → Type 0
    Ends wallet s (fulfilled a, s') =
        (enckey : Json) × Decided wallet (default_wallet enckey) ("wallet_getEncKey" ∷ []) s s'
    Ends wallet s (rejected x, s') =
        (sent : List String) × (rest : List String) × (sent ++ rest ≡ script) × Between s sent s'
    Ends wallet s (pending, s') =
        (sent : List String) × (rest : List String) × (sent ++ rest ≡ script) × Between s sent s'

    script-Ends :
        (turns : ℕ) (wallet : WalletRpc) (passphrase : Option (List ℕ)) (s s' : Clients W)
        (o : Outcome (Unit {0}))
        → withdraw_all_stake platform turns wallet passphrase s ≡ (o, s')
        → Sent posted false script s (o, s')
        → Ends wallet s (o, s')
    unfolding withdraw_all_stake get_auth_token
    script-Ends turns wallet passphrase s s' (fulfilled a) e h =
        let (enckey, t, e1, f1) = bind-fulfilled _ _ s s' e in
        (
          enckey,
          unbond_and_withdraw_stake-Decided turns wallet (default_wallet enckey) _ s t s'
              (between _ s t (Sends-call platform posted is_record wallet _ _ _) e1) f1,
        )
    script-Ends turns wallet passphrase s s' (rejected x) e (sent, rest, q, _, logged, id) =
        (sent, rest, q, record { sent = logged; id = id })
    script-Ends turns wallet passphrase s s' pending e (sent, rest, q, _, logged, id) =
        (sent, rest, q, record { sent = logged; id = id })

    -- The script that withdraws the stake of the default wallet sends requests of one list of methods,
    -- in its order, with consecutive ids; no request that unbonds stake is in the list. Where it is
    -- rejected, or the wait for the confirmation runs out of turns, it has sent the first of them.
    -- Where it ends without an error, the answer to the request of the balance decides: if the funds
    -- that it calls available are more than 0, no request follows, and otherwise the three that
    -- withdraw the stake have been sent.
    pub withdraw_all_stake-Ends :
        (turns : ℕ) (wallet : WalletRpc) (passphrase : Option (List ℕ)) (s : Clients W)
        → Ends wallet s (withdraw_all_stake platform turns wallet passphrase s)
    withdraw_all_stake-Ends turns wallet passphrase s =
        script-Ends turns wallet passphrase s _ _ refl
          (Sends-withdraw_all_stake platform posted is_record turns wallet passphrase s)
