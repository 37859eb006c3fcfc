-- ===== src/Transaction/Transfer/Replay.antt =====
-- A transfer builder that keeps, in place of the transaction that is being signed, what was signed
-- since the contents changed last, and makes the transaction of it whenever a method needs it.
pub mod Steps
pub mod Runs
use chain_nodelib.Prelude.{
  ◌≡◌, ◌⊎◌, refl, ap, ap₂, ◌∙◌, Option, some, none, List, [], ◌∷◌, ◌++◌, arith, if◌then◌else◌, inl,
  inr, Bool-cases, str_eq,
}
use chain_nodelib.Method.{Error, Result, ok, err, ow, require, and_then, Result-cases, ◌>>=◌}
use chain_nodelib.Number.{Number}
use chain_nodelib.Buffer.{Buffer}
use chain_nodelib.Types.{Input, Output, ow_input, ow_output}
use chain_nodelib.Native.{Env}
use chain_nodelib.KeyPair.{KeyPair, has_private_key, to_object}
use chain_nodelib.Address
use chain_nodelib.Transaction.Transfer.{
  TransferTransactionBuilder, TransferTransactionBuilderOptions, new_builder, element_at,
  is_transfer_address_in_network, ow_index, if_linear_fee, native_fee, build_incomplete_hex,
  to_incomplete_hex, prepare_incomplete_signing_hex, add_input, add_output, add_view_key,
  sign_input, sign_with, add_witness, witness_with,
}
use chain_nodelib.Transaction.Transfer.Calls.{
  Call, adds_input, adds_output, adds_view_key, signs_input, adds_witness, contents, step, run,
  answer,
}

-- What is done to a transaction.
pub data Signing : Type 0 where
  signature : Number → KeyPair → Signing
  witness : Number → Buffer → Signing

-- The contents, and the signings from the last to the first, if one was begun.
pub record Plain (B : Type 0) : Type 0 where
  pub base : TransferTransactionBuilder B
  pub log : Option (List Signing)

-- The builder without the transaction that is being signed, and signings.
abbrev pub plain : {B : Type 0} → TransferTransactionBuilder B → Option (List Signing) → Plain B
plain b l = record { base = contents b; log = l }

abbrev pub log_or_empty : Option (List Signing) → List Signing
log_or_empty none = []
log_or_empty (some log) = log

module _ {B : Type 0} (env : Env B) where
  -- One signing of a transaction.
  unfoldable pub signed : TransferTransactionBuilder B → Signing → Buffer → Result Buffer
  signed b (signature index k) hex = if_linear_fee env b (
      and_then (native_fee env b) λ fee.
        env.transfer.sign_input_linear_fee (record { incomplete_hex = some hex; fee_config = fee })
          index (to_object k))
  signed b (witness index w) hex = if_linear_fee env b (
      and_then (native_fee env b) λ fee.
        env.transfer.add_input_witness_linear_fee
          (record { incomplete_hex = some hex; fee_config = fee }) index w)

  -- All of them, on what the native module builds of the contents.
  unfoldable pub replay : TransferTransactionBuilder B → List Signing → Result Buffer
  replay b [] = build_incomplete_hex env b
  replay b (s ∷ log) = and_then (replay b log) (signed b s)

  -- The checks of `signInput`.
  unfoldable pub may_sign : Number → KeyPair → TransferTransactionBuilder B → Result (Unit {0})
  may_sign index k b = and_then (ow (ow_index env b index)) λ _.
      and_then (require (has_private_key k) "KeyPair does not have private key") λ _.
        and_then
          (Address.transfer env.big env.address
            (record { source = Address.key_pair k; network = b.network }))
          λ address. and_then (element_at b.inputs index) λ input.
            require (str_eq input.prev_output.address address)
              "Input address is not signable by the key pair"

  abbrev changed : TransferTransactionBuilder B → Plain B
  changed b = record { base = b; log = none }

  -- A change of the contents forgets the signings.
  abbrev changes :
      Result (Unit {0}) → TransferTransactionBuilder B → Plain B → Result (Unit {0}) × Plain B
  changes (ok u) next p = (ok tt, changed next)
  changes (err e) next p = (err e, p)

  -- A signing on the earlier ones; where it fails they are begun.
  abbrev appended :
      Signing → List Signing → Plain B → Result Buffer → Result Buffer → Result (Unit {0}) × Plain B
  appended s log p (err e) after = (err e, p)
  appended s log p (ok hex) (err e) = (err e, record p { log = some log })
  appended s log p (ok hex) (ok next) = (ok tt, record p { log = some (s ∷ log) })

  abbrev signs : Result (Unit {0}) → Signing → Plain B → Result (Unit {0}) × Plain B
  signs (err e) s p = (err e, p)
  signs (ok u) s p =
      let log = log_or_empty p.log in appended s log p (replay p.base log) (replay p.base (s ∷ log))

  unfoldable pub plain_call : Call B → Plain B → Result (Unit {0}) × Plain B
  unfolding may_sign replay signed
  plain_call (adds_input x) p =
      changes
        (and_then (ow (ow_input env.big env.address.is_transfer_address_valid x)) λ _.
          require (is_transfer_address_in_network env p.base x.prev_output.address)
            "Previous output address does not belongs to the builder network")
        (record p.base { inputs = p.base.inputs ++ x ∷ [] }) p
  plain_call (adds_output x) p =
      changes
        (and_then (ow (ow_output env.big env.address.is_transfer_address_valid x)) λ _.
          require (is_transfer_address_in_network env p.base x.address)
            "Address does not belongs to the builder network")
        (record p.base { outputs = p.base.outputs ++ x ∷ [] }) p
  plain_call (adds_view_key key) p =
      changes (ow (env.key_pair.is_valid_view_key key))
        (record p.base { view_keys = p.base.view_keys ++ key ∷ [] }) p
  plain_call (signs_input index k) p = signs (may_sign index k p.base) (signature index k) p
  plain_call (adds_witness index w) p = signs (ow (ow_index env p.base index)) (witness index w) p

  -- The answers of a sequence of calls, and what is kept behind it.
  abbrev pub plain_answers : List (Call B) → Plain B → List (Result (Unit {0}))
  plain_answers [] p = []
  plain_answers (c ∷ cs) p = (plain_call c p).0 ∷ plain_answers cs (plain_call c p).1

  abbrev pub plain_run : List (Call B) → Plain B → Plain B
  plain_run [] p = p
  plain_run (c ∷ cs) p = plain_run cs (plain_call c p).1

  -- The transaction to export: the replay, or that of the contents.
  abbrev pub plain_hex : Plain B → Result Buffer
  plain_hex p = replay p.base (log_or_empty p.log)
