-- ===== src/Tests.antt =====
-- The data that the witnesses share: an environment with plain functions in place of the native
-- module, and the parties of a transaction.
mod Transfer
mod Wallet
mod Staking
mod Withdraw
mod CouncilNode
mod MultiSig
mod HdWallet
mod Values
mod Units
mod Client
use chain_nodelib.Prelude.{
  ℕ, ◌+◌, ◌<◌, String, ◌≡◌, refl, Bool, true, false, Option, none, some, List, [], ◌∷◌, leb, str_eq,
  length, arith,
}
use chain_nodelib.Prelude.{is_empty, not}
use chain_nodelib.Method.{Result, ok, err, native, and_then, require}
use chain_nodelib.Number.{Number, whole}
use chain_nodelib.Buffer.{Buffer}
use chain_nodelib.BigNumber.{BigNumbers, NumberLaws}
use chain_nodelib.Native.{
  Env, AddressNative, KeyPairNative, TransferNative, StakingNative, CouncilNodeNative, PublicKeys,
  RawTx,
}
use chain_nodelib.KeyPair.{KeyPair}
use chain_nodelib.MultiSig.{MultiSigNative}

-- Whole numbers alone; the point is left out.
abbrev pub numbers : BigNumbers ℕ
numbers = record {
  decimal = λ n k. n;
  is_integer = λ n. true;
  is_greater_than_or_equal_to = λ m n. leb n m;
  is_less_than_or_equal_to = λ m n. leb m n;
  plus = λ m n. m + n;
  to_string = λ n. "5";
}

at_least_zero : (n : ℕ) → leb 0 n ≡ true
at_least_zero n = ground arith

pub number_laws : NumberLaws numbers
number_laws = record {
  integer_numeral = λ n. refl;
  ge_numeral = λ m n. refl;
  le_numeral = λ m n. refl;
  plus_numeral = λ m n. refl;
  ge_zero = λ n k. at_least_zero n;
  numeral = λ x h k. (x, refl);
}

abbrev pub addresses : AddressNative
addresses = record {
  is_transfer_address_valid = λ address network. str_eq network "Mainnet";
  is_staking_address_valid = λ address. str_eq address "0x1";
  get_transfer_address_from_public_key = λ key network. ok "cro1";
  get_staking_address_from_public_key = λ key. ok "0x1";
}

abbrev pub keys : KeyPairNative
keys = record {
  is_valid_view_key = λ key. true;
  verify_public_key = λ key. ok tt;
  verify_private_key = λ key. ok tt;
  get_public_keys_from_any_public_key =
      λ key. ok (record { public_key = key; compressed_public_key = key });
  get_public_keys_from_private_key =
      λ key. ok (record { public_key = 4 ∷ key; compressed_public_key = 2 ∷ key });
}

-- The bytes of a transaction that is being signed begin with the number of its signatures.
abbrev sign_once : Option Buffer → Result Buffer
sign_once none = err (native "no transaction")
sign_once (some []) = err (native "empty")
sign_once (some (n ∷ rest)) = ok ((n + 1) ∷ rest)

abbrev is_signed : Option Buffer → Result Bool
is_signed none = ok false
is_signed (some []) = ok false
is_signed (some (n ∷ rest)) = ok (leb 1 n)

abbrev bytes_of : Option Buffer → Result Buffer
bytes_of none = err (native "no transaction")
bytes_of (some bytes) = ok bytes

abbrev transfers : TransferNative
transfers = record {
  build_incomplete_hex_linear_fee =
      λ t. ok (0 ∷ length t.inputs ∷ length t.outputs ∷ t.chain_hex_id);
  estimate_fee_linear_fee = λ t. ok "100";
  tx_id_linear_fee = λ t. ok "0a";
  sign_input_linear_fee = λ t index k. sign_once t.incomplete_hex;
  add_input_witness_linear_fee = λ t index witness. sign_once t.incomplete_hex;
  verify_linear_fee = λ t. ok tt;
  is_completed_linear_fee = λ t. is_signed t.incomplete_hex;
  to_hex_linear_fee = λ t address features. bytes_of t.incomplete_hex;
}

abbrev raw_of : Buffer → RawTx
raw_of chain_hex_id = record { unsigned_raw_tx = 7 ∷ chain_hex_id; tx_id = "0b" }

abbrev stakings : StakingNative
stakings = record {
  build_raw_deposit_transaction = λ t. ok (raw_of (length t.inputs ∷ t.chain_hex_id));
  deposit_transaction_to_hex = λ raw witnesses address features. bytes_of raw;
  build_raw_unbond_transaction = λ t. ok (raw_of t.chain_hex_id);
  unbond_transaction_to_hex = λ raw k. ok raw;
  build_raw_withdraw_unbonded_transaction = λ t. ok (raw_of (length t.outputs ∷ t.chain_hex_id));
  estimate_withdraw_unbonded_transaction_fee = λ raw fee. ok "100";
  withdraw_unbonded_transaction_to_witness = λ raw k. bytes_of raw;
  withdraw_unbonded_transaction_to_signed_plain_hex = λ raw witness. bytes_of witness;
  withdraw_unbonded_transaction_to_obfuscated_hex = λ raw witness address features. bytes_of raw;
}

abbrev council_nodes : CouncilNodeNative
council_nodes = record {
  build_raw_node_join_transaction = λ t. ok (raw_of t.chain_hex_id);
  node_join_transaction_to_hex = λ raw k. ok raw;
  build_raw_unjail_transaction = λ t. ok (raw_of t.chain_hex_id);
  unjail_transaction_to_hex = λ raw k. ok raw;
  verify_unjail_tx_aux = λ t options. ok tt;
}

abbrev pub env : Env ℕ
env = record {
  big = numbers;
  address = addresses;
  key_pair = keys;
  transfer = transfers;
  staking = stakings;
  council_node = council_nodes;
  schnorr_sign_tx_id = λ id k. ok (9 ∷ id);
  is_url = λ text. true;
  node_env = none;
}

abbrev pub alice : KeyPair
alice = record {
  inner_public_key = some (4 ∷ 1 ∷ []);
  inner_compressed_public_key = some (2 ∷ 1 ∷ []);
  inner_private_key = some (1 ∷ []);
}

-- No value is empty.
abbrev takes : ℕ → Buffer → Buffer → Result Buffer
takes tag session value =
    and_then (require (not (is_empty value)) "Unable to add value") λ _. ok (tag ∷ session)

abbrev pub multi_sigs : MultiSigNative
multi_sigs = record {
  create_address = λ all own required network. ok "cro2";
  new_session = λ message all own private. ok (0 ∷ []);
  generate_nonce_commitment =
      λ session. ok (record { value = 1 ∷ []; incomplete_session = session });
  add_nonce_commitment = λ session key commitment. takes 1 session commitment;
  generate_nonce = λ session. ok (record { value = 2 ∷ []; incomplete_session = session });
  add_nonce = λ session key nonce. takes 2 session nonce;
  partial_sign = λ session. ok (record { value = 3 ∷ []; incomplete_session = session });
  add_partial_signature = λ session key signature. takes 3 session signature;
  sign = λ session. ok (5 ∷ []);
  verify = λ signature message all. ok true;
}
