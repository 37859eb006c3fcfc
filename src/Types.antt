-- ===== src/Types.antt =====
-- lib/src/types.ts and lib/src/types/timespec.ts: outputs and inputs of transactions, the checks
-- of their parts and their form for the native module.
pub mod Amounts
pub mod TxIds
use text.Mathlib.Text.{starts_with}
use chain_nodelib.Prelude.{
  ℕ, ◌^◌, String, Bool, true, false, ◌&&◌, Option, none, some, List, [], ◌∷◌, length, all,
  if◌then◌else◌, leb,
}
use chain_nodelib.Prelude
use chain_nodelib.Method.{Result, ok, err, argument}
use chain_nodelib.Number.{Number, whole, fraction, negative, integer_at_least}
use chain_nodelib.Buffer.{codes, is_hex_digit}
use chain_nodelib.BigNumber.{BigNumbers}
use chain_nodelib.Network.{NetworkEnum, mainnet, testnet, devnet, enum_value}

-- The constructor is private: every value comes from `from_seconds`.
pub record Timespec : Type 0 where
  pub seconds : ℕ

unfoldable pub from_seconds : Number → Result Timespec
from_seconds (whole n) =
    if integer_at_least 1 (whole n) then ok (record { seconds = n }) else err argument
from_seconds (fraction n) = err argument
from_seconds negative = err argument

pub record Output (B : Type 0) : Type 0 where
  pub address : String
  pub value : B
  pub valid_from : Option Timespec

pub record NativeOutput : Type 0 where
  pub address : String
  pub value : String
  pub valid_from : Option ℕ

pub record InputAddressParams : Type 0 where
  pub required_signers : Number
  pub total_signers : Number

pub record Input (B : Type 0) : Type 0 where
  pub prev_tx_id : String
  pub prev_index : Number
  pub prev_output : Output B
  pub address_params : InputAddressParams

pub record NativeInput : Type 0 where
  pub prev_tx_id : String
  pub prev_index : Number
  pub prev_output : NativeOutput
  pub address_params : InputAddressParams

-- lib/src/address/constant.ts
abbrev pub single_sign_address : InputAddressParams
single_sign_address = record { required_signers = whole 1; total_signers = whole 1 }

abbrev to_number : Option Timespec → Option ℕ
to_number none = none
to_number (some t) = some t.seconds

-- `/^[0-9A-Fa-f]{64}$/`
unfoldable pub ow_tx_id : String → Bool
ow_tx_id value = Prelude.◌==◌ (length (codes value)) 64 && all is_hex_digit (codes value)

-- The validator on two counts that passed `ow.number.integer`.
abbrev total_covers_required : Number → Number → Bool
total_covers_required (whole total) (whole required) = leb required total
total_covers_required total required = false

unfoldable pub ow_input_address_params : InputAddressParams → Bool
ow_input_address_params p =
    integer_at_least 1 p.required_signers
    && integer_at_least 1 p.total_signers
    && total_covers_required p.total_signers p.required_signers

-- `/^(ws)s?/.test(value) && isURL(value)`, where `isURL` asks Node's `URL`
unfoldable pub ow_tendermint_address : (String → Bool) → String → Bool
ow_tendermint_address is_url value = starts_with value "ws" && is_url value

-- The network that the prefix of an address names.
abbrev pub prefix_network : String → Option NetworkEnum
prefix_network value =
    if starts_with value "cro"
    then some mainnet
    else if starts_with value "tcro"
    then some testnet
    else if starts_with value "dcro"
    then some devnet
    else none

abbrev pub asks : (String → String → Bool) → String → Option NetworkEnum → Bool
asks is_transfer_address_valid value none = false
asks is_transfer_address_valid value (some network) =
    is_transfer_address_valid value (enum_value network)

-- The first argument is `native.address.isTransferAddressValid`.
unfoldable pub validate_transfer_address : (String → String → Bool) → String → Bool
validate_transfer_address is_transfer_address_valid value =
    asks is_transfer_address_valid value (prefix_network value)

module _ {B : Type 0} (big : BigNumbers B) where
  abbrev pub max_coin : B
  max_coin = big.decimal 10000000000000000000 0

  unfoldable pub ow_coin : B → Bool
  ow_coin value =
      big.is_integer value
      && big.is_greater_than_or_equal_to value (big.decimal 0 0)
      && big.is_less_than_or_equal_to value max_coin

  -- `new BigNumber(2).pow(64)`
  abbrev pub big_number_u64_max : B
  big_number_u64_max = big.decimal (2 ^ 64) 0

  unfoldable pub ow_account_nonce : B → Bool
  ow_account_nonce value =
      big.is_integer value
      && big.is_greater_than_or_equal_to value (big.decimal 0 0)
      && big.is_less_than_or_equal_to value big_number_u64_max

  unfoldable pub parse_output_for_native : Output B → NativeOutput
  parse_output_for_native output = record {
    address = output.address;
    value = big.to_string output.value;
    valid_from = to_number output.valid_from;
  }

  unfoldable pub parse_input_for_native : Input B → NativeInput
  unfolding parse_output_for_native
  parse_input_for_native input = record {
    prev_tx_id = input.prev_tx_id;
    prev_index = input.prev_index;
    prev_output = parse_output_for_native input.prev_output;
    address_params = input.address_params;
  }

  module _ (is_transfer_address_valid : String → String → Bool) where
    unfoldable pub ow_output : Output B → Bool
    ow_output output =
        validate_transfer_address is_transfer_address_valid output.address && ow_coin output.value

    unfoldable pub ow_input : Input B → Bool
    ow_input input =
        ow_tx_id input.prev_tx_id
        && integer_at_least 0 input.prev_index
        && ow_output input.prev_output
        && ow_input_address_params input.address_params
