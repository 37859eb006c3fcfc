-- ===== src/Transaction/NodeJoin/MetaData.antt =====
-- lib/src/transaction/council_node/types.ts: the description of a node, and the JSON text of it that
-- the native module receives.
use Prim.Native.Char.{Char, code}
use Prim.Native.String.{String}
use Prim.Native.String.{◌++◌ as ◌<>◌}
use Prim.Native.Nat.{pred}
use chain_nodelib.Prelude.{
  ℕ, ◌/◌, ◌%◌, Bool, true, false, Option, none, some, ◌==◌, ltb, if◌then◌else◌,
}

-- `other` is a value that is not in the enumeration.
pub data NodePublicKeyType : Type 0 where
  ed25519 : NodePublicKeyType
  other : String → NodePublicKeyType

pub record NodePublicKey : Type 0 where
  pub key_type : NodePublicKeyType
  pub value : String

pub record NodeMetaData : Type 0 where
  pub name : String
  pub security_contact : Option String
  pub consensus_public_key : NodePublicKey

abbrev pub ow_node_public_key_type : NodePublicKeyType → Bool
ow_node_public_key_type ed25519 = true
ow_node_public_key_type (other name) = false

abbrev pub ow_node_meta_data : NodeMetaData → Bool
ow_node_meta_data m = ow_node_public_key_type m.consensus_public_key.key_type

pub record NativeNodeMetaData : Type 0 where
  pub name : String
  pub security_contact : Option String
  pub consensus_pubkey : NodePublicKey
  -- the base64 text of the bytes of `FIXME`
  pub confidential_init_cert : String

-- `contact ? contact : undefined`: the empty text counts as absent
abbrev contact_if_any : Option String → Option String
contact_if_any none = none
contact_if_any (some String.[]) = none
contact_if_any (some (String.◌∷◌ c s)) = some (String.◌∷◌ c s)

unfoldable pub parse_node_meta_data_for_native : NodeMetaData → NativeNodeMetaData
parse_node_meta_data_for_native m = record {
  name = m.name;
  security_contact = contact_if_any m.security_contact;
  consensus_pubkey = m.consensus_public_key;
  confidential_init_cert = "RklYTUU=";
}

abbrev key_type_name : NodePublicKeyType → String
key_type_name ed25519 = "tendermint/PubKeyEd25519"
key_type_name (other name) = name

-- The hexadecimal digit of a number below 16.
abbrev digit_in : String → ℕ → String
digit_in String.[] d = String.[]
digit_in (String.◌∷◌ c s) d =
    let rest = digit_in s (pred d) in if d == 0 then String.◌∷◌ c String.[] else rest

abbrev digit : ℕ → String
digit = digit_in "0123456789abcdef"

-- A character within a JSON text.
abbrev escape_char : Char → String
escape_char c =
    if code c == 34
    then "\\\""
    else if code c == 92
    then "\\\\"
    else if code c == 8
    then "\\b"
    else if code c == 12
    then "\\f"
    else if code c == 10
    then "\\n"
    else if code c == 13
    then "\\r"
    else if code c == 9
    then "\\t"
    else if ltb (code c) 32
    then "\\u00" <> digit (code c / 16) <> digit (code c % 16)
    else String.◌∷◌ c String.[]

escape : String → String
escape String.[] = String.[]
escape (String.◌∷◌ c s) = escape_char c <> escape s

abbrev quoted : String → String
quoted s = "\"" <> escape s <> "\""

-- A property whose value is `undefined` is left out.
abbrev contact_property : Option String → String
contact_property none = ""
contact_property (some contact) = ",\"security_contact\":" <> quoted contact

-- `JSON.stringify` of the description, in the order of its properties
unfoldable pub json : NativeNodeMetaData → String
unfolding escape
json m =
    "{\"name\":"
    <> quoted m.name
    <> contact_property m.security_contact
    <> ",\"consensus_pubkey\":{\"type\":"
    <> quoted (key_type_name m.consensus_pubkey.key_type)
    <> ",\"value\":"
    <> quoted m.consensus_pubkey.value
    <> "},\"confidential_init\":{\"cert\":"
    <> quoted m.confidential_init_cert
    <> "}}"
