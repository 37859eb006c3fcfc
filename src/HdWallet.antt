-- ===== src/HdWallet.antt =====
-- lib/src/hd_wallet/hd_wallet.ts: key pairs derived from a seed. Paths are lists of code points.
-- The functions of the packages bip32 and bip39 are a parameter.
pub mod Format
pub mod Networks
pub mod Distinct
use chain_nodelib.Prelude.{
  ℕ, ◌+◌, ◌-◌, ◌*◌, ◌/◌, ◌%◌, ◌^◌, String, Bool, true, false, ◌&&◌, ◌||◌, Option, none, some, List,
  [], ◌∷◌, ◌++◌, all, is_empty, ltb, leb, ◌==◌, if◌then◌else◌, str_eq, not,
}
use chain_nodelib.Method.{Result, ok, err, argument, thrown, type_error, ow, require, and_then}
use chain_nodelib.Number.{Number, whole, fraction, negative}
use chain_nodelib.Buffer.{Buffer}
use chain_nodelib.Native.{KeyPairNative}
use chain_nodelib.KeyPair.{KeyPair, from_private_key}

pub record Bip : Type 0 where
  -- `bip32.fromSeed(seed).derivePath(path).privateKey`
  pub derive_private_key : Buffer → List ℕ → Result (Option Buffer)
  pub validate_mnemonic : String → Bool
  -- `none` stands for the call with one argument
  pub mnemonic_to_seed_sync : String → Option String → Buffer

pub record HdWallet : Type 0 where
  pub seed : Buffer

pub to_seed : HdWallet → Buffer
to_seed wallet = wallet.seed

pub data AccountType : Type 0 where
  transfer_account staking_account view_key_account : AccountType

abbrev pub account_type : AccountType → ℕ
account_type transfer_account = 0
account_type staking_account = 1
account_type view_key_account = 2

pub data CharKind : Type 0 where
  word opening closing plain : CharKind

-- `\w`
abbrev pub is_word : ℕ → Bool
is_word c =
    (leb b'0' c && leb c b'9')
    || (leb b'A' c && leb c b'Z')
    || (leb b'a' c && leb c b'z')
    || c == b'_'

unfoldable pub kind : ℕ → CharKind
kind c =
    if is_word c then word else if c == b'{' then opening else if c == b'}' then closing else plain

-- `n.toString()`, with a bound on the number of digits
unfoldable pub decimal : ℕ → ℕ → List ℕ
decimal ℕ.zero n = []
decimal (ℕ.suc digits) n =
    let longer = decimal digits (n / 10) ++ (b'0' + n % 10) ∷ [] in
    if ltb n 10 then (b'0' + n) ∷ [] else longer

-- A number below 2 ^ 32 has at most ten digits.
abbrev pub number_text : ℕ → List ℕ
number_text n = decimal 10 n

-- Text that has been written, and the arguments that are left.
abbrev pub Formatted : Type 0
Formatted = Result (List ℕ × List ℕ)

abbrev pub prepend : List ℕ → Formatted → Formatted
prepend cs r = and_then r λ p. ok (cs ++ p.0, p.1)

-- `replace(/{\w*}/g, …)` from left to right. The first argument holds the characters that follow an
-- opening brace, as long as they may still end in a match.
unfoldable pub scan : Option (List ℕ) → List ℕ → List ℕ → Formatted
scan none [] args = ok ([], args)
scan (some name) [] args = ok (b'{' ∷ name, args)
scan none (c ∷ cs) args = elim (kind c) [
  | opening ↦ scan (some []) cs args
  | word ↦ prepend (c ∷ []) (scan none cs args)
  | closing ↦ prepend (c ∷ []) (scan none cs args)
  | plain ↦ prepend (c ∷ []) (scan none cs args)
]
scan (some name) (c ∷ cs) args = elim (kind c) [
  | word ↦ scan (some (name ++ c ∷ [])) cs args
  | opening ↦ prepend (b'{' ∷ name) (scan (some []) cs args)
  | closing ↦ elim args [
    | [] ↦ err (thrown "Insufficient argument for format path")
    | a ∷ rest ↦ prepend (number_text a) (scan none cs rest)
  ]
  | plain ↦ prepend (b'{' ∷ name ++ c ∷ []) (scan none cs args)
]

-- `ow.array.ofType(ow.number.uint32)`, and the numbers that pass
abbrev pub ow_uint32s : List Number → Result (List ℕ)
ow_uint32s [] = ok []
ow_uint32s (whole n ∷ ns) =
    and_then (ow (ltb n 4294967296)) λ _. and_then (ow_uint32s ns) λ rest. ok (n ∷ rest)
ow_uint32s (fraction n ∷ ns) = err argument
ow_uint32s (negative ∷ ns) = err argument

-- the path that `derivef` derives
unfoldable pub format : List ℕ → List Number → Result (List ℕ)
unfolding scan
format format_path args = and_then (ow_uint32s args) λ numbers.
    and_then (scan none format_path numbers)
      λ p. and_then (require (is_empty p.1) "Argument never used") λ _. ok p.0

abbrev defined_key : Option Buffer → Result Buffer
defined_key none = err argument
defined_key (some key) = ok key

module _ (bip : Bip) (native : KeyPairNative) where
  -- `fromPrivateKey` refuses a private key that is `undefined`
  unfoldable pub derive : List ℕ → HdWallet → Result KeyPair
  derive path wallet =
      and_then (bip.derive_private_key wallet.seed path)
        λ derived. and_then (defined_key derived) λ private_key. from_private_key native private_key

  unfoldable pub derivef : List ℕ → List Number → HdWallet → Result KeyPair
  derivef format_path args wallet = and_then (format format_path args) λ path. derive path wallet

  -- an empty passphrase counts as absent
  abbrev passphrase_if_any : Option String → Option String
  passphrase_if_any none = none
  passphrase_if_any (some passphrase) = if str_eq passphrase "" then none else some passphrase

  pub from_mnemonic : String → Option String → Result HdWallet
  from_mnemonic mnemonic passphrase =
      and_then (require (bip.validate_mnemonic mnemonic) "Invalid mnemonic words") λ _.
        ok (record { seed = bip.mnemonic_to_seed_sync mnemonic (passphrase_if_any passphrase) })
