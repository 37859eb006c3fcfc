-- ===== src/Transaction/Transfer/Wallet.antt =====
-- A payment to an address of a wallet, and the spending of it: key pairs of lib/src/hd_wallet and
-- lib/src/key_pair, addresses of lib/src/address and the builder of lib/src/transaction/transfer.
use chain_nodelib.Prelude.{
  ℕ, String, ◌≡◌, refl, true, Option, some, none, List, [], ◌∷◌, ◌++◌, arith, length,
  get_elem?-concat, Option-cases, inl, inr,
}
use chain_nodelib.Method.{ok, ◌>>=◌}
use chain_nodelib.Number.{Number, whole}
use chain_nodelib.Buffer.{Buffer}
use chain_nodelib.Network.{NetworkConfig, NetworkEnum, enum_value}
use chain_nodelib.Types.{
  Input, Output, Timespec, single_sign_address, ow_tx_id, ow_coin, prefix_network,
  validate_transfer_address, ow_output, ow_input, ow_input_address_params,
}
use chain_nodelib.Native.{Env, AddressNative}
use chain_nodelib.KeyPair.{KeyPair, has_private_key, from_private_key}
use chain_nodelib.HdWallet.{HdWallet, Bip, derive, derivef}
use chain_nodelib.Address
use chain_nodelib.Transaction.Transfer.{TransferTransactionBuilder, add_input, add_output}
use chain_nodelib.Transaction.Transfer.Export.{MaySign}

-- What the native module says of the addresses that it makes: each is an address of the network it
-- was made for, and begins with the prefix of that network.
pub record AddressLaws (native : AddressNative) : Type 0 where
  pub valid :
      (key : Buffer) (network address : String)
      → native.get_transfer_address_from_public_key key network ≡ ok address
      → native.is_transfer_address_valid address network ≡ true
  pub prefix :
      (key : Buffer) (network address : String)
      → native.get_transfer_address_from_public_key key network ≡ ok address
      → (n : NetworkEnum) × (prefix_network address ≡ some n) × (enum_value n ≡ network)

module _ {B : Type 0} where
  -- An amount of coins for an address.
  abbrev pub payment : String → B → Option Timespec → Output B
  payment address value valid_from = record {
    address = address;
    value = value;
    valid_from = valid_from;
  }

  abbrev pub paid : Output B → TransferTransactionBuilder B → TransferTransactionBuilder B
  paid o b = record b { outputs = b.outputs ++ o ∷ []; incomplete_hex = none }

  -- An output of a transaction, to be spent by one signer.
  abbrev pub spending : String → ℕ → Output B → Input B
  spending id index o = record {
    prev_tx_id = id;
    prev_index = whole index;
    prev_output = o;
    address_params = single_sign_address;
  }

  abbrev pub spent : Input B → TransferTransactionBuilder B → TransferTransactionBuilder B
  spent x b = record b { inputs = b.inputs ++ x ∷ []; incomplete_hex = none }

module _ {B : Type 0} (env : Env B) where
  -- The transfer address of a key pair in a network.
  abbrev pub HasAddress : KeyPair → NetworkConfig B → String → Type 0
  HasAddress k network address =
      Address.transfer env.big env.address
        (record { source = Address.key_pair k; network = network })
      ≡ ok address

  HasAddress-key :
      (k : KeyPair) (network : NetworkConfig B) (address : String)
      → HasAddress k network address
      → (key : Buffer) × (env.address.get_transfer_address_from_public_key key network.name
          ≡ ok address)
  unfolding Address.transfer
  HasAddress-key k network address h = elim (Option-cases k.inner_public_key) [
    | inl missing ↦ absurd (ground arith)
    | inr (key, e) ↦ (key, ground arith)
  ]

  -- Every key pair that a wallet derives has a private key.
  derivef-has_private_key :
      (bip : Bip) (wallet : HdWallet) (path : List ℕ) (args : List Number) (k : KeyPair)
      → derivef bip env.key_pair path args wallet ≡ ok k
      → has_private_key k ≡ true
  unfolding derivef derive from_private_key has_private_key
  derivef-has_private_key bip wallet path args k e = ground arith

  module _ (laws : AddressLaws env.address) where
    accepts_address :
        (k : KeyPair) (network : NetworkConfig B) (address : String)
        → HasAddress k network address
        → (validate_transfer_address env.address.is_transfer_address_valid address ≡ true)
          × (env.address.is_transfer_address_valid address network.name ≡ true)
    unfolding validate_transfer_address
    accepts_address k network address h =
        let (key, e) = HasAddress-key k network address h in
        let (n, p, q) = laws.prefix key network.name address e in
        (
          ground (arith, laws.valid key network.name address e),
          laws.valid key network.name address e,
        )

    -- Let the addresses that the native module makes be valid in the network they are made for and
    -- have its prefix. A wallet derives a key pair, and the network of a builder gives the key pair an
    -- address. Then every payment of a valid amount to this address can be added to the builder, and a
    -- builder of the same network can spend it: the input is added, whatever the place of the output
    -- in a transaction of a valid id, and the key pair that the wallet derives may sign it.
    pub payment-MaySign :
        (bip : Bip) (wallet : HdWallet) (path : List ℕ) (args : List Number) (k : KeyPair)
        (address : String) (value : B) (valid_from : Option Timespec) (id : String) (index : ℕ)
        (sender receiver : TransferTransactionBuilder B)
        → derivef bip env.key_pair path args wallet ≡ ok k
        → receiver.network ≡ sender.network
        → HasAddress k sender.network address
        → ow_coin env.big value ≡ true
        → ow_tx_id id ≡ true
        → (add_output env (payment address value valid_from) sender
            ≡ (ok tt, paid (payment address value valid_from) sender))
          × (add_input env (spending id index (payment address value valid_from)) receiver
              ≡ (ok tt, spent (spending id index (payment address value valid_from)) receiver))
          × MaySign env
              (whole (length receiver.inputs))
              k
              (spent (spending id index (payment address value valid_from)) receiver)
    unfolding add_input add_output ow_input ow_output ow_input_address_params ◌>>=◌
    payment-MaySign bip wallet path args k address value valid_from id index sender receiver e same
          h coin valid =
        let (a, c) = accepts_address k sender.network address h in
        let o = payment address value valid_from in
        let x = spending id index o in
        (
          ground arith,
          ground (arith, same),
          record {
            position = length receiver.inputs;
            is_position = refl;
            input = x;
            found = get_elem?-concat receiver.inputs x;
            has_key = derivef-has_private_key bip wallet path args k e;
            unlocks = rw same h;
          },
        )
