-- ===== src/Transaction/Transfer/Addresses.antt =====
-- The addresses of a transfer builder belong to its network, and their prefixes say so.
use text.Mathlib.Text.{starts_with}
use chain_nodelib.Prelude.{
  String, ◌≡◌, true, Option, some, List, arith, All, All-filter, Option-cases, inl, inr,
}
use chain_nodelib.Method.{ok}
use chain_nodelib.Network.{NetworkEnum, mainnet, testnet, devnet, enum_value, NetworkConfig}
use chain_nodelib.Types.{
  Input, Output, ow_input, ow_output, validate_transfer_address, prefix_network,
}
use chain_nodelib.Native.{Env, AddressNative}
use chain_nodelib.Transaction.Transfer.{
  TransferTransactionBuilder, TransferTransactionBuilderOptions, new_builder,
}
use chain_nodelib.Transaction.Transfer.Calls.{Call, run}
use chain_nodelib.Transaction.Transfer.Contents.{
  given_inputs, given_outputs, accepts_input, accepts_output, run-new_builder-lists,
}

-- An address is valid in one network at most.
abbrev pub IsExclusive : AddressNative → Type 0
IsExclusive native =
    (address network other : String)
    → native.is_transfer_address_valid address network ≡ true
    → native.is_transfer_address_valid address other ≡ true
    → network ≡ other

-- The prefixes of the addresses of the three networks.
abbrev pub prefix_of : NetworkEnum → String
prefix_of mainnet = "cro"
prefix_of testnet = "tcro"
prefix_of devnet = "dcro"

-- The prefix of the address is that of the network.
abbrev pub HasPrefixOf : String → String → Type 0
HasPrefixOf network address =
    (n : NetworkEnum) × (starts_with address (prefix_of n) ≡ true) × (enum_value n ≡ network)

prefix_network-starts_with :
    (address : String) (n : NetworkEnum)
    → prefix_network address ≡ some n
    → starts_with address (prefix_of n) ≡ true
prefix_network-starts_with address mainnet e = ground arith
prefix_network-starts_with address testnet e = ground arith
prefix_network-starts_with address devnet e = ground arith

module _ {B : Type 0} (env : Env B) (exclusive : IsExclusive env.address) where
  validated-HasPrefixOf :
      (address network : String)
      → validate_transfer_address env.address.is_transfer_address_valid address ≡ true
      → env.address.is_transfer_address_valid address network ≡ true
      → HasPrefixOf network address
  unfolding validate_transfer_address
  validated-HasPrefixOf address network v h = elim (Option-cases (prefix_network address)) [
    | inl unknown ↦ absurd (ground (arith, unknown))
    | inr (n, e) ↦ (
      n,
      prefix_network-starts_with address n e,
      exclusive address (enum_value n) network (rw e at v) h,
    )
  ]

  abbrev pub InputsFit : NetworkConfig B → List (Input B) → Type 0
  InputsFit network xs = All (λ x. HasPrefixOf network.name x.prev_output.address) xs

  abbrev pub OutputsFit : NetworkConfig B → List (Output B) → Type 0
  OutputsFit network xs = All (λ x. HasPrefixOf network.name x.address) xs

  accepted_input-fits :
      (network : NetworkConfig B) (x : Input B)
      → accepts_input env network x ≡ true
      → HasPrefixOf network.name x.prev_output.address
  unfolding ow_input ow_output
  accepted_input-fits network x h =
      validated-HasPrefixOf x.prev_output.address network.name (ground arith) (ground arith)

  accepted_output-fits :
      (network : NetworkConfig B) (x : Output B)
      → accepts_output env network x ≡ true
      → HasPrefixOf network.name x.address
  unfolding ow_output
  accepted_output-fits network x h =
      validated-HasPrefixOf x.address network.name (ground arith) (ground arith)

  -- If an address is valid in one network at most, then after any calls on a new builder, failing
  -- ones included, the prefix of each input's and each output's address is that of the network of
  -- the builder.
  pub run-new_builder-fits :
      (options : Option (TransferTransactionBuilderOptions B)) (b : TransferTransactionBuilder B)
      (cs : List (Call B))
      → new_builder env options ≡ ok b
      → InputsFit b.network (run env cs b).inputs × OutputsFit b.network (run env cs b).outputs
  run-new_builder-fits options b cs e =
      let (inputs, outputs, _) = run-new_builder-lists env options b cs e in
      (
        rw inputs (
            All-filter (λ x. HasPrefixOf b.network.name x.prev_output.address)
              (accepts_input env b.network) (accepted_input-fits b.network) (given_inputs cs)),
        rw outputs (
            All-filter (λ x. HasPrefixOf b.network.name x.address) (accepts_output env b.network)
              (accepted_output-fits b.network) (given_outputs cs)),
      )
