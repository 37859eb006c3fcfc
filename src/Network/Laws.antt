-- ===== src/Network/Laws.antt =====
-- The constants and the configurations that the library makes, against its own checks.
use chain_nodelib.Prelude.{◌≡◌, refl, true, arith}
use chain_nodelib.Method.{ok}
use chain_nodelib.BigNumber.{BigNumbers, NumberLaws}
use chain_nodelib.Fee.{ow_fee_config}
use chain_nodelib.Network.{
  mainnet, testnet, NetworkConfig, DevnetOptions, mainnet_config, testnet_config, devnet_config,
  ow_network_config, from_chain_id,
}

module _ {B : Type 0} (big : BigNumbers B) (laws : NumberLaws big) where
  -- The Mainnet and the Testnet constants pass the check of a network configuration.
  pub ow_network_config-constants :
      (ow_network_config big (mainnet_config big) ≡ true)
      × (ow_network_config big (testnet_config big) ≡ true)
  unfolding ow_network_config
  ow_network_config-constants = (
    ground (arith, laws.ge_zero 11 1, laws.ge_zero 125 2),
    ground (arith, laws.ge_zero 11 1, laws.ge_zero 125 2),
  )

module _ {B : Type 0} (big : BigNumbers B) where
  -- The chain ids of the Mainnet and the Testnet constants are those of their networks.
  pub from_chain_id-constants :
      (from_chain_id (mainnet_config big).chain_hex_id ≡ mainnet)
      × (from_chain_id (testnet_config big).chain_hex_id ≡ testnet)
  unfolding from_chain_id
  from_chain_id-constants = (refl, refl)

  -- A configuration that the Devnet constructor makes passes the check of a network configuration,
  -- is named Devnet and has the fee of the options.
  devnet_config-ow :
      (options : DevnetOptions B) (c : NetworkConfig B)
      → devnet_config big options ≡ ok c
      → (ow_network_config big c ≡ true) × (c.name ≡ "Devnet") × (c.fee_config ≡ options.fee_config)
  unfolding devnet_config ow_network_config
  devnet_config-ow options c e =
      let name : c.name ≡ "Devnet" = ground arith in
      let same : c.fee_config ≡ options.fee_config = ground arith in
      let fee : ow_fee_config big options.fee_config ≡ true = ground arith in
      (rw (name, same, fee), name, same)
