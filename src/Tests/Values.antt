-- ===== src/Tests/Values.antt =====
-- Witnesses on the checks of values, networks and addresses.
use chain_nodelib.Prelude.{◌≡◌, ◌↔◌, true, ◌^◌}
use chain_nodelib.Types.{ow_account_nonce}
use chain_nodelib.Types.Amounts.{IsUpTo, ow_account_nonce_iff}
use chain_nodelib.Tests.{numbers, number_laws}

ow_account_nonce_iff_example :
    (ow_account_nonce numbers (2 ^ 64) ≡ true) ↔ IsUpTo numbers number_laws (2 ^ 64) (2 ^ 64)
ow_account_nonce_iff_example = ow_account_nonce_iff numbers number_laws (2 ^ 64)
