-- ===== src/Transaction/Prefixes.antt =====
-- The unsigned forms of the transactions that begin with a prefix of encoding.ts.
use chain_nodelib.Prelude.{◌≢◌, arith}
use chain_nodelib.Native.{Env}
use chain_nodelib.Transaction.Unbond
use chain_nodelib.Transaction.Unjail
use chain_nodelib.Transaction.NodeJoin
use chain_nodelib.Transaction.Unbond.{UnbondTransactionBuilder}
use chain_nodelib.Transaction.Unjail.{UnjailTransactionBuilder}
use chain_nodelib.Transaction.NodeJoin.{NodeJoinTransactionBuilder}

-- No two kinds of transactions have the same unsigned form, whatever their raw transactions.
to_unsigned_hex_distinct :
    {B : Type 0} (env : Env B) (u : UnbondTransactionBuilder B) (j : UnjailTransactionBuilder B)
    (n : NodeJoinTransactionBuilder B)
    → (Unbond.to_unsigned_hex env u ≢ Unjail.to_unsigned_hex env j)
      × (Unbond.to_unsigned_hex env u ≢ NodeJoin.to_unsigned_hex env n)
      × (Unjail.to_unsigned_hex env j ≢ NodeJoin.to_unsigned_hex env n)
unfolding Unbond.to_unsigned_hex Unjail.to_unsigned_hex NodeJoin.to_unsigned_hex
to_unsigned_hex_distinct env u j n = (ground arith, ground arith, ground arith)
