-- ===== src/Lib.antt =====
-- Verification of chain-nodelib, the Node.js library that builds transactions of Crypto.com Chain.
--
-- The program. A caller makes a builder of a transaction, adds inputs, outputs, view keys or
-- witnesses, signs and exports. The TypeScript classes check the arguments, keep the contents and
-- cache what the native module (native/, Rust) has built of them; the cryptography and the
-- encodings are the native module's. Beside the builders there are networks, fees, addresses, key
-- pairs, wallets and the sessions in which several parties sign a message together. The integration
-- tests talk to a node and to a wallet with clients of their own.
--
-- The files, with the code that each models (paths below lib/src, those of Client below
-- integration-tests):
--   Method, Method/Keeps       the effects of a method: the fields of `this`, and a throw
--   Number, Buffer, BigNumber  numbers, bytes and bignumber.js, as far as the code uses them
--   Native                     native.ts, and the functions of the native module
--   Fee                        fee/types.ts, fee/constant.ts
--   Network, Network/Laws      network/network.ts, network/types.ts
--   Types                      types.ts, types/timespec.ts, address/constant.ts, init.ts; Amounts
--                              and TxIds are about what its checks admit
--   Units, Units/RoundTrip     utils/utils.ts
--   KeyPair                    key_pair/key_pair.ts
--   Address, Address/Laws      address/transfer.ts, address/staking.ts
--   Transaction                transaction/transaction_builder.ts, transaction/encoding.ts
--   Transaction/Transfer       transaction/transfer/transfer_transaction_builder.ts, types.ts
--   Transaction/Deposit        transaction/staking/deposit_transaction_builder.ts, types.ts
--   Transaction/Withdraw       transaction/staking/withdraw_unbonded_transaction_builder.ts, types.ts
--   Transaction/Unbond         transaction/staking/unbond_transaction_builder.ts, types.ts
--   Transaction/Unjail         transaction/council_node/unjail_transaction.ts, types.ts
--   Transaction/NodeJoin       transaction/council_node/node_join_transaction_builder.ts, types.ts
--   MultiSig                   multi_sig/multi_sig_session.ts, multi_sig/multi_sig_builder.ts
--   HdWallet                   hd_wallet/hd_wallet.ts; Networks and Distinct are about the
--                              paths of the networks
--   Client                     common/utils.ts: errors and sleeps, and what the clients rely on
--   Client/Rpc                 common/rpc-client.ts
--   Client/Tendermint          common/tendermint-rpc.ts
--   Client/Waits               common/utils.ts: the loops that wait
--   Client/Wallet              common/wallet-rpc.ts, withdraw-all-stake.ts
--   Client/Assertion           common/assertion.ts
--   Client/Settings            common/constant.ts, common/staking.ts, common/utils.ts
--   Prelude, Tests             shared names and lemmas; the witnesses and runs
-- The modules below a builder hold the sequences of its calls (Calls), its accessors (Getters)
-- and the proofs: Contents compares a builder with filters of what it was given, Reference and
-- Agreement with one that caches nothing, Replay with one that keeps the signings in place of the
-- signed transaction, Errors is about calls that throw, Complete runs a whole protocol.
-- Transaction/Transfer/Wallet joins wallets, key pairs and addresses to the transfer builder.
-- MultiSig/Cache is the quotient of the lists of collected buffers by what a session can tell of
-- them, MultiSig/Session/View the session over it, and MultiSig/Session/Exchange its use.
-- Polling, Elapsed, Blocks, Requests, Sending, Script, Balance, Broadcast and Matches, below
-- Client, are proofs.
--
-- The correspondence. A class is a record of its fields, in snake_case; a field that may be
-- `undefined` is an Option. A method is a function of the same name: one that writes to `this` is a
-- `Method`, from a state to an answer and the next state, and what it wrote before a throw stays
-- written; one that only reads is a function into `Result`. `ow(value, predicate)` is `ow` of the
-- predicate's answer, `throw new Error` is `require` or `err`, and the steps stand in the order of
-- the code. A sequence of calls is a list that `run` applies, failing calls included.
--
-- Parameters. The native module, Node's URL and NODE_ENV are the record `Env`; the theorems hold
-- whatever these functions answer or throw, except that those on a run to its end say in their
-- hypotheses which calls are answered (`Cooperates`, `Signs`, `SignsAll`), and that on the
-- prefixes of addresses that none is valid in two networks (`IsExclusive`). That on a payment
-- relies on the addresses that the native module makes (`AddressLaws`). On a multi-signature
-- session nothing is asked of the native module but what it answers in the calls that are made. A
-- native function is a function of its arguments here, so it answers equal calls alike; a new
-- random key is an argument.
-- bignumber.js is the records `BigNumbers` and `UnitOperations`; a theorem that relies on the
-- documented laws of numbers takes `NumberLaws` or `UnitLaws`. bip32 and bip39 are the record
-- `Bip`. For the clients, axios, lossless-json, the clock and what JavaScript makes of a value as
-- a number or a text are the record `Platform` over a state of the servers. The theorems that a
-- wait ends take as hypotheses that a sleep takes its time (`Advances`), or that the node answers
-- its height and makes blocks (`IsProducing`); that on the requests takes a record that the server
-- keeps (`IsRecord`).
--
-- Bounds. The text of a number is computed with room for ten digits, enough for the 32-bit
-- arguments of `derivef`, and for sixteen in the name of a wallet. The loops of the clients take
-- the number of their turns as an argument, and end as `pending` beyond it; the theorems say how
-- many turns are enough. Every other definition is by structural recursion.
--
-- Left out. Arguments have the types that TypeScript gives them, so the checks of `ow` that only
-- ask for a type always pass; numbers have no NaN and no infinities. Objects are values: a caller
-- who changes an object after handing it over is not modelled, and `clone`, a call of lodash, is
-- left out. The bytes of a Buffer stand without an identity, except where the multi-signature
-- session compares objects. A client is called by one caller at a time, and what it writes to the
-- console is left out. isBigNumber, generateMnemonic, the index files, the native module, docs/
-- (a copy of the theme of typedoc) and the test cases of integration-tests/ are not modelled.
pub mod Prelude
pub mod Method
pub mod Number
pub mod Buffer
pub mod BigNumber
pub mod Client
pub mod Fee
pub mod Network
pub mod Types
pub mod Units
pub mod Native
pub mod KeyPair
pub mod Address
pub mod Transaction
pub mod MultiSig
pub mod HdWallet
pub mod Tests
