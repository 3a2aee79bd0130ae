-- ===== src/Lib.antt =====
-- The Chainlink contracts for Elrond: models of the smart contracts of this repository and the
-- theorems that hold of them.
--
-- Parts. The Aggregator (aggregator/src) collects submissions of oracles in rounds, answers a round
-- with their median, and pays the oracles out of deposited funds. The price aggregator
-- (price-aggregator/src) is a simpler feed per pair of tokens, paid by query. The exchange
-- (exchange/src) trades tokens at the latest answer of an Aggregator, which it asks for by an
-- asynchronous call. The Oracle (oracle/src) takes numbered requests of clients (client/src), and
-- authorized nodes fulfil them; its owner forwards submissions to an Aggregator.
--
-- Files.
--   Prelude, Prelude/*      shared names, tests on numbers, lists, byte literals
--   Framework, Framework/*  results, environment, big numbers, storage maps of elrond-wasm, and what
--                           a contract holds of each token
--   Median, Median/*        aggregator/src/median.rs; Sorting, Rank and Columns hold the theory of
--                           its sort, of medians, and of the medians of each index
--   Aggregator/State        aggregator_data.rs, aggregator_interface.rs, the storage
--   Aggregator/Reads        get_* readers, timed_out, supersedable, validate_oracle_round
--   Aggregator/Rounds       initialize_new_round and what calls it, requestNewRound
--   Aggregator/Funds        addFunds, withdrawFunds, withdrawPayment, pay_oracle
--   Aggregator/Submit       submit and its steps; Submit/* what an accepted one has done
--   Aggregator/Admin        init, changeOracles, updateFutureRounds, the administration of oracles
--   Aggregator/Views        the views, oracleRoundState included
--   Aggregator/Calls        the writing endpoints as one type, and the steps of the contract
--   Aggregator/Solvency/*   the books of the contract under every sequence of calls, what it holds of
--                           each token, and to whom it sends
--   Aggregator/Deadlock/*   what the dropped details of a round do to the rounds after it
--   Exchange/Contract       exchange/src/lib.rs; Format its decimal text, Charging and Settlement
--                           what its callback does, Rates the arithmetic of a conversion, Api the framework
--   PriceAggregator/*       price-aggregator/src; Rounds the feeds, Balances and World the payments,
--                           Optional the query that swallows its errors
--   Oracle/*, Client        oracle/src and client/src; Oracle/Nonces is about both,
--                           Oracle/Runs, Numbered and Spent about runs of the Oracle
--   Tests/*                 runs on concrete data
--
-- Correspondence. The storage of a contract is one record with a field for each storage mapper;
-- an endpoint is a function of the name it has in the source (snake case), from the environment
-- of the call, the storage and its arguments to a `Result` of the new storage and what it sends.
-- The virtual machine discards the changes of a call that fails, so an error carries no storage;
-- the callback of the exchange and `latestPriceFeedOptional` handle errors themselves, so there
-- these are values beside the storage. A transfer of a withdrawal is a value that the step of
-- the contract carries out; the callback of the exchange carries out its own. Payments are
-- credited before the call, and a transfer of more than is held ends it with an error. A
-- transfer to the contract's own address counts as sent. A `MapMapper` is an association list.
-- Some parts of one source function are definitions of their own, named for what they do.
--
-- Numbers. Addresses and big numbers are natural numbers. Sums of `u64` counters wrap around at
-- 2 ^ 64, as in a release build; subtraction of big numbers fails below zero. `10u64.pow` wraps
-- around. The loops are structural, and that of `format_biguint` recurs on accessibility, so no fuel
-- is used in the models.
--
-- Framework. What the code takes from elrond-wasm and cannot be read here is a parameter: the
-- record `Framework` has the subtraction of big numbers, the iteration over a storage map, in an
-- order that is not known, and `send().direct`, with their documented laws; `ExchangeApi` has
-- bytes of big numbers, the split of a byte string and token names. Tests/Setting and
-- Tests/Exchange give instances.
--
-- Not modelled: gas, the encoding of arguments and storage keys, the delivery of asynchronous calls
-- (they are values that name their receiver), the wasm wrappers, the Go adapter in elrond-adapter,
-- the scripts, and the Mandos scenarios.
pub mod Prelude
pub mod Framework
pub mod Median
pub mod Aggregator
pub mod Exchange
pub mod PriceAggregator
pub mod Oracle
pub mod Client
mod Tests
