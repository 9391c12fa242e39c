-- ===== src/Lib.antt =====
-- ecgeth: a go-ethereum client whose blocks are agreed on by an external consensus (PON/BADA). The
-- client executes transactions and keeps the chain; the external consensus asks it over RPC for a
-- candidate block, seals the candidate with a proof of its committee, and is asked over REST whether
-- the proof in a received header is right.
--
-- The parts, and the files that model them:
--   Params/Config        params/config.go, params/ecponconfig.go: `ChainConfig`, its forks
--                        (Config/Rules), `CheckConfigForkOrder` (Config/Order), `checkCompatible` and
--                        `CheckCompatible`.
--   Params/Checkpoint    params/config.go: `TrustedCheckpoint`, which `newHandler` takes.
--   Types                core/types/block.go: block nonces, headers, and blocks with their cached hash.
--   Ecpon                consensus/ecpon: the extra data of a sealed header, the interface to the
--                        external consensus, and the engine `EcPonBada`, which verifies, prepares,
--                        assembles and seals; its creation and its seal hash (Engine/Service).
--   Connector/Rpc        ecconnector/ecrpcclient.go: the REST client with its cache of the last seal
--                        that was verified. It implements the engine's interface `EcRpcCall`.
--   Connector/Batcher    ecconnector/batcher.go: the execution of one transaction (Execute), the loops
--                        of `commitTransactions` and `updateTransactions` (Loops), the split of the
--                        pool (Pool), a new unit of work (Work), the loop that asks for it and
--                        interrupts the one before (WorkLoop), and the candidate block and its
--                        insertion (Build).
--   Connector/Api        ecconnector/api.go: `BuildBlock` and `SealBlock`, which the external
--                        consensus calls.
--   Connector/Loop       ecconnector/ecconnector.go: the main loop, which tells the external consensus
--                        of new heads and follows the downloader.
--   Eth/Peer             eth/protocols/eth/peer.go: the hashes that a peer is known to have, and the
--                        queues of blocks for it; the sends of transactions (Transactions); the
--                        requests (Requests).
--   Eth/Sync             eth/sync.go: the choice of a peer to sync with, `doSync`, and the loop of
--                        `chainSyncer` as a step relation (Loop).
--   Eth/TxSync           eth/sync.go: `syncTransactions`, and `txsyncLoop64` as a step relation (Run).
--   Eth/Filters          eth/filters/filter_system.go: the subscriptions, the index of the event loop
--                        (Index), what an event is turned into (Deliver), and the walk of a light
--                        client over the headers (Light).
--   Eth/Handler          eth/handler.go: `newHandler` and its `inserter`, which the loop of Eth/Sync
--                        uses, `runEthPeer` (Admit), and the broadcasts of blocks and transactions to
--                        the peers of Eth/Peer (Cast).
--   Eth/Backend          eth/backend.go and eth/ethconfig/config.go: the engine, the miner and the
--                        connector of the service `Ethereum` with the errors of `New` (Create), its
--                        start and stop, and its caches.
--   Connector/System     ecconnector: the loops of the batcher, the calls of the API and the changes of
--                        the chain as one step relation, on which Connector/Batcher/Sound,
--                        System/Consistent and System/Sent are what holds between two steps, and
--                        System/Round is a whole round, with either answer to its write.
--   Connector/Stop       ecconnector: the end of the batcher and of the connector.
--   Connector/Service    eth/api_ecconnector.go: the RPC service of the connector.
--   Cmd/Flags            cmd/utils/flags.go: the check that flags exclude each other, and the flags
--                        that are lists.
--   Cmd/Config           cmd/utils/flags.go and cmd/geth/main.go: `SetEthConfig`, with the setters that
--                        it calls (Parts, Account), the caches (Memory) and the choice of the network
--                        (Network); the flags that `prepare` sets (Prepare); `SetP2PConfig` (Net) and
--                        `SetNodeConfig` (Node).
--   Base                 what all share: lists and signed integers over the native numbers, tests,
--                        outcomes.
--
-- A Go function is a function of the same name in snake case. A `*big.Int` or a pointer that may be
-- `nil` is an `Option`; an error is an `Option` of an error type, or an `Outcome`, which also has the
-- panics. What the code mutates is passed and returned. Where a Go test reads `nil` through a pointer,
-- the model has `panics`, unless a comment says why the pointer is set. A `uint64` is a native number;
-- where it may wrap, the remainder by 2^64 is written out.
--
-- Parameters: `Hashing` (rlp, the tries and the blooms), `ExtraCodec` (rlp at the extra data), `Net`
-- (JSON, URLs) with the HTTP exchange of each call, `Node` (core and core/state: `ApplyTransaction`,
-- snapshots, the set of transactions by price and nonce), `Backend` (the chain and the pool), `MapSet`
-- (mapset), `RpcNumbers` (the package rpc), `LogTools` and `LightTools` (the rest of the package
-- filters, the database of headers), `SyncView` and `Meeting` (what the peer set, the chain, the
-- downloader and a peer answer), `Surroundings` (the peer set, the chain and a square
-- root), `Context` and `Values` (the flags, and functions on strings), `Keys` (the key store),
-- `Presets` (the genesis blocks, the known networks and files) and `Machine` (the memory and the
-- package fdlimit), `NetTools` (what the flags of the network are read as) and `Files`.
-- Assumed of them, where a theorem says so, is: RLP reads back what it has written (`RoundTrips`), JSON
-- writes a struct as some bytes (`NeverEmpty`), `Shift` and `Pop` make the set of transactions smaller
-- (`Shrinks`), a set behaves as one (`SetLaws`), the numbers for the latest and the pending block are
-- negative, the second below the first (`AreSpecial`), headers are stored under their numbers,
-- none of which is the highest of 64 bits (`IsNumbered`), and the peer set lists each peer that lacks a block or a transaction once (`Lists`,
-- `ListsLacking`).
--
-- Bounds and fuel: `CheckCompatible` runs on `height + 2` rounds, as each error but the last rewinds
-- to a lower block. The loops of the batcher run on one round more than the transactions in the set.
-- For both, the theorems say that a result is given. `maxReadyTxs` is 20480. The walk of a light client
-- has no bound in the source: it runs on fuel, of which the numbers of the two heads and two more are
-- enough.
--
-- The steps of the batcher are whole handlers: how the goroutines interleave within one is not
-- modelled, but the interrupt may have any value in each round of a loop. Not modelled are the sends
-- and the waits on channels, the codecs, the network constants, the rest of the wiring in
-- eth/backend.go, the trigger of the garbage collector, which is computed in floating point, and the
-- start of the node.
pub mod Base
pub mod Params
pub mod Types
pub mod Ecpon
pub mod Connector
pub mod Eth
pub mod Cmd
