-- ===== src/Lib.antt =====
-- A model of the Flare P-chain indexer, the Go program of this repository, and theorems about it.
--
-- The indexer follows the P-chain and the X-chain of an Avalanche node into a database. Cronjobs then
-- read the database in epochs of fixed length: the voting cronjob sends the Merkle root of the staking
-- transactions of each epoch to a voting contract on the C-chain; when the contract has confirmed a
-- root, the mirror cronjob sends each staking transaction of the epoch with a Merkle proof to the
-- mirroring contract. The address binder cronjob first registers the keys of the stakes' addresses.
-- The uptime voting cronjob votes for the nodes that were connected long enough. Services
-- answer attestation requests, and serve the data that is mirrored, from the same tables.
--
-- Parts
-- * Merkle models utils/merkle/merkle.go: `Build` is `build`, `GetProof` is `get_proof`, and so on.
--   Merkle/Build has the shape of the slice, Merkle/Proof the proofs, Merkle/Find the search for
--   a leaf. Hashes and Keccak-256 are a parameter, `HashApi`.
-- * Staking models utils/staking/utils.go and ParseAddress of utils/chain/address.go; avalanchego's
--   identifiers and Bech32 and go-ethereum's ABI encoding are a parameter, `StakingApi`.
--   Staking/Epochs models utils/staking/epochs.go, Staking/Dedupe and Staking/Proofs are about
--   `dedupe_txs` and about the trees.
-- * Database has the rows of database/*.go, Utils the functions of utils/math.go. Database/PChain and
--   Database/XChain model the queries of database/pchain_queries.go and database/xchain_queries.go as
--   functions on lists of rows: where a query names no order, the rows come in the order of the table.
--   Texts are compared byte by byte; the order of texts and the error of the database are fields.
--   Database/Transaction models `DoInTransaction` of database/utils.go, with the recovery from a panic;
--   gorm's Rollback and Commit are the parameter `Transactions`, and `IsAtomic` is what its
--   documentation says of them.
-- * Cronjob models indexer/cronjob/cronjob.go. Cronjob/World is what a cronjob acts on: the table of
--   job states, which it reads and writes, and the calls of contracts, kept in order with their
--   answers. The other tables, the contracts and the clock are functions of what was done before,
--   in the record `Env`. Cronjob/Voting models indexer/cronjob/voting.go, Cronjob/Mirror models
--   indexer/cronjob/mirror.go, Cronjob/Binder models indexer/cronjob/address_binder.go. Cronjob/Uptime
--   models the aggregation of indexer/cronjob/uptime_voting.go and Cronjob/UptimeVoting the rest of
--   that file; the comparison with the threshold, in floating point, is a parameter. Cronjob/Trace has
--   the rules by which the theorems follow a run.
-- * Indexer models indexer/shared/in_updater.go and utils/cache.go: an input is a `Slot`, which the
--   batch shares with the list of inputs that still wait for an address. Indexer/Batch models
--   indexer/shared/indexer.go over the interface of the indexer of one chain, Indexer/Outputs models
--   indexer/shared/base_tx.go and Indexer/InOut models indexer/shared/inout_indexer.go over the
--   interface of an input updater. The loop of updateFromDB keeps the address of its variable, which at
--   Go 1.18 all rounds share: the map has addresses, which are read after the loop. Indexer/PChain and Indexer/XChain model the batch indexers of
--   indexer/pchain and indexer/xchain: avalanchego's transactions, parsed, are data of the model, and
--   its parser and the node are parameters. Indexer/PChain/Updater is indexer/pchain/in_updater.go.
-- * Migrations models indexer/migrations/container.go: a world is the table of migrations and the
--   tables on which the migrations act; the errors of the database are a parameter, `Env`.
-- * Encoding models utils/encoding.go and the packing of attestation requests in
--   services/utils/encoding.go: a text is its bytes. Query models services/routes/query.go on the
--   tables of Database/PChain; avalanchego's identifiers and go-ethereum's ABI encoding and hash are a
--   parameter, `QueryApi`.
-- * Mirroring models services/routes/mirroring.go over the interface `MirrorDb`, which the queries of
--   Database/PChain fill.
-- * Prelude has what is used of Go: `Run` for a value, an error or a panic, int64 with its
--   wrap-around, strings and their order, times, maps, sort.Slice and sort.Search. Exec is `Run` with
--   a state. Tests has runs on concrete data.
--
-- Loops. `range` loops are recursion on the list. The loops that go down from the last epoch in
-- Mirror and in Binder take as many rounds as the interval has epochs; a round more would leave the
-- interval.
-- `epochs_from` is the `for` loop over the epochs of a range, on fuel, and `range_epochs` gives it one
-- round for each epoch. That is enough for an end below the largest int64; for that end the Go loop
-- wraps around and does not stop, and the model has its first pass only. The loops of the Merkle tree recurse on the index, which falls each round.
--
-- Not modelled: locks, logging, the ticker of RunCronjob, the SQL behind the queries, the texts that
-- only go into an error's message, and the construction of the cronjobs from the configuration; the
-- decoding of requests from JSON; the routes of services/routes other than query.go and mirroring.go,
-- with their queries FetchPChainStakingData and FetchPChainTxFull; indexer/cronjob/uptime.go,
-- utils/structures.go and utils/time.go; the clients of the chains, and the generated bindings of the
-- contracts.
pub mod Cronjob
pub mod Database
pub mod Encoding
pub mod Exec
pub mod Indexer
pub mod Merkle
pub mod Migrations
pub mod Mirroring
pub mod Prelude
pub mod Query
pub mod Staking
pub mod Tests
pub mod Utils
