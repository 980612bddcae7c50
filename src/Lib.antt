-- ===== src/Lib.antt =====
-- Models of the zerosats node, a rollup node of private transactions, and what is proved of them.
--
-- The parts. Transactions wait in the pool of the node, ciphera/pkg/node/src/mempool.rs, until the
-- node leases a batch of them for a block. Blocks that have been received wait in a cache,
-- ciphera/pkg/node/src/cache.rs, until those below them have come. The blocks are agreed on by the
-- consensus library, ciphera/pkg/solid/src: a leader, chosen by an order of the validators,
-- proposes a manifest; the others vote for it with accepts; a proposal is confirmed once another
-- one builds on it. Confirmed blocks are kept on disk, ciphera/pkg/block-store/src, and a client
-- reads them page by page through a route of the node, ciphera/pkg/node/src/rpc/routes/blocks.rs,
-- with the cursors of ciphera/pkg/primitives/src/pagination.rs. The notes of the users stand in a
-- sparse Merkle tree, ciphera/pkg/smirk/src, which takes batches of changes and gives paths that
-- prove what stands in it.
--
-- The files.
--   Prelude, Prelude/*    names of the libraries, tests on numbers, lists, hash maps as association
--                         lists in any order, ordered maps as ascending ones
--   Mempool               node/src/mempool.rs: the state, `add` (for `_add`), `commit`, `free`,
--                         `lease_txns`, `lease_batch`; Mempool/Loop and Lease are about a batch,
--                         Valid about pools with one place for each transaction, Orderly and Run
--                         about calls of any keys in a row, Panic about a key without a transaction
--   BlockCache            node/src/cache.rs: `insert` (as `insert_block`), `confirm`, `remove`,
--                         the lookups and `is_out_of_sync`
--   Solid/Config          solid/src/config.rs: the accept thresholds; Config/Quorum
--   Solid/Types           proposal/{accept,header,manifest}.rs, errors.rs, traits.rs: the data; the
--                         record `App` stands for the traits `App` and `Peer` and the hash functions
--   Solid/Leader          proposal/manifest.rs: `ordered_validators`, `get_leader_for_skip`;
--                         Leader/Agreed is about manifests that list the validators differently
--   Solid/Proposal        proposal/mod.rs: the checks of a proposal and of an accept, the tally
--   Solid/Cache           proposal/cache.rs: `insert` (as `store`), `next_pending_proposal`,
--                         `confirm`; Cache/Chain has chains of proposals as an indexed data type,
--                         Cache/Ranges the reads of several proposals
--   Solid/Core            solid/{core,event}.rs: the state, `receive_proposal`, and the search for
--                         the current proposal; Core/Events has `next_event`, `skip`, `add_accept`,
--                         `receive_accept`; Core/Run has runs of all operations in any order
--   Pagination            primitives/src/pagination.rs: cursors and the `Paginator`
--   BlockStore/Keys       block-store/src/keys.rs: the keys and their bytes
--   BlockStore/Rocks      the database and the encodings of values, as records of operations and
--                         laws; Rocks/Sorted is a database that keeps the laws
--   BlockStore/Listing    block-store/src/{keys,list}.rs: `ListableKey`, the struct `List` (as
--                         `Listing`), `list` and `list_paginated` of both kinds of key; the
--                         children relate bytes to heights, and pages to rows
--   BlockStore/Store      block-store/src/{lib,values}.rs: `set` and the reads; Store/Refine has the
--                         abstract map of blocks, Store/Total any number of sets
--   BlockStore/Chain      the store from its creation through any sets to its pages
--   BlockStore/Migration  block-store/src/migration.rs: `migrate` and `migrate_to_v1`
--   Routes                node/src/rpc/routes/blocks.rs, node/src/node.rs: the listing of blocks
--   Smirk/Batch           smirk/src/batch: batches of changes to the Merkle tree; Batch/Valid has the
--                         invariant of the handles, Batch/Built what `from_entries` builds, and
--                         Batch/Merged what `merge` gives
--   Smirk/Collisions      smirk/src/tree/batch.rs: `check_collisions`, whether a batch fits a tree
--   Smirk/Node            smirk/src/tree/tree_repr.rs, smirk/src/hash.rs: the nodes of the Merkle tree,
--                         their hashes, and the insertion into a node; Node/Clean has the invariant
--                         of the hashes, Node/Bottom, Node/Rehash and Node/Inserted what an insertion
--                         keeps of it, Node/Slots and Node/Written what stands at
--                         the end of a path, Node/Progress when an insertion comes back, and
--                         Node/NoNull that no leaf is null
--   Smirk/Tree            smirk/src/tree/{mod,raw_api,batch,insert,remove}.rs: the tree with its
--                         entries; Tree/Paths, Sorted, Arrived and Arrivals are about the order of
--                         the changes and where they go, Tree/Ran about a successful insertion,
--                         Tree/Foreseen about the root hash, Tree/Content and Tree/Kept about the
--                         leaves and the entries, Tree/Suited and Tree/Total about when a batch is
--                         inserted, Tree/NotNull about the null hash
--   Smirk/Path            smirk/src/tree/path.rs, hash/src/path.rs: Merkle paths; Path/Slot has the
--                         path of a slot, Path/Proved the tree after batches and its paths,
--                         Path/Insert `insert_with_paths`, with its paths in Insert/Paths
--   */Examples            the theorems at concrete inputs; Solid/Demo and BlockStore/Demo have data
--
-- How the program is written down. Keys, hashes, peers and 256-bit integers are numbers; only their
-- equality and, for the order of the validators, their value matters. A hash set or a hash map is a
-- list, which is walked in its order. A method that changes its object takes and returns the state.
-- Trees are of depth at most 257, since a handle has at most 256 bits. `none` is a panic (`unwrap`,
-- `expect`, a remainder by zero) or fuel that has run out, so a theorem that the result is `some`
-- says that neither happens. In the block store a result is an `Outcome`: a value, an error, or a
-- panic; hashes are lists of 32 bytes there, because they stand in keys. Sums of `u64` wrap
-- (`add64`); the heights of proposals that are held are supposed to be at least two below 2 ^ 64. A
-- clock is an argument. A channel is a number, with a record of what was sent.
--
-- Fuel. A walk along the chain of proposals goes down in height, so the height of its start plus
-- one is enough. `confirmed_proposals_from` and `decendents` do not look at the heights on their way
-- down, so that this bound is enough for them supposes that each proposal is higher than the one it
-- names. The search for the current proposal removes a proposal each round, so the number
-- of proposals plus one is enough. `add_accept` calls itself for an own vote; its fuel is the depth
-- of these calls, two after `skip` and `next_event` and three after `receive_accept`.
-- `migrate` reads the version in each round; two rounds are enough for a store that has none.
--
-- Not modelled: signatures and hashes (arguments), locks (each operation holds the lock
-- throughout), the callers of the pool (node/src/node/proposal.rs leases and commits the
-- transactions of any block it is told of, also ones that are not in the pool or are under another
-- lease), the event loop with its timers, networking, the database itself (RocksDB is a parameter,
-- and its own failures are left out), the encodings of values and of cursors as text, the hash of
-- two nodes (`hash_merge` is an argument, and a cache of hashes is supposed to give the same), the
-- callbacks and the storage of the Merkle tree, proofs, contracts and command line tools.
pub mod Prelude
pub mod Mempool
pub mod Pagination
pub mod BlockCache
pub mod BlockStore
pub mod Routes
pub mod Solid
pub mod Smirk
