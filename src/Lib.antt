-- ===== src/Lib.antt =====
-- A node of a block chain that records who owns, delegates and maps which IP prefixes.
--
-- Parts. A transaction (transactions.py) allocates or delegates a prefix, or publishes map
-- servers or locators of its sender. A block (block.py) is a list of transactions with a signer.
-- apply.py checks transactions and blocks and runs them on a state (state.py, account.py), which
-- keeps accounts in a cache over a Merkle trie, with a journal to undo changes. An account holds
-- a balance (balance.py).
--
-- chain.py keeps the blocks in a database and adds new ones to the head; chain_service.py keeps
-- the pool of pending transactions, creates blocks from it and answers map requests; user.py
-- reads the transactions of the user from a file; blockchaincba.py runs all of it in turns of a
-- loop. consensus.py collects signature shares, runs the distributed key generation and chooses
-- the next signer; share_cache.py remembers shares; map_reply.py packs the answers to map
-- requests; db.py holds the databases under the trie.
--
-- Modules, each with the file it models, which stands at the root of the repository:
--   Utils, Balance and Block: utils.py, balance.py, block.py; Transaction: transactions.py;
--   State: state.py with account.py; Apply: apply.py; Database: db.py; MapReply: map_reply.py;
--   Consensus: consensus.py with shares.py, of which Consensus.NextSigner is the choice of the signer;
--   ShareCache: share_cache.py; Chain: chain.py, with the state from a snapshot of state.py in
--   Chain.Poststate; ChainService: chain_service.py, with the snapshots and copies of state.py in
--   ChainService.Creation; User: user.py; Node: blockchaincba.py, with the variables of `run` in
--   Node.Local, one turn of the loop in Node.Turn and what runs reach as the relation `Reaches`.
-- Prelude holds what they share: results with the exceptions of own_exceptions.py, dicts, methods that
-- may raise, and reasoning on them. The child modules hold the theorems, Tests the runs.
-- Every function has the name of the function of the code that it models; the parts of a long
-- function have names of their own, and the comment above each says which lines it stands for.
--
-- Packages. netaddr and ipaddr are the record NetAddr, the trie of pyethereum is Trie, hashing,
-- RLP and secp256k1 are Crypto and Codec, the BLS library is Bls and LevelDB is LevelStore, each
-- with the laws that the code relies on. Formats is how blocks, positions and dumps become bytes.
-- NetAddr.Singletons, Trie.Pairs and Tests.Model give instances, on which the tests run.
--
-- State. A method that may raise is a function from the state to a result and a state, and the
-- state that an exception leaves behind is part of its result. A balance is read from the state
-- by unpickling, so every read gives a copy. Python's dicts are association lists; no theorem
-- depends on their order. Loops run over a list, with three exceptions that have fuel:
-- `groups_from`, with the number of the bits that are left, which Consensus.Signer shows to be
-- enough, `future_shares`, with one turn for each waiting share, which Node.Waiting shows to be
-- enough, and `drain`, with one turn more than there are queued blocks, which Chain.Draining
-- shows to be enough. `add_block` calls itself for the blocks that wait for the added one; its
-- depth is the depth of Python's stack, beyond which it raises. The clock is an argument.
--
-- Not modelled. The start of a chain from a file, the network with its messages, and the start of
-- the program. Sockets, the configuration, logging, the BLS library and the data sets are input,
-- output or third-party code.
pub mod Prelude
pub mod Utils
pub mod NetAddr
pub mod Balance
pub mod Trie
pub mod State
pub mod Transaction
pub mod Block
pub mod Apply
pub mod Database
pub mod Consensus
pub mod MapReply
pub mod ShareCache
pub mod ChainService
pub mod Chain
pub mod Node
pub mod User
pub mod Tests
