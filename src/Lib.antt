-- ===== src/Lib.antt =====
-- Verification of the storage core of the hypersnap node (Rust).
--
-- The node keeps the messages of a social protocol in a key-value database (RocksDB). A message is
-- stored under a key made of its user, its set and its ts_hash (timestamp and hash); a set index names,
-- for each slot (a link of a type to a target, say), the ts_hash of the message that stands there. A
-- store merges messages as a last-write-wins set: it reads the slot, refuses the new message or deletes
-- what conflicts with it, writes the message and its indices to a batch, and records a hub event under
-- an id of its own. Only a commit outside the store writes the batch to the database.
--
-- Files, with the code they model (paths from the repository's root):
-- - Shared: the names that all files share, Boolean tests and lists over the native numbers, and
--   `Result` with the error type of the stores.
-- - Bytes: src/storage/util.rs, byte strings; Bytes/Order, Bytes/Value and Bytes/Range prove them.
-- - Proto: proto/definitions/message.proto, the messages.
-- - Keys: the keys of src/storage/store/account/message.rs; Keys/Prefix: src/storage/constants.rs and
--   the contexts of src/hyper/mod.rs; Keys/BigEndian: big-endian numbers; the other children prove.
-- - Events: the id generator and event keys of src/storage/store/account/event.rs.
-- - Database: the batch of src/storage/db/rocksdb.rs and reads through it.
-- - Store: src/storage/store/account/store.rs. Store/Types holds `StoreDef` (the interface that a kind of
--   store fills), `Store` and the action type; Store/Codec the messages in the database; Store/Compare
--   `message_compare`; Store/Conflicts `get_merge_conflicts`; Store/Writes the writes to the batch and
--   the commit of an event; Store/Merge merging, revoking, and in its children compact states and
--   pruning (Prune/Deleted: what is deleted stays so, Prune/Picked: which messages are).
-- - Link: src/storage/store/account/link_store.rs, which fills `StoreDef` for links. Link/Keys holds what
--   its keys are for a well-formed link; Link/Merging, Link/Replacing, Link/Again, Link/Revoking and
--   Link/Pruning prove what merging, revoking and pruning do. Link/Slot holds the adds and removes that compete for the slot of a link,
--   with its children what each step of a merge does for them, and Link/Converging takes them in any order.
--   Link/Apart is about links that share a slot.
-- - Stores: the other kinds of store under src/storage/store/account. Stores/Reaction, Stores/Verification,
--   Stores/UserData and Stores/Cast model reaction_store.rs, verification_store.rs, user_data_store.rs and
--   cast_store.rs (Stores/Cast/Compare: the order of casts), and Stores/Fnames name_registry_events.rs with the merge of
--   username proofs; Stores/Fresh proves what merging into an empty
--   slot does for any definition, and the Merging and Removing children apply it.
-- - Validation: the checks of src/core/validations (mod.rs, cast.rs, link.rs, reaction.rs); its children
--   Names and UserData (names and user data of message.rs), Addresses (verification.rs), SignerKeys
--   (key.rs) and Whole (`validate_message`). Validation/Bodies, Cast, Ens and Authentic prove what passes;
--   Link/Validated takes a message from there into the link store.
-- - Version: src/version/version.rs.
-- - Trie: src/storage/trie/util.rs and errors.rs. Trie/Node: the nodes of src/storage/trie/trie_node.rs, their
--   hashes, their stored form and lookup; Trie/Node/Insert the insertion of a batch of keys;
--   Trie/Node/Contents and the children of Insert prove what a trie holds. Trie/Node/Delete is the deletion of a
--   batch of keys, with its proof in its children; Trie/Node/Counting is about the numbers of keys after
--   insertion. Trie/Keys: `TrieKey` of src/storage/trie/merkle_trie.rs, Trie/Tree
--   its `MerkleTrie` (`contains` is `exists`). Proto/HubEvents: the bodies of hub events that the trie reads.
-- - Proto/Blocks: proto/definitions/onchain_event.proto and the block messages of blocks.proto.
-- - Mempool: src/mempool/mempool.rs with the messages of storage/store/mempool_poller.rs. Mempool/Pool is the
--   ordered map of a shard, Mempool/Admission the checks with the rate limits, Mempool/Flow admission,
--   pulling and the removal of what is committed (`admit` is `insert`); the other children prove.
-- - Consensus: `StoredValidatorSets` of src/consensus/validator.rs.
-- - Routing: src/mempool/routing.rs and the accessors of messages in proto/src/lib.rs.
-- - Tests: the theorems at concrete inputs.
--
-- How code becomes definitions: a function that takes `&mut txn` and returns a `Result` is an action
-- (`Exec`): it maps the batch and the id generator to a result and the new state, so what was written
-- before an error stays written. `?` is the bind of the action or of `Result`. An `unwrap` of nothing, an
-- index out of range and an assertion are errors of their own (`panic`). Bytes and machine integers are
-- native numbers, with the wrap-around written out where the code narrows; a theorem names the bound that
-- it needs. Loops are structural recursion on what they go through. Only the insertion into a trie and
-- the deletion from it are on fuel, one unit for each level: the keys have one length, and more fuel than that is
-- enough. `fuel_for` of Trie/Tree gives more than the longest key has.
--
-- Parameters: the database (point reads and scans in key order, which do not fail), the protobuf codec
-- (the prost crate), base64, SHA-256, blake3, Ed25519, EIP-712 claims, regular expressions, the formats
-- of addresses, the encoding of trie nodes, the type of validator sets, the rate limiters (moka and governor) and
-- the clock. What is asked of them stands in the hypotheses `Decodes` and `IsBase64`. The type of a
-- reaction is a number from 0 on, though the code has an i32, and the storage allowance of a fid is a number that is
-- there, though the code unwraps it and adds up in u32. `IndicesOnlyGo` is asked of a kind of store by pruning; Link/Pruning
-- shows it of links.
--
-- Not modelled: pages of reads, the stores of username proofs, storage loans and keys, the pages of values of the merkle trie
-- and the eviction of its nodes from memory, what an error leaves of a trie in memory, the engine, the channels and the
-- select loop of the mempool, the consensus protocol, networking, and the HTTP interface. Metrics and logs are left out of the operations.
mod Shared
mod Tests
pub mod Bytes
pub mod Proto
pub mod Keys
pub mod Events
pub mod Database
pub mod Store
pub mod Link
pub mod Stores
pub mod Version
pub mod Trie
pub mod Validation
pub mod Consensus
pub mod Mempool
pub mod Routing
