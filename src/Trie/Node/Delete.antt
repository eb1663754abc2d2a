-- ===== src/Trie/Node/Delete.antt =====
-- `TrieNode::delete` of src/storage/trie/trie_node.rs, with the keys of a call, fuel, errors and hash maps as in
-- Insert. `-=` on a counter wraps around in 64 bits.
pub mod Counts
pub mod Siblings
pub mod Places
pub mod Keeping
pub mod Rounds
pub mod Compacting
pub mod Leaf
pub mod Main
use hypersnap.Shared.{
  ℕ, zero, suc, ◌+◌, ◌-◌, ◌%◌, ◌^◌, Bool, true, false, ◌&&◌, List, [], ◌∷◌, ◌++◌, Option, none,
  some, Result, ok, err, leb, length, ◌==◌, ◌>>=◌, if◌then◌else◌,
}
use hypersnap.Bytes.{Bytes}
use hypersnap.Database.{Database, Batch, delete, bytes_eq}
use hypersnap.Trie.{TrieError, key_length_exceeded, out_of_fuel}
use hypersnap.Trie.Node.{
  TrieNode, node, Children, nil, child, loaded, TrieCodec, Hashes, items_of, key_of, find_child,
  insert_child, remove_hash, update_hash, put_to_txn, get_or_load_child, make_primary_key,
  uncompacted_length, or_empty,
}
use hypersnap.Trie.Node.Insert.{
  Placed, Group, Loop, falses, set_result, enumerate, group_keys, any_ended, rests_of,
  place_results, count_true,
}

-- What a call returns and what it has changed: the results by key, the node, its parent's hashes, the batch.
pub record Deleted : Type 0 where
  pub results : List Bool
  pub new : TrieNode
  pub parent_hashes : Hashes
  pub txn : Batch

abbrev pub DeleteCall : Type 0
DeleteCall = TrieNode → Hashes → Batch → Bytes → List Bytes → Result TrieError Deleted

abbrev pub less : ℕ → ℕ → ℕ
less items successes = (items + (2 ^ 64 - successes)) % 2 ^ 64

unfoldable pub remove_child : ℕ → Children → Children
remove_child c nil = nil
remove_child c (child d n cs) = if d == c then cs else child d n (remove_child c cs)

-- The place of the first key that is the leaf's.
unfoldable pub first_match : Bytes → Bytes → List Placed → Option ℕ
first_match leaf_key prefix [] = none
first_match leaf_key prefix ((i, rest) ∷ keys) =
    if bytes_eq leaf_key (prefix ++ rest) then some i else first_match leaf_key prefix keys

unfoldable pub delete_to_txn : Batch → Bytes → Batch
unfolding delete make_primary_key
delete_to_txn txn prefix = delete txn (make_primary_key prefix none)

-- The child after the call, which stays if it holds a key.
abbrev pub keep_child : ℕ → TrieNode → Children → Children
keep_child c n children =
    if items_of n == 0 then remove_child c children else insert_child c (loaded n) children

abbrev pub keep_hash : ℕ → TrieNode → Hashes → Hashes
keep_hash c n hashes = if items_of n == 0 then remove_hash c hashes else hashes

abbrev pub after_delete : Group → Deleted → Loop → Loop
after_delete g out l = record {
  children = keep_child g.char out.new l.children;
  child_hashes = keep_hash g.char out.new out.parent_hashes;
  txn = out.txn;
  results = place_results g.keys out.results l.results;
  successes = l.successes + count_true out.results;
}

module _ (codec : TrieCodec) (db : Database) where
  unfoldable pub delete_leaf :
      ℕ → Hashes → Option Bytes → Hashes → Batch → Bytes → List Bytes → Result TrieError Deleted
  unfolding first_match enumerate falses set_result delete_to_txn update_hash
  delete_leaf items hashes key parent_hashes txn prefix keys =
      elim (first_match (or_empty key) prefix (enumerate 0 keys)) [
        | none ↦ ok (record {
          results = falses keys;
          new = node items nil hashes key;
          parent_hashes = parent_hashes;
          txn = txn;
        })
        | some i ↦ do
          let n = node (less items 1) nil hashes none
          updated ← update_hash codec n parent_hashes prefix
          ok (record {
            results = set_result i true (falses keys);
            new = n;
            parent_hashes = updated;
            txn = delete_to_txn txn prefix;
          })
      ]

  -- The body of the loop over the groups.
  unfoldable pub delete_group : DeleteCall → Bytes → Group → Loop → Result TrieError Loop
  unfolding rests_of find_child remove_child remove_hash insert_child get_or_load_child
      place_results count_true
  delete_group delete_below prefix g l = elim (find_child g.char l.children) [
    | none ↦ ok l
    | some _ ↦ do
      n ← get_or_load_child codec db l.children prefix g.char
      out ← delete_below n l.child_hashes l.txn (prefix ++ g.char ∷ []) (rests_of g.keys)
      ok (after_delete g out l)
  ]

  unfoldable pub delete_groups : DeleteCall → Bytes → List Group → Loop → Result TrieError Loop
  unfolding delete_group
  delete_groups delete_below prefix [] l = ok l
  delete_groups delete_below prefix (g ∷ groups) l =
      delete_group delete_below prefix g l >>= delete_groups delete_below prefix groups

  -- The only child's key, if it has one, moves up. What is deleted is stored under the key of the child, to which
  -- `delete_to_txn` puts the prefix of the trie a second time.
  unfoldable pub compact :
      ℕ → TrieNode → Hashes → Option Bytes → Batch → Bytes → Result TrieError (TrieNode × Batch)
  unfolding delete_to_txn make_primary_key
  compact c (node items children own (some [])) hashes key txn prefix = err TrieError.panic
  compact c (node items children own (some (b ∷ bs))) hashes key txn prefix =
      ok (node 1 nil hashes (some (b ∷ bs)), delete_to_txn txn (make_primary_key prefix (some c)))
  compact c (node items children own none) hashes key txn prefix =
      ok (node 1 (child c (loaded (node items children own none)) nil) hashes key, txn)

  unfoldable pub compacted :
      ℕ → Children → Hashes → Option Bytes → Batch → Bytes → Result TrieError (TrieNode × Batch)
  unfolding compact get_or_load_child
  compacted items (child c n nil) hashes key txn prefix =
      elim (items == 1 && leb uncompacted_length (length prefix)) [
        | true ↦ get_or_load_child codec db (child c n nil) prefix c >>= λ loaded_child.
            compact c loaded_child hashes key txn prefix
        | false ↦ ok (node items (child c n nil) hashes key, txn)
      ]
  compacted items children hashes key txn prefix = ok (node items children hashes key, txn)

  -- What is done with a node below which keys were deleted.
  unfoldable pub delete_done : ℕ → Option Bytes → Loop → Hashes → Bytes → Result TrieError Deleted
  unfolding compacted update_hash delete_to_txn put_to_txn
  delete_done items key l parent_hashes prefix =
      if items == 0
      then (do
        let n = node items l.children l.child_hashes key
        updated ← update_hash codec n parent_hashes prefix
        ok (record {
          results = l.results;
          new = n;
          parent_hashes = updated;
          txn = delete_to_txn l.txn prefix;
        }))
      else (do
        (n, txn) ← compacted items l.children l.child_hashes key l.txn prefix
        updated ← update_hash codec n parent_hashes prefix
        ok (record {
          results = l.results;
          new = n;
          parent_hashes = updated;
          txn = put_to_txn codec n txn prefix;
        }))

  unfoldable pub delete_inner :
      DeleteCall
      → ℕ
      → Children
      → Hashes
      → Option Bytes
      → Hashes
      → Batch
      → Bytes
      → List Bytes
      → Result TrieError Deleted
  unfolding any_ended enumerate falses group_keys delete_groups delete_done
  delete_inner delete_below items children hashes key parent_hashes txn prefix keys =
      if any_ended (enumerate 0 keys) then err key_length_exceeded else (do
        l ← delete_groups delete_below prefix (group_keys (enumerate 0 keys) []) (record {
          children = children;
          child_hashes = hashes;
          txn = txn;
          results = falses keys;
          successes = 0;
        })
        if l.successes == 0
            then ok (record {
              results = l.results;
              new = node items l.children l.child_hashes key;
              parent_hashes = parent_hashes;
              txn = l.txn;
            })
            else delete_done (less items l.successes) key l parent_hashes prefix)

  unfoldable pub delete_keys : ℕ → DeleteCall
  unfolding delete_leaf delete_inner
  delete_keys zero n parent_hashes txn prefix keys = err out_of_fuel
  delete_keys (suc fuel) n parent_hashes txn prefix [] = err TrieError.panic
  delete_keys (suc fuel) (node items nil hashes key) parent_hashes txn prefix (first ∷ keys) =
      delete_leaf items hashes key parent_hashes txn prefix (first ∷ keys)
  delete_keys (suc fuel) (node items (child c n cs) hashes key) parent_hashes txn prefix
        (first ∷ keys) =
      delete_inner (delete_keys fuel) items (child c n cs) hashes key parent_hashes txn prefix
        (first ∷ keys)
