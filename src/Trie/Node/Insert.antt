-- ===== src/Trie/Node/Insert.antt =====
-- `TrieNode::insert` and `split_leaf_node` of src/storage/trie/trie_node.rs. The keys of one call share what
-- comes before `current_index`, the prefix; they are kept as the prefix and what comes from it on. Fuel stands
-- for the depth of the recursion. What an error leaves of the trie is not kept: the result is the error alone.
-- A hash map of keys by character is taken through in the order of their first keys.
pub mod Groups
pub mod Keys
pub mod Split
pub mod Rounds
pub mod Remaining
pub mod Beside
pub mod Main
use hypersnap.Shared.{
  ℕ, zero, suc, ◌+◌, Bool, true, false, ◌&&◌, ◌||◌, List, [], ◌∷◌, ◌++◌, Option, none, some, Result,
  ok, err, leb, length, take, drop, ◌==◌, ◌>>=◌, if◌then◌else◌,
}
use hypersnap.Bytes.{Bytes}
use hypersnap.Database.{Database, Batch, bytes_eq}
use hypersnap.Trie.{TrieError, no_keys_to_insert, key_length_exceeded, out_of_fuel}
use hypersnap.Trie.Node.{
  TrieNode, node, Children, nil, child, loaded, TrieCodec, Hashes, new_node, is_leaf, find_child,
  insert_child, insert_hash, hash_of, update_hash, put_to_txn, get_or_load_child,
  uncompacted_length, with_child,
}

-- What a call returns and what it has changed: the results by key, the node, its parent's hashes, the batch.
pub record Inserted : Type 0 where
  pub results : List Bool
  pub new : TrieNode
  pub parent_hashes : Hashes
  pub txn : Batch

-- A recursive call: the child, its parent's hashes, the batch, the prefix and the rests of the keys.
abbrev pub InsertCall : Type 0
InsertCall = TrieNode → Hashes → Batch → Bytes → List Bytes → Result TrieError Inserted

-- A key with its place among the keys of the call.
abbrev pub Placed : Type 0
Placed = ℕ × Bytes

unfoldable pub falses : List Bytes → List Bool
falses [] = []
falses (key ∷ keys) = false ∷ falses keys

-- `results[i] = result`, for an index in range
unfoldable pub set_result : ℕ → Bool → List Bool → List Bool
set_result i b [] = []
set_result zero b (r ∷ results) = b ∷ results
set_result (suc i) b (r ∷ results) = r ∷ set_result i b results

-- `enumerate`, from `i` on
unfoldable pub enumerate : ℕ → List Bytes → List Placed
enumerate i [] = []
enumerate i (key ∷ keys) = (i, key) ∷ enumerate (i + 1) keys

-- The keys other than the one of the leaf, with their places.
unfoldable pub new_keys : Bytes → Bytes → List Placed → List Placed
new_keys leaf_key prefix [] = []
new_keys leaf_key prefix ((i, rest) ∷ keys) =
    let others = new_keys leaf_key prefix keys in
    if bytes_eq leaf_key (prefix ++ rest) then others else (i, rest) ∷ others

-- The last of a vector, and what comes before it: `pop`.
unfoldable pub pop_key : Bytes → List Bytes → List Bytes × Bytes
pop_key key [] = ([], key)
pop_key key (next ∷ keys) = let (before, last) = pop_key next keys in (key ∷ before, last)

-- The keys whose next character is `c`, without it.
pub record Group : Type 0 where
  pub char : ℕ
  pub keys : List Placed

unfoldable pub add_to_group : ℕ → Placed → List Group → List Group
add_to_group c key [] = record { char = c; keys = key ∷ [] } ∷ []
add_to_group c key (g ∷ groups) =
    if g.char == c
    then record g { keys = g.keys ++ key ∷ [] } ∷ groups
    else g ∷ add_to_group c key groups

unfoldable pub group_keys : List Placed → List Group → List Group
unfolding add_to_group
group_keys [] groups = groups
group_keys ((i, []) ∷ keys) groups = group_keys keys groups
group_keys ((i, c ∷ rest) ∷ keys) groups = group_keys keys (add_to_group c (i, rest) groups)

abbrev pub has_ended : Bytes → Bool
has_ended [] = true
has_ended (c ∷ rest) = false

unfoldable pub any_ended : List Placed → Bool
any_ended [] = false
any_ended ((i, rest) ∷ keys) = has_ended rest || any_ended keys

unfoldable pub rests_of : List Placed → List Bytes
rests_of [] = []
rests_of ((i, rest) ∷ keys) = rest ∷ rests_of keys

-- The results of a child, put at the places of its keys.
unfoldable pub place_results : List Placed → List Bool → List Bool → List Bool
unfolding set_result
place_results [] child_results results = results
place_results (key ∷ keys) [] results = results
place_results ((i, rest) ∷ keys) (b ∷ bs) results = place_results keys bs (set_result i b results)

unfoldable pub count_true : List Bool → ℕ
count_true [] = 0
count_true (b ∷ bs) = if b then suc (count_true bs) else count_true bs

-- The variables of the loop over the groups.
pub record Loop : Type 0 where
  pub children : Children
  pub child_hashes : Hashes
  pub txn : Batch
  pub results : List Bool
  pub successes : ℕ

module _ (codec : TrieCodec) (db : Database) where
  unfoldable pub split_leaf_node :
      InsertCall → TrieNode → Batch → Bytes → Result TrieError (TrieNode × Batch)
  split_leaf_node insert_below (node items children hashes none) txn prefix = err TrieError.panic
  split_leaf_node insert_below (node items children hashes (some key)) txn prefix =
      elim (drop (length prefix) key) [
        | [] ↦ err TrieError.panic
        | c ∷ rest ↦ do
          out ← insert_below new_node hashes txn (take (length prefix) key ++ c ∷ []) (rest ∷ [])
          hash ← hash_of codec out.new
          let n =
              node items (insert_child c (loaded out.new) children)
                (insert_hash c hash out.parent_hashes) none
          ok (n, put_to_txn codec n out.txn (take (length prefix) key))
      ]

  -- The body of the loop over the groups.
  unfoldable pub insert_group : InsertCall → Bytes → Group → Loop → Result TrieError Loop
  unfolding rests_of place_results count_true find_child
  insert_group insert_below prefix g l = do
    let children = with_child g.char l.children
    n ← get_or_load_child codec db children prefix g.char
    out ← insert_below n l.child_hashes l.txn (prefix ++ g.char ∷ []) (rests_of g.keys)
    ok (record {
      children = insert_child g.char (loaded out.new) children;
      child_hashes = out.parent_hashes;
      txn = out.txn;
      results = place_results g.keys out.results l.results;
      successes = l.successes + count_true out.results;
    })

  unfoldable pub insert_groups : InsertCall → Bytes → List Group → Loop → Result TrieError Loop
  unfolding insert_group
  insert_groups insert_below prefix [] l = ok l
  insert_groups insert_below prefix (g ∷ groups) l =
      insert_group insert_below prefix g l >>= insert_groups insert_below prefix groups

  -- What is done with the keys that did not end at the node.
  unfoldable pub insert_remaining :
      InsertCall
      → TrieNode
      → Hashes
      → Batch
      → Bytes
      → List Placed
      → List Bool
      → Result TrieError Inserted
  unfolding insert_groups any_ended group_keys update_hash
  insert_remaining insert_below (node items children hashes key) parent_hashes txn prefix keys
        results =
      if any_ended keys then err key_length_exceeded else (do
        l ← insert_groups insert_below prefix (group_keys keys []) (record {
          children = children;
          child_hashes = hashes;
          txn = txn;
          results = results;
          successes = 0;
        })
        let n = node (items + l.successes) l.children l.child_hashes key
        if l.successes == 0
            then ok (record {
              results = l.results;
              new = n;
              parent_hashes = parent_hashes;
              txn = l.txn;
            })
            else (do
              updated ← update_hash codec n parent_hashes prefix
              ok (record {
                results = l.results;
                new = n;
                parent_hashes = updated;
                txn = put_to_txn codec n l.txn prefix;
              })))

  -- A leaf that holds a key: it is split if there is another.
  unfoldable pub insert_beside :
      InsertCall
      → TrieNode
      → Bytes
      → Hashes
      → Batch
      → Bytes
      → List Placed
      → List Bool
      → Result TrieError Inserted
  unfolding new_keys split_leaf_node insert_remaining
  insert_beside insert_below n leaf_key parent_hashes txn prefix keys results =
      elim (new_keys leaf_key prefix keys) [
        | [] ↦ ok (record { results = results; new = n; parent_hashes = parent_hashes; txn = txn })
        | key ∷ others ↦ do
          (split, split_txn) ← split_leaf_node insert_below n txn prefix
          insert_remaining insert_below split parent_hashes split_txn prefix (key ∷ others) results
      ]

  -- A leaf without a key takes the last one, whose result is put in the first place.
  unfoldable pub insert_into_empty :
      InsertCall
      → ℕ
      → Hashes
      → Hashes
      → Batch
      → Bytes
      → Bytes
      → List Bytes
      → Result TrieError Inserted
  unfolding pop_key falses enumerate set_result insert_beside update_hash
  insert_into_empty insert_below items hashes parent_hashes txn prefix first keys = do
    let (others, last) = pop_key first keys
    let n = node (items + 1) nil hashes (some (prefix ++ last))
    updated ← update_hash codec n parent_hashes prefix
    insert_beside insert_below n (prefix ++ last) updated (put_to_txn codec n txn prefix) prefix
        (enumerate 1 others) (set_result 0 true (falses (first ∷ keys)))

  unfoldable pub insert_leaf :
      InsertCall
      → ℕ
      → Hashes
      → Option Bytes
      → Hashes
      → Batch
      → Bytes
      → Bytes
      → List Bytes
      → Result TrieError Inserted
  unfolding insert_into_empty insert_beside enumerate falses
  insert_leaf insert_below items hashes none parent_hashes txn prefix first keys =
      insert_into_empty insert_below items hashes parent_hashes txn prefix first keys
  insert_leaf insert_below items hashes (some key) parent_hashes txn prefix first keys =
      insert_beside insert_below (node items nil hashes (some key)) key parent_hashes txn prefix
        (enumerate 0 (first ∷ keys)) (falses (first ∷ keys))

  unfoldable pub insert : ℕ → InsertCall
  unfolding insert_leaf insert_remaining enumerate falses
  insert zero n parent_hashes txn prefix keys = err out_of_fuel
  insert (suc fuel) n parent_hashes txn prefix [] = err no_keys_to_insert
  insert (suc fuel) (node items nil hashes key) parent_hashes txn prefix (first ∷ keys) =
      let below = insert fuel in
      elim (leb uncompacted_length (length prefix)) [
        | true ↦ insert_leaf below items hashes key parent_hashes txn prefix first keys
        | false ↦
            insert_remaining below (node items nil hashes key) parent_hashes txn prefix
              (enumerate 0 (first ∷ keys)) (falses (first ∷ keys))
      ]
  insert (suc fuel) (node items (child c n cs) hashes key) parent_hashes txn prefix (first ∷ keys) =
      insert_remaining (insert fuel) (node items (child c n cs) hashes key) parent_hashes txn prefix
        (enumerate 0 (first ∷ keys)) (falses (first ∷ keys))
