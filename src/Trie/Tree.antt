-- ===== src/Trie/Tree.antt =====
-- `MerkleTrie` of src/storage/trie/merkle_trie.rs: the trie of byte keys above its nodes. An error inside a node
-- leaves the trie as it was.
use hypersnap.Shared.{
  ℕ, suc, Bool, true, false, List, [], ◌∷◌, Option, none, some, Result, ok, err, Error, length, ltb,
  leb, map, ◌>>=◌, if◌then◌else◌,
}
use hypersnap.Bytes.{Bytes}
use hypersnap.Proto.HubEvents.{HubEventBody}
use hypersnap.Database.{Database, Batch, put, merge}
use hypersnap.Trie.{
  TrieError, expand_nibbles, key_length_too_short, trie_not_initialized, unable_to_reload_root,
}
use hypersnap.Trie.Keys.{for_hub_event}
use hypersnap.Trie.Node.{
  TrieNode, TrieCodec, new_node, serialize, deserialize, make_primary_key, items_of, exists,
  uncompacted_length,
}
use hypersnap.Trie.Node.Insert
use hypersnap.Trie.Node.Delete.{delete_keys}

-- The root, if there is one.
abbrev pub MerkleTrie : Type 0
MerkleTrie = Option TrieNode

unfoldable pub any_short : List Bytes → Bool
any_short [] = false
any_short (key ∷ keys) = if ltb (length key) uncompacted_length then true else any_short keys

abbrev longer : ℕ → ℕ → ℕ
longer a b = if leb a b then b else a

-- Fuel for the keys: more than the number of characters of each.
unfoldable pub fuel_for : List Bytes → ℕ
fuel_for [] = 0
fuel_for (key ∷ keys) = longer (suc (length key)) (fuel_for keys)

abbrev pub as_trie : {A : Type 0} → Result Error A → Result TrieError A
as_trie (ok a) = ok a
as_trie (err e) = err TrieError.panic

module _ (codec : TrieCodec) (db : Database) where
  abbrev pub Outcome : Type 0
  Outcome = Result TrieError (List Bool × MerkleTrie × Batch)

  abbrev root_insert : TrieNode → Batch → List Bytes → Outcome
  root_insert root txn_batch keys = do
    out ← Insert.insert codec db (fuel_for keys) root [] [] [] keys
    ok (out.results, some out.new, merge txn_batch out.txn)

  abbrev root_delete : TrieNode → Batch → List Bytes → Outcome
  root_delete root txn_batch keys = do
    out ← delete_keys codec db (fuel_for keys) root [] [] [] keys
    ok (out.results, some out.new, merge txn_batch out.txn)

  -- The frame of `insert` and `delete`.
  abbrev with_keys :
      (TrieNode → Batch → List Bytes → Outcome) → MerkleTrie → Batch → List Bytes → Outcome
  with_keys operation root txn_batch [] = ok ([], root, txn_batch)
  with_keys operation root txn_batch (key ∷ keys) =
      if any_short (key ∷ keys) then err key_length_too_short else elim root [
        | none ↦ err trie_not_initialized
        | some n ↦ operation n txn_batch (key ∷ keys)
      ]

  unfoldable pub insert : MerkleTrie → Batch → List Bytes → Outcome
  unfolding expand_nibbles any_short fuel_for Insert.insert merge
  insert root txn_batch keys = with_keys root_insert root txn_batch (map expand_nibbles keys)

  unfoldable pub delete : MerkleTrie → Batch → List Bytes → Outcome
  unfolding expand_nibbles any_short fuel_for delete_keys merge
  delete root txn_batch keys = with_keys root_delete root txn_batch (map expand_nibbles keys)

  -- `MerkleTrie::exists`
  unfoldable pub contains : MerkleTrie → Bytes → Result TrieError Bool
  unfolding expand_nibbles exists
  contains none key = err trie_not_initialized
  contains (some root) key = exists codec db root [] (expand_nibbles key)

  unfoldable pub items : MerkleTrie → Result TrieError ℕ
  items none = err trie_not_initialized
  items (some root) = ok (items_of root)

  unfoldable pub create_empty_root : Batch → MerkleTrie × Batch
  unfolding serialize make_primary_key new_node put
  create_empty_root txn_batch =
      (some new_node, put txn_batch (make_primary_key [] none) (serialize codec new_node))

  unfoldable pub load_root : Result TrieError (Option TrieNode)
  unfolding deserialize make_primary_key
  load_root = elim (db.get (make_primary_key [] none)) [
    | none ↦ ok none
    | some bytes ↦ elim (deserialize codec bytes) [
      | none ↦ err TrieError.panic
      | some n ↦ ok (some n)
    ]
  ]

  -- The trie, and what is committed to the database.
  unfoldable pub initialize : Result TrieError (MerkleTrie × Batch)
  unfolding load_root create_empty_root
  initialize = load_root >>= λ loaded. elim loaded [
    | some root ↦ ok (some root, [])
    | none ↦ ok (create_empty_root [])
  ]

  unfoldable pub reload : Result TrieError MerkleTrie
  unfolding load_root
  reload = load_root >>= λ loaded. elim loaded [
    | some root ↦ ok (some root)
    | none ↦ err unable_to_reload_root
  ]

  -- One key after the other.
  unfoldable pub insert_each :
      List Bytes → MerkleTrie → Batch → Result TrieError (MerkleTrie × Batch)
  unfolding insert
  insert_each [] root txn_batch = ok (root, txn_batch)
  insert_each (key ∷ keys) root txn_batch = do
    (results, root', txn_batch') ← insert root txn_batch (key ∷ [])
    insert_each keys root' txn_batch'

  unfoldable pub delete_each :
      List Bytes → MerkleTrie → Batch → Result TrieError (MerkleTrie × Batch)
  unfolding delete
  delete_each [] root txn_batch = ok (root, txn_batch)
  delete_each (key ∷ keys) root txn_batch = do
    (results, root', txn_batch') ← delete root txn_batch (key ∷ [])
    delete_each keys root' txn_batch'

  unfoldable pub update_for_event :
      (Bytes → Bytes)
      → MerkleTrie
      → Option HubEventBody
      → Batch
      → Result TrieError (MerkleTrie × Batch)
  unfolding for_hub_event insert_each delete_each
  update_for_event sha256 root event txn_batch = do
    (inserts, deletes) ← as_trie (for_hub_event sha256 event)
    (inserted, txn_batch') ← insert_each inserts root txn_batch
    delete_each deletes inserted txn_batch'
