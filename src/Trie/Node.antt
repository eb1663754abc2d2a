-- ===== src/Trie/Node.antt =====
-- Nodes of the merkle trie: src/storage/trie/trie_node.rs. The hash function (blake3) and the protobuf
-- encoding of nodes are parameters. The counters of `Context` and the times of access are left out.
pub mod Insert
pub mod Delete
pub mod Counting
pub mod Contents
use hypersnap.Shared.{
  ℕ, zero, suc, ◌+◌, ◌%◌, ◌^◌, Bool, true, false, List, [], ◌∷◌, ◌++◌, Option, none, some, Result,
  ok, err, ltb, leb, length, take, drop, ◌==◌, ◌>>=◌, if◌then◌else◌,
}
use hypersnap.Bytes.{Bytes}
use hypersnap.Keys.Prefix.{root_u8, merkle_trie_node}
use hypersnap.Database.{Database, Batch, put, bytes_eq}
use hypersnap.Trie.{TrieError, child_not_found}

-- 1 byte of virtual shard, 4 of fid and 1 of message type, in nibbles.
abbrev pub uncompacted_length : ℕ
uncompacted_length = 12

-- `HashMap<u8, Vec<u8>>`
abbrev pub Hashes : Type 0
Hashes = List (ℕ × Bytes)

unfoldable pub insert_hash : ℕ → Bytes → Hashes → Hashes
insert_hash c hash [] = (c, hash) ∷ []
insert_hash c hash ((d, old) ∷ hashes) =
    if d == c then (c, hash) ∷ hashes else (d, old) ∷ insert_hash c hash hashes

unfoldable pub remove_hash : ℕ → Hashes → Hashes
remove_hash c [] = []
remove_hash c ((d, old) ∷ hashes) =
    let rest = remove_hash c hashes in if d == c then rest else (d, old) ∷ rest

-- The fields `items`, `children`, `child_hashes` and `key`.
mutual
  pub data TrieNode : Type 0 where
    node : ℕ → Children → Hashes → Option Bytes → TrieNode

  pub data TrieNodeType : Type 0 where
    loaded : TrieNode → TrieNodeType
    serialized : TrieNodeType

  -- `HashMap<u8, TrieNodeType>`
  pub data Children : Type 0 where
    nil : Children
    child : ℕ → TrieNodeType → Children → Children

unfoldable pub new_node : TrieNode
new_node = node 0 nil [] none

abbrev pub key_of : TrieNode → Option Bytes
key_of (node items children hashes key) = key

abbrev pub items_of : TrieNode → ℕ
items_of (node items children hashes key) = items

abbrev pub has_no_children : Children → Bool
has_no_children nil = true
has_no_children (child c n cs) = false

unfoldable pub is_leaf : TrieNode → Bool
is_leaf (node items children hashes key) = has_no_children children

unfoldable pub find_child : ℕ → Children → Option TrieNodeType
find_child c nil = none
find_child c (child d n cs) = if d == c then some n else find_child c cs

unfoldable pub insert_child : ℕ → TrieNodeType → Children → Children
insert_child c n nil = child c n nil
insert_child c n (child d old cs) =
    if d == c then child c n cs else child d old (insert_child c n cs)

-- `DbTrieNode`, the stored form of a node.
pub record DbTrieNode : Type 0 where
  pub key : Bytes
  pub child_chars : List ℕ
  pub items : ℕ
  pub child_hashes : List (ℕ × Bytes)

pub record TrieCodec : Type 0 where
  pub blake3_20 : Bytes → Bytes
  pub encode : DbTrieNode → Bytes
  pub decode : Bytes → Option DbTrieNode

unfoldable pub make_primary_key : Bytes → Option ℕ → Bytes
make_primary_key prefix none = root_u8 merkle_trie_node ∷ prefix
make_primary_key prefix (some c) = root_u8 merkle_trie_node ∷ (prefix ++ c ∷ [])

unfoldable pub child_chars_of : Children → List ℕ
child_chars_of nil = []
child_chars_of (child c n cs) = c ∷ child_chars_of cs

unfoldable pub serialized_children : List ℕ → Children → Children
unfolding insert_child
serialized_children [] cs = cs
serialized_children (c ∷ chars) cs =
    serialized_children chars (insert_child (c % 256) serialized cs)

unfoldable pub deserialized_hashes : List (ℕ × Bytes) → Hashes → Hashes
unfolding insert_hash
deserialized_hashes [] hashes = hashes
deserialized_hashes ((c, hash) ∷ rest) hashes =
    deserialized_hashes rest (insert_hash (c % 256) hash hashes)

abbrev pub or_empty : Option Bytes → Bytes
or_empty none = []
or_empty (some key) = key

abbrev filled_key : Bytes → Option Bytes
filled_key [] = none
filled_key (b ∷ bs) = some (b ∷ bs)

-- The hashes in the order of their characters.
unfoldable pub insert_sorted : ℕ × Bytes → Hashes → Hashes
insert_sorted e [] = e ∷ []
insert_sorted e (f ∷ hashes) = if leb e.0 f.0 then e ∷ f ∷ hashes else f ∷ insert_sorted e hashes

unfoldable pub sort : Hashes → Hashes
unfolding insert_sorted
sort [] = []
sort (e ∷ hashes) = insert_sorted e (sort hashes)

unfoldable pub concat_hashes : Hashes → Bytes
concat_hashes [] = []
concat_hashes ((c, hash) ∷ hashes) = hash ++ concat_hashes hashes

-- `if !self.children.contains_key(&char) { self.children.insert(..) }`
abbrev pub with_child : ℕ → Children → Children
with_child c children = elim (find_child c children) [
  | none ↦ insert_child c (loaded new_node) children
  | some n ↦ children
]

abbrev pub last_char : Bytes → Option ℕ
last_char [] = none
last_char (c ∷ []) = some c
last_char (c ∷ d ∷ bs) = last_char (d ∷ bs)

abbrev pub set_hash : ℕ → Bytes → Hashes → Hashes
set_hash c [] hashes = remove_hash c hashes
set_hash c (b ∷ bs) hashes = insert_hash c (b ∷ bs) hashes

module _ (codec : TrieCodec) where
  unfoldable pub serialize : TrieNode → Bytes
  unfolding child_chars_of
  serialize (node items children hashes key) = codec.encode (record {
    key = or_empty key;
    child_chars = child_chars_of children;
    items = items % 2 ^ 32;
    child_hashes = hashes;
  })

  unfoldable pub deserialize : Bytes → Option TrieNode
  unfolding serialized_children deserialized_hashes
  deserialize bytes = elim (codec.decode bytes) [
    | none ↦ none
    | some n ↦ some (
        node n.items (serialized_children n.child_chars nil) (deserialized_hashes n.child_hashes [])
          (filled_key n.key))
  ]

  abbrev leaf_hash : Option Bytes → Result TrieError Bytes
  leaf_hash none = ok []
  leaf_hash (some []) = err TrieError.panic
  leaf_hash (some (b ∷ bs)) = ok (codec.blake3_20 (b ∷ bs))

  abbrev inner_hash : Hashes → Bytes
  inner_hash [] = []
  inner_hash (h ∷ hs) = codec.blake3_20 (concat_hashes (sort (h ∷ hs)))

  unfoldable pub hash_of : TrieNode → Result TrieError Bytes
  unfolding sort concat_hashes
  hash_of (node items nil hashes key) = leaf_hash key
  hash_of (node items (child c n cs) hashes key) = ok (inner_hash hashes)

  -- The hashes are those of the parent.
  unfoldable pub update_hash : TrieNode → Hashes → Bytes → Result TrieError Hashes
  unfolding hash_of insert_hash remove_hash
  update_hash n hashes prefix = elim (last_char prefix) [
    | none ↦ ok hashes
    | some c ↦ hash_of n >>= λ hash. ok (set_hash c hash hashes)
  ]

  unfoldable pub put_to_txn : TrieNode → Batch → Bytes → Batch
  unfolding serialize make_primary_key
  put_to_txn n txn prefix = put txn (make_primary_key prefix none) (serialize n)

  -- The child, read from the database if it is not in memory; the caller puts it into the children.
  unfoldable pub get_or_load_child : Database → Children → Bytes → ℕ → Result TrieError TrieNode
  unfolding find_child make_primary_key deserialize new_node
  get_or_load_child db children prefix c = elim (find_child c children) [
    | none ↦ err child_not_found
    | some (loaded n) ↦ ok n
    | some serialized ↦ elim (db.get (make_primary_key prefix (some c))) [
      | none ↦ ok new_node
      | some bytes ↦ elim (deserialize bytes) [ none ↦ err TrieError.panic | some n ↦ ok n ]
    ]
  ]

  -- `exists`, with the key in two parts: what comes before `current_index` and what comes from it on.
  unfoldable pub exists : Database → TrieNode → Bytes → Bytes → Result TrieError Bool
  unfolding is_leaf find_child get_or_load_child
  exists db n prefix [] =
      if is_leaf n then ok (bytes_eq (or_empty (key_of n)) (prefix ++ [])) else ok false
  exists db (node items children hashes key) prefix (c ∷ rest) =
      if has_no_children children
      then ok (bytes_eq (or_empty key) (prefix ++ c ∷ rest))
      else elim (find_child c children) [
        | none ↦ ok false
        | some _ ↦ elim (get_or_load_child db children prefix c) [
          | err e ↦ err e
          | ok n ↦ exists db n (prefix ++ c ∷ []) rest
        ]
      ]
