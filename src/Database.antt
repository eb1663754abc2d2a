-- ===== src/Database.antt =====
-- `RocksDbTransactionBatch` of src/storage/db/rocksdb.rs and the reads that see it
-- (`get_from_db_or_txn` of src/storage/store/account/message.rs). RocksDB itself is a parameter: an
-- open database whose reads do not fail, as its point reads and its range scans in key order.
pub mod Laws
use hypersnap.Shared.{
  ℕ, Bool, true, false, ◌&&◌, List, [], ◌∷◌, Option, none, some, length, ◌==◌, if◌then◌else◌,
}
use hypersnap.Bytes.{Bytes}

pub record Database : Type 0 where
  pub get : Bytes → Option Bytes
  pub scan : Bytes → Bytes → List (Bytes × Bytes)

-- `==` on byte vectors.
unfoldable pub bytes_eq : Bytes → Bytes → Bool
bytes_eq [] [] = true
bytes_eq [] (y ∷ ys) = false
bytes_eq (x ∷ xs) [] = false
bytes_eq (x ∷ xs) (y ∷ ys) = x == y && bytes_eq xs ys

-- The map from keys to a new value, or to `none` for a deletion.
abbrev pub Batch : Type 0
Batch = List (Bytes × Option Bytes)

-- `HashMap::insert`: the entry of the key is replaced.
unfoldable pub insert : Bytes → Option Bytes → Batch → Batch
unfolding bytes_eq
insert key value [] = (key, value) ∷ []
insert key value ((j, w) ∷ batch) =
    if bytes_eq j key then (key, value) ∷ batch else (j, w) ∷ insert key value batch

unfoldable pub put : Batch → Bytes → Bytes → Batch
unfolding insert
put batch key value = insert key (some value) batch

unfoldable pub delete : Batch → Bytes → Batch
unfolding insert
delete batch key = insert key none batch

-- `HashMap::get`
unfoldable pub find : Batch → Bytes → Option (Option Bytes)
unfolding bytes_eq
find [] key = none
find ((j, w) ∷ batch) key = if bytes_eq j key then some w else find batch key

-- `RocksDbTransactionBatch::merge`: the entries of the other batch are put on top.
unfoldable pub merge : Batch → Batch → Batch
unfolding insert
merge batch [] = batch
merge batch ((key, value) ∷ other) = merge (insert key value batch) other

unfoldable pub get_from_db_or_txn : Database → Batch → Bytes → Option Bytes
unfolding find
get_from_db_or_txn db txn key = elim (find txn key) [ some value ↦ value | none ↦ db.get key ]
