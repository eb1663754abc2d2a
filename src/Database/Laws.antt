-- ===== src/Database/Laws.antt =====
-- Reads after writes of a batch.
use hypersnap.Shared.{◌≡◌, ◌↔◌, refl, true, [], ◌∷◌, ◌++◌, Option, none, some, arith, if◌then◌else◌}
use hypersnap.Bytes.{Bytes}
use hypersnap.Database.{Database, Batch, bytes_eq, insert, put, delete, find, get_from_db_or_txn}

bytes_eq_sound : (a b : Bytes) → bytes_eq a b ≡ true → a ≡ b
unfolding bytes_eq
bytes_eq_sound [] [] h = refl
bytes_eq_sound [] (y ∷ ys) h = cc
bytes_eq_sound (x ∷ xs) [] h = cc
bytes_eq_sound (x ∷ xs) (y ∷ ys) h = ground (arith, bytes_eq_sound xs ys)

pub bytes_eq_refl : (a : Bytes) → bytes_eq a a ≡ true
unfolding bytes_eq
bytes_eq_refl [] = refl
bytes_eq_refl (x ∷ xs) = ground (arith, bytes_eq_refl xs)

pub bytes_eq_iff : (a b : Bytes) → (bytes_eq a b ≡ true) ↔ (a ≡ b)
bytes_eq_iff a b = (bytes_eq_sound a b, λ e. rw e (bytes_eq_refl b))

pub find-insert :
    (k j : Bytes) (v : Option Bytes) (m : Batch)
    → find (insert k v m) j ≡ (if bytes_eq k j then some v else find m j)
unfolding find insert
find-insert k j v [] = refl
find-insert k j v ((i, w) ∷ m) =
    ground (arith, bytes_eq_iff k j, bytes_eq_iff i k, bytes_eq_iff i j, find-insert k j v m)

-- A read through the batch after a put sees the value that was put under its key, and under any
-- other key what it saw before.
pub get-put :
    (db : Database) (txn : Batch) (k j v : Bytes)
    → get_from_db_or_txn db (put txn k v) j
      ≡ (if bytes_eq k j then some v else get_from_db_or_txn db txn j)
unfolding get_from_db_or_txn put
get-put db txn k j v = ground (arith, find-insert k j (some v) txn)

pub get-delete :
    (db : Database) (txn : Batch) (k j : Bytes)
    → get_from_db_or_txn db (delete txn k) j
      ≡ (if bytes_eq k j then none else get_from_db_or_txn db txn j)
unfolding get_from_db_or_txn delete
get-delete db txn k j = ground (arith, find-insert k j none txn)

pub bytes_eq-append_left : (p a b : Bytes) → bytes_eq (p ++ a) (p ++ b) ≡ bytes_eq a b
unfolding bytes_eq
bytes_eq-append_left [] a b = refl
bytes_eq-append_left (x ∷ p) a b = ground (arith, bytes_eq-append_left p a b)
