-- ===== src/Mempool/Pool.antt =====
-- The messages of one shard in the mempool, a `BTreeMap` from keys to messages: its operations on the list of
-- its entries in the order of their keys.
pub mod Laws
use hypersnap.Shared.{
  Bool, true, false, List, [], ◌∷◌, Option, none, some, Ordering, ◌≡◌, refl, arith,
}
use hypersnap.Mempool.{MempoolKey, MempoolMessage, key_compare}

abbrev pub Pool : Type 0
Pool = List (MempoolKey × MempoolMessage)

-- `BTreeMap::insert`, `remove`, `contains_key`
unfoldable pub insert : MempoolKey → MempoolMessage → Pool → Pool
unfolding key_compare
insert key message [] = (key, message) ∷ []
insert key message ((k, m) ∷ pool) = elim (key_compare key k) [
  | Ordering.lt ↦ (key, message) ∷ (k, m) ∷ pool
  | Ordering.eq ↦ (k, message) ∷ pool
  | Ordering.gt ↦ (k, m) ∷ insert key message pool
]

unfoldable pub remove : MempoolKey → Pool → Pool
unfolding key_compare
remove key [] = []
remove key ((k, m) ∷ pool) = elim (key_compare key k) [
  | Ordering.lt ↦ (k, m) ∷ pool
  | Ordering.eq ↦ pool
  | Ordering.gt ↦ (k, m) ∷ remove key pool
]

unfoldable pub lookup : MempoolKey → Pool → Option MempoolMessage
unfolding key_compare
lookup key [] = none
lookup key ((k, m) ∷ pool) = elim (key_compare key k) [
  | Ordering.lt ↦ none
  | Ordering.eq ↦ some m
  | Ordering.gt ↦ lookup key pool
]

unfoldable pub contains_key : MempoolKey → Pool → Bool
unfolding lookup
contains_key key pool = elim (lookup key pool) [ none ↦ false | some _ ↦ true ]
