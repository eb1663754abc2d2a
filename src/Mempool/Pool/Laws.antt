-- ===== src/Mempool/Pool/Laws.antt =====
-- The ordered map of a shard: its entries stay in the order of their keys, and an insertion or a removal changes
-- the one key only.
use hypersnap.Shared.{[], ◌∷◌, none, some, Ordering, ◌≡◌, ◌≢◌, refl, arith, All}
use hypersnap.Mempool.{MempoolKey, MempoolMessage, key_compare}
use hypersnap.Mempool.Order.{
  key_compare_refl, key_compare_swap, key_compare_trans, eq_of_key_compare,
}
use hypersnap.Mempool.Pool.{Pool, insert, remove, lookup}

-- All keys are after this one.
abbrev pub After : MempoolKey → Pool → Type 0
After key pool = All (λ e. key_compare key e.0 ≡ Ordering.lt) pool

abbrev pub Sorted : Pool → Type 0
Sorted [] = Unit
Sorted ((k, m) ∷ pool) = After k pool × Sorted pool

After-trans :
    (a b : MempoolKey) (pool : Pool) → key_compare a b ≡ Ordering.lt → After b pool → After a pool
After-trans a b [] h after = tt
After-trans a b ((k, m) ∷ pool) h (first, rest) =
    (key_compare_trans a b k h first, After-trans a b pool h rest)

insert-After :
    (a key : MempoolKey) (message : MempoolMessage) (pool : Pool)
    → key_compare a key ≡ Ordering.lt
    → After a pool
    → After a (insert key message pool)
unfolding insert
insert-After a key message [] h after = (h, tt)
insert-After a key message ((k, m) ∷ pool) h (first, rest) =
    ground (arith, insert-After a key message pool h rest, h, first, rest)

pub insert-Sorted :
    (key : MempoolKey) (message : MempoolMessage) (pool : Pool)
    → Sorted pool
    → Sorted (insert key message pool)
unfolding insert
insert-Sorted key message [] sorted = (tt, tt)
insert-Sorted key message ((k, m) ∷ pool) (after, sorted) = ground (
  arith,
  insert-Sorted key message pool sorted,
  After-trans key k pool,
  insert-After k key message pool,
  key_compare_swap key k,
)

remove-After : (a key : MempoolKey) (pool : Pool) → After a pool → After a (remove key pool)
unfolding remove
remove-After a key [] after = tt
remove-After a key ((k, m) ∷ pool) (first, rest) = ground (arith, remove-After a key pool rest)

pub remove-Sorted : (key : MempoolKey) (pool : Pool) → Sorted pool → Sorted (remove key pool)
unfolding remove
remove-Sorted key [] sorted = tt
remove-Sorted key ((k, m) ∷ pool) (after, sorted) =
    ground (arith, remove-Sorted key pool sorted, remove-After k key pool after)

pub lookup-After : (a : MempoolKey) (pool : Pool) → After a pool → lookup a pool ≡ none
unfolding lookup
lookup-After a [] after = refl
lookup-After a ((k, m) ∷ pool) (first, rest) = ground arith

pub lookup-insert :
    (key : MempoolKey) (message : MempoolMessage) (pool : Pool)
    → lookup key (insert key message pool) ≡ some message
unfolding lookup insert
lookup-insert key message [] = ground (arith, key_compare_refl key)
lookup-insert key message ((k, m) ∷ pool) =
    ground (arith, key_compare_refl key, lookup-insert key message pool)

pub lookup-insert_other :
    (other key : MempoolKey) (message : MempoolMessage) (pool : Pool)
    → other ≢ key
    → lookup other (insert key message pool) ≡ lookup other pool
unfolding lookup insert
lookup-insert_other other key message [] h = ground (arith, eq_of_key_compare other key)
lookup-insert_other other key message ((k, m) ∷ pool) h = ground (
  arith,
  eq_of_key_compare other key,
  eq_of_key_compare key k,
  eq_of_key_compare other k,
  key_compare_trans other key k,
  lookup-insert_other other key message pool h,
)

pub lookup-remove :
    (key : MempoolKey) (pool : Pool) → Sorted pool → lookup key (remove key pool) ≡ none
unfolding lookup remove
lookup-remove key [] sorted = refl
lookup-remove key ((k, m) ∷ pool) (after, sorted) = ground (
  arith,
  eq_of_key_compare key k,
  lookup-After key pool,
  lookup-remove key pool sorted,
  After-trans key k pool,
)

pub lookup-remove_other :
    (other key : MempoolKey) (pool : Pool)
    → Sorted pool
    → other ≢ key
    → lookup other (remove key pool) ≡ lookup other pool
unfolding lookup remove
lookup-remove_other other key [] sorted h = refl
lookup-remove_other other key ((k, m) ∷ pool) (after, sorted) h = ground (
  arith,
  eq_of_key_compare other key,
  eq_of_key_compare key k,
  eq_of_key_compare other k,
  lookup-After other pool,
  lookup-remove_other other key pool sorted h,
  After-trans other k pool,
)
