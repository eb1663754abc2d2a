-- ===== src/Trie/Node/Insert/Keys.antt =====
-- The lists of keys that `insert` works with.
use hypersnap.Shared.{
  ℕ, suc, ◌+◌, ◌≡◌, refl, ap, true, false, ◌||◌, List, [], ◌∷◌, ◌++◌, arith, All, length,
}
use hypersnap.Bytes.{Bytes}
use hypersnap.Database.{bytes_eq}
use hypersnap.Database.Laws.{bytes_eq_iff}
use hypersnap.Trie.Node.Contents.{IsUnder}
use hypersnap.Trie.Node.Insert.{Placed, rests_of, enumerate, new_keys, pop_key, any_ended}
use hypersnap.Trie.Node.Insert.Groups.{contains_key}

pub rests_of-enumerate : (i : ℕ) (keys : List Bytes) → rests_of (enumerate i keys) ≡ keys
unfolding rests_of enumerate
rests_of-enumerate i [] = refl
rests_of-enumerate i (key ∷ keys) =
    ap (λ (l : List Bytes). key ∷ l) (rests_of-enumerate (i + 1) keys)

pub none_ended :
    (n : ℕ) (keys : List Placed)
    → All (λ k. length k ≡ suc n) (rests_of keys)
    → any_ended keys ≡ false
unfolding rests_of any_ended
none_ended n [] all = refl
none_ended n ((i, []) ∷ keys) all = absurd (omega (arith, all.0))
none_ended n ((i, c ∷ rest) ∷ keys) all = none_ended n keys all.1

-- The keys other than the leaf's, and the leaf's, are all of the keys and the leaf's.
pub contains_key-new_keys :
    (leaf_key prefix : Bytes) (keys : List Placed) (rest : Bytes)
    → bytes_eq leaf_key (prefix ++ rest)
        || contains_key (rests_of (new_keys leaf_key prefix keys)) rest
      ≡ bytes_eq leaf_key (prefix ++ rest) || contains_key (rests_of keys) rest
unfolding rests_of new_keys contains_key
contains_key-new_keys leaf_key prefix [] rest = refl
contains_key-new_keys leaf_key prefix ((i, k) ∷ keys) rest = ground (
  arith,
  contains_key-new_keys leaf_key prefix keys rest,
  bytes_eq_iff leaf_key (prefix ++ k),
  bytes_eq_iff k rest,
  bytes_eq_iff leaf_key (prefix ++ rest),
)

pub new_keys-All :
    (n : ℕ) (leaf_key prefix : Bytes) (keys : List Placed)
    → All (λ k. length k ≡ n) (rests_of keys)
    → All (λ k. length k ≡ n) (rests_of (new_keys leaf_key prefix keys))
unfolding rests_of new_keys
new_keys-All n leaf_key prefix [] all = tt
new_keys-All n leaf_key prefix ((i, k) ∷ keys) all =
    ground (arith, new_keys-All n leaf_key prefix keys all.1, all.0)

-- At the end of the keys there is but one key.
pub new_keys_zero :
    (leaf_key prefix : Bytes) (keys : List Placed)
    → IsUnder 0 prefix leaf_key
    → All (λ k. length k ≡ 0) (rests_of keys)
    → new_keys leaf_key prefix keys ≡ []
unfolding rests_of new_keys
new_keys_zero leaf_key prefix [] under all = refl
new_keys_zero leaf_key prefix ((i, c ∷ k) ∷ keys) under all = absurd (omega (arith, all.0))
new_keys_zero leaf_key prefix ((i, []) ∷ keys) under all =
    ground (arith, same, new_keys_zero leaf_key prefix keys under all.1)
  where
    go : (rest : Bytes) → leaf_key ≡ prefix ++ rest → length rest ≡ 0 → leaf_key ≡ prefix ++ []
    go [] e h = e
    go (b ∷ bs) e h = absurd (omega (arith, h))

    same : bytes_eq leaf_key (prefix ++ []) ≡ true
    same = (bytes_eq_iff leaf_key (prefix ++ [])).1 (go under.rest under.split under.remaining)

pub contains_key-pop_key :
    (first : Bytes) (keys : List Bytes) (rest : Bytes)
    → contains_key (first ∷ keys) rest
      ≡ contains_key (pop_key first keys).0 rest || bytes_eq (pop_key first keys).1 rest
unfolding pop_key contains_key
contains_key-pop_key first [] rest = ground arith
contains_key-pop_key first (next ∷ keys) rest = ground (arith, contains_key-pop_key next keys rest)

pub pop_key-All :
    (n : ℕ) (first : Bytes) (keys : List Bytes)
    → All (λ k. length k ≡ n) (first ∷ keys)
    → All (λ k. length k ≡ n) (pop_key first keys).0 × (length (pop_key first keys).1 ≡ n)
unfolding pop_key
pop_key-All n first [] all = (tt, all.0)
pop_key-All n first (next ∷ keys) all =
    let (before, last) = pop_key-All n next keys all.1 in ((all.0, before), last)
