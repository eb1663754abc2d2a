-- ===== src/Trie/Node/Delete/Leaf.antt =====
-- `delete` at a leaf of a trie in memory.
use hypersnap.Shared.{
  ℕ, ◌+◌, ◌-◌, ◌^◌, ◌<◌, ◌≤◌, ◌≡◌, refl, ap, sym, ◌∙◌, true, false, List, [], ◌∷◌, ◌++◌, Option,
  none, some, arith, All, length, drop, drop-append, Bool-cases, Option-cases, inl, inr,
}
use hypersnap.Bytes.{Bytes}
use hypersnap.Database.{Database, Batch, bytes_eq}
use hypersnap.Database.Laws.{bytes_eq_iff}
use hypersnap.Trie.Node.{node, nil, TrieCodec, Hashes, or_empty}
use hypersnap.Trie.Node.Contents.{has, IsTrie}
use hypersnap.Trie.Node.Insert.{enumerate, falses, set_result}
use hypersnap.Trie.Node.Insert.Groups.{contains_key}
use hypersnap.Trie.Node.Insert.Rounds.{update_hash_ok}
use hypersnap.Trie.Node.Delete.{less, first_match, delete_leaf, delete_to_txn}
use hypersnap.Trie.Node.Delete.Counts.{count, Counted}
use hypersnap.Trie.Node.Delete.Places.{
  first_match-place, count_true-set_result, count_true-falses, length-set_result, length-falses,
}
use hypersnap.Trie.Node.Delete.Rounds.{Removes}

pub less_small :
    (items successes : ℕ)
    → successes ≤ items
    → items < 2 ^ 64
    → less items successes ≡ items - successes
less_small items successes h small = ground arith

append_cancel : (prefix a b : Bytes) → prefix ++ a ≡ prefix ++ b → a ≡ b
append_cancel prefix a b e =
    sym (drop-append prefix a) ∙ (ap (drop (length prefix)) e ∙ drop-append prefix b)

-- No key of the call is the leaf's, or the first that is one is.
first_match-contains_key :
    (leaf_key prefix : Bytes) (i : ℕ) (keys : List Bytes) (rest : Bytes)
    → bytes_eq leaf_key (prefix ++ rest) ≡ true
    → first_match leaf_key prefix (enumerate i keys) ≡ none
    → contains_key keys rest ≡ false
unfolding first_match enumerate contains_key
first_match-contains_key leaf_key prefix i [] rest e h = refl
first_match-contains_key leaf_key prefix i (key ∷ keys) rest e h = ground (
  arith,
  e,
  h,
  bytes_eq_iff key rest,
  first_match-contains_key leaf_key prefix (i + 1) keys rest e,
)

first_match-some :
    (leaf_key prefix : Bytes) (i k : ℕ) (keys : List Bytes) (rest : Bytes)
    → first_match leaf_key prefix (enumerate i keys) ≡ some k
    → bytes_eq leaf_key (prefix ++ rest) ≡ true
    → contains_key keys rest ≡ true
unfolding first_match enumerate contains_key
first_match-some leaf_key prefix i k [] rest h e = ground (arith, h)
first_match-some leaf_key prefix i k (key ∷ keys) rest h e =
    elim (Bool-cases (bytes_eq leaf_key (prefix ++ key))) [
      | inl same ↦
          let equal : key ≡ rest = append_cancel prefix key rest (
            sym ((bytes_eq_iff leaf_key (prefix ++ key)).0 same)
            ∙ (bytes_eq_iff leaf_key (prefix ++ rest)).0 e) in
          ground (arith, (bytes_eq_iff key rest).1 equal)
      | inr other ↦
          ground (
            arith,
            first_match-some leaf_key prefix (i + 1) k keys rest (ground (arith, other, h)) e,
          )
    ]

filled :
    (prefix rest : Bytes) → 0 < length prefix + length rest → bytes_eq [] (prefix ++ rest) ≡ false
unfolding bytes_eq
filled [] [] h = absurd (omega (arith, h))
filled [] (c ∷ rest) h = refl
filled (b ∷ prefix) rest h = refl

first_match-empty :
    (n : ℕ) (prefix : Bytes) (i : ℕ) (keys : List Bytes)
    → 0 < length prefix + n
    → All (λ k. length k ≡ n) keys
    → first_match [] prefix (enumerate i keys) ≡ none
unfolding first_match enumerate
first_match-empty n prefix i [] deep long = refl
first_match-empty n prefix i (key ∷ keys) deep (first, long) = ground (
  arith,
  filled prefix key (omega (arith, first, deep)),
  first_match-empty n prefix (i + 1) keys deep long,
)

module _ (codec : TrieCodec) (db : Database) where
  leaf_kept :
      (n items : ℕ) (own : Hashes) (key : Option Bytes) (hashes : Hashes) (txn : Batch)
      (prefix : Bytes) (keys : List Bytes)
      → IsTrie n prefix (node items nil own key)
      → Counted (node items nil own key)
      → first_match (or_empty key) prefix (enumerate 0 keys) ≡ none
      → Removes n prefix
          (node items nil own key)
          keys
          (delete_leaf codec db items own key hashes txn prefix keys)
  unfolding delete_leaf has
  leaf_kept n items own key hashes txn prefix keys good counted no_match = record {
    out = record {
      results = falses keys;
      new = node items nil own key;
      parent_hashes = hashes;
      txn = txn;
    };
    returns = ground (arith, no_match);
    out-IsTrie = good;
    out-Counted = counted;
    out-count = omega (arith, count_true-falses keys);
    out-length = length-falses keys;
    out-has = λ rest e.
        ground (arith, first_match-contains_key (or_empty key) prefix 0 keys rest, no_match);
  }

  leaf_emptied :
      (n items : ℕ) (own : Hashes) (key : Bytes) (hashes : Hashes) (txn : Batch) (prefix : Bytes)
      (keys : List Bytes) (k : ℕ)
      → Counted (node items nil own (some key))
      → 0 < length prefix + n
      → first_match key prefix (enumerate 0 keys) ≡ some k
      → Removes n prefix
          (node items nil own (some key))
          keys
          (delete_leaf codec db items own (some key) hashes txn prefix keys)
  unfolding delete_leaf has count Counted IsTrie
  leaf_emptied n items own key hashes txn prefix keys k (one, nothing) deep match =
      let new = node (less items 1) nil own none in
      let (updated, made) = update_hash_ok codec n prefix new hashes tt in
      let (j, place, free) = first_match-place key prefix 0 k keys match in
      record {
        out = record {
          results = set_result k true (falses keys);
          new = new;
          parent_hashes = updated;
          txn = delete_to_txn txn prefix;
        };
        returns = ground (arith, match, made);
        out-IsTrie = tt;
        out-Counted = (ground (arith, one), tt);
        out-count = omega (
          arith,
          count_true-set_result k true (falses keys) (ground (arith, place, free)),
          count_true-falses keys,
        );
        out-length = omega (arith, length-set_result k true (falses keys), length-falses keys);
        out-has = λ rest e. ground (
          arith,
          filled prefix rest (omega (arith, e, deep)),
          first_match-some key prefix 0 k keys rest match,
        );
      }

  pub leaf_removed :
      (n items : ℕ) (own : Hashes) (key : Option Bytes) (hashes : Hashes) (txn : Batch)
      (prefix : Bytes) (keys : List Bytes)
      → IsTrie n prefix (node items nil own key)
      → Counted (node items nil own key)
      → 0 < length prefix + n
      → All (λ k. length k ≡ n) keys
      → Removes n prefix
          (node items nil own key)
          keys
          (delete_leaf codec db items own key hashes txn prefix keys)
  leaf_removed n items own none hashes txn prefix keys good counted deep long =
      leaf_kept n items own none hashes txn prefix keys good counted
        (first_match-empty n prefix 0 keys deep long)
  leaf_removed n items own (some key) hashes txn prefix keys good counted deep long =
      elim (Option-cases (first_match key prefix (enumerate 0 keys))) [
        | inl nothing ↦ leaf_kept n items own (some key) hashes txn prefix keys good counted nothing
        | inr (k, match) ↦ leaf_emptied n items own key hashes txn prefix keys k counted deep match
      ]
