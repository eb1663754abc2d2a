-- ===== src/Trie/Node/Insert/Beside.antt =====
-- Keys that end at a leaf, or are put beside its key.
use mathlib.Core.Path.{subst}
use hypersnap.Shared.{
  ℕ, zero, suc, ◌+◌, ◌≤◌, ◌≡◌, refl, sym, ◌∙◌, Bool, true, false, ◌||◌, List, [], ◌∷◌, ◌++◌, none,
  some, arith, All, length,
}
use hypersnap.Bytes.{Bytes}
use hypersnap.Database.{Database, Batch, bytes_eq}
use hypersnap.Database.Laws.{bytes_eq-append_left}
use hypersnap.Trie.Node.{node, Children, nil, TrieCodec, Hashes, put_to_txn, uncompacted_length}
use hypersnap.Trie.Node.Contents.{has, child_has, IsTrie, IsUnder, has-inner}
use hypersnap.Trie.Node.Insert.{
  InsertCall, Placed, rests_of, insert_beside, insert_into_empty, new_keys, pop_key, enumerate,
  falses, set_result,
}
use hypersnap.Trie.Node.Insert.Groups.{contains_key}
use hypersnap.Trie.Node.Insert.Keys.{
  rests_of-enumerate, contains_key-new_keys, new_keys-All, new_keys_zero, contains_key-pop_key,
  pop_key-All,
}
use hypersnap.Trie.Node.Insert.Rounds.{Inserts, Succeeds, update_hash_ok}
use hypersnap.Trie.Node.Insert.Split.{leaf-Splits}
use hypersnap.Trie.Node.Insert.Remaining.{remaining_added}

module _ (codec : TrieCodec) (db : Database) where
  -- A leaf with a key, and no other key beside it.
  beside_alone :
      (n : ℕ) (call : InsertCall) (items : ℕ) (hashes parent_hashes : Hashes) (txn : Batch)
      (prefix key : Bytes) (keys : List Placed) (results : List Bool)
      → uncompacted_length ≤ length prefix
      → IsUnder n prefix key
      → new_keys key prefix keys ≡ []
      → Succeeds n prefix (node items nil hashes (some key)) (rests_of keys) (
          insert_beside codec db call
            (node items nil hashes (some key))
            key
            parent_hashes
            txn
            prefix
            keys
            results)
  unfolding insert_beside has IsTrie contains_key rests_of
  beside_alone n call items hashes parent_hashes txn prefix key keys results deep under none_new =
      record {
        out = record {
          results = results;
          new = node items nil hashes (some key);
          parent_hashes = parent_hashes;
          txn = txn;
        };
        returns = ground (arith, none_new);
        out-IsTrie = (deep, under);
        out-has = λ rest e. alone rest (
            subst
              (λ l.
                bytes_eq key (prefix ++ rest) || contains_key (rests_of l) rest
                ≡ bytes_eq key (prefix ++ rest) || contains_key (rests_of keys) rest)
              none_new (contains_key-new_keys key prefix keys rest));
      }
    where
      alone :
          (rest : Bytes)
          → bytes_eq key (prefix ++ rest) || false
            ≡ bytes_eq key (prefix ++ rest) || contains_key (rests_of keys) rest
          → bytes_eq key (prefix ++ rest)
            ≡ bytes_eq key (prefix ++ rest) || contains_key (rests_of keys) rest
      alone rest h = ground (arith, h)

  split_contents :
      (n : ℕ) (prefix key : Bytes) (items : ℕ) (cs : Children) (hashes hashes' : Hashes)
      (keys others : List Placed)
      → new_keys key prefix keys ≡ others
      → ((c : ℕ) (rest : Bytes)
          → length rest ≡ n
          → child_has cs prefix c rest ≡ bytes_eq key (prefix ++ c ∷ rest))
      → (rest : Bytes) → length rest ≡ suc n
      → has (node items cs hashes' none) prefix rest || contains_key (rests_of others) rest
        ≡ has (node items nil hashes (some key)) prefix rest || contains_key (rests_of keys) rest
  unfolding has
  split_contents n prefix key items cs hashes hashes' keys others some_new holds [] e =
      absurd (omega arith)
  split_contents n prefix key items cs hashes hashes' keys others some_new holds (c ∷ rest) e =
      subst
        (λ l.
          has (node items cs hashes' none) prefix (c ∷ rest) || contains_key (rests_of l) (c ∷ rest)
          ≡ bytes_eq key (prefix ++ c ∷ rest) || contains_key (rests_of keys) (c ∷ rest))
        some_new
        (ground (
          arith,
          has-inner items cs hashes' prefix c rest,
          holds c rest (omega arith),
          contains_key-new_keys key prefix keys (c ∷ rest),
        ))

  -- A leaf with a key, split for the other keys.
  beside_split :
      (n : ℕ) (call : InsertCall)
      → Inserts n call
      → (items : ℕ) (hashes parent_hashes : Hashes) (txn : Batch) (prefix key : Bytes)
        (keys : List Placed) (results : List Bool)
      → uncompacted_length ≤ length prefix
      → IsUnder (suc n) prefix key
      → All (λ k. length k ≡ suc n) (rests_of keys)
      → (first : Placed) (others : List Placed) → new_keys key prefix keys ≡ first ∷ others
      → Succeeds (suc n) prefix (node items nil hashes (some key)) (rests_of keys) (
          insert_beside codec db call
            (node items nil hashes (some key))
            key
            parent_hashes
            txn
            prefix
            keys
            results)
  unfolding insert_beside
  beside_split n call inserts items hashes parent_hashes txn prefix key keys results deep under long
        first others some_new =
      let split = leaf-Splits codec db n call inserts items hashes txn prefix key deep under in
      let long_new : All (λ k. length k ≡ suc n) (rests_of (first ∷ others)) =
        subst (λ l. All (λ k. length k ≡ suc n) (rests_of l)) some_new
          (new_keys-All (suc n) key prefix keys long) in
      let added =
        remaining_added codec db n call inserts prefix (omega (arith, deep)) items split.children
          split.hashes parent_hashes split.txn (first ∷ others) results split.good long_new in
      record {
        out = added.out;
        returns = ground (arith, some_new, split.returns, added.returns);
        out-IsTrie = added.out-IsTrie;
        out-has = λ rest e.
            added.out-has rest e
            ∙ split_contents n prefix key items split.children hashes split.hashes keys
                (first ∷ others) some_new split.holds rest e;
      }

  pub beside_added :
      (n : ℕ) (call : InsertCall)
      → ((m : ℕ) → n ≡ suc m → Inserts m call)
      → (items : ℕ) (hashes parent_hashes : Hashes) (txn : Batch) (prefix key : Bytes)
        (keys : List Placed) (results : List Bool)
      → uncompacted_length ≤ length prefix
      → IsUnder n prefix key
      → All (λ k. length k ≡ n) (rests_of keys)
      → Succeeds n prefix (node items nil hashes (some key)) (rests_of keys) (
          insert_beside codec db call
            (node items nil hashes (some key))
            key
            parent_hashes
            txn
            prefix
            keys
            results)
  beside_added zero call inserts items hashes parent_hashes txn prefix key keys results deep under
        long =
      beside_alone 0 call items hashes parent_hashes txn prefix key keys results deep under
        (new_keys_zero key prefix keys under long)
  beside_added (suc n) call inserts items hashes parent_hashes txn prefix key keys results deep
        under long =
      go (new_keys key prefix keys) refl
    where
      go :
          (others : List Placed)
          → new_keys key prefix keys ≡ others
          → Succeeds (suc n) prefix (node items nil hashes (some key)) (rests_of keys) (
              insert_beside codec db call
                (node items nil hashes (some key))
                key
                parent_hashes
                txn
                prefix
                keys
                results)
      go [] e =
          beside_alone (suc n) call items hashes parent_hashes txn prefix key keys results deep
            under e
      go (first ∷ others) e =
          beside_split n call (inserts n refl) items hashes parent_hashes txn prefix key keys
            results deep under long first others e

  deep_filled :
      (prefix rest : Bytes)
      → uncompacted_length ≤ length prefix
      → bytes_eq [] (prefix ++ rest) ≡ false
  unfolding bytes_eq
  deep_filled [] rest deep = absurd (omega arith)
  deep_filled (b ∷ prefix) rest deep = refl

  empty_contents :
      (items : ℕ) (hashes : Hashes) (prefix first : Bytes) (keys : List Bytes) (rest : Bytes)
      → uncompacted_length ≤ length prefix
      → bytes_eq (prefix ++ (pop_key first keys).1) (prefix ++ rest)
          || contains_key (rests_of (enumerate 1 (pop_key first keys).0)) rest
        ≡ has (node items nil hashes none) prefix rest || contains_key (first ∷ keys) rest
  unfolding has
  empty_contents items hashes prefix first keys rest deep =
      rw (rests_of-enumerate 1 (pop_key first keys).0) (
        ground (
          arith,
          deep_filled prefix rest deep,
          contains_key-pop_key first keys rest,
          bytes_eq-append_left prefix (pop_key first keys).1 rest,
        ))

  -- A leaf without a key takes one.
  pub empty_added :
      (n : ℕ) (call : InsertCall)
      → ((m : ℕ) → n ≡ suc m → Inserts m call)
      → (items : ℕ) (hashes parent_hashes : Hashes) (txn : Batch) (prefix first : Bytes)
        (keys : List Bytes)
      → uncompacted_length ≤ length prefix
      → All (λ k. length k ≡ n) (first ∷ keys)
      → Succeeds n prefix
          (node items nil hashes none)
          (first ∷ keys)
          (insert_into_empty codec db call items hashes parent_hashes txn prefix first keys)
  unfolding insert_into_empty has
  empty_added n call inserts items hashes parent_hashes txn prefix first keys deep long =
      let (others, last) = pop_key first keys in
      let (others_long, last_long) = pop_key-All n first keys long in
      let leaf = node (items + 1) nil hashes (some (prefix ++ last)) in
      let under : IsUnder n prefix (prefix ++ last) = record {
        rest = last;
        split = refl;
        remaining = last_long;
      } in
      let (updated, made) =
        update_hash_ok codec n prefix leaf parent_hashes (unfold IsTrie in (deep, under)) in
      let added =
        beside_added n call inserts (items + 1) hashes updated (put_to_txn codec leaf txn prefix)
          prefix (prefix ++ last) (enumerate 1 others) (set_result 0 true (falses (first ∷ keys)))
          deep under
          (subst (All (λ k. length k ≡ n)) (sym (rests_of-enumerate 1 others)) others_long) in
      record {
        out = added.out;
        returns = ground (arith, made, added.returns);
        out-IsTrie = added.out-IsTrie;
        out-has = λ rest e.
            added.out-has rest e ∙ empty_contents items hashes prefix first keys rest deep;
      }
