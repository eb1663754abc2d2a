-- ===== src/Trie/Node/Counting/Leaf.antt =====
-- `insert_leaf` of src/storage/trie/trie_node.rs and the numbers of keys in its nodes.
use mathlib.Core.Path.{subst}
use hypersnap.Shared.{
  ℕ, zero, suc, ◌<◌, ◌≤◌, ◌≡◌, refl, ap, sym, ◌∙◌, Bool, true, List, [], ◌∷◌, ◌++◌, none, some, ok,
  arith, length, All, length-append, take-append, drop-append,
}
use hypersnap.Bytes.{Bytes}
use hypersnap.Database.{Database, Batch, bytes_eq}
use hypersnap.Database.Laws.{bytes_eq_iff}
use hypersnap.Trie.Node.{
  TrieNode, node, Children, nil, child, loaded, TrieCodec, Hashes, new_node, find_child,
  insert_child, uncompacted_length,
}
use hypersnap.Trie.Node.Contents.{IsTrie, IsUnder, has}
use hypersnap.Trie.Node.Insert.{
  Inserted, InsertCall, Placed, rests_of, new_keys, split_leaf_node, insert_beside, count_true,
}
use hypersnap.Trie.Node.Insert.Groups.{contains_key}
use hypersnap.Trie.Node.Insert.Keys.{new_keys-All, new_keys_zero}
use hypersnap.Trie.Node.Insert.Rounds.{Inserts, hash_of_ok}
use hypersnap.Trie.Node.Insert.Split.{leaf-Splits}
use hypersnap.Trie.Node.Delete.Counts.{count, child_count, Counted, AreCounted, has-empty}
use hypersnap.Trie.Node.Delete.Compacting.{count-inner}
use hypersnap.Trie.Node.Delete.Places.{vacancy, uses}
use hypersnap.Trie.Node.Counting.{Tally, Tallies, remaining-Tally, new_node-Counted}

uses-new_keys :
    (p : ℕ) (leaf_key prefix : Bytes) (keys : List Placed)
    → uses p (new_keys leaf_key prefix keys) ≤ uses p keys
unfolding uses new_keys
uses-new_keys p leaf_key prefix [] = omega arith
uses-new_keys p leaf_key prefix ((i, rest) ∷ keys) =
    ground (arith, uses-new_keys p leaf_key prefix keys)

one_true : (results : List Bool) → length results ≡ 1 → count_true results ≤ 1
unfolding count_true
one_true [] h = omega arith
one_true (b ∷ []) h = ground arith
one_true (b ∷ c ∷ results) h = absurd (omega (arith, h))

holds_one :
    (n : ℕ) (t : TrieNode) (prefix rest : Bytes)
    → 0 < length prefix
    → IsTrie n prefix t
    → has t prefix rest ≡ true
    → 1 ≤ count t
holds_one n t prefix rest some_prefix good holds =
    ground (arith, has-empty n t prefix rest some_prefix good, holds)

new_node_empty : count new_node ≡ 0
unfolding count new_node
new_node_empty = refl

bytes_eq_refl : (rest : Bytes) → bytes_eq rest rest ≡ true
bytes_eq_refl rest = (bytes_eq_iff rest rest).1 refl

module _ (codec : TrieCodec) (db : Database) (n : ℕ) (call : InsertCall) (inserts : Inserts n call)
    (tallies : Tallies n call) where
  -- The leaf's key is counted once below the split node.
  split_cons-Counted :
      (items : ℕ) (hashes : Hashes) (txn txn' : Batch) (prefix : Bytes) (c : ℕ) (rest : Bytes)
      (cs : Children) (hashes' : Hashes)
      → uncompacted_length ≤ length prefix
      → length rest ≡ n
      → split_leaf_node codec db call (node items nil hashes (some (prefix ++ c ∷ rest))) txn prefix
        ≡ ok (node items cs hashes' none, txn')
      → AreCounted cs × (child_count cs ≡ 1)
  unfolding split_leaf_node Counted find_child insert_child count
  split_cons-Counted items hashes txn txn' prefix c rest cs hashes' deep long eq =
      let below =
        inserts new_node hashes txn (prefix ++ c ∷ []) (rest ∷ []) (unfold new_node IsTrie in tt)
          (omega (arith, deep, length-append prefix (c ∷ []))) (λ e. cc) (long, tt) in
      let (hash, hashed) = hash_of_ok codec n (prefix ++ c ∷ []) below.out.new below.out-IsTrie in
      let (own, more, len) =
        tallies new_node hashes txn (prefix ++ c ∷ []) (rest ∷ []) below.out
          (unfold new_node IsTrie in tt) new_node-Counted
          (omega (arith, deep, length-append prefix (c ∷ []))) (λ e. cc) (long, tt) below.returns in
      let same : cs ≡ child c (loaded below.out.new) nil = ground (
        arith,
        drop-append prefix (c ∷ rest),
        take-append prefix (c ∷ rest),
        below.returns,
        hashed,
        eq,
      ) in
      (
        subst AreCounted (sym same) (refl, own, tt),
        omega (
          arith,
          ap child_count same,
          more,
          one_true below.out.results len,
          holds_one n below.out.new (prefix ++ c ∷ []) rest
              (omega (arith, length-append prefix (c ∷ []))) below.out-IsTrie
              (below.out-has rest long
                ∙ (unfold contains_key in ground (arith, bytes_eq_refl rest))),
          new_node_empty,
        ),
      )

  pub split-Counted :
      (items : ℕ) (hashes : Hashes) (txn txn' : Batch) (prefix key : Bytes) (cs : Children)
      (hashes' : Hashes)
      → uncompacted_length ≤ length prefix
      → (rest : Bytes) → key ≡ prefix ++ rest
      → length rest ≡ suc n
      → split_leaf_node codec db call (node items nil hashes (some key)) txn prefix
        ≡ ok (node items cs hashes' none, txn')
      → AreCounted cs × (child_count cs ≡ 1)
  split-Counted items hashes txn txn' prefix key cs hashes' deep [] e h eq =
      absurd (omega (arith, h))
  split-Counted items hashes txn txn' prefix key cs hashes' deep (c ∷ rest) e h eq =
      split_cons-Counted items hashes txn txn' prefix c rest cs hashes' deep (omega (arith, h)) (
        subst
          (λ k.
            split_leaf_node codec db call (node items nil hashes (some k)) txn prefix
            ≡ ok (node items cs hashes' none, txn'))
          e eq)

module _ (codec : TrieCodec) (db : Database) where
  -- A leaf with a key.
  pub beside-Tally :
      (n : ℕ) (call : InsertCall)
      → ((m : ℕ) → n ≡ suc m → Inserts m call)
      → ((m : ℕ) → n ≡ suc m → Tallies m call)
      → (items : ℕ) (hashes parent_hashes : Hashes) (txn : Batch) (prefix key : Bytes)
        (keys : List Placed) (results : List Bool) (out : Inserted)
      → uncompacted_length ≤ length prefix
      → IsUnder n prefix key
      → items ≡ 1
      → All (λ k. length k ≡ n) (rests_of keys)
      → ((p : ℕ) → uses p keys ≤ vacancy p results)
      → insert_beside codec db call
          (node items nil hashes (some key))
          key
          parent_hashes
          txn
          prefix
          keys
          results
        ≡ ok out
      → Tally 1 results out
  beside-Tally n call inserts tallies items hashes parent_hashes txn prefix key keys results out
        deep under one long room eq =
      go n inserts tallies under long (new_keys key prefix keys) refl
    where
      alone : new_keys key prefix keys ≡ [] → Tally 1 results out
      alone none_new =
          let same : out ≡ record {
            results = results;
            new = node items nil hashes (some key);
            parent_hashes = parent_hashes;
            txn = txn;
          } =
            unfold insert_beside in ground (arith, none_new, eq) in
          subst (Tally 1 results) (sym same) (unfold Counted count in ((one, tt), refl, refl))

      go :
          (n : ℕ)
          → ((m : ℕ) → n ≡ suc m → Inserts m call)
          → ((m : ℕ) → n ≡ suc m → Tallies m call)
          → IsUnder n prefix key
          → All (λ k. length k ≡ n) (rests_of keys)
          → (others : List Placed) → new_keys key prefix keys ≡ others
          → Tally 1 results out
      go n inserts tallies under long [] e = alone e
      go zero inserts tallies under long (first ∷ others) e =
          alone (new_keys_zero key prefix keys under long)
      go (suc m) inserts tallies under long (first ∷ others) e =
          let split =
            leaf-Splits codec db m call (inserts m refl) items hashes txn prefix key deep under in
          let (counted, single) =
            split-Counted codec db m call (inserts m refl) (tallies m refl) items hashes txn
              split.txn prefix key split.children split.hashes deep under.rest under.split
              under.remaining split.returns in
          let long_new =
            subst (λ l. All (λ k. length k ≡ suc m) (rests_of l)) e
              (new_keys-All (suc m) key prefix keys long) in
          let tally =
            remaining-Tally codec db m prefix call (inserts m refl) (tallies m refl)
              (omega (arith, deep)) items split.children split.hashes parent_hashes split.txn
              (first ∷ others) results out split.good
              (unfold Counted in
                (
                  omega (arith, one, single, count-inner items split.children split.hashes),
                  counted,
                ))
              long_new (λ p. omega (arith, room p, uses-new_keys p key prefix keys, ap (uses p) e))
              (unfold insert_beside in ground (arith, e, split.returns, eq)) in
          subst (λ b. Tally b results out) single tally
