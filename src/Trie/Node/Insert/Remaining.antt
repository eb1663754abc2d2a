-- ===== src/Trie/Node/Insert/Remaining.antt =====
-- The keys that go on to the children of a node.
use hypersnap.Shared.{
  ℕ, suc, ◌+◌, ◌≤◌, ◌≡◌, Bool, ◌||◌, List, [], ◌∷◌, none, arith, All, length, ◌==◌, Bool-cases, inl,
  inr,
}
use hypersnap.Bytes.{Bytes}
use hypersnap.Database.{Database, Batch}
use hypersnap.Trie.Node.{node, Children, TrieCodec, Hashes, put_to_txn, uncompacted_length}
use hypersnap.Trie.Node.Contents.{has, child_has, AreTries, has-inner, inner-IsTrie}
use hypersnap.Trie.Node.Insert.{InsertCall, Loop, Placed, rests_of, group_keys, insert_remaining}
use hypersnap.Trie.Node.Insert.Groups.{
  contains_key, in_groups, in_groups-group_keys, group_keys-IsGroup,
}
use hypersnap.Trie.Node.Insert.Keys.{none_ended}
use hypersnap.Trie.Node.Insert.Rounds.{Inserts, Succeeds, groups_added, update_hash_ok}

contents_added :
    (n : ℕ) (prefix : Bytes) (items items' : ℕ) (cs cs' : Children) (hashes hashes' : Hashes)
    (keys : List Placed)
    → All (λ k. length k ≡ suc n) (rests_of keys)
    → ((c : ℕ) (rest : Bytes)
        → length rest ≡ n
        → child_has cs' prefix c rest
          ≡ child_has cs prefix c rest || in_groups c rest (group_keys keys []))
    → (rest : Bytes) → length rest ≡ suc n
    → has (node items' cs' hashes' none) prefix rest
      ≡ has (node items cs hashes none) prefix rest || contains_key (rests_of keys) rest
unfolding in_groups
contents_added n prefix items items' cs cs' hashes hashes' keys long added [] e =
    absurd (omega arith)
contents_added n prefix items items' cs cs' hashes hashes' keys long added (c ∷ rest) e = ground (
  arith,
  has-inner items' cs' hashes' prefix c rest,
  has-inner items cs hashes prefix c rest,
  added c rest (omega arith),
  in_groups-group_keys n keys [] c rest long,
)

module _ (codec : TrieCodec) (db : Database) where
  module _ (n : ℕ) (call : InsertCall) (inserts : Inserts n call) (prefix : Bytes)
      (deep : uncompacted_length ≤ length prefix + suc n) where
    pub remaining_added :
        (items : ℕ) (cs : Children) (hashes parent_hashes : Hashes) (txn : Batch)
        (keys : List Placed) (results : List Bool)
        → AreTries n prefix cs
        → All (λ k. length k ≡ suc n) (rests_of keys)
        → Succeeds (suc n) prefix (node items cs hashes none) (rests_of keys) (
            insert_remaining codec db call
              (node items cs hashes none)
              parent_hashes
              txn
              prefix
              keys
              results)
    unfolding insert_remaining in_groups
    remaining_added items cs hashes parent_hashes txn keys results tries long =
        let start : Loop = record {
          children = cs;
          child_hashes = hashes;
          txn = txn;
          results = results;
          successes = 0;
        } in
        let added =
          groups_added codec db n prefix call inserts deep (group_keys keys []) start
            (group_keys-IsGroup n keys [] tt long) tries in
        let l = added.out in
        let new = node (items + l.successes) l.children l.child_hashes none in
        let new-IsTrie =
          inner-IsTrie n (items + l.successes) l.children l.child_hashes prefix
            added.out-AreTries in
        let (updated, made) = update_hash_ok codec (suc n) prefix new parent_hashes new-IsTrie in
        let contents =
          contents_added n prefix items (items + l.successes) cs l.children hashes l.child_hashes
            keys long added.out-has in
        elim (Bool-cases (l.successes == 0)) [
          | inl idle ↦ record {
            out = record {
              results = l.results;
              new = new;
              parent_hashes = parent_hashes;
              txn = l.txn;
            };
            returns = ground (arith, none_ended n keys long, added.returns, idle);
            out-IsTrie = new-IsTrie;
            out-has = contents;
          }
          | inr busy ↦ record {
            out = record {
              results = l.results;
              new = new;
              parent_hashes = updated;
              txn = put_to_txn codec new l.txn prefix;
            };
            returns = ground (arith, none_ended n keys long, added.returns, busy, made);
            out-IsTrie = new-IsTrie;
            out-has = contents;
          }
        ]
