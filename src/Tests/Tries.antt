-- ===== src/Tests/Tries.antt =====
-- The trie at concrete keys.
use hypersnap.Shared.{
  ◌-◌, ◌≢◌, ◌≡◌, ◌||◌, ◌&&◌, ◌+◌, ◌++◌, not, ℕ, length, some, refl, arith, false, List, [], ◌∷◌,
  none, ok,
}
use hypersnap.Bytes.{Bytes}
use hypersnap.Trie.Node.{
  TrieCodec, TrieNode, node, nil, child, loaded, items_of, find_child, new_node,
}
use hypersnap.Trie.Node.Contents.{IsTrie, IsUnder, has, exists-has}
use hypersnap.Trie.Node.Insert.{Inserted, insert}
use hypersnap.Trie.Node.Insert.Groups.{contains_key}
use hypersnap.Trie.Node.Insert.Main.{Represents, insert-Represents}
use hypersnap.Trie.Node.Insert.{count_true}
use hypersnap.Trie.Node.Delete.{Deleted, delete_keys}
use hypersnap.Trie.Node.Delete.Counts.{Counted, count}
use hypersnap.Trie.Node.Delete.Keeping.{items-Counted}
use hypersnap.Trie.Node.Delete.Main.{delete_keys-Represents}
use hypersnap.Trie.Node.Counting.Main.{insert-Counted}
use hypersnap.Proto.{type_number}
use hypersnap.Proto.Blocks.{OnChainEvent}
use hypersnap.Keys.BigEndian.{be_bytes_4}
use hypersnap.Routing.{msg_type}
use hypersnap.Trie.Keys.{decode, message_trie_key, for_onchain_event, for_fname, repeat_zero}
use hypersnap.Trie.Keys.RoundTrip.{decoded, decode-trie_keys}
use hypersnap.Tests.Fixtures.{empty_database, follow_9, follow, hash_20}

abbrev codec : TrieCodec
codec = record { blake3_20 = λ bytes. 7 ∷ bytes; encode = λ n. n.key; decode = λ bytes. none }

-- Two keys of 13 characters that part at the last.
abbrev two_keys : List Bytes
two_keys =
    (1 ∷ 2 ∷ 3 ∷ 4 ∷ 5 ∷ 6 ∷ 7 ∷ 8 ∷ 9 ∷ 10 ∷ 11 ∷ 12 ∷ 1 ∷ [])
    ∷ (1 ∷ 2 ∷ 3 ∷ 4 ∷ 5 ∷ 6 ∷ 7 ∷ 8 ∷ 9 ∷ 10 ∷ 11 ∷ 12 ∷ 2 ∷ [])
    ∷ []

nothing_held : Represents codec empty_database 13 new_node (λ key. false)
unfolding hypersnap.Trie.Node.exists new_node hypersnap.Trie.Node.is_leaf
    hypersnap.Database.bytes_eq
nothing_held [] e = absurd (ground arith)
nothing_held (c ∷ key) e = refl

insert-Represents_example :
    (out : Inserted) × (insert codec empty_database 14 new_node [] [] [] two_keys ≡ ok out)
    × IsTrie 13 [] out.new
    × Represents codec empty_database 13 out.new (λ key. false || contains_key two_keys key)
insert-Represents_example =
    insert-Represents codec empty_database 14 13 new_node (λ key. false) [] [] two_keys
      (ground arith) (ground arith) (λ e. cc) (ground arith) (unfold IsTrie new_node in tt)
      nothing_held

abbrev under : ℕ → TrieNode → TrieNode
under c t = node (items_of t) (child c (loaded t) nil) [] none

abbrev first_key : Bytes
first_key = 1 ∷ 2 ∷ 3 ∷ 4 ∷ 5 ∷ 6 ∷ 7 ∷ 8 ∷ 9 ∷ 10 ∷ 11 ∷ 12 ∷ 1 ∷ []

abbrev second_key : Bytes
second_key = 1 ∷ 2 ∷ 3 ∷ 4 ∷ 5 ∷ 6 ∷ 7 ∷ 8 ∷ 9 ∷ 10 ∷ 11 ∷ 12 ∷ 2 ∷ []

-- The trie of the two keys.
abbrev forked : TrieNode
forked =
    node 2
      (child 1 (loaded (node 1 nil [] (some first_key)))
        (child 2 (loaded (node 1 nil [] (some second_key))) nil))
      [] none

abbrev trie : TrieNode
trie = under 1 (
    under 2 (
      under 3 (
        under 4 (
          under 5
            (under 6 (under 7 (under 8 (under 9 (under 10 (under 11 (under 12 forked)))))))))))

append-IsUnder : (prefix rest key : Bytes) → key ≡ prefix ++ rest → IsUnder (length rest) prefix key
append-IsUnder prefix rest key e = record { rest = rest; split = e; remaining = refl }

trie-IsTrie : IsTrie 13 [] trie
unfolding IsTrie
trie-IsTrie = (
  (
    (
      (
        (
          (
            (
              (
                (
                  (
                    (
                      (
                        (
                          (ground arith, append-IsUnder first_key [] first_key (ground arith)),
                          (
                            (ground arith, append-IsUnder second_key [] second_key (ground arith)),
                            tt,
                          ),
                        ),
                        tt,
                      ),
                      tt,
                    ),
                    tt,
                  ),
                  tt,
                ),
                tt,
              ),
              tt,
            ),
            tt,
          ),
          tt,
        ),
        tt,
      ),
      tt,
    ),
    tt,
  ),
  tt,
)

under-Counted : (c : ℕ) (t : TrieNode) → Counted t → Counted (under c t)
unfolding Counted count find_child
under-Counted c (node items cs hashes key) good =
    (omega (arith, items-Counted (node items cs hashes key) good), (refl, good, tt))

forked-Counted : Counted forked
unfolding Counted count find_child
forked-Counted = (refl, (refl, (refl, tt), (refl, (refl, tt), tt)))

trie-Counted : Counted trie
trie-Counted =
    under-Counted 1
      (under 2 (
        under 3 (
          under 4 (
            under 5
              (under 6 (under 7 (under 8 (under 9 (under 10 (under 11 (under 12 forked)))))))))))
      (under-Counted 2
        (under 3 (
          under 4 (
            under 5
              (under 6 (under 7 (under 8 (under 9 (under 10 (under 11 (under 12 forked))))))))))
        (under-Counted 3
          (under 4 (
            under 5
              (under 6 (under 7 (under 8 (under 9 (under 10 (under 11 (under 12 forked)))))))))
          (under-Counted 4
            (under 5
              (under 6 (under 7 (under 8 (under 9 (under 10 (under 11 (under 12 forked))))))))
            (under-Counted 5
              (under 6 (under 7 (under 8 (under 9 (under 10 (under 11 (under 12 forked)))))))
              (under-Counted 6 (under 7 (under 8 (under 9 (under 10 (under 11 (under 12 forked))))))
                (under-Counted 7 (under 8 (under 9 (under 10 (under 11 (under 12 forked))))) (
                  under-Counted 8 (under 9 (under 10 (under 11 (under 12 forked)))) (
                    under-Counted 9 (under 10 (under 11 (under 12 forked))) (
                      under-Counted 10 (under 11 (under 12 forked)) (
                        under-Counted 11 (under 12 forked)
                          (under-Counted 12 forked forked-Counted)))))))))))

delete_keys-Represents_example :
    (out : Deleted) × (delete_keys codec empty_database 14 trie [] [] [] (second_key ∷ []) ≡ ok out)
    × IsTrie 13 [] out.new
    × Counted out.new
    × (count out.new + count_true out.results ≡ count trie)
    × Represents codec empty_database 13 out.new
        (λ key. has trie [] key && not (contains_key (second_key ∷ []) key))
delete_keys-Represents_example =
    delete_keys-Represents codec empty_database 14 13 trie (has trie []) [] [] (second_key ∷ [])
      (ground arith) (ground arith) (λ e. cc) (ground arith) trie-IsTrie trie-Counted
      (unfold count in ground arith)
      (λ key e. exists-has codec empty_database 13 trie [] key trie-IsTrie e)

abbrev third_key : Bytes
third_key = 1 ∷ 2 ∷ 3 ∷ 4 ∷ 5 ∷ 6 ∷ 7 ∷ 8 ∷ 9 ∷ 10 ∷ 11 ∷ 12 ∷ 3 ∷ []

insert-Counted_example :
    (out : Inserted) × (insert codec empty_database 14 trie [] [] [] (second_key ∷ third_key ∷ [])
      ≡ ok out)
    × IsTrie 13 [] out.new
    × Counted out.new
    × (count out.new ≡ count trie + count_true out.results)
insert-Counted_example =
    insert-Counted codec empty_database 14 13 trie [] [] (second_key ∷ third_key ∷ [])
      (ground arith) (ground arith) (λ e. cc) (ground arith) trie-IsTrie trie-Counted

abbrev rent : OnChainEvent
rent = record {
  type = 4;
  chain_id = 10;
  block_number = 1;
  block_hash = [];
  block_timestamp = 7;
  transaction_hash = hash_20;
  log_index = 2;
  fid = 3;
  body = none;
  tx_index = 0;
  version = 0;
}

-- In place of the hash, its first bytes.
abbrev sha256 : Bytes → Bytes
sha256 bytes = bytes

decode-trie_keys_example :
    (decode (message_trie_key sha256 3 follow_9)
      ≡ ok (decoded sha256 3 none (some (type_number (msg_type follow_9))) hash_20))
    × (decode (for_onchain_event sha256 rent)
        ≡ ok (decoded sha256 3 (some 4) none (hash_20 ++ be_bytes_4 2)))
    × (decode (for_fname sha256 3 follow)
        ≡ ok (decoded sha256 3 (some 7) none (follow ++ repeat_zero (20 - length follow))))
    × (message_trie_key sha256 3 follow_9 ≢ for_onchain_event sha256 rent)
    × (message_trie_key sha256 3 follow_9 ≢ for_fname sha256 3 follow)
decode-trie_keys_example =
    decode-trie_keys sha256 follow_9 rent 3 follow (ground arith) (ground arith)
      (unfold msg_type in λ e. cc) (ground arith) (ground arith) (ground arith) (ground arith)
