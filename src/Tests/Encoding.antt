-- ===== src/Tests/Encoding.antt =====
-- Keys, ids, byte strings and tokens at concrete inputs.
use hypersnap.Shared.{
  List, true, false, ◌≢◌, ◌⊎◌, ◌+◌, ◌*◌, ◌<◌, ◌^◌, ◌≡◌, ◌↔◌, refl, arith, compare, [], ◌∷◌, none,
  some, ok, Ordering,
}
use hypersnap.Bytes.{bytes_compare, increment_loop, increment_vec_u8}
use hypersnap.Bytes.Range.{StartsWith, InRange, prefix_range_exact}
use hypersnap.Keys.{
  ts_hash_length, make_ts_hash, unpack_ts_hash, read_fid_key, read_ts_hash,
  make_message_primary_key_with_prefix,
}
use hypersnap.Keys.Prefix.{root_prefix, root_u8, legacy, hyper, block, user}
use hypersnap.Keys.RoundTrip.{read-primary_key, make_ts_hash-eq-ok}
use hypersnap.Keys.Order.{break_tie, primary_key_order}
use hypersnap.Keys.Isolation.{is_user_data, root_prefix_isolation}
use hypersnap.Events.{
  extract_height_and_seq, make_event_key, make_event_id_for_block_number, merge_message,
  block_confirmed,
}
use hypersnap.Events.Ids.{prune_range_exact}
use hypersnap.Events.Sequence.{
  Operation, run, start_block, emit, IsAbove, Distinct, ids, other_ids, run_increasing,
}
use hypersnap.Trie.{Base64, decode_trie_page_token, encode_trie_page_token}
use hypersnap.Trie.Token.{IsBase64, decode-encode_trie_page_token}
use hypersnap.Tests.Fixtures.{hash_20, follow_9}
use hypersnap.Link.Keys.{stamp}

prefix_range_exact_example :
    InRange (1 ∷ 255 ∷ []) (increment_vec_u8 (1 ∷ 255 ∷ [])) (1 ∷ 255 ∷ 7 ∷ [])
    ↔ StartsWith (1 ∷ 255 ∷ []) (1 ∷ 255 ∷ 7 ∷ [])
prefix_range_exact_example =
    prefix_range_exact (1 ∷ 255 ∷ []) (1 ∷ 255 ∷ 7 ∷ []) (unfold increment_loop in refl)
      (ground arith) (ground arith)

read-primary_key_example :
    (read_fid_key (make_message_primary_key_with_prefix 40 3 2 (some (stamp 7 follow_9))) 1 ≡ ok 3)
    × (read_ts_hash (make_message_primary_key_with_prefix 40 3 2 (some (stamp 7 follow_9))) 6
        ≡ ok (stamp 7 follow_9))
read-primary_key_example =
    read-primary_key 40 3 2 (stamp 7 follow_9) (ground arith)
      (unfold hypersnap.Keys.BigEndian.be_bytes_4 in refl)

primary_key_order_example :
    bytes_compare
      (make_message_primary_key_with_prefix 3 9 2 (some (stamp 7 follow_9)))
      (make_message_primary_key_with_prefix 3 9 2 (some (stamp 300 follow_9)))
    ≡ break_tie (compare 7 300) (bytes_compare hash_20 hash_20)
primary_key_order_example =
    primary_key_order 3 9 2 7 300 hash_20 hash_20 {x = stamp 7 follow_9} {y = stamp 300 follow_9}
      (ground arith) (ground arith) (make_ts_hash-eq-ok 7 hash_20 refl)
      (make_ts_hash-eq-ok 300 hash_20 refl)

root_prefix_isolation_example :
    (((is_user_data user ≡ true) × (root_prefix hyper user ≢ root_prefix legacy block))
      ⊎ ((is_user_data user ≡ false) × (root_prefix hyper user ≡ root_prefix legacy user)))
    × ((root_prefix hyper user ≢ root_prefix hyper block) ⊎ (root_u8 user ≡ root_u8 block))
root_prefix_isolation_example = root_prefix_isolation user block (ground arith) (ground arith)

prune_range_exact_example :
    (bytes_compare (make_event_key 196613) (make_event_key (make_event_id_for_block_number 13))
      ≡ Ordering.lt)
    ↔ ((extract_height_and_seq 196613).0 < 13)
prune_range_exact_example = prune_range_exact 13 196613 (ground arith) (ground arith)

abbrev two_blocks : List Operation
two_blocks =
    emit merge_message
    ∷ emit block_confirmed
    ∷ start_block 2
    ∷ emit merge_message
    ∷ emit merge_message
    ∷ emit block_confirmed
    ∷ []

run_increasing_example :
    Distinct (ids (run (record { current_height = 1; current_seq = 0 }) two_blocks))
    × IsAbove
        (1 * 2 ^ 14 + 0)
        (other_ids (run (record { current_height = 1; current_seq = 0 }) two_blocks))
run_increasing_example =
    run_increasing (record { current_height = 1; current_seq = 0 }) false two_blocks (ground arith)
      (ground arith)

-- An encoder that only marks what it encodes.
abbrev marked : Base64
marked = record {
  encode = λ bytes. 0 ∷ bytes;
  decode = λ text. elim text [ [] ↦ none | b ∷ bytes ↦ some bytes ];
}

marked-IsBase64 : IsBase64 marked
marked-IsBase64 = record { decode-encode = λ bytes. refl; filled = λ b bytes. refl }

decode-encode_trie_page_token_example :
    decode_trie_page_token marked (encode_trie_page_token marked (some ((1 ∷ 2 ∷ []) ∷ [] ∷ [])))
    ≡ ok (some ((1 ∷ 2 ∷ []) ∷ [] ∷ []))
decode-encode_trie_page_token_example =
    decode-encode_trie_page_token marked (some ((1 ∷ 2 ∷ []) ∷ [] ∷ [])) marked-IsBase64
      (ground arith)
