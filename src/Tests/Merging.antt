-- ===== src/Tests/Merging.antt =====
-- The store's theorems at concrete messages.
use hypersnap.Shared.{
  ℕ, ◌-◌, ◌≡◌, ◌↔◌, ◌⊎◌, inl, inr, refl, arith, true, false, List, [], ◌∷◌, none, some, ok, err,
  Error, Ordering,
}
use hypersnap.Bytes.{Bytes}
use hypersnap.Bytes.Order.{opposite}
use hypersnap.Proto.{Message}
use hypersnap.Keys.Prefix.{legacy, postfix_u8, link_adds, allows_pruning}
use hypersnap.Database.{get_from_db_or_txn}
use hypersnap.Store.Types.{
  Protobuf, HubEvent, Transaction, Store, merge_message_body, prune_message_body, prune_event_args,
}
use hypersnap.Store.Codec.{Decodes, message_decode, message_encode, message_decode-message_encode}
use hypersnap.Store.Compare.{message_compare}
use hypersnap.Store.Compare.Order.{IsStamp, message_compare_order}
use hypersnap.Store.Merge.{merge_add, merge_remove, get_add}
use hypersnap.Store.Merge.Refusals.{IsBlocked, by_add, merge_blocked}
use hypersnap.Store.Merge.Compact.{superseded, entries_of}
use hypersnap.Store.Merge.Compact.Scan.{Picks, IsSuperseded, superseded_exact}
use hypersnap.Events.{generate_id, prune_message}
use hypersnap.Keys.{make_ts_hash}
use hypersnap.Store.Writes.{commit_transaction, delete_add_transaction}
use hypersnap.Store.Merge.Prune.{prune_messages, prune_entries, delete_pruned}
use hypersnap.Shared.{take, All}
use hypersnap.Link.Pruning.{links-IndicesOnlyGo}
use hypersnap.Store.Merge.Prune.Gone.{IsDeletable}
use hypersnap.Store.Merge.Prune.Picked.{prunable_messages, HasPruned, prune_messages_deletes}
use hypersnap.Link.{link_store}
use hypersnap.Link.Keys.{stamp, slot_key, link_data, links, add_key_eq}
use hypersnap.Link.Replacing.{Holds, merge_add_replaces}
use hypersnap.Tests.Fixtures.{follow_at, follow_at-IsLink}
use hypersnap.Link.Keys.{primary_key}
use hypersnap.Link.Revoking.{revoke_add}
use hypersnap.Keys.Prefix.{root_prefix, user, link_message}
use hypersnap.Store.Codec.{get_message_with_prefix}
use hypersnap.Store.Types.{revoke_message_body}
use hypersnap.Store.Merge.{revoke}
use hypersnap.Link.Merging.{merge_add_fresh}
use hypersnap.Tests.Fixtures.{
  follow_9, follow_9-IsLink, protobuf, empty_database, start, link_messages, follow,
}

follow_at-Decodes : (second : ℕ) → Decodes protobuf (follow_at second)
follow_at-Decodes second = record { decode-encode = refl; decode_data = λ b bs h. cc }

pub follow_9-Decodes : Decodes protobuf follow_9
follow_9-Decodes = follow_at-Decodes 7

merge_add_fresh_example :
    (event : HubEvent) × (t' : Transaction) × (merge_add link_messages
        (stamp 7 follow_9)
        follow_9
        start
      ≡ (ok event, t'))
    × (event.body ≡ merge_message_body follow_9 [])
    × (get_add link_messages t'.batch follow_9 ≡ ok (some follow_9))
merge_add_fresh_example =
    merge_add_fresh follow_9 legacy 3 7 follow 9 follow_9-IsLink empty_database protobuf false start
      (ground arith) (ground arith) follow_9-Decodes (unfold get_from_db_or_txn in refl)
      (unfold get_from_db_or_txn in refl) (unfold get_from_db_or_txn in refl)

-- The add of a later second is in the index.
abbrev later : Transaction
later = record {
  batch = (slot_key (postfix_u8 link_adds) legacy 3 follow 9, some (stamp 8 follow_9)) ∷ [];
  generator = start.generator;
}

later_blocks : IsBlocked link_messages later.batch follow_9 (stamp 7 follow_9)
unfolding get_from_db_or_txn hypersnap.Store.Compare.store_compare message_compare link_store
    hypersnap.Keys.make_user_key_with_prefix hypersnap.Keys.Prefix.root_prefix
    hypersnap.Bytes.bytes_compare
later_blocks =
    by_add (slot_key (postfix_u8 link_adds) legacy 3 follow 9)
      (add_key_eq follow_9 legacy 3 7 follow 9 5 follow_9-IsLink)
      (record {
        content =
            link_data 5 3 7 1
              (record { type = follow; display_timestamp = none; target_fid = some 9 });
        has_data = refl;
        existing = stamp 8 follow_9;
        indexed = refl;
        order = Ordering.gt;
        compared = refl;
        not_older = λ h. cc;
      })

merge_blocked_example :
    ((e : Error) × (merge_add link_messages (stamp 7 follow_9) follow_9 later ≡ (err e, later)))
    × ((e : Error) × (merge_remove link_messages (stamp 7 follow_9) follow_9 later
          ≡ (err e, later)))
merge_blocked_example =
    merge_blocked link_messages follow_9 (stamp 7 follow_9) later refl later_blocks

-- A message with data bytes, which is encoded without its data, and an encoding of it alone.
abbrev with_bytes : Message
with_bytes = record follow_9 { data_bytes = some (9 ∷ []) }

abbrev bytes_protobuf : Protobuf
bytes_protobuf = record protobuf {
  decode = λ bytes. some (record with_bytes { message_data = none });
  decode_data = λ bytes. follow_9.message_data;
}

message_decode-message_encode_example :
    message_decode bytes_protobuf (message_encode bytes_protobuf with_bytes) ≡ ok with_bytes
message_decode-message_encode_example =
    message_decode-message_encode bytes_protobuf with_bytes
      (record { decode-encode = refl; decode_data = λ b bs h. refl })

stamp-IsStamp :
    (time type : ℕ) → (type ≡ 5) ⊎ (type ≡ 6) → IsStamp link_store type (stamp time follow_9)
unfolding link_store hypersnap.Keys.BigEndian.be_bytes_4
stamp-IsStamp time type known = record { known = known; long = refl }

message_compare_order_example :
    ((o : Ordering) × (message_compare link_store 5 (stamp 7 follow_9) 6 (stamp 7 follow_9) ≡ ok o)
      × (message_compare link_store 6 (stamp 7 follow_9) 5 (stamp 7 follow_9) ≡ ok (opposite o))
      × ((o ≡ Ordering.eq) ↔ ((◌≡◌ {A = ℕ} 5 6) × (stamp 7 follow_9 ≡ stamp 7 follow_9))))
    × (message_compare link_store 5 (stamp 7 follow_9) 6 (stamp 7 follow_9) ≡ ok Ordering.lt
        → message_compare link_store 6 (stamp 7 follow_9) 5 (stamp 8 follow_9) ≡ ok Ordering.lt
        → message_compare link_store 5 (stamp 7 follow_9) 5 (stamp 8 follow_9) ≡ ok Ordering.lt)
message_compare_order_example =
    message_compare_order link_store 5 6 5 (stamp 7 follow_9) (stamp 7 follow_9) (stamp 8 follow_9)
      (unfold link_store in ground arith) (stamp-IsStamp 7 5 (inl refl))
      (stamp-IsStamp 7 6 (inr refl)) (stamp-IsStamp 8 5 (inl refl))

superseded_exact_example :
    (found : List Message) × (superseded link_messages 7 [] (
        (1 ∷ [], message_encode protobuf follow_9)
        ∷ (2 ∷ [], message_encode protobuf follow_9)
        ∷ [])
      ≡ ok found)
    × Picks (IsSuperseded link_messages 7 []) ((7, follow_9) ∷ (7, follow_9) ∷ []) found
superseded_exact_example =
    superseded_exact link_messages 7 []
      ((1 ∷ [], message_encode protobuf follow_9) ∷ (2 ∷ [], message_encode protobuf follow_9) ∷ [])
      ((7, follow_9) ∷ (7, follow_9) ∷ [])
      (
        message_decode-message_encode protobuf follow_9 follow_9-Decodes,
        refl,
        (message_decode-message_encode protobuf follow_9 follow_9-Decodes, refl, tt),
      )
      (((ground arith), tt), (tt, tt))

-- Two stored messages, of which one may stay.
abbrev two_links : Store
two_links =
    links (record { get = λ key. none; scan = λ from to. (1 ∷ [], 7 ∷ []) ∷ (2 ∷ [], 7 ∷ []) ∷ [] })
      protobuf legacy false

abbrev pruned : HubEvent
pruned = record {
  type = prune_message;
  body = prune_message_body follow_9;
  id = 16385;
  block_number = 0;
  shard_index = 0;
  timestamp = 0;
}

prunes_one :
    prune_messages two_links 3 2 1 start
    ≡ (ok (pruned ∷ []), (prune_messages two_links 3 2 1 start).1)
unfolding prune_messages prune_entries hypersnap.Store.Merge.Prune.prune_message delete_pruned
    link_store delete_add_transaction commit_transaction generate_id prune_event_args message_decode
    make_ts_hash hypersnap.Store.Types.compact_state_type_supported
    hypersnap.Store.Codec.delete_message_transaction_with_prefix hypersnap.Proto.message_type_of
    hypersnap.Keys.type_to_set_postfix
prunes_one = refl

two_adds : All (IsDeletable two_links) (prunable_messages two_links (entries_of two_links 3))
unfolding prunable_messages hypersnap.Store.Merge.Prune.is_compact_state link_store message_decode
    hypersnap.Store.Types.compact_state_type_supported entries_of
two_adds = (inl refl, (inl refl, tt))

prune_messages_deletes_example :
    ((allows_pruning legacy ≡ true)
      × HasPruned two_links
          (take (2 - 1) (prunable_messages two_links (entries_of two_links 3)))
          (pruned ∷ [])
          (prune_messages two_links 3 2 1 start).1)
    ⊎ ((allows_pruning legacy ≡ false)
        × (◌≡◌ {A = List HubEvent} (pruned ∷ []) [])
        × ((prune_messages two_links 3 2 1 start).1 ≡ start))
prune_messages_deletes_example =
    prune_messages_deletes two_links 3 2 1 (pruned ∷ []) start
      (prune_messages two_links 3 2 1 start).1
      (links-IndicesOnlyGo two_links.db protobuf legacy false) two_adds prunes_one

revoke_add_example :
    (event : HubEvent) × (t' : Transaction) × (revoke link_messages follow_9 later ≡ (ok event, t'))
    × (event.body ≡ revoke_message_body follow_9)
    × (get_add link_messages t'.batch follow_9 ≡ ok none)
    × (get_message_with_prefix protobuf empty_database t'.batch
          (root_prefix legacy user)
          3
          (postfix_u8 link_message)
          (stamp 7 follow_9)
        ≡ ok none)
revoke_add_example =
    revoke_add follow_9 legacy 3 7 follow 9 follow_9-IsLink empty_database protobuf false later
      (ground arith) (ground arith)

-- The add of second 7 is merged.
abbrev merged_7 : Transaction
merged_7 = record {
  batch =
      (slot_key (postfix_u8 link_adds) legacy 3 follow 9, some (stamp 7 follow_9))
      ∷ (primary_key legacy 3 7 follow_9, some (message_encode protobuf follow_9))
      ∷ [];
  generator = start.generator;
}

merged_7-Holds :
    Holds
      (follow_at 8)
      follow_9
      legacy
      3
      8
      7
      follow
      9
      (follow_at-IsLink 8)
      follow_9-IsLink
      empty_database
      protobuf
      false
      merged_7.batch
unfolding get_from_db_or_txn hypersnap.Keys.make_user_key_with_prefix
    hypersnap.Keys.Prefix.root_prefix hypersnap.Keys.make_message_primary_key_with_prefix
    hypersnap.Link.resize
merged_7-Holds = record { slot = refl; message = refl; no_remove = refl; no_compact = refl }

merge_add_replaces_example :
    (event : HubEvent) × (t' : Transaction) × (merge_add link_messages
        (stamp 8 (follow_at 8))
        (follow_at 8)
        merged_7
      ≡ (ok event, t'))
    × (event.body ≡ merge_message_body (follow_at 8) (follow_9 ∷ []))
    × (get_add link_messages t'.batch (follow_at 8) ≡ ok (some (follow_at 8)))
merge_add_replaces_example =
    merge_add_replaces (follow_at 8) follow_9 legacy 3 8 7 follow 9 (follow_at-IsLink 8)
      follow_9-IsLink empty_database protobuf false merged_7 (ground arith) (ground arith)
      (follow_at-Decodes 8) follow_9-Decodes merged_7-Holds
      (unfold message_compare link_store hypersnap.Bytes.bytes_compare
          hypersnap.Keys.BigEndian.be_bytes_4 in
        refl)
