-- ===== src/Link/Merging.antt =====
-- A link add merged into an empty slot of the link store.
use hypersnap.Shared.{
  ℕ, ◌^◌, ◌<◌, ◌≡◌, refl, ◌∙◌, Bool, false, [], ◌∷◌, none, some, Result, ok, err, Error, length,
  arith, Bool-cases, inl, inr, if◌then◌else◌,
}
use hypersnap.Bytes.{Bytes, vec_to_u8_24}
use hypersnap.Proto.{Message}
use hypersnap.Keys.{make_user_key_with_prefix, make_message_primary_key_with_prefix, ts_hash_length}
use hypersnap.Keys.BigEndian.{be_bytes_4}
use hypersnap.Keys.Prefix.{
  StateContext, root_prefix, user, postfix_u8, link_adds, link_removes, link_message,
}
use hypersnap.Events.{merge_message, HubEventIdGenerator, HubEventType, generate_id, make_event_key}
use hypersnap.Database.{Database, Batch, bytes_eq, get_from_db_or_txn, put}
use hypersnap.Database.Laws.{get-put, bytes_eq_refl}
use hypersnap.Store.Types.{
  Store, Transaction, HubEvent, merge_message_body, Protobuf, merge_event_args,
}
use hypersnap.Store.Codec.{
  Decodes, message_encode, message_decode-message_encode, get_message_with_prefix,
}
use hypersnap.Store.Conflicts.{user_prefix}
use hypersnap.Store.Writes.{commit_transaction}
use hypersnap.Store.Merge.{merge_add, get_add, save_event}
use hypersnap.Link.{link_store}
use hypersnap.Link.Keys.{
  links, IsLink, slot_key, compact_key, stamp, primary_key, add_key_eq, target_index_key, written,
  put_add_eq, get_merge_conflicts_eq, compact_state_check_eq, event_apart, index_apart, set_apart,
}
use hypersnap.Store.Merge.Accepted.{no_conflicts, merge_add_steps}

pub generate_ok :
    (g : HubEventIdGenerator) (type : HubEventType)
    → g.current_height < 2 ^ 50
    → g.current_seq < 2 ^ 14
    → (id : ℕ) × (g' : HubEventIdGenerator) × (generate_id g type ≡ (ok id, g'))
unfolding generate_id
generate_ok g type hh hs = go (generate_id g type) refl
  where
    go :
        (r : Result Error ℕ × HubEventIdGenerator)
        → generate_id g type ≡ r
        → (id : ℕ) × (g' : HubEventIdGenerator) × (generate_id g type ≡ (ok id, g'))
    go (ok id, g') e = (id, g', e)
    go (err x, g') e = absurd (ground arith)

module _ (m : Message) (ctx : StateContext) (fid timestamp : ℕ) (type : Bytes) (target : ℕ)
    (link : IsLink m fid timestamp type target 5) (db : Database) (protobuf : Protobuf)
    (no_persist : Bool) where
  abbrev pub with_event : Batch → ℕ → HubEvent → Batch
  with_event txn id event =
      if no_persist then txn else put txn (make_event_key id) (protobuf.encode_event event)

  abbrev pub merged_event : ℕ → HubEvent
  merged_event id = record {
    type = merge_message;
    body = merge_message_body m [];
    id = id;
    block_number = 0;
    shard_index = 0;
    timestamp = 0;
  }

  pub get-with_event :
      (txn : Batch) (id : ℕ) (event : HubEvent) (k : Bytes)
      → get_from_db_or_txn db (with_event txn id event) (root_prefix ctx user ∷ k)
        ≡ get_from_db_or_txn db txn (root_prefix ctx user ∷ k)
  get-with_event txn id event k = elim (Bool-cases no_persist) [
    | inl off ↦ rw off
    | inr on ↦ rw (on, get-put, event_apart) refl
  ]

  pub get_index :
      (txn : Batch)
      → get_from_db_or_txn db
          (written m ctx fid timestamp type target 5 link protobuf txn)
          (slot_key (postfix_u8 link_adds) ctx fid type target)
        ≡ some (stamp timestamp m)
  unfolding make_user_key_with_prefix
  get_index txn = simp (get-put, index_apart, bytes_eq_refl)

  index_vs_primary :
      bytes_eq
        (target_index_key m ctx fid timestamp type target 5 link)
        (primary_key ctx fid timestamp m)
      ≡ false
  unfolding make_message_primary_key_with_prefix
  index_vs_primary = index_apart ctx _ _

  slot_vs_primary :
      bytes_eq
        (slot_key (postfix_u8 link_adds) ctx fid type target)
        (primary_key ctx fid timestamp m)
      ≡ false
  unfolding make_message_primary_key_with_prefix
  slot_vs_primary =
      set_apart (root_prefix ctx user) fid (postfix_u8 link_adds) (postfix_u8 link_message) _ _ refl

  pub get_primary :
      (txn : Batch)
      → get_from_db_or_txn db
          (written m ctx fid timestamp type target 5 link protobuf txn)
          (primary_key ctx fid timestamp m)
        ≡ some (message_encode protobuf m)
  get_primary txn = simp (get-put, index_vs_primary, slot_vs_primary, bytes_eq_refl)

  length-stamp : length (stamp timestamp m) ≡ ts_hash_length
  unfolding be_bytes_4
  length-stamp = omega (arith, link.hashed)

  abbrev pub store : Store
  store = links db protobuf ctx no_persist

  pub stored_message :
      (txn : Batch)
      → get_from_db_or_txn db txn (primary_key ctx fid timestamp m)
        ≡ some (message_encode protobuf m)
      → Decodes protobuf m
      → get_message_with_prefix protobuf db txn
          (root_prefix ctx user)
          fid
          (postfix_u8 link_message)
          (stamp timestamp m)
        ≡ ok (some m)
  unfolding get_message_with_prefix
  stored_message txn h law = ground (arith, h, message_decode-message_encode protobuf m law)

  pub get_add_eq :
      (txn : Batch)
      → get_from_db_or_txn db txn (slot_key (postfix_u8 link_adds) ctx fid type target)
        ≡ some (stamp timestamp m)
      → get_from_db_or_txn db txn (primary_key ctx fid timestamp m)
        ≡ some (message_encode protobuf m)
      → Decodes protobuf m
      → get_add store txn m ≡ ok (some m)
  unfolding get_add user_prefix link_store vec_to_u8_24
  get_add_eq txn hi hp law = ground (
    arith,
    link.content,
    link.owned,
    add_key_eq m ctx fid timestamp type target 5 link,
    hi,
    length-stamp,
    stored_message txn hp law,
  )

  save_event_eq :
      (t : Transaction) (id : ℕ) (g' : HubEventIdGenerator)
      → generate_id t.generator merge_message ≡ (ok id, g')
      → save_event store (merge_event_args m []) t ≡ (
        ok (merged_event id),
        record { batch = with_event t.batch id (merged_event id); generator = g' },
      )
  unfolding save_event commit_transaction merge_event_args
  save_event_eq t id g' h = ground (arith, h)

  -- The transaction after the merge, with the generator that has given the id.
  abbrev pub merged : Transaction → ℕ → HubEventIdGenerator → Transaction
  merged t id g' = record {
    batch =
        with_event (written m ctx fid timestamp type target 5 link protobuf t.batch) id
          (merged_event id);
    generator = g';
  }

  pub merge_add_eq :
      (t : Transaction) (id : ℕ) (g' : HubEventIdGenerator)
      → generate_id t.generator merge_message ≡ (ok id, g')
      → get_from_db_or_txn db t.batch (slot_key (postfix_u8 link_adds) ctx fid type target) ≡ none
      → get_from_db_or_txn db t.batch (slot_key (postfix_u8 link_removes) ctx fid type target)
        ≡ none
      → get_from_db_or_txn db t.batch (compact_key ctx fid type) ≡ none
      → merge_add store (stamp timestamp m) m t ≡ (ok (merged_event id), merged t id g')
  merge_add_eq t id g' made no_add no_remove no_compact =
      let txn = written m ctx fid timestamp type target 5 link protobuf t.batch in
      merge_add_steps store m (stamp timestamp m) [] (merged_event id) t t
        (record t { batch = txn }) (merged t id g')
        (compact_state_check_eq m ctx fid timestamp type target 5 link db protobuf no_persist t
          no_compact)
        (no_conflicts store m (stamp timestamp m) t (
          get_merge_conflicts_eq m ctx fid timestamp type target 5 link db protobuf no_persist t
            no_add no_remove))
        (put_add_eq m ctx fid timestamp type target 5 link db protobuf no_persist t refl)
        (save_event_eq (record t { batch = txn }) id g' made)

  pub merged_slot :
      (t : Transaction) (id : ℕ) (g' : HubEventIdGenerator)
      → get_from_db_or_txn db
          (merged t id g').batch
          (slot_key (postfix_u8 link_adds) ctx fid type target)
        ≡ some (stamp timestamp m)
  unfolding make_user_key_with_prefix
  merged_slot t id g' =
      get-with_event (written m ctx fid timestamp type target 5 link protobuf t.batch) id
        (merged_event id) _
      ∙ get_index t.batch

  -- A well-formed link add merged into an empty slot (no add, no remove, no compact state), with
  -- room for an event id, is accepted with no deleted messages, and `get_add` then returns it.
  pub merge_add_fresh :
      (t : Transaction)
      → t.generator.current_height < 2 ^ 50
      → t.generator.current_seq < 2 ^ 14
      → Decodes protobuf m
      → get_from_db_or_txn db t.batch (slot_key (postfix_u8 link_adds) ctx fid type target) ≡ none
      → get_from_db_or_txn db t.batch (slot_key (postfix_u8 link_removes) ctx fid type target)
        ≡ none
      → get_from_db_or_txn db t.batch (compact_key ctx fid type) ≡ none
      → (event : HubEvent) × (t' : Transaction) × (merge_add store (stamp timestamp m) m t
          ≡ (ok event, t'))
        × (event.body ≡ merge_message_body m [])
        × (get_add store t'.batch m ≡ ok (some m))
  merge_add_fresh t hh hs law no_add no_remove no_compact =
      let (id, g', made) = generate_ok t.generator merge_message hh hs in
      let txn = written m ctx fid timestamp type target 5 link protobuf t.batch in
      (
        merged_event id,
        merged t id g',
        merge_add_eq t id g' made no_add no_remove no_compact,
        refl,
        get_add_eq (merged t id g').batch (merged_slot t id g')
            (unfold make_message_primary_key_with_prefix in
              get-with_event txn id (merged_event id) _ ∙ get_primary t.batch)
            law,
      )
