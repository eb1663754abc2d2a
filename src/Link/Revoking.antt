-- ===== src/Link/Revoking.antt =====
-- A link add revoked, as when its signer is removed.
use hypersnap.Shared.{ℕ, ◌^◌, ◌<◌, ◌≡◌, refl, Bool, none, ok, arith, ◌∙◌}
use hypersnap.Bytes.{Bytes}
use hypersnap.Proto.{Message}
use hypersnap.Keys.{make_user_key_with_prefix, make_message_primary_key_with_prefix}
use hypersnap.Keys.RoundTrip.{make_ts_hash-eq-ok}
use hypersnap.Keys.Prefix.{StateContext, root_prefix, user, postfix_u8, link_adds, link_message}
use hypersnap.Events.{revoke_message, HubEventIdGenerator, generate_id}
use hypersnap.Database.{Database, Batch, delete, get_from_db_or_txn}
use hypersnap.Database.Laws.{get-delete, bytes_eq_refl}
use hypersnap.Store.Types.{
  Transaction, HubEvent, Protobuf, Store, revoke_message_body, revoke_event_args,
}
use hypersnap.Store.Codec.{delete_message_transaction_with_prefix, get_message_with_prefix}
use hypersnap.Store.Conflicts.{user_prefix}
use hypersnap.Store.Writes.{delete_add_transaction, commit_transaction}
use hypersnap.Store.Merge.{revoke, get_add}
use hypersnap.Link.{link_store, is_signed_type, delete_secondary_indices}
use hypersnap.Link.Keys.{
  IsLink, slot_key, stamp, primary_key, links, add_key_eq, index_key_eq, message_key_eq,
  target_index_key,
}
use hypersnap.Link.Merging.{generate_ok, with_event, get-with_event}

module _ (m : Message) (ctx : StateContext) (fid timestamp : ℕ) (type : Bytes) (target : ℕ)
    (link : IsLink m fid timestamp type target 5) (db : Database) (protobuf : Protobuf)
    (no_persist : Bool) where
  abbrev store : Store
  store = links db protobuf ctx no_persist

  -- The three entries deleted.
  abbrev pub removed : Batch → Batch
  removed txn =
      delete
        (delete (delete txn (target_index_key m ctx fid timestamp type target 5 link))
          (slot_key (postfix_u8 link_adds) ctx fid type target))
        (primary_key ctx fid timestamp m)

  pub delete_add_eq :
      (t : Transaction)
      → delete_add_transaction store (stamp timestamp m) m t
        ≡ (ok tt, record t { batch = removed t.batch })
  unfolding delete_add_transaction delete_message_transaction_with_prefix user_prefix link_store
      delete_secondary_indices
  delete_add_eq t = ground (
    arith,
    message_key_eq m ctx fid timestamp type target 5 link protobuf refl,
    add_key_eq m ctx fid timestamp type target 5 link,
    index_key_eq m ctx fid timestamp type target 5 link,
  )

  abbrev revoked_event : ℕ → HubEvent
  revoked_event id = record {
    type = revoke_message;
    body = revoke_message_body m;
    id = id;
    block_number = 0;
    shard_index = 0;
    timestamp = 0;
  }

  abbrev after : Transaction → ℕ → HubEventIdGenerator → Transaction
  after t id g' = record {
    batch =
        with_event m ctx fid timestamp type target link db protobuf no_persist (removed t.batch) id
          (revoked_event id);
    generator = g';
  }

  commit_eq :
      (t : Transaction) (id : ℕ) (g' : HubEventIdGenerator)
      → generate_id t.generator revoke_message ≡ (ok id, g')
      → commit_transaction store (revoke_event_args m) (record t { batch = removed t.batch })
        ≡ (ok (revoked_event id), after t id g')
  unfolding commit_transaction revoke_event_args
  commit_eq t id g' made = ground (arith, made)

  revoke_eq :
      (t : Transaction) (id : ℕ) (g' : HubEventIdGenerator)
      → generate_id t.generator revoke_message ≡ (ok id, g')
      → revoke store m t ≡ (ok (revoked_event id), after t id g')
  unfolding revoke link_store is_signed_type
  revoke_eq t id g' made = ground (
    arith,
    link.content,
    link.signed,
    make_ts_hash-eq-ok timestamp m.hash link.hashed,
    delete_add_eq t,
    commit_eq t id g' made,
  )

  slot_gone :
      (t : Transaction) (id : ℕ) (g' : HubEventIdGenerator)
      → get_from_db_or_txn db
          (after t id g').batch
          (slot_key (postfix_u8 link_adds) ctx fid type target)
        ≡ none
  unfolding make_user_key_with_prefix
  slot_gone t id g' =
      get-with_event m ctx fid timestamp type target link db protobuf no_persist (removed t.batch)
        id (revoked_event id) _
      ∙ ground (
        arith,
        get-delete db
            (delete (delete t.batch (target_index_key m ctx fid timestamp type target 5 link))
              (slot_key (postfix_u8 link_adds) ctx fid type target))
            (primary_key ctx fid timestamp m) (slot_key (postfix_u8 link_adds) ctx fid type target),
        get-delete db (delete t.batch (target_index_key m ctx fid timestamp type target 5 link))
            (slot_key (postfix_u8 link_adds) ctx fid type target)
            (slot_key (postfix_u8 link_adds) ctx fid type target),
        bytes_eq_refl (slot_key (postfix_u8 link_adds) ctx fid type target),
      )

  message_gone :
      (t : Transaction) (id : ℕ) (g' : HubEventIdGenerator)
      → get_from_db_or_txn db (after t id g').batch (primary_key ctx fid timestamp m) ≡ none
  unfolding make_message_primary_key_with_prefix
  message_gone t id g' =
      get-with_event m ctx fid timestamp type target link db protobuf no_persist (removed t.batch)
        id (revoked_event id) _
      ∙ ground (
        arith,
        get-delete db
            (delete (delete t.batch (target_index_key m ctx fid timestamp type target 5 link))
              (slot_key (postfix_u8 link_adds) ctx fid type target))
            (primary_key ctx fid timestamp m) (primary_key ctx fid timestamp m),
        bytes_eq_refl (primary_key ctx fid timestamp m),
      )

  get_add_gone :
      (txn : Batch)
      → get_from_db_or_txn db txn (slot_key (postfix_u8 link_adds) ctx fid type target) ≡ none
      → get_add store txn m ≡ ok none
  unfolding get_add link_store
  get_add_gone txn h =
      ground (arith, link.content, link.owned, add_key_eq m ctx fid timestamp type target 5 link, h)

  get_message_gone :
      (txn : Batch)
      → get_from_db_or_txn db txn (primary_key ctx fid timestamp m) ≡ none
      → get_message_with_prefix protobuf db txn
          (root_prefix ctx user)
          fid
          (postfix_u8 link_message)
          (stamp timestamp m)
        ≡ ok none
  unfolding get_message_with_prefix
  get_message_gone txn h = ground (arith, h)

  -- A well-formed link add is revoked whatever the transaction holds, with room for an event id:
  -- the revocation succeeds with an event for the message, and then neither `get_add` nor a read of
  -- the message under its key finds it.
  pub revoke_add :
      (t : Transaction)
      → t.generator.current_height < 2 ^ 50
      → t.generator.current_seq < 2 ^ 14
      → (event : HubEvent) × (t' : Transaction) × (revoke store m t ≡ (ok event, t'))
        × (event.body ≡ revoke_message_body m)
        × (get_add store t'.batch m ≡ ok none)
        × (get_message_with_prefix protobuf db t'.batch
              (root_prefix ctx user)
              fid
              (postfix_u8 link_message)
              (stamp timestamp m)
            ≡ ok none)
  revoke_add t hh hs =
      let (id, g', made) = generate_ok t.generator revoke_message hh hs in
      (
        revoked_event id,
        after t id g',
        revoke_eq t id g' made,
        refl,
        get_add_gone (after t id g').batch (slot_gone t id g'),
        get_message_gone (after t id g').batch (message_gone t id g'),
      )
