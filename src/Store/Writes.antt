-- ===== src/Store/Writes.antt =====
-- The transaction helpers of src/storage/store/account/store.rs and the event handler of
-- src/storage/store/account/event.rs.
use hypersnap.Shared.{◌&&◌, List, [], ◌∷◌, Result, ok, err, Error, hub, unwrap, if◌then◌else◌}
use hypersnap.Bytes.{Bytes}
use hypersnap.Proto.{Message}
use hypersnap.Keys.{make_ts_hash}
use hypersnap.Events.{generate_id, make_event_key}
use hypersnap.Database.{Batch, put, delete}
use hypersnap.Store.Types.{
  Exec, Store, HubEvent, pure, fail, lift, modify, ◌>>=◌, ◌>>◌, remove_type_supported,
  compact_state_type_supported,
}
use hypersnap.Store.Codec.{
  message_encode, put_message_transaction_with_prefix, delete_message_transaction_with_prefix,
}
use hypersnap.Store.Conflicts.{user_prefix}

-- A write to the batch that may fail before it writes.
abbrev pub try_modify : (Batch → Result Error Batch) → Exec (Unit {0})
try_modify f t = elim (f t.batch) [
  | ok batch ↦ (ok tt, record t { batch = batch })
  | err e ↦ (err e, t)
]

abbrev pub remove_not_supported : Error
remove_not_supported = hub "bad_request.validation_failure" "remove type not supported"

abbrev pub compact_state_not_supported : Error
compact_state_not_supported =
    hub "bad_request.validation_failure" "compact state type not supported"

-- `StoreEventHandler::commit_transaction`: the event with its id, persisted unless `no_persist`.
unfoldable pub commit_transaction : Store → HubEvent → Exec HubEvent
commit_transaction s raw_event t =
    let (r, generator) = generate_id t.generator raw_event.type in
    elim r [
      | err e ↦ (err e, record t { generator = generator })
      | ok id ↦
          let event : HubEvent = record raw_event { id = id } in
          (
            ok event,
            record {
              batch =
                  if s.no_persist
                  then t.batch
                  else put t.batch (make_event_key id) (s.protobuf.encode_event event);
              generator = generator;
            },
          )
    ]

module _ (s : Store) where
  unfoldable pub put_add_compact_state_transaction : Message → Exec (Unit {0})
  put_add_compact_state_transaction message =
      if compact_state_type_supported s.store_def
      then (do
        compact_state_key ← lift (s.store_def.make_compact_state_add_key message s.state_context)
        modify (λ txn. put txn compact_state_key (message_encode s.protobuf message)))
      else fail compact_state_not_supported

  unfoldable pub put_add_transaction : Bytes → Message → Exec (Unit {0})
  put_add_transaction ts_hash message = do
    try_modify (λ txn. put_message_transaction_with_prefix s.protobuf txn message (user_prefix s))
    adds_key ← lift (s.store_def.make_add_key message s.state_context)
    modify (λ txn. put txn adds_key ts_hash)
    s.store_def.build_secondary_indices ts_hash message s.state_context

  unfoldable pub delete_compact_state_transaction : Message → Exec (Unit {0})
  delete_compact_state_transaction message =
      if compact_state_type_supported s.store_def
      then (do
        compact_state_key ← lift (s.store_def.make_compact_state_add_key message s.state_context)
        modify (λ txn. delete txn compact_state_key))
      else fail compact_state_not_supported

  unfoldable pub delete_add_transaction : Bytes → Message → Exec (Unit {0})
  delete_add_transaction ts_hash message = do
    s.store_def.delete_secondary_indices ts_hash message s.state_context
    add_key ← lift (s.store_def.make_add_key message s.state_context)
    modify (λ txn. delete txn add_key)
    try_modify
        (λ txn. delete_message_transaction_with_prefix s.protobuf txn message (user_prefix s))

  unfoldable pub put_remove_transaction : Bytes → Message → Exec (Unit {0})
  put_remove_transaction ts_hash message =
      if remove_type_supported s.store_def
      then (do
        try_modify
            (λ txn. put_message_transaction_with_prefix s.protobuf txn message (user_prefix s))
        removes_key ← lift (s.store_def.make_remove_key message s.state_context)
        modify (λ txn. put txn removes_key ts_hash))
      else fail remove_not_supported

  unfoldable pub delete_remove_transaction : Message → Exec (Unit {0})
  delete_remove_transaction message =
      if remove_type_supported s.store_def
      then (do
        remove_key ← lift (s.store_def.make_remove_key message s.state_context)
        modify (λ txn. delete txn remove_key)
        try_modify
            (λ txn. delete_message_transaction_with_prefix s.protobuf txn message (user_prefix s)))
      else fail remove_not_supported

  -- The body of the loop of `delete_many_transaction`.
  unfoldable pub delete_one : Message → Exec (Unit {0})
  unfolding delete_compact_state_transaction delete_add_transaction delete_remove_transaction
  delete_one message = do
    if s.store_def.is_compact_state_type message
        then delete_compact_state_transaction message
        else if s.store_def.is_add_type message
        then (do
          data' ← lift (unwrap message.message_data)
          ts_hash ← lift (make_ts_hash data'.timestamp message.hash)
          delete_add_transaction ts_hash message)
        else pure tt
    if remove_type_supported s.store_def && s.store_def.is_remove_type message
        then delete_remove_transaction message
        else pure tt

  unfoldable pub delete_many_transaction : List Message → Exec (Unit {0})
  unfolding delete_one
  delete_many_transaction [] = pure tt
  delete_many_transaction (message ∷ messages) = do
    delete_one message
    delete_many_transaction messages
