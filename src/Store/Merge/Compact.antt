-- ===== src/Store/Merge/Compact.antt =====
-- `Store::merge_compact_state` and `Store::merge` of src/storage/store/account/store.rs. A compact state
-- message names the targets that its sender still links to, and takes the place of the older links.
pub mod Scan
use hypersnap.Shared.{
  ℕ, Bool, true, false, ◌&&◌, ◌||◌, not, List, [], ◌∷◌, ◌++◌, Option, none, some, Result, ok, err,
  Error, hub, unwrap, ltb, if◌then◌else◌,
}
use hypersnap.Bytes.{Bytes, increment_vec_u8}
use hypersnap.Proto.{Message, MessageData}
use hypersnap.Keys.{make_ts_hash, make_message_primary_key_with_prefix}
use hypersnap.Database.{get_from_db_or_txn}
use hypersnap.Store.Types.{
  Exec, Transaction, Store, HubEvent, fail, lift, continue, ◌>>=◌, ◌>>◌, remove_type_supported,
  compact_state_type_supported, merge_event_args,
}
use hypersnap.Store.Codec.{message_decode}
use hypersnap.Store.Conflicts.{user_prefix}
use hypersnap.Store.Writes.{
  commit_transaction, delete_many_transaction, put_add_compact_state_transaction,
}
use hypersnap.Store.Merge.{
  contains, link_target, read_compact_state_details, merge_add, merge_remove,
}

abbrev pub timestamp_of : Message → Result Error ℕ
timestamp_of message = elim message.message_data [
  | none ↦ err Error.panic
  | some d ↦ ok d.timestamp
]

-- The entries under a prefix, in the order of their keys, as `for_each_iterator_by_prefix` visits them.
-- They are the database's: what the transaction has written is not among them.
unfoldable pub entries_of : Store → ℕ → List (Bytes × Bytes)
entries_of s fid =
    let prefix =
      make_message_primary_key_with_prefix (user_prefix s) fid s.store_def.postfix none in
    s.db.scan prefix (increment_vec_u8 prefix)

module _ (s : Store) where
  -- The compact state message that the new one replaces; one that does not decode is passed over.
  unfoldable pub replaced_compact_state : Message → Option Bytes → Result Error (List Message)
  replaced_compact_state message none = ok []
  replaced_compact_state message (some bytes) =
      if s.store_opts.conflict_free then ok [] else elim (message_decode s.protobuf bytes) [
        | err e ↦ ok []
        | ok existing ↦ elim (timestamp_of existing) [
          | err e ↦ err e
          | ok before ↦ elim (timestamp_of message) [
            | err e ↦ err e
            | ok now ↦
                if ltb before now
                then ok (existing ∷ [])
                else err
                    (hub "bad_request.conflict" "A newer Compact State message is already merged")
          ]
        ]
      ]

  -- Whether the compact state takes the place of the message: a remove, or an add aimed elsewhere.
  unfoldable pub is_superseded : List ℕ → Message → Bool
  unfolding link_target contains
  is_superseded target_fids message =
      if s.store_def.is_remove_type message
      then true
      else if s.store_def.is_add_type message
      then elim message.message_data [
        | none ↦ false
        | some d ↦ elim (link_target d) [
          | none ↦ false
          | some target_fid ↦ not (contains target_fids target_fid)
        ]
      ]
      else false

  -- The scan over the messages of the fid. It ends at the first that is later than the compact state.
  unfoldable pub superseded : ℕ → List ℕ → List (Bytes × Bytes) → Result Error (List Message)
  unfolding is_superseded
  superseded timestamp target_fids [] = ok []
  superseded timestamp target_fids ((key, value) ∷ entries) =
      let rest = superseded timestamp target_fids entries in
      elim (message_decode s.protobuf value) [
        | err e ↦ err e
        | ok message ↦ elim (timestamp_of message) [
          | err e ↦ err e
          | ok time ↦ if ltb timestamp time then ok [] else elim rest [
            | err e ↦ err e
            | ok messages ↦
                ok (if is_superseded target_fids message then message ∷ messages else messages)
          ]
        ]
      ]

  unfoldable pub merge_compact_state : Message → Exec HubEvent
  unfolding replaced_compact_state superseded entries_of read_compact_state_details
  merge_compact_state message t =
      (do
        compact_state_key ← lift (s.store_def.make_compact_state_add_key message s.state_context)
        replaced ←
            lift
              (replaced_compact_state message (get_from_db_or_txn s.db t.batch compact_state_key))
        (fid, timestamp, target_fids) ← lift (read_compact_state_details message)
        older ← lift (superseded timestamp target_fids (entries_of s fid))
        delete_many_transaction s (replaced ++ older)
        put_add_compact_state_transaction s message
        commit_transaction s (merge_event_args message (replaced ++ older)))
        t

  -- The message is of one of the types that the store keeps.
  unfoldable pub is_kept_type : Message → Bool
  is_kept_type message =
      s.store_def.is_add_type message
      || remove_type_supported s.store_def && s.store_def.is_remove_type message
      || compact_state_type_supported s.store_def && s.store_def.is_compact_state_type message

  unfoldable pub merge : Message → Exec HubEvent
  unfolding is_kept_type
  merge message =
      if is_kept_type message
      then (do
        d ← lift (unwrap message.message_data)
        ts_hash ← lift (make_ts_hash d.timestamp message.hash)
        if s.store_def.is_compact_state_type message
            then merge_compact_state message
            else if s.store_def.is_add_type message
            then merge_add s ts_hash message
            else merge_remove s ts_hash message)
      else fail (hub "bad_request.validation_failure" "invalid message type")
