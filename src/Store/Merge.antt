-- ===== src/Store/Merge.antt =====
-- The operations of src/storage/store/account/store.rs: reading a set, merging, revoking, pruning.
pub mod Compact
pub mod Prune
pub mod Refusals
pub mod Accepted
use hypersnap.Shared.{
  ℕ, Bool, true, false, ◌&&◌, ◌||◌, not, List, [], ◌∷◌, Option, none, some, Result, ok, err, Error,
  hub, unwrap, ltb, ◌==◌, if◌then◌else◌,
}
use hypersnap.Bytes.{Bytes, vec_to_u8_24}
use hypersnap.Proto.{Message, MessageData, Body, link_body, link_compact_state_body}
use hypersnap.Keys.{make_ts_hash}
use hypersnap.Database.{Batch, get_from_db_or_txn}
use hypersnap.Store.Types.{
  Exec, Transaction, Store, HubEvent, pure, fail, lift, continue, ◌>>=◌, ◌>>◌,
  remove_type_supported, compact_state_type_supported, merge_event_args, revoke_event_args,
}
use hypersnap.Store.Codec.{message_decode, get_message_with_prefix}
use hypersnap.Store.Conflicts.{user_prefix, get_merge_conflicts}
use hypersnap.Store.Writes.{
  commit_transaction, put_add_transaction, put_remove_transaction, delete_add_transaction,
  delete_compact_state_transaction, delete_remove_transaction, delete_many_transaction,
  remove_not_supported,
}

-- `vec.contains(&x)`
unfoldable pub contains : List ℕ → ℕ → Bool
contains [] x = false
contains (y ∷ ys) x = y == x || contains ys x

-- The fid of the message's data is there and not 0.
abbrev has_fid : Option MessageData → Bool
has_fid none = false
has_fid (some d) = not (d.fid == 0)

abbrev invalid_type : Error
invalid_type = hub "bad_request.validation_failure" "invalid message type"

unfoldable pub read_compact_state_details : Message → Result Error (ℕ × ℕ × List ℕ)
read_compact_state_details message = elim message.message_data [
  | none ↦ err (hub "bad_request.validation_failure" "Invalid compact state message: no data")
  | some d ↦ elim d.body [
    | some (link_compact_state_body body) ↦ ok (d.fid, d.timestamp, body.target_fids)
    | _ ↦ err (
        hub "bad_request.validation_failure"
          "Invalid compact state message: No link compact state body")
  ]
]

-- The fid that a link message points to, if the message is one.
unfoldable pub link_target : MessageData → Option ℕ
link_target d = elim d.body [ some (link_body body) ↦ body.target_fid | _ ↦ none ]

-- The test of `merge_add` against the compact state: older than it, and aimed at a fid outside it.
abbrev pub outside_compact_state : MessageData → ℕ → List ℕ → Bool
outside_compact_state d timestamp target_fids = elim (link_target d) [
  | none ↦ false
  | some target_fid ↦ ltb d.timestamp timestamp && not (contains target_fids target_fid)
]

module _ (s : Store) where
  -- The message that a set index names.
  unfoldable pub indexed_message : Batch → Message → Bytes → Result Error (Option Message)
  indexed_message txn partial_message key = elim (get_from_db_or_txn s.db txn key) [
    | none ↦ ok none
    | some ts_hash ↦ elim partial_message.message_data [
      | none ↦ err Error.panic
      | some d ↦ elim (vec_to_u8_24 (some ts_hash)) [
        | err e ↦ err e
        | ok h ↦
            get_message_with_prefix s.protobuf s.db txn (user_prefix s) d.fid s.store_def.postfix h
      ]
    ]
  ]

  unfoldable pub get_add : Batch → Message → Result Error (Option Message)
  unfolding indexed_message
  get_add txn partial_message =
      if has_fid partial_message.message_data
      then elim (s.store_def.make_add_key partial_message s.state_context) [
        | err e ↦ err e
        | ok key ↦ indexed_message txn partial_message key
      ]
      else err (hub "bad_request.invalid_param" "fid is required")

  -- A read without a transaction: the batch is empty.
  unfoldable pub get_remove : Message → Result Error (Option Message)
  unfolding indexed_message
  get_remove partial_message =
      if remove_type_supported s.store_def
      then (if has_fid partial_message.message_data
          then elim (s.store_def.make_remove_key partial_message s.state_context) [
            | err e ↦ err e
            | ok key ↦ indexed_message [] partial_message key
          ]
          else err (hub "bad_request.invalid_param" "fid is required"))
      else err remove_not_supported

  -- The compact state message that stands for the message's set, if the store keeps such messages.
  unfoldable pub compact_state_check :
      Message → (Message → Result Error (Unit {0})) → Exec (Unit {0})
  compact_state_check message check t =
      if compact_state_type_supported s.store_def && not s.store_opts.conflict_free
      then elim (s.store_def.make_compact_state_add_key message s.state_context) [
        | err e ↦ (err e, t)
        | ok key ↦ elim (get_from_db_or_txn s.db t.batch key) [
          | none ↦ (ok tt, t)
          | some bytes ↦ elim (message_decode s.protobuf bytes) [
            | err e ↦ (err e, t)
            | ok compact_state_message ↦ (check compact_state_message, t)
          ]
        ]
      ]
      else (ok tt, t)

  unfoldable pub check_add : Message → Message → Result Error (Unit {0})
  unfolding read_compact_state_details link_target contains
  check_add message compact_state_message =
      elim (read_compact_state_details compact_state_message) [
        | err e ↦ err e
        | ok (fid, timestamp, target_fids) ↦ elim message.message_data [
          | none ↦ err Error.panic
          | some d ↦
              if outside_compact_state d timestamp target_fids
              then err
                  (hub "bad_request.conflict" "Target fid not in the compact state target fids")
              else ok tt
        ]
      ]

  unfoldable pub check_remove : Message → Message → Result Error (Unit {0})
  unfolding read_compact_state_details
  check_remove message compact_state_message =
      elim (read_compact_state_details compact_state_message) [
        | err e ↦ err e
        | ok (fid, timestamp, target_fids) ↦ elim message.message_data [
          | none ↦ err Error.panic
          | some d ↦
              if ltb d.timestamp timestamp
              then err (
                  hub "bad_request.prunable"
                    "Remove message earlier than the compact state message will be immediately pruned")
              else ok tt
        ]
      ]

  -- The conflicts, deleted; none are looked for in a conflict-free store.
  unfoldable pub clear_conflicts : Message → Bytes → Exec (List Message)
  clear_conflicts message ts_hash = if s.store_opts.conflict_free then pure [] else λ t.
      (do
        merge_conflicts ← lift (get_merge_conflicts s t.batch message ts_hash)
        delete_many_transaction s merge_conflicts
        pure merge_conflicts)
        t

  unfoldable pub save_event : HubEvent → Exec HubEvent
  save_event hub_event =
      if s.store_opts.save_hub_events then commit_transaction s hub_event else pure hub_event

  unfoldable pub merge_add : Bytes → Message → Exec HubEvent
  unfolding compact_state_check clear_conflicts save_event
  merge_add ts_hash message = do
    compact_state_check message (check_add message)
    merge_conflicts ← clear_conflicts message ts_hash
    put_add_transaction s ts_hash message
    save_event (merge_event_args message merge_conflicts)

  unfoldable pub merge_remove : Bytes → Message → Exec HubEvent
  unfolding compact_state_check clear_conflicts save_event
  merge_remove ts_hash message = do
    compact_state_check message (check_remove message)
    merge_conflicts ← clear_conflicts message ts_hash
    put_remove_transaction s ts_hash message
    save_event (merge_event_args message merge_conflicts)

  unfoldable pub revoke : Message → Exec HubEvent
  revoke message = do
    d ← lift (unwrap message.message_data)
    ts_hash ← lift (make_ts_hash d.timestamp message.hash)
    if s.store_def.is_compact_state_type message
        then delete_compact_state_transaction s message
        else if s.store_def.is_add_type message
        then delete_add_transaction s ts_hash message
        else if remove_type_supported s.store_def && s.store_def.is_remove_type message
        then delete_remove_transaction s message
        else fail (hub "bad_request.invalid_param" "invalid message type")
    commit_transaction s (revoke_event_args message)
