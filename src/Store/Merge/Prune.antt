-- ===== src/Store/Merge/Prune.antt =====
-- `prune_message`, `prune_messages` and `revoke_messages_by_signer` of
-- src/storage/store/account/store.rs.
pub mod Deleted
pub mod Gone
pub mod Picked
use hypersnap.Shared.{
  ℕ, zero, suc, ◌-◌, Bool, true, false, ◌&&◌, ◌||◌, not, List, [], ◌∷◌, ◌++◌, Option, none, some,
  Result, ok, err, Error, hub, unwrap, leb, Ordering, if◌then◌else◌,
}
use hypersnap.Bytes.{Bytes, bytes_compare}
use hypersnap.Proto.{Message}
use hypersnap.Keys.{make_ts_hash}
use hypersnap.Keys.Prefix.{allows_pruning}
use hypersnap.Store.Types.{
  Exec, Transaction, Store, HubEvent, pure, lift, continue, ◌>>=◌, ◌>>◌, remove_type_supported,
  compact_state_type_supported, prune_event_args,
}
use hypersnap.Store.Codec.{message_decode}
use hypersnap.Store.Writes.{commit_transaction, delete_add_transaction, delete_remove_transaction}
use hypersnap.Store.Merge.{revoke}
use hypersnap.Store.Merge.Compact.{entries_of}

-- `bytes_compare(a, b) == 0`
abbrev is_same : Ordering → Bool
is_same Ordering.eq = true
is_same _ = false

module _ (s : Store) where
  -- A compact state message, which is not pruned.
  unfoldable pub is_compact_state : Message → Bool
  is_compact_state message =
      compact_state_type_supported s.store_def && s.store_def.is_compact_state_type message

  unfoldable pub delete_pruned : Message → Exec (Unit {0})
  delete_pruned message =
      if s.store_def.is_add_type message
      then (do
        d ← lift (unwrap message.message_data)
        ts_hash ← lift (make_ts_hash d.timestamp message.hash)
        delete_add_transaction s ts_hash message)
      else if remove_type_supported s.store_def && s.store_def.is_remove_type message
      then delete_remove_transaction s message
      else pure tt

  unfoldable pub prune_message : Message → Exec (Option HubEvent)
  unfolding is_compact_state
  prune_message message = if is_compact_state message then pure none else (do
    delete_pruned message
    event ← commit_transaction s (prune_event_args message)
    pure (some event))

  abbrev pub count_event : Option HubEvent → List HubEvent → List HubEvent
  count_event none events = events
  count_event (some event) events = event ∷ events

  abbrev pub counted_down : ℕ → Option HubEvent → ℕ
  counted_down count none = count
  counted_down count (some event) = count - 1

  -- The scan of `prune_messages`: it ends once the count is down to the maximum.
  unfoldable pub prune_entries : List (Bytes × Bytes) → ℕ → ℕ → Exec (List HubEvent)
  prune_entries [] count max_count = pure []
  prune_entries ((key, value) ∷ entries) count max_count =
      if leb count max_count then pure [] else (do
        message ← lift (message_decode s.protobuf value)
        pruned ← prune_message message
        events ← prune_entries entries (counted_down count pruned) max_count
        pure (count_event pruned events))

  unfoldable pub prune_messages : ℕ → ℕ → ℕ → Exec (List HubEvent)
  unfolding allows_pruning entries_of
  prune_messages fid current_count max_count =
      if not (allows_pruning s.state_context)
      then pure []
      else if leb current_count max_count
      then pure []
      else prune_entries (entries_of s fid) current_count max_count

  -- An error in a revocation is logged, and the message passed over; what it wrote stays.
  abbrev pub skip_errors : Exec HubEvent → Exec (List HubEvent)
  skip_errors m t = let (r, t') = m t in (ok (elim r [ ok event ↦ event ∷ [] | err e ↦ [] ]), t')

  unfoldable pub revoke_entries : Bytes → List (Bytes × Bytes) → Exec (List HubEvent)
  unfolding bytes_compare
  revoke_entries signer [] = pure []
  revoke_entries signer ((key, value) ∷ entries) = do
    message ← lift (message_decode s.protobuf value)
    revoked ←
        (if is_same (bytes_compare message.signer signer)
          then skip_errors (revoke s message)
          else pure [])
    events ← revoke_entries signer entries
    pure (revoked ++ events)

  unfoldable pub revoke_messages_by_signer : ℕ → Bytes → Exec (List HubEvent)
  unfolding revoke_entries entries_of
  revoke_messages_by_signer fid signer = revoke_entries signer (entries_of s fid)
