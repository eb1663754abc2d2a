-- ===== src/Store/Merge/Refusals.antt =====
-- What `merge_add` and `merge_remove` of src/storage/store/account/store.rs refuse, and that a
-- refusal leaves the transaction alone.
use hypersnap.Shared.{
  ℕ, ◌%◌, ◌≡◌, ◌≢◌, refl, true, false, List, some, Result, ok, err, Error, Ordering, arith,
}
use hypersnap.Bytes.{Bytes}
use hypersnap.Proto.{Message, MessageData}
use hypersnap.Database.{Batch, get_from_db_or_txn}
use hypersnap.Store.Types.{
  ◌>>◌, merge_event_args, Store, Transaction, remove_type_supported, Exec, ◌>>=◌,
}
use hypersnap.Store.Compare.{store_compare}
use hypersnap.Store.Conflicts.{
  existing_conflict, get_remove_conflicts, get_add_conflicts, get_merge_conflicts, add_conflict,
  remove_conflict, duplicate,
}
use hypersnap.Store.Writes.{put_add_transaction, put_remove_transaction}
use hypersnap.Store.Merge.{
  save_event, merge_add, merge_remove, compact_state_check, clear_conflicts, check_add,
  check_remove,
}

-- The message that stands in the set index under `key`, for the type `type`, is the new message's equal
-- or later than it.
pub record StandsAgainst (s : Store) (txn : Batch) (message : Message) (ts_hash : Bytes) (type : ℕ)
    (key : Bytes) : Type 0 where
  pub content : MessageData
  pub has_data : message.message_data ≡ some content
  pub existing : Bytes
  pub indexed : get_from_db_or_txn s.db txn key ≡ some existing
  pub order : Ordering
  pub compared : store_compare s.store_def type existing (content.type % 256) ts_hash ≡ ok order
  pub not_older : order ≢ Ordering.lt

existing_conflict_refused :
    (s : Store) (txn : Batch) (message : Message) (ts_hash : Bytes) (type : ℕ) (key : Bytes)
    (c : Error)
    → (against : StandsAgainst s txn message ts_hash type key)
    → (e : Error) × (existing_conflict s txn message ts_hash type
          (get_from_db_or_txn s.db txn key)
          c
        ≡ err e)
unfolding existing_conflict
existing_conflict_refused s txn message ts_hash type key c a = go a.order refl
  where
    go :
        (o : Ordering)
        → a.order ≡ o
        → (e : Error) × (existing_conflict s txn message ts_hash type
              (get_from_db_or_txn s.db txn key)
              c
            ≡ err e)
    go Ordering.lt h = absurd (a.not_older h)
    go Ordering.eq h = (duplicate, ground (arith, a.has_data, a.indexed, a.compared))
    go Ordering.gt h = (c, ground (arith, a.has_data, a.indexed, a.compared))

-- Either half that refuses makes the whole refuse.
conflicts_refused_add :
    (s : Store) (txn : Batch) (message : Message) (ts_hash key : Bytes)
    → s.store_def.make_add_key message s.state_context ≡ ok key
    → StandsAgainst s txn message ts_hash s.store_def.add_message_type key
    → (e : Error) × (get_merge_conflicts s txn message ts_hash ≡ err e)
conflicts_refused_add s txn message ts_hash key made a =
    go (get_remove_conflicts s txn message ts_hash) refl
  where
    add : (e : Error) × (get_add_conflicts s txn message ts_hash ≡ err e)
    add =
        let (e, h) =
          existing_conflict_refused s txn message ts_hash s.store_def.add_message_type key
            add_conflict a in
        (e, unfold get_add_conflicts in ground (arith, made, h))

    go :
        (r : Result Error (List Message))
        → get_remove_conflicts s txn message ts_hash ≡ r
        → (e : Error) × (get_merge_conflicts s txn message ts_hash ≡ err e)
    go (ok removes) h = (add.0, unfold get_merge_conflicts in ground (arith, h, add.1))
    go (err e) h = (e, unfold get_merge_conflicts in ground (arith, h))

conflicts_refused_remove :
    (s : Store) (txn : Batch) (message : Message) (ts_hash key : Bytes)
    → remove_type_supported s.store_def ≡ true
    → s.store_def.make_remove_key message s.state_context ≡ ok key
    → StandsAgainst s txn message ts_hash s.store_def.remove_message_type key
    → (e : Error) × (get_merge_conflicts s txn message ts_hash ≡ err e)
conflicts_refused_remove s txn message ts_hash key supported made a =
    let (e, h) =
      existing_conflict_refused s txn message ts_hash s.store_def.remove_message_type key
        remove_conflict a in
    (e, unfold get_merge_conflicts get_remove_conflicts in ground (arith, supported, made, h))

-- The check against the compact state only reads.
compact_state_check_keeps :
    (s : Store) (message : Message) (check : Message → Result Error (Unit {0})) (t : Transaction)
    → (compact_state_check s message check t).1 ≡ t
unfolding compact_state_check
compact_state_check_keeps s message check t = ground arith

-- The add set or the remove set of the message's slot holds a message that is not older.
pub data IsBlocked (s : Store) (txn : Batch) (message : Message) (ts_hash : Bytes) : Type 0 where
  by_add :
      (key : Bytes)
      → s.store_def.make_add_key message s.state_context ≡ ok key
      → StandsAgainst s txn message ts_hash s.store_def.add_message_type key
      → IsBlocked s txn message ts_hash
  by_remove :
      (key : Bytes)
      → remove_type_supported s.store_def ≡ true
      → s.store_def.make_remove_key message s.state_context ≡ ok key
      → StandsAgainst s txn message ts_hash s.store_def.remove_message_type key
      → IsBlocked s txn message ts_hash

conflicts_refused :
    (s : Store) (txn : Batch) (message : Message) (ts_hash : Bytes)
    → IsBlocked s txn message ts_hash
    → (e : Error) × (get_merge_conflicts s txn message ts_hash ≡ err e)
conflicts_refused s txn message ts_hash (by_add key made a) =
    conflicts_refused_add s txn message ts_hash key made a
conflicts_refused s txn message ts_hash (by_remove key supported made a) =
    conflicts_refused_remove s txn message ts_hash key supported made a

-- An action that only reads, followed by one that fails and keeps the transaction.
check_then_fail :
    {A B : Type 0} (m : Exec (Unit {0})) (f : Exec A) (rest : A → Exec B) (e : Error)
    (t : Transaction)
    → (m t).1 ≡ t
    → f t ≡ (err e, t)
    → (e' : Error) × ((m >>= λ _. f >>= rest) t ≡ (err e', t))
check_then_fail m f rest e t keeps fails = go (m t).0 refl
  where
    go :
        (r : Result Error (Unit {0}))
        → (m t).0 ≡ r
        → (e' : Error) × ((m >>= λ _. f >>= rest) t ≡ (err e', t))
    go (ok u) h = (e, ground (arith, h, keeps, fails))
    go (err e') h = (e', ground (arith, h, keeps))

clear_conflicts_fails :
    (s : Store) (message : Message) (ts_hash : Bytes) (t : Transaction) (e : Error)
    → s.store_opts.conflict_free ≡ false
    → get_merge_conflicts s t.batch message ts_hash ≡ err e
    → clear_conflicts s message ts_hash t ≡ (err e, t)
unfolding clear_conflicts
clear_conflicts_fails s message ts_hash t e free h = ground (arith, free, h)

-- In a store that resolves conflicts, an add or a remove whose slot holds an add or a remove that
-- is not older (by `message_compare`) is refused with an error, and the transaction is what it was.
pub merge_blocked :
    (s : Store) (message : Message) (ts_hash : Bytes) (t : Transaction)
    → s.store_opts.conflict_free ≡ false
    → IsBlocked s t.batch message ts_hash
    → ((e : Error) × (merge_add s ts_hash message t ≡ (err e, t)))
      × ((e : Error) × (merge_remove s ts_hash message t ≡ (err e, t)))
unfolding merge_add merge_remove
merge_blocked s message ts_hash t free blocked =
    let (e, h) = conflicts_refused s t.batch message ts_hash blocked in
    (
      check_then_fail (compact_state_check s message (check_add s message))
          (clear_conflicts s message ts_hash)
          (λ cs.
            put_add_transaction s ts_hash message >> save_event s (merge_event_args message cs))
          e t (compact_state_check_keeps s message (check_add s message) t)
          (clear_conflicts_fails s message ts_hash t e free h),
      check_then_fail (compact_state_check s message (check_remove s message))
          (clear_conflicts s message ts_hash)
          (λ cs.
            put_remove_transaction s ts_hash message >> save_event s (merge_event_args message cs))
          e t (compact_state_check_keeps s message (check_remove s message) t)
          (clear_conflicts_fails s message ts_hash t e free h),
    )
