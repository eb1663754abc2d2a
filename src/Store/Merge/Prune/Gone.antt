-- ===== src/Store/Merge/Prune/Gone.antt =====
-- A message that a prune picked is no longer stored.
use hypersnap.Shared.{
  ◌≡◌, refl, sym, ◌⊎◌, inl, inr, true, ◌∷◌, none, Result, ok, err, Error, ◌&&◌, unwrap, arith,
  Bool-cases,
}
use hypersnap.Bytes.{Bytes}
use hypersnap.Proto.{Message}
use hypersnap.Keys.{make_ts_hash}
use hypersnap.Database.{Batch, get_from_db_or_txn, delete}
use hypersnap.Database.Laws.{get-delete, bytes_eq_refl}
use hypersnap.Store.Types.{Exec, Transaction, Store, lift, modify, ◌>>=◌, remove_type_supported}
use hypersnap.Store.Codec.{message_key, message_key_shape, delete_message_transaction_with_prefix}
use hypersnap.Store.Conflicts.{user_prefix}
use hypersnap.Store.Writes.{try_modify, delete_add_transaction, delete_remove_transaction}
use hypersnap.Store.Merge.Prune.{delete_pruned}
use hypersnap.Store.Merge.Prune.Deleted.{KeepsAbsent, then_inv}

-- The message is no longer stored.
pub record IsGone (s : Store) (txn : Batch) (message : Message) : Type 0 where
  pub key : Bytes
  pub stored_at : message_key s.protobuf message (user_prefix s) ≡ ok key
  pub absent : get_from_db_or_txn s.db txn key ≡ none

-- An action that keeps absent all the keys of user data keeps the message gone.
pub IsGone-kept :
    {A : Type 0} (s : Store) (m : Exec A) (t : Transaction) (message : Message)
    → ((rest : Bytes) → KeepsAbsent s (user_prefix s ∷ rest) m)
    → IsGone s t.batch message
    → IsGone s (m t).1.batch message
IsGone-kept s m t message keeps gone =
    let (rest, e) = message_key_shape s.protobuf message (user_prefix s) gone.key gone.stored_at in
    record {
      key = gone.key;
      stored_at = gone.stored_at;
      absent = rw e (keeps rest t (rw (sym e) gone.absent));
    }

delete_message-IsGone :
    (s : Store) (message : Message) (u : Unit {0}) (t t' : Transaction)
    → try_modify
        (λ txn. delete_message_transaction_with_prefix s.protobuf txn message (user_prefix s))
        t
      ≡ (ok u, t')
    → IsGone s t'.batch message
unfolding delete_message_transaction_with_prefix
delete_message-IsGone s message u t t' h = go (message_key s.protobuf message (user_prefix s)) refl
  where
    go :
        (r : Result Error Bytes)
        → message_key s.protobuf message (user_prefix s) ≡ r
        → IsGone s t'.batch message
    go (ok k) e = record {
      key = k;
      stored_at = e;
      absent = ground (arith, h, e, get-delete s.db t.batch k k, bytes_eq_refl k);
    }
    go (err x) e = absurd (ground (arith, h, e))

delete_add-IsGone :
    (s : Store) (ts_hash : Bytes) (message : Message) (u : Unit {0}) (t t' : Transaction)
    → delete_add_transaction s ts_hash message t ≡ (ok u, t')
    → IsGone s t'.batch message
unfolding delete_add_transaction
delete_add-IsGone s ts_hash message u t t' h =
    let last : Unit {0} → Exec (Unit {0}) = λ v.
      try_modify
        (λ txn. delete_message_transaction_with_prefix s.protobuf txn message (user_prefix s)) in
    let on_key : Bytes → Exec (Unit {0}) = λ add_key. modify (λ txn. delete txn add_key) >>= last in
    let (u1, t1, e1, h1) =
      then_inv (s.store_def.delete_secondary_indices ts_hash message s.state_context)
        (λ v. lift (s.store_def.make_add_key message s.state_context) >>= on_key) u t t' h in
    let (add_key, t2, e2, h2) =
      then_inv (lift (s.store_def.make_add_key message s.state_context)) on_key u t1 t' h1 in
    let (u3, t3, e3, h3) = then_inv (modify (λ txn. delete txn add_key)) last u t2 t' h2 in
    delete_message-IsGone s message u t3 t' h3

delete_remove-IsGone :
    (s : Store) (message : Message) (u : Unit {0}) (t t' : Transaction)
    → delete_remove_transaction s message t ≡ (ok u, t')
    → IsGone s t'.batch message
unfolding delete_remove_transaction
delete_remove-IsGone s message u t t' h = elim (Bool-cases (remove_type_supported s.store_def)) [
  | inr off ↦ absurd (ground (arith, h, off))
  | inl on ↦
      let last : Unit {0} → Exec (Unit {0}) = λ v.
        try_modify
          (λ txn. delete_message_transaction_with_prefix s.protobuf txn message (user_prefix s)) in
      let (remove_key, t1, e1, h1) =
        then_inv (lift (s.store_def.make_remove_key message s.state_context))
          (λ remove_key. modify (λ txn. delete txn remove_key) >>= last) u t t'
          (ground (arith, h, on)) in
      let (u2, t2, e2, h2) = then_inv (modify (λ txn. delete txn remove_key)) last u t1 t' h1 in
      delete_message-IsGone s message u t2 t' h2
]

-- The message is an add of the store, or a remove in a store that has removes.
abbrev pub IsDeletable : Store → Message → Type 0
IsDeletable s message =
    (s.store_def.is_add_type message ≡ true)
    ⊎ ((remove_type_supported s.store_def && s.store_def.is_remove_type message) ≡ true)

pub delete_pruned-IsGone :
    (s : Store) (message : Message) (u : Unit {0}) (t t' : Transaction)
    → IsDeletable s message
    → delete_pruned s message t ≡ (ok u, t')
    → IsGone s t'.batch message
unfolding delete_pruned
delete_pruned-IsGone s message u t t' kind h = elim (Bool-cases (s.store_def.is_add_type message)) [
  | inl add ↦
      let (d, t1, e1, h1) =
        then_inv (lift (unwrap message.message_data))
          (λ d. lift (make_ts_hash d.timestamp message.hash) >>= λ ts_hash.
            delete_add_transaction s ts_hash message)
          u t t' (ground (arith, h, add)) in
      let (ts_hash, t2, e2, h2) =
        then_inv (lift (make_ts_hash d.timestamp message.hash))
          (λ ts_hash. delete_add_transaction s ts_hash message) u t1 t' h1 in
      delete_add-IsGone s ts_hash message u t2 t' h2
  | inr no_add ↦ delete_remove-IsGone s message u t t' (ground (arith, h, no_add, kind))
]
