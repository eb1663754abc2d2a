-- ===== src/Store/Merge/Prune/Deleted.antt =====
-- What a prune deletes stays deleted: the steps of a prune and the keys that are absent.
use hypersnap.Shared.{
  ℕ, ◌≡◌, refl, inl, inr, ◌∷◌, none, Result, ok, err, Error, ◌&&◌, unwrap, arith, Bool-cases,
}
use hypersnap.Bytes.{Bytes}
use hypersnap.Proto.{Message}
use hypersnap.Keys.{make_ts_hash}
use hypersnap.Keys.Prefix.{root_prefix, user}
use hypersnap.Events.{generate_id, make_event_key}
use hypersnap.Database.{get_from_db_or_txn, delete}
use hypersnap.Database.Laws.{get-put, get-delete}
use hypersnap.Store.Types.{
  Exec, Transaction, Store, HubEvent, lift, modify, continue, ◌>>=◌, remove_type_supported,
}
use hypersnap.Store.Codec.{message_key, delete_message_transaction_with_prefix}
use hypersnap.Store.Conflicts.{user_prefix}
use hypersnap.Store.Writes.{
  try_modify, commit_transaction, delete_add_transaction, delete_remove_transaction,
}
use hypersnap.Store.Merge.Prune.{delete_pruned}
use hypersnap.Link.Keys.{event_apart}

abbrev pub IsAbsent : Store → Bytes → Transaction → Type 0
IsAbsent s k t = get_from_db_or_txn s.db t.batch k ≡ none

-- A key that is absent before is absent after, whatever the answer.
abbrev pub KeepsAbsent : {A : Type 0} → Store → Bytes → Exec A → Type 0
KeepsAbsent s k m = (t : Transaction) → IsAbsent s k t → IsAbsent s k (m t).1

-- To delete the secondary indices of a message, a kind of store only deletes.
pub record IndicesOnlyGo (s : Store) : Type 0 where
  pub keeps :
      (ts_hash : Bytes) (message : Message) (k : Bytes)
      → KeepsAbsent s k (s.store_def.delete_secondary_indices ts_hash message s.state_context)

module _ (s : Store) (k : Bytes) where
  pub then-KeepsAbsent :
      {A B : Type 0} (m : Exec A) (f : A → Exec B)
      → KeepsAbsent s k m
      → ((a : A) → KeepsAbsent s k (f a))
      → KeepsAbsent s k (λ t. continue (m t).0 f (m t).1)
  then-KeepsAbsent {A} {B} m f hm hf t h = go (m t).0 (m t).1 (hm t h)
    where
      go :
          (r : Result Error A) (t' : Transaction)
          → IsAbsent s k t'
          → IsAbsent s k (continue r f t').1
      go (ok a) t' h' = hf a t' h'
      go (err e) t' h' = h'

  pub lift-KeepsAbsent : {A : Type 0} (r : Result Error A) → KeepsAbsent s k (lift r)
  lift-KeepsAbsent r t h = h

  pub delete-KeepsAbsent : (j : Bytes) → KeepsAbsent s k (modify (λ txn. delete txn j))
  delete-KeepsAbsent j t h = ground (arith, get-delete s.db t.batch j k)

  delete_message-KeepsAbsent :
      (message : Message) (prefix : ℕ)
      → KeepsAbsent s k
          (try_modify (λ txn. delete_message_transaction_with_prefix s.protobuf txn message prefix))
  unfolding delete_message_transaction_with_prefix
  delete_message-KeepsAbsent message prefix t h = go (message_key s.protobuf message prefix) refl
    where
      go :
          (r : Result Error Bytes)
          → message_key s.protobuf message prefix ≡ r
          → IsAbsent s k
              (try_modify
                (λ txn. delete_message_transaction_with_prefix s.protobuf txn message prefix)
                t).1
      go (ok key) e = ground (arith, e, get-delete s.db t.batch key k)
      go (err x) e = ground (arith, e)

  delete_add-KeepsAbsent :
      IndicesOnlyGo s
      → (ts_hash : Bytes) (message : Message)
      → KeepsAbsent s k (delete_add_transaction s ts_hash message)
  unfolding delete_add_transaction
  delete_add-KeepsAbsent only ts_hash message =
      then-KeepsAbsent (s.store_def.delete_secondary_indices ts_hash message s.state_context) _
        (only.keeps ts_hash message k)
        (λ u.
          then-KeepsAbsent (lift (s.store_def.make_add_key message s.state_context)) _
            (lift-KeepsAbsent (s.store_def.make_add_key message s.state_context))
            (λ add_key.
              then-KeepsAbsent (modify (λ txn. delete txn add_key))
                (λ (v : Unit {0}). try_modify (λ txn.
                  delete_message_transaction_with_prefix s.protobuf txn message (user_prefix s)))
                (delete-KeepsAbsent add_key)
                (λ v. delete_message-KeepsAbsent message (user_prefix s))))

  delete_remove-KeepsAbsent :
      (message : Message) → KeepsAbsent s k (delete_remove_transaction s message)
  unfolding delete_remove_transaction
  delete_remove-KeepsAbsent message t h = elim (Bool-cases (remove_type_supported s.store_def)) [
    | inr off ↦ rw off h
    | inl on ↦ rw on (
        then-KeepsAbsent (lift (s.store_def.make_remove_key message s.state_context)) _
          (lift-KeepsAbsent (s.store_def.make_remove_key message s.state_context))
          (λ remove_key.
            then-KeepsAbsent (modify (λ txn. delete txn remove_key))
              (λ (v : Unit {0}). try_modify (λ txn.
                delete_message_transaction_with_prefix s.protobuf txn message (user_prefix s)))
              (delete-KeepsAbsent remove_key)
              (λ v. delete_message-KeepsAbsent message (user_prefix s)))
          t h)
  ]

  pub delete_pruned-KeepsAbsent :
      IndicesOnlyGo s → (message : Message) → KeepsAbsent s k (delete_pruned s message)
  unfolding delete_pruned
  delete_pruned-KeepsAbsent only message t h = elim (Bool-cases (s.store_def.is_add_type message)) [
    | inl add ↦ rw add (
        then-KeepsAbsent (lift (unwrap message.message_data)) _
          (lift-KeepsAbsent (unwrap message.message_data))
          (λ d.
            then-KeepsAbsent (lift (make_ts_hash d.timestamp message.hash)) _
              (lift-KeepsAbsent (make_ts_hash d.timestamp message.hash))
              (λ ts_hash. delete_add-KeepsAbsent only ts_hash message))
          t h)
    | inr no_add ↦
        elim (Bool-cases
          (remove_type_supported s.store_def && s.store_def.is_remove_type message)) [
            | inl remove ↦ rw (no_add, remove) (delete_remove-KeepsAbsent message t h)
            | inr neither ↦ rw (no_add, neither) h
          ]
  ]

pub commit-KeepsAbsent :
    (s : Store) (rest : Bytes) (event : HubEvent)
    → KeepsAbsent s (root_prefix s.state_context user ∷ rest) (commit_transaction s event)
unfolding commit_transaction
commit-KeepsAbsent s rest event t h = go (generate_id t.generator event.type).0 refl
  where
    k : Bytes
    k = root_prefix s.state_context user ∷ rest

    go :
        (r : Result Error ℕ)
        → (generate_id t.generator event.type).0 ≡ r
        → IsAbsent s k (commit_transaction s event t).1
    go (err x) e = ground (arith, e)
    go (ok id) e = elim (Bool-cases s.no_persist) [
      | inl off ↦ ground (arith, e, off)
      | inr on ↦ ground (
        arith,
        e,
        on,
        get-put s.db t.batch (make_event_key id) k
            (s.protobuf.encode_event (record event { id = id })),
        event_apart s.state_context id rest,
      )
    ]

-- What a chain that succeeds went through.
pub then_inv :
    {A B : Type 0} (m : Exec A) (f : A → Exec B) (b : B) (t t' : Transaction)
    → (m >>= f) t ≡ (ok b, t')
    → (a : A) × (t1 : Transaction) × (m t ≡ (ok a, t1)) × (f a t1 ≡ (ok b, t'))
then_inv {A} {B} m f b t t' h = go (m t) refl
  where
    go :
        (p : Result Error A × Transaction)
        → m t ≡ p
        → (a : A) × (t1 : Transaction) × (m t ≡ (ok a, t1)) × (f a t1 ≡ (ok b, t'))
    go (ok a, t1) e = (a, t1, e, ground (arith, e, h))
    go (err x, t1) e = absurd (ground (arith, e, h))
