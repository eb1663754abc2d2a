-- ===== src/Store/Conflicts.antt =====
-- `StoreDef::get_merge_conflicts` of src/storage/store/account/store.rs, the default of the trait.
use hypersnap.Shared.{
  ℕ, ◌%◌, List, [], ◌∷◌, ◌++◌, Option, none, some, Result, ok, err, Error, hub, ◌>>=◌, ◌>>◌, unwrap,
  Ordering, if◌then◌else◌,
}
use hypersnap.Bytes.{Bytes, vec_to_u8_24}
use hypersnap.Proto.{Message}
use hypersnap.Keys.Prefix.{root_prefix, user}
use hypersnap.Database.{Batch, get_from_db_or_txn}
use hypersnap.Store.Types.{Store, remove_type_supported}
use hypersnap.Store.Codec.{get_message_with_prefix}
use hypersnap.Store.Compare.{store_compare}

abbrev pub to_list : Option Message → List Message
to_list none = []
to_list (some m) = m ∷ []

-- The root prefix of the store's messages.
unfoldable pub user_prefix : Store → ℕ
user_prefix s = root_prefix s.state_context user

-- What the comparison with an existing message of the type says: a later one is a conflict, the
-- same one a duplicate.
abbrev pub refuse : Ordering → Error → Error → Result Error (Unit {0})
refuse Ordering.gt conflict duplicate = err conflict
refuse Ordering.eq conflict duplicate = err duplicate
refuse Ordering.lt conflict duplicate = ok tt

abbrev pub duplicate : Error
duplicate = hub "bad_request.duplicate" "message has already been merged"

abbrev pub remove_conflict : Error
remove_conflict = hub "bad_request.conflict" "message conflicts with a more recent remove"

abbrev pub add_conflict : Error
add_conflict = hub "bad_request.conflict" "message conflicts with a more recent add"

module _ (s : Store) (txn : Batch) (message : Message) (ts_hash : Bytes) where
  -- One of the two halves of `get_merge_conflicts`: the message of type `type` that the set index
  -- names at `existing`, if any. A name without a message is only logged.
  unfoldable pub existing_conflict : ℕ → Option Bytes → Error → Result Error (List Message)
  unfolding user_prefix
  existing_conflict type none conflict = ok []
  existing_conflict type (some existing) conflict = do
    data' ← unwrap message.message_data
    order ← store_compare s.store_def type existing (data'.type % 256) ts_hash
    refuse order conflict duplicate
    key ← vec_to_u8_24 (some existing)
    found ←
        get_message_with_prefix s.protobuf s.db txn (user_prefix s) data'.fid s.store_def.postfix
          key
    ok (to_list found)

  unfoldable pub get_remove_conflicts : Result Error (List Message)
  unfolding existing_conflict
  get_remove_conflicts =
      if remove_type_supported s.store_def
      then (do
        remove_key ← s.store_def.make_remove_key message s.state_context
        existing_conflict s.store_def.remove_message_type (get_from_db_or_txn s.db txn remove_key)
            remove_conflict)
      else ok []

  unfoldable pub get_add_conflicts : Result Error (List Message)
  unfolding existing_conflict
  get_add_conflicts = do
    add_key ← s.store_def.make_add_key message s.state_context
    existing_conflict s.store_def.add_message_type (get_from_db_or_txn s.db txn add_key)
        add_conflict

  unfoldable pub get_merge_conflicts : Result Error (List Message)
  unfolding get_remove_conflicts get_add_conflicts
  get_merge_conflicts = do
    removes ← get_remove_conflicts
    adds ← get_add_conflicts
    ok (removes ++ adds)
