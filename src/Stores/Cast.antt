-- ===== src/Stores/Cast.antt =====
-- The cast store: src/storage/store/account/cast_store.rs, its keys, its order and its `StoreDef`. In the order
-- a remove stands above every add.

pub mod Compare
pub mod Removing
use hypersnap.Shared.{
  ℕ, Bool, false, ◌&&◌, List, [], ◌∷◌, ◌++◌, Option, none, some, Result, ok, err, Error, hub, panic,
  Ordering, ltb, length, ◌==◌, if◌then◌else◌,
}
use hypersnap.Bytes.{Bytes, bytes_compare}
use hypersnap.Proto.{
  Message, MessageData, Body, CastAddBody, cast_add_body, cast_remove_body, Parent, parent_cast_id,
  parent_url, type_number, cast_add, cast_remove, none_type,
}
use hypersnap.Keys.{make_user_key_with_prefix, make_fid_key, make_cast_id_key, hash_length}
use hypersnap.Keys.Prefix.{
  StateContext, root_prefix, user, casts_by_parent, casts_by_mention, postfix_u8, cast_message,
  cast_adds, cast_removes,
}
use hypersnap.Database.{Batch, put, delete}
use hypersnap.Store.Types.{Exec, StoreDef, lift, modify, continue, ◌>>=◌, ◌>>◌}
use hypersnap.Link.{is_signed_type}
use hypersnap.Stores.{body_of}
use hypersnap.Stores.Cast.Compare.{cast_message_compare}

abbrev true_value : Bytes
true_value = 1 ∷ []

unfoldable pub make_parent_key : Parent → Bytes
unfolding make_cast_id_key
make_parent_key (parent_url url) = url
make_parent_key (parent_cast_id id) = make_cast_id_key id

-- The ts_hash and, where it is not 0, the fid, at the end of an index key.
abbrev index_end : Bytes → ℕ → Bytes
index_end ts_hash fid = ts_hash ++ (if ltb 0 fid then make_fid_key fid else [])

unfoldable pub make_cast_by_parent_key_with_prefix : ℕ → Parent → ℕ → Bytes → Bytes
unfolding make_parent_key
make_cast_by_parent_key_with_prefix prefix parent fid ts_hash =
    prefix ∷ (make_parent_key parent ++ index_end ts_hash fid)

unfoldable pub make_cast_by_mention_key_with_prefix : ℕ → ℕ → ℕ → Bytes → Bytes
make_cast_by_mention_key_with_prefix prefix mention fid ts_hash =
    prefix ∷ (make_fid_key mention ++ index_end ts_hash fid)

-- The body that the keys of adds and of removes share, but for the byte of their set.
unfoldable pub make_cast_set_key : ℕ → ℕ → ℕ → Bytes → Bytes
make_cast_set_key set prefix fid hash =
    make_user_key_with_prefix prefix fid
    ++ (set ∷ (if length hash == hash_length then hash else []))

-- Where a cast add is looked up: under its own hash, a remove under the hash of its target.
unfoldable pub cast_hash : Message → Error → Result Error (MessageData × Bytes)
cast_hash message invalid = elim message.message_data [
  | none ↦ err panic
  | some d ↦ elim d.body [
    | some (cast_add_body body) ↦ ok (d, message.hash)
    | some (cast_remove_body body) ↦ ok (d, body.target_hash)
    | _ ↦ err invalid
  ]
]

abbrev set_key : ℕ → Message → StateContext → Error → Result Error Bytes
set_key set message ctx invalid = elim (cast_hash message invalid) [
  | err e ↦ err e
  | ok (d, hash) ↦ ok (make_cast_set_key set (root_prefix ctx user) d.fid hash)
]

unfoldable pub make_cast_add_key : Message → StateContext → Result Error Bytes
unfolding cast_hash make_cast_set_key
make_cast_add_key message ctx =
    set_key (postfix_u8 cast_adds) message ctx
      (hub "bad_request.validation_failure" "Invalid cast body for add key")

unfoldable pub make_cast_remove_key : Message → StateContext → Result Error Bytes
unfolding cast_hash make_cast_set_key
make_cast_remove_key message ctx =
    set_key (postfix_u8 cast_removes) message ctx
      (hub "bad_request.validation_failure" "Invalid cast body for remove key")

abbrev invalid_body : Error
invalid_body = hub "bad_request.validation_failure" "Invalid cast body"

unfoldable pub by_parent_secondary_index_key :
    Bytes → Message → StateContext → Result Error (Option Bytes)
unfolding body_of make_cast_by_parent_key_with_prefix
by_parent_secondary_index_key ts_hash message ctx = elim (body_of message) [
  | err e ↦ err e
  | ok (d, cast_add_body body) ↦ elim body.parent [
    | none ↦ err invalid_body
    | some parent ↦ ok (
        some (
          make_cast_by_parent_key_with_prefix (root_prefix ctx casts_by_parent) parent d.fid
            ts_hash))
  ]
  | ok (d, cast_remove_body body) ↦ ok none
  | ok (d, _) ↦ err invalid_body
]

-- The key of each mention.
unfoldable pub mention_keys : ℕ → ℕ → Bytes → List ℕ → List Bytes
unfolding make_cast_by_mention_key_with_prefix
mention_keys prefix fid ts_hash [] = []
mention_keys prefix fid ts_hash (mention ∷ mentions) =
    make_cast_by_mention_key_with_prefix prefix mention fid ts_hash
    ∷ mention_keys prefix fid ts_hash mentions

abbrev filled_keys : List Bytes → Option (List Bytes)
filled_keys [] = none
filled_keys (k ∷ ks) = some (k ∷ ks)

unfoldable pub by_mention_secondary_index_key :
    Bytes → Message → StateContext → Result Error (Option (List Bytes))
unfolding body_of mention_keys
by_mention_secondary_index_key ts_hash message ctx = elim (body_of message) [
  | err e ↦ err e
  | ok (d, cast_add_body body) ↦
      ok (filled_keys (mention_keys (root_prefix ctx casts_by_mention) d.fid ts_hash body.mentions))
  | ok (d, cast_remove_body body) ↦ ok none
  | ok (d, _) ↦ err invalid_body
]

-- `if let Ok(Some(value))`: an error is passed over, but a panic is not.
abbrev found : {A : Type 0} → Result Error (Option A) → Result Error (Option A)
found (ok value) = ok value
found (err (hub code text)) = ok none
found (err panic) = err panic

unfoldable pub put_all : List Bytes → Batch → Batch
put_all [] txn = txn
put_all (k ∷ ks) txn = put_all ks (put txn k true_value)

unfoldable pub delete_all : List Bytes → Batch → Batch
delete_all [] txn = txn
delete_all (k ∷ ks) txn = delete_all ks (delete txn k)

abbrev parent_keys : Option Bytes → List Bytes
parent_keys none = []
parent_keys (some key) = key ∷ []

abbrev keys_in : Option (List Bytes) → List Bytes
keys_in none = []
keys_in (some ks) = ks

unfoldable pub build_cast_indices : Bytes → Message → StateContext → Exec (Unit {0})
unfolding by_parent_secondary_index_key by_mention_secondary_index_key put_all
build_cast_indices ts_hash message ctx = do
  parent ← lift (found (by_parent_secondary_index_key ts_hash message ctx))
  modify (put_all (parent_keys parent))
  mentions ← lift (found (by_mention_secondary_index_key ts_hash message ctx))
  modify (put_all (keys_in mentions))

unfoldable pub delete_cast_indices : Bytes → Message → StateContext → Exec (Unit {0})
unfolding by_parent_secondary_index_key by_mention_secondary_index_key delete_all
delete_cast_indices ts_hash message ctx = do
  parent ← lift (found (by_parent_secondary_index_key ts_hash message ctx))
  modify (delete_all (parent_keys parent))
  mentions ← lift (found (by_mention_secondary_index_key ts_hash message ctx))
  modify (delete_all (keys_in mentions))

unfoldable pub cast_store : StoreDef
unfolding is_signed_type build_cast_indices delete_cast_indices make_cast_add_key
    make_cast_remove_key cast_message_compare
cast_store = record {
  postfix = postfix_u8 cast_message;
  add_message_type = type_number cast_add;
  remove_message_type = type_number cast_remove;
  compact_state_message_type = type_number none_type;
  is_add_type = is_signed_type (type_number cast_add);
  is_remove_type = is_signed_type (type_number cast_remove);
  is_compact_state_type = λ message. false;
  build_secondary_indices = build_cast_indices;
  delete_secondary_indices = delete_cast_indices;
  make_add_key = make_cast_add_key;
  make_remove_key = make_cast_remove_key;
  make_compact_state_add_key = λ message ctx.
      err (hub "bad_request.invalid_param" "Cast Store doesn't support compact state");
  make_compact_state_prefix =
      λ fid ctx. err (hub "bad_request.invalid_param" "Cast Store doesn't support compact state");
  own_message_compare = some cast_message_compare;
}
