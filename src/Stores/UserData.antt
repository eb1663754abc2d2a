-- ===== src/Stores/UserData.antt =====
-- The user data store: src/storage/store/account/user_data_store.rs, its keys and its `StoreDef`.
use hypersnap.Shared.{
  ℕ, ◌%◌, false, none, [], ◌∷◌, ◌++◌, Result, ok, err, Error, hub, ltb, if◌then◌else◌,
}
use hypersnap.Bytes.{Bytes}
use hypersnap.Proto.{
  Message, Body, user_data_body, UserDataBody, type_number, user_data_add, none_type,
}
use hypersnap.Keys.{make_user_key_with_prefix}
use hypersnap.Keys.Prefix.{
  StateContext, root_prefix, user, postfix_u8, user_data_message, user_data_adds,
}
use hypersnap.Store.Types.{StoreDef, pure}
use hypersnap.Link.{is_signed_type}
use hypersnap.Stores.{body_of}

unfoldable pub make_user_data_adds_key_with_prefix : ℕ → ℕ → ℕ → Bytes
make_user_data_adds_key_with_prefix prefix fid data_type =
    make_user_key_with_prefix prefix fid
    ++ (postfix_u8 user_data_adds ∷ (if ltb 0 data_type then (data_type % 256) ∷ [] else []))

abbrev user_data_of : Body → Result Error UserDataBody
user_data_of (user_data_body body) = ok body
user_data_of _ = err (hub "bad_request.invalid_param" "UserDataAdd message missing body")

unfoldable pub make_user_data_add_key : Message → StateContext → Result Error Bytes
unfolding body_of make_user_data_adds_key_with_prefix
make_user_data_add_key message ctx = elim (body_of message) [
  | err e ↦ err e
  | ok (d, body) ↦ elim (user_data_of body) [
    | err e ↦ err e
    | ok b ↦ ok (make_user_data_adds_key_with_prefix (root_prefix ctx user) d.fid b.type)
  ]
]

-- Removes and compact states are not supported; the indices are those of the trait, which are none.
unfoldable pub user_data_store : StoreDef
unfolding is_signed_type make_user_data_add_key
user_data_store = record {
  postfix = postfix_u8 user_data_message;
  add_message_type = type_number user_data_add;
  remove_message_type = type_number none_type;
  compact_state_message_type = type_number none_type;
  is_add_type = is_signed_type (type_number user_data_add);
  is_remove_type = λ message. false;
  is_compact_state_type = λ message. false;
  build_secondary_indices = λ ts_hash message ctx. pure tt;
  delete_secondary_indices = λ ts_hash message ctx. pure tt;
  make_add_key = make_user_data_add_key;
  make_remove_key = λ message ctx. err (hub "bad_request.invalid_param" "removes not supported");
  make_compact_state_add_key = λ message ctx.
      err (hub "bad_request.invalid_param" "UserDataStore doesn't support compact state");
  make_compact_state_prefix = λ fid ctx.
      err (hub "bad_request.invalid_param" "UserDataStore doesn't support compact state");
  own_message_compare = none;
}
