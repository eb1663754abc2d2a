-- ===== src/Stores/Verification.antt =====
-- The verification store: src/storage/store/account/verification_store.rs, its keys and its `StoreDef`.
pub mod Merging
use hypersnap.Shared.{
  ℕ, Bool, true, false, ◌&&◌, ◌||◌, List, [], ◌∷◌, ◌++◌, Option, none, some, Result, ok, err, Error,
  hub, ◌==◌,
}
use hypersnap.Bytes.{Bytes}
use hypersnap.Proto.{
  Message, MessageData, Body, verification_add_address_body, verification_remove_body, type_number,
  verification_add_eth_address, verification_remove, none_type,
}
use hypersnap.Keys.{make_user_key_with_prefix, make_fid_key}
use hypersnap.Keys.Prefix.{
  StateContext, root_prefix, user, verification_by_address, postfix_u8, verification_message,
  verification_adds, verification_removes,
}
use hypersnap.Database.{put, delete}
use hypersnap.Store.Types.{Exec, StoreDef, lift, modify, continue, ◌>>=◌}
use hypersnap.Link.{is_signed_type}
use hypersnap.Stores.{body_of}

unfoldable pub make_verification_by_address_key_with_prefix : ℕ → Bytes → Bytes
make_verification_by_address_key_with_prefix prefix address = prefix ∷ address

unfoldable pub make_verification_adds_key_with_prefix : ℕ → ℕ → Bytes → Bytes
make_verification_adds_key_with_prefix prefix fid address =
    make_user_key_with_prefix prefix fid ++ (postfix_u8 verification_adds ∷ address)

unfoldable pub make_verification_removes_key_with_prefix : ℕ → ℕ → Bytes → Bytes
make_verification_removes_key_with_prefix prefix fid address =
    make_user_key_with_prefix prefix fid ++ (postfix_u8 verification_removes ∷ address)

abbrev is_protocol : ℕ → Bool
is_protocol protocol = protocol == 0 || protocol == 1

abbrev has_add_protocol : Option Body → Bool
has_add_protocol (some (verification_add_address_body body)) = is_protocol body.protocol
has_add_protocol _ = false

abbrev has_remove_protocol : Option Body → Bool
has_remove_protocol (some (verification_remove_body body)) = is_protocol body.protocol
has_remove_protocol _ = false

abbrev body_in : Message → Option Body
body_in message = elim message.message_data [ none ↦ none | some d ↦ d.body ]

unfoldable pub is_verification_add : Message → Bool
unfolding is_signed_type
is_verification_add message =
    is_signed_type (type_number verification_add_eth_address) message
    && has_add_protocol (body_in message)

unfoldable pub is_verification_remove : Message → Bool
unfolding is_signed_type
is_verification_remove message =
    is_signed_type (type_number verification_remove) message
    && has_remove_protocol (body_in message)

-- The address of an add or a remove.
abbrev address_of : Body → Result Error Bytes
address_of (verification_add_address_body body) = ok body.address
address_of (verification_remove_body body) = ok body.address
address_of _ = err (hub "bad_request.validation_failure" "Invalid verification body")

unfoldable pub with_address : (ℕ → Bytes → Bytes) → Message → Result Error Bytes
unfolding body_of
with_address f message = elim (body_of message) [
  | err e ↦ err e
  | ok (d, body) ↦ elim (address_of body) [ err e ↦ err e | ok address ↦ ok (f d.fid address) ]
]

unfoldable pub make_verification_add_key : Message → StateContext → Result Error Bytes
unfolding with_address make_verification_adds_key_with_prefix
make_verification_add_key message ctx =
    with_address (make_verification_adds_key_with_prefix (root_prefix ctx user)) message

unfoldable pub make_verification_remove_key : Message → StateContext → Result Error Bytes
unfolding with_address make_verification_removes_key_with_prefix
make_verification_remove_key message ctx =
    with_address (make_verification_removes_key_with_prefix (root_prefix ctx user)) message

abbrev address_empty : Error
address_empty = hub "bad_request.invalid_param" "address empty"

abbrev added_address : Body → Result Error Bytes
added_address (verification_add_address_body body) = elim body.address [
  | [] ↦ err address_empty
  | b ∷ bs ↦ ok (b ∷ bs)
]
added_address _ = err address_empty

-- The key of the index by address and its value, the user.
unfoldable pub address_index_entry : Message → StateContext → Result Error (Bytes × Bytes)
unfolding body_of make_verification_by_address_key_with_prefix
address_index_entry message ctx = elim (body_of message) [
  | err e ↦ err e
  | ok (d, body) ↦ elim (added_address body) [
    | err e ↦ err e
    | ok address ↦ ok (
      make_verification_by_address_key_with_prefix (root_prefix ctx verification_by_address)
          address,
      make_fid_key d.fid,
    )
  ]
]

unfoldable pub build_address_index : Bytes → Message → StateContext → Exec (Unit {0})
unfolding address_index_entry
build_address_index ts_hash message ctx = do
  (by_address_key, fid_key) ← lift (address_index_entry message ctx)
  modify (λ txn. put txn by_address_key fid_key)

unfoldable pub delete_address_index : Bytes → Message → StateContext → Exec (Unit {0})
unfolding address_index_entry
delete_address_index ts_hash message ctx = do
  (by_address_key, fid_key) ← lift (address_index_entry message ctx)
  modify (λ txn. delete txn by_address_key)

unfoldable pub verification_store : StoreDef
unfolding is_verification_add is_verification_remove build_address_index delete_address_index
    make_verification_add_key make_verification_remove_key
verification_store = record {
  postfix = postfix_u8 verification_message;
  add_message_type = type_number verification_add_eth_address;
  remove_message_type = type_number verification_remove;
  compact_state_message_type = type_number none_type;
  is_add_type = is_verification_add;
  is_remove_type = is_verification_remove;
  is_compact_state_type = λ message. false;
  build_secondary_indices = build_address_index;
  delete_secondary_indices = delete_address_index;
  make_add_key = make_verification_add_key;
  make_remove_key = make_verification_remove_key;
  make_compact_state_add_key = λ message ctx.
      err (hub "bad_request.invalid_param" "Verification Store doesn't support compact state");
  make_compact_state_prefix = λ fid ctx.
      err (hub "bad_request.invalid_param" "Verification Store doesn't support compact state");
  own_message_compare = none;
}
