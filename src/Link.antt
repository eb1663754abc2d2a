-- ===== src/Link.antt =====
-- The link store: src/storage/store/account/link_store.rs, its keys and its `StoreDef`.

pub mod Keys
pub mod Slot
pub mod Merging
pub mod Validated
pub mod Again
pub mod Revoking
pub mod Pruning
pub mod Replacing
pub mod Converging
pub mod Apart
use hypersnap.Shared.{
  ℕ, zero, suc, ◌+◌, String, Bool, true, false, ◌&&◌, ◌||◌, not, List, [], ◌∷◌, ◌++◌, Option, none,
  some, Result, ok, err, Error, hub, length, take, ltb, ◌==◌, if◌then◌else◌,
}
use hypersnap.Bytes.{Bytes}
use hypersnap.Proto.{
  Message, MessageData, Body, LinkBody, link_body, link_compact_state_body, type_number, link_add,
  link_remove, link_compact_state,
}
use hypersnap.Keys.{make_user_key_with_prefix, make_fid_key}
use hypersnap.Keys.Prefix.{
  StateContext, root_prefix, user, links_by_target, postfix_u8, link_message, link_adds,
  link_removes, link_compact_state_message,
}
use hypersnap.Database.{put, delete}
use hypersnap.Store.Types.{Exec, StoreDef, lift, modify, continue, ◌>>=◌}

abbrev pub link_type_byte_size : ℕ
link_type_byte_size = 8

-- `SignatureScheme::Ed25519`
abbrev pub ed25519 : ℕ
ed25519 = 1

-- `Vec::resize(n, 0)`: cut off, or filled up with zeros.
unfoldable pub resize : ℕ → Bytes → Bytes
resize zero bytes = []
resize (suc n) [] = 0 ∷ resize n []
resize (suc n) (b ∷ bs) = b ∷ resize n bs

unfoldable pub link_compact_state_add_key_with_prefix : ℕ → ℕ → Bytes → Result Error Bytes
unfolding resize
link_compact_state_add_key_with_prefix prefix fid link_type = ok (
    make_user_key_with_prefix prefix fid
    ++ (postfix_u8 link_compact_state_message ∷ resize link_type_byte_size link_type))

abbrev is_some : Option ℕ → Bool
is_some none = false
is_some (some fid) = true

abbrev is_empty : Bytes → Bool
is_empty [] = true
is_empty (b ∷ bs) = false

-- The `match` on the target, at the end of a key.
abbrev target_key : Option ℕ → Bytes
target_key none = []
target_key (some fid) = make_fid_key fid

-- The body that `link_add_key_with_prefix` and `link_remove_key_with_prefix` share, but for the byte of
-- their set and the spelling of one message.
unfoldable pub link_set_key : ℕ → String → ℕ → ℕ → LinkBody → Result Error Bytes
unfolding resize
link_set_key set without_type prefix fid body =
    if is_some body.target_fid && is_empty body.type
    then err (hub "bad_request.validation_failure" without_type)
    else if not (is_empty body.type)
        && (ltb link_type_byte_size (length body.type) || length body.type == 0)
    then err (
        hub "bad_request.validation_failure"
          "link type invalid - non-empty link type found with invalid length")
    else ok (
        make_user_key_with_prefix prefix fid
        ++ (set ∷ (resize link_type_byte_size body.type ++ target_key body.target_fid)))

unfoldable pub link_add_key_with_prefix : ℕ → ℕ → LinkBody → Result Error Bytes
unfolding link_set_key
link_add_key_with_prefix = link_set_key (postfix_u8 link_adds) "targetId provided without type"

unfoldable pub link_remove_key_with_prefix : ℕ → ℕ → LinkBody → Result Error Bytes
unfolding link_set_key
link_remove_key_with_prefix =
    link_set_key (postfix_u8 link_removes) "targetID provided without type"

abbrev ts_hash_key : Option Bytes → Bytes
ts_hash_key none = []
ts_hash_key (some ts_hash) = ts_hash

abbrev has_hash : Option Bytes → Bool
has_hash none = false
has_hash (some ts_hash) = true

abbrev filled_hash : Option Bytes → Bool
filled_hash none = false
filled_hash (some ts_hash) = not (is_empty ts_hash)

unfoldable pub links_by_target_key_with_prefix : ℕ → ℕ → ℕ → Option Bytes → Result Error Bytes
links_by_target_key_with_prefix prefix target_fid fid ts_hash =
    if not (fid == 0) && not (filled_hash ts_hash)
    then err (hub "bad_request.validation_failure" "fid provided without timestamp hash")
    else if has_hash ts_hash && fid == 0
    then err (hub "bad_request.validation_failure" "timestamp hash provided without fid")
    else ok (
        prefix
        ∷ (make_fid_key target_fid
            ++ (ts_hash_key ts_hash ++ (if ltb 0 fid then make_fid_key fid else []))))

-- `message.data?.body?`, and the link body in it.
unfoldable pub with_link_body :
    {A : Type 0} → Message → (MessageData → LinkBody → Result Error A) → Result Error A
with_link_body message f = elim message.message_data [
  | none ↦ err (hub "bad_request.invalid_param" "invalid message data")
  | some d ↦ elim d.body [
    | none ↦ err (hub "bad_request.invalid_param" "invalid message data body")
    | some (link_body body) ↦ f d body
    | some _ ↦ err (hub "bad_request.invalid_param" "link body not specified")
  ]
]

-- The target key and the link type, which is the value of the index entry.
unfoldable pub secondary_index_key : Bytes → Message → StateContext → Result Error (Bytes × Bytes)
unfolding with_link_body links_by_target_key_with_prefix
secondary_index_key ts_hash message ctx = with_link_body message λ d body. elim body.target_fid [
  | none ↦ err (hub "bad_request.invalid_param" "target ID not specified")
  | some target ↦
      elim (links_by_target_key_with_prefix (root_prefix ctx links_by_target) target d.fid
        (some ts_hash)) [ err e ↦ err e | ok target_key ↦ ok (target_key, body.type) ]
]

abbrev has_body : Option Body → Bool
has_body none = false
has_body (some b) = true

-- An Ed25519 message of the type, with a body.
unfoldable pub is_signed_type : ℕ → Message → Bool
is_signed_type type message = elim message.message_data [
  | none ↦ false
  | some d ↦ message.signature_scheme == ed25519 && d.type == type && has_body d.body
]

unfoldable pub make_compact_state_add_key : Message → StateContext → Result Error Bytes
unfolding link_compact_state_add_key_with_prefix
make_compact_state_add_key message ctx = elim message.message_data [
  | none ↦ err (hub "bad_request.invalid_param" "invalid message data")
  | some d ↦ elim d.body [
    | none ↦ err (hub "bad_request.invalid_param" "invalid message data body")
    | some (link_compact_state_body body) ↦
        link_compact_state_add_key_with_prefix (root_prefix ctx user) d.fid body.type
    | some (link_body body) ↦
        link_compact_state_add_key_with_prefix (root_prefix ctx user) d.fid body.type
    | some _ ↦ err (hub "bad_request.invalid_param" "link_compact_body not specified")
  ]
]

unfoldable pub make_compact_state_prefix : ℕ → StateContext → Result Error Bytes
make_compact_state_prefix fid ctx = ok (
    make_user_key_with_prefix (root_prefix ctx user) fid
    ++ (postfix_u8 link_compact_state_message ∷ []))

unfoldable pub make_add_key : Message → StateContext → Result Error Bytes
unfolding with_link_body link_add_key_with_prefix
make_add_key message ctx =
    with_link_body message λ d body. link_add_key_with_prefix (root_prefix ctx user) d.fid body

unfoldable pub make_remove_key : Message → StateContext → Result Error Bytes
unfolding with_link_body link_remove_key_with_prefix
make_remove_key message ctx =
    with_link_body message λ d body. link_remove_key_with_prefix (root_prefix ctx user) d.fid body

unfoldable pub build_secondary_indices : Bytes → Message → StateContext → Exec (Unit {0})
unfolding secondary_index_key
build_secondary_indices ts_hash message ctx = do
  (by_target_key, rtype) ← lift (secondary_index_key ts_hash message ctx)
  modify (λ txn. put txn by_target_key rtype)

unfoldable pub delete_secondary_indices : Bytes → Message → StateContext → Exec (Unit {0})
unfolding secondary_index_key
delete_secondary_indices ts_hash message ctx = do
  (by_target_key, rtype) ← lift (secondary_index_key ts_hash message ctx)
  modify (λ txn. delete txn by_target_key)

unfoldable pub link_store : StoreDef
unfolding is_signed_type build_secondary_indices delete_secondary_indices make_add_key
    make_remove_key make_compact_state_add_key make_compact_state_prefix
link_store = record {
  postfix = postfix_u8 link_message;
  add_message_type = type_number link_add;
  remove_message_type = type_number link_remove;
  compact_state_message_type = type_number link_compact_state;
  is_add_type = is_signed_type (type_number link_add);
  is_remove_type = is_signed_type (type_number link_remove);
  is_compact_state_type = is_signed_type (type_number link_compact_state);
  build_secondary_indices = build_secondary_indices;
  delete_secondary_indices = delete_secondary_indices;
  make_add_key = make_add_key;
  make_remove_key = make_remove_key;
  make_compact_state_add_key = make_compact_state_add_key;
  make_compact_state_prefix = make_compact_state_prefix;
  own_message_compare = none;
}
