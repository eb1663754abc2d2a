-- ===== src/Stores/Reaction.antt =====
-- The reaction store: src/storage/store/account/reaction_store.rs, its keys and its `StoreDef`.
pub mod Merging
use hypersnap.Shared.{
  ℕ, ◌%◌, Bool, true, false, ◌&&◌, List, [], ◌∷◌, ◌++◌, Option, none, some, Result, ok, err, Error,
  hub, ltb, ◌==◌, if◌then◌else◌,
}
use hypersnap.Bytes.{Bytes}
use hypersnap.Proto.{
  Message, MessageData, Body, reaction_body, ReactionBody, ReactionTarget, target_cast_id,
  target_url, type_number, reaction_add, reaction_remove, none_type,
}
use hypersnap.Keys.{make_user_key_with_prefix, make_fid_key, make_cast_id_key}
use hypersnap.Keys.Prefix.{
  StateContext, root_prefix, user, reactions_by_target, postfix_u8, reaction_message, reaction_adds,
  reaction_removes,
}
use hypersnap.Database.{put, delete}
use hypersnap.Store.Types.{Exec, StoreDef, lift, modify, continue, ◌>>=◌}
use hypersnap.Link.{is_signed_type}
use hypersnap.Stores.{body_of}

unfoldable pub make_target_key : ReactionTarget → Bytes
unfolding make_cast_id_key
make_target_key (target_url url) = url
make_target_key (target_cast_id id) = make_cast_id_key id

abbrev ts_hash_key : Option Bytes → Bytes
ts_hash_key none = []
ts_hash_key (some ts_hash) = ts_hash

unfoldable pub make_reactions_by_target_key_with_prefix :
    ℕ → ReactionTarget → ℕ → Option Bytes → Bytes
unfolding make_target_key
make_reactions_by_target_key_with_prefix prefix target fid ts_hash =
    prefix
    ∷ (make_target_key target
        ++ (ts_hash_key ts_hash ++ (if ltb 0 fid then make_fid_key fid else [])))

abbrev has_target : Option ReactionTarget → Bool
has_target none = false
has_target (some target) = true

abbrev target_part : Option ReactionTarget → Bytes
target_part none = []
target_part (some target) = make_target_key target

-- The body that the keys of adds and of removes share, but for the byte of their set. The type is an
-- i32 in the code; here it is one of the numbers from 0 on, which are those of a valid reaction.
unfoldable pub make_reaction_set_key : ℕ → ℕ → ℕ → ℕ → Option ReactionTarget → Result Error Bytes
unfolding make_target_key
make_reaction_set_key set prefix fid type target =
    if has_target target && type == 0
    then err (hub "bad_request.validation_failure" "targetId provided without type")
    else ok (
        make_user_key_with_prefix prefix fid
        ++ (set ∷ ((if ltb 0 type then (type % 256) ∷ [] else []) ++ target_part target)))

unfoldable pub make_reaction_adds_key_with_prefix :
    ℕ → ℕ → ℕ → Option ReactionTarget → Result Error Bytes
unfolding make_reaction_set_key
make_reaction_adds_key_with_prefix = make_reaction_set_key (postfix_u8 reaction_adds)

unfoldable pub make_reaction_removes_key_with_prefix :
    ℕ → ℕ → ℕ → Option ReactionTarget → Result Error Bytes
unfolding make_reaction_set_key
make_reaction_removes_key_with_prefix = make_reaction_set_key (postfix_u8 reaction_removes)

abbrev invalid_body : Error
invalid_body = hub "bad_request.validation_failure" "Invalid reaction body"

abbrev reaction_of : Body → Result Error ReactionBody
reaction_of (reaction_body body) = ok body
reaction_of _ = err invalid_body

unfoldable pub with_reaction_body :
    {A : Type 0} → Message → (MessageData → ReactionBody → Result Error A) → Result Error A
unfolding body_of
with_reaction_body message f = elim (body_of message) [
  | err e ↦ err e
  | ok (d, body) ↦ elim (reaction_of body) [ err e ↦ err e | ok r ↦ f d r ]
]

unfoldable pub make_reaction_add_key : Message → StateContext → Result Error Bytes
unfolding with_reaction_body make_reaction_adds_key_with_prefix
make_reaction_add_key message ctx =
    with_reaction_body message λ d body.
      make_reaction_adds_key_with_prefix (root_prefix ctx user) d.fid body.type body.target

unfoldable pub make_reaction_remove_key : Message → StateContext → Result Error Bytes
unfolding with_reaction_body make_reaction_removes_key_with_prefix
make_reaction_remove_key message ctx = with_reaction_body message λ d body.
    make_reaction_removes_key_with_prefix (root_prefix ctx user) d.fid body.type body.target

-- The key of the index by target and the type of the reaction.
unfoldable pub reaction_index_key : Bytes → Message → StateContext → Result Error (Bytes × ℕ)
unfolding with_reaction_body make_reactions_by_target_key_with_prefix
reaction_index_key ts_hash message ctx = with_reaction_body message λ d body. elim body.target [
  | none ↦ err invalid_body
  | some target ↦ ok (
    make_reactions_by_target_key_with_prefix (root_prefix ctx reactions_by_target) target d.fid
        (some ts_hash),
    body.type % 256,
  )
]

unfoldable pub build_reaction_indices : Bytes → Message → StateContext → Exec (Unit {0})
unfolding reaction_index_key
build_reaction_indices ts_hash message ctx = do
  (by_target_key, rtype) ← lift (reaction_index_key ts_hash message ctx)
  modify (λ txn. put txn by_target_key (rtype ∷ []))

unfoldable pub delete_reaction_indices : Bytes → Message → StateContext → Exec (Unit {0})
unfolding reaction_index_key
delete_reaction_indices ts_hash message ctx = do
  (by_target_key, rtype) ← lift (reaction_index_key ts_hash message ctx)
  modify (λ txn. delete txn by_target_key)

unfoldable pub reaction_store : StoreDef
unfolding is_signed_type build_reaction_indices delete_reaction_indices make_reaction_add_key
    make_reaction_remove_key
reaction_store = record {
  postfix = postfix_u8 reaction_message;
  add_message_type = type_number reaction_add;
  remove_message_type = type_number reaction_remove;
  compact_state_message_type = type_number none_type;
  is_add_type = is_signed_type (type_number reaction_add);
  is_remove_type = is_signed_type (type_number reaction_remove);
  is_compact_state_type = λ message. false;
  build_secondary_indices = build_reaction_indices;
  delete_secondary_indices = delete_reaction_indices;
  make_add_key = make_reaction_add_key;
  make_remove_key = make_reaction_remove_key;
  make_compact_state_add_key = λ message ctx.
      err (hub "bad_request.invalid_param" "Reaction Store doesn't support compact state");
  make_compact_state_prefix = λ fid ctx.
      err (hub "bad_request.invalid_param" "Reaction Store doesn't support compact state");
  own_message_compare = none;
}
