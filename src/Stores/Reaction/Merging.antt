-- ===== src/Stores/Reaction/Merging.antt =====
-- A reaction merged into an empty slot of the reaction store.
use hypersnap.Shared.{
  ℕ, ◌%◌, ◌^◌, ◌<◌, ◌≡◌, refl, Bool, false, [], ◌∷◌, ◌++◌, none, some, ok, length, arith,
}
use hypersnap.Bytes.{Bytes}
use hypersnap.Proto.{Message, MessageData, ReactionTarget, reaction_body, message_type_of}
use hypersnap.Keys.{
  make_fid_key, make_user_key_with_prefix, make_message_primary_key_with_prefix, hash_length,
  type_to_set_postfix,
}
use hypersnap.Keys.BigEndian.{be_bytes_4}
use hypersnap.Keys.RoundTrip.{make_ts_hash-eq-ok}
use hypersnap.Keys.Prefix.{
  StateContext, legacy, hyper, root_prefix, user, reactions_by_target, postfix_u8, reaction_adds,
  reaction_removes, reaction_message,
}
use hypersnap.Database.{Database, Batch, bytes_eq, get_from_db_or_txn, put}
use hypersnap.Database.Laws.{get-put}
use hypersnap.Store.Types.{
  Transaction, HubEvent, merge_message_body, Protobuf, remove_type_supported,
  compact_state_type_supported,
}
use hypersnap.Store.Codec.{Decodes, message_key}
use hypersnap.Store.Conflicts.{get_remove_conflicts}
use hypersnap.Store.Merge.{merge_add, get_add}
use hypersnap.Link.Keys.{stamp, set_apart}
use hypersnap.Stores.Reaction.{
  make_target_key, reaction_store, make_reaction_add_key, make_reaction_remove_key,
  reaction_index_key, build_reaction_indices,
}
use hypersnap.Stores.Fresh.{Slot, store_of, merge_into_empty}

abbrev pub reaction_data : ℕ → ℕ → ℕ → ℕ → ReactionTarget → MessageData
reaction_data fid timestamp network type target = record {
  type = 3;
  fid = fid;
  timestamp = timestamp;
  network = network;
  body = some (reaction_body (record { type = type; target = some target }));
}

-- A reaction add of a user, of a type other than none, with a target and a hash of 20 bytes.
pub record IsReaction (m : Message) (fid timestamp type : ℕ) (target : ReactionTarget)
    : Type 0 where
  pub network : ℕ
  pub content : m.message_data ≡ some (reaction_data fid timestamp network type target)
  pub owned : 0 < fid
  pub typed : 0 < type
  pub hashed : length m.hash ≡ hash_length

-- The key of the slot, after the prefix of user data.
abbrev pub reaction_slot : ℕ → ℕ → ℕ → ReactionTarget → Bytes
reaction_slot set fid type target =
    make_fid_key fid ++ (set ∷ (type % 256) ∷ make_target_key target)

reaction_index_apart :
    (ctx : StateContext) (j k : Bytes)
    → bytes_eq (root_prefix ctx reactions_by_target ∷ j) (root_prefix ctx user ∷ k) ≡ false
unfolding bytes_eq root_prefix
reaction_index_apart legacy j k = refl
reaction_index_apart hyper j k = refl

module _ (m : Message) (fid timestamp type : ℕ) (target : ReactionTarget)
    (r : IsReaction m fid timestamp type target) (db : Database) (protobuf : Protobuf)
    (ctx : StateContext) where
  add_key_eq :
      make_reaction_add_key m ctx
      ≡ ok (root_prefix ctx user ∷ reaction_slot (postfix_u8 reaction_adds) fid type target)
  unfolding make_reaction_add_key make_user_key_with_prefix
  add_key_eq = ground (arith, r.content, r.typed)

  remove_key_eq :
      make_reaction_remove_key m ctx
      ≡ ok (root_prefix ctx user ∷ reaction_slot (postfix_u8 reaction_removes) fid type target)
  unfolding make_reaction_remove_key make_user_key_with_prefix
  remove_key_eq = ground (arith, r.content, r.typed)

  abbrev primary : Bytes
  primary = make_fid_key fid ++ (postfix_u8 reaction_message ∷ stamp timestamp m)

  abbrev index_key : Bytes
  index_key =
      root_prefix ctx reactions_by_target
      ∷ (make_target_key target ++ (stamp timestamp m ++ make_fid_key fid))

  index_key_eq : reaction_index_key (stamp timestamp m) m ctx ≡ ok (index_key, type % 256)
  unfolding reaction_index_key be_bytes_4
  index_key_eq = ground (arith, r.content, r.owned)

  abbrev indexed : Batch → Batch
  indexed txn = put txn index_key (type % 256 ∷ [])

  indexes :
      (t : Transaction)
      → build_reaction_indices (stamp timestamp m) m ctx t
        ≡ (ok tt, record t { batch = indexed t.batch })
  unfolding build_reaction_indices
  indexes t = ground (arith, index_key_eq)

  keyed : message_key protobuf m (root_prefix ctx user) ≡ ok (root_prefix ctx user ∷ primary)
  unfolding message_key message_type_of type_to_set_postfix make_message_primary_key_with_prefix
      make_user_key_with_prefix
  keyed = ground (arith, r.content, make_ts_hash-eq-ok timestamp m.hash r.hashed)

  unfoldable at_slot : Slot reaction_store db protobuf ctx m (stamp timestamp m)
  unfolding reaction_store compact_state_type_supported make_message_primary_key_with_prefix
      make_user_key_with_prefix be_bytes_4
  at_slot = record {
    d = reaction_data fid timestamp r.network type target;
    slot = reaction_slot (postfix_u8 reaction_adds) fid type target;
    primary = primary;
    indexed = indexed;
    content = r.content;
    owned = r.owned;
    stamped = omega (arith, r.hashed);
    no_compact = refl;
    adds = add_key_eq;
    keyed = keyed;
    named = refl;
    apart =
        set_apart (root_prefix ctx user) fid (postfix_u8 reaction_adds)
          (postfix_u8 reaction_message) _ _ refl;
    indexes = indexes;
    unhidden = λ txn k. rw (get-put, reaction_index_apart) refl;
  }

  no_removes :
      (no_persist : Bool) (t : Transaction)
      → get_from_db_or_txn db t.batch
          (root_prefix ctx user ∷ reaction_slot (postfix_u8 reaction_removes) fid type target)
        ≡ none
      → get_remove_conflicts
          (store_of reaction_store db protobuf ctx no_persist)
          t.batch
          m
          (stamp timestamp m)
        ≡ ok []
  unfolding get_remove_conflicts reaction_store remove_type_supported
  no_removes no_persist t no_remove = ground (arith, remove_key_eq, no_remove)

  -- A reaction add of a user other than 0, of a type other than 0, with a target and a hash of 20
  -- bytes, merged into an empty slot (no add, no remove), with room for an event id, is accepted
  -- with no deleted messages, and `get_add` then returns it.
  pub merge_reaction_fresh :
      (no_persist : Bool) (t : Transaction)
      → t.generator.current_height < 2 ^ 50
      → t.generator.current_seq < 2 ^ 14
      → Decodes protobuf m
      → get_from_db_or_txn db t.batch
          (root_prefix ctx user ∷ reaction_slot (postfix_u8 reaction_adds) fid type target)
        ≡ none
      → get_from_db_or_txn db t.batch
          (root_prefix ctx user ∷ reaction_slot (postfix_u8 reaction_removes) fid type target)
        ≡ none
      → (event : HubEvent) × (t' : Transaction) × (merge_add
            (store_of reaction_store db protobuf ctx no_persist)
            (stamp timestamp m)
            m
            t
          ≡ (ok event, t'))
        × (event.body ≡ merge_message_body m [])
        × (get_add (store_of reaction_store db protobuf ctx no_persist) t'.batch m ≡ ok (some m))
  unfolding at_slot
  merge_reaction_fresh no_persist t hh hs law no_add no_remove =
      merge_into_empty reaction_store db protobuf ctx m (stamp timestamp m) no_persist at_slot t hh
        hs law (no_removes no_persist t no_remove) no_add
