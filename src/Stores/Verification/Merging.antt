-- ===== src/Stores/Verification/Merging.antt =====
-- A verification merged into an empty slot of the verification store.
use hypersnap.Shared.{
  ℕ, ◌^◌, ◌<◌, ◌≡◌, refl, Bool, false, [], ◌∷◌, ◌++◌, none, some, ok, length, arith,
}
use hypersnap.Bytes.{Bytes}
use hypersnap.Proto.{
  Message, MessageData, VerificationAddAddressBody, verification_add_address_body, message_type_of,
}
use hypersnap.Keys.{
  make_fid_key, make_user_key_with_prefix, make_message_primary_key_with_prefix, hash_length,
  type_to_set_postfix,
}
use hypersnap.Keys.BigEndian.{be_bytes_4}
use hypersnap.Keys.RoundTrip.{make_ts_hash-eq-ok}
use hypersnap.Keys.Prefix.{
  StateContext, legacy, hyper, root_prefix, user, verification_by_address, postfix_u8,
  verification_adds, verification_removes, verification_message,
}
use hypersnap.Database.{Database, Batch, bytes_eq, get_from_db_or_txn, put}
use hypersnap.Database.Laws.{get-put}
use hypersnap.Store.Types.{
  Transaction, HubEvent, merge_message_body, Protobuf, remove_type_supported,
  compact_state_type_supported,
}
use hypersnap.Store.Codec.{Decodes, message_key}
use hypersnap.Store.Conflicts.{get_remove_conflicts}
use hypersnap.Store.Merge.{merge_add, get_add}
use hypersnap.Link.Keys.{stamp, set_apart}
use hypersnap.Stores.Verification.{
  verification_store, make_verification_add_key, make_verification_remove_key, address_index_entry,
  build_address_index, added_address,
}
use hypersnap.Stores.Fresh.{Slot, store_of, merge_into_empty}

abbrev pub verification_data : ℕ → ℕ → ℕ → VerificationAddAddressBody → MessageData
verification_data fid timestamp network body = record {
  type = 7;
  fid = fid;
  timestamp = timestamp;
  network = network;
  body = some (verification_add_address_body body);
}

-- A verification of an address that is not empty, of a user, with a hash of 20 bytes.
pub record IsVerification (m : Message) (fid timestamp : ℕ) (body : VerificationAddAddressBody)
    : Type 0 where
  pub network : ℕ
  pub content : m.message_data ≡ some (verification_data fid timestamp network body)
  pub owned : 0 < fid
  pub addressed : 0 < length body.address
  pub hashed : length m.hash ≡ hash_length

-- The key of the slot, after the prefix of user data.
abbrev pub address_slot : ℕ → ℕ → Bytes → Bytes
address_slot set fid address = make_fid_key fid ++ (set ∷ address)

address_index_apart :
    (ctx : StateContext) (j k : Bytes)
    → bytes_eq (root_prefix ctx verification_by_address ∷ j) (root_prefix ctx user ∷ k) ≡ false
unfolding bytes_eq root_prefix
address_index_apart legacy j k = refl
address_index_apart hyper j k = refl

added_address_eq :
    (body : VerificationAddAddressBody)
    → 0 < length body.address
    → added_address (verification_add_address_body body) ≡ ok body.address
added_address_eq body h = go body.address h
  where
    go :
        (a : Bytes)
        → 0 < length a
        → (elim a [
          | [] ↦ added_address (verification_add_address_body (record body { address = [] }))
          | b ∷ bs ↦ ok (b ∷ bs)
        ])
          ≡ ok a
    go [] h = absurd (omega (arith, h))
    go (b ∷ bs) h = refl

module _ (m : Message) (fid timestamp : ℕ) (body : VerificationAddAddressBody)
    (v : IsVerification m fid timestamp body) (db : Database) (protobuf : Protobuf)
    (ctx : StateContext) where
  add_key_eq :
      make_verification_add_key m ctx
      ≡ ok (root_prefix ctx user ∷ address_slot (postfix_u8 verification_adds) fid body.address)
  unfolding make_verification_add_key make_user_key_with_prefix
  add_key_eq = ground (arith, v.content)

  remove_key_eq :
      make_verification_remove_key m ctx
      ≡ ok (root_prefix ctx user ∷ address_slot (postfix_u8 verification_removes) fid body.address)
  unfolding make_verification_remove_key make_user_key_with_prefix
  remove_key_eq = ground (arith, v.content)

  abbrev primary : Bytes
  primary = make_fid_key fid ++ (postfix_u8 verification_message ∷ stamp timestamp m)

  abbrev index_key : Bytes
  index_key = root_prefix ctx verification_by_address ∷ body.address

  index_entry_eq : address_index_entry m ctx ≡ ok (index_key, make_fid_key fid)
  unfolding address_index_entry
  index_entry_eq = ground (arith, v.content, added_address_eq body v.addressed)

  abbrev indexed : Batch → Batch
  indexed txn = put txn index_key (make_fid_key fid)

  indexes :
      (t : Transaction)
      → build_address_index (stamp timestamp m) m ctx t
        ≡ (ok tt, record t { batch = indexed t.batch })
  unfolding build_address_index
  indexes t = ground (arith, index_entry_eq)

  keyed : message_key protobuf m (root_prefix ctx user) ≡ ok (root_prefix ctx user ∷ primary)
  unfolding message_key message_type_of type_to_set_postfix make_message_primary_key_with_prefix
      make_user_key_with_prefix
  keyed = ground (arith, v.content, make_ts_hash-eq-ok timestamp m.hash v.hashed)

  unfoldable at_slot : Slot verification_store db protobuf ctx m (stamp timestamp m)
  unfolding verification_store compact_state_type_supported make_message_primary_key_with_prefix
      make_user_key_with_prefix be_bytes_4
  at_slot = record {
    d = verification_data fid timestamp v.network body;
    slot = address_slot (postfix_u8 verification_adds) fid body.address;
    primary = primary;
    indexed = indexed;
    content = v.content;
    owned = v.owned;
    stamped = omega (arith, v.hashed);
    no_compact = refl;
    adds = add_key_eq;
    keyed = keyed;
    named = refl;
    apart =
        set_apart (root_prefix ctx user) fid (postfix_u8 verification_adds)
          (postfix_u8 verification_message) _ _ refl;
    indexes = indexes;
    unhidden = λ txn k. rw (get-put, address_index_apart) refl;
  }

  no_removes :
      (no_persist : Bool) (t : Transaction)
      → get_from_db_or_txn db t.batch
          (root_prefix ctx user ∷ address_slot (postfix_u8 verification_removes) fid body.address)
        ≡ none
      → get_remove_conflicts
          (store_of verification_store db protobuf ctx no_persist)
          t.batch
          m
          (stamp timestamp m)
        ≡ ok []
  unfolding get_remove_conflicts verification_store remove_type_supported
  no_removes no_persist t no_remove = ground (arith, remove_key_eq, no_remove)

  -- A verification of an address that is not empty, of a user other than 0, with a hash of 20
  -- bytes, merged into an empty slot (no add, no remove), with room for an event id, is accepted
  -- with no deleted messages, and `get_add` then returns it.
  pub merge_verification_fresh :
      (no_persist : Bool) (t : Transaction)
      → t.generator.current_height < 2 ^ 50
      → t.generator.current_seq < 2 ^ 14
      → Decodes protobuf m
      → get_from_db_or_txn db t.batch
          (root_prefix ctx user ∷ address_slot (postfix_u8 verification_adds) fid body.address)
        ≡ none
      → get_from_db_or_txn db t.batch
          (root_prefix ctx user ∷ address_slot (postfix_u8 verification_removes) fid body.address)
        ≡ none
      → (event : HubEvent) × (t' : Transaction) × (merge_add
            (store_of verification_store db protobuf ctx no_persist)
            (stamp timestamp m)
            m
            t
          ≡ (ok event, t'))
        × (event.body ≡ merge_message_body m [])
        × (get_add (store_of verification_store db protobuf ctx no_persist) t'.batch m
            ≡ ok (some m))
  unfolding at_slot
  merge_verification_fresh no_persist t hh hs law no_add no_remove =
      merge_into_empty verification_store db protobuf ctx m (stamp timestamp m) no_persist at_slot t
        hh hs law (no_removes no_persist t no_remove) no_add
