-- ===== src/Link/Slot/Parts.antt =====
-- The parts of a merge of a message for the slot of a link, each with what it answers.
use hypersnap.Shared.{ℕ, ◌≡◌, refl, Bool, [], ◌∷◌, none, some, Result, ok, Error, arith, length}
use hypersnap.Bytes.{Bytes}
use hypersnap.Proto.{Message, message_type_of}
use hypersnap.Keys.{ts_hash_length, type_to_set_postfix}
use hypersnap.Keys.BigEndian.{be_bytes_4}
use hypersnap.Keys.RoundTrip.{make_ts_hash-eq-ok}
use hypersnap.Keys.Prefix.{StateContext, root_prefix, user, postfix_u8, link_message}
use hypersnap.Database.{Database, Batch, get_from_db_or_txn}
use hypersnap.Store.Types.{
  Transaction, Protobuf, Store, remove_type_supported, compact_state_type_supported,
}
use hypersnap.Store.Codec.{
  Decodes, message_encode, message_decode-message_encode, message_key, get_message_with_prefix,
  put_message_transaction_with_prefix, delete_message_transaction_with_prefix,
}
use hypersnap.Store.Conflicts.{user_prefix}
use hypersnap.Store.Writes.{
  put_add_transaction, put_remove_transaction, delete_remove_transaction, delete_one,
  delete_many_transaction,
}
use hypersnap.Store.Merge.{compact_state_check}
use hypersnap.Link.{link_store, is_signed_type}
use hypersnap.Link.Keys.{
  IsLink, compact_key, compact_key_eq, stamp, primary_key, links, remove_key_eq, put_add_eq,
}
use hypersnap.Link.Revoking.{delete_add_eq}
use hypersnap.Link.Slot.{LinkKind, adding, removing, type_of, entries, cleared}

module _ (m : Message) (ctx : StateContext) (fid timestamp : ℕ) (type : Bytes) (target : ℕ)
    (db : Database) (protobuf : Protobuf) (no_persist : Bool) where
  abbrev store : Store
  store = links db protobuf ctx no_persist

  -- A remove has the key of an add in the set of messages.
  remove_message_key_eq :
      (link : IsLink m fid timestamp type target 6)
      → message_key protobuf m (root_prefix ctx user) ≡ ok (primary_key ctx fid timestamp m)
  unfolding message_key message_type_of type_to_set_postfix
  remove_message_key_eq link =
      ground (arith, link.content, make_ts_hash-eq-ok timestamp m.hash link.hashed)

  -- Whichever check there is, nothing is checked without a compact state.
  pub unchecked :
      (k : LinkKind) (link : IsLink m fid timestamp type target (type_of k))
      (check : Message → Result Error (Unit {0})) (t : Transaction)
      → get_from_db_or_txn db t.batch (compact_key ctx fid type) ≡ none
      → compact_state_check store m check t ≡ (ok tt, t)
  unfolding compact_state_check link_store compact_state_type_supported
  unchecked k link check t no_compact =
      ground (arith, compact_key_eq m ctx fid timestamp type target (type_of k) link)

  abbrev pub put_as : LinkKind → Transaction → Result Error (Unit {0}) × Transaction
  put_as adding t = put_add_transaction store (stamp timestamp m) m t
  put_as removing t = put_remove_transaction store (stamp timestamp m) m t

  pub put_eq :
      (k : LinkKind) (link : IsLink m fid timestamp type target (type_of k)) (t : Transaction)
      → put_as k t ≡ (
        ok tt,
        record t { batch = entries m ctx fid timestamp type target db protobuf k link t.batch },
      )
  unfolding put_remove_transaction put_message_transaction_with_prefix user_prefix link_store
      remove_type_supported
  put_eq adding link t =
      put_add_eq m ctx fid timestamp type target 5 link db protobuf no_persist t refl
  put_eq removing link t =
      ground
        (arith, remove_message_key_eq link, remove_key_eq m ctx fid timestamp type target 6 link)

  delete_remove_eq :
      (link : IsLink m fid timestamp type target 6) (t : Transaction)
      → delete_remove_transaction store m t ≡ (
        ok tt,
        record t {
          batch =
              cleared m ctx fid timestamp type target db protobuf no_persist removing link t.batch;
        },
      )
  unfolding delete_remove_transaction delete_message_transaction_with_prefix user_prefix link_store
      remove_type_supported
  delete_remove_eq link t =
      ground
        (arith, remove_message_key_eq link, remove_key_eq m ctx fid timestamp type target 6 link)

  -- What stood in the slot is deleted.
  pub delete_eq :
      (k : LinkKind) (link : IsLink m fid timestamp type target (type_of k)) (t : Transaction)
      → delete_many_transaction store (m ∷ []) t ≡ (
        ok tt,
        record t {
          batch = cleared m ctx fid timestamp type target db protobuf no_persist k link t.batch;
        },
      )
  unfolding delete_many_transaction delete_one link_store is_signed_type remove_type_supported
  delete_eq adding link t = ground (
    arith,
    link.content,
    link.signed,
    make_ts_hash-eq-ok timestamp m.hash link.hashed,
    delete_add_eq m ctx fid timestamp type target link db protobuf no_persist t,
  )
  delete_eq removing link t = ground (arith, link.content, link.signed, delete_remove_eq link t)

  pub length-stamp :
      (k : LinkKind)
      → IsLink m fid timestamp type target (type_of k)
      → length (stamp timestamp m) ≡ ts_hash_length
  unfolding be_bytes_4
  length-stamp k link = ground (arith, link.hashed)

  pub stored_message :
      (txn : Batch)
      → get_from_db_or_txn db txn (primary_key ctx fid timestamp m)
        ≡ some (message_encode protobuf m)
      → Decodes protobuf m
      → get_message_with_prefix protobuf db txn
          (root_prefix ctx user)
          fid
          (postfix_u8 link_message)
          (stamp timestamp m)
        ≡ ok (some m)
  unfolding get_message_with_prefix
  stored_message txn h law = ground (arith, h, message_decode-message_encode protobuf m law)
