-- ===== src/Stores/Cast/Removing.antt =====
-- A cast that was removed stays removed: `merge_add` of src/storage/store/account/store.rs with the definition
-- of cast_store.rs.
use hypersnap.Shared.{ℕ, ◌≡◌, refl, Bool, some, ok, err, Error, Ordering, arith}
use hypersnap.Bytes.{Bytes}
use hypersnap.Proto.{Message, MessageData, CastAddBody, cast_add_body}
use hypersnap.Keys.Prefix.{StateContext, root_prefix, user, postfix_u8, cast_removes}
use hypersnap.Database.{Database, get_from_db_or_txn}
use hypersnap.Store.Types.{Transaction, Protobuf, remove_type_supported}
use hypersnap.Store.Compare.{store_compare}
use hypersnap.Store.Merge.{merge_add}
use hypersnap.Store.Merge.Refusals.{by_remove, merge_blocked}
use hypersnap.Stores.Cast.{cast_store, make_cast_set_key, make_cast_remove_key}
use hypersnap.Stores.Cast.Compare.{cast_message_compare}
use hypersnap.Stores.Fresh.{store_of}

-- An add of a cast.
abbrev pub cast_data : ℕ → ℕ → ℕ → CastAddBody → MessageData
cast_data fid timestamp network body = record {
  type = 1;
  fid = fid;
  timestamp = timestamp;
  network = network;
  body = some (cast_add_body body);
}

abbrev pub removed_key : StateContext → ℕ → Bytes → Bytes
removed_key ctx fid hash =
    make_cast_set_key (postfix_u8 cast_removes) (root_prefix ctx user) fid hash

module _ (db : Database) (protobuf : Protobuf) (ctx : StateContext) (no_persist : Bool)
    (m : Message) (fid timestamp network : ℕ) (body : CastAddBody) where
  remove_key_eq :
      m.message_data ≡ some (cast_data fid timestamp network body)
      → make_cast_remove_key m ctx ≡ ok (removed_key ctx fid m.hash)
  unfolding make_cast_remove_key
  remove_key_eq content = ground (arith, content)

  remove_above :
      (existing ts_hash : Bytes) → store_compare cast_store 2 existing 1 ts_hash ≡ ok Ordering.gt
  unfolding store_compare cast_store cast_message_compare
  remove_above existing ts_hash = refl

  -- A cast whose hash stands in the remove set of its user is refused with an error when it is
  -- merged, whatever the timestamps of the cast and of the remove, and the transaction is what it
  -- was.
  pub removed_cast_refused :
      (ts_hash existing : Bytes) (t : Transaction)
      → m.message_data ≡ some (cast_data fid timestamp network body)
      → get_from_db_or_txn db t.batch (removed_key ctx fid m.hash) ≡ some existing
      → (e : Error) × (merge_add (store_of cast_store db protobuf ctx no_persist) ts_hash m t
          ≡ (err e, t))
  unfolding cast_store remove_type_supported
  removed_cast_refused ts_hash existing t content removed =
      (merge_blocked (store_of cast_store db protobuf ctx no_persist) m ts_hash t refl (
        by_remove (removed_key ctx fid m.hash) refl (remove_key_eq content) (record {
          content = cast_data fid timestamp network body;
          has_data = content;
          existing = existing;
          indexed = removed;
          order = Ordering.gt;
          compared = remove_above existing ts_hash;
          not_older = λ e. cc;
        }))).0
