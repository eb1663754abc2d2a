-- ===== src/Link/Again.antt =====
-- The same link add merged twice.
use hypersnap.Shared.{
  ℕ, ◌^◌, ◌<◌, ◌≡◌, refl, Bool, none, some, ok, err, Error, Ordering, inl, arith, ◌∙◌, ap,
}
use hypersnap.Bytes.{Bytes}
use hypersnap.Proto.{Message}
use hypersnap.Keys.BigEndian.{be_bytes_4}
use hypersnap.Keys.Prefix.{StateContext, postfix_u8, link_adds, link_removes}
use hypersnap.Events.{merge_message}
use hypersnap.Database.{Database, get_from_db_or_txn}
use hypersnap.Store.Types.{Transaction, HubEvent, Protobuf}
use hypersnap.Store.Compare.{message_compare}
use hypersnap.Store.Compare.Order.{IsStamp, message_compare_order}
use hypersnap.Store.Merge.{merge_add}
use hypersnap.Store.Merge.Refusals.{IsBlocked, by_add, merge_blocked}
use hypersnap.Link.{link_store}
use hypersnap.Link.Keys.{
  link_compare, IsLink, link_data, slot_key, compact_key, stamp, links, add_key_eq,
}
use hypersnap.Link.Merging.{generate_ok, merged, merged_event, merge_add_eq, merged_slot}

module _ (m : Message) (ctx : StateContext) (fid timestamp : ℕ) (type : Bytes) (target : ℕ)
    (link : IsLink m fid timestamp type target 5) (db : Database) (protobuf : Protobuf)
    (no_persist : Bool) where
  stamp-IsStamp : IsStamp link_store 5 (stamp timestamp m)
  unfolding link_store be_bytes_4
  stamp-IsStamp = record { known = inl refl; long = ground (arith, link.hashed) }

  same_order :
      message_compare link_store 5 (stamp timestamp m) 5 (stamp timestamp m) ≡ ok Ordering.eq
  same_order =
      let ((o, same, other, zero), transitive) =
        message_compare_order link_store 5 5 5 (stamp timestamp m) (stamp timestamp m)
          (stamp timestamp m) (unfold link_store in ground arith) stamp-IsStamp stamp-IsStamp
          stamp-IsStamp in
      same ∙ ap ok (zero.1 (refl, refl))

  blocked :
      (t : Transaction)
      → get_from_db_or_txn db t.batch (slot_key (postfix_u8 link_adds) ctx fid type target)
        ≡ some (stamp timestamp m)
      → IsBlocked (links db protobuf ctx no_persist) t.batch m (stamp timestamp m)
  unfolding link_store
  blocked t slot =
      by_add (slot_key (postfix_u8 link_adds) ctx fid type target)
        (add_key_eq m ctx fid timestamp type target 5 link)
        (record {
          content =
              link_data 5 fid timestamp link.network (record {
                type = type;
                display_timestamp = link.display;
                target_fid = some target;
              });
          has_data = link.content;
          existing = stamp timestamp m;
          indexed = slot;
          order = Ordering.eq;
          compared = link_compare 5 (stamp timestamp m) 5 (stamp timestamp m) ∙ same_order;
          not_older = λ h. cc;
        })

  -- A well-formed link add merged into an empty slot (no add, no remove, no compact state), with
  -- room for an event id, is accepted; merged again it is refused with an error, and the
  -- transaction is what it was.
  pub merge_add_twice :
      (t : Transaction)
      → t.generator.current_height < 2 ^ 50
      → t.generator.current_seq < 2 ^ 14
      → get_from_db_or_txn db t.batch (slot_key (postfix_u8 link_adds) ctx fid type target) ≡ none
      → get_from_db_or_txn db t.batch (slot_key (postfix_u8 link_removes) ctx fid type target)
        ≡ none
      → get_from_db_or_txn db t.batch (compact_key ctx fid type) ≡ none
      → (event : HubEvent) × (t' : Transaction) × (merge_add
            (links db protobuf ctx no_persist)
            (stamp timestamp m)
            m
            t
          ≡ (ok event, t'))
        × (e : Error) × (merge_add (links db protobuf ctx no_persist) (stamp timestamp m) m t'
            ≡ (err e, t'))
  merge_add_twice t hh hs no_add no_remove no_compact =
      let (id, g', made) = generate_ok t.generator merge_message hh hs in
      let t' = merged m ctx fid timestamp type target link db protobuf no_persist t id g' in
      let ((e, refused), removes) =
        merge_blocked (links db protobuf ctx no_persist) m (stamp timestamp m) t' refl (
          blocked t'
            (merged_slot m ctx fid timestamp type target link db protobuf no_persist t id g')) in
      (
        merged_event m ctx fid timestamp type target link db protobuf no_persist id,
        t',
        merge_add_eq m ctx fid timestamp type target link db protobuf no_persist t id g' made no_add
            no_remove no_compact,
        e,
        refused,
      )
