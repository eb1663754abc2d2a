-- ===== src/Link/Slot/Encounters.antt =====
-- `merge` of src/storage/store/account/store.rs on an add or a remove of a link whose slot another has.
use hypersnap.Shared.{
  ℕ, suc, ◌≡◌, ◌≢◌, refl, ◌∙◌, Bool, [], ◌∷◌, none, ok, err, Error, Ordering, arith,
}
use hypersnap.Bytes.{Bytes}
use hypersnap.Proto.{Message}
use hypersnap.Keys.Prefix.{StateContext, link_compact_state_message, postfix_u8}
use hypersnap.Database.{Database, Batch, get_from_db_or_txn}
use hypersnap.Store.Types.{Transaction, Protobuf, Store}
use hypersnap.Store.Codec.{Decodes}
use hypersnap.Store.Compare.{message_compare}
use hypersnap.Store.Merge.{merge_add, merge_remove}
use hypersnap.Store.Merge.Compact.{merge}
use hypersnap.Store.Merge.Refusals.{merge_blocked}
use hypersnap.Link.{link_store}
use hypersnap.Link.Keys.{IsLink, slot_key, compact_key, stamp, links}
use hypersnap.Link.Slot.{LinkKind, adding, removing, other, type_of, set_of, cleared, Stands}
use hypersnap.Link.Slot.Reads.{get-cleared, get-cleared_slot}
use hypersnap.Link.Slot.Steps.{HasRoom, IsAccepted, merge_as, merge_eq, clear-IsAccepted}
use hypersnap.Link.Slot.Meeting.{clear_older, Stands-IsBlocked}

module _ (m old : Message) (ctx : StateContext) (fid now before : ℕ) (type : Bytes) (target : ℕ)
    (db : Database) (protobuf : Protobuf) (no_persist : Bool) where
  module _ (j : LinkKind) (old_link : IsLink old fid before type target (type_of j)) (txn : Batch)
      (stands : Stands old ctx fid before type target db protobuf j txn) where
    abbrev without : Batch
    without = cleared old ctx fid before type target db protobuf no_persist j old_link txn

    -- Neither set names a message once that which has the slot is deleted.
    cleared_other :
        (k : LinkKind)
        → get_from_db_or_txn db without (slot_key (set_of (other k)) ctx fid type target) ≡ none
    cleared_other k = go k j old_link stands
      where
        go :
            (k j : LinkKind) (old_link : IsLink old fid before type target (type_of j))
            → Stands old ctx fid before type target db protobuf j txn
            → get_from_db_or_txn db
                (cleared old ctx fid before type target db protobuf no_persist j old_link txn)
                (slot_key (set_of (other k)) ctx fid type target)
              ≡ none
        go adding adding l s =
            get-cleared old ctx fid before type target db protobuf (set_of removing) _ no_persist
              adding l txn refl refl
            ∙ s.alone
        go removing removing l s =
            get-cleared old ctx fid before type target db protobuf (set_of adding) _ no_persist
              removing l txn refl refl
            ∙ s.alone
        go adding removing l s =
            get-cleared_slot old ctx fid before type target db protobuf no_persist removing l txn
        go removing adding l s =
            get-cleared_slot old ctx fid before type target db protobuf no_persist adding l txn

    cleared_compact : get_from_db_or_txn db without (compact_key ctx fid type) ≡ none
    cleared_compact =
        get-cleared old ctx fid before type target db protobuf
          (postfix_u8 link_compact_state_message) _ no_persist j old_link txn refl (ground arith)
        ∙ stands.no_compact

  -- A newer message takes the slot.
  pub newer-IsAccepted :
      (k j : LinkKind) (link : IsLink m fid now type target (type_of k))
      (old_link : IsLink old fid before type target (type_of j)) (n : ℕ) (t : Transaction)
      → HasRoom t.generator (suc n)
      → Stands old ctx fid before type target db protobuf j t.batch
      → Decodes protobuf old
      → message_compare link_store (type_of j) (stamp before old) (type_of k) (stamp now m)
        ≡ ok Ordering.lt
      → IsAccepted m ctx fid now type target db protobuf no_persist k (old ∷ []) n t
  newer-IsAccepted k j link old_link n t room stands law older =
      clear-IsAccepted m ctx fid now type target db protobuf no_persist k link (old ∷ []) n t
        (without j old_link t.batch stands) room stands.no_compact
        (clear_older m old ctx fid now before type target db protobuf no_persist k j link old_link t
          stands law older)
        (cleared_other j old_link t.batch stands k) (cleared_compact j old_link t.batch stands)

  -- A message that is not newer is refused, and nothing changes.
  pub merge_stale :
      (k j : LinkKind) (link : IsLink m fid now type target (type_of k))
      (old_link : IsLink old fid before type target (type_of j)) (o : Ordering) (t : Transaction)
      → Stands old ctx fid before type target db protobuf j t.batch
      → message_compare link_store (type_of j) (stamp before old) (type_of k) (stamp now m) ≡ ok o
      → o ≢ Ordering.lt
      → (e : Error) × (merge (links db protobuf ctx no_persist) m t ≡ (err e, t))
  merge_stale k j link old_link o t stands compared newer =
      let (e, refused) = either_way k (
        merge_blocked store' m (stamp now m) t refl (
          Stands-IsBlocked m old ctx fid now before type target db protobuf no_persist k j link
            old_link t.batch o stands compared newer)) in
      (e, merge_eq m ctx fid now type target db protobuf no_persist k link t ∙ refused)
    where
      store' : Store
      store' = links db protobuf ctx no_persist

      either_way :
          (k : LinkKind)
          → ((e : Error) × (merge_add store' (stamp now m) m t ≡ (err e, t)))
            × ((e : Error) × (merge_remove store' (stamp now m) m t ≡ (err e, t)))
          → (e : Error) × (merge_as m ctx fid now type target db protobuf no_persist k t
              ≡ (err e, t))
      either_way adding both = both.0
      either_way removing both = both.1
