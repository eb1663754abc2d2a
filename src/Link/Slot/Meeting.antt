-- ===== src/Link/Slot/Meeting.antt =====
-- A message for the slot of a link meets the one that has it.
use hypersnap.Shared.{ℕ, ◌≡◌, ◌≢◌, refl, ◌∙◌, Bool, [], ◌∷◌, some, ok, Error, Ordering, arith, ◌%◌}
use hypersnap.Bytes.{Bytes, vec_to_u8_24}
use hypersnap.Proto.{Message}
use hypersnap.Keys.Prefix.{StateContext, postfix_u8, link_adds, link_removes}
use hypersnap.Database.{Database, Batch}
use hypersnap.Store.Types.{Transaction, Protobuf, Store, remove_type_supported}
use hypersnap.Store.Codec.{Decodes}
use hypersnap.Store.Compare.{message_compare}
use hypersnap.Store.Conflicts.{
  user_prefix, existing_conflict, get_remove_conflicts, get_add_conflicts, get_merge_conflicts,
}
use hypersnap.Store.Merge.{clear_conflicts}
use hypersnap.Store.Merge.Refusals.{IsBlocked, StandsAgainst, by_add, by_remove}
use hypersnap.Link.{link_store}
use hypersnap.Link.Keys.{
  link_compare, link_data, IsLink, slot_key, stamp, links, add_key_eq, remove_key_eq,
  get_merge_conflicts_eq,
}
use hypersnap.Link.Slot.{LinkKind, adding, removing, type_of, set_of, cleared, Stands, IsVacant}
use hypersnap.Link.Slot.Parts.{length-stamp, stored_message, delete_eq}
use hypersnap.Store.Merge.Accepted.{no_conflicts}

-- Nothing is cleared where nothing has the slot.
pub clear_vacant :
    (m : Message) (ctx : StateContext) (fid timestamp : ℕ) (type : Bytes) (target : ℕ)
    (k : LinkKind) (link : IsLink m fid timestamp type target (type_of k)) (db : Database)
    (protobuf : Protobuf) (no_persist : Bool) (t : Transaction)
    → IsVacant db ctx fid type target t.batch
    → clear_conflicts (links db protobuf ctx no_persist) m (stamp timestamp m) t ≡ (ok [], t)
clear_vacant m ctx fid timestamp type target k link db protobuf no_persist t vacant =
    no_conflicts (links db protobuf ctx no_persist) m (stamp timestamp m) t (
      get_merge_conflicts_eq m ctx fid timestamp type target (type_of k) link db protobuf no_persist
        t vacant.no_add vacant.no_remove)

-- The type of a link fits in a byte.
byte_type : (k : LinkKind) → type_of k % 256 ≡ type_of k
byte_type adding = refl
byte_type removing = refl

module _ (m old : Message) (ctx : StateContext) (fid now before : ℕ) (type : Bytes) (target : ℕ)
    (k j : LinkKind) (link : IsLink m fid now type target (type_of k))
    (old_link : IsLink old fid before type target (type_of j)) (db : Database) (protobuf : Protobuf)
    (no_persist : Bool) where
  abbrev store : Store
  store = links db protobuf ctx no_persist

  abbrev Older : Type 0
  Older =
      message_compare link_store (type_of j) (stamp before old) (type_of k) (stamp now m)
      ≡ ok Ordering.lt

  conflict_eq :
      (txn : Batch) (conflict : Error)
      → Stands old ctx fid before type target db protobuf j txn
      → Decodes protobuf old
      → Older
      → existing_conflict store txn m (stamp now m) (type_of j) (some (stamp before old)) conflict
        ≡ ok (old ∷ [])
  unfolding existing_conflict user_prefix vec_to_u8_24 link_store
  conflict_eq txn conflict stands law older = ground (
    arith,
    link.content,
    byte_type k,
    link_compare (type_of j) (stamp before old) (type_of k) (stamp now m) ∙ older,
    length-stamp old ctx fid before type target db protobuf no_persist j old_link,
    stored_message old ctx fid before type target db protobuf no_persist txn stands.stored law,
  )

  against :
      (txn : Batch) (o : Ordering)
      → Stands old ctx fid before type target db protobuf j txn
      → message_compare link_store (type_of j) (stamp before old) (type_of k) (stamp now m) ≡ ok o
      → o ≢ Ordering.lt
      → StandsAgainst store txn m
          (stamp now m)
          (type_of j)
          (slot_key (set_of j) ctx fid type target)
  against txn o stands compared not_older = record {
    content =
        link_data (type_of k) fid now link.network
          (record { type = type; display_timestamp = link.display; target_fid = some target });
    has_data = link.content;
    existing = stamp before old;
    indexed = stands.named;
    order = o;
    compared =
        rw (byte_type k)
          (link_compare (type_of j) (stamp before old) (type_of k) (stamp now m) ∙ compared);
    not_older = not_older;
  }

module _ (m old : Message) (ctx : StateContext) (fid now before : ℕ) (type : Bytes)
    (target : ℕ) where
  module _ (db : Database) (protobuf : Protobuf) (no_persist : Bool) where
    pub conflicts_eq :
        (k j : LinkKind) (link : IsLink m fid now type target (type_of k))
        (old_link : IsLink old fid before type target (type_of j)) (txn : Batch)
        → Stands old ctx fid before type target db protobuf j txn
        → Decodes protobuf old
        → message_compare link_store (type_of j) (stamp before old) (type_of k) (stamp now m)
          ≡ ok Ordering.lt
        → get_merge_conflicts (links db protobuf ctx no_persist) txn m (stamp now m) ≡ ok (old ∷ [])
    unfolding get_merge_conflicts get_remove_conflicts get_add_conflicts link_store
        remove_type_supported
    conflicts_eq k adding link old_link txn stands law older = ground (
      arith,
      add_key_eq m ctx fid now type target (type_of k) link,
      remove_key_eq m ctx fid now type target (type_of k) link,
      stands.named,
      stands.alone,
      conflict_eq m old ctx fid now before type target k adding link old_link db protobuf no_persist
          txn hypersnap.Store.Conflicts.add_conflict stands law older,
    )
    conflicts_eq k removing link old_link txn stands law older = ground (
      arith,
      add_key_eq m ctx fid now type target (type_of k) link,
      remove_key_eq m ctx fid now type target (type_of k) link,
      stands.named,
      stands.alone,
      conflict_eq m old ctx fid now before type target k removing link old_link db protobuf
          no_persist txn hypersnap.Store.Conflicts.remove_conflict stands law older,
    )

    pub clear_older :
        (k j : LinkKind) (link : IsLink m fid now type target (type_of k))
        (old_link : IsLink old fid before type target (type_of j)) (t : Transaction)
        → Stands old ctx fid before type target db protobuf j t.batch
        → Decodes protobuf old
        → message_compare link_store (type_of j) (stamp before old) (type_of k) (stamp now m)
          ≡ ok Ordering.lt
        → clear_conflicts (links db protobuf ctx no_persist) m (stamp now m) t ≡ (
          ok (old ∷ []),
          record t {
            batch =
                cleared old ctx fid before type target db protobuf no_persist j old_link t.batch;
          },
        )
    unfolding clear_conflicts
    clear_older k j link old_link t stands law older = ground (
      arith,
      conflicts_eq k j link old_link t.batch stands law older,
      delete_eq old ctx fid before type target db protobuf no_persist j old_link t,
    )

    -- A message that is not newer is blocked.
    pub Stands-IsBlocked :
        (k j : LinkKind) (link : IsLink m fid now type target (type_of k))
        (old_link : IsLink old fid before type target (type_of j)) (txn : Batch) (o : Ordering)
        → Stands old ctx fid before type target db protobuf j txn
        → message_compare link_store (type_of j) (stamp before old) (type_of k) (stamp now m) ≡ ok o
        → o ≢ Ordering.lt
        → IsBlocked (links db protobuf ctx no_persist) txn m (stamp now m)
    unfolding link_store remove_type_supported
    Stands-IsBlocked k adding link old_link txn o stands compared newer =
        by_add (slot_key (postfix_u8 link_adds) ctx fid type target)
          (add_key_eq m ctx fid now type target (type_of k) link)
          (against m old ctx fid now before type target k adding link old_link db protobuf
            no_persist txn o stands compared newer)
    Stands-IsBlocked k removing link old_link txn o stands compared newer =
        by_remove (slot_key (postfix_u8 link_removes) ctx fid type target) refl
          (remove_key_eq m ctx fid now type target (type_of k) link)
          (against m old ctx fid now before type target k removing link old_link db protobuf
            no_persist txn o stands compared newer)
