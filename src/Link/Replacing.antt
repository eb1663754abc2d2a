-- ===== src/Link/Replacing.antt =====
-- A link add that takes the place of an older one: the last write wins.
use hypersnap.Shared.{ℕ, ◌^◌, ◌<◌, ◌≡◌, refl, Bool, [], ◌∷◌, none, some, ok, Ordering, arith, ◌∙◌}
use hypersnap.Bytes.{Bytes}
use hypersnap.Proto.{Message}
use hypersnap.Keys.{make_user_key_with_prefix, make_message_primary_key_with_prefix}
use hypersnap.Keys.Prefix.{StateContext, postfix_u8, link_adds, link_removes}
use hypersnap.Events.{merge_message, HubEventIdGenerator, generate_id}
use hypersnap.Database.{Database, Batch, get_from_db_or_txn}
use hypersnap.Store.Types.{
  Transaction, HubEvent, Protobuf, Store, merge_message_body, merge_event_args,
}
use hypersnap.Store.Codec.{Decodes, message_encode}
use hypersnap.Store.Compare.{message_compare}
use hypersnap.Store.Writes.{commit_transaction}
use hypersnap.Store.Merge.{merge_add, get_add, clear_conflicts, save_event}
use hypersnap.Store.Merge.Accepted.{merge_add_steps}
use hypersnap.Link.{link_store}
use hypersnap.Link.Keys.{
  IsLink, slot_key, compact_key, stamp, primary_key, links, written, put_add_eq,
  compact_state_check_eq,
}
use hypersnap.Link.Slot.{adding}
use hypersnap.Link.Slot.Meeting.{clear_older}
use hypersnap.Link.Merging.{
  generate_ok, with_event, get-with_event, get_index, get_primary, get_add_eq,
}
use hypersnap.Link.Revoking.{removed}

module _ (m old : Message) (ctx : StateContext) (fid now before : ℕ) (type : Bytes) (target : ℕ)
    (link : IsLink m fid now type target 5) (old_link : IsLink old fid before type target 5)
    (db : Database) (protobuf : Protobuf) (no_persist : Bool) where
  abbrev store : Store
  store = links db protobuf ctx no_persist

  -- The older add stands in the slot, and its message is stored; there is no remove and no compact state.
  pub record Holds (txn : Batch) : Type 0 where
    pub slot :
        get_from_db_or_txn db txn (slot_key (postfix_u8 link_adds) ctx fid type target)
        ≡ some (stamp before old)
    pub message :
        get_from_db_or_txn db txn (primary_key ctx fid before old)
        ≡ some (message_encode protobuf old)
    pub no_remove :
        get_from_db_or_txn db txn (slot_key (postfix_u8 link_removes) ctx fid type target) ≡ none
    pub no_compact : get_from_db_or_txn db txn (compact_key ctx fid type) ≡ none

  abbrev replaced : Batch → Batch
  replaced txn =
      written m ctx fid now type target 5 link protobuf
        (removed old ctx fid before type target old_link db protobuf no_persist txn)

  clear_eq :
      (t : Transaction)
      → Holds t.batch
      → Decodes protobuf old
      → message_compare link_store 5 (stamp before old) 5 (stamp now m) ≡ ok Ordering.lt
      → clear_conflicts store m (stamp now m) t ≡ (
        ok (old ∷ []),
        record t {
          batch = removed old ctx fid before type target old_link db protobuf no_persist t.batch;
        },
      )
  clear_eq t holds law older =
      clear_older m old ctx fid now before type target db protobuf no_persist adding adding link
        old_link t
        (record {
          named = holds.slot;
          alone = holds.no_remove;
          stored = holds.message;
          no_compact = holds.no_compact;
        })
        law older

  abbrev replacing_event : ℕ → HubEvent
  replacing_event id = record {
    type = merge_message;
    body = merge_message_body m (old ∷ []);
    id = id;
    block_number = 0;
    shard_index = 0;
    timestamp = 0;
  }

  save_event_eq :
      (t : Transaction) (id : ℕ) (g' : HubEventIdGenerator)
      → generate_id t.generator merge_message ≡ (ok id, g')
      → save_event store (merge_event_args m (old ∷ [])) t ≡ (
        ok (replacing_event id),
        record {
          batch =
              with_event m ctx fid now type target link db protobuf no_persist t.batch id
                (replacing_event id);
          generator = g';
        },
      )
  unfolding save_event commit_transaction merge_event_args
  save_event_eq t id g' h = ground (arith, h)

  -- A well-formed link add whose slot holds an older add of the same link (by `message_compare`),
  -- stored with its message, with no remove and no compact state, and with room for an event id, is
  -- accepted: the event names the older message as the deleted one, and `get_add` then returns the
  -- new one.
  pub merge_add_replaces :
      (t : Transaction)
      → t.generator.current_height < 2 ^ 50
      → t.generator.current_seq < 2 ^ 14
      → Decodes protobuf m
      → Decodes protobuf old
      → Holds t.batch
      → message_compare link_store 5 (stamp before old) 5 (stamp now m) ≡ ok Ordering.lt
      → (event : HubEvent) × (t' : Transaction) × (merge_add store (stamp now m) m t
          ≡ (ok event, t'))
        × (event.body ≡ merge_message_body m (old ∷ []))
        × (get_add store t'.batch m ≡ ok (some m))
  merge_add_replaces t hh hs law old_law holds older =
      let (id, g', made) = generate_ok t.generator merge_message hh hs in
      let txn = removed old ctx fid before type target old_link db protobuf no_persist t.batch in
      let new = replaced t.batch in
      let event_of =
        with_event m ctx fid now type target link db protobuf no_persist new id
          (replacing_event id) in
      (
        replacing_event id,
        record { batch = event_of; generator = g' },
        merge_add_steps store m (stamp now m) (old ∷ []) (replacing_event id) t
            (record t { batch = txn }) (record t { batch = new })
            (record { batch = event_of; generator = g' })
            (compact_state_check_eq m ctx fid now type target 5 link db protobuf no_persist t
              holds.no_compact)
            (clear_eq t holds old_law older)
            (put_add_eq m ctx fid now type target 5 link db protobuf no_persist
              (record t { batch = txn }) refl)
            (save_event_eq (record t { batch = new }) id g' made),
        refl,
        get_add_eq m ctx fid now type target link db protobuf no_persist event_of
            (unfold make_user_key_with_prefix in
              get-with_event m ctx fid now type target link db protobuf no_persist new id
                (replacing_event id) _
              ∙ get_index m ctx fid now type target link db protobuf no_persist txn)
            (unfold make_message_primary_key_with_prefix in
              get-with_event m ctx fid now type target link db protobuf no_persist new id
                (replacing_event id) _
              ∙ get_primary m ctx fid now type target link db protobuf no_persist txn)
            law,
      )
