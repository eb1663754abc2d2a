-- ===== src/Link/Slot/Steps.antt =====
-- `merge` of src/storage/store/account/store.rs on an add or a remove of a link: what its parts make up.
use hypersnap.Shared.{
  ℕ, suc, ◌+◌, ◌^◌, ◌<◌, ◌≤◌, ◌≡◌, refl, ◌∙◌, Bool, [], List, none, Result, ok, Error, arith,
}
use hypersnap.Bytes.{Bytes}
use hypersnap.Proto.{Message}
use hypersnap.Keys.RoundTrip.{make_ts_hash-eq-ok}
use hypersnap.Keys.Prefix.{StateContext}
use hypersnap.Events.{merge_message, HubEventIdGenerator, generate_id}
use hypersnap.Database.{Database, Batch, get_from_db_or_txn}
use hypersnap.Store.Types.{
  Transaction, HubEvent, Protobuf, Store, merge_message_body, merge_event_args,
  remove_type_supported,
}
use hypersnap.Store.Writes.{commit_transaction, put_remove_transaction}
use hypersnap.Store.Merge.{
  merge_add, merge_remove, compact_state_check, check_add, check_remove, clear_conflicts,
  save_event,
}
use hypersnap.Store.Merge.Accepted.{then_ok, merge_add_steps}
use hypersnap.Store.Merge.Compact.{merge, is_kept_type}
use hypersnap.Link.{link_store, is_signed_type}
use hypersnap.Link.Keys.{IsLink, slot_key, compact_key, stamp, links}
use hypersnap.Link.Merging.{generate_ok}
use hypersnap.Link.Slot.{
  LinkKind, adding, removing, other, type_of, set_of, entries, Stands, IsVacant, saved,
}
use hypersnap.Link.Slot.Reads.{entries-Stands}
use hypersnap.Link.Slot.Parts.{unchecked, put_as, put_eq}
use hypersnap.Link.Slot.Meeting.{clear_vacant}

-- The generator has room for n more ids. It never gives the sequence number 0.
pub record HasRoom (g : HubEventIdGenerator) (n : ℕ) : Type 0 where
  pub height : g.current_height < 2 ^ 50
  pub sequence : g.current_seq + n ≤ 2 ^ 14
  pub first : n < 2 ^ 14

pub HasRoom-less : (g : HubEventIdGenerator) (n : ℕ) → HasRoom g (suc n) → HasRoom g n
HasRoom-less g n room = ground arith

generate_id-HasRoom :
    (g g' : HubEventIdGenerator) (n id : ℕ)
    → HasRoom g (suc n)
    → generate_id g merge_message ≡ (ok id, g')
    → HasRoom g' n
unfolding generate_id
generate_id-HasRoom g g' n id room made = ground arith

module _ (m : Message) (ctx : StateContext) (fid timestamp : ℕ) (type : Bytes) (target : ℕ)
    (db : Database) (protobuf : Protobuf) (no_persist : Bool) where
  abbrev store : Store
  store = links db protobuf ctx no_persist

  abbrev pub merge_as : LinkKind → Transaction → Result Error HubEvent × Transaction
  merge_as adding t = merge_add store (stamp timestamp m) m t
  merge_as removing t = merge_remove store (stamp timestamp m) m t

  pub merge_eq :
      (k : LinkKind) (link : IsLink m fid timestamp type target (type_of k)) (t : Transaction)
      → merge store m t ≡ merge_as k t
  unfolding merge is_kept_type link_store is_signed_type remove_type_supported
  merge_eq adding link t =
      ground (arith, link.content, link.signed, make_ts_hash-eq-ok timestamp m.hash link.hashed)
  merge_eq removing link t =
      ground (arith, link.content, link.signed, make_ts_hash-eq-ok timestamp m.hash link.hashed)

  merge_steps :
      (k : LinkKind) (link : IsLink m fid timestamp type target (type_of k)) (cs : List Message)
      (event : HubEvent) (t t1 t2 t3 : Transaction)
      → get_from_db_or_txn db t.batch (compact_key ctx fid type) ≡ none
      → clear_conflicts store m (stamp timestamp m) t ≡ (ok cs, t1)
      → put_as m ctx fid timestamp type target db protobuf no_persist k t1 ≡ (ok tt, t2)
      → save_event store (merge_event_args m cs) t2 ≡ (ok event, t3)
      → merge_as k t ≡ (ok event, t3)
  unfolding merge_remove
  merge_steps adding link cs event t t1 t2 t3 no_compact clear put' save =
      merge_add_steps store m (stamp timestamp m) cs event t t1 t2 t3
        (unchecked m ctx fid timestamp type target db protobuf no_persist adding link
          (check_add store m) t no_compact)
        clear put' save
  merge_steps removing link cs event t t1 t2 t3 no_compact clear put' save =
      then_ok (compact_state_check store m (check_remove store m)) _ tt t t (
        unchecked m ctx fid timestamp type target db protobuf no_persist removing link
          (check_remove store m) t no_compact)
      ∙ (then_ok (clear_conflicts store m (stamp timestamp m)) _ cs t t1 clear
          ∙ (then_ok (put_remove_transaction store (stamp timestamp m) m) _ tt t1 t2 put' ∙ save))

  abbrev event_of : List Message → ℕ → HubEvent
  event_of cs id = record {
    type = merge_message;
    body = merge_message_body m cs;
    id = id;
    block_number = 0;
    shard_index = 0;
    timestamp = 0;
  }

  save_event_eq :
      (cs : List Message) (t : Transaction) (id : ℕ) (g' : HubEventIdGenerator)
      → generate_id t.generator merge_message ≡ (ok id, g')
      → save_event store (merge_event_args m cs) t ≡ (
        ok (event_of cs id),
        record { batch = saved protobuf no_persist t.batch id (event_of cs id); generator = g' },
      )
  unfolding save_event commit_transaction merge_event_args
  save_event_eq cs t id g' h = ground (arith, h)

  -- The merge is accepted, the messages `cs` are deleted, and the message has the slot.
  pub record IsAccepted (k : LinkKind) (cs : List Message) (n : ℕ) (t : Transaction) : Type 0 where
    pub event : HubEvent
    pub after : Transaction
    pub merges : merge store m t ≡ (ok event, after)
    pub body : event.body ≡ merge_message_body m cs
    pub takes : Stands m ctx fid timestamp type target db protobuf k after.batch
    pub room : HasRoom after.generator n

  pub clear-IsAccepted :
      (k : LinkKind) (link : IsLink m fid timestamp type target (type_of k)) (cs : List Message)
      (n : ℕ) (t : Transaction) (base : Batch)
      → HasRoom t.generator (suc n)
      → get_from_db_or_txn db t.batch (compact_key ctx fid type) ≡ none
      → clear_conflicts store m (stamp timestamp m) t ≡ (ok cs, record t { batch = base })
      → get_from_db_or_txn db base (slot_key (set_of (other k)) ctx fid type target) ≡ none
      → get_from_db_or_txn db base (compact_key ctx fid type) ≡ none
      → IsAccepted k cs n t
  clear-IsAccepted k link cs n t base room no_compact clear empty base_compact =
      let (id, g', made) =
        generate_ok t.generator merge_message room.height (omega (arith, room.sequence)) in
      let new = entries m ctx fid timestamp type target db protobuf k link base in
      record {
        event = event_of cs id;
        after = record {
          batch = saved protobuf no_persist new id (event_of cs id);
          generator = g';
        };
        merges =
            merge_eq k link t
            ∙ merge_steps k link cs (event_of cs id) t (record t { batch = base })
                (record t { batch = new }) _ no_compact clear
                (put_eq m ctx fid timestamp type target db protobuf no_persist k link
                  (record t { batch = base }))
                (save_event_eq cs (record t { batch = new }) id g' made);
        body = refl;
        takes =
            entries-Stands m ctx fid timestamp type target db protobuf no_persist k link base id
              (event_of cs id) empty base_compact;
        room = generate_id-HasRoom t.generator g' n id room made;
      }

  other_vacant :
      (k : LinkKind) (txn : Batch)
      → IsVacant db ctx fid type target txn
      → get_from_db_or_txn db txn (slot_key (set_of (other k)) ctx fid type target) ≡ none
  other_vacant adding txn vacant = vacant.no_remove
  other_vacant removing txn vacant = vacant.no_add

  pub vacant-IsAccepted :
      (k : LinkKind) (link : IsLink m fid timestamp type target (type_of k)) (n : ℕ)
      (t : Transaction)
      → HasRoom t.generator (suc n)
      → IsVacant db ctx fid type target t.batch
      → IsAccepted k [] n t
  vacant-IsAccepted k link n t room vacant =
      clear-IsAccepted k link [] n t t.batch room vacant.no_compact
        (clear_vacant m ctx fid timestamp type target k link db protobuf no_persist t vacant)
        (other_vacant k t.batch vacant) vacant.no_compact
