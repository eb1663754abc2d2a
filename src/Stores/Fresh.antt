-- ===== src/Stores/Fresh.antt =====
-- A message merged into an empty slot of any store without compact states: what `merge_add` and `get_add` of
-- src/storage/store/account/store.rs answer, from what the store's definition does with the message.
use hypersnap.Shared.{
  ℕ, ◌^◌, ◌<◌, ◌≡◌, refl, ◌∙◌, Bool, false, [], ◌∷◌, none, some, ok, length, arith, Bool-cases, inl,
  inr, if◌then◌else◌,
}
use hypersnap.Bytes.{Bytes, vec_to_u8_24}
use hypersnap.Proto.{Message, MessageData}
use hypersnap.Keys.{make_message_primary_key_with_prefix, ts_hash_length}
use hypersnap.Keys.Prefix.{StateContext, root_prefix, user}
use hypersnap.Events.{merge_message, HubEventIdGenerator, generate_id, make_event_key}
use hypersnap.Database.{Database, Batch, bytes_eq, get_from_db_or_txn, put}
use hypersnap.Database.Laws.{get-put, bytes_eq_refl}
use hypersnap.Store.Types.{
  Store, StoreDef, Transaction, HubEvent, merge_message_body, Protobuf, merge_event_args,
  default_options, compact_state_type_supported,
}
use hypersnap.Store.Codec.{
  Decodes, message_encode, message_decode-message_encode, get_message_with_prefix, message_key,
  put_message_transaction_with_prefix,
}
use hypersnap.Store.Conflicts.{user_prefix, get_merge_conflicts, get_remove_conflicts}
use hypersnap.Store.Writes.{commit_transaction, put_add_transaction}
use hypersnap.Store.Merge.{merge_add, get_add, save_event, compact_state_check, check_add}
use hypersnap.Store.Merge.Accepted.{no_conflicts, merge_add_steps}
use hypersnap.Link.Merging.{generate_ok}
use hypersnap.Link.Keys.{event_apart}

-- A store that saves its events and resolves conflicts.
abbrev pub store_of : StoreDef → Database → Protobuf → StateContext → Bool → Store
store_of def db protobuf ctx no_persist = record {
  store_def = def;
  db = db;
  store_opts = default_options;
  state_context = ctx;
  protobuf = protobuf;
  no_persist = no_persist;
}

-- What a store's definition does with a message and its ts_hash: the keys it makes (all among the user's keys,
-- which start with the prefix), and its index entries, which hide none of them.
pub record Slot (def : StoreDef) (db : Database) (protobuf : Protobuf) (ctx : StateContext)
    (m : Message) (ts_hash : Bytes) : Type 0 where
  pub d : MessageData
  pub slot : Bytes
  pub primary : Bytes
  pub indexed : Batch → Batch
  pub content : m.message_data ≡ some d
  pub owned : 0 < d.fid
  pub stamped : length ts_hash ≡ ts_hash_length
  pub no_compact : compact_state_type_supported def ≡ false
  pub adds : def.make_add_key m ctx ≡ ok (root_prefix ctx user ∷ slot)
  pub keyed : message_key protobuf m (root_prefix ctx user) ≡ ok (root_prefix ctx user ∷ primary)
  pub named :
      make_message_primary_key_with_prefix (root_prefix ctx user) d.fid def.postfix (some ts_hash)
      ≡ root_prefix ctx user ∷ primary
  pub apart : bytes_eq (root_prefix ctx user ∷ slot) (root_prefix ctx user ∷ primary) ≡ false
  pub indexes :
      (t : Transaction)
      → def.build_secondary_indices ts_hash m ctx t ≡ (ok tt, record t { batch = indexed t.batch })
  pub unhidden :
      (txn : Batch) (k : Bytes)
      → get_from_db_or_txn db (indexed txn) (root_prefix ctx user ∷ k)
        ≡ get_from_db_or_txn db txn (root_prefix ctx user ∷ k)

module _ (def : StoreDef) (db : Database) (protobuf : Protobuf) (ctx : StateContext) (m : Message)
    (ts_hash : Bytes) (no_persist : Bool) (at : Slot def db protobuf ctx m ts_hash) where
  abbrev store : Store
  store = store_of def db protobuf ctx no_persist

  abbrev slot_key : Bytes
  slot_key = root_prefix ctx user ∷ at.slot

  abbrev primary_key : Bytes
  primary_key = root_prefix ctx user ∷ at.primary

  abbrev written : Batch → Batch
  written txn = at.indexed (put (put txn primary_key (message_encode protobuf m)) slot_key ts_hash)

  abbrev with_event : Batch → ℕ → HubEvent → Batch
  with_event txn id event =
      if no_persist then txn else put txn (make_event_key id) (protobuf.encode_event event)

  abbrev merged_event : ℕ → HubEvent
  merged_event id = record (merge_event_args m []) { id = id }

  get-with_event :
      (txn : Batch) (id : ℕ) (event : HubEvent) (k : Bytes)
      → get_from_db_or_txn db (with_event txn id event) (root_prefix ctx user ∷ k)
        ≡ get_from_db_or_txn db txn (root_prefix ctx user ∷ k)
  get-with_event txn id event k = elim (Bool-cases no_persist) [
    | inl off ↦ rw off
    | inr on ↦ rw (on, get-put, event_apart) refl
  ]

  get_index : (txn : Batch) → get_from_db_or_txn db (written txn) slot_key ≡ some ts_hash
  get_index txn = at.unhidden _ at.slot ∙ simp (get-put, bytes_eq_refl)

  get_primary :
      (txn : Batch)
      → get_from_db_or_txn db (written txn) primary_key ≡ some (message_encode protobuf m)
  get_primary txn = at.unhidden _ at.primary ∙ simp (get-put, at.apart, bytes_eq_refl)

  put_add_eq :
      (t : Transaction)
      → put_add_transaction store ts_hash m t ≡ (ok tt, record t { batch = written t.batch })
  unfolding put_add_transaction put_message_transaction_with_prefix user_prefix
  put_add_eq t =
      let txn = put (put t.batch primary_key (message_encode protobuf m)) slot_key ts_hash in
      ground (arith, at.keyed, at.adds, at.indexes (record t { batch = txn }))

  get_merge_conflicts_eq :
      (t : Transaction)
      → get_remove_conflicts store t.batch m ts_hash ≡ ok []
      → get_from_db_or_txn db t.batch slot_key ≡ none
      → get_merge_conflicts store t.batch m ts_hash ≡ ok []
  unfolding get_merge_conflicts
  get_merge_conflicts_eq t no_remove no_add = ground (arith, at.adds, no_remove, no_add)

  compact_state_check_eq :
      (t : Transaction) → compact_state_check store m (check_add store m) t ≡ (ok tt, t)
  unfolding compact_state_check
  compact_state_check_eq t = ground (arith, at.no_compact)

  save_event_eq :
      (t : Transaction) (id : ℕ) (g' : HubEventIdGenerator)
      → generate_id t.generator merge_message ≡ (ok id, g')
      → save_event store (merge_event_args m []) t ≡ (
        ok (merged_event id),
        record { batch = with_event t.batch id (merged_event id); generator = g' },
      )
  unfolding save_event commit_transaction merge_event_args
  save_event_eq t id g' h = ground (arith, h)

  stored_message :
      (txn : Batch)
      → get_from_db_or_txn db txn primary_key ≡ some (message_encode protobuf m)
      → Decodes protobuf m
      → get_message_with_prefix protobuf db txn (root_prefix ctx user) at.d.fid def.postfix ts_hash
        ≡ ok (some m)
  unfolding get_message_with_prefix
  stored_message txn h law =
      ground (arith, at.named, h, message_decode-message_encode protobuf m law)

  get_add_eq :
      (txn : Batch)
      → get_from_db_or_txn db txn slot_key ≡ some ts_hash
      → get_from_db_or_txn db txn primary_key ≡ some (message_encode protobuf m)
      → Decodes protobuf m
      → get_add store txn m ≡ ok (some m)
  unfolding get_add user_prefix vec_to_u8_24
  get_add_eq txn hi hp law =
      ground (arith, at.content, at.owned, at.adds, hi, at.stamped, stored_message txn hp law)

  pub merge_into_empty :
      (t : Transaction)
      → t.generator.current_height < 2 ^ 50
      → t.generator.current_seq < 2 ^ 14
      → Decodes protobuf m
      → get_remove_conflicts store t.batch m ts_hash ≡ ok []
      → get_from_db_or_txn db t.batch slot_key ≡ none
      → (event : HubEvent) × (t' : Transaction) × (merge_add store ts_hash m t ≡ (ok event, t'))
        × (event.body ≡ merge_message_body m [])
        × (get_add store t'.batch m ≡ ok (some m))
  unfolding merge_event_args
  merge_into_empty t hh hs law no_remove no_add =
      let (id, g', made) = generate_ok t.generator merge_message hh hs in
      let after : Batch = with_event (written t.batch) id (merged_event id) in
      (
        merged_event id,
        record { batch = after; generator = g' },
        merge_add_steps store m ts_hash [] (merged_event id) t t
            (record t { batch = written t.batch }) (record { batch = after; generator = g' })
            (compact_state_check_eq t)
            (no_conflicts store m ts_hash t (get_merge_conflicts_eq t no_remove no_add))
            (put_add_eq t) (save_event_eq (record t { batch = written t.batch }) id g' made),
        refl,
        get_add_eq after (get-with_event _ id _ at.slot ∙ get_index t.batch)
            (get-with_event _ id _ at.primary ∙ get_primary t.batch) law,
      )
