-- ===== src/Link/Keys.antt =====
-- The keys that a link message is stored under, what is written for an add, and that these keys are apart.
use hypersnap.Shared.{
  ℕ, ◌<◌, ◌≤◌, ◌≡◌, refl, ◌∙◌, Bool, false, [], ◌∷◌, ◌++◌, Option, none, some, ok, length, arith,
  ◌==◌,
}
use hypersnap.Bytes.{Bytes}
use hypersnap.Proto.{Message, MessageData, LinkBody, link_body, message_type_of}
use hypersnap.Keys.{
  make_user_key_with_prefix, make_message_primary_key_with_prefix, make_fid_key, hash_length,
  type_to_set_postfix,
}
use hypersnap.Keys.BigEndian.{be_bytes_4}
use hypersnap.Keys.RoundTrip.{make_ts_hash-eq-ok}
use hypersnap.Keys.Prefix.{
  StateContext, legacy, hyper, root_prefix, user, links_by_target, postfix_u8, link_adds,
  link_removes, link_message, link_compact_state_message,
}
use hypersnap.Events.{make_event_key}
use hypersnap.Database.{Database, Batch, bytes_eq, get_from_db_or_txn, put}
use hypersnap.Database.Laws.{bytes_eq-append_left}
use hypersnap.Store.Types.{
  remove_type_supported, compact_state_type_supported, Store, Transaction, Protobuf,
  default_options,
}
use hypersnap.Store.Compare.{message_compare, store_compare}
use hypersnap.Store.Codec.{message_encode, message_key, put_message_transaction_with_prefix}
use hypersnap.Store.Conflicts.{user_prefix, get_merge_conflicts}
use hypersnap.Store.Writes.{put_add_transaction}
use hypersnap.Store.Merge.{compact_state_check, check_add}
use hypersnap.Link.{
  build_secondary_indices, link_store, is_empty, ed25519, resize, make_add_key, make_remove_key,
  make_compact_state_add_key, secondary_index_key,
}

abbrev pub link_data : ℕ → ℕ → ℕ → ℕ → LinkBody → MessageData
link_data type fid timestamp network body = record {
  type = type;
  fid = fid;
  timestamp = timestamp;
  network = network;
  body = some (link_body body);
}

-- A link store that saves its events and resolves conflicts.
abbrev pub links : Database → Protobuf → StateContext → Bool → Store
links db protobuf ctx no_persist = record {
  store_def = link_store;
  db = db;
  store_opts = default_options;
  state_context = ctx;
  protobuf = protobuf;
  no_persist = no_persist;
}

-- A link with a target and a type of 1 to 8 bytes, as validation lets it through.
pub record IsLink (m : Message) (fid timestamp : ℕ) (type : Bytes) (target : ℕ) (message_type : ℕ)
    : Type 0 where
  pub network : ℕ
  pub display : Option ℕ
  pub signed : m.signature_scheme ≡ ed25519
  pub content :
      m.message_data
      ≡ some (
          link_data message_type fid timestamp network
            (record { type = type; display_timestamp = display; target_fid = some target }))
  pub owned : 0 < fid
  pub typed : 1 ≤ length type
  pub short : length type ≤ 8
  pub hashed : length m.hash ≡ hash_length

abbrev pub slot_key : ℕ → StateContext → ℕ → Bytes → ℕ → Bytes
slot_key set ctx fid type target =
    make_user_key_with_prefix (root_prefix ctx user) fid
    ++ (set ∷ (resize 8 type ++ make_fid_key target))

abbrev pub compact_key : StateContext → ℕ → Bytes → Bytes
compact_key ctx fid type =
    make_user_key_with_prefix (root_prefix ctx user) fid
    ++ (postfix_u8 link_compact_state_message ∷ resize 8 type)

abbrev pub stamp : ℕ → Message → Bytes
stamp timestamp m = be_bytes_4 timestamp ++ m.hash

abbrev pub primary_key : StateContext → ℕ → ℕ → Message → Bytes
primary_key ctx fid timestamp m =
    make_message_primary_key_with_prefix (root_prefix ctx user) fid (postfix_u8 link_message)
      (some (stamp timestamp m))

not_empty : (type : Bytes) → 1 ≤ length type → is_empty type ≡ false
not_empty [] h = absurd (omega arith)
not_empty (b ∷ bs) h = refl

module _ (m : Message) (ctx : StateContext) (fid timestamp : ℕ) (type : Bytes)
    (target message_type : ℕ) (link : IsLink m fid timestamp type target message_type) where
  pub add_key_eq : make_add_key m ctx ≡ ok (slot_key (postfix_u8 link_adds) ctx fid type target)
  unfolding make_add_key
  add_key_eq = ground (arith, link.content, not_empty type link.typed)

  pub remove_key_eq :
      make_remove_key m ctx ≡ ok (slot_key (postfix_u8 link_removes) ctx fid type target)
  unfolding make_remove_key
  remove_key_eq = ground (arith, link.content, not_empty type link.typed)

  pub compact_key_eq : make_compact_state_add_key m ctx ≡ ok (compact_key ctx fid type)
  unfolding make_compact_state_add_key
  compact_key_eq = rw link.content

  abbrev pub target_index_key : Bytes
  target_index_key =
      root_prefix ctx links_by_target
      ∷ (make_fid_key target ++ (stamp timestamp m ++ make_fid_key fid))

  pub index_key_eq : secondary_index_key (stamp timestamp m) m ctx ≡ ok (target_index_key, type)
  unfolding secondary_index_key be_bytes_4
  index_key_eq = ground (arith, link.content, link.owned)

  pub message_key_eq :
      (protobuf : Protobuf)
      → message_type ≡ 5
      → message_key protobuf m (root_prefix ctx user) ≡ ok (primary_key ctx fid timestamp m)
  unfolding message_key message_type_of type_to_set_postfix
  message_key_eq protobuf add =
      ground (arith, link.content, make_ts_hash-eq-ok timestamp m.hash link.hashed)

  -- The three entries of a link add.
  abbrev pub written : Protobuf → Batch → Batch
  written protobuf txn =
      put
        (put (put txn (primary_key ctx fid timestamp m) (message_encode protobuf m))
          (slot_key (postfix_u8 link_adds) ctx fid type target) (stamp timestamp m))
        target_index_key type

  module _ (db : Database) (protobuf : Protobuf) (no_persist : Bool) (t : Transaction) where
    pub put_add_eq :
        message_type ≡ 5
        → put_add_transaction (links db protobuf ctx no_persist) (stamp timestamp m) m t
          ≡ (ok tt, record t { batch = written protobuf t.batch })
    unfolding put_add_transaction put_message_transaction_with_prefix user_prefix link_store
        build_secondary_indices
    put_add_eq add = ground (arith, message_key_eq protobuf add, add_key_eq, index_key_eq)

    pub get_merge_conflicts_eq :
        get_from_db_or_txn db t.batch (slot_key (postfix_u8 link_adds) ctx fid type target) ≡ none
        → get_from_db_or_txn db t.batch (slot_key (postfix_u8 link_removes) ctx fid type target)
          ≡ none
        → get_merge_conflicts (links db protobuf ctx no_persist) t.batch m (stamp timestamp m)
          ≡ ok []
    unfolding get_merge_conflicts link_store remove_type_supported
    get_merge_conflicts_eq no_add no_remove = ground (arith, add_key_eq, remove_key_eq)

    pub compact_state_check_eq :
        get_from_db_or_txn db t.batch (compact_key ctx fid type) ≡ none
        → compact_state_check
            (links db protobuf ctx no_persist)
            m
            (check_add (links db protobuf ctx no_persist) m)
            t
          ≡ (ok tt, t)
    unfolding compact_state_check link_store compact_state_type_supported
    compact_state_check_eq no_compact = ground (arith, compact_key_eq)

-- Links have no comparison of their own.
pub link_compare :
    (a : ℕ) (x : Bytes) (b : ℕ) (y : Bytes)
    → store_compare link_store a x b y ≡ message_compare link_store a x b y
unfolding store_compare message_compare link_store
link_compare a x b y = refl

-- No event key and no index entry lies among the keys of user data.
pub event_apart :
    (ctx : StateContext) (id : ℕ) (k : Bytes)
    → bytes_eq (make_event_key id) (root_prefix ctx user ∷ k) ≡ false
unfolding bytes_eq make_event_key root_prefix
event_apart legacy id k = refl
event_apart hyper id k = refl

pub index_apart :
    (ctx : StateContext) (j k : Bytes)
    → bytes_eq (root_prefix ctx links_by_target ∷ j) (root_prefix ctx user ∷ k) ≡ false
unfolding bytes_eq root_prefix
index_apart legacy j k = refl
index_apart hyper j k = refl

-- A key of a set is no message key, and no key of another set.
pub set_apart :
    (prefix fid a b : ℕ) (j k : Bytes)
    → (a == b) ≡ false
    → bytes_eq
        (make_user_key_with_prefix prefix fid ++ (a ∷ j))
        (make_user_key_with_prefix prefix fid ++ (b ∷ k))
      ≡ false
set_apart prefix fid a b j k h =
    bytes_eq-append_left (make_user_key_with_prefix prefix fid) (a ∷ j) (b ∷ k)
    ∙ (unfold bytes_eq in rw h)
