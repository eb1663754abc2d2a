-- ===== src/Link/Slot.antt =====
-- The slot of a link (a user, a type and a target) of src/storage/store/account/link_store.rs: the adds and
-- removes that compete for it, and what they write and delete.
mod Reads
pub mod Parts
pub mod Meeting
pub mod Steps
mod Encounters
pub mod Latest
pub mod Winner
use hypersnap.Shared.{ℕ, ◌≡◌, Bool, none, some, if◌then◌else◌}
use hypersnap.Bytes.{Bytes}
use hypersnap.Proto.{Message}
use hypersnap.Keys.Prefix.{StateContext, postfix_u8, link_adds, link_removes}
use hypersnap.Events.{make_event_key}
use hypersnap.Database.{Database, Batch, put, delete, get_from_db_or_txn}
use hypersnap.Store.Types.{HubEvent, Protobuf}
use hypersnap.Store.Codec.{Decodes, message_encode}
use hypersnap.Link.Keys.{IsLink, slot_key, compact_key, stamp, primary_key, written}
use hypersnap.Link.Revoking.{removed}

pub data LinkKind : Type 0 where
  adding : LinkKind
  removing : LinkKind

abbrev pub other : LinkKind → LinkKind
other adding = removing
other removing = adding

-- The message type.
abbrev pub type_of : LinkKind → ℕ
type_of adding = 5
type_of removing = 6

-- The set that names the message.
abbrev pub set_of : LinkKind → ℕ
set_of adding = postfix_u8 link_adds
set_of removing = postfix_u8 link_removes

module _ (protobuf : Protobuf) (fid : ℕ) (type : Bytes) (target : ℕ) where
  -- A message for the slot: a well-formed add or remove of the link, which decodes from its encoding.
  pub record Rival : Type 0 where
    pub message : Message
    pub timestamp : ℕ
    pub kind : LinkKind
    pub link : IsLink message fid timestamp type target (type_of kind)
    pub law : Decodes protobuf message

module _ (m : Message) (ctx : StateContext) (fid timestamp : ℕ) (type : Bytes) (target : ℕ)
    (db : Database) (protobuf : Protobuf) where
  -- The entries of the message.
  abbrev pub entries :
      (k : LinkKind) → IsLink m fid timestamp type target (type_of k) → Batch → Batch
  entries adding link txn = written m ctx fid timestamp type target 5 link protobuf txn
  entries removing link txn =
      put (put txn (primary_key ctx fid timestamp m) (message_encode protobuf m))
        (slot_key (postfix_u8 link_removes) ctx fid type target) (stamp timestamp m)

  abbrev pub cleared :
      Bool → (k : LinkKind) → IsLink m fid timestamp type target (type_of k) → Batch → Batch
  cleared no_persist adding link txn =
      removed m ctx fid timestamp type target link db protobuf no_persist txn
  cleared no_persist removing link txn =
      delete (delete txn (slot_key (postfix_u8 link_removes) ctx fid type target))
        (primary_key ctx fid timestamp m)

  -- The message has the slot: its set names it, the other set does not, and it is stored; there is no
  -- compact state.
  pub record Stands (k : LinkKind) (txn : Batch) : Type 0 where
    pub named :
        get_from_db_or_txn db txn (slot_key (set_of k) ctx fid type target)
        ≡ some (stamp timestamp m)
    pub alone : get_from_db_or_txn db txn (slot_key (set_of (other k)) ctx fid type target) ≡ none
    pub stored :
        get_from_db_or_txn db txn (primary_key ctx fid timestamp m)
        ≡ some (message_encode protobuf m)
    pub no_compact : get_from_db_or_txn db txn (compact_key ctx fid type) ≡ none

-- Nothing has the slot.
pub record IsVacant (db : Database) (ctx : StateContext) (fid : ℕ) (type : Bytes) (target : ℕ)
    (txn : Batch) : Type 0 where
  pub no_add :
      get_from_db_or_txn db txn (slot_key (postfix_u8 link_adds) ctx fid type target) ≡ none
  pub no_remove :
      get_from_db_or_txn db txn (slot_key (postfix_u8 link_removes) ctx fid type target) ≡ none
  pub no_compact : get_from_db_or_txn db txn (compact_key ctx fid type) ≡ none

-- The batch with an event in it, unless events are not kept.
abbrev pub saved : Protobuf → Bool → Batch → ℕ → HubEvent → Batch
saved protobuf no_persist txn id event =
    if no_persist then txn else put txn (make_event_key id) (protobuf.encode_event event)
