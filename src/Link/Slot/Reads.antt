-- ===== src/Link/Slot/Reads.antt =====
-- Reads after the writes for the slot of a link.
use hypersnap.Shared.{
  ℕ, ◌≡◌, refl, ◌∙◌, Bool, false, ◌∷◌, ◌++◌, none, some, arith, Bool-cases, inl, inr, ◌==◌,
}
use hypersnap.Bytes.{Bytes}
use hypersnap.Proto.{Message}
use hypersnap.Keys.{make_user_key_with_prefix, make_message_primary_key_with_prefix}
use hypersnap.Keys.Prefix.{
  StateContext, root_prefix, user, postfix_u8, link_adds, link_removes, link_message,
  link_compact_state_message,
}
use hypersnap.Database.{Database, Batch, bytes_eq, get_from_db_or_txn}
use hypersnap.Database.Laws.{get-put, get-delete, bytes_eq_refl}
use hypersnap.Store.Types.{HubEvent, Protobuf}
use hypersnap.Store.Codec.{message_encode}
use hypersnap.Link.Keys.{
  IsLink, slot_key, compact_key, stamp, primary_key, target_index_key, event_apart, index_apart,
  set_apart,
}
use hypersnap.Link.Slot.{
  LinkKind, adding, removing, other, type_of, set_of, entries, cleared, Stands, saved,
}

-- The key of something of a user in a set.
abbrev pub in_set : StateContext → ℕ → ℕ → Bytes → Bytes
in_set ctx fid set rest = make_user_key_with_prefix (root_prefix ctx user) fid ++ (set ∷ rest)

pub get-saved :
    (db : Database) (protobuf : Protobuf) (no_persist : Bool) (txn : Batch) (id : ℕ)
    (event : HubEvent) (ctx : StateContext) (fid set : ℕ) (rest : Bytes)
    → get_from_db_or_txn db (saved protobuf no_persist txn id event) (in_set ctx fid set rest)
      ≡ get_from_db_or_txn db txn (in_set ctx fid set rest)
unfolding make_user_key_with_prefix
get-saved db protobuf no_persist txn id event ctx fid set rest = elim (Bool-cases no_persist) [
  | inl off ↦ rw off
  | inr on ↦ rw (on, get-put, event_apart) refl
]

module _ (m : Message) (ctx : StateContext) (fid timestamp : ℕ) (type : Bytes) (target : ℕ)
    (db : Database) (protobuf : Protobuf) (set : ℕ) (rest : Bytes) where
  primary_apart :
      (postfix_u8 link_message == set) ≡ false
      → bytes_eq (primary_key ctx fid timestamp m) (in_set ctx fid set rest) ≡ false
  unfolding make_message_primary_key_with_prefix
  primary_apart h = set_apart (root_prefix ctx user) fid (postfix_u8 link_message) set _ _ h

  target_apart :
      (link : IsLink m fid timestamp type target 5)
      → bytes_eq (target_index_key m ctx fid timestamp type target 5 link) (in_set ctx fid set rest)
        ≡ false
  unfolding make_user_key_with_prefix
  target_apart link = index_apart ctx _ _

  slot_apart :
      (k : ℕ)
      → (k == set) ≡ false
      → bytes_eq (slot_key k ctx fid type target) (in_set ctx fid set rest) ≡ false
  slot_apart k h = set_apart (root_prefix ctx user) fid k set _ _ h

  -- Other sets are left alone.
  pub get-entries :
      (k : LinkKind) (link : IsLink m fid timestamp type target (type_of k)) (txn : Batch)
      → (postfix_u8 link_message == set) ≡ false
      → (set_of k == set) ≡ false
      → get_from_db_or_txn db
          (entries m ctx fid timestamp type target db protobuf k link txn)
          (in_set ctx fid set rest)
        ≡ get_from_db_or_txn db txn (in_set ctx fid set rest)
  get-entries adding link txn h h' =
      simp (get-put, target_apart link, slot_apart (postfix_u8 link_adds) h', primary_apart h)
  get-entries removing link txn h h' =
      simp (get-put, slot_apart (postfix_u8 link_removes) h', primary_apart h)

  pub get-cleared :
      (no_persist : Bool) (k : LinkKind) (link : IsLink m fid timestamp type target (type_of k))
      (txn : Batch)
      → (postfix_u8 link_message == set) ≡ false
      → (set_of k == set) ≡ false
      → get_from_db_or_txn db
          (cleared m ctx fid timestamp type target db protobuf no_persist k link txn)
          (in_set ctx fid set rest)
        ≡ get_from_db_or_txn db txn (in_set ctx fid set rest)
  get-cleared no_persist adding link txn h h' =
      simp (get-delete, target_apart link, slot_apart (postfix_u8 link_adds) h', primary_apart h)
  get-cleared no_persist removing link txn h h' =
      simp (get-delete, slot_apart (postfix_u8 link_removes) h', primary_apart h)

module _ (m : Message) (ctx : StateContext) (fid timestamp : ℕ) (type : Bytes) (target : ℕ)
    (db : Database) (protobuf : Protobuf) where
  get-entries_slot :
      (k : LinkKind) (link : IsLink m fid timestamp type target (type_of k)) (txn : Batch)
      → get_from_db_or_txn db
          (entries m ctx fid timestamp type target db protobuf k link txn)
          (slot_key (set_of k) ctx fid type target)
        ≡ some (stamp timestamp m)
  get-entries_slot adding link txn = simp (
    get-put,
    target_apart m ctx fid timestamp type target db protobuf (postfix_u8 link_adds) _ link,
    bytes_eq_refl,
  )
  get-entries_slot removing link txn = simp (get-put, bytes_eq_refl)

  slot_vs_primary :
      (set : ℕ)
      → (set == postfix_u8 link_message) ≡ false
      → bytes_eq (slot_key set ctx fid type target) (primary_key ctx fid timestamp m) ≡ false
  unfolding make_message_primary_key_with_prefix
  slot_vs_primary set h = set_apart (root_prefix ctx user) fid set (postfix_u8 link_message) _ _ h

  target_vs_primary :
      (link : IsLink m fid timestamp type target 5)
      → bytes_eq
          (target_index_key m ctx fid timestamp type target 5 link)
          (primary_key ctx fid timestamp m)
        ≡ false
  unfolding make_message_primary_key_with_prefix
  target_vs_primary link = index_apart ctx _ _

  get-entries_primary :
      (k : LinkKind) (link : IsLink m fid timestamp type target (type_of k)) (txn : Batch)
      → get_from_db_or_txn db
          (entries m ctx fid timestamp type target db protobuf k link txn)
          (primary_key ctx fid timestamp m)
        ≡ some (message_encode protobuf m)
  get-entries_primary adding link txn =
      simp (
        get-put,
        target_vs_primary link,
        slot_vs_primary (postfix_u8 link_adds) refl,
        bytes_eq_refl,
      )
  get-entries_primary removing link txn =
      simp (get-put, slot_vs_primary (postfix_u8 link_removes) refl, bytes_eq_refl)

  -- What is deleted has the slot no longer.
  pub get-cleared_slot :
      (no_persist : Bool) (k : LinkKind) (link : IsLink m fid timestamp type target (type_of k))
      (txn : Batch)
      → get_from_db_or_txn db
          (cleared m ctx fid timestamp type target db protobuf no_persist k link txn)
          (slot_key (set_of k) ctx fid type target)
        ≡ none
  get-cleared_slot no_persist adding link txn = simp (
    get-delete,
    primary_apart m ctx fid timestamp type target db protobuf (postfix_u8 link_adds) _ refl,
    bytes_eq_refl,
  )
  get-cleared_slot no_persist removing link txn = simp (
    get-delete,
    primary_apart m ctx fid timestamp type target db protobuf (postfix_u8 link_removes) _ refl,
    bytes_eq_refl,
  )

  -- A message that is written over nothing in the other set has the slot.
  pub entries-Stands :
      (no_persist : Bool) (k : LinkKind) (link : IsLink m fid timestamp type target (type_of k))
      (txn : Batch) (id : ℕ) (event : HubEvent)
      → get_from_db_or_txn db txn (slot_key (set_of (other k)) ctx fid type target) ≡ none
      → get_from_db_or_txn db txn (compact_key ctx fid type) ≡ none
      → Stands m ctx fid timestamp type target db protobuf k (
          saved protobuf no_persist
            (entries m ctx fid timestamp type target db protobuf k link txn)
            id
            event)
  unfolding make_message_primary_key_with_prefix
  entries-Stands no_persist k link txn id event empty no_compact =
      let new = entries m ctx fid timestamp type target db protobuf k link txn in
      record {
        named =
            get-saved db protobuf no_persist new id event ctx fid (set_of k) _
            ∙ get-entries_slot k link txn;
        alone =
            get-saved db protobuf no_persist new id event ctx fid (set_of (other k)) _
            ∙ get-entries m ctx fid timestamp type target db protobuf (set_of (other k)) _ k link
                txn (ground arith) (ground arith)
            ∙ empty;
        stored =
            get-saved db protobuf no_persist new id event ctx fid (postfix_u8 link_message) _
            ∙ get-entries_primary k link txn;
        no_compact =
            get-saved db protobuf no_persist new id event ctx fid
              (postfix_u8 link_compact_state_message) _
            ∙ get-entries m ctx fid timestamp type target db protobuf
                (postfix_u8 link_compact_state_message) _ k link txn refl (ground arith)
            ∙ no_compact;
      }
