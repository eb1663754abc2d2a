-- ===== src/Store/Types.antt =====
-- The trait `StoreDef`, the struct `Store`, hub events and the state that a transaction threads:
-- the batch and the id generator. Code that takes `&mut txn` and returns a `Result` is an action of
-- `Exec`: what it wrote before an error stays written.
use hypersnap.Shared.{
  ℕ, Ordering, Bool, true, false, List, Option, Result, ok, err, Error, ◌==◌, not,
}
use hypersnap.Bytes.{Bytes}
use hypersnap.Proto.{Message, MessageData, UserNameProof, none_type, type_number}
use hypersnap.Keys.Prefix.{StateContext}
use hypersnap.Events.{
  HubEventType, HubEventIdGenerator, merge_message, prune_message, revoke_message,
}
use hypersnap.Database.{Batch, Database}

-- `hub_event::Body`, for the events of a store
pub data EventBody : Type 0 where
  merge_message_body : Message → List Message → EventBody
  prune_message_body : Message → EventBody
  revoke_message_body : Message → EventBody
  -- a name of the registry, with the proof that it replaces
  merge_username_proof_body : UserNameProof → Option UserNameProof → EventBody

pub record HubEvent : Type 0 where
  pub type : HubEventType
  pub body : EventBody
  pub id : ℕ
  pub block_number : ℕ
  pub shard_index : ℕ
  pub timestamp : ℕ

pub record Transaction : Type 0 where
  pub batch : Batch
  pub generator : HubEventIdGenerator

abbrev pub Exec : Type 0 → Type 0
Exec A = Transaction → Result Error A × Transaction

module _ {A : Type 0} where
  abbrev pub pure : A → Exec A
  pure a t = (ok a, t)

  abbrev pub fail : Error → Exec A
  fail e t = (err e, t)

  -- `?` on a value that needs no transaction
  abbrev pub lift : Result Error A → Exec A
  lift r t = (r, t)

abbrev pub modify : (Batch → Batch) → Exec (Unit {0})
modify f t = (ok tt, record t { batch = f t.batch })

module _ {A B : Type 0} where
  abbrev pub continue : Result Error A → (A → Exec B) → Exec B
  continue (ok a) f t = f a t
  continue (err e) f t = (err e, t)

  infixl 5 ◌>>=◌ ◌>>◌
  abbrev pub ◌>>=◌ : Exec A → (A → Exec B) → Exec B
  ◌>>=◌ m f t = continue (m t).0 f (m t).1

  abbrev pub ◌>>◌ : Exec A → Exec B → Exec B
  m >> n = m >>= λ _. n

-- The protobuf encoding (the prost crate and the code that it generates).
pub record Protobuf : Type 0 where
  pub encode : Message → Bytes
  pub decode : Bytes → Option Message
  pub decode_data : Bytes → Option MessageData
  pub encode_event : HubEvent → Bytes

pub record StoreDef : Type 0 where
  pub postfix : ℕ
  pub add_message_type : ℕ
  pub remove_message_type : ℕ
  pub compact_state_message_type : ℕ
  pub is_add_type : Message → Bool
  pub is_remove_type : Message → Bool
  pub is_compact_state_type : Message → Bool
  pub build_secondary_indices : Bytes → Message → StateContext → Exec (Unit {0})
  pub delete_secondary_indices : Bytes → Message → StateContext → Exec (Unit {0})
  pub make_add_key : Message → StateContext → Result Error Bytes
  pub make_remove_key : Message → StateContext → Result Error Bytes
  pub make_compact_state_add_key : Message → StateContext → Result Error Bytes
  pub make_compact_state_prefix : ℕ → StateContext → Result Error Bytes
  -- `message_compare`, where a kind of store has its own
  pub own_message_compare : Option (ℕ → Bytes → ℕ → Bytes → Result Error Ordering)

unfoldable pub remove_type_supported : StoreDef → Bool
remove_type_supported d = not (d.remove_message_type == type_number none_type)

unfoldable pub compact_state_type_supported : StoreDef → Bool
compact_state_type_supported d = not (d.compact_state_message_type == type_number none_type)

pub record StoreOptions : Type 0 where
  pub conflict_free : Bool
  pub save_hub_events : Bool

abbrev pub default_options : StoreOptions
default_options = record { conflict_free = false; save_hub_events = true }

-- `no_persist` is the field of the store's event handler.
pub record Store : Type 0 where
  pub store_def : StoreDef
  pub db : Database
  pub store_opts : StoreOptions
  pub state_context : StateContext
  pub protobuf : Protobuf
  pub no_persist : Bool

-- `HubEvent::new_event`: the id is filled in later.
unfoldable pub new_event : HubEventType → EventBody → HubEvent
new_event type body = record {
  type = type;
  body = body;
  id = 0;
  block_number = 0;
  shard_index = 0;
  timestamp = 0;
}

unfoldable pub revoke_event_args : Message → HubEvent
unfolding new_event
revoke_event_args message = new_event revoke_message (revoke_message_body message)

unfoldable pub merge_event_args : Message → List Message → HubEvent
unfolding new_event
merge_event_args message merge_conflicts =
    new_event merge_message (merge_message_body message merge_conflicts)

unfoldable pub prune_event_args : Message → HubEvent
unfolding new_event
prune_event_args message = new_event prune_message (prune_message_body message)
