-- ===== src/Mempool.antt =====
-- The mempool: src/mempool/mempool.rs and the messages of src/storage/store/mempool_poller.rs.
-- This file has the messages and their keys; Pool the ordered map of a shard, Admission the checks, Flow the
-- operations, Runs the sequences of them.
pub mod Order
pub mod Pool
pub mod Admission
pub mod Flow
pub mod Pulling
pub mod Draining
pub mod Invariant
pub mod Runs
pub mod Inserting
use hypersnap.Shared.{
  ℕ, zero, suc, ◌+◌, ◌/◌, ◌%◌, Bool, true, false, List, [], ◌∷◌, ◌++◌, Option, none, some, Result,
  ok, err, Error, Ordering, compare, ltb, ◌>>=◌, unwrap, if◌then◌else◌,
}
use hypersnap.Bytes.{Bytes, bytes_compare}
use hypersnap.Proto.{Message}
use hypersnap.Proto.Blocks.{
  OnChainEvent, FnameTransfer, BlockEvent, BlockEventData, BlockEventBody, heartbeat_event_body,
  merge_message_event_body, ValidatorMessage,
}
use hypersnap.Routing.{fid_of}
use hypersnap.Version.{to_unix_seconds}

pub data MempoolMessage : Type 0 where
  user_message : Message → MempoolMessage
  onchain_event onchain_event_for_migration : OnChainEvent → MempoolMessage
  fname_transfer : FnameTransfer → MempoolMessage
  block_event : ℕ → BlockEvent → MempoolMessage

pub data MempoolMessageKind : Type 0 where
  validator_message : MempoolMessageKind
  user_message_kind : MempoolMessageKind

-- The value of the enum, by which kinds are ordered.
unfoldable pub kind_number : MempoolMessageKind → ℕ
kind_number validator_message = 1
kind_number user_message_kind = 2

-- A string is its bytes.
pub record MempoolKey : Type 0 where
  pub message_kind : MempoolMessageKind
  pub timestamp : ℕ
  pub identity : Bytes

-- The derived `Ord`, field after field; strings are ordered by their bytes.
unfoldable pub key_compare : MempoolKey → MempoolKey → Ordering
unfolding kind_number
key_compare a b = elim (compare (kind_number a.message_kind) (kind_number b.message_kind)) [
  | Ordering.lt ↦ Ordering.lt
  | Ordering.gt ↦ Ordering.gt
  | Ordering.eq ↦ elim (compare a.timestamp b.timestamp) [
    | Ordering.lt ↦ Ordering.lt
    | Ordering.gt ↦ Ordering.gt
    | Ordering.eq ↦ bytes_compare a.identity b.identity
  ]
]

abbrev pub make_key : MempoolMessageKind → ℕ → Bytes → MempoolKey
make_key message_kind timestamp identity = record {
  message_kind = message_kind;
  timestamp = timestamp;
  identity = identity;
}

-- The decimal digits of a number, in ASCII.
abbrev digits : ℕ → ℕ → Bytes
digits zero n = []
digits (suc fuel) n =
    let before = digits fuel (n / 10) in
    if ltb n 10 then (48 + n) ∷ [] else before ++ ((48 + n % 10) ∷ [])

-- `to_string` of a 64-bit number, which has at most 20 digits.
unfoldable pub to_string : ℕ → Bytes
to_string n = digits 20 n

-- "unknown"
abbrev unknown : Bytes
unknown = 117 ∷ 110 ∷ 107 ∷ 110 ∷ 111 ∷ 119 ∷ 110 ∷ []

-- `MempoolMessage::fid`; an `unwrap` of a field that is not there is a panic.
abbrev body_fid : Option BlockEventBody → Result Error ℕ
body_fid none = ok 0
body_fid (some heartbeat_event_body) = ok 0
body_fid (some (merge_message_event_body message)) = unwrap message >>= λ m. ok (fid_of m)

unfoldable pub fid : MempoolMessage → Result Error ℕ
unfolding fid_of
fid (user_message message) = ok (fid_of message)
fid (onchain_event event) = ok event.fid
fid (onchain_event_for_migration event) = ok event.fid
fid (fname_transfer transfer) = unwrap transfer.proof >>= λ proof. ok proof.fid
fid (block_event for_shard event) = elim event.event_data [ none ↦ ok 0 | some d ↦ body_fid d.body ]

-- `hex::encode` of the hex crate is a parameter.
module _ (hex : Bytes → Bytes) where
  unfoldable pub message_mempool_key : Message → Result Error MempoolKey
  unfolding to_unix_seconds
  message_mempool_key message = elim message.message_data [
    | none ↦ err Error.panic
    | some d ↦ ok (make_key user_message_kind (to_unix_seconds d.timestamp) (hex message.hash))
  ]

  abbrev of_block_event : Option BlockEvent → Result Error MempoolKey
  of_block_event none = ok (make_key validator_message 0 unknown)
  of_block_event (some event) = unwrap event.event_data >>= λ d.
      ok (make_key validator_message d.block_timestamp (to_string d.seqnum))

  abbrev of_fname_transfer : Option FnameTransfer → Option BlockEvent → Result Error MempoolKey
  of_fname_transfer none event = of_block_event event
  of_fname_transfer (some transfer) event = unwrap transfer.proof >>= λ proof.
      ok (make_key validator_message proof.timestamp (to_string transfer.id))

  unfoldable pub validator_mempool_key : ValidatorMessage → Result Error MempoolKey
  unfolding to_string
  validator_mempool_key message = elim message.on_chain_event [
    | some event ↦ ok (
        make_key validator_message event.block_timestamp
          (hex event.transaction_hash ++ to_string event.log_index))
    | none ↦ of_fname_transfer message.fname_transfer message.block_event
  ]

  unfoldable pub mempool_key : MempoolMessage → Result Error MempoolKey
  unfolding message_mempool_key validator_mempool_key
  mempool_key (user_message message) = message_mempool_key message
  mempool_key (onchain_event event) =
      validator_mempool_key
        (record { on_chain_event = some event; fname_transfer = none; block_event = none })
  mempool_key (onchain_event_for_migration event) =
      validator_mempool_key
        (record { on_chain_event = some event; fname_transfer = none; block_event = none })
  mempool_key (fname_transfer transfer) =
      validator_mempool_key
        (record { on_chain_event = none; fname_transfer = some transfer; block_event = none })
  mempool_key (block_event for_shard event) =
      validator_mempool_key
        (record { on_chain_event = none; fname_transfer = none; block_event = some event })
