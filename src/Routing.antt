-- ===== src/Routing.antt =====
-- Which shard a message goes to: src/mempool/routing.rs, with the accessors of proto/src/lib.rs. SHA-256 (the
-- sha2 crate) is a parameter.
pub mod Shards
use hypersnap.Shared.{
  ℕ, ◌+◌, ◌%◌, ◌^◌, Bool, true, false, List, [], ◌∷◌, Option, none, some, Result, ok, err, Error,
  ◌==◌, take, if◌then◌else◌,
}
use hypersnap.Bytes.{Bytes}
use hypersnap.Proto.{
  Message, MessageData, MessageType, message_type_of, none_type, lend_storage, key_add, key_remove,
}
use hypersnap.Keys.BigEndian.{be_bytes_4, be_number_4}

unfoldable pub fid_of : Message → ℕ
fid_of message = elim message.message_data [ none ↦ 0 | some d ↦ d.fid ]

abbrev or_none : Option MessageType → MessageType
or_none none = none_type
or_none (some type) = type

unfoldable pub msg_type : Message → MessageType
unfolding message_type_of
msg_type message = elim message.message_data [
  | none ↦ none_type
  | some d ↦ or_none (message_type_of d.type)
]

-- `ShardRouter`: a remainder by 0 is a panic, and the sum wraps around in 32 bits.
unfoldable pub route_fid : (Bytes → Bytes) → ℕ → ℕ → Result Error ℕ
unfolding be_bytes_4 be_number_4
route_fid sha256 fid num_shards =
    if num_shards == 0
    then err Error.panic
    else ok ((be_number_4 (take 4 (sha256 (be_bytes_4 (fid % 2 ^ 32)))) % num_shards + 1) % 2 ^ 32)

abbrev pub is_global : MessageType → Bool
is_global lend_storage = true
is_global key_add = true
is_global key_remove = true
is_global _ = false

-- The router is any that gives a shard for a fid.
unfoldable pub route_message : (ℕ → ℕ → Result Error ℕ) → Message → ℕ → Result Error ℕ
unfolding fid_of msg_type
route_message router message num_shards =
    if is_global (msg_type message) then ok 0 else router (fid_of message) num_shards
