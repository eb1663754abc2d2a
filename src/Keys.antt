-- ===== src/Keys.antt =====
-- The key layout: src/storage/constants.rs, `StateContext` of src/hyper/mod.rs and the key functions
-- of src/storage/store/account/message.rs.
pub mod BigEndian
pub mod Prefix
pub mod RoundTrip
pub mod Order
pub mod Isolation
use hypersnap.Shared.{
  ℕ, ◌+◌, ◌%◌, ◌^◌, ◌<◌, Bool, true, false, List, [], ◌∷◌, ◌++◌, length, take, drop, Option, none,
  some, Result, ok, err, Error, hub, panic, ltb, ◌==◌, if◌then◌else◌,
}
use hypersnap.Bytes.{Bytes}
use hypersnap.Proto.{
  MessageType, cast_add, cast_remove, reaction_add, reaction_remove, verification_add_eth_address,
  verification_remove, user_data_add, link_add, link_remove, username_proof, lend_storage, CastId,
}
use BigEndian.{be_bytes_4, be_number_4}
use Prefix.{
  UserPostfix, cast_message, link_message, reaction_message, verification_message,
  user_data_message, username_proof_message, lend_storage_message, RootPrefix, user, root_u8,
}

abbrev pub fid_bytes : ℕ
fid_bytes = 4

abbrev pub hash_length : ℕ
hash_length = 20

abbrev pub ts_hash_length : ℕ
ts_hash_length = 24

unfoldable pub type_to_set_postfix : MessageType → Result Error UserPostfix
type_to_set_postfix cast_add = ok cast_message
type_to_set_postfix cast_remove = ok cast_message
type_to_set_postfix reaction_add = ok reaction_message
type_to_set_postfix reaction_remove = ok reaction_message
type_to_set_postfix verification_add_eth_address = ok verification_message
type_to_set_postfix verification_remove = ok verification_message
type_to_set_postfix user_data_add = ok user_data_message
type_to_set_postfix link_add = ok link_message
type_to_set_postfix link_remove = ok link_message
type_to_set_postfix username_proof = ok username_proof_message
type_to_set_postfix lend_storage = ok lend_storage_message
type_to_set_postfix _ = err (hub "internal_error" "unable to convert message type to set postfix: ")

unfoldable pub make_ts_hash : ℕ → Bytes → Result Error Bytes
unfolding be_bytes_4
make_ts_hash timestamp hash =
    if length hash == hash_length
    then ok (be_bytes_4 timestamp ++ take hash_length hash)
    else err (hub "internal_error" "hash length is not 20")

-- The argument is an array of 24 bytes.
unfoldable pub unpack_ts_hash : Bytes → ℕ × Bytes
unfolding be_number_4
unpack_ts_hash ts_hash = (be_number_4 (take 4 ts_hash), take 20 (drop 4 ts_hash))

-- `fid as FidOnDisk` keeps the low 32 bits.
unfoldable pub make_fid_key : ℕ → Bytes
unfolding be_bytes_4
make_fid_key fid = be_bytes_4 (fid % 2 ^ 32)

-- `copy_from_slice(&key[offset..offset + n])`: a slice out of range is a panic.
unfoldable pub read_slice : Bytes → ℕ → ℕ → Result Error Bytes
read_slice key offset n =
    if ltb (length key) (offset + n) then err panic else ok (take n (drop offset key))

unfoldable pub read_fid_key : Bytes → ℕ → Result Error ℕ
unfolding read_slice be_number_4
read_fid_key key offset = elim (read_slice key offset fid_bytes) [
  | ok bytes ↦ ok (be_number_4 bytes)
  | err e ↦ err e
]

unfoldable pub read_ts_hash : Bytes → ℕ → Result Error Bytes
unfolding read_slice
read_ts_hash key offset = read_slice key offset ts_hash_length

unfoldable pub make_user_key_with_prefix : ℕ → ℕ → Bytes
unfolding make_fid_key
make_user_key_with_prefix root_prefix fid = root_prefix ∷ make_fid_key fid

unfoldable pub make_user_key : ℕ → Bytes
unfolding make_user_key_with_prefix
make_user_key fid = make_user_key_with_prefix (root_u8 user) fid

unfoldable pub make_message_primary_key_with_prefix : ℕ → ℕ → ℕ → Option Bytes → Bytes
unfolding make_user_key_with_prefix
make_message_primary_key_with_prefix root_prefix fid set none =
    make_user_key_with_prefix root_prefix fid ++ (set ∷ [])
make_message_primary_key_with_prefix root_prefix fid set (some ts_hash) =
    make_user_key_with_prefix root_prefix fid ++ (set ∷ ts_hash)

unfoldable pub make_message_primary_key : ℕ → ℕ → Option Bytes → Bytes
unfolding make_message_primary_key_with_prefix
make_message_primary_key fid set ts_hash =
    make_message_primary_key_with_prefix (root_u8 user) fid set ts_hash

unfoldable pub make_cast_id_key : CastId → Bytes
unfolding make_fid_key
make_cast_id_key cast_id = make_fid_key cast_id.fid ++ cast_id.hash
