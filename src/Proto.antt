-- ===== src/Proto.antt =====
-- The protobuf messages of proto/definitions/message.proto that the node stores. A `string` or
-- `bytes` field is the list of its bytes, an `int32` or enum field is its number (which need not be
-- one that the enum declares), and a `oneof` is a data type under `Option`.
pub mod Blocks
pub mod HubEvents
use hypersnap.Shared.{ℕ, Option, none, some, List, ◌==◌, if◌then◌else◌}
use hypersnap.Bytes.{Bytes}

pub data MessageType : Type 0 where
  none_type cast_add cast_remove reaction_add reaction_remove link_add link_remove : MessageType
  verification_add_eth_address verification_remove user_data_add username_proof : MessageType
  frame_action link_compact_state lend_storage key_add key_remove : MessageType

-- The number of a declared constant, as a cast to `i32` or `u8` gives it.
abbrev pub type_number : MessageType → ℕ
type_number none_type = 0
type_number cast_add = 1
type_number cast_remove = 2
type_number reaction_add = 3
type_number reaction_remove = 4
type_number link_add = 5
type_number link_remove = 6
type_number verification_add_eth_address = 7
type_number verification_remove = 8
type_number user_data_add = 11
type_number username_proof = 12
type_number frame_action = 13
type_number link_compact_state = 14
type_number lend_storage = 15
type_number key_add = 16
type_number key_remove = 17

-- `MessageType::try_from`
unfoldable pub message_type_of : ℕ → Option MessageType
message_type_of n =
    if n == 0
    then some none_type
    else if n == 1
    then some cast_add
    else if n == 2
    then some cast_remove
    else if n == 3
    then some reaction_add
    else if n == 4
    then some reaction_remove
    else if n == 5
    then some link_add
    else if n == 6
    then some link_remove
    else if n == 7
    then some verification_add_eth_address
    else if n == 8
    then some verification_remove
    else if n == 11
    then some user_data_add
    else if n == 12
    then some username_proof
    else if n == 13
    then some frame_action
    else if n == 14
    then some link_compact_state
    else if n == 15
    then some lend_storage
    else if n == 16
    then some key_add
    else if n == 17
    then some key_remove
    else none

pub record CastId : Type 0 where
  pub fid : ℕ
  pub hash : Bytes

pub data Embed : Type 0 where
  url : Bytes → Embed
  cast_id : CastId → Embed

pub data Parent : Type 0 where
  parent_cast_id : CastId → Parent
  parent_url : Bytes → Parent

pub record CastAddBody : Type 0 where
  pub embeds_deprecated : List Bytes
  pub mentions : List ℕ
  pub parent : Option Parent
  pub text : Bytes
  pub mentions_positions : List ℕ
  pub embeds : List (Option Embed)
  pub type : ℕ

pub record CastRemoveBody : Type 0 where
  pub target_hash : Bytes

pub data ReactionTarget : Type 0 where
  target_cast_id : CastId → ReactionTarget
  target_url : Bytes → ReactionTarget

pub record ReactionBody : Type 0 where
  pub type : ℕ
  pub target : Option ReactionTarget

pub record LinkBody : Type 0 where
  pub type : Bytes
  pub display_timestamp : Option ℕ
  pub target_fid : Option ℕ

pub record LinkCompactStateBody : Type 0 where
  pub type : Bytes
  pub target_fids : List ℕ

pub record UserDataBody : Type 0 where
  pub type : ℕ
  pub value : Bytes

pub record LendStorageBody : Type 0 where
  pub to_fid : ℕ
  pub num_units : ℕ
  pub unit_type : ℕ

pub record VerificationAddAddressBody : Type 0 where
  pub address : Bytes
  pub claim_signature : Bytes
  pub block_hash : Bytes
  pub verification_type : ℕ
  pub chain_id : ℕ
  pub protocol : ℕ

pub record VerificationRemoveBody : Type 0 where
  pub address : Bytes
  pub protocol : ℕ

pub record UserNameProof : Type 0 where
  pub timestamp : ℕ
  pub name : Bytes
  pub owner : Bytes
  pub signature : Bytes
  pub fid : ℕ
  pub type : ℕ

pub record FrameActionBody : Type 0 where
  pub url : Bytes
  pub button_index : ℕ
  pub cast_id : Option CastId
  pub input_text : Bytes
  pub state : Bytes
  pub transaction_id : Bytes
  pub address : Bytes

pub record KeyAddBody : Type 0 where
  pub key : Bytes
  pub key_type : ℕ
  pub custody_signature : Bytes
  pub deadline : ℕ
  pub nonce : ℕ
  pub metadata : Bytes
  pub metadata_type : ℕ
  pub registration_tx_hash : Bytes
  pub scopes : List ℕ
  pub ttl : ℕ

pub record KeyRemoveBody : Type 0 where
  pub key : Bytes
  pub signature : Bytes
  pub signature_type : ℕ
  pub deadline : ℕ
  pub nonce : ℕ

pub data Body : Type 0 where
  cast_add_body : CastAddBody → Body
  cast_remove_body : CastRemoveBody → Body
  reaction_body : ReactionBody → Body
  link_body : LinkBody → Body
  link_compact_state_body : LinkCompactStateBody → Body
  user_data_body : UserDataBody → Body
  lend_storage_body : LendStorageBody → Body
  verification_add_address_body : VerificationAddAddressBody → Body
  verification_remove_body : VerificationRemoveBody → Body
  username_proof_body : UserNameProof → Body
  frame_action_body : FrameActionBody → Body
  key_add_body : KeyAddBody → Body
  key_remove_body : KeyRemoveBody → Body

pub record MessageData : Type 0 where
  pub type : ℕ
  pub fid : ℕ
  pub timestamp : ℕ
  pub network : ℕ
  pub body : Option Body

pub record Message : Type 0 where
  pub message_data : Option MessageData
  pub hash : Bytes
  pub hash_scheme : ℕ
  pub signature : Bytes
  pub signature_scheme : ℕ
  pub signer : Bytes
  pub data_bytes : Option Bytes
