-- ===== src/Proto/Blocks.antt =====
-- The protobuf messages around blocks: proto/definitions/onchain_event.proto and those of
-- proto/definitions/blocks.proto that the mempool handles.
use hypersnap.Shared.{ℕ, Option, List}
use hypersnap.Bytes.{Bytes}
use hypersnap.Proto.{Message, UserNameProof}

pub record SignerEventBody : Type 0 where
  pub key : Bytes
  pub key_type : ℕ
  pub event_type : ℕ
  pub metadata : Bytes
  pub metadata_type : ℕ

pub record SignerMigratedEventBody : Type 0 where
  pub migrated_at : ℕ

pub record IdRegisterEventBody : Type 0 where
  pub to : Bytes
  pub event_type : ℕ
  pub from : Bytes
  pub recovery_address : Bytes

pub record StorageRentEventBody : Type 0 where
  pub payer : Bytes
  pub units : ℕ
  pub expiry : ℕ

pub record TierPurchaseBody : Type 0 where
  pub tier_type : ℕ
  pub for_days : ℕ
  pub payer : Bytes

pub data OnChainEventBody : Type 0 where
  signer_event_body : SignerEventBody → OnChainEventBody
  signer_migrated_event_body : SignerMigratedEventBody → OnChainEventBody
  id_register_event_body : IdRegisterEventBody → OnChainEventBody
  storage_rent_event_body : StorageRentEventBody → OnChainEventBody
  tier_purchase_event_body : TierPurchaseBody → OnChainEventBody

pub record OnChainEvent : Type 0 where
  pub type : ℕ
  pub chain_id : ℕ
  pub block_number : ℕ
  pub block_hash : Bytes
  pub block_timestamp : ℕ
  pub transaction_hash : Bytes
  pub log_index : ℕ
  pub fid : ℕ
  pub body : Option OnChainEventBody
  pub tx_index : ℕ
  pub version : ℕ

abbrev pub event_type_storage_rent : ℕ
event_type_storage_rent = 4

pub record FnameTransfer : Type 0 where
  pub id : ℕ
  pub from_fid : ℕ
  pub proof : Option UserNameProof

-- A heartbeat body has no fields.
pub data BlockEventBody : Type 0 where
  heartbeat_event_body : BlockEventBody
  merge_message_event_body : Option Message → BlockEventBody

pub record BlockEventData : Type 0 where
  pub seqnum : ℕ
  pub type : ℕ
  pub block_number : ℕ
  pub event_index : ℕ
  pub block_timestamp : ℕ
  pub body : Option BlockEventBody

pub record BlockEvent : Type 0 where
  pub hash : Bytes
  pub event_data : Option BlockEventData

pub record ValidatorMessage : Type 0 where
  pub on_chain_event : Option OnChainEvent
  pub fname_transfer : Option FnameTransfer
  pub block_event : Option BlockEvent

pub record Transaction : Type 0 where
  pub fid : ℕ
  pub user_messages : List Message
  pub system_messages : List ValidatorMessage
  pub account_root : Bytes
