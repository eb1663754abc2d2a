-- ===== src/Proto/HubEvents.antt =====
-- The body of a hub event with all of its cases: proto/definitions/hub_event.proto. What the trie does not read of a
-- failure or of a confirmed block is left out.
use hypersnap.Shared.{ℕ, Option, List}
use hypersnap.Proto.{Message, UserNameProof}
use hypersnap.Proto.Blocks.{OnChainEvent}

pub record MergeUserNameProofBody : Type 0 where
  pub username_proof : Option UserNameProof
  pub deleted_username_proof : Option UserNameProof
  pub username_proof_message : Option Message
  pub deleted_username_proof_message : Option Message

pub data HubEventBody : Type 0 where
  merge_message_event : Option Message → List Message → HubEventBody
  prune_message_event revoke_message_event : Option Message → HubEventBody
  merge_on_chain_event : Option OnChainEvent → HubEventBody
  merge_username_proof_event : MergeUserNameProofBody → HubEventBody
  merge_failure block_confirmed : HubEventBody

-- `UserNameType::UsernameTypeFname`
abbrev pub username_type_fname : ℕ
username_type_fname = 1
