-- ===== src/Validation/Whole.antt =====
-- `validate_message` of src/core/validations/message.rs: the checks on a message as a whole, and which checks
-- its body goes through. A network and a version are given as they are at the block.
use hypersnap.Shared.{
  ℕ, ◌+◌, ◌-◌, ◌%◌, ◌^◌, Bool, true, false, ◌&&◌, ◌||◌, not, List, [], ◌∷◌, Option, none, some,
  Result, ok, err, ltb, leb, length, ◌==◌, ◌>>◌, if◌then◌else◌, Ordering,
}
use hypersnap.Bytes.{Bytes, bytes_compare}
use hypersnap.Proto.{
  Message, MessageData, FrameActionBody, LendStorageBody, cast_add_body, cast_remove_body,
  reaction_body, link_body, link_compact_state_body, user_data_body, lend_storage_body,
  verification_add_address_body, verification_remove_body, username_proof_body, frame_action_body,
  key_add_body, key_remove_body, type_number, link_compact_state, cast_add, username_proof,
}
use hypersnap.Version.{
  EngineVersion, FarcasterNetwork, mainnet, is_enabled, message_length_check_fix,
  increase_username_proof_size_limit, future_timestamp_validation,
}
use hypersnap.Validation.{
  ValidationError, Checked, refuse_if, in_turn, validate_cast_id, validate_link_compact_state_body,
  validate_link_body, validate_reaction_body, validate_cast_remove_body, validate_cast_add_body,
  Bytes, ValidationError, data_bytes_too_long, exceeded_max_storage_units, invalid_button_index,
  invalid_data, invalid_hash, invalid_hash_scheme, invalid_network, invalid_signature,
  invalid_signature_scheme, invalid_storage_unit_type, missing_data, missing_or_invalid_signer,
  missing_signature, missing_string, string_too_long, timestamp_too_far_in_future,
  timestamp_too_far_in_the_past,
}
use hypersnap.Validation.Names.{TextCrates}
use hypersnap.Validation.UserData.{validate_user_data_add_body, validate_username_proof}
use hypersnap.Validation.Addresses.{ClaimCrates, validate_add_address, validate_remove_address}
use hypersnap.Validation.SignerKeys.{validate_key_add_body, validate_key_remove_body}

-- What prost, blake3 and ed25519_dalek answer.
pub record MessageCrates : Type 0 where
  pub encode_data : MessageData → Bytes
  pub decode_data : Bytes → Option MessageData
  pub blake3_20 : Bytes → Bytes
  -- `Signature::from_slice` and `VerifyingKey::try_from` accept the bytes
  pub is_signature : Bytes → Bool
  pub is_verifying_key : Bytes → Bool
  -- key, message, signature
  pub verify_strict : Bytes → Bytes → Bytes → Bool
  pub text : TextCrates
  pub claims : ClaimCrates

unfoldable pub validate_bytes_as_string : Bytes → ℕ → Bool → Checked
validate_bytes_as_string bytes max_length required =
    refuse_if (required && length bytes == 0) missing_string
    >> refuse_if (ltb max_length (length bytes)) string_too_long

unfoldable pub validate_frame_action_body : FrameActionBody → Checked
unfolding validate_bytes_as_string validate_cast_id
validate_frame_action_body body =
    refuse_if (ltb 5 body.button_index) invalid_button_index
    >> validate_bytes_as_string body.url 1024 true
    >> validate_bytes_as_string body.input_text 256 false
    >> validate_bytes_as_string body.state 4096 false
    >> validate_bytes_as_string body.transaction_id 256 false
    >> validate_bytes_as_string body.address 64 false
    >> elim body.cast_id [ none ↦ ok tt | some id ↦ validate_cast_id id ]

-- `checked_sub`: a timestamp of the past has no difference.
unfoldable pub validate_timestamp : ℕ → ℕ → EngineVersion → Checked
validate_timestamp message_timestamp block_timestamp version =
    refuse_if
      (is_enabled version future_timestamp_validation
        && leb block_timestamp message_timestamp
        && ltb 600 (message_timestamp - block_timestamp))
      timestamp_too_far_in_future

unfoldable pub validate_lend_storage_body : LendStorageBody → Checked
validate_lend_storage_body body =
    refuse_if (ltb 2 body.unit_type) invalid_storage_unit_type
    >> refuse_if (ltb 5000 body.num_units) exceeded_max_storage_units

unfoldable pub max_data_size : EngineVersion → ℕ → Bool → ℕ
max_data_size version type is_pro_user =
    if not (is_enabled version message_length_check_fix)
    then 2048
    else if type == type_number link_compact_state
    then 65536
    else if is_pro_user && type == type_number cast_add
    then 16384
    else if type == type_number username_proof
        && is_enabled version increase_username_proof_size_limit
    then 16384
    else 2048

-- A network of 1 to 3, and only mainnet on mainnet.
unfoldable pub validate_message_network : ℕ → FarcasterNetwork → Checked
validate_message_network network current_network =
    refuse_if (network == 0 || ltb 3 network) invalid_network
    >> elim current_network [ mainnet ↦ refuse_if (not (network == 1)) invalid_network | _ ↦ ok tt ]

module _ (crates : MessageCrates) where
  unfoldable pub validate_signature : ℕ → Bytes → Bytes → Bytes → Checked
  validate_signature signature_scheme data_bytes signature signer =
      refuse_if (not (signature_scheme == 1)) invalid_signature_scheme
      >> refuse_if (length signature == 0) missing_signature
      >> refuse_if (not (crates.is_signature signature)) invalid_signature
      >> refuse_if (not (crates.is_verifying_key signer)) missing_or_invalid_signer
      >> refuse_if (not (crates.verify_strict signer data_bytes signature)) invalid_signature

  unfoldable pub validate_message_hash : ℕ → Bytes → Bytes → Checked
  unfolding bytes_compare
  validate_message_hash hash_scheme data_bytes hash =
      refuse_if (not (hash_scheme == 1)) invalid_hash_scheme
      >> refuse_if (length data_bytes == 0) missing_data
      >> elim (bytes_compare (crates.blake3_20 data_bytes) hash) [
        | Ordering.eq ↦ ok tt
        | _ ↦ err invalid_hash
      ]

  -- The match on the body.
  unfoldable pub validate_body : MessageData → Bool → ℕ → EngineVersion → Checked
  unfolding validate_user_data_add_body validate_username_proof validate_add_address
      validate_cast_add_body validate_lend_storage_body validate_frame_action_body
  validate_body data' is_pro_user block_timestamp version = elim data'.body [
    | none ↦ ok tt
    | some (user_data_body b) ↦ validate_user_data_add_body crates.text b is_pro_user version
    | some (username_proof_body b) ↦ validate_username_proof crates.text b version
    | some (verification_add_address_body b) ↦
        validate_add_address crates.claims b data'.fid data'.network
    | some (link_compact_state_body b) ↦ validate_link_compact_state_body b
    | some (cast_add_body b) ↦ validate_cast_add_body b (ltb data'.timestamp 73612800) is_pro_user
    | some (cast_remove_body b) ↦ validate_cast_remove_body b
    | some (reaction_body b) ↦ validate_reaction_body b
    | some (link_body b) ↦ validate_link_body b
    | some (verification_remove_body b) ↦ validate_remove_address b
    | some (frame_action_body b) ↦ validate_frame_action_body b
    | some (lend_storage_body b) ↦
        refuse_if (ltb data'.timestamp ((block_timestamp + 2 ^ 64 - 600) % 2 ^ 64 % 2 ^ 32))
          timestamp_too_far_in_the_past
        >> validate_lend_storage_body b
    | some (key_add_body b) ↦ validate_key_add_body b
    | some (key_remove_body b) ↦ validate_key_remove_body b
  ]

  -- The bytes that were hashed, and the data in them.
  unfoldable pub data_of : Message → Result ValidationError (Bytes × MessageData)
  data_of message = elim message.data_bytes [
    | some [] ↦ err missing_data
    | some (b ∷ bs) ↦ elim (crates.decode_data (b ∷ bs)) [
      | none ↦ err invalid_data
      | some data' ↦ ok (b ∷ bs, data')
    ]
    | none ↦ elim message.message_data [
      | none ↦ err missing_data
      | some data' ↦ ok (crates.encode_data data', data')
    ]
  ]

  -- The checks after the data has been read, in their order.
  unfoldable pub message_checks :
      Message → FarcasterNetwork → Bool → ℕ → EngineVersion → Bytes → MessageData → List Checked
  unfolding max_data_size validate_message_network validate_message_hash validate_signature
      validate_timestamp validate_body
  message_checks message current_network is_pro_user block_timestamp version data_bytes data' =
      let size = max_data_size version data'.type is_pro_user in
      refuse_if (ltb size (length data_bytes)) (data_bytes_too_long size)
      ∷ validate_message_network data'.network current_network
      ∷ validate_message_hash message.hash_scheme data_bytes message.hash
      ∷ validate_signature message.signature_scheme message.hash message.signature message.signer
      ∷ validate_timestamp data'.timestamp block_timestamp version
      ∷ validate_body data' is_pro_user block_timestamp version
      ∷ []

  unfoldable pub validate_message : Message → FarcasterNetwork → Bool → ℕ → EngineVersion → Checked
  unfolding data_of message_checks in_turn
  validate_message message current_network is_pro_user block_timestamp version =
      elim (data_of message) [
        | err e ↦ err e
        | ok (data_bytes, data') ↦ in_turn (
            message_checks message current_network is_pro_user block_timestamp version data_bytes
              data')
      ]
