-- ===== src/Validation/Addresses.antt =====
-- The checks of src/core/validations/verification.rs on the bodies that verify an address. The claim that an
-- address signs (a JSON or EIP-712 text) and the recovery of its signer are parameters.
use hypersnap.Shared.{
  ℕ, ◌%◌, ◌^◌, Bool, ◌||◌, not, Option, none, some, err, ltb, length, ◌==◌, ◌>>◌, if◌then◌else◌,
}
use hypersnap.Bytes.{Bytes}
use hypersnap.Proto.{VerificationAddAddressBody, VerificationRemoveBody}
use hypersnap.Validation.{
  Checked, refuse_if, is_empty, invalid_data, invalid_signature, block_hash_missing,
  invalid_blockhash_length, invalid_eth_claim_signature_length, invalid_sol_claim_signature_length,
}
use hypersnap.Validation.Names.{validate_eth_address, validate_sol_address}

-- A claim is the bytes that are signed; it is made of the fid, the address, the network, the block hash and
-- the protocol.
pub record ClaimCrates : Type 0 where
  pub make_verification_address_claim : ℕ → Bytes → ℕ → Bytes → ℕ → Option Bytes
  pub validate_verification_eoa_signature : Bytes → VerificationAddAddressBody → Checked
  -- `VerifyingKey::from_bytes` accepts the key
  pub is_verifying_key : Bytes → Bool
  -- key, message, signature
  pub verify_strict : Bytes → Bytes → Bytes → Bool

abbrev ethereum : ℕ
ethereum = 0

abbrev solana : ℕ
solana = 1

-- The block hash of either protocol: the code has two functions with one body.
unfoldable pub validate_block_hash : Bytes → Checked
validate_block_hash block_hash =
    refuse_if (is_empty block_hash) block_hash_missing
    >> refuse_if (not (length block_hash == 32)) invalid_blockhash_length

-- The chain ids 0, 1, 5, 10 and 420.
unfoldable pub is_claim_chain_id : ℕ → Bool
is_claim_chain_id id = id == 0 || id == 1 || id == 5 || id == 10 || id == 420

module _ (crates : ClaimCrates) where
  unfoldable pub validate_verification_add_eth_address_signature :
      VerificationAddAddressBody → ℕ → ℕ → Checked
  unfolding is_claim_chain_id
  validate_verification_add_eth_address_signature body fid network =
      refuse_if (ltb 2048 (length body.claim_signature)) invalid_eth_claim_signature_length
      >> refuse_if (not (is_claim_chain_id (body.chain_id % 2 ^ 16))) invalid_data
      >> elim (crates.make_verification_address_claim fid body.address network body.block_hash
          ethereum) [
            | none ↦ err invalid_data
            | some claim ↦
                if body.verification_type == 0
                then crates.validate_verification_eoa_signature claim body
                else refuse_if (not (body.verification_type == 1)) invalid_data
          ]

  unfoldable pub validate_verification_add_sol_address_signature :
      VerificationAddAddressBody → ℕ → ℕ → Checked
  validate_verification_add_sol_address_signature body fid network =
      refuse_if (not (length body.claim_signature == 64)) invalid_sol_claim_signature_length
      >> elim (crates.make_verification_address_claim fid body.address network body.block_hash
          solana) [
            | none ↦ err invalid_data
            | some claim ↦
                refuse_if (not (crates.is_verifying_key body.address)) invalid_data
                >> refuse_if (not (crates.verify_strict body.address claim body.claim_signature))
                    invalid_signature
          ]

  unfoldable pub validate_add_eth_address : VerificationAddAddressBody → ℕ → ℕ → Checked
  unfolding validate_eth_address validate_block_hash validate_verification_add_eth_address_signature
  validate_add_eth_address body fid network =
      validate_eth_address body.address
      >> validate_block_hash body.block_hash
      >> validate_verification_add_eth_address_signature body fid network

  unfoldable pub validate_add_sol_address : VerificationAddAddressBody → ℕ → ℕ → Checked
  unfolding validate_sol_address validate_block_hash validate_verification_add_sol_address_signature
  validate_add_sol_address body fid network =
      validate_sol_address body.address
      >> validate_block_hash body.block_hash
      >> validate_verification_add_sol_address_signature body fid network

  unfoldable pub validate_add_address : VerificationAddAddressBody → ℕ → ℕ → Checked
  unfolding validate_add_eth_address validate_add_sol_address
  validate_add_address body fid network =
      if body.protocol == ethereum
      then validate_add_eth_address body fid network
      else if body.protocol == solana
      then validate_add_sol_address body fid network
      else err invalid_data

unfoldable pub validate_remove_address : VerificationRemoveBody → Checked
unfolding validate_eth_address validate_sol_address
validate_remove_address body =
    if body.protocol == ethereum
    then validate_eth_address body.address
    else if body.protocol == solana
    then validate_sol_address body.address
    else err invalid_data
