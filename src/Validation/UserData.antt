-- ===== src/Validation/UserData.antt =====
-- The checks of src/core/validations/message.rs on user data and on username proofs.
use hypersnap.Shared.{
  ℕ, String, Bool, true, false, ◌&&◌, ◌||◌, not, List, [], ◌∷◌, Option, none, some, ok, err, ltb,
  length, drop, ◌==◌, ◌>>◌, if◌then◌else◌,
}
use hypersnap.Bytes.{Bytes}
use hypersnap.Database.{bytes_eq}
use hypersnap.Proto.{UserDataBody}
use hypersnap.Version.{EngineVersion, is_enabled, primary_addresses, user_profile_token}
use hypersnap.Validation.{
  ValidationError, Checked, refuse_if, is_empty, Bytes, ValidationError, banner_value_too_long,
  bio_value_too_long, caip19_too_long, display_value_too_long, invalid_data,
  invalid_eth_address_length, invalid_location_string, invalid_user_data_type,
  invalid_username_type, latitude_out_of_range, longitude_out_of_range, panic, pfp_value_too_long,
  pro_user_feature, unsupported_feature, url_value_too_long,
}
use hypersnap.Proto.{UserDataBody, UserNameProof}
use hypersnap.Version.{
  EngineVersion, is_enabled, primary_addresses, user_profile_token, ens_validation, basenames,
}
use hypersnap.Validation.Names.{
  TextCrates, eth_ending, base_ending, ends_with, split, matches, validate_fname, validate_ens_name,
  validate_base_name, validate_twitter_username, validate_github_username, validate_eth_address,
  validate_sol_address,
}

abbrev location_regex : String
location_regex = "^geo:(-?\\d{1,2}\\.\\d{2}),(-?\\d{1,3}\\.\\d{2})$"

abbrev caip19_regex : String
caip19_regex = "^[a-z0-9]+:[a-zA-Z0-9]+/[a-z0-9-]{3,8}:[-.%a-zA-Z0-9]{1,128}(/[a-zA-Z0-9]+)?$"

abbrev slash : ℕ
slash = 47

abbrev colon : ℕ
colon = 58

-- "0x"
abbrev hex_start : Bytes
hex_start = 48 ∷ 120 ∷ []

unfoldable pub starts_with : Bytes → Bytes → Bool
starts_with text [] = true
starts_with [] (c ∷ cs) = false
starts_with (b ∷ bs) (c ∷ cs) = b == c && starts_with bs cs

-- The part after the first colon.
unfoldable pub after_colon : Bytes → Option Bytes
after_colon [] = none
after_colon (b ∷ bs) = let rest = after_colon bs in if b == colon then some bs else rest

module _ (crates : TextCrates) where
  unfoldable pub validate_in_range : ℕ → Bytes → ValidationError → Checked
  validate_in_range n value e = elim (crates.parsed_out_of_range n value) [
    | none ↦ err invalid_location_string
    | some outside ↦ refuse_if outside e
  ]

  unfoldable pub validate_latitude : Bytes → Checked
  unfolding validate_in_range
  validate_latitude value = validate_in_range 90 value latitude_out_of_range

  unfoldable pub validate_longitude : Bytes → Checked
  unfolding validate_in_range
  validate_longitude value = validate_in_range 180 value longitude_out_of_range

  -- The groups 1 and 2 of the match.
  abbrev group : ℕ → List (Option Bytes) → (Bytes → Checked) → Checked
  group n groups f = elim (drop n groups) [
    | [] ↦ err invalid_location_string
    | none ∷ _ ↦ err invalid_location_string
    | some value ∷ _ ↦ f value
  ]

  unfoldable pub validate_user_location : Bytes → Checked
  unfolding validate_latitude validate_longitude
  validate_user_location location =
      if is_empty location then ok tt else elim (crates.captures location_regex location) [
        | none ↦ err invalid_location_string
        | some none ↦ err invalid_location_string
        | some (some groups) ↦ group 1 groups validate_latitude >> group 2 groups validate_longitude
      ]

  unfoldable pub validate_user_data_primary_address_ethereum : Bytes → Checked
  unfolding starts_with validate_eth_address bytes_eq
  validate_user_data_primary_address_ethereum input =
      if is_empty input
      then ok tt
      else refuse_if (not (starts_with input hex_start) || not (length input == 42))
          invalid_eth_address_length
        >> elim (crates.address_from_hex input) [
          | none ↦ err invalid_data
          | some parsed ↦
              validate_eth_address parsed
              >> refuse_if (not (bytes_eq (crates.to_checksum parsed) input)) invalid_data
        ]

  unfoldable pub validate_user_data_primary_address_solana : Bytes → Checked
  unfolding validate_sol_address
  validate_user_data_primary_address_solana input =
      if is_empty input then ok tt else elim (crates.base58_decode input) [
        | none ↦ err invalid_data
        | some decoded ↦ validate_sol_address decoded
      ]

  -- The length of what follows the colon of the second part.
  unfoldable pub validate_asset_part : List Bytes → Checked
  unfolding after_colon
  validate_asset_part [] = err panic
  validate_asset_part (chain ∷ []) = err panic
  validate_asset_part (chain ∷ asset ∷ parts) = elim (after_colon asset) [
    | none ↦ ok tt
    | some reference ↦ refuse_if (ltb 128 (length reference)) invalid_data
  ]

  unfoldable pub validate_caip19_format : Bytes → Checked
  unfolding matches split validate_asset_part
  validate_caip19_format input =
      if is_empty input
      then ok tt
      else (let parts = split slash input in
          refuse_if (ltb 256 (length input)) caip19_too_long
          >> matches crates caip19_regex input invalid_data
          >> refuse_if (ltb (length parts) 2 || ltb 3 (length parts)) invalid_data
          >> validate_asset_part parts)

  abbrev validate_name_value : Bytes → Checked
  validate_name_value value =
      if ends_with value base_ending
      then validate_base_name crates value
      else if ends_with value eth_ending
      then validate_ens_name crates value
      else validate_fname crates value

  -- The match on `UserDataType`.
  unfoldable pub validate_user_data_add_body : UserDataBody → Bool → EngineVersion → Checked
  unfolding ends_with validate_base_name validate_ens_name validate_fname validate_user_location
      validate_twitter_username validate_github_username validate_user_data_primary_address_ethereum
      validate_user_data_primary_address_solana validate_caip19_format
  validate_user_data_add_body body is_pro_user version =
      if body.type == 0
      then err invalid_user_data_type
      else if body.type == 1
      then refuse_if (ltb 256 (length body.value)) pfp_value_too_long
      else if body.type == 2
      then refuse_if (ltb 32 (length body.value)) display_value_too_long
      else if body.type == 3
      then refuse_if (ltb 256 (length body.value)) bio_value_too_long
      else if body.type == 5
      then refuse_if (ltb 256 (length body.value)) url_value_too_long
      else if body.type == 6
      then (if is_empty body.value then ok tt else validate_name_value body.value)
      else if body.type == 7
      then validate_user_location body.value
      else if body.type == 8
      then validate_twitter_username crates body.value
      else if body.type == 9
      then validate_github_username crates body.value
      else if body.type == 10
      then refuse_if (not is_pro_user) pro_user_feature
        >> refuse_if (ltb 256 (length body.value)) banner_value_too_long
      else if body.type == 11
      then refuse_if (not (is_enabled version primary_addresses)) unsupported_feature
        >> validate_user_data_primary_address_ethereum body.value
      else if body.type == 12
      then refuse_if (not (is_enabled version primary_addresses)) unsupported_feature
        >> validate_user_data_primary_address_solana body.value
      else if body.type == 13
      then refuse_if (not (is_enabled version user_profile_token)) unsupported_feature
        >> validate_caip19_format body.value
      else err invalid_data

  -- The match on `UserNameType`: 2 is the name of ENS, 3 that of Base.
  unfoldable pub validate_username_proof : UserNameProof → EngineVersion → Checked
  unfolding validate_ens_name validate_base_name
  validate_username_proof proof version =
      if proof.type == 2
      then (if is_enabled version ens_validation
          then refuse_if (not (crates.is_utf8 proof.name)) invalid_data
            >> validate_ens_name crates proof.name
          else ok tt)
      else if proof.type == 3
      then (if is_enabled version basenames
          then refuse_if (not (crates.is_utf8 proof.name)) invalid_data
            >> validate_base_name crates proof.name
          else err unsupported_feature)
      else err invalid_username_type
