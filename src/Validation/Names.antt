-- ===== src/Validation/Names.antt =====
-- The checks on names and on user data of src/core/validations/message.rs, with the checks on the lengths of
-- addresses of verification.rs. What the crates (regular expressions, addresses, base58, numbers) answer is a
-- parameter.
use hypersnap.Shared.{
  ℕ, ◌-◌, String, Bool, ◌||◌, not, List, [], ◌∷◌, ◌++◌, Option, none, some, err, ltb, length, drop,
  ◌==◌, ◌>>◌, if◌then◌else◌,
}
use hypersnap.Bytes.{Bytes}
use hypersnap.Database.{bytes_eq}
use hypersnap.Validation.{
  ValidationError, Checked, refuse_if, is_empty, Bytes, ValidationError, ens_name_doesnt_end_with,
  ens_name_doesnt_match, ens_name_exceeds_length, ens_name_not_valid,
  ens_name_unsupported_subdomain, eth_address_missing, fname_doesnt_match, fname_exceeds_length,
  fname_is_missing, invalid_data, invalid_eth_address_length, invalid_sol_address_length,
  sol_address_missing, username_doesnt_match, username_exceeds_length,
}

-- `is_match` and `captures` of a pattern fail on an error of the engine.
pub record TextCrates : Type 0 where
  pub is_match : String → Bytes → Option Bool
  pub captures : String → Bytes → Option (Option (List (Option Bytes)))
  -- `parse::<f64>`, then whether the number is out of the range from -n to n
  pub parsed_out_of_range : ℕ → Bytes → Option Bool
  pub address_from_hex : Bytes → Option Bytes
  pub to_checksum : Bytes → Bytes
  pub base58_decode : Bytes → Option Bytes
  pub is_utf8 : Bytes → Bool

abbrev pub fname_regex : String
fname_regex = "^[a-z0-9][a-z0-9-]{0,15}$"

abbrev twitter_username_regex : String
twitter_username_regex = "^[a-z0-9_]{0,15}$"

abbrev github_username_regex : String
github_username_regex = "^[a-zA-Z\\d](?:[a-zA-Z\\d]|-(?!-)){0,38}$"

abbrev pub dot : ℕ
dot = 46

-- "eth" and "base"
abbrev pub eth : Bytes
eth = 101 ∷ 116 ∷ 104 ∷ []

abbrev pub base : Bytes
base = 98 ∷ 97 ∷ 115 ∷ 101 ∷ []

-- ".eth" and ".base.eth"
abbrev pub eth_ending : Bytes
eth_ending = dot ∷ eth

abbrev pub base_ending : Bytes
base_ending = dot ∷ (base ++ eth_ending)

unfoldable pub ends_with : Bytes → Bytes → Bool
unfolding bytes_eq
ends_with text ending = bytes_eq (drop (length text - length ending) text) ending

abbrev pub onto_first : ℕ → List Bytes → List Bytes
onto_first b [] = (b ∷ []) ∷ []
onto_first b (part ∷ parts) = (b ∷ part) ∷ parts

-- `str::split` at a character of one byte: at least one part, which may be empty.
unfoldable pub split : ℕ → Bytes → List Bytes
split c [] = [] ∷ []
split c (b ∷ bs) = let parts = split c bs in if b == c then [] ∷ parts else onto_first b parts

unfoldable pub validate_eth_address : Bytes → Checked
validate_eth_address address =
    refuse_if (is_empty address) eth_address_missing
    >> refuse_if (not (length address == 20)) invalid_eth_address_length

unfoldable pub validate_sol_address : Bytes → Checked
validate_sol_address address =
    refuse_if (is_empty address) sol_address_missing
    >> refuse_if (not (length address == 32)) invalid_sol_address_length

abbrev pub first_part : List Bytes → Bytes
first_part [] = []
first_part (part ∷ parts) = part

module _ (crates : TextCrates) where
  unfoldable pub matches : String → Bytes → ValidationError → Checked
  matches pattern text e = elim (crates.is_match pattern text) [
    | none ↦ err invalid_data
    | some b ↦ refuse_if (not b) e
  ]

  unfoldable pub validate_fname : Bytes → Checked
  unfolding matches
  validate_fname input =
      refuse_if (is_empty input) fname_is_missing
      >> refuse_if (ltb 16 (length input)) (fname_exceeds_length input)
      >> matches fname_regex input (fname_doesnt_match input fname_regex)

  unfoldable pub validate_ens_name : Bytes → Checked
  unfolding matches ends_with split
  validate_ens_name input =
      let name_parts = split dot input in
      refuse_if (not (ends_with input eth_ending)) (ens_name_doesnt_end_with input ".eth")
      >> refuse_if (ltb 2 (length name_parts)) (ens_name_unsupported_subdomain input)
      >> refuse_if (not (length name_parts == 2) || is_empty (first_part name_parts))
          (ens_name_not_valid input)
      >> refuse_if (ltb 20 (length input)) (ens_name_exceeds_length input)
      >> matches fname_regex (first_part name_parts) (ens_name_doesnt_match input fname_regex)

  unfoldable pub validate_base_name : Bytes → Checked
  unfolding matches ends_with split
  validate_base_name input =
      let name_parts = split dot input in
      refuse_if (not (ends_with input base_ending)) (ens_name_doesnt_end_with input ".base.eth")
      >> refuse_if (not (length name_parts == 3) || is_empty (first_part name_parts)) invalid_data
      >> refuse_if (ltb 25 (length input)) (ens_name_exceeds_length input)
      >> matches fname_regex (first_part name_parts) (ens_name_doesnt_match input fname_regex)

  unfoldable pub validate_twitter_username : Bytes → Checked
  unfolding matches
  validate_twitter_username input =
      refuse_if (ltb 15 (length input)) (username_exceeds_length input 15)
      >> matches twitter_username_regex input (username_doesnt_match input twitter_username_regex)

  unfoldable pub validate_github_username : Bytes → Checked
  unfolding matches
  validate_github_username input =
      refuse_if (ltb 38 (length input)) (username_exceeds_length input 38)
      >> matches github_username_regex input (username_doesnt_match input github_username_regex)
