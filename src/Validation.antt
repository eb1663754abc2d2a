-- ===== src/Validation.antt =====
-- The checks on message bodies of src/core/validations: mod.rs, cast.rs, link.rs and reaction.rs, with the
-- errors of error.rs. Names: the user data of message.rs; Whole: `validate_message`. A `String` that an error
-- carries is the list of its bytes.
pub mod Bodies
pub mod Cast
pub mod Names
pub mod UserData
pub mod Addresses
pub mod SignerKeys
pub mod Whole
pub mod Authentic
pub mod Ens
use hypersnap.Shared.{
  ℕ, String, suc, ◌+◌, Bool, true, false, ◌&&◌, ◌||◌, not, List, [], ◌∷◌, Option, none, some,
  Result, ok, err, ltb, leb, ◌%◌, ◌^◌, length, ◌==◌, ◌>>◌, if◌then◌else◌,
}
use hypersnap.Bytes.{Bytes}
use hypersnap.Proto.{
  CastId, Embed, url, cast_id, Parent, parent_cast_id, parent_url, CastAddBody, CastRemoveBody,
  ReactionTarget, target_cast_id, target_url, ReactionBody, LinkBody, LinkCompactStateBody,
}

pub data ValidationError : Type 0 where
  missing_data invalid_hash invalid_hash_scheme invalid_signature invalid_data : ValidationError
  unsupported_feature invalid_signature_scheme missing_or_invalid_signer : ValidationError
  missing_signature invalid_network pro_user_feature : ValidationError
  text_too_long_for_long_cast text_too_short_for_long_cast : ValidationError
  text_too_short_for_10k_cast text_too_long_for_10k_cast invalid_cast_type : ValidationError
  string_embeds_exceeds_limit url_too_short url_too_long cast_is_empty text_too_long :
      ValidationError
  embeds_exceeds_limit string_embeds_deprecated invalid_embeds_and_string_embeds : ValidationError
  fid_is_missing fname_is_missing hash_is_missing mentions_exceeds_limit : ValidationError
  mentions_mismatch mentions_positions_invalid mentions_positions_not_sorted : ValidationError
  invalid_reaction_type target_is_missing missing_embed invalid_link_type : ValidationError
  pfp_value_too_long banner_value_too_long display_value_too_long : ValidationError
  bio_value_too_long url_value_too_long invalid_user_data_type invalid_username_type :
      ValidationError
  invalid_message_type timestamp_too_far_in_future timestamp_too_far_in_the_past : ValidationError
  sol_address_missing eth_address_missing invalid_sol_address_length : ValidationError
  block_hash_missing invalid_blockhash_length invalid_claim_signature : ValidationError
  invalid_eth_claim_signature_length invalid_sol_claim_signature_length : ValidationError
  invalid_metadata_type invalid_key_length invalid_key_type empty_scopes : ValidationError
  missing_deadline missing_metadata invalid_signature_type : ValidationError
  too_many_scopes invalid_scope invalid_ttl : ℕ → ValidationError
  missing_string string_too_long invalid_button_index : ValidationError
  invalid_storage_unit_type exceeded_max_storage_units invalid_eth_address_length : ValidationError
  caip19_too_long invalid_location_string latitude_out_of_range longitude_out_of_range :
      ValidationError
  fname_exceeds_length ens_name_exceeds_length ens_name_unsupported_subdomain :
      Bytes → ValidationError
  ens_name_not_valid : Bytes → ValidationError
  -- The name, and the pattern or the ending that it does not have.
  fname_doesnt_match ens_name_doesnt_match ens_name_doesnt_end_with :
      Bytes → String → ValidationError
  username_doesnt_match : Bytes → String → ValidationError
  username_exceeds_length : Bytes → ℕ → ValidationError
  data_bytes_too_long : ℕ → ValidationError
  -- `unwrap` of nothing, an index out of range
  panic : ValidationError

abbrev pub Checked : Type 0
Checked = Result ValidationError (Unit {0})

-- `if condition { return Err(..); }`
abbrev pub refuse_if : Bool → ValidationError → Checked
refuse_if true e = err e
refuse_if false e = ok tt

-- A check of each element, up to the first that fails.
unfoldable pub check_all : {A : Type 0} → (A → Checked) → List A → Checked
check_all f [] = ok tt
check_all f (x ∷ xs) = f x >> check_all f xs

-- Checks one after the other, up to the first that fails.
unfoldable pub in_turn : List Checked → Checked
in_turn [] = ok tt
in_turn (c ∷ checks) = c >> in_turn checks

abbrev pub is_empty : {A : Type 0} → List A → Bool
is_empty [] = true
is_empty (x ∷ xs) = false

unfoldable pub validate_fid : ℕ → Checked
validate_fid fid = refuse_if (fid == 0) fid_is_missing

unfoldable pub validate_cast_id : CastId → Checked
unfolding validate_fid
validate_cast_id id = validate_fid id.fid >> refuse_if (not (length id.hash == 20)) hash_is_missing

unfoldable pub validate_url : Bytes → Checked
validate_url text =
    refuse_if (is_empty text) url_too_short >> refuse_if (ltb 256 (length text)) url_too_long

unfoldable pub validate_link_type : Bytes → Checked
validate_link_type type = refuse_if (is_empty type || ltb 8 (length type)) invalid_link_type

unfoldable pub validate_link_compact_state_body : LinkCompactStateBody → Checked
unfolding validate_link_type check_all validate_fid
validate_link_compact_state_body body =
    validate_link_type body.type
    >> refuse_if (is_empty body.target_fids) target_is_missing
    >> check_all validate_fid body.target_fids

unfoldable pub validate_link_body : LinkBody → Checked
unfolding validate_link_type validate_fid
validate_link_body body = validate_link_type body.type >> elim body.target_fid [
  | none ↦ err target_is_missing
  | some target_fid ↦ validate_fid target_fid
]

-- `ReactionType::try_from`: the numbers of none, like and recast.
unfoldable pub validate_reaction_type : ℕ → Checked
validate_reaction_type type_num = refuse_if (ltb 2 type_num) invalid_reaction_type

-- `FarcasterNetwork::try_from`: none, mainnet, testnet and devnet.
unfoldable pub validate_network : ℕ → Checked
validate_network network = refuse_if (ltb 3 network) invalid_network

unfoldable pub validate_target : ReactionTarget → Checked
unfolding validate_cast_id validate_url
validate_target (target_url text) = validate_url text
validate_target (target_cast_id id) = validate_cast_id id

unfoldable pub validate_reaction_body : ReactionBody → Checked
unfolding validate_reaction_type validate_target
validate_reaction_body body =
    validate_reaction_type body.type
    >> elim body.target [ none ↦ err target_is_missing | some target ↦ validate_target target ]

unfoldable pub validate_cast_remove_body : CastRemoveBody → Checked
validate_cast_remove_body body = refuse_if (not (length body.target_hash == 20)) hash_is_missing

unfoldable pub validate_embed : Option Embed → Checked
unfolding validate_cast_id validate_url
validate_embed none = err missing_embed
validate_embed (some (url text)) = validate_url text
validate_embed (some (cast_id id)) = validate_cast_id id

unfoldable pub validate_parent : Parent → Checked
unfolding validate_cast_id validate_url
validate_parent (parent_cast_id id) = validate_cast_id id
validate_parent (parent_url text) = validate_url text

-- The match on the type of a cast and the length of its text; the numbers are those of `CastType`.
unfoldable pub validate_cast_type : ℕ → ℕ → Bool → Checked
validate_cast_type type text_length is_pro_user =
    if type == 0
    then refuse_if (ltb 320 text_length) text_too_long
    else if type == 1
    then refuse_if (ltb 1024 text_length) text_too_long_for_long_cast
      >> refuse_if (leb text_length 320) text_too_short_for_long_cast
    else if type == 2
    then refuse_if (not is_pro_user) pro_user_feature
      >> refuse_if (ltb 10000 text_length) text_too_short_for_10k_cast
      >> refuse_if (leb text_length 1024) text_too_long_for_10k_cast
    else err invalid_cast_type

-- The loop over the mentions, from the second on with the position before. The lists have one length.
unfoldable pub validate_mentions : ℕ → Option ℕ → List ℕ → List ℕ → Checked
unfolding validate_fid
validate_mentions text_length prev [] positions = ok tt
validate_mentions text_length prev (fid ∷ mentions) [] = err panic
validate_mentions text_length prev (fid ∷ mentions) (position ∷ positions) =
    validate_fid fid
    >> refuse_if (ltb (text_length % 2 ^ 32) position) mentions_positions_invalid
    >> refuse_if (elim prev [ none ↦ false | some p ↦ ltb position p ])
        mentions_positions_not_sorted
    >> validate_mentions text_length (some position) mentions positions

-- The checks of `validate_cast_add_body` in their order.
unfoldable pub cast_add_checks : CastAddBody → Bool → Bool → List Checked
unfolding check_all validate_cast_type validate_embed validate_url validate_mentions validate_parent
cast_add_checks body allow_embeds_deprecated is_pro_user =
    validate_cast_type body.type (length body.text) is_pro_user
    ∷ refuse_if (ltb (if is_pro_user then 4 else 2) (length body.embeds)) embeds_exceeds_limit
    ∷ refuse_if (allow_embeds_deprecated && ltb 2 (length body.embeds_deprecated))
        string_embeds_exceeds_limit
    ∷ refuse_if (not allow_embeds_deprecated && not (is_empty body.embeds_deprecated))
        string_embeds_deprecated
    ∷ refuse_if (ltb 10 (length body.mentions)) mentions_exceeds_limit
    ∷ refuse_if (not (length body.mentions == length body.mentions_positions)) mentions_mismatch
    ∷ refuse_if (not (is_empty body.embeds) && not (is_empty body.embeds_deprecated))
        invalid_embeds_and_string_embeds
    ∷ refuse_if
        (is_empty body.text
          && is_empty body.embeds
          && is_empty body.embeds_deprecated
          && is_empty body.mentions)
        cast_is_empty
    ∷ check_all validate_embed body.embeds
    ∷ check_all validate_url body.embeds_deprecated
    ∷ validate_mentions (length body.text) none body.mentions body.mentions_positions
    ∷ elim body.parent [ none ↦ ok tt | some parent ↦ validate_parent parent ]
    ∷ []

unfoldable pub validate_cast_add_body : CastAddBody → Bool → Bool → Checked
unfolding in_turn cast_add_checks
validate_cast_add_body body allow_embeds_deprecated is_pro_user =
    in_turn (cast_add_checks body allow_embeds_deprecated is_pro_user)
