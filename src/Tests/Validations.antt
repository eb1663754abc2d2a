-- ===== src/Tests/Validations.antt =====
-- The theorems on validation at concrete bodies and messages.
use hypersnap.Shared.{◌≡◌, ◌↔◌, refl, arith, true, false, [], ◌∷◌, none, some, ok}
use hypersnap.Bytes.{Bytes}
use hypersnap.Proto.{CastAddBody}
use hypersnap.Database.{get_from_db_or_txn}
use hypersnap.Keys.Prefix.{legacy}
use hypersnap.Store.Types.{Transaction, HubEvent, merge_message_body}
use hypersnap.Store.Merge.{merge_add, get_add}
use hypersnap.Version.{v16, mainnet}
use hypersnap.Link.Keys.{stamp}
use hypersnap.Link.Validated.{merge_add_validated}
use hypersnap.Validation.{validate_cast_add_body}
use hypersnap.Validation.Bodies.{Passes}
use hypersnap.Validation.Cast.{IsCastAdd, validate_cast_add_body-Passes}
use hypersnap.Validation.Names.{
  TextCrates, eth_ending, base_ending, validate_ens_name, validate_base_name,
}
use hypersnap.Validation.Ens.{IsNameWith, validate_names-Passes}
use hypersnap.Validation.Addresses.{ClaimCrates}
use hypersnap.Validation.Whole.{MessageCrates, validate_message, data_of}
use hypersnap.Validation.Authentic.{IsAuthentic, validate_message-IsAuthentic}
use hypersnap.Tests.Merging.{follow_9-Decodes}
use hypersnap.Tests.Fixtures.{
  hash_20, follow, follow_9, protobuf, empty_database, start, link_messages,
}

-- "hi" with a mention after it
abbrev greeting : CastAddBody
greeting = record {
  embeds_deprecated = [];
  mentions = 9 ∷ [];
  parent = none;
  text = 104 ∷ 105 ∷ [];
  mentions_positions = 2 ∷ [];
  embeds = [];
  type = 0;
}

validate_cast_add_body-Passes_example :
    Passes (validate_cast_add_body greeting false false) ↔ IsCastAdd greeting false false
validate_cast_add_body-Passes_example =
    validate_cast_add_body-Passes greeting false false (ground arith)

abbrev text_crates : TextCrates
text_crates = record {
  is_match = λ pattern text. some true;
  captures = λ pattern text. some none;
  parsed_out_of_range = λ n text. some false;
  address_from_hex = λ text. none;
  to_checksum = λ address. address;
  base58_decode = λ text. none;
  is_utf8 = λ text. true;
}

abbrev claim_crates : ClaimCrates
claim_crates = record {
  make_verification_address_claim = λ fid address network block_hash protocol. none;
  validate_verification_eoa_signature = λ claim body. ok tt;
  is_verifying_key = λ key. true;
  verify_strict = λ key message signature. true;
}

-- "bob.eth"
abbrev bob_eth : Bytes
bob_eth = 98 ∷ 111 ∷ 98 ∷ eth_ending

validate_names-Passes_example :
    (Passes (validate_ens_name text_crates bob_eth) ↔ IsNameWith text_crates eth_ending bob_eth)
    × (Passes (validate_base_name text_crates bob_eth) ↔ IsNameWith text_crates base_ending bob_eth)
validate_names-Passes_example = validate_names-Passes text_crates bob_eth

abbrev crates : MessageCrates
crates = record {
  encode_data = λ data'. 1 ∷ [];
  decode_data = λ bytes. none;
  blake3_20 = λ bytes. hash_20;
  is_signature = λ bytes. true;
  is_verifying_key = λ bytes. true;
  verify_strict = λ key message signature. true;
  text = text_crates;
  claims = claim_crates;
}

passes : Passes (validate_message crates follow_9 mainnet false 7 v16)
unfolding validate_message hypersnap.Version.is_enabled hypersnap.Validation.validate_link_body
passes = refl

validate_message-IsAuthentic_example : IsAuthentic crates follow_9 mainnet false 7 v16
validate_message-IsAuthentic_example =
    validate_message-IsAuthentic crates follow_9 mainnet false 7 v16 passes

merge_add_validated_example :
    (event : HubEvent) × (t' : Transaction) × (merge_add link_messages
        (stamp 7 follow_9)
        follow_9
        start
      ≡ (ok event, t'))
    × (event.body ≡ merge_message_body follow_9 [])
    × (get_add link_messages t'.batch follow_9 ≡ ok (some follow_9))
merge_add_validated_example =
    merge_add_validated crates follow_9 mainnet false 7 v16 3 7 1 follow none 9 (1 ∷ []) legacy
      empty_database protobuf false start refl (unfold data_of in refl) refl (ground arith) passes
      (ground arith) (ground arith) follow_9-Decodes (unfold get_from_db_or_txn in refl)
      (unfold get_from_db_or_txn in refl) (unfold get_from_db_or_txn in refl)
