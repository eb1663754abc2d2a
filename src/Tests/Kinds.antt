-- ===== src/Tests/Kinds.antt =====
-- The theorems on the stores of reactions, verifications and casts at concrete messages.
use hypersnap.Shared.{
  ◌≡◌, refl, arith, false, [], ◌∷◌, none, some, ok, err, Error, inl, inr, compare,
}
use hypersnap.Bytes.{bytes_compare}
use hypersnap.Proto.{
  Message, MessageData, ReactionTarget, target_cast_id, VerificationAddAddressBody, CastAddBody,
  ReactionTarget,
}
use hypersnap.Keys.Order.{break_tie}
use hypersnap.Keys.Prefix.{legacy}
use hypersnap.Database.{Database, get_from_db_or_txn}
use hypersnap.Store.Types.{Protobuf, Transaction, HubEvent, merge_message_body}
use hypersnap.Store.Merge.{merge_add, get_add}
use hypersnap.Link.{ed25519}
use hypersnap.Link.Keys.{stamp}
use hypersnap.Stores.Fresh.{store_of}
use hypersnap.Stores.Reaction.{reaction_store}
use hypersnap.Stores.Reaction.Merging.{IsReaction, reaction_data, merge_reaction_fresh}
use hypersnap.Stores.Verification.Merging.{IsVerification, verification_data}
use hypersnap.Stores.Cast.{cast_store, make_cast_set_key}
use hypersnap.Stores.Cast.Compare.{cast_message_compare, cast_message_compare-lexicographic}
use hypersnap.Stores.Cast.Removing.{cast_data, removed_key, removed_cast_refused}
use hypersnap.Tests.Fixtures.{hash_20, empty_database, start}

abbrev signed : MessageData → Message
signed data' = record {
  message_data = some data';
  hash = hash_20;
  hash_scheme = 1;
  signature = 7 ∷ [];
  signature_scheme = ed25519;
  signer = 1 ∷ [];
  data_bytes = none;
}

-- An encoding that knows one message.
abbrev knows : Message → Protobuf
knows m = record {
  encode = λ _. 1 ∷ [];
  decode = λ bytes. some m;
  decode_data = λ bytes. none;
  encode_event = λ event. 1 ∷ [];
}

abbrev some_cast : ReactionTarget
some_cast = target_cast_id (record { fid = 9; hash = hash_20 })

-- User 3 likes a cast of user 9.
abbrev like : Message
like = signed (reaction_data 3 7 1 1 some_cast)

like-IsReaction : IsReaction like 3 7 1 some_cast
like-IsReaction = record {
  network = 1;
  content = refl;
  owned = ground arith;
  typed = ground arith;
  hashed = refl;
}

merge_reaction_fresh_example :
    (event : HubEvent) × (t' : Transaction) × (merge_add
        (store_of reaction_store empty_database (knows like) legacy false)
        (stamp 7 like)
        like
        start
      ≡ (ok event, t'))
    × (event.body ≡ merge_message_body like [])
    × (get_add (store_of reaction_store empty_database (knows like) legacy false) t'.batch like
        ≡ ok (some like))
merge_reaction_fresh_example =
    merge_reaction_fresh like 3 7 1 some_cast like-IsReaction empty_database (knows like) legacy
      false start (ground arith) (ground arith)
      (record { decode-encode = refl; decode_data = λ b bs h. cc })
      (unfold get_from_db_or_txn in refl) (unfold get_from_db_or_txn in refl)

abbrev eth_address : VerificationAddAddressBody
eth_address = record {
  address = hash_20;
  claim_signature = [];
  block_hash = [];
  verification_type = 0;
  chain_id = 0;
  protocol = 0;
}

abbrev verified : Message
verified = signed (verification_data 3 7 1 eth_address)

verified-IsVerification : IsVerification verified 3 7 eth_address
verified-IsVerification = record {
  network = 1;
  content = refl;
  owned = ground arith;
  addressed = ground arith;
  hashed = refl;
}

cast_message_compare-lexicographic_example :
    cast_message_compare 2 (0 ∷ 0 ∷ 0 ∷ 7 ∷ hash_20) 1 (0 ∷ 0 ∷ 0 ∷ 8 ∷ hash_20)
    ≡ ok (
        break_tie (compare 2 1) (bytes_compare (0 ∷ 0 ∷ 0 ∷ 7 ∷ hash_20) (0 ∷ 0 ∷ 0 ∷ 8 ∷ hash_20)))
cast_message_compare-lexicographic_example =
    cast_message_compare-lexicographic 2 1 (0 ∷ 0 ∷ 0 ∷ 7 ∷ hash_20) (0 ∷ 0 ∷ 0 ∷ 8 ∷ hash_20)
      (inr refl) (inl refl) refl refl

abbrev words : CastAddBody
words = record {
  embeds_deprecated = [];
  mentions = [];
  parent = none;
  text = 104 ∷ [];
  mentions_positions = [];
  embeds = [];
  type = 0;
}

abbrev cast : Message
cast = signed (cast_data 3 8 1 words)

-- The cast was removed a second before its own timestamp.
abbrev removed : Transaction
removed = record {
  batch = (removed_key legacy 3 hash_20, some (stamp 7 cast)) ∷ [];
  generator = start.generator;
}

removed_cast_refused_example :
    (e : Error) × (merge_add
        (store_of cast_store empty_database (knows cast) legacy false)
        (stamp 8 cast)
        cast
        removed
      ≡ (err e, removed))
removed_cast_refused_example =
    removed_cast_refused empty_database (knows cast) legacy false cast 3 8 1 words (stamp 8 cast)
      (stamp 7 cast) removed refl
      (unfold get_from_db_or_txn make_cast_set_key hypersnap.Keys.make_user_key_with_prefix
          hypersnap.Keys.Prefix.root_prefix hypersnap.Database.bytes_eq in
        refl)
