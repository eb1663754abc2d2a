-- ===== src/Link/Validated.antt =====
-- From `validate_message` of src/core/validations/message.rs to the link store: a link add that passes it is
-- merged into an empty slot.
use hypersnap.Shared.{
  ℕ, ◌^◌, ◌<◌, ◌≤◌, ◌≡◌, ◌∙◌, ap, Bool, [], ◌∷◌, Option, none, some, Result, ok, length, arith,
}
use mathlib.Core.Path.{subst}
use hypersnap.Bytes.{Bytes}
use hypersnap.Proto.{Message, MessageData, LinkBody}
use hypersnap.Keys.{hash_length}
use hypersnap.Keys.Prefix.{StateContext, postfix_u8, link_adds, link_removes}
use hypersnap.Database.{Database, get_from_db_or_txn}
use hypersnap.Version.{EngineVersion, FarcasterNetwork}
use hypersnap.Store.Types.{Transaction, HubEvent, merge_message_body, Protobuf}
use hypersnap.Store.Codec.{Decodes}
use hypersnap.Store.Merge.{merge_add, get_add}
use hypersnap.Link.Keys.{link_data, links, IsLink, slot_key, compact_key, stamp}
use hypersnap.Link.Merging.{merge_add_fresh}
use hypersnap.Validation.{ValidationError, validate_link_body}
use hypersnap.Validation.Bodies.{Passes}
use hypersnap.Validation.Whole.{MessageCrates, data_of, validate_body, validate_message}
use hypersnap.Validation.Authentic.{validate_message-IsAuthentic}

-- A link to a target.
abbrev pub link_to : Bytes → Option ℕ → ℕ → LinkBody
link_to type display target = record {
  type = type;
  display_timestamp = display;
  target_fid = some target;
}

validate_link_body-Passes :
    (type : Bytes) (display : Option ℕ) (target : ℕ)
    → Passes (validate_link_body (link_to type display target))
    → (1 ≤ length type) × (length type ≤ 8)
unfolding validate_link_body hypersnap.Validation.validate_link_type
validate_link_body-Passes [] display target h = ground arith
validate_link_body-Passes (b ∷ bs) display target h = ground arith

same_data :
    (r : Result ValidationError (Bytes × MessageData)) (a b : Bytes) (c d : MessageData)
    → r ≡ ok (a, c)
    → r ≡ ok (b, d)
    → (a ≡ b) × (c ≡ d)
same_data r a b c d e f = ground (arith, e, f)

module _ (crates : MessageCrates) (m : Message) (network : FarcasterNetwork) (pro : Bool)
    (block_timestamp : ℕ) (version : EngineVersion) (fid timestamp net : ℕ) (type : Bytes)
    (display : Option ℕ) (target : ℕ) (bytes : Bytes) where
  -- The data that are checked are those of the message, and hashes have 20 bytes.
  validated-IsLink :
      m.message_data ≡ some (link_data 5 fid timestamp net (link_to type display target))
      → data_of crates m ≡ ok (bytes, link_data 5 fid timestamp net (link_to type display target))
      → length (crates.blake3_20 bytes) ≡ hash_length
      → 0 < fid
      → Passes (validate_message crates m network pro block_timestamp version)
      → IsLink m fid timestamp type target 5
  unfolding validate_body
  validated-IsLink content source hash_20 owned passes =
      let a = validate_message-IsAuthentic crates m network pro block_timestamp version passes in
      let (same, d) =
        same_data (data_of crates m) a.data_bytes bytes a.data'
          (link_data 5 fid timestamp net (link_to type display target)) a.source source in
      let body =
        validate_link_body-Passes type display target
          (subst (λ x. Passes (validate_body crates x pro block_timestamp version)) d a.checked) in
      record {
        network = net;
        display = display;
        signed = a.scheme;
        content = content;
        owned = owned;
        typed = body.0;
        short = body.1;
        hashed = ap length a.hashed ∙ ap (λ x. length (crates.blake3_20 x)) same ∙ hash_20;
      }

  -- A link add with a target, of a user other than 0, that passes `validate_message` (its data
  -- being those that are checked, and hashes having 20 bytes) and is merged into an empty slot (no
  -- add, no remove, no compact state), with room for an event id, is accepted with no deleted
  -- messages, and `get_add` then returns it.
  pub merge_add_validated :
      (ctx : StateContext) (db : Database) (protobuf : Protobuf) (no_persist : Bool)
      (t : Transaction)
      → m.message_data ≡ some (link_data 5 fid timestamp net (link_to type display target))
      → data_of crates m ≡ ok (bytes, link_data 5 fid timestamp net (link_to type display target))
      → length (crates.blake3_20 bytes) ≡ hash_length
      → 0 < fid
      → Passes (validate_message crates m network pro block_timestamp version)
      → t.generator.current_height < 2 ^ 50
      → t.generator.current_seq < 2 ^ 14
      → Decodes protobuf m
      → get_from_db_or_txn db t.batch (slot_key (postfix_u8 link_adds) ctx fid type target) ≡ none
      → get_from_db_or_txn db t.batch (slot_key (postfix_u8 link_removes) ctx fid type target)
        ≡ none
      → get_from_db_or_txn db t.batch (compact_key ctx fid type) ≡ none
      → (event : HubEvent) × (t' : Transaction) × (merge_add
            (links db protobuf ctx no_persist)
            (stamp timestamp m)
            m
            t
          ≡ (ok event, t'))
        × (event.body ≡ merge_message_body m [])
        × (get_add (links db protobuf ctx no_persist) t'.batch m ≡ ok (some m))
  merge_add_validated ctx db protobuf no_persist t content source hash_20 owned passes =
      merge_add_fresh m ctx fid timestamp type target
        (validated-IsLink content source hash_20 owned passes) db protobuf no_persist t
