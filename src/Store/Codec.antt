-- ===== src/Store/Codec.antt =====
-- Messages in the database: `message_encode`, `message_decode` and the reads and writes of
-- src/storage/store/account/message.rs that use them.
use hypersnap.Shared.{
  ℕ, ◌≡◌, refl, Bool, true, false, [], ◌∷◌, Option, none, some, Result, ok, err, Error, hub, sym,
  ap, ◌>>=◌, unwrap, arith,
}
use hypersnap.Bytes.{Bytes}
use hypersnap.Proto.{Message, message_type_of}
use hypersnap.Keys.{
  make_ts_hash, make_message_primary_key_with_prefix, type_to_set_postfix,
  make_user_key_with_prefix,
}
use hypersnap.Keys.Prefix.{postfix_u8}
use hypersnap.Database.{Database, Batch, put, delete, get_from_db_or_txn}
use hypersnap.Store.Types.{Protobuf}

-- The bytes are there and not empty.
abbrev pub filled : Option Bytes → Bool
filled none = false
filled (some []) = false
filled (some (b ∷ bs)) = true

module _ (proto : Protobuf) where
  unfoldable pub message_encode : Message → Bytes
  message_encode message = elim (filled message.data_bytes) [
    | true ↦ proto.encode (record message { message_data = none })
    | false ↦ proto.encode message
  ]

  unfoldable pub message_bytes_decode : Message → Message
  message_bytes_decode msg = elim msg.data_bytes [
    | none ↦ msg
    | some [] ↦ msg
    | some (b ∷ bs) ↦ record msg { message_data = proto.decode_data (b ∷ bs) }
  ]

  unfoldable pub message_decode : Bytes → Result Error Message
  unfolding message_bytes_decode
  message_decode bytes = elim (proto.decode bytes) [
    | some msg ↦ ok (message_bytes_decode msg)
    | none ↦ err (hub "db.internal_error" "decode error")
  ]

  unfoldable pub get_message_by_key : Database → Batch → Bytes → Result Error (Option Message)
  unfolding message_decode
  get_message_by_key db txn key = elim (get_from_db_or_txn db txn key) [
    | none ↦ ok none
    | some bytes ↦ message_decode bytes >>= λ message. ok (some message)
  ]

  unfoldable pub get_message_with_prefix :
      Database → Batch → ℕ → ℕ → ℕ → Bytes → Result Error (Option Message)
  unfolding get_message_by_key
  get_message_with_prefix db txn root_prefix fid set ts_hash =
      get_message_by_key db txn
        (make_message_primary_key_with_prefix root_prefix fid set (some ts_hash))

  -- The key that `put_message_transaction_with_prefix` writes and
  -- `delete_message_transaction_with_prefix` deletes.
  unfoldable pub message_key : Message → ℕ → Result Error Bytes
  message_key message root_prefix = do
    data' ← unwrap message.message_data
    ts_hash ← make_ts_hash data'.timestamp message.hash
    type ← unwrap (message_type_of data'.type)
    set ← type_to_set_postfix type
    ok (make_message_primary_key_with_prefix root_prefix data'.fid (postfix_u8 set) (some ts_hash))

  unfoldable pub put_message_transaction_with_prefix : Batch → Message → ℕ → Result Error Batch
  unfolding message_key message_encode
  put_message_transaction_with_prefix txn message root_prefix = do
    primary_key ← message_key message root_prefix
    ok (put txn primary_key (message_encode message))

  unfoldable pub delete_message_transaction_with_prefix : Batch → Message → ℕ → Result Error Batch
  unfolding message_key
  delete_message_transaction_with_prefix txn message root_prefix = do
    primary_key ← message_key message root_prefix
    ok (delete txn primary_key)

  -- What is encoded for a message: it goes without its data where its data bytes are there.
  abbrev pub stored_form : Message → Message
  stored_form m = elim (filled m.data_bytes) [ true ↦ record m { message_data = none } | false ↦ m ]

  -- The decoder gives back what the encoder was given for this message, and the data bytes of the
  -- message, if it has any, decode to its data.
  pub record Decodes (m : Message) : Type 0 where
    pub decode-encode : proto.decode (proto.encode (stored_form m)) ≡ some (stored_form m)
    pub decode_data :
        (b : ℕ) (bs : Bytes)
        → m.data_bytes ≡ some (b ∷ bs)
        → proto.decode_data (b ∷ bs) ≡ m.message_data

  -- What is stored for a message, with its data or with its data bytes only, decodes to the
  -- message, given that the protobuf decoder inverts the encoder on what is encoded for it, and
  -- that its data bytes, if it has any, decode to its data.
  pub message_decode-message_encode :
      (m : Message) → Decodes m → message_decode (message_encode m) ≡ ok m
  unfolding message_decode message_encode
  message_decode-message_encode m law = go m.data_bytes refl
    where
      go : (o : Option Bytes) → m.data_bytes ≡ o → message_decode (message_encode m) ≡ ok m
      go none e = ground (arith, law.decode-encode)
      go (some []) e = ground (arith, law.decode-encode)
      go (some (b ∷ bs)) e = ground (arith, law.decode-encode, law.decode_data b bs e)

bind_inv :
    {A B : Type 0} (r : Result Error A) (f : A → Result Error B) (b : B)
    → (r >>= f) ≡ ok b
    → (a : A) × (f a ≡ ok b)
bind_inv (ok a) f b h = (a, h)
bind_inv (err x) f b h = absurd (ground (arith, h))

-- The key of a message starts with the prefix that is asked for.
pub message_key_shape :
    (proto : Protobuf) (message : Message) (prefix : ℕ) (key : Bytes)
    → message_key proto message prefix ≡ ok key
    → (rest : Bytes) × (key ≡ prefix ∷ rest)
unfolding message_key make_message_primary_key_with_prefix make_user_key_with_prefix
message_key_shape proto message prefix key h =
    let (d, h1) = bind_inv (unwrap message.message_data) _ key h in
    let (ts_hash, h2) = bind_inv (make_ts_hash d.timestamp message.hash) _ key h1 in
    let (type, h3) = bind_inv (unwrap (message_type_of d.type)) _ key h2 in
    let (set, h4) = bind_inv (type_to_set_postfix type) _ key h3 in
    (_, sym (ap (λ r. elim r [ ok k ↦ k | err x ↦ key ]) h4))
