-- ===== src/Trie/Keys/RoundTrip.antt =====
-- What `TrieKey::decode` of src/storage/trie/merkle_trie.rs reads from the keys of the trie.
use hypersnap.Shared.{
  ℕ, zero, suc, ◌-◌, ◌*◌, ◌^◌, ◌%◌, ◌/◌, ltb, false, if◌then◌else◌, ◌<◌, ◌≤◌, ◌≡◌, ◌≢◌, refl, sym,
  ap, ◌∙◌, ◌∷◌, ◌++◌, Option, none, some, Result, ok, err, length, drop, length-append, arith,
}
use hypersnap.Bytes.{Bytes}
use hypersnap.Proto.{Message, MessageType, none_type, type_number}
use hypersnap.Proto.Blocks.{OnChainEvent}
use hypersnap.Keys.{make_fid_key, read_fid_key}
use hypersnap.Keys.BigEndian.{be_bytes_4, be_number_4-be_bytes_4}
use hypersnap.Routing.{msg_type}
use hypersnap.Trie.{TrieError}
use hypersnap.Trie.Keys.{
  DecodedTrieKey, fid_shard, for_message_type, for_onchain_event, for_fname, decode,
  message_trie_key, fname_message_type, repeat_zero,
}

module _ (shard fid type : ℕ) (rest : Bytes) where
  abbrev key : Bytes
  key = shard ∷ (make_fid_key fid ++ type ∷ rest)

  read_fid : fid < 2 ^ 32 → read_fid_key key 1 ≡ ok fid
  unfolding read_fid_key make_fid_key
  read_fid small = ground (arith, be_number_4-be_bytes_4 fid small)

  type_there : drop 5 key ≡ type ∷ rest
  unfolding make_fid_key be_bytes_4
  type_there = refl

  rest_there : drop 6 key ≡ rest
  unfolding make_fid_key be_bytes_4
  rest_there = refl

  long_enough : 6 ≤ length rest → ltb (length key) 12 ≡ false
  unfolding make_fid_key be_bytes_4
  long_enough long = ground (arith, long)

  decode-key :
      fid < 2 ^ 32
      → 6 ≤ length rest
      → decode key
        ≡ ok (record {
          virtual_shard = shard;
          fid = fid;
          onchain_message_type = if ltb type 8 then some type else none;
          message_type = if ltb type 8 then none else some (type / 8);
          rest = rest;
        })
  unfolding decode
  decode-key small long = ground (arith, long_enough long, read_fid small, type_there, rest_there)

type_bounds : (t : MessageType) → t ≢ none_type → (1 ≤ type_number t) × (type_number t ≤ 17)
type_bounds t h = ground (arith, h)

length-repeat_zero : (n : ℕ) → length (repeat_zero n) ≡ n
length-repeat_zero zero = refl
length-repeat_zero (suc n) = omega (arith, length-repeat_zero n)

abbrev onchain_of : Result TrieError DecodedTrieKey → Option ℕ
onchain_of (ok d) = d.onchain_message_type
onchain_of (err e) = none

apart :
    (a b : DecodedTrieKey) (e : ℕ) (decoding : Result TrieError DecodedTrieKey)
    → decoding ≡ ok a
    → decoding ≡ ok b
    → a.onchain_message_type ≡ none
    → b.onchain_message_type ≡ some e
    → ⊥
apart a b e decoding p p' q r =
    let same : none ≡ some e = sym q ∙ (ap onchain_of (sym p ∙ p') ∙ r) in ground (arith, same)

module _ (sha256 : Bytes → Bytes) where
  -- A decoded key of a user, by the kinds that are below 8 or not.
  abbrev pub decoded : ℕ → Option ℕ → Option ℕ → Bytes → DecodedTrieKey
  decoded user onchain_message_type message_type rest = record {
    virtual_shard = fid_shard sha256 user;
    fid = user;
    onchain_message_type = onchain_message_type;
    message_type = message_type;
    rest = rest;
  }

  decode-message :
      (msg : Message) (user : ℕ)
      → user < 2 ^ 32
      → msg_type msg ≢ none_type
      → 6 ≤ length msg.hash
      → decode (message_trie_key sha256 user msg)
        ≡ ok (decoded user none (some (type_number (msg_type msg))) msg.hash)
  unfolding for_message_type make_fid_key be_bytes_4
  decode-message msg user small typed long =
      let t = type_number (msg_type msg) in
      let bounds = type_bounds (msg_type msg) typed in
      let is_message : ltb (t * 8 % 256) 8 ≡ false = ground (arith, bounds) in
      let same : t * 8 % 256 / 8 ≡ t = omega (arith, bounds.0, bounds.1) in
      ground (
        arith,
        decode-key (fid_shard sha256 user) user (t * 8 % 256) msg.hash small long,
        is_message,
        same,
      )

  decode-onchain_event :
      (event : OnChainEvent)
      → event.fid < 2 ^ 32
      → event.type < 8
      → 2 ≤ length event.transaction_hash
      → decode (for_onchain_event sha256 event)
        ≡ ok (
            decoded event.fid
              (some event.type)
              none
              (event.transaction_hash ++ be_bytes_4 event.log_index))
  unfolding for_onchain_event make_fid_key be_bytes_4
  decode-onchain_event event small low long =
      let rest = event.transaction_hash ++ be_bytes_4 event.log_index in
      let same : event.type % 256 ≡ event.type = omega (arith, low) in
      let enough : 6 ≤ length rest =
        omega (arith, long, length-append event.transaction_hash (be_bytes_4 event.log_index)) in
      ground (
        arith,
        decode-key (fid_shard sha256 event.fid) event.fid (event.type % 256) rest small enough,
        same,
        low,
      )

  decode-fname :
      (user : ℕ) (name : Bytes)
      → user < 2 ^ 32
      → length name ≤ 20
      → decode (for_fname sha256 user name)
        ≡ ok (decoded user (some fname_message_type) none (name ++ repeat_zero (20 - length name)))
  unfolding for_fname make_fid_key
  decode-fname user name small short =
      let zeros = repeat_zero (20 - length name) in
      let enough : 6 ≤ length (name ++ zeros) =
        omega (arith, short, length-append name zeros, length-repeat_zero (20 - length name)) in
      decode-key (fid_shard sha256 user) user fname_message_type (name ++ zeros) small enough

  -- For fids of 32 bits, a message of a type other than none with a hash of at least 6 bytes, an
  -- onchain event of a type below 8 with a transaction hash of at least 2 bytes, and a name of at
  -- most 20 bytes: `decode` reads from the trie key of each the virtual shard, the fid, the kind
  -- with its type, and the rest, and the key of the message is neither that of the event nor that
  -- of the name.
  pub decode-trie_keys :
      (msg : Message) (event : OnChainEvent) (user : ℕ) (name : Bytes)
      → user < 2 ^ 32
      → event.fid < 2 ^ 32
      → msg_type msg ≢ none_type
      → 6 ≤ length msg.hash
      → event.type < 8
      → 2 ≤ length event.transaction_hash
      → length name ≤ 20
      → (decode (message_trie_key sha256 user msg)
          ≡ ok (decoded user none (some (type_number (msg_type msg))) msg.hash))
        × (decode (for_onchain_event sha256 event)
            ≡ ok (
                decoded event.fid
                  (some event.type)
                  none
                  (event.transaction_hash ++ be_bytes_4 event.log_index)))
        × (decode (for_fname sha256 user name)
            ≡ ok (
                decoded user
                  (some fname_message_type)
                  none
                  (name ++ repeat_zero (20 - length name))))
        × (message_trie_key sha256 user msg ≢ for_onchain_event sha256 event)
        × (message_trie_key sha256 user msg ≢ for_fname sha256 user name)
  decode-trie_keys msg event user name small small' typed long low long' short =
      let message = decode-message msg user small typed long in
      let onchain = decode-onchain_event event small' low long' in
      let fname = decode-fname user name small short in
      (
        message,
        onchain,
        fname,
        λ same.
            apart (decoded user none (some (type_number (msg_type msg))) msg.hash)
              (decoded event.fid (some event.type) none
                (event.transaction_hash ++ be_bytes_4 event.log_index))
              event.type (decode (message_trie_key sha256 user msg)) message
              (ap decode same ∙ onchain) refl refl,
        λ same.
            apart (decoded user none (some (type_number (msg_type msg))) msg.hash)
              (decoded user (some fname_message_type) none (name ++ repeat_zero (20 - length name)))
              fname_message_type (decode (message_trie_key sha256 user msg)) message
              (ap decode same ∙ fname) refl refl,
      )
