-- ===== src/Tests/Fixtures.antt =====
-- A link message, a store with an empty database, and an encoding of such messages by their seconds.
use hypersnap.Shared.{ℕ, refl, arith, false, [], ◌∷◌, none, some}
use hypersnap.Bytes.{Bytes}
use hypersnap.Proto.{Message}
use hypersnap.Keys.Prefix.{legacy}
use hypersnap.Database.{Database}
use hypersnap.Store.Types.{Protobuf, Store, Transaction}
use hypersnap.Link.{ed25519}
use hypersnap.Link.Keys.{link_data, links, IsLink}

abbrev pub hash_20 : Bytes
hash_20 =
    1 ∷ 2 ∷ 3 ∷ 4 ∷ 5 ∷ 6 ∷ 7 ∷ 8 ∷ 9 ∷ 10 ∷ 11 ∷ 12 ∷ 13 ∷ 14 ∷ 15 ∷ 16 ∷ 17 ∷ 18 ∷ 19 ∷ 20 ∷ []

-- "follow"
abbrev pub follow : Bytes
follow = 102 ∷ 111 ∷ 108 ∷ 108 ∷ 111 ∷ 119 ∷ []

-- User 3 follows user 9 at a second.
abbrev pub follow_at : ℕ → Message
follow_at second = record {
  message_data = some (
      link_data 5 3 second 1
        (record { type = follow; display_timestamp = none; target_fid = some 9 }));
  hash = hash_20;
  hash_scheme = 1;
  signature = 7 ∷ [];
  signature_scheme = ed25519;
  signer = 1 ∷ [];
  data_bytes = none;
}

abbrev pub follow_9 : Message
follow_9 = follow_at 7

pub follow_at-IsLink : (second : ℕ) → IsLink (follow_at second) 3 second follow 9 5
follow_at-IsLink second = record {
  network = 1;
  display = none;
  signed = refl;
  content = refl;
  owned = ground arith;
  typed = ground arith;
  short = ground arith;
  hashed = refl;
}

pub follow_9-IsLink : IsLink follow_9 3 7 follow 9 5
follow_9-IsLink = follow_at-IsLink 7

abbrev second_of : Message → ℕ
second_of m = elim m.message_data [ none ↦ 0 | some d ↦ d.timestamp ]

abbrev pub protobuf : Protobuf
protobuf = record {
  encode = λ m. second_of m ∷ [];
  decode = λ bytes. elim bytes [ [] ↦ none | b ∷ bs ↦ some (follow_at b) ];
  decode_data = λ bytes. none;
  encode_event = λ event. 1 ∷ [];
}

abbrev pub empty_database : Database
empty_database = record { get = λ key. none; scan = λ start stop. [] }

abbrev pub start : Transaction
start = record { batch = []; generator = record { current_height = 1; current_seq = 0 } }

abbrev pub link_messages : Store
link_messages = links empty_database protobuf legacy false
