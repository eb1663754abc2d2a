-- ===== src/Tests/Converging.antt =====
-- A follow and an unfollow of one user, seen in two orders, and links whose types differ by a zero byte.
use hypersnap.Shared.{
  ◌↔◌, ℕ, ◌≡◌, refl, sym, ap, ◌∙◌, arith, false, true, [], ◌∷◌, List, none, some, ok, All,
}
use hypersnap.Bytes.{Bytes}
use hypersnap.Proto.{Message}
use hypersnap.Keys.Prefix.{legacy}
use hypersnap.Database.{get_from_db_or_txn}
use hypersnap.Store.Types.{Protobuf}
use hypersnap.Store.Codec.{Decodes}
use hypersnap.Store.Merge.{get_add}
use hypersnap.Link.{ed25519, make_add_key, make_remove_key}
use hypersnap.Link.Apart.{trim, link_keys_shared}
use hypersnap.Link.Keys.{link_data, links, IsLink}
use hypersnap.Link.Slot.{LinkKind, adding, removing, type_of, IsVacant}
use hypersnap.Link.Slot.Latest.{Among, first, later, Contender, IsUpTo}
use hypersnap.Link.Slot.Winner.{merge_all, messages, standing}
use hypersnap.Link.Converging.{merge_all_latest, merge_all_converges}
use hypersnap.Tests.Fixtures.{follow, empty_database, start}

abbrev hash_from : ℕ → Bytes
hash_from n =
    n ∷ 2 ∷ 3 ∷ 4 ∷ 5 ∷ 6 ∷ 7 ∷ 8 ∷ 9 ∷ 10 ∷ 11 ∷ 12 ∷ 13 ∷ 14 ∷ 15 ∷ 16 ∷ 17 ∷ 18 ∷ 19 ∷ 20 ∷ []

-- User 3 follows or unfollows user 9 at a second.
abbrev link_at : ℕ → ℕ → Message
link_at type second = record {
  message_data = some (
      link_data type 3 second 1
        (record { type = follow; display_timestamp = none; target_fid = some 9 }));
  hash = hash_from second;
  hash_scheme = 1;
  signature = 7 ∷ [];
  signature_scheme = ed25519;
  signer = 1 ∷ [];
  data_bytes = none;
}

abbrev coded : Message → Bytes
coded m = elim m.message_data [ none ↦ [] | some d ↦ d.type ∷ d.timestamp ∷ [] ]

abbrev protobuf : Protobuf
protobuf = record {
  encode = coded;
  decode = λ bytes. elim bytes [ type ∷ second ∷ bs ↦ some (link_at type second) | _ ↦ none ];
  decode_data = λ bytes. none;
  encode_event = λ event. 1 ∷ [];
}

abbrev Follow : Type 0
Follow = Contender protobuf 3 follow 9

link_at-IsLink : (type second : ℕ) → IsLink (link_at type second) 3 second follow 9 type
link_at-IsLink type second = record {
  network = 1;
  display = none;
  signed = refl;
  content = refl;
  owned = ground arith;
  typed = ground arith;
  short = ground arith;
  hashed = refl;
}

link_at-Decodes : (type second : ℕ) → Decodes protobuf (link_at type second)
link_at-Decodes type second = record { decode-encode = refl; decode_data = λ b bs h. cc }

abbrev rival : LinkKind → ℕ → Follow
rival kind second = record {
  message = link_at (type_of kind) second;
  timestamp = second;
  kind = kind;
  link = link_at-IsLink (type_of kind) second;
  law = link_at-Decodes (type_of kind) second;
}

abbrev followed : Follow
followed = rival adding 7

abbrev unfollowed : Follow
unfollowed = rival removing 8

abbrev in_order : List Follow
in_order = followed ∷ unfollowed ∷ []

abbrev out_of_order : List Follow
out_of_order = unfollowed ∷ followed ∷ unfollowed ∷ []

start-IsVacant : IsVacant empty_database legacy 3 follow 9 start.batch
unfolding get_from_db_or_txn
start-IsVacant = record { no_add = refl; no_remove = refl; no_compact = refl }

merge_all_latest_example :
    (w : Follow) × Among w in_order
    × All (IsUpTo protobuf 3 follow 9 w) in_order
    × (get_add
          (links empty_database protobuf legacy false)
          (merge_all (links empty_database protobuf legacy false) (messages in_order) start).batch
          followed.message
        ≡ ok (standing w.kind w.message))
merge_all_latest_example =
    merge_all_latest protobuf legacy 3 follow 9 empty_database false in_order followed start
      (λ e. cc) (ground arith) start-IsVacant

reorder : (a : Follow) → Among a in_order → Among a out_of_order
reorder a (first e) = later (first e)
reorder a (later (first e)) = first e
reorder a (later (later m)) = elim m [ ]

restore : (a : Follow) → Among a out_of_order → Among a in_order
restore a (first e) = later (first e)
restore a (later (first e)) = first e
restore a (later (later (first e))) = later (first e)
restore a (later (later (later m))) = elim m [ ]

abbrev hash_in : Follow → Bytes
hash_in a = a.message.hash

same_hash :
    (a b : Follow)
    → Among a in_order
    → Among b in_order
    → a.message.hash ≡ b.message.hash
    → a.message ≡ b.message
same_hash a b (first e) (first e') h = ap (λ (c : Follow). c.message) (e ∙ sym e')
same_hash a b (first e) (later (first e')) h = absurd (ground (arith, ap hash_in e, ap hash_in e'))
same_hash a b (later (first e)) (first e') h = absurd (ground (arith, ap hash_in e, ap hash_in e'))
same_hash a b (later (first e)) (later (first e')) h = ap (λ (c : Follow). c.message) (e ∙ sym e')
same_hash a b (later (later m)) _ h = elim m [ ]
same_hash a b (first e) (later (later m)) h = elim m [ ]
same_hash a b (later (first e)) (later (later m)) h = elim m [ ]

merge_all_converges_example :
    get_add
      (links empty_database protobuf legacy false)
      (merge_all (links empty_database protobuf legacy false) (messages in_order) start).batch
      followed.message
    ≡ get_add
        (links empty_database protobuf legacy true)
        (merge_all (links empty_database protobuf legacy true) (messages out_of_order) start).batch
        followed.message
merge_all_converges_example =
    merge_all_converges protobuf legacy 3 follow 9 empty_database empty_database false true in_order
      out_of_order followed start start (λ e. cc) (λ a. (reorder a, restore a)) same_hash
      (ground arith) (ground arith) start-IsVacant start-IsVacant

-- "follow" with a zero byte at its end.
abbrev padded_follow : Bytes
padded_follow = 102 ∷ 111 ∷ 108 ∷ 108 ∷ 111 ∷ 119 ∷ 0 ∷ []

abbrev padded_link : Message
padded_link = record followed.message {
  message_data = some (
      link_data 5 3 7 1
        (record { type = padded_follow; display_timestamp = none; target_fid = some 9 }));
}

padded_link-IsLink : IsLink padded_link 3 7 padded_follow 9 5
padded_link-IsLink = record {
  network = 1;
  display = none;
  signed = refl;
  content = refl;
  owned = ground arith;
  typed = ground arith;
  short = ground arith;
  hashed = refl;
}

link_keys_shared_example :
    ((make_add_key followed.message legacy ≡ make_add_key padded_link legacy)
      ↔ ((◌≡◌ {A = ℕ} 3 3) × (trim follow ≡ trim padded_follow) × (◌≡◌ {A = ℕ} 9 9)))
    × ((make_remove_key followed.message legacy ≡ make_remove_key padded_link legacy)
        ↔ ((◌≡◌ {A = ℕ} 3 3) × (trim follow ≡ trim padded_follow) × (◌≡◌ {A = ℕ} 9 9)))
link_keys_shared_example =
    link_keys_shared followed.message padded_link legacy 3 3 7 7 follow padded_follow 9 9 5 5
      (link_at-IsLink 5 7) padded_link-IsLink (ground arith) (ground arith) (ground arith)
      (ground arith)
