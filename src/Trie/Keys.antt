-- ===== src/Trie/Keys.antt =====
-- The keys of messages, onchain events and names in the merkle trie: `TrieKey` of
-- src/storage/trie/merkle_trie.rs. SHA-256, by which the virtual shard of a fid is chosen, is a parameter.
pub mod RoundTrip
use hypersnap.Shared.{
  ℕ, zero, suc, ◌+◌, ◌-◌, ◌*◌, ◌/◌, ◌%◌, ◌^◌, Bool, true, false, ◌&&◌, not, List, [], ◌∷◌, ◌++◌,
  Option, none, some, Result, ok, err, Error, length, drop, ltb, leb, ◌==◌, ◌>>=◌, unwrap,
  if◌then◌else◌,
}
use hypersnap.Bytes.{Bytes}
use hypersnap.Proto.{Message, MessageData, Body, UserNameProof, lend_storage_body, type_number}
use hypersnap.Proto.Blocks.{OnChainEvent}
use hypersnap.Proto.HubEvents.{
  MergeUserNameProofBody, HubEventBody, merge_message_event, prune_message_event,
  revoke_message_event, merge_on_chain_event, merge_username_proof_event, merge_failure,
  block_confirmed, username_type_fname,
}
use hypersnap.Keys.{make_fid_key, read_fid_key}
use hypersnap.Keys.BigEndian.{be_bytes_4}
use hypersnap.Routing.{fid_of, msg_type, route_fid}
use hypersnap.Trie.{TrieError, key_length_too_short}

abbrev pub username_max_length : ℕ
username_max_length = 20

abbrev pub fname_message_type : ℕ
fname_message_type = 7

-- `std::str::from_utf8`: so many bytes are to come, the next in a range.
abbrev lead : ℕ → Option (ℕ × ℕ × ℕ)
lead b =
    if ltb b 128
    then some (0, 0, 0)
    else if leb 194 b && leb b 223
    then some (1, 128, 191)
    else if b == 224
    then some (2, 160, 191)
    else if b == 237
    then some (2, 128, 159)
    else if leb 225 b && leb b 239
    then some (2, 128, 191)
    else if b == 240
    then some (3, 144, 191)
    else if leb 241 b && leb b 243
    then some (3, 128, 191)
    else if b == 244
    then some (3, 128, 143)
    else none

abbrev pub utf8_from : ℕ → ℕ → ℕ → Bytes → Bool
utf8_from zero low high [] = true
utf8_from (suc n) low high [] = false
utf8_from (suc n) low high (b ∷ bytes) = leb low b && leb b high && utf8_from n 128 191 bytes
utf8_from zero low high (b ∷ bytes) = elim (lead b) [
  | none ↦ false
  | some (n, l, h) ↦ utf8_from n l h bytes
]

abbrev pub is_utf8 : Bytes → Bool
is_utf8 bytes = utf8_from 0 0 0 bytes

abbrev pub repeat_zero : ℕ → Bytes
repeat_zero zero = []
repeat_zero (suc n) = 0 ∷ repeat_zero n

-- A decoded key; the types of onchain events and of names are below 8.
pub record DecodedTrieKey : Type 0 where
  pub virtual_shard : ℕ
  pub fid : ℕ
  pub onchain_message_type : Option ℕ
  pub message_type : Option ℕ
  pub rest : Bytes

module _ (sha256 : Bytes → Bytes) where
  -- With 256 shards the router does not fail.
  unfoldable pub fid_shard : ℕ → ℕ
  unfolding route_fid
  fid_shard fid = elim (route_fid sha256 fid 256) [ ok shard ↦ (shard - 1) % 256 | err e ↦ 0 ]

  unfoldable pub for_fid : ℕ → Bytes
  unfolding fid_shard make_fid_key
  for_fid fid = fid_shard fid ∷ make_fid_key fid

  -- `<< 3` in a byte
  unfoldable pub for_message_type : ℕ → ℕ → Bytes
  unfolding for_fid
  for_message_type fid msg_type = for_fid fid ++ (msg_type * 8 % 256) ∷ []

  abbrev pub message_trie_key : ℕ → Message → Bytes
  message_trie_key fid msg = for_message_type fid (type_number (msg_type msg)) ++ msg.hash

  abbrev borrower_keys : Message → Option Body → List Bytes
  borrower_keys msg (some (lend_storage_body body)) = message_trie_key body.to_fid msg ∷ []
  borrower_keys msg _ = []

  -- A loan of storage has a key of the lender and one of the borrower.
  unfoldable pub for_message : Message → Result Error (List Bytes)
  unfolding for_message_type msg_type fid_of
  for_message msg = unwrap msg.message_data >>= λ d.
      ok (message_trie_key (fid_of msg) msg ∷ borrower_keys msg d.body)

  unfoldable pub for_onchain_event : OnChainEvent → Bytes
  unfolding for_fid be_bytes_4
  for_onchain_event event =
      for_fid event.fid
      ++ ((event.type % 256) ∷ (event.transaction_hash ++ be_bytes_4 event.log_index))

  unfoldable pub for_fname : ℕ → Bytes → Bytes
  unfolding for_fid
  for_fname fid name =
      for_fid fid
      ++ (fname_message_type ∷ (name ++ repeat_zero (username_max_length - length name)))

  -- The deletion of a name is not put into the trie.
  abbrev fname_inserts : Option UserNameProof → Result Error (List Bytes)
  fname_inserts none = ok []
  fname_inserts (some proof) =
      if proof.type == username_type_fname && not (proof.fid == 0)
      then if is_utf8 proof.name then ok (for_fname proof.fid proof.name ∷ []) else err Error.panic
      else ok []

  abbrev fname_deletes : Option UserNameProof → Result Error (List Bytes)
  fname_deletes none = ok []
  fname_deletes (some proof) =
      if proof.type == username_type_fname
      then if is_utf8 proof.name then ok (for_fname proof.fid proof.name ∷ []) else err Error.panic
      else ok []

  abbrev keys_of : Option Message → Result Error (List Bytes)
  keys_of none = ok []
  keys_of (some message) = for_message message

  unfoldable pub keys_of_all : List Message → Result Error (List Bytes)
  unfolding for_message
  keys_of_all [] = ok []
  keys_of_all (message ∷ messages) = do
    first ← for_message message
    rest ← keys_of_all messages
    ok (first ++ rest)

  abbrev onchain_inserts : Option OnChainEvent → List Bytes
  onchain_inserts none = []
  onchain_inserts (some event) = for_onchain_event event ∷ []

  -- The keys to insert and those to delete.
  unfoldable pub for_hub_event : Option HubEventBody → Result Error (List Bytes × List Bytes)
  unfolding for_message for_onchain_event for_fname keys_of_all
  for_hub_event none = err Error.panic
  for_hub_event (some (merge_message_event message deleted_messages)) = do
    inserts ← keys_of message
    deletes ← keys_of_all deleted_messages
    ok (inserts, deletes)
  for_hub_event (some (merge_on_chain_event event)) = ok (onchain_inserts event, [])
  for_hub_event (some (prune_message_event message)) =
      keys_of message >>= λ deletes. ok ([], deletes)
  for_hub_event (some (revoke_message_event message)) =
      keys_of message >>= λ deletes. ok ([], deletes)
  for_hub_event (some (merge_username_proof_event merge)) = do
    inserts ← keys_of merge.username_proof_message
    deletes ← keys_of merge.deleted_username_proof_message
    names ← fname_inserts merge.username_proof
    old_names ← fname_deletes merge.deleted_username_proof
    ok (inserts ++ names, deletes ++ old_names)
  for_hub_event (some merge_failure) = ok ([], [])
  for_hub_event (some block_confirmed) = ok ([], [])

abbrev at : ℕ → Bytes → Result TrieError ℕ
at n key = elim (drop n key) [ [] ↦ err TrieError.panic | b ∷ bs ↦ ok b ]

abbrev fid_at_1 : Bytes → Result TrieError ℕ
fid_at_1 key = elim (read_fid_key key 1) [ ok fid ↦ ok fid | err e ↦ err TrieError.panic ]

-- `TrieKey::decode`
unfoldable pub decode : Bytes → Result TrieError DecodedTrieKey
unfolding read_fid_key
decode key = if ltb (length key) 12 then err key_length_too_short else (do
  virtual_shard ← at 0 key
  fid ← fid_at_1 key
  type ← at 5 key
  ok (record {
    virtual_shard = virtual_shard;
    fid = fid;
    onchain_message_type = if ltb type 8 then some type else none;
    message_type = if ltb type 8 then none else some (type / 8);
    rest = drop 6 key;
  }))
