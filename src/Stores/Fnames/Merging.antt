-- ===== src/Stores/Fnames/Merging.antt =====
-- What the merge of a username proof leaves: the proof under its name, and the index by fid.
use hypersnap.Shared.{
  ℕ, ◌^◌, ◌<◌, ◌≡◌, refl, ◌∙◌, false, Option, none, some, ok, arith, ◌==◌, if◌then◌else◌, sym, ap,
  drop, Bool-cases, inl, inr, ◌⊎◌, true, ◌%◌,
}
use hypersnap.Bytes.{Bytes}
use hypersnap.Proto.{UserNameProof}
use hypersnap.Keys.{make_fid_key}
use hypersnap.Keys.BigEndian.{be_bytes_4, be_number_4, be_number_4-be_bytes_4}
use hypersnap.Events
use hypersnap.Events.{make_event_key, generate_id, HubEventIdGenerator}
use hypersnap.Database.{Batch, put, bytes_eq, get_from_db_or_txn}
use hypersnap.Database.Laws.{bytes_eq_iff, get-put, get-delete, bytes_eq_refl}
use hypersnap.Store.Types.{Store, Transaction, HubEvent, merge_username_proof_body, new_event}
use hypersnap.Store.Writes.{commit_transaction}
use hypersnap.Link.Merging.{generate_ok}
use hypersnap.Stores.Fnames.{
  ProofCodec, make_fname_username_proof_key, make_fname_username_proof_by_fid_key,
  get_username_proof, refuse_proof, fid_of, put_username_proof_transaction, merge_username_proof,
}

fid_key_injective :
    (a b : ℕ)
    → a < 2 ^ 32
    → b < 2 ^ 32
    → make_fname_username_proof_by_fid_key a ≡ make_fname_username_proof_by_fid_key b
    → a ≡ b
unfolding make_fname_username_proof_by_fid_key make_fid_key
fid_key_injective a b ha hb e =
    let small_a : a % 2 ^ 32 ≡ a = omega (arith, ha) in
    let small_b : b % 2 ^ 32 ≡ b = omega (arith, hb) in
    let number : (n : ℕ) → n < 2 ^ 32 → be_number_4 (be_bytes_4 n) ≡ n = be_number_4-be_bytes_4 in
    sym (number a ha)
    ∙ ap (λ n. be_number_4 (be_bytes_4 n)) (sym small_a)
    ∙ ap (λ x. be_number_4 (drop 1 x)) e
    ∙ ap (λ n. be_number_4 (be_bytes_4 n)) small_b
    ∙ number b hb

fid_key_eq :
    (a b : ℕ)
    → a < 2 ^ 32
    → b < 2 ^ 32
    → bytes_eq (make_fname_username_proof_by_fid_key a) (make_fname_username_proof_by_fid_key b)
      ≡ (a == b)
fid_key_eq a b ha hb = elim (Bool-cases (a == b)) [
  | inl same ↦
      ap
        (λ x.
          bytes_eq (make_fname_username_proof_by_fid_key a)
            (make_fname_username_proof_by_fid_key x))
        {x = b} {y = a} (ground (arith, same))
      ∙ bytes_eq_refl (make_fname_username_proof_by_fid_key a)
      ∙ sym same
  | inr other ↦ differ other (
      Bool-cases (
        bytes_eq (make_fname_username_proof_by_fid_key a) (make_fname_username_proof_by_fid_key b)))
]
  where
    differ :
        (a == b) ≡ false
        → (bytes_eq
              (make_fname_username_proof_by_fid_key a)
              (make_fname_username_proof_by_fid_key b)
            ≡ true)
          ⊎ (bytes_eq
                (make_fname_username_proof_by_fid_key a)
                (make_fname_username_proof_by_fid_key b)
              ≡ false)
        → bytes_eq (make_fname_username_proof_by_fid_key a) (make_fname_username_proof_by_fid_key b)
          ≡ (a == b)
    differ other (inl h) =
        let e : a ≡ b = fid_key_injective a b ha hb (
          (bytes_eq_iff (make_fname_username_proof_by_fid_key a)
              (make_fname_username_proof_by_fid_key b)).0
            h) in
        absurd (ground (arith, e, other))
    differ other (inr h) = h ∙ sym other

keys_apart :
    (fid : ℕ) (name : Bytes)
    → bytes_eq (make_fname_username_proof_by_fid_key fid) (make_fname_username_proof_key name)
      ≡ false
unfolding make_fname_username_proof_key make_fname_username_proof_by_fid_key bytes_eq
keys_apart fid name = refl

-- The existing proof's owner is a number of 32 bits.
abbrev pub OwnerFits : Option UserNameProof → Type 0
OwnerFits none = Unit
OwnerFits (some proof) = proof.fid < 2 ^ 32

-- The entry of the index by fid for the new owner, after the merge.
abbrev pub index_after : Option UserNameProof → UserNameProof → Option Bytes
index_after none proof = some (make_fname_username_proof_key proof.name)
index_after (some existing) proof =
    if existing.fid == proof.fid then none else some (make_fname_username_proof_key proof.name)

module _ (codec : ProofCodec) (s : Store) (proof : UserNameProof) where
  abbrev name_key : Bytes
  name_key = make_fname_username_proof_key proof.name

  abbrev fid_key : Bytes
  fid_key = make_fname_username_proof_by_fid_key proof.fid

  abbrev written : Option UserNameProof → Batch → Batch
  written existing txn = put_username_proof_transaction codec proof (fid_of existing) txn

  abbrev raw_event : Option UserNameProof → HubEvent
  raw_event existing =
      new_event hypersnap.Events.merge_username_proof (merge_username_proof_body proof existing)

  abbrev with_event : Batch → HubEvent → Batch
  with_event txn event =
      if s.no_persist
      then txn
      else put txn (make_event_key event.id) (s.protobuf.encode_event event)

  -- The batch before the old owner's entry is deleted.
  abbrev named : Batch → Batch
  named txn = put (put txn name_key (codec.encode proof)) fid_key name_key

  get_named :
      (txn : Batch) → get_from_db_or_txn s.db (named txn) name_key ≡ some (codec.encode proof)
  get_named txn = simp (get-put, keys_apart, bytes_eq_refl)

  get_owned : (txn : Batch) → get_from_db_or_txn s.db (named txn) fid_key ≡ some name_key
  get_owned txn = simp (get-put, bytes_eq_refl)

  get_name :
      (existing : Option UserNameProof) (txn : Batch)
      → get_from_db_or_txn s.db (written existing txn) name_key ≡ some (codec.encode proof)
  unfolding put_username_proof_transaction
  get_name none txn = get_named txn
  get_name (some old) txn = ground (
    arith,
    get-delete s.db (named txn) (make_fname_username_proof_by_fid_key old.fid) name_key,
    keys_apart old.fid proof.name,
    get_named txn,
  )

  get_fid :
      (existing : Option UserNameProof) (txn : Batch)
      → proof.fid < 2 ^ 32
      → OwnerFits existing
      → get_from_db_or_txn s.db (written existing txn) fid_key ≡ index_after existing proof
  unfolding put_username_proof_transaction
  get_fid none txn small fits = get_owned txn
  get_fid (some old) txn small fits = ground (
    arith,
    get-delete s.db (named txn) (make_fname_username_proof_by_fid_key old.fid) fid_key,
    fid_key_eq old.fid proof.fid fits small,
    get_owned txn,
  )

  get-with_event :
      (txn : Batch) (event : HubEvent) (key : Bytes)
      → bytes_eq (make_event_key event.id) key ≡ false
      → get_from_db_or_txn s.db (with_event txn event) key ≡ get_from_db_or_txn s.db txn key
  get-with_event txn event key h =
      ground
        (arith, h, get-put s.db txn (make_event_key event.id) key (s.protobuf.encode_event event))

  merge_eq :
      (existing : Option UserNameProof) (t : Transaction) (id : ℕ) (g' : HubEventIdGenerator)
      → generate_id t.generator hypersnap.Events.merge_username_proof ≡ (ok id, g')
      → get_username_proof codec s.db t.batch proof.name ≡ ok existing
      → refuse_proof existing proof ≡ ok tt
      → 0 < proof.fid
      → merge_username_proof codec s proof t ≡ (
        ok (record (raw_event existing) { id = id }),
        record {
          batch = with_event (written existing t.batch) (record (raw_event existing) { id = id });
          generator = g';
        },
      )
  unfolding merge_username_proof commit_transaction new_event
  merge_eq existing t id g' made found newer owned = ground (arith, made, found, newer, owned)

  -- A username proof that is not refused (newer than the one under its name, or there is none), of
  -- a fid from 1 to 2^32 - 1 as the old one, decoded from its encoding, with room for an event id,
  -- is merged with an event that names it and the old one, and `get_username_proof` then returns
  -- it; the index by fid leads to its name, unless the old proof has the same fid, where the index
  -- has nothing.
  pub merge_username_proof_indexed :
      (existing : Option UserNameProof) (t : Transaction)
      → codec.decode (codec.encode proof) ≡ some proof
      → get_username_proof codec s.db t.batch proof.name ≡ ok existing
      → refuse_proof existing proof ≡ ok tt
      → 0 < proof.fid
      → proof.fid < 2 ^ 32
      → OwnerFits existing
      → t.generator.current_height < 2 ^ 50
      → t.generator.current_seq < 2 ^ 14
      → (event : HubEvent) × (t' : Transaction) × (merge_username_proof codec s proof t
          ≡ (ok event, t'))
        × (event.body ≡ merge_username_proof_body proof existing)
        × (get_username_proof codec s.db t'.batch proof.name ≡ ok (some proof))
        × (get_from_db_or_txn s.db t'.batch (make_fname_username_proof_by_fid_key proof.fid)
            ≡ index_after existing proof)
  unfolding new_event
  merge_username_proof_indexed existing t law found newer owned small fits hh hs =
      let (id, g', made) = generate_ok t.generator hypersnap.Events.merge_username_proof hh hs in
      let event : HubEvent = record (raw_event existing) { id = id } in
      let after : Batch = with_event (written existing t.batch) event in
      (
        event,
        record { batch = after; generator = g' },
        merge_eq existing t id g' made found newer owned,
        refl,
        read_back after
            (get-with_event (written existing t.batch) event name_key (event_name id)
              ∙ get_name existing t.batch)
            law,
        get-with_event (written existing t.batch) event fid_key (event_fid id)
            ∙ get_fid existing t.batch small fits,
      )
    where
      event_name : (id : ℕ) → bytes_eq (make_event_key id) name_key ≡ false
      event_name id = unfold make_event_key make_fname_username_proof_key bytes_eq in refl

      event_fid : (id : ℕ) → bytes_eq (make_event_key id) fid_key ≡ false
      event_fid id = unfold make_event_key make_fname_username_proof_by_fid_key bytes_eq in refl

      read_back :
          (txn : Batch)
          → get_from_db_or_txn s.db txn name_key ≡ some (codec.encode proof)
          → codec.decode (codec.encode proof) ≡ some proof
          → get_username_proof codec s.db txn proof.name ≡ ok (some proof)
      read_back txn h law = unfold get_username_proof in ground (arith, h, law)
