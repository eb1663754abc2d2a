-- ===== src/Stores/Fnames.antt =====
-- Names of the name registry: src/storage/store/account/name_registry_events.rs and `merge_username_proof` of
-- user_data_store.rs. The encoding of proofs is a parameter.
pub mod Merging
use hypersnap.Shared.{
  ℕ, Bool, true, false, ◌&&◌, [], ◌∷◌, Option, none, some, Result, ok, err, Error, hub, Ordering,
  compare, ◌==◌, if◌then◌else◌,
}
use hypersnap.Bytes.{Bytes, bytes_compare}
use hypersnap.Proto.{UserNameProof}
use hypersnap.Keys.{make_fid_key}
use hypersnap.Keys.Prefix.{root_u8, f_name_user_name_proof, f_name_user_name_proof_by_fid}
use hypersnap.Events
use hypersnap.Database.{Database, Batch, put, delete, get_from_db_or_txn}
use hypersnap.Store.Types.{
  Exec, Store, HubEvent, merge_username_proof_body, new_event, lift, modify, fail, continue, ◌>>=◌,
  ◌>>◌,
}
use hypersnap.Store.Writes.{commit_transaction}

pub record ProofCodec : Type 0 where
  pub encode : UserNameProof → Bytes
  pub decode : Bytes → Option UserNameProof

unfoldable pub make_fname_username_proof_key : Bytes → Bytes
make_fname_username_proof_key name = root_u8 f_name_user_name_proof ∷ name

unfoldable pub make_fname_username_proof_by_fid_key : ℕ → Bytes
make_fname_username_proof_by_fid_key fid = root_u8 f_name_user_name_proof_by_fid ∷ make_fid_key fid

unfoldable pub username_proof_compare : UserNameProof → UserNameProof → Ordering
username_proof_compare a b = elim (compare a.timestamp b.timestamp) [
  | Ordering.lt ↦ Ordering.lt
  | Ordering.gt ↦ Ordering.gt
  | Ordering.eq ↦ bytes_compare a.signature b.signature
]

-- `existing_fid`
abbrev pub fid_of : Option UserNameProof → Option ℕ
fid_of none = none
fid_of (some proof) = some proof.fid

abbrev pub without_fid : Option ℕ → Batch → Batch
without_fid none txn = txn
without_fid (some fid) txn = delete txn (make_fname_username_proof_by_fid_key fid)

-- What the existing proof says of the new one.
unfoldable pub refuse_proof : Option UserNameProof → UserNameProof → Result Error (Unit {0})
unfolding username_proof_compare
refuse_proof none proof =
    if proof.fid == 0 then err (hub "bad_request.conflict" "proof does not exist") else ok tt
refuse_proof (some existing) proof = elim (username_proof_compare existing proof) [
  | Ordering.eq ↦ err (hub "bad_request.duplicate" "username proof already exists")
  | Ordering.gt ↦
      err (hub "bad_request.conflict" "event conflicts with a more recent UserNameProof")
  | Ordering.lt ↦ ok tt
]

module _ (codec : ProofCodec) where
  abbrev decoded : Bytes → Result Error (Option UserNameProof)
  decoded buf = elim (codec.decode buf) [
    | none ↦ err (hub "internal_error" "could not decode username proof")
    | some proof ↦ ok (some proof)
  ]

  unfoldable pub get_username_proof : Database → Batch → Bytes → Result Error (Option UserNameProof)
  get_username_proof db txn name =
      elim (get_from_db_or_txn db txn (make_fname_username_proof_key name)) [
        | none ↦ ok none
        | some buf ↦ decoded buf
      ]

  unfoldable pub get_fname_proof_by_fid : Database → ℕ → Result Error (Option UserNameProof)
  get_fname_proof_by_fid db fid = elim (db.get (make_fname_username_proof_by_fid_key fid)) [
    | none ↦ ok none
    | some primary_key ↦ elim (db.get primary_key) [ none ↦ ok none | some buf ↦ decoded buf ]
  ]

  unfoldable pub put_username_proof_transaction : UserNameProof → Option ℕ → Batch → Batch
  put_username_proof_transaction proof existing_fid txn =
      let primary_key = make_fname_username_proof_key proof.name in
      without_fid existing_fid (
        put (put txn primary_key (codec.encode proof))
          (make_fname_username_proof_by_fid_key proof.fid) primary_key)

  unfoldable pub delete_username_proof_transaction : UserNameProof → Option ℕ → Batch → Batch
  delete_username_proof_transaction proof existing_fid txn =
      without_fid existing_fid
        (put txn (make_fname_username_proof_key proof.name) (codec.encode proof))

  unfoldable pub merge_username_proof : Store → UserNameProof → Exec HubEvent
  unfolding get_username_proof refuse_proof put_username_proof_transaction
      delete_username_proof_transaction
  merge_username_proof s proof t =
      (do
        existing ← lift (get_username_proof s.db t.batch proof.name)
        lift (refuse_proof existing proof)
        modify (
            if proof.fid == 0
            then delete_username_proof_transaction proof (fid_of existing)
            else put_username_proof_transaction proof (fid_of existing))
        commit_transaction s (
            new_event hypersnap.Events.merge_username_proof
              (merge_username_proof_body proof existing)))
        t
