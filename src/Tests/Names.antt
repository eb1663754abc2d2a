-- ===== src/Tests/Names.antt =====
-- The merge of username proofs at a proof that its owner renews.
use hypersnap.Shared.{ℕ, ◌≡◌, refl, arith, [], ◌∷◌, none, some, ok}
use hypersnap.Proto.{UserNameProof}
use hypersnap.Database.{get_from_db_or_txn}
use hypersnap.Store.Types.{Transaction, HubEvent, merge_username_proof_body}
use hypersnap.Stores.Fnames.{
  ProofCodec, make_fname_username_proof_key, make_fname_username_proof_by_fid_key,
  get_username_proof, refuse_proof, merge_username_proof,
}
use hypersnap.Stores.Fnames.Merging.{index_after, merge_username_proof_indexed}
use hypersnap.Tests.Fixtures.{start, link_messages}

-- "bob", of user 3
abbrev bob_at : ℕ → UserNameProof
bob_at second = record {
  timestamp = second;
  name = 98 ∷ 111 ∷ 98 ∷ [];
  owner = [];
  signature = [];
  fid = 3;
  type = 1;
}

abbrev by_second : ProofCodec
by_second = record {
  encode = λ proof. proof.timestamp ∷ [];
  decode = λ bytes. elim bytes [ [] ↦ none | second ∷ rest ↦ some (bob_at second) ];
}

abbrev owned : Transaction
owned = record {
  batch = (11 ∷ 98 ∷ 111 ∷ 98 ∷ [], some (7 ∷ [])) ∷ [];
  generator = start.generator;
}

merge_username_proof_indexed_example :
    (event : HubEvent) × (t' : Transaction) × (merge_username_proof by_second link_messages
        (bob_at 8)
        owned
      ≡ (ok event, t'))
    × (event.body ≡ merge_username_proof_body (bob_at 8) (some (bob_at 7)))
    × (get_username_proof by_second link_messages.db t'.batch (bob_at 8).name
        ≡ ok (some (bob_at 8)))
    × (get_from_db_or_txn link_messages.db t'.batch (make_fname_username_proof_by_fid_key 3)
        ≡ index_after (some (bob_at 7)) (bob_at 8))
merge_username_proof_indexed_example =
    merge_username_proof_indexed by_second link_messages (bob_at 8) (some (bob_at 7)) owned refl
      (unfold get_username_proof get_from_db_or_txn make_fname_username_proof_key
          hypersnap.Database.bytes_eq in
        refl)
      (unfold refuse_proof in refl) (ground arith) (ground arith) (ground arith) (ground arith)
      (ground arith)
