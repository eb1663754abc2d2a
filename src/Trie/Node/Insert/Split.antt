-- ===== src/Trie/Node/Insert/Split.antt =====
-- A leaf split: the key moves to a child.
use mathlib.Core.Path.{subst}
use hypersnap.Shared.{
  ℕ, suc, ◌≤◌, ◌≡◌, sym, [], ◌∷◌, ◌++◌, none, some, Result, ok, arith, length, length-append,
  take-append, drop-append, ◌==◌, Bool-cases, inl, inr,
}
use hypersnap.Bytes.{Bytes}
use hypersnap.Database.{Database, Batch, bytes_eq}
use hypersnap.Database.Laws.{bytes_eq-append_left}
use hypersnap.Trie.{TrieError}
use hypersnap.Trie.Node.{
  TrieNode, node, Children, nil, child, loaded, TrieCodec, Hashes, new_node, insert_child,
  insert_hash, put_to_txn, uncompacted_length,
}
use hypersnap.Trie.Node.Contents.{has, child_has, IsTrie, AreTries, IsUnder, new_node-has}
use hypersnap.Trie.Node.Insert.{InsertCall, split_leaf_node}
use hypersnap.Trie.Node.Insert.Groups.{contains_key}
use hypersnap.Trie.Node.Insert.Rounds.{Inserts, hash_of_ok}

-- The split succeeds, and the children hold the leaf's key and no other.
pub record Splits (n : ℕ) (prefix key : Bytes) (items : ℕ) (r : Result TrieError (TrieNode × Batch))
    : Type 0 where
  pub children : Children
  pub hashes : Hashes
  pub txn : Batch
  pub returns : r ≡ ok (node items children hashes none, txn)
  pub good : AreTries n prefix children
  pub holds :
      (c : ℕ) (rest : Bytes)
      → length rest ≡ n
      → child_has children prefix c rest ≡ bytes_eq key (prefix ++ c ∷ rest)

module _ (codec : TrieCodec) (db : Database) (n : ℕ) (call : InsertCall)
    (inserts : Inserts n call) where
  pub split_cons :
      (items : ℕ) (hashes : Hashes) (txn : Batch) (prefix : Bytes) (c : ℕ) (rest : Bytes)
      → uncompacted_length ≤ length prefix
      → length rest ≡ n
      → Splits n prefix (prefix ++ c ∷ rest) items (
          split_leaf_node codec db call
            (node items nil hashes (some (prefix ++ c ∷ rest)))
            txn
            prefix)
  unfolding split_leaf_node insert_child IsTrie has contains_key new_node bytes_eq
  split_cons items hashes txn prefix c rest deep long =
      let below =
        inserts new_node hashes txn (prefix ++ c ∷ []) (rest ∷ []) tt
          (omega (arith, deep, length-append prefix (c ∷ []))) (λ e. cc) (long, tt) in
      let (hash, hashed) = hash_of_ok codec n (prefix ++ c ∷ []) below.out.new below.out-IsTrie in
      let split_node =
        node items (child c (loaded below.out.new) nil) (insert_hash c hash below.out.parent_hashes)
          none in
      record {
        children = child c (loaded below.out.new) nil;
        hashes = insert_hash c hash below.out.parent_hashes;
        txn = put_to_txn codec split_node below.out.txn prefix;
        returns = ground (
          arith,
          drop-append prefix (c ∷ rest),
          take-append prefix (c ∷ rest),
          below.returns,
          hashed,
        );
        good = (below.out-IsTrie, tt);
        holds = λ d r e. elim (Bool-cases (c == d)) [
          | inl same ↦
              let c_is_d : c ≡ d = ground (arith, same) in
              subst
                (λ x.
                  child_has (child c (loaded below.out.new) nil) prefix x r
                  ≡ bytes_eq (prefix ++ c ∷ rest) (prefix ++ x ∷ r))
                c_is_d
                (ground (
                  arith,
                  below.out-has r e,
                  new_node-has prefix c r,
                  bytes_eq-append_left prefix (c ∷ rest) (c ∷ r),
                ))
          | inr other ↦ ground (arith, other, bytes_eq-append_left prefix (c ∷ rest) (d ∷ r))
        ];
      }

  pub leaf-Splits :
      (items : ℕ) (hashes : Hashes) (txn : Batch) (prefix key : Bytes)
      → uncompacted_length ≤ length prefix
      → IsUnder (suc n) prefix key
      → Splits n prefix key items
          (split_leaf_node codec db call (node items nil hashes (some key)) txn prefix)
  leaf-Splits items hashes txn prefix key deep under = go under.rest under.split under.remaining
    where
      go :
          (rest : Bytes)
          → key ≡ prefix ++ rest
          → length rest ≡ suc n
          → Splits n prefix key items
              (split_leaf_node codec db call (node items nil hashes (some key)) txn prefix)
      go [] e h = absurd (omega (arith, h))
      go (c ∷ rest) e h =
          subst
            (λ k.
              Splits n prefix k items
                (split_leaf_node codec db call (node items nil hashes (some k)) txn prefix))
            (sym e) (split_cons items hashes txn prefix c rest deep (omega (arith, h)))
