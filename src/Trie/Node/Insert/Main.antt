-- ===== src/Trie/Node/Insert/Main.antt =====
-- `insert` on a trie in memory: it succeeds, and the new trie holds the old keys and the new ones.
use mathlib.Core.Path.{subst}
use hypersnap.Shared.{
  ℕ, zero, suc, ◌+◌, ◌<◌, ◌≤◌, ◌≡◌, ◌≢◌, refl, ap, sym, ◌∙◌, Bool, true, false, ◌||◌, List, [], ◌∷◌,
  Option, none, some, Result, ok, arith, All, length, leb, Bool-cases, inl, inr,
}
use hypersnap.Bytes.{Bytes}
use hypersnap.Database.{Database, Batch}
use hypersnap.Trie.{TrieError}
use hypersnap.Trie.Node.{
  TrieNode, node, Children, nil, child, TrieCodec, Hashes, uncompacted_length, exists,
}
use hypersnap.Trie.Node.Contents.{has, IsTrie, AreTries, exists-has}
use hypersnap.Trie.Node.Insert.{
  Inserted, InsertCall, insert_remaining, insert_leaf, insert, enumerate, falses,
}
use hypersnap.Trie.Node.Insert.Groups.{contains_key}
use hypersnap.Trie.Node.Insert.Keys.{rests_of-enumerate}
use hypersnap.Trie.Node.Insert.Rounds.{Inserts, Succeeds}
use hypersnap.Trie.Node.Insert.Remaining.{remaining_added}
use hypersnap.Trie.Node.Insert.Beside.{beside_added, empty_added}

module _ (codec : TrieCodec) (db : Database) where
  leaf_added :
      (n : ℕ) (call : InsertCall)
      → ((m : ℕ) → n ≡ suc m → Inserts m call)
      → (items : ℕ) (own : Hashes) (key : Option Bytes) (hashes : Hashes) (txn : Batch)
        (prefix first : Bytes) (keys : List Bytes)
      → uncompacted_length ≤ length prefix
      → IsTrie n prefix (node items nil own key)
      → All (λ k. length k ≡ n) (first ∷ keys)
      → Succeeds n prefix
          (node items nil own key)
          (first ∷ keys)
          (insert_leaf codec db call items own key hashes txn prefix first keys)
  unfolding insert_leaf IsTrie
  leaf_added n call inserts items own none hashes txn prefix first keys deep good long =
      empty_added codec db n call inserts items own hashes txn prefix first keys deep long
  leaf_added n call inserts items own (some key) hashes txn prefix first keys deep good long =
      subst
        (λ l.
          Succeeds n prefix (node items nil own (some key)) l
            (insert_leaf codec db call items own (some key) hashes txn prefix first keys))
        (rests_of-enumerate 0 (first ∷ keys))
        (beside_added codec db n call inserts items own hashes txn prefix key
          (enumerate 0 (first ∷ keys)) (falses (first ∷ keys)) deep good.1
          (subst (All (λ k. length k ≡ n)) (sym (rests_of-enumerate 0 (first ∷ keys))) long))

  -- All keys go on to the children.
  inner_added :
      (n : ℕ) (call : InsertCall)
      → Inserts n call
      → (items : ℕ) (cs : Children) (own hashes : Hashes) (txn : Batch) (prefix first : Bytes)
        (keys : List Bytes)
      → uncompacted_length ≤ length prefix + suc n
      → AreTries n prefix cs
      → All (λ k. length k ≡ suc n) (first ∷ keys)
      → Succeeds (suc n) prefix (node items cs own none) (first ∷ keys) (
          insert_remaining codec db call
            (node items cs own none)
            hashes
            txn
            prefix
            (enumerate 0 (first ∷ keys))
            (falses (first ∷ keys)))
  inner_added n call inserts items cs own hashes txn prefix first keys deep good long =
      subst
        (λ l. Succeeds (suc n) prefix (node items cs own none) l (
          insert_remaining codec db call (node items cs own none) hashes txn prefix
            (enumerate 0 (first ∷ keys)) (falses (first ∷ keys))))
        (rests_of-enumerate 0 (first ∷ keys))
        (remaining_added codec db n call inserts prefix deep items cs own hashes txn
          (enumerate 0 (first ∷ keys)) (falses (first ∷ keys)) good
          (subst (All (λ k. length k ≡ suc n)) (sym (rests_of-enumerate 0 (first ∷ keys))) long))

  shallow_added :
      (n : ℕ) (call : InsertCall)
      → ((m : ℕ) → n ≡ suc m → Inserts m call)
      → (items : ℕ) (own : Hashes) (key : Option Bytes) (hashes : Hashes) (txn : Batch)
        (prefix first : Bytes) (keys : List Bytes)
      → leb uncompacted_length (length prefix) ≡ false
      → uncompacted_length ≤ length prefix + n
      → IsTrie n prefix (node items nil own key)
      → All (λ k. length k ≡ n) (first ∷ keys)
      → Succeeds n prefix (node items nil own key) (first ∷ keys) (
          insert_remaining codec db call
            (node items nil own key)
            hashes
            txn
            prefix
            (enumerate 0 (first ∷ keys))
            (falses (first ∷ keys)))
  unfolding IsTrie
  shallow_added zero call inserts items own key hashes txn prefix first keys shallow deep good
        long =
      absurd (ground (arith, shallow))
  shallow_added (suc n) call inserts items own (some key) hashes txn prefix first keys shallow deep
        good long =
      absurd (ground (arith, shallow, good.0))
  shallow_added (suc n) call inserts items own none hashes txn prefix first keys shallow deep good
        long =
      inner_added n call (inserts n refl) items nil own hashes txn prefix first keys deep tt long

  -- Fuel above the number of characters left is enough.
  pub insert-Inserts : (fuel n : ℕ) → n < fuel → Inserts n (insert codec db fuel)
  unfolding insert IsTrie
  insert-Inserts zero n h t hashes txn prefix keys good deep some_keys long = absurd (omega arith)
  insert-Inserts (suc fuel) n h t hashes txn prefix [] good deep some_keys long =
      absurd (some_keys refl)
  insert-Inserts (suc fuel) zero h (node items (child c u cs) own key) hashes txn prefix
        (first ∷ keys) good deep some_keys long =
      absurd good
  insert-Inserts (suc fuel) (suc n) h (node items (child c u cs) own (some key)) hashes txn prefix
        (first ∷ keys) good deep some_keys long =
      absurd good
  insert-Inserts (suc fuel) (suc n) h (node items (child c u cs) own none) hashes txn prefix
        (first ∷ keys) good deep some_keys long =
      inner_added n (insert codec db fuel) (insert-Inserts fuel n (omega arith)) items
        (child c u cs) own hashes txn prefix first keys deep good long
  insert-Inserts (suc fuel) n h (node items nil own key) hashes txn prefix (first ∷ keys) good deep
        some_keys long =
      elim (Bool-cases (leb uncompacted_length (length prefix))) [
        | inl far ↦
            subst (λ b. Succeeds n prefix (node items nil own key) (first ∷ keys) (choice b))
              (sym far)
              (leaf_added n below (λ m e. insert-Inserts fuel m (omega (arith, e))) items own key
                hashes txn prefix first keys (ground (arith, far)) good long)
        | inr shallow ↦
            subst (λ b. Succeeds n prefix (node items nil own key) (first ∷ keys) (choice b))
              (sym shallow)
              (shallow_added n below (λ m e. insert-Inserts fuel m (omega (arith, e))) items own key
                hashes txn prefix first keys shallow deep good long)
      ]
    where
      below : InsertCall
      below = insert codec db fuel

      choice : Bool → Result TrieError Inserted
      choice b = elim b [
        | true ↦ insert_leaf codec db below items own key hashes txn prefix first keys
        | false ↦
            insert_remaining codec db below (node items nil own key) hashes txn prefix
              (enumerate 0 (first ∷ keys)) (falses (first ∷ keys))
      ]

-- The trie stands for a set of keys of `n` characters, which `exists` tells.
abbrev pub Represents : TrieCodec → Database → ℕ → TrieNode → (Bytes → Bool) → Type 0
Represents codec db n t keys =
    (key : Bytes) → length key ≡ n → exists codec db t [] key ≡ ok (keys key)

-- Into a trie in memory that stands for a set of keys of n characters (by `exists`, n at least 12),
-- an insert of at least one key, all of n characters, with fuel above n, succeeds, and the new trie
-- is a trie in memory that stands for the union of the set and the keys.
pub insert-Represents :
    (codec : TrieCodec) (db : Database) (fuel n : ℕ) (t : TrieNode) (held : Bytes → Bool)
    (hashes : Hashes) (txn : Batch) (keys : List Bytes)
    → n < fuel
    → uncompacted_length ≤ n
    → keys ≢ []
    → All (λ k. length k ≡ n) keys
    → IsTrie n [] t
    → Represents codec db n t held
    → (out : Inserted) × (insert codec db fuel t hashes txn [] keys ≡ ok out)
      × IsTrie n [] out.new
      × Represents codec db n out.new (λ key. held key || contains_key keys key)
insert-Represents codec db fuel n t held hashes txn keys enough deep some_keys long good stands =
    let done =
      insert-Inserts codec db fuel n enough t hashes txn [] keys good (omega (arith, deep))
        some_keys long in
    (
      done.out,
      done.returns,
      done.out-IsTrie,
      λ key e.
          exists-has codec db n done.out.new [] key done.out-IsTrie e
          ∙ ap ok (done.out-has key e ∙ ap (λ b. b || contains_key keys key) (same key e)),
    )
  where
    same : (key : Bytes) → length key ≡ n → has t [] key ≡ held key
    same key e = ground (arith, exists-has codec db n t [] key good e, stands key e)
