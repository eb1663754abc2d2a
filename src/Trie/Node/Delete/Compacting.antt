-- ===== src/Trie/Node/Delete/Compacting.antt =====
-- A node after keys below it were deleted: with or without compaction it holds what its children hold.
use hypersnap.Shared.{
  ℕ, zero, suc, ◌≤◌, ◌≡◌, refl, ap, sym, ◌∙◌, false, ◌&&◌, [], ◌∷◌, ◌++◌, none, some, Result, ok,
  arith, length, leb, ◌==◌, Bool-cases, inl, inr, length-append,
}
use hypersnap.Bytes.{Bytes}
use hypersnap.Database.{Database, Batch, bytes_eq}
use hypersnap.Trie.{TrieError}
use hypersnap.Trie.Node.{
  TrieNode, node, Children, nil, child, loaded, serialized, TrieCodec, Hashes, uncompacted_length,
  TrieNodeType, find_child, get_or_load_child,
}
use hypersnap.Trie.Node.Contents.{
  has, child_has, IsTrie, AreTries, IsUnder, append_one, has-inner, inner-IsTrie,
}
use hypersnap.Trie.Node.Delete.{compact, compacted}
use hypersnap.Trie.Node.Delete.Counts.{count, child_count, Counted, AreCounted}

-- The node stands for the children.
pub record StandsFor (n : ℕ) (prefix : Bytes) (cs : Children) (new : TrieNode) : Type 0 where
  pub new-IsTrie : IsTrie (suc n) prefix new
  pub new-Counted : Counted new
  pub new-count : count new ≡ child_count cs
  pub new-has :
      (c : ℕ) (rest : Bytes)
      → length rest ≡ n
      → has new prefix (c ∷ rest) ≡ child_has cs prefix c rest

pub count-inner :
    (items : ℕ) (cs : Children) (hashes : Hashes)
    → count (node items cs hashes none) ≡ child_count cs
unfolding count
count-inner items nil hashes = refl
count-inner items (child c t cs) hashes = refl

pub inner-StandsFor :
    (n items : ℕ) (cs : Children) (hashes : Hashes) (prefix : Bytes)
    → AreTries n prefix cs
    → AreCounted cs
    → items ≡ child_count cs
    → StandsFor n prefix cs (node items cs hashes none)
unfolding Counted
inner-StandsFor n items cs hashes prefix tries counted e = record {
  new-IsTrie = inner-IsTrie n items cs hashes prefix tries;
  new-Counted = (e ∙ sym (count-inner items cs hashes), counted);
  new-count = count-inner items cs hashes;
  new-has = λ c rest l. has-inner items cs hashes prefix c rest;
}

-- Keys of other characters are other keys.
apart :
    (prefix : Bytes) (c d : ℕ) (rest other : Bytes)
    → (c == d) ≡ false
    → bytes_eq (prefix ++ c ∷ rest) (prefix ++ d ∷ other) ≡ false
unfolding bytes_eq
apart [] c d rest other h = ground (arith, h)
apart (b ∷ prefix) c d rest other h = ground (arith, apart prefix c d rest other h)

no_inner_key :
    (n : ℕ) (prefix : Bytes) (items c : ℕ) (t : TrieNodeType) (cs : Children) (own : Hashes)
    (key : Bytes)
    → IsTrie n prefix (node items (child c t cs) own (some key))
    → ⊥
unfolding IsTrie
no_inner_key zero prefix items c t cs own key good = good
no_inner_key (suc n) prefix items c t cs own key good = good

moved-StandsFor :
    (n c items : ℕ) (own hashes : Hashes) (key prefix : Bytes)
    → IsTrie n (prefix ++ c ∷ []) (node items nil own (some key))
    → uncompacted_length ≤ length prefix
    → StandsFor n prefix
        (child c (loaded (node items nil own (some key))) nil)
        (node 1 nil hashes (some key))
unfolding IsTrie Counted count has
moved-StandsFor n c items own hashes key prefix (far, under) deep = record {
  new-IsTrie = (
    deep,
    record {
      rest = c ∷ under.rest;
      split = under.split ∙ append_one prefix c under.rest;
      remaining = omega (arith, under.remaining);
    },
  );
  new-Counted = (refl, tt);
  new-count = refl;
  new-has = λ d rest e. elim (Bool-cases (c == d)) [
    | inl same ↦ ground (arith, same, append_one prefix d rest)
    | inr other ↦ ground (
      arith,
      other,
      under.split,
      append_one prefix c under.rest,
      apart prefix c d under.rest rest other,
    )
  ];
}

module _ (codec : TrieCodec) (db : Database) (n : ℕ) (hashes : Hashes) (txn : Batch)
    (prefix : Bytes) where
  -- What `compacted` gives.
  abbrev pub Compacts : Children → Result TrieError (TrieNode × Batch) → Type 0
  Compacts cs r =
      (new : TrieNode) × (txn' : Batch) × (r ≡ ok (new, txn')) × StandsFor n prefix cs new

  no_empty_key : (c : ℕ) → IsUnder n (prefix ++ c ∷ []) [] → ⊥
  no_empty_key c under = omega (
    arith,
    ap (length {A = ℕ}) under.split,
    length-append {A = ℕ} (prefix ++ c ∷ []) under.rest,
    length-append {A = ℕ} prefix (c ∷ []),
  )

  only_child :
      (c : ℕ) (t : TrieNode) → get_or_load_child codec db (child c (loaded t) nil) prefix c ≡ ok t
  unfolding get_or_load_child find_child
  only_child c t = ground arith

  compact_stands :
      (c : ℕ) (t : TrieNode)
      → IsTrie n (prefix ++ c ∷ []) t
      → AreCounted (child c (loaded t) nil)
      → 1 ≡ child_count (child c (loaded t) nil)
      → uncompacted_length ≤ length prefix
      → Compacts (child c (loaded t) nil) (compact codec db c t hashes none txn prefix)
  unfolding compact IsTrie
  compact_stands c (node items nil own (some [])) good counted e deep =
      absurd (no_empty_key c good.1)
  compact_stands c (node items nil own (some (b ∷ bs))) good counted e deep = (
    node 1 nil hashes (some (b ∷ bs)),
    _,
    refl,
    moved-StandsFor n c items own hashes (b ∷ bs) prefix good deep,
  )
  compact_stands c (node items cs own none) good counted e deep = (
    node 1 (child c (loaded (node items cs own none)) nil) hashes none,
    txn,
    refl,
    inner-StandsFor n 1 (child c (loaded (node items cs own none)) nil) hashes prefix (good, tt)
        counted e,
  )
  compact_stands c (node items (child d u cs) own (some key)) good counted e deep =
      absurd (no_inner_key n (prefix ++ c ∷ []) items d u cs own key good)

  pub compacted_stands :
      (items : ℕ) (cs : Children)
      → AreTries n prefix cs
      → AreCounted cs
      → items ≡ child_count cs
      → Compacts cs (compacted codec db items cs hashes none txn prefix)
  unfolding compacted get_or_load_child IsTrie
  compacted_stands items nil tries counted e = (
    node items nil hashes none,
    txn,
    refl,
    inner-StandsFor n items nil hashes prefix tries counted e,
  )
  compacted_stands items (child c serialized cs) tries counted e = absurd tries
  compacted_stands items (child c (loaded t) (child d u cs)) tries counted e = (
    node items (child c (loaded t) (child d u cs)) hashes none,
    txn,
    refl,
    inner-StandsFor n items (child c (loaded t) (child d u cs)) hashes prefix tries counted e,
  )
  compacted_stands items (child c (loaded t) nil) (good, others) counted e =
      elim (Bool-cases (items == 1 && leb uncompacted_length (length prefix))) [
        | inl one ↦
            let (new, txn', returns, stands) =
              compact_stands c t good counted (ground (arith, one, e)) (ground (arith, one)) in
            (new, txn', ground (arith, one, only_child c t, returns), stands)
        | inr more ↦ (
          node items (child c (loaded t) nil) hashes none,
          txn,
          ground (arith, more),
          inner-StandsFor n items (child c (loaded t) nil) hashes prefix (good, others) counted e,
        )
      ]
