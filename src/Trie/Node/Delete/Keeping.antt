-- ===== src/Trie/Node/Delete/Keeping.antt =====
-- The children after a call for one of them: it stays if it holds a key, and is removed else.
use hypersnap.Shared.{
  ℕ, ◌+◌, ◌≡◌, true, false, [], ◌∷◌, ◌++◌, some, arith, length, ◌==◌, Bool-cases, inl, inr,
  if◌then◌else◌, ==_iff, length-append,
}
use hypersnap.Bytes.{Bytes}
use hypersnap.Trie.Node.{TrieNode, node, Children, loaded, items_of, find_child, insert_child}
use hypersnap.Trie.Node.Contents.{
  has, child_has, IsTrie, AreTries, child_has-insert_child, insert_child-AreTries,
}
use hypersnap.Trie.Node.Delete.{remove_child, keep_child}
use hypersnap.Trie.Node.Delete.Counts.{count, child_count, Counted, AreCounted, has-empty}
use hypersnap.Trie.Node.Delete.Siblings.{
  child_count-insert_child, child_count-remove_child, insert_child-AreCounted,
  remove_child-AreCounted, remove_child-AreTries, child_has-remove_child,
}

pub items-Counted : (t : TrieNode) → Counted t → items_of t ≡ count t
unfolding Counted
items-Counted (node items cs hashes key) good = good.0

pub record Keeps (n : ℕ) (prefix : Bytes) (c : ℕ) (t new : TrieNode) (cs : Children) : Type 0 where
  pub kept-AreTries : AreTries n prefix (keep_child c new cs)
  pub kept-AreCounted : AreCounted (keep_child c new cs)
  pub kept-count : child_count (keep_child c new cs) + count t ≡ child_count cs + count new
  pub kept-has :
      (d : ℕ) (rest : Bytes)
      → length rest ≡ n
      → child_has (keep_child c new cs) prefix d rest
        ≡ (if c == d then has new (prefix ++ c ∷ []) rest else child_has cs prefix d rest)

module _ (n : ℕ) (prefix : Bytes) (c : ℕ) (t new : TrieNode) (cs : Children)
    (tries : AreTries n prefix cs) (counted : AreCounted cs)
    (found : find_child c cs ≡ some (loaded t)) (good : IsTrie n (prefix ++ c ∷ []) new)
    (own : Counted new) where
  empty-has : (items_of new == 0) ≡ true → (rest : Bytes) → has new (prefix ++ c ∷ []) rest ≡ false
  empty-has empty rest =
      has-empty n new (prefix ++ c ∷ []) rest (omega (arith, length-append prefix (c ∷ []))) good
        (ground (arith, empty, items-Counted new own))

  pub child_kept : Keeps n prefix c t new cs
  unfolding remove_child insert_child
  child_kept = elim (Bool-cases (items_of new == 0)) [
    | inl empty ↦ record {
      kept-AreTries = rw empty (remove_child-AreTries n c prefix cs tries);
      kept-AreCounted = rw empty (remove_child-AreCounted c cs counted);
      kept-count = rw empty (
          omega (
            arith,
            child_count-remove_child c t cs counted found,
            items-Counted new own,
            (==_iff (items_of new) 0).0 empty,
          ));
      kept-has = λ d rest e.
          rw empty (
            ground
              (arith, child_has-remove_child c d cs prefix rest counted, empty-has empty rest));
    }
    | inr holds ↦ record {
      kept-AreTries = rw holds (insert_child-AreTries n c new cs prefix good tries);
      kept-AreCounted = rw holds (insert_child-AreCounted c new cs own counted);
      kept-count = rw holds (child_count-insert_child c t new cs counted found);
      kept-has = λ d rest e.
          rw holds (ground (arith, ==_iff c d, child_has-insert_child c new cs prefix d rest));
    }
  ]
