-- ===== src/Trie/Node/Delete/Siblings.antt =====
-- The children of a node when one is replaced or removed: their keys and how many they are.
use hypersnap.Shared.{
  ℕ, ◌+◌, ◌≡◌, refl, ap, true, false, none, some, arith, ◌==◌, Bool-cases, inl, inr, if◌then◌else◌,
  ==_iff,
}
use hypersnap.Bytes.{Bytes}
use hypersnap.Trie.Node.{
  TrieNode, TrieNodeType, Children, nil, child, loaded, serialized, find_child, insert_child,
}
use hypersnap.Trie.Node.Contents.{child_has, AreTries}
use hypersnap.Trie.Node.Delete.{remove_child}
use hypersnap.Trie.Node.Delete.Counts.{count, child_count, Counted, AreCounted}

pub find-Counted :
    (c : ℕ) (t : TrieNode) (cs : Children)
    → AreCounted cs
    → find_child c cs ≡ some (loaded t)
    → Counted t
unfolding find_child Counted
find-Counted c t nil good h = ground (arith, h)
find-Counted c t (child d serialized cs) good h = absurd good
find-Counted c t (child d (loaded u) cs) (alone, own, others) h =
    ground (arith, h, own, find-Counted c t cs others)

same_child :
    (c d : ℕ) (t u : TrieNode) (cs : Children)
    → (d == c) ≡ true
    → find_child c (child d (loaded u) cs) ≡ some (loaded t)
    → u ≡ t
unfolding find_child
same_child c d t u cs same h = ground (arith, same, h)

next_child :
    (c d : ℕ) (t : TrieNode) (u : TrieNodeType) (cs : Children)
    → (d == c) ≡ false
    → find_child c (child d u cs) ≡ some (loaded t)
    → find_child c cs ≡ some (loaded t)
unfolding find_child
next_child c d t u cs other h = ground (arith, other, h)

pub child_count-insert_child :
    (c : ℕ) (t t' : TrieNode) (cs : Children)
    → AreCounted cs
    → find_child c cs ≡ some (loaded t)
    → child_count (insert_child c (loaded t') cs) + count t ≡ child_count cs + count t'
unfolding find_child insert_child count Counted
child_count-insert_child c t t' nil good h = ground (arith, h)
child_count-insert_child c t t' (child d serialized cs) good h = absurd good
child_count-insert_child c t t' (child d (loaded u) cs) (alone, first, others) h =
    elim (Bool-cases (d == c)) [
      | inl same ↦ rw same (omega (arith, ap count (same_child c d t u cs same h)))
      | inr other ↦ rw other (
          omega (
            arith,
            child_count-insert_child c t t' cs others (next_child c d t (loaded u) cs other h),
          ))
    ]

pub child_count-remove_child :
    (c : ℕ) (t : TrieNode) (cs : Children)
    → AreCounted cs
    → find_child c cs ≡ some (loaded t)
    → child_count (remove_child c cs) + count t ≡ child_count cs
unfolding find_child remove_child count Counted
child_count-remove_child c t nil good h = ground (arith, h)
child_count-remove_child c t (child d serialized cs) good h = absurd good
child_count-remove_child c t (child d (loaded u) cs) (alone, first, others) h =
    elim (Bool-cases (d == c)) [
      | inl same ↦ rw same (omega (arith, ap count (same_child c d t u cs same h)))
      | inr other ↦ rw other (
          omega (
            arith,
            child_count-remove_child c t cs others (next_child c d t (loaded u) cs other h),
          ))
    ]

find-insert_child_other :
    (c d : ℕ) (t : TrieNodeType) (cs : Children)
    → (d == c) ≡ false
    → find_child c cs ≡ none
    → find_child c (insert_child d t cs) ≡ none
unfolding find_child insert_child
find-insert_child_other c d t nil apart h = ground (arith, apart)
find-insert_child_other c d t (child e u cs) apart h =
    ground (arith, apart, h, find-insert_child_other c d t cs apart)

pub insert_child-AreCounted :
    (c : ℕ) (t : TrieNode) (cs : Children)
    → Counted t
    → AreCounted cs
    → AreCounted (insert_child c (loaded t) cs)
unfolding insert_child Counted find_child
insert_child-AreCounted c t nil own good = (refl, own, tt)
insert_child-AreCounted c t (child d serialized cs) own good = absurd good
insert_child-AreCounted c t (child d (loaded u) cs) own (alone, first, others) =
    elim (Bool-cases (d == c)) [
      | inl same ↦ rw same (ground (arith, same, ==_iff d c, alone), own, others)
      | inr other ↦ rw other (
        find-insert_child_other d c (loaded t) cs (ground (arith, other)) alone,
        first,
        insert_child-AreCounted c t cs own others,
      )
    ]

find-remove_child :
    (c d : ℕ) (cs : Children) → find_child c cs ≡ none → find_child c (remove_child d cs) ≡ none
unfolding find_child remove_child
find-remove_child c d nil h = refl
find-remove_child c d (child e u cs) h = ground (arith, h, find-remove_child c d cs)

pub remove_child-AreCounted :
    (c : ℕ) (cs : Children) → AreCounted cs → AreCounted (remove_child c cs)
unfolding remove_child Counted
remove_child-AreCounted c nil good = tt
remove_child-AreCounted c (child d serialized cs) good = absurd good
remove_child-AreCounted c (child d (loaded u) cs) (alone, first, others) =
    elim (Bool-cases (d == c)) [
      | inl same ↦ rw same others
      | inr other ↦
          rw other (find-remove_child d c cs alone, first, remove_child-AreCounted c cs others)
    ]

pub remove_child-AreTries :
    (n c : ℕ) (prefix : Bytes) (cs : Children)
    → AreTries n prefix cs
    → AreTries n prefix (remove_child c cs)
unfolding remove_child AreTries
remove_child-AreTries n c prefix nil good = tt
remove_child-AreTries n c prefix (child d serialized cs) good = absurd good
remove_child-AreTries n c prefix (child d (loaded u) cs) (first, others) =
    ground (arith, first, others, remove_child-AreTries n c prefix cs others)

child_has-missing :
    (c : ℕ) (cs : Children) (prefix rest : Bytes)
    → find_child c cs ≡ none
    → child_has cs prefix c rest ≡ false
unfolding find_child child_has
child_has-missing c nil prefix rest h = refl
child_has-missing c (child d serialized cs) prefix rest h =
    ground (arith, h, child_has-missing c cs prefix rest)
child_has-missing c (child d (loaded u) cs) prefix rest h =
    ground (arith, h, child_has-missing c cs prefix rest)

pub child_has-remove_child :
    (c d : ℕ) (cs : Children) (prefix rest : Bytes)
    → AreCounted cs
    → child_has (remove_child c cs) prefix d rest
      ≡ (if c == d then false else child_has cs prefix d rest)
unfolding remove_child child_has AreCounted
child_has-remove_child c d nil prefix rest good = ground arith
child_has-remove_child c d (child e serialized cs) prefix rest good = absurd good
child_has-remove_child c d (child e (loaded u) cs) prefix rest (alone, first, others) = ground (
  arith,
  ==_iff e c,
  ==_iff e d,
  ==_iff c d,
  alone,
  child_has-missing e cs prefix rest,
  child_has-remove_child c d cs prefix rest others,
)
