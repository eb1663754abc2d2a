-- ===== src/Trie/Node/Delete/Counts.antt =====
-- The number of keys that a trie in memory holds, and tries whose nodes know it.
use hypersnap.Shared.{
  ℕ, zero, suc, ◌+◌, ◌<◌, ◌≡◌, refl, false, [], ◌∷◌, ◌++◌, none, some, arith, length, length-append,
  ==_iff,
}
use hypersnap.Bytes.{Bytes}
use hypersnap.Database.{bytes_eq}
use hypersnap.Trie.Node.{TrieNode, node, Children, nil, child, loaded, serialized, find_child}
use hypersnap.Trie.Node.Contents.{has, child_has, IsTrie, AreTries}

unfoldable mutual
  pub count : TrieNode → ℕ
  count (node items nil hashes none) = 0
  count (node items nil hashes (some key)) = 1
  count (node items (child c t cs) hashes key) = child_count (child c t cs)

  pub child_count : Children → ℕ
  child_count nil = 0
  child_count (child c (loaded t) cs) = count t + child_count cs
  child_count (child c serialized cs) = child_count cs

-- Every node has its number of keys in `items`, and one child for a character at most.
unfoldable mutual
  pub Counted : TrieNode → Type 0
  Counted (node items cs hashes key) = (items ≡ count (node items cs hashes key)) × AreCounted cs

  pub AreCounted : Children → Type 0
  AreCounted nil = Unit {0}
  AreCounted (child c (loaded t) cs) = (find_child c cs ≡ none) × Counted t × AreCounted cs
  AreCounted (child c serialized cs) = ⊥

filled : (prefix : Bytes) (c : ℕ) → 0 < length (prefix ++ c ∷ [])
filled prefix c = omega (arith, length-append prefix (c ∷ []))

child_has-empty :
    (n : ℕ) (cs : Children) (prefix : Bytes) (c : ℕ) (rest : Bytes)
    → ((t : TrieNode) (p : Bytes) (r : Bytes)
        → 0 < length p
        → IsTrie n p t
        → count t ≡ 0
        → has t p r ≡ false)
    → AreTries n prefix cs
    → child_count cs ≡ 0
    → child_has cs prefix c rest ≡ false
unfolding has IsTrie count
child_has-empty n nil prefix c rest empty tries h = refl
child_has-empty n (child d serialized cs) prefix c rest empty tries h = absurd tries
child_has-empty n (child d (loaded t) cs) prefix c rest empty (first, others) h = ground (
  arith,
  ==_iff d c,
  empty t (prefix ++ d ∷ []) rest (filled prefix d) first (omega (arith, h)),
  child_has-empty n cs prefix c rest empty others (omega (arith, h)),
)

-- A trie below the root that counts no key holds none.
pub has-empty :
    (n : ℕ) (t : TrieNode) (prefix rest : Bytes)
    → 0 < length prefix
    → IsTrie n prefix t
    → count t ≡ 0
    → has t prefix rest ≡ false
unfolding has IsTrie count bytes_eq
has-empty n t [] rest h good e = absurd (omega (arith, h))
has-empty n (node items nil hashes none) (b ∷ prefix) rest h good e = refl
has-empty n (node items nil hashes (some key)) prefix rest h good e = absurd (omega (arith, e))
has-empty zero (node items (child d u cs) hashes key) prefix rest h good e = absurd good
has-empty (suc n) (node items (child d u cs) hashes (some key)) prefix rest h good e = absurd good
has-empty (suc n) (node items (child d u cs) hashes none) prefix [] h good e = refl
has-empty (suc n) (node items (child d u cs) hashes none) prefix (c ∷ rest) h good e =
    child_has-empty n (child d u cs) prefix c rest (λ t p r. has-empty n t p r) good e
