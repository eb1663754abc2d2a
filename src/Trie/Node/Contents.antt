-- ===== src/Trie/Node/Contents.antt =====
-- The keys that a trie in memory holds, and what it is for such a trie to be well formed.
use hypersnap.Shared.{
  ℕ, zero, suc, ◌≤◌, ◌≡◌, refl, ap, sym, ◌∙◌, Bool, false, [], ◌∷◌, ◌++◌, none, some, ok, arith,
  length, ◌==◌, if◌then◌else◌, Bool-cases, inl, inr, ◌⊎◌,
}
use mathlib.Core.Path.{subst}
use hypersnap.Bytes.{Bytes}
use hypersnap.Database.{Database, bytes_eq}
use hypersnap.Trie.Node.{
  TrieNode, node, TrieNodeType, loaded, serialized, Children, nil, child, TrieCodec, Hashes,
  new_node, is_leaf, find_child, insert_child, get_or_load_child, exists, uncompacted_length,
  or_empty, with_child,
}

unfoldable mutual
  -- The key `prefix ++ rest` is held at the node or below it.
  pub has : TrieNode → Bytes → Bytes → Bool
  has (node items nil hashes key) prefix rest = bytes_eq (or_empty key) (prefix ++ rest)
  has (node items (child d t cs) hashes key) prefix [] = false
  has (node items (child d t cs) hashes key) prefix (c ∷ rest) =
      child_has (child d t cs) prefix c rest

  pub child_has : Children → Bytes → ℕ → Bytes → Bool
  child_has nil prefix c rest = false
  child_has (child d (loaded t) cs) prefix c rest =
      if d == c then has t (prefix ++ c ∷ []) rest else child_has cs prefix c rest
  child_has (child d serialized cs) prefix c rest =
      if d == c then false else child_has cs prefix c rest

-- The key lies under the prefix, with `n` characters more.
pub record IsUnder (n : ℕ) (prefix key : Bytes) : Type 0 where
  pub rest : Bytes
  pub split : key ≡ prefix ++ rest
  pub remaining : length rest ≡ n

-- All of the trie is in memory; its keys have `n` characters after the prefix and stand where they belong:
-- in leaves, and not in the first levels, which are not compacted.
unfoldable mutual
  pub IsTrie : ℕ → Bytes → TrieNode → Type 0
  IsTrie n prefix (node items nil hashes none) = Unit {0}
  IsTrie n prefix (node items nil hashes (some key)) =
      (uncompacted_length ≤ length prefix) × IsUnder n prefix key
  IsTrie zero prefix (node items (child c t cs) hashes key) = ⊥
  IsTrie (suc n) prefix (node items (child c t cs) hashes none) = AreTries n prefix (child c t cs)
  IsTrie (suc n) prefix (node items (child c t cs) hashes (some key)) = ⊥

  pub AreTries : ℕ → Bytes → Children → Type 0
  AreTries n prefix nil = Unit {0}
  AreTries n prefix (child c (loaded t) cs) = IsTrie n (prefix ++ c ∷ []) t × AreTries n prefix cs
  AreTries n prefix (child c serialized cs) = ⊥

pub child_has-insert_child :
    (c : ℕ) (t : TrieNode) (cs : Children) (prefix : Bytes) (d : ℕ) (rest : Bytes)
    → child_has (insert_child c (loaded t) cs) prefix d rest
      ≡ (if c == d then has t (prefix ++ d ∷ []) rest else child_has cs prefix d rest)
unfolding has insert_child
child_has-insert_child c t nil prefix d rest = refl
child_has-insert_child c t (child e (loaded u) cs) prefix d rest =
    ground (arith, child_has-insert_child c t cs prefix d rest)
child_has-insert_child c t (child e serialized cs) prefix d rest =
    ground (arith, child_has-insert_child c t cs prefix d rest)

pub insert_child-AreTries :
    (n c : ℕ) (t : TrieNode) (cs : Children) (prefix : Bytes)
    → IsTrie n (prefix ++ c ∷ []) t
    → AreTries n prefix cs
    → AreTries n prefix (insert_child c (loaded t) cs)
unfolding IsTrie insert_child
insert_child-AreTries n c t nil prefix h hs = (h, tt)
insert_child-AreTries n c t (child e serialized cs) prefix h hs = absurd hs
insert_child-AreTries n c t (child e (loaded u) cs) prefix h hs = elim (Bool-cases (e == c)) [
  | inl same ↦ rw same (h, hs.1)
  | inr other ↦ rw other (hs.0, insert_child-AreTries n c t cs prefix h hs.1)
]

pub append_filled :
    (prefix : Bytes) (c : ℕ) (rest : Bytes) → bytes_eq [] (prefix ++ c ∷ rest) ≡ false
unfolding bytes_eq
append_filled [] c rest = refl
append_filled (b ∷ prefix) c rest = refl

pub append_one :
    (prefix : Bytes) (c : ℕ) (rest : Bytes) → (prefix ++ c ∷ []) ++ rest ≡ prefix ++ (c ∷ rest)
append_one [] c rest = refl
append_one (b ∷ prefix) c rest = ap (λ (l : Bytes). b ∷ l) (append_one prefix c rest)

-- A node without a key of its own holds what its children hold.
pub has-inner :
    (items : ℕ) (cs : Children) (hashes : Hashes) (prefix : Bytes) (c : ℕ) (rest : Bytes)
    → has (node items cs hashes none) prefix (c ∷ rest) ≡ child_has cs prefix c rest
unfolding has
has-inner items nil hashes prefix c rest = append_filled prefix c rest
has-inner items (child d t cs) hashes prefix c rest = refl

pub inner-IsTrie :
    (n items : ℕ) (cs : Children) (hashes : Hashes) (prefix : Bytes)
    → AreTries n prefix cs
    → IsTrie (suc n) prefix (node items cs hashes none)
unfolding IsTrie
inner-IsTrie n items nil hashes prefix h = tt
inner-IsTrie n items (child c t cs) hashes prefix h = h

pub new_node-has :
    (prefix : Bytes) (c : ℕ) (rest : Bytes) → has new_node (prefix ++ c ∷ []) rest ≡ false
unfolding has new_node
new_node-has prefix c rest = rw (append_one prefix c rest) (append_filled prefix c rest)

-- A child of the character, once it is made sure that there is one.
pub record Ready (codec : TrieCodec) (db : Database) (n : ℕ) (prefix : Bytes) (c : ℕ)
    (cs : Children) : Type 0 where
  pub ready : TrieNode
  pub loads : get_or_load_child codec db (with_child c cs) prefix c ≡ ok ready
  pub ready-IsTrie : IsTrie n (prefix ++ c ∷ []) ready
  pub ready-has : (rest : Bytes) → has ready (prefix ++ c ∷ []) rest ≡ child_has cs prefix c rest
  pub kept : AreTries n prefix (with_child c cs)
  pub others :
      (d : ℕ) (rest : Bytes)
      → (c == d) ≡ false
      → child_has (with_child c cs) prefix d rest ≡ child_has cs prefix d rest

pub find-ready :
    (n : ℕ) (prefix : Bytes) (c : ℕ) (cs : Children)
    → AreTries n prefix cs
    → ((find_child c cs ≡ none) × ((rest : Bytes) → child_has cs prefix c rest ≡ false))
      ⊎ ((t : TrieNode) × (find_child c cs ≡ some (loaded t))
          × IsTrie n (prefix ++ c ∷ []) t
          × ((rest : Bytes) → has t (prefix ++ c ∷ []) rest ≡ child_has cs prefix c rest))
unfolding find_child IsTrie has
find-ready n prefix c nil hs = inl (refl, λ rest. refl)
find-ready n prefix c (child e serialized cs) hs = absurd hs
find-ready n prefix c (child e (loaded u) cs) hs = elim (Bool-cases (e == c)) [
  | inl same ↦
      let e_is_c : e ≡ c = ground (arith, same) in
      rw same (inr (u, refl, rw (← e_is_c) hs.0, λ rest. refl))
  | inr other ↦ rw other (find-ready n prefix c cs hs.1)
]

find_child-insert_child :
    (c : ℕ) (t : TrieNodeType) (cs : Children) → find_child c (insert_child c t cs) ≡ some t
unfolding find_child insert_child
find_child-insert_child c t nil = ground arith
find_child-insert_child c t (child e u cs) = ground (arith, find_child-insert_child c t cs)

pub with_child_missing :
    (c : ℕ) (cs : Children)
    → find_child c cs ≡ none
    → with_child c cs ≡ insert_child c (loaded new_node) cs
with_child_missing c cs h = ground (arith, h)

pub with_child_found :
    (c : ℕ) (cs : Children) (t : TrieNodeType) → find_child c cs ≡ some t → with_child c cs ≡ cs
with_child_found c cs t h = ground (arith, h)

pub child-Ready :
    (codec : TrieCodec) (db : Database) (n : ℕ) (prefix : Bytes) (c : ℕ) (cs : Children)
    → AreTries n prefix cs
    → Ready codec db n prefix c cs
unfolding get_or_load_child IsTrie
child-Ready codec db n prefix c cs hs = elim (find-ready n prefix c cs hs) [
  | inl (missing, empty) ↦ record {
    ready = new_node;
    loads = ground (arith, missing, find_child-insert_child c (loaded new_node) cs);
    ready-IsTrie = unfold new_node in tt;
    ready-has = λ rest. new_node-has prefix c rest ∙ sym (empty rest);
    kept =
        subst (AreTries n prefix) (sym (with_child_missing c cs missing))
          (insert_child-AreTries n c new_node cs prefix (unfold new_node in tt) hs);
    others = λ d rest apart.
        ap (λ x. child_has x prefix d rest) (with_child_missing c cs missing)
        ∙ (child_has-insert_child c new_node cs prefix d rest ∙ rw apart refl);
  }
  | inr (t, found, good, same) ↦ record {
    ready = t;
    loads = ground (arith, found);
    ready-IsTrie = good;
    ready-has = same;
    kept = subst (AreTries n prefix) (sym (with_child_found c cs (loaded t) found)) hs;
    others = λ d rest apart.
        ap (λ x. child_has x prefix d rest) (with_child_found c cs (loaded t) found);
  }
]

-- On a trie in memory, `exists` finds the keys that it holds.
pub exists-has :
    (codec : TrieCodec) (db : Database) (n : ℕ) (t : TrieNode) (prefix rest : Bytes)
    → IsTrie n prefix t
    → length rest ≡ n
    → exists codec db t prefix rest ≡ ok (has t prefix rest)
unfolding exists has IsTrie is_leaf get_or_load_child find_child
exists-has codec db n (node items nil hashes key) prefix [] h e = refl
exists-has codec db n (node items nil hashes key) prefix (c ∷ rest) h e = refl
exists-has codec db zero (node items (child d u cs) hashes key) prefix rest h e = absurd h
exists-has codec db (suc n) (node items (child d u cs) hashes (some key)) prefix rest h e = absurd h
exists-has codec db (suc n) (node items (child d u cs) hashes none) prefix [] h e =
    absurd (omega arith)
exists-has codec db (suc n) (node items (child d u cs) hashes none) prefix (c ∷ rest) h e =
    elim (find-ready n prefix c (child d u cs) h) [
      | inl (missing, empty) ↦ ground (arith, missing, empty rest)
      | inr (t, found, good, same) ↦ ground (
        arith,
        found,
        same rest,
        exists-has codec db n t (prefix ++ c ∷ []) rest good (omega arith),
      )
    ]
