-- ===== src/Trie/Node/Counting.antt =====
-- The loop over the groups of `insert`, src/storage/trie/trie_node.rs, and the numbers of keys in its nodes.
pub mod Leaf
pub mod Main
use hypersnap.Shared.{
  ℕ, zero, suc, ◌+◌, ◌≤◌, ◌≡◌, ◌≢◌, refl, ap, sym, ◌∙◌, Bool, true, false, List, [], ◌∷◌, ◌++◌,
  none, some, Result, ok, err, arith, length, ◌==◌, All, Bool-cases, inl, inr, either, Option-cases,
  length-append, if◌then◌else◌,
}
use mathlib.Core.Path.{subst}
use hypersnap.Bytes.{Bytes}
use hypersnap.Database.{Database, Batch}
use hypersnap.Trie.{TrieError}
use hypersnap.Trie.Node.{
  TrieNode, node, Children, nil, child, loaded, serialized, TrieCodec, Hashes, new_node, find_child,
  insert_child, get_or_load_child, with_child, update_hash, uncompacted_length,
}
use hypersnap.Trie.Node.Contents.{
  IsTrie, AreTries, child-Ready, find-ready, with_child_missing, with_child_found,
}
use hypersnap.Trie.Node.Insert.{
  Inserted, InsertCall, Group, Loop, Placed, rests_of, insert_group, insert_groups,
  insert_remaining, place_results, count_true, group_keys,
}
use hypersnap.Trie.Node.Insert.Groups.{IsGroup, group_keys-IsGroup}
use hypersnap.Trie.Node.Insert.Keys.{none_ended}
use hypersnap.Trie.Node.Insert.Rounds.{Inserts, groups_added, group_added, rests_of-ne-nil}
use hypersnap.Trie.Node.Delete.Counts.{count, child_count, Counted, AreCounted}
use hypersnap.Trie.Node.Delete.Siblings.{
  find-Counted, child_count-insert_child, insert_child-AreCounted,
}
use hypersnap.Trie.Node.Delete.Compacting.{count-inner}
use hypersnap.Trie.Node.Delete.Places.{
  vacancy, uses, group_uses, place_results-room, count_true-place_results, length-place_results,
  group_uses-group_keys,
}

-- The new node knows its number of keys, which grew by as many results as turned true.
abbrev pub Tally : ℕ → List Bool → Inserted → Type 0
Tally before results out =
    Counted out.new
    × (count out.new + count_true results ≡ before + count_true out.results)
    × (length out.results ≡ length results)

-- The call keeps the numbers right.
abbrev pub Tallies : ℕ → InsertCall → Type 0
Tallies n call =
    (t : TrieNode) (hashes : Hashes) (txn : Batch) (prefix : Bytes) (keys : List Bytes)
    (out : Inserted)
    → IsTrie n prefix t
    → Counted t
    → uncompacted_length ≤ length prefix + n
    → keys ≢ []
    → All (λ k. length k ≡ n) keys
    → call t hashes txn prefix keys ≡ ok out
    → Counted out.new
      × (count out.new ≡ count t + count_true out.results)
      × (length out.results ≡ length keys)

pub record Grows (l : Loop) (extra : ℕ → ℕ) (l' : Loop) : Type 0 where
  pub grown-AreCounted : AreCounted l'.children
  pub grown-count : child_count l'.children + l.successes ≡ child_count l.children + l'.successes
  pub grown-results : count_true l'.results + l.successes ≡ count_true l.results + l'.successes
  pub grown-length : length l'.results ≡ length l.results
  pub grown-room : (p : ℕ) → extra p ≤ vacancy p l'.results

child_count-insert_new :
    (c : ℕ) (t : TrieNode) (cs : Children)
    → find_child c cs ≡ none
    → child_count (insert_child c (loaded t) cs) ≡ child_count cs + count t
unfolding find_child insert_child count
child_count-insert_new c t nil h = omega arith
child_count-insert_new c t (child d serialized cs) h = elim (Bool-cases (d == c)) [
  | inl same ↦ absurd (ground (arith, h, same))
  | inr other ↦ rw other (omega (arith, child_count-insert_new c t cs (ground (arith, h, other))))
]
child_count-insert_new c t (child d (loaded u) cs) h = elim (Bool-cases (d == c)) [
  | inl same ↦ absurd (ground (arith, h, same))
  | inr other ↦ rw other (omega (arith, child_count-insert_new c t cs (ground (arith, h, other))))
]

pub new_node-Counted : Counted new_node
unfolding Counted new_node count
new_node-Counted = (refl, tt)

with_child-AreCounted : (c : ℕ) (cs : Children) → AreCounted cs → AreCounted (with_child c cs)
with_child-AreCounted c cs counted = elim (Option-cases (find_child c cs)) [
  | inl missing ↦
      subst AreCounted (sym (with_child_missing c cs missing))
        (insert_child-AreCounted c new_node cs new_node-Counted counted)
  | inr (t, found) ↦ subst AreCounted (sym (with_child_found c cs t found)) counted
]

child_count-with_child : (c : ℕ) (cs : Children) → child_count (with_child c cs) ≡ child_count cs
child_count-with_child c cs = elim (Option-cases (find_child c cs)) [
  | inl missing ↦
      ap child_count (with_child_missing c cs missing)
      ∙ (child_count-insert_new c new_node cs missing ∙ (unfold new_node count in omega arith))
  | inr (t, found) ↦ ap child_count (with_child_found c cs t found)
]

loaded_child :
    (codec : TrieCodec) (db : Database) (n c : ℕ) (t : TrieNode) (prefix : Bytes) (cs : Children)
    → AreTries n prefix cs
    → get_or_load_child codec db cs prefix c ≡ ok t
    → find_child c cs ≡ some (loaded t)
unfolding get_or_load_child
loaded_child codec db n c t prefix cs tries loads = elim (find-ready n prefix c cs tries) [
  | inl (missing, empty) ↦ ground (arith, missing, loads)
  | inr (u, found, good, same) ↦ ground (arith, found, loads)
]

module _ (codec : TrieCodec) (db : Database) (n : ℕ) (prefix : Bytes) (call : InsertCall)
    (inserts : Inserts n call) (tallies : Tallies n call)
    (deep : uncompacted_length ≤ length prefix + suc n) where
  group-Grows :
      (g : Group) (l l' : Loop) (extra : ℕ → ℕ)
      → IsGroup n g
      → AreTries n prefix l.children
      → AreCounted l.children
      → ((p : ℕ) → uses p g.keys + extra p ≤ vacancy p l.results)
      → insert_group codec db call prefix g l ≡ ok l'
      → Grows l extra l'
  unfolding insert_group
  group-Grows g l l' extra (some_keys, long) tries counted room eq =
      let start = child-Ready codec db n prefix g.char l.children tries in
      let cs = with_child g.char l.children in
      let below = length-append prefix (g.char ∷ []) in
      let ne = rests_of-ne-nil g.keys some_keys in
      let done =
        inserts start.ready l.child_hashes l.txn (prefix ++ g.char ∷ []) (rests_of g.keys)
          start.ready-IsTrie (omega (arith, deep, below)) ne long in
      let found = loaded_child codec db n g.char start.ready prefix cs start.kept start.loads in
      let here = with_child-AreCounted g.char l.children counted in
      let (own, more, len) =
        tallies start.ready l.child_hashes l.txn (prefix ++ g.char ∷ []) (rests_of g.keys) done.out
          start.ready-IsTrie (find-Counted g.char start.ready cs here found)
          (omega (arith, deep, below)) ne long done.returns in
      let next : Loop = record {
        children = insert_child g.char (loaded done.out.new) cs;
        child_hashes = done.out.parent_hashes;
        txn = done.out.txn;
        results = place_results g.keys done.out.results l.results;
        successes = l.successes + count_true done.out.results;
      } in
      let same : next ≡ l' = ground (arith, eq, start.loads, done.returns) in
      subst (Grows l extra) same (record {
        grown-AreCounted = insert_child-AreCounted g.char done.out.new cs own here;
        grown-count = omega (
          arith,
          child_count-insert_child g.char start.ready done.out.new cs here found,
          child_count-with_child g.char l.children,
          more,
        );
        grown-results =
            omega
              (arith, count_true-place_results extra g.keys done.out.results l.results room len);
        grown-length = length-place_results g.keys done.out.results l.results;
        grown-room = place_results-room extra g.keys done.out.results l.results room;
      })

  groups_grow :
      (groups : List Group) (l l' : Loop)
      → All (IsGroup n) groups
      → AreTries n prefix l.children
      → AreCounted l.children
      → ((p : ℕ) → group_uses p groups ≤ vacancy p l.results)
      → insert_groups codec db call prefix groups l ≡ ok l'
      → Grows l (λ p. 0) l'
  unfolding insert_groups group_uses
  groups_grow [] l l' good tries counted room eq =
      let same : l ≡ l' = ground (arith, eq) in
      subst (Grows l (λ p. 0)) same (record {
        grown-AreCounted = counted;
        grown-count = refl;
        grown-results = refl;
        grown-length = refl;
        grown-room = λ p. omega arith;
      })
  groups_grow (g ∷ groups) l l' (own, good) tries counted room eq =
      let added = group_added codec db n prefix call inserts deep g l own tries in
      let first =
        group-Grows g l added.out (λ p. group_uses p groups) own tries counted room added.returns in
      let rest =
        groups_grow groups added.out l' good added.out-AreTries first.grown-AreCounted
          first.grown-room (ground (arith, eq, added.returns)) in
      record {
        grown-AreCounted = rest.grown-AreCounted;
        grown-count = omega (arith, first.grown-count, rest.grown-count);
        grown-results = omega (arith, first.grown-results, rest.grown-results);
        grown-length = omega (arith, first.grown-length, rest.grown-length);
        grown-room = rest.grown-room;
      }

  out_of :
      (items : ℕ) (cs : Children) (hashes parent_hashes : Hashes) (txn : Batch) (keys : List Placed)
      (results : List Bool) (out : Inserted) (l : Loop)
      → All (λ k. length k ≡ suc n) (rests_of keys)
      → insert_groups codec db call prefix (group_keys keys []) (record {
        children = cs;
        child_hashes = hashes;
        txn = txn;
        results = results;
        successes = 0;
      })
        ≡ ok l
      → insert_remaining codec db call
          (node items cs hashes none)
          parent_hashes
          txn
          prefix
          keys
          results
        ≡ ok out
      → (out.new ≡ node (items + l.successes) l.children l.child_hashes none)
        × (out.results ≡ l.results)
  unfolding insert_remaining
  out_of items cs hashes parent_hashes txn keys results out l long returns eq =
      let new = node (items + l.successes) l.children l.child_hashes none in
      elim (Bool-cases (l.successes == 0)) [
        | inl idle ↦ ground (arith, none_ended n keys long, returns, idle, eq)
        | inr busy ↦ elim (either (update_hash codec new parent_hashes prefix)) [
          | inl (updated, made) ↦ ground (arith, none_ended n keys long, returns, busy, made, eq)
          | inr (e, fails) ↦ ground (arith, none_ended n keys long, returns, busy, fails, eq)
        ]
      ]

  pub remaining-Tally :
      (items : ℕ) (cs : Children) (hashes parent_hashes : Hashes) (txn : Batch) (keys : List Placed)
      (results : List Bool) (out : Inserted)
      → AreTries n prefix cs
      → Counted (node items cs hashes none)
      → All (λ k. length k ≡ suc n) (rests_of keys)
      → ((p : ℕ) → uses p keys ≤ vacancy p results)
      → insert_remaining codec db call
          (node items cs hashes none)
          parent_hashes
          txn
          prefix
          keys
          results
        ≡ ok out
      → Tally (child_count cs) results out
  unfolding insert_remaining Counted group_uses
  remaining-Tally items cs hashes parent_hashes txn keys results out tries (e, counted) long room
        eq =
      let start : Loop = record {
        children = cs;
        child_hashes = hashes;
        txn = txn;
        results = results;
        successes = 0;
      } in
      let good = group_keys-IsGroup n keys [] tt long in
      let added =
        groups_added codec db n prefix call inserts deep (group_keys keys []) start good tries in
      let grown =
        groups_grow (group_keys keys []) start added.out good tries counted
          (λ p. omega (arith, room p, group_uses-group_keys n p keys [] long)) added.returns in
      let l = added.out in
      let new = node (items + l.successes) l.children l.child_hashes none in
      let new-Counted : Counted new = (
        omega (
          arith,
          e,
          count-inner items cs hashes,
          count-inner (items + l.successes) l.children l.child_hashes,
          grown.grown-count,
        ),
        grown.grown-AreCounted,
      ) in
      let (is_new, same) =
        out_of items cs hashes parent_hashes txn keys results out l long added.returns eq in
      (
        subst Counted (sym is_new) new-Counted,
        omega (
          arith,
          ap count is_new,
          ap count_true same,
          count-inner (items + l.successes) l.children l.child_hashes,
          grown.grown-count,
          grown.grown-results,
        ),
        omega (arith, ap (length {A = Bool}) same, grown.grown-length),
      )
