-- ===== src/Trie/Node/Insert/Rounds.antt =====
-- The loop of `insert` over the groups, on a trie in memory.
use hypersnap.Shared.{
  ℕ, suc, ◌+◌, ◌≤◌, ◌≡◌, ◌≢◌, refl, ap, ◌∙◌, true, false, ◌&&◌, ◌||◌, List, [], ◌∷◌, ◌++◌, Option,
  none, some, Result, ok, arith, All, length, length-append, ◌==◌, Bool-cases, inl, inr,
}
use mathlib.Core.Path.{subst}
use hypersnap.Bytes.{Bytes}
use hypersnap.Database.{Database, Batch}
use hypersnap.Trie.{TrieError}
use hypersnap.Trie.Node.{
  TrieNode, node, nil, child, loaded, TrieCodec, Hashes, insert_child, hash_of, update_hash,
  uncompacted_length, with_child, last_char, set_hash,
}
use hypersnap.Trie.Node.Contents.{
  has, child_has, IsTrie, AreTries, child-Ready, child_has-insert_child, insert_child-AreTries,
}
use hypersnap.Trie.Node.Insert.{
  Inserted, InsertCall, Group, Loop, Placed, rests_of, insert_group, insert_groups, place_results,
  count_true,
}
use hypersnap.Trie.Node.Insert.Groups.{contains_key, in_groups, IsGroup}

-- The call succeeds, and the new node is a trie that holds what it held and the keys.
pub record Succeeds (n : ℕ) (prefix : Bytes) (t : TrieNode) (keys : List Bytes)
    (r : Result TrieError Inserted) : Type 0 where
  pub out : Inserted
  pub returns : r ≡ ok out
  pub out-IsTrie : IsTrie n prefix out.new
  pub out-has :
      (rest : Bytes)
      → length rest ≡ n
      → has out.new prefix rest ≡ has t prefix rest || contains_key keys rest

-- A call that inserts keys of `n` characters more, where the first levels are passed.
abbrev pub Inserts : ℕ → InsertCall → Type 0
Inserts n call =
    (t : TrieNode) (hashes : Hashes) (txn : Batch) (prefix : Bytes) (keys : List Bytes)
    → IsTrie n prefix t
    → uncompacted_length ≤ length prefix + n
    → keys ≢ []
    → All (λ k. length k ≡ n) keys
    → Succeeds n prefix t keys (call t hashes txn prefix keys)

pub hash_of_ok :
    (codec : TrieCodec) (n : ℕ) (prefix : Bytes) (t : TrieNode)
    → IsTrie n prefix t
    → (hash : Bytes) × (hash_of codec t ≡ ok hash)
unfolding hash_of IsTrie
hash_of_ok codec n prefix (node items nil hashes none) h = ([], refl)
hash_of_ok codec n prefix (node items nil hashes (some [])) h =
    absurd
      (omega (arith, h.0, ap (length {A = ℕ}) h.1.split, length-append {A = ℕ} prefix h.1.rest))
hash_of_ok codec n prefix (node items nil hashes (some (b ∷ bs))) h =
    (codec.blake3_20 (b ∷ bs), refl)
hash_of_ok codec n prefix (node items (child c t cs) hashes key) h = (_, refl)

pub update_hash_ok :
    (codec : TrieCodec) (n : ℕ) (prefix : Bytes) (t : TrieNode) (hashes : Hashes)
    → IsTrie n prefix t
    → (updated : Hashes) × (update_hash codec t hashes prefix ≡ ok updated)
unfolding update_hash
update_hash_ok codec n prefix t hashes h = go (last_char prefix) refl
  where
    go :
        (o : Option ℕ)
        → last_char prefix ≡ o
        → (updated : Hashes) × (update_hash codec t hashes prefix ≡ ok updated)
    go none e = (hashes, ground (arith, e))
    go (some c) e =
        let (hash, made) = hash_of_ok codec n prefix t h in
        (set_hash c hash hashes, ground (arith, e, made))

-- The loop goes on from `l` and has added the keys of the groups.
pub record Adds (n : ℕ) (prefix : Bytes) (l : Loop) (groups : List Group)
    (r : Result TrieError Loop) : Type 0 where
  pub out : Loop
  pub returns : r ≡ ok out
  pub out-AreTries : AreTries n prefix out.children
  pub out-has :
      (c : ℕ) (rest : Bytes)
      → length rest ≡ n
      → child_has out.children prefix c rest
        ≡ child_has l.children prefix c rest || in_groups c rest groups

pub rests_of-ne-nil : (keys : List Placed) → keys ≢ [] → rests_of keys ≢ []
unfolding rests_of
rests_of-ne-nil [] h e = h refl
rests_of-ne-nil ((i, rest) ∷ keys) h e = cc

module _ (codec : TrieCodec) (db : Database) (n : ℕ) (prefix : Bytes) (call : InsertCall)
    (inserts : Inserts n call) (deep : uncompacted_length ≤ length prefix + suc n) where
  pub group_added :
      (g : Group) (l : Loop)
      → IsGroup n g
      → AreTries n prefix l.children
      → Adds n prefix l (g ∷ []) (insert_group codec db call prefix g l)
  unfolding insert_group in_groups
  group_added g l good tries =
      let start = child-Ready codec db n prefix g.char l.children tries in
      let done =
        inserts start.ready l.child_hashes l.txn (prefix ++ g.char ∷ []) (rests_of g.keys)
          start.ready-IsTrie (omega (arith, deep, length-append prefix (g.char ∷ [])))
          (rests_of-ne-nil g.keys good.0) good.1 in
      record {
        out = record {
          children = insert_child g.char (loaded done.out.new) (with_child g.char l.children);
          child_hashes = done.out.parent_hashes;
          txn = done.out.txn;
          results = place_results g.keys done.out.results l.results;
          successes = l.successes + count_true done.out.results;
        };
        returns = ground (arith, start.loads, done.returns);
        out-AreTries =
            insert_child-AreTries n g.char done.out.new (with_child g.char l.children) prefix
              done.out-IsTrie start.kept;
        out-has = λ c rest e. elim (Bool-cases (g.char == c)) [
          | inl same ↦
              let g_is_c : g.char ≡ c = ground (arith, same) in
              child_has-insert_child g.char done.out.new (with_child g.char l.children) prefix c
                rest
              ∙ rw same (
                  subst
                    (λ d.
                      has done.out.new (prefix ++ d ∷ []) rest
                      ≡ child_has l.children prefix d rest
                        || ((true && contains_key (rests_of g.keys) rest) || false))
                    g_is_c (ground (arith, done.out-has rest e, start.ready-has rest)))
          | inr other ↦
              child_has-insert_child g.char done.out.new (with_child g.char l.children) prefix c
                rest
              ∙ rw other (ground (arith, start.others c rest other))
        ];
      }

  pub groups_added :
      (groups : List Group) (l : Loop)
      → All (IsGroup n) groups
      → AreTries n prefix l.children
      → Adds n prefix l groups (insert_groups codec db call prefix groups l)
  unfolding insert_groups in_groups
  groups_added [] l good tries = record {
    out = l;
    returns = refl;
    out-AreTries = tries;
    out-has = λ c rest e. ground arith;
  }
  groups_added (g ∷ groups) l good tries =
      let first = group_added g l good.0 tries in
      let rest = groups_added groups first.out good.1 first.out-AreTries in
      record {
        out = rest.out;
        returns = ground (arith, first.returns, rest.returns);
        out-AreTries = rest.out-AreTries;
        out-has = λ c r e. ground (arith, first.out-has c r e, rest.out-has c r e);
      }
