-- ===== src/Trie/Node/Delete/Rounds.antt =====
-- The loop of `delete` over the groups, on a trie in memory.
use hypersnap.Shared.{
  ℕ, ◌+◌, ◌<◌, ◌^◌, ◌≤◌, ◌≡◌, ◌≢◌, refl, not, false, ◌&&◌, List, [], ◌∷◌, ◌++◌, none, some, Result,
  ok, arith, length, All, inl, inr, ==_iff, length-append,
}
use hypersnap.Bytes.{Bytes}
use hypersnap.Database.{Database, Batch}
use hypersnap.Trie.{TrieError}
use hypersnap.Trie.Node.{TrieNode, loaded, TrieCodec, Hashes, find_child, get_or_load_child}
use hypersnap.Trie.Node.Contents.{has, child_has, IsTrie, AreTries, find-ready}
use hypersnap.Trie.Node.Insert.{Group, Loop, rests_of, count_true}
use hypersnap.Trie.Node.Insert.Groups.{contains_key, in_groups, IsGroup}
use hypersnap.Trie.Node.Delete.{Deleted, DeleteCall, delete_group, delete_groups, after_delete}
use hypersnap.Trie.Node.Insert.Rounds.{rests_of-ne-nil}
use hypersnap.Trie.Node.Delete.Counts.{count, child_count, Counted, AreCounted}
use hypersnap.Trie.Node.Delete.Siblings.{find-Counted, child_count-remove_child}
use hypersnap.Trie.Node.Delete.Keeping.{child_kept}
use hypersnap.Trie.Node.Delete.Places.{
  vacancy, uses, group_uses, place_results-room, count_true-place_results, length-place_results,
}

-- The call succeeds, and the new node is a trie that holds what it held without the keys; so many results are true
-- as it holds fewer keys.
pub record Removes (n : ℕ) (prefix : Bytes) (t : TrieNode) (keys : List Bytes)
    (r : Result TrieError Deleted) : Type 0 where
  pub out : Deleted
  pub returns : r ≡ ok out
  pub out-IsTrie : IsTrie n prefix out.new
  pub out-Counted : Counted out.new
  pub out-count : count out.new + count_true out.results ≡ count t
  pub out-length : length out.results ≡ length keys
  pub out-has :
      (rest : Bytes)
      → length rest ≡ n
      → has out.new prefix rest ≡ has t prefix rest && not (contains_key keys rest)

abbrev pub Deletes : ℕ → DeleteCall → Type 0
Deletes n call =
    (t : TrieNode) (hashes : Hashes) (txn : Batch) (prefix : Bytes) (keys : List Bytes)
    → IsTrie n prefix t
    → Counted t
    → count t < 2 ^ 64
    → 0 < length prefix + n
    → keys ≢ []
    → All (λ k. length k ≡ n) keys
    → Removes n prefix t keys (call t hashes txn prefix keys)

-- The loop goes on from `l` and has removed the keys of the groups; there is room for other results.
pub record Clears (n : ℕ) (prefix : Bytes) (l : Loop) (groups : List Group) (extra : ℕ → ℕ)
    (r : Result TrieError Loop) : Type 0 where
  pub out : Loop
  pub returns : r ≡ ok out
  pub out-AreTries : AreTries n prefix out.children
  pub out-AreCounted : AreCounted out.children
  pub out-count : child_count out.children + out.successes ≡ child_count l.children + l.successes
  pub out-less : child_count out.children ≤ child_count l.children
  pub out-results : count_true out.results + l.successes ≡ count_true l.results + out.successes
  pub out-length : length out.results ≡ length l.results
  pub out-room : (p : ℕ) → extra p ≤ vacancy p out.results
  pub out-has :
      (c : ℕ) (rest : Bytes)
      → length rest ≡ n
      → child_has out.children prefix c rest
        ≡ child_has l.children prefix c rest && not (in_groups c rest groups)

module _ (codec : TrieCodec) (db : Database) (n : ℕ) (prefix : Bytes) (call : DeleteCall)
    (deletes : Deletes n call) where
  group_missing :
      (g : Group) (l : Loop) (extra : ℕ → ℕ)
      → AreTries n prefix l.children
      → AreCounted l.children
      → find_child g.char l.children ≡ none
      → ((rest : Bytes) → child_has l.children prefix g.char rest ≡ false)
      → ((p : ℕ) → uses p g.keys + extra p ≤ vacancy p l.results)
      → Clears n prefix l (g ∷ []) extra (delete_group codec db call prefix g l)
  unfolding delete_group in_groups
  group_missing g l extra tries counted missing empty room = record {
    out = l;
    returns = ground (arith, missing);
    out-AreTries = tries;
    out-AreCounted = counted;
    out-count = refl;
    out-less = omega arith;
    out-results = omega arith;
    out-length = refl;
    out-room = λ p. omega (arith, room p);
    out-has = λ c rest e. ground (arith, ==_iff g.char c, empty rest);
  }

  group_found :
      (g : Group) (l : Loop) (extra : ℕ → ℕ) (t : TrieNode)
      → IsGroup n g
      → AreTries n prefix l.children
      → AreCounted l.children
      → child_count l.children < 2 ^ 64
      → find_child g.char l.children ≡ some (loaded t)
      → IsTrie n (prefix ++ g.char ∷ []) t
      → ((rest : Bytes)
          → has t (prefix ++ g.char ∷ []) rest ≡ child_has l.children prefix g.char rest)
      → ((p : ℕ) → uses p g.keys + extra p ≤ vacancy p l.results)
      → Clears n prefix l (g ∷ []) extra (delete_group codec db call prefix g l)
  unfolding delete_group in_groups get_or_load_child
  group_found g l extra t (some_keys, long) tries counted small found good same room =
      let done =
        deletes t l.child_hashes l.txn (prefix ++ g.char ∷ []) (rests_of g.keys) good
          (find-Counted g.char t l.children counted found)
          (omega (arith, small, child_count-remove_child g.char t l.children counted found))
          (omega (arith, length-append prefix (g.char ∷ []))) (rests_of-ne-nil g.keys some_keys)
          long in
      let kept =
        child_kept n prefix g.char t done.out.new l.children tries counted found done.out-IsTrie
          done.out-Counted in
      record {
        out = after_delete g done.out l;
        returns = ground (arith, found, done.returns);
        out-AreTries = kept.kept-AreTries;
        out-AreCounted = kept.kept-AreCounted;
        out-count = omega (arith, kept.kept-count, done.out-count);
        out-less = omega (arith, kept.kept-count, done.out-count);
        out-results = omega (
          arith,
          count_true-place_results extra g.keys done.out.results l.results room done.out-length,
        );
        out-length = length-place_results g.keys done.out.results l.results;
        out-room = place_results-room extra g.keys done.out.results l.results room;
        out-has = λ c rest e.
            ground (arith, ==_iff g.char c, kept.kept-has c rest e, done.out-has rest e, same rest);
      }

  group_cleared :
      (g : Group) (l : Loop) (extra : ℕ → ℕ)
      → IsGroup n g
      → AreTries n prefix l.children
      → AreCounted l.children
      → child_count l.children < 2 ^ 64
      → ((p : ℕ) → uses p g.keys + extra p ≤ vacancy p l.results)
      → Clears n prefix l (g ∷ []) extra (delete_group codec db call prefix g l)
  group_cleared g l extra good tries counted small room =
      elim (find-ready n prefix g.char l.children tries) [
        | inl (missing, empty) ↦ group_missing g l extra tries counted missing empty room
        | inr (t, found, own, same) ↦
            group_found g l extra t good tries counted small found own same room
      ]

  pub groups_cleared :
      (groups : List Group) (l : Loop)
      → All (IsGroup n) groups
      → AreTries n prefix l.children
      → AreCounted l.children
      → child_count l.children < 2 ^ 64
      → ((p : ℕ) → group_uses p groups ≤ vacancy p l.results)
      → Clears n prefix l groups (λ p. 0) (delete_groups codec db call prefix groups l)
  unfolding delete_groups in_groups group_uses
  groups_cleared [] l good tries counted small room = record {
    out = l;
    returns = refl;
    out-AreTries = tries;
    out-AreCounted = counted;
    out-count = refl;
    out-less = omega arith;
    out-results = omega arith;
    out-length = refl;
    out-room = λ p. omega arith;
    out-has = λ c rest e. ground arith;
  }
  groups_cleared (g ∷ groups) l (own, good) tries counted small room =
      let first = group_cleared g l (λ p. group_uses p groups) own tries counted small room in
      let rest =
        groups_cleared groups first.out good first.out-AreTries first.out-AreCounted
          (omega (arith, small, first.out-less)) first.out-room in
      record {
        out = rest.out;
        returns = ground (arith, first.returns, rest.returns);
        out-AreTries = rest.out-AreTries;
        out-AreCounted = rest.out-AreCounted;
        out-count = omega (arith, first.out-count, rest.out-count);
        out-less = omega (arith, first.out-less, rest.out-less);
        out-results = omega (arith, first.out-results, rest.out-results);
        out-length = omega (arith, first.out-length, rest.out-length);
        out-room = rest.out-room;
        out-has = λ c r e. ground (arith, first.out-has c r e, rest.out-has c r e);
      }
