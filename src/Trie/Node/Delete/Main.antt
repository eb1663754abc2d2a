-- ===== src/Trie/Node/Delete/Main.antt =====
-- `delete` on a trie in memory: it succeeds, and the new trie holds the old keys without those of the call.
use mathlib.Core.Path.{subst}
use hypersnap.Shared.{
  ℕ, zero, suc, ◌+◌, ◌^◌, ◌<◌, ◌≤◌, ◌≡◌, ◌≢◌, refl, ap, sym, ◌∙◌, not, Bool, ◌&&◌, List, [], ◌∷◌,
  none, some, ok, arith, All, length, ◌==◌, Bool-cases, inl, inr, ==_iff,
}
use hypersnap.Bytes.{Bytes}
use hypersnap.Database.{Database, Batch}
use hypersnap.Trie.Node.{TrieNode, node, Children, nil, child, TrieCodec, Hashes, put_to_txn}
use hypersnap.Trie.Node.Contents.{has, child_has, IsTrie, AreTries, exists-has}
use hypersnap.Trie.Node.Insert.{Loop, enumerate, falses, rests_of, group_keys, count_true}
use hypersnap.Trie.Node.Insert.Groups.{
  contains_key, in_groups, in_groups-group_keys, group_keys-IsGroup,
}
use hypersnap.Trie.Node.Insert.Keys.{rests_of-enumerate, none_ended}
use hypersnap.Trie.Node.Insert.Rounds.{update_hash_ok}
use hypersnap.Trie.Node.Insert.Main.{Represents}
use hypersnap.Trie.Node.Delete.{
  Deleted, DeleteCall, less, delete_done, delete_inner, delete_keys, delete_to_txn,
}
use hypersnap.Trie.Node.Delete.Counts.{count, child_count, Counted, AreCounted}
use hypersnap.Trie.Node.Delete.Places.{count_true-falses, length-falses, groups_room}
use hypersnap.Trie.Node.Delete.Rounds.{Removes, Deletes, groups_cleared}
use hypersnap.Trie.Node.Delete.Leaf.{leaf_removed, less_small}
use hypersnap.Trie.Node.Delete.Compacting.{
  StandsFor, count-inner, inner-StandsFor, compacted_stands,
}

module _ (codec : TrieCodec) (db : Database) where
  -- The children are those that the loop leaves.
  done_stands :
      (n items : ℕ) (l : Loop) (hashes : Hashes) (prefix : Bytes)
      → AreTries n prefix l.children
      → AreCounted l.children
      → items ≡ child_count l.children
      → (out : Deleted) × (delete_done codec db items none l hashes prefix ≡ ok out)
        × StandsFor n prefix l.children out.new
        × (out.results ≡ l.results)
  unfolding delete_done
  done_stands n items l hashes prefix tries counted e = elim (Bool-cases (items == 0)) [
    | inl none_left ↦
        let new = node items l.children l.child_hashes none in
        let stands = inner-StandsFor n items l.children l.child_hashes prefix tries counted e in
        let (updated, made) = update_hash_ok codec (suc n) prefix new hashes stands.new-IsTrie in
        (
          record {
            results = l.results;
            new = new;
            parent_hashes = updated;
            txn = delete_to_txn l.txn prefix;
          },
          ground (arith, none_left, made),
          stands,
          refl,
        )
    | inr some_left ↦
        let (new, txn, returns, stands) =
          compacted_stands codec db n l.child_hashes l.txn prefix items l.children tries counted
            e in
        let (updated, made) = update_hash_ok codec (suc n) prefix new hashes stands.new-IsTrie in
        (
          record {
            results = l.results;
            new = new;
            parent_hashes = updated;
            txn = put_to_txn codec new txn prefix;
          },
          ground (arith, some_left, returns, made),
          stands,
          refl,
        )
  ]

  contents_left :
      (n : ℕ) (prefix : Bytes) (t new : TrieNode) (cs cs' : Children) (keys : List Bytes)
      → All (λ k. length k ≡ suc n) (rests_of (enumerate 0 keys))
      → ((c : ℕ) (rest : Bytes)
          → length rest ≡ n
          → has t prefix (c ∷ rest) ≡ child_has cs prefix c rest)
      → ((c : ℕ) (rest : Bytes)
          → length rest ≡ n
          → has new prefix (c ∷ rest) ≡ child_has cs' prefix c rest)
      → ((c : ℕ) (rest : Bytes)
          → length rest ≡ n
          → child_has cs' prefix c rest
            ≡ child_has cs prefix c rest
              && not (in_groups c rest (group_keys (enumerate 0 keys) [])))
      → (rest : Bytes) → length rest ≡ suc n
      → has new prefix rest ≡ has t prefix rest && not (contains_key keys rest)
  unfolding in_groups
  contents_left n prefix t new cs cs' keys long before after cleared [] e =
      absurd (omega (arith, e))
  contents_left n prefix t new cs cs' keys long before after cleared (c ∷ rest) e = ground (
    arith,
    before c rest (omega (arith, e)),
    after c rest (omega (arith, e)),
    cleared c rest (omega (arith, e)),
    in_groups-group_keys n (enumerate 0 keys) [] c rest long,
    ap (λ l. contains_key l (c ∷ rest)) (rests_of-enumerate 0 keys),
  )

  inner_removed :
      (n : ℕ) (call : DeleteCall)
      → Deletes n call
      → (items : ℕ) (cs : Children) (own hashes : Hashes) (txn : Batch) (prefix : Bytes)
        (keys : List Bytes)
      → AreTries n prefix cs
      → Counted (node items cs own none)
      → child_count cs < 2 ^ 64
      → All (λ k. length k ≡ suc n) keys
      → Removes
          (suc n)
          prefix
          (node items cs own none)
          keys
          (delete_inner codec db call items cs own none hashes txn prefix keys)
  unfolding delete_inner Counted
  inner_removed n call deletes items cs own hashes txn prefix keys tries (e, counted) small long =
      let places : All (λ k. length k ≡ suc n) (rests_of (enumerate 0 keys)) =
        subst (All (λ k. length k ≡ suc n)) (sym (rests_of-enumerate 0 keys)) long in
      let start : Loop = record {
        children = cs;
        child_hashes = own;
        txn = txn;
        results = falses keys;
        successes = 0;
      } in
      let cleared =
        groups_cleared codec db n prefix call deletes (group_keys (enumerate 0 keys) []) start
          (group_keys-IsGroup n (enumerate 0 keys) [] tt places) tries counted small
          (groups_room n keys places) in
      let l = cleared.out in
      let owned : items ≡ child_count cs = e ∙ count-inner items cs own in
      let before = inner-StandsFor n items cs own prefix tries counted owned in
      elim (Bool-cases (l.successes == 0)) [
        | inl idle ↦
            let stands =
              inner-StandsFor n items l.children l.child_hashes prefix cleared.out-AreTries
                cleared.out-AreCounted
                (omega (arith, owned, cleared.out-count, (==_iff l.successes 0).0 idle)) in
            record {
              out = record {
                results = l.results;
                new = node items l.children l.child_hashes none;
                parent_hashes = hashes;
                txn = l.txn;
              };
              returns =
                  ground (arith, none_ended n (enumerate 0 keys) places, cleared.returns, idle);
              out-IsTrie = stands.new-IsTrie;
              out-Counted = stands.new-Counted;
              out-count = omega (
                arith,
                stands.new-count,
                before.new-count,
                cleared.out-count,
                cleared.out-results,
                count_true-falses keys,
              );
              out-length = omega (arith, cleared.out-length, length-falses keys);
              out-has =
                  contents_left n prefix (node items cs own none)
                    (node items l.children l.child_hashes none) cs l.children keys places
                    before.new-has stands.new-has cleared.out-has;
            }
        | inr busy ↦
            let rest =
              less_small items l.successes (omega (arith, owned, cleared.out-count))
                (omega (arith, owned, small)) in
            let (out, returns, stands, results) =
              done_stands n (less items l.successes) l hashes prefix cleared.out-AreTries
                cleared.out-AreCounted (omega (arith, rest, owned, cleared.out-count)) in
            record {
              out = out;
              returns =
                  ground
                    (arith, none_ended n (enumerate 0 keys) places, cleared.returns, busy, returns);
              out-IsTrie = stands.new-IsTrie;
              out-Counted = stands.new-Counted;
              out-count = omega (
                arith,
                stands.new-count,
                before.new-count,
                cleared.out-count,
                cleared.out-results,
                ap count_true results,
                count_true-falses keys,
              );
              out-length =
                  omega
                    (arith, ap (length {A = Bool}) results, cleared.out-length, length-falses keys);
              out-has =
                  contents_left n prefix (node items cs own none) out.new cs l.children keys places
                    before.new-has stands.new-has cleared.out-has;
            }
      ]

  -- Fuel above the number of characters left is enough.
  delete_keys-Deletes : (fuel n : ℕ) → n < fuel → Deletes n (delete_keys codec db fuel)
  unfolding delete_keys IsTrie
  delete_keys-Deletes zero n h t hashes txn prefix keys good counted small deep some_keys long =
      absurd (omega (arith, h))
  delete_keys-Deletes (suc fuel) n h t hashes txn prefix [] good counted small deep some_keys long =
      absurd (some_keys refl)
  delete_keys-Deletes (suc fuel) n h (node items nil own key) hashes txn prefix (first ∷ keys) good
        counted small deep some_keys long =
      leaf_removed codec db n items own key hashes txn prefix (first ∷ keys) good counted deep long
  delete_keys-Deletes (suc fuel) zero h (node items (child c u cs) own key) hashes txn prefix
        (first ∷ keys) good counted small deep some_keys long =
      absurd good
  delete_keys-Deletes (suc fuel) (suc n) h (node items (child c u cs) own (some key)) hashes txn
        prefix (first ∷ keys) good counted small deep some_keys long =
      absurd good
  delete_keys-Deletes (suc fuel) (suc n) h (node items (child c u cs) own none) hashes txn prefix
        (first ∷ keys) good counted small deep some_keys long =
      inner_removed n (delete_keys codec db fuel) (delete_keys-Deletes fuel n (omega (arith, h)))
        items (child c u cs) own hashes txn prefix (first ∷ keys) good counted
        (omega (arith, small, count-inner items (child c u cs) own)) long

-- From a trie in memory that stands for a set of keys of n characters (by `exists`, n at least 1)
-- and whose nodes know how many keys they hold, fewer than 2^64 in all, a delete of at least one
-- key, all of n characters, with fuel above n, succeeds; the new trie is such a trie too, it stands
-- for the set without the keys, and as many results are true as it holds fewer keys.
pub delete_keys-Represents :
    (codec : TrieCodec) (db : Database) (fuel n : ℕ) (t : TrieNode) (held : Bytes → Bool)
    (hashes : Hashes) (txn : Batch) (keys : List Bytes)
    → n < fuel
    → 1 ≤ n
    → keys ≢ []
    → All (λ k. length k ≡ n) keys
    → IsTrie n [] t
    → Counted t
    → count t < 2 ^ 64
    → Represents codec db n t held
    → (out : Deleted) × (delete_keys codec db fuel t hashes txn [] keys ≡ ok out)
      × IsTrie n [] out.new
      × Counted out.new
      × (count out.new + count_true out.results ≡ count t)
      × Represents codec db n out.new (λ key. held key && not (contains_key keys key))
delete_keys-Represents codec db fuel n t held hashes txn keys enough some_length some_keys long good
      counted small stands =
    let done =
      delete_keys-Deletes codec db fuel n enough t hashes txn [] keys good counted small
        (omega (arith, some_length)) some_keys long in
    (
      done.out,
      done.returns,
      done.out-IsTrie,
      done.out-Counted,
      done.out-count,
      λ key e.
          exists-has codec db n done.out.new [] key done.out-IsTrie e
          ∙ ap ok (done.out-has key e ∙ ap (λ b. b && not (contains_key keys key)) (same key e)),
    )
  where
    same : (key : Bytes) → length key ≡ n → has t [] key ≡ held key
    same key e = ground (arith, exists-has codec db n t [] key good e, stands key e)
