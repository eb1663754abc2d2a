-- ===== src/Trie/Node/Counting/Main.antt =====
-- `insert` of src/storage/trie/trie_node.rs as a whole, and the numbers of keys in its nodes.
use mathlib.Core.Path.{subst}
use hypersnap.Shared.{
  ℕ, zero, suc, ◌+◌, ◌<◌, ◌≤◌, ◌≡◌, ◌≢◌, refl, sym, Bool, true, false, List, [], ◌∷◌, ◌++◌, Option,
  none, some, Result, ok, arith, length, leb, All, Bool-cases, inl, inr,
}
use hypersnap.Bytes.{Bytes}
use hypersnap.Database.{Database, Batch}
use hypersnap.Trie.{TrieError}
use hypersnap.Trie.Node.{
  TrieNode, node, Children, nil, child, TrieCodec, Hashes, put_to_txn, uncompacted_length,
}
use hypersnap.Trie.Node.Contents.{IsTrie, AreTries, IsUnder}
use hypersnap.Trie.Node.Insert.{
  Inserted, InsertCall, enumerate, falses, set_result, pop_key, insert, insert_leaf,
  insert_into_empty, insert_remaining, count_true,
}
use hypersnap.Trie.Node.Insert.Keys.{rests_of-enumerate, pop_key-All}
use hypersnap.Trie.Node.Insert.Rounds.{Inserts, update_hash_ok}
use hypersnap.Trie.Node.Insert.Main.{insert-Inserts}
use hypersnap.Trie.Node.Delete.Counts.{count, Counted}
use hypersnap.Trie.Node.Delete.Compacting.{count-inner}
use hypersnap.Trie.Node.Delete.Places.{
  vacancy, uses, uses-enumerate, uses-enumerate_below, length-set_result, length-falses,
  count_true-falses,
}
use hypersnap.Trie.Node.Counting.{Tally, Tallies, remaining-Tally}
use hypersnap.Trie.Node.Counting.Leaf.{beside-Tally}

length-pop_key : (first : Bytes) (keys : List Bytes) → length (pop_key first keys).0 ≡ length keys
unfolding pop_key
length-pop_key first [] = refl
length-pop_key first (next ∷ keys) = omega (arith, length-pop_key next keys)

vacancy-falses :
    (p : ℕ) (a b : List Bytes) → length a ≡ length b → vacancy p (falses a) ≡ vacancy p (falses b)
unfolding vacancy falses
vacancy-falses p [] [] h = refl
vacancy-falses p [] (y ∷ b) h = absurd (omega (arith, h))
vacancy-falses p (x ∷ a) [] h = absurd (omega (arith, h))
vacancy-falses zero (x ∷ a) (y ∷ b) h = refl
vacancy-falses (suc p) (x ∷ a) (y ∷ b) h = vacancy-falses p a b (omega (arith, h))

one_set :
    (first : Bytes) (keys : List Bytes) → count_true (set_result 0 true (falses (first ∷ keys))) ≡ 1
unfolding falses set_result count_true
one_set first keys = omega (arith, count_true-falses keys)

-- The places from 1 on are free when the first is taken.
room_after_first :
    (first : Bytes) (keys : List Bytes) (p : ℕ)
    → uses p (enumerate 1 (pop_key first keys).0)
      ≤ vacancy p (set_result 0 true (falses (first ∷ keys)))
unfolding set_result falses vacancy
room_after_first first keys zero =
    omega (arith, uses-enumerate_below 0 1 (pop_key first keys).0 (omega arith))
room_after_first first keys (suc p) = omega (
  arith,
  uses-enumerate p (suc p) 1 (pop_key first keys).0 (omega arith),
  vacancy-falses p (pop_key first keys).0 keys (length-pop_key first keys),
)

inner_tries :
    (n items : ℕ) (cs : Children) (own : Hashes) (prefix : Bytes)
    → IsTrie (suc n) prefix (node items cs own none)
    → AreTries n prefix cs
unfolding IsTrie
inner_tries n items nil own prefix good = tt
inner_tries n items (child c t cs) own prefix good = good

module _ (codec : TrieCodec) (db : Database) where
  empty-Tally :
      (n : ℕ) (call : InsertCall)
      → ((m : ℕ) → n ≡ suc m → Inserts m call)
      → ((m : ℕ) → n ≡ suc m → Tallies m call)
      → (items : ℕ) (hashes parent_hashes : Hashes) (txn : Batch) (prefix first : Bytes)
        (keys : List Bytes) (out : Inserted)
      → uncompacted_length ≤ length prefix
      → items ≡ 0
      → All (λ k. length k ≡ n) (first ∷ keys)
      → insert_into_empty codec db call items hashes parent_hashes txn prefix first keys ≡ ok out
      → Tally 1 (set_result 0 true (falses (first ∷ keys))) out
  unfolding insert_into_empty
  empty-Tally n call inserts tallies items hashes parent_hashes txn prefix first keys out deep
        none_yet long eq =
      let (others, last) = pop_key first keys in
      let (others_long, last_long) = pop_key-All n first keys long in
      let leaf = node (items + 1) nil hashes (some (prefix ++ last)) in
      let under : IsUnder n prefix (prefix ++ last) = record {
        rest = last;
        split = refl;
        remaining = last_long;
      } in
      let (updated, made) =
        update_hash_ok codec n prefix leaf parent_hashes (unfold IsTrie in (deep, under)) in
      beside-Tally codec db n call inserts tallies (items + 1) hashes updated
        (put_to_txn codec leaf txn prefix) prefix (prefix ++ last) (enumerate 1 others)
        (set_result 0 true (falses (first ∷ keys))) out deep under (omega (arith, none_yet))
        (subst (All (λ k. length k ≡ n)) (sym (rests_of-enumerate 1 others)) others_long)
        (room_after_first first keys) (ground (arith, made, eq))

  abbrev Tallied : TrieNode → List Bytes → Inserted → Type 0
  Tallied t keys out =
      Counted out.new
      × (count out.new ≡ count t + count_true out.results)
      × (length out.results ≡ length keys)

  tallied :
      (t : TrieNode) (keys : List Bytes) (out : Inserted)
      → Tally (count t) (falses keys) out
      → Tallied t keys out
  tallied t keys out (own, more, len) =
      (own, omega (arith, more, count_true-falses keys), omega (arith, len, length-falses keys))

  room_at_start : (keys : List Bytes) (p : ℕ) → uses p (enumerate 0 keys) ≤ vacancy p (falses keys)
  room_at_start keys p = uses-enumerate p p 0 keys (omega arith)

  leaf-Tallied :
      (n : ℕ) (call : InsertCall)
      → ((m : ℕ) → n ≡ suc m → Inserts m call)
      → ((m : ℕ) → n ≡ suc m → Tallies m call)
      → (items : ℕ) (own : Hashes) (key : Option Bytes) (hashes : Hashes) (txn : Batch)
        (prefix first : Bytes) (keys : List Bytes) (out : Inserted)
      → uncompacted_length ≤ length prefix
      → IsTrie n prefix (node items nil own key)
      → Counted (node items nil own key)
      → All (λ k. length k ≡ n) (first ∷ keys)
      → insert_leaf codec db call items own key hashes txn prefix first keys ≡ ok out
      → Tallied (node items nil own key) (first ∷ keys) out
  unfolding insert_leaf IsTrie Counted count
  leaf-Tallied n call inserts tallies items own none hashes txn prefix first keys out deep good
        counted long eq =
      let (new-Counted, more, len) =
        empty-Tally n call inserts tallies items own hashes txn prefix first keys out deep counted.0
          long eq in
      (
        new-Counted,
        omega (arith, more, one_set first keys),
        omega (
          arith,
          len,
          length-set_result 0 true (falses (first ∷ keys)),
          length-falses (first ∷ keys),
        ),
      )
  leaf-Tallied n call inserts tallies items own (some key) hashes txn prefix first keys out deep
        good counted long eq =
      tallied (node items nil own (some key)) (first ∷ keys) out (
        beside-Tally codec db n call inserts tallies items own hashes txn prefix key
          (enumerate 0 (first ∷ keys)) (falses (first ∷ keys)) out deep good.1 counted.0
          (subst (All (λ k. length k ≡ n)) (sym (rests_of-enumerate 0 (first ∷ keys))) long)
          (room_at_start (first ∷ keys)) eq)

  inner-Tallied :
      (n : ℕ) (call : InsertCall)
      → Inserts n call
      → Tallies n call
      → (items : ℕ) (cs : Children) (own hashes : Hashes) (txn : Batch) (prefix first : Bytes)
        (keys : List Bytes) (out : Inserted)
      → uncompacted_length ≤ length prefix + suc n
      → IsTrie (suc n) prefix (node items cs own none)
      → Counted (node items cs own none)
      → All (λ k. length k ≡ suc n) (first ∷ keys)
      → insert_remaining codec db call
          (node items cs own none)
          hashes
          txn
          prefix
          (enumerate 0 (first ∷ keys))
          (falses (first ∷ keys))
        ≡ ok out
      → Tallied (node items cs own none) (first ∷ keys) out
  inner-Tallied n call inserts tallies items cs own hashes txn prefix first keys out deep good
        counted long eq =
      tallied (node items cs own none) (first ∷ keys) out (
        subst (λ c. Tally c (falses (first ∷ keys)) out) (sym (count-inner items cs own))
          (remaining-Tally codec db n prefix call inserts tallies deep items cs own hashes txn
            (enumerate 0 (first ∷ keys)) (falses (first ∷ keys)) out
            (inner_tries n items cs own prefix good) counted
            (subst (All (λ k. length k ≡ suc n)) (sym (rests_of-enumerate 0 (first ∷ keys))) long)
            (room_at_start (first ∷ keys)) eq))

  shallow-Tallied :
      (n : ℕ) (call : InsertCall)
      → ((m : ℕ) → n ≡ suc m → Inserts m call)
      → ((m : ℕ) → n ≡ suc m → Tallies m call)
      → (items : ℕ) (own : Hashes) (key : Option Bytes) (hashes : Hashes) (txn : Batch)
        (prefix first : Bytes) (keys : List Bytes) (out : Inserted)
      → leb uncompacted_length (length prefix) ≡ false
      → uncompacted_length ≤ length prefix + n
      → IsTrie n prefix (node items nil own key)
      → Counted (node items nil own key)
      → All (λ k. length k ≡ n) (first ∷ keys)
      → insert_remaining codec db call
          (node items nil own key)
          hashes
          txn
          prefix
          (enumerate 0 (first ∷ keys))
          (falses (first ∷ keys))
        ≡ ok out
      → Tallied (node items nil own key) (first ∷ keys) out
  unfolding IsTrie
  shallow-Tallied zero call inserts tallies items own key hashes txn prefix first keys out shallow
        deep good counted long eq =
      absurd (ground (arith, shallow))
  shallow-Tallied (suc n) call inserts tallies items own (some key) hashes txn prefix first keys out
        shallow deep good counted long eq =
      absurd (ground (arith, shallow, good.0))
  shallow-Tallied (suc n) call inserts tallies items own none hashes txn prefix first keys out
        shallow deep good counted long eq =
      inner-Tallied n call (inserts n refl) (tallies n refl) items nil own hashes txn prefix first
        keys out deep good counted long eq

  pub insert-Tallies : (fuel n : ℕ) → n < fuel → Tallies n (insert codec db fuel)
  unfolding insert IsTrie
  insert-Tallies zero n h t hashes txn prefix keys out good counted deep some_keys long eq =
      absurd (omega arith)
  insert-Tallies (suc fuel) n h t hashes txn prefix [] out good counted deep some_keys long eq =
      absurd (some_keys refl)
  insert-Tallies (suc fuel) zero h (node items (child c u cs) own key) hashes txn prefix
        (first ∷ keys) out good counted deep some_keys long eq =
      absurd good
  insert-Tallies (suc fuel) (suc n) h (node items (child c u cs) own (some key)) hashes txn prefix
        (first ∷ keys) out good counted deep some_keys long eq =
      absurd good
  insert-Tallies (suc fuel) (suc n) h (node items (child c u cs) own none) hashes txn prefix
        (first ∷ keys) out good counted deep some_keys long eq =
      inner-Tallied n (insert codec db fuel) (insert-Inserts codec db fuel n (omega arith))
        (insert-Tallies fuel n (omega arith)) items (child c u cs) own hashes txn prefix first keys
        out deep good counted long eq
  insert-Tallies (suc fuel) n h (node items nil own key) hashes txn prefix (first ∷ keys) out good
        counted deep some_keys long eq =
      elim (Bool-cases (leb uncompacted_length (length prefix))) [
        | inl far ↦
            leaf-Tallied n below inserts (λ m e. insert-Tallies fuel m (omega (arith, e))) items own
              key hashes txn prefix first keys out (ground (arith, far)) good counted long
              (subst (λ b. choice b ≡ ok out) far eq)
        | inr shallow ↦
            shallow-Tallied n below inserts (λ m e. insert-Tallies fuel m (omega (arith, e))) items
              own key hashes txn prefix first keys out shallow deep good counted long
              (subst (λ b. choice b ≡ ok out) shallow eq)
      ]
    where
      below : InsertCall
      below = insert codec db fuel

      inserts : (m : ℕ) → n ≡ suc m → Inserts m below
      inserts m e = insert-Inserts codec db fuel m (omega (arith, e))

      choice : Bool → Result TrieError Inserted
      choice b = elim b [
        | true ↦ insert_leaf codec db below items own key hashes txn prefix first keys
        | false ↦
            insert_remaining codec db below (node items nil own key) hashes txn prefix
              (enumerate 0 (first ∷ keys)) (falses (first ∷ keys))
      ]

-- Into a trie in memory whose numbers of keys are right, an insert of at least one key, all of n
-- characters (n at least 12), with fuel above n, succeeds; the numbers of keys of the new trie are
-- right, and it counts one more key for each `true` of the results.
pub insert-Counted :
    (codec : TrieCodec) (db : Database) (fuel n : ℕ) (t : TrieNode) (hashes : Hashes) (txn : Batch)
    (keys : List Bytes)
    → n < fuel
    → uncompacted_length ≤ n
    → keys ≢ []
    → All (λ k. length k ≡ n) keys
    → IsTrie n [] t
    → Counted t
    → (out : Inserted) × (insert codec db fuel t hashes txn [] keys ≡ ok out)
      × IsTrie n [] out.new
      × Counted out.new
      × (count out.new ≡ count t + count_true out.results)
insert-Counted codec db fuel n t hashes txn keys enough deep some_keys long good counted =
    let done =
      insert-Inserts codec db fuel n enough t hashes txn [] keys good (omega (arith, deep))
        some_keys long in
    let (new-Counted, more, len) =
      insert-Tallies codec db fuel n enough t hashes txn [] keys done.out good counted
        (omega (arith, deep)) some_keys long done.returns in
    (done.out, done.returns, done.out-IsTrie, new-Counted, more)
