-- ===== src/Mempool/Runs.antt =====
-- Sequences of the operations of src/mempool/mempool.rs, in any order and with any answers of the stores and the
-- limiters: what holds of every mempool that they reach.
use hypersnap.Shared.{
  ℕ, zero, suc, ◌<◌, ◌≡◌, ◌⊎◌, refl, compare, inl, inr, List, [], ◌∷◌, Result, ok, err, Error,
  Ordering, take, All, All-take, Result-cases, arith,
}
use hypersnap.Bytes.{Bytes, bytes_compare}
use hypersnap.Proto.Blocks.{Transaction}
use hypersnap.Mempool.{
  MempoolKey, MempoolMessage, MempoolMessageKind, validator_message, user_message_kind, kind_number,
  mempool_key, key_compare,
}
use hypersnap.Mempool.Pool.{Pool}
use hypersnap.Mempool.Pool.Laws.{Sorted, After}
use hypersnap.Mempool.Admission.{Node, Limits, is_current}
use hypersnap.Mempool.Flow.{
  Mempool, MempoolSource, pool_of, pool_or_empty, admit, pull_messages, remove_committed_txns,
}
use hypersnap.Mempool.Invariant.{
  ArePools, IsPool, Keyed, admit-ArePools, pull_messages-ArePools, remove_committed_txns-ArePools,
  pool_of-IsPool,
}
use hypersnap.Mempool.Pulling.{pull_messages_result, current_messages, keep}

module _ (hex : Bytes → Bytes) where
  module _ {L : Type 0} where
    -- An operation, with the node as it is at that time.
    pub data Step : Mempool L → Mempool L → Type 0 where
      admitted :
          (node : Node L) (message : MempoolMessage) (source : MempoolSource) (s : Mempool L)
          → Step s (admit hex node message source s).1
      pulled :
          (node : Node L) (shard max : ℕ) (messages : List MempoolMessage) (s s' : Mempool L)
          → pull_messages hex node shard max s ≡ ok (messages, s')
          → Step s s'
      committed :
          (node : Node L) (shard : ℕ) (transactions : List Transaction) (s s' : Mempool L)
          → remove_committed_txns hex node shard transactions s ≡ ok s'
          → Step s s'

    pub data Reachable : Mempool L → Type 0 where
      start :
          (limits : Limits L) (sent : List MempoolMessage)
          → Reachable (record { messages = []; limits = limits; gossiped = sent })
      step : (s s' : Mempool L) → Reachable s → Step s s' → Reachable s'

  Step-ArePools :
      {L : Type 0} (s s' : Mempool L)
      → ArePools hex s.messages
      → Step s s'
      → ArePools hex s'.messages
  Step-ArePools before after h (admitted node message source s) =
      admit-ArePools hex node message source s h
  Step-ArePools before after h (pulled node shard max messages s s' eq) =
      pull_messages-ArePools hex node shard max messages s s' h eq
  Step-ArePools before after h (committed node shard transactions s s' eq) =
      remove_committed_txns-ArePools hex node shard transactions s s' h eq

  -- Whatever messages are admitted, pulled and committed, in whatever order and with whatever
  -- answers of the stores and the limiters: in the pool of every shard each message stands under
  -- its own key, and the keys ascend.
  pub Reachable-ArePools : {L : Type 0} (s : Mempool L) → Reachable s → ArePools hex s.messages
  Reachable-ArePools after (start limits sent) = tt
  Reachable-ArePools after (step s s' reachable last) =
      Step-ArePools s s' (Reachable-ArePools s reachable) last

  -- A message of a validator comes before one of a user; of one kind the smaller timestamp comes first,
  -- and of one timestamp the smaller identity.
  abbrev pub Precedes : MempoolKey → MempoolKey → Type 0
  Precedes a b =
      ((a.message_kind ≡ validator_message) × (b.message_kind ≡ user_message_kind))
      ⊎ ((a.message_kind ≡ b.message_kind)
          × ((a.timestamp < b.timestamp)
              ⊎ ((a.timestamp ≡ b.timestamp)
                  × (bytes_compare a.identity b.identity ≡ Ordering.lt))))

  kinds :
      (k j : MempoolMessageKind)
      → ((k ≡ validator_message)
          × (j ≡ user_message_kind)
          × (compare (kind_number k) (kind_number j) ≡ Ordering.lt))
        ⊎ (((k ≡ j) × (compare (kind_number k) (kind_number j) ≡ Ordering.eq))
            ⊎ (compare (kind_number k) (kind_number j) ≡ Ordering.gt))
  unfolding kind_number
  kinds validator_message validator_message = inr (inl (refl, refl))
  kinds validator_message user_message_kind = inl (refl, refl, refl)
  kinds user_message_kind validator_message = inr (inr refl)
  kinds user_message_kind user_message_kind = inr (inl (refl, refl))

  key_compare-Precedes : (a b : MempoolKey) → key_compare a b ≡ Ordering.lt → Precedes a b
  unfolding key_compare
  key_compare-Precedes a b h = ground (arith, kinds a.message_kind b.message_kind)

  -- The one stands before the other in the order of the keys.
  abbrev pub Before : MempoolMessage → MempoolMessage → Type 0
  Before message later =
      (key : MempoolKey) × (key' : MempoolKey) × (mempool_key hex message ≡ ok key)
      × (mempool_key hex later ≡ ok key')
      × Precedes key key'

  abbrev pub InOrder : List MempoolMessage → Type 0
  InOrder [] = Unit
  InOrder (message ∷ messages) = All (Before message) messages × InOrder messages

  keep-All :
      (P : MempoolMessage → Type 0) (r : Result Error (Unit {0})) (message : MempoolMessage)
      (messages : List MempoolMessage)
      → P message
      → All P messages
      → All P (keep r message messages)
  keep-All P (ok done) message messages here others = (here, others)
  keep-All P (err e) message messages here others = others

  keep-InOrder :
      (r : Result Error (Unit {0})) (message : MempoolMessage) (messages : List MempoolMessage)
      → All (Before message) messages
      → InOrder messages
      → InOrder (keep r message messages)
  keep-InOrder (ok done) message messages before ordered = (before, ordered)
  keep-InOrder (err e) message messages before ordered = ordered

  take-Sorted : (n : ℕ) (pool : Pool) → Sorted pool → Sorted (take n pool)
  take-Sorted zero pool sorted = tt
  take-Sorted (suc n) [] sorted = tt
  take-Sorted (suc n) ((k, m) ∷ pool) (after, sorted) =
      (All-take (λ e. key_compare k e.0 ≡ Ordering.lt) n pool after, take-Sorted n pool sorted)

  module _ {L : Type 0} (node : Node L) (shard : ℕ) where
    current_messages-Current :
        (pool : Pool)
        → All (λ m. is_current node shard m ≡ ok tt) (current_messages hex node shard pool)
    unfolding current_messages
    current_messages-Current [] = tt
    current_messages-Current ((k, m) ∷ pool) = elim (Result-cases (is_current node shard m)) [
      | inl current ↦ ground (arith, current, current_messages-Current pool)
      | inr (inl dies) ↦ ground (arith, dies, current_messages-Current pool)
      | inr (inr (code, text, gone)) ↦ ground (arith, gone, current_messages-Current pool)
    ]

    current_messages-Before :
        (key : MempoolKey) (message : MempoolMessage) (pool : Pool)
        → mempool_key hex message ≡ ok key
        → After key pool
        → Keyed hex pool
        → All (Before message) (current_messages hex node shard pool)
    unfolding current_messages
    current_messages-Before key message [] h after keyed = tt
    current_messages-Before key message ((k, m) ∷ pool) h (first, rest) (own, keyed) =
        keep-All (Before message) (is_current node shard m) m (current_messages hex node shard pool)
          (key, k, h, own, key_compare-Precedes key k first)
          (current_messages-Before key message pool h rest keyed)

    current_messages-InOrder :
        (pool : Pool) → IsPool hex pool → InOrder (current_messages hex node shard pool)
    unfolding current_messages
    current_messages-InOrder [] is = tt
    current_messages-InOrder ((k, m) ∷ pool) ((after, sorted), (own, keyed)) =
        keep-InOrder (is_current node shard m) m (current_messages hex node shard pool)
          (current_messages-Before k m pool own after keyed)
          (current_messages-InOrder pool (sorted, keyed))

  -- The messages that are pulled from a mempool that was reached by admissions, pulls and commits
  -- ascend strictly in the order of their keys (messages of validators before those of users, and
  -- of one kind those with the smaller timestamp in their key first, then by identity), each passes
  -- the checks at that time, and no token of the limiters is taken.
  pub pull_messages-InOrder :
      {L : Type 0} (node : Node L) (shard max : ℕ) (messages : List MempoolMessage)
      (s s' : Mempool L)
      → Reachable s
      → pull_messages hex node shard max s ≡ ok (messages, s')
      → InOrder messages
        × All (λ m. is_current node shard m ≡ ok tt) messages
        × (s'.limits ≡ s.limits)
  pull_messages-InOrder node shard max messages s s' reachable eq =
      let (n, got, left, same) = pull_messages_result hex node shard max messages s s' eq in
      let pool = pool_or_empty (pool_of shard s.messages) in
      let (sorted, keyed) = pool_of-IsPool hex shard s.messages (Reachable-ArePools s reachable) in
      (
        rw got (
            current_messages-InOrder node shard (take n pool) (
              take-Sorted n pool sorted,
              All-take (λ e. mempool_key hex e.1 ≡ ok e.0) n pool keyed,
            )),
        rw got (current_messages-Current node shard (take n pool)),
        same,
      )
