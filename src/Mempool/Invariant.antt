-- ===== src/Mempool/Invariant.antt =====
-- The pools of the shards stay well-formed under the operations of src/mempool/mempool.rs.
use hypersnap.Shared.{
  ℕ, zero, suc, ◌≡◌, inl, inr, either, Option-cases, Result-cases, List, [], ◌∷◌, Option, none, ok,
  Error, hub, drop, All, All-drop, arith,
}
use hypersnap.Bytes.{Bytes}
use hypersnap.Proto.{Message}
use hypersnap.Proto.Blocks.{Transaction, ValidatorMessage}
use hypersnap.Mempool.{
  MempoolKey, MempoolMessage, mempool_key, message_mempool_key, validator_mempool_key,
}
use hypersnap.Mempool.Order.{eq_of_key_compare}
use hypersnap.Mempool.Pool.{Pool, insert, remove}
use hypersnap.Mempool.Pool.Laws.{Sorted, insert-Sorted, remove-Sorted}
use hypersnap.Mempool.Admission.{Node, Limits}
use hypersnap.Mempool.Pulling.{pull_messages_result}
use hypersnap.Mempool.Flow.{
  Mempool, MempoolSource, Pools, pool_of, set_pool, pool_or_empty, insert_into_shard,
  insert_into_shards, bump, admit, first_error, route_mempool_message, pull_messages,
  remove_user_messages, remove_system_messages, remove_transactions, remove_committed_txns,
}

module _ (hex : Bytes → Bytes) where
  -- Every message stands under its own key, and the keys ascend.
  abbrev pub Keyed : Pool → Type 0
  Keyed pool = All (λ e. mempool_key hex e.1 ≡ ok e.0) pool

  abbrev pub IsPool : Pool → Type 0
  IsPool pool = Sorted pool × Keyed pool

  abbrev pub ArePools : Pools → Type 0
  ArePools pools = All (λ e. IsPool e.1) pools

  pub set_pool-ArePools :
      (shard : ℕ) (pool : Pool) (pools : Pools)
      → IsPool pool
      → ArePools pools
      → ArePools (set_pool shard pool pools)
  unfolding set_pool
  set_pool-ArePools shard pool [] new old = (new, tt)
  set_pool-ArePools shard pool (e ∷ pools) new (first, rest) =
      ground (arith, set_pool-ArePools shard pool pools new rest, new, first, rest)

  pub pool_of-IsPool :
      (shard : ℕ) (pools : Pools) → ArePools pools → IsPool (pool_or_empty (pool_of shard pools))
  unfolding pool_of
  pool_of-IsPool shard [] h = (tt, tt)
  pool_of-IsPool shard (e ∷ pools) (first, rest) =
      ground (arith, pool_of-IsPool shard pools rest, first)

  insert-Keyed :
      (key : MempoolKey) (message : MempoolMessage) (pool : Pool)
      → mempool_key hex message ≡ ok key
      → Keyed pool
      → Keyed (insert key message pool)
  unfolding insert
  insert-Keyed key message [] h keyed = (h, tt)
  insert-Keyed key message ((k, m) ∷ pool) h (first, rest) =
      ground (arith, insert-Keyed key message pool h rest, eq_of_key_compare key k, h, first, rest)

  remove-Keyed : (key : MempoolKey) (pool : Pool) → Keyed pool → Keyed (remove key pool)
  unfolding remove
  remove-Keyed key [] keyed = tt
  remove-Keyed key ((k, m) ∷ pool) (first, rest) =
      ground (arith, remove-Keyed key pool rest, first, rest)

  remove-IsPool : (key : MempoolKey) (pool : Pool) → IsPool pool → IsPool (remove key pool)
  remove-IsPool key pool (sorted, keyed) =
      (remove-Sorted key pool sorted, remove-Keyed key pool keyed)

  drop-Sorted : (n : ℕ) (pool : Pool) → Sorted pool → Sorted (drop n pool)
  drop-Sorted zero pool sorted = sorted
  drop-Sorted (suc n) [] sorted = tt
  drop-Sorted (suc n) ((k, m) ∷ pool) (after, sorted) = drop-Sorted n pool sorted

  drop-IsPool : (n : ℕ) (pool : Pool) → IsPool pool → IsPool (drop n pool)
  drop-IsPool n pool (sorted, keyed) =
      (drop-Sorted n pool sorted, All-drop (λ e. mempool_key hex e.1 ≡ ok e.0) n pool keyed)

  insert_into_shard-ArePools :
      {L : Type 0} (node : Node L) (shard : ℕ) (message : MempoolMessage) (source : MempoolSource)
      (s : Mempool L)
      → ArePools s.messages
      → ArePools ((insert_into_shard hex node shard message source s).1).messages
  unfolding insert_into_shard
  insert_into_shard-ArePools node shard message source s h =
      let (sorted, keyed) = pool_of-IsPool shard s.messages h in
      let pool = pool_or_empty (pool_of shard s.messages) in
      elim (either (mempool_key hex message)) [
        | inr (e, none_such) ↦ ground (arith, h, none_such)
        | inl (key, eq) ↦ ground (
          arith,
          h,
          eq,
          set_pool-ArePools shard (insert key message pool) s.messages
              (insert-Sorted key message pool sorted, insert-Keyed key message pool eq keyed) h,
        )
      ]

  insert_into_shards-ArePools :
      {L : Type 0} (node : Node L) (shards : List ℕ) (message : MempoolMessage)
      (source : MempoolSource) (first : Option Error) (s : Mempool L)
      → ArePools s.messages
      → ArePools ((insert_into_shards hex node shards message source first s).1).messages
  unfolding insert_into_shards
  insert_into_shards-ArePools node [] message source first s h = h
  insert_into_shards-ArePools node (shard ∷ shards) message source first s h =
      let s' = (insert_into_shard hex node shard message source s).1 in
      let kept = insert_into_shard-ArePools node shard message source s h in
      elim (Result-cases (insert_into_shard hex node shard message source s).0) [
        | inl done ↦
            ground
              (arith, done, insert_into_shards-ArePools node shards message source first s' kept)
        | inr (inl dies) ↦ ground (arith, dies, kept)
        | inr (inr (code, text, fails)) ↦ ground (
          arith,
          fails,
          insert_into_shards-ArePools node shards message source (first_error first (hub code text))
              s' kept,
        )
      ]

  pub admit-ArePools :
      {L : Type 0} (node : Node L) (message : MempoolMessage) (source : MempoolSource)
      (s : Mempool L)
      → ArePools s.messages
      → ArePools ((admit hex node message source s).1).messages
  unfolding admit
  admit-ArePools node message source s h = elim (either (route_mempool_message hex node message)) [
    | inl (shards, eq) ↦
        ground (arith, eq, insert_into_shards-ArePools node shards message source none s h)
    | inr (e, eq) ↦ ground (arith, eq, h)
  ]

  remove_user_messages-IsPool :
      (messages : List Message) (pool rest : Pool)
      → IsPool pool
      → remove_user_messages hex messages pool ≡ ok rest
      → IsPool rest
  unfolding remove_user_messages
  remove_user_messages-IsPool [] pool rest is eq = ground (arith, is, eq)
  remove_user_messages-IsPool (message ∷ messages) pool rest is eq =
      elim (either (message_mempool_key hex message)) [
        | inl (key, found) ↦
            remove_user_messages-IsPool messages (remove key pool) rest (remove-IsPool key pool is)
              (ground (arith, found, eq))
        | inr (e, none_such) ↦ ground (arith, none_such, eq)
      ]

  module _ {L : Type 0} (node : Node L) where
    remove_system_messages-IsPool :
        (messages : List ValidatorMessage) (pool rest : Pool) (limits left : Limits L)
        → IsPool pool
        → remove_system_messages hex node messages pool limits ≡ ok (rest, left)
        → IsPool rest
    unfolding remove_system_messages
    remove_system_messages-IsPool [] pool rest limits left is eq = ground (arith, is, eq)
    remove_system_messages-IsPool (message ∷ messages) pool rest limits left is eq =
        elim (either (validator_mempool_key hex message)) [
          | inl (key, found) ↦
              remove_system_messages-IsPool messages (remove key pool) rest
                (bump hex node message.on_chain_event limits) left (remove-IsPool key pool is)
                (ground (arith, found, eq))
          | inr (e, none_such) ↦ ground (arith, none_such, eq)
        ]

    remove_transactions-IsPool :
        (transactions : List Transaction) (pool rest : Pool) (limits left : Limits L)
        → IsPool pool
        → remove_transactions hex node transactions pool limits ≡ ok (rest, left)
        → IsPool rest
    unfolding remove_transactions
    remove_transactions-IsPool [] pool rest limits left is eq = ground (arith, is, eq)
    remove_transactions-IsPool (transaction ∷ transactions) pool rest limits left is eq =
        elim (either (remove_user_messages hex transaction.user_messages pool)) [
          | inr (e, fails) ↦ ground (arith, fails, eq)
          | inl (first, users) ↦
              elim (either
                (remove_system_messages hex node transaction.system_messages first limits)) [
                  | inr (e, fails) ↦ ground (arith, users, fails, eq)
                  | inl ((second, used), systems) ↦
                      remove_transactions-IsPool transactions second rest used left
                        (remove_system_messages-IsPool transaction.system_messages first second
                          limits used
                          (remove_user_messages-IsPool transaction.user_messages pool first is
                            users)
                          systems)
                        (ground (arith, users, systems, eq))
                ]
        ]

    pub remove_committed_txns-ArePools :
        (shard : ℕ) (transactions : List Transaction) (s s' : Mempool L)
        → ArePools s.messages
        → remove_committed_txns hex node shard transactions s ≡ ok s'
        → ArePools s'.messages
    unfolding remove_committed_txns
    remove_committed_txns-ArePools shard transactions s s' h eq =
        elim (Option-cases (pool_of shard s.messages)) [
          | inl nothing ↦ ground (arith, nothing, eq, h)
          | inr (pool, there) ↦
              elim (either (remove_transactions hex node transactions pool s.limits)) [
                | inr (e, fails) ↦ ground (arith, there, fails, eq)
                | inl ((rest, left), works) ↦
                    let is : IsPool pool =
                      ground (arith, there, pool_of-IsPool shard s.messages h) in
                    ground (
                      arith,
                      there,
                      works,
                      eq,
                      set_pool-ArePools shard rest s.messages
                          (remove_transactions-IsPool transactions pool rest s.limits left is works)
                          h,
                    )
              ]
        ]

    pub pull_messages-ArePools :
        (shard max : ℕ) (messages : List MempoolMessage) (s s' : Mempool L)
        → ArePools s.messages
        → pull_messages hex node shard max s ≡ ok (messages, s')
        → ArePools s'.messages
    pull_messages-ArePools shard max messages s s' h eq =
        let (n, got, left, same) = pull_messages_result hex node shard max messages s s' eq in
        let pool = pool_or_empty (pool_of shard s.messages) in
        ground (
          arith,
          h,
          left,
          set_pool-ArePools shard (drop n pool) s.messages
              (drop-IsPool n pool (pool_of-IsPool shard s.messages h)) h,
        )
