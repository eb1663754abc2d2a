-- ===== src/Mempool/Pulling.antt =====
-- What a proposer gets: `pull_messages` of src/mempool/mempool.rs.
use hypersnap.Shared.{
  ℕ, suc, ◌+◌, ◌≤◌, ◌≡◌, ◌≢◌, ◌⊎◌, inl, inr, refl, ap, true, false, List, [], ◌∷◌, ◌++◌, some,
  Result, ok, err, Error, hub, panic, length, take, drop, All, arith, ltb, length-append, ltb→lt,
  append-nil, append_assoc, String, Bool-cases, Option-cases, either, Result-cases, sym,
}
use hypersnap.Bytes.{Bytes}
use hypersnap.Mempool.{MempoolMessage, MempoolKey}
use hypersnap.Mempool.Pool.{Pool}
use hypersnap.Mempool.Admission.{Node, Limits, is_current, message_is_valid}
use hypersnap.Mempool.Flow.{
  Mempool, Pools, pool_or_empty, pool_of, set_pool, pull_loop, pull_messages,
}

pub pool_of-set_pool :
    (shard : ℕ) (pool : Pool) (pools : Pools)
    → pool_of shard (set_pool shard pool pools) ≡ some pool
unfolding pool_of set_pool
pool_of-set_pool shard pool [] = ground arith
pool_of-set_pool shard pool ((s, old) ∷ pools) = ground (arith, pool_of-set_pool shard pool pools)

abbrev pub keep :
    Result Error (Unit {0}) → MempoolMessage → List MempoolMessage → List MempoolMessage
keep (ok _) message messages = message ∷ messages
keep (err e) message messages = messages

module _ {L : Type 0} (hex : Bytes → Bytes) (node : Node L) (shard : ℕ) where
  -- The messages of a pool, or of a part of it, that still may be merged, in the order of the pool.
  unfoldable pub current_messages : Pool → List MempoolMessage
  current_messages [] = []
  current_messages ((key, message) ∷ pool) =
      keep (is_current node shard message) message (current_messages pool)

  -- No check of a message of the pool panics.
  abbrev pub Checkable : Pool → Type 0
  Checkable pool = All (λ e. is_current node shard e.1 ≢ err panic) pool

  -- What taking the first entries of a pool gives: the messages, the rest, and why the loop stopped.
  abbrev pub Stops : ℕ → ℕ → Pool → Type 0
  Stops max n pool =
      (length (current_messages (take n pool)) ≤ max)
      × ((length (current_messages (take n pool)) ≡ max) ⊎ (drop n pool ≡ []))

  pub current_messages-append :
      (xs ys : Pool) → current_messages (xs ++ ys) ≡ current_messages xs ++ current_messages ys
  unfolding current_messages
  current_messages-append [] ys = refl
  current_messages-append ((key, message) ∷ xs) ys = ground (arith, current_messages-append xs ys)

  module _ (max : ℕ) (limits : Limits L) (messages : List MempoolMessage) where
    pull_loop_full :
        (pool : Pool)
        → ltb (length messages) max ≡ false
        → pull_loop hex node shard max limits messages pool ≡ ok (messages, pool, limits)
    unfolding pull_loop
    pull_loop_full [] full = refl
    pull_loop_full (e ∷ pool) full = ground (arith, full)

    pull_loop_kept :
        (key : MempoolKey) (next : MempoolMessage) (pool : Pool)
        → ltb (length messages) max ≡ true
        → is_current node shard next ≡ ok tt
        → pull_loop hex node shard max limits messages ((key, next) ∷ pool)
          ≡ pull_loop hex node shard max limits (messages ++ next ∷ []) pool
    unfolding pull_loop message_is_valid
    pull_loop_kept key next pool more current = ground (arith, more, current)

    pull_loop_dropped :
        (key : MempoolKey) (next : MempoolMessage) (pool : Pool) (code text : String)
        → ltb (length messages) max ≡ true
        → is_current node shard next ≡ err (hub code text)
        → pull_loop hex node shard max limits messages ((key, next) ∷ pool)
          ≡ pull_loop hex node shard max limits messages pool
    unfolding pull_loop message_is_valid
    pull_loop_dropped key next pool code text more gone = ground (arith, more, gone)

  pull_loop_takes :
      (max : ℕ) (limits : Limits L) (messages : List MempoolMessage) (pool : Pool)
      → length messages ≤ max
      → Checkable pool
      → (n : ℕ) × (pull_loop hex node shard max limits messages pool
          ≡ ok (messages ++ current_messages (take n pool), drop n pool, limits))
        × (length messages + length (current_messages (take n pool)) ≤ max)
        × ((length messages + length (current_messages (take n pool)) ≡ max) ⊎ (drop n pool ≡ []))
  unfolding current_messages
  pull_loop_takes max limits messages [] few h = (
    0,
    unfold pull_loop in ap (λ l. ok (l, [], limits)) (sym (append-nil messages)),
    omega arith,
    inr refl,
  )
  pull_loop_takes max limits messages ((key, next) ∷ pool) few (first, rest) =
      elim (Bool-cases (ltb (length messages) max)) [
        | inr full ↦ (
          0,
          ground (
            arith,
            pull_loop_full max limits messages ((key, next) ∷ pool) full,
            append-nil messages,
          ),
          omega arith,
          inl (ground (arith, full, few)),
        )
        | inl more ↦ elim (Result-cases (is_current node shard next)) [
          | inr (inl dies) ↦ elim (first dies) [ ]
          | inl current ↦
              let (n, result, low, why) =
                pull_loop_takes max limits (messages ++ next ∷ []) pool
                  (omega (arith, ltb→lt, more, length-append messages (next ∷ []))) rest in
              (
                suc n,
                ground (
                  arith,
                  current,
                  result,
                  pull_loop_kept max limits messages key next pool more current,
                  append_assoc messages (next ∷ []) (current_messages (take n pool)),
                ),
                ground (arith, current, low, length-append messages (next ∷ [])),
                ground (arith, current, why, length-append messages (next ∷ [])),
              )
          | inr (inr (code, text, gone)) ↦
              let (n, result, low, why) = pull_loop_takes max limits messages pool few rest in
              (
                suc n,
                ground (
                  arith,
                  gone,
                  result,
                  pull_loop_dropped max limits messages key next pool code text more gone,
                ),
                ground (arith, gone, low),
                ground (arith, gone, why),
              )
        ]
      ]

  -- Where no check of a message in the pool of a shard panics, a request for messages succeeds: it
  -- takes the first n entries of the pool, for some n, gives those of their messages that pass the
  -- checks without the rate limits, in the order of the pool, and leaves the other entries, the
  -- other pools and the limiters as they are. It gives at most the number that was asked for, and
  -- fewer only when the pool has run empty.
  pub pull_messages_takes :
      (max : ℕ) (s : Mempool L) (pool : Pool)
      → pool_of shard s.messages ≡ some pool
      → Checkable pool
      → (n : ℕ) × (pull_messages hex node shard max s
          ≡ ok (
            current_messages (take n pool),
            record s { messages = set_pool shard (drop n pool) s.messages },
          ))
        × (length (current_messages (take n pool)) ≤ max)
        × ((length (current_messages (take n pool)) ≡ max) ⊎ (drop n pool ≡ []))
  unfolding pull_messages
  pull_messages_takes max s pool there h =
      let (n, result, few, why) = pull_loop_takes max s.limits [] pool (omega arith) h in
      (n, ground (arith, there, result), ground (arith, few), ground (arith, why))

  pull_loop_end :
      (max : ℕ) (limits left : Limits L) (messages got : List MempoolMessage) (rest : Pool)
      → pull_loop hex node shard max limits messages [] ≡ ok (got, rest, left)
      → (got ≡ messages ++ []) × (rest ≡ []) × (left ≡ limits)
  unfolding pull_loop
  pull_loop_end max limits left messages got rest eq = ground (arith, eq, append-nil messages)

  -- When the loop returns, it has taken some of the first entries.
  pull_loop_result :
      (max : ℕ) (limits left : Limits L) (messages got : List MempoolMessage) (pool rest : Pool)
      → pull_loop hex node shard max limits messages pool ≡ ok (got, rest, left)
      → (n : ℕ) × (got ≡ messages ++ current_messages (take n pool))
        × (rest ≡ drop n pool)
        × (left ≡ limits)
  unfolding current_messages
  pull_loop_result max limits left messages got [] rest eq =
      let (taken, left_over, same) = pull_loop_end max limits left messages got rest eq in
      (0, taken, left_over, same)
  pull_loop_result max limits left messages got ((key, next) ∷ pool) rest eq =
      elim (Bool-cases (ltb (length messages) max)) [
        | inr full ↦
            let full_loop = pull_loop_full max limits messages ((key, next) ∷ pool) full in
            (
              0,
              ground (arith, eq, full_loop, append-nil messages),
              ground (arith, eq, full_loop),
              ground (arith, eq, full_loop),
            )
        | inl more ↦ elim (Result-cases (is_current node shard next)) [
          | inr (inl dies) ↦ unfold pull_loop message_is_valid in ground (arith, more, dies, eq)
          | inl current ↦
              let (n, taken, left_over, same) =
                pull_loop_result max limits left (messages ++ next ∷ []) got pool rest (
                  ground
                    (arith, eq, pull_loop_kept max limits messages key next pool more current)) in
              (
                suc n,
                ground (
                  arith,
                  current,
                  taken,
                  append_assoc messages (next ∷ []) (current_messages (take n pool)),
                ),
                left_over,
                same,
              )
          | inr (inr (code, text, gone)) ↦
              let (n, taken, left_over, same) =
                pull_loop_result max limits left messages got pool rest (
                  ground (
                    arith,
                    eq,
                    pull_loop_dropped max limits messages key next pool code text more gone,
                  )) in
              (suc n, ground (arith, gone, taken), left_over, same)
        ]
      ]

  pub pull_messages_result :
      (max : ℕ) (got : List MempoolMessage) (s s' : Mempool L)
      → pull_messages hex node shard max s ≡ ok (got, s')
      → (n : ℕ) × (got ≡ current_messages (take n (pool_or_empty (pool_of shard s.messages))))
        × ((s'.messages ≡ s.messages)
            ⊎ (s'.messages
                ≡ set_pool shard (drop n (pool_or_empty (pool_of shard s.messages))) s.messages))
        × (s'.limits ≡ s.limits)
  unfolding pull_messages current_messages
  pull_messages_result max got s s' eq = elim (Option-cases (pool_of shard s.messages)) [
    | inl nothing ↦ (
      0,
      ground (arith, nothing, eq),
      inl (ground (arith, nothing, eq)),
      ground (arith, nothing, eq),
    )
    | inr (pool, there) ↦ elim (either (pull_loop hex node shard max s.limits [] pool)) [
      | inr (e, fails) ↦ ground (arith, there, fails, eq)
      | inl ((messages, rest, left), works) ↦
          let (n, taken, left_over, same) =
            pull_loop_result max s.limits left [] messages pool rest works in
          (
            n,
            ground (arith, there, works, eq, taken),
            inr (ground (arith, there, works, eq, left_over)),
            ground (arith, there, works, eq, same),
          )
    ]
  ]
