-- ===== src/Bytes/Range.antt =====
-- The half-open range from a prefix to `increment_vec_u8` of it, which every scan by prefix hands to
-- the database (storage/db/rocksdb.rs, storage/store/account/).
use hypersnap.Shared.{
  ℕ, ◌≤◌, ◌<◌, ◌≡◌, ◌≢◌, ◌↔◌, Ordering, true, false, [], ◌∷◌, length, arith, inl, inr, ◌⊎◌,
}
use hypersnap.Bytes.{Bytes, IsBytes, bytes_compare, increment_loop, increment_vec_u8}

abbrev pub StartsWith : Bytes → Bytes → Type 0
StartsWith [] k = Unit
StartsWith (b ∷ bs) [] = ⊥
StartsWith (b ∷ bs) (c ∷ cs) = (b ≡ c) × StartsWith bs cs

-- What an iterator with these bounds visits.
abbrev pub InRange : Bytes → Bytes → Bytes → Type 0
InRange lower upper k =
    (bytes_compare lower k ≢ Ordering.gt) × (bytes_compare k upper ≡ Ordering.lt)

carry_head :
    (b : ℕ) (bs : Bytes)
    → (increment_loop (b ∷ bs)).1 ≡ true
    → (b ≡ 255) × ((increment_loop bs).1 ≡ true)
unfolding increment_loop
carry_head b bs h = ground arith

-- What is not above a string starts equal to it or above it.
compare_heads :
    (b c : ℕ) (bs cs : Bytes)
    → bytes_compare (b ∷ bs) (c ∷ cs) ≢ Ordering.gt
    → (b < c) ⊎ ((b ≡ c) × (bytes_compare bs cs ≢ Ordering.gt))
unfolding bytes_compare
compare_heads b c bs cs h = ground arith

-- A string of bytes 255 is the last of its length: what is not below it starts with it.
last_StartsWith :
    (p k : Bytes)
    → (increment_loop p).1 ≡ true
    → IsBytes k
    → length p ≤ length k
    → bytes_compare p k ≢ Ordering.gt
    → StartsWith p k
last_StartsWith [] k carry bytes long le = tt
last_StartsWith (b ∷ bs) [] carry bytes long le = absurd (omega arith)
last_StartsWith (b ∷ bs) (c ∷ cs) carry bytes long le = elim (compare_heads b c bs cs le) [
  | inl lt ↦ absurd (omega (arith, (carry_head b bs carry).0, bytes.0))
  | inr (e, rest) ↦ (e, last_StartsWith bs cs (carry_head b bs carry).1 bytes.1 (omega arith) rest)
]

StartsWith-not_gt : (p k : Bytes) → StartsWith p k → bytes_compare p k ≢ Ordering.gt
unfolding bytes_compare
StartsWith-not_gt [] [] s = ground arith
StartsWith-not_gt [] (c ∷ cs) s = ground arith
StartsWith-not_gt (b ∷ bs) [] s = absurd s
StartsWith-not_gt (b ∷ bs) (c ∷ cs) s = ground (arith, s.0, StartsWith-not_gt bs cs s.1)

-- The string that the loop leaves with a carry is all zeros: nothing as long is below it.
zeros_least :
    (p k : Bytes)
    → (increment_loop p).1 ≡ true
    → length p ≤ length k
    → bytes_compare k (increment_loop p).0 ≢ Ordering.lt
unfolding increment_loop bytes_compare
zeros_least [] [] carry long = ground arith
zeros_least [] (c ∷ cs) carry long = ground arith
zeros_least (b ∷ bs) [] carry long = absurd (omega arith)
zeros_least (b ∷ bs) (c ∷ cs) carry long = ground (arith, zeros_least bs cs)

range-of_StartsWith :
    (p k : Bytes)
    → (increment_loop p).1 ≡ false
    → StartsWith p k
    → bytes_compare k (increment_loop p).0 ≡ Ordering.lt
unfolding increment_loop bytes_compare
range-of_StartsWith [] k carry s = cc
range-of_StartsWith (b ∷ bs) [] carry s = absurd s
range-of_StartsWith (b ∷ bs) (c ∷ cs) carry s = ground (arith, s.0, range-of_StartsWith bs cs)

StartsWith-of_range :
    (p k : Bytes)
    → (increment_loop p).1 ≡ false
    → IsBytes k
    → length p ≤ length k
    → bytes_compare p k ≢ Ordering.gt
    → bytes_compare k (increment_loop p).0 ≡ Ordering.lt
    → StartsWith p k
unfolding increment_loop bytes_compare
StartsWith-of_range [] k carry bytes long le below = cc
StartsWith-of_range (b ∷ bs) [] carry bytes long le below = absurd (omega arith)
StartsWith-of_range (b ∷ bs) (c ∷ cs) carry bytes long le below =
    ground (arith, StartsWith-of_range bs cs, last_StartsWith bs cs, zeros_least bs cs)

-- A scan from a prefix to its successor visits exactly the keys that start with the prefix. The
-- prefix must not be a string of bytes 255 (its successor is longer, and smaller), and the keys are
-- bytes and at least as long as the prefix: [2] lies between [1, 255] and [2, 0].
pub prefix_range_exact :
    (p k : Bytes)
    → (increment_loop p).1 ≡ false
    → IsBytes k
    → length p ≤ length k
    → InRange p (increment_vec_u8 p) k ↔ StartsWith p k
unfolding increment_vec_u8
prefix_range_exact p k carry bytes long = rw carry (
  (λ r. StartsWith-of_range p k carry bytes long r.0 r.1),
  (λ s. (StartsWith-not_gt p k s, range-of_StartsWith p k carry s)),
)
