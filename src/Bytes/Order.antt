-- ===== src/Bytes/Order.antt =====
-- `bytes_compare` of src/storage/util.rs is a total order: the lexicographic one, a proper prefix
-- being the smaller.
use hypersnap.Shared.{◌≡◌, refl, Ordering, [], ◌∷◌, ◌++◌, arith, ◌↔◌}
use hypersnap.Bytes.{Bytes, bytes_compare}

-- The result for the arguments exchanged.
abbrev pub opposite : Ordering → Ordering
opposite Ordering.lt = Ordering.gt
opposite Ordering.eq = Ordering.eq
opposite Ordering.gt = Ordering.lt

pub bytes_compare_refl : (a : Bytes) → bytes_compare a a ≡ Ordering.eq
unfolding bytes_compare
bytes_compare_refl [] = refl
bytes_compare_refl (x ∷ xs) = ground (arith, bytes_compare_refl xs)

pub eq_of_bytes_compare : (a b : Bytes) → bytes_compare a b ≡ Ordering.eq → a ≡ b
unfolding bytes_compare
eq_of_bytes_compare [] [] h = refl
eq_of_bytes_compare [] (y ∷ ys) h = cc
eq_of_bytes_compare (x ∷ xs) [] h = cc
eq_of_bytes_compare (x ∷ xs) (y ∷ ys) h = ground (arith, eq_of_bytes_compare xs ys)

pub bytes_compare_swap : (a b : Bytes) → bytes_compare b a ≡ opposite (bytes_compare a b)
unfolding bytes_compare
bytes_compare_swap [] [] = refl
bytes_compare_swap [] (y ∷ ys) = refl
bytes_compare_swap (x ∷ xs) [] = refl
bytes_compare_swap (x ∷ xs) (y ∷ ys) = ground (arith, bytes_compare_swap xs ys)

pub bytes_compare_trans :
    (a b c : Bytes)
    → bytes_compare a b ≡ Ordering.lt
    → bytes_compare b c ≡ Ordering.lt
    → bytes_compare a c ≡ Ordering.lt
unfolding bytes_compare
bytes_compare_trans [] [] c p q = cc
bytes_compare_trans [] (y ∷ ys) [] p q = cc
bytes_compare_trans [] (y ∷ ys) (z ∷ zs) p q = refl
bytes_compare_trans (x ∷ xs) [] c p q = cc
bytes_compare_trans (x ∷ xs) (y ∷ ys) [] p q = cc
bytes_compare_trans (x ∷ xs) (y ∷ ys) (z ∷ zs) p q = ground (arith, bytes_compare_trans xs ys zs)

-- A common prefix does not count.
pub bytes_compare-append_left :
    (p a b : Bytes) → bytes_compare (p ++ a) (p ++ b) ≡ bytes_compare a b
unfolding bytes_compare
bytes_compare-append_left [] a b = refl
bytes_compare-append_left (x ∷ p) a b = ground (arith, bytes_compare-append_left p a b)

-- `bytes_compare` is a total order on byte strings: it returns 0 exactly on equal strings,
-- exchanging the arguments negates it, and "smaller" is transitive.
pub bytes_compare_order :
    (a b c : Bytes)
    → ((bytes_compare a b ≡ Ordering.eq) ↔ (a ≡ b))
      × (bytes_compare b a ≡ opposite (bytes_compare a b))
      × (bytes_compare a b ≡ Ordering.lt
          → bytes_compare b c ≡ Ordering.lt
          → bytes_compare a c ≡ Ordering.lt)
bytes_compare_order a b c = (
  (eq_of_bytes_compare a b, λ e. rw e (bytes_compare_refl b)),
  bytes_compare_swap a b,
  bytes_compare_trans a b c,
)
