-- ===== src/Bytes/Value.antt =====
-- The big-endian number of a byte string, and the steps of src/storage/util.rs as arithmetic on it.
use native.Mathlib.Nat.{pow-suc}
use hypersnap.Shared.{
  ℕ, zero, suc, ◌+◌, ◌-◌, ◌*◌, ◌^◌, ◌<◌, ◌≡◌, refl, ap, true, [], ◌∷◌, length, arith, Bool-cases,
  inl, inr, if◌then◌else◌,
}
use hypersnap.Bytes.{
  Bytes, IsBytes, increment_loop, increment_vec_u8, decrement_loop, decrement_vec_u8,
}

abbrev pub be_value : Bytes → ℕ
be_value [] = 0
be_value (b ∷ bs) = b * 256 ^ length bs + be_value bs

pub length-increment_loop : (v : Bytes) → length (increment_loop v).0 ≡ length v
unfolding increment_loop
length-increment_loop [] = refl
length-increment_loop (b ∷ bs) = ground (arith, length-increment_loop bs)

-- The number of a string that the loop leaves, with the carry as one more digit.
increment_loop_value :
    (v : Bytes)
    → IsBytes v
    → be_value (increment_loop v).0 + (if (increment_loop v).1 then 256 ^ length v else 0)
      ≡ be_value v + 1
unfolding increment_loop
increment_loop_value [] h = omega arith
increment_loop_value (b ∷ bs) h = ground (
  arith,
  increment_loop_value bs h.1,
  ap (λ n. 256 ^ n) (length-increment_loop bs),
  pow-suc 256 (length bs),
)

-- The successor of a byte string denotes the next number.
pub be_value-increment_vec_u8 :
    (v : Bytes) → IsBytes v → be_value (increment_vec_u8 v) ≡ be_value v + 1
unfolding increment_vec_u8
be_value-increment_vec_u8 v h =
    ground (arith, increment_loop_value v h, ap (λ n. 256 ^ n) (length-increment_loop v))

pub length-decrement_loop : (v : Bytes) → length (decrement_loop v).0 ≡ length v
unfolding decrement_loop
length-decrement_loop [] = refl
length-decrement_loop (b ∷ bs) = ground (arith, length-decrement_loop bs)

mul_pred : (b p : ℕ) → 0 < b → (b - 1) * p + p ≡ b * p
mul_pred zero p h = elim h [ ]
mul_pred (suc b) p h = omega (arith, ap (λ (t : ℕ). t * p) (b_eq b))
  where
    b_eq : (n : ℕ) → suc n - 1 ≡ n
    b_eq n = omega arith

decrement_loop_value :
    (v : Bytes)
    → IsBytes v
    → be_value (decrement_loop v).0 + 1
      ≡ be_value v + (if (decrement_loop v).1 then 256 ^ length v else 0)
unfolding decrement_loop
decrement_loop_value [] h = omega arith
decrement_loop_value (b ∷ bs) h = ground (
  arith,
  decrement_loop_value bs h.1,
  ap (λ n. 256 ^ n) (length-decrement_loop bs),
  pow-suc 256 (length bs),
  mul_pred b (256 ^ length bs),
)

decrement_loop_borrow : (v : Bytes) → (decrement_loop v).1 ≡ true → be_value v ≡ 0
unfolding decrement_loop
decrement_loop_borrow [] h = refl
decrement_loop_borrow (b ∷ bs) h = ground (arith, decrement_loop_borrow bs)

-- A string whose number is not 0 is stepped to the number before it, at the same length.
pub be_value-decrement_vec_u8 :
    (v : Bytes)
    → IsBytes v
    → 0 < be_value v
    → (be_value (decrement_vec_u8 v) + 1 ≡ be_value v) × (length (decrement_vec_u8 v) ≡ length v)
unfolding decrement_vec_u8
be_value-decrement_vec_u8 v h p = elim (Bool-cases (decrement_loop v).1) [
  | inl borrow ↦ absurd (omega (arith, decrement_loop_borrow v borrow))
  | inr done ↦ rw done (ground (arith, decrement_loop_value v h), length-decrement_loop v)
]
