-- ===== src/Keys/BigEndian.antt =====
-- `u32::to_be_bytes`, `u64::to_be_bytes` and their inverses, with the laws that the keys rest on.
use hypersnap.Shared.{ℕ, ◌+◌, ◌*◌, ◌/◌, ◌%◌, ◌^◌, ◌<◌, ◌≡◌, compare, [], ◌∷◌, ◌++◌, arith}
use hypersnap.Bytes.{Bytes, IsBytes, bytes_compare}

unfoldable pub be_bytes_4 : ℕ → Bytes
be_bytes_4 n = n / 2 ^ 24 % 256 ∷ n / 2 ^ 16 % 256 ∷ n / 2 ^ 8 % 256 ∷ n % 256 ∷ []

-- Of four bytes.
unfoldable pub be_number_4 : Bytes → ℕ
be_number_4 (a ∷ b ∷ c ∷ d ∷ []) = a * 2 ^ 24 + b * 2 ^ 16 + c * 2 ^ 8 + d
be_number_4 _ = 0

unfoldable pub be_bytes_8 : ℕ → Bytes
unfolding be_bytes_4
be_bytes_8 n = be_bytes_4 (n / 2 ^ 32) ++ be_bytes_4 (n % 2 ^ 32)

pub be_number_4-be_bytes_4 : (n : ℕ) → n < 2 ^ 32 → be_number_4 (be_bytes_4 n) ≡ n
unfolding be_bytes_4 be_number_4
be_number_4-be_bytes_4 n h = omega arith

pub be_bytes_4-IsBytes : (n : ℕ) → IsBytes (be_bytes_4 n)
unfolding be_bytes_4
be_bytes_4-IsBytes n = omega arith

-- The big-endian bytes of two numbers compare as the numbers do, whatever follows them.
pub compare-be_bytes_4 :
    (m n : ℕ) → m < 2 ^ 32 → n < 2 ^ 32 → bytes_compare (be_bytes_4 m) (be_bytes_4 n) ≡ compare m n
unfolding be_bytes_4 bytes_compare
compare-be_bytes_4 m n hm hn = ground arith
