-- ===== src/Bytes.antt =====
-- src/storage/util.rs: the order of byte strings, and the successor and predecessor of a byte string
-- read as a big-endian number. A byte is a number below 256; the `i8` results -1, 0 and 1 of
-- `bytes_compare` are `Ordering`. A `[u8; 24]` is a list of bytes of length 24.
pub mod Order
pub mod Value
pub mod Range
use hypersnap.Shared.{
  ℕ, ◌+◌, ◌-◌, ◌<◌, compare, Ordering, Bool, true, false, List, [], ◌∷◌, length, All, Option, none,
  some, Result, ok, err, Error, hub, ◌==◌, if◌then◌else◌,
}

abbrev pub Bytes : Type 0
Bytes = List ℕ

abbrev pub IsBytes : Bytes → Type 0
IsBytes = All (λ b. b < 256)

-- The loop over the common length, then the test on the lengths.
unfoldable pub bytes_compare : Bytes → Bytes → Ordering
bytes_compare [] [] = Ordering.eq
bytes_compare [] (y ∷ ys) = Ordering.lt
bytes_compare (x ∷ xs) [] = Ordering.gt
bytes_compare (x ∷ xs) (y ∷ ys) = elim (compare x y) [
  | Ordering.lt ↦ Ordering.lt
  | Ordering.eq ↦ bytes_compare xs ys
  | Ordering.gt ↦ Ordering.gt
]

-- The loop `for byte in result.iter_mut().rev()`: the tail is stepped first, and the flag that comes
-- with it is `carry`.
unfoldable pub increment_loop : Bytes → Bytes × Bool
increment_loop [] = ([], true)
increment_loop (b ∷ bs) =
    let (rest, carry) = increment_loop bs in
    if carry
    then (if b == 255 then (0 ∷ rest, true) else ((b + 1) ∷ rest, false))
    else (b ∷ rest, false)

unfoldable pub increment_vec_u8 : Bytes → Bytes
unfolding increment_loop
increment_vec_u8 vec =
    let (result, carry) = increment_loop vec in if carry then 1 ∷ result else result

unfoldable pub decrement_loop : Bytes → Bytes × Bool
decrement_loop [] = ([], true)
decrement_loop (b ∷ bs) =
    let (rest, borrow) = decrement_loop bs in
    if borrow
    then (if b == 0 then (255 ∷ rest, true) else ((b - 1) ∷ rest, false))
    else (b ∷ rest, false)

-- `Vec::pop`: the last element goes.
unfoldable pub pop : Bytes → Bytes
pop [] = []
pop (b ∷ []) = []
pop (b ∷ c ∷ bs) = b ∷ pop (c ∷ bs)

unfoldable pub decrement_vec_u8 : Bytes → Bytes
unfolding decrement_loop pop
decrement_vec_u8 vec =
    let (result, borrow) = decrement_loop vec in if borrow then pop result else result

unfoldable pub vec_to_u8_24 : Option Bytes → Result Error Bytes
vec_to_u8_24 (some vec) =
    if length vec == 24
    then ok vec
    else err (hub "bad_request.internal_error" "message_ts_hash is not 24 bytes: ")
vec_to_u8_24 none = err (hub "bad_request.internal_error" "message_ts_hash is not 24 bytes: None")
