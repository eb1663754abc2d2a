-- ===== src/Trie/Nibbles.antt =====
-- Bytes as pairs of nibbles.
use hypersnap.Shared.{ℕ, ◌%◌, ◌<◌, ◌≡◌, refl, [], ◌∷◌, ok, length, All, arith}
use hypersnap.Bytes.{Bytes}
use hypersnap.Trie.{expand_nibbles, combine_chunks, combine_nibbles}

combine_chunks-expand :
    (bytes : Bytes)
    → All (λ b. b < 256) bytes
    → (combine_chunks (expand_nibbles bytes) ≡ bytes) × (length (expand_nibbles bytes) % 2 ≡ 0)
unfolding combine_chunks expand_nibbles
combine_chunks-expand [] all = (refl, refl)
combine_chunks-expand (b ∷ bytes) (small, all) =
    let (back, even) = combine_chunks-expand bytes all in
    (cons (omega (arith, small)) back, omega (arith, even))
  where
    cons : {x y : ℕ} {xs ys : Bytes} → x ≡ y → xs ≡ ys → ◌≡◌ {A = Bytes} (x ∷ xs) (y ∷ ys)
    cons p q = λ i. p i ∷ q i

expand-combine_chunks :
    (nibbles : Bytes)
    → All (λ n. n < 16) nibbles
    → length nibbles % 2 ≡ 0
    → expand_nibbles (combine_chunks nibbles) ≡ nibbles
unfolding combine_chunks expand_nibbles
expand-combine_chunks [] all even = refl
expand-combine_chunks (a ∷ []) all even = absurd (omega (arith, even))
expand-combine_chunks (a ∷ b ∷ nibbles) (ha, (hb, all)) even =
    cons (omega (arith, ha, hb)) (omega (arith, ha, hb))
      (expand-combine_chunks nibbles all (omega (arith, even)))
  where
    cons :
        {x y u v : ℕ} {xs ys : Bytes}
        → x ≡ y
        → u ≡ v
        → xs ≡ ys
        → ◌≡◌ {A = Bytes} (x ∷ u ∷ xs) (y ∷ v ∷ ys)
    cons p r q = λ i. p i ∷ r i ∷ q i

-- Combining the nibbles of bytes gives the bytes back, and expanding combined nibbles gives the
-- nibbles back, where they are below 16 and even in number.
pub nibbles_inverse :
    (bytes nibbles : Bytes)
    → All (λ b. b < 256) bytes
    → All (λ n. n < 16) nibbles
    → length nibbles % 2 ≡ 0
    → (combine_nibbles (expand_nibbles bytes) ≡ ok bytes)
      × (bs : Bytes) × (combine_nibbles nibbles ≡ ok bs)
      × (expand_nibbles bs ≡ nibbles)
unfolding combine_nibbles
nibbles_inverse bytes nibbles all small even =
    let (back, evens) = combine_chunks-expand bytes all in
    (
      ground (arith, back, evens),
      combine_chunks nibbles,
      ground (arith, even),
      expand-combine_chunks nibbles small even,
    )
