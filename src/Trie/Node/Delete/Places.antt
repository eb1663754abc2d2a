-- ===== src/Trie/Node/Delete/Places.antt =====
-- The results of the children stand at places of their own, so that their number is counted right.
use hypersnap.Shared.{
  ℕ, zero, suc, ◌+◌, ◌≤◌, ◌<◌, ◌≡◌, refl, some, Bool, true, false, List, [], ◌∷◌, ◌++◌, arith,
  length, ◌==◌, All, Bool-cases, inl, inr, if◌then◌else◌,
}
use hypersnap.Bytes.{Bytes}
use hypersnap.Trie.Node.Delete.{first_match}
use hypersnap.Database.{bytes_eq}
use hypersnap.Trie.Node.Insert.{
  Placed, Group, falses, set_result, enumerate, add_to_group, group_keys, rests_of, place_results,
  count_true,
}

-- 1 for a place that holds `false`.
unfoldable pub vacancy : ℕ → List Bool → ℕ
vacancy p [] = 0
vacancy zero (b ∷ results) = if b then 0 else 1
vacancy (suc p) (b ∷ results) = vacancy p results

-- How often a place is used.
unfoldable pub uses : ℕ → List Placed → ℕ
uses p [] = 0
uses p ((i, rest) ∷ keys) = if i == p then suc (uses p keys) else uses p keys

unfoldable pub group_uses : ℕ → List Group → ℕ
unfolding uses
group_uses p [] = 0
group_uses p (g ∷ groups) = uses p g.keys + group_uses p groups

vacancy_le : (p : ℕ) (results : List Bool) → vacancy p results ≤ 1
unfolding vacancy
vacancy_le p [] = omega arith
vacancy_le zero (true ∷ results) = omega arith
vacancy_le zero (false ∷ results) = omega arith
vacancy_le (suc p) (b ∷ results) = vacancy_le p results

vacancy-set_result :
    (p i : ℕ) (b : Bool) (results : List Bool)
    → (i == p) ≡ false
    → vacancy p (set_result i b results) ≡ vacancy p results
unfolding vacancy set_result
vacancy-set_result p i b [] h = refl
vacancy-set_result zero zero b (r ∷ results) h = absurd (ground (arith, h))
vacancy-set_result zero (suc i) b (r ∷ results) h = refl
vacancy-set_result (suc p) zero b (r ∷ results) h = refl
vacancy-set_result (suc p) (suc i) b (r ∷ results) h =
    vacancy-set_result p i b results (ground (arith, h))

pub count_true-set_result :
    (i : ℕ) (b : Bool) (results : List Bool)
    → 1 ≤ vacancy i results
    → count_true (set_result i b results) ≡ count_true results + (if b then 1 else 0)
unfolding vacancy set_result count_true
count_true-set_result i b [] h = absurd (omega (arith, h))
count_true-set_result zero b (true ∷ results) h = absurd (omega (arith, h))
count_true-set_result zero true (false ∷ results) h = omega arith
count_true-set_result zero false (false ∷ results) h = omega arith
count_true-set_result (suc i) b (true ∷ results) h =
    omega (arith, count_true-set_result i b results h)
count_true-set_result (suc i) b (false ∷ results) h = count_true-set_result i b results h

pub length-set_result :
    (i : ℕ) (b : Bool) (results : List Bool) → length (set_result i b results) ≡ length results
unfolding set_result
length-set_result i b [] = refl
length-set_result zero b (r ∷ results) = refl
length-set_result (suc i) b (r ∷ results) = omega (arith, length-set_result i b results)

pub length-place_results :
    (keys : List Placed) (bs results : List Bool)
    → length (place_results keys bs results) ≡ length results
unfolding place_results
length-place_results [] bs results = refl
length-place_results (key ∷ keys) [] results = refl
length-place_results ((i, rest) ∷ keys) (b ∷ bs) results =
    omega
      (arith, length-place_results keys bs (set_result i b results), length-set_result i b results)

-- After a key is placed there is room for the others.
room_left :
    (extra : ℕ → ℕ) (i : ℕ) (rest : Bytes) (b : Bool) (keys : List Placed) (results : List Bool)
    → ((p : ℕ) → uses p ((i, rest) ∷ keys) + extra p ≤ vacancy p results)
    → (p : ℕ) → uses p keys + extra p ≤ vacancy p (set_result i b results)
unfolding uses
room_left extra i rest b keys results room p = elim (Bool-cases (i == p)) [
  | inl same ↦ ground (arith, same, room p, vacancy_le p results)
  | inr other ↦ ground (arith, other, room p, vacancy-set_result p i b results other)
]

pub place_results-room :
    (extra : ℕ → ℕ) (keys : List Placed) (bs results : List Bool)
    → ((p : ℕ) → uses p keys + extra p ≤ vacancy p results)
    → (p : ℕ) → extra p ≤ vacancy p (place_results keys bs results)
unfolding place_results
place_results-room extra [] bs results room p = ground (arith, room p)
place_results-room extra (key ∷ keys) [] results room p = omega (arith, room p)
place_results-room extra ((i, rest) ∷ keys) (b ∷ bs) results room p =
    place_results-room extra keys bs (set_result i b results)
      (room_left extra i rest b keys results room) p

pub count_true-place_results :
    (extra : ℕ → ℕ) (keys : List Placed) (bs results : List Bool)
    → ((p : ℕ) → uses p keys + extra p ≤ vacancy p results)
    → length bs ≡ length (rests_of keys)
    → count_true (place_results keys bs results) ≡ count_true results + count_true bs
unfolding place_results rests_of count_true
count_true-place_results extra [] [] results room h = omega arith
count_true-place_results extra [] (b ∷ bs) results room h = absurd (omega (arith, h))
count_true-place_results extra (key ∷ keys) [] results room h = absurd (omega (arith, h))
count_true-place_results extra ((i, rest) ∷ keys) (b ∷ bs) results room h =
    let later =
      count_true-place_results extra keys bs (set_result i b results)
        (room_left extra i rest b keys results room) (omega (arith, h)) in
    ground (arith, later, count_true-set_result i b results (unfold uses in ground (arith, room i)))

uses-snoc :
    (p : ℕ) (keys : List Placed) (i : ℕ) (rest : Bytes)
    → uses p (keys ++ (i, rest) ∷ []) ≡ uses p keys + uses p ((i, rest) ∷ [])
unfolding uses
uses-snoc p [] i rest = omega arith
uses-snoc p ((j, k) ∷ keys) i rest = ground (arith, uses-snoc p keys i rest)

group_uses-add_to_group :
    (p c i : ℕ) (rest : Bytes) (groups : List Group)
    → group_uses p (add_to_group c (i, rest) groups) ≡ uses p ((i, rest) ∷ []) + group_uses p groups
unfolding group_uses add_to_group
group_uses-add_to_group p c i rest [] = omega arith
group_uses-add_to_group p c i rest (g ∷ groups) = elim (Bool-cases (g.char == c)) [
  | inl same ↦ rw same (omega (arith, uses-snoc p g.keys i rest))
  | inr other ↦ rw other (omega (arith, group_uses-add_to_group p c i rest groups))
]

pub group_uses-group_keys :
    (n p : ℕ) (keys : List Placed) (groups : List Group)
    → All (λ k. length k ≡ suc n) (rests_of keys)
    → group_uses p (group_keys keys groups) ≡ uses p keys + group_uses p groups
unfolding group_keys uses rests_of
group_uses-group_keys n p [] groups long = omega arith
group_uses-group_keys n p ((i, []) ∷ keys) groups (first, long) = absurd (omega (arith, first))
group_uses-group_keys n p ((i, c ∷ rest) ∷ keys) groups (first, long) = ground (
  arith,
  group_uses-group_keys n p keys (add_to_group c (i, rest) groups) long,
  group_uses-add_to_group p c i rest groups,
)

pub uses-enumerate_below : (p i : ℕ) (keys : List Bytes) → p < i → uses p (enumerate i keys) ≡ 0
unfolding uses enumerate
uses-enumerate_below p i [] h = refl
uses-enumerate_below p i (key ∷ keys) h =
    ground (arith, h, uses-enumerate_below p (i + 1) keys (omega (arith, h)))

pub uses-enumerate :
    (p q i : ℕ) (keys : List Bytes)
    → q ≡ i + p
    → uses q (enumerate i keys) ≤ vacancy p (falses keys)
unfolding uses enumerate falses vacancy
uses-enumerate p q i [] h = omega arith
uses-enumerate zero q i (key ∷ keys) h =
    ground (arith, h, uses-enumerate_below q (i + 1) keys (omega (arith, h)))
uses-enumerate (suc p) q i (key ∷ keys) h =
    ground (arith, h, uses-enumerate p q (i + 1) keys (omega (arith, h)))

-- There is room for the results of all groups.
pub groups_room :
    (n : ℕ) (keys : List Bytes)
    → All (λ k. length k ≡ suc n) (rests_of (enumerate 0 keys))
    → (p : ℕ) → group_uses p (group_keys (enumerate 0 keys) []) ≤ vacancy p (falses keys)
unfolding group_uses
groups_room n keys long p = omega (
  arith,
  group_uses-group_keys n p (enumerate 0 keys) [] long,
  uses-enumerate p p 0 keys (omega arith),
)

pub length-falses : (keys : List Bytes) → length (falses keys) ≡ length keys
unfolding falses
length-falses [] = refl
length-falses (key ∷ keys) = omega (arith, length-falses keys)

pub count_true-falses : (keys : List Bytes) → count_true (falses keys) ≡ 0
unfolding falses count_true
count_true-falses [] = refl
count_true-falses (key ∷ keys) = count_true-falses keys

-- The first key that matches has one of the places, and so its result alone is counted.
pub first_match-place :
    (leaf_key prefix : Bytes) (i k : ℕ) (keys : List Bytes)
    → first_match leaf_key prefix (enumerate i keys) ≡ some k
    → (j : ℕ) × (k ≡ i + j) × (1 ≤ vacancy j (falses keys))
unfolding first_match enumerate falses vacancy
first_match-place leaf_key prefix i k [] h = ground (arith, h)
first_match-place leaf_key prefix i k (key ∷ keys) h =
    elim (Bool-cases (bytes_eq leaf_key (prefix ++ key))) [
      | inl same ↦ (0, ground (arith, same, h), omega arith)
      | inr other ↦
          let (j, place, free) =
            first_match-place leaf_key prefix (i + 1) k keys (ground (arith, other, h)) in
          (suc j, omega (arith, place), free)
    ]
