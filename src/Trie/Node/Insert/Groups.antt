-- ===== src/Trie/Node/Insert/Groups.antt =====
-- The groups of keys by their next character: together they hold the keys.
use hypersnap.Shared.{
  ℕ, suc, ◌≡◌, ◌≢◌, Bool, false, ◌&&◌, ◌||◌, List, [], ◌∷◌, ◌++◌, arith, All, length, ◌==◌,
  Bool-cases, inl, inr,
}
use hypersnap.Bytes.{Bytes}
use hypersnap.Database.{bytes_eq}
use hypersnap.Trie.Node.Insert.{Placed, Group, add_to_group, group_keys, rests_of}

unfoldable pub contains_key : List Bytes → Bytes → Bool
contains_key [] key = false
contains_key (k ∷ keys) key = bytes_eq k key || contains_key keys key

unfoldable pub in_groups : ℕ → Bytes → List Group → Bool
unfolding contains_key rests_of
in_groups c rest [] = false
in_groups c rest (g ∷ groups) =
    (g.char == c && contains_key (rests_of g.keys) rest) || in_groups c rest groups

-- Keys of `n` characters, at least one.
abbrev pub IsGroup : ℕ → Group → Type 0
IsGroup n g = (g.keys ≢ []) × All (λ k. length k ≡ n) (rests_of g.keys)

snoc-ne-nil : (keys : List Placed) (key : Placed) → keys ++ key ∷ [] ≢ []
snoc-ne-nil [] key h = cc
snoc-ne-nil (k ∷ keys) key h = cc

contains_key-snoc :
    (keys : List Placed) (i : ℕ) (s rest : Bytes)
    → contains_key (rests_of (keys ++ (i, s) ∷ [])) rest
      ≡ contains_key (rests_of keys) rest || bytes_eq s rest
unfolding contains_key rests_of
contains_key-snoc [] i s rest = ground arith
contains_key-snoc ((j, k) ∷ keys) i s rest = ground (arith, contains_key-snoc keys i s rest)

All-snoc :
    (n : ℕ) (keys : List Placed) (i : ℕ) (s : Bytes)
    → All (λ k. length k ≡ n) (rests_of keys)
    → length s ≡ n
    → All (λ k. length k ≡ n) (rests_of (keys ++ (i, s) ∷ []))
unfolding rests_of
All-snoc n [] i s all h = (h, tt)
All-snoc n ((j, k) ∷ keys) i s all h = (all.0, All-snoc n keys i s all.1 h)

in_groups-add_to_group :
    (c d i : ℕ) (s rest : Bytes) (groups : List Group)
    → in_groups c rest (add_to_group d (i, s) groups)
      ≡ in_groups c rest groups || (d == c && bytes_eq s rest)
unfolding in_groups add_to_group
in_groups-add_to_group c d i s rest [] = ground arith
in_groups-add_to_group c d i s rest (g ∷ groups) =
    ground (arith, in_groups-add_to_group c d i s rest groups, contains_key-snoc g.keys i s rest)

add_to_group-IsGroup :
    (n d i : ℕ) (s : Bytes) (groups : List Group)
    → All (IsGroup n) groups
    → length s ≡ n
    → All (IsGroup n) (add_to_group d (i, s) groups)
unfolding add_to_group rests_of
add_to_group-IsGroup n d i s [] all h = (((λ e. cc), (h, tt)), tt)
add_to_group-IsGroup n d i s (g ∷ groups) all h = elim (Bool-cases (g.char == d)) [
  | inl same ↦ rw same ((snoc-ne-nil g.keys (i, s), All-snoc n g.keys i s all.0.1 h), all.1)
  | inr other ↦ rw other (all.0, add_to_group-IsGroup n d i s groups all.1 h)
]

pub in_groups-group_keys :
    (n : ℕ) (keys : List Placed) (groups : List Group) (c : ℕ) (rest : Bytes)
    → All (λ k. length k ≡ suc n) (rests_of keys)
    → in_groups c rest (group_keys keys groups)
      ≡ in_groups c rest groups || contains_key (rests_of keys) (c ∷ rest)
unfolding group_keys contains_key rests_of bytes_eq
in_groups-group_keys n [] groups c rest all = ground arith
in_groups-group_keys n ((i, []) ∷ keys) groups c rest all = absurd (omega (arith, all.0))
in_groups-group_keys n ((i, d ∷ s) ∷ keys) groups c rest all = ground (
  arith,
  in_groups-group_keys n keys (add_to_group d (i, s) groups) c rest all.1,
  in_groups-add_to_group c d i s rest groups,
)

pub group_keys-IsGroup :
    (n : ℕ) (keys : List Placed) (groups : List Group)
    → All (IsGroup n) groups
    → All (λ k. length k ≡ suc n) (rests_of keys)
    → All (IsGroup n) (group_keys keys groups)
unfolding group_keys rests_of
group_keys-IsGroup n [] groups good all = good
group_keys-IsGroup n ((i, []) ∷ keys) groups good all = absurd (omega (arith, all.0))
group_keys-IsGroup n ((i, d ∷ s) ∷ keys) groups good all =
    group_keys-IsGroup n keys (add_to_group d (i, s) groups)
      (add_to_group-IsGroup n d i s groups good (omega (arith, all.0))) all.1
